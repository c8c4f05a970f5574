-- ===== src/Frames/RoundTrip.antt =====
-- What is encoded is decoded again, and what decodes was a frame.
use conference_go.Common.{
  ℕ, ◌^◌, ◌<◌, true, Option, none, some, ◌≡◌, refl, arith, ◌↔◌, ◌⊎◌, ap, sym, ◌∙◌, inl, inr,
  Bool-cases, subst,
}
use conference_go.Frames.{
  Bytes, Frame, Decoded, decoded, bad_format, bad_msg_id, bad_flag, invalid_flag, is_valid_flag,
  format, parse_uint, cut, with_semicolon, encode, decode, decode_cut, decode_evt, decode_id,
  decode_rest, decode_flag,
}
use conference_go.Frames.Numerals.{Denotes, Denotes-IsPlain, parse_uint_iff}
use conference_go.Frames.Digits.{IsPlain, cut-append, cut_iff, parse_uint-format, format-IsPlain}

-- The text of a frame, whatever its numbers are written as.
abbrev pub joined : Bytes → Bytes → Bytes → Bytes → Bytes
joined evt id flag content = with_semicolon evt (with_semicolon id (with_semicolon flag content))

abbrev IsRead : Bytes → Frame → Type 0
IsRead s f =
    (id flag : Bytes) × (s ≡ joined f.evt id flag f.content)
    × IsPlain f.evt
    × IsPlain id
    × IsPlain flag
    × (parse_uint 64 id ≡ some f.msg_id)
    × (parse_uint 8 flag ≡ some f.flag)
    × (is_valid_flag f.flag ≡ true)

decode-IsRead : (s : Bytes) (f : Frame) → IsRead s f → decode s ≡ decoded f
unfolding decode
decode-IsRead s f (id, flag, e, he, hi, hf, pi, pf, v) =
    ap decode e
    ∙ ap decode_cut (cut-append f.evt (with_semicolon id (with_semicolon flag f.content)) he)
    ∙ ap (decode_evt f.evt) (cut-append id (with_semicolon flag f.content) hi)
    ∙ ap (decode_id f.evt (with_semicolon flag f.content)) pi
    ∙ ap (decode_rest f.evt f.msg_id) (cut-append flag f.content hf)
    ∙ ap (decode_flag f.evt f.msg_id f.content) pf
    ∙ rw v refl

-- If the outcome is a frame, the text is one.
abbrev Sound : Bytes → Decoded → Type 0
Sound s (decoded f) = IsRead s f
Sound s bad_format = Unit
Sound s bad_msg_id = Unit
Sound s bad_flag = Unit
Sound s (invalid_flag flag) = Unit

decode_flag-Sound :
    (evt id flag content : Bytes) (msg_id : ℕ) (o : Option ℕ)
    → IsPlain evt
    → IsPlain id
    → IsPlain flag
    → parse_uint 64 id ≡ some msg_id
    → parse_uint 8 flag ≡ o
    → Sound (joined evt id flag content) (decode_flag evt msg_id content o)
decode_flag-Sound evt id flag content msg_id none he hi hf pi pf = tt
decode_flag-Sound evt id flag content msg_id (some n) he hi hf pi pf =
    elim (Bool-cases (is_valid_flag n)) [
      | inl v ↦ rw v (id, flag, refl, he, hi, hf, pi, pf, v)
      | inr v ↦ rw v tt
    ]

decode_rest-Sound :
    (evt id s : Bytes) (msg_id : ℕ) (o : Option (Bytes × Bytes))
    → IsPlain evt
    → IsPlain id
    → parse_uint 64 id ≡ some msg_id
    → cut s ≡ o
    → Sound (with_semicolon evt (with_semicolon id s)) (decode_rest evt msg_id o)
decode_rest-Sound evt id s msg_id none he hi pi e = tt
decode_rest-Sound evt id s msg_id (some (flag, content)) he hi pi e =
    let (q, hf) = (cut_iff s flag content).0 e in
    subst
      (λ t.
        Sound (with_semicolon evt (with_semicolon id t))
          (decode_rest evt msg_id (some (flag, content))))
      (sym q) (decode_flag-Sound evt id flag content msg_id _ he hi hf pi refl)

decode_id-Sound :
    (evt id s : Bytes) (o : Option ℕ)
    → IsPlain evt
    → IsPlain id
    → parse_uint 64 id ≡ o
    → Sound (with_semicolon evt (with_semicolon id s)) (decode_id evt s o)
decode_id-Sound evt id s none he hi pi = tt
decode_id-Sound evt id s (some n) he hi pi = decode_rest-Sound evt id s n _ he hi pi refl

decode_evt-Sound :
    (evt s : Bytes) (o : Option (Bytes × Bytes))
    → IsPlain evt
    → cut s ≡ o
    → Sound (with_semicolon evt s) (decode_evt evt o)
decode_evt-Sound evt s none he e = tt
decode_evt-Sound evt s (some (id, rest)) he e =
    let (q, hi) = (cut_iff s id rest).0 e in
    subst (λ t. Sound (with_semicolon evt t) (decode_evt evt (some (id, rest)))) (sym q)
      (decode_id-Sound evt id rest _ he hi refl)

decode_cut-Sound : (s : Bytes) (o : Option (Bytes × Bytes)) → cut s ≡ o → Sound s (decode_cut o)
decode_cut-Sound s none e = tt
decode_cut-Sound s (some (evt, rest)) e =
    let (q, he) = (cut_iff s evt rest).0 e in
    subst (λ t. Sound t (decode_cut (some (evt, rest)))) (sym q)
      (decode_evt-Sound evt rest _ he refl)

-- The four flags: an answer, an error, a request that wants an answer, and a message that wants none.
abbrev pub IsFlag : ℕ → Type 0
IsFlag flag = (flag ≡ 0) ⊎ ((flag ≡ 1) ⊎ ((flag ≡ 2) ⊎ (flag ≡ 4)))

is_valid_flag_iff : (flag : ℕ) → (is_valid_flag flag ≡ true) ↔ IsFlag flag
unfolding is_valid_flag
is_valid_flag_iff flag = ground arith

-- The text of a frame: the event, the decimal numerals of the number and of the flag, and the data
abbrev pub IsFrame : Bytes → Frame → Type 0
IsFrame s f =
    (id flag : Bytes) × (s ≡ joined f.evt id flag f.content)
    × IsPlain f.evt
    × Denotes id f.msg_id
    × (f.msg_id < 2 ^ 64)
    × Denotes flag f.flag
    × IsFlag f.flag

IsFlag-below : (flag : ℕ) → IsFlag flag → flag < 2 ^ 8
IsFlag-below flag h = ground (arith, h)

IsRead-IsFrame : (s : Bytes) (f : Frame) → IsFrame s f → IsRead s f
IsRead-IsFrame s f (id, flag, e, he, di, b, df, v) = (
  id,
  flag,
  e,
  he,
  Denotes-IsPlain id f.msg_id di,
  Denotes-IsPlain flag f.flag df,
  (parse_uint_iff 64 id f.msg_id).1 (di, b),
  (parse_uint_iff 8 flag f.flag).1 (df, IsFlag-below f.flag v),
  (is_valid_flag_iff f.flag).1 v,
)

IsFrame-IsRead : (s : Bytes) (f : Frame) → IsRead s f → IsFrame s f
IsFrame-IsRead s f (id, flag, e, he, hi, hf, pi, pf, v) =
    let (di, b) = (parse_uint_iff 64 id f.msg_id).0 pi in
    let (df, _) = (parse_uint_iff 8 flag f.flag).0 pf in
    (id, flag, e, he, di, b, df, (is_valid_flag_iff f.flag).0 v)

-- Exactly the texts that are an event without `;`, the decimal numeral of a number of 64 bits, that of one
-- of the flags 0, 1, 2 and 4, and data, with a `;` after each of the first three, are decoded, and to
-- these.
pub decode_iff : (s : Bytes) (f : Frame) → (decode s ≡ decoded f) ↔ IsFrame s f
unfolding decode
decode_iff s f = (
  λ e. IsFrame-IsRead s f (subst (Sound s) e (decode_cut-Sound s _ refl)),
  λ h. decode-IsRead s f (IsRead-IsFrame s f h),
)

flag_below : (flag : ℕ) → is_valid_flag flag ≡ true → flag < 2 ^ 8
unfolding is_valid_flag
flag_below flag h = ground (arith, h)

-- A frame whose event has no `;`, whose number has 64 bits and whose flag is one of the four is read back
-- from its text.
pub decode-encode :
    (f : Frame)
    → IsPlain f.evt
    → f.msg_id < 2 ^ 64
    → is_valid_flag f.flag ≡ true
    → (text : Bytes) × (encode f.evt f.msg_id f.flag (some f.content) ≡ some text)
      × (decode text ≡ decoded f)
unfolding encode
decode-encode f h h64 v = (
  joined f.evt (format f.msg_id) (format f.flag) f.content,
  refl,
  decode-IsRead _ f (
    format f.msg_id,
    format f.flag,
    refl,
    h,
    format-IsPlain f.msg_id,
    format-IsPlain f.flag,
    parse_uint-format 64 f.msg_id h64 h64,
    parse_uint-format 8 f.flag (flag_below f.flag v) (omega (arith, flag_below f.flag v)),
    v,
  ),
)

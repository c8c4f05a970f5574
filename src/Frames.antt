-- ===== src/Frames.antt =====
-- websocket/signal.go: the text that carries a message over a socket, the event, a number, a flag and
-- the data, separated by `;`.
pub mod Digits
pub mod Numerals
pub mod RoundTrip
use conference_go.Common.{
  ℕ, zero, suc, ◌+◌, ◌-◌, ◌*◌, ◌/◌, ◌%◌, ◌^◌, ◌==◌, ltb, leb, Bool, true, false, ◌||◌, List, [],
  ◌∷◌, ◌++◌, Option, none, some, if◌then◌else◌,
}

-- A text of Go, byte by byte.
abbrev pub Bytes : Type 0
Bytes = List ℕ

-- The constants of `WsMsgFlag`.
abbrev pub is_ack_normal : ℕ
is_ack_normal = 0

abbrev pub is_ack_err : ℕ
is_ack_err = 1

abbrev pub need_ack : ℕ
need_ack = 2

abbrev pub no_ack : ℕ
no_ack = 4

-- `isValidWsMsgFlag`
unfoldable pub is_valid_flag : ℕ → Bool
is_valid_flag flag = (flag == 0) || (flag == 1) || (flag == 2) || (flag == 4)

-- `is_ack`
abbrev pub is_ack : ℕ → Bool
is_ack flag = (flag == is_ack_normal) || (flag == is_ack_err)

-- The decimal digits of a number, at most as many as the fuel.
unfoldable pub digits : ℕ → ℕ → Bytes
digits zero n = []
digits (suc k) n =
    let rest = digits k (n / 10) in
    if ltb n 10 then (b'0' + n) ∷ [] else rest ++ (b'0' + n % 10) ∷ []

-- `%d`, of a number of 64 bits: it has at most 20 digits.
abbrev pub format : ℕ → Bytes
format n = digits 20 n

-- The rest of a number, read digit by digit, none over the greatest allowed.
unfoldable pub scan : ℕ → Bytes → ℕ → Option ℕ
scan max [] n = some n
scan max (c ∷ s) n =
    if ltb c b'0' || ltb b'9' c
    then none
    else if ltb max (n * 10 + (c - b'0'))
    then none
    else scan max s (n * 10 + (c - b'0'))

-- `strconv.ParseUint` in base ten, for a size in bits
unfoldable pub parse_uint : ℕ → Bytes → Option ℕ
unfolding scan
parse_uint bits [] = none
parse_uint bits (c ∷ s) = scan (2 ^ bits - 1) (c ∷ s) 0

-- A text is cut at its first `;`.
unfoldable pub cut : Bytes → Option (Bytes × Bytes)
cut [] = none
cut (c ∷ s) =
    let rest = cut s in
    if c == b';' then some ([], s) else elim rest [ none ↦ none | some (a, b) ↦ some (c ∷ a, b) ]

-- Two texts with a `;` between them.
abbrev pub with_semicolon : Bytes → Bytes → Bytes
with_semicolon a b = a ++ (b';' ∷ b)

pub record Frame : Type 0 where
  pub evt : Bytes
  pub msg_id : ℕ
  pub flag : ℕ
  pub content : Bytes

-- The errors of `decodeWsTextData`.
pub data Decoded : Type 0 where
  decoded : Frame → Decoded
  bad_format bad_msg_id bad_flag : Decoded
  invalid_flag : ℕ → Decoded

-- `encodeWsTextData`, with the text of the data, which is none if it cannot be marshalled
unfoldable pub encode : Bytes → ℕ → ℕ → Option Bytes → Option Bytes
unfolding digits
encode evt msg_id flag none = none
encode evt msg_id flag (some content) =
    some
      (with_semicolon evt (with_semicolon (format msg_id) (with_semicolon (format flag) content)))

abbrev pub decode_flag : Bytes → ℕ → Bytes → Option ℕ → Decoded
decode_flag evt msg_id content none = bad_flag
decode_flag evt msg_id content (some flag) =
    if is_valid_flag flag
    then decoded (record { evt = evt; msg_id = msg_id; flag = flag; content = content })
    else invalid_flag flag

abbrev pub decode_rest : Bytes → ℕ → Option (Bytes × Bytes) → Decoded
decode_rest evt msg_id none = bad_format
decode_rest evt msg_id (some (flag, content)) = decode_flag evt msg_id content (parse_uint 8 flag)

abbrev pub decode_id : Bytes → Bytes → Option ℕ → Decoded
decode_id evt s none = bad_msg_id
decode_id evt s (some msg_id) = decode_rest evt msg_id (cut s)

abbrev pub decode_evt : Bytes → Option (Bytes × Bytes) → Decoded
decode_evt evt none = bad_format
decode_evt evt (some (msg_id, s)) = decode_id evt s (parse_uint 64 msg_id)

abbrev pub decode_cut : Option (Bytes × Bytes) → Decoded
decode_cut none = bad_format
decode_cut (some (evt, s)) = decode_evt evt (cut s)

-- `decodeWsTextData`; with an error the other results are not used
unfoldable pub decode : Bytes → Decoded
unfolding cut parse_uint is_valid_flag
decode s = decode_cut (cut s)

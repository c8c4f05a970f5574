-- ===== src/Frames/Numerals.antt =====
-- What `strconv.ParseUint` reads: the decimal numerals.
use conference_go.Common.{
  ℕ, ◌+◌, ◌-◌, ◌*◌, ◌^◌, ◌≤◌, ◌<◌, ltb, [], ◌∷◌, ◌++◌, some, none, ◌≡◌, ◌≢◌, ◌↔◌, refl, subst,
  arith, inl, inr, Bool-cases, ◌∙◌, sym, append_assoc, append-nil, some_inj, zero, suc, ◌||◌,
}
use conference_go.Frames.{Bytes, scan, parse_uint}
use conference_go.Frames.Digits.{IsPlain, IsPlain-append, scan-append, append_cons-ne-nil}

abbrev pub IsDigit : ℕ → Type 0
IsDigit c = (b'0' ≤ c) × (c ≤ b'9')

-- A numeral of at least one digit denotes a number: each further digit at its end is worth one, and makes
-- what is before it worth ten times as much.
pub data Denotes : Bytes → ℕ → Type 0 where
  digit : (c : ℕ) → IsDigit c → Denotes (c ∷ []) (c - b'0')
  longer :
      (s : Bytes) (n c : ℕ) → Denotes s n → IsDigit c → Denotes (s ++ c ∷ []) (n * 10 + (c - b'0'))

pub Denotes-IsPlain : (s : Bytes) (n : ℕ) → Denotes s n → IsPlain s
Denotes-IsPlain _ _ (digit c h) = (λ e. ground (arith, e, h), tt)
Denotes-IsPlain _ _ (longer s n c d h) =
    IsPlain-append s (c ∷ []) (Denotes-IsPlain s n d) (λ e. ground (arith, e, h), tt)

two_pow : (bits : ℕ) → 0 < 2 ^ bits
two_pow zero = omega arith
two_pow (suc k) = omega (arith, two_pow k)

Denotes-ne-nil : (s : Bytes) (n : ℕ) → Denotes s n → s ≢ []
Denotes-ne-nil _ _ (digit c h) = λ q. cc
Denotes-ne-nil _ _ (longer s n c d h) = append_cons-ne-nil s [] c

scan-Denotes : (max : ℕ) (s : Bytes) (n : ℕ) → Denotes s n → n ≤ max → scan max s 0 ≡ some n
unfolding scan
scan-Denotes max _ _ (digit c h) b = ground (arith, h, b)
scan-Denotes max _ _ (longer s n c d h) b =
    scan-append max s (c ∷ []) 0 n (scan-Denotes max s n d (omega (arith, b)))
    ∙ ground (arith, h, b)

scan-IsDigit :
    (max : ℕ) (c : ℕ) (t : Bytes) (n m : ℕ)
    → scan max (c ∷ t) n ≡ some m
    → IsDigit c × (n * 10 + (c - b'0') ≤ max) × (scan max t (n * 10 + (c - b'0')) ≡ some m)
unfolding scan
scan-IsDigit max c t n m e = elim (Bool-cases (ltb c b'0' || ltb b'9' c)) [
  | inl k ↦ absurd (none-some (rw k at e))
  | inr k ↦ elim (Bool-cases (ltb max (n * 10 + (c - b'0')))) [
    | inl l ↦ absurd (none-some (rw (k, l) at e))
    | inr l ↦ (ground (arith, k), ground (arith, l), rw (k, l) at e)
  ]
]
  where
    none-some : {x : ℕ} → none ≡ some x → ⊥
    none-some q = cc

-- Reading goes on behind a numeral.
Denotes-scan :
    (max : ℕ) (s t : Bytes) (n m : ℕ)
    → Denotes s n
    → n ≤ max
    → scan max t n ≡ some m
    → Denotes (s ++ t) m × (m ≤ max)
unfolding scan
Denotes-scan max s [] n m d b e = (
  subst (λ l. Denotes l m) (sym (append-nil s)) (subst (Denotes s) (some_inj e) d),
  omega (arith, some_inj e, b),
)
Denotes-scan max s (c ∷ t) n m d b e =
    let (h, b', e') = scan-IsDigit max c t n m e in
    subst (λ l. Denotes l m × (m ≤ max)) (append_assoc s (c ∷ []) t)
      (Denotes-scan max (s ++ c ∷ []) t (n * 10 + (c - b'0')) m (longer s n c d h) b' e')

-- Exactly the decimal numerals of the numbers of so many bits are read, and as these.
pub parse_uint_iff :
    (bits : ℕ) (s : Bytes) (n : ℕ) → (parse_uint bits s ≡ some n) ↔ (Denotes s n × (n < 2 ^ bits))
unfolding parse_uint
parse_uint_iff bits [] n = (λ e. cc, λ (d, _). absurd (Denotes-ne-nil [] n d refl))
parse_uint_iff bits (c ∷ s) n = (
  λ e.
      let (h, b, e') = scan-IsDigit (2 ^ bits - 1) c s 0 n e in
      let (d, b') =
        Denotes-scan (2 ^ bits - 1) (c ∷ []) s (c - b'0') n (digit c h) (omega (arith, b))
          (subst (λ x. scan (2 ^ bits - 1) s x ≡ some n) (omega arith) e') in
      (d, omega (arith, b', two_pow bits)),
  λ (d, b). scan-Denotes (2 ^ bits - 1) (c ∷ s) n d (omega (arith, b)),
)

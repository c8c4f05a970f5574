-- ===== src/Frames/Digits.antt =====
-- A number is read back from its decimal digits.
use conference_go.Common.{
  ℕ, zero, suc, ◌+◌, ◌-◌, ◌*◌, ◌/◌, ◌%◌, ◌^◌, ◌==◌, ◌≤◌, ◌<◌, ltb, false, [], ◌∷◌, ◌++◌, Option,
  none, some, ◌≡◌, ◌≢◌, ◌↔◌, refl, subst, ap, arith, inl, inr, Bool-cases, All, ◌∙◌,
}
use conference_go.Frames.{Bytes, digits, format, scan, parse_uint, cut, with_semicolon}

-- Reading goes on after a text that reads as a number.
pub scan-append :
    (max : ℕ) (s t : Bytes) (n m : ℕ) → scan max s n ≡ some m → scan max (s ++ t) n ≡ scan max t m
unfolding scan
scan-append max [] t n m e = ground (arith, e)
scan-append max (c ∷ s) t n m e = ground (arith, e, scan-append max s t (n * 10 + (c - b'0')) m)

scan-digits : (max k n : ℕ) → n < 10 ^ k → n ≤ max → scan max (digits k n) 0 ≡ some n
unfolding scan digits
scan-digits max zero n h m = ground (arith, h, m)
scan-digits max (suc k) n h m = elim (Bool-cases (ltb n 10)) [
  | inl e ↦ ground (arith, e, m)
  | inr e ↦ rw e (
      scan-append max (digits k (n / 10)) ((b'0' + n % 10) ∷ []) 0 (n / 10)
        (scan-digits max k (n / 10) (omega (arith, h)) (omega (arith, m)))
      ∙ ground (arith, m))
]

pub append_cons-ne-nil : (s t : Bytes) (c : ℕ) → s ++ c ∷ t ≢ []
append_cons-ne-nil [] t c e = cc
append_cons-ne-nil (x ∷ s) t c e = cc

digits-ne-nil : (k n : ℕ) → digits (suc k) n ≢ []
unfolding digits
digits-ne-nil k n = elim (Bool-cases (ltb n 10)) [
  | inl e ↦ rw e (λ q. cc)
  | inr e ↦ rw e (append_cons-ne-nil (digits k (n / 10)) [] _)
]

pub parse_uint-scan : (bits : ℕ) (s : Bytes) → s ≢ [] → parse_uint bits s ≡ scan (2 ^ bits - 1) s 0
unfolding parse_uint
parse_uint-scan bits [] h = absurd (h refl)
parse_uint-scan bits (c ∷ s) h = refl

pub parse_uint-format :
    (bits n : ℕ) → n < 2 ^ bits → n < 2 ^ 64 → parse_uint bits (format n) ≡ some n
parse_uint-format bits n h h64 =
    parse_uint-scan bits (format n) (digits-ne-nil 19 n)
    ∙ scan-digits (2 ^ bits - 1) 20 n (omega (arith, h64)) (omega (arith, h))

-- No byte of the text is a `;`.
abbrev pub IsPlain : Bytes → Type 0
IsPlain s = All (λ c. c ≢ b';') s

pub cut-append : (s t : Bytes) → IsPlain s → cut (with_semicolon s t) ≡ some (s, t)
unfolding cut
cut-append [] t h = refl
cut-append (c ∷ s) t (h, hs) = elim (Bool-cases (c == b';')) [
  | inl e ↦ absurd (h (ground (arith, e)))
  | inr e ↦ rw (e, cut-append s t hs) refl
]

-- What a longer text is cut into.
abbrev longer : ℕ → Option (Bytes × Bytes) → Option (Bytes × Bytes)
longer c none = none
longer c (some (a, b)) = some (c ∷ a, b)

IsCut : Bytes → Option (Bytes × Bytes) → Type 0
IsCut s none = Unit
IsCut s (some (a, b)) = (s ≡ with_semicolon a b) × IsPlain a

longer-IsCut :
    (c : ℕ) (s : Bytes) (o : Option (Bytes × Bytes))
    → (c == b';') ≡ false
    → IsCut s o
    → IsCut (c ∷ s) (longer c o)
unfolding IsCut
longer-IsCut c s none k h = tt
longer-IsCut c s (some (a, b)) k (e, h) = (ap (λ l. c ∷ l) e, (λ q. ground (arith, k, q), h))

cut-IsCut : (s : Bytes) → IsCut s (cut s)
unfolding cut IsCut
cut-IsCut [] = tt
cut-IsCut (c ∷ s) = elim (Bool-cases (c == b';')) [
  | inl k ↦ rw k (ap (λ x. x ∷ s) (ground (arith, k)), tt)
  | inr k ↦ rw k (longer-IsCut c s (cut s) k (cut-IsCut s))
]

-- The text before the first `;` and the text after it are what a cut finds.
pub cut_iff : (s a b : Bytes) → (cut s ≡ some (a, b)) ↔ ((s ≡ with_semicolon a b) × IsPlain a)
unfolding IsCut
cut_iff s a b = (λ e. subst (IsCut s) e (cut-IsCut s), λ (e, h). rw e (cut-append a b h))

pub IsPlain-append : (s t : Bytes) → IsPlain s → IsPlain t → IsPlain (s ++ t)
IsPlain-append [] t h h' = h'
IsPlain-append (c ∷ s) t (p, h) h' = (p, IsPlain-append s t h h')

digits-IsPlain : (k n : ℕ) → IsPlain (digits k n)
unfolding digits
digits-IsPlain zero n = tt
digits-IsPlain (suc k) n = elim (Bool-cases (ltb n 10)) [
  | inl e ↦ rw e (λ q. ground (arith, q, e), tt)
  | inr e ↦
      rw e (
        IsPlain-append (digits k (n / 10)) _ (digits-IsPlain k (n / 10))
          (λ q. omega (arith, q), tt))
]

pub format-IsPlain : (n : ℕ) → IsPlain (format n)
format-IsPlain n = digits-IsPlain 20 n

-- ===== src/Packets/Buffers.antt =====
-- What is copied into a buffer is read out of it again.
use conference_go.Common.{
  ℕ, zero, suc, ◌+◌, ◌==◌, ◌≤◌, true, [], ◌∷◌, ◌≡◌, ◌↔◌, refl, arith, length, take, drop, ap, ap₂,
  inl, inr, Bool-cases,
}
use conference_go.Frames.{Bytes}
use conference_go.Socket.{bytes_eq}
use conference_go.Packets.{copy, copy_at, zeros}

pub bytes_eq_iff : (a b : Bytes) → (bytes_eq a b ≡ true) ↔ (a ≡ b)
unfolding bytes_eq
bytes_eq_iff [] [] = (λ e. refl, λ e. refl)
bytes_eq_iff [] (c ∷ b) = (λ e. cc, λ e. cc)
bytes_eq_iff (c ∷ a) [] = (λ e. cc, λ e. cc)
bytes_eq_iff (c ∷ a) (d ∷ b) = elim (Bool-cases (c == d)) [
  | inl k ↦ rw k (
    λ e. ap₂ (λ x y. x ∷ y) (ground (arith, k)) ((bytes_eq_iff a b).0 e),
    λ e. (bytes_eq_iff a b).1 (cc),
  )
  | inr k ↦ rw k (λ e. cc, λ e. absurd (ground (arith, k, head_eq e)))
]
  where
    head_eq : {c d : ℕ} {a b : Bytes} → (c ∷ a) ≡ (d ∷ b) → c ≡ d
    head_eq e = cc

pub length-copy : (dst src : Bytes) → length (copy dst src) ≡ length dst
unfolding copy
length-copy [] src = refl
length-copy (d ∷ dst) [] = refl
length-copy (d ∷ dst) (c ∷ src) = ap suc (length-copy dst src)

pub length-copy_at : (n : ℕ) (src dst : Bytes) → length (copy_at n src dst) ≡ length dst
unfolding copy_at
length-copy_at zero src dst = length-copy dst src
length-copy_at (suc n) src [] = refl
length-copy_at (suc n) src (d ∷ dst) = ap suc (length-copy_at n src dst)

pub length-zeros : (n : ℕ) → length (zeros n) ≡ n
length-zeros zero = refl
length-zeros (suc n) = ap suc (length-zeros n)

-- A window of a buffer.
abbrev pub window : ℕ → ℕ → Bytes → Bytes
window from n b = take n (drop from b)

take-copy : (src dst : Bytes) → length src ≤ length dst → take (length src) (copy dst src) ≡ src
unfolding copy
take-copy [] [] h = refl
take-copy [] (d ∷ dst) h = refl
take-copy (c ∷ src) [] h = absurd (omega (arith, h))
take-copy (c ∷ src) (d ∷ dst) h = ap (λ l. c ∷ l) (take-copy src dst (omega (arith, h)))

-- What was copied to a place is there.
pub window-copy_at :
    (n : ℕ) (src dst : Bytes)
    → n + length src ≤ length dst
    → window n (length src) (copy_at n src dst) ≡ src
unfolding copy_at
window-copy_at zero src dst h = take-copy src dst (omega (arith, h))
window-copy_at (suc n) src [] h = absurd (omega (arith, h))
window-copy_at (suc n) src (d ∷ dst) h = window-copy_at n src dst (omega (arith, h))

drop-copy : (k : ℕ) (src dst : Bytes) → length src ≤ k → drop k (copy dst src) ≡ drop k dst
unfolding copy
drop-copy k src [] h = refl
drop-copy k [] (d ∷ dst) h = refl
drop-copy zero (c ∷ src) (d ∷ dst) h = absurd (omega (arith, h))
drop-copy (suc k) (c ∷ src) (d ∷ dst) h = drop-copy k src dst (omega (arith, h))

-- What lies behind the place stays.
pub window-behind :
    (from m n : ℕ) (src dst : Bytes)
    → n + length src ≤ from
    → window from m (copy_at n src dst) ≡ window from m dst
unfolding copy_at
window-behind from m zero src dst h = ap (take m) (drop-copy from src dst (omega (arith, h)))
window-behind from m (suc n) src [] h = refl
window-behind zero m (suc n) src (d ∷ dst) h = absurd (omega (arith, h))
window-behind (suc from) m (suc n) src (d ∷ dst) h =
    window-behind from m n src dst (omega (arith, h))

-- What lies before the place stays.
pub window-before :
    (from m n : ℕ) (src dst : Bytes)
    → from + m ≤ n
    → window from m (copy_at n src dst) ≡ window from m dst
unfolding copy_at
window-before zero zero n src dst h = refl
window-before zero (suc m) zero src dst h = absurd (omega (arith, h))
window-before zero (suc m) (suc n) src [] h = refl
window-before zero (suc m) (suc n) src (d ∷ dst) h =
    ap (λ l. d ∷ l) (window-before zero m n src dst (omega (arith, h)))
window-before (suc from) m zero src dst h = absurd (omega (arith, h))
window-before (suc from) m (suc n) src [] h = refl
window-before (suc from) m (suc n) src (d ∷ dst) h =
    window-before from m n src dst (omega (arith, h))

-- A window of the first bytes is a window of the buffer.
pub window-take :
    (from m n : ℕ) (b : Bytes) → from + m ≤ n → window from m (take n b) ≡ window from m b
window-take from zero n b h = refl
window-take from (suc m) zero b h = absurd (omega (arith, h))
window-take zero (suc m) (suc n) [] h = refl
window-take zero (suc m) (suc n) (c ∷ b) h =
    ap (λ l. c ∷ l) (window-take zero m n b (omega (arith, h)))
window-take (suc from) (suc m) (suc n) [] h = refl
window-take (suc from) (suc m) (suc n) (c ∷ b) h = window-take from (suc m) n b (omega (arith, h))

pub length-take : (n : ℕ) (b : Bytes) → n ≤ length b → length (take n b) ≡ n
length-take zero b h = refl
length-take (suc n) [] h = absurd (omega (arith, h))
length-take (suc n) (c ∷ b) h = ap suc (length-take n b (omega (arith, h)))

pub take-length : (b : Bytes) → take (length b) b ≡ b
take-length [] = refl
take-length (c ∷ b) = ap (λ l. c ∷ l) (take-length b)

pub drop-take : (from n k : ℕ) (b : Bytes) → k ≡ n + from → drop from (take k b) ≡ window from n b
drop-take zero n k b e = ap (λ k. take k b) (omega (arith, e))
drop-take (suc from) n zero b e = absurd (omega (arith, e))
drop-take (suc from) zero (suc k) [] e = refl
drop-take (suc from) (suc n) (suc k) [] e = refl
drop-take (suc from) n (suc k) (c ∷ b) e = drop-take from n k b (omega (arith, e))

-- ===== src/Common/Results.antt =====
-- Go code that may panic: a value, or the panic that ends the call.
use mathlib.Core.Path.{◌≡◌, refl}
use mathlib.Core.Logic.{◌↔◌}
use mathlib.Core.Bool.{Bool, true, false}

-- `required` and `invalid` are the two `InvalidParam` errors, `index` is an index out of range, and
-- `impossible` the panic `ThisIsImpossible`, `nil_pointer` a field of a nil pointer; `fuel` belongs to the model only.
pub data Fault : Type 0 where
  required invalid index impossible nil_pointer fuel : Fault

pub data Result {ℓ} (A : Type ℓ) : Type ℓ where
  ok : A → Result A
  panic : Fault → Result A

infixl 5 ◌>>=◌ ◌>>◌
abbrev pub ◌>>=◌ {ℓ κ} : {A : Type ℓ} {B : Type κ} → Result A → (A → Result B) → Result B
ok a >>= f = f a
panic e >>= f = panic e

abbrev pub ◌>>◌ {ℓ} : {B : Type ℓ} → Result (Unit {0}) → Result B → Result B
m >> k = m >>= λ _. k

-- The run ended with an answer, and the answer is right about `G`.
abbrev pub Decides : Type 0 → Result Bool → Type 0
Decides G (ok true) = G
Decides G (ok false) = ¬ G
Decides G (panic _) = ⊥

pub Decides-iff : {G H : Type 0} (r : Result Bool) → G ↔ H → Decides G r → Decides H r
Decides-iff (ok true) e d = e.0 d
Decides-iff (ok false) e d = λ h. d (e.1 h)
Decides-iff (panic _) e d = d

pub Decides-total : (G : Type 0) (r : Result Bool) → Decides G r → (b : Bool) × (r ≡ ok b)
Decides-total G (ok b) d = (b, refl)
Decides-total G (panic _) d = absurd d

pub ok_inj {ℓ} : {A : Type ℓ} {a b : A} → ok a ≡ ok b → a ≡ b
ok_inj e = cc

pub Decides-ok : {G : Type 0} (b : Bool) → (b ≡ true) ↔ G → Decides G (ok b)
Decides-ok true e = e.0 refl
Decides-ok false e = λ g. cc (e.1 g)

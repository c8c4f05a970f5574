-- ===== src/Client/Callbacks.antt =====
-- The callbacks of a client for an event: those that ask for it remain.
use conference_go.Common.{
  ◌⊎◌, Fault, panic, true, false, ℕ, String, Bool, List, Option, some, ◌≡◌, ok,
}
use conference_go.Maps.{AssocMap, lookup}
use conference_go.Client.{Client, CallResult, or_no_cbs}

-- The callbacks under an event
abbrev pub cbs_for : String → AssocMap (List ℕ) → List ℕ
cbs_for evt m = or_no_cbs (lookup evt m)

-- The call returns whether the callback remains, or panics, which is handled, and it does not remain.
abbrev pub IsAnswered : Option (ℕ → Bool) → (ℕ → CallResult) → (ℕ → Bool) → ℕ → Type 0
IsAnswered panic_cb call remains cb =
    (call cb ≡ ok (remains cb))
    ⊎ ((e : Fault) × (handles : ℕ → Bool) × (call cb ≡ panic e)
        × (panic_cb ≡ some handles)
        × (handles cb ≡ true)
        × (remains cb ≡ false))

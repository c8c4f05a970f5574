-- ===== src/Global/Sessions.antt =====
-- The registry over any registrations and closings.
use mathlib.Core.List.Memᴰ
use conference_go.Common.{String, List, [], ◌∷◌, none, some, ◌≡◌, ◌↔◌, Memᴰ}
use conference_go.Maps.{lookup}
use conference_go.Context.{Context}
use conference_go.Global.{
  Global, new_global, register_signal_context, close_signal_context, find_signal_context_by_id,
  find_signal_context_by_user,
}
use conference_go.Global.Index.{IsIndexed, register-IsIndexed}
use conference_go.Global.Closing.{close-IsIndexed}

pub data Change : Type 0 where
  registration : Context → Change
  closing : String → Change

unfoldable pub after_changes : Global → List Change → Global
unfolding register_signal_context close_signal_context
after_changes g [] = g
after_changes g (registration ctx ∷ l) = after_changes (register_signal_context ctx g) l
after_changes g (closing id ∷ l) = after_changes (close_signal_context id g).0 l

-- No session is registered while another has its id.
abbrev pub AreFresh : Global → List Change → Type 0
AreFresh g [] = Unit
AreFresh g (registration ctx ∷ l) =
    (find_signal_context_by_id ctx.id g ≡ none) × AreFresh (register_signal_context ctx g) l
AreFresh g (closing id ∷ l) = AreFresh (close_signal_context id g).0 l

after_changes-IsIndexed :
    (g : Global) (l : List Change) → AreFresh g l → IsIndexed g → IsIndexed (after_changes g l)
unfolding after_changes find_signal_context_by_id
after_changes-IsIndexed g [] f h = h
after_changes-IsIndexed g (registration ctx ∷ l) (e, f) h =
    after_changes-IsIndexed (register_signal_context ctx g) l f (register-IsIndexed ctx g h e)
after_changes-IsIndexed g (closing id ∷ l) f h =
    after_changes-IsIndexed (close_signal_context id g).0 l f (close-IsIndexed id g h)

new_global-IsIndexed : IsIndexed new_global
unfolding lookup
new_global-IsIndexed = (λ id c e. cc, λ uid c. (λ m. absurd (Memᴰ.not-nil m), λ (e, u). cc))

-- Over any registrations under ids that are free, and any closings, the sessions that are found by a user
-- are exactly those that are found by their ids and belong to the user.
pub find_signal_context_by_user_iff :
    (l : List Change) (uid : String) (c : Context)
    → AreFresh new_global l
    → Memᴰ c (find_signal_context_by_user uid (after_changes new_global l))
      ↔ ((find_signal_context_by_id c.id (after_changes new_global l) ≡ some c) × (c.uid ≡ uid))
unfolding find_signal_context_by_user find_signal_context_by_id
find_signal_context_by_user_iff l uid c f =
    (after_changes-IsIndexed new_global l f new_global-IsIndexed).1 uid c

-- ===== src/Samples/Registry.antt =====
-- signal/global.go and the removal it uses.
use conference_go.Common.{ℕ, ◌==◌, List, [], ◌∷◌, some, ◌≡◌, ◌↔◌, refl, Memᴰ}
use conference_go.Maps.{lookup, insert}
use conference_go.Collection.Unordered.{slice_remove_if_ignore_order, sweep, trim, split_last}
use conference_go.Context.{Context, new_context}
use conference_go.Global.{
  new_global, register_signal_context, find_signal_context_by_id, find_signal_context_by_user,
}
use conference_go.Global.Sessions.{
  Change, registration, closing, after_changes, AreFresh, find_signal_context_by_user_iff,
}

abbrev numbers : List ℕ
numbers = 3 ∷ 1 ∷ 2 ∷ 3 ∷ 5 ∷ 3 ∷ []

-- The last member that stays takes the place of the first one that goes.
numbers_run : slice_remove_if_ignore_order numbers (λ n. n == 3) ≡ 5 ∷ 1 ∷ 2 ∷ []
unfolding slice_remove_if_ignore_order sweep trim split_last
numbers_run = refl

abbrev first_session : Context
first_session = new_context "s1" "n1" "u" "Ann" []

abbrev second_session : Context
second_session = new_context "s2" "n1" "u" "Ann" []

abbrev changes : List Change
changes = registration first_session ∷ registration second_session ∷ closing "s1" ∷ []

changes_fresh : AreFresh new_global changes
unfolding find_signal_context_by_id register_signal_context lookup insert
changes_fresh = (refl, (refl, tt))

find_signal_context_by_user_iff_example :
    Memᴰ second_session (find_signal_context_by_user "u" (after_changes new_global changes)) ↔ (
      (find_signal_context_by_id "s2" (after_changes new_global changes) ≡ some second_session)
      × (second_session.uid ≡ "u"))
find_signal_context_by_user_iff_example =
    find_signal_context_by_user_iff changes "u" second_session changes_fresh

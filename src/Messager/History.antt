-- ===== src/Messager/History.antt =====
-- Any sequence of registrations and removals, against a table that it is meant to keep.
use conference_go.Common.{
  String, ◌&&◌, List, [], ◌∷◌, Option, none, some, str_eq, if◌then◌else◌, ◌≡◌, refl, ◌∙◌, inl, inr,
  Bool-cases,
}
use conference_go.PatternMap.{Children}
use conference_go.Messager.{Boxes, Messager, Topic, same_topic, with_callbacks, on_topic, off_topic}
use conference_go.Messager.Registry.{
  handler_at, names, AreAccepted, on_message_lem, off_message_lem,
}

-- A call of one of the methods `OnState` to `OnCustomAck`, or `OffState` to `OffCustomAck`.
pub data Event {ℓ} (F : Type ℓ) : Type ℓ where
  added : Topic → String → F → List String → Event F
  removed : Topic → String → List String → Event F

-- Which callback a topic has for the parts of a pattern and a `funId`.
abbrev pub Table {ℓ} : Type ℓ → Type ℓ
Table F = Topic → List String → String → Option F

module _ {ℓ} {F : Type ℓ} where
  unfoldable pub step : Messager F → Event F → Messager F
  unfolding on_topic off_topic
  step m (added t id fun rps) = (on_topic m t id fun rps).0
  step m (removed t id rps) = (off_topic m t id rps).0

  unfoldable pub after : Messager F → List (Event F) → Messager F
  unfolding step
  after m [] = m
  after m (e ∷ es) = after (step m e) es

  -- The table of a messager.
  abbrev pub table_of : Messager F → Table F
  table_of m t qs j = handler_at qs j (m.callbacks t)

  -- One entry for each of the patterns is written.
  abbrev pub write : Topic → String → List String → Option F → Table F → Table F
  write t id rps new table t' qs j =
      if same_topic t t'
      then (if str_eq id j && names rps qs then new else table t qs j)
      else table t' qs j

  abbrev pub table_step : Table F → Event F → Table F
  table_step table (added t id fun rps) = write t id rps (some fun) table
  table_step table (removed t id rps) = write t id rps none table

  abbrev pub table_after : Table F → List (Event F) → Table F
  table_after table [] = table
  table_after table (e ∷ es) = table_after (table_step table e) es

  -- All patterns are accepted by `CheckPattern`.
  abbrev pub IsProper : Event F → Type 0
  IsProper (added t id fun rps) = AreAccepted rps
  IsProper (removed t id rps) = AreAccepted rps

  abbrev pub AreProper : List (Event F) → Type 0
  AreProper [] = Unit
  AreProper (e ∷ es) = IsProper e × AreProper es

  table-with_callbacks :
      (m : Messager F) (t : Topic) (id : String) (rps : List String) (new : Option F)
      (pm : Children (Boxes F))
      → ((qs : List String) (j : String)
          → handler_at qs j pm
            ≡ (if str_eq id j && names rps qs then new else handler_at qs j (m.callbacks t)))
      → (t' : Topic) (qs : List String) (j : String)
      → table_of (with_callbacks m t pm) t' qs j ≡ write t id rps new (table_of m) t' qs j
  table-with_callbacks m t id rps new pm h t' qs j = elim (Bool-cases (same_topic t t')) [
    | inl k ↦ rw k (h qs j)
    | inr k ↦ rw k refl
  ]

  table_of-step :
      (m : Messager F) (e : Event F)
      → IsProper e
      → (t' : Topic) (qs : List String) (j : String)
      → table_of (step m e) t' qs j ≡ table_step (table_of m) e t' qs j
  unfolding step on_topic off_topic
  table_of-step m (added t id fun rps) h =
      table-with_callbacks m t id rps (some fun) _ ((on_message_lem id fun rps (m.callbacks t) h).1)
  table_of-step m (removed t id rps) h =
      table-with_callbacks m t id rps none _ ((off_message_lem id rps (m.callbacks t) h).1)

  -- After any sequence of registrations and removals with accepted patterns, in any topics, a
  -- messager has the callbacks that the same sequence of writes leaves in a table.
  pub table_of-after :
      (m : Messager F) (es : List (Event F)) (t : Topic) (qs : List String) (j : String)
      → AreProper es
      → table_of (after m es) t qs j ≡ table_after (table_of m) es t qs j
  unfolding after
  table_of-after m [] t qs j h = refl
  table_of-after m (e ∷ es) t qs j (h, hs) =
      table_of-after (step m e) es t qs j hs
      ∙ (λ i. table_after (λ t' qs j. table_of-step m e h t' qs j i) es t qs j)

-- ===== src/Messager/Registry.antt =====
-- Registering and removing callbacks: which callback stands under which pattern.
use conference_go.Maps.{lookup, lookup-insert, lookup-erase}
use conference_go.Common.{
  String, Bool, true, false, ◌&&◌, List, [], ◌∷◌, Option, none, some, str_eq, str_eq_iff,
  if◌then◌else◌, ◌≡◌, refl, ◌≢◌, ◌∙◌, inl, inr, arith, All, any, Bool-cases, ok, ap, ap₂, subst,
}
use conference_go.Room.{split, check_pattern}
use conference_go.PatternMap.{Children, Mapper}
use conference_go.PatternMap.Paths.{data_in}
use conference_go.PatternMap.Update.{Updates, update_pattern_data-Updates}
use conference_go.Messager.{
  Boxes, add_callback, remove_callback, update_each, on_message, off_message,
}

abbrev pub same_parts : List String → List String → Bool
same_parts [] [] = true
same_parts (p ∷ ps) (q ∷ qs) = str_eq p q && same_parts ps qs
same_parts _ _ = false

pub same_parts→eq : (ps qs : List String) → same_parts ps qs ≡ true → ps ≡ qs
same_parts→eq [] [] h = refl
same_parts→eq (p ∷ ps) (q ∷ qs) h =
    ap₂ ◌∷◌ ((str_eq_iff p q).0 (ground arith)) (same_parts→eq ps qs (ground arith))
same_parts→eq [] (q ∷ qs) h = cc
same_parts→eq (p ∷ ps) [] h = cc

pub same_parts_refl : (ps : List String) → same_parts ps ps ≡ true
same_parts_refl [] = refl
same_parts_refl (p ∷ ps) = ground (arith, str_eq_iff p p, same_parts_refl ps)

same_parts→ne : (ps qs : List String) → same_parts ps qs ≡ false → qs ≢ ps
same_parts→ne ps qs h e = cc (h, ap (same_parts ps) e, same_parts_refl ps)

-- Patterns that `CheckPattern` accepts.
abbrev pub AreAccepted : List String → Type 0
AreAccepted rps = All (λ rp. check_pattern rp ≡ ok tt) rps

-- One of the patterns has these parts.
abbrev pub names : List String → List String → Bool
names rps qs = any (λ rp. same_parts (split rp) qs) rps

module _ {ℓ} {F : Type ℓ} where
  abbrev pub box_of : String → Option (Boxes F) → Option F
  box_of id none = none
  box_of id (some boxes) = lookup id boxes

  -- The callback that stands under a pattern with a `funId`.
  abbrev pub handler_at : List String → String → Children (Boxes F) → Option F
  handler_at ps id pm = box_of id (data_in ps pm)

  box_of-add :
      (j id : String) (fun : F) (old : Option (Boxes F))
      → box_of j (add_callback id fun old) ≡ (if str_eq id j then some fun else box_of j old)
  unfolding lookup
  box_of-add j id fun none = lookup-insert j id fun []
  box_of-add j id fun (some old) = lookup-insert j id fun old

  box_of-remove :
      (j id : String) (old : Option (Boxes F))
      → box_of j (remove_callback id old) ≡ (if str_eq id j then none else box_of j old)
  box_of-remove j id none = ground arith
  box_of-remove j id (some old) = lookup-erase j id old

  -- A mapper that sets the callback of `id` to `new` and leaves the others.
  module _ (mapper : Mapper (Boxes F)) (id : String) (new : Option F)
      (sets : (j : String) (old : Option (Boxes F))
        → box_of j (mapper old) ≡ (if str_eq id j then new else box_of j old)) where
    handler_at-Updates :
        (ps qs : List String) (j : String) (pm pm' : Children (Boxes F))
        → Updates ps (mapper (data_in ps pm)) pm pm'
        → handler_at qs j pm'
          ≡ (if str_eq id j && same_parts ps qs then new else handler_at qs j pm)
    handler_at-Updates ps qs j pm pm' u = elim (Bool-cases (same_parts ps qs)) [
      | inl s ↦
          subst
            (λ (qs : List String).
              handler_at qs j pm'
              ≡ (if str_eq id j && same_parts ps qs then new else handler_at qs j pm))
            (same_parts→eq ps qs s)
            (ap (box_of j) u.here ∙ sets j (data_in ps pm) ∙ ground (arith, same_parts_refl ps))
      | inr s ↦ ap (box_of j) (u.elsewhere qs (same_parts→ne ps qs s)) ∙ ground (arith, s)
    ]

    update_each_lem :
        (rps : List String) (pm : Children (Boxes F))
        → AreAccepted rps
        → ((update_each mapper rps pm).1 ≡ ok tt)
          × ((qs : List String) (j : String)
              → handler_at qs j (update_each mapper rps pm).0
                ≡ (if str_eq id j && names rps qs then new else handler_at qs j pm))
    unfolding update_each
    update_each_lem [] pm h = (refl, λ qs j. ground arith)
    update_each_lem (rp ∷ rps) pm (h, hs) =
        let (pm', e, u) = update_pattern_data-Updates rp mapper pm h in
        let (done, rest) = update_each_lem rps pm' hs in
        rw (e, update_each)
          (done, λ qs j. ground (arith, rest qs j, handler_at-Updates (split rp) qs j pm pm' u))

  -- After `onMessage` with accepted patterns, the callback stands under each of them with its `funId`,
  -- and every other callback is as before.
  pub on_message_lem :
      (id : String) (fun : F) (rps : List String) (pm : Children (Boxes F))
      → AreAccepted rps
      → ((on_message id fun rps pm).1 ≡ ok tt)
        × ((qs : List String) (j : String)
            → handler_at qs j (on_message id fun rps pm).0
              ≡ (if str_eq id j && names rps qs then some fun else handler_at qs j pm))
  unfolding on_message
  on_message_lem id fun rps pm h =
      update_each_lem (add_callback id fun) id (some fun) (λ j old. box_of-add j id fun old) rps pm
        h

  -- After `offMessage` with accepted patterns, no callback with that `funId` stands under any of them,
  -- and every other callback is as before.
  pub off_message_lem :
      (id : String) (rps : List String) (pm : Children (Boxes F))
      → AreAccepted rps
      → ((off_message id rps pm).1 ≡ ok tt)
        × ((qs : List String) (j : String)
            → handler_at qs j (off_message id rps pm).0
              ≡ (if str_eq id j && names rps qs then none else handler_at qs j pm))
  unfolding off_message
  off_message_lem id rps pm h =
      update_each_lem (remove_callback id) id none (λ j old. box_of-remove j id old) rps pm h

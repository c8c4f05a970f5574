-- ===== src/Messager/Delivery.antt =====
-- Which callbacks run for a message.
use mathlib.Core.List.Memᴰ
use conference_go.Maps.{lookup, lookup-insert, insert-AreDistinct, AreDistinct}
use conference_go.Common.{
  String, Bool, true, not, ◌&&◌, ◌||◌, List, [], ◌∷◌, Option, none, some, str_eq, ◌≡◌, refl, ◌↔◌,
  ◌⊎◌, ◌∙◌, inl, inr, arith, Bool-cases, Option-cases, Result, ok, panic, ap, sym, subst, Memᴰ,
  ◌>>=◌, ok_inj,
}
use conference_go.Room.{split, check_room}
use conference_go.Room.Matches.{Matches}
use conference_go.Room.Syntax.{split-filled, check_room-filled}
use conference_go.Proto.{Router}
use conference_go.PatternMap.{Children, collect_parts, collect_room}
use conference_go.PatternMap.Paths.{data_in}
use conference_go.PatternMap.Collect.{collect_parts_iff}
use conference_go.PatternMap.Rooms.{collect_room-ok}
use conference_go.Messager.{Boxes, merge_boxes, merge_all, consume_message}
use conference_go.Messager.Registry.{box_of, handler_at}

-- The message is for every node, or for this one.
abbrev pub IsFor : String → Router → Type 0
IsFor node_name target = (str_eq target.node_to "" || str_eq target.node_to node_name) ≡ true

module _ {ℓ} {F : Type ℓ} where
  -- A callback with this `funId` is among the boxes.
  abbrev pub Runs : String → Boxes F → Type ℓ
  Runs j boxes = (fun : F) × (lookup j boxes ≡ some fun)

  merge_boxes_iff :
      (j : String) (bm boxes : Boxes F) → Runs j (merge_boxes bm boxes) ↔ (Runs j bm ⊎ Runs j boxes)
  unfolding merge_boxes lookup
  merge_boxes_iff j bm [] = (inl, elim [ inl h ↦ h | inr (f, h) ↦ cc ])
  merge_boxes_iff j bm ((key, fun) ∷ boxes) =
      let (to, from) = merge_boxes_iff j bm boxes in
      let lk = lookup-insert j key fun (merge_boxes bm boxes) in
      elim (Bool-cases (str_eq key j)) [
        | inl e ↦ (λ _. inr (fun, rw e), λ _. (fun, lk ∙ rw e))
        | inr e ↦ (
          λ (f, h). elim (to (f, rw e at (sym lk ∙ h))) [
            | inl x ↦ inl x
            | inr (g, q) ↦ inr (g, rw e q)
          ],
          λ x.
              let (f, h) =
                from (elim x [ inl y ↦ inl y | inr (g, q) ↦ inr (g, ground (arith, e, q)) ]) in
              (f, lk ∙ rw e h),
        )
      ]

  -- What stands under a `funId` afterwards stood under it before, in one of the two.
  lookup-merge_boxes :
      (j : String) (f : F) (bm boxes : Boxes F)
      → lookup j (merge_boxes bm boxes) ≡ some f
      → (lookup j bm ≡ some f) ⊎ (lookup j boxes ≡ some f)
  unfolding merge_boxes lookup
  lookup-merge_boxes j f bm [] h = inl h
  lookup-merge_boxes j f bm ((key, fun) ∷ boxes) h =
      let h' = sym (lookup-insert j key fun (merge_boxes bm boxes)) ∙ h in
      elim (Bool-cases (str_eq key j)) [
        | inl e ↦ inr (rw e (rw e at h'))
        | inr e ↦ elim (lookup-merge_boxes j f bm boxes (rw e at h')) [
          | inl q ↦ inl q
          | inr q ↦ inr (rw e q)
        ]
      ]

  -- A callback with this `funId` is among one of the maps that were found.
  abbrev RunsInOne : String → List (Boxes F) → Type ℓ
  RunsInOne j found = (boxes : Boxes F) × Memᴰ boxes found × Runs j boxes

  merge_all_iff :
      (j : String) (found : List (Boxes F)) (bm : Boxes F)
      → Runs j (merge_all bm found) ↔ (Runs j bm ⊎ RunsInOne j found)
  unfolding merge_all
  merge_all_iff j [] bm = (inl, elim [ inl h ↦ h | inr (b, m, h) ↦ absurd (Memᴰ.not-nil m) ])
  merge_all_iff j (boxes ∷ found) bm =
      let (to, from) = merge_all_iff j found (merge_boxes bm boxes) in
      let (to', from') = merge_boxes_iff j bm boxes in
      (
        λ r. elim (to r) [
          | inl h ↦ elim (to' h) [ inl h ↦ inl h | inr h ↦ inr (boxes, Memᴰ.head refl, h) ]
          | inr (b, m, h) ↦ inr (b, Memᴰ.tail m, h)
        ],
        elim [
          | inl h ↦ from (inl (from' (inl h)))
          | inr (b, m, h) ↦ elim (Memᴰ.cases_cons m) [
            | inl e ↦ from (inl (from' (inr (subst (Runs j) e h))))
            | inr m ↦ from (inr (b, m, h))
          ]
        ],
      )

  lookup-merge_all :
      (j : String) (f : F) (found : List (Boxes F)) (bm : Boxes F)
      → lookup j (merge_all bm found) ≡ some f
      → (lookup j bm ≡ some f) ⊎ ((boxes : Boxes F) × Memᴰ boxes found × (lookup j boxes ≡ some f))
  unfolding merge_all
  lookup-merge_all j f [] bm h = inl h
  lookup-merge_all j f (boxes ∷ found) bm h =
      elim (lookup-merge_all j f found (merge_boxes bm boxes) h) [
        | inl q ↦ elim (lookup-merge_boxes j f bm boxes q) [
          | inl x ↦ inl x
          | inr x ↦ inr (boxes, Memᴰ.head refl, x)
        ]
        | inr (b, m, q) ↦ inr (b, Memᴰ.tail m, q)
      ]

  -- The callback of `j` stands under a pattern that matches the room.
  abbrev pub IsRegistered : Children (Boxes F) → String → String → Type ℓ
  IsRegistered pm room j =
      (ps : List String) × (fun : F) × (handler_at ps j pm ≡ some fun) × Matches ps (split room)

  -- This function stands with `j` under a pattern that matches the room.
  abbrev pub IsStanding : Children (Boxes F) → String → String → F → Type ℓ
  IsStanding pm room j fun =
      (ps : List String) × (handler_at ps j pm ≡ some fun) × Matches ps (split room)

  found-IsStanding :
      (pm : Children (Boxes F)) (room j : String) (fun : F) (boxes : Boxes F)
      → Memᴰ boxes (collect_parts (split room) pm)
      → lookup j boxes ≡ some fun
      → IsStanding pm room j fun
  found-IsStanding pm room j fun boxes m h =
      let (key, ms, e, _, _) = split-filled room in
      let (ps, at_, mt) =
        (collect_parts_iff boxes key ms pm).0 (subst (λ l. Memᴰ boxes (collect_parts l pm)) e m) in
      (ps, ap (box_of j) at_ ∙ h, subst (Matches ps) (sym e) mt)

  found_iff :
      (pm : Children (Boxes F)) (room j : String)
      → RunsInOne j (collect_parts (split room) pm) ↔ IsRegistered pm room j
  found_iff pm room j =
      let (key, ms, e, _, _) = split-filled room in
      rw e (
        λ (boxes, m, (fun, h)).
            let (ps, at, mt) = (collect_parts_iff boxes key ms pm).0 m in
            (ps, fun, ap (box_of j) at ∙ h, mt),
        λ (ps, fun, h, mt). elim (Option-cases (data_in ps pm)) [
          | inl e' ↦ absurd (not_none (ap (box_of j) (sym e') ∙ h))
          | inr (boxes, at) ↦ (
            boxes,
            (collect_parts_iff boxes key ms pm).1 (ps, at, mt),
            (fun, ap (box_of j) (sym at) ∙ h),
          )
        ],
      )
    where
      not_none : {fun : F} → none ≡ some fun → ⊥
      not_none e = cc

  -- For a message to an accepted room, meant for this node or for all, `consumeMessage` runs a function
  -- for a `funId` exactly if one stands with that `funId` under a pattern that matches the room, and
  -- the function that it runs is such a one.
  pub consume_message_iff :
      (node_name : String) (pm : Children (Boxes F)) (target : Router)
      → check_room target.room ≡ ok tt
      → IsFor node_name target
      → (bm : Boxes F) × (consume_message node_name pm (some target) ≡ ok bm)
        × ((j : String) → Runs j bm ↔ IsRegistered pm target.room j)
        × ((j : String) (fun : F) → lookup j bm ≡ some fun → IsStanding pm target.room j fun)
  unfolding consume_message lookup
  consume_message_iff node_name pm target h f =
      let found = collect_parts (split target.room) pm in
      (
        merge_all [] found,
        calls,
        λ j.
            let all = merge_all_iff j found [] in
            let one = found_iff pm target.room j in
            (λ r. elim (all.0 r) [ inl (g, e) ↦ cc | inr x ↦ one.0 x ], λ x. all.1 (inr (one.1 x))),
        λ j fun h. elim (lookup-merge_all j fun found [] h) [
          | inl e ↦ cc
          | inr (boxes, m, q) ↦ found-IsStanding pm target.room j fun boxes m q
        ],
      )
    where
      calls :
          consume_message node_name pm (some target)
          ≡ ok (merge_all [] (collect_parts (split target.room) pm))
      calls =
          rw (collect_room-ok target.room pm h) (ground (arith, check_room-filled target.room h, f))

  merge_boxes-AreDistinct :
      (bm boxes : Boxes F) → AreDistinct bm → AreDistinct (merge_boxes bm boxes)
  unfolding merge_boxes
  merge_boxes-AreDistinct bm [] h = h
  merge_boxes-AreDistinct bm ((key, fun) ∷ boxes) h =
      insert-AreDistinct key fun (merge_boxes bm boxes) (merge_boxes-AreDistinct bm boxes h)

  merge_all-AreDistinct :
      (found : List (Boxes F)) (bm : Boxes F) → AreDistinct bm → AreDistinct (merge_all bm found)
  unfolding merge_all
  merge_all-AreDistinct [] bm h = h
  merge_all-AreDistinct (boxes ∷ found) bm h =
      merge_all-AreDistinct found (merge_boxes bm boxes) (merge_boxes-AreDistinct bm boxes h)

  -- Whenever `consumeMessage` returns, no `funId` occurs twice among the callbacks that it runs, under
  -- however many matching patterns it stands.
  pub consume_message-AreDistinct :
      (node_name : String) (pm : Children (Boxes F)) (target : Option Router) (bm : Boxes F)
      → consume_message node_name pm target ≡ ok bm
      → AreDistinct bm
  unfolding consume_message
  consume_message-AreDistinct node_name pm none bm e = subst AreDistinct (ok_inj e) tt
  consume_message-AreDistinct node_name pm (some target) bm e = elim (Bool-cases skipped) [
    | inl s ↦ subst AreDistinct (ok_inj (rw (s, consume_message) at e)) tt
    | inr s ↦ by_found (collect_room target.room pm) (rw (s, consume_message) at e)
  ]
    where
      skipped : Bool
      skipped =
          str_eq target.room ""
          || (not (str_eq target.node_to "") && not (str_eq target.node_to node_name))

      by_found :
          (r : Result (List (Boxes F)))
          → (◌>>=◌ r (λ found. ok (merge_all [] found))) ≡ ok bm
          → AreDistinct bm
      by_found (ok found) e = subst AreDistinct (ok_inj e) (merge_all-AreDistinct found [] tt)
      by_found (panic _) e = cc

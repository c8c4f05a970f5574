-- ===== src/Messager/Session.antt =====
-- From registering a callback to running it.
use conference_go.Common.{
  String, Bool, true, false, ◌&&◌, List, none, some, str_eq, str_eq_iff, str_eq_refl, if◌then◌else◌,
  ◌≡◌, refl, ◌↔◌, ◌⊎◌, ◌∙◌, inl, inr, arith, Bool-cases, ok, ap, ap₂, sym, subst, any_iff,
  true-ne-false, Exists,
}
use conference_go.Room.{split, check_room}
use conference_go.Room.Matches.{Matches}
use conference_go.Proto.{Router}
use conference_go.Message.{RoomMessage, get_router}
use conference_go.PatternMap.{Children}
use conference_go.Messager.{
  Boxes, Messager, Topic, topic_name, with_callbacks, on_message, off_message, on_topic, off_topic,
  consume, consume_message,
}
use conference_go.Messager.Registry.{
  handler_at, names, AreAccepted, same_parts, same_parts→eq, same_parts_refl, on_message_lem,
  off_message_lem,
}
use conference_go.Messager.Delivery.{Runs, IsFor, IsRegistered, consume_message_iff}

-- One of the patterns has these parts.
abbrev pub IsNamed : List String → List String → Type 0
IsNamed rps qs = Exists (λ rp. split rp ≡ qs) rps

-- One of the patterns matches the room.
abbrev pub IsReached : List String → String → Type 0
IsReached rps room = Exists (λ rp. Matches (split rp) (split room)) rps

names_iff : (rps qs : List String) → (names rps qs ≡ true) ↔ IsNamed rps qs
names_iff rps qs =
    any_iff (λ rp. split rp ≡ qs) (λ rp. same_parts (split rp) qs)
      (λ rp. (
        same_parts→eq (split rp) qs,
        λ e. subst (λ qs. same_parts (split rp) qs ≡ true) e (same_parts_refl (split rp)),
      ))
      rps

-- The test of a registration: this `funId`, and one of these patterns.
hit_iff :
    (id j : String) (rps qs : List String)
    → (str_eq id j && names rps qs ≡ true) ↔ ((id ≡ j) × IsNamed rps qs)
hit_iff id j rps qs = ground (arith, str_eq_iff id j, names_iff rps qs)

module _ {ℓ} {F : Type ℓ} (id j room : String) (rps : List String) (pm : Children (Boxes F)) where
  IsRegistered-on_message :
      (fun : F) (pm' : Children (Boxes F))
      → ((qs : List String) (j : String)
          → handler_at qs j pm'
            ≡ (if str_eq id j && names rps qs then some fun else handler_at qs j pm))
      → IsRegistered pm' room j ↔ (((id ≡ j) × IsReached rps room) ⊎ IsRegistered pm room j)
  IsRegistered-on_message fun pm' h = (
    λ (ps, f, e, m). elim (Bool-cases (str_eq id j && names rps ps)) [
      | inl k ↦
          let (same, (rp, mem, q)) = (hit_iff id j rps ps).0 k in
          inl (same, (rp, mem, subst (λ ps. Matches ps (split room)) (sym q) m))
      | inr k ↦ inr (ps, f, sym (at ps false k) ∙ e, m)
    ],
    elim [
      | inl (same, (rp, mem, m)) ↦ (
        split rp,
        fun,
        at (split rp) true ((hit_iff id j rps (split rp)).1 (same, (rp, mem, refl))),
        m,
      )
      | inr (ps, f, e, m) ↦ elim (Bool-cases (str_eq id j && names rps ps)) [
        | inl k ↦ (ps, fun, at ps true k, m)
        | inr k ↦ (ps, f, at ps false k ∙ e, m)
      ]
    ],
  )
    where
      at :
          (ps : List String) (b : Bool)
          → str_eq id j && names rps ps ≡ b
          → handler_at ps j pm' ≡ (if b then some fun else handler_at ps j pm)
      at ps b k = h ps j ∙ ap (λ b. if b then some fun else handler_at ps j pm) k

  IsRegistered-off_message :
      (pm' : Children (Boxes F))
      → ((qs : List String) (j : String)
          → handler_at qs j pm'
            ≡ (if str_eq id j && names rps qs then none else handler_at qs j pm))
      → IsRegistered pm' room j ↔ (
          (ps : List String) × (fun : F) × (handler_at ps j pm ≡ some fun)
          × Matches ps (split room)
          × ¬ ((id ≡ j) × IsNamed rps ps))
  IsRegistered-off_message pm' h = (
    λ (ps, f, e, m). elim (Bool-cases (str_eq id j && names rps ps)) [
      | inl k ↦ absurd (none_some (sym (at ps true k) ∙ e))
      | inr k ↦
          (ps, f, sym (at ps false k) ∙ e, m, λ hit. true-ne-false ((hit_iff id j rps ps).1 hit) k)
    ],
    λ (ps, f, e, m, n). elim (Bool-cases (str_eq id j && names rps ps)) [
      | inl k ↦ absurd (n ((hit_iff id j rps ps).0 k))
      | inr k ↦ (ps, f, at ps false k ∙ e, m)
    ],
  )
    where
      at :
          (ps : List String) (b : Bool)
          → str_eq id j && names rps ps ≡ b
          → handler_at ps j pm' ≡ (if b then none else handler_at ps j pm)
      at ps b k = h ps j ∙ ap (λ b. if b then none else handler_at ps j pm) k

      none_some : {f : F} → none ≡ some f → ⊥
      none_some e = cc

module _ {ℓ} {F : Type ℓ} (m : Messager F) (t : Topic) (id : String) (rps : List String)
    (msg : RoomMessage) (target : Router) where
  callbacks-with_callbacks : (pm : Children (Boxes F)) → (with_callbacks m t pm).callbacks t ≡ pm
  callbacks-with_callbacks pm = rw (str_eq_refl (topic_name t)) refl

  -- `consume` after the callbacks of its topic have been replaced.
  consume-with_callbacks :
      (pm : Children (Boxes F))
      → get_router msg ≡ some target
      → consume (with_callbacks m t pm) t msg ≡ consume_message m.node_name pm (some target)
  unfolding consume
  consume-with_callbacks pm e = ap₂ (consume_message m.node_name) (callbacks-with_callbacks pm) e

  -- After a callback has been registered for accepted patterns, a message of the topic to an
  -- accepted room, meant for this node or for all, runs a `funId` exactly if it is the new one and
  -- one of the patterns matches the room, or it stood under a matching pattern before.
  pub consume-on_topic_iff :
      (fun : F)
      → AreAccepted rps
      → get_router msg ≡ some target
      → check_room target.room ≡ ok tt
      → IsFor m.node_name target
      → (bm : Boxes F) × (consume (on_topic m t id fun rps).0 t msg ≡ ok bm)
        × ((j : String)
            → Runs j bm ↔ (
                ((id ≡ j) × IsReached rps target.room)
                ⊎ IsRegistered (m.callbacks t) target.room j))
  unfolding on_topic
  consume-on_topic_iff fun ha e hr hf =
      let pm = m.callbacks t in
      let pm' = (on_message id fun rps pm).0 in
      let (bm, run, runs, _) = consume_message_iff m.node_name pm' target hr hf in
      (
        bm,
        consume-with_callbacks pm' e ∙ run,
        λ j.
            let (to, from) =
              IsRegistered-on_message id j target.room rps pm fun pm'
                ((on_message_lem id fun rps pm ha).1) in
            (λ r. to ((runs j).0 r), λ h. (runs j).1 (from h)),
      )

  -- After a `funId` has been removed from accepted patterns, a message of the topic to an accepted
  -- room, meant for this node or for all, runs a `funId` exactly if it stood under a matching
  -- pattern from which it has not been removed.
  pub consume-off_topic_iff :
      AreAccepted rps
      → get_router msg ≡ some target
      → check_room target.room ≡ ok tt
      → IsFor m.node_name target
      → (bm : Boxes F) × (consume (off_topic m t id rps).0 t msg ≡ ok bm)
        × ((j : String)
            → Runs j bm ↔ (
                (ps : List String) × (fun : F) × (handler_at ps j (m.callbacks t) ≡ some fun)
                × Matches ps (split target.room)
                × ¬ ((id ≡ j) × IsNamed rps ps)))
  unfolding off_topic
  consume-off_topic_iff ha e hr hf =
      let pm = m.callbacks t in
      let pm' = (off_message id rps pm).0 in
      let (bm, run, runs, _) = consume_message_iff m.node_name pm' target hr hf in
      (
        bm,
        consume-with_callbacks pm' e ∙ run,
        λ j.
            let (to, from) =
              IsRegistered-off_message id j target.room rps pm pm'
                ((off_message_lem id rps pm ha).1) in
            (λ r. to ((runs j).0 r), λ h. (runs j).1 (from h)),
      )

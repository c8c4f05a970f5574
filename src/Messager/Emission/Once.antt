-- ===== src/Messager/Emission/Once.antt =====
-- A message that a node emits runs its callbacks once on each node.
use conference_go.Common.{
  String, Option, none, some, str_eq, str_eq_iff, str_eq_refl, ◌≡◌, refl, ◌≢◌, ◌∙◌, inl, inr,
  Bool-cases, Result, ok, panic, ◌>>=◌, [], str_ne, ap, sym, subst, some_inj,
}
use conference_go.Proto.{Router, CustomMessage}
use conference_go.Message.{RoomMessage, custom_cluster, get_router, custom_router}
use conference_go.Messager.{Boxes, Messager, Topic, topic_of, consume, on_router, on_record}
use conference_go.Messager.Emission.{
  sent, from_node, custom_from_node, set_node_from, dispatch, emit_to, emit,
}

get_router-set_node_from :
    (name : String) (m : RoomMessage)
    → get_router (set_node_from name m) ≡ from_node name (get_router m)
unfolding get_router set_node_from
get_router-set_node_from name (custom_cluster m) = through m.msg
  where
    through :
        (c : Option CustomMessage)
        → custom_router (custom_from_node name c) ≡ from_node name (custom_router c)
    through none = refl
    through (some c) = refl
get_router-set_node_from name m = refl

module _ {ℓ} {F : Type ℓ} where
  -- What is known of a message that was sent.
  record IsSent (m : Messager F) (msg : RoomMessage) (t : Topic) (bm : Boxes F) : Type ℓ where
    router : Router
    has_router : get_router msg ≡ some router
    from_here : router.node_from ≡ m.node_name
    consumed : consume m t msg ≡ ok bm

  dispatch-IsSent :
      (m : Messager F) (o : Option Topic) (msg msg' : RoomMessage) (key key' : String) (t : Topic)
      (bm : Boxes F)
      → dispatch m o msg key ≡ ok (sent msg' t key' bm)
      → (msg ≡ msg') × (o ≡ some t) × (consume m t msg ≡ ok bm)
  unfolding dispatch
  dispatch-IsSent m none msg msg' key key' t bm e = cc
  dispatch-IsSent m (some t') msg msg' key key' t bm e = go (consume m t' msg) refl e
    where
      go :
          (r : Result (Boxes F))
          → consume m t' msg ≡ r
          → (◌>>=◌ r (λ bm. ok (sent msg t' key bm))) ≡ ok (sent msg' t key' bm)
          → (msg ≡ msg') × (some t' ≡ some t) × (consume m t msg ≡ ok bm)
      go (ok b) h e =
          (cc, cc, subst (λ (t : Topic). consume m t msg ≡ ok bm) (some_inj (cc)) (h ∙ cc))
      go (panic _) h e = cc

  emit_to-IsSent :
      (m : Messager F) (msg msg' : RoomMessage) (o : Option Router) (t : Topic) (key : String)
      (bm : Boxes F)
      → get_router msg ≡ o
      → emit_to m msg o ≡ ok (sent msg' t key bm)
      → IsSent m msg' t bm
  unfolding emit_to
  emit_to-IsSent m msg msg' none t key bm h e = cc
  emit_to-IsSent m msg msg' (some target) t key bm h e = elim (Bool-cases (str_eq target.room "")) [
    | inl no_room ↦ cc (rw (no_room, emit_to) at e)
    | inr room ↦ elim (Bool-cases (str_eq target.node_from "")) [
      | inl unset ↦
          let sent_on = set_node_from m.node_name msg in
          let e' = rw (room, unset, emit_to) at e in
          let (same, _, c) =
            dispatch-IsSent m (topic_of sent_on) sent_on msg' target.room key t bm e' in
          record {
            router = record target { node_from = m.node_name };
            has_router =
                sym (ap get_router same)
                ∙ get_router-set_node_from m.node_name msg
                ∙ ap (from_node m.node_name) h;
            from_here = refl;
            consumed = subst (λ (x : RoomMessage). consume m t x ≡ ok bm) same c;
          }
      | inr given ↦ elim (Bool-cases (str_eq target.node_from m.node_name)) [
        | inl own ↦
            let e' = rw (room, given, own, emit_to) at e in
            let (same, _, c) = dispatch-IsSent m (topic_of msg) msg msg' target.room key t bm e' in
            record {
              router = target;
              has_router = sym (ap get_router same) ∙ h;
              from_here = (str_eq_iff _ _).0 own;
              consumed = subst (λ (x : RoomMessage). consume m t x ≡ ok bm) same c;
            }
        | inr foreign ↦ cc (rw (room, given, foreign, emit_to) at e)
      ]
    ]
  ]

  -- When `Emit` has sent a message, its callbacks have run on the node that emits; that node drops the
  -- record that comes back to it, and a node of another name handles the record as it would handle the
  -- message by itself.
  pub emit_once :
      (m n : Messager F) (msg msg' : RoomMessage) (t : Topic) (key : String) (bm : Boxes F)
      → emit m msg ≡ ok (sent msg' t key bm)
      → n.node_name ≢ m.node_name
      → (consume m t msg' ≡ ok bm)
        × (on_record m t (some msg') ≡ ok [])
        × (on_record n t (some msg') ≡ consume n t msg')
  unfolding emit on_record
  emit_once m n msg msg' t key bm e ne =
      let s = emit_to-IsSent m msg msg' (get_router msg) t key bm refl e in
      (
        s.consumed,
        ap (on_router m t msg') s.has_router ∙ rw (s.from_here, str_eq_refl m.node_name),
        ap (on_router n t msg') s.has_router ∙ rw (s.from_here, str_ne (λ e. ne (sym e))),
      )

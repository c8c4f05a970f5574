-- ===== src/Context/Announcements.antt =====
-- Which messages a join sends to the nodes.
use mathlib.Core.List.Memᴰ
use conference_go.Common.{
  String, false, List, [], ◌∷◌, Option, none, some, str_eq, str_eq_iff, if◌then◌else◌, ◌≡◌, refl,
  ap, sym, ◌∙◌, subst, ◌↔◌, inl, inr, Bool-cases, Memᴰ,
}
use conference_go.Maps.{AssocMap, lookup}
use conference_go.Message.{RoomMessage, get_router}
use conference_go.Context.{
  RoomInfo, Context, entered, enter_rooms, announcement, room_router, emitted_copy, cluster_emit,
  announce_all, join_all, join_id_of_room,
}
use conference_go.Context.Joins.{
  first_info, AreFirst, same, other, none-some, entered-Enters, enter_rooms-Enters,
}

-- The rooms that a loop over names enters anew.
abbrev anew : String → List String → AssocMap RoomInfo → Option RoomInfo → List String
anew room names rooms o =
    if (entered room rooms o).1
    then room ∷ (enter_rooms names (entered room rooms o).0).1
    else (enter_rooms names (entered room rooms o).0).1

-- The rooms that are entered anew are those that are asked for and not there.
abbrev AreAnew : List String → List String → AssocMap RoomInfo → Type 0
AreAnew out names rooms = (r : String) → Memᴰ r out ↔ (Memᴰ r names × (lookup r rooms ≡ none))

anew-AreAnew :
    (room : String) (names : List String) (rooms : AssocMap RoomInfo) (o : Option RoomInfo)
    → lookup room rooms ≡ o
    → AreFirst rooms
    → AreAnew (enter_rooms names (entered room rooms o).0).1 names (entered room rooms o).0
    → AreAnew (anew room names rooms o) (room ∷ names) rooms
anew-AreAnew room names rooms (some info) e h ih r =
    rw (ap (λ (x : RoomInfo). x.joined) (h room info e)) (
      λ m. (Memᴰ.tail ((ih r).0 m).0, ((ih r).0 m).1),
      λ (m, l). elim (Memᴰ.cases_cons m) [
        | inl q ↦ absurd (none-some (sym l ∙ ap (λ i. lookup i rooms) q ∙ e))
        | inr n ↦ (ih r).1 (n, l)
      ],
    )
anew-AreAnew room names rooms none e h ih r = (
  λ m. elim (Memᴰ.cases_cons m) [
    | inl q ↦ (Memᴰ.head q, ap (λ i. lookup i rooms) q ∙ e)
    | inr n ↦
        let (k, l) = (ih r).0 n in
        (
          Memᴰ.tail k,
          elim (Bool-cases (str_eq room r)) [
            | inl q ↦ absurd (none-some (sym l ∙ same room rooms r q))
            | inr q ↦ sym (other room rooms r q) ∙ l
          ],
        )
  ],
  λ (m, l). elim (Bool-cases (str_eq room r)) [
    | inl q ↦ Memᴰ.head (sym ((str_eq_iff room r).0 q))
    | inr q ↦ elim (Memᴰ.cases_cons m) [
      | inl k ↦ Memᴰ.head k
      | inr n ↦ Memᴰ.tail ((ih r).1 (n, other room rooms r q ∙ l))
    ]
  ],
)

enter_rooms-AreAnew :
    (names : List String) (rooms : AssocMap RoomInfo)
    → AreFirst rooms
    → AreAnew (enter_rooms names rooms).1 names rooms
unfolding enter_rooms
enter_rooms-AreAnew [] rooms h r = (λ m. absurd (Memᴰ.not-nil m), λ (m, _). m)
enter_rooms-AreAnew (room ∷ names) rooms h r =
    anew-AreAnew room names rooms (lookup room rooms) refl h
      (enter_rooms-AreAnew names _ (entered-Enters room rooms _ refl h).0) r

-- The announcement of a session in a room, as it is emitted.
abbrev pub announced : Context → String → RoomMessage
announced ctx room = emitted_copy (announcement (some (room_router room)) 1 ctx) ctx room

announce_first :
    (room : String) (rooms : List String) (ctx : Context)
    → str_eq room "" ≡ false
    → lookup room ctx.rooms ≡ some first_info
    → announce_all (room ∷ rooms) ctx ≡ announced ctx room ∷ announce_all rooms ctx
unfolding announce_all join_id_of_room cluster_emit get_router
announce_first room rooms ctx ne e = rw (e, ne) refl

-- The rooms can be announced: they have names, and are joined for the first time.
abbrev AreReady : List String → Context → Type 0
AreReady rooms ctx =
    (room : String)
    → Memᴰ room rooms
    → (str_eq room "" ≡ false) × (lookup room ctx.rooms ≡ some first_info)

announce_all_iff :
    (rooms : List String) (ctx : Context) (msg : RoomMessage)
    → AreReady rooms ctx
    → Memᴰ msg (announce_all rooms ctx)
      ↔ ((room : String) × Memᴰ room rooms × (msg ≡ announced ctx room))
unfolding announce_all
announce_all_iff [] ctx msg h = (λ m. absurd (Memᴰ.not-nil m), λ (r, m, e). absurd (Memᴰ.not-nil m))
announce_all_iff (room ∷ rooms) ctx msg h =
    let (ne, l) = h room (Memᴰ.head refl) in
    let rest = announce_all_iff rooms ctx msg (λ r m. h r (Memᴰ.tail m)) in
    subst (λ out. Memᴰ msg out ↔ ((r : String) × Memᴰ r (room ∷ rooms) × (msg ≡ announced ctx r)))
      (sym (announce_first room rooms ctx ne l))
      (
        λ m. elim (Memᴰ.cases_cons m) [
          | inl e ↦ (room, Memᴰ.head refl, e)
          | inr n ↦ let (r, k, e) = rest.0 n in (r, Memᴰ.tail k, e)
        ],
        λ (r, m, e). elim (Memᴰ.cases_cons m) [
          | inl q ↦ Memᴰ.head (e ∙ ap (announced ctx) q)
          | inr k ↦ Memᴰ.tail (rest.1 (r, k, e))
        ],
      )

-- In a session whose rooms are joined for the first time, joining rooms whose names are not empty emits
-- exactly the announcements of the rooms that are asked for and were not there, with the join id 1.
pub announced-join_all :
    (names : List String) (ctx : Context) (msg : RoomMessage)
    → AreFirst ctx.rooms
    → ((room : String) → Memᴰ room names → str_eq room "" ≡ false)
    → Memᴰ msg (join_all names ctx).2 ↔ (
        (room : String) × (Memᴰ room names × (lookup room ctx.rooms ≡ none))
        × (msg ≡ announced (join_all names ctx).0 room))
unfolding join_all
announced-join_all names ctx msg h ne =
    let (_, _, _, d) = enter_rooms-Enters names ctx.rooms h in
    let anew = enter_rooms-AreAnew names ctx.rooms h in
    let out =
      announce_all_iff (enter_rooms names ctx.rooms).1 (join_all names ctx).0 msg
        (λ r m. let (k, _) = (anew r).0 m in (ne r k, d r k)) in
    (λ m. let (r, k, e) = out.0 m in (r, (anew r).0 k, e), λ (r, k, e). out.1 (r, (anew r).1 k, e))

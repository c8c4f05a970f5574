-- ===== src/Context/Joins.antt =====
-- A session's rooms over any joins and leaves.
use mathlib.Core.List.Memᴰ
use conference_go.Common.{
  String, true, false, List, [], ◌∷◌, Option, none, some, str_eq, str_eq_iff, Result, ok, panic,
  ◌≡◌, refl, arith, ap, sym, ◌∙◌, inl, inr, ◌⊎◌, ◌↔◌, Bool-cases, some_inj, Memᴰ,
}
use conference_go.Maps.{AssocMap, lookup, insert, lookup-insert}
use conference_go.Context.{
  RoomInfo, Context, new_context, entered, enter_rooms, plain_patterns, default_join, first_refused,
  Joined, checked_join, join_all, join_room, leave_room,
}
use conference_go.Context.Gate.{IsIn}

-- The entry of a room that was joined.
abbrev pub first_info : RoomInfo
first_info = record { join_id = 1; joined = true }

-- The rooms that are there are joined, for the first time.
abbrev pub AreFirst : AssocMap RoomInfo → Type 0
AreFirst rooms =
    (room : String) (info : RoomInfo) → lookup room rooms ≡ some info → info ≡ first_info

-- No entry is lost or changed.
abbrev pub IsWider : AssocMap RoomInfo → AssocMap RoomInfo → Type 0
IsWider after before =
    (room : String) (info : RoomInfo)
    → lookup room before ≡ some info
    → lookup room after ≡ some info

-- The entries that are new are those of rooms in the list.
abbrev pub AreAsked : List String → AssocMap RoomInfo → AssocMap RoomInfo → Type 0
AreAsked names after before =
    (room : String) (info : RoomInfo)
    → lookup room after ≡ some info
    → (lookup room before ≡ some info) ⊎ Memᴰ room names

-- What entering rooms does to the entries.
abbrev pub Enters : List String → AssocMap RoomInfo → AssocMap RoomInfo → Type 0
Enters names after before =
    AreFirst after
    × IsWider after before
    × AreAsked names after before
    × ((room : String) → Memᴰ room names → lookup room after ≡ some first_info)

pub none-some : {a : RoomInfo} → none ≡ some a → ⊥
none-some e = cc

module _ (room : String) (rooms : AssocMap RoomInfo) where
  pub same :
      (x : String)
      → str_eq room x ≡ true
      → lookup x (insert room first_info rooms) ≡ some first_info
  same x q = lookup-insert x room first_info rooms ∙ rw q refl

  pub other :
      (x : String)
      → str_eq room x ≡ false
      → lookup x (insert room first_info rooms) ≡ lookup x rooms
  other x q = lookup-insert x room first_info rooms ∙ rw q refl

  pub entered-Enters :
      (o : Option RoomInfo)
      → lookup room rooms ≡ o
      → AreFirst rooms
      → Enters (room ∷ []) (entered room rooms o).0 rooms
  entered-Enters (some info) e h = (
    h,
    λ x i k. k,
    λ x i k. inl k,
    λ x m. elim (Memᴰ.cases_cons m) [
      | inl q ↦ ap (λ y. lookup y rooms) q ∙ e ∙ ap some (h room info e)
      | inr m' ↦ absurd (Memᴰ.not-nil m')
    ],
  )
  entered-Enters none e h = (
    λ x i k. elim (Bool-cases (str_eq room x)) [
      | inl q ↦ sym (some_inj (sym (same x q) ∙ k))
      | inr q ↦ h x i (sym (other x q) ∙ k)
    ],
    λ x i k. elim (Bool-cases (str_eq room x)) [
      | inl q ↦ absurd (none-some (sym e ∙ ap (λ y. lookup y rooms) ((str_eq_iff room x).0 q) ∙ k))
      | inr q ↦ other x q ∙ k
    ],
    λ x i k. elim (Bool-cases (str_eq room x)) [
      | inl q ↦ inr (Memᴰ.head (sym ((str_eq_iff room x).0 q)))
      | inr q ↦ inl (sym (other x q) ∙ k)
    ],
    λ x m. elim (Memᴰ.cases_cons m) [
      | inl q ↦ same x ((str_eq_iff room x).1 (sym q))
      | inr m' ↦ absurd (Memᴰ.not-nil m')
    ],
  )

pub enter_rooms-Enters :
    (names : List String) (rooms : AssocMap RoomInfo)
    → AreFirst rooms
    → Enters names (enter_rooms names rooms).0 rooms
unfolding enter_rooms
enter_rooms-Enters [] rooms h = (h, λ x i k. k, λ x i k. inl k, λ x m. absurd (Memᴰ.not-nil m))
enter_rooms-Enters (room ∷ names) rooms h =
    let (f, w, a, d) = entered-Enters room rooms _ refl h in
    let (f', w', a', d') = enter_rooms-Enters names (entered room rooms (lookup room rooms)).0 f in
    (
      f',
      λ x i k. w' x i (w x i k),
      λ x i k. elim (a' x i k) [
        | inl k' ↦ elim (a x i k') [
          | inl k'' ↦ inl k''
          | inr m ↦ elim (Memᴰ.cases_cons m) [
            | inl q ↦ inr (Memᴰ.head q)
            | inr m' ↦ absurd (Memᴰ.not-nil m')
          ]
        ]
        | inr m ↦ inr (Memᴰ.tail m)
      ],
      λ x m. elim (Memᴰ.cases_cons m) [
        | inl q ↦ w' x first_info (d x (Memᴰ.head q))
        | inr m' ↦ d' x m'
      ],
    )

-- In a session whose joined rooms are joined for the first time, entering some rooms makes the session be
-- in these besides those it was in, and no others.
pub join_all_iff :
    (names : List String) (ctx : Context) (room : String)
    → AreFirst ctx.rooms
    → IsIn room (join_all names ctx).0 ↔ (IsIn room ctx ⊎ Memᴰ room names)
unfolding join_all
join_all_iff names ctx room h =
    let (f, w, a, d) = enter_rooms-Enters names ctx.rooms h in
    (
      λ (i, e, j, n). elim (a room i e) [ inl k ↦ inl (i, k, j, n) | inr m ↦ inr m ],
      elim [
        | inl (i, e, j, n) ↦ (i, w room i e, j, n)
        | inr m ↦ (first_info, d room m, refl, λ z. omega (arith, z))
      ],
    )

-- A client's request.
pub data Request : Type 0 where
  join leave : List String → Request

-- A join that panics changes nothing.
abbrev pub after_join : Context → Result Joined → Context
after_join ctx (ok x) = x.0
after_join ctx (panic e) = ctx

unfoldable pub after_requests : Context → List Request → Context
unfolding join_room leave_room
after_requests ctx [] = ctx
after_requests ctx (join names ∷ rs) = after_requests (after_join ctx (join_room names ctx)) rs
after_requests ctx (leave names ∷ rs) = after_requests (leave_room names ctx).0 rs

-- The rooms stay joined for the first time, and none is lost.
abbrev IsKept : Context → Context → Type 0
IsKept after before = AreFirst after.rooms × IsWider after.rooms before.rooms

join_all-IsKept :
    (names : List String) (ctx : Context) → AreFirst ctx.rooms → IsKept (join_all names ctx).0 ctx
unfolding join_all
join_all-IsKept names ctx h = let (f, w, _, _) = enter_rooms-Enters names ctx.rooms h in (f, w)

checked_join-IsKept :
    (names : List String) (ctx : Context) (o : Result (Option String))
    → AreFirst ctx.rooms
    → IsKept (after_join ctx (checked_join names ctx o)) ctx
checked_join-IsKept names ctx (ok none) h = join_all-IsKept names ctx h
checked_join-IsKept names ctx (ok (some room)) h = (h, λ x i k. k)
checked_join-IsKept names ctx (panic e) h = (h, λ x i k. k)

default_join-IsKept :
    (names : List String) (ctx : Context)
    → AreFirst ctx.rooms
    → IsKept (default_join names ctx).0 ctx
default_join-IsKept [] ctx h = (h, λ x i k. k)
default_join-IsKept (room ∷ rooms) ctx h = join_all-IsKept (room ∷ rooms) ctx h

join_room-IsKept :
    (names : List String) (ctx : Context)
    → AreFirst ctx.rooms
    → IsKept (after_join ctx (join_room names ctx)) ctx
unfolding join_room
join_room-IsKept [] ctx h = default_join-IsKept (plain_patterns ctx.room_patterns) ctx h
join_room-IsKept (room ∷ rooms) ctx h =
    checked_join-IsKept (room ∷ rooms) ctx (first_refused (room ∷ rooms) ctx.room_patterns) h

after_requests-IsKept :
    (ctx : Context) (rs : List Request) → AreFirst ctx.rooms → IsKept (after_requests ctx rs) ctx
unfolding after_requests leave_room
after_requests-IsKept ctx [] h = (h, λ x i k. k)
after_requests-IsKept ctx (join names ∷ rs) h =
    let (f, w) = join_room-IsKept names ctx h in
    let (f', w') = after_requests-IsKept (after_join ctx (join_room names ctx)) rs f in
    (f', λ x i k. w' x i (w x i k))
after_requests-IsKept ctx (leave names ∷ rs) h = after_requests-IsKept ctx rs h

-- Whatever a client asks for, the rooms of its session are joined with the id 1, and none that it was in
-- before is lost: `LeaveRoom` does not make the session leave a room.
pub after_requests_lem :
    (id node uid uname : String) (patterns : List String) (rs rs' : List Request)
    → let ctx = after_requests (new_context id node uid uname patterns) rs in
      AreFirst ctx.rooms × ((room : String) → IsIn room ctx → IsIn room (after_requests ctx rs'))
unfolding lookup
after_requests_lem id node uid uname patterns rs rs' =
    let (f, _) =
      after_requests-IsKept (new_context id node uid uname patterns) rs
        (λ x i k. absurd (none-some k)) in
    let (_, w) =
      after_requests-IsKept (after_requests (new_context id node uid uname patterns) rs) rs' f in
    (f, λ room (i, e, j, n). (i, w room i e, j, n))

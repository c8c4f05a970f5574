-- ===== src/Context/Rights.antt =====
-- Which rooms a session may join.
use mathlib.Core.List.Memᴰ
use conference_go.Common.{
  String, Bool, true, false, List, [], ◌∷◌, Option, none, some, Result, ok, panic, ◌>>=◌, ◌≡◌, refl,
  sym, subst, inl, inr, if◌then◌else◌, Decides, Every, Exists, Memᴰ, All, ◌⊎◌,
}
use conference_go.Room.{split, check_room}
use conference_go.Room.Matches.{Matches}
use conference_go.Room.Syntax.{match_room-Decides}
use conference_go.Messager.Registry.{AreAccepted}
use conference_go.Context.{
  Context, no_right, has_room_right, first_refused, join_room, join_all, checked_join,
}

-- One of the patterns matches the room.
abbrev pub HasRight : List String → String → Type 0
HasRight patterns room = Exists (λ p. Matches (split p) (split room)) patterns

HasRight-first :
    (room p : String) (ps : List String) (r rest : Result Bool)
    → Decides (Matches (split p) (split room)) r
    → Decides (HasRight ps room) rest
    → Decides (HasRight (p ∷ ps) room) (r >>= λ b. if b then ok true else rest)
HasRight-first room p ps (ok true) rest d d' = (p, Memᴰ.head refl, d)
HasRight-first room p ps (ok false) (ok true) d (q, m, h) = (q, Memᴰ.tail m, h)
HasRight-first room p ps (ok false) (ok false) d d' = λ (q, m, h). elim (Memᴰ.cases_cons m) [
  | inl e ↦ d (subst (λ x. Matches (split x) (split room)) e h)
  | inr m' ↦ d' (q, m', h)
]
HasRight-first room p ps (ok false) (panic _) d d' = d'
HasRight-first room p ps (panic _) rest d d' = absurd d

-- For accepted patterns and an accepted room name `hasRoomRight` answers, and answers true exactly if
-- one of the patterns matches the room.
pub has_room_right-Decides :
    (room : String) (patterns : List String)
    → check_room room ≡ ok tt
    → AreAccepted patterns
    → Decides (HasRight patterns room) (has_room_right room patterns)
unfolding has_room_right
has_room_right-Decides room [] hr hp = λ (p, m, h). Memᴰ.not-nil m
has_room_right-Decides room (p ∷ ps) hr (h, hs) =
    HasRight-first room p ps _ _ (match_room-Decides p room h hr)
      (has_room_right-Decides room ps hr hs)

-- All rooms have a right, or there is one without.
abbrev pub Refused : List String → List String → Result (Option String) → Type 0
Refused patterns rooms (ok none) = Every (HasRight patterns) rooms
Refused patterns rooms (ok (some room)) = Memᴰ room rooms × ¬ HasRight patterns room
Refused patterns rooms (panic e) = ⊥

Refused-first :
    (patterns rooms : List String) (room : String) (r : Result Bool) (rest : Result (Option String))
    → Decides (HasRight patterns room) r
    → Refused patterns rooms rest
    → Refused patterns (room ∷ rooms) (r >>= λ b. if b then rest else ok (some room))
Refused-first patterns rooms room (ok true) (ok none) d h = λ x m. elim (Memᴰ.cases_cons m) [
  | inl e ↦ subst (HasRight patterns) (sym e) d
  | inr m' ↦ h x m'
]
Refused-first patterns rooms room (ok true) (ok (some x)) d (m, h) = (Memᴰ.tail m, h)
Refused-first patterns rooms room (ok true) (panic _) d h = h
Refused-first patterns rooms room (ok false) rest d h = (Memᴰ.head refl, d)
Refused-first patterns rooms room (panic _) rest d h = absurd d

pub first_refused-Refused :
    (patterns rooms : List String)
    → AreAccepted patterns
    → All (λ room. check_room room ≡ ok tt) rooms
    → Refused patterns rooms (first_refused rooms patterns)
unfolding first_refused
first_refused-Refused patterns [] hp hr = λ x m. absurd (Memᴰ.not-nil m)
first_refused-Refused patterns (room ∷ rooms) hp (h, hs) =
    Refused-first patterns rooms room _ _ (has_room_right-Decides room patterns h hp)
      (first_refused-Refused patterns rooms hp hs)

-- With accepted patterns and accepted names, at least one, `JoinRoom` refuses with a name that no pattern
-- matches, and then changes and emits nothing, or every name has a pattern that matches it, and all are
-- entered.
pub join_room_lem :
    (room : String) (rooms : List String) (ctx : Context)
    → AreAccepted ctx.room_patterns
    → All (λ name. check_room name ≡ ok tt) (room ∷ rooms)
    → ((name : String) × Memᴰ name (room ∷ rooms)
        × ¬ HasRight ctx.room_patterns name
        × (join_room (room ∷ rooms) ctx ≡ ok (ctx, some (no_right name), [])))
      ⊎ (Every (HasRight ctx.room_patterns) (room ∷ rooms)
          × (join_room (room ∷ rooms) ctx ≡ ok (join_all (room ∷ rooms) ctx)))
unfolding join_room
join_room_lem room rooms ctx hp hr =
    outcome (first_refused (room ∷ rooms) ctx.room_patterns)
      (first_refused-Refused ctx.room_patterns (room ∷ rooms) hp hr)
  where
    outcome :
        (o : Result (Option String))
        → Refused ctx.room_patterns (room ∷ rooms) o
        → ((name : String) × Memᴰ name (room ∷ rooms)
            × ¬ HasRight ctx.room_patterns name
            × (checked_join (room ∷ rooms) ctx o ≡ ok (ctx, some (no_right name), [])))
          ⊎ (Every (HasRight ctx.room_patterns) (room ∷ rooms)
              × (checked_join (room ∷ rooms) ctx o ≡ ok (join_all (room ∷ rooms) ctx)))
    outcome (ok none) h = inr (h, refl)
    outcome (ok (some name)) (m, h) = inl (name, m, h, refl)
    outcome (panic e) h = absurd h

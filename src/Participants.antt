-- ===== src/Participants.antt =====
-- client/websocket.go: what a client knows of the participants of a room, from messages about joins
-- and leaves that may arrive late or in any order.
pub mod Box
pub mod Known
pub mod Newest
use conference_go.Common.{
  ℕ, ◌-◌, String, Bool, true, false, ◌&&◌, List, [], ◌∷◌, Option, none, some, str_eq, str_eq_iff,
  ltb, leb, if◌then◌else◌, ◌≡◌, ◌↔◌, arith,
}
use conference_go.Maps.Keyed.{KeyMap, find_key, put_key, delete_key}

-- model/common.go, `Participant`
pub record Participant : Type 0 where
  pub id : String
  pub name : String
  pub source_id : String
  pub join_id : ℕ

pub record ParticipantKey : Type 0 where
  pub uid : String
  pub sid : String

unfoldable pub key_eq : ParticipantKey → ParticipantKey → Bool
key_eq a b = str_eq a.uid b.uid && str_eq a.sid b.sid

pub key_eq_iff : (a b : ParticipantKey) → (key_eq a b ≡ true) ↔ (a ≡ b)
unfolding key_eq
key_eq_iff a b = ground (arith, str_eq_iff a.uid b.uid, str_eq_iff a.sid b.sid)

-- The time is a number of nanoseconds.
pub record LeavedInfo : Type 0 where
  pub jid : ℕ
  pub timestamp : ℕ

pub record Participants : Type 0 where
  pub participants : KeyMap ParticipantKey Participant
  pub leaves : KeyMap ParticipantKey LeavedInfo

abbrev pub find_participant : ParticipantKey → Participants → Option Participant
find_participant key ps = find_key key_eq key ps.participants

abbrev pub find_leave : ParticipantKey → Participants → Option LeavedInfo
find_leave key ps = find_key key_eq key ps.leaves

abbrev pub key_of : Participant → ParticipantKey
key_of p = record { uid = p.id; sid = p.source_id }

-- The second half of `Add`.
abbrev pub add_newer : Participant → Participants → Option Participant → Participants × Bool
add_newer p ps none =
    (record ps { participants = put_key key_eq (key_of p) p ps.participants }, true)
add_newer p ps (some old) =
    if ltb old.join_id p.join_id
    then (record ps { participants = put_key key_eq (key_of p) p ps.participants }, true)
    else (ps, false)

-- The leave that is known, if it is older, is forgotten; else the participant is not added.
abbrev pub add_after : Participant → Participants → Option LeavedInfo → Participants × Bool
add_after p ps none = add_newer p ps (find_participant (key_of p) ps)
add_after p ps (some info) =
    if ltb info.jid p.join_id
    then add_newer p (record ps { leaves = delete_key key_eq (key_of p) ps.leaves })
        (find_participant (key_of p) ps)
    else (ps, false)

-- `Add`
unfoldable pub add : Participant → Participants → Participants × Bool
unfolding find_key put_key delete_key key_eq
add p ps = add_after p ps (find_leave (key_of p) ps)

-- The second half of `Remove`.
abbrev pub remove_older :
    ParticipantKey → ℕ → Participants → Option Participant → Participants × Option Participant
remove_older key jid ps none = (ps, none)
remove_older key jid ps (some pt) =
    if leb pt.join_id jid
    then (record ps { participants = delete_key key_eq key ps.participants }, some pt)
    else (ps, none)

-- The leave is recorded; the pointer to an older one is written through.
abbrev pub note_leave : ParticipantKey → ℕ → ℕ → Participants → Participants
note_leave key jid now ps = record ps {
  leaves = put_key key_eq key (record { jid = jid; timestamp = now }) ps.leaves;
}

abbrev pub remove_after :
    ParticipantKey → ℕ → ℕ → Participants → Option LeavedInfo → Participants × Option Participant
remove_after key jid now ps none =
    remove_older key jid (note_leave key jid now ps) (find_participant key ps)
remove_after key jid now ps (some info) =
    if ltb info.jid jid
    then remove_older key jid (note_leave key jid now ps) (find_participant key ps)
    else (ps, none)

-- `Remove`, at the time `now`
unfoldable pub remove : ParticipantKey → ℕ → ℕ → Participants → Participants × Option Participant
unfolding find_key put_key delete_key key_eq
remove key jid now ps = remove_after key jid now ps (find_leave key ps)

abbrev pub minute : ℕ
minute = 60_000_000_000

unfoldable pub recent_leaves :
    ℕ → KeyMap ParticipantKey LeavedInfo → KeyMap ParticipantKey LeavedInfo
recent_leaves now [] = []
recent_leaves now ((key, info) ∷ leaves) =
    let rest = recent_leaves now leaves in
    if ltb minute (now - info.timestamp) then rest else (key, info) ∷ rest

abbrev pub is_empty_map {ℓ} : {A : Type ℓ} → List A → Bool
is_empty_map [] = true
is_empty_map (x ∷ l) = false

-- `Clean`
unfoldable pub clean : ℕ → Participants → Participants × Bool
unfolding recent_leaves
clean now ps =
    let leaves = recent_leaves now ps.leaves in
    (record ps { leaves = leaves }, is_empty_map ps.participants && is_empty_map leaves)

-- `FindOneByUser`
unfoldable pub find_by_user : String → KeyMap ParticipantKey Participant → Option Participant
find_by_user uid [] = none
find_by_user uid ((key, p) ∷ m) = if str_eq key.uid uid then some p else find_by_user uid m

abbrev pub no_participants : Participants
no_participants = record { participants = []; leaves = [] }

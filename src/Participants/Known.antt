-- ===== src/Participants/Known.antt =====
-- What `Add` and `Remove` do to what is known of one key.
use conference_go.Common.{
  ℕ, suc, ◌-◌, ◌≤◌, ◌<◌, true, false, Option, none, some, ltb, leb, if◌then◌else◌, ◌≡◌, refl, arith,
  inl, inr, ap₂, sym, ◌∙◌, Bool-cases,
}
use conference_go.Maps.Keyed.{KeyMap, find_key, put_key, delete_key, find-put_key, find-delete_key}
use conference_go.Participants.{
  Participant, ParticipantKey, LeavedInfo, Participants, key_eq, key_eq_iff, key_of,
  find_participant, find_leave, add_newer, add_after, remove_older, remove_after,
}

abbrev pub max : ℕ → ℕ → ℕ
max a b = if ltb a b then b else a

-- What is known of a key agrees with the newest join and the newest leave.
abbrev pub Agrees : ℕ → ℕ → Option Participant → Option LeavedInfo → Type 0
Agrees j l (some p) none = (suc p.join_id ≡ j) × (l < j)
Agrees j l (some p) (some i) = (suc p.join_id ≡ j) × (l < j) × (suc i.jid ≤ l)
Agrees j l none none = (j ≡ 0) × (l ≡ 0)
Agrees j l none (some i) = (j ≤ l) × (suc i.jid ≡ l)

abbrev newer : Participant → Option Participant → Option Participant
newer p none = some p
newer p (some old) = if ltb old.join_id p.join_id then some p else some old

-- What `Add` does to what is known of the key of `p`.
abbrev pub added :
    Participant → Option Participant → Option LeavedInfo → Option Participant × Option LeavedInfo
added p found none = (newer p found, none)
added p found (some i) = if ltb i.jid p.join_id then (newer p found, none) else (found, some i)

abbrev older : ℕ → Option Participant → Option Participant
older jid none = none
older jid (some pt) = if leb pt.join_id jid then none else some pt

-- What `Remove` does to what is known of its key.
abbrev pub removed :
    LeavedInfo → Option Participant → Option LeavedInfo → Option Participant × Option LeavedInfo
removed info found none = (older info.jid found, some info)
removed info found (some i) =
    if ltb i.jid info.jid then (older info.jid found, some info) else (found, some i)

pub Agrees-added :
    (p : Participant) (found : Option Participant) (gone : Option LeavedInfo) (j l : ℕ)
    → Agrees j l found gone
    → Agrees (max j (suc p.join_id)) l (added p found gone).0 (added p found gone).1
Agrees-added p none none j l h = ground (arith, h)
Agrees-added p none (some i) j l h = ground (arith, h)
Agrees-added p (some old) none j l h = ground (arith, h)
Agrees-added p (some old) (some i) j l h = ground (arith, h)

pub Agrees-removed :
    (info : LeavedInfo) (found : Option Participant) (gone : Option LeavedInfo) (j l : ℕ)
    → Agrees j l found gone
    → Agrees j (max l (suc info.jid)) (removed info found gone).0 (removed info found gone).1
Agrees-removed info none none j l h = ground (arith, h)
Agrees-removed info none (some i) j l h = ground (arith, h)
Agrees-removed info (some old) none j l h = ground (arith, h)
Agrees-removed info (some old) (some i) j l h = ground (arith, h)

abbrev pub Known : Type 0
Known = Option Participant × Option LeavedInfo

abbrev pub known : ParticipantKey → Participants → Known
known key ps = (find_participant key ps, find_leave key ps)

key_eq_refl : (key : ParticipantKey) → key_eq key key ≡ true
key_eq_refl key = (key_eq_iff key key).1 refl

module _ {A : Type 0} (key : ParticipantKey) (m : KeyMap ParticipantKey A) where
  find_put_self : (v : A) → find_key key_eq key (put_key key_eq key v m) ≡ some v
  find_put_self v = rw (find-put_key key_eq key_eq_iff key key v m, key_eq_refl key) refl

  find_delete_self : find_key key_eq key (delete_key key_eq key m) ≡ none
  find_delete_self = rw (find-delete_key key_eq key_eq_iff key key m, key_eq_refl key) refl

  module _ (other : ParticipantKey) (ne : key_eq key other ≡ false) where
    find_put_other :
        (v : A) → find_key key_eq other (put_key key_eq key v m) ≡ find_key key_eq other m
    find_put_other v = rw (find-put_key key_eq key_eq_iff other key v m, ne) refl

    find_delete_other : find_key key_eq other (delete_key key_eq key m) ≡ find_key key_eq other m
    find_delete_other = rw (find-delete_key key_eq key_eq_iff other key m, ne) refl

abbrev pair : Option Participant → Option LeavedInfo → Known
pair a b = (a, b)

-- `Add` on the key of its participant.
module _ (p : Participant) where
  known-add_newer :
      (ps : Participants) (found : Option Participant)
      → found ≡ find_participant (key_of p) ps
      → known (key_of p) (add_newer p ps found).0 ≡ (newer p found, find_leave (key_of p) ps)
  known-add_newer ps none e = ap₂ pair (find_put_self (key_of p) ps.participants p) refl
  known-add_newer ps (some old) e = elim (Bool-cases (ltb old.join_id p.join_id)) [
    | inl k ↦ rw k (ap₂ pair (find_put_self (key_of p) ps.participants p) refl)
    | inr k ↦ rw k (ap₂ pair (sym e) refl)
  ]

  pub known-add_after :
      (ps : Participants) (gone : Option LeavedInfo)
      → gone ≡ find_leave (key_of p) ps
      → known (key_of p) (add_after p ps gone).0 ≡ added p (find_participant (key_of p) ps) gone
  known-add_after ps none e = known-add_newer ps _ refl ∙ ap₂ pair refl (sym e)
  known-add_after ps (some i) e = elim (Bool-cases (ltb i.jid p.join_id)) [
    | inl k ↦
        rw k (known-add_newer _ _ refl ∙ ap₂ pair refl (find_delete_self (key_of p) ps.leaves))
    | inr k ↦ rw k (ap₂ pair refl (sym e))
  ]

  module _ (key : ParticipantKey) (ne : key_eq (key_of p) key ≡ false) where
    other-add_newer :
        (ps : Participants) (found : Option Participant)
        → known key (add_newer p ps found).0 ≡ known key ps
    other-add_newer ps none = ap₂ pair (find_put_other (key_of p) ps.participants key ne p) refl
    other-add_newer ps (some old) = elim (Bool-cases (ltb old.join_id p.join_id)) [
      | inl k ↦ rw k (ap₂ pair (find_put_other (key_of p) ps.participants key ne p) refl)
      | inr k ↦ rw k refl
    ]

    pub other-add_after :
        (ps : Participants) (gone : Option LeavedInfo)
        → known key (add_after p ps gone).0 ≡ known key ps
    other-add_after ps none = other-add_newer ps _
    other-add_after ps (some i) = elim (Bool-cases (ltb i.jid p.join_id)) [
      | inl k ↦
          rw k (other-add_newer _ _ ∙ ap₂ pair refl (find_delete_other (key_of p) ps.leaves key ne))
      | inr k ↦ rw k refl
    ]

-- `Remove` on its key.
module _ (key : ParticipantKey) (jid now : ℕ) where
  abbrev pub info : LeavedInfo
  info = record { jid = jid; timestamp = now }

  known-remove_older :
      (ps : Participants) (found : Option Participant)
      → found ≡ find_participant key ps
      → known key (remove_older key jid ps found).0 ≡ (older jid found, find_leave key ps)
  known-remove_older ps none e = ap₂ pair (sym e) refl
  known-remove_older ps (some pt) e = elim (Bool-cases (leb pt.join_id jid)) [
    | inl k ↦ rw k (ap₂ pair (find_delete_self key ps.participants) refl)
    | inr k ↦ rw k (ap₂ pair (sym e) refl)
  ]

  pub known-remove_after :
      (ps : Participants) (gone : Option LeavedInfo)
      → gone ≡ find_leave key ps
      → known key (remove_after key jid now ps gone).0 ≡ removed info (find_participant key ps) gone
  known-remove_after ps none e =
      known-remove_older _ _ refl ∙ ap₂ pair refl (find_put_self key ps.leaves info)
  known-remove_after ps (some i) e = elim (Bool-cases (ltb i.jid jid)) [
    | inl k ↦ rw k (known-remove_older _ _ refl ∙ ap₂ pair refl (find_put_self key ps.leaves info))
    | inr k ↦ rw k (ap₂ pair refl (sym e))
  ]

  module _ (other : ParticipantKey) (ne : key_eq key other ≡ false) where
    other-remove_older :
        (ps : Participants) (found : Option Participant)
        → known other (remove_older key jid ps found).0 ≡ known other ps
    other-remove_older ps none = refl
    other-remove_older ps (some pt) = elim (Bool-cases (leb pt.join_id jid)) [
      | inl k ↦ rw k (ap₂ pair (find_delete_other key ps.participants other ne) refl)
      | inr k ↦ rw k refl
    ]

    pub other-remove_after :
        (ps : Participants) (gone : Option LeavedInfo)
        → known other (remove_after key jid now ps gone).0 ≡ known other ps
    other-remove_after ps none =
        other-remove_older _ _ ∙ ap₂ pair refl (find_put_other key ps.leaves other ne info)
    other-remove_after ps (some i) = elim (Bool-cases (ltb i.jid jid)) [
      | inl k ↦
          rw k (other-remove_older _ _ ∙ ap₂ pair refl (find_put_other key ps.leaves other ne info))
      | inr k ↦ rw k refl
    ]

abbrev pub join_id_of : Option Participant → Option ℕ
join_id_of none = none
join_id_of (some p) = some p.join_id

pub Agrees-join_id :
    (found : Option Participant) (gone : Option LeavedInfo) (j l : ℕ)
    → Agrees j l found gone
    → join_id_of found ≡ (if ltb l j then some (j - 1) else none)
Agrees-join_id none none j l h = ground (arith, h)
Agrees-join_id none (some i) j l h = ground (arith, h)
Agrees-join_id (some p) none j l h = ground (arith, h)
Agrees-join_id (some p) (some i) j l h = ground (arith, h)

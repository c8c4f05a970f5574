-- ===== src/Participants/Newest.antt =====
-- Whatever the order of the messages, the newest one decides who is present.
use mathlib.Core.List.{Permᴰ}
use conference_go.Common.{
  ℕ, suc, List, [], ◌∷◌, none, some, ltb, if◌then◌else◌, ◌≡◌, refl, arith, inl, inr, subst, ap, ap₂,
  sym, ◌∙◌, Bool-cases, ◌-◌,
}
use conference_go.Maps.Keyed.{find_key}
use conference_go.Participants.Known.{
  max, Agrees, Known, known, Agrees-added, Agrees-removed, Agrees-join_id, join_id_of,
  known-add_after, other-add_after, known-remove_after, other-remove_after, info,
}
use conference_go.Participants.{
  Participant, ParticipantKey, Participants, key_eq, key_eq_iff, key_of, find_participant, add,
  remove, no_participants,
}

-- A message about a participant, with the time at which a leave arrives.
pub data Event : Type 0 where
  joined : Participant → Event
  left : ParticipantKey → ℕ → ℕ → Event

unfoldable pub after : Participants → List Event → Participants
unfolding add remove
after ps [] = ps
after ps (joined p ∷ es) = after (add p ps).0 es
after ps (left key jid now ∷ es) = after (remove key jid now ps).0 es

-- One more than the greatest join id among the joins, and among the leaves, of a key; 0 without any.
abbrev next_join : ParticipantKey → ℕ → Event → ℕ
next_join key n (joined p) = if key_eq (key_of p) key then max n (suc p.join_id) else n
next_join key n (left k jid now) = n

abbrev next_leave : ParticipantKey → ℕ → Event → ℕ
next_leave key n (joined p) = n
next_leave key n (left k jid now) = if key_eq k key then max n (suc jid) else n

-- A left fold whose steps commute does not depend on the order.
abbrev folded : (ℕ → Event → ℕ) → ℕ → List Event → ℕ
folded step n [] = n
folded step n (e ∷ es) = folded step (step n e) es

abbrev pub newest_join : ParticipantKey → ℕ → List Event → ℕ
newest_join key = folded (next_join key)

abbrev pub newest_leave : ParticipantKey → ℕ → List Event → ℕ
newest_leave key = folded (next_leave key)

abbrev Holds : ParticipantKey → ℕ → ℕ → Known → Type 0
Holds key j l k = Agrees j l k.0 k.1

Holds-add :
    (key : ParticipantKey) (p : Participant) (j l : ℕ) (ps : Participants)
    → Holds key j l (known key ps)
    → Holds key
        (if key_eq (key_of p) key then max j (suc p.join_id) else j)
        l
        (known key (add p ps).0)
unfolding add
Holds-add key p j l ps h = elim (Bool-cases (key_eq (key_of p) key)) [
  | inl e ↦ rw e (
      subst (λ k. Holds k (max j (suc p.join_id)) l (known k (add p ps).0))
        ((key_eq_iff (key_of p) key).0 e)
        (subst (Holds (key_of p) (max j (suc p.join_id)) l) (sym (known-add_after p ps _ refl)) (
          Agrees-added p _ _ j l
            (subst (λ k. Holds k j l (known k ps)) (sym ((key_eq_iff (key_of p) key).0 e)) h))))
  | inr e ↦ rw e (subst (Holds key j l) (sym (other-add_after p key e ps _)) h)
]

Holds-remove :
    (key k : ParticipantKey) (jid now j l : ℕ) (ps : Participants)
    → Holds key j l (known key ps)
    → Holds key j (if key_eq k key then max l (suc jid) else l) (known key (remove k jid now ps).0)
unfolding remove
Holds-remove key k jid now j l ps h = elim (Bool-cases (key_eq k key)) [
  | inl e ↦ rw e (
      subst (λ o. Holds o j (max l (suc jid)) (known o (remove k jid now ps).0))
        ((key_eq_iff k key).0 e)
        (subst (Holds k j (max l (suc jid))) (sym (known-remove_after k jid now ps _ refl)) (
          Agrees-removed (info k jid now) _ _ j l
            (subst (λ o. Holds o j l (known o ps)) (sym ((key_eq_iff k key).0 e)) h))))
  | inr e ↦ rw e (subst (Holds key j l) (sym (other-remove_after k jid now key e ps _)) h)
]

Holds-after :
    (key : ParticipantKey) (ps : Participants) (es : List Event) (j l : ℕ)
    → Holds key j l (known key ps)
    → Holds key (newest_join key j es) (newest_leave key l es) (known key (after ps es))
unfolding after
Holds-after key ps [] j l h = h
Holds-after key ps (joined p ∷ es) j l h =
    Holds-after key (add p ps).0 es _ l (Holds-add key p j l ps h)
Holds-after key ps (left k jid now ∷ es) j l h =
    Holds-after key (remove k jid now ps).0 es j _ (Holds-remove key k jid now j l ps h)

-- After any joins and leaves, from none on and without a `Clean` between them, a key is present exactly if
-- its newest join is newer than its newest leave, and
-- it has the newest join's id.
pub find_participant-after :
    (es : List Event) (key : ParticipantKey)
    → join_id_of (find_participant key (after no_participants es)) ≡ (
        if ltb (newest_leave key 0 es) (newest_join key 0 es)
        then some (newest_join key 0 es - 1)
        else none)
unfolding find_key
find_participant-after es key =
    Agrees-join_id _ _ _ _ (Holds-after key no_participants es 0 0 (refl, refl))

next_join-next_join :
    (key : ParticipantKey) (n : ℕ) (a b : Event)
    → next_join key (next_join key n a) b ≡ next_join key (next_join key n b) a
next_join-next_join key n (joined p) (joined q) = ground arith
next_join-next_join key n (joined p) (left k jid now) = refl
next_join-next_join key n (left k jid now) (joined q) = refl
next_join-next_join key n (left k jid now) (left k' jid' now') = refl

next_leave-next_leave :
    (key : ParticipantKey) (n : ℕ) (a b : Event)
    → next_leave key (next_leave key n a) b ≡ next_leave key (next_leave key n b) a
next_leave-next_leave key n (left k jid now) (left k' jid' now') = ground arith
next_leave-next_leave key n (joined p) (left k jid now) = refl
next_leave-next_leave key n (left k jid now) (joined q) = refl
next_leave-next_leave key n (joined p) (joined q) = refl

folded-Perm :
    (step : ℕ → Event → ℕ) (h : (n : ℕ) (a b : Event) → step (step n a) b ≡ step (step n b) a)
    {es fs : List Event}
    → Permᴰ es fs
    → (n : ℕ) → folded step n es ≡ folded step n fs
folded-Perm step h Permᴰ.nil n = refl
folded-Perm step h (Permᴰ.cons {a = a} {b = b} {l₁ = l} e d) n =
    ap (λ x. folded step (step n x) l) e ∙ folded-Perm step h d (step n b)
folded-Perm step h (Permᴰ.swap {a = a} {b = b} {l = l} e e') n =
    ap (λ m. folded step m l) (h n a b) ∙ ap₂ (λ x y. folded step (step (step n x) y) l) e' e
folded-Perm step h (Permᴰ.trans d d') n = folded-Perm step h d n ∙ folded-Perm step h d' n

-- The joins and leaves may come in any order, without a `Clean` between them: who is present, and with
-- which join id, is the same.
pub find_participant-Perm :
    (es fs : List Event)
    → Permᴰ es fs
    → (key : ParticipantKey)
    → join_id_of (find_participant key (after no_participants es))
      ≡ join_id_of (find_participant key (after no_participants fs))
find_participant-Perm es fs d key =
    find_participant-after es key
    ∙ ap₂ (λ j l. if ltb l j then some (j - 1) else none)
        (folded-Perm _ (next_join-next_join key) d 0)
        (folded-Perm _ (next_leave-next_leave key) d 0)
    ∙ sym (find_participant-after fs key)

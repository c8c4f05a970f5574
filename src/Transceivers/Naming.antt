-- ===== src/Transceivers/Naming.antt =====
-- The text that names a transceiver leads back to it.
use mathlib.Core.List.Memᴰ
use conference_go.Common.{
  ℕ, zero, suc, ◌≤◌, ◌/◌, true-ne-false, ◌+◌, ◌^◌, ◌==◌, ◌<◌, ltb, String, true, false, List, [],
  ◌∷◌, ◌++◌, none, some, Result, ok, ◌>>=◌, ◌≡◌, ◌≢◌, refl, ◌∙◌, ◌↔◌, ◌⊎◌, inl, inr, arith,
  Bool-cases, Memᴰ, sym, ap, ap₂, length, some_inj, Every, All,
}
use conference_go.Frames.{Bytes, format, digits, parse_uint}
use conference_go.Frames.Digits.{parse_uint-format}
use conference_go.Socket.{bytes_eq}
use conference_go.Transceivers.{
  Transceiver, find_transiver_by_sender, pos_prefix, pos_text, name_of, name_with, read_digits,
  get_mid_from_sender, Position, unset, at, atoi, after_prefix, position_in, track_of_receiver,
  search_remote, find_tracks_remote_by_mid_and_rid,
}

All-append : (P : ℕ → Type 0) (s t : Bytes) → All P s → All P t → All P (s ++ t)
All-append P [] t h h' = h'
All-append P (c ∷ s) t (p, h) h' = (p, All-append P s t h h')

-- The bytes of a number are digits.
digits-ge : (k n : ℕ) → All (λ c. b'0' ≤ c) (digits k n)
unfolding digits
digits-ge zero n = tt
digits-ge (suc k) n = elim (Bool-cases (ltb n 10)) [
  | inl e ↦ rw e (omega arith, tt)
  | inr e ↦
      rw e
        (All-append (λ c. b'0' ≤ c) (digits k (n / 10)) _ (digits-ge k (n / 10)) (omega arith, tt))
]

atoi-digits : (s : Bytes) → All (λ c. b'0' ≤ c) s → atoi s ≡ read_digits (parse_uint 63 s)
unfolding atoi parse_uint
atoi-digits [] h = refl
atoi-digits (c ∷ s) (p, h) = rw (minus, plus) refl
  where
    minus : c == b'-' ≡ false
    minus = ground (arith, p)

    plus : c == b'+' ≡ false
    plus = ground (arith, p)

atoi-format : (i : ℕ) → i < 2 ^ 63 → atoi (format i) ≡ ok (at i)
atoi-format i h =
    atoi-digits (format i) (digits-ge 20 i)
    ∙ ap read_digits (parse_uint-format 63 i h (omega (arith, h)))

module _ (sender : ℕ) where
  find_transiver-bounds :
      (ts : List Transceiver) (base i : ℕ) (t : Transceiver)
      → find_transiver_by_sender base ts sender ≡ some (t, i)
      → (base ≤ i) × (i < base + length ts) × Memᴰ t ts
  unfolding find_transiver_by_sender
  find_transiver-bounds [] base i t e = cc
  find_transiver-bounds (u ∷ ts) base i t e = elim (Bool-cases (u.sender == sender)) [
    | inl k ↦
        let q = some_inj (rw k at e) in
        (
          omega (arith, ap (λ (p : Transceiver × ℕ). p.1) q),
          omega (arith, ap (λ (p : Transceiver × ℕ). p.1) q),
          Memᴰ.head (sym (ap (λ (p : Transceiver × ℕ). p.0) q)),
        )
    | inr k ↦
        let (lo, hi, m) = find_transiver-bounds ts (suc base) i t (rw k at e) in
        (omega (arith, lo), omega (arith, hi), Memᴰ.tail m)
  ]

  -- The position of a transceiver leads to it.
  search_remote-at :
      (sid rid : String) (mid : Bytes) (ts : List Transceiver) (base i : ℕ) (t : Transceiver)
      → find_transiver_by_sender base ts sender ≡ some (t, i)
      → search_remote (at i) sid mid rid base ts ≡ (track_of_receiver sid rid t.receiver, some t)
  unfolding search_remote find_transiver_by_sender
  search_remote-at sid rid mid [] base i t e = cc
  search_remote-at sid rid mid (u ∷ ts) base i t e = elim (Bool-cases (u.sender == sender)) [
    | inl k ↦
        let q = some_inj (rw k at e) in
        let here : (i == base) ≡ true = ground (arith, ap (λ (p : Transceiver × ℕ). p.1) q) in
        rw here (
          ap (λ (x : Transceiver). (track_of_receiver sid rid x.receiver, some x))
            (ap (λ (p : Transceiver × ℕ). p.0) q))
    | inr k ↦
        let later = rw k at e in
        let (lo, _, _) = find_transiver-bounds ts (suc base) i t later in
        let there : (i == base) ≡ false = ground (arith, lo) in
        rw there (search_remote-at sid rid mid ts (suc base) i t later)
  ]

bytes_eq_iff : (s t : Bytes) → (bytes_eq s t ≡ true) ↔ (s ≡ t)
unfolding bytes_eq
bytes_eq_iff [] [] = (λ _. refl, λ _. refl)
bytes_eq_iff [] (d ∷ t) = (λ e. cc, λ e. cc)
bytes_eq_iff (c ∷ s) [] = (λ e. cc, λ e. cc)
bytes_eq_iff (c ∷ s) (d ∷ t) = elim (Bool-cases (c == d)) [
  | inl k ↦
      let same : c ≡ d = ground (arith, k) in
      rw k (λ e. ap₂ (λ x y. x ∷ y) same ((bytes_eq_iff s t).0 e), λ e. (bytes_eq_iff s t).1 (cc e))
  | inr k ↦ rw k (λ e. cc, λ e. absurd (differ e k))
]
  where
    differ : c ∷ s ≡ d ∷ t → c == d ≡ false → ⊥
    differ e k = ground (arith, e, k)

-- The mid of a transceiver leads to it, if no other one has it.
search_remote-mid :
    (sid rid : String) (ts : List Transceiver) (base : ℕ) (t : Transceiver)
    → Memᴰ t ts
    → Every (λ (u : Transceiver). u.mid ≡ t.mid → u ≡ t) ts
    → search_remote unset sid t.mid rid base ts ≡ (track_of_receiver sid rid t.receiver, some t)
unfolding search_remote
search_remote-mid sid rid [] base t m only = absurd (Memᴰ.not-nil m)
search_remote-mid sid rid (u ∷ ts) base t m only = elim (Bool-cases (bytes_eq u.mid t.mid)) [
  | inl k ↦ rw k (
      ap (λ (x : Transceiver). (track_of_receiver sid rid x.receiver, some x))
        (only u (Memᴰ.head refl) ((bytes_eq_iff u.mid t.mid).0 k)))
  | inr k ↦ elim (Memᴰ.cases_cons m) [
    | inl q ↦
        absurd
          (true-ne-false ((bytes_eq_iff u.mid t.mid).1 (sym (ap (λ (x : Transceiver). x.mid) q))) k)
    | inr m' ↦ rw k (search_remote-mid sid rid ts (suc base) t m' (λ v n. only v (Memᴰ.tail n)))
  ]
]

name_with-mid : (mid : Bytes) (i : ℕ) → mid ≢ [] → name_with mid i ≡ mid
name_with-mid [] i n = absurd (n refl)
name_with-mid (c ∷ mid) i n = refl

-- The transceiver has no mid yet, or a mid of its own that does not read as a position.
abbrev pub IsNameable : List Transceiver → Transceiver → Type 0
IsNameable ts t =
    (t.mid ≡ [])
    ⊎ ((t.mid ≢ [])
        × (after_prefix pos_prefix t.mid ≡ none)
        × Every (λ (u : Transceiver). u.mid ≡ t.mid → u ≡ t) ts)

-- The text that `getMidFromSender` gives for the sender of a transceiver leads
-- `findTracksRemoteByMidAndRid` to this transceiver and its track, whether it has a mid or not.
pub find_tracks_remote-get_mid :
    (ts : List Transceiver) (sender : ℕ) (sid rid : String) (t : Transceiver) (i : ℕ)
    → length ts < 2 ^ 63
    → find_transiver_by_sender 0 ts sender ≡ some (t, i)
    → IsNameable ts t
    → find_tracks_remote_by_mid_and_rid ts sid (get_mid_from_sender ts sender) rid
      ≡ ok (track_of_receiver sid rid t.receiver, some t)
unfolding find_tracks_remote_by_mid_and_rid get_mid_from_sender
find_tracks_remote-get_mid ts sender sid rid t i small e h =
    let (_, hi, m) = find_transiver-bounds sender ts 0 i t e in
    elim h [
      | inl n ↦
          ap (λ x. find_tracks_remote_by_mid_and_rid ts sid x rid)
            (ap name_of e ∙ ap (λ x. name_with x i) n)
          ∙ ap
              (λ (x : Result Position).
                x >>= λ pos. ok (search_remote pos sid (pos_text i) rid 0 ts))
              (atoi-format i (omega (arith, hi, small)))
          ∙ ap ok (search_remote-at sender sid rid (pos_text i) ts 0 i t e)
      | inr (n, p, only) ↦
          ap (λ x. find_tracks_remote_by_mid_and_rid ts sid x rid)
            (ap name_of e ∙ name_with-mid t.mid i n)
          ∙ ap (λ x. position_in x >>= λ pos. ok (search_remote pos sid t.mid rid 0 ts)) p
          ∙ ap ok (search_remote-mid sid rid ts 0 t m only)
    ]

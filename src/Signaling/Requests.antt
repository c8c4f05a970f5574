-- ===== src/Signaling/Requests.antt =====
-- The request to publish, and the UUIDs that are drawn for it.
use conference_go.Common.{
  ℕ, zero, suc, ◌+◌, ◌≤◌, ◌<◌, String, false, List, [], ◌∷◌, none, some, str_eq, str_eq_iff,
  str_eq_refl, get_elem?, length, ok, ◌≡◌, ◌≢◌, refl, ◌∙◌, inl, inr, arith, Bool-cases,
  Option-cases, sym, ap, subst, some_inj,
}
use conference_go.Maps.{AssocMap, lookup, insert, erase, lookup-insert, lookup-erase}
use conference_go.Protocol.{PublishMessage, TrackToPublish, validate_publish}
use conference_go.Publisher.{PublishedTrack, Publication, new_track, new_tracks}
use conference_go.Signaling.{Session, done, fresh_id, added_publication, published, publish}

-- No UUID is drawn twice.
abbrev pub AreFresh : (ℕ → String) → Type 0
AreFresh uuid = (i j : ℕ) → uuid i ≡ uuid j → i ≡ j

length-erase_le : {A : Type 0} (key : String) (m : AssocMap A) → length (erase key m) ≤ length m
unfolding erase
length-erase_le key [] = omega arith
length-erase_le key ((k, w) ∷ m) = elim (Bool-cases (str_eq k key)) [
  | inl q ↦ rw q (omega (arith, length-erase_le key m))
  | inr q ↦ rw q (omega (arith, length-erase_le key m))
]

length-erase :
    {A : Type 0} (key : String) (v : A) (m : AssocMap A)
    → lookup key m ≡ some v
    → length (erase key m) < length m
unfolding lookup erase
length-erase key v [] e = cc
length-erase key v ((k, w) ∷ m) e = elim (Bool-cases (str_eq k key)) [
  | inl q ↦ rw q (omega (arith, length-erase_le key m))
  | inr q ↦ rw q (omega (arith, length-erase key v m (rw (q, lookup) at e)))
]

apart : (a b : String) → a ≢ b → str_eq a b ≡ false
apart a b h = elim (Bool-cases (str_eq a b)) [
  | inl q ↦ absurd (h ((str_eq_iff a b).0 q))
  | inr q ↦ q
]

differ : (uuid : ℕ → String) (i j : ℕ) → AreFresh uuid → i ≢ j → str_eq (uuid i) (uuid j) ≡ false
differ uuid i j fresh h = apart (uuid i) (uuid j) (λ e. h (fresh i j e))

-- With fresh UUIDs, one round more than there are entries is enough to draw a new key. `left` keeps the
-- entries whose keys may still be drawn.
fresh_id-new :
    {A : Type 0} (uuid : ℕ → String) (k n : ℕ) (m left : AssocMap A)
    → AreFresh uuid
    → length left < k
    → ((i : ℕ) → n ≤ i → lookup (uuid i) left ≡ lookup (uuid i) m)
    → (i : ℕ) × (lookup (uuid i) m ≡ none) × (fresh_id uuid k n m ≡ ok (uuid i, suc i))
unfolding fresh_id
fresh_id-new uuid zero n m left fresh h same = absurd (omega (arith, h))
fresh_id-new uuid (suc k) n m left fresh h same = elim (Option-cases (lookup (uuid n) m)) [
  | inl e ↦ (n, e, rw (e, fresh_id) refl)
  | inr (v, e) ↦
      let e' = same n (omega arith) ∙ e in
      let (i, none_there, q) =
        fresh_id-new uuid k (suc n) m (erase (uuid n) left) fresh
          (omega (arith, length-erase (uuid n) v left e', h))
          (λ i le.
            lookup-erase (uuid i) (uuid n) left
            ∙ rw (differ uuid n i fresh (λ q. omega (arith, le, q)))
                (same i (omega (arith, le)))) in
      (i, none_there, rw (e, fresh_id) q)
]

at_each :
    {A : Type 0} (P : ℕ → A → Type 0) (x : A) (xs : List A)
    → P 0 x
    → ((k : ℕ) (y : A) → get_elem? xs k ≡ some y → P (suc k) y)
    → (k : ℕ) (y : A) → get_elem? (x ∷ xs) k ≡ some y
    → P k y
at_each P x xs now later zero y e = subst (P 0) (some_inj e) now
at_each P x xs now later (suc k) y e = later k y e

-- The tracks made before stay, and each track asked for is there under the next UUID.
new_tracks-lookup :
    (uuid : ℕ → String) (pub_id : String) (ts : List TrackToPublish) (n : ℕ)
    (made : AssocMap PublishedTrack)
    → AreFresh uuid
    → ((i : ℕ) → i < n → lookup (uuid i) (new_tracks uuid n pub_id ts made) ≡ lookup (uuid i) made)
      × ((k : ℕ) (t : TrackToPublish)
          → get_elem? ts k ≡ some t
          → lookup (uuid (n + k)) (new_tracks uuid n pub_id ts made)
            ≡ some (new_track pub_id (uuid (n + k)) t))
unfolding new_tracks
new_tracks-lookup uuid pub_id [] n made fresh = (λ i h. refl, λ k t e. cc)
new_tracks-lookup uuid pub_id (t ∷ ts) n made fresh =
    let (kept, there) =
      new_tracks-lookup uuid pub_id ts (suc n) (insert (uuid n) (new_track pub_id (uuid n) t) made)
        fresh in
    let Placed : ℕ → TrackToPublish → Type 0 = λ j t'.
      lookup (uuid j)
        (new_tracks uuid (suc n) pub_id ts (insert (uuid n) (new_track pub_id (uuid n) t) made))
      ≡ some (new_track pub_id (uuid j) t') in
    (
      λ i h.
          kept i (omega (arith, h))
          ∙ lookup-insert (uuid i) (uuid n) (new_track pub_id (uuid n) t) made
          ∙ rw (differ uuid n i fresh (λ q. omega (arith, h, q))) refl,
      at_each (λ k. Placed (n + k)) t ts
          (subst (λ j. Placed j t) (omega arith)
            (kept n (omega arith)
              ∙ lookup-insert (uuid n) (uuid n) (new_track pub_id (uuid n) t) made
              ∙ rw (str_eq_refl (uuid n)) refl))
          (λ k t' e. subst (λ j. Placed j t') (omega arith) (there k t' e)),
    )

abbrev added : (ℕ → String) → PublishMessage → ℕ → Publication
added uuid m i = record {
  id = uuid i;
  is_closed = false;
  tracks = new_tracks uuid (suc i) (uuid i) m.tracks [];
}

lookup_other :
    (uuid : ℕ → String) (m : PublishMessage) (s : Session) (i : ℕ) (other : String)
    → other ≢ uuid i
    → lookup other (insert (uuid i) (added uuid m i) s.publications) ≡ lookup other s.publications
lookup_other uuid m s i other h =
    lookup-insert other (uuid i) (added uuid m i) s.publications
    ∙ rw (apart (uuid i) other (λ e. h (sym e))) refl

-- For a request to add tracks that is valid, `publish` ends with the id of a publication that is new: the
-- loop that draws the id does not run out of rounds. The publications that were there stay as they
-- were, and the new one has each track of the request under an UUID of its own, which is also the
-- id of that track. The UUIDs that are drawn are all different.
pub publish_add_lem :
    (uuid : ℕ → String) (m : PublishMessage) (s : Session)
    → AreFresh uuid
    → validate_publish m ≡ none
    → m.op ≡ 0
    → (i : ℕ) × (s' : Session) × (p : Publication) × (publish uuid m s ≡ ok (s', done (uuid i)))
      × (lookup (uuid i) s.publications ≡ none)
      × (lookup (uuid i) s'.publications ≡ some p)
      × ((other : String)
          → other ≢ uuid i
          → lookup other s'.publications ≡ lookup other s.publications)
      × ((k : ℕ) (t : TrackToPublish)
          → get_elem? m.tracks k ≡ some t
          → lookup (uuid (suc i + k)) p.tracks ≡ some (new_track (uuid i) (uuid (suc i + k)) t))
unfolding publish
publish_add_lem uuid m s fresh valid add =
    let (i, is_new, q) =
      fresh_id-new uuid (suc (length s.publications)) s.drawn s.publications s.publications fresh
        (omega arith) (λ i h. refl) in
    (
      i,
      (added_publication uuid m s (uuid i, suc i)).0,
      added uuid m i,
      ap (published uuid m s) valid ∙ rw add (rw q refl),
      is_new,
      lookup-insert (uuid i) (uuid i) (added uuid m i) s.publications
          ∙ rw (str_eq_refl (uuid i)) refl,
      λ other h. lookup_other uuid m s i other h,
      (new_tracks-lookup uuid (uuid i) m.tracks (suc i) [] fresh).1,
    )

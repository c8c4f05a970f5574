-- ===== src/Subscription/Updates.antt =====
-- The tracks that a subscription holds after a new pattern.
use mathlib.Core.List.Memᴰ
use conference_go.Common.{
  String, List, [], ◌∷◌, map, none, some, ◌≡◌, refl, ◌∙◌, ◌↔◌, inl, inr, Memᴰ, subst, sym, ap, ok,
  some_inj,
}
use conference_go.Maps.{lookup, lookup_mem, mem-lookup, AreDistinct}
use conference_go.Proto.{PublicationPattern, Track}
use conference_go.Publication.{validate}
use conference_go.Publication.Tracks.{Groups}
use conference_go.Publication.Tracks.Sharing.{IsIteration}
use conference_go.Publication.Tracks.Offered.{IsOffered, match_tracks_iff, IsOffered-decided}
use conference_go.Router.{Router}
use conference_go.Subscription.{
  Subscription, SubscribedTrack, Tracked, update_pattern, remove_unmatched,
}
use conference_go.Subscription.Held.{IsServed, IsHeld, remove_unmatched-lookup, removed_iff}

-- The tracks of the entries.
abbrev pub tracks_held : Tracked → List Track
tracks_held held = map (λ (e : String × SubscribedTrack). e.1.pub_track) held

tracks_held-mem :
    (key : String) (st : SubscribedTrack) (held : Tracked)
    → Memᴰ (key, st) held
    → Memᴰ st.pub_track (tracks_held held)
tracks_held-mem key st [] m = absurd (Memᴰ.not-nil m)
tracks_held-mem key st (e ∷ held) m = elim (Memᴰ.cases_cons m) [
  | inl q ↦ Memᴰ.head (ap (λ (e : String × SubscribedTrack). e.1.pub_track) q)
  | inr m' ↦ Memᴰ.tail (tracks_held-mem key st held m')
]

held_of_track :
    (t : Track) (held : Tracked)
    → Memᴰ t (tracks_held held)
    → (key : String) × (st : SubscribedTrack) × Memᴰ (key, st) held × (t ≡ st.pub_track)
held_of_track t [] m = absurd (Memᴰ.not-nil m)
held_of_track t ((key, st) ∷ held) m = elim (Memᴰ.cases_cons m) [
  | inl q ↦ (key, st, Memᴰ.head refl, q)
  | inr m' ↦ let (k, x, y, e) = held_of_track t held m' in (k, x, Memᴰ.tail y, e)
]

-- `UpdatePattern` with a valid pattern ends. The subscription, whose entries are served, keeps a track
-- exactly if the new pattern and the new kinds want it among the tracks held; it has the new pattern,
-- and stays at its publication.
pub update_pattern_lem :
    (iteration : Groups → Groups) (p : PublicationPattern) (req_types : List String)
    (s : Subscription) (r : Router)
    → IsIteration iteration
    → validate p ≡ none
    → AreDistinct s.accepted_track
    → IsServed s.id s.accepted_track r
    → (s' : Subscription) × (update_pattern iteration p req_types s ≡ ok s')
      × IsServed s.id s'.accepted_track r
      × (s'.sub_pattern ≡ p)
      × (s'.accepted_pub_id ≡ s.accepted_pub_id)
      × ((j : String)
          → IsHeld j s'.accepted_track ↔ (
              (st : SubscribedTrack) × (lookup j s.accepted_track ≡ some st)
              × IsOffered p (tracks_held s.accepted_track) req_types st.pub_track))
unfolding update_pattern
update_pattern_lem iteration p req_types s r iter v d h =
    let ((matched, unmatched), e, mi, ui) =
      match_tracks_iff iteration p (tracks_held s.accepted_track) req_types iter v in
    let (h', lk) = remove_unmatched-lookup s.id r unmatched s.accepted_track h in
    (
      record s {
        accepted_track = remove_unmatched unmatched s.accepted_track;
        req_types = req_types;
        sub_pattern = p;
      },
      rw e refl,
      h',
      refl,
      refl,
      λ j.
          let (to, from) = removed_iff j unmatched s.accepted_track _ (lk j) in
          (
            λ x.
                let ((st, q), n) = to x in
                let m = tracks_held_iff j st q in
                elim (IsOffered-decided iteration p (tracks_held s.accepted_track) req_types
                  st.pub_track iter v m) [
                    | inl o ↦ (st, q, o)
                    | inr u ↦ absurd (n (st.pub_track, (ui st.pub_track).1 (m, u), (h j st q).0))
                  ],
            λ (st, q, o). from (
              (st, q),
              λ (t, m, g).
                  let (m', n) = (ui t).0 m in
                  n (
                    subst (IsOffered p (tracks_held s.accepted_track) req_types)
                      (sym (only j st q t m' g)) o),
            ),
          ),
    )
  where
    tracks_held_iff :
        (j : String) (st : SubscribedTrack)
        → lookup j s.accepted_track ≡ some st
        → Memᴰ st.pub_track (tracks_held s.accepted_track)
    tracks_held_iff j st q =
        tracks_held-mem j st s.accepted_track (lookup_mem j st s.accepted_track q)

    only :
        (j : String) (st : SubscribedTrack)
        → lookup j s.accepted_track ≡ some st
        → (t : Track) → Memᴰ t (tracks_held s.accepted_track)
        → t.global_id ≡ j
        → t ≡ st.pub_track
    only j st q t m g =
        let (key, st', m', e) = held_of_track t s.accepted_track m in
        let q' = mem-lookup key st' s.accepted_track d m' in
        let is : key ≡ j = sym (h key st' q').0 ∙ ap (λ (x : Track). x.global_id) (sym e) ∙ g in
        e
        ∙ ap (λ (x : SubscribedTrack). x.pub_track)
            (some_inj (sym q' ∙ ap (λ i. lookup i s.accepted_track) is ∙ q))

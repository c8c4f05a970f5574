-- ===== src/Subscription/Accepting.antt =====
-- Which tracks a subscription holds after the state of a publication.
use mathlib.Core.List.Memᴰ
use conference_go.Common.{
  ◌≢◌, ℕ, String, Bool, true, false, not, ◌&&◌, List, [], ◌∷◌, map, none, some, str_eq, str_eq_iff,
  ◌≡◌, refl, ◌∙◌, ◌↔◌, ◌⊎◌, inl, inr, arith, Bool-cases, Memᴰ, subst, sym, ap, ok, Result,
  if◌then◌else◌, Every, Exists,
}
use conference_go.Maps.{lookup}
use conference_go.Proto.{Track, StateMessage}
use conference_go.Publication.{validate}
use conference_go.Publication.Tracks.{Groups, match_tracks}
use conference_go.Publication.Tracks.Sharing.{IsIteration}
use conference_go.Publication.Tracks.Offered.{IsOffered, match_tracks_iff}
use conference_go.Router.{Router}
use conference_go.Subscription.{
  Subscription, Peer, Tracked, SentMessages, accept_matched, pub_id_left, remove_unmatched,
  accept_state, forget_unmatched,
}
use conference_go.Subscription.Held.{
  IsServed, IsHeld, IsNamed, remove_unmatched-lookup, removed_iff,
}
use conference_go.Subscription.Taking.{CanTake}
use conference_go.Subscription.Changes.{
  pub_id_after, IsAnnounced, accept_matched-IsMatched, accept_state-matched,
}

module _ (peer : Peer) (sdp_id : ℕ) (msg : StateMessage) (s : Subscription) (r : Router) where
  -- The tracks of the message that the subscription wants.
  abbrev pub Wants : Track → Type 0
  Wants = IsOffered s.sub_pattern msg.tracks s.req_types

  -- The accepted publication has the track, and it is not wanted.
  abbrev pub Loses : String → Type 0
  Loses j =
      (s.accepted_pub_id ≡ msg.pub_id)
      × Exists (λ (t : Track). (t.global_id ≡ j) × ¬ Wants t) msg.tracks

  abbrev pub Announces : SentMessages → Type 0
  Announces none = (x : Track) → Wants x → lookup x.global_id s.accepted_track ≢ none
  Announces (some (sel, sub)) =
      (sel.pub_id ≡ msg.pub_id)
      × (sub.pub_id ≡ msg.pub_id)
      × ((x : Track) → Memᴰ x sel.tracks ↔ Wants x)
      × (map (λ (t : Track). t.global_id) sub.tracks ≡ map (λ (t : Track). t.global_id) sel.tracks)

  -- The subscription, the router and the messages after the state of a publication.
  abbrev pub IsAcceptance : Subscription × Router × SentMessages → Type 0
  IsAcceptance (s', r', sent) =
      IsServed s.id s'.accepted_track r'
      × ((j : String)
          → IsHeld j s'.accepted_track ↔ (
              Exists (λ (t : Track). (t.global_id ≡ j) × Wants t) msg.tracks
              ⊎ (IsHeld j s.accepted_track × ¬ Loses j)))
      × ((t : Track) → Wants t → s'.accepted_pub_id ≡ msg.pub_id)
      × (((t : Track) → ¬ Wants t) → s'.accepted_pub_id ≡ "")
      × Announces sent

  module _ (matched : List Track) (mi : (x : Track) → Memᴰ x matched ↔ Wants x) where
    pub_id_after-Wants :
        (ts : List Track) (q : String)
        → ((x : Track) → Memᴰ x ts ↔ Wants x)
        → pub_id_after ts q msg.pub_id ≡ pub_id_after ts "" msg.pub_id
        → ((t : Track) → Wants t → pub_id_after ts q msg.pub_id ≡ msg.pub_id)
          × (((t : Track) → ¬ Wants t) → pub_id_after ts q msg.pub_id ≡ "")
    pub_id_after-Wants [] q h e = (λ t w. absurd (Memᴰ.not-nil ((h t).1 w)), λ _. e)
    pub_id_after-Wants (t ∷ ts) q h e = (λ _ _. refl, λ n. absurd (n t ((h t).0 (Memᴰ.head refl))))

    announces :
        (held : Tracked) (sent : SentMessages)
        → ((j : String) → lookup j s.accepted_track ≡ none → lookup j held ≡ none)
        → IsAnnounced peer sdp_id msg matched sent
        → (Exists (λ (t : Track). lookup t.global_id held ≡ none) matched → sent ≢ none)
        → Announces sent
    announces held none fewer a n = λ x w e. n (x, (mi x).1 w, fewer x.global_id e) refl
    announces held (some (sel, sub)) fewer (p, q, ts, ids) n = (
      p,
      q,
      λ x. subst (λ l. Memᴰ x l ↔ Wants x) (sym ts) (mi x),
      ids ∙ ap (map (λ (t : Track). t.global_id)) (sym ts),
    )

    -- The matched tracks, accepted on top of what the subscription keeps.
    finish :
        (q : String) (held : Tracked)
        → IsServed s.id held r
        → ((j : String) → IsHeld j held ↔ (IsHeld j s.accepted_track × ¬ Loses j))
        → ((j : String) → lookup j s.accepted_track ≡ none → lookup j held ≡ none)
        → pub_id_after matched q msg.pub_id ≡ pub_id_after matched "" msg.pub_id
        → peer.is_made ≡ true
        → Every (CanTake peer r) msg.tracks
        → (out : Subscription × Router × SentMessages) × (accept_matched peer sdp_id msg matched
              (record s { accepted_pub_id = q; accepted_track = held })
              r
            ≡ ok out)
          × IsAcceptance out
    finish q held h keeps fewer pid made can =
        let ((s', r', sent), e, (served, iff, pub_id, told, sends)) =
          accept_matched-IsMatched peer sdp_id msg matched
            (record s { accepted_pub_id = q; accepted_track = held }) r h made
            (λ x m. can x ((mi x).0 m).0) in
        let (wanted, unwanted) = pub_id_after-Wants matched q mi pid in
        (
          (s', r', sent),
          e,
          (
            served,
            λ j. held_after j (IsHeld j s'.accepted_track) (IsHeld j held) (iff j) (keeps j),
            λ t w. pub_id ∙ wanted t w,
            λ n. pub_id ∙ unwanted n,
            announces held sent fewer told sends,
          ),
        )
      where
        held_after :
            (j : String) (X Y : Type 0)
            → X ↔ (Y ⊎ IsNamed j matched)
            → Y ↔ (IsHeld j s.accepted_track × ¬ Loses j)
            → X ↔ (
                Exists (λ (t : Track). (t.global_id ≡ j) × Wants t) msg.tracks
                ⊎ (IsHeld j s.accepted_track × ¬ Loses j))
        held_after j X Y (f, g) (f', g') = (
          λ x. elim (f x) [
            | inl y ↦ inr (f' y)
            | inr (t, m, e) ↦ let w = (mi t).0 m in inl (t, w.0, (e, w))
          ],
          elim [ inl (t, m, (e, w)) ↦ g (inr (t, (mi t).1 w, e)) | inr z ↦ g (inl (g' z)) ],
        )

-- A state of a publication that the subscription has or may take: if the pattern is valid, each track has
-- an accepter that is open or none, where one can be made (its local id, publication id and stream id
-- are UUIDs), and the connection takes the tracks, then `AcceptTrack` ends. The
-- subscription then holds the wanted tracks and those of before that it does not lose; it is at the
-- publication exactly if that has a wanted track. The tracks it sends to the nodes are the wanted ones,
-- the client gets a copy of each, and nothing is sent only if all of them were held before. Every
-- track held has an open accepter that has the subscription, if this was so before.
pub accept_state_lem :
    (iteration : Groups → Groups) (peer : Peer) (sdp_id : ℕ) (msg : StateMessage) (s : Subscription)
    (r : Router)
    → IsIteration iteration
    → validate s.sub_pattern ≡ none
    → s.is_closed ≡ false
    → (s.accepted_pub_id ≡ "") ⊎ (s.accepted_pub_id ≡ msg.pub_id)
    → peer.is_made ≡ true
    → Every (CanTake peer r) msg.tracks
    → IsServed s.id s.accepted_track r
    → (out : Subscription × Router × SentMessages) × (accept_state iteration peer sdp_id msg s r
        ≡ ok out)
      × IsAcceptance peer sdp_id msg s r out
accept_state_lem iteration peer sdp_id msg s r iter v open_ at made can h =
    let ((matched, unmatched), e, mi, ui) =
      match_tracks_iff iteration s.sub_pattern msg.tracks s.req_types iter v in
    elim (Bool-cases (str_eq s.accepted_pub_id msg.pub_id)) [
      | inl k ↦
          let (h', lk) = remove_unmatched-lookup s.id r unmatched s.accepted_track h in
          let (out, q, a) =
            finish peer sdp_id msg s r matched mi (pub_id_left matched s.accepted_pub_id)
              (remove_unmatched unmatched s.accepted_track) h'
              (λ j. lost_iff j unmatched ui k (removed_iff j unmatched s.accepted_track _ (lk j)))
              (λ j n. lk j ∙ ground (arith, n)) (pub_id_after-left matched) made can in
          (out, goes_on e ∙ ap (λ b. go b matched unmatched) k ∙ q, a)
      | inr k ↦
          let (out, q, a) =
            finish peer sdp_id msg s r matched mi s.accepted_pub_id s.accepted_track h
              (λ j. (λ x. (x, λ (same, _). absurd (differ same k)), λ (x, _). x)) (λ j x. x)
              (ap (λ i. pub_id_after matched i msg.pub_id) (unset at k)) made can in
          (out, goes_on e ∙ ap (λ b. go b matched unmatched) k ∙ q, a)
    ]
  where
    gate : not (str_eq s.accepted_pub_id "") && not (str_eq s.accepted_pub_id msg.pub_id) ≡ false
    gate =
        ground (arith, at, str_eq_iff s.accepted_pub_id "", str_eq_iff s.accepted_pub_id msg.pub_id)

    go : Bool → List Track → List Track → Result (Subscription × Router × SentMessages)
    go b m u = accept_matched peer sdp_id msg m (if b then forget_unmatched m u s else s) r

    goes_on :
        {m u : List Track}
        → match_tracks iteration s.sub_pattern msg.tracks s.req_types ≡ ok (m, u)
        → accept_state iteration peer sdp_id msg s r ≡ go (str_eq s.accepted_pub_id msg.pub_id) m u
    goes_on {m} {u} e = accept_state-matched iteration peer sdp_id msg s r m u open_ gate e

    differ : s.accepted_pub_id ≡ msg.pub_id → str_eq s.accepted_pub_id msg.pub_id ≡ false → ⊥
    differ e k = ground (arith, e, k, str_eq_iff s.accepted_pub_id msg.pub_id)

    unset :
        (s.accepted_pub_id ≡ "") ⊎ (s.accepted_pub_id ≡ msg.pub_id)
        → str_eq s.accepted_pub_id msg.pub_id ≡ false
        → s.accepted_pub_id ≡ ""
    unset (inl e) k = e
    unset (inr e) k = absurd (differ e k)

    pub_id_after-left :
        (ts : List Track)
        → pub_id_after ts (pub_id_left ts s.accepted_pub_id) msg.pub_id
          ≡ pub_id_after ts "" msg.pub_id
    pub_id_after-left [] = refl
    pub_id_after-left (t ∷ ts) = refl

    lost_iff :
        (j : String) (ts : List Track) {X : Type 0}
        → ((x : Track) → Memᴰ x ts ↔ (Memᴰ x msg.tracks × ¬ Wants peer sdp_id msg s r x))
        → str_eq s.accepted_pub_id msg.pub_id ≡ true
        → X ↔ (IsHeld j s.accepted_track × ¬ IsNamed j ts)
        → X ↔ (IsHeld j s.accepted_track × ¬ Loses peer sdp_id msg s r j)
    lost_iff j ts ui k (f, g) = (
      λ x. let (y, n) = f x in (y, λ (_, (t, m, (e, w))). n (t, (ui t).1 (m, w), e)),
      λ (y, n). g (
        y,
        λ (t, m, e).
            let (m', w) = (ui t).0 m in
            n ((str_eq_iff s.accepted_pub_id msg.pub_id).0 k, (t, m', (e, w))),
      ),
    )

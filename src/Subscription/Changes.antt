-- ===== src/Subscription/Changes.antt =====
-- What `Subscription.AcceptTrack` makes of the matched tracks.
use mathlib.Core.List.Memᴰ
use conference_go.Common.{
  ◌≢◌, ℕ, String, Bool, true, false, not, ◌&&◌, List, [], ◌∷◌, map, none, some, str_eq, ◌≡◌, refl,
  ◌∙◌, ◌↔◌, ◌⊎◌, inl, inr, ap, Result, ok, if◌then◌else◌, Every, Exists, ◌>>=◌,
}
use conference_go.Maps.{lookup}
use conference_go.Proto.{Track, StateMessage}
use conference_go.Publication.Tracks.{Groups, match_tracks}
use conference_go.Router.{Router}
use conference_go.Subscription.{
  Subscription, Peer, SentMessages, sent_for, accept_matched, forget_unmatched, accept_state,
}
use conference_go.Subscription.Held.{IsServed, IsHeld, IsNamed}
use conference_go.Subscription.Taking.{CanTake, take_over-IsTaken}

-- The publication that the subscription is at, by the matched tracks.
abbrev pub pub_id_after : List Track → String → String → String
pub_id_after [] old new = old
pub_id_after (t ∷ ts) old new = new

module _ (peer : Peer) (sdp_id : ℕ) (msg : StateMessage) where
  -- What is sent names the publication and the matched tracks, and the client learns of the same tracks.
  abbrev pub IsAnnounced : List Track → SentMessages → Type 0
  IsAnnounced matched none = Unit
  IsAnnounced matched (some (sel, sub)) =
      (sel.pub_id ≡ msg.pub_id)
      × (sub.pub_id ≡ msg.pub_id)
      × (sel.tracks ≡ matched)
      × (map (λ (t : Track). t.global_id) sub.tracks ≡ map (λ (t : Track). t.global_id) matched)

  abbrev pub IsMatched : List Track → Subscription → Subscription × Router × SentMessages → Type 0
  IsMatched matched s (s', r', sent) =
      IsServed s.id s'.accepted_track r'
      × ((j : String)
          → IsHeld j s'.accepted_track ↔ (IsHeld j s.accepted_track ⊎ IsNamed j matched))
      × (s'.accepted_pub_id ≡ pub_id_after matched s.accepted_pub_id msg.pub_id)
      × IsAnnounced matched sent
      × (Exists (λ (t : Track). lookup t.global_id s.accepted_track ≡ none) matched → sent ≢ none)

  sent_for-IsAnnounced :
      (b : Bool) (s : Subscription) (r : Router) (matched tracks : List Track)
      → map (λ (t : Track). t.global_id) tracks ≡ map (λ (t : Track). t.global_id) matched
      → IsAnnounced matched (sent_for s r msg sdp_id matched tracks b)
        × (b ≡ true → sent_for s r msg sdp_id matched tracks b ≢ none)
  sent_for-IsAnnounced true s r matched tracks e = ((refl, refl, refl, e), λ _ q. cc)
  sent_for-IsAnnounced false s r matched tracks e = (tt, λ q. cc)

  pub accept_matched-IsMatched :
      (matched : List Track) (s : Subscription) (r : Router)
      → IsServed s.id s.accepted_track r
      → peer.is_made ≡ true
      → Every (CanTake peer r) matched
      → (out : Subscription × Router × SentMessages) × (accept_matched peer sdp_id msg matched s r
          ≡ ok out)
        × IsMatched matched s out
  accept_matched-IsMatched [] s r h made can = (
    (s, r, none),
    refl,
    (
      h,
      λ j. (inl, elim [ inl x ↦ x | inr (x, m, _) ↦ absurd (Memᴰ.not-nil m) ]),
      refl,
      tt,
      λ (x, m, _). absurd (Memᴰ.not-nil m),
    ),
  )
  accept_matched-IsMatched (t ∷ ts) s r h made can =
      let ((held, r', tracks, neg), e, (h', iff, ids, need)) =
        take_over-IsTaken peer s.id (t ∷ ts) s.accepted_track r h can in
      let (told, is_some) = sent_for-IsAnnounced neg s r' (t ∷ ts) tracks ids in
      (
        (
          record s { accepted_pub_id = msg.pub_id; accepted_track = held },
          r',
          sent_for s r' msg sdp_id (t ∷ ts) tracks neg,
        ),
        simp (made, e),
        (h', iff, refl, told, λ x. is_some (need.1 x)),
      )

-- A subscription that is open and not at another publication goes on to the matched tracks.
pub accept_state-matched :
    (iteration : Groups → Groups) (peer : Peer) (sdp_id : ℕ) (msg : StateMessage) (s : Subscription)
    (r : Router) (matched unmatched : List Track)
    → s.is_closed ≡ false
    → not (str_eq s.accepted_pub_id "") && not (str_eq s.accepted_pub_id msg.pub_id) ≡ false
    → match_tracks iteration s.sub_pattern msg.tracks s.req_types ≡ ok (matched, unmatched)
    → accept_state iteration peer sdp_id msg s r
      ≡ accept_matched peer sdp_id msg matched
          (if str_eq s.accepted_pub_id msg.pub_id then forget_unmatched matched unmatched s else s)
          r
unfolding accept_state
accept_state-matched iteration peer sdp_id msg s r matched unmatched open_ gate e =
    ap (λ b. if b then ok (s, r, none) else otherwise) open_
    ∙ ap (λ b. if b then ok (s, r, none) else go_on matches) gate
    ∙ ap go_on e
  where
    matches : Result (List Track × List Track)
    matches = match_tracks iteration s.sub_pattern msg.tracks s.req_types

    go_on : Result (List Track × List Track) → Result (Subscription × Router × SentMessages)
    go_on m = m >>= λ (ts, us).
        accept_matched peer sdp_id msg ts
          (if str_eq s.accepted_pub_id msg.pub_id then forget_unmatched ts us s else s) r

    otherwise : Result (Subscription × Router × SentMessages)
    otherwise =
        if not (str_eq s.accepted_pub_id "") && not (str_eq s.accepted_pub_id msg.pub_id)
        then ok (s, r, none)
        else go_on matches

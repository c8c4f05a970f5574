-- ===== src/Subscription/Returns.antt =====
-- A call of `Subscription.AcceptTrack` or `UpdatePattern` that returns leaves entries that are served.
use conference_go.Common.{
  map, ℕ, String, Bool, not, ◌&&◌, List, [], ◌∷◌, none, str_eq, ◌≡◌, refl, ◌∙◌, inl, inr,
  Bool-cases, Option-cases, subst, sym, ap, Result, ok, panic, Fault, invalid, if◌then◌else◌, ◌>>=◌,
  ok_inj,
}
use conference_go.Maps.{lookup}
use conference_go.Proto.{PublicationPattern, Track, StateMessage}
use conference_go.Publication.Tracks.{Groups, match_tracks}
use conference_go.Router.{Router, accept_track}
use conference_go.Router.Lifetime.{accept_track-after_round}
use conference_go.Subscription.{
  Subscription, SubscribedTrack, Peer, Tracked, Taken, SentMessages, accept_state, update_pattern,
  bind_accepter, with_taken, take_over, more_tracks, taken_over, sent_for, accept_matched,
  forget_unmatched, remove_unmatched,
}
use conference_go.Subscription.Held.{
  IsBoundAt, AreSame, IsServed, remove_unmatched-lookup, take_new,
}
use conference_go.Subscription.Taking.{insert-IsServed}
use conference_go.Subscription.Served.{Serves, bind_ok}

pub panic-ok : {A : Type 0} {x : Fault} {a : A} → panic x ≡ ok a → ⊥
panic-ok e = cc

module _ (peer : Peer) (sub_id : String) where
  new-IsServed :
      (t : Track) (held : Tracked) (r : Router) (out : Taken)
      → IsServed sub_id held r
      → lookup t.global_id held ≡ none
      → taken_over peer sub_id t held r none ≡ ok out
      → IsServed sub_id out.0 out.1
  new-IsServed t held r out h n e =
      let ((r', is_taken), e1, e2) =
        bind_ok (accept_track 1 peer.maker t r) (with_taken peer sub_id t held) out e in
      elim (Bool-cases is_taken) [
        | inr k ↦ absurd (panic-ok (rw k at e2))
        | inl k ↦ elim (Bool-cases (peer.takes_track t.global_id)) [
          | inr p ↦ absurd (panic-ok (rw (k, p) at e2))
          | inl p ↦
              let (open_, is_entered) =
                accept_track-after_round peer.maker t r (r', is_taken) e1 k in
              let (b, same) =
                subst
                  (λ x.
                    IsBoundAt sub_id t.global_id (bind_accepter sub_id t.global_id x)
                    × AreSame t.global_id (bind_accepter sub_id t.global_id x) r)
                  (sym (ap (λ (x : Router × Bool). x.0) is_entered))
                  (take_new sub_id t.global_id r open_) in
              subst (λ (x : Taken). IsServed sub_id x.0 x.1) (ok_inj (rw (k, p) at e2))
                (insert-IsServed peer sub_id t held r (bind_accepter sub_id t.global_id r') h n b
                  same)
        ]
      ]

  taken_over-IsServed :
      (t : Track) (held : Tracked) (r : Router) (out : Taken)
      → IsServed sub_id held r
      → taken_over peer sub_id t held r (lookup t.global_id held) ≡ ok out
      → IsServed sub_id out.0 out.1
  taken_over-IsServed t held r out h e = elim (Option-cases (lookup t.global_id held)) [
    | inl q ↦ new-IsServed t held r out h q (rw q at e)
    | inr (st, q) ↦ subst (λ (x : Taken). IsServed sub_id x.0 x.1) (ok_inj (rw q at e)) h
  ]

  take_over-IsServed :
      (ts : List Track) (held : Tracked) (r : Router) (out : Taken)
      → IsServed sub_id held r
      → take_over peer sub_id ts held r ≡ ok out
      → IsServed sub_id out.0 out.1
  unfolding take_over
  take_over-IsServed [] held r out h e = subst (λ (x : Taken). IsServed sub_id x.0 x.1) (ok_inj e) h
  take_over-IsServed (t ∷ ts) held r out h e =
      let ((held', r', sent, b), e1, e2) =
        bind_ok (taken_over peer sub_id t held r (lookup t.global_id held))
          (λ (x : Taken). take_over peer sub_id ts x.0 x.1 >>= more_tracks x.2 x.3) out e in
      let (rest, e3, e4) =
        bind_ok (take_over peer sub_id ts held' r') (more_tracks sent b) out e2 in
      let h' = taken_over-IsServed t held r (held', r', sent, b) h e1 in
      let h'' = take_over-IsServed ts held' r' rest h' e3 in
      subst (λ (x : Taken). IsServed sub_id x.0 x.1) (ok_inj e4) h''

accept_matched-Serves :
    (peer : Peer) (sdp_id : ℕ) (msg : StateMessage) (matched : List Track) (s : Subscription)
    (r : Router) (out : Subscription × Router × SentMessages)
    → Serves (s, r)
    → accept_matched peer sdp_id msg matched s r ≡ ok out
    → Serves (out.0, out.1) × (out.0.id ≡ s.id)
accept_matched-Serves peer sdp_id msg [] s r out h e =
    subst (λ (x : Subscription × Router × SentMessages). Serves (x.0, x.1) × (x.0.id ≡ s.id))
      (ok_inj e) (h, refl)
accept_matched-Serves peer sdp_id msg (t ∷ ts) s r out h e = elim (Bool-cases peer.is_made) [
  | inl k ↦
      let ((held, r', tracks, neg), e1, e2) =
        bind_ok (take_over peer s.id (t ∷ ts) s.accepted_track r) held_then out
          (ap made (sym k) ∙ e) in
      subst (λ (x : Subscription × Router × SentMessages). Serves (x.0, x.1) × (x.0.id ≡ s.id))
        (ok_inj e2)
        (
          take_over-IsServed peer s.id (t ∷ ts) s.accepted_track r (held, r', tracks, neg) h e1,
          refl,
        )
  | inr k ↦ absurd (panic-ok (ap made (sym k) ∙ e))
]
  where
    held_then : Taken → Result (Subscription × Router × SentMessages)
    held_then (held, r', tracks, need_neg) = ok (
      record s { accepted_pub_id = msg.pub_id; accepted_track = held },
      r',
      sent_for s r' msg sdp_id (t ∷ ts) tracks need_neg,
    )

    made : Bool → Result (Subscription × Router × SentMessages)
    made b =
        if not b
        then panic invalid
        else take_over peer s.id (t ∷ ts) s.accepted_track r >>= held_then

pub accept_state-Serves :
    (iteration : Groups → Groups) (peer : Peer) (sdp_id : ℕ) (msg : StateMessage) (s : Subscription)
    (r : Router) (out : Subscription × Router × SentMessages)
    → Serves (s, r)
    → accept_state iteration peer sdp_id msg s r ≡ ok out
    → Serves (out.0, out.1) × (out.0.id ≡ s.id)
unfolding accept_state
accept_state-Serves iteration peer sdp_id msg s r out h e = elim (Bool-cases s.is_closed) [
  | inl k ↦ unchanged (ap (λ b. if b then ok (s, r, none) else otherwise) (sym k) ∙ e)
  | inr k ↦
      let e1 = ap (λ b. if b then ok (s, r, none) else otherwise) (sym k) ∙ e in
      elim (Bool-cases elsewhere) [
        | inl g ↦
            unchanged (ap (λ b. if b then ok (s, r, none) else matches >>= go_on) (sym g) ∙ e1)
        | inr g ↦
            let e2 = ap (λ b. if b then ok (s, r, none) else matches >>= go_on) (sym g) ∙ e1 in
            let ((ts, us), _, e3) = bind_ok matches go_on out e2 in
            elim (Bool-cases (str_eq s.accepted_pub_id msg.pub_id)) [
              | inl q ↦
                  accept_matched-Serves peer sdp_id msg ts (forget_unmatched ts us s) r out
                    (remove_unmatched-lookup s.id r us s.accepted_track h).0
                    (ap
                        (λ b.
                          accept_matched peer sdp_id msg ts
                            (if b then forget_unmatched ts us s else s) r)
                        (sym q)
                      ∙ e3)
              | inr q ↦ accept_matched-Serves peer sdp_id msg ts s r out h (
                  ap
                    (λ b.
                      accept_matched peer sdp_id msg ts (if b then forget_unmatched ts us s else s)
                        r)
                    (sym q)
                  ∙ e3)
            ]
      ]
]
  where
    elsewhere : Bool
    elsewhere = not (str_eq s.accepted_pub_id "") && not (str_eq s.accepted_pub_id msg.pub_id)

    matches : Result (List Track × List Track)
    matches = match_tracks iteration s.sub_pattern msg.tracks s.req_types

    go_on : List Track × List Track → Result (Subscription × Router × SentMessages)
    go_on (ts, us) =
        accept_matched peer sdp_id msg ts
          (if str_eq s.accepted_pub_id msg.pub_id then forget_unmatched ts us s else s) r

    otherwise : Result (Subscription × Router × SentMessages)
    otherwise = if elsewhere then ok (s, r, none) else matches >>= go_on

    unchanged : ok (s, r, none) ≡ ok out → Serves (out.0, out.1) × (out.0.id ≡ s.id)
    unchanged e =
        subst (λ (x : Subscription × Router × SentMessages). Serves (x.0, x.1) × (x.0.id ≡ s.id))
          (ok_inj e) (h, refl)

pub update_pattern-Serves :
    (iteration : Groups → Groups) (p : PublicationPattern) (req_types : List String)
    (s s' : Subscription) (r : Router)
    → Serves (s, r)
    → update_pattern iteration p req_types s ≡ ok s'
    → Serves (s', r) × (s'.id ≡ s.id)
unfolding update_pattern
update_pattern-Serves iteration p req_types s s' r h e =
    let ((matched, unmatched), e1, e2) =
      bind_ok
        (match_tracks iteration p
          (map (λ (x : String × SubscribedTrack). x.1.pub_track) s.accepted_track) req_types)
        (λ (x : List Track × List Track). ok (record s {
          accepted_track = remove_unmatched x.1 s.accepted_track;
          req_types = req_types;
          sub_pattern = p;
        }))
        s' e in
    subst (λ (x : Subscription). Serves (x, r) × (x.id ≡ s.id)) (ok_inj e2)
      ((remove_unmatched-lookup s.id r unmatched s.accepted_track h).0, refl)

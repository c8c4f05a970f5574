-- ===== src/Subscription/Runs.antt =====
-- What happens to a subscription and the router of its node over time: states of publications, new
-- patterns, the ends of tracks, and what the other subscriptions of the node do.
use conference_go.Common.{
  ◌+◌, ◌%◌, ◌^◌, All, ◌≢◌, ℕ, String, Bool, true, false, List, [], ◌∷◌, str_eq_iff, ◌≡◌, refl, ◌∙◌,
  inl, inr, arith, Bool-cases, Option-cases, subst, sym, ap, Result, ok, panic, fuel, if◌then◌else◌,
  ◌>>=◌, ok_inj,
}
use conference_go.Maps.{lookup}
use conference_go.Proto.{PublicationPattern, Track, StateMessage}
use conference_go.Publication.Tracks.{Groups}
use conference_go.Router.{
  Maker, empty_accepter, Accepter, Router, Outcome, ended, no_accepter, closed_accepter, written,
  end_accepter, accept_track, unbind_router_sub, close, has_sub, without_sub, unbind_sub, bind_sub,
}
use conference_go.Router.Lifetime.{IsClosedAt, after_round, accept_track-after_round}
use conference_go.Subscription.{
  Subscription, Peer, SentMessages, accept_state, update_pattern, bind_accepter, lose_accepter,
}
use conference_go.Subscription.Held.{IsServed, ref-open}
use conference_go.Subscription.Served.{Serves, bind_ok, kept-IsServed, close-Serves, fresh-IsServed}
use conference_go.Subscription.Returns.{panic-ok, accept_state-Serves, update_pattern-Serves}

pub data Move : Type 0 where
  stated : Peer → ℕ → StateMessage → Move
  updated : PublicationPattern → List String → Move
  track_ended : String → Move
  other_bound : Maker → String → Track → Move
  other_unbound : String → String → Move

-- The subscriptions of an accepter that is closed by force lose it.
abbrev pub after_end : String → Subscription → Router × Outcome → Subscription × Router
after_end id s (r, ended subs) = (lose_accepter id subs s, r)
after_end id s (r, no_accepter) = (s, r)
after_end id s (r, closed_accepter) = (s, r)
after_end id s (r, written b) = (s, r)

abbrev pub after_other :
    Subscription → String → Track → Router × Bool → Result (Subscription × Router)
after_other s sub_id t (r, is_taken) =
    if is_taken then ok (s, bind_accepter sub_id t.global_id r) else panic fuel

unfoldable pub move :
    (Groups → Groups) → Move → Subscription × Router → Result (Subscription × Router)
unfolding accept_state update_pattern lookup close lose_accepter accept_track bind_accepter
    unbind_router_sub
move iteration (stated peer sdp_id msg) (s, r) =
    accept_state iteration peer sdp_id msg s r >>= λ (s', r', _). ok (s', r')
move iteration (updated p req_types) (s, r) =
    update_pattern iteration p req_types s >>= λ s'. ok (s', r)
move iteration (track_ended id) (s, r) =
    ok (after_end id s (end_accepter id r (lookup id r.track2accepters)))
move iteration (other_bound mk sub_id t) (s, r) = accept_track 1 mk t r >>= after_other s sub_id t
move iteration (other_unbound sub_id id) (s, r) =
    let (r', subs) = unbind_router_sub sub_id id r in ok (lose_accepter id subs s, r')

unfoldable pub moves :
    (Groups → Groups) → List Move → Subscription × Router → Result (Subscription × Router)
unfolding move
moves iteration [] x = ok x
moves iteration (m ∷ ms) x = move iteration m x >>= moves iteration ms

-- The subscriptions that others close are not this one.
abbrev pub IsForeign : String → Move → Type 0
IsForeign id (stated peer sdp_id msg) = Unit
IsForeign id (updated p req_types) = Unit
IsForeign id (track_ended track_id) = Unit
IsForeign id (other_bound mk sub_id t) = Unit
IsForeign id (other_unbound sub_id track_id) = sub_id ≢ id

has_sub-without_sub :
    (id other : String) (subs : List String)
    → other ≢ id
    → has_sub id (without_sub other subs) ≡ has_sub id subs
unfolding without_sub
has_sub-without_sub id other [] n = refl
has_sub-without_sub id other (s ∷ subs) n =
    ground (arith, n, str_eq_iff s id, str_eq_iff s other, has_sub-without_sub id other subs n)

unbind_sub-same :
    (id other : String) (a : Accepter)
    → other ≢ id
    → ((unbind_sub other a).closed ≡ a.closed)
      × (has_sub id (unbind_sub other a).subs ≡ has_sub id a.subs)
unfolding unbind_sub
unbind_sub-same id other a n = elim (Bool-cases (has_sub other a.subs)) [
  | inl k ↦ rw k (refl, has_sub-without_sub id other a.subs n)
  | inr k ↦ rw k (refl, refl)
]

bind_sub-closed : (other : String) (a : Accepter) → (bind_sub other a).closed ≡ a.closed
unfolding bind_sub
bind_sub-closed other a = elim (Bool-cases (has_sub other a.subs)) [
  | inl k ↦ rw k refl
  | inr k ↦ rw k refl
]

has_sub-bind_sub :
    (id other : String) (a : Accepter)
    → has_sub id a.subs ≡ true
    → has_sub id (bind_sub other a).subs ≡ true
unfolding bind_sub
has_sub-bind_sub id other a h = ground (arith, h)

track_ended-Serves :
    (id : String) (s : Subscription) (r : Router)
    → Serves (s, r)
    → Serves (after_end id s (end_accepter id r (lookup id r.track2accepters)))
      × ((after_end id s (end_accepter id r (lookup id r.track2accepters))).0.id ≡ s.id)
track_ended-Serves id s r h = elim (Option-cases (lookup id r.track2accepters)) [
  | inl e ↦ rw e (h, refl)
  | inr (a, e) ↦ rw e (close-Serves true s r id a a e refl refl h)
]

other_unbound-Serves :
    (sub_id id : String) (s : Subscription) (r : Router)
    → sub_id ≢ s.id
    → Serves (s, r)
    → Serves
        (lose_accepter id (unbind_router_sub sub_id id r).1 s, (unbind_router_sub sub_id id r).0)
      × ((lose_accepter id (unbind_router_sub sub_id id r).1 s).id ≡ s.id)
unfolding unbind_router_sub lose_accepter
other_unbound-Serves sub_id id s r n h = elim (Option-cases (lookup id r.track2accepters)) [
  | inl e ↦ rw e (h, refl)
  | inr (a, e) ↦
      let (o, m) = unbind_sub-same s.id sub_id a n in
      rw e (close-Serves false s r id a (unbind_sub sub_id a) e o m h)
]

bind_accepter-Serves :
    (sub_id id : String) (s : Subscription) (r : Router)
    → Serves (s, r)
    → Serves (s, bind_accepter sub_id id r)
unfolding bind_accepter
bind_accepter-Serves sub_id id s r h = elim (Option-cases (lookup id r.track2accepters)) [
  | inl e ↦ rw e h
  | inr (a, e) ↦ rw e (
      kept-IsServed s r id a e h (bind_sub sub_id a) (λ q. bind_sub-closed sub_id a ∙ q)
        (has_sub-bind_sub s.id sub_id a))
]

after_round-Serves :
    (id : String) (s : Subscription) (r : Router)
    → Serves (s, r)
    → ¬ IsClosedAt id r
    → Serves (s, (after_round id r).0)
after_round-Serves id s r h open_ = elim (Option-cases (lookup id r.track2accepters)) [
  | inl e ↦ rw e (fresh-IsServed s r id empty_accepter e h)
  | inr (a, e) ↦ elim (Bool-cases a.closed) [
    | inl c ↦ absurd (open_ (a, e, c))
    | inr c ↦
        rw (e, ref-open a c)
          (kept-IsServed s r id a e h (record a { ref_count = (a.ref_count + 1) % 2 ^ 64 }) (λ q. q)
            (λ q. q))
  ]
]

other_bound-Serves :
    (mk : Maker) (sub_id : String) (t : Track) (s : Subscription) (r : Router)
    (x : Subscription × Router)
    → Serves (s, r)
    → accept_track 1 mk t r >>= after_other s sub_id t ≡ ok x
    → Serves x × (x.0.id ≡ s.id)
other_bound-Serves mk sub_id t s r x h e =
    let ((r', is_taken), e1, e2) = bind_ok (accept_track 1 mk t r) (after_other s sub_id t) x e in
    elim (Bool-cases is_taken) [
      | inr k ↦ absurd (panic-ok (rw k at e2))
      | inl k ↦
          let (open_, is_entered) = accept_track-after_round mk t r (r', is_taken) e1 k in
          subst (λ (y : Subscription × Router). Serves y × (y.0.id ≡ s.id)) (ok_inj (rw k at e2))
            (
              bind_accepter-Serves sub_id t.global_id s r' (
                  subst (λ y. Serves (s, y)) (sym (ap (λ (y : Router × Bool). y.0) is_entered))
                    (after_round-Serves t.global_id s r h open_)),
              refl,
            )
    ]

abbrev IsNext : Subscription → Subscription × Router → Type 0
IsNext s x = Serves x × (x.0.id ≡ s.id)

move-Serves :
    (iteration : Groups → Groups) (m : Move) (s s' : Subscription) (r r' : Router)
    → IsForeign s.id m
    → Serves (s, r)
    → move iteration m (s, r) ≡ ok (s', r')
    → IsNext s (s', r')
unfolding move
move-Serves iteration (stated peer sdp_id msg) s s' r r' f h e =
    let (out, e1, e2) =
      bind_ok (accept_state iteration peer sdp_id msg s r)
        (λ (x : Subscription × Router × SentMessages). ok (x.0, x.1)) (s', r') e in
    subst (IsNext s) (ok_inj e2) (accept_state-Serves iteration peer sdp_id msg s r out h e1)
move-Serves iteration (updated p req_types) s s' r r' f h e =
    let (out, e1, e2) =
      bind_ok (update_pattern iteration p req_types s) (λ (x : Subscription). ok (x, r)) (s', r')
        e in
    subst (IsNext s) (ok_inj e2) (update_pattern-Serves iteration p req_types s out r h e1)
move-Serves iteration (track_ended id) s s' r r' f h e =
    subst (IsNext s) (ok_inj e) (track_ended-Serves id s r h)
move-Serves iteration (other_bound mk sub_id t) s s' r r' f h e =
    other_bound-Serves mk sub_id t s r (s', r') h e
move-Serves iteration (other_unbound sub_id id) s s' r r' f h e =
    subst (IsNext s) (ok_inj e) (other_unbound-Serves sub_id id s r f h)

moves-Serves :
    (iteration : Groups → Groups) (ms : List Move) (s s' : Subscription) (r r' : Router)
    → All (IsForeign s.id) ms
    → Serves (s, r)
    → moves iteration ms (s, r) ≡ ok (s', r')
    → Serves (s', r')
unfolding moves
moves-Serves iteration [] s s' r r' f h e = subst Serves (ok_inj e) h
moves-Serves iteration (m ∷ ms) s s' r r' (f, fs) h e =
    let ((s1, r1), e1, e2) = bind_ok (move iteration m (s, r)) (moves iteration ms) (s', r') e in
    let (h', same) = move-Serves iteration m s s1 r r1 f h e1 in
    moves-Serves iteration ms s1 s' r1 r' (subst (λ id. All (IsForeign id) ms) (sym same) fs) h' e2

-- Whatever happens to a new subscription and its router, each entry of the subscription is that of its
-- track, whose accepter is open and has the subscription, as long as nobody else unbinds it.
pub moves-IsServed :
    (iteration : Groups → Groups) (ms : List Move) (s s' : Subscription) (r r' : Router)
    → s.accepted_track ≡ []
    → All (IsForeign s.id) ms
    → moves iteration ms (s, r) ≡ ok (s', r')
    → IsServed s'.id s'.accepted_track r'
unfolding lookup
moves-IsServed iteration ms s s' r r' n f e =
    moves-Serves iteration ms s s' r r' f
      (subst (λ held. IsServed s.id held r) (sym n) (λ j st q. cc)) e

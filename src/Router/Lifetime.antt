-- ===== src/Router/Lifetime.antt =====
-- How long an accepter lives, and when `AcceptTrack` ends.
use conference_go.Common.{
  ℕ, zero, suc, ◌+◌, ◌-◌, ◌%◌, ◌^◌, ◌==◌, ◌<◌, String, Bool, true, false, ◌&&◌, List, [], ◌∷◌,
  Option, none, some, ◌≡◌, ◌↔◌, ◌⊎◌, refl, arith, ap, sym, ◌∙◌, subst, inl, inr, Bool-cases,
  Option-cases, if◌then◌else◌, length, some_inj, str_eq_refl, true-ne-false, ok, panic, invalid,
  ok_inj,
}
use conference_go.Maps.{lookup, lookup-insert}
use conference_go.Proto.{Track}
use conference_go.Router.{
  Accepter, Router, Maker, has_uuids, empty_accepter, new_accepter, put_accepter, ref, close,
  accept_once, accept_track,
}

-- A use of an accepter begins, by `Ref`, or ends, by `Close` without force.
pub data Use : Type 0 where
  begin finish : Use

unfoldable pub after_uses : Accepter → List Use → Accepter
unfolding ref close
after_uses a [] = a
after_uses a (begin ∷ us) = after_uses (ref a).0 us
after_uses a (finish ∷ us) = after_uses (close false a).0 us

-- How many uses there are, as long as there is one.
abbrev pub balance : ℕ → List Use → Option ℕ
balance n [] = some n
balance n (begin ∷ us) = balance (suc n) us
balance n (finish ∷ us) = if n == 1 then none else balance (n - 1) us

abbrev IsOpen : ℕ → Accepter → Type 0
IsOpen n a = (a.closed ≡ false) × (a.ref_count ≡ n)

ref-IsOpen : (n : ℕ) (a : Accepter) → n + 1 < 2 ^ 64 → IsOpen n a → IsOpen (suc n) (ref a).0
unfolding ref
ref-IsOpen n a h (o, c) = (ground (arith, o), ground (arith, o, c, h))

close-IsOpen :
    (n : ℕ) (a : Accepter)
    → 1 < n
    → n < 2 ^ 64
    → IsOpen n a
    → IsOpen (n - 1) (close false a).0 × ((close false a).2 ≡ false)
unfolding close
close-IsOpen n a h b (o, c) = rw ground_ne ((o, ground (arith, c, h, b)), refl)
  where
    ground_ne : ((a.ref_count + (2 ^ 64 - 1)) % 2 ^ 64 == 0) ≡ false
    ground_ne = ground (arith, c, h, b)

close-last :
    (a : Accepter) (n : ℕ) → a.ref_count ≡ n → 0 < n → n < 2 ^ 64 → (close false a).2 ≡ (n == 1)
unfolding close
close-last a n c p b = ground (arith, c, p, b)

after_uses-IsOpen :
    (us : List Use) (n m : ℕ) (a : Accepter)
    → 0 < n
    → n + length us < 2 ^ 64
    → IsOpen n a
    → balance n us ≡ some m
    → IsOpen m (after_uses a us) × (0 < m) × (m < 2 ^ 64)
unfolding after_uses
after_uses-IsOpen [] n m a p b h e = (
  subst (λ k. IsOpen k a) (some_inj e) h,
  omega (arith, some_inj e, p),
  omega (arith, some_inj e, b),
)
after_uses-IsOpen (begin ∷ us) n m a p b h e =
    after_uses-IsOpen us (suc n) m (ref a).0 (omega arith) (omega (arith, b))
      (ref-IsOpen n a (omega (arith, b)) h) e
after_uses-IsOpen (finish ∷ us) n m a p b h e = elim (Bool-cases (n == 1)) [
  | inl k ↦ absurd (none-some (rw k at e))
  | inr k ↦
      after_uses-IsOpen us (n - 1) m (close false a).0 (ground (arith, k, p)) (omega (arith, b))
        (close-IsOpen n a (ground (arith, k, p)) (omega (arith, b)) h).0 (rw k at e)
]
  where
    none-some : {k : ℕ} → none ≡ some k → ⊥
    none-some e = cc

-- An accepter that was taken and released fewer than 2^64 - 1 times, and never more often released than
-- taken, is open with one reference for every use; the next release closes it exactly if it is the
-- last use.
pub after_uses_lem :
    (us : List Use) (n : ℕ)
    → 1 + length us < 2 ^ 64
    → balance 1 us ≡ some n
    → ((after_uses empty_accepter us).closed ≡ false)
      × ((after_uses empty_accepter us).ref_count ≡ n)
      × ((close false (after_uses empty_accepter us)).2 ≡ (n == 1))
after_uses_lem us n h e =
    let ((o, c), p, b) = after_uses-IsOpen us 1 n empty_accepter (omega arith) h (refl, refl) e in
    (o, c, close-last (after_uses empty_accepter us) n c p b)

-- The accepter of the track is closed.
abbrev pub IsClosedAt : String → Router → Type 0
IsClosedAt track_id r =
    (a : Accepter) × (lookup track_id r.track2accepters ≡ some a) × (a.closed ≡ true)

-- An accepter can be made for the track: its ids are UUIDs, and it has a local track.
abbrev pub IsMade : Maker → Track → Type 0
IsMade mk t =
    (mk.is_uuid t.local_id ≡ true)
    × (mk.is_uuid t.pub_id ≡ true)
    × (mk.is_uuid t.stream_id ≡ true)
    × (mk.makes_local t ≡ true)

abbrev makes : Maker → Track → Bool
makes mk t = has_uuids mk t && mk.makes_local t

makes_iff : (mk : Maker) (t : Track) → (makes mk t ≡ true) ↔ IsMade mk t
makes_iff mk t = ground arith

abbrev pub CanMake : Maker → Track → Router → Type 0
CanMake mk t r = lookup t.global_id r.track2accepters ≡ none → IsMade mk t

abbrev pub next_accepter : Option Accepter → Accepter × Bool
next_accepter none = (empty_accepter, true)
next_accepter (some a) = ref a

-- A round that can make the accepter.
abbrev pub after_round : String → Router → Router × Bool
after_round track_id r =
    let (a, is_open) = next_accepter (lookup track_id r.track2accepters) in
    (put_accepter track_id r a, is_open)

new_accepter-made :
    (mk : Maker) (t : Track) → makes mk t ≡ true → new_accepter mk t ≡ ok empty_accepter
new_accepter-made mk t h = ground (arith, h)

new_accepter-panic :
    (mk : Maker) (t : Track) → makes mk t ≡ false → new_accepter mk t ≡ panic invalid
new_accepter-panic mk t h = ground (arith, h)

accept_once-after_round :
    (mk : Maker) (t : Track) (r : Router)
    → CanMake mk t r
    → accept_once mk t r ≡ ok (after_round t.global_id r)
unfolding accept_once
accept_once-after_round mk t r h = elim (Option-cases (lookup t.global_id r.track2accepters)) [
  | inl e ↦ rw (e, new_accepter-made mk t ((makes_iff mk t).1 (h e))) refl
  | inr (a, e) ↦ rw e refl
]

accept_once-panic :
    (mk : Maker) (t : Track) (r : Router)
    → lookup t.global_id r.track2accepters ≡ none
    → makes mk t ≡ false
    → accept_once mk t r ≡ panic invalid
unfolding accept_once
accept_once-panic mk t r e h = rw (e, new_accepter-panic mk t h) refl

after_round-open :
    (track_id : String) (r : Router) → ¬ IsClosedAt track_id r → (after_round track_id r).1 ≡ true
unfolding ref
after_round-open track_id r h = elim (Option-cases (lookup track_id r.track2accepters)) [
  | inl e ↦ rw e refl
  | inr (a, e) ↦ elim (Bool-cases a.closed) [
    | inl c ↦ absurd (h (a, e, c))
    | inr c ↦ rw (e, c) refl
  ]
]

ref-closed : (a : Accepter) → a.closed ≡ true → ref a ≡ (a, false)
unfolding ref
ref-closed a c =
    ap (λ b. if b then (a, false) else (record a { ref_count = (a.ref_count + 1) % 2 ^ 64 }, true))
      c

after_round-closed :
    (track_id : String) (r : Router)
    → IsClosedAt track_id r
    → ((after_round track_id r).1 ≡ false) × IsClosedAt track_id (after_round track_id r).0
after_round-closed track_id r (a, e, c) =
    let put : Accepter × Bool → Router × Bool = λ x. (put_accepter track_id r x.0, x.1) in
    let stays : after_round track_id r ≡ put (a, false) =
      ap (λ o. put (next_accepter o)) e ∙ ap put (ref-closed a c) in
    subst (λ (x : Router × Bool). (x.1 ≡ false) × IsClosedAt track_id x.0) (sym stays)
      (
        refl,
        (
          a,
          lookup-insert track_id track_id a r.track2accepters ∙ rw (str_eq_refl track_id) refl,
          c,
        ),
      )

closed-CanMake : (mk : Maker) (t : Track) (r : Router) → IsClosedAt t.global_id r → CanMake mk t r
closed-CanMake mk t r (a, e, c) n = cc

-- A round that ends the loop, one that does not, and one that panics
accept_track-done :
    (k : ℕ) (mk : Maker) (t : Track) (r : Router)
    → CanMake mk t r
    → ¬ IsClosedAt t.global_id r
    → accept_track (suc k) mk t r ≡ ok ((after_round t.global_id r).0, true)
unfolding accept_track
accept_track-done k mk t r m h =
    rw (accept_once-after_round mk t r m, after_round-open t.global_id r h) refl

accept_track-closed :
    (k : ℕ) (mk : Maker) (t : Track) (r : Router)
    → IsClosedAt t.global_id r
    → (r' : Router) × (accept_track k mk t r ≡ ok (r', false))
unfolding accept_track
accept_track-closed zero mk t r h = (r, refl)
accept_track-closed (suc k) mk t r h =
    let (e, h') = after_round-closed t.global_id r h in
    let (r', q) = accept_track-closed k mk t (after_round t.global_id r).0 h' in
    (r', rw (accept_once-after_round mk t r (closed-CanMake mk t r h), e) q)

accept_track-panic :
    (k : ℕ) (mk : Maker) (t : Track) (r : Router)
    → lookup t.global_id r.track2accepters ≡ none
    → makes mk t ≡ false
    → accept_track (suc k) mk t r ≡ panic invalid
unfolding accept_track
accept_track-panic k mk t r e h = rw (accept_once-panic mk t r e h) refl

-- Whether the accepter is closed, is there and open, or can or cannot be made
accept-cases :
    (mk : Maker) (t : Track) (r : Router)
    → IsClosedAt t.global_id r
      ⊎ (((¬ IsClosedAt t.global_id r) × CanMake mk t r)
          ⊎ ((lookup t.global_id r.track2accepters ≡ none) × (makes mk t ≡ false)))
accept-cases mk t r = elim (Option-cases (lookup t.global_id r.track2accepters)) [
  | inl e ↦ elim (Bool-cases (makes mk t)) [
    | inl m ↦ inr (inl (λ (a, q, c). cc, λ n. (makes_iff mk t).0 m))
    | inr m ↦ inr (inr (e, m))
  ]
  | inr (a, e) ↦ elim (Bool-cases a.closed) [
    | inl c ↦ inl (a, e, c)
    | inr c ↦ inr (
        inl (
          λ (b, q, d).
              true-ne-false (subst (λ (x : Accepter). x.closed ≡ true) (some_inj (sym q ∙ e)) d) c,
          λ n. cc,
        ))
  ]
]

-- Only a round that ends the loop, or finds a closed accepter, returns, and then it is the one that
-- can make the accepter.
pub accept_track-after_round :
    (mk : Maker) (t : Track) (r : Router) (x : Router × Bool)
    → accept_track 1 mk t r ≡ ok x
    → x.1 ≡ true
    → (¬ IsClosedAt t.global_id r) × (x ≡ after_round t.global_id r)
accept_track-after_round mk t r x e h = elim (accept-cases mk t r) [
  | inl c ↦
      let (r', q) = accept_track-closed 1 mk t r c in
      absurd (true-ne-false h (ap (λ (y : Router × Bool). y.1) (ok_inj (sym e ∙ q))))
  | inr (inl (n, m)) ↦ (
    n,
    ok_inj (sym e ∙ accept_track-done 0 mk t r m n)
        ∙ ap (λ b. ((after_round t.global_id r).0, b)) (sym (after_round-open t.global_id r n)),
  )
  | inr (inr (n, m)) ↦ absurd (panic-ok (sym (accept_track-panic 0 mk t r n m) ∙ e))
]
  where
    panic-ok : {y : Router × Bool} → panic invalid ≡ ok y → ⊥
    panic-ok q = cc

pub accept_track-ok :
    (mk : Maker) (t : Track) (r : Router)
    → CanMake mk t r
    → ¬ IsClosedAt t.global_id r
    → accept_track 1 mk t r ≡ ok ((after_round t.global_id r).0, true)
accept_track-ok mk t r m h = accept_track-done 0 mk t r m h

-- `AcceptTrack` ends, then in its first round, exactly if the accepter of the track is not closed and, if
-- there is none, one can be made; it panics exactly if there is none and none can be made. While a
-- closed one is there, no number of rounds ends it. An accepter can be made if the local id, the id of
-- the publication and the id of the stream are UUIDs, and WebRTC makes the local track.
pub accept_track_iff :
    (k : ℕ) (mk : Maker) (t : Track) (r : Router)
    → (((r' : Router) × (accept_track (suc k) mk t r ≡ ok (r', true)))
        ↔ ((¬ IsClosedAt t.global_id r) × CanMake mk t r))
      × ((accept_track (suc k) mk t r ≡ panic invalid)
          ↔ ((lookup t.global_id r.track2accepters ≡ none) × ¬ IsMade mk t))
      × (IsClosedAt t.global_id r → (r' : Router) × (accept_track k mk t r ≡ ok (r', false)))
accept_track_iff k mk t r = elim (accept-cases mk t r) [
  | inl (a, e, c) ↦
      let (r', q) = accept_track-closed (suc k) mk t r (a, e, c) in
      (
        (
          λ (r'', q').
              absurd (true-ne-false refl (ap (λ (y : Router × Bool). y.1) (ok_inj (sym q' ∙ q)))),
          λ (n, _). absurd (n (a, e, c)),
        ),
        (λ q'. cc, λ (n, _). cc),
        accept_track-closed k mk t r,
      )
  | inr (inl (n, m)) ↦
      let q = accept_track-done k mk t r m n in
      (
        (λ _. (n, m), λ _. ((after_round t.global_id r).0, q)),
        (λ q'. cc, λ (l, b). absurd (b (m l))),
        accept_track-closed k mk t r,
      )
  | inr (inr (l, b)) ↦
      let q = accept_track-panic k mk t r l b in
      (
        (λ (r'', q'). cc, λ (_, m). absurd (true-ne-false ((makes_iff mk t).1 (m l)) b)),
        (λ _. (l, λ w. true-ne-false ((makes_iff mk t).1 w) b), λ _. q),
        accept_track-closed k mk t r,
      )
]

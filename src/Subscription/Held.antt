-- ===== src/Subscription/Held.antt =====
-- The entries of a subscription before and after a loop over tracks.
use conference_go.Common.{
  ◌+◌, ◌%◌, ◌^◌, String, Bool, true, false, List, [], ◌∷◌, none, some, str_eq, str_eq_iff,
  str_eq_refl, any, any_iff, true-ne-false, ◌≡◌, refl, ◌∙◌, ◌↔◌, inl, inr, arith, Bool-cases,
  Option-cases, sym, ap, if◌then◌else◌, Exists,
}
use conference_go.Maps.{lookup, insert, lookup-insert, lookup-erase}
use conference_go.Proto.{Track}
use conference_go.Router.{Accepter, Router, empty_accepter, has_sub, bind_sub, ref}
use conference_go.Router.Lifetime.{IsClosedAt, after_round}
use conference_go.Subscription.{
  SubscribedTrack, Tracked, remove_unmatched, remove_found, bind_accepter,
}

-- The accepter of the track is open and has the subscription.
abbrev pub IsBoundAt : String → String → Router → Type 0
IsBoundAt sub_id id r =
    (a : Accepter) × (lookup id r.track2accepters ≡ some a)
    × (a.closed ≡ false)
    × (has_sub sub_id a.subs ≡ true)

-- Every entry is that of its track, whose accepter is open and has the subscription.
abbrev pub IsServed : String → Tracked → Router → Type 0
IsServed sub_id held r =
    (id : String) (st : SubscribedTrack)
    → lookup id held ≡ some st
    → (st.pub_track.global_id ≡ id) × (st.accepter ≡ id) × IsBoundAt sub_id id r

abbrev pub IsHeld : String → Tracked → Type 0
IsHeld id held = (st : SubscribedTrack) × (lookup id held ≡ some st)

abbrev pub IsNamed : String → List Track → Type 0
IsNamed id = Exists (λ (t : Track). t.global_id ≡ id)

abbrev pub has_id : String → Track → Bool
has_id id t = str_eq t.global_id id

pub remove_found-lookup :
    (sub_id : String) (r : Router) (j id : String) (held : Tracked)
    → IsServed sub_id held r
    → lookup j (remove_found held (lookup id held)) ≡ (if str_eq id j then none else lookup j held)
remove_found-lookup sub_id r j id held h = elim (Option-cases (lookup id held)) [
  | inl e ↦ rw e (elim (Bool-cases (str_eq id j)) [
    | inl k ↦ rw (k, sym ((str_eq_iff id j).0 k)) e
    | inr k ↦ rw k refl
  ])
  | inr (st, e) ↦ rw (e, lookup-erase j st.pub_track.global_id held, (h id st e).0) refl
]

pub remove_found-IsServed :
    (sub_id : String) (r : Router) (id : String) (held : Tracked)
    → IsServed sub_id held r
    → IsServed sub_id (remove_found held (lookup id held)) r
remove_found-IsServed sub_id r id held h j st e =
    let e' = sym (remove_found-lookup sub_id r j id held h) ∙ e in
    elim (Bool-cases (str_eq id j)) [
      | inl k ↦ absurd (none-some (rw k at e'))
      | inr k ↦ h j st (rw k at e')
    ]
  where
    none-some : none ≡ some st → ⊥
    none-some e = cc

-- The loop over the unmatched tracks removes the entries of these tracks.
pub remove_unmatched-lookup :
    (sub_id : String) (r : Router) (ts : List Track) (held : Tracked)
    → IsServed sub_id held r
    → IsServed sub_id (remove_unmatched ts held) r
      × ((j : String)
          → lookup j (remove_unmatched ts held)
            ≡ (if any (has_id j) ts then none else lookup j held))
unfolding remove_unmatched
remove_unmatched-lookup sub_id r [] held h = (h, λ j. refl)
remove_unmatched-lookup sub_id r (t ∷ ts) held h =
    let (h', same) =
      remove_unmatched-lookup sub_id r ts (remove_found held (lookup t.global_id held))
        (remove_found-IsServed sub_id r t.global_id held h) in
    (h', λ j. same j ∙ rw (remove_found-lookup sub_id r j t.global_id held h) (ground arith))

-- The other accepters are those of before.
abbrev pub AreSame : String → Router → Router → Type 0
AreSame id r' r =
    (j : String) → str_eq id j ≡ false → lookup j r'.track2accepters ≡ lookup j r.track2accepters

pub bind_sub-has_sub :
    (sub_id : String) (a : Accepter)
    → ((bind_sub sub_id a).closed ≡ a.closed) × (has_sub sub_id (bind_sub sub_id a).subs ≡ true)
unfolding bind_sub
bind_sub-has_sub sub_id a = elim (Bool-cases (has_sub sub_id a.subs)) [
  | inl k ↦ rw k (refl, k)
  | inr k ↦ rw (k, str_eq_refl sub_id) (refl, refl)
]

-- A bound accepter is there and as open as before.
pub bind_accepter-IsBoundAt :
    (sub_id id : String) (a : Accepter) (r : Router)
    → lookup id r.track2accepters ≡ some a
    → a.closed ≡ false
    → IsBoundAt sub_id id (bind_accepter sub_id id r) × AreSame id (bind_accepter sub_id id r) r
unfolding bind_accepter
bind_accepter-IsBoundAt sub_id id a r e o =
    let (c, b) = bind_sub-has_sub sub_id a in
    rw e (
      (
        bind_sub sub_id a,
        lookup-insert id id (bind_sub sub_id a) r.track2accepters ∙ rw (str_eq_refl id) refl,
        c ∙ o,
        b,
      ),
      λ j k. lookup-insert j id (bind_sub sub_id a) r.track2accepters ∙ rw k refl,
    )

-- What `AcceptTrack` leaves in the router, if the accepter is not a closed one.
abbrev pub IsAccepted : String → Router → Router → Type 0
IsAccepted id r' r =
    AreSame id r' r × (a : Accepter) × (lookup id r'.track2accepters ≡ some a) × (a.closed ≡ false)

pub ref-open :
    (a : Accepter)
    → a.closed ≡ false
    → ref a ≡ (record a { ref_count = (a.ref_count + 1) % 2 ^ 64 }, true)
unfolding ref
ref-open a c =
    ap (λ b. if b then (a, false) else (record a { ref_count = (a.ref_count + 1) % 2 ^ 64 }, true))
      c

after_round-IsAccepted :
    (id : String) (r : Router)
    → ¬ IsClosedAt id r
    → ((after_round id r).1 ≡ true) × IsAccepted id (after_round id r).0 r
after_round-IsAccepted id r h = elim (Option-cases (lookup id r.track2accepters)) [
  | inl e ↦ rw e (refl, put_back empty_accepter refl)
  | inr (a, e) ↦ elim (Bool-cases a.closed) [
    | inl c ↦ absurd (h (a, e, c))
    | inr c ↦
        rw (e, ref-open a c)
          (refl, put_back (record a { ref_count = (a.ref_count + 1) % 2 ^ 64 }) c)
  ]
]
  where
    put_back :
        (a : Accepter)
        → a.closed ≡ false
        → IsAccepted id (record r { track2accepters = insert id a r.track2accepters }) r
    put_back a c = (
      λ j k. lookup-insert j id a r.track2accepters ∙ rw k refl,
      a,
      lookup-insert id id a r.track2accepters ∙ rw (str_eq_refl id) refl,
      c,
    )

-- What the subscription and the router have after a new track was taken over.
pub take_new :
    (sub_id id : String) (r : Router)
    → ¬ IsClosedAt id r
    → IsBoundAt sub_id id (bind_accepter sub_id id (after_round id r).0)
      × AreSame id (bind_accepter sub_id id (after_round id r).0) r
take_new sub_id id r h =
    let (t, (same, a, e, c)) = after_round-IsAccepted id r h in
    let (b, same') = bind_accepter-IsBoundAt sub_id id a (after_round id r).0 e c in
    (b, λ j k. same' j k ∙ same j k)

-- What a loop over tracks to remove leaves.
pub removed_iff :
    (j : String) (ts : List Track) (held after : Tracked)
    → lookup j after ≡ (if any (has_id j) ts then none else lookup j held)
    → IsHeld j after ↔ (IsHeld j held × ¬ IsNamed j ts)
removed_iff j ts held after e =
    let (to, from) =
      any_iff (λ (t : Track). t.global_id ≡ j) (has_id j) (λ t. str_eq_iff t.global_id j) ts in
    elim (Bool-cases (any (has_id j) ts)) [
      | inl k ↦ (λ (st, q). cc (rw k at (sym q ∙ e)), λ (_, n). absurd (n (to k)))
      | inr k ↦ (
        λ (st, q). ((st, rw k at (sym e ∙ q)), λ n. true-ne-false (from n) k),
        λ ((st, q), n). (st, e ∙ rw k q),
      )
    ]

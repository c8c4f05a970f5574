-- ===== src/Subscription/Closing.antt =====
-- What `Subscription.Close` leaves in the router.
use conference_go.Common.{
  String, true, false, List, [], ◌∷◌, some, str_eq, str_eq_iff, ◌≡◌, refl, ◌∙◌, ◌⊎◌, inl, inr,
  arith, Bool-cases, Option-cases, subst, sym, ap, some_inj,
}
use conference_go.Maps.{lookup, lookup-insert}
use conference_go.Router.{
  Accepter, Router, unbind_router_sub, close, has_sub, without_sub, unbind_sub,
}
use conference_go.Subscription.{Subscription, Tracked, release_all, close_subscription}
use conference_go.Subscription.Held.{IsHeld}

module _ (sub_id : String) where
  -- The accepter of the track, if there is one, does not have the subscription.
  abbrev pub IsFree : String → Router → Type 0
  IsFree j r = (a : Accepter) → lookup j r.track2accepters ≡ some a → has_sub sub_id a.subs ≡ false

  has_sub-without_sub : (subs : List String) → has_sub sub_id (without_sub sub_id subs) ≡ false
  unfolding without_sub
  has_sub-without_sub [] = refl
  has_sub-without_sub (s ∷ subs) = ground (arith, has_sub-without_sub subs)

  unbind_sub-free : (a : Accepter) → has_sub sub_id (unbind_sub sub_id a).subs ≡ false
  unfolding unbind_sub
  unbind_sub-free a = elim (Bool-cases (has_sub sub_id a.subs)) [
    | inl k ↦ rw k (has_sub-without_sub a.subs)
    | inr k ↦ rw k k
  ]

  close-free :
      (a : Accepter) → has_sub sub_id a.subs ≡ false → has_sub sub_id (close false a).0.subs ≡ false
  unfolding close
  close-free a h = ground (arith, h)

  unbind_router_sub-IsFree :
      (id j : String) (r : Router)
      → IsFree j r ⊎ (id ≡ j)
      → IsFree j (unbind_router_sub sub_id id r).0
  unfolding unbind_router_sub
  unbind_router_sub-IsFree id j r h = elim (Option-cases (lookup id r.track2accepters)) [
    | inl e ↦ rw e (λ b q. elim h [
      | inl f ↦ f b q
      | inr i ↦ cc (sym e ∙ ap (λ k. lookup k r.track2accepters) i ∙ q)
    ])
    | inr (a, e) ↦
        let b = (close false (unbind_sub sub_id a)).0 in
        let lk = lookup-insert j id b r.track2accepters in
        rw e (elim (Bool-cases (str_eq id j)) [
          | inl k ↦ λ c q.
              subst (λ (x : Accepter). has_sub sub_id x.subs ≡ false)
                (some_inj (rw k at (sym lk ∙ q)))
                (close-free (unbind_sub sub_id a) (unbind_sub-free a))
          | inr k ↦
              λ c q. elim h [ inl f ↦ f c (rw k at (sym lk ∙ q)) | inr i ↦ absurd (differ i k) ]
        ])
  ]
    where
      differ : id ≡ j → str_eq id j ≡ false → ⊥
      differ i k = ground (arith, i, k, str_eq_iff id j)

  release_all-IsFree :
      (held : Tracked) (r : Router) (j : String)
      → IsFree j r ⊎ IsHeld j held
      → IsFree j (release_all sub_id held r).0
  unfolding release_all lookup
  release_all-IsFree [] r j h = elim h [ inl f ↦ f | inr (st, e) ↦ cc ]
  release_all-IsFree ((id, st) ∷ held) r j h =
      release_all-IsFree held (unbind_router_sub sub_id id r).0 j (elim (Bool-cases (str_eq id j)) [
        | inl k ↦ inl (unbind_router_sub-IsFree id j r (inr ((str_eq_iff id j).0 k)))
        | inr k ↦ elim h [
          | inl f ↦ inl (unbind_router_sub-IsFree id j r (inl f))
          | inr (old, e) ↦ inr (old, rw (k, lookup) at e)
        ]
      ])

-- A subscription that was closed holds no track, and no accepter of a track that it held has it.
pub close_subscription_lem :
    (s : Subscription) (r : Router) (id : String)
    → IsHeld id s.accepted_track
    → ((close_subscription s r).0.is_closed ≡ true)
      × ((close_subscription s r).0.accepted_track ≡ [])
      × IsFree s.id id (close_subscription s r).1
unfolding close_subscription
close_subscription_lem s r id h =
    (refl, refl, release_all-IsFree s.id s.accepted_track r id (inr h))

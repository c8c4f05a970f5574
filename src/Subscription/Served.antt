-- ===== src/Subscription/Served.antt =====
-- What happens to the entries of a subscription when an accepter is closed or tracks are taken over.
use conference_go.Common.{
  true-ne-false, String, Bool, true, false, List, [], none, some, str_eq, str_eq_iff, ◌≡◌, refl,
  ◌∙◌, ◌⊎◌, inl, inr, Bool-cases, subst, sym, ap, Result, ok, panic, some_inj, ◌>>=◌, ◌==◌,
}
use conference_go.Maps.{lookup, insert, lookup-insert}
use conference_go.Router.{Accepter, Router, close, has_sub, count_after}
use conference_go.Subscription.{Subscription, SubscribedTrack, lose_accepter, unbind_accepter}
use conference_go.Subscription.Held.{IsBoundAt, IsServed, AreSame}
use conference_go.Subscription.Losses.{unbind_all}

abbrev pub Serves : Subscription × Router → Type 0
Serves (s, r) = IsServed s.id s.accepted_track r

pub bind_ok :
    {A B : Type 0} (m : Result A) (f : A → Result B) (b : B)
    → m >>= f ≡ ok b
    → (a : A) × (m ≡ ok a) × (f a ≡ ok b)
bind_ok (ok a) f b e = (a, refl, e)
bind_ok (panic x) f b e = cc

abbrev pub with_accepter : Router → String → Accepter → Router
with_accepter r id b = record r { track2accepters = insert id b r.track2accepters }

-- An accepter of a track that has no entry is put in its place.
pub fresh-IsServed :
    (s : Subscription) (r : Router) (id : String) (b : Accepter)
    → lookup id r.track2accepters ≡ none
    → IsServed s.id s.accepted_track r
    → IsServed s.id s.accepted_track (with_accepter r id b)
fresh-IsServed s r id b n h j st e =
    let (g, q, (c, l, o, m)) = h j st e in
    elim (Bool-cases (str_eq id j)) [
      | inl k ↦ cc (sym n ∙ ap (λ i. lookup i r.track2accepters) ((str_eq_iff id j).0 k) ∙ l)
      | inr k ↦ (g, q, (c, lookup-insert j id b r.track2accepters ∙ rw k l, o, m))
    ]

-- Another accepter is put in the place of the one of a track.
module _ (s : Subscription) (r : Router) (id : String) (a : Accepter)
    (found : lookup id r.track2accepters ≡ some a) (h : IsServed s.id s.accepted_track r) where
  others_same : (b : Accepter) → AreSame id (with_accepter r id b) r
  others_same b j k = lookup-insert j id b r.track2accepters ∙ rw k refl

  -- An entry of another track is served as before.
  other_entry :
      (b : Accepter) (j : String) (st : SubscribedTrack)
      → str_eq id j ≡ false
      → lookup j s.accepted_track ≡ some st
      → (st.pub_track.global_id ≡ j) × (st.accepter ≡ j) × IsBoundAt s.id j (with_accepter r id b)
  other_entry b j st k e =
      let (g, q, (c, l, o, m)) = h j st e in (g, q, (c, others_same b j k ∙ l, o, m))

  -- The accepter of an entry has the subscription.
  entry_accepter :
      (st : SubscribedTrack)
      → lookup id s.accepted_track ≡ some st
      → (a.closed ≡ false) × (has_sub s.id a.subs ≡ true)
  entry_accepter st e =
      let (_, _, (c, l, o, m)) = h id st e in
      subst (λ (x : Accepter). (x.closed ≡ false) × (has_sub s.id x.subs ≡ true))
        (some_inj (sym l ∙ found)) (o, m)

  pub kept-IsServed :
      (b : Accepter)
      → (a.closed ≡ false → b.closed ≡ false)
      → (has_sub s.id a.subs ≡ true → has_sub s.id b.subs ≡ true)
      → IsServed s.id s.accepted_track (with_accepter r id b)
  kept-IsServed b o m j st e = elim (Bool-cases (str_eq id j)) [
    | inl k ↦
        let is = (str_eq_iff id j).0 k in
        let e' : lookup id s.accepted_track ≡ some st =
          subst (λ i. lookup i s.accepted_track ≡ some st) (sym is) e in
        let (op, has) = entry_accepter st e' in
        let (g, q, _) = h j st e in
        (g, q, (b, lookup-insert j id b r.track2accepters ∙ rw k refl, o op, m has))
    | inr k ↦ other_entry b j st k e
  ]

  pub lose-Serves :
      (b : Accepter) (subs : List String)
      → has_sub s.id subs ≡ has_sub s.id a.subs
      → Serves (lose_accepter id subs s, with_accepter r id b)
        × ((lose_accepter id subs s).id ≡ s.id)
  unfolding lose_accepter unbind_accepter
  lose-Serves b subs m = elim (Bool-cases (has_sub s.id subs)) [
    | inl k ↦
        let (h', lk) = unbind_all s.id r id s.accepted_track h in
        rw k (
          λ j st e. elim (Bool-cases (str_eq id j)) [
            | inl q ↦ absurd (none-some (rw q at (sym (lk j) ∙ e)))
            | inr q ↦ other_entry b j st q (rw q at (sym (lk j) ∙ e))
          ],
          refl,
        )
    | inr k ↦ rw k (
      λ j st e. elim (Bool-cases (str_eq id j)) [
        | inl q ↦ absurd (
            true-ne-false
              (m
                ∙ (entry_accepter st (
                    subst (λ i. lookup i s.accepted_track ≡ some st) (sym ((str_eq_iff id j).0 q))
                      e)).1)
              k)
        | inr q ↦ other_entry b j st q e
      ],
      refl,
    )
  ]
    where
      none-some : {x : SubscribedTrack} → none ≡ some x → ⊥
      none-some e = cc

-- `Close` closes the accepter and gives up its subscriptions, or leaves both.
pub close_cases :
    (force : Bool) (a : Accepter)
    → (((close force a).0.closed ≡ true) × ((close force a).1 ≡ a.subs))
      ⊎ (((close force a).0.closed ≡ a.closed)
          × ((close force a).0.subs ≡ a.subs)
          × ((close force a).1 ≡ []))
unfolding close
close_cases force a = elim (Bool-cases (count_after force a.ref_count == 0)) [
  | inl k ↦ rw k (inl (refl, refl))
  | inr k ↦ rw k (inr (refl, refl, refl))
]

-- An accepter is closed and put in its place, and its subscriptions lose it.
pub close-Serves :
    (force : Bool) (s : Subscription) (r : Router) (id : String) (a b : Accepter)
    → lookup id r.track2accepters ≡ some a
    → b.closed ≡ a.closed
    → has_sub s.id b.subs ≡ has_sub s.id a.subs
    → IsServed s.id s.accepted_track r
    → Serves (lose_accepter id (close force b).1 s, with_accepter r id (close force b).0)
      × ((lose_accepter id (close force b).1 s).id ≡ s.id)
unfolding lose_accepter
close-Serves force s r id a b found o m h = elim (close_cases force b) [
  | inl (_, l) ↦
      lose-Serves s r id a found h (close force b).0 (close force b).1 (ap (has_sub s.id) l ∙ m)
  | inr (c, subs, l) ↦ rw l (
    kept-IsServed s r id a found h (close force b).0 (λ q. c ∙ o ∙ q)
        (λ q. ap (has_sub s.id) subs ∙ m ∙ q),
    refl,
  )
]

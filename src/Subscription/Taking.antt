-- ===== src/Subscription/Taking.antt =====
-- The loop of `Subscription.AcceptTrack` over the matched tracks.
use mathlib.Core.List.Memᴰ
use conference_go.Common.{
  true-ne-false, ◌≢◌, String, true, false, List, [], ◌∷◌, map, none, some, str_eq, str_eq_iff, ◌≡◌,
  refl, ◌∙◌, ◌↔◌, ◌⊎◌, inl, inr, arith, Bool-cases, Option-cases, Memᴰ, subst, sym, ap, ok,
  some_inj, Every, Exists,
}
use conference_go.Maps.{lookup, insert, lookup-insert}
use conference_go.Proto.{Track}
use conference_go.Router.{Accepter, Router}
use conference_go.Router.Lifetime.{IsClosedAt, CanMake, after_round, accept_track-ok}
use conference_go.Subscription.{
  SubscribedTrack, Peer, Tracked, Taken, new_entry, as_local, bind_accepter, take_over,
}
use conference_go.Subscription.Held.{IsBoundAt, IsServed, IsHeld, IsNamed, AreSame, take_new}

-- The accepter of a track is not a closed one, it can be made if there is none, and the connection takes
-- the track.
abbrev pub CanTake : Peer → Router → Track → Type 0
CanTake peer r t =
    (¬ IsClosedAt t.global_id r) × CanMake peer.maker t r × (peer.takes_track t.global_id ≡ true)

module _ (peer : Peer) (sub_id : String) where
  -- All that the loop leaves: the entries are served, they are those of before and those of the tracks,
  -- every track is sent, and there are negotiations exactly for a new one.
  abbrev pub IsTaken : List Track → Tracked → Taken → Type 0
  IsTaken ts held (held', r', sent, need_neg) =
      IsServed sub_id held' r'
      × ((j : String) → IsHeld j held' ↔ (IsHeld j held ⊎ IsNamed j ts))
      × (map (λ (t : Track). t.global_id) sent ≡ map (λ (t : Track). t.global_id) ts)
      × ((need_neg ≡ true) ↔ Exists (λ (t : Track). lookup t.global_id held ≡ none) ts)

  pub insert-IsServed :
      (t : Track) (held : Tracked) (r r' : Router)
      → IsServed sub_id held r
      → lookup t.global_id held ≡ none
      → IsBoundAt sub_id t.global_id r'
      → AreSame t.global_id r' r
      → IsServed sub_id (insert t.global_id (new_entry peer t) held) r'
  insert-IsServed t held r r' h e b same j st q =
      let q' = sym (lookup-insert j t.global_id (new_entry peer t) held) ∙ q in
      elim (Bool-cases (str_eq t.global_id j)) [
        | inl k ↦
            let is = (str_eq_iff t.global_id j).0 k in
            let eq = some_inj (rw k at q') in
            (
              subst (λ (x : SubscribedTrack). x.pub_track.global_id ≡ j) eq is,
              subst (λ (x : SubscribedTrack). x.accepter ≡ j) eq is,
              subst (λ i. IsBoundAt sub_id i r') is b,
            )
        | inr k ↦
            let (g, a, (acc, l, o, s)) = h j st (rw k at q') in (g, a, (acc, same j k ∙ l, o, s))
      ]

  IsHeld-insert :
      (t : Track) (held : Tracked) (j : String)
      → IsHeld j (insert t.global_id (new_entry peer t) held) ↔ (IsHeld j held ⊎ (t.global_id ≡ j))
  IsHeld-insert t held j =
      let lk = lookup-insert j t.global_id (new_entry peer t) held in
      elim (Bool-cases (str_eq t.global_id j)) [
        | inl k ↦
            (λ _. inr ((str_eq_iff t.global_id j).0 k), λ _. (new_entry peer t, lk ∙ rw k refl))
        | inr k ↦ (
          λ (st, e). inl (st, rw k at (sym lk ∙ e)),
          elim [ inl (st, e) ↦ (st, lk ∙ rw k e) | inr e ↦ absurd (differ e k) ],
        )
      ]
    where
      differ : t.global_id ≡ j → str_eq t.global_id j ≡ false → ⊥
      differ e k = ground (arith, e, k, str_eq_iff t.global_id j)

  IsNamed-cons :
      (j : String) (t : Track) (ts : List Track)
      → IsNamed j (t ∷ ts) ↔ ((t.global_id ≡ j) ⊎ IsNamed j ts)
  IsNamed-cons j t ts = (
    λ (x, m, e). elim (Memᴰ.cases_cons m) [
      | inl q ↦ inl (subst (λ (y : Track). y.global_id ≡ j) q e)
      | inr m' ↦ inr (x, m', e)
    ],
    elim [ inl e ↦ (t, Memᴰ.head refl, e) | inr (x, m, e) ↦ (x, Memᴰ.tail m, e) ],
  )

  still :
      (r r' : Router) (id : String) (ts : List Track)
      → AreSame id r' r
      → IsBoundAt sub_id id r'
      → Every (CanTake peer r) ts
      → Every (CanTake peer r') ts
  still r r' id ts same (a, e, o, s) can x m =
      let (c, mk, p) = can x m in
      (
        λ (a', e', o'). elim (Bool-cases (str_eq id x.global_id)) [
          | inl k ↦ absurd (
              clash a a'
                (sym e
                  ∙ ap (λ i. lookup i r'.track2accepters) ((str_eq_iff id x.global_id).0 k)
                  ∙ e')
                o o')
          | inr k ↦ c (a', sym (same x.global_id k) ∙ e', o')
        ],
        λ n. elim (Bool-cases (str_eq id x.global_id)) [
          | inl k ↦ absurd (
              some-none (
                sym e
                ∙ ap (λ i. lookup i r'.track2accepters) ((str_eq_iff id x.global_id).0 k)
                ∙ n))
          | inr k ↦ mk (sym (same x.global_id k) ∙ n)
        ],
        p,
      )
    where
      some-none : {b : Accepter} → some b ≡ none → ⊥
      some-none q = cc

      clash : (a a' : Accepter) → some a ≡ some a' → a.closed ≡ false → a'.closed ≡ true → ⊥
      clash a a' e o o' =
          true-ne-false (subst (λ (x : Accepter). x.closed ≡ true) (sym (some_inj e)) o') o

  Exists-cons :
      (held : Tracked) (t : Track) (ts : List Track)
      → lookup t.global_id held ≢ none
      → Exists (λ (x : Track). lookup x.global_id held ≡ none) (t ∷ ts)
        ↔ Exists (λ (x : Track). lookup x.global_id held ≡ none) ts
  Exists-cons held t ts n = (
    λ (x, m, e). elim (Memᴰ.cases_cons m) [
      | inl q ↦ absurd (n (subst (λ (y : Track). lookup y.global_id held ≡ none) q e))
      | inr m' ↦ (x, m', e)
    ],
    λ (x, m, e). (x, Memᴰ.tail m, e),
  )

  IsHeld-first :
      (t : Track) (ts : List Track) (held first after : Tracked) (j : String)
      → IsHeld j after ↔ (IsHeld j first ⊎ IsNamed j ts)
      → IsHeld j first ↔ (IsHeld j held ⊎ (t.global_id ≡ j))
      → IsHeld j after ↔ (IsHeld j held ⊎ IsNamed j (t ∷ ts))
  IsHeld-first t ts held first after j (f, g) (f', g') =
      let (to, from) = IsNamed-cons j t ts in
      (
        λ x. elim (f x) [
          | inl y ↦ elim (f' y) [ inl z ↦ inl z | inr e ↦ inr (from (inl e)) ]
          | inr n ↦ inr (from (inr n))
        ],
        elim [
          | inl z ↦ g (inl (g' (inl z)))
          | inr n ↦ elim (to n) [ inl e ↦ g (inl (g' (inr e))) | inr m ↦ g (inr m) ]
        ],
      )

  -- The loop ends, and takes over what can be taken.
  pub take_over-IsTaken :
      (ts : List Track) (held : Tracked) (r : Router)
      → IsServed sub_id held r
      → Every (CanTake peer r) ts
      → (out : Taken) × (take_over peer sub_id ts held r ≡ ok out) × IsTaken ts held out
  unfolding take_over
  take_over-IsTaken [] held r h can = (
    (held, r, [], false),
    refl,
    (
      h,
      λ j. (inl, elim [ inl x ↦ x | inr (x, m, _) ↦ absurd (Memᴰ.not-nil m) ]),
      refl,
      (λ e. cc, λ (x, m, _). absurd (Memᴰ.not-nil m)),
    ),
  )
  take_over-IsTaken (t ∷ ts) held r h can = elim (Option-cases (lookup t.global_id held)) [
    | inr (st, e) ↦
        let ((held', r', sent, b), q, (h', iff, ids, neg)) =
          take_over-IsTaken ts held r h (λ x m. can x (Memᴰ.tail m)) in
        let some-ne-none : lookup t.global_id held ≢ none = λ n. cc in
        let (nf, nb) = Exists-cons held t ts some-ne-none in
        (
          (held', r', as_local peer st t ∷ sent, b),
          rw (e, q) refl,
          (
            h',
            λ j.
                IsHeld-first t ts held held held' j (iff j) (
                  inl,
                  elim [ inl x ↦ x | inr k ↦ (st, subst (λ i. lookup i held ≡ some st) k e) ],
                ),
            ap (λ l. t.global_id ∷ l) ids,
            (λ x. nb (neg.0 x), λ x. neg.1 (nf x)),
          ),
        )
    | inl e ↦
        let (c, mk, p) = can t (Memᴰ.head refl) in
        let (b, same) = take_new sub_id t.global_id r c in
        let r1 : Router = bind_accepter sub_id t.global_id (after_round t.global_id r).0 in
        let ((held', r', sent, b'), q, (h', iff, ids, neg)) =
          take_over-IsTaken ts (insert t.global_id (new_entry peer t) held) r1
            (insert-IsServed t held r r1 h e b same)
            (still r r1 t.global_id ts same b (λ x m. can x (Memᴰ.tail m))) in
        (
          (held', r', (new_entry peer t).pub_track ∷ sent, true),
          rw (e, accept_track-ok peer.maker t r mk c, p, q) refl,
          (
            h',
            λ j.
                IsHeld-first t ts held (insert t.global_id (new_entry peer t) held) held' j (iff j)
                  (IsHeld-insert t held j),
            ap (λ l. t.global_id ∷ l) ids,
            (λ x. (t, Memᴰ.head refl, e), λ x. refl),
          ),
        )
  ]

-- ===== src/Subscription/Losses.antt =====
-- The tracks that a subscription holds after an accepter was closed.
use conference_go.Common.{
  String, false, [], ◌∷◌, none, some, str_eq, str_eq_iff, ◌≡◌, refl, ◌∙◌, inl, inr, arith,
  Bool-cases, Option-cases, sym, if◌then◌else◌,
}
use conference_go.Maps.{lookup, lookup-erase}
use conference_go.Router.{Router}
use conference_go.Subscription.{SubscribedTrack, Tracked, unbind_found, unbind_each}
use conference_go.Subscription.Held.{IsServed}

module _ (sub_id : String) (r : Router) (track_id : String) where
  unbind_found-lookup :
      (key j : String) (held : Tracked)
      → IsServed sub_id held r
      → lookup j (unbind_found track_id held (lookup key held)) ≡ (
          if str_eq key track_id
          then (if str_eq key j then none else lookup j held)
          else lookup j held)
  unbind_found-lookup key j held h = elim (Option-cases (lookup key held)) [
    | inl e ↦ rw e (elim (Bool-cases (str_eq key j)) [
      | inl k ↦ rw (k, sym ((str_eq_iff key j).0 k)) (ground (arith, e))
      | inr k ↦ rw k (ground arith)
    ])
    | inr (st, e) ↦
        let (g, a, _) = h key st e in rw (e, a, g) (ground (arith, lookup-erase j key held))
  ]

  unbind_found-IsServed :
      (key : String) (held : Tracked)
      → IsServed sub_id held r
      → IsServed sub_id (unbind_found track_id held (lookup key held)) r
  unbind_found-IsServed key held h j st e =
      h j st (ground (arith, sym (unbind_found-lookup key j held h) ∙ e))

  -- What is left of the entries.
  abbrev pub IsLeft : Tracked → Tracked → Type 0
  IsLeft held after =
      IsServed sub_id after r
      × ((j : String) → str_eq track_id j ≡ false → lookup j after ≡ lookup j held)
      × (lookup track_id held ≡ none → lookup track_id after ≡ none)

  unbind_found-IsLeft :
      (key : String) (held : Tracked)
      → IsServed sub_id held r
      → IsLeft held (unbind_found track_id held (lookup key held))
  unbind_found-IsLeft key held h = (
    unbind_found-IsServed key held h,
    λ j k.
        unbind_found-lookup key j held h
        ∙ ground (arith, k, str_eq_iff key track_id, str_eq_iff key j, str_eq_iff track_id j),
    λ e. unbind_found-lookup key track_id held h ∙ ground (arith, e),
  )

  unbind_each-IsLeft :
      (entries held : Tracked)
      → IsServed sub_id held r
      → IsLeft held (unbind_each track_id entries held)
  unfolding unbind_each
  unbind_each-IsLeft [] held h = (h, λ j k. refl, λ e. e)
  unbind_each-IsLeft ((key, old) ∷ entries) held h =
      let (h', same, gone) = unbind_found-IsLeft key held h in
      let (h'', same', gone') = unbind_each-IsLeft entries _ h' in
      (h'', λ j k. same' j k ∙ same j k, λ e. gone' (gone e))

  unbind_each-none :
      (entries held : Tracked) (old : SubscribedTrack)
      → IsServed sub_id held r
      → lookup track_id entries ≡ some old
      → lookup track_id (unbind_each track_id entries held) ≡ none
  unfolding unbind_each
  unbind_each-none [] held old h e = cc
  unbind_each-none ((key, first) ∷ entries) held old h e =
      let (h', _, _) = unbind_found-IsLeft key held h in
      elim (Bool-cases (str_eq key track_id)) [
        | inl k ↦
            let (_, _, gone) = unbind_each-IsLeft entries _ h' in
            gone (unbind_found-lookup key track_id held h ∙ rw k refl)
        | inr k ↦ unbind_each-none entries _ old h' (rw (k, lookup) at e)
      ]

  -- `UnbindAccepter` removes the track of the accepter and no other.
  pub unbind_all :
      (held : Tracked)
      → IsServed sub_id held r
      → IsServed sub_id (unbind_each track_id held held) r
        × ((j : String)
            → lookup j (unbind_each track_id held held)
              ≡ (if str_eq track_id j then none else lookup j held))
  unbind_all held h =
      let (h', same, gone) = unbind_each-IsLeft held held h in
      (
        h',
        λ j. elim (Bool-cases (str_eq track_id j)) [
          | inl k ↦
              rw (k, sym ((str_eq_iff track_id j).0 k))
                (elim (Option-cases (lookup track_id held)) [
                  | inl e ↦ gone e
                  | inr (st, e) ↦ unbind_each-none held held st h e
                ])
          | inr k ↦ rw k (same j k)
        ],
      )

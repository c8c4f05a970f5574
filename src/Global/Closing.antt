-- ===== src/Global/Closing.antt =====
-- Closing a session keeps the two maps together.
use conference_go.Common.{
  String, false, List, [], ◌∷◌, Option, none, some, str_eq, str_eq_iff, if◌then◌else◌, ◌≡◌, refl,
  arith, ap, sym, ◌∙◌, subst, ◌↔◌, inl, inr, Bool-cases, Memᴰ, true-ne-false, some_inj,
}
use conference_go.Maps.{AssocMap, lookup, erase, lookup-insert, lookup-erase}
use conference_go.Collection.Unordered.{
  slice_remove_if_ignore_order, slice_remove_if_ignore_order_iff,
}
use conference_go.Context.{Context}
use conference_go.Global.{
  Global, stored, without_context, close_found, close_signal_context, or_none,
}
use conference_go.Global.Index.{IsAt, IsIndexed, none-some}

-- What is left of a user's sessions.
abbrev left_of : String → Option (List Context) → List Context
left_of id o = slice_remove_if_ignore_order (or_none o) (λ v. str_eq v.id id)

or_none-stored :
    (uid u : String) (ctxs : List Context) (m : AssocMap (List Context))
    → or_none (lookup u (stored uid ctxs m)) ≡ (if str_eq uid u then ctxs else or_none (lookup u m))
or_none-stored uid u [] m =
    rw (lookup-erase u uid m)
      (elim (Bool-cases (str_eq uid u)) [ inl q ↦ rw q refl | inr q ↦ rw q refl ])
or_none-stored uid u (c ∷ ctxs) m =
    rw (lookup-insert u uid (c ∷ ctxs) m)
      (elim (Bool-cases (str_eq uid u)) [ inl q ↦ rw q refl | inr q ↦ rw q refl ])

or_none-without_context :
    (id uid u : String) (o : Option (List Context)) (m : AssocMap (List Context))
    → lookup uid m ≡ o
    → or_none (lookup u (without_context id uid o m))
      ≡ (if str_eq uid u then left_of id o else or_none (lookup u m))
unfolding slice_remove_if_ignore_order
or_none-without_context id uid u none m e = elim (Bool-cases (str_eq uid u)) [
  | inl q ↦ rw q (ap (λ i. or_none (lookup i m)) (sym ((str_eq_iff uid u).0 q)) ∙ ap or_none e)
  | inr q ↦ rw q refl
]
or_none-without_context id uid u (some ctxs) m e = or_none-stored uid u _ m

module _ (id : String) (ctx : Context) (g : Global) (h : IsIndexed g)
    (found : lookup id g.sig_map ≡ some ctx) where
  -- A session is still registered if it is not the one that was closed.
  IsAt-erase :
      (c : Context)
      → (lookup c.id (erase id g.sig_map) ≡ some c) ↔ (IsAt c g × (str_eq c.id id ≡ false))
  IsAt-erase c = rw (lookup-erase c.id id g.sig_map) (elim (Bool-cases (str_eq id c.id)) [
    | inl q ↦ rw q (
      λ e. absurd (none-some e),
      λ (e, n). absurd (true-ne-false ((str_eq_iff c.id id).1 (sym ((str_eq_iff id c.id).0 q))) n),
    )
    | inr q ↦
        rw q (λ e. (e, ground (arith, q, str_eq_iff c.id id, str_eq_iff id c.id)), λ (e, n). e)
  ])

  left_id : (i : String) (c : Context) → lookup i (erase id g.sig_map) ≡ some c → c.id ≡ i
  left_id i c e = elim (Bool-cases (str_eq id i)) [
    | inl q ↦ absurd (none-some (sym (lookup-erase i id g.sig_map ∙ rw q refl) ∙ e))
    | inr q ↦ h.0 i c (sym (lookup-erase i id g.sig_map ∙ rw q refl) ∙ e)
  ]

  close_found-IsIndexed : IsIndexed (close_found id g (some ctx)).0
  close_found-IsIndexed = (
    left_id,
    λ uid c.
        let place = IsAt-erase c in
        let old = h.1 uid c in
        let users =
          or_none-without_context id ctx.uid uid (lookup ctx.uid g.sig_map_by_user)
            g.sig_map_by_user refl in
        subst (λ l. Memᴰ c l ↔ ((lookup c.id (erase id g.sig_map) ≡ some c) × (c.uid ≡ uid)))
          (sym users)
          (elim (Bool-cases (str_eq ctx.uid uid)) [
            | inl q ↦
                let e = (str_eq_iff ctx.uid uid).0 q in
                let left =
                  slice_remove_if_ignore_order_iff (λ v. str_eq v.id id)
                    (or_none (lookup uid g.sig_map_by_user)) c in
                rw (q, e)
                  (
                    λ m. (place.1 ((old.0 (left.0 m).0).0, (left.0 m).1), (old.0 (left.0 m).0).1),
                    λ (k, u). left.1 (old.1 ((place.0 k).0, u), (place.0 k).1),
                  )
            | inr q ↦ rw q (
              λ m. let (k, u) = old.0 m in (place.1 (k, other c k u q), u),
              λ (k, u). old.1 ((place.0 k).0, u),
            )
          ]),
  )
    where
      other :
          (c : Context)
          → {uid : String} → IsAt c g
          → c.uid ≡ uid
          → str_eq ctx.uid uid ≡ false
          → str_eq c.id id ≡ false
      other c {uid} k u q = elim (Bool-cases (str_eq c.id id)) [
        | inl s ↦
            let same : ctx ≡ c =
              some_inj
                (sym found ∙ ap (λ i. lookup i g.sig_map) (sym ((str_eq_iff c.id id).0 s)) ∙ k) in
            absurd
              (true-ne-false ((str_eq_iff ctx.uid uid).1 (ap (λ (x : Context). x.uid) same ∙ u)) q)
        | inr s ↦ s
      ]

pub close-IsIndexed :
    (id : String) (g : Global) → IsIndexed g → IsIndexed (close_signal_context id g).0
unfolding close_signal_context
close-IsIndexed id g h = closed (lookup id g.sig_map) refl
  where
    closed : (o : Option Context) → lookup id g.sig_map ≡ o → IsIndexed (close_found id g o).0
    closed none e = h
    closed (some ctx) e = close_found-IsIndexed id ctx g h e

-- ===== src/Global/Index.antt =====
-- The sessions of a user are those that are registered with that user.
use mathlib.Core.List.Memᴰ
use conference_go.Common.{
  String, List, [], ◌∷◌, Option, none, some, str_eq, str_eq_iff, ◌≡◌, refl, ap, sym, ◌∙◌, subst,
  ◌↔◌, ◌⊎◌, inl, inr, Bool-cases, Memᴰ, true-ne-false, some_inj,
}
use conference_go.Maps.{lookup, insert, lookup-insert}
use conference_go.Context.{Context}
use conference_go.Global.{Global, with_context, register_signal_context, or_none}

-- A registered session.
abbrev pub IsAt : Context → Global → Type 0
IsAt c g = lookup c.id g.sig_map ≡ some c

-- The two maps tell of the same sessions.
abbrev pub IsIndexed : Global → Type 0
IsIndexed g =
    ((id : String) (c : Context) → lookup id g.sig_map ≡ some c → c.id ≡ id)
    × ((uid : String) (c : Context)
        → Memᴰ c (or_none (lookup uid g.sig_map_by_user)) ↔ (IsAt c g × (c.uid ≡ uid)))

pub none-some : {A : Type 0} {a : A} → none ≡ some a → ⊥
none-some e = cc

mem-with_context :
    (c ctx : Context) (o : Option (List Context))
    → Memᴰ c (with_context ctx o) ↔ (Memᴰ c (or_none o) ⊎ (c ≡ ctx))
mem-with_context c ctx none = (
  λ m. elim (Memᴰ.cases_cons m) [ inl e ↦ inr e | inr n ↦ absurd (Memᴰ.not-nil n) ],
  elim [ inl m ↦ absurd (Memᴰ.not-nil m) | inr e ↦ Memᴰ.head e ],
)
mem-with_context c ctx (some ctxs) = (
  λ m. elim (Memᴰ.append_cases ctxs m) [
    | inl n ↦ inl n
    | inr n ↦ elim (Memᴰ.cases_cons n) [ inl e ↦ inr e | inr n' ↦ absurd (Memᴰ.not-nil n') ]
  ],
  elim [ inl m ↦ Memᴰ.append_left (ctx ∷ []) m | inr e ↦ Memᴰ.append_right ctxs (Memᴰ.head e) ],
)

-- A registered id is its session's id, after a registration.
module _ (ctx : Context) (g : Global) (h : IsIndexed g)
    (fresh : lookup ctx.id g.sig_map ≡ none) where
  new_id :
      (id : String) (c : Context) → lookup id (insert ctx.id ctx g.sig_map) ≡ some c → c.id ≡ id
  new_id id c e = elim (Bool-cases (str_eq ctx.id id)) [
    | inl q ↦
        let k : c ≡ ctx = some_inj (sym e ∙ lookup-insert id ctx.id ctx g.sig_map ∙ rw q refl) in
        ap (λ (x : Context). x.id) k ∙ (str_eq_iff ctx.id id).0 q
    | inr q ↦ h.0 id c (sym (lookup-insert id ctx.id ctx g.sig_map ∙ rw q refl) ∙ e)
  ]

  -- A session other than the new one keeps its place.
  IsAt-insert :
      (c : Context)
      → lookup c.id (insert ctx.id ctx g.sig_map) ≡ some c
        ↔ ((lookup c.id g.sig_map ≡ some c) ⊎ (c ≡ ctx))
  IsAt-insert c = elim (Bool-cases (str_eq ctx.id c.id)) [
    | inl q ↦ (
      λ e. inr (some_inj (sym e ∙ lookup-insert c.id ctx.id ctx g.sig_map ∙ rw q refl)),
      elim [
        | inl e ↦ absurd (
            none-some (sym fresh ∙ ap (λ i. lookup i g.sig_map) ((str_eq_iff ctx.id c.id).0 q) ∙ e))
        | inr e ↦ lookup-insert c.id ctx.id ctx g.sig_map ∙ rw q (ap some (sym e))
      ],
    )
    | inr q ↦ (
      λ e. inl (sym (lookup-insert c.id ctx.id ctx g.sig_map ∙ rw q refl) ∙ e),
      elim [
        | inl e ↦ lookup-insert c.id ctx.id ctx g.sig_map ∙ rw q e
        | inr e ↦
            absurd
              (true-ne-false ((str_eq_iff ctx.id c.id).1 (ap (λ (x : Context). x.id) (sym e))) q)
      ],
    )
  ]

  pub register-IsIndexed : IsIndexed (register_signal_context ctx g)
  unfolding register_signal_context
  register-IsIndexed = (
    new_id,
    λ uid c.
        let place = IsAt-insert c in
        let old = h.1 uid c in
        elim (Bool-cases (str_eq ctx.uid uid)) [
          | inl q ↦
              let e = (str_eq_iff ctx.uid uid).0 q in
              let users : lookup uid (
                    insert ctx.uid (with_context ctx (lookup ctx.uid g.sig_map_by_user))
                      g.sig_map_by_user)
                  ≡ some (with_context ctx (lookup uid g.sig_map_by_user)) =
                lookup-insert uid ctx.uid _ g.sig_map_by_user
                ∙ rw q (ap (λ u. some (with_context ctx (lookup u g.sig_map_by_user))) e) in
              let parts = mem-with_context c ctx (lookup uid g.sig_map_by_user) in
              subst
                (λ o.
                  Memᴰ c (or_none o)
                  ↔ ((lookup c.id (insert ctx.id ctx g.sig_map) ≡ some c) × (c.uid ≡ uid)))
                (sym users)
                (
                  λ m. elim (parts.0 m) [
                    | inl n ↦ (place.1 (inl (old.0 n).0), (old.0 n).1)
                    | inr k ↦ (place.1 (inr k), ap (λ (x : Context). x.uid) k ∙ e)
                  ],
                  λ (k, u). elim (place.0 k) [
                    | inl k' ↦ parts.1 (inl (old.1 (k', u)))
                    | inr k' ↦ parts.1 (inr k')
                  ],
                )
          | inr q ↦
              let users : lookup uid (
                    insert ctx.uid (with_context ctx (lookup ctx.uid g.sig_map_by_user))
                      g.sig_map_by_user)
                  ≡ lookup uid g.sig_map_by_user =
                lookup-insert uid ctx.uid _ g.sig_map_by_user ∙ rw q refl in
              subst
                (λ o.
                  Memᴰ c (or_none o)
                  ↔ ((lookup c.id (insert ctx.id ctx g.sig_map) ≡ some c) × (c.uid ≡ uid)))
                (sym users)
                (
                  λ m. (place.1 (inl (old.0 m).0), (old.0 m).1),
                  λ (k, u). elim (place.0 k) [
                    | inl k' ↦ old.1 (k', u)
                    | inr k' ↦ absurd (
                        true-ne-false
                          ((str_eq_iff ctx.uid uid).1 (ap (λ (x : Context). x.uid) (sym k') ∙ u)) q)
                  ],
                )
        ],
  )

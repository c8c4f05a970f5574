-- ===== src/PatternMap/Update.antt =====
-- `UpdatePatternData` changes what is kept under its own pattern, and nothing else.
use conference_go.Common.{
  String, Bool, true, false, List, [], ◌∷◌, Option, none, some, ◌≡◌, refl, ◌≢◌, ◌∙◌, Option-cases,
  inl, inr, sym, subst, ap, ok,
}
use conference_go.Room.{split, check_pattern}
use conference_go.Room.Syntax.{split-filled}
use conference_go.PatternMap.{
  PatternTree, node, Children, find, put, or_empty, has_data, children, remove_data,
  remove_pattern_data, Mapper, store, descend, update_parts, update_pattern_data,
}
use conference_go.PatternMap.Paths.{data_via, data_at, data_in}
use conference_go.PatternMap.Removal.{
  SameElsewhere, IsChild, or_empty-IsChild, put_self, put-SameElsewhere, found-IsChild,
  remove_data-Removes,
}

module _ {ℓ} {T : Type ℓ} where
  -- What the loop has done: `asked` is what the mapper made of the old data.
  record Descended (ps : List String) (asked : Option T) (inner : Children T)
      (out : Children T × Bool) : Type ℓ where
    unchanged : asked ≡ none → (out.1 ≡ true) × (data_in ps out.0 ≡ data_in ps inner)
    written : (new : T) → asked ≡ some new → (out.1 ≡ false) × (data_in ps out.0 ≡ some new)
    others : SameElsewhere ps (node none inner) (node none out.0)

  has_data-eq : (t : PatternTree T) → has_data t ≡ data_at [] t
  has_data-eq (node d cs) = refl

  data_at-eq :
      (q : String) (qs : List String) (t : PatternTree T)
      → data_at (q ∷ qs) t ≡ data_in (q ∷ qs) (children t)
  data_at-eq q qs (node d cs) = refl

  store-Descended :
      (p : String) (pt : PatternTree T) (asked : Option T) (inner : Children T)
      → IsChild p inner pt
      → Descended (p ∷ []) asked inner (store p pt asked inner)
  store-Descended p pt none inner c = record {
    unchanged = λ e. (refl, refl);
    written = λ new e. cc;
    others = λ qs h. refl;
  }
  store-Descended p (node d cs) (some new) inner c = record {
    unchanged = λ e. cc;
    written = λ new' e. (refl, put_self none inner p (node (some new) cs) [] ∙ e);
    others =
        put-SameElsewhere none inner p [] (node d cs) (node (some new) cs) c
          (elim [ [] ↦ λ h. absurd (h refl) | q ∷ qs ↦ λ h. refl ]);
  }

  deeper-Descended :
      (p : String) (pt : PatternTree T) (q : String) (ps : List String) (asked : Option T)
      (inner : Children T) (below : Children T × Bool)
      → IsChild p inner pt
      → Descended (q ∷ ps) asked (children pt) below
      → Descended (p ∷ q ∷ ps) asked inner (put p (node (has_data pt) below.0) inner, below.1)
  deeper-Descended p (node d cs) q ps asked inner below c r = record {
    unchanged = λ e. (
      (r.unchanged e).0,
      put_self none inner p _ (q ∷ ps) ∙ (r.unchanged e).1 ∙ sym (c (q ∷ ps)),
    );
    written =
        λ new e. ((r.written new e).0, put_self none inner p _ (q ∷ ps) ∙ (r.written new e).1);
    others =
        put-SameElsewhere none inner p (q ∷ ps) (node d cs) (node d below.0) c
          (elim [ [] ↦ λ h. refl | k ∷ qs ↦ λ h. r.others (k ∷ qs) h ]);
  }

  module _ (mapper : Mapper T) where
    descend-Descended :
        (p : String) (ps : List String) (inner : Children T)
        → Descended (p ∷ ps) (mapper (data_in (p ∷ ps) inner)) inner (descend mapper (p ∷ ps) inner)
    unfolding descend
    descend-Descended p [] inner =
        let pt = or_empty (find p inner) in
        let e : has_data pt ≡ data_in (p ∷ []) inner =
          has_data-eq pt ∙ sym (or_empty-IsChild p inner []) in
        subst
          (λ (o : Option T).
            Descended (p ∷ []) (mapper o) inner (store p pt (mapper (has_data pt)) inner))
          e (store-Descended p pt (mapper (has_data pt)) inner (or_empty-IsChild p inner))
    descend-Descended p (q ∷ ps) inner =
        let pt = or_empty (find p inner) in
        let below = descend mapper (q ∷ ps) (children pt) in
        subst
          (λ (o : Option T).
            Descended (p ∷ q ∷ ps) (mapper o) inner
              (put p (node (has_data pt) below.0) inner, below.1))
          (sym (or_empty-IsChild p inner (q ∷ ps) ∙ data_at-eq q ps pt))
          (deeper-Descended p pt q ps _ inner below (or_empty-IsChild p inner)
            (descend-Descended q ps (children pt)))

  -- `inner'` is `inner` with `asked` under the path `ps`.
  pub record Updates (ps : List String) (asked : Option T) (inner inner' : Children T)
      : Type ℓ where
    pub here : data_in ps inner' ≡ asked
    pub elsewhere : (qs : List String) → qs ≢ ps → data_in qs inner' ≡ data_in qs inner

  remove_pattern_data-Updates :
      (p : String) (ps : List String) (inner : Children T)
      → (inner' : Children T) × (remove_pattern_data (p ∷ ps) inner ≡ ok inner')
        × Updates (p ∷ ps) none inner inner'
  unfolding remove_pattern_data
  remove_pattern_data-Updates p ps inner = elim (Option-cases (find p inner)) [
    | inl e ↦ (
      inner,
      rw (e, remove_pattern_data),
      record { here = ap (data_via (data_at ps)) e; elsewhere = λ qs h. refl },
    )
    | inr (pt, e) ↦
        let r = remove_data-Removes ps pt in
        (
          put p (remove_data ps pt) inner,
          rw (e, remove_pattern_data),
          record {
            here = put_self none inner p (remove_data ps pt) ps ∙ r.gone;
            elsewhere =
                put-SameElsewhere none inner p ps pt (remove_data ps pt) (found-IsChild p inner e)
                  r.rest;
          },
        )
  ]

  -- On the parts of a pattern `UpdatePatternData` returns: then the datum under the pattern is what the
  -- mapper makes of the old one (none, if it asks for removal), and all else is as before.
  pub update_parts-Updates :
      (p : String) (ps : List String) (mapper : Mapper T) (inner : Children T)
      → (inner' : Children T) × (update_parts (p ∷ ps) mapper inner ≡ ok inner')
        × Updates (p ∷ ps) (mapper (data_in (p ∷ ps) inner)) inner inner'
  unfolding update_parts
  update_parts-Updates p ps mapper inner =
      let r = descend-Descended mapper p ps inner in
      let out = descend mapper (p ∷ ps) inner in
      elim (Option-cases (mapper (data_in (p ∷ ps) inner))) [
        | inl e ↦
            let (inner', e', u) = remove_pattern_data-Updates p ps out.0 in
            (
              inner',
              rw ((r.unchanged e).0) e',
              record {
                here = u.here ∙ sym e;
                elsewhere = λ qs h. u.elsewhere qs h ∙ r.others qs h;
              },
            )
        | inr (new, e) ↦ (
          out.0,
          rw ((r.written new e).0),
          record { here = (r.written new e).1 ∙ sym e; elsewhere = r.others },
        )
      ]

  -- For a pattern that `CheckPattern` accepts, `UpdatePatternData` ends: the mapper is given the datum
  -- under the parts of the pattern, if there is one, what it answers is stored there, or the datum is
  -- removed, and what stands under all other parts stays.
  pub update_pattern_data-Updates :
      (pattern : String) (mapper : Mapper T) (inner : Children T)
      → check_pattern pattern ≡ ok tt
      → (inner' : Children T) × (update_pattern_data pattern mapper inner ≡ ok inner')
        × Updates (split pattern) (mapper (data_in (split pattern) inner)) inner inner'
  unfolding update_pattern_data
  update_pattern_data-Updates pattern mapper inner h =
      let (p, ps, e, _, _) = split-filled pattern in
      rw (h, e) (update_parts-Updates p ps mapper inner)

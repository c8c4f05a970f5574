-- ===== src/Publication/Tracks/Offered.antt =====
-- Which tracks `MatchTracks` returns as matched, and which as unmatched.
use mathlib.Core.List.Memᴰ
use mathlib.Core.List.Permᴰ
use conference_go.Common.{
  true-ne-false, any_iff, String, Bool, true, false, not, ◌||◌, ◌&&◌, List, [], none, str_eq,
  str_eq_iff, any, ◌≡◌, refl, ◌∙◌, ◌↔◌, ◌⊎◌, inl, inr, arith, Bool-cases, Option-cases, Memᴰ, subst,
  sym, ap, ap₂, Result, ok, panic, Decides,
}
use conference_go.Maps.{lookup, mem-lookup, lookup_mem}
use conference_go.Collection.{in_slice}
use conference_go.Collection.Search.{in_slice_iff}
use conference_go.Proto.{PublicationPattern, Track}
use conference_go.Publication.{validate, match_pattern}
use conference_go.Publication.Selection.{Selects}
use conference_go.Publication.Matching.{match_pattern-Decides}
use conference_go.Publication.Tracks.{Groups, or_nil, has_kinds, share_groups, match_tracks}
use conference_go.Publication.Tracks.Kinds.{is_kind, has_kinds_lem}
use conference_go.Publication.Tracks.Groups.{tracks_of, IsOf, IsGrouped, group_tracks-IsGrouped}
use conference_go.Publication.Tracks.Sharing.{IsIteration, mem-Perm, InGroup, share_groups_iff}

-- If tracks of the kind are required, a selected track of the publication has the kind.
abbrev pub HasKind : PublicationPattern → List Track → List String → String → String → Type 0
HasKind p tracks req_types pub_id kind =
    (¬ Memᴰ kind req_types)
    ⊎ ((x : Track) × Memᴰ x tracks × Selects p x × (x.pub_id ≡ pub_id) × (x.kind ≡ kind))

-- The track is selected, and its publication has the kinds that are required.
abbrev pub IsOffered : PublicationPattern → List Track → List String → Track → Type 0
IsOffered p tracks req_types x =
    Memᴰ x tracks
    × Selects p x
    × HasKind p tracks req_types x.pub_id "video"
    × HasKind p tracks req_types x.pub_id "audio"

module _ (p : PublicationPattern) (tracks : List Track) (req_types : List String)
    (out : Groups × List Track) (g : IsGrouped p tracks [] [] out) where
  gathered :
      (key : String) (x : Track) → Memᴰ x (tracks_of key out.0) ↔ (Memᴰ x tracks × IsOf p key x)
  unfolding lookup
  gathered key x =
      let (to, from) = g.gathered key x in
      (λ m. elim (to m) [ inl n ↦ absurd (Memᴰ.not-nil n) | inr h ↦ h ], λ h. from (inr h))

  -- One of the two tests on a group.
  kind_iff :
      (key kind : String)
      → (not (in_slice req_types kind str_eq) || any (is_kind kind) (tracks_of key out.0) ≡ true)
        ↔ HasKind p tracks req_types key kind
  kind_iff key kind =
      let required = in_slice_iff str_eq str_eq_iff req_types kind in
      let found =
        any_iff (λ (x : Track). x.kind ≡ kind) (is_kind kind) (λ x. str_eq_iff x.kind kind)
          (tracks_of key out.0) in
      elim (Bool-cases (in_slice req_types kind str_eq)) [
        | inl r ↦ rw r (
          λ e.
              let (x, m, k) = found.0 e in
              let (m', (s, q)) = (gathered key x).0 m in inr (x, m', s, q, k),
          elim [
            | inl n ↦ absurd (n (required.0 r))
            | inr (x, m, s, q, k) ↦ found.1 (x, (gathered key x).1 (m, (s, q)), k)
          ],
        )
        | inr r ↦ rw r (λ _. inl (λ m. true-ne-false (required.1 m) r), λ _. refl)
      ]

  abbrev accepts : List Track → Bool
  accepts = has_kinds (in_slice req_types "video" str_eq) (in_slice req_types "audio" str_eq)

  accepts_iff :
      (key : String)
      → (accepts (tracks_of key out.0) ≡ true)
        ↔ (HasKind p tracks req_types key "video" × HasKind p tracks req_types key "audio")
  accepts_iff key =
      let lem =
        has_kinds_lem (in_slice req_types "video" str_eq) (in_slice req_types "audio" str_eq)
          (tracks_of key out.0) in
      let (v, v') = kind_iff key "video" in
      let (a, a') = kind_iff key "audio" in
      (
        λ e. let (b, c) = both _ _ (sym lem ∙ e) in (v b, a c),
        λ (b, c). lem ∙ ap₂ (λ x y. x && y) (v' b) (a' c),
      )
    where
      both : (b c : Bool) → b && c ≡ true → (b ≡ true) × (c ≡ true)
      both b c e = ground (arith, e)

  -- The tracks of the groups that are accepted, or not accepted.
  grouped_iff :
      (iteration : Groups → Groups)
      → IsIteration iteration
      → (b : Bool) (x : Track)
      → InGroup accepts b (iteration out.0) x
        ↔ (Memᴰ x tracks × Selects p x × (accepts (tracks_of x.pub_id out.0) ≡ b))
  grouped_iff iteration iter b x = (
    λ (key, ts, m, a, d).
        let lk = mem-lookup key ts out.0 g.distinct (mem-Perm (iter out.0) m) in
        let (mt, (s, q)) = (gathered key x).0 (subst (Memᴰ x) (sym (ap or_nil lk)) d) in
        (mt, s, ap (λ k. accepts (tracks_of k out.0)) q ∙ ap accepts (ap or_nil lk) ∙ a),
    λ (mt, s, a).
        let d = (gathered x.pub_id x).1 (mt, (s, refl)) in
        elim (Option-cases (lookup x.pub_id out.0)) [
          | inl e ↦ absurd (Memᴰ.not-nil (subst (Memᴰ x) (ap or_nil e) d))
          | inr (ts, e) ↦ (
            x.pub_id,
            ts,
            mem-Perm (Permᴰ.symm (iter out.0)) (lookup_mem x.pub_id ts out.0 e),
            sym (ap accepts (ap or_nil e)) ∙ a,
            subst (Memᴰ x) (ap or_nil e) d,
          )
        ],
  )

  -- What the second loop makes of the groups.
  module _ (iteration : Groups → Groups) (iter : IsIteration iteration)
      (v : validate p ≡ none) where
    abbrev shared : List Track × List Track
    shared = share_groups accepts (iteration out.0) [] out.1

    matched_iff : (x : Track) → Memᴰ x shared.0 ↔ IsOffered p tracks req_types x
    matched_iff x =
        let (to, from) = share_groups_iff accepts true (iteration out.0) [] out.1 x in
        let (to', from') = grouped_iff iteration iter true x in
        let (kinds, kinds') = accepts_iff x.pub_id in
        (
          λ m. elim (to m) [
            | inl n ↦ absurd (Memᴰ.not-nil n)
            | inr i ↦ let (mt, s, a) = to' i in let (kv, ka) = kinds a in (mt, s, kv, ka)
          ],
          λ (mt, s, kv, ka). from (inr (from' (mt, s, kinds' (kv, ka)))),
        )

    Selects-cases : (x : Track) → Selects p x ⊎ ¬ Selects p x
    Selects-cases x = by_answer (match_pattern p x) (match_pattern-Decides p x v)
      where
        by_answer : (r : Result Bool) → Decides (Selects p x) r → Selects p x ⊎ ¬ Selects p x
        by_answer (ok true) d = inl d
        by_answer (ok false) d = inr d
        by_answer (panic f) d = absurd d

    IsOffered-cases :
        (x : Track)
        → Memᴰ x tracks
        → IsOffered p tracks req_types x ⊎ ¬ IsOffered p tracks req_types x
    IsOffered-cases x mt =
        let (kinds, kinds') = accepts_iff x.pub_id in
        elim (Selects-cases x) [
          | inr u ↦ inr (λ (_, s, _, _). u s)
          | inl s ↦ elim (Bool-cases (accepts (tracks_of x.pub_id out.0))) [
            | inl a ↦ let (kv, ka) = kinds a in inl (mt, s, kv, ka)
            | inr a ↦ inr (λ (_, _, kv, ka). true-ne-false (kinds' (kv, ka)) a)
          ]
        ]

    unmatched_iff :
        (x : Track) → Memᴰ x shared.1 ↔ (Memᴰ x tracks × ¬ IsOffered p tracks req_types x)
    unmatched_iff x =
        let (to, from) = share_groups_iff accepts false (iteration out.0) [] out.1 x in
        let (to', from') = grouped_iff iteration iter false x in
        let (kinds, kinds') = accepts_iff x.pub_id in
        let (rest, rest') = g.left x in
        (
          λ m. elim (to m) [
            | inl u ↦ elim (rest u) [
              | inl n ↦ absurd (Memᴰ.not-nil n)
              | inr (mt, n) ↦ (mt, λ (_, s, _, _). n s)
            ]
            | inr i ↦
                let (mt, s, a) = to' i in (mt, λ (_, _, kv, ka). true-ne-false (kinds' (kv, ka)) a)
          ],
          λ (mt, n). elim (Selects-cases x) [
            | inr u ↦ from (inl (rest' (inr (mt, u))))
            | inl s ↦ elim (Bool-cases (accepts (tracks_of x.pub_id out.0))) [
              | inl a ↦ let (kv, ka) = kinds a in absurd (n (mt, s, kv, ka))
              | inr a ↦ from (inr (from' (mt, s, a)))
            ]
          ],
        )

-- With a pattern that `Validate` accepts, `MatchTracks` returns. Its matched tracks are those that
-- the pattern selects in publications with selected tracks of all required kinds; its unmatched
-- tracks are the others. The order in which the map is iterated does not matter.
pub match_tracks_iff :
    (iteration : Groups → Groups) (p : PublicationPattern) (tracks : List Track)
    (req_types : List String)
    → IsIteration iteration
    → validate p ≡ none
    → (r : List Track × List Track) × (match_tracks iteration p tracks req_types ≡ ok r)
      × ((x : Track) → Memᴰ x r.0 ↔ IsOffered p tracks req_types x)
      × ((x : Track) → Memᴰ x r.1 ↔ (Memᴰ x tracks × ¬ IsOffered p tracks req_types x))
unfolding match_tracks
match_tracks_iff iteration p tracks req_types iter v =
    let (out, e, g) = group_tracks-IsGrouped p tracks [] [] v tt in
    (
      shared p tracks req_types out g iteration iter v,
      rw e refl,
      matched_iff p tracks req_types out g iteration iter v,
      unmatched_iff p tracks req_types out g iteration iter v,
    )

-- With a valid pattern it is decided whether a track is offered.
pub IsOffered-decided :
    (iteration : Groups → Groups) (p : PublicationPattern) (tracks : List Track)
    (req_types : List String) (x : Track)
    → IsIteration iteration
    → validate p ≡ none
    → Memᴰ x tracks
    → IsOffered p tracks req_types x ⊎ ¬ IsOffered p tracks req_types x
IsOffered-decided iteration p tracks req_types x iter v m =
    let (out, _, g) = group_tracks-IsGrouped p tracks [] [] v tt in
    IsOffered-cases p tracks req_types out g iteration iter v x m

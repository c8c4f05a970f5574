-- ===== src/Publication/Tracks/Groups.antt =====
-- The first loop of `MatchTracks` gathers the selected tracks of each publication.
use mathlib.Core.List.Memᴰ
use conference_go.Common.{
  String, Bool, true, false, List, [], ◌∷◌, ◌++◌, Option, none, some, str_eq, str_eq_iff,
  if◌then◌else◌, ◌≡◌, refl, ◌∙◌, ◌↔◌, ◌⊎◌, inl, inr, Bool-cases, Memᴰ, subst, sym, ap, Result, ok,
  panic, ◌>>=◌, Decides,
}
use conference_go.Maps.{lookup, lookup-insert, AreDistinct, insert-AreDistinct}
use conference_go.Proto.{PublicationPattern, Track}
use conference_go.Publication.{validate, match_pattern}
use conference_go.Publication.Selection.{Selects}
use conference_go.Publication.Matching.{match_pattern-Decides}
use conference_go.Publication.Tracks.{Groups, or_nil, add_track, group_tracks}

-- The tracks gathered for a publication.
abbrev pub tracks_of : String → Groups → List Track
tracks_of key groups = or_nil (lookup key groups)

or_nil-if :
    (b : Bool) (ts : List Track) (o : Option (List Track))
    → or_nil (if b then some ts else o) ≡ (if b then ts else or_nil o)
or_nil-if true ts o = refl
or_nil-if false ts o = refl

tracks_of-add_track :
    (key : String) (t : Track) (groups : Groups)
    → tracks_of key (add_track t groups)
      ≡ (if str_eq t.pub_id key then tracks_of t.pub_id groups ++ t ∷ [] else tracks_of key groups)
unfolding add_track
tracks_of-add_track key t groups =
    ap or_nil (lookup-insert key t.pub_id (tracks_of t.pub_id groups ++ t ∷ []) groups)
    ∙ or_nil-if (str_eq t.pub_id key) _ (lookup key groups)

mem_snoc : {A : Type 0} (x y : A) (l : List A) → Memᴰ x (l ++ y ∷ []) ↔ (Memᴰ x l ⊎ (x ≡ y))
mem_snoc x y l = (
  λ m. elim (Memᴰ.append_cases l m) [ inl h ↦ inl h | inr h ↦ inr (Memᴰ.eq_of_singleton h) ],
  elim [ inl h ↦ Memᴰ.append_left (y ∷ []) h | inr e ↦ Memᴰ.append_right l (Memᴰ.head e) ],
)

-- One more track: it is gathered for its own publication.
mem-add_track :
    (key : String) (x t : Track) (groups : Groups)
    → Memᴰ x (tracks_of key (add_track t groups))
      ↔ (Memᴰ x (tracks_of key groups) ⊎ ((x ≡ t) × (x.pub_id ≡ key)))
mem-add_track key x t groups =
    rw (tracks_of-add_track key t groups) (elim (Bool-cases (str_eq t.pub_id key)) [
      | inl e ↦
          let same = (str_eq_iff t.pub_id key).0 e in
          let m = mem_snoc x t (tracks_of t.pub_id groups) in
          rw e (
            λ h. elim (m.0 h) [
              | inl h ↦ inl (subst (λ k. Memᴰ x (tracks_of k groups)) same h)
              | inr q ↦ inr (q, ap (λ (t : Track). t.pub_id) q ∙ same)
            ],
            elim [
              | inl h ↦ m.1 (inl (subst (λ k. Memᴰ x (tracks_of k groups)) (sym same) h))
              | inr (q, _) ↦ m.1 (inr q)
            ],
          )
      | inr ne ↦ rw ne (
        inl,
        elim [
          | inl h ↦ h
          | inr (q, k) ↦ absurd (
              differ (str_eq t.pub_id key) ne
                ((str_eq_iff t.pub_id key).1 (sym (ap (λ (t : Track). t.pub_id) q) ∙ k)))
        ],
      )
    ])
  where
    differ : (b : Bool) → b ≡ false → b ≡ true → ⊥
    differ b p q = cc

-- The track is selected, and belongs to the publication.
abbrev pub IsOf : PublicationPattern → String → Track → Type 0
IsOf p key x = Selects p x × (x.pub_id ≡ key)

-- What has become of some of the tracks, from the groups and the rest before to those after.
pub record IsGrouped (p : PublicationPattern) (tracks : List Track) (groups : Groups)
    (unmatched : List Track) (out : Groups × List Track) : Type 0 where
  pub distinct : AreDistinct out.0
  pub gathered :
      (key : String) (x : Track)
      → Memᴰ x (tracks_of key out.0)
        ↔ (Memᴰ x (tracks_of key groups) ⊎ (Memᴰ x tracks × IsOf p key x))
  pub left : (x : Track) → Memᴰ x out.1 ↔ (Memᴰ x unmatched ⊎ (Memᴰ x tracks × ¬ Selects p x))

module _ (p : PublicationPattern) where
  -- The cases of a member of `t ∷ tracks` under a condition that holds of `t`, and that does not.
  mem_yes :
      {X : Type 0} (P : Track → Type 0) (x t : Track) (tracks : List Track)
      → P t
      → ((X ⊎ (x ≡ t)) ⊎ (Memᴰ x tracks × P x)) ↔ (X ⊎ (Memᴰ x (t ∷ tracks) × P x))
  mem_yes P x t tracks pt = (
    elim [
      | inl (inl h) ↦ inl h
      | inl (inr e) ↦ inr (Memᴰ.head e, subst P (sym e) pt)
      | inr (m, q) ↦ inr (Memᴰ.tail m, q)
    ],
    elim [
      | inl h ↦ inl (inl h)
      | inr (m, q) ↦ elim (Memᴰ.cases_cons m) [ inl e ↦ inl (inr e) | inr m ↦ inr (m, q) ]
    ],
  )

  mem_no :
      {X : Type 0} (P : Track → Type 0) (x t : Track) (tracks : List Track)
      → ¬ P t
      → (X ⊎ (Memᴰ x tracks × P x)) ↔ (X ⊎ (Memᴰ x (t ∷ tracks) × P x))
  mem_no P x t tracks np = (
    elim [ inl h ↦ inl h | inr (m, q) ↦ inr (Memᴰ.tail m, q) ],
    elim [
      | inl h ↦ inl h
      | inr (m, q) ↦ elim (Memᴰ.cases_cons m) [
        | inl e ↦ absurd (np (subst P e q))
        | inr m ↦ inr (m, q)
      ]
    ],
  )

  -- A track that is selected goes to its group, any other to the rest.
  IsGrouped-yes :
      (t : Track) (tracks : List Track) (groups : Groups) (unmatched : List Track)
      (out : Groups × List Track)
      → Selects p t
      → IsGrouped p tracks (add_track t groups) unmatched out
      → IsGrouped p (t ∷ tracks) groups unmatched out
  IsGrouped-yes t tracks groups unmatched out s g = record {
    distinct = g.distinct;
    gathered = λ key x.
        let (to, from) = g.gathered key x in
        let (to', from') = mem-add_track key x t groups in
        (
          λ m. elim (to m) [
            | inl h ↦ elim (to' h) [
              | inl h ↦ inl h
              | inr (e, k) ↦ inr (Memᴰ.head e, (subst (Selects p) (sym e) s, k))
            ]
            | inr (m, q) ↦ inr (Memᴰ.tail m, q)
          ],
          elim [
            | inl h ↦ from (inl (from' (inl h)))
            | inr (m, (q, k)) ↦ elim (Memᴰ.cases_cons m) [
              | inl e ↦ from (inl (from' (inr (e, k))))
              | inr m ↦ from (inr (m, (q, k)))
            ]
          ],
        );
    left = λ x.
        let (to, from) = g.left x in
        let (to', from') = mem_no (λ x. ¬ Selects p x) x t tracks (λ n. n s) in
        (λ m. to' (to m), λ m. from (from' m));
  }

  IsGrouped-no :
      (t : Track) (tracks : List Track) (groups : Groups) (unmatched : List Track)
      (out : Groups × List Track)
      → ¬ Selects p t
      → IsGrouped p tracks groups (unmatched ++ t ∷ []) out
      → IsGrouped p (t ∷ tracks) groups unmatched out
  IsGrouped-no t tracks groups unmatched out n g = record {
    distinct = g.distinct;
    gathered = λ key x.
        let (to, from) = g.gathered key x in
        let (to', from') = mem_no (IsOf p key) x t tracks (λ q. n q.0) in
        (λ m. to' (to m), λ m. from (from' m));
    left = λ x.
        let (to, from) = g.left x in
        let (to', from') = mem_yes (λ x. ¬ Selects p x) x t tracks n in
        let (snoc, un_snoc) = mem_snoc x t unmatched in
        (
          λ m. to' (elim (to m) [ inl h ↦ inl (snoc h) | inr h ↦ inr h ]),
          λ m. from (elim (from' m) [ inl h ↦ inl (un_snoc h) | inr h ↦ inr h ]),
        );
  }

  abbrev Grouping : List Track → Groups → List Track → Result (Groups × List Track) → Type 0
  Grouping tracks groups unmatched r =
      (out : Groups × List Track) × (r ≡ ok out) × IsGrouped p tracks groups unmatched out

  -- One round of the loop, by the answer of `Match`.
  group_round :
      (t : Track) (tracks : List Track) (groups : Groups) (unmatched : List Track) (r : Result Bool)
      (chosen other : Result (Groups × List Track))
      → Decides (Selects p t) r
      → Grouping tracks (add_track t groups) unmatched chosen
      → Grouping tracks groups (unmatched ++ t ∷ []) other
      → Grouping (t ∷ tracks) groups unmatched (r >>= λ b. if b then chosen else other)
  group_round t tracks groups unmatched (ok true) chosen other s (out, e, g) h =
      (out, e, IsGrouped-yes t tracks groups unmatched out s g)
  group_round t tracks groups unmatched (ok false) chosen other n h (out, e, g) =
      (out, e, IsGrouped-no t tracks groups unmatched out n g)
  group_round t tracks groups unmatched (panic f) chosen other d g h = absurd d

  pub group_tracks-IsGrouped :
      (tracks : List Track) (groups : Groups) (unmatched : List Track)
      → validate p ≡ none
      → AreDistinct groups
      → Grouping tracks groups unmatched (group_tracks p tracks groups unmatched)
  unfolding group_tracks add_track
  group_tracks-IsGrouped [] groups unmatched v h = (
    (groups, unmatched),
    refl,
    record {
      distinct = h;
      gathered = λ key x. (inl, elim [ inl m ↦ m | inr (m, _) ↦ absurd (Memᴰ.not-nil m) ]);
      left = λ x. (inl, elim [ inl m ↦ m | inr (m, _) ↦ absurd (Memᴰ.not-nil m) ]);
    },
  )
  group_tracks-IsGrouped (t ∷ tracks) groups unmatched v h =
      group_round t tracks groups unmatched (match_pattern p t) _ _ (match_pattern-Decides p t v)
        (group_tracks-IsGrouped tracks (add_track t groups) unmatched v
          (insert-AreDistinct t.pub_id _ groups h))
        (group_tracks-IsGrouped tracks groups (unmatched ++ t ∷ []) v h)

-- ===== src/Room/Syntax.antt =====
-- Which texts are accepted as patterns and as room names, and what `MatchRoom` answers on them.
use conference_go.Common.{
  String, Char, Bool, true, false, not, ◌&&◌, ◌||◌, List, [], ◌∷◌, ◌≡◌, refl, ◌↔◌, arith, str_eq,
  str_eq_iff, str_cases, Bool-cases, all, any, inl, inr, ok, Decides, ap, sym, subst,
}
use conference_go.Room.{
  is_dot, split, ends_with_dot, has_two_dots, has_star, check_pattern, check_room, match_parts,
  match_room,
}
use conference_go.Room.Matches.{Matches, Matches_refl, Matches-double_star}
use conference_go.Room.Decision.{match_parts-Decides}

-- A part of a pattern: not empty.
abbrev pub is_filled : String → Bool
is_filled String.[] = false
is_filled (String.◌∷◌ c s) = true

-- A part of a room name: not empty and without a star.
abbrev pub is_room_part : String → Bool
is_room_part w = is_filled w && not (has_star w)

abbrev pub starts_part : String → Bool
starts_part String.[] = false
starts_part (String.◌∷◌ c s) = not (is_dot c)

module _ (c : Char) (s : String) {w : String} {ws : List String} (e : split s ≡ w ∷ ws) where
  split-dot : is_dot c ≡ true → split (String.◌∷◌ c s) ≡ "" ∷ w ∷ ws
  unfolding split
  split-dot h = rw (h, e)

  split-letter : is_dot c ≡ false → split (String.◌∷◌ c s) ≡ String.◌∷◌ c w ∷ ws
  unfolding split
  split-letter h = rw (h, e)

pub split-filled :
    (s : String)
    → (w : String) × (ws : List String) × (split s ≡ w ∷ ws)
      × (is_filled w ≡ starts_part s)
      × (all is_filled ws ≡ not (has_two_dots s || ends_with_dot s))
unfolding split
split-filled String.[] = ("", [], refl, refl, refl)
split-filled (String.◌∷◌ c String.[]) = elim (Bool-cases (is_dot c)) [
  | inl h ↦ ("", "" ∷ [], split-dot c "" refl h, ground arith, ground arith)
  | inr h ↦ (String.◌∷◌ c "", [], split-letter c "" refl h, ground arith, ground arith)
]
split-filled (String.◌∷◌ c (String.◌∷◌ d s)) =
    let (w, ws, e, f, g) = split-filled (String.◌∷◌ d s) in
    elim (Bool-cases (is_dot c)) [
      | inl h ↦ ("", w ∷ ws, split-dot c (String.◌∷◌ d s) e h, ground arith, ground arith)
      | inr h ↦
          (String.◌∷◌ c w, ws, split-letter c (String.◌∷◌ d s) e h, ground arith, ground arith)
    ]

-- The star of a text stands in one of its parts.
split-has_star : (s : String) → any has_star (split s) ≡ has_star s
unfolding split
split-has_star String.[] = refl
split-has_star (String.◌∷◌ c s) =
    let (w, ws, e, _, _) = split-filled s in
    let ih = split-has_star s in
    elim (Bool-cases (is_dot c)) [
      | inl h ↦ rw (split-dot c s e h) (ground arith)
      | inr h ↦ rw (split-letter c s e h) (ground arith)
    ]

cons-ne : (c : Char) (s : String) → str_eq (String.◌∷◌ c s) "" ≡ false
cons-ne c s = elim (str_cases (String.◌∷◌ c s) "") [ inl e ↦ cc | inr h ↦ h ]

-- `CheckPattern` accepts exactly the texts whose parts between the dots are all non-empty.
pub check_pattern_iff :
    (pattern : String) → (check_pattern pattern ≡ ok tt) ↔ (all is_filled (split pattern) ≡ true)
unfolding check_pattern split
check_pattern_iff String.[] = ground arith
check_pattern_iff (String.◌∷◌ c s) =
    let (w, ws, e, f, g) = split-filled (String.◌∷◌ c s) in
    rw (cons-ne c s) (ground (arith, ap (all is_filled) e))

all-is_room_part :
    (ws : List String) → all is_room_part ws ≡ all is_filled ws && not (any has_star ws)
all-is_room_part [] = refl
all-is_room_part (w ∷ ws) = ground (arith, all-is_room_part ws)

-- `CheckRoom` accepts exactly the texts whose parts between the dots are all non-empty and free of
-- stars.
pub check_room_iff :
    (room : String) → (check_room room ≡ ok tt) ↔ (all is_room_part (split room) ≡ true)
unfolding check_room split
check_room_iff String.[] = ground arith
check_room_iff (String.◌∷◌ c s) =
    let (w, ws, e, f, g) = split-filled (String.◌∷◌ c s) in
    let parts = all-is_room_part (split (String.◌∷◌ c s)) in
    rw (cons-ne c s) (ground (arith, ap (all is_filled) e, parts, split-has_star (String.◌∷◌ c s)))

split-double_star : split "**" ≡ "**" ∷ []
unfolding split
split-double_star = refl

whole :
    (pattern room : String)
    → (str_eq pattern room || str_eq pattern "**") ≡ true
    → Matches (split pattern) (split room)
whole pattern room h = elim (str_cases pattern room) [
  | inl e ↦ subst (λ (x : String). Matches (split pattern) (split x)) e (Matches_refl _)
  | inr ne ↦
      let e = (str_eq_iff pattern "**").0 (ground arith) in
      subst (λ (x : String). Matches (split x) (split room)) (sym e)
        (rw split-double_star (Matches-double_star (split room)))
]

split-Decides :
    (pattern room : String)
    → Decides (Matches (split pattern) (split room)) (match_parts (split pattern) (split room))
split-Decides pattern room =
    let (p, ps, e, _, _) = split-filled pattern in
    let (r, rs, e', _, _) = split-filled room in rw (e, e') (match_parts-Decides p r ps rs)

-- On an accepted pattern and an accepted room name `MatchRoom` returns, and answers true exactly when
-- the parts of the room match the parts of the pattern.
pub match_room-Decides :
    (pattern room : String)
    → check_pattern pattern ≡ ok tt
    → check_room room ≡ ok tt
    → Decides (Matches (split pattern) (split room)) (match_room pattern room)
unfolding match_room
match_room-Decides pattern room hp hr =
    rw (hp, hr)
      (elim (Bool-cases (str_eq pattern room || str_eq pattern "**")) [
        | inl h ↦ rw h (whole pattern room h)
        | inr h ↦ rw h (split-Decides pattern room)
      ])

-- An accepted room name is not empty.
pub check_room-filled : (room : String) → check_room room ≡ ok tt → str_eq room "" ≡ false
unfolding check_room
check_room-filled String.[] h = ground arith
check_room-filled (String.◌∷◌ c s) h = cons-ne c s

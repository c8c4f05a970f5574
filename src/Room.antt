-- ===== src/Room.antt =====
-- signal/utils.go: dotted room names and the patterns that select them.
pub mod Matches
pub mod Decision
pub mod Syntax
use conference_go.Common.{
  ℕ, zero, suc, String, Char, code, Bool, true, false, ◌&&◌, ◌||◌, List, [], ◌∷◌, ◌==◌, str_eq,
  if◌then◌else◌, length, all, Result, ok, panic, required, invalid, index, fuel, ◌>>=◌, ◌>>◌,
}

abbrev pub is_dot : Char → Bool
is_dot c = code c == b'.'

abbrev pub prepend : Char → List String → List String
prepend c [] = String.◌∷◌ c "" ∷ []
prepend c (w ∷ ws) = String.◌∷◌ c w ∷ ws

-- `strings.Split(s, ".")`
unfoldable pub split : String → List String
split String.[] = "" ∷ []
split (String.◌∷◌ c s) = let ws = split s in if is_dot c then "" ∷ ws else prepend c ws

-- `strings.HasPrefix(s, ".")`
abbrev pub starts_with_dot : String → Bool
starts_with_dot String.[] = false
starts_with_dot (String.◌∷◌ c s) = is_dot c

-- `strings.HasSuffix(s, ".")`
abbrev pub ends_with_dot : String → Bool
ends_with_dot String.[] = false
ends_with_dot (String.◌∷◌ c String.[]) = is_dot c
ends_with_dot (String.◌∷◌ c (String.◌∷◌ d s)) = ends_with_dot (String.◌∷◌ d s)

-- `strings.Contains(s, "..")`
abbrev pub has_two_dots : String → Bool
has_two_dots String.[] = false
has_two_dots (String.◌∷◌ c s) = (is_dot c && starts_with_dot s) || has_two_dots s

-- `strings.Contains(s, "*")`
abbrev pub has_star : String → Bool
has_star String.[] = false
has_star (String.◌∷◌ c s) = (code c == b'*') || has_star s

unfoldable pub check_pattern : String → Result (Unit {0})
check_pattern pattern =
    if str_eq pattern ""
    then panic required
    else if has_two_dots pattern || starts_with_dot pattern || ends_with_dot pattern
    then panic invalid
    else ok tt

unfoldable pub check_room : String → Result (Unit {0})
check_room room =
    if str_eq room ""
    then panic required
    else if has_star room || has_two_dots room || starts_with_dot room || ends_with_dot room
    then panic invalid
    else ok tt

abbrev pub is_double_star : String → Bool
is_double_star p = str_eq p "**"

-- the first inner loop: past the run of `**`
unfoldable pub skip_double_stars : List String → List String
skip_double_stars [] = []
skip_double_stars (p ∷ ps) =
    let rest = skip_double_stars ps in if is_double_star p then rest else p ∷ ps

abbrev pub Matcher : Type 0
Matcher = List String → List String → Result Bool

-- the second inner loop: the rest of the pattern at each later part of the room
unfoldable pub match_later : Matcher → List String → List String → Result Bool
match_later m ps [] = ok false
match_later m ps (r ∷ rs) =
    let later = match_later m ps rs in m ps (r ∷ rs) >>= λ b. if b then ok true else later

-- the end of a round, after both indices have moved
unfoldable pub next_round : Matcher → List String → List String → Result Bool
next_round m [] [] = ok true
next_round m [] (r ∷ rs) = ok false
next_round m (p ∷ ps) [] = ok (all is_double_star (p ∷ ps))
next_round m (p ∷ ps) (r ∷ rs) = m (p ∷ ps) (r ∷ rs)

unfoldable pub after_double_star : Matcher → List String → List String → Result Bool
after_double_star m [] rs = ok true
after_double_star m (p ∷ ps) rs = match_later m (p ∷ ps) rs

-- One unit of fuel for each part of the pattern that is read.
unfoldable pub match_round : ℕ → Matcher
match_round zero ps rs = panic fuel
match_round (suc f) [] rs = panic index
match_round (suc f) (p ∷ ps) [] = panic index
match_round (suc f) (p ∷ ps) (r ∷ rs) =
    if is_double_star p
    then after_double_star (match_round f) (skip_double_stars ps) (r ∷ rs)
    else if str_eq p "*" || str_eq p r
    then next_round (match_round f) ps rs
    else ok false

-- `matchRoom`, on the parts
unfoldable pub match_parts : List String → List String → Result Bool
unfolding match_round next_round after_double_star match_later skip_double_stars
match_parts ps rs = match_round (length ps) ps rs

-- `MatchRoom`
unfoldable pub match_room : String → String → Result Bool
unfolding match_parts split check_pattern check_room
match_room pattern room = do
  check_pattern pattern
  check_room room
  if str_eq pattern room || str_eq pattern "**"
      then ok true
      else match_parts (split pattern) (split room)

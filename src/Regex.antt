-- ===== src/Regex.antt =====
-- The part of Python's `re` that the scripts use: sequences of single characters and of greedy
-- runs, with groups, matched with backtracking. Texts are taken to be ASCII where `\d` is matched.
pub mod Search
use user_basic.Base.{
  ℕ, zero, suc, Bool, true, false, not, ◌&&◌, ◌||◌, Option, none, some, List, [], ◌∷◌, ◌++◌, map,
  String, Line, codes, length, leb, ◌==◌, if◌then◌else◌,
}

-- A character class: `c`, `\d`, `.` and `[a-zA-Z0-9]`.
pub data Class : Type 0 where
  chr : ℕ → Class
  digit any alnum : Class

-- What a run `x+` keeps: nothing, `(x+)` the run, and `(x)+` its last character.
pub data Capture : Type 0 where
  drop whole final : Capture

pub data Piece : Type 0 where
  one : Class → Piece
  many : Capture → Class → Piece

abbrev pub Regex : Type 0
Regex = List Piece

unfoldable pub is_digit : ℕ → Bool
is_digit c = leb b'0' c && leb c b'9'

unfoldable pub fits : Class → ℕ → Bool
unfolding is_digit
fits (chr a) c = a == c
fits digit c = is_digit c
fits any c = not (c == b'\n')
fits alnum c = is_digit c || leb b'a' c && leb c b'z' || leb b'A' c && leb c b'Z'

-- The groups of a match and the text behind it.
abbrev pub Match : Type 0
Match = List Line × Line

abbrev pub last_char : Line → Line
last_char [] = []
last_char (c ∷ []) = c ∷ []
last_char (c ∷ d ∷ cs) = last_char (d ∷ cs)

unfoldable pub keep : Capture → Line → List Line → List Line
keep drop run gs = gs
keep whole run gs = run ∷ gs
keep final run gs = last_char run ∷ gs

unfoldable pub keep_match : Capture → Line → Option Match → Option Match
unfolding keep
keep_match c run none = none
keep_match c run (some (gs, rest)) = some (keep c run gs, rest)

abbrev pub or_else : Option Match → Option Match → Option Match
or_else (some m) other = some m
or_else none other = other

-- A greedy run: the longest one first, and a shorter one where the rest of the pattern fails.
unfoldable pub greedy : (Line → Option Match) → Capture → Class → Line → Line → Option Match
greedy k cap c run [] = none
greedy k cap c run (x ∷ s) =
    let longer = greedy k cap c (run ++ x ∷ []) s in
    if fits c x then or_else longer (keep_match cap (run ++ x ∷ []) (k s)) else none

unfoldable pub step_one : (Line → Option Match) → Class → Line → Option Match
step_one k c [] = none
step_one k c (x ∷ s) = if fits c x then k s else none

-- `pattern.match(s)`
unfoldable pub match_at : Regex → Line → Option Match
unfolding greedy step_one keep_match fits
match_at [] s = some ([], s)
match_at (one c ∷ ps) s = step_one (match_at ps) c s
match_at (many cap c ∷ ps) s = greedy (match_at ps) cap c [] s

abbrev is_some : Option Match → Bool
is_some none = false
is_some (some m) = true

-- `re.search(pattern, s) is not None`
unfoldable pub search_in : Regex → Line → Bool
unfolding match_at
search_in p [] = is_some (match_at p [])
search_in p (x ∷ s) = is_some (match_at p (x ∷ s)) || search_in p s

-- `re.findall`: the groups of each match, left to right. A match is not empty, since the patterns
-- are not, so each round takes at least one character, and the text's length is enough fuel.
unfoldable pub find_from : ℕ → Regex → Line → List (List Line)
unfolding match_at
find_from zero p s = []
find_from (suc n) p [] = []
find_from (suc n) p (x ∷ s) = elim (match_at p (x ∷ s)) [
  | some (gs, rest) ↦ gs ∷ find_from n p rest
  | none ↦ find_from n p s
]

unfoldable pub find_all : Regex → Line → List (List Line)
unfolding find_from
find_all p s = find_from (length s) p s

-- Notation for patterns: `lit "ab"` is `ab`, and `\d+`, `(\d+)`, `(\d)+`, `(.+)`.
abbrev pub lit : String → Regex
lit s = map (λ c. one (chr c)) (codes s)

abbrev pub digits : Regex
digits = many drop digit ∷ []

abbrev pub group_digits : Regex
group_digits = many whole digit ∷ []

abbrev pub final_digit : Regex
final_digit = many final digit ∷ []

abbrev pub group_any : Regex
group_any = many whole any ∷ []

abbrev pub any_char : Regex
any_char = one any ∷ []

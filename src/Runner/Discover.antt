-- ===== src/Runner/Discover.antt =====
-- test_runner.py: the tests are found by the names of the files.
use mathlib.Core.List.{append_assoc}
use user_basic.Base.{
  ℕ, zero, suc, true, Option, none, some, List, [], ◌∷◌, ◌++◌, map, Line, codes, length, ◌≢◌, ◌≡◌,
  refl, ◌∙◌, ap, arith, All, all_list,
}
use user_basic.TestBase.{TestBase, Report}
use user_basic.Regex.{
  Regex, Match, any, whole, many, lit, match_at, greedy, or_else, keep_match, keep, step_one, fits,
  find_from, find_all,
}
use user_basic.Runner.{grade}

-- `(.+)_test\.py`
abbrev pub test_file_pattern : Regex
test_file_pattern = many whole any ∷ lit "_test.py"

-- `t[0]` of what `findall` gives, and no name where it gives nothing.
abbrev first_group : List (List Line) → Option Line
first_group [] = none
first_group ([] ∷ ms) = none
first_group ((g ∷ gs) ∷ ms) = some g

cons_found : Option Line → List Line → List Line
cons_found none names = names
cons_found (some name) names = name ∷ names

-- The names of the tests, in the order of the listing.
unfoldable pub test_names : List Line → List Line
unfolding cons_found
test_names [] = []
test_names (file ∷ files) =
    cons_found (first_group (find_all test_file_pattern file)) (test_names files)

-- `getattr(importlib.import_module(f"{t}_test"), t + "_test")()`, where `load` is the import.
unfoldable pub found_tests : (Line → TestBase) → List Line → List TestBase
found_tests load files = map load (test_names files)

-- The script on a directory and a log.
unfoldable pub runner : (Line → TestBase) → List Line → Line → Option (List Report)
unfolding found_tests
runner load files serial_out = grade (found_tests load files) serial_out

abbrev behind : Line → Option Match
behind = match_at (lit "_test.py")

abbrev ending : Line
ending = codes "_test.py"

no_longer : (run : Line) → greedy behind whole any run ending ≡ none
unfolding greedy match_at step_one keep_match fits
no_longer run = refl

abbrev IsOneLine : Line → Type 0
IsOneLine name = all_list (fits any) name ≡ true

greedy-any :
    (run s : Line) (x : ℕ)
    → fits any x ≡ true
    → greedy behind whole any run (x ∷ s)
      ≡ or_else
          (greedy behind whole any (run ++ x ∷ []) s)
          (keep_match whole (run ++ x ∷ []) (behind s))
unfolding greedy
greedy-any run s x h = rw h refl

behind-ending : behind ending ≡ some ([], [])
unfolding match_at step_one fits
behind-ending = refl

keep-run : (run : Line) → keep_match whole run (some ([], [])) ≡ some (run ∷ [], [])
unfolding keep_match keep
keep-run run = refl

-- The group is the name, since no longer run leaves enough for the rest of the pattern.
greedy-name :
    (run name : Line) (x : ℕ)
    → IsOneLine (x ∷ name)
    → greedy behind whole any run (x ∷ (name ++ ending)) ≡ some ((run ++ x ∷ name) ∷ [], [])
greedy-name run [] x h =
    greedy-any run ending x (ground arith)
    ∙ rw (no_longer (run ++ x ∷ []), behind-ending, keep-run (run ++ x ∷ [])) refl
greedy-name run (y ∷ name) x h =
    greedy-any run (y ∷ (name ++ ending)) x (ground arith)
    ∙ rw (greedy-name (run ++ x ∷ []) name y (ground arith), append_assoc run (x ∷ []) (y ∷ name))
        refl

-- The file of a test.
abbrev pub test_file : Line → Line
test_file name = name ++ ending

match_at-test_file :
    (name : Line) (x : ℕ)
    → IsOneLine (x ∷ name)
    → match_at test_file_pattern (x ∷ (name ++ ending)) ≡ some ((x ∷ name) ∷ [], [])
unfolding match_at
match_at-test_file name x h = greedy-name [] name x h

find_from-end : (n : ℕ) → find_from n test_file_pattern [] ≡ []
unfolding find_from
find_from-end zero = refl
find_from-end (suc n) = refl

find_from-match :
    (n : ℕ) (p : Regex) (x : ℕ) (s : Line) (gs : List Line) (rest : Line)
    → match_at p (x ∷ s) ≡ some (gs, rest)
    → find_from (suc n) p (x ∷ s) ≡ gs ∷ find_from n p rest
unfolding find_from
find_from-match n p x s gs rest e = ground (arith, e)

find_all-test_file :
    (name : Line)
    → name ≢ []
    → IsOneLine name
    → find_all test_file_pattern (test_file name) ≡ (name ∷ []) ∷ []
unfolding find_all
find_all-test_file [] ne h = absurd (ne refl)
find_all-test_file (x ∷ name) ne h =
    find_from-match (length (name ++ ending)) test_file_pattern x (name ++ ending) ((x ∷ name) ∷ [])
      [] (match_at-test_file name x h)
    ∙ ap (◌∷◌ ((x ∷ name) ∷ [])) (find_from-end (length (name ++ ending)))

-- What stands in the directory: the file of a test, or a file that the pattern is not found in.
pub data File : Type 0 where
  of_test other : Line → File

abbrev pub file_name : File → Line
file_name (of_test name) = test_file name
file_name (other file) = file

abbrev pub IsFile : File → Type 0
IsFile (of_test name) = (name ≢ []) × IsOneLine name
IsFile (other file) = find_all test_file_pattern file ≡ []

abbrev pub names_of : List File → List Line
names_of [] = []
names_of (of_test name ∷ files) = name ∷ names_of files
names_of (other file ∷ files) = names_of files

test_names_lem :
    (files : List File) → All IsFile files → test_names (map file_name files) ≡ names_of files
unfolding test_names
test_names_lem [] h = refl
test_names_lem (of_test name ∷ files) ((ne, one), hs) =
    rw (find_all-test_file name ne one, test_names_lem files hs) refl
test_names_lem (other file ∷ files) (h, hs) = rw (h, test_names_lem files hs) refl

-- In a directory of test files, whose names are not empty and hold no line break, and of files in
-- whose names the pattern is not found, the script grades one object for each test file, in the
-- order of the listing, loaded by the text before `_test.py`, whatever that text holds.
pub runner-test_names :
    (load : Line → TestBase) (files : List File) (serial_out : Line)
    → All IsFile files
    → runner load (map file_name files) serial_out ≡ grade (map load (names_of files)) serial_out
unfolding runner found_tests
runner-test_names load files serial_out h =
    ap (λ names. grade (map load names) serial_out) (test_names_lem files h)

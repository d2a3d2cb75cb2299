-- ===== src/Examples/Grading.antt =====
-- test_runner.py, test_base.py and the test scripts on small logs.
use mathlib.Core.Option
use mathlib.Core.List.{flatten}
use user_basic.Base.{
  if◌then◌else◌, ◌++◌, ◌≤◌, some, List, [], ◌∷◌, map, Line, codes, contains, split, line_eq,
  replace, ◌≡◌, ◌↔◌, refl, All, length,
}
use user_basic.Base.Text.{strip_prefix, replace_from}
use user_basic.TestBase.{
  TestBase, Report, start, get_result, init, assert_ge, assert_util, assert_equal, index, value_eq,
  pure, raise,
}
use user_basic.TestBase.{ok, assert_in_str}
use user_basic.Regex.{lit, digits, find_all}
use user_basic.TestBase.InStr.{SomeLine, assert_in_str_iff}
use user_basic.TestBase.Checks.{AllTrue}
use user_basic.Cases.Registry.{write_test, exit_test, yield_test, tests}
use user_basic.Cases.Expects.{score}
use user_basic.Cases.Files.{write_run}
use user_basic.Cases.Process.{exit_run}
use user_basic.Cases.Yield.{count, yield-score_iff}
use user_basic.Runner.{start_named, inside, initial, run, step, step_in, open_block, grade, name_of}
use user_basic.Runner.Blocks.{
  Part, noise, block, IsPart, lines_of, start_all, non_blank, run-seeking, run-unterminated,
}
use user_basic.Runner.Grade.{text_of, OneLine, grade-text_of, AllReports}
use user_basic.Runner.Last.{Distinct, Known, graded, grade-last_log}
use user_basic.Runner.Discover.{File, of_test, other, file_name, IsFile, runner, runner-test_names}
use user_basic.Runner.Names.{IsName, start_line, name_of-start_line}
use user_basic.Runner.Suite.{suite-AllReports, tests-full_score}

abbrev suite : List TestBase
suite = write_test ∷ exit_test ∷ []

abbrev write_block : Part
write_block =
    block (codes "========== START test_write ==========")
      (codes "Hello operating system contest." ∷ []) (codes "========== END test_write ==========")

abbrev parts : List Part
parts = noise (codes "booting") ∷ write_block ∷ []

abbrev lines : List Line
lines = lines_of parts

parts-IsPart : All IsPart parts
unfolding contains strip_prefix
parts-IsPart = (refl, ((refl, (refl, tt), refl), tt))

lines-OneLine : All OneLine lines
lines-OneLine = (refl, (refl, (refl, (refl, tt))))

-- The test of `write` gets both its points, that of `exit` has not run.
grade_scores :
    Option.map (map (λ (r : Report). r.passed)) (grade suite (text_of lines)) ≡ some (2 ∷ 0 ∷ [])
unfolding grade split line_eq contains start_named exit_test exit_run init name_of replace
    replace_from strip_prefix write_test get_result start write_run assert_ge assert_equal
    assert_util index open_block run step step_in pure raise value_eq
grade_scores = refl

grade-text_of_example :
    grade suite (text_of (lines_of parts)) ≡ Option.map (map get_result) (start_all parts suite)
grade-text_of_example = grade-text_of suite parts parts-IsPart lines-OneLine

suite-AllReports_example : AllReports (grade tests (text_of lines))
suite-AllReports_example = suite-AllReports (text_of lines)

abbrev unfinished : List Line
unfinished = codes "========== START test_write ==========" ∷ codes "Hello" ∷ []

run-unterminated_example :
    run (initial suite) unfinished
    ≡ some (record {
      test_name = some (name_of (codes "========== START test_write =========="));
      state = inside;
      log = non_blank (codes "Hello" ∷ []);
      tests = suite;
    })
unfolding contains strip_prefix
run-unterminated_example =
    run-unterminated (initial suite) (codes "========== START test_write ==========")
      (codes "Hello" ∷ []) refl refl refl (refl, tt)

run-seeking_example : (initial suite).log ≡ []
unfolding run step step_in contains strip_prefix line_eq
run-seeking_example = run-seeking suite (codes "booting" ∷ []) refl refl

write-IsName : IsName (codes "test_write")
write-IsName = record { no_equals = refl; no_blank = refl; no_capital = refl }

name_of-start_line_example : name_of (start_line (codes "test_write")) ≡ codes "test_write"
name_of-start_line_example = name_of-start_line (codes "test_write") write-IsName

abbrev yield_log : List Line
yield_log =
    codes "0"
    ∷ codes "1"
    ∷ codes "2"
    ∷ codes "0"
    ∷ codes "1"
    ∷ codes "2"
    ∷ codes "0"
    ∷ codes "1"
    ∷ codes "2"
    ∷ codes ""
    ∷ codes ""
    ∷ codes ""
    ∷ codes ""
    ∷ codes ""
    ∷ codes ""
    ∷ []

yield-score_iff_example : (score yield_test yield_log ≡ 4) ↔ (
    (length yield_log ≡ 15)
    × (3 ≤ count b'0' (flatten yield_log))
    × (3 ≤ count b'1' (flatten yield_log))
    × (3 ≤ count b'2' (flatten yield_log)))
yield-score_iff_example = yield-score_iff yield_log

tests-full_score_example :
    All
      (λ (t : TestBase).
        ((get_result (start (codes "brk ok" ∷ []) t)).passed
          ≡ (get_result (start (codes "brk ok" ∷ []) t)).all)
        ↔ (AllTrue (get_result (start (codes "brk ok" ∷ []) t)).results
            × (length (get_result (start (codes "brk ok" ∷ []) t)).results
                ≡ (get_result (start (codes "brk ok" ∷ []) t)).all)))
      tests
tests-full_score_example = tests-full_score (codes "brk ok" ∷ [])

assert_in_str_iff_example :
    ((assert_in_str (lit "pid: " ++ digits) (codes "cpid: 42" ∷ []) []).1 ≡ ok tt)
    ↔ SomeLine (lit "pid: " ++ digits) (codes "cpid: 42" ∷ [])
assert_in_str_iff_example = assert_in_str_iff (lit "pid: " ++ digits) (codes "cpid: 42" ∷ []) []

suite-Distinct : Distinct suite
unfolding write_test exit_test init line_eq
suite-Distinct = ((refl, tt), (tt, tt))

parts-Known : All (Known suite) parts
unfolding write_test exit_test init line_eq name_of replace replace_from strip_prefix
parts-Known = (tt, (refl, tt))

grade-last_log_example :
    grade suite (text_of lines) ≡ some (map (λ t. get_result (graded parts t)) suite)
grade-last_log_example =
    grade-last_log suite parts suite-Distinct parts-Known parts-IsPart lines-OneLine

abbrev directory : List File
directory = other (codes "test_runner.py") ∷ of_test (codes "write") ∷ of_test (codes "exit") ∷ []

directory-IsFile : All IsFile directory
unfolding find_all
directory-IsFile = (refl, ((λ e. cc, refl), ((λ e. cc, refl), tt)))

-- The import of a script.
abbrev load : Line → TestBase
load name = if line_eq name (codes "write") then write_test else exit_test

runner-test_names_example :
    runner load (map file_name directory) (text_of lines) ≡ grade suite (text_of lines)
unfolding line_eq
runner-test_names_example = runner-test_names load directory (text_of lines) directory-IsFile

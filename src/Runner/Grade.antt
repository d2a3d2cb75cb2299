-- ===== src/Runner/Grade.antt =====
-- test_runner.py: the reports that the script prints.
use mathlib.Core.Option
use mathlib.Core.List.{append_assoc}
use mathlib.Core.Path.{fun_ext}
use user_basic.Base.{
  Bool, true, false, not, Option, none, some, List, [], ◌∷◌, ◌++◌, map, Line, line_eq, contains,
  split, split-append, if◌then◌else◌, ◌≡◌, refl, ◌∙◌, ap, sym, arith, All, All-append, all_list,
  ◌==◌, Option-cases, inl, inr,
}
use user_basic.TestBase.{TestBase, Report, start, get_result}
use user_basic.TestBase.Checks.{Checks}
use user_basic.TestBase.Verdicts.{IsSoundReport, start-IsSoundReport}
use user_basic.Runner.{
  Mode, seeking, inside, Loop, step_in, step, run, start_named, name_of, initial, open_block,
  start_current, opened, grade,
}
use user_basic.Runner.Blocks.{
  Part, noise, block, IsPart, lines_of, start_all, non_blank, run-lines_of, run-cons, run-crash,
}

-- A test that is bounded by its count on every log, and whose present report is sound.
pub record IsSoundTest (t : TestBase) : Type 0 where
  pub checks : (log : List Line) → Checks Unit t.count (t.test log)
  pub report : IsSoundReport (get_result t)

start-IsSoundTest : (log : List Line) (t : TestBase) → IsSoundTest t → IsSoundTest (start log t)
start-IsSoundTest log t h = record {
  checks = unfold start in h.checks;
  report = start-IsSoundReport log t (h.checks log);
}

abbrev AllSound : Option (List TestBase) → Type 0
AllSound none = Unit
AllSound (some ts) = All IsSoundTest ts

start_named-AllSound :
    (name : Line) (log : List Line) (ts : List TestBase)
    → All IsSoundTest ts
    → AllSound (start_named name log ts)
unfolding start_named
start_named-AllSound name log [] h = tt
start_named-AllSound name log (t ∷ ts) (h, hs) =
    go (start_named name log ts) (line_eq t.name name) (start_named-AllSound name log ts hs)
  where
    go :
        (o : Option (List TestBase)) (b : Bool)
        → AllSound o
        → AllSound (elim o [
          | some ts' ↦ some (t ∷ ts')
          | none ↦ if b then some (start log t ∷ ts) else none
        ])
    go (some ts') b k = (h, k)
    go none true k = (start-IsSoundTest log t h, hs)
    go none false k = tt

abbrev LoopSound : Option Loop → Type 0
LoopSound none = Unit
LoopSound (some l) = All IsSoundTest l.tests

map-LoopSound :
    (f : List TestBase → Loop) (o : Option (List TestBase))
    → ((ts : List TestBase) → (f ts).tests ≡ ts)
    → AllSound o
    → LoopSound (Option.map f o)
map-LoopSound f none e h = tt
map-LoopSound f (some ts) e h = rw (e ts) h

start_current-AllSound :
    (name : Option Line) (log : List Line) (ts : List TestBase)
    → All IsSoundTest ts
    → AllSound (start_current name log ts)
unfolding start_current
start_current-AllSound none log ts h = tt
start_current-AllSound (some name) log ts h = start_named-AllSound name log ts h

step_in-LoopSound :
    (m : Mode) (l : Loop) (line : Line) → All IsSoundTest l.tests → LoopSound (step_in m l line)
unfolding step_in open_block
step_in-LoopSound seeking l line h = ground (
  arith,
  map-LoopSound (opened (name_of line)) (start_named (name_of line) l.log l.tests) (λ ts. refl)
      (start_named-AllSound (name_of line) l.log l.tests h),
)
step_in-LoopSound inside l line h = ground (
  arith,
  map-LoopSound (λ ts. record l { state = seeking; log = []; tests = ts })
      (start_current l.test_name l.log l.tests) (λ ts. refl)
      (start_current-AllSound l.test_name l.log l.tests h),
)

step-LoopSound : (l : Loop) (line : Line) → All IsSoundTest l.tests → LoopSound (step l line)
unfolding step
step-LoopSound l line h = ground (arith, step_in-LoopSound l.state l line h)

run-LoopSound : (serial : List Line) (l : Loop) → All IsSoundTest l.tests → LoopSound (run l serial)
run-LoopSound [] l h = unfold run in h
run-LoopSound (line ∷ rest) l h = elim (Option-cases (step l line)) [
  | inl crash ↦ rw (run-crash l line rest crash) tt
  | inr (l', e) ↦
      rw (run-cons l line rest e) (run-LoopSound rest l' (rw e at (step-LoopSound l line h)))
]

map-IsSoundReport :
    (ts : List TestBase) → All IsSoundTest ts → All IsSoundReport (map get_result ts)
map-IsSoundReport [] h = tt
map-IsSoundReport (t ∷ ts) (h, hs) = (h.report, map-IsSoundReport ts hs)

pub AllReports : Option (List Report) → Type 0
AllReports none = Unit
AllReports (some rs) = All IsSoundReport rs

-- Whatever the log holds, the script prints sound reports: no test has more outcomes than its
-- count, and only the last outcome of a test can be a failed one.
pub grade-AllReports :
    (ts : List TestBase) (serial_out : Line) → All IsSoundTest ts → AllReports (grade ts serial_out)
unfolding grade AllReports
grade-AllReports ts serial_out h =
    go (run (initial ts) (split b'\n' serial_out))
      (run-LoopSound (split b'\n' serial_out) (initial ts) h)
  where
    go :
        (o : Option Loop)
        → LoopSound o
        → AllReports (Option.map (λ (l : Loop). map get_result l.tests) o)
    go none k = tt
    go (some l) k = map-IsSoundReport l.tests k

-- A text of whole lines.
abbrev pub text_of : List Line → Line
text_of [] = []
text_of (line ∷ rest) = line ++ b'\n' ∷ text_of rest

abbrev pub OneLine : Line → Type 0
OneLine line = all_list (λ c. not (c == b'\n')) line ≡ true

split-text_of : (ls : List Line) → All OneLine ls → split b'\n' (text_of ls) ≡ ls ++ [] ∷ []
split-text_of [] h = unfold split in refl
split-text_of (line ∷ rest) (h, hs) =
    split-append b'\n' line (text_of rest) h ∙ ap (◌∷◌ line) (split-text_of rest hs)

lines_of-end : (ps : List Part) → lines_of (ps ++ noise [] ∷ []) ≡ lines_of ps ++ [] ∷ []
lines_of-end [] = refl
lines_of-end (noise line ∷ ps) = ap (◌∷◌ line) (lines_of-end ps)
lines_of-end (block first body last ∷ ps) =
    ap (λ (t : List Line). first ∷ t)
      (ap (λ t. body ++ last ∷ t) (lines_of-end ps)
        ∙ sym (append_assoc body (last ∷ lines_of ps) ([] ∷ [])))

start_all-end :
    (ps : List Part) (ts : List TestBase) → start_all (ps ++ noise [] ∷ []) ts ≡ start_all ps ts
unfolding Option.bind
start_all-end [] ts = refl
start_all-end (noise line ∷ ps) ts = start_all-end ps ts
start_all-end (block first body last ∷ ps) ts =
    ap (Option.bind (start_named (name_of first) (non_blank body) ts)) (fun_ext (start_all-end ps))

reports_of :
    (o : Option Loop)
    → Option.map (λ (l : Loop). map get_result l.tests) o
      ≡ Option.map (map get_result) (Option.map (λ (l : Loop). l.tests) o)
reports_of none = refl
reports_of (some l) = refl

-- On the text of a log of complete blocks, whose lines have no line break in them, the script
-- prints the reports of the tests, each started on the lines of its blocks in the order of the
-- log, or fails on an unknown name.
pub grade-text_of :
    (ts : List TestBase) (ps : List Part)
    → All IsPart ps
    → All OneLine (lines_of ps)
    → grade ts (text_of (lines_of ps)) ≡ Option.map (map get_result) (start_all ps ts)
unfolding grade contains
grade-text_of ts ps h one =
    reports_of (run (initial ts) (split b'\n' (text_of (lines_of ps))))
    ∙ ap
        (λ ls.
          Option.map (map get_result) (Option.map (λ (l : Loop). l.tests) (run (initial ts) ls)))
        (split-text_of (lines_of ps) one ∙ sym (lines_of-end ps))
    ∙ ap (Option.map (map get_result)) (
        run-lines_of ended (initial ts) (All-append IsPart ps (noise [] ∷ []) h (refl, tt)) refl
          refl
        ∙ start_all-end ps ts)
  where
    ended : List Part
    ended = ps ++ noise [] ∷ []

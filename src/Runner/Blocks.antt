-- ===== src/Runner/Blocks.antt =====
-- test_runner.py: how the loop cuts the log.
use mathlib.Core.Option
use mathlib.Core.List.{append-nil, append_assoc}
use user_basic.Base.{
  Bool, true, false, Option, none, some, List, [], ◌∷◌, ◌++◌, Line, codes, line_eq_iff, contains,
  if◌then◌else◌, ◌≡◌, refl, ◌∙◌, ap, sym, arith, All, Bool-cases, Option-cases, inl, inr,
}
use user_basic.TestBase.{TestBase}
use user_basic.Runner.{
  Mode, seeking, inside, Loop, step_in, step, blank, run, start_named, name_of, initial, start_mark,
  end_mark, open_block, opened,
}

-- Between two blocks nothing is kept.
abbrev pub Idle : Mode → List Line → Type 0
Idle seeking log = log ≡ []
Idle inside log = Unit

abbrev pub IsIdle : Option Loop → Type 0
IsIdle none = Unit
IsIdle (some l) = Idle l.state l.log

step_in-IsIdle :
    (m : Mode) (l : Loop) (line : Line) → l.state ≡ m → Idle m l.log → IsIdle (step_in m l line)
unfolding step_in open_block
step_in-IsIdle seeking l line e h = ground arith
step_in-IsIdle inside l line e h = elim (Bool-cases (contains end_mark line)) [
  | inl ended ↦ rw ended (ground arith)
  | inr more ↦ rw more (rw e tt)
]

step-IsIdle : (l : Loop) (line : Line) → Idle l.state l.log → IsIdle (step l line)
unfolding step
step-IsIdle l line h = ground (arith, step_in-IsIdle l.state l line refl h)

pub run-cons :
    (l : Loop) (line : Line) (rest : List Line) {l' : Loop}
    → step l line ≡ some l'
    → run l (line ∷ rest) ≡ run l' rest
unfolding run
run-cons l line rest e = ground (arith, e)

pub run-crash :
    (l : Loop) (line : Line) (rest : List Line) → step l line ≡ none → run l (line ∷ rest) ≡ none
unfolding run
run-crash l line rest e = ground (arith, e)

run-IsIdle : (l : Loop) (serial : List Line) → Idle l.state l.log → IsIdle (run l serial)
run-IsIdle l [] h = unfold run in h
run-IsIdle l (line ∷ rest) h = elim (Option-cases (step l line)) [
  | inl crash ↦ rw (run-crash l line rest crash) tt
  | inr (l', e) ↦ rw (run-cons l line rest e) (run-IsIdle l' rest (rw e at (step-IsIdle l line h)))
]

-- When the loop has gone through a log without failing and looks for a start line, it has no data
-- at hand, whatever the log holds. So the branch `if data:` is never taken with data.
pub run-seeking :
    (ts : List TestBase) (serial : List Line) {l : Loop}
    → run (initial ts) serial ≡ some l
    → l.state ≡ seeking
    → l.log ≡ []
run-seeking ts serial {l} e h = rw h at (rw e at (run-IsIdle (initial ts) serial refl))

-- The lines that reach a test.
abbrev pub non_blank : List Line → List Line
non_blank [] = []
non_blank (line ∷ rest) = if blank line then non_blank rest else line ∷ non_blank rest

step_inside :
    (l : Loop) (line : Line)
    → l.state ≡ inside
    → contains end_mark line ≡ false
    → step l line ≡ some (record l { log = l.log ++ non_blank (line ∷ []) })
unfolding step step_in
step_inside l line e h = ground (arith, append-nil l.log)

-- Lines without an end mark are collected, and no test is started.
pub run-inside :
    (l : Loop) (body rest : List Line)
    → l.state ≡ inside
    → All (λ line. contains end_mark line ≡ false) body
    → run l (body ++ rest) ≡ run (record l { log = l.log ++ non_blank body }) rest
run-inside l [] rest e h = rw append-nil
run-inside l (line ∷ body) rest e (h, hs) =
    run-cons l line (body ++ rest) (step_inside l line e h)
    ∙ run-inside (record l { log = l.log ++ non_blank (line ∷ []) }) body rest e hs
    ∙ ap (λ (log : List Line). run (record l { log = log }) rest) (regroup (blank line))
  where
    regroup :
        (b : Bool)
        → l.log ++ (if b then [] else line ∷ []) ++ non_blank body
          ≡ l.log ++ (if b then non_blank body else line ∷ non_blank body)
    regroup true = rw append-nil
    regroup false = append_assoc l.log (line ∷ []) (non_blank body)

not_blank :
    (mark line : Line)
    → contains mark [] ≡ false
    → contains mark (codes "\n") ≡ false
    → contains mark line ≡ true
    → blank line ≡ false
not_blank mark line e f h = ground (
  arith,
  line_eq_iff line [],
  line_eq_iff line (codes "\n"),
  λ (p : line ≡ []). ap (contains mark) p,
  λ (p : line ≡ codes "\n"). ap (contains mark) p,
)

step_seeking :
    (l : Loop) (line : Line)
    → l.state ≡ seeking
    → l.log ≡ []
    → contains start_mark line ≡ true
    → step l line ≡ some (opened (name_of line) l.tests)
unfolding step step_in contains
step_seeking l line e d h = ground (arith, not_blank start_mark line refl refl h)

step_noise :
    (l : Loop) (line : Line)
    → l.state ≡ seeking
    → contains start_mark line ≡ false
    → step l line ≡ some l
unfolding step step_in
step_noise l line e h = ground arith

step_end :
    (l : Loop) (line : Line) {name : Line}
    → l.state ≡ inside
    → l.test_name ≡ some name
    → contains end_mark line ≡ true
    → step l line
      ≡ Option.map
          (λ ts. record l { state = seeking; log = []; tests = ts })
          (start_named name l.log l.tests)
unfolding step step_in contains
step_end l line e n h = ground (arith, not_blank end_mark line refl refl h)

-- The loop looks for a start line, without data, and meets one with no end line behind it:
-- whatever follows, the blocks of other tests included, no test is started, and the loop ends
-- inside that test with all the lines that are not blank.
pub run-unterminated :
    (l : Loop) (first : Line) (rest : List Line)
    → l.state ≡ seeking
    → l.log ≡ []
    → contains start_mark first ≡ true
    → All (λ line. contains end_mark line ≡ false) rest
    → run l (first ∷ rest)
      ≡ some (record {
        test_name = some (name_of first);
        state = inside;
        log = non_blank rest;
        tests = l.tests;
      })
run-unterminated l first rest e d h hs =
    run-cons l first rest (step_seeking l first e d h)
    ∙ ap (run (opened (name_of first) l.tests)) (sym (append-nil rest))
    ∙ run-inside (opened (name_of first) l.tests) rest [] refl hs
    ∙ unfold run in refl

-- A log as it is meant: blocks with a start and an end line, and lines between them.
pub data Part : Type 0 where
  noise : Line → Part
  block : Line → List Line → Line → Part

abbrev pub lines_of : List Part → List Line
lines_of [] = []
lines_of (noise line ∷ ps) = line ∷ lines_of ps
lines_of (block first body last ∷ ps) = first ∷ (body ++ last ∷ lines_of ps)

abbrev pub IsPart : Part → Type 0
IsPart (noise line) = contains start_mark line ≡ false
IsPart (block first body last) =
    (contains start_mark first ≡ true)
    × All (λ line. contains end_mark line ≡ false) body
    × (contains end_mark last ≡ true)

-- What the blocks mean: each starts its test on its lines, one after the other.
abbrev pub start_all : List Part → List TestBase → Option (List TestBase)
start_all [] ts = some ts
start_all (noise line ∷ ps) ts = start_all ps ts
start_all (block first body last ∷ ps) ts =
    Option.bind (start_named (name_of first) (non_blank body) ts) (start_all ps)

-- The loop starts exactly the tests of the blocks, in order, each on the lines of its block.
pub run-lines_of :
    (ps : List Part) (l : Loop)
    → All IsPart ps
    → l.state ≡ seeking
    → l.log ≡ []
    → Option.map (λ (l' : Loop). l'.tests) (run l (lines_of ps)) ≡ start_all ps l.tests
unfolding Option.bind
run-lines_of [] l h e d = unfold run in refl
run-lines_of (noise line ∷ ps) l (h, hs) e d =
    rw (run-cons l line (lines_of ps) (step_noise l line e h)) (run-lines_of ps l hs e d)
run-lines_of (block first body last ∷ ps) l ((f, b, g), hs) e d =
    rw
      (
        run-cons l first (body ++ last ∷ lines_of ps) (step_seeking l first e d f),
        run-inside (opened (name_of first) l.tests) body (last ∷ lines_of ps) refl b,
      )
      (go (start_named (name_of first) (non_blank body) l.tests) refl (λ ts.
        run-lines_of ps (record full { state = seeking; log = []; tests = ts }) hs refl refl))
  where
    full : Loop
    full = record (opened (name_of first) l.tests) { log = non_blank body }

    closed : Option (List TestBase) → Option Loop
    closed = Option.map (λ ts. record full { state = seeking; log = []; tests = ts })

    go :
        (o : Option (List TestBase))
        → start_named (name_of first) (non_blank body) l.tests ≡ o
        → ((ts : List TestBase)
            → Option.map
                (λ (l' : Loop). l'.tests)
                (run (record full { state = seeking; log = []; tests = ts }) (lines_of ps))
              ≡ start_all ps ts)
        → Option.map (λ (l' : Loop). l'.tests) (run full (last ∷ lines_of ps))
          ≡ Option.bind o (start_all ps)
    go none q again =
        rw (run-crash full last (lines_of ps) (step_end full last refl refl g ∙ ap closed q)) refl
    go (some ts) q again =
        rw (run-cons full last (lines_of ps) (step_end full last refl refl g ∙ ap closed q))
          (again ts)

-- ===== src/Process/Refused.antt =====
-- Runs of `KTool.process` that end before the board is touched.
use user_basic.Base.{
  ℕ, suc, if◌then◌else◌, Bool, true, false, Option, none, some, List, ◌∷◌, ◌++◌, ◌≡◌, refl, arith,
  Line, codes, line_eq,
}
use user_basic.Ktool.Slip.{Bytes}
use user_basic.Ktool.Reset.{Action}
use user_basic.Ktool.Port.{Loader, Failure, Res, ok, err, Io, ◌>>=◌, ◌>>◌, then_do, cancelled, exit}
use user_basic.Ktool.Keeps.{Keeps}
use user_basic.Ktool.Runs.{Runs, Runs-bind, Runs-then, Runs-err}
use user_basic.Process.Args.{Board, Args, settle}
use user_basic.Process.World.{World, choose_port, format_of}
use user_basic.Process.Detect.{kill, tool_check, detect, detect_loop, round, after_round}
use user_basic.Process.Flow.{
  open_terminal, when, of_file, create, formatted, opened_file, open_firmware, load_isp, run_job,
  run_port, process, clear_kill, of_port,
}
use user_basic.Process.Normal.{open_firmware-Keeps}

-- The code stops, with an exception or the end of the process, and keeps the property.
record Stops {A : Type 0} (P : Loader → Type 0) (m : Io A) : Type 0 where
  at : (l : Loader) → P l → P (m l).0 × ((a : A) → ¬ ((m l).1 ≡ ok a))

Stops-first :
    {A B : Type 0} {P : Loader → Type 0} (m : Io A) (f : A → Io B) → Stops P m → Stops P (m >>= f)
Stops-first {A} {B} {P} m f s = record { at = λ l h. go (m l) (s.at l h) }
  where
    go :
        (r : Loader × Res A)
        → P r.0 × ((a : A) → ¬ (r.1 ≡ ok a))
        → P (then_do f r).0 × ((b : B) → ¬ ((then_do f r).1 ≡ ok b))
    go (l, ok a) h = absurd (h.1 a refl)
    go (l, err e) h = (h.0, λ b p. cc)

Stops-then :
    {A B : Type 0} {P : Loader → Type 0} (m : Io A) (f : A → Io B)
    → Keeps P m
    → ((a : A) → Stops P (f a))
    → Stops P (m >>= f)
Stops-then {A} {B} {P} m f k s = record { at = λ l h. go (m l) (k.at l h) }
  where
    go : (r : Loader × Res A) → P r.0 → P (then_do f r).0 × ((b : B) → ¬ ((then_do f r).1 ≡ ok b))
    go (l, ok a) h = (s a).at l h
    go (l, err e) h = (h, λ b p. cc)

Stops-when :
    {A : Type 0} {P : Loader → Type 0} (b : Bool) (m : Io (Unit {0})) (k : Io A)
    → b ≡ false
    → Stops P k
    → Stops P (when b m >> k)
unfolding when
Stops-when true m k e s = absurd (cc)
Stops-when false m k e s = record { at = s.at }

err_not_ok : {A : Type 0} (e : Failure) (a : A) → ¬ (err e ≡ ok a)
err_not_ok e a p = cc

if_elim :
    {A : Type 0} (M : A → Type 0) (b : Bool) (r s : A)
    → (b ≡ true → M r)
    → (b ≡ false → M s)
    → M (if b then r else s)
if_elim M true r s h k = h refl
if_elim M false r s h k = k refl

-- The tool was killed, and these are the frames and the actions so far.
abbrev Killed : List Bytes → List Action → Loader → Type 0
Killed sent as' l = (l.tool_killed ≡ true) × (l.sent ≡ sent) × (l.actions ≡ as')

module _ (sent : List Bytes) (as' : List Action) where
  create-Keeps : (w : World) (port : Line) → Keeps (Killed sent as') (create w port)
  unfolding create
  create-Keeps w port = record { at = λ l h. ground arith }

  tool_check-Stops : Stops (Killed sent as') tool_check
  unfolding tool_check
  tool_check-Stops = record {
    at = λ l h.
        if_elim
          (λ (r : Loader × Res (Unit {0})). Killed sent as' r.0 × ((a : Unit {0}) → ¬ (r.1 ≡ ok a)))
          l.tool_killed _ _ (λ e. (h, err_not_ok cancelled)) (λ e. absurd (cc));
  }

  detect_loop-Stops : (n : ℕ) (b : Board) → Stops (Killed sent as') (detect_loop (suc n) b)
  unfolding detect_loop
  detect_loop-Stops n b =
      Stops-first _ (λ _. round b >>= after_round (detect_loop n b)) tool_check-Stops

  detect-Stops : (b : Board) → Stops (Killed sent as') (detect b)
  unfolding detect
  detect-Stops b = detect_loop-Stops 14 b

  run_port-Stops :
      (w : World) (a : Args) (port : Line)
      → a.onlyterm ≡ false
      → Stops (Killed sent as') (run_port w a port)
  unfolding run_port
  run_port-Stops w a port e = Stops-when _ _ _ e (
      Stops-then _ _ (create-Keeps w port) (λ _.
        Stops-then _ _ (open_firmware-Keeps w a) (λ r.
          Stops-first _ (λ b. load_isp w a b >> run_job w a b r.0 r.1) (detect-Stops a.board))))

-- When the tool is killed after `process` has begun and before the board is searched for, a run that
-- is not just a terminal never comes to its end, and writes no frame and touches no control line,
-- whatever was asked for.
pub run_port-killed :
    (w : World) (a : Args) (port : Line) (l : Loader)
    → a.onlyterm ≡ false
    → ((run_port w a port (kill l)).0.sent ≡ l.sent)
      × ((run_port w a port (kill l)).0.actions ≡ l.actions)
      × ((u : Unit {0}) → ¬ ((run_port w a port (kill l)).1 ≡ ok u))
unfolding kill
run_port-killed w a port l e =
    let r = (run_port-Stops l.sent l.actions w a port e).at (kill l) (refl, refl, refl) in
    (r.0.1, r.0.2, r.1)

-- Files that are not flashed: no file, and an ELF file without `--sram`.
pub data BadFile (w : World) (path : Line) (sram : Bool) : Type 0 where
  no_such : w.content_of path ≡ none → BadFile w path sram
  elf_to_flash :
      (rest : Bytes)
      → w.content_of path ≡ some ((0x7f ∷ codes "ELF") ++ rest)
      → sram ≡ false
      → BadFile w path sram

open_firmware-BadFile :
    (w : World) (a : Args) (l : Loader)
    → a.erase ≡ false
    → a.read ≡ false
    → BadFile w a.firmware a.sram
    → Runs (open_firmware w a) l (l, err (exit 1))
unfolding open_firmware opened_file formatted format_of line_eq
open_firmware-BadFile w a l ee er (no_such e) = record { by = simp (ee, er, e) refl }
open_firmware-BadFile w a l ee er (elf_to_flash rest e es) = record {
  by = simp (ee, er, e, es) refl;
}

pub of_port-some :
    (o : Option Line) (port : Line) (l : Loader) → o ≡ some port → Runs (of_port o) l (l, ok port)
unfolding of_port
of_port-some o port l p = record { by = rw p refl }

pub of_file-some :
    {A : Type 0} (e : Failure) (o : Option A) (a : A) (l : Loader)
    → o ≡ some a
    → Runs (of_file e o) l (l, ok a)
unfolding of_file
of_file-some e o a l p = record { by = rw p refl }

pub when_not :
    (b : Bool) (m : Io (Unit {0})) (l : Loader) → b ≡ false → Runs (when b m) l (l, ok tt)
unfolding when
when_not b m l p = record { by = rw p refl }

-- The state behind `MAIXLoader(...)`.
abbrev pub opened : Loader → Loader
opened l = record l { is_open = true; baudrate = 115200; kill_process = false }

pub create_opens :
    (w : World) (port : Line) (l : Loader)
    → w.opens port ≡ true
    → Runs (create w port) l (opened l, ok tt)
unfolding create
create_opens w port l p = record { by = rw p refl }

run_port-BadFile :
    (w : World) (a : Args) (port : Line) (l : Loader)
    → w.opens port ≡ true
    → a.onlyterm ≡ false
    → a.erase ≡ false
    → a.read ≡ false
    → BadFile w a.firmware a.sram
    → Runs (run_port w a port) l (opened l, err (exit 1))
unfolding run_port
run_port-BadFile w a port l eo et ee er bad =
    Runs-then _ _ (when_not a.onlyterm (open_terminal w a.reset a) l et) (
      Runs-then _ _ (create_opens w port l eo) (
        Runs-err _ (λ r. detect a.board >>= λ b. load_isp w a b >> run_job w a b r.0 r.1)
          (open_firmware-BadFile w a (opened l) ee er bad)))

pub clear_kill_lem : (l : Loader) → Runs clear_kill l (record l { tool_killed = false }, ok tt)
unfolding clear_kill
clear_kill_lem l = record { by = refl }

-- A run that is to flash a file that is missing, or an ELF file, opens the port and exits with 1:
-- nothing is written, and no control line is touched.
pub process-BadFile :
    (w : World) (a : Args) (l : Loader) (port : Line)
    → choose_port w (settle a) ≡ some port
    → w.opens port ≡ true
    → a.onlyterm ≡ false
    → a.erase ≡ false
    → a.read ≡ false
    → BadFile w a.firmware a.sram
    → process w a l ≡ (opened (record l { tool_killed = false }), err (exit 1))
unfolding process
process-BadFile w a l port ep eo et ee er bad = run.by
  where
    cleared : Loader
    cleared = record l { tool_killed = false }

    run : Runs (process w a) l (opened cleared, err (exit 1))
    run = Runs-then _ _ (clear_kill_lem l) (
        Runs-bind _ (run_port w (settle a))
          (of_port-some (choose_port w (settle a)) port cleared ep)
          (run_port-BadFile w (settle a) port cleared eo et ee er bad))

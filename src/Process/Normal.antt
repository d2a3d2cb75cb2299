-- ===== src/Process/Normal.antt =====
-- What a run of `KTool.process` that comes to its end has done.
use mathlib.Core.List.{append_assoc}
use user_basic.Base.{true, false, Option, none, some, List, ◌++◌, ◌≡◌, refl, sym, ◌∙◌, arith, Line}
use user_basic.Ktool.Slip.{Bytes}
use user_basic.Ktool.Reset.{Action}
use user_basic.Ktool.Port.{Loader, Res, ok, err, ◌>>◌, line_actions, pure}
use user_basic.Ktool.Greeting.{greeting}
use user_basic.Ktool.Keeps.{Keeps, keeps_rules}
use user_basic.Ktool.Keeps.Operations.{greeting-Keeps, init_flash-Keeps}
use user_basic.Process.Args.{Board, Args, settle, settle_board}
use user_basic.Process.World.{World, Format, choose_port, format_of}
use user_basic.Process.Detect.{detect, greeted}
use user_basic.Process.Flow.{
  create, formatted, opened_file, open_firmware, boot_actions, close_port, run_job, run_port,
  clear_kill, process,
}
use user_basic.Process.Once.{first_try, once, detect_loop-once}
use user_basic.Process.Keeps.{load_isp-Keeps, run_flash-Keeps, tool_check-Keeps, of_port-Keeps}
use user_basic.Process.Ends.{
  Ensures, Ensures-bind, Ensures-Keeps, Ensures-given, Ensures-weaken, Ensures-pure, Ensures-when,
  Ensures-when_last, Acted, Acted-IsStable, run_sram-NeverReturns, run_read-NeverReturns,
  erase-NeverReturns, open_terminal-NeverReturns,
}

line_actions-Ensures :
    (as' added : List Action) → Ensures (Acted as') (line_actions added) (λ _. Acted (as' ++ added))
unfolding line_actions
line_actions-Ensures as' added = record { at = λ l l' a h p. cc }

-- The port is closed behind these actions.
abbrev Done : List Action → Loader → Type 0
Done as' l = (l.is_open ≡ false) × Acted as' l

close_port-Ensures : (as' : List Action) → Ensures (Acted as') close_port (λ _. Done as')
unfolding close_port
close_port-Ensures as' = record { at = λ l l' a h p. (cc, cc) }

-- A run that was asked for a flash, and no more than a flash.
abbrev OnlyFlashes : Args → Type 0
OnlyFlashes a = (a.sram ≡ false) × (a.erase ≡ false) × (a.read ≡ false) × (a.terminal ≡ false)

run_job-Ensures :
    (w : World) (a : Args) (b : Board) (file : Option Bytes) (f : Format) (as' : List Action)
    → Ensures
        (Acted as')
        (run_job w a b file f)
        (λ _ l. OnlyFlashes a × Done (as' ++ boot_actions b) l)
unfolding run_job
run_job-Ensures w a b file f as' =
    let stable = Acted-IsStable as' in
    Ensures-when _ _ _ (run_sram-NeverReturns w a file f) (λ e1.
      Ensures-bind _ _ (Ensures-Keeps _ (init_flash-Keeps stable)) (λ _.
        Ensures-when _ _ _ erase-NeverReturns (λ e2.
          Ensures-when _ _ _ (run_read-NeverReturns w a) (λ e3.
            Ensures-bind _ _ (Ensures-Keeps _ (run_flash-Keeps stable w a file f)) (λ _.
              Ensures-bind _ _ (line_actions-Ensures as' (boot_actions b)) (λ _.
                Ensures-bind _ _ (close_port-Ensures _) (λ _.
                  Ensures-when_last _ _ (open_terminal-NeverReturns w true a)
                    (λ e4 l d. ((e1, e2, e3, e4), d)))))))))

create-Ensures :
    (w : World) (port : Line) (as' : List Action)
    → Ensures (Acted as') (create w port) (λ _. Acted as')
unfolding create
create-Ensures w port as' = record { at = λ l l' a h p. ground arith }

formatted-Keeps :
    {P : Loader → Type 0} (content : Bytes) (f : Option Format) → Keeps P (formatted content f)
unfolding formatted
formatted-Keeps content none = search keeps_rules
formatted-Keeps content (some f) = search keeps_rules

opened_file-Keeps :
    {P : Loader → Type 0} (w : World) (a : Args) (o : Option Bytes) → Keeps P (opened_file w a o)
unfolding opened_file
opened_file-Keeps w a none = search keeps_rules
opened_file-Keeps w a (some content) = formatted-Keeps content (format_of w a content)

pub open_firmware-Keeps : {P : Loader → Type 0} (w : World) (a : Args) → Keeps P (open_firmware w a)
unfolding open_firmware
open_firmware-Keeps w a = search (keeps_rules, opened_file-Keeps)

greeted_ok :
    {A : Type 0} (r : Loader × Res A) (l' : Loader) (a : A)
    → greeted r ≡ (l', ok a)
    → r ≡ (l', ok a)
unfolding greeted
greeted_ok (l, ok a') l' a p = p
greeted_ok (l, err e) l' a p = ground arith

once-Ensures :
    (b : Board) (as' : List Action)
    → Ensures
        (Acted as')
        (once b)
        (λ b' l. (b' ≡ (first_try b).1) × Acted (as' ++ (first_try b).0) l)
once-Ensures b as' = record { at = λ l l' b' h p. attempt.at l l' b' h (greeted_ok _ l' b' p) }
  where
    acted : List Action
    acted = as' ++ (first_try b).0

    attempt :
        Ensures
          (Acted as')
          (line_actions (first_try b).0 >> greeting >> pure (first_try b).1)
          (λ b' l. (b' ≡ (first_try b).1) × Acted acted l)
    attempt =
        Ensures-bind _ _
          (Ensures-bind _ _ (line_actions-Ensures as' (first_try b).0)
            (λ _. Ensures-Keeps _ (greeting-Keeps (Acted-IsStable acted))))
          (λ _. Ensures-pure (first_try b).1 (λ l h. (refl, h)))

detect-Ensures :
    (b : Board) (as' : List Action)
    → Ensures
        (Acted as')
        (detect b)
        (λ b' l. (b' ≡ (first_try b).1) × Acted (as' ++ (first_try b).0) l)
unfolding detect
detect-Ensures b as' = record {
  at = λ l l' b' h p.
      (Ensures-bind _ _ (Ensures-Keeps _ (tool_check-Keeps (Acted-IsStable as')))
          (λ _. once-Ensures b as')).at
        l l' b' h (sym (detect_loop-once 14 b l) ∙ p);
}

-- The reset into the ROM loader, and the reset into the flashed program.
abbrev pub resets : Board → List Action
resets b = (first_try b).0 ++ boot_actions (first_try b).1

pub resets_lem :
    (as' : List Action) (b b' : Board)
    → b' ≡ (first_try b).1
    → as' ++ (first_try b).0 ++ boot_actions b' ≡ as' ++ resets b
resets_lem as' b b' e = rw e (append_assoc as' (first_try b).0 (boot_actions (first_try b).1))

run_port-Ensures :
    (w : World) (a : Args) (port : Line) (as' : List Action)
    → Ensures
        (Acted as')
        (run_port w a port)
        (λ _ l. (a.onlyterm ≡ false) × OnlyFlashes a × Done (as' ++ resets a.board) l)
unfolding run_port
run_port-Ensures w a port as' =
    let stable = Acted-IsStable (as' ++ (first_try a.board).0) in
    Ensures-when _ _ _ (open_terminal-NeverReturns w a.reset a) (λ e0.
      Ensures-bind _ _ (create-Ensures w port as') (λ _.
        Ensures-bind _ _ (Ensures-Keeps _ (open_firmware-Keeps w a)) (λ r.
          Ensures-bind _ _ (detect-Ensures a.board as') (λ b. Ensures-given _ (λ e.
            Ensures-bind _ _ (Ensures-Keeps _ (load_isp-Keeps stable w a b)) (λ _.
              Ensures-weaken _ (run_job-Ensures w a b r.0 r.1 _)
                (λ u l d. (e0, d.0, (d.1.0, d.1.1 ∙ resets_lem as' a.board b e)))))))))

clear_kill-Ensures : (as' : List Action) → Ensures (Acted as') clear_kill (λ _. Acted as')
unfolding clear_kill
clear_kill-Ensures as' = record { at = λ l l' a h p. ground arith }

process-Ensures :
    (w : World) (a : Args) (as' : List Action)
    → Ensures (Acted as') (process w a) (λ _ l.
      (a.onlyterm ≡ false) × OnlyFlashes a × Done (as' ++ resets (settle_board a.board)) l)
unfolding process settle
process-Ensures w a as' = Ensures-bind _ _ (clear_kill-Ensures as') (λ _.
    Ensures-bind _ _ (Ensures-Keeps _ (of_port-Keeps (λ l h. h) (choose_port w (settle a))))
      (λ port. run_port-Ensures w (settle a) port as'))

-- A run of `process` that comes to its end was asked for neither SRAM, erasing, reading nor a
-- terminal. It leaves the port closed, and what it did to the control lines is exactly one reset into
-- the ROM loader and, when all was flashed, the reset that starts the program, both those of the
-- board, where a board that is not given counts as a dan.
pub process-flash_only :
    (w : World) (a : Args) (l l' : Loader) (u : Unit {0})
    → process w a l ≡ (l', ok u)
    → (a.onlyterm ≡ false)
      × (a.sram ≡ false)
      × (a.erase ≡ false)
      × (a.read ≡ false)
      × (a.terminal ≡ false)
      × (l'.is_open ≡ false)
      × (l'.actions ≡ l.actions ++ resets (settle_board a.board))
process-flash_only w a l l' u p =
    let r = (process-Ensures w a l.actions).at l l' u refl p in
    (r.0, r.1.0, r.1.1, r.1.2, r.1.3, r.2.0, r.2.1)

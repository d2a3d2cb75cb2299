-- ===== src/Process/Progress.antt =====
-- `KTool.process` comes to an end whatever the board sends.
use user_basic.Base.{
  ℕ, Bool, true, false, Option, none, some, List, ◌≡◌, refl, ◌⊎◌, inl, inr, arith, ◌∙◌, Line,
}
use user_basic.Ktool.Slip.{Bytes, Event, recv, got}
use user_basic.Ktool.Reset.{Action}
use user_basic.Ktool.Port.{Loader, stalled, exit, Res, ok, err, Io, then_do, ◌>>=◌, line_actions}
use user_basic.Ktool.Keeps.{IsStable, Keeps, keeps_rules, Keeps-pure, Keeps-bind}
use user_basic.Ktool.Stall.{
  has_late, Ahead, recv-Ahead, DryStall, StallsDry, stall_rules, StallsDry-raise, StallsDry-pure,
  StallsDry-bind, dry_if,
}
use user_basic.Process.Args.{Args, settle}
use user_basic.Process.World.{World, Format, format_of, choose_port}
use user_basic.Process.Flow.{
  open_terminal, when, create, formatted, opened_file, open_firmware, run_port, clear_kill, process,
  status,
}
use user_basic.Process.Keeps.{IsFree, load_isp-Keeps, run_job-Keeps, detect-Keeps, of_port-Keeps}
use user_basic.Process.Normal.{open_firmware-Keeps}
use user_basic.Process.Stall.{
  when-StallsDry, open_terminal-StallsDry, load_isp-StallsDry, run_job-StallsDry, detect-StallsDry,
  of_port-StallsDry,
}

-- The port is closed, or a deadline is ahead.
abbrev Alive : Loader → Type 0
Alive l = (l.is_open ≡ false) ⊎ (has_late l.events ≡ true)

abbrev Late : Loader → Type 0
Late l = has_late l.events ≡ true

Alive-IsStable : IsStable Alive
Alive-IsStable = record {
  on_close = λ l h. inl refl;
  on_kill = λ l h. inl refl;
  on_write = λ l bytes e h. h;
  on_read = λ l bytes es e h. left l bytes es e h (recv-Ahead l.events);
  on_failure = λ l es h. inl refl;
  on_baudrate = λ l b h. h;
}
  where
    left :
        (l : Loader) (bytes : Bytes) (es : List Event)
        → recv l.events ≡ got bytes es
        → Alive l
        → Ahead (has_late l.events) (recv l.events)
        → Alive (record l { events = es })
    left l bytes es e (inl closed) a = inl closed
    left l bytes es e (inr ahead) a = inr ((rw e at a) ∙ ahead)

Alive-IsFree : IsFree Alive
Alive-IsFree = record { on_lines = λ l as' h. h; on_dump = λ l d h. h }

-- From a state with P the code comes to one with Q, whether it returns or raises.
record Leads {A : Type 0} (P Q : Loader → Type 0) (m : Io A) : Type 0 where
  at : (l : Loader) → P l → Q (m l).0

Leads-bind :
    {A B : Type 0} (m : Io A) (f : A → Io B)
    → Keeps Late m
    → ((a : A) → Leads Late Alive (f a))
    → Leads Late Alive (m >>= f)
Leads-bind {A} {B} m f km lf = record { at = λ l h. go (m l) (km.at l h) }
  where
    go : (r : Loader × Res A) → Late r.0 → Alive (then_do f r).0
    go (l, ok a) h = (lf a).at l h
    go (l, err e) h = inr h

Leads-Keeps : {A : Type 0} (m : Io A) → Keeps Alive m → Leads Late Alive m
Leads-Keeps m k = record { at = λ l h. k.at l (inr h) }

create-Keeps : (w : World) (port : Line) → Keeps Late (create w port)
unfolding create
create-Keeps w port = record { at = λ l h. ground arith }

clear_kill-Keeps : Keeps Late clear_kill
unfolding clear_kill
clear_kill-Keeps = record { at = λ l h. h }

line_actions-Keeps : (as' : List Action) → Keeps Late (line_actions as')
unfolding line_actions
line_actions-Keeps as' = record { at = λ l h. h }

when_terminal-Keeps :
    (w : World) (b reset : Bool) (a : Args) → Keeps Late (when b (open_terminal w reset a))
unfolding when open_terminal
when_terminal-Keeps w true reset a = search (keeps_rules, line_actions-Keeps)
when_terminal-Keeps w false reset a = Keeps-pure tt

run_port-Leads : (w : World) (a : Args) (port : Line) → Leads Late Alive (run_port w a port)
unfolding run_port
run_port-Leads w a port = Leads-bind _ _ (when_terminal-Keeps w a.onlyterm a.reset a) (λ _.
    Leads-bind _ _ (create-Keeps w port) (λ _. Leads-Keeps _ (
      Keeps-bind _ _ (open_firmware-Keeps w a) (λ r.
        Keeps-bind _ _ (detect-Keeps Alive-IsStable Alive-IsFree a.board) (λ b.
          Keeps-bind _ _ (load_isp-Keeps Alive-IsStable w a b)
            (λ _. run_job-Keeps Alive-IsStable Alive-IsFree w a b r.0 r.1))))))

process-Leads : (w : World) (a : Args) → Leads Late Alive (process w a)
unfolding process
process-Leads w a = Leads-bind _ _ clear_kill-Keeps (λ _.
    Leads-bind _ _ (of_port-Keeps (λ l h. h) (choose_port w (settle a)))
      (λ port. run_port-Leads w (settle a) port))

create-StallsDry : (w : World) (port : Line) → StallsDry (create w port)
unfolding create
create-StallsDry w port = record { at = λ l. dry_if (w.opens port) _ _ (λ _. tt) tt }

formatted-StallsDry : (content : Bytes) (o : Option Format) → StallsDry (formatted content o)
unfolding formatted
formatted-StallsDry content none = StallsDry-raise (exit 1) tt
formatted-StallsDry content (some f) = StallsDry-pure _

opened_file-StallsDry : (w : World) (a : Args) (o : Option Bytes) → StallsDry (opened_file w a o)
unfolding opened_file
opened_file-StallsDry w a none = StallsDry-raise (exit 1) tt
opened_file-StallsDry w a (some content) = formatted-StallsDry content (format_of w a content)

open_firmware-StallsDry : (w : World) (a : Args) → StallsDry (open_firmware w a)
unfolding open_firmware
open_firmware-StallsDry w a = search (stall_rules, opened_file-StallsDry)

clear_kill-StallsDry : StallsDry clear_kill
unfolding clear_kill
clear_kill-StallsDry = record { at = λ l. tt }

run_port-StallsDry : (w : World) (a : Args) (port : Line) → StallsDry (run_port w a port)
unfolding run_port
run_port-StallsDry w a port =
    StallsDry-bind _ _ (when-StallsDry a.onlyterm _ (open_terminal-StallsDry w a.reset a)) (λ _.
      StallsDry-bind _ _ (create-StallsDry w port) (λ _.
        StallsDry-bind _ _ (open_firmware-StallsDry w a) (λ r.
          StallsDry-bind _ _ (detect-StallsDry a.board) (λ b.
            StallsDry-bind _ _ (load_isp-StallsDry w a b) (λ _. run_job-StallsDry w a b r.0 r.1)))))

process-StallsDry : (w : World) (a : Args) → StallsDry (process w a)
unfolding process
process-StallsDry w a = StallsDry-bind _ _ clear_kill-StallsDry (λ _.
    StallsDry-bind _ _ (of_port-StallsDry (choose_port w (settle a)))
      (λ port. run_port-StallsDry w (settle a) port))

not_dry : (r : Loader × Res (Unit {0})) → Alive r.0 → DryStall r → (n : ℕ) × (status r.1 ≡ some n)
unfolding status
not_dry (l, ok a) h d = (0, refl)
not_dry (l, err stalled) (inl closed) d = absurd (cc)
not_dry (l, err stalled) (inr ahead) d = absurd (cc)
not_dry (l, err (exit n)) h d = (n, refl)
not_dry (l, err _) h d = (1, refl)

-- Whatever the arguments, the files and the port are, and whatever else the board sends: if the
-- deadline of a receive expires somewhere in what the reads meet, the run comes to its end with a
-- status, a terminal that it starts counting as ended.
pub process-ends :
    (w : World) (a : Args) (l : Loader)
    → has_late l.events ≡ true
    → (n : ℕ) × (status (process w a l).1 ≡ some n)
process-ends w a l h =
    not_dry (process w a l) ((process-Leads w a).at l h) ((process-StallsDry w a).at l)

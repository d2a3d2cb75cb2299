-- ===== src/Process/Front.antt =====
-- What `KTool.process` does before the job itself, on a board that answers.
use user_basic.Base.{
  ℕ, suc, ◌≤◌, true, false, none, some, Option, List, [], ◌∷◌, ◌++◌, map, replicate, ◌≡◌, refl, ◌∙◌,
  length, Line,
}
use mathlib.Core.List.{append_assoc}
use user_basic.Ktool.Slip.{Bytes, frame, Event, recv, got}
use user_basic.Ktool.Response.{parsed, isp_parse}
use user_basic.Ktool.Port.{Loader, Res, ok, ◌>>=◌, ◌>>◌}
use user_basic.Ktool.Greeting.{sram_start, words_request, bare_frame}
use user_basic.Ktool.Greeting.Tries.{Refused}
use user_basic.Ktool.Transfer.{chunks}
use user_basic.Ktool.Transfer.Install.{Accepted, IsImage}
use user_basic.Ktool.Runs.{Runs, Runs-bind, Runs-then}
use user_basic.Process.Args.{Args, settle}
use user_basic.Process.World.{World, Format, choose_port}
use user_basic.Process.Detect.{detect}
use user_basic.Process.Once.{first_try}
use user_basic.Process.Flow.{given, open_firmware, run_port, process, load_isp, run_job, is_go_e}
use user_basic.Process.Refused.{opened, when_not, create_opens, clear_kill_lem, of_port-some}
use user_basic.Process.Stages.{
  detect_answered, IsChange, Regreets, change_frames, rate_for, load_isp_rated,
}

-- The arguments ask for no terminal alone and for the default loader, and the port can be opened.
pub record Starts (w : World) (a : Args) (port : Line) : Type 0 where
  pub found_port : choose_port w a ≡ some port
  pub opens : w.opens port ≡ true
  pub no_onlyterm : a.onlyterm ≡ false
  pub no_bootloader : given a.bootloader ≡ none

-- What is sent: the requests for the chunks of the second loader, to start it, and to change the
-- rate; and how often that loader refuses the greeting, before and behind the change.
pub record Loading : Type 0 where
  pub isp : List Bytes
  pub boot : Bytes
  pub refusals : ℕ
  pub change : Option Bytes
  pub refusals' : ℕ

-- The requests can be packed.
pub record PacksLoader (w : World) (a : Args) (q : Loading) : Type 0 where
  pub isp : IsImage sram_start (chunks w.isp_prog 1024) q.isp
  pub boot : words_request 0xc5 (sram_start ∷ 0 ∷ []) ≡ some q.boot
  pub change : IsChange a.baudrate q.change

-- The board answers until the second loader runs, and `rest` is left.
pub record AnswersLoader (w : World) (q : Loading) (es rest : List Event) : Type 0 where
  pub e1 : List Event
  pub e2 : List Event
  pub e3 : List Event
  pub e4 : List Event
  pub hello : Bytes
  pub op : ℕ
  pub reason : ℕ
  pub said : Bytes
  pub greets : recv es ≡ got hello e1
  pub parses : isp_parse hello ≡ parsed op reason said
  pub accepts : Accepted (length (chunks w.isp_prog 1024)) e1 e2
  pub few : q.refusals ≤ 4
  pub refuses : Refused q.refusals e2 e3
  pub text : Bytes
  pub wakes : recv e3 ≡ got (0xd2 ∷ 0xe0 ∷ text) e4
  pub regreets : Regreets q.change q.refusals' e4 rest

-- The frames up to the point where the second loader runs.
abbrev pub loading_frames : Loading → List Bytes
loading_frames q =
    bare_frame 0xc2
    ∷ (map frame q.isp
        ++ (frame q.boot
            ∷ (replicate (suc q.refusals) (bare_frame 0xd2) ++ change_frames q.change q.refusals')))

-- The rate of the port where the second loader runs.
abbrev pub rate_of : Args → ℕ
rate_of a = rate_for (is_go_e (first_try a.board).1) a.baudrate

-- The loader where the second loader runs.
abbrev pub loaded : Args → Loading → List Event → Loader → Loader
loaded a q rest l = record l {
  is_open = true;
  kill_process = false;
  tool_killed = false;
  baudrate = rate_of a;
  events = rest;
  sent = l.sent ++ loading_frames q;
  actions = l.actions ++ (first_try a.board).0;
}

loading_frames_lem :
    (sent : List Bytes) (q : Loading)
    → sent
        ++ bare_frame 0xc2 ∷ []
        ++ map frame q.isp
        ++ frame q.boot ∷ []
        ++ replicate (suc q.refusals) (bare_frame 0xd2)
        ++ change_frames q.change q.refusals'
      ≡ sent ++ loading_frames q
loading_frames_lem sent q = simp append_assoc refl

module _ (w : World) (a : Args) (port : Line) (q : Loading) (l : Loader) (rest : List Event)
    (f : Starts w a port) (p : PacksLoader w a q) (t : l.tool_killed ≡ false)
    (s : AnswersLoader w q l.events rest) where
  detected : Loader
  detected = record (opened l) {
    events = s.e1;
    sent = l.sent ++ bare_frame 0xc2 ∷ [];
    actions = l.actions ++ (first_try a.board).0;
  }

  detect-Runs : Runs (detect a.board) (opened l) (detected, ok (first_try a.board).1)
  unfolding detected
  detect-Runs = record {
    by =
        detect_answered a.board (opened l) s.hello s.said s.op s.reason s.e1 t refl s.greets
          s.parses;
  }

  load_isp-Runs :
      Runs
        (load_isp w a (first_try a.board).1)
        detected
        (record (loaded a q rest l) { tool_killed = l.tool_killed }, ok tt)
  unfolding detected
  load_isp-Runs = record {
    by =
        load_isp_rated w a (first_try a.board).1 detected q.isp q.boot s.text q.change q.refusals
          q.refusals' s.e2 s.e3 s.e4 rest f.no_bootloader refl refl p.isp s.accepts p.boot s.few
          s.refuses s.wakes p.change s.regreets
        ∙ simp (loading_frames_lem l.sent q) refl;
  }

  run_port-Runs :
      (file : Option Bytes) (format : Format) (r : Loader × Res (Unit {0}))
      → Runs (open_firmware w a) (opened l) (opened l, ok (file, format))
      → Runs
          (run_job w a (first_try a.board).1 file format)
          (record (loaded a q rest l) { tool_killed = l.tool_killed })
          r
      → Runs (run_port w a port) l r
  unfolding run_port
  run_port-Runs file format r o job = Runs-then _ _ (when_not a.onlyterm _ l f.no_onlyterm) (
      Runs-then _ _ (create_opens w port l f.opens) (
        Runs-bind _ (λ r. detect a.board >>= λ b. load_isp w a b >> run_job w a b r.0 r.1) o
          (Runs-bind _ (λ b. load_isp w a b >> run_job w a b file format) detect-Runs
            (Runs-then _ _ load_isp-Runs job))))

-- A tool that was killed before counts as one that was not.
abbrev pub revived : Loader → Loader
revived l = record l { tool_killed = false }

-- When the second loader comes up, `process` ends as the job ends from there.
pub process-Starts :
    (w : World) (a : Args) (port : Line) (q : Loading) (l : Loader) (rest : List Event)
    (file : Option Bytes) (format : Format) (r : Loader × Res (Unit {0}))
    → Starts w (settle a) port
    → PacksLoader w (settle a) q
    → AnswersLoader w q l.events rest
    → Runs (open_firmware w (settle a)) (opened (revived l)) (opened (revived l), ok (file, format))
    → Runs
        (run_job w (settle a) (first_try (settle a).board).1 file format)
        (loaded (settle a) q rest l)
        r
    → process w a l ≡ r
unfolding process settle
process-Starts w a port q l rest file format r f p s o job = run.by
  where
    run : Runs (process w a) l r
    run = Runs-then _ _ (clear_kill_lem l) (
        Runs-bind _ (run_port w (settle a))
          (of_port-some (choose_port w (settle a)) port (revived l) f.found_port)
          (run_port-Runs w (settle a) port q (revived l) rest f p refl s file format r o job))

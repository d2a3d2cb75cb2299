-- ===== src/Process/Stages/Job.antt =====
-- What `KTool.process` does with a board whose second loader runs.
use user_basic.Base.{true, false, none, some, Option, List, [], ◌∷◌, ◌++◌, map, ◌≡◌, arith, length}
use user_basic.Ktool.Slip.{Bytes, frame, Event, recv, got}
use user_basic.Ktool.Port.{Loader, ok, line_actions}
use user_basic.Ktool.Greeting.{words_request, bare_frame}
use user_basic.Ktool.Greeting.First.{init_flash_answered}
use user_basic.Ktool.Transfer.{chunks, with_header, chunk_size_of}
use user_basic.Ktool.Transfer.Plan.{Answered, IsPlan}
use user_basic.Ktool.Transfer.Firmware.{flash_firmware-Answered}
use user_basic.Process.Args.{Board, Args}
use user_basic.Process.World.{World, Format, fmt_binary}
use user_basic.Process.Flow.{
  when, of_file, given, run_flash, with_key, boot_actions, close_port, run_job,
}

-- The loader behind the start of the flash.
abbrev pub initialised : Bytes → List Event → Loader → Loader
initialised out es l = record l {
  events = es;
  sent = l.sent ++ frame out ∷ [] ++ bare_frame 0xde ∷ [];
}

pub run_job-flashed :
    (w : World) (a : Args) (b : Board) (file : Option Bytes) (format : Format) (ps : List Bytes)
    (l : Loader) (out text id : Bytes) (e1 e2 e3 : List Event)
    → a.sram ≡ false
    → a.erase ≡ false
    → a.read ≡ false
    → a.terminal ≡ false
    → l.is_open ≡ true
    → l.kill_process ≡ false
    → words_request 0xd7 (0 ∷ 0 ∷ []) ≡ some out
    → recv l.events ≡ got (0xd7 ∷ 0xe0 ∷ text) e1
    → recv e1 ≡ got id e2
    → run_flash w a file format (initialised out e2 l) ≡ (
      record l {
        events = e3;
        sent = l.sent ++ frame out ∷ [] ++ bare_frame 0xde ∷ [] ++ map frame ps;
      },
      ok tt,
    )
    → run_job w a b file format l ≡ (
      record l {
        is_open = false;
        events = e3;
        actions = l.actions ++ boot_actions b;
        sent = l.sent ++ frame out ∷ [] ++ bare_frame 0xde ∷ [] ++ map frame ps;
      },
      ok tt,
    )
unfolding run_job when line_actions close_port
run_job-flashed w a b file format ps l out text id e1 e2 e3 ns ne nr nt o q req r1 r2 flashed =
    ground (arith, init_flash_answered l out text id e1 e2 o q req r1 r2, flashed)

pub run_job-Answered :
    (w : World) (a : Args) (b : Board) (content : Bytes) (image : Bytes) (ps : List Bytes)
    (l : Loader) (out text id : Bytes) (e1 e2 e3 : List Event)
    → a.sram ≡ false
    → a.erase ≡ false
    → a.read ≡ false
    → a.terminal ≡ false
    → given a.key ≡ none
    → a.nosha ≡ false
    → a.swapendian ≡ false
    → l.is_open ≡ true
    → l.kill_process ≡ false
    → words_request 0xd7 (0 ∷ 0 ∷ []) ≡ some out
    → recv l.events ≡ got (0xd7 ∷ 0xe0 ∷ text) e1
    → recv e1 ≡ got id e2
    → with_header w.sha256 w.encrypt none content ≡ some image
    → IsPlan
        (chunk_size_of (length image))
        a.address
        0
        (chunks image (chunk_size_of (length image)))
        ps
    → Answered (length (chunks image (chunk_size_of (length image)))) e2 e3
    → run_job w a b (some content) fmt_binary l ≡ (
      record l {
        is_open = false;
        events = e3;
        actions = l.actions ++ boot_actions b;
        sent = l.sent ++ frame out ∷ [] ++ bare_frame 0xde ∷ [] ++ map frame ps;
      },
      ok tt,
    )
unfolding run_flash with_key of_file
run_job-Answered w a b content image ps l out text id e1 e2 e3 ns ne nr nt nk nh nw o q req r1 r2 h
      plan ans =
    run_job-flashed w a b (some content) fmt_binary ps l out text id e1 e2 e3 ns ne nr nt o q req r1
      r2 flashed
  where
    flashed : run_flash w a (some content) fmt_binary (initialised out e2 l) ≡ (
      record l {
        events = e3;
        sent = l.sent ++ frame out ∷ [] ++ bare_frame 0xde ∷ [] ++ map frame ps;
      },
      ok tt,
    )
    flashed = ground (
      arith,
      (flash_firmware-Answered w.sha256 w.encrypt content none a.address true image ps
          (initialised out e2 l) e3 o q h plan ans).0,
    )

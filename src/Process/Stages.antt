-- ===== src/Process/Stages.antt =====
-- The stages of `KTool.process` on a board that answers.
pub mod Job
use mathlib.Core.List.{append-nil, append_assoc}
use user_basic.Base.{
  Bool, if◌then◌else◌, ℕ, suc, ◌≤◌, true, false, none, some, Option, List, [], ◌∷◌, ◌++◌, map,
  replicate, ◌≡◌, ◌∙◌, arith, length, ◌==◌,
}
use user_basic.Ktool.Slip.{Bytes, frame, Event, recv, got}
use user_basic.Ktool.Response.{parsed, isp_parse}
use user_basic.Ktool.Port.{Loader, ok, line_actions, packed, write, port_write}
use user_basic.Ktool.Greeting.{
  sram_start, set_baudrate, change_baudrate, port_baudrate, words_request, bare_frame,
}
use user_basic.Ktool.Greeting.First.{greeting_answered, boot_lem, init_flash_answered}
use user_basic.Ktool.Greeting.Tries.{Refused, flash_greeting-Refused}
use user_basic.Ktool.Transfer.{chunks, with_header, chunk_size_of}
use user_basic.Ktool.Transfer.Install.{Accepted, IsImage, install_flash_bootloader-Accepted}
use user_basic.Ktool.Transfer.Plan.{Answered, IsPlan}
use user_basic.Ktool.Transfer.Firmware.{flash_firmware-Answered}
use user_basic.Process.Args.{Board, Args}
use user_basic.Process.World.{World, Format, fmt_binary}
use user_basic.Process.Detect.{tool_check, detect, greeted}
use user_basic.Process.Once.{first_try, detect_loop-once}
use user_basic.Process.Flow.{
  when, of_file, isp_of, given, load_isp, run_flash, with_key, boot_actions, close_port, run_job,
  is_go_e,
}

pub detect_answered :
    (b : Board) (l : Loader) (bytes text : Bytes) (op reason : ℕ) (rest : List Event)
    → l.tool_killed ≡ false
    → l.is_open ≡ true
    → recv l.events ≡ got bytes rest
    → isp_parse bytes ≡ parsed op reason text
    → detect b l ≡ (
      record l {
        events = rest;
        sent = l.sent ++ bare_frame 0xc2 ∷ [];
        actions = l.actions ++ (first_try b).0;
      },
      ok (first_try b).1,
    )
unfolding detect tool_check line_actions greeted
detect_answered b l bytes text op reason rest t o h p =
    detect_loop-once 14 b l
    ∙ ground (
      arith,
      greeting_answered (record l { actions = l.actions ++ (first_try b).0 }) bytes text op reason
          rest o h p,
    )

pub load_isp_answered :
    (w : World) (a : Args) (b : Board) (l : Loader) (ps : List Bytes) (out text : Bytes) (k : ℕ)
    (e1 e2 e3 : List Event)
    → given a.bootloader ≡ none
    → (a.baudrate == 115200) ≡ true
    → l.is_open ≡ true
    → l.kill_process ≡ false
    → IsImage sram_start (chunks w.isp_prog 1024) ps
    → Accepted (length (chunks w.isp_prog 1024)) l.events e1
    → words_request 0xc5 (sram_start ∷ 0 ∷ []) ≡ some out
    → k ≤ 4
    → Refused k e1 e2
    → recv e2 ≡ got (0xd2 ∷ 0xe0 ∷ text) e3
    → load_isp w a b l ≡ (
      record l {
        baudrate = 115200;
        events = e3;
        sent = l.sent ++ map frame ps ++ frame out ∷ [] ++ replicate (suc k) (bare_frame 0xd2);
      },
      ok tt,
    )
unfolding load_isp of_file isp_of set_baudrate when
load_isp_answered w a b l ps out text k e1 e2 e3 g r o q img acc bo kk ref greets = ground (
  arith,
  install_flash_bootloader-Accepted w.isp_prog ps l e1 o q img acc,
  boot_lem (record l { events = e1; sent = l.sent ++ map frame ps }) sram_start out o bo,
  flash_greeting-Refused k
      (record l { baudrate = 115200; events = e1; sent = l.sent ++ map frame ps ++ frame out ∷ [] })
      e2 e3 text o q kk ref greets,
)

-- The same at another rate, to which both sides change, with a greeting there.
pub load_isp_changed :
    (w : World) (a : Args) (b : Board) (l : Loader) (ps : List Bytes)
    (out change text text' : Bytes) (k k' : ℕ) (e1 e2 e3 e4 e5 : List Event)
    → given a.bootloader ≡ none
    → (a.baudrate == 115200) ≡ false
    → l.is_open ≡ true
    → l.kill_process ≡ false
    → IsImage sram_start (chunks w.isp_prog 1024) ps
    → Accepted (length (chunks w.isp_prog 1024)) l.events e1
    → words_request 0xc5 (sram_start ∷ 0 ∷ []) ≡ some out
    → k ≤ 4
    → Refused k e1 e2
    → recv e2 ≡ got (0xd2 ∷ 0xe0 ∷ text) e3
    → words_request 0xd6 (0 ∷ 4 ∷ a.baudrate ∷ []) ≡ some change
    → k' ≤ 4
    → Refused k' e3 e4
    → recv e4 ≡ got (0xd2 ∷ 0xe0 ∷ text') e5
    → load_isp w a b l ≡ (
      record l {
        baudrate = port_baudrate (is_go_e b) a.baudrate;
        events = e5;
        sent =
            l.sent
            ++ map frame ps
            ++ frame out ∷ []
            ++ replicate (suc k) (bare_frame 0xd2)
            ++ frame change ∷ []
            ++ replicate (suc k') (bare_frame 0xd2);
      },
      ok tt,
    )
unfolding load_isp of_file isp_of set_baudrate when change_baudrate packed write port_write
load_isp_changed w a b l ps out change text text' k k' e1 e2 e3 e4 e5 g r o q img acc bo kk ref
      greets ch kk' ref' greets' =
    ground (
      arith,
      install_flash_bootloader-Accepted w.isp_prog ps l e1 o q img acc,
      boot_lem (record l { events = e1; sent = l.sent ++ map frame ps }) sram_start out o bo,
      flash_greeting-Refused k
          (record l {
            baudrate = 115200;
            events = e1;
            sent = l.sent ++ map frame ps ++ frame out ∷ [];
          })
          e2 e3 text o q kk ref greets,
      flash_greeting-Refused k'
          (record l {
            baudrate = port_baudrate (is_go_e b) a.baudrate;
            events = e3;
            sent =
                l.sent
                ++ map frame ps
                ++ frame out ∷ []
                ++ replicate (suc k) (bare_frame 0xd2)
                ++ frame change ∷ [];
          })
          e4 e5 text' o q kk' ref' greets',
    )

-- The request for another rate, if there is one.
abbrev pub IsChange : ℕ → Option Bytes → Type 0
IsChange rate none = (rate == 115200) ≡ true
IsChange rate (some out) =
    ((rate == 115200) ≡ false) × (words_request 0xd6 (0 ∷ 4 ∷ rate ∷ []) ≡ some out)

-- The second loader answers the greeting at the new rate, after some refusals.
abbrev pub Regreets : Option Bytes → ℕ → List Event → List Event → Type 0
Regreets none k es es' = es ≡ es'
Regreets (some out) k es es' =
    (k ≤ 4)
    × (mid : List Event) × (text : Bytes) × Refused k es mid
    × (recv mid ≡ got (0xd2 ∷ 0xe0 ∷ text) es')

abbrev pub change_frames : Option Bytes → ℕ → List Bytes
change_frames none k = []
change_frames (some out) k = frame out ∷ replicate (suc k) (bare_frame 0xd2)

-- The rate of the port then.
abbrev pub rate_for : Bool → ℕ → ℕ
rate_for goE rate = if rate == 115200 then 115200 else port_baudrate goE rate

pub load_isp_rated :
    (w : World) (a : Args) (b : Board) (l : Loader) (ps : List Bytes) (out text : Bytes)
    (change : Option Bytes) (k k' : ℕ) (e1 e2 e3 e4 : List Event)
    → given a.bootloader ≡ none
    → l.is_open ≡ true
    → l.kill_process ≡ false
    → IsImage sram_start (chunks w.isp_prog 1024) ps
    → Accepted (length (chunks w.isp_prog 1024)) l.events e1
    → words_request 0xc5 (sram_start ∷ 0 ∷ []) ≡ some out
    → k ≤ 4
    → Refused k e1 e2
    → recv e2 ≡ got (0xd2 ∷ 0xe0 ∷ text) e3
    → IsChange a.baudrate change
    → Regreets change k' e3 e4
    → load_isp w a b l ≡ (
      record l {
        baudrate = rate_for (is_go_e b) a.baudrate;
        events = e4;
        sent =
            l.sent
            ++ map frame ps
            ++ frame out ∷ []
            ++ replicate (suc k) (bare_frame 0xd2)
            ++ change_frames change k';
      },
      ok tt,
    )
load_isp_rated w a b l ps out text none k k' e1 e2 e3 e4 g o q img acc bo kk ref greets ch re =
    ground (
      arith,
      ch,
      load_isp_answered w a b l ps out text k e1 e2 e3 g ch o q img acc bo kk ref greets,
      append-nil (l.sent ++ map frame ps ++ frame out ∷ [] ++ replicate (suc k) (bare_frame 0xd2)),
    )
load_isp_rated w a b l ps out text (some change) k k' e1 e2 e3 e4 g o q img acc bo kk ref greets
      (other, ch) (kk', mid, text', ref', greets') =
    ground (
      arith,
      other,
      load_isp_changed w a b l ps out change text text' k k' e1 e2 e3 mid e4 g other o q img acc bo
          kk ref greets ch kk' ref' greets',
      append_assoc (l.sent ++ map frame ps ++ frame out ∷ [] ++ replicate (suc k) (bare_frame 0xd2))
          (frame change ∷ []) (replicate (suc k') (bare_frame 0xd2)),
    )

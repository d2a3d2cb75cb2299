-- ===== src/Process/Whole.antt =====
-- A whole run of `KTool.process` that flashes a binary on a board that answers.
use user_basic.Base.{
  ℕ, suc, ◌≤◌, true, false, Option, none, some, List, [], ◌∷◌, ◌++◌, map, replicate, ◌≡◌, refl, ◌∙◌,
  arith, length, Line,
}
use mathlib.Core.List.{append_assoc}
use user_basic.Ktool.Slip.{Bytes, frame, Event, recv, got}
use user_basic.Ktool.Response.{parsed, isp_parse}
use user_basic.Ktool.Port.{Loader, ok}
use user_basic.Ktool.Greeting.{sram_start, words_request, bare_frame}
use user_basic.Ktool.Greeting.Tries.{Refused}
use user_basic.Ktool.Transfer.{chunks, with_header, chunk_size_of}
use user_basic.Ktool.Transfer.Install.{Accepted, IsImage}
use user_basic.Ktool.Transfer.Plan.{Answered, IsPlan}
use user_basic.Ktool.Transfer.Padding.{IsPadded}
use user_basic.Ktool.Transfer.Firmware.{written, flash_firmware-Answered}
use user_basic.Ktool.Runs.{Runs}
use user_basic.Process.Args.{Args, settle, settle_board}
use user_basic.Process.World.{World, fmt_binary, choose_port, format_of}
use user_basic.Process.Once.{first_try}
use user_basic.Process.Normal.{resets, resets_lem}
use user_basic.Process.Flow.{given, formatted, opened_file, open_firmware, process, run_job}
use user_basic.Process.Refused.{opened}
use user_basic.Process.Front.{Loading, loading_frames, rate_of, loaded, revived, process-Starts}
use user_basic.Process.Stages.{IsChange, Regreets, change_frames}
use user_basic.Process.Stages.Job.{run_job-Answered}

-- The arguments ask for no more than a flash of this binary, with its header, without a key and in
-- its order, by the default loader, and the port can be opened.
pub record Flashes (w : World) (a : Args) (port : Line) (content : Bytes) : Type 0 where
  pub found_port : choose_port w a ≡ some port
  pub opens : w.opens port ≡ true
  pub no_onlyterm : a.onlyterm ≡ false
  pub no_sram : a.sram ≡ false
  pub no_erase : a.erase ≡ false
  pub no_read : a.read ≡ false
  pub no_terminal : a.terminal ≡ false
  pub no_key : given a.key ≡ none
  pub no_bootloader : given a.bootloader ≡ none
  pub hashed : a.nosha ≡ false
  pub in_order : a.swapendian ≡ false
  pub file : w.content_of a.firmware ≡ some content
  pub binary : format_of w a content ≡ some fmt_binary

-- What is sent: the requests for the chunks of the second loader and of the image, and three others,
-- one of them only where the rate is changed; and how often the second loader refuses the greeting,
-- before and behind that change.
pub record Requests : Type 0 where
  pub isp : List Bytes
  pub boot : Bytes
  pub refusals : ℕ
  pub change : Option Bytes
  pub refusals' : ℕ
  pub init : Bytes
  pub image : Bytes
  pub flash : List Bytes

-- Every request can be packed.
pub record Packs (w : World) (a : Args) (content : Bytes) (q : Requests) : Type 0 where
  pub isp : IsImage sram_start (chunks w.isp_prog 1024) q.isp
  pub boot : words_request 0xc5 (sram_start ∷ 0 ∷ []) ≡ some q.boot
  pub change : IsChange a.baudrate q.change
  pub init : words_request 0xd7 (0 ∷ 0 ∷ []) ≡ some q.init
  pub image : with_header w.sha256 w.encrypt none content ≡ some q.image
  pub flash :
      IsPlan
        (chunk_size_of (length q.image))
        a.address
        0
        (chunks q.image (chunk_size_of (length q.image)))
        q.flash

-- The board answers each request that waits for a reply, and `rest` is left.
pub record Answers (w : World) (q : Requests) (es rest : List Event) : Type 0 where
  pub e1 : List Event
  pub e2 : List Event
  pub e3 : List Event
  pub e4 : List Event
  pub e5 : List Event
  pub e6 : List Event
  pub e7 : List Event
  pub hello : Bytes
  pub op : ℕ
  pub reason : ℕ
  pub said : Bytes
  pub greets : recv es ≡ got hello e1
  pub parses : isp_parse hello ≡ parsed op reason said
  pub accepts : Accepted (length (chunks w.isp_prog 1024)) e1 e2
  pub few : q.refusals ≤ 4
  pub refuses : Refused q.refusals e2 e3
  pub text : Bytes
  pub wakes : recv e3 ≡ got (0xd2 ∷ 0xe0 ∷ text) e7
  pub regreets : Regreets q.change q.refusals' e7 e4
  pub text' : Bytes
  pub ready : recv e4 ≡ got (0xd7 ∷ 0xe0 ∷ text') e5
  pub chip : Bytes
  pub names_chip : recv e5 ≡ got chip e6
  pub stores : Answered (length (chunks q.image (chunk_size_of (length q.image)))) e6 rest

-- The frames of the whole run, in order.
abbrev pub frames : Requests → List Bytes
frames q =
    (bare_frame 0xc2 ∷ map frame q.isp)
    ++ (frame q.boot ∷ replicate (suc q.refusals) (bare_frame 0xd2))
    ++ change_frames q.change q.refusals'
    ++ (frame q.init ∷ bare_frame 0xde ∷ map frame q.flash)

open_firmware_binary :
    (w : World) (a : Args) (port : Line) (content : Bytes) (l : Loader)
    → Flashes w a port content
    → Runs (open_firmware w a) l (l, ok (some content, fmt_binary))
unfolding open_firmware opened_file formatted
open_firmware_binary w a port content l f = record {
  by = ground (arith, f.no_erase, f.no_read, f.file, f.binary);
}

frames_lem :
    (sent : List Bytes) (q : Requests)
    → sent
        ++ loading_frames (record {
          isp = q.isp;
          boot = q.boot;
          refusals = q.refusals;
          change = q.change;
          refusals' = q.refusals';
        })
        ++ frame q.init ∷ []
        ++ bare_frame 0xde ∷ []
        ++ map frame q.flash
      ≡ sent ++ frames q
frames_lem sent q = simp append_assoc refl

-- A run that is asked for a flash of a binary, with its header and without a key, --swapendian,
-- --terminal or another loader, at any rate, on a board that answers, while nobody kills the tool,
-- comes to its end, also where the tool was killed before. It has sent exactly the frames of its
-- requests in their order, with one greeting more than the second loader refuses, and one more than
-- it refuses behind the change of the rate where another rate than 115200 is asked for; the port is
-- closed, its rate is the one that was asked for, or what stands for it on a goE board, and the
-- control lines have gone through the two resets of the board. A receiver that reads the flash
-- requests by their layout then has, from the address on and without a gap, the header, the binary
-- and the hash, with less than a chunk of zeros behind.
pub process-Flashes :
    (w : World) (a : Args) (port : Line) (content : Bytes) (q : Requests) (l : Loader)
    (rest : List Event)
    → Flashes w (settle a) port content
    → Packs w (settle a) content q
    → Answers w q l.events rest
    → (process w a l ≡ (
      record l {
        is_open = false;
        kill_process = false;
        tool_killed = false;
        baudrate = rate_of (settle a);
        events = rest;
        sent = l.sent ++ frames q;
        actions = l.actions ++ resets (settle_board a.board);
      },
      ok tt,
    ))
      × ((padded : Bytes) × (written a.address q.flash ≡ some padded)
          × IsPadded (chunk_size_of (length q.image)) q.image padded)
unfolding settle
process-Flashes w a port content q l rest f p s = (
  process-Starts w a port q' l s.e4 (some content) fmt_binary _
      (record {
        found_port = f.found_port;
        opens = f.opens;
        no_onlyterm = f.no_onlyterm;
        no_bootloader = f.no_bootloader;
      })
      (record { isp = p.isp; boot = p.boot; change = p.change })
      (record {
        e1 = s.e1;
        e2 = s.e2;
        e3 = s.e3;
        hello = s.hello;
        op = s.op;
        reason = s.reason;
        said = s.said;
        greets = s.greets;
        parses = s.parses;
        accepts = s.accepts;
        few = s.few;
        refuses = s.refuses;
        text = s.text;
        e4 = s.e7;
        wakes = s.wakes;
        regreets = s.regreets;
      })
      (open_firmware_binary w (settle a) port content (opened (revived l)) f) job,
  (flash_firmware-Answered w.sha256 w.encrypt content none a.address true q.image q.flash
      (record (opened l) { events = s.e6 }) rest refl refl p.image p.flash s.stores).1,
)
  where
    q' : Loading
    q' = record {
      isp = q.isp;
      boot = q.boot;
      refusals = q.refusals;
      change = q.change;
      refusals' = q.refusals';
    }

    job :
        Runs
          (run_job w (settle a) (first_try (settle a).board).1 (some content) fmt_binary)
          (loaded (settle a) q' s.e4 l)
          (
            record l {
              is_open = false;
              kill_process = false;
              tool_killed = false;
              baudrate = rate_of (settle a);
              events = rest;
              sent = l.sent ++ frames q;
              actions = l.actions ++ resets (settle_board a.board);
            },
            ok tt,
          )
    job = record {
      by =
          run_job-Answered w (settle a) (first_try (settle a).board).1 content q.image q.flash
            (loaded (settle a) q' s.e4 l) q.init s.text' s.chip s.e5 s.e6 rest f.no_sram f.no_erase
            f.no_read f.no_terminal f.no_key f.hashed f.in_order refl refl p.init s.ready
            s.names_chip p.image p.flash s.stores
          ∙ simp
              (
                frames_lem l.sent q,
                resets_lem l.actions (settle a).board (first_try (settle a).board).1 refl,
              )
              refl;
    }

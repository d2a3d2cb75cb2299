-- ===== src/Process/Sram.antt =====
-- A whole run of `KTool.process` that loads a program to SRAM on a board that answers.
use user_basic.Base.{ℕ, true, false, some, List, [], ◌∷◌, ◌++◌, map, ◌≡◌, refl, arith, length, Line}
use user_basic.Ktool.Slip.{Bytes, frame, Event, recv, got}
use user_basic.Ktool.Response.{parsed, flash_parse, error_code}
use user_basic.Ktool.Port.{Loader, ok, err, exit}
use user_basic.Ktool.Greeting.{words_request}
use user_basic.Ktool.Transfer.{chunks, chunk_size_of}
use user_basic.Ktool.Transfer.Padding.{IsPadded}
use user_basic.Ktool.Transfer.Plan.{IsWritePlan, Confirmed}
use user_basic.Ktool.Transfer.Firmware.{written_by, written-chunks}
use user_basic.Ktool.Transfer.Sram.{flash_firmware-sram}
use user_basic.Ktool.Runs.{Runs}
use user_basic.Process.Args.{Board, Args, settle}
use user_basic.Process.World.{World, fmt_binary, format_of}
use user_basic.Process.Once.{first_try}
use user_basic.Process.Flow.{
  open_firmware, opened_file, formatted, process, when, of_file, run_sram, run_job,
}
use user_basic.Process.Refused.{opened}
use user_basic.Process.Front.{
  Starts, Loading, PacksLoader, AnswersLoader, loading_frames, loaded, revived, process-Starts,
}

-- The arguments ask for no more than a start of this binary.
pub record LoadsSram (w : World) (a : Args) (content : Bytes) : Type 0 where
  pub to_sram : a.sram ≡ true
  pub no_erase : a.erase ≡ false
  pub no_read : a.read ≡ false
  pub no_terminal : a.terminal ≡ false
  pub file : w.content_of a.firmware ≡ some content
  pub format : format_of w a content ≡ some fmt_binary

-- The requests for the chunks of the binary, and to start it.
pub record PacksSram (content : Bytes) (ps : List Bytes) (start : Bytes) : Type 0 where
  pub writes :
      IsWritePlan true
        (chunk_size_of (length content))
        0
        0
        (chunks content (chunk_size_of (length content)))
        ps
  pub starts : words_request 0xd9 (0x80000000 ∷ 0 ∷ []) ≡ some start

-- The second loader answers them.
pub record AnswersSram (content : Bytes) (es rest : List Event) : Type 0 where
  pub mid : List Event
  pub op : ℕ
  pub reason : ℕ
  pub code : ℕ
  pub bytes : Bytes
  pub text : Bytes
  pub confirms : Confirmed true (length (chunks content (chunk_size_of (length content)))) es mid
  pub replies : recv mid ≡ got bytes rest
  pub parses : flash_parse bytes ≡ parsed op reason text
  pub known : error_code reason ≡ some code

open_firmware_sram :
    (w : World) (a : Args) (content : Bytes) (l : Loader)
    → LoadsSram w a content
    → Runs (open_firmware w a) l (l, ok (some content, fmt_binary))
unfolding open_firmware opened_file formatted
open_firmware_sram w a content l f = record {
  by = ground (arith, f.no_erase, f.no_read, f.file, f.format);
}

run_job_sram :
    (w : World) (a : Args) (b : Board) (l : Loader) (content start : Bytes) (ps : List Bytes)
    (rest : List Event)
    → l.is_open ≡ true
    → l.kill_process ≡ false
    → LoadsSram w a content
    → PacksSram content ps start
    → AnswersSram content l.events rest
    → run_job w a b (some content) fmt_binary l ≡ (
      record l { events = rest; sent = l.sent ++ (map frame ps ++ frame start ∷ []) },
      err (exit 0),
    )
unfolding run_job run_sram when of_file
run_job_sram w a b l content start ps rest o k f p s = ground (
  arith,
  f.to_sram,
  f.no_terminal,
  flash_firmware-sram w.sha256 w.encrypt content ps l s.mid start s.bytes s.text s.op s.reason
      s.code rest o k p.writes s.confirms p.starts s.replies s.parses s.known,
)

-- A run with `--sram` of a binary, by the default loader and at any rate, on a board that answers,
-- while nobody kills the tool: behind the frames that bring up the second loader it sends one write
-- to SRAM for each chunk and the request to start, and nothing to the flash, and ends with status 0.
-- A receiver that reads the writes by their layout then has, from address 0 on and without a gap,
-- the binary without a header, with less than a chunk of zeros behind.
pub process-Boots :
    (w : World) (a : Args) (port : Line) (content : Bytes) (q : Loading) (ps : List Bytes)
    (start : Bytes) (l : Loader) (e1 rest : List Event)
    → Starts w (settle a) port
    → LoadsSram w (settle a) content
    → PacksLoader w (settle a) q
    → PacksSram content ps start
    → AnswersLoader w q l.events e1
    → AnswersSram content e1 rest
    → (process w a l ≡ (
      record (loaded (settle a) q rest l) {
        sent = l.sent ++ loading_frames q ++ (map frame ps ++ frame start ∷ []);
      },
      err (exit 0),
    ))
      × ((padded : Bytes) × (written_by 0xd8 0 ps ≡ some padded)
          × IsPadded (chunk_size_of (length content)) content padded)
process-Boots w a port content q ps start l e1 rest f g p pp s ss = (
  process-Starts w a port q l e1 (some content) fmt_binary _ f p s
      (open_firmware_sram w (settle a) content (opened (revived l)) g)
      (record {
        by =
            run_job_sram w (settle a) (first_try (settle a).board).1 (loaded (settle a) q e1 l)
              content start ps rest refl refl g pp ss;
      }),
  written-chunks true 0 content ps pp.writes,
)

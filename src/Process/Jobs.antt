-- ===== src/Process/Jobs.antt =====
-- Whole runs of `KTool.process` that erase or read the flash of a board that answers.
use mathlib.Core.List.{append_assoc}
use user_basic.Base.{
  ℕ, ◌+◌, ◌*◌, ◌≤◌, ◌<◌, true, false, none, some, List, [], ◌∷◌, ◌++◌, map, ◌≡◌, refl, ◌∙◌, arith,
  length, ltb, ◌||◌, Line,
}
use user_basic.Ktool.Slip.{Bytes, frame, Event, recv, got}
use user_basic.Ktool.Response.{parsed, flash_parse, error_code}
use user_basic.Ktool.Port.{
  Loader, ok, err, exit, port_write, flash_reply, of_parsed, recv_one_return,
}
use user_basic.Ktool.Greeting.{words_request, bare_frame, flash_erase}
use user_basic.Ktool.Greeting.First.{init_flash_answered}
use user_basic.Ktool.Memory.{read_size, store_dump}
use user_basic.Ktool.Memory.Read.{Replies, IsReadPlan, read_flash-Replies}
use user_basic.Ktool.Runs.{Runs}
use user_basic.Process.Args.{Board, Args, settle}
use user_basic.Process.World.{World, fmt_binary}
use user_basic.Process.Once.{first_try}
use user_basic.Process.Flow.{open_firmware, process, when, run_read, run_job}
use user_basic.Process.Refused.{opened}
use user_basic.Process.Stages.Job.{initialised}
use user_basic.Process.Front.{
  Starts, Loading, PacksLoader, AnswersLoader, loading_frames, loaded, revived, process-Starts,
}
use user_basic.Process.Unpack.{AnswersInit}

flash_erase_answered :
    (l : Loader) (bytes text : Bytes) (op reason code : ℕ) (rest : List Event)
    → l.is_open ≡ true
    → recv l.events ≡ got bytes rest
    → flash_parse bytes ≡ parsed op reason text
    → error_code reason ≡ some code
    → flash_erase l ≡ (record l { events = rest; sent = l.sent ++ bare_frame 0xd3 ∷ [] }, ok tt)
unfolding flash_erase port_write flash_reply recv_one_return of_parsed
flash_erase_answered l bytes text op reason code rest o h p c = ground arith

-- What is written when a job follows the start of the flash.
abbrev pub job_frames : Loading → Bytes → List Bytes → List Bytes
job_frames q init ps = loading_frames q ++ (frame init ∷ bare_frame 0xde ∷ ps)

abbrev pub ended : Args → Loading → Bytes → List Bytes → List Event → Loader → Loader
ended a q init ps rest l = record (loaded a q rest l) { sent = l.sent ++ job_frames q init ps }

frames_lem :
    (sent : List Bytes) (q : Loading) (init : Bytes) (ps : List Bytes)
    → sent ++ loading_frames q ++ frame init ∷ [] ++ bare_frame 0xde ∷ [] ++ ps
      ≡ sent ++ job_frames q init ps
frames_lem sent q init ps = simp append_assoc refl

run_read_answered :
    (w : World) (a : Args) (l : Loader) (n : ℕ) (bytes : Bytes) (ps : List Bytes)
    (rest : List Event)
    → l.is_open ≡ true
    → 4096 ≤ a.rdlen
    → a.rdlen ≤ 16 * 1024 * 1024
    → w.writable a.firmware ≡ true
    → a.rdlen ≤ n * read_size a.rdlen
    → n * read_size a.rdlen < a.rdlen + read_size a.rdlen
    → IsReadPlan (read_size a.rdlen) n a.address ps
    → Replies (read_size a.rdlen) n l.events rest bytes
    → run_read w a l
      ≡ (record l { events = rest; sent = l.sent ++ map frame ps; dump = some bytes }, err (exit 0))
unfolding run_read store_dump
run_read_answered w a l n bytes ps rest o low high wr cover tight plan replies =
    let in_range : ltb a.rdlen 4096 || ltb (16 * 1024 * 1024) a.rdlen ≡ false = ground arith in
    let ran =
      (read_flash-Replies n a.rdlen a.address bytes ps (record l { dump = some [] }) rest o refl
        cover tight plan replies).0 in
    rw (in_range, wr, ran) refl

module _ (w : World) (a : Args) (b : Board) (l : Loader) (init : Bytes) (e2 : List Event)
    (o : l.is_open ≡ true) (k : l.kill_process ≡ false) (no_sram : a.sram ≡ false)
    (pi : words_request 0xd7 (0 ∷ 0 ∷ []) ≡ some init) (s : AnswersInit l.events e2) where
  run_job_erase :
      (bytes text : Bytes) (op reason code : ℕ) (rest : List Event)
      → a.erase ≡ true
      → recv e2 ≡ got bytes rest
      → flash_parse bytes ≡ parsed op reason text
      → error_code reason ≡ some code
      → run_job w a b none fmt_binary l ≡ (
        record l {
          events = rest;
          sent = l.sent ++ frame init ∷ [] ++ bare_frame 0xde ∷ [] ++ bare_frame 0xd3 ∷ [];
        },
        err (exit 0),
      )
  unfolding run_job when
  run_job_erase bytes text op reason code rest e h p c = ground (
    arith,
    init_flash_answered l init s.text s.chip s.mid e2 o k pi s.ready s.names_chip,
    flash_erase_answered (initialised init e2 l) bytes text op reason code rest o h p c,
  )

  run_job_read :
      (n : ℕ) (bytes : Bytes) (ps : List Bytes) (rest : List Event)
      → a.erase ≡ false
      → a.read ≡ true
      → 4096 ≤ a.rdlen
      → a.rdlen ≤ 16 * 1024 * 1024
      → w.writable a.firmware ≡ true
      → a.rdlen ≤ n * read_size a.rdlen
      → n * read_size a.rdlen < a.rdlen + read_size a.rdlen
      → IsReadPlan (read_size a.rdlen) n a.address ps
      → Replies (read_size a.rdlen) n e2 rest bytes
      → run_job w a b none fmt_binary l ≡ (
        record l {
          events = rest;
          sent = l.sent ++ frame init ∷ [] ++ bare_frame 0xde ∷ [] ++ map frame ps;
          dump = some bytes;
        },
        err (exit 0),
      )
  unfolding run_job when
  run_job_read n bytes ps rest e r low high wr cover tight plan replies = ground (
    arith,
    init_flash_answered l init s.text s.chip s.mid e2 o k pi s.ready s.names_chip,
    run_read_answered w a (initialised init e2 l) n bytes ps rest o low high wr cover tight plan
        replies,
  )

open_firmware-none :
    (w : World) (a : Args) (l : Loader)
    → a.erase || a.read ≡ true
    → Runs (open_firmware w a) l (l, ok (none, fmt_binary))
unfolding open_firmware
open_firmware-none w a l h = record { by = ground (arith, h) }

-- What `read_flash` leaves is whole blocks.
read_length :
    (a : Args) (n : ℕ) (bytes : Bytes) (ps : List Bytes) (l : Loader) (rest : List Event)
    → l.is_open ≡ true
    → a.rdlen ≤ n * read_size a.rdlen
    → n * read_size a.rdlen < a.rdlen + read_size a.rdlen
    → IsReadPlan (read_size a.rdlen) n a.address ps
    → Replies (read_size a.rdlen) n l.events rest bytes
    → length bytes ≡ n * read_size a.rdlen
read_length a n bytes ps l rest o cover tight plan replies =
    (read_flash-Replies n a.rdlen a.address bytes ps (record l { dump = some [] }) rest o refl cover
      tight plan replies).1

-- A run with `--erase`, by the default loader and at any rate, on a board that answers, while
-- nobody kills the tool: it sends the request to erase right after the start of the flash, and then
-- nothing, and ends with status 0, whichever operation the reply names and whichever known code it
-- holds, so also where the board refuses.
pub process-Erases :
    (w : World) (a : Args) (port : Line) (q : Loading) (init : Bytes) (l : Loader)
    (e1 e2 rest : List Event) (bytes text : Bytes) (op reason code : ℕ)
    → Starts w (settle a) port
    → a.sram ≡ false
    → a.erase ≡ true
    → PacksLoader w (settle a) q
    → words_request 0xd7 (0 ∷ 0 ∷ []) ≡ some init
    → AnswersLoader w q l.events e1
    → AnswersInit e1 e2
    → recv e2 ≡ got bytes rest
    → flash_parse bytes ≡ parsed op reason text
    → error_code reason ≡ some code
    → process w a l ≡ (ended (settle a) q init (bare_frame 0xd3 ∷ []) rest l, err (exit 0))
unfolding settle
process-Erases w a port q init l e1 e2 rest bytes text op reason code f ns er p pi s si h d c =
    process-Starts w a port q l e1 none fmt_binary _ f p s
      (open_firmware-none w (settle a) (opened (revived l)) (ground arith))
      (record {
        by =
            run_job_erase w (settle a) (first_try (settle a).board).1 (loaded (settle a) q e1 l)
              init e2 refl refl ns pi si bytes text op reason code rest er h d c
            ∙ simp (frames_lem l.sent q init (bare_frame 0xd3 ∷ [])) refl;
      })

-- A run with `--read` of a length from 4 KiB to 16 MiB, by the default loader and at any rate,
-- on a board that answers, while nobody kills the tool, and with a file that can be written: it
-- asks for one block after the other until the length is covered, the file gets the blocks in their
-- order, whole ones always, and the run ends with status 0.
pub process-Reads :
    (w : World) (a : Args) (port : Line) (q : Loading) (init : Bytes) (l : Loader)
    (e1 e2 rest : List Event) (n : ℕ) (bytes : Bytes) (ps : List Bytes)
    → Starts w (settle a) port
    → a.sram ≡ false
    → a.erase ≡ false
    → a.read ≡ true
    → 4096 ≤ a.rdlen
    → a.rdlen ≤ 16 * 1024 * 1024
    → w.writable a.firmware ≡ true
    → PacksLoader w (settle a) q
    → words_request 0xd7 (0 ∷ 0 ∷ []) ≡ some init
    → AnswersLoader w q l.events e1
    → AnswersInit e1 e2
    → a.rdlen ≤ n * read_size a.rdlen
    → n * read_size a.rdlen < a.rdlen + read_size a.rdlen
    → IsReadPlan (read_size a.rdlen) n a.address ps
    → Replies (read_size a.rdlen) n e2 rest bytes
    → (process w a l ≡ (
      record (ended (settle a) q init (map frame ps) rest l) { dump = some bytes },
      err (exit 0),
    ))
      × (length bytes ≡ n * read_size a.rdlen)
unfolding settle
process-Reads w a port q init l e1 e2 rest n bytes ps f ns ne rd low high wr p pi s si cover tight
      plan replies =
    (
      process-Starts w a port q l e1 none fmt_binary _ f p s
          (open_firmware-none w (settle a) (opened (revived l)) (ground arith))
          (record {
            by =
                run_job_read w (settle a) (first_try (settle a).board).1 (loaded (settle a) q e1 l)
                  init e2 refl refl ns pi si n bytes ps rest ne rd low high wr cover tight plan
                  replies
                ∙ simp (frames_lem l.sent q init (map frame ps)) refl;
          }),
      read_length a n bytes ps (initialised init e2 (loaded (settle a) q e1 l)) rest refl cover
          tight plan replies,
    )

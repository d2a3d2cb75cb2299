-- ===== src/Process/Unpack.antt =====
-- A whole run of `KTool.process` that flashes a kfpkg archive on a board that answers.
use mathlib.Core.List.{append_assoc}
use user_basic.Base.{
  true, false, some, List, [], ◌∷◌, ◌++◌, map, ◌≡◌, refl, ◌∙◌, arith, Line, codes, All,
}
use user_basic.Ktool.Slip.{Bytes, frame, Event, recv, got}
use user_basic.Ktool.Port.{Loader, ok}
use user_basic.Ktool.Greeting.{words_request, bare_frame}
use user_basic.Ktool.Runs.{Runs}
use user_basic.Process.Args.{Args, settle, settle_board}
use user_basic.Process.World.{World, fmt_kfpkg, format_of}
use user_basic.Process.FlashList.{FlashEntry, quote_addresses}
use user_basic.Process.Once.{first_try}
use user_basic.Process.Normal.{resets, resets_lem}
use user_basic.Process.Flow.{
  Unzipped, formatted, opened_file, open_firmware, process, of_file, flash_archive, run_flash,
}
use user_basic.Process.Refused.{opened}
use user_basic.Process.Stages.Job.{initialised, run_job-flashed}
use user_basic.Process.Package.{Item, AreItems, IsStored, packets_of, flash_entries-AreItems}
use user_basic.Process.Front.{
  Starts, Loading, PacksLoader, AnswersLoader, loading_frames, rate_of, loaded, revived,
  process-Starts,
}

-- The arguments ask for no more than a flash of this archive, whose list has these entries.
pub record Unpacks (w : World) (a : Args) (z : Unzipped) (en : List FlashEntry) : Type 0 where
  pub no_sram : a.sram ≡ false
  pub no_erase : a.erase ≡ false
  pub no_read : a.read ≡ false
  pub no_terminal : a.terminal ≡ false
  pub content : Bytes
  pub file : w.content_of a.firmware ≡ some content
  pub format : format_of w a content ≡ some fmt_kfpkg
  pub unzips : w.unzip a.firmware ≡ some z
  pub list : Line
  pub listed : z (codes "flash-list.json") ≡ some list
  pub entries : w.json_files (quote_addresses list) ≡ some en

-- The second loader answers the start of the flash, and names the chip.
pub record AnswersInit (es rest : List Event) : Type 0 where
  pub mid : List Event
  pub text : Bytes
  pub ready : recv es ≡ got (0xd7 ∷ 0xe0 ∷ text) mid
  pub chip : Bytes
  pub names_chip : recv mid ≡ got chip rest

open_firmware_package :
    (w : World) (a : Args) (z : Unzipped) (en : List FlashEntry) (l : Loader) (u : Unpacks w a z en)
    → Runs (open_firmware w a) l (l, ok (some u.content, fmt_kfpkg))
unfolding open_firmware opened_file formatted
open_firmware_package w a z en l u = record {
  by = ground (arith, u.no_erase, u.no_read, u.file, u.format);
}

run_flash_package :
    (w : World) (a : Args) (z : Unzipped) (en : List FlashEntry) (is : List Item) (l : Loader)
    (es' : List Event)
    → (u : Unpacks w a z en) → l.is_open ≡ true
    → l.kill_process ≡ false
    → l.tool_killed ≡ false
    → AreItems w z en is l.events es'
    → run_flash w a (some u.content) fmt_kfpkg l
      ≡ (record l { events = es'; sent = l.sent ++ map frame (packets_of is) }, ok tt)
unfolding run_flash flash_archive of_file
run_flash_package w a z en is l es' u o k t h =
    ground
      (arith, u.unzips, u.listed, u.entries, (flash_entries-AreItems w z en is l es' o k t h).0)

frames_lem :
    (sent : List Bytes) (q : Loading) (init : Bytes) (flash : List Bytes)
    → sent ++ loading_frames q ++ frame init ∷ [] ++ bare_frame 0xde ∷ [] ++ flash
      ≡ sent ++ (loading_frames q ++ (frame init ∷ bare_frame 0xde ∷ flash))
frames_lem sent q init flash = simp append_assoc refl

-- A run that is asked for a flash of an archive, by the default loader and at any rate, on a
-- board that answers, while nobody kills the tool, comes to its end. It has sent the frames that
-- bring up the second loader, and then the requests for the entries of the list in its order, each
-- of which is to keep the order of its bytes; the port is closed and the board is reset. A receiver
-- that reads the requests by their layout then has for each entry, from its address on and without a
-- gap, its file, with header and hash where the entry asks for them, and less than a chunk of zeros
-- behind.
pub process-Unpacks :
    (w : World) (a : Args) (port : Line) (z : Unzipped) (en : List FlashEntry) (is : List Item)
    (q : Loading) (init : Bytes) (l : Loader) (e1 e2 rest : List Event)
    → Starts w (settle a) port
    → Unpacks w (settle a) z en
    → PacksLoader w (settle a) q
    → words_request 0xd7 (0 ∷ 0 ∷ []) ≡ some init
    → AnswersLoader w q l.events e1
    → AnswersInit e1 e2
    → AreItems w z en is e2 rest
    → (process w a l ≡ (
      record l {
        is_open = false;
        kill_process = false;
        tool_killed = false;
        baudrate = rate_of (settle a);
        events = rest;
        sent =
            l.sent
            ++ (loading_frames q ++ (frame init ∷ bare_frame 0xde ∷ map frame (packets_of is)));
        actions = l.actions ++ resets (settle_board a.board);
      },
      ok tt,
    ))
      × All IsStored is
unfolding settle
process-Unpacks w a port z en is q init l e1 e2 rest f u p pi s si items = (
  process-Starts w a port q l e1 (some u.content) fmt_kfpkg _ f p s
      (open_firmware_package w (settle a) z en (opened (revived l)) u)
      (record {
        by =
            run_job-flashed w (settle a) (first_try (settle a).board).1 (some u.content) fmt_kfpkg
              (packets_of is) (loaded (settle a) q e1 l) init si.text si.chip si.mid e2 rest
              u.no_sram u.no_erase u.no_read u.no_terminal refl refl pi si.ready si.names_chip
              (run_flash_package w (settle a) z en is
                (initialised init e2 (loaded (settle a) q e1 l)) rest u refl refl refl items)
            ∙ simp
                (
                  frames_lem l.sent q init (map frame (packets_of is)),
                  resets_lem l.actions (settle a).board (first_try (settle a).board).1 refl,
                )
                refl;
      }),
  (flash_entries-AreItems w z en is (initialised init e2 (loaded (settle a) q e1 l)) rest refl refl
      refl items).1,
)

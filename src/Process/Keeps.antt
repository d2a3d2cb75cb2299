-- ===== src/Process/Keeps.antt =====
-- `KTool.process` behind the opening of the port keeps a stable property of the loader.
use user_basic.Ktool.Transfer.{chunks, chunk_size_of}
use user_basic.Base.{
  ℕ, zero, suc, Bool, true, false, Option, none, some, List, [], ◌∷◌, Line, ◌++◌, codes, length,
}
use user_basic.Ktool.Slip.{Bytes}
use user_basic.Ktool.Reset.{Action}
use user_basic.Ktool.Port.{
  Loader, Failure, stalled, timed_out, no_file, bad_zip, bad_value, bad_type, bad_struct, exit, Res,
  ok, err, Io, ◌>>◌, line_actions, close, raise_exception, no_key,
}
use user_basic.Ktool.Greeting.{greeting}
use user_basic.Ktool.Keeps.{
  IsStable, Keeps, keeps_rules, Keeps-raise, Keeps-pure, Keeps-bind, Keeps-if,
}
use user_basic.Ktool.Keeps.Calls.{branch, raise_exception-Keeps, check_kill_exit-Keeps}
use user_basic.Ktool.Keeps.Operations.{
  greeting-Keeps, flash_greeting-Keeps, init_flash-Keeps, boot-Keeps, set_baudrate-Keeps,
  change_baudrate-Keeps, flash_erase-Keeps,
}
use user_basic.Ktool.Keeps.Data.{
  install_flash_bootloader-Keeps, flash_firmware-Keeps, read_flash-Keeps, load_elf_to_sram-Keeps,
  flash_image-Keeps, store_dump-Keeps,
}
use user_basic.Process.Args.{Board, Args}
use user_basic.Process.FlashList.{Address, text, number, FlashEntry, quote_addresses}
use user_basic.Base.Int.{ℤ, pos, negsuc}
use user_basic.Base.Number.{auto_int}
use user_basic.Process.World.{World, Format, fmt_binary, fmt_elf, fmt_kfpkg}
use user_basic.Process.Detect.{
  tool_check, untimed, try_reset, tries, try_all, greeted, round, detect_loop, detect, after_round,
}
use user_basic.Process.Flow.{
  open_terminal, when, of_file, load_isp, run_sram, run_read, flash_entries, flash_archive,
  with_key, Unzipped, of_integer, of_address, run_flash, close_port, run_job, of_port, flash_at,
  refused_chunks, or_false,
}

pub of_file-Keeps :
    {P : Loader → Type 0} {A : Type 0} (e : Failure) (o : Option A) → Keeps P (of_file e o)
unfolding of_file
of_file-Keeps e none = Keeps-raise e
of_file-Keeps e (some a) = Keeps-pure a

-- What is kept where the port is closed.
pub of_port-Keeps :
    {P : Loader → Type 0}
    → ((l : Loader) → P l → P (close l))
    → (o : Option Line) → Keeps P (of_port o)
unfolding of_port raise_exception
of_port-Keeps h none = record { at = h }
of_port-Keeps h (some port) = Keeps-pure port

module _ {P : Loader → Type 0} (stable : IsStable P) where
  pub tool_check-Keeps : Keeps P tool_check
  unfolding tool_check
  tool_check-Keeps = record { at = λ l h. branch P l.tool_killed _ _ (λ _. stable.on_close l h) h }

  untimed-Keeps : {A : Type 0} (r : Loader × Res A) → P r.0 → P (untimed r).0
  unfolding untimed
  untimed-Keeps (l, ok a) h = h
  untimed-Keeps (l, err timed_out) h = h
  untimed-Keeps (l, err _) h = h

  greeted-Keeps : {A : Type 0} (r : Loader × Res A) → P r.0 → P (greeted r).0
  unfolding greeted
  greeted-Keeps (l, ok a) h = h
  greeted-Keeps (l, err stalled) h = h
  greeted-Keeps (l, err (exit n)) h = h
  greeted-Keeps (l, err _) h = stable.on_close l h

  after_round-Keeps :
      (again : Io Board) (found : Option Board) → Keeps P again → Keeps P (after_round again found)
  unfolding after_round
  after_round-Keeps again none h = h
  after_round-Keeps again (some b) h = Keeps-pure b

  when-Keeps : (b : Bool) (m : Io (Unit {0})) → Keeps P m → Keeps P (when b m)
  unfolding when
  when-Keeps true m h = h
  when-Keeps false m h = Keeps-pure tt

  pub load_isp-Keeps : (w : World) (a : Args) (b : Board) → Keeps P (load_isp w a b)
  unfolding load_isp
  load_isp-Keeps w a b =
      search
        (
          keeps_rules, of_file-Keeps, install_flash_bootloader-Keeps, boot-Keeps,
          set_baudrate-Keeps, flash_greeting-Keeps, change_baudrate-Keeps, when-Keeps,
        )
        depth 12

  of_integer-Keeps : (o : Option ℤ) → Keeps P (of_integer o)
  unfolding of_integer
  of_integer-Keeps none = Keeps-raise bad_value
  of_integer-Keeps (some n) = Keeps-pure n

  of_address-Keeps : (address : Address) → Keeps P (of_address address)
  unfolding of_address
  of_address-Keeps (number n) = Keeps-raise bad_type
  of_address-Keeps (text s) = of_integer-Keeps (auto_int s)

  flash_at-Keeps :
      (w : World) (content : Bytes) (address : ℤ) (prefix swap : Bool)
      → Keeps P (flash_at w content address prefix swap)
  unfolding flash_at refused_chunks
  flash_at-Keeps w content (pos n) prefix swap = flash_firmware-Keeps stable _ _ _ _ _ _ _ _ _
  flash_at-Keeps w content (negsuc n) prefix swap =
      Keeps-bind _ _ (flash_image-Keeps stable _ _ _ _ _)
        (λ image. go (chunks image (chunk_size_of (length image))))
    where
      go : (cs : List Bytes) → Keeps P (refused_chunks cs)
      go [] = Keeps-pure tt
      go (c ∷ cs) = Keeps-bind _ _ (check_kill_exit-Keeps stable) (λ _. Keeps-raise bad_struct)

  flash_entries-Keeps :
      (w : World) (z : Unzipped) (es : List FlashEntry) → Keeps P (flash_entries w z es)
  unfolding flash_entries
  flash_entries-Keeps w z [] = Keeps-pure tt
  flash_entries-Keeps w z (e ∷ es) = Keeps-bind _ _ tool_check-Keeps (λ _.
      Keeps-bind _ _ (of_address-Keeps e.address) (λ address.
        Keeps-bind _ _ (of_file-Keeps no_file (z e.bin)) (λ content.
          Keeps-bind _ _ (of_file-Keeps no_key e.sha256_prefix) (λ prefix.
            Keeps-bind _ _ (flash_at-Keeps w content address prefix (or_false e.swap))
              (λ _. flash_entries-Keeps w z es)))))

  flash_archive-Keeps : (w : World) (z : Option Unzipped) → Keeps P (flash_archive w z)
  unfolding flash_archive
  flash_archive-Keeps w none = raise_exception-Keeps stable bad_zip
  flash_archive-Keeps w (some z) =
      Keeps-bind _ _ (of_file-Keeps no_file (z (codes "flash-list.json"))) (λ list.
        Keeps-bind _ _ (of_file-Keeps bad_value (w.json_files (quote_addresses list)))
          (λ files. flash_entries-Keeps w z files))

  with_key-Keeps :
      (w : World) (a : Args) (content : Bytes) (key : Option Line)
      → Keeps P (with_key w a content key)
  unfolding with_key
  with_key-Keeps w a content none = flash_firmware-Keeps stable _ _ _ _ _ _ _ _ _
  with_key-Keeps w a content (some hex) =
      search (keeps_rules, of_file-Keeps, when-Keeps, raise_exception-Keeps, flash_firmware-Keeps)

  pub run_flash-Keeps :
      (w : World) (a : Args) (file : Option Bytes) (f : Format) → Keeps P (run_flash w a file f)
  unfolding run_flash
  run_flash-Keeps w a file fmt_kfpkg = flash_archive-Keeps w (w.unzip a.firmware)
  run_flash-Keeps w a file fmt_elf = search (keeps_rules, of_file-Keeps, with_key-Keeps)
  run_flash-Keeps w a file fmt_binary = search (keeps_rules, of_file-Keeps, with_key-Keeps)

  close_port-Keeps : Keeps P close_port
  unfolding close_port
  close_port-Keeps = record { at = stable.on_close }

-- A property that says nothing of the control lines, nor of the file of `--read`.
pub record IsFree (P : Loader → Type 0) : Type 0 where
  pub on_lines : (l : Loader) (as' : List Action) → P l → P (record l { actions = as' })
  pub on_dump : (l : Loader) (d : Option Bytes) → P l → P (record l { dump = d })

module _ {P : Loader → Type 0} (stable : IsStable P) (free : IsFree P) where
  line_actions-Keeps : (added : List Action) → Keeps P (line_actions added)
  unfolding line_actions
  line_actions-Keeps added = record { at = λ l. free.on_lines l (l.actions ++ added) }

  try_reset-Keeps : (reset : List Action) → Keeps P (try_reset reset)
  unfolding try_reset
  try_reset-Keeps reset = record { at = λ l h. untimed-Keeps stable _ (both.at l h) }
    where
      both : Keeps P (line_actions reset >> greeting)
      both = search (keeps_rules, line_actions-Keeps, greeting-Keeps)

  try_all-Keeps : (ts : List (List Action × Board)) → Keeps P (try_all ts)
  unfolding try_all
  try_all-Keeps [] = Keeps-pure none
  try_all-Keeps ((reset, b) ∷ rest) =
      Keeps-bind _ _ (try_reset-Keeps reset)
        (λ done. Keeps-if done _ _ (Keeps-pure (some b)) (try_all-Keeps rest))

  round-Keeps : (b : Board) → Keeps P (round b)
  unfolding round
  round-Keeps b = record { at = λ l h. greeted-Keeps stable _ ((try_all-Keeps (tries b)).at l h) }

  detect_loop-Keeps : (n : ℕ) (b : Board) → Keeps P (detect_loop n b)
  unfolding detect_loop
  detect_loop-Keeps zero b = search (keeps_rules, tool_check-Keeps)
  detect_loop-Keeps (suc n) b = Keeps-bind _ _ (tool_check-Keeps stable) (λ _.
      Keeps-bind _ _ (round-Keeps b)
        (λ found. after_round-Keeps stable _ found (detect_loop-Keeps n b)))

  pub detect-Keeps : (b : Board) → Keeps P (detect b)
  unfolding detect
  detect-Keeps b = detect_loop-Keeps 15 b

  open_terminal-Keeps : (w : World) (reset : Bool) (a : Args) → Keeps P (open_terminal w reset a)
  unfolding open_terminal
  open_terminal-Keeps w reset a = search (keeps_rules, line_actions-Keeps)

  run_sram-Keeps :
      (w : World) (a : Args) (file : Option Bytes) (f : Format) → Keeps P (run_sram w a file f)
  unfolding run_sram
  run_sram-Keeps w a file fmt_kfpkg = Keeps-raise (exit 1)
  run_sram-Keeps w a file fmt_elf =
      search (keeps_rules, of_file-Keeps, load_elf_to_sram-Keeps, when-Keeps, open_terminal-Keeps)
  run_sram-Keeps w a file fmt_binary =
      search (keeps_rules, of_file-Keeps, flash_firmware-Keeps, when-Keeps, open_terminal-Keeps)

  run_read-Keeps : (w : World) (a : Args) → Keeps P (run_read w a)
  unfolding run_read
  run_read-Keeps w a =
      search
        (keeps_rules, read_flash-Keeps stable free.on_dump, store_dump-Keeps stable free.on_dump)

  pub run_job-Keeps :
      (w : World) (a : Args) (b : Board) (file : Option Bytes) (f : Format)
      → Keeps P (run_job w a b file f)
  unfolding run_job
  run_job-Keeps w a b file f =
      search
        (
          keeps_rules, when-Keeps, run_sram-Keeps, init_flash-Keeps, flash_erase-Keeps,
          run_read-Keeps, run_flash-Keeps, line_actions-Keeps, close_port-Keeps,
          open_terminal-Keeps,
        )
        depth 14

-- ===== src/Ktool/Keeps/Data.antt =====
-- The transfers of `MAIXLoader` keep a stable property.
use user_basic.Base.{
  ℕ, zero, suc, ◌+◌, Bool, true, false, Option, none, some, List, [], ◌∷◌, length, ◌-◌, ◌==◌,
}
use user_basic.Ktool.Slip.{Bytes}
use user_basic.Ktool.Port.{
  Loader, bad_index, exit, stalled, Io, ◌>>◌, write, flash_recv_debug, catch,
}
use user_basic.Ktool.Greeting.{sram_start}
use user_basic.Ktool.Transfer.{
  install_chunk, install_chunks, install_flash_bootloader, chunks, swap_words, of_swapped,
  swapped_data, after_try, send_loop, send_data_to_isp, flash_chunks, start_program, flash_image,
  flash_firmware,
}
use user_basic.Ktool.Memory.{
  keep_reply, read_loop, read_flash, Segment, is_loaded, load_segments, load_elf_to_sram,
  store_dump,
}
use user_basic.Ktool.Keeps.{IsStable, Keeps, Keeps-raise, Keeps-pure, Keeps-bind, Keeps-if}
use user_basic.Ktool.Keeps.Calls.{
  call_rules, check_kill_exit-Keeps, packed-Keeps, write-Keeps, recv_debug-Keeps,
}

module _ {P : Loader → Type 0} (stable : IsStable P) where
  install_chunk-Keeps :
      (fuel address : ℕ) (chunk : Bytes) → Keeps P (install_chunk fuel address chunk)
  unfolding install_chunk
  install_chunk-Keeps zero address chunk = Keeps-raise stalled
  install_chunk-Keeps (suc fuel) address chunk =
      let again = install_chunk-Keeps fuel (address + length chunk) chunk in
      Keeps-bind _ _ (check_kill_exit-Keeps stable) (λ _.
        Keeps-bind _ _ (packed-Keeps stable _) (λ out. Keeps-bind _ _ (write-Keeps stable out) (λ _.
          Keeps-bind _ _ (recv_debug-Keeps stable)
            (λ accepted. Keeps-if accepted _ _ (Keeps-pure _) again))))

  install_chunks-Keeps :
      (fuel address : ℕ) (cs : List Bytes) → Keeps P (install_chunks fuel address cs)
  unfolding install_chunks
  install_chunks-Keeps fuel address [] = Keeps-pure tt
  install_chunks-Keeps fuel address (c ∷ cs) = Keeps-bind _ _ (check_kill_exit-Keeps stable) (λ _.
      Keeps-bind _ _ (install_chunk-Keeps fuel address c) (λ a. install_chunks-Keeps fuel a cs))

  pub install_flash_bootloader-Keeps : (image : Bytes) → Keeps P (install_flash_bootloader image)
  unfolding install_flash_bootloader
  install_flash_bootloader-Keeps image = record {
    at = λ l. (install_chunks-Keeps (suc (length l.events)) sram_start (chunks image 1024)).at l;
  }

  of_swapped-Keeps : (o : Option Bytes) → Keeps P (of_swapped o)
  unfolding of_swapped
  of_swapped-Keeps none = Keeps-raise bad_index
  of_swapped-Keeps (some bytes) = Keeps-pure bytes

  swapped_data-Keeps : (swap : Bool) (bytes : Bytes) → Keeps P (swapped_data swap bytes)
  unfolding swapped_data
  swapped_data-Keeps false bytes = Keeps-pure bytes
  swapped_data-Keeps true bytes = of_swapped-Keeps (swap_words bytes)

  after_try-Keeps :
      (again : Io (Unit {0})) (r : Option Bool) → Keeps P again → Keeps P (after_try again r)
  unfolding after_try
  after_try-Keeps again none h = h
  after_try-Keeps again (some verdict) h = Keeps-pure tt

  sent_once-Keeps : (out : Bytes) → Keeps P (catch (do write out; flash_recv_debug))
  sent_once-Keeps out = search call_rules

  send_loop-Keeps : (n : ℕ) (out : Bytes) → Keeps P (send_loop n out)
  unfolding send_loop
  send_loop-Keeps zero out =
      Keeps-bind _ _ (sent_once-Keeps out) (λ r. after_try-Keeps _ r (Keeps-raise (exit 2)))
  send_loop-Keeps (suc n) out =
      Keeps-bind _ _ (sent_once-Keeps out) (λ r. after_try-Keeps _ r (send_loop-Keeps n out))

  pub send_data_to_isp-Keeps :
      (chunk : Bytes) (address : ℕ) (tosram swap : Bool)
      → Keeps P (send_data_to_isp chunk address tosram swap)
  unfolding send_data_to_isp
  send_data_to_isp-Keeps chunk address tosram swap =
      search (call_rules, swapped_data-Keeps, send_loop-Keeps)

  flash_chunks-Keeps :
      (size offset : ℕ) (tosram swap : Bool) (n : ℕ) (cs : List Bytes)
      → Keeps P (flash_chunks size offset tosram swap n cs)
  unfolding flash_chunks
  flash_chunks-Keeps size offset tosram swap n [] = Keeps-pure tt
  flash_chunks-Keeps size offset tosram swap n (c ∷ cs) =
      Keeps-bind _ _ (check_kill_exit-Keeps stable) (λ _.
        Keeps-bind _ _ (send_data_to_isp-Keeps _ _ tosram swap)
          (λ _. flash_chunks-Keeps size offset tosram swap (suc n) cs))

  start_program-Keeps : Keeps P start_program
  unfolding start_program
  start_program-Keeps = search call_rules

  module _ (on_dump : (l : Loader) (d : Option Bytes) → P l → P (record l { dump = d })) where
    pub store_dump-Keeps : (bytes : Bytes) → Keeps P (store_dump bytes)
    unfolding store_dump
    store_dump-Keeps bytes = record { at = λ l. on_dump l (some bytes) }

    keep_reply-Keeps :
        (rdsize : ℕ) (again : Bytes → Io Bytes) (file response : Bytes)
        → ((file' : Bytes) → Keeps P (again file'))
        → Keeps P (keep_reply rdsize again file response)
    unfolding keep_reply
    keep_reply-Keeps rdsize again file response h =
        Keeps-if (length response - 16 == rdsize) _ _
          (Keeps-bind _ _ (store_dump-Keeps _) (λ _. h _)) (Keeps-raise (exit 2))

    read_loop-Keeps :
        (fuel rdsize size recv_len faddress : ℕ) (file : Bytes)
        → Keeps P (read_loop fuel rdsize size recv_len faddress file)
    unfolding read_loop
    read_loop-Keeps zero rdsize size recv_len faddress file = Keeps-raise stalled
    read_loop-Keeps (suc fuel) rdsize size recv_len faddress file =
        let again = read_loop-Keeps fuel rdsize size (recv_len + rdsize) (faddress + rdsize) in
        search (call_rules, keep_reply-Keeps, again)

    pub read_flash-Keeps : (size address : ℕ) → Keeps P (read_flash size address)
    unfolding read_flash
    read_flash-Keeps size address = read_loop-Keeps _ _ _ _ _ _

  module _ (sha256 : Bytes → Bytes) (encrypt : Bytes → List Bytes → List Bytes) where
    pub flash_image-Keeps :
        (prefix : Bool) (key : Option Bytes) (firmware : Bytes)
        → Keeps P (flash_image sha256 encrypt prefix key firmware)
    unfolding flash_image
    flash_image-Keeps true key firmware = packed-Keeps stable _
    flash_image-Keeps false key firmware = Keeps-pure firmware

    pub flash_firmware-Keeps :
        (firmware : Bytes) (key : Option Bytes) (offset : ℕ) (prefix tosram dostart swap : Bool)
        → Keeps P (flash_firmware sha256 encrypt firmware key offset prefix tosram dostart swap)
    unfolding flash_firmware
    flash_firmware-Keeps firmware key offset prefix tosram dostart swap =
        search (call_rules, flash_image-Keeps, flash_chunks-Keeps, start_program-Keeps)

    load_segments-Keeps : (ss : List Segment) → Keeps P (load_segments sha256 encrypt ss)
    unfolding load_segments
    load_segments-Keeps [] = Keeps-pure tt
    load_segments-Keeps (s ∷ ss) =
        let rest = load_segments-Keeps ss in
        Keeps-if (is_loaded s) _ _
          (Keeps-bind _ _ (flash_firmware-Keeps s.contents none 0 true true false false)
            (λ _. rest))
          rest

    pub load_elf_to_sram-Keeps : (ss : List Segment) → Keeps P (load_elf_to_sram sha256 encrypt ss)
    unfolding load_elf_to_sram
    load_elf_to_sram-Keeps ss = search (call_rules, load_segments-Keeps, start_program-Keeps)

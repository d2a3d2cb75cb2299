-- ===== src/Ktool/Stall/Data.antt =====
-- The transfers of `MAIXLoader` stall only where no deadline is ahead.
use user_basic.Base.{
  ℕ, zero, suc, ◌+◌, ◌≤◌, ◌<◌, ltb, ◌≡◌, arith, Bool, true, false, Option, none, some, List, [],
  ◌∷◌,
}
use user_basic.Ktool.Slip.{Bytes}
use user_basic.Ktool.Port.{bad_index, exit, Io, ◌>>◌, write, flash_recv_debug, catch}
use user_basic.Ktool.Transfer.{
  swap_words, of_swapped, swapped_data, after_try, send_loop, send_data_to_isp, flash_chunks,
  start_program, flash_image, flash_firmware,
}
use user_basic.Ktool.Memory.{
  keep_reply, read_loop, read_size, read_flash, Segment, is_loaded, load_segments, load_elf_to_sram,
  store_dump,
}
use user_basic.Ktool.Stall.{
  StallsDry, stall_calls, StallsDry-raise, StallsDry-pure, StallsDry-bind, StallsDry-if,
  check_kill_exit-StallsDry, packed-StallsDry,
}

of_swapped-StallsDry : (o : Option Bytes) → StallsDry (of_swapped o)
unfolding of_swapped
of_swapped-StallsDry none = StallsDry-raise bad_index tt
of_swapped-StallsDry (some bytes) = StallsDry-pure bytes

swapped_data-StallsDry : (swap : Bool) (bytes : Bytes) → StallsDry (swapped_data swap bytes)
unfolding swapped_data
swapped_data-StallsDry false bytes = StallsDry-pure bytes
swapped_data-StallsDry true bytes = of_swapped-StallsDry (swap_words bytes)

after_try-StallsDry :
    (again : Io (Unit {0})) (r : Option Bool) → StallsDry again → StallsDry (after_try again r)
unfolding after_try
after_try-StallsDry again none h = h
after_try-StallsDry again (some verdict) h = StallsDry-pure tt

sent_once-StallsDry : (out : Bytes) → StallsDry (catch (do write out; flash_recv_debug))
sent_once-StallsDry out = search stall_calls

send_loop-StallsDry : (n : ℕ) (out : Bytes) → StallsDry (send_loop n out)
unfolding send_loop
send_loop-StallsDry zero out =
    StallsDry-bind _ _ (sent_once-StallsDry out)
      (λ r. after_try-StallsDry _ r (StallsDry-raise (exit 2) tt))
send_loop-StallsDry (suc n) out =
    StallsDry-bind _ _ (sent_once-StallsDry out)
      (λ r. after_try-StallsDry _ r (send_loop-StallsDry n out))

pub send_data_to_isp-StallsDry :
    (chunk : Bytes) (address : ℕ) (tosram swap : Bool)
    → StallsDry (send_data_to_isp chunk address tosram swap)
unfolding send_data_to_isp
send_data_to_isp-StallsDry chunk address tosram swap =
    search (stall_calls, swapped_data-StallsDry, send_loop-StallsDry)

flash_chunks-StallsDry :
    (size offset : ℕ) (tosram swap : Bool) (n : ℕ) (cs : List Bytes)
    → StallsDry (flash_chunks size offset tosram swap n cs)
unfolding flash_chunks
flash_chunks-StallsDry size offset tosram swap n [] = StallsDry-pure tt
flash_chunks-StallsDry size offset tosram swap n (c ∷ cs) =
    StallsDry-bind _ _ (check_kill_exit-StallsDry) (λ _.
      StallsDry-bind _ _ (send_data_to_isp-StallsDry _ _ tosram swap)
        (λ _. flash_chunks-StallsDry size offset tosram swap (suc n) cs))

start_program-StallsDry : StallsDry start_program
unfolding start_program
start_program-StallsDry = search stall_calls

pub store_dump-StallsDry : (bytes : Bytes) → StallsDry (store_dump bytes)
unfolding store_dump
store_dump-StallsDry bytes = record { at = λ l. tt }

keep_reply-StallsDry :
    (rdsize : ℕ) (again : Bytes → Io Bytes) (file response : Bytes)
    → ((file' : Bytes) → StallsDry (again file'))
    → StallsDry (keep_reply rdsize again file response)
unfolding keep_reply
keep_reply-StallsDry rdsize again file response h = search (stall_calls, store_dump-StallsDry, h)

-- As long as the fuel covers what is left to read, it does not run out.
read_loop-StallsDry :
    (fuel rdsize size recv_len faddress : ℕ) (file : Bytes)
    → 0 < rdsize
    → size ≤ recv_len + fuel
    → StallsDry (read_loop (suc fuel) rdsize size recv_len faddress file)
unfolding read_loop
read_loop-StallsDry zero rdsize size recv_len faddress file pos enough =
    let last : ltb recv_len size ≡ false = ground arith in rw last (StallsDry-pure file)
read_loop-StallsDry (suc fuel) rdsize size recv_len faddress file pos enough =
    let again = λ (file' : Bytes).
      read_loop-StallsDry fuel rdsize size (recv_len + rdsize) (faddress + rdsize) file' pos
        (omega arith) in
    search (stall_calls, keep_reply-StallsDry, again)

pub read_flash-StallsDry : (size address : ℕ) → StallsDry (read_flash size address)
unfolding read_flash
read_flash-StallsDry size address =
    read_loop-StallsDry size (read_size size) size 0 address [] (ground arith) (omega arith)

module _ (sha256 : Bytes → Bytes) (encrypt : Bytes → List Bytes → List Bytes) where
  pub flash_image-StallsDry :
      (prefix : Bool) (key : Option Bytes) (firmware : Bytes)
      → StallsDry (flash_image sha256 encrypt prefix key firmware)
  unfolding flash_image
  flash_image-StallsDry true key firmware = packed-StallsDry _
  flash_image-StallsDry false key firmware = StallsDry-pure firmware

  pub flash_firmware-StallsDry :
      (firmware : Bytes) (key : Option Bytes) (offset : ℕ) (prefix tosram dostart swap : Bool)
      → StallsDry (flash_firmware sha256 encrypt firmware key offset prefix tosram dostart swap)
  unfolding flash_firmware
  flash_firmware-StallsDry firmware key offset prefix tosram dostart swap =
      search (stall_calls, flash_image-StallsDry, flash_chunks-StallsDry, start_program-StallsDry)

  load_segments-StallsDry : (ss : List Segment) → StallsDry (load_segments sha256 encrypt ss)
  unfolding load_segments
  load_segments-StallsDry [] = StallsDry-pure tt
  load_segments-StallsDry (s ∷ ss) =
      let rest = load_segments-StallsDry ss in
      StallsDry-if (is_loaded s) _ _
        (StallsDry-bind _ _ (flash_firmware-StallsDry s.contents none 0 true true false false)
          (λ _. rest))
        rest

  pub load_elf_to_sram-StallsDry :
      (ss : List Segment) → StallsDry (load_elf_to_sram sha256 encrypt ss)
  unfolding load_elf_to_sram
  load_elf_to_sram-StallsDry ss =
      search (stall_calls, load_segments-StallsDry, start_program-StallsDry)

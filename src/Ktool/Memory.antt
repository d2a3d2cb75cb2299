-- ===== src/Ktool/Memory.antt =====
-- `MAIXLoader` of ktool.py: reading the flash, and loading an ELF file into SRAM.
pub mod Read
pub mod Segments
use user_basic.Base.{
  ℕ, zero, suc, ◌+◌, ◌-◌, ◌*◌, ◌/◌, ◌%◌, ◌^◌, Bool, true, false, not, ◌||◌, ◌&&◌, Option, none,
  List, [], ◌∷◌, ◌++◌, ltb, ◌==◌, if◌then◌else◌, length, drop, some,
}
use user_basic.Ktool.Slip.{Bytes}
use user_basic.Ktool.Port.{
  exit, stalled, Io, ◌>>=◌, ◌>>◌, pure, raise, write, recv_one_return, packed, ok,
}
use user_basic.Ktool.Greeting.{words_request}
use user_basic.Ktool.Transfer.{flash_firmware, start_program}

abbrev pub read_size : ℕ → ℕ
read_size n = if ltb n (128 * 1024) then 4096 else 65536

-- The file of `--read` holds these bytes.
unfoldable pub store_dump : Bytes → Io (Unit {0})
store_dump bytes l = (record l { dump = some bytes }, ok tt)

-- The part of a round behind the reply: a wrong size ends the process, a wrong checksum is only
-- logged, and the bytes behind the head of 16 go to the file.
unfoldable pub keep_reply : ℕ → (Bytes → Io Bytes) → Bytes → Bytes → Io Bytes
keep_reply rdsize again file response =
    let kept = file ++ drop 16 response in
    if length response - 16 == rdsize then (store_dump kept >> again kept) else raise (exit 2)

-- The loop of `read_flash`: `file` is what was written so far, and is returned at the end.
unfoldable pub read_loop : ℕ → ℕ → ℕ → ℕ → ℕ → Bytes → Io Bytes
unfolding keep_reply
read_loop zero rdsize size recv_len faddress file = raise stalled
read_loop (suc fuel) rdsize size recv_len faddress file =
    let again = read_loop fuel rdsize size (recv_len + rdsize) (faddress + rdsize) in
    if ltb recv_len size
    then (do
      out ← packed (words_request 0xda (faddress ∷ 4 ∷ rdsize ∷ []))
      write out
      response ← recv_one_return
      keep_reply rdsize again file response)
    else pure file

-- `read_flash`. Each round counts at least one byte, so the size is enough fuel.
unfoldable pub read_flash : ℕ → ℕ → Io Bytes
read_flash size address = read_loop (suc size) (read_size size) size 0 address []

-- What pyelftools gives of a segment.
pub record Segment : Type 0 where
  pub p_filesz : ℕ
  pub p_vaddr : ℕ
  pub contents : Bytes

-- Whether a segment is loaded: bit 31 of its address is set, and it is not empty.
unfoldable pub is_loaded : Segment → Bool
is_loaded s = s.p_vaddr / 2 ^ 31 % 2 == 1 && not (s.p_filesz == 0 || s.p_vaddr == 0)

module _ (sha256 : Bytes → Bytes) (encrypt : Bytes → List Bytes → List Bytes) where
  -- The call of `flash_firmware` hands it the address `p_vaddr & 0x7FFFFFFF` in the place of the AES
  -- key, which is not looked at for SRAM; the address offset keeps its default 0.
  unfoldable pub load_segments : List Segment → Io (Unit {0})
  unfolding is_loaded
  load_segments [] = pure tt
  load_segments (s ∷ ss) =
      let rest = load_segments ss in
      if is_loaded s
      then (flash_firmware sha256 encrypt s.contents none 0 true true false false >> rest)
      else rest

  -- `load_elf_to_sram`
  unfoldable pub load_elf_to_sram : List Segment → Io (Unit {0})
  unfolding load_segments
  load_elf_to_sram segments = do load_segments segments; start_program

-- ===== src/Ktool/Transfer.antt =====
-- `MAIXLoader` of ktool.py: data sent to the board.
pub mod Chunks
pub mod Send
pub mod Plan
pub mod Padding
pub mod Firmware
pub mod Sram
pub mod Install
pub mod Spending
pub mod Fuel
use mathlib.Core.List.{flatten}
use user_basic.Base.{
  ℕ, zero, suc, ◌+◌, ◌-◌, ◌*◌, ◌/◌, Bool, true, false, not, ◌&&◌, Option, none, some, List, [], ◌∷◌,
  ◌++◌, ltb, ◌==◌, if◌then◌else◌, length, take, drop, replicate,
}
use user_basic.Ktool.Slip.{Bytes}
use user_basic.Ktool.Packet.{pack_u32, data_request}
use user_basic.Ktool.Port.{
  Loader, Failure, bad_index, exit, stalled, Res, ok, err, Io, ◌>>=◌, ◌>>◌, pure, raise,
  check_kill_exit, write, recv_debug, flash_recv_debug, catch, packed,
}
use user_basic.Ktool.Greeting.{words_request, sram_start, max_retry_times}

-- `chunks(l, n)`, with the length of `l` as fuel: each round takes at least one byte, if n is not 0.
chunks_from : ℕ → ℕ → Bytes → List Bytes
chunks_from zero n l = []
chunks_from (suc f) n [] = []
chunks_from (suc f) n (b ∷ l) = take n (b ∷ l) ∷ chunks_from f n (drop n (b ∷ l))

unfoldable pub chunks : Bytes → ℕ → List Bytes
unfolding chunks_from
chunks l n = chunks_from (length l) n l

-- One chunk of `install_flash_bootloader`: it is sent until the board accepts it. The address goes
-- on by the chunk's length at every try, and is returned. The fuel bounds the tries.
unfoldable pub install_chunk : ℕ → ℕ → Bytes → Io ℕ
install_chunk zero address chunk = raise stalled
install_chunk (suc fuel) address chunk =
    let again = install_chunk fuel (address + length chunk) chunk in
    do
      check_kill_exit
      out ← packed (data_request 0xc3 address chunk)
      write out
      accepted ← recv_debug
      if accepted then pure (address + length chunk) else again

unfoldable pub install_chunks : ℕ → ℕ → List Bytes → Io (Unit {0})
install_chunks fuel address [] = pure tt
install_chunks fuel address (c ∷ cs) = do
  check_kill_exit
  address' ← install_chunk fuel address c
  install_chunks fuel address' cs

-- `install_flash_bootloader`. Each try reads at least one event.
unfoldable pub install_flash_bootloader : Bytes → Io (Unit {0})
install_flash_bootloader image l =
    install_chunks (suc (length l.events)) sram_start (chunks image 1024) l

-- The bytes of each word in reverse; `none` is the `IndexError` where the last word is not whole.
unfoldable pub swap_words : Bytes → Option Bytes
swap_words [] = some []
swap_words (a ∷ b ∷ c ∷ d ∷ rest) = elim (swap_words rest) [
  | some swapped ↦ some (d ∷ c ∷ b ∷ a ∷ swapped)
  | none ↦ none
]
swap_words _ = none

unfoldable pub of_swapped : Option Bytes → Io Bytes
of_swapped none = raise bad_index
of_swapped (some swapped) = pure swapped

unfoldable pub swapped_data : Bool → Bytes → Io Bytes
unfolding of_swapped
swapped_data false bytes = pure bytes
swapped_data true bytes = of_swapped (swap_words bytes)

-- The loop of `send_data_to_isp` with as many further tries as the number says. The verdict of
-- `flash_recv_debug` is not looked at.
unfoldable pub after_try : Io (Unit {0}) → Option Bool → Io (Unit {0})
after_try again (some verdict) = pure tt
after_try again none = again

unfoldable pub send_loop : ℕ → Bytes → Io (Unit {0})
unfolding after_try
send_loop zero out = catch (do write out; flash_recv_debug) >>= after_try (raise (exit 2))
send_loop (suc n) out = catch (do write out; flash_recv_debug) >>= after_try (send_loop n out)

-- `send_data_to_isp`
unfoldable pub send_data_to_isp : Bytes → ℕ → Bool → Bool → Io (Unit {0})
unfolding swapped_data
send_data_to_isp chunk address tosram swap = do
  chunk' ← swapped_data (not tosram && swap) chunk
  out ← packed (data_request (if tosram then 0xd8 else 0xd4) address chunk')
  send_loop max_retry_times out

-- `chunk.ljust(chunk_size, b'\x00')`
abbrev pub ljust : ℕ → Bytes → Bytes
ljust n chunk = chunk ++ replicate (n - length chunk) 0

-- The loop of `flash_firmware` from chunk number n on.
unfoldable pub flash_chunks : ℕ → ℕ → Bool → Bool → ℕ → List Bytes → Io (Unit {0})
flash_chunks chunk_size offset tosram swap n [] = pure tt
flash_chunks chunk_size offset tosram swap n (c ∷ cs) = do
  check_kill_exit
  send_data_to_isp (ljust chunk_size c) (n * chunk_size + offset) tosram swap
  flash_chunks chunk_size offset tosram swap (suc n) cs

abbrev pub chunk_size_of : ℕ → ℕ
chunk_size_of firmware_length = if ltb firmware_length (128 * 1024) then 4096 else 65536

-- `START Program`
unfoldable pub start_program : Io (Unit {0})
start_program = do
  out ← packed (words_request 0xd9 (0x80000000 ∷ 0 ∷ []))
  write out
  verdict ← flash_recv_debug
  pure tt

-- `len(padded) // 16` slices of 16 bytes.
blocks_from : ℕ → Bytes → List Bytes
blocks_from zero padded = []
blocks_from (suc k) padded = take 16 padded ∷ blocks_from k (drop 16 padded)

unfoldable pub blocks : Bytes → List Bytes
unfolding blocks_from
blocks padded = blocks_from (length padded / 16) padded

-- What `flash_firmware` takes from elsewhere: `hashlib.sha256(data).digest()`, and the class
-- AES_128_CBC, a copy of pyaes. `encrypt key` is what an object of it, made with that key and a zero
-- vector, returns for the blocks that it is given one after the other.
module _ (sha256 : Bytes → Bytes) (encrypt : Bytes → List Bytes → List Bytes) where
  -- An empty key counts as none.
  cipher : Option Bytes → Bytes → Bytes
  unfolding blocks
  cipher none firmware = firmware
  cipher (some []) firmware = firmware
  cipher (some (k ∷ ks)) firmware = flatten (encrypt (k ∷ ks) (blocks (firmware ++ replicate 15 0)))

  aes_flag : Option Bytes → ℕ
  aes_flag none = 0
  aes_flag (some []) = 0
  aes_flag (some (k ∷ ks)) = 1

  -- The bytes that are flashed: a flag, the length, the firmware and the hash of these.
  unfoldable pub with_header : Option Bytes → Bytes → Option Bytes
  unfolding cipher aes_flag
  with_header key firmware = elim (pack_u32 (length (cipher key firmware))) [
    | none ↦ none
    | some n ↦ let image = aes_flag key ∷ (n ++ cipher key firmware) in some (image ++ sha256 image)
  ]

  unfoldable pub flash_image : Bool → Option Bytes → Bytes → Io Bytes
  flash_image true key firmware = packed (with_header key firmware)
  flash_image false key firmware = pure firmware

  -- `flash_firmware`
  unfoldable pub flash_firmware :
      Bytes → Option Bytes → ℕ → Bool → Bool → Bool → Bool → Io (Unit {0})
  flash_firmware firmware aes_key address_offset sha256_prefix tosram dostart swap = do
    image ← flash_image (sha256_prefix && not tosram) aes_key firmware
    let size = chunk_size_of (length image)
    flash_chunks size address_offset tosram swap 0 (chunks image size)
    if tosram && dostart then start_program else pure tt

-- ===== src/Ktool/Packet.antt =====
-- The requests of ktool.py: `struct.pack`, `binascii.crc32`, and the layout of `isp_request_t`.
pub mod Decode
use Prim.Native.Nat.{bit_xor}
use user_basic.Base.{
  ℕ, ◌+◌, ◌*◌, ◌/◌, ◌%◌, ◌^◌, Option, none, some, List, [], ◌∷◌, ◌++◌, length, ltb, ◌==◌,
  if◌then◌else◌,
}
use user_basic.Ktool.Slip.{Bytes}

-- Little-endian bytes; `none` is the `struct.error` of a number out of range.
abbrev pub u16 : ℕ → Bytes
u16 n = n % 256 ∷ n / 256 ∷ []

abbrev pub u32 : ℕ → Bytes
u32 n = n % 256 ∷ n / 2 ^ 8 % 256 ∷ n / 2 ^ 16 % 256 ∷ n / 2 ^ 24 ∷ []

unfoldable pub pack_u16 : ℕ → Option Bytes
pack_u16 n = if ltb n (2 ^ 16) then some (u16 n) else none

unfoldable pub pack_u32 : ℕ → Option Bytes
pack_u32 n = if ltb n (2 ^ 32) then some (u32 n) else none

-- CRC-32 as `binascii.crc32` computes it, bit by bit.
crc_bit : ℕ → ℕ
crc_bit c = if c % 2 == 1 then bit_xor (c / 2) 0xEDB88320 else c / 2

crc_byte : ℕ → ℕ → ℕ
unfolding crc_bit
crc_byte c b =
    crc_bit (crc_bit (crc_bit (crc_bit (crc_bit (crc_bit (crc_bit (crc_bit (bit_xor c b))))))))

crc_bytes : ℕ → Bytes → ℕ
crc_bytes c [] = c
crc_bytes c (b ∷ bs) = crc_bytes (crc_byte c b) bs

unfoldable pub crc32 : Bytes → ℕ
unfolding crc_bytes crc_byte
crc32 bs = bit_xor (crc_bytes 0xFFFFFFFF bs) 0xFFFFFFFF

-- Errors of packing travel through a request.
infixl 5 ◌>>=◌
abbrev pub ◌>>=◌ : {A B : Type 0} → Option A → (A → Option B) → Option B
none >>= f = none
some a >>= f = f a

-- `struct.pack('HH', op, 0x00) + crc32_checksum + out`, the checksum being that of `out`.
unfoldable pub request : ℕ → Bytes → Option Bytes
unfolding pack_u16 pack_u32
request op out = do
  head ← pack_u16 op
  reserved ← pack_u16 0
  checksum ← pack_u32 (crc32 out % 2 ^ 32)
  some (head ++ (reserved ++ (checksum ++ out)))

-- A request with an address and a data buffer.
unfoldable pub data_request : ℕ → ℕ → Bytes → Option Bytes
unfolding pack_u32
data_request op address chunk = do
  a ← pack_u32 address
  n ← pack_u32 (length chunk)
  request op (a ++ (n ++ chunk))

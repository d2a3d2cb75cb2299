-- ===== src/Ktool/Packet/Decode.antt =====
-- What the receiver of a request reads by the layout of `isp_request_t`.
use user_basic.Base.{
  ℕ, ◌+◌, ◌*◌, ◌%◌, ◌^◌, ◌<◌, ◌&&◌, Option, none, some, ◌∷◌, ◌++◌, length, ◌==◌, if◌then◌else◌, ◌≡◌,
  arith,
}
use user_basic.Ktool.Slip.{Bytes}
use user_basic.Ktool.Packet.{u16, u32, pack_u16, pack_u32, crc32, ◌>>=◌, request, data_request}

-- The fields of `isp_request_t`.
pub record IspRequest : Type 0 where
  pub op : ℕ
  pub reserved : ℕ
  pub checksum : ℕ
  pub address : ℕ
  pub data_len : ℕ
  pub data_buf : Bytes

pub read_u16 : Bytes → Option (ℕ × Bytes)
read_u16 (a ∷ b ∷ rest) = some (a + 256 * b, rest)
read_u16 _ = none

pub read_u32 : Bytes → Option (ℕ × Bytes)
read_u32 (a ∷ b ∷ c ∷ d ∷ rest) = some (a + 2 ^ 8 * b + 2 ^ 16 * c + 2 ^ 24 * d, rest)
read_u32 _ = none

-- The checksum covers all fields behind it, and the buffer has the length that is stated.
pub accept : ℕ → ℕ → ℕ → Bytes → ℕ → ℕ → Bytes → Option IspRequest
accept op reserved checksum body address data_len data_buf =
    if crc32 body % 2 ^ 32 == checksum && data_len == length data_buf
    then some (record {
      op = op;
      reserved = reserved;
      checksum = checksum;
      address = address;
      data_len = data_len;
      data_buf = data_buf;
    })
    else none

pub decode : Bytes → Option IspRequest
decode packet = do
  f0 ← read_u16 packet
  f1 ← read_u16 f0.1
  f2 ← read_u32 f1.1
  f3 ← read_u32 f2.1
  f4 ← read_u32 f3.1
  accept f0.0 f1.0 f2.0 f2.1 f3.0 f4.0 f4.1

read_u16-u16 : (n : ℕ) (rest : Bytes) → n < 2 ^ 16 → read_u16 (u16 n ++ rest) ≡ some (n, rest)
unfolding read_u16
read_u16-u16 n rest h = ground arith

read_u32-u32 : (n : ℕ) (rest : Bytes) → n < 2 ^ 32 → read_u32 (u32 n ++ rest) ≡ some (n, rest)
unfolding read_u32
read_u32-u32 n rest h = ground arith

abbrev pub body_of : ℕ → Bytes → Bytes
body_of address chunk = u32 address ++ (u32 (length chunk) ++ chunk)

abbrev pub checksum_of : ℕ → Bytes → ℕ
checksum_of address chunk = crc32 (body_of address chunk) % 2 ^ 32

-- When a request can be packed, and the bytes that it then has.
record IsPacked (op address : ℕ) (chunk packet : Bytes) : Type 0 where
  op_fits : op < 2 ^ 16
  address_fits : address < 2 ^ 32
  length_fits : length chunk < 2 ^ 32
  bytes : packet ≡ u16 op ++ (u16 0 ++ (u32 (checksum_of address chunk) ++ body_of address chunk))

data_request-IsPacked :
    (op address : ℕ) (chunk : Bytes) {packet : Bytes}
    → data_request op address chunk ≡ some packet
    → IsPacked op address chunk packet
unfolding data_request request
data_request-IsPacked op address chunk h = ground arith

-- The bytes of a request.
abbrev pub packet_of : ℕ → ℕ → Bytes → Bytes
packet_of op address chunk =
    u16 op ++ (u16 0 ++ (u32 (checksum_of address chunk) ++ body_of address chunk))

-- A request can be packed if its numbers are in range.
pub data_request-fits :
    (op address : ℕ) (chunk : Bytes)
    → op < 2 ^ 16
    → address < 2 ^ 32
    → length chunk < 2 ^ 32
    → data_request op address chunk ≡ some (packet_of op address chunk)
unfolding data_request request pack_u16 pack_u32
data_request-fits op address chunk f a n = ground arith

-- A request that could be packed is read back by the layout in the source: the same operation,
-- address and data, with the checksum of all that stands behind it.
pub decode-data_request :
    (op address : ℕ) (chunk : Bytes) {packet : Bytes}
    → data_request op address chunk ≡ some packet
    → decode packet
      ≡ some (record {
        op = op;
        reserved = 0;
        checksum = checksum_of address chunk;
        address = address;
        data_len = length chunk;
        data_buf = chunk;
      })
unfolding decode crc32
decode-data_request op address chunk h =
    let p = data_request-IsPacked op address chunk h in
    rw (p.bytes, decode)
      (rw
        (
          read_u16-u16 op _ p.op_fits,
          read_u16-u16 0 _ (omega arith),
          read_u32-u32 (checksum_of address chunk) _ (omega arith),
          read_u32-u32 address _ p.address_fits,
          read_u32-u32 (length chunk) chunk p.length_fits,
        )
        (unfold accept in ground arith))

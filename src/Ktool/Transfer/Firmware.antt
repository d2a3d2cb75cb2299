-- ===== src/Ktool/Transfer/Firmware.antt =====
-- A whole flash of a firmware: what stands in the flash when the board takes every request.
use mathlib.Core.List.{flatten}
use user_basic.Base.{
  ℕ, suc, ◌+◌, ◌*◌, ◌<◌, Bool, true, false, ◌&&◌, Option, none, some, List, [], ◌∷◌, ◌++◌, map, ◌≡◌,
  refl, arith, length, if◌then◌else◌, ◌==◌, All,
}
use user_basic.Ktool.Slip.{Bytes, frame, Event}
use user_basic.Ktool.Packet.{◌>>=◌}
use user_basic.Ktool.Packet.Decode.{IspRequest, decode, decode-data_request}
use user_basic.Ktool.Port.{Loader, ok, packed}
use user_basic.Ktool.Transfer.{
  chunks, ljust, chunk_size_of, with_header, flash_image, flash_firmware,
}
use user_basic.Ktool.Transfer.Chunks.{chunks_lem}
use user_basic.Ktool.Transfer.Padding.{IsPadded, chunks-IsPadded}
use user_basic.Ktool.Transfer.Plan.{write_op, Answered, IsPlan, IsWritePlan, flash_chunks-Confirmed}

-- What the receiver puts at an address and behind it: each packet is read by its layout, and has to
-- be a write with this operation that goes on where the one before ended.
take_packet : ℕ → ℕ → IspRequest → Option Bytes → Option Bytes
take_packet op address r none = none
take_packet op address r (some rest) =
    if r.op == op && r.address == address then some (r.data_buf ++ rest) else none

pub written_by : ℕ → ℕ → List Bytes → Option Bytes
unfolding take_packet
written_by op address [] = some []
written_by op address (p ∷ ps) = do
  r ← decode p
  take_packet op address r (written_by op (address + length r.data_buf) ps)

-- What a receiver of writes to the flash has.
abbrev pub written : ℕ → List Bytes → Option Bytes
written = written_by 0xd4

written-IsPlan :
    (tosram : Bool) (size offset n : ℕ) (cs ps : List Bytes)
    → All (λ (c : Bytes). length (ljust size c) ≡ size) cs
    → IsWritePlan tosram size offset n cs ps
    → written_by (write_op tosram) (n * size + offset) ps ≡ some (flatten (map (ljust size) cs))
unfolding written_by take_packet flatten
written-IsPlan tosram size offset n [] [] f h = refl
written-IsPlan tosram size offset n [] (p ∷ ps) f h = absurd h
written-IsPlan tosram size offset n (c ∷ cs) [] f h = absurd h
written-IsPlan tosram size offset n (c ∷ cs) (p ∷ ps) (e, f) (q, h) =
    rw
      (
        decode-data_request (write_op tosram) (n * size + offset) (ljust size c) q,
        next,
        written-IsPlan tosram size offset (suc n) cs ps f h,
      )
      (ground arith)
  where
    next : n * size + offset + length (ljust size c) ≡ suc n * size + offset
    next = ground (arith, e)

chunk_size-positive : (n : ℕ) → 0 < chunk_size_of n
chunk_size-positive n = ground arith

-- What a receiver has of the requests for the chunks of an image.
pub written-chunks :
    (tosram : Bool) (offset : ℕ) (image : Bytes) (ps : List Bytes)
    → IsWritePlan tosram
        (chunk_size_of (length image))
        offset
        0
        (chunks image (chunk_size_of (length image)))
        ps
    → (padded : Bytes) × (written_by (write_op tosram) offset ps ≡ some padded)
      × IsPadded (chunk_size_of (length image)) image padded
written-chunks tosram offset image ps plan = (
  flatten (map (ljust size) (chunks image size)),
  rw at_offset at (
      written-IsPlan tosram size offset 0 (chunks image size) ps
        (chunks_lem image size (chunk_size-positive (length image))).1 plan),
  chunks-IsPadded image size (chunk_size-positive (length image)),
)
  where
    size : ℕ
    size = chunk_size_of (length image)

    at_offset : 0 * size + offset ≡ offset
    at_offset = omega arith

-- On an open port that nobody cancels, with sha256Prefix and without tosram and swap, when the
-- header and every request can be packed and the
-- board answers each request to write with a known code, `flash_firmware` ends well with one
-- frame for each chunk; and a receiver that reads the packets by their layout then has, from the
-- offset on and without a gap, the header, the firmware and the hash, with less than a chunk of
-- zeros behind.
pub flash_firmware-Answered :
    (sha256 : Bytes → Bytes) (encrypt : Bytes → List Bytes → List Bytes) (firmware : Bytes)
    (key : Option Bytes) (offset : ℕ) (dostart : Bool) (image : Bytes) (ps : List Bytes)
    (l : Loader) (es' : List Event)
    → l.is_open ≡ true
    → l.kill_process ≡ false
    → with_header sha256 encrypt key firmware ≡ some image
    → IsPlan
        (chunk_size_of (length image))
        offset
        0
        (chunks image (chunk_size_of (length image)))
        ps
    → Answered (length (chunks image (chunk_size_of (length image)))) l.events es'
    → (flash_firmware sha256 encrypt firmware key offset true false dostart false l
        ≡ (record l { events = es'; sent = l.sent ++ map frame ps }, ok tt))
      × ((padded : Bytes) × (written offset ps ≡ some padded)
          × IsPadded (chunk_size_of (length image)) image padded)
unfolding flash_firmware flash_image packed
flash_firmware-Answered sha256 encrypt firmware key offset dostart image ps l es' o k h plan a = (
  ground (
    arith,
    h,
    flash_chunks-Confirmed false (chunk_size_of (length image)) offset
        (chunks image (chunk_size_of (length image))) ps 0 l es' o k plan a,
  ),
  written-chunks false offset image ps plan,
)

-- The same without the header.
pub flash_firmware-plain :
    (sha256 : Bytes → Bytes) (encrypt : Bytes → List Bytes → List Bytes) (firmware : Bytes)
    (key : Option Bytes) (offset : ℕ) (dostart : Bool) (ps : List Bytes) (l : Loader)
    (es' : List Event)
    → l.is_open ≡ true
    → l.kill_process ≡ false
    → IsPlan
        (chunk_size_of (length firmware))
        offset
        0
        (chunks firmware (chunk_size_of (length firmware)))
        ps
    → Answered (length (chunks firmware (chunk_size_of (length firmware)))) l.events es'
    → flash_firmware sha256 encrypt firmware key offset false false dostart false l
      ≡ (record l { events = es'; sent = l.sent ++ map frame ps }, ok tt)
unfolding flash_firmware flash_image packed
flash_firmware-plain sha256 encrypt firmware key offset dostart ps l es' o k plan a = ground (
  arith,
  flash_chunks-Confirmed false (chunk_size_of (length firmware)) offset
      (chunks firmware (chunk_size_of (length firmware))) ps 0 l es' o k plan a,
)

-- ===== src/Process/Package.antt =====
-- The flash of a kfpkg archive on a board that answers.
use mathlib.Core.List.{append-nil, append_assoc, map-append}
use user_basic.Base.{
  ℕ, Bool, true, false, none, some, List, [], ◌∷◌, ◌++◌, map, ◌≡◌, arith, length, Line,
  if◌then◌else◌, All,
}
use user_basic.Base.Int.{pos}
use user_basic.Base.Number.{auto_int}
use user_basic.Ktool.Slip.{Bytes, frame, Event}
use user_basic.Ktool.Port.{Loader, ok}
use user_basic.Ktool.Transfer.{chunks, with_header, chunk_size_of, flash_firmware}
use user_basic.Ktool.Transfer.Plan.{Answered, IsPlan}
use user_basic.Ktool.Transfer.Padding.{IsPadded}
use user_basic.Ktool.Transfer.Firmware.{
  written, written-chunks, flash_firmware-Answered, flash_firmware-plain,
}
use user_basic.Process.World.{World}
use user_basic.Process.FlashList.{FlashEntry, text}
use user_basic.Process.Detect.{tool_check}
use user_basic.Process.Flow.{
  of_file, or_false, Unzipped, of_integer, of_address, flash_entries, flash_at,
}

-- What becomes of an entry: the text and the value of its address, the file, the bytes that go to the
-- flash, and the requests.
pub record Item : Type 0 where
  pub at : Line
  pub address : ℕ
  pub content : Bytes
  pub image : Bytes
  pub packets : List Bytes

abbrev pub size_of : Item → ℕ
size_of i = chunk_size_of (length i.image)

pub record IsItem (w : World) (z : Unzipped) (e : FlashEntry) (i : Item) : Type 0 where
  pub quoted : e.address ≡ text i.at
  pub value : auto_int i.at ≡ some (pos i.address)
  pub file : z e.bin ≡ some i.content
  pub in_order : or_false e.swap ≡ false
  pub prefixed : Bool
  pub prefix : e.sha256_prefix ≡ some prefixed
  pub bytes :
      (if prefixed then with_header w.sha256 w.encrypt none i.content else some i.content)
      ≡ some i.image
  pub packs : IsPlan (size_of i) i.address 0 (chunks i.image (size_of i)) i.packets

-- The entries one after the other, while the board answers every request to write.
abbrev pub AreItems :
    World → Unzipped → List FlashEntry → List Item → List Event → List Event → Type 0
AreItems w z [] [] es es' = es ≡ es'
AreItems w z [] (i ∷ is) es es' = ⊥
AreItems w z (e ∷ en) [] es es' = ⊥
AreItems w z (e ∷ en) (i ∷ is) es es' =
    IsItem w z e i
    × (mid : List Event) × Answered (length (chunks i.image (size_of i))) es mid
    × AreItems w z en is mid es'

abbrev pub packets_of : List Item → List Bytes
packets_of [] = []
packets_of (i ∷ is) = i.packets ++ packets_of is

-- A receiver that reads the requests for an item by their layout has its bytes, from its address on
-- and without a gap, with less than a chunk of zeros behind.
abbrev pub IsStored : Item → Type 0
IsStored i =
    (padded : Bytes) × (written i.address i.packets ≡ some padded)
    × IsPadded (size_of i) i.image padded

flash_bytes :
    (w : World) (prefix : Bool) (content image : Bytes) (address : ℕ) (ps : List Bytes) (l : Loader)
    (es' : List Event)
    → l.is_open ≡ true
    → l.kill_process ≡ false
    → (if prefix then with_header w.sha256 w.encrypt none content else some content) ≡ some image
    → IsPlan
        (chunk_size_of (length image))
        address
        0
        (chunks image (chunk_size_of (length image)))
        ps
    → Answered (length (chunks image (chunk_size_of (length image)))) l.events es'
    → flash_firmware w.sha256 w.encrypt content none address prefix false true false l
      ≡ (record l { events = es'; sent = l.sent ++ map frame ps }, ok tt)
flash_bytes w true content image address ps l es' o k h plan a =
    (flash_firmware-Answered w.sha256 w.encrypt content none address true image ps l es' o k h plan
      a).0
flash_bytes w false content image address ps l es' o k h plan a =
    let same : content ≡ image = cc in
    rw same (flash_firmware-plain w.sha256 w.encrypt image none address true ps l es' o k plan a)

module _ (w : World) (z : Unzipped) where
  flash_item :
      (e : FlashEntry) (i : Item) (l : Loader) (es' : List Event)
      → (h : IsItem w z e i) → l.is_open ≡ true
      → l.kill_process ≡ false
      → Answered (length (chunks i.image (size_of i))) l.events es'
      → flash_firmware w.sha256 w.encrypt i.content none i.address h.prefixed false true
          (or_false e.swap)
          l
        ≡ (record l { events = es'; sent = l.sent ++ map frame i.packets }, ok tt)
  flash_item e i l es' h o k a =
      rw h.in_order
        (flash_bytes w h.prefixed i.content i.image i.address i.packets l es' o k h.bytes h.packs a)

  pub flash_entries-AreItems :
      (en : List FlashEntry) (is : List Item) (l : Loader) (es' : List Event)
      → l.is_open ≡ true
      → l.kill_process ≡ false
      → l.tool_killed ≡ false
      → AreItems w z en is l.events es'
      → (flash_entries w z en l
          ≡ (record l { events = es'; sent = l.sent ++ map frame (packets_of is) }, ok tt))
        × All IsStored is
  unfolding flash_entries of_file of_address of_integer flash_at tool_check
  flash_entries-AreItems [] [] l es' o k t h = (ground (arith, append-nil l.sent), tt)
  flash_entries-AreItems [] (i ∷ is) l es' o k t h = absurd h
  flash_entries-AreItems (e ∷ en) [] l es' o k t h = absurd h
  flash_entries-AreItems (e ∷ en) (i ∷ is) l es' o k t (h, mid, a, rest) =
      let behind = record l { events = mid; sent = l.sent ++ map frame i.packets } in
      let later = flash_entries-AreItems en is behind es' o k t rest in
      (
        ground (
          arith,
          h.quoted,
          h.value,
          h.file,
          h.prefix,
          flash_item e i l mid h o k a,
          later.0,
          map-append frame i.packets (packets_of is),
          append_assoc l.sent (map frame i.packets) (map frame (packets_of is)),
        ),
        (written-chunks false i.address i.image i.packets h.packs, later.1),
      )

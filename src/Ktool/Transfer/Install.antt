-- ===== src/Ktool/Transfer/Install.antt =====
-- `install_flash_bootloader` of ktool.py on a board that accepts every chunk.
use mathlib.Core.List.{append-nil, append_assoc}
use user_basic.Base.{
  ℕ, zero, suc, ◌+◌, true, false, some, List, [], ◌∷◌, ◌++◌, map, ◌≡◌, arith, length,
}
use user_basic.Ktool.Slip.{Bytes, frame, Event, recv, got}
use user_basic.Ktool.Packet.{data_request}
use user_basic.Ktool.Port.{Loader, ok, check_kill_exit}
use user_basic.Ktool.Greeting.{sram_start}
use user_basic.Ktool.Transfer.{install_chunks, install_flash_bootloader, chunks}
use user_basic.Ktool.Transfer.Plan.{install_chunk_accepted}

-- The board accepts `k` requests, and leaves `es'`.
abbrev pub Accepted : ℕ → List Event → List Event → Type 0
Accepted zero es es' = es ≡ es'
Accepted (suc k) es es' =
    (text : Bytes) × (mid : List Event) × (recv es ≡ got (0xc3 ∷ 0xe0 ∷ text) mid)
    × Accepted k mid es'

-- The requests for the chunks, the first at this address and each other one behind the one before.
abbrev pub IsImage : ℕ → List Bytes → List Bytes → Type 0
IsImage address [] [] = Unit
IsImage address [] (p ∷ ps) = ⊥
IsImage address (c ∷ cs) [] = ⊥
IsImage address (c ∷ cs) (p ∷ ps) =
    (data_request 0xc3 address c ≡ some p) × IsImage (address + length c) cs ps

install_chunks-Accepted :
    (fuel address : ℕ) (cs ps : List Bytes) (l : Loader) (es' : List Event)
    → l.is_open ≡ true
    → l.kill_process ≡ false
    → IsImage address cs ps
    → Accepted (length cs) l.events es'
    → install_chunks (suc fuel) address cs l
      ≡ (record l { events = es'; sent = l.sent ++ map frame ps }, ok tt)
unfolding install_chunks check_kill_exit
install_chunks-Accepted fuel address [] [] l es' o k p a = ground (arith, append-nil l.sent)
install_chunks-Accepted fuel address [] (x ∷ ps) l es' o k p a = absurd p
install_chunks-Accepted fuel address (c ∷ cs) [] l es' o k p a = absurd p
install_chunks-Accepted fuel address (c ∷ cs) (x ∷ ps) l es' o k (q, p) (text, mid, h, a) = ground (
  arith,
  install_chunk_accepted l fuel address c x text mid o k q h,
  install_chunks-Accepted fuel (address + length c) cs ps
      (record l { events = mid; sent = l.sent ++ frame x ∷ [] }) es' o k p a,
  append_assoc l.sent (frame x ∷ []) (map frame ps),
)

-- On an open port that nobody cancels, when every request can be packed and the board accepts each
-- at once, the loader is written into SRAM from its start on without a gap, one frame for each chunk.
pub install_flash_bootloader-Accepted :
    (image : Bytes) (ps : List Bytes) (l : Loader) (es' : List Event)
    → l.is_open ≡ true
    → l.kill_process ≡ false
    → IsImage sram_start (chunks image 1024) ps
    → Accepted (length (chunks image 1024)) l.events es'
    → install_flash_bootloader image l
      ≡ (record l { events = es'; sent = l.sent ++ map frame ps }, ok tt)
unfolding install_flash_bootloader
install_flash_bootloader-Accepted image ps l es' o k p a =
    install_chunks-Accepted (length l.events) sram_start (chunks image 1024) ps l es' o k p a

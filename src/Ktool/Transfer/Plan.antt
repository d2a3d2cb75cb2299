-- ===== src/Ktool/Transfer/Plan.antt =====
-- What a whole transfer writes when the board answers every request.
use mathlib.Core.List.{append-nil, append_assoc}
use user_basic.Base.{
  ℕ, zero, suc, ◌+◌, ◌*◌, Bool, true, false, some, if◌then◌else◌, ◌==◌, ◌||◌, List, [], ◌∷◌, ◌++◌,
  map, ◌≡◌, arith, length,
}
use user_basic.Ktool.Slip.{Bytes, frame, Event, recv, got}
use user_basic.Ktool.Packet.{data_request}
use user_basic.Ktool.Response.{isp_parse, isp_operation, isp_error_code}
use user_basic.Ktool.Port.{
  Loader, ok, check_kill_exit, port_write, write, recv_one_return, isp_reply, recv_debug, packed,
  of_parsed, of_code,
}
use user_basic.Ktool.Transfer.{send_data_to_isp, flash_chunks, install_chunk, ljust}
use user_basic.Ktool.Transfer.Send.{IsCode, send_loop_answered}

-- The operation of a write, to the SRAM or to the flash.
abbrev pub write_op : Bool → ℕ
write_op tosram = if tosram then 0xd8 else 0xd4

-- The board answers `k` requests with replies to a write, and leaves `es'`.
abbrev pub Confirmed : Bool → ℕ → List Event → List Event → Type 0
Confirmed tosram zero es es' = es ≡ es'
Confirmed tosram (suc k) es es' =
    (reason : ℕ) × (text : Bytes) × (mid : List Event) × (recv es
      ≡ got (write_op tosram ∷ reason ∷ text) mid)
    × IsCode reason
    × Confirmed tosram k mid es'

abbrev pub Answered : ℕ → List Event → List Event → Type 0
Answered = Confirmed false

-- The requests for the chunks from number `n` on: chunk `n` goes to `n * size + offset`, padded.
abbrev pub IsWritePlan : Bool → ℕ → ℕ → ℕ → List Bytes → List Bytes → Type 0
IsWritePlan tosram size offset n [] [] = Unit
IsWritePlan tosram size offset n [] (p ∷ ps) = ⊥
IsWritePlan tosram size offset n (c ∷ cs) [] = ⊥
IsWritePlan tosram size offset n (c ∷ cs) (p ∷ ps) =
    (data_request (write_op tosram) (n * size + offset) (ljust size c) ≡ some p)
    × IsWritePlan tosram size offset (suc n) cs ps

abbrev pub IsPlan : ℕ → ℕ → ℕ → List Bytes → List Bytes → Type 0
IsPlan = IsWritePlan false

send_data_to_isp-Confirmed :
    (tosram : Bool) (chunk : Bytes) (address : ℕ) (l : Loader) (p text : Bytes) (reason : ℕ)
    (mid : List Event)
    → l.is_open ≡ true
    → data_request (write_op tosram) address chunk ≡ some p
    → recv l.events ≡ got (write_op tosram ∷ reason ∷ text) mid
    → IsCode reason
    → send_data_to_isp chunk address tosram false l
      ≡ (record l { events = mid; sent = l.sent ++ frame p ∷ [] }, ok tt)
unfolding send_data_to_isp packed
send_data_to_isp-Confirmed true chunk address l p text reason mid o q h r =
    ground (arith, send_loop_answered true l 4 reason text p mid o h r)
send_data_to_isp-Confirmed false chunk address l p text reason mid o q h r =
    ground (arith, send_loop_answered false l 4 reason text p mid o h r)

module _ (tosram : Bool) (size offset : ℕ) where
  -- On an open port that nobody cancels, when every request can be packed and the board answers
  -- each with a known code, the loop writes exactly one frame for each chunk, in order,
  -- each with its address and its padded data.
  pub flash_chunks-Confirmed :
      (cs ps : List Bytes) (n : ℕ) (l : Loader) (es' : List Event)
      → l.is_open ≡ true
      → l.kill_process ≡ false
      → IsWritePlan tosram size offset n cs ps
      → Confirmed tosram (length cs) l.events es'
      → flash_chunks size offset tosram false n cs l
        ≡ (record l { events = es'; sent = l.sent ++ map frame ps }, ok tt)
  unfolding flash_chunks check_kill_exit
  flash_chunks-Confirmed [] [] n l es' o k p a = ground (arith, append-nil l.sent)
  flash_chunks-Confirmed [] (x ∷ ps) n l es' o k p a = absurd p
  flash_chunks-Confirmed (c ∷ cs) [] n l es' o k p a = absurd p
  flash_chunks-Confirmed (c ∷ cs) (x ∷ ps) n l es' o k (q, p) (reason, text, mid, h, r, a) =
      ground (
        arith,
        send_data_to_isp-Confirmed tosram (ljust size c) (n * size + offset) l x text reason mid o q
            h r,
        flash_chunks-Confirmed cs ps (suc n)
            (record l { events = mid; sent = l.sent ++ frame x ∷ [] }) es' o k p a,
        append_assoc l.sent (frame x ∷ []) (map frame ps),
      )

-- The codes by which the first loader accepts a request; the other known ones refuse it.
abbrev pub accepts : ℕ → Bool
accepts code = code == 0 || code == 0xe0

-- On an open port that nobody cancels, a chunk whose requests can be packed is sent again when
-- the first loader replies, to whatever operation, with a known code other than 0 and 0xe0, but
-- to an address that is further on by its length; once a reply has code 0 or 0xe0, the next chunk
-- goes to one still further.
pub install_chunk_refused :
    (l : Loader) (fuel address op op' reason reason' : ℕ) (chunk p p' text text' : Bytes)
    (mid rest : List Event)
    → l.is_open ≡ true
    → l.kill_process ≡ false
    → data_request 0xc3 address chunk ≡ some p
    → data_request 0xc3 (address + length chunk) chunk ≡ some p'
    → recv l.events ≡ got (op ∷ reason ∷ text) mid
    → isp_error_code reason ≡ some reason
    → accepts reason ≡ false
    → recv mid ≡ got (op' ∷ reason' ∷ text') rest
    → isp_error_code reason' ≡ some reason'
    → accepts reason' ≡ true
    → install_chunk (suc (suc fuel)) address chunk l ≡ (
      record l { events = rest; sent = l.sent ++ frame p ∷ frame p' ∷ [] },
      ok (address + length chunk + length chunk),
    )
unfolding install_chunk check_kill_exit packed write port_write recv_one_return isp_reply recv_debug
    isp_parse of_parsed of_code
install_chunk_refused l fuel address op op' reason reason' chunk p p' text text' mid rest o k q q' h
      c r h' c' r' =
    ground (arith, append_assoc l.sent (frame p ∷ []) (frame p' ∷ []))

-- On an open port that nobody cancels, a chunk whose request can be packed and is accepted is
-- sent once, and the address goes on by its length.
pub install_chunk_accepted :
    (l : Loader) (fuel address : ℕ) (chunk p text : Bytes) (rest : List Event)
    → l.is_open ≡ true
    → l.kill_process ≡ false
    → data_request 0xc3 address chunk ≡ some p
    → recv l.events ≡ got (0xc3 ∷ 0xe0 ∷ text) rest
    → install_chunk (suc fuel) address chunk l
      ≡ (record l { events = rest; sent = l.sent ++ frame p ∷ [] }, ok (address + length chunk))
unfolding install_chunk check_kill_exit packed write port_write recv_one_return isp_reply recv_debug
    isp_parse isp_operation isp_error_code
install_chunk_accepted l fuel address chunk p text rest o k q h = ground arith

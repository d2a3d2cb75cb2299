-- ===== src/Ktool/Memory/Read.antt =====
-- What `read_flash` asks for, and what it writes to the file.
use mathlib.Core.List.{append-nil, append_assoc}
use user_basic.Base.{
  ℕ, zero, suc, ◌+◌, ◌*◌, ◌≤◌, ◌<◌, true, some, List, [], ◌∷◌, ◌++◌, map, ◌≡◌, refl, arith, length,
  length-append, drop,
}
use user_basic.Ktool.Slip.{Bytes, frame, Event, recv, got}
use user_basic.Ktool.Port.{Loader, Io, ok, write, port_write, recv_one_return, packed}
use user_basic.Ktool.Greeting.{words_request}
use user_basic.Ktool.Memory.{read_size, keep_reply, read_loop, read_flash, store_dump}

-- The board answers each request with a head of 16 bytes, whatever it holds, and a block of the size
-- that was asked for; `bytes` are the blocks put together.
abbrev pub Replies : ℕ → ℕ → List Event → List Event → Bytes → Type 0
Replies rdsize zero es es' bytes = (es ≡ es') × (bytes ≡ [])
Replies rdsize (suc k) es es' bytes =
    (head : Bytes) × (block : Bytes) × (rest : Bytes) × (mid : List Event) × (length head ≡ 16)
    × (length block ≡ rdsize)
    × (recv es ≡ got (head ++ block) mid)
    × (bytes ≡ block ++ rest)
    × Replies rdsize k mid es' rest

-- The requests, for one block after the other.
abbrev pub IsReadPlan : ℕ → ℕ → ℕ → List Bytes → Type 0
IsReadPlan rdsize zero address [] = Unit
IsReadPlan rdsize zero address (p ∷ ps) = ⊥
IsReadPlan rdsize (suc k) address [] = ⊥
IsReadPlan rdsize (suc k) address (p ∷ ps) =
    (words_request 0xda (address ∷ 4 ∷ rdsize ∷ []) ≡ some p)
    × IsReadPlan rdsize k (address + rdsize) ps

drop-append : (n : ℕ) (a b : Bytes) → length a ≡ n → drop n (a ++ b) ≡ b
drop-append zero [] b h = refl
drop-append (suc n) [] b h = absurd (omega (arith, h))
drop-append zero (x ∷ a) b h = absurd (omega (arith, h))
drop-append (suc n) (x ∷ a) b h = drop-append n a b (omega (arith, h))

keep_reply-block :
    (rdsize : ℕ) (again : Bytes → Io Bytes) (file head block : Bytes) (l : Loader)
    → length head ≡ 16
    → length block ≡ rdsize
    → keep_reply rdsize again file (head ++ block) l
      ≡ again (file ++ block) (record l { dump = some (file ++ block) })
unfolding keep_reply store_dump
keep_reply-block rdsize again file head block l h e =
    ground (arith, drop-append 16 head block h, length-append head block)

read_loop-Replies :
    (k fuel rdsize size recv_len address : ℕ) (file bytes : Bytes) (ps : List Bytes) (l : Loader)
    (es' : List Event)
    → l.is_open ≡ true
    → l.dump ≡ some file
    → k < fuel
    → size ≤ recv_len + k * rdsize
    → recv_len + k * rdsize < size + rdsize
    → IsReadPlan rdsize k address ps
    → Replies rdsize k l.events es' bytes
    → (read_loop fuel rdsize size recv_len address file l ≡ (
      record l { events = es'; sent = l.sent ++ map frame ps; dump = some (file ++ bytes) },
      ok (file ++ bytes),
    ))
      × (length bytes ≡ k * rdsize)
unfolding read_loop packed write port_write recv_one_return
read_loop-Replies k zero rdsize size recv_len address file bytes ps l es' o u f a b plan r =
    absurd (omega arith)
read_loop-Replies zero (suc fuel) rdsize size recv_len address file bytes [] l es' o u f a b plan
      (e, n) =
    (ground (arith, append-nil file, append-nil l.sent), ground arith)
read_loop-Replies zero (suc fuel) rdsize size recv_len address file bytes (p ∷ ps) l es' o u f a b
      plan r =
    absurd plan
read_loop-Replies (suc k) (suc fuel) rdsize size recv_len address file bytes [] l es' o u f a b plan
      r =
    absurd plan
read_loop-Replies (suc k) (suc fuel) rdsize size recv_len address file bytes (p ∷ ps) l es' o u f a
      b (q, plan) (head, block, rest, mid, hh, hb, h, e, r) =
    let (ran, size_of) =
      read_loop-Replies k fuel rdsize size (recv_len + rdsize) (address + rdsize) (file ++ block)
        rest ps
        (record l { events = mid; sent = l.sent ++ frame p ∷ []; dump = some (file ++ block) }) es'
        o refl (omega arith) (ground arith) (ground arith) plan r in
    (
      ground (
        arith,
        ran,
        keep_reply-block rdsize (read_loop fuel rdsize size (recv_len + rdsize) (address + rdsize))
            file head block (record l { events = mid; sent = l.sent ++ frame p ∷ [] }) hh hb,
        append_assoc l.sent (frame p ∷ []) (map frame ps),
        append_assoc file block rest,
      ),
      ground (arith, e, size_of, length-append block rest),
    )

few_rounds : (k size : ℕ) → k * read_size size < size + read_size size → k < suc size
few_rounds k size h = ground (arith, h)

-- On an open port, with the file empty, when every request can be packed and the board answers each of the `k`
-- requests that cover the size with a block, the file gets the blocks in order, whatever
-- checksums the heads hold: always whole blocks, so it may be longer than the size that was asked
-- for.
pub read_flash-Replies :
    (k size address : ℕ) (bytes : Bytes) (ps : List Bytes) (l : Loader) (es' : List Event)
    → l.is_open ≡ true
    → l.dump ≡ some []
    → size ≤ k * read_size size
    → k * read_size size < size + read_size size
    → IsReadPlan (read_size size) k address ps
    → Replies (read_size size) k l.events es' bytes
    → (read_flash size address l
        ≡ (record l { events = es'; sent = l.sent ++ map frame ps; dump = some bytes }, ok bytes))
      × (length bytes ≡ k * read_size size)
unfolding read_flash
read_flash-Replies k size address bytes ps l es' o u a b plan r =
    read_loop-Replies k (suc size) (read_size size) size 0 address [] bytes ps l es' o u
      (few_rounds k size b) (omega (arith, a)) (omega (arith, b)) plan r

-- ===== src/Ktool/Slip.antt =====
-- The SLIP frames of ktool.py: `MAIXLoader.write`, `MAIXLoader.recv_one_return` and `slip_reader`.
pub mod Escape
pub mod RoundTrip
pub mod Stream
use user_basic.Base.{
  ℕ, Bool, true, false, Option, none, some, List, [], ◌∷◌, ◌++◌, replace, ◌==◌, if◌then◌else◌,
}

abbrev pub Bytes : Type 0
Bytes = List ℕ

-- `packet.replace(b'\xdb', b'\xdb\xdd').replace(b'\xc0', b'\xdb\xdc')`
unfoldable pub escape : Bytes → Bytes
escape packet =
    replace (0xc0 ∷ []) (0xdb ∷ 0xdc ∷ []) (replace (0xdb ∷ []) (0xdb ∷ 0xdd ∷ []) packet)

-- What `write` gives to the port.
unfoldable pub frame : Bytes → Bytes
unfolding escape
frame packet = 0xc0 ∷ (escape packet ++ 0xc0 ∷ [])

-- What one round of a receive loop meets: its clock check fails, or `read(1)` returns no byte
-- within the port's timeout, or one byte.
pub data Event : Type 0 where
  late silent : Event
  byte : ℕ → Event

-- How a receive loop ends, with the events that are left. `dry`: the given events are used up and
-- the loop still waits.
pub data Scan : Type 0 where
  got : Bytes → List Event → Scan
  timeout_start timeout_end bad_escape : List Event → Scan
  dry : Scan

-- A round of the second loop of `recv_one_return`.
pub data Round : Type 0 where
  more : Bytes → Bool → Round
  ended invalid : Round

unfoldable pub round : Bytes → Bool → ℕ → Round
round data' in_escape c =
    if c == 0xc0
    then ended
    else if in_escape
    then (if c == 0xdc
        then more (data' ++ 0xc0 ∷ []) false
        else if c == 0xdd
        then more (data' ++ 0xdb ∷ []) false
        else invalid)
    else if c == 0xdb
    then more data' true
    else more (data' ++ c ∷ []) false

-- The second loop. When no byte comes, `c` is `b''`: nothing is added, or, behind an escape
-- byte, an invalid escape is found.
unfoldable pub recv_body : Bytes → Bool → List Event → Scan
unfolding round
recv_body data' in_escape [] = dry
recv_body data' in_escape (late ∷ es) = timeout_end es
recv_body data' in_escape (silent ∷ es) =
    let rest = recv_body data' in_escape es in if in_escape then bad_escape es else rest
recv_body data' in_escape (byte c ∷ es) = elim (round data' in_escape c) [
  | more data'' in_escape' ↦ recv_body data'' in_escape' es
  | ended ↦ got data' es
  | invalid ↦ bad_escape es
]

-- The first loop: everything before a frame's first byte is skipped.
unfoldable pub recv : List Event → Scan
unfolding recv_body
recv [] = dry
recv (late ∷ es) = timeout_start es
recv (silent ∷ es) = recv es
recv (byte c ∷ es) = let rest = recv es in if c == 0xc0 then recv_body [] false es else rest

-- The generator `slip_reader`: `none` is `partial_packet = None`.
pub record Reader : Type 0 where
  pub partial_packet : Option Bytes
  pub in_escape : Bool

pub data Reading : Type 0 where
  reads : Reader → Reading
  yields : Bytes → Reading
  invalid_head invalid_escape : Reading

abbrev pub header : Reader
header = record { partial_packet = none; in_escape = false }

-- The body of `for b in read_bytes`.
read_in : Bytes → Bool → ℕ → Reading
read_in p in_escape b =
    if in_escape
    then (if b == 0xdc
        then reads (record { partial_packet = some (p ++ 0xc0 ∷ []); in_escape = false })
        else if b == 0xdd
        then reads (record { partial_packet = some (p ++ 0xdb ∷ []); in_escape = false })
        else invalid_escape)
    else if b == 0xdb
    then reads (record { partial_packet = some p; in_escape = true })
    else if b == 0xc0
    then yields p
    else reads (record { partial_packet = some (p ++ b ∷ []); in_escape = false })

unfoldable pub read_byte : Option Bytes → Bool → ℕ → Reading
unfolding read_in
read_byte none in_escape b =
    if b == 0xc0
    then reads (record { partial_packet = some []; in_escape = in_escape })
    else invalid_head
read_byte (some p) in_escape b = read_in p in_escape b

-- How the generator ends: it still waits for a read, or with an exception, for which
-- `raise_exception` closes the port. `timed_out` says whether it waited for a header.
pub data End : Type 0 where
  waiting : Reader → End
  timed_out : Bool → End
  bad_head bad_slip : End

-- The packets of one read, and the reader behind it or the exception.
pub data Scanned : Type 0 where
  scanned : Reader → Scanned
  raised : End → Scanned

abbrev pub cons_packet : {A : Type 0} → Bytes → List Bytes × A → List Bytes × A
cons_packet p (ps, e) = (p ∷ ps, e)

-- The loop `for b in read_bytes`.
unfoldable pub read_bytes : Reader → Bytes → List Bytes × Scanned
unfolding read_byte
read_bytes r [] = ([], scanned r)
read_bytes r (b ∷ bs) = elim (read_byte r.partial_packet r.in_escape b) [
  | reads r' ↦ read_bytes r' bs
  | yields p ↦ cons_packet p (read_bytes header bs)
  | invalid_head ↦ ([], raised bad_head)
  | invalid_escape ↦ ([], raised bad_slip)
]

abbrev pub waits_for_header : Option Bytes → Bool
waits_for_header none = true
waits_for_header (some p) = false

abbrev pub after_read : (Reader → List Bytes × End) → List Bytes × Scanned → List Bytes × End
after_read next (ps, raised e) = (ps, e)
after_read next (ps, scanned r) = (ps ++ (next r).0, (next r).1)

-- The generator on what the calls of `port.read` return: each some bytes, or none where the port's
-- timeout is over.
unfoldable pub slip_reader : Reader → List Bytes → List Bytes × End
unfolding read_bytes
slip_reader r [] = ([], waiting r)
slip_reader r ([] ∷ later) = ([], timed_out (waits_for_header r.partial_packet))
slip_reader r ((b ∷ bs) ∷ later) = after_read (λ r'. slip_reader r' later) (read_bytes r (b ∷ bs))

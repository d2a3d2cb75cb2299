-- ===== src/Ktool/Slip/Stream.antt =====
-- What `slip_reader` makes of the frames that `write` sent.
use mathlib.Core.List.{append-nil, append_assoc, flatten}
use user_basic.Base.{ℕ, true, false, some, sym, List, [], ◌∷◌, ◌++◌, ◌≡◌, refl, ◌∙◌, ap, arith}
use user_basic.Ktool.Slip.{
  Bytes, frame, Reader, header, Scanned, scanned, raised, End, timed_out, cons_packet, read_bytes,
  after_read, slip_reader, Reading, reads, yields, invalid_head, invalid_escape, bad_head, bad_slip,
  read_byte, waits_for_header,
}
use user_basic.Ktool.Slip.Escape.{escape_byte, escape_all, escape-escape_all}

abbrev within_packet : Bytes → Reader
within_packet acc = record { partial_packet = some acc; in_escape = false }

read_bytes-escape_byte :
    (acc : Bytes) (b : ℕ) (bs : Bytes)
    → read_bytes (within_packet acc) (escape_byte b ++ bs)
      ≡ read_bytes (within_packet (acc ++ b ∷ [])) bs
unfolding read_bytes
read_bytes-escape_byte acc b bs = ground arith

read_bytes-escape_all :
    (acc packet bs : Bytes)
    → read_bytes (within_packet acc) (escape_all packet ++ 0xc0 ∷ bs)
      ≡ cons_packet (acc ++ packet) (read_bytes header bs)
read_bytes-escape_all acc [] bs = unfold read_bytes in rw append-nil
read_bytes-escape_all acc (p ∷ ps) bs =
    ap (read_bytes (within_packet acc)) (append_assoc (escape_byte p) (escape_all ps) (0xc0 ∷ bs))
    ∙ read_bytes-escape_byte acc p (escape_all ps ++ 0xc0 ∷ bs)
    ∙ read_bytes-escape_all (acc ++ p ∷ []) ps bs
    ∙ ap (λ t. cons_packet t (read_bytes header bs)) (append_assoc acc (p ∷ []) ps)

read_bytes-frame :
    (packet bs : Bytes)
    → read_bytes header (frame packet ++ bs) ≡ cons_packet packet (read_bytes header bs)
unfolding read_bytes frame
read_bytes-frame packet bs =
    ap (λ t. read_bytes (within_packet []) (t ++ 0xc0 ∷ [] ++ bs)) (escape-escape_all packet)
    ∙ ap (read_bytes (within_packet [])) (append_assoc (escape_all packet) (0xc0 ∷ []) bs)
    ∙ read_bytes-escape_all [] packet bs

-- Frames sent one after the other.
abbrev pub frames : List Bytes → Bytes
frames [] = []
frames (p ∷ ps) = frame p ++ frames ps

read_bytes-frames :
    (packets : List Bytes) → read_bytes header (frames packets) ≡ (packets, scanned header)
read_bytes-frames [] = unfold read_bytes in refl
read_bytes-frames (p ∷ ps) =
    read_bytes-frame p (frames ps) ∙ ap (cons_packet p) (read_bytes-frames ps)

abbrev appended : List Bytes → List Bytes × Scanned → List Bytes × Scanned
appended ps (qs, s) = (ps ++ qs, s)

-- Two reads give what one read of both would.
then_read : Bytes → List Bytes × Scanned → List Bytes × Scanned
then_read bs (ps, raised e) = (ps, raised e)
then_read bs (ps, scanned r) = (ps ++ (read_bytes r bs).0, (read_bytes r bs).1)

then_read-cons :
    (bs p : Bytes) (s : List Bytes × Scanned)
    → then_read bs (cons_packet p s) ≡ cons_packet p (then_read bs s)
unfolding then_read
then_read-cons bs p (ps, raised e) = refl
then_read-cons bs p (ps, scanned r) = refl

read_bytes-append :
    (r : Reader) (as' bs : Bytes) → read_bytes r (as' ++ bs) ≡ then_read bs (read_bytes r as')
unfolding read_bytes then_read
read_bytes-append r [] bs = refl
read_bytes-append r (a ∷ as') bs =
    go (read_byte r.partial_packet r.in_escape a) (λ r'. read_bytes-append r' as' bs)
  where
    go :
        (o : Reading)
        → ((r' : Reader) → read_bytes r' (as' ++ bs) ≡ then_read bs (read_bytes r' as'))
        → (elim o [
          | reads r' ↦ read_bytes r' (as' ++ bs)
          | yields p ↦ cons_packet p (read_bytes header (as' ++ bs))
          | invalid_head ↦ ([], raised bad_head)
          | invalid_escape ↦ ([], raised bad_slip)
        ])
          ≡ then_read bs (elim o [
            | reads r' ↦ read_bytes r' as'
            | yields p ↦ cons_packet p (read_bytes header as')
            | invalid_head ↦ ([], raised bad_head)
            | invalid_escape ↦ ([], raised bad_slip)
          ])
    go (reads r') ih = ih r'
    go (yields p) ih =
        ap (cons_packet p) (ih header) ∙ sym (then_read-cons bs p (read_bytes header as'))
    go invalid_head ih = refl
    go invalid_escape ih = refl

-- Reads that each return some bytes.
abbrev pub AllSome : List Bytes → Type 0
AllSome [] = Unit
AllSome ([] ∷ bss) = ⊥
AllSome ((b ∷ bs) ∷ bss) = AllSome bss

-- What is left when these are used up: the next read times out.
abbrev ends : List Bytes × Scanned → List Bytes × End
ends (ps, raised e) = (ps, e)
ends (ps, scanned r) = (ps, timed_out (waits_for_header r.partial_packet))

ends-append :
    (ps : List Bytes) (s : List Bytes × Scanned)
    → (ps ++ (ends s).0, (ends s).1) ≡ ends (appended ps s)
ends-append ps (qs, raised e) = refl
ends-append ps (qs, scanned r) = refl

slip_reader-AllSome :
    (r : Reader) (bss rest : List Bytes)
    → AllSome bss
    → slip_reader r (bss ++ [] ∷ rest) ≡ ends (read_bytes r (flatten bss))
unfolding slip_reader flatten then_read
slip_reader-AllSome r [] rest h = refl
slip_reader-AllSome r ([] ∷ bss) rest h = absurd h
slip_reader-AllSome r ((b ∷ bs) ∷ bss) rest h =
    go (read_bytes r (b ∷ bs)) (λ r'. slip_reader-AllSome r' bss rest h)
    ∙ ap ends (sym (read_bytes-append r (b ∷ bs) (flatten bss)))
  where
    go :
        (s : List Bytes × Scanned)
        → ((r' : Reader) → slip_reader r' (bss ++ [] ∷ rest) ≡ ends (read_bytes r' (flatten bss)))
        → after_read (λ r'. slip_reader r' (bss ++ [] ∷ rest)) s ≡ ends (then_read (flatten bss) s)
    go (ps, raised e) ih = refl
    go (ps, scanned r') ih = rw (ih r') (ends-append ps (read_bytes r' (flatten bss)))

-- However the reads cut the frames that were sent one after the other into pieces, none of them
-- empty, the generator yields the packets in order; and when the next read returns nothing, it
-- raises the timeout of a header.
pub slip_reader-frames :
    (packets bss rest : List Bytes)
    → AllSome bss
    → flatten bss ≡ frames packets
    → slip_reader header (bss ++ [] ∷ rest) ≡ (packets, timed_out true)
slip_reader-frames packets bss rest h e =
    slip_reader-AllSome header bss rest h
    ∙ ap (λ bs. ends (read_bytes header bs)) e
    ∙ ap ends (read_bytes-frames packets)

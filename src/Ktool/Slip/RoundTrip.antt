-- ===== src/Ktool/Slip/RoundTrip.antt =====
-- What `recv_one_return` makes of a frame that `write` sent.
use mathlib.Core.List.{append-nil, append_assoc}
use user_basic.Base.{ℕ, false, List, [], ◌∷◌, ◌++◌, ◌==◌, ◌≡◌, refl, ◌∙◌, ap, arith, All}
use user_basic.Ktool.Slip.{Bytes, frame, Event, late, silent, byte, got, recv_body, recv}
use user_basic.Ktool.Slip.Escape.{escape_byte, escape_all, escape-escape_all}

-- Each byte arrives by a `read(1)` of its own.
abbrev pub on_wire : Bytes → List Event → List Event
on_wire [] es = es
on_wire (b ∷ bs) es = byte b ∷ on_wire bs es

pub on_wire-append :
    (a b : Bytes) (es : List Event) → on_wire (a ++ b) es ≡ on_wire a (on_wire b es)
on_wire-append [] b es = refl
on_wire-append (x ∷ a) b es = ap (λ (t : List Event). byte x ∷ t) (on_wire-append a b es)

recv_body-escape_byte :
    (acc : Bytes) (b : ℕ) (es : List Event)
    → recv_body acc false (on_wire (escape_byte b) es) ≡ recv_body (acc ++ b ∷ []) false es
unfolding recv_body
recv_body-escape_byte acc b es = ground arith

recv_body-escape_all :
    (acc packet : Bytes) (es : List Event)
    → recv_body acc false (on_wire (escape_all packet ++ 0xc0 ∷ []) es) ≡ got (acc ++ packet) es
recv_body-escape_all acc [] es = unfold recv_body in rw append-nil
recv_body-escape_all acc (b ∷ bs) es =
    ap (λ t. recv_body acc false (on_wire t es))
      (append_assoc (escape_byte b) (escape_all bs) (0xc0 ∷ []))
    ∙ ap (recv_body acc false) (on_wire-append (escape_byte b) (escape_all bs ++ 0xc0 ∷ []) es)
    ∙ recv_body-escape_byte acc b (on_wire (escape_all bs ++ 0xc0 ∷ []) es)
    ∙ recv_body-escape_all (acc ++ b ∷ []) bs es
    ∙ ap (λ t. got t es) (append_assoc acc (b ∷ []) bs)

-- An event before a frame: nothing came, or a byte that is not a frame's first.
abbrev pub IsNoise : Event → Type 0
IsNoise late = ⊥
IsNoise silent = Unit
IsNoise (byte b) = (b == 0xc0) ≡ false

-- Behind any noise, that is silence and bytes that start no frame, `recv_one_return` returns the
-- packet that `write` was given, whatever bytes it holds, and leaves what follows the frame.
pub recv-frame :
    (noise : List Event) (packet : Bytes) (es : List Event)
    → All IsNoise noise
    → recv (noise ++ on_wire (frame packet) es) ≡ got packet es
unfolding recv frame
recv-frame [] packet es h =
    ap (λ t. recv_body [] false (on_wire (t ++ 0xc0 ∷ []) es)) (escape-escape_all packet)
    ∙ recv_body-escape_all [] packet es
recv-frame (late ∷ noise) packet es (h, hs) = absurd h
recv-frame (silent ∷ noise) packet es (h, hs) = recv-frame noise packet es hs
recv-frame (byte b ∷ noise) packet es (h, hs) = rw h (recv-frame noise packet es hs)

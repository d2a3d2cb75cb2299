-- ===== src/Base/Number/Hex.antt =====
-- How `int(s, 0)` reads hexadecimal digits.
use mathlib.Core.List.{reverse, reverse-append, reverse-reverse}
use user_basic.Base.{
  ℕ, ◌+◌, ◌*◌, ◌<◌, Bool, true, false, ◌||◌, ◌==◌, some, List, [], ◌∷◌, ◌++◌, Line, ◌≡◌, refl, ◌∙◌,
  ap, sym, arith,
}
use user_basic.Base.Int.{pos}
use user_basic.Base.Number.{
  digit_value, below, base_digits, prefixed, behind_zero, literal, strip, strip_left, is_space,
  auto_int,
}

-- A text of hexadecimal digits, of either case, with their values.
abbrev pub AreDigits : Line → List ℕ → Type 0
AreDigits [] [] = Unit
AreDigits [] (d ∷ ds) = ⊥
AreDigits (c ∷ cs) [] = ⊥
AreDigits (c ∷ cs) (d ∷ ds) = (digit_value c ≡ some d) × AreDigits cs ds

-- The number that stands in such a text, behind one that was read before.
abbrev pub hex_value : ℕ → List ℕ → ℕ
hex_value acc [] = acc
hex_value acc (d ∷ ds) = hex_value (acc * 16 + d) ds

digit_value_lt : (c d : ℕ) → digit_value c ≡ some d → d < 16
unfolding digit_value
digit_value_lt c d h = ground arith

digit_value-blank : (c d : ℕ) → digit_value c ≡ some d → is_space c ≡ false
unfolding digit_value is_space
digit_value-blank c d h = ground arith

digit_value-gap : (c d : ℕ) → digit_value c ≡ some d → (c == b'_') ≡ false
unfolding digit_value
digit_value-gap c d h = ground arith

below-digit : (c d : ℕ) → digit_value c ≡ some d → below 16 (digit_value c) ≡ some d
unfolding below
below-digit c d h = rw h (ground (arith, digit_value_lt c d h))

base_digits-digit :
    (after : Bool) (acc c d : ℕ) (cs : Line)
    → digit_value c ≡ some d
    → base_digits 16 after acc (c ∷ cs) ≡ base_digits 16 true (acc * 16 + d) cs
unfolding base_digits
base_digits-digit after acc c d cs h = ground (arith, below-digit c d h)

base_digits-AreDigits :
    (acc : ℕ) (cs : Line) (ds : List ℕ)
    → AreDigits cs ds
    → base_digits 16 true acc cs ≡ some (hex_value acc ds)
unfolding base_digits
base_digits-AreDigits acc [] [] h = refl
base_digits-AreDigits acc [] (d ∷ ds) h = absurd h
base_digits-AreDigits acc (c ∷ cs) [] h = absurd h
base_digits-AreDigits acc (c ∷ cs) (d ∷ ds) (h, hs) =
    base_digits-digit true acc c d cs h ∙ base_digits-AreDigits (acc * 16 + d) cs ds hs

prefixed-AreDigits :
    (c d : ℕ) (cs : Line) (ds : List ℕ)
    → digit_value c ≡ some d
    → AreDigits cs ds
    → prefixed 16 (c ∷ cs) ≡ some (hex_value 0 (d ∷ ds))
unfolding prefixed
prefixed-AreDigits c d cs ds h hs =
    rw (digit_value-gap c d h)
      (base_digits-digit false 0 c d cs h ∙ base_digits-AreDigits (0 * 16 + d) cs ds hs)

-- The last digit.
last_of :
    (c d : ℕ) (cs : Line) (ds : List ℕ)
    → digit_value c ≡ some d
    → AreDigits cs ds
    → (u : Line) × (e : ℕ) × (c ∷ cs ≡ u ++ e ∷ []) × (is_space e ≡ false)
last_of c d [] ds h hs = ([], c, refl, digit_value-blank c d h)
last_of c d (c' ∷ cs) [] h hs = absurd hs
last_of c d (c' ∷ cs) (d' ∷ ds) h (h', hs) =
    let (u, e, s, k) = last_of c' d' cs ds h' hs in (c ∷ u, e, ap (λ t. c ∷ t) s, k)

strip_left_same : (c : ℕ) (s : Line) → is_space c ≡ false → strip_left (c ∷ s) ≡ c ∷ s
unfolding strip_left
strip_left_same c s h = ground (arith, h)

-- A text that neither starts nor ends with a blank.
strip_same :
    (c d : ℕ) (u : Line)
    → is_space c ≡ false
    → is_space d ≡ false
    → strip (c ∷ (u ++ d ∷ [])) ≡ c ∷ (u ++ d ∷ [])
unfolding strip
strip_same c d u hc hd =
    ap (λ s. reverse (strip_left (reverse s))) (strip_left_same c (u ++ d ∷ []) hc)
    ∙ ap (λ s. reverse (strip_left s)) (reverse-append (c ∷ u) (d ∷ []))
    ∙ ap reverse (strip_left_same d (reverse (c ∷ u)) hd)
    ∙ reverse-append (d ∷ []) (reverse (c ∷ u))
    ∙ ap (λ s. s ++ d ∷ []) (reverse-reverse (c ∷ u))

-- A text of `0x` or `0X` and at least one hexadecimal digit is read as the number that its digits
-- make.
pub auto_int-AreDigits :
    (x c d : ℕ) (cs : Line) (ds : List ℕ)
    → (x == b'x' || x == b'X') ≡ true
    → digit_value c ≡ some d
    → AreDigits cs ds
    → auto_int (b'0' ∷ x ∷ c ∷ cs) ≡ some (pos (hex_value 0 (d ∷ ds)))
unfolding auto_int literal behind_zero
auto_int-AreDigits x c d cs ds hx h hs =
    let (u, e, s, k) = last_of c d cs ds h hs in
    let stripped : strip (b'0' ∷ x ∷ c ∷ cs) ≡ b'0' ∷ x ∷ c ∷ cs =
      ap (λ t. strip (b'0' ∷ x ∷ t)) s
      ∙ strip_same b'0' e (x ∷ u) (unfold is_space in refl) k
      ∙ sym (ap (λ t. b'0' ∷ x ∷ t) s) in
    rw stripped (rw (hx, prefixed-AreDigits c d cs ds h hs) refl)

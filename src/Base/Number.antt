-- ===== src/Base/Number.antt =====
-- Python's `int` on texts.
pub mod Hex
use mathlib.Core.List.{reverse}
use mathlib.Core.Option
use user_basic.Base.{
  ℕ, zero, suc, ◌+◌, ◌-◌, ◌*◌, Bool, true, false, ◌&&◌, ◌||◌, Option, none, some, [], ◌∷◌, Line,
  codes, ◌≡◌, refl, leb, ltb, ◌==◌, if◌then◌else◌,
}
use user_basic.Base.Int.{ℤ, pos, negsuc}

-- Python's whitespace among the ASCII characters.
is_space : ℕ → Bool
is_space c = leb 9 c && leb c 13 || leb 28 c && leb c 32

strip_left : Line → Line
unfolding is_space
strip_left [] = []
strip_left (c ∷ cs) = let rest = strip_left cs in if is_space c then rest else c ∷ cs

-- The digits of an `int` literal, with single underscores between them.
int_digits : Bool → ℕ → Line → Option ℕ
int_digits after acc [] = if after then some acc else none
int_digits after acc (c ∷ cs) =
    let more = int_digits true (acc * 10 + (c - b'0')) cs in
    let gap = int_digits false acc cs in
    if leb b'0' c && leb c b'9' then more else if after && c == b'_' then gap else none

neg : ℕ → ℤ
neg zero = pos 0
neg (suc n) = negsuc n

-- A sign, and what is read behind it.
signed : (Line → Option ℕ) → Line → Option ℤ
unfolding neg
signed read [] = none
signed read (c ∷ cs) =
    if c == b'-'
    then Option.map neg (read cs)
    else if c == b'+'
    then Option.map pos (read cs)
    else Option.map pos (read (c ∷ cs))

-- `s.strip()`
strip : Line → Line
unfolding strip_left
strip s = reverse (strip_left (reverse (strip_left s)))

-- `int(s)`, and `none` for its `ValueError`.
unfoldable pub parse_int : Line → Option ℤ
unfolding signed strip int_digits
parse_int s = signed (int_digits false 0) (strip s)

-- The value of a digit, for bases up to 16.
unfoldable pub digit_value : ℕ → Option ℕ
digit_value c =
    if leb b'0' c && leb c b'9'
    then some (c - b'0')
    else if leb b'a' c && leb c b'f'
    then some (c - b'a' + 10)
    else if leb b'A' c && leb c b'F'
    then some (c - b'A' + 10)
    else none

below : ℕ → Option ℕ → Option ℕ
below base none = none
below base (some d) = if ltb d base then some d else none

-- The digits of a literal in a base, with single underscores between them.
base_digits : ℕ → Bool → ℕ → Line → Option ℕ
unfolding digit_value below
base_digits base after acc [] = if after then some acc else none
base_digits base after acc (c ∷ cs) = elim (below base (digit_value c)) [
  | some d ↦ base_digits base true (acc * base + d) cs
  | none ↦ (let gap = base_digits base false acc cs in if after && c == b'_' then gap else none)
]

-- Behind `0x` and the like one underscore may stand.
prefixed : ℕ → Line → Option ℕ
unfolding base_digits
prefixed base [] = none
prefixed base (c ∷ cs) =
    if c == b'_' then base_digits base false 0 cs else base_digits base false 0 (c ∷ cs)

-- A literal that starts with 0 and has no prefix may only be 0.
only_zero : Option ℕ → Option ℕ
only_zero none = none
only_zero (some n) = if n == 0 then some 0 else none

behind_zero : Line → Option ℕ
unfolding prefixed only_zero
behind_zero [] = some 0
behind_zero (c ∷ cs) =
    if c == b'x' || c == b'X'
    then prefixed 16 cs
    else if c == b'o' || c == b'O'
    then prefixed 8 cs
    else if c == b'b' || c == b'B'
    then prefixed 2 cs
    else only_zero (base_digits 10 true 0 (c ∷ cs))

literal : Line → Option ℕ
unfolding behind_zero
literal [] = none
literal (c ∷ cs) = if c == b'0' then behind_zero cs else base_digits 10 false 0 (c ∷ cs)

-- `int(s, 0)`, and `none` for its `ValueError`.
unfoldable pub auto_int : Line → Option ℤ
unfolding signed strip literal
auto_int s = signed literal (strip s)

auto_int_hex : auto_int (codes " 0x_1F ") ≡ some (pos 31)
unfolding auto_int
auto_int_hex = refl

auto_int_octal : auto_int (codes "-0o17") ≡ some (negsuc 14)
unfolding auto_int
auto_int_octal = refl

auto_int_zero : auto_int (codes "0_0") ≡ some (pos 0)
unfolding auto_int
auto_int_zero = refl

auto_int_leading : auto_int (codes "007") ≡ none
unfolding auto_int
auto_int_leading = refl

auto_int_gap : auto_int (codes "1__0") ≡ none
unfolding auto_int
auto_int_gap = refl

-- ===== src/Base/Text.antt =====
-- Texts as lists of code points, and the methods of Python's `str` that the scripts call.
pub mod Replace
use Prim.Native.Char.{code}
use Prim.Native.String.{String}
use Prim.Native.Nat.{ℕ, zero, suc, ◌-◌}
use mathlib.Core.Bool.{Bool, true, false, not, ◌&&◌, ◌||◌}
use mathlib.Core.List.{List, [], ◌∷◌, ◌++◌, append-nil, append_assoc}
use mathlib.Core.Logic.{◌↔◌}
use mathlib.Core.Option.{Option, none, some}
use mathlib.Core.Path.{◌≡◌}
use native.Mathlib.Omega.{arith}
use user_basic.Base.Tests.{◌==◌, if◌then◌else◌}
use user_basic.Base.Lists.{length, all_list}

abbrev pub Line : Type 0
Line = List ℕ

abbrev pub codes : String → Line
codes String.[] = []
codes (String.◌∷◌ c s) = code c ∷ codes s

-- `a == b` on texts.
unfoldable pub line_eq : Line → Line → Bool
line_eq [] [] = true
line_eq (x ∷ xs) (y ∷ ys) = x == y && line_eq xs ys
line_eq [] (y ∷ ys) = false
line_eq (x ∷ xs) [] = false

pub line_eq_iff : (a b : Line) → (line_eq a b ≡ true) ↔ (a ≡ b)
unfolding line_eq
line_eq_iff [] [] = ground arith
line_eq_iff [] (y ∷ b) = ground arith
line_eq_iff (x ∷ a) [] = ground arith
line_eq_iff (x ∷ a) (y ∷ b) = ground (arith, line_eq_iff a b)

-- What follows `pre` in the text, if it starts with `pre`.
unfoldable pub strip_prefix : Line → Line → Option Line
strip_prefix [] s = some s
strip_prefix (p ∷ ps) [] = none
strip_prefix (p ∷ ps) (x ∷ s) = let rest = strip_prefix ps s in if p == x then rest else none

abbrev is_some {ℓ} : {A : Type ℓ} → Option A → Bool
is_some none = false
is_some (some a) = true

-- `sub in s` on texts.
unfoldable pub contains : Line → Line → Bool
unfolding strip_prefix
contains sub [] = is_some (strip_prefix sub [])
contains sub (x ∷ s) = is_some (strip_prefix sub (x ∷ s)) || contains sub s

-- `s.split(sep)` for a separator of one character; `word` is read in part.
split_from : ℕ → Line → Line → List Line
split_from sep word [] = word ∷ []
split_from sep word (c ∷ cs) = elim (c == sep) [
  | true ↦ word ∷ split_from sep [] cs
  | false ↦ split_from sep (word ++ c ∷ []) cs
]

unfoldable pub split : ℕ → Line → List Line
unfolding split_from
split sep = split_from sep []

-- `s.replace(old, new)` for an `old` that is not empty. The counter is the number of characters
-- of a replaced piece that are still to be skipped.
unfoldable pub replace_from : Line → Line → ℕ → Line → Line
replace_from old new k [] = []
replace_from old new (suc k) (x ∷ s) = replace_from old new k s
replace_from old new zero (x ∷ s) = elim (is_some (strip_prefix old (x ∷ s))) [
  | true ↦ new ++ replace_from old new (length old - 1) s
  | false ↦ x ∷ replace_from old new zero s
]

unfoldable pub replace : Line → Line → Line → Line
unfolding replace_from strip_prefix
replace old new = replace_from old new zero

split_from-append :
    (sep : ℕ) (word a rest : Line)
    → all_list (λ c. not (c == sep)) a ≡ true
    → split_from sep word (a ++ sep ∷ rest) ≡ (word ++ a) ∷ split_from sep [] rest
unfolding split_from
split_from-append sep word [] rest h = ground (arith, append-nil word)
split_from-append sep word (c ∷ cs) rest h =
    ground (arith, split_from-append sep (word ++ c ∷ []) cs rest, append_assoc word (c ∷ []) cs)

-- The text up to the first separator is the first part.
pub split-append :
    (sep : ℕ) (a rest : Line)
    → all_list (λ c. not (c == sep)) a ≡ true
    → split sep (a ++ sep ∷ rest) ≡ a ∷ split sep rest
unfolding split
split-append sep a rest h = split_from-append sep [] a rest h

-- ===== src/Base/Text/Replace.antt =====
-- Laws of `replace`: a character is taken out everywhere, and a text that does not start a match
-- anywhere is left alone.
use user_basic.Base.Tests.{◌==◌, if◌then◌else◌}
use user_basic.Base.Lists.{all_list}
use user_basic.Base.Text.{Line, replace, replace_from, strip_prefix}
use Prim.Native.Nat.{ℕ, zero}
use mathlib.Core.Bool.{true, not}
use mathlib.Core.List.{[], ◌∷◌, ◌++◌}
use mathlib.Core.Path.{◌≡◌, refl}
use native.Mathlib.Omega.{arith}

abbrev pub remove_char : ℕ → Line → Line
remove_char c [] = []
remove_char c (x ∷ s) = if c == x then remove_char c s else x ∷ remove_char c s

pub replace-char : (c : ℕ) (s : Line) → replace (c ∷ []) [] s ≡ remove_char c s
unfolding replace replace_from strip_prefix
replace-char c [] = refl
replace-char c (x ∷ s) = ground (arith, replace-char c s)

pub remove_char-append :
    (c : ℕ) (a b : Line) → remove_char c (a ++ b) ≡ remove_char c a ++ remove_char c b
remove_char-append c [] b = refl
remove_char-append c (x ∷ a) b = ground (arith, remove_char-append c a b)

pub remove_char-absent :
    (c : ℕ) (a : Line) → all_list (λ x. not (c == x)) a ≡ true → remove_char c a ≡ a
remove_char-absent c [] h = refl
remove_char-absent c (x ∷ a) h = ground (arith, remove_char-absent c a)

pub replace_from-absent :
    (c : ℕ) (old new s : Line)
    → all_list (λ x. not (c == x)) s ≡ true
    → replace_from (c ∷ old) new zero s ≡ s
unfolding replace_from strip_prefix
replace_from-absent c old new [] h = refl
replace_from-absent c old new (x ∷ s) h = ground (arith, replace_from-absent c old new s)

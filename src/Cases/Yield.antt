-- ===== src/Cases/Yield.antt =====
-- yield_test.py: the counters and the score.
use mathlib.Core.List.{flatten}
use user_basic.Base.{ℕ, ◌+◌, ◌≤◌, List, [], ◌∷◌, Line, ◌≡◌, ◌↔◌, arith, length, ◌==◌, if◌then◌else◌}
use user_basic.TestBase.{init, start, get_result, assert_equal, assert_ge, assert_util, value_eq}
use user_basic.Cases.System.{Counts, count_char, count_all, yield_run}
use user_basic.Cases.Registry.{yield_test}
use user_basic.Cases.Expects.{score}

-- How often a character stands in a text.
abbrev pub count : ℕ → Line → ℕ
count c [] = 0
count c (x ∷ s) = (if x == c then 1 else 0) + count c s

record IsCount (n m : Counts) (s : Line) : Type 0 where
  at0 : m.c0 ≡ n.c0 + count b'0' s
  at1 : m.c1 ≡ n.c1 + count b'1' s
  at2 : m.c2 ≡ n.c2 + count b'2' s

count_all-IsCount : (n : Counts) (s : Line) → IsCount n (count_all n s) s
unfolding count_all count_char
count_all-IsCount n [] = omega arith
count_all-IsCount n (c ∷ cs) = ground (arith, count_all-IsCount (count_char n c) cs)

-- The full score is given exactly to logs of 15 lines that hold each of the digits 0, 1 and 2
-- at least three times.
pub yield-score_iff :
    (log : List Line)
    → (score yield_test log ≡ 4) ↔ (
        (length log ≡ 15)
        × (3 ≤ count b'0' (flatten log))
        × (3 ≤ count b'1' (flatten log))
        × (3 ≤ count b'2' (flatten log)))
unfolding yield_test yield_run init start get_result assert_equal assert_ge assert_util value_eq
yield-score_iff log =
    ground
      (arith, count_all-IsCount (record { c0 = 0; c1 = 0; c2 = 0; c3 = 0; c4 = 0 }) (flatten log))

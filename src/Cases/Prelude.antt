-- ===== src/Cases/Prelude.antt =====
-- What the test scripts share: the length of the log, and the groups of the first match.
use user_basic.Base.{ℕ, not, List, Line, length, is_nil}
use user_basic.Base.Int.{ℤ, pos}
use user_basic.TestBase.{M, ◌>>=◌, index, when, to_int}

-- `len(xs)`
abbrev pub int_length : {A : Type 0} → List A → ℤ
int_length xs = pos (length xs)

-- `r[0][k]` of a list of matches; with one group in the pattern, Python's `r[0]` is this at 0.
unfoldable pub group : ℕ → List (List Line) → M Line
group k r = do g ← index r 0; index g k

-- `if r: ...` on a list.
unfoldable pub if_found : List (List Line) → M (Unit {0}) → M (Unit {0})
if_found r m = when (not (is_nil r)) m

-- `int(r[0][k])`
unfoldable pub group_int : ℕ → List (List Line) → M ℤ
group_int k r = do g ← group k r; to_int g

-- ===== src/Cases/Single.antt =====
-- The tests that expect one fixed line.
use user_basic.Base.{List, [], ◌∷◌, Line, codes, line_eq_iff, arith}
use user_basic.TestBase.{
  init, start, get_result, assert_equal, assert_ge, assert_util, index, value_eq,
}
use user_basic.Cases.Files.{write_run, dup2_run}
use user_basic.Cases.Process.{exit_run}
use user_basic.Cases.System.{sleep_run}
use user_basic.Cases.Tree.{unlink_run}
use user_basic.Cases.Registry.{write_test, exit_test, dup2_test, sleep_test, unlink_test}
use user_basic.Cases.Expects.{ExpectsLines}

abbrev pub write_lines : List Line
write_lines = codes "Hello operating system contest." ∷ []

pub write-ExpectsLines : ExpectsLines write_test write_lines
unfolding write_test write_run init start get_result assert_equal assert_ge assert_util index
    value_eq
write-ExpectsLines [] = (λ h. ground arith, λ b. cc)
write-ExpectsLines (l0 ∷ rest) = (
  λ h. (rest, ground (arith, line_eq_iff l0 (codes "Hello operating system contest."))),
  λ b. ground (arith, line_eq_iff l0 (codes "Hello operating system contest.")),
)

abbrev pub exit_lines : List Line
exit_lines = codes "exit OK." ∷ []

pub exit-ExpectsLines : ExpectsLines exit_test exit_lines
unfolding exit_test exit_run init start get_result assert_equal assert_ge assert_util index value_eq
exit-ExpectsLines [] = (λ h. ground arith, λ b. cc)
exit-ExpectsLines (l0 ∷ rest) = (
  λ h. (rest, ground (arith, line_eq_iff (codes "exit OK.") l0)),
  λ b. ground (arith, line_eq_iff (codes "exit OK.") l0),
)

abbrev pub dup2_lines : List Line
dup2_lines = codes "  from fd 100" ∷ []

pub dup2-ExpectsLines : ExpectsLines dup2_test dup2_lines
unfolding dup2_test dup2_run init start get_result assert_equal assert_ge assert_util index value_eq
dup2-ExpectsLines [] = (λ h. ground arith, λ b. cc)
dup2-ExpectsLines (l0 ∷ rest) = (
  λ h. (rest, ground (arith, line_eq_iff (codes "  from fd 100") l0)),
  λ b. ground (arith, line_eq_iff (codes "  from fd 100") l0),
)

abbrev pub sleep_lines : List Line
sleep_lines = codes "sleep success." ∷ []

pub sleep-ExpectsLines : ExpectsLines sleep_test sleep_lines
unfolding sleep_test sleep_run init start get_result assert_equal assert_ge assert_util index
    value_eq
sleep-ExpectsLines [] = (λ h. ground arith, λ b. cc)
sleep-ExpectsLines (l0 ∷ rest) = (
  λ h. (rest, ground (arith, line_eq_iff l0 (codes "sleep success."))),
  λ b. ground (arith, line_eq_iff l0 (codes "sleep success.")),
)

abbrev pub unlink_lines : List Line
unlink_lines = codes "  unlink success!" ∷ []

pub unlink-ExpectsLines : ExpectsLines unlink_test unlink_lines
unfolding unlink_test unlink_run init start get_result assert_equal assert_ge assert_util index
    value_eq
unlink-ExpectsLines [] = (λ h. ground arith, λ b. cc)
unlink-ExpectsLines (l0 ∷ rest) = (
  λ h. (rest, ground (arith, line_eq_iff l0 (codes "  unlink success!"))),
  λ b. ground (arith, line_eq_iff l0 (codes "  unlink success!")),
)

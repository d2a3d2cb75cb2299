-- ===== src/Cases/Several.antt =====
-- The tests that expect two or three fixed lines.
use user_basic.Base.{List, [], ◌∷◌, Line, codes, line_eq_iff, arith}
use user_basic.TestBase.{
  init, start, get_result, assert_equal, assert_ge, assert_util, index, value_eq,
}
use user_basic.Cases.Files.{open_run, read_run}
use user_basic.Cases.Process.{execve_run, wait_run, waitpid_run}
use user_basic.Cases.Registry.{execve_test, open_test, read_test, wait_test, waitpid_test}
use user_basic.Cases.Expects.{ExpectsLines}

abbrev pub execve_lines : List Line
execve_lines = codes "  I am test_echo." ∷ codes "execve success." ∷ []

pub execve-ExpectsLines : ExpectsLines execve_test execve_lines
unfolding execve_test execve_run init start get_result assert_equal assert_ge assert_util index
    value_eq
execve-ExpectsLines [] = (λ h. ground arith, λ b. cc)
execve-ExpectsLines (l0 ∷ []) = (λ h. ground arith, λ b. cc)
execve-ExpectsLines (l0 ∷ l1 ∷ rest) = (
  λ h. (
    rest,
    ground (
      arith,
      line_eq_iff (codes "  I am test_echo.") l0,
      line_eq_iff (codes "execve success.") l1,
    ),
  ),
  λ b.
      ground (
        arith,
        line_eq_iff (codes "  I am test_echo.") l0,
        line_eq_iff (codes "execve success.") l1,
      ),
)

abbrev pub open_lines : List Line
open_lines = codes "Hi, this is a text file." ∷ codes "syscalls testing success!" ∷ []

pub open-ExpectsLines : ExpectsLines open_test open_lines
unfolding open_test open_run init start get_result assert_equal assert_ge assert_util index value_eq
open-ExpectsLines [] = (λ h. ground arith, λ b. cc)
open-ExpectsLines (l0 ∷ []) = (λ h. ground arith, λ b. cc)
open-ExpectsLines (l0 ∷ l1 ∷ rest) = (
  λ h. (
    rest,
    ground (
      arith,
      line_eq_iff (codes "Hi, this is a text file.") l0,
      line_eq_iff (codes "syscalls testing success!") l1,
    ),
  ),
  λ b. ground (
    arith,
    line_eq_iff (codes "Hi, this is a text file.") l0,
    line_eq_iff (codes "syscalls testing success!") l1,
  ),
)

abbrev pub read_lines : List Line
read_lines = codes "Hi, this is a text file." ∷ codes "syscalls testing success!" ∷ []

pub read-ExpectsLines : ExpectsLines read_test read_lines
unfolding read_test read_run init start get_result assert_equal assert_ge assert_util index value_eq
read-ExpectsLines [] = (λ h. ground arith, λ b. cc)
read-ExpectsLines (l0 ∷ []) = (λ h. ground arith, λ b. cc)
read-ExpectsLines (l0 ∷ l1 ∷ rest) = (
  λ h. (
    rest,
    ground (
      arith,
      line_eq_iff (codes "Hi, this is a text file.") l0,
      line_eq_iff (codes "syscalls testing success!") l1,
    ),
  ),
  λ b. ground (
    arith,
    line_eq_iff (codes "Hi, this is a text file.") l0,
    line_eq_iff (codes "syscalls testing success!") l1,
  ),
)

abbrev pub wait_lines : List Line
wait_lines = codes "This is child process" ∷ codes "wait child success." ∷ codes "wstatus: 0" ∷ []

pub wait-ExpectsLines : ExpectsLines wait_test wait_lines
unfolding wait_test wait_run init start get_result assert_equal assert_ge assert_util index value_eq
wait-ExpectsLines [] = (λ h. ground arith, λ b. cc)
wait-ExpectsLines (l0 ∷ []) = (λ h. ground arith, λ b. cc)
wait-ExpectsLines (l0 ∷ l1 ∷ []) = (λ h. ground arith, λ b. cc)
wait-ExpectsLines (l0 ∷ l1 ∷ l2 ∷ rest) = (
  λ h. (
    rest,
    ground (
      arith,
      line_eq_iff l0 (codes "This is child process"),
      line_eq_iff l1 (codes "wait child success."),
      line_eq_iff l2 (codes "wstatus: 0"),
    ),
  ),
  λ b. ground (
    arith,
    line_eq_iff l0 (codes "This is child process"),
    line_eq_iff l1 (codes "wait child success."),
    line_eq_iff l2 (codes "wstatus: 0"),
  ),
)

abbrev pub waitpid_lines : List Line
waitpid_lines =
    codes "This is child process" ∷ codes "waitpid successfully." ∷ codes "wstatus: 3" ∷ []

pub waitpid-ExpectsLines : ExpectsLines waitpid_test waitpid_lines
unfolding waitpid_test waitpid_run init start get_result assert_equal assert_ge assert_util index
    value_eq
waitpid-ExpectsLines [] = (λ h. ground arith, λ b. cc)
waitpid-ExpectsLines (l0 ∷ []) = (λ h. ground arith, λ b. cc)
waitpid-ExpectsLines (l0 ∷ l1 ∷ []) = (λ h. ground arith, λ b. cc)
waitpid-ExpectsLines (l0 ∷ l1 ∷ l2 ∷ rest) = (
  λ h. (
    rest,
    ground (
      arith,
      line_eq_iff l0 (codes "This is child process"),
      line_eq_iff l1 (codes "waitpid successfully."),
      line_eq_iff l2 (codes "wstatus: 3"),
    ),
  ),
  λ b. ground (
    arith,
    line_eq_iff l0 (codes "This is child process"),
    line_eq_iff l1 (codes "waitpid successfully."),
    line_eq_iff l2 (codes "wstatus: 3"),
  ),
)

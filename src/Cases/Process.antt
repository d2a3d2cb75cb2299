-- ===== src/Cases/Process.antt =====
-- user/src/oscomp/*_test.py: the tests of process calls.
use user_basic.Base.{List, ◌++◌, Line, codes}
use user_basic.Base.Int.{pos}
use user_basic.Regex.{lit, digits, group_digits, any_char, find_all}
use user_basic.TestBase.{
  M, ◌>>=◌, ◌>>◌, str, index, assert_equal, assert_great, assert_ge, assert_in_str, assert_in,
}
use user_basic.Cases.Prelude.{int_length, group_int, if_found}

-- clone_test.py
unfoldable pub clone_run : List Line → M Unit
clone_run log = do
  assert_ge (int_length log) (pos 3)
  assert_in_str (lit "  Child says successfully!") log
  assert_in_str (lit "pid:" ++ digits) log
  assert_in_str (lit "clone process successfully" ++ any_char) log

-- execve_test.py
unfoldable pub execve_run : List Line → M Unit
execve_run log = do
  assert_ge (int_length log) (pos 2)
  l0 ← index log 0
  assert_equal (str (codes "  I am test_echo.")) (str l0)
  l1 ← index log 1
  assert_equal (str (codes "execve success.")) (str l1)

-- exit_test.py
unfoldable pub exit_run : List Line → M Unit
exit_run log = do
  assert_ge (int_length log) (pos 1)
  l0 ← index log 0
  assert_equal (str (codes "exit OK.")) (str l0)

-- fork_test.py
unfoldable pub fork_run : List Line → M Unit
fork_run log = do
  assert_ge (int_length log) (pos 2)
  assert_in_str (lit "  parent process. wstatus:" ++ digits) log
  assert_in_str (lit "  child process") log

-- getpid_test.py
unfoldable pub getpid_run : List Line → M Unit
getpid_run log = do
  assert_ge (int_length log) (pos 2)
  l0 ← index log 0
  assert_equal (str l0) (str (codes "getpid success."))
  l1 ← index log 1
  let r = find_all (lit "pid = " ++ group_digits) l1
  if_found r (do v ← group_int 0 r; assert_great v (pos 0))

-- getppid_test.py
unfoldable pub getppid_run : List Line → M Unit
getppid_run log = do
  assert_ge (int_length log) (pos 1)
  l0 ← index log 0
  assert_in (codes "  getppid success. ppid : ") l0

-- wait_test.py
unfoldable pub wait_run : List Line → M Unit
wait_run log = do
  assert_ge (int_length log) (pos 3)
  l0 ← index log 0
  assert_equal (str l0) (str (codes "This is child process"))
  l1 ← index log 1
  assert_equal (str l1) (str (codes "wait child success."))
  l2 ← index log 2
  assert_equal (str l2) (str (codes "wstatus: 0"))

-- waitpid_test.py
unfoldable pub waitpid_run : List Line → M Unit
waitpid_run log = do
  assert_ge (int_length log) (pos 3)
  l0 ← index log 0
  assert_equal (str l0) (str (codes "This is child process"))
  l1 ← index log 1
  assert_equal (str l1) (str (codes "waitpid successfully."))
  l2 ← index log 2
  assert_equal (str l2) (str (codes "wstatus: 3"))

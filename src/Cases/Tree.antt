-- ===== src/Cases/Tree.antt =====
-- user/src/oscomp/*_test.py: the tests of directories, mounts and pipes.
use user_basic.Base.{
  Bool, true, false, ◌||◌, List, [], ◌∷◌, ◌++◌, Line, codes, line_eq, length, take, ltb,
}
use user_basic.Base.Int.{pos, ltb_ℤ}
use user_basic.Regex.{lit, group_digits, final_digit, group_any, any_char, find_all}
use user_basic.TestBase.{
  M, ◌>>=◌, ◌>>◌, pure, str, bool, index, assert_equal, assert_ge, assert_in_str, assert_in,
}
use user_basic.Cases.Prelude.{int_length, group, group_int, if_found}

-- chdir_test.py
unfoldable pub chdir_run : List Line → M Unit
chdir_run log = do
  assert_ge (int_length log) (pos 2)
  l0 ← index log 0
  let r1 = find_all (lit "chdir ret: " ++ final_digit) l0
  if_found r1 (do g ← group 0 r1; assert_equal (str g) (str (codes "0")))
  l1 ← index log 1
  assert_in (codes "test_chdir") l1

-- getcwd_test.py
unfoldable pub getcwd_run : List Line → M Unit
getcwd_run log = do
  assert_ge (int_length log) (pos 1)
  assert_in_str (lit "getcwd: " ++ (group_any ++ lit " successfully!")) log

-- mkdir_test.py
unfoldable pub mkdir_run : List Line → M Unit
mkdir_run log = do
  assert_ge (int_length log) (pos 2)
  l0 ← index log 0
  assert_in (codes "mkdir ret:") l0
  l1 ← index log 1
  assert_in (codes "  mkdir success.") l1

-- unlink_test.py
unfoldable pub unlink_run : List Line → M Unit
unlink_run log = do
  assert_ge (int_length log) (pos 1)
  l0 ← index log 0
  assert_equal (str l0) (str (codes "  unlink success!"))

-- The matches of `Mounting dev:(.+) to ./mnt`.
abbrev mounts : Line → List (List Line)
mounts l =
    find_all (lit "Mounting dev:" ++ (group_any ++ (lit " to " ++ (any_char ++ lit "/mnt")))) l

-- mount_test.py
unfoldable pub mount_run : List Line → M Unit
mount_run log = do
  assert_ge (int_length log) (pos 4)
  l0 ← index log 0
  assert_equal (bool (ltb 0 (length (mounts l0)))) (bool true)
  l1 ← index log 1
  assert_equal (str l1) (str (codes "mount return: 0"))
  l2 ← index log 2
  assert_equal (str l2) (str (codes "mount successfully"))
  l3 ← index log 3
  assert_equal (str l3) (str (codes "umount return: 0"))

-- umount_test.py
unfoldable pub umount_run : List Line → M Unit
umount_run log = do
  assert_ge (int_length log) (pos 4)
  l0 ← index log 0
  assert_equal (bool (ltb 0 (length (mounts l0)))) (bool true)
  l1 ← index log 1
  assert_equal (str (codes "mount return: 0")) (str l1)
  l2 ← index log 2
  assert_equal (str (codes "umount success.")) (str l2)
  l3 ← index log 3
  assert_equal (str (codes "return: 0")) (str l3)

-- `r and int(r[0]) > 0` in pipe_test.py.
unfoldable pub is_child : List (List Line) → M Bool
is_child [] = pure false
is_child (gs ∷ r) = do v ← group_int 0 (gs ∷ r); pure (ltb_ℤ (pos 0) v)

-- The loop of pipe_test.py, with `cpid0` and `cpid1`.
unfoldable pub scan_cpids : Bool → Bool → List Line → M (Bool × Bool)
scan_cpids cpid0 cpid1 [] = pure (cpid0, cpid1)
scan_cpids cpid0 cpid1 (line ∷ rest) = elim (line_eq line (codes "cpid: 0")) [
  | true ↦ scan_cpids true cpid1 rest
  | false ↦ is_child (find_all (lit "cpid: " ++ group_digits) line) >>= λ child.
      scan_cpids cpid0 (cpid1 || child) rest
]

-- pipe_test.py
unfoldable pub pipe_run : List Line → M Unit
pipe_run log = do
  assert_ge (int_length log) (pos 3)
  cpids ← scan_cpids false false (take 3 log)
  assert_equal (bool cpids.0) (bool true)
  assert_equal (bool cpids.1) (bool true)
  l2 ← index log 2
  assert_equal (str l2) (str (codes "  Write to pipe successfully."))

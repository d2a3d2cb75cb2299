-- ===== src/Cases/Files.antt =====
-- user/src/oscomp/*_test.py: the tests of files and descriptors.
use user_basic.Base.{List, ◌++◌, Line, codes}
use user_basic.Base.Int.{pos}
use user_basic.Regex.{Regex, lit, digits, group_digits, any_char, find_all}
use user_basic.TestBase.{
  M, ◌>>=◌, ◌>>◌, int, str, index, assert_equal, assert_not_equal, assert_great, assert_ge,
  assert_in_str,
}
use user_basic.Cases.Prelude.{int_length, group, group_int, if_found}

-- close_test.py
unfoldable pub close_run : List Line → M Unit
close_run log = do
  assert_ge (int_length log) (pos 1)
  assert_in_str (lit "  close " ++ (digits ++ (lit " success" ++ any_char))) log

-- dup_test.py
unfoldable pub dup_run : List Line → M Unit
dup_run log = do
  assert_ge (int_length log) (pos 1)
  l0 ← index log 0
  let r = find_all (lit "  new fd is " ++ (group_digits ++ any_char)) l0
  if_found r (do v ← group_int 0 r; assert_not_equal (int v) (int (pos 1)))

-- dup2_test.py
unfoldable pub dup2_run : List Line → M Unit
dup2_run log = do
  assert_ge (int_length log) (pos 1)
  l0 ← index log 0
  assert_equal (str (codes "  from fd 100")) (str l0)

-- The second pattern of fstat_test.py.
abbrev fstat_line : Regex
fstat_line =
    lit "fstat: dev: "
    ++ (digits
        ++ (lit ", inode: "
            ++ (digits
                ++ (lit ", mode: "
                    ++ (group_digits
                        ++ (lit ", nlink: "
                            ++ (group_digits
                                ++ (lit ", size: "
                                    ++ (digits
                                        ++ (lit ", atime: "
                                            ++ (digits
                                                ++ (lit ", mtime: "
                                                    ++ (digits
                                                        ++ (lit ", ctime: " ++ digits))))))))))))))

-- fstat_test.py
unfoldable pub fstat_run : List Line → M Unit
fstat_run log = do
  assert_ge (int_length log) (pos 2)
  l0 ← index log 0
  let r = find_all (lit "fstat ret: " ++ group_digits) l0
  if_found r (do g ← group 0 r; assert_equal (str g) (str (codes "0")))
  l1 ← index log 1
  let r' = find_all fstat_line l1
  if_found r' (do g ← group 1 r'; assert_equal (str g) (str (codes "1")))

-- getdents_test.py
unfoldable pub getdents_run : List Line → M Unit
getdents_run log = do
  assert_ge (int_length log) (pos 4)
  l0 ← index log 0
  let r = find_all (lit "open fd:" ++ group_digits) l0
  if_found r (do v ← group_int 0 r; assert_great v (pos 1))
  l1 ← index log 1
  let r' = find_all (lit "getdents fd:" ++ group_digits) l1
  if_found r' (do v ← group_int 0 r'; assert_great v (pos 1))
  l2 ← index log 2
  assert_equal (str (codes "getdents success.")) (str l2)
  l3 ← index log 3
  assert_ge (int_length l3) (pos 1)

-- open_test.py
unfoldable pub open_run : List Line → M Unit
open_run log = do
  assert_ge (int_length log) (pos 2)
  l0 ← index log 0
  assert_equal (str (codes "Hi, this is a text file.")) (str l0)
  l1 ← index log 1
  assert_equal (str (codes "syscalls testing success!")) (str l1)

-- openat_test.py
unfoldable pub openat_run : List Line → M Unit
openat_run log = do
  assert_ge (int_length log) (pos 3)
  l0 ← index log 0
  let r = find_all (lit "open dir fd: " ++ group_digits) l0
  if_found r (do v ← group_int 0 r; assert_great v (pos 1))
  l1 ← index log 1
  let r1 = find_all (lit "openat fd: " ++ group_digits) l1
  if_found r1 (do v1 ← group_int 0 r1; v ← group_int 0 r; assert_great v1 v)
  l2 ← index log 2
  assert_equal (str l2) (str (codes "openat success."))

-- read_test.py
unfoldable pub read_run : List Line → M Unit
read_run log = do
  assert_ge (int_length log) (pos 2)
  l0 ← index log 0
  assert_equal (str (codes "Hi, this is a text file.")) (str l0)
  l1 ← index log 1
  assert_equal (str (codes "syscalls testing success!")) (str l1)

-- write_test.py
unfoldable pub write_run : List Line → M Unit
write_run log = do
  assert_ge (int_length log) (pos 1)
  l0 ← index log 0
  assert_equal (str l0) (str (codes "Hello operating system contest."))

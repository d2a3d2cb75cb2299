-- ===== src/Cases/System.antt =====
-- user/src/oscomp/*_test.py: the tests of memory, time, scheduling and system data.
use user_basic.Base.{
  ℕ, ◌+◌, not, ◌||◌, List, [], ◌∷◌, ◌++◌, Line, codes, is_nil, ◌==◌, if◌then◌else◌,
}
use user_basic.Base.Int.{pos, ◌+ℤ◌}
use mathlib.Core.List.{flatten}
use user_basic.Regex.{Regex, lit, group_digits, group_any, find_all}
use user_basic.TestBase.{
  M, ◌>>=◌, ◌>>◌, when, int, str, index, assert_equal, assert_great, assert_ge, assert_in,
}
use user_basic.Cases.Prelude.{int_length, group_int, if_found}

-- brk_test.py
unfoldable pub brk_run : List Line → M Unit
brk_run log = do
  assert_ge (int_length log) (pos 3)
  l0 ← index log 0
  l1 ← index log 1
  l2 ← index log 2
  let line1 = find_all (lit "Before alloc,heap pos: " ++ group_any) l0
  let line2 = find_all (lit "After alloc,heap pos: " ++ group_any) l1
  let line3 = find_all (lit "Alloc again,heap pos: " ++ group_any) l2
  when (not (is_nil line1 || is_nil line2 || is_nil line3)) (do
    a1 ← group_int 0 line1
    a2 ← group_int 0 line2
    a3 ← group_int 0 line3
    assert_equal (int (a1 +ℤ pos 64)) (int a2)
    assert_equal (int (a2 +ℤ pos 64)) (int a3))

-- mmap_test.py
unfoldable pub mmap_run : List Line → M Unit
mmap_run log = do
  assert_ge (int_length log) (pos 2)
  l0 ← index log 0
  let r = find_all (lit "file len: " ++ group_digits) l0
  if_found r (do v ← group_int 0 r; assert_ge v (pos 27))
  l1 ← index log 1
  assert_equal (str (codes "mmap content:   Hello, mmap successfully!")) (str l1)

-- munmap_test.py
unfoldable pub munmap_run : List Line → M Unit
munmap_run log = do
  assert_ge (int_length log) (pos 3)
  l0 ← index log 0
  let r = find_all (lit "file len: " ++ group_digits) l0
  if_found r (do v ← group_int 0 r; assert_ge v (pos 27))
  l1 ← index log 1
  assert_equal (str l1) (str (codes "munmap return: 0"))
  l2 ← index log 2
  assert_equal (str l2) (str (codes "munmap successfully!"))

-- gettimeofday_test.py
unfoldable pub gettimeofday_run : List Line → M Unit
gettimeofday_run log = do
  assert_ge (int_length log) (pos 3)
  l0 ← index log 0
  assert_equal (str (codes "gettimeofday success.")) (str l0)
  l2 ← index log 2
  let r = find_all (lit "interval: " ++ group_digits) l2
  if_found r (do v ← group_int 0 r; assert_great v (pos 0))

-- sleep_test.py
unfoldable pub sleep_run : List Line → M Unit
sleep_run log = do
  assert_ge (int_length log) (pos 1)
  l0 ← index log 0
  assert_equal (str l0) (str (codes "sleep success."))

-- The pattern of times_test.py.
abbrev times_line : Regex
times_line =
    lit "{tms_utime:"
    ++ (group_any
        ++ (lit ", tms_stime:"
            ++ (group_any
                ++ (lit ", tms_cutime:"
                    ++ (group_any ++ (lit ", tms_cstime:" ++ (group_any ++ lit "}")))))))

-- times_test.py
unfoldable pub times_run : List Line → M Unit
times_run log = do
  assert_ge (int_length log) (pos 2)
  l0 ← index log 0
  assert_equal (str l0) (str (codes "mytimes success"))
  l1 ← index log 1
  let r = find_all times_line l1
  if_found r (do
    v0 ← group_int 0 r
    assert_ge v0 (pos 0)
    v1 ← group_int 1 r
    assert_ge v1 (pos 0)
    v2 ← group_int 2 r
    assert_ge v2 (pos 0)
    v3 ← group_int 3 r
    assert_ge v3 (pos 0))

-- uname_test.py
unfoldable pub uname_run : List Line → M Unit
uname_run log = do
  assert_ge (int_length log) (pos 1)
  l0 ← index log 0
  assert_in (codes "Uname: ") l0

-- The dict `cnt` of yield_test.py: a counter for each of its keys.
pub record Counts : Type 0 where
  pub c0 : ℕ
  pub c1 : ℕ
  pub c2 : ℕ
  pub c3 : ℕ
  pub c4 : ℕ

-- One round of the loop over `lst`; a character that is no key is skipped.
unfoldable pub count_char : Counts → ℕ → Counts
count_char n c =
    if c == b'0'
    then record n { c0 = n.c0 + 1 }
    else if c == b'1'
    then record n { c1 = n.c1 + 1 }
    else if c == b'2'
    then record n { c2 = n.c2 + 1 }
    else if c == b'3'
    then record n { c3 = n.c3 + 1 }
    else if c == b'4'
    then record n { c4 = n.c4 + 1 }
    else n

unfoldable pub count_all : Counts → Line → Counts
unfolding count_char
count_all n [] = n
count_all n (c ∷ cs) = count_all (count_char n c) cs

-- yield_test.py
unfoldable pub yield_run : List Line → M Unit
yield_run log = do
  assert_equal (int (int_length log)) (int (pos 15))
  let cnt = count_all (record { c0 = 0; c1 = 0; c2 = 0; c3 = 0; c4 = 0 }) (flatten log)
  assert_ge (pos cnt.c0) (pos 3)
  assert_ge (pos cnt.c1) (pos 3)
  assert_ge (pos cnt.c2) (pos 3)

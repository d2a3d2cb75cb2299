-- ===== src/Cases/Bounds.antt =====
-- How many outcomes the test scripts of user/src/oscomp/*_test.py record.
use user_basic.Base.{
  ℕ, List, [], ◌∷◌, Bool, true, false, ◌++◌, Line, codes, line_eq, Bool-cases, inl, inr, ◌||◌,
}
use user_basic.Base.Int.{ℤ}
use user_basic.Regex.{find_all, lit, group_digits}
use user_basic.TestBase.{
  assert_equal, assert_not_equal, assert_great, assert_ge, assert_in_str, assert_in,
}
use user_basic.TestBase.Checks.{
  Checks, check_next, read_next, index-Checks, assert_util-Checks, to_int-Checks, pure-Checks,
  when-Checks,
}
use user_basic.Cases.Prelude.{group, group_int, if_found}
use user_basic.Cases.Process.{
  clone_run, execve_run, exit_run, fork_run, getpid_run, getppid_run, wait_run, waitpid_run,
}
use user_basic.Cases.Files.{
  close_run, dup_run, dup2_run, fstat_run, getdents_run, open_run, openat_run, read_run, write_run,
}
use user_basic.Cases.Tree.{
  chdir_run, getcwd_run, mkdir_run, mount_run, pipe_run, umount_run, unlink_run, is_child,
  scan_cpids,
}
use user_basic.Cases.System.{
  brk_run, gettimeofday_run, mmap_run, munmap_run, sleep_run, times_run, uname_run, yield_run,
}

group-Checks : (k : ℕ) (r : List (List Line)) → Checks Line 0 (group k r)
unfolding group
group-Checks k r = search (read_next, index-Checks)

group_int-Checks : (k : ℕ) (r : List (List Line)) → Checks ℤ 0 (group_int k r)
unfolding group_int
group_int-Checks k r = search (read_next, group-Checks, to_int-Checks)

ruleset rules = (
  read_next, check_next, index-Checks, group_int-Checks, group-Checks, assert_util-Checks,
  when-Checks, pure-Checks,
)

pub clone-Checks : (log : List Line) → Checks Unit 4 (clone_run log)
unfolding clone_run assert_equal assert_not_equal assert_great assert_ge assert_in_str assert_in
    if_found
clone-Checks log = search rules depth 40

pub execve-Checks : (log : List Line) → Checks Unit 3 (execve_run log)
unfolding execve_run assert_equal assert_not_equal assert_great assert_ge assert_in_str assert_in
    if_found
execve-Checks log = search rules depth 40

pub exit-Checks : (log : List Line) → Checks Unit 2 (exit_run log)
unfolding exit_run assert_equal assert_not_equal assert_great assert_ge assert_in_str assert_in
    if_found
exit-Checks log = search rules depth 40

pub fork-Checks : (log : List Line) → Checks Unit 3 (fork_run log)
unfolding fork_run assert_equal assert_not_equal assert_great assert_ge assert_in_str assert_in
    if_found
fork-Checks log = search rules depth 40

pub getpid-Checks : (log : List Line) → Checks Unit 3 (getpid_run log)
unfolding getpid_run assert_equal assert_not_equal assert_great assert_ge assert_in_str assert_in
    if_found
getpid-Checks log = search rules depth 40

pub getppid-Checks : (log : List Line) → Checks Unit 2 (getppid_run log)
unfolding getppid_run assert_equal assert_not_equal assert_great assert_ge assert_in_str assert_in
    if_found
getppid-Checks log = search rules depth 40

pub wait-Checks : (log : List Line) → Checks Unit 4 (wait_run log)
unfolding wait_run assert_equal assert_not_equal assert_great assert_ge assert_in_str assert_in
    if_found
wait-Checks log = search rules depth 40

pub waitpid-Checks : (log : List Line) → Checks Unit 4 (waitpid_run log)
unfolding waitpid_run assert_equal assert_not_equal assert_great assert_ge assert_in_str assert_in
    if_found
waitpid-Checks log = search rules depth 40

pub close-Checks : (log : List Line) → Checks Unit 2 (close_run log)
unfolding close_run assert_equal assert_not_equal assert_great assert_ge assert_in_str assert_in
    if_found
close-Checks log = search rules depth 40

pub dup-Checks : (log : List Line) → Checks Unit 2 (dup_run log)
unfolding dup_run assert_equal assert_not_equal assert_great assert_ge assert_in_str assert_in
    if_found
dup-Checks log = search rules depth 40

pub dup2-Checks : (log : List Line) → Checks Unit 2 (dup2_run log)
unfolding dup2_run assert_equal assert_not_equal assert_great assert_ge assert_in_str assert_in
    if_found
dup2-Checks log = search rules depth 40

pub fstat-Checks : (log : List Line) → Checks Unit 3 (fstat_run log)
unfolding fstat_run assert_equal assert_not_equal assert_great assert_ge assert_in_str assert_in
    if_found
fstat-Checks log = search rules depth 40

pub getdents-Checks : (log : List Line) → Checks Unit 5 (getdents_run log)
unfolding getdents_run assert_equal assert_not_equal assert_great assert_ge assert_in_str assert_in
    if_found
getdents-Checks log = search rules depth 40

pub open-Checks : (log : List Line) → Checks Unit 3 (open_run log)
unfolding open_run assert_equal assert_not_equal assert_great assert_ge assert_in_str assert_in
    if_found
open-Checks log = search rules depth 40

pub openat-Checks : (log : List Line) → Checks Unit 4 (openat_run log)
unfolding openat_run assert_equal assert_not_equal assert_great assert_ge assert_in_str assert_in
    if_found
openat-Checks log = search rules depth 40

pub read-Checks : (log : List Line) → Checks Unit 3 (read_run log)
unfolding read_run assert_equal assert_not_equal assert_great assert_ge assert_in_str assert_in
    if_found
read-Checks log = search rules depth 40

pub write-Checks : (log : List Line) → Checks Unit 2 (write_run log)
unfolding write_run assert_equal assert_not_equal assert_great assert_ge assert_in_str assert_in
    if_found
write-Checks log = search rules depth 40

pub chdir-Checks : (log : List Line) → Checks Unit 3 (chdir_run log)
unfolding chdir_run assert_equal assert_not_equal assert_great assert_ge assert_in_str assert_in
    if_found
chdir-Checks log = search rules depth 40

pub getcwd-Checks : (log : List Line) → Checks Unit 2 (getcwd_run log)
unfolding getcwd_run assert_equal assert_not_equal assert_great assert_ge assert_in_str assert_in
    if_found
getcwd-Checks log = search rules depth 40

pub mkdir-Checks : (log : List Line) → Checks Unit 3 (mkdir_run log)
unfolding mkdir_run assert_equal assert_not_equal assert_great assert_ge assert_in_str assert_in
    if_found
mkdir-Checks log = search rules depth 40

pub mount-Checks : (log : List Line) → Checks Unit 5 (mount_run log)
unfolding mount_run assert_equal assert_not_equal assert_great assert_ge assert_in_str assert_in
    if_found
mount-Checks log = search rules depth 40

is_child-Checks : (r : List (List Line)) → Checks Bool 0 (is_child r)
unfolding is_child
is_child-Checks [] = pure-Checks false
is_child-Checks (gs ∷ r) = search rules depth 40

scan_cpids-Checks : (c0 c1 : Bool) (log : List Line) → Checks (Bool × Bool) 0 (scan_cpids c0 c1 log)
unfolding scan_cpids
scan_cpids-Checks c0 c1 [] = pure-Checks (c0, c1)
scan_cpids-Checks c0 c1 (line ∷ rest) = elim (Bool-cases (line_eq line (codes "cpid: 0"))) [
  | inl e ↦ rw (e, scan_cpids) (scan_cpids-Checks true c1 rest)
  | inr e ↦
      rw (e, scan_cpids)
        (read_next (is_child-Checks (find_all (lit "cpid: " ++ group_digits) line))
          (λ child. scan_cpids-Checks c0 (c1 || child) rest))
]

pub pipe-Checks : (log : List Line) → Checks Unit 4 (pipe_run log)
unfolding pipe_run assert_equal assert_not_equal assert_great assert_ge assert_in_str assert_in
    if_found
pipe-Checks log = search (rules, scan_cpids-Checks) depth 40

pub umount-Checks : (log : List Line) → Checks Unit 5 (umount_run log)
unfolding umount_run assert_equal assert_not_equal assert_great assert_ge assert_in_str assert_in
    if_found
umount-Checks log = search rules depth 40

pub unlink-Checks : (log : List Line) → Checks Unit 2 (unlink_run log)
unfolding unlink_run assert_equal assert_not_equal assert_great assert_ge assert_in_str assert_in
    if_found
unlink-Checks log = search rules depth 40

pub brk-Checks : (log : List Line) → Checks Unit 3 (brk_run log)
unfolding brk_run assert_equal assert_not_equal assert_great assert_ge assert_in_str assert_in
    if_found
brk-Checks log = search rules depth 40

pub gettimeofday-Checks : (log : List Line) → Checks Unit 3 (gettimeofday_run log)
unfolding gettimeofday_run assert_equal assert_not_equal assert_great assert_ge assert_in_str
    assert_in if_found
gettimeofday-Checks log = search rules depth 40

pub mmap-Checks : (log : List Line) → Checks Unit 3 (mmap_run log)
unfolding mmap_run assert_equal assert_not_equal assert_great assert_ge assert_in_str assert_in
    if_found
mmap-Checks log = search rules depth 40

pub munmap-Checks : (log : List Line) → Checks Unit 4 (munmap_run log)
unfolding munmap_run assert_equal assert_not_equal assert_great assert_ge assert_in_str assert_in
    if_found
munmap-Checks log = search rules depth 40

pub sleep-Checks : (log : List Line) → Checks Unit 2 (sleep_run log)
unfolding sleep_run assert_equal assert_not_equal assert_great assert_ge assert_in_str assert_in
    if_found
sleep-Checks log = search rules depth 40

pub times-Checks : (log : List Line) → Checks Unit 6 (times_run log)
unfolding times_run assert_equal assert_not_equal assert_great assert_ge assert_in_str assert_in
    if_found
times-Checks log = search rules depth 40

pub uname-Checks : (log : List Line) → Checks Unit 2 (uname_run log)
unfolding uname_run assert_equal assert_not_equal assert_great assert_ge assert_in_str assert_in
    if_found
uname-Checks log = search rules depth 40

pub yield-Checks : (log : List Line) → Checks Unit 4 (yield_run log)
unfolding yield_run assert_equal assert_not_equal assert_great assert_ge assert_in_str assert_in
    if_found
yield-Checks log = search rules depth 40

-- ===== src/Cases/Registry.antt =====
-- The objects of the test classes of user/src/oscomp/*_test.py, with their names and counts.
use user_basic.Base.{List, [], ◌∷◌}
use user_basic.TestBase.{TestBase, init}
use user_basic.Cases.Process.{
  clone_run, execve_run, exit_run, fork_run, getpid_run, getppid_run, wait_run, waitpid_run,
}
use user_basic.Cases.Files.{
  close_run, dup_run, dup2_run, fstat_run, getdents_run, open_run, openat_run, read_run, write_run,
}
use user_basic.Cases.Tree.{
  chdir_run, getcwd_run, mkdir_run, mount_run, pipe_run, umount_run, unlink_run,
}
use user_basic.Cases.System.{
  brk_run, gettimeofday_run, mmap_run, munmap_run, sleep_run, times_run, uname_run, yield_run,
}

unfoldable pub clone_test : TestBase
clone_test = init "clone" 4 clone_run

unfoldable pub execve_test : TestBase
execve_test = init "execve" 3 execve_run

unfoldable pub exit_test : TestBase
exit_test = init "exit" 2 exit_run

unfoldable pub fork_test : TestBase
fork_test = init "fork" 3 fork_run

unfoldable pub getpid_test : TestBase
getpid_test = init "getpid" 3 getpid_run

unfoldable pub getppid_test : TestBase
getppid_test = init "getppid" 2 getppid_run

unfoldable pub wait_test : TestBase
wait_test = init "wait" 4 wait_run

unfoldable pub waitpid_test : TestBase
waitpid_test = init "waitpid" 4 waitpid_run

unfoldable pub close_test : TestBase
close_test = init "close" 2 close_run

unfoldable pub dup_test : TestBase
dup_test = init "dup" 2 dup_run

unfoldable pub dup2_test : TestBase
dup2_test = init "dup2" 2 dup2_run

unfoldable pub fstat_test : TestBase
fstat_test = init "fstat" 3 fstat_run

unfoldable pub getdents_test : TestBase
getdents_test = init "getdents" 5 getdents_run

unfoldable pub open_test : TestBase
open_test = init "open" 3 open_run

unfoldable pub openat_test : TestBase
openat_test = init "openat" 4 openat_run

unfoldable pub read_test : TestBase
read_test = init "read" 3 read_run

unfoldable pub write_test : TestBase
write_test = init "write" 2 write_run

unfoldable pub chdir_test : TestBase
chdir_test = init "chdir" 3 chdir_run

unfoldable pub getcwd_test : TestBase
getcwd_test = init "getcwd" 2 getcwd_run

unfoldable pub mkdir_test : TestBase
mkdir_test = init "mkdir" 3 mkdir_run

unfoldable pub mount_test : TestBase
mount_test = init "mount" 5 mount_run

unfoldable pub pipe_test : TestBase
pipe_test = init "pipe" 4 pipe_run

unfoldable pub umount_test : TestBase
umount_test = init "umount" 5 umount_run

unfoldable pub unlink_test : TestBase
unlink_test = init "unlink" 2 unlink_run

unfoldable pub brk_test : TestBase
brk_test = init "brk" 3 brk_run

unfoldable pub gettimeofday_test : TestBase
gettimeofday_test = init "gettimeofday" 3 gettimeofday_run

unfoldable pub mmap_test : TestBase
mmap_test = init "mmap" 3 mmap_run

unfoldable pub munmap_test : TestBase
munmap_test = init "munmap" 4 munmap_run

unfoldable pub sleep_test : TestBase
sleep_test = init "sleep" 2 sleep_run

unfoldable pub times_test : TestBase
times_test = init "times" 6 times_run

unfoldable pub uname_test : TestBase
uname_test = init "uname" 2 uname_run

unfoldable pub yield_test : TestBase
yield_test = init "yield" 4 yield_run

-- The list `tests` of test_runner.py, for a directory that is listed in this order.
unfoldable pub tests : List TestBase
tests =
    brk_test ∷ chdir_test ∷ clone_test ∷ close_test ∷ dup_test ∷ dup2_test ∷ execve_test ∷ exit_test
    ∷ fork_test ∷ fstat_test ∷ getcwd_test ∷ getdents_test ∷ getpid_test ∷ getppid_test
    ∷ gettimeofday_test ∷ mkdir_test ∷ mmap_test ∷ mount_test ∷ munmap_test ∷ open_test
    ∷ openat_test ∷ pipe_test ∷ read_test ∷ sleep_test ∷ times_test ∷ umount_test ∷ uname_test
    ∷ unlink_test ∷ wait_test ∷ waitpid_test ∷ write_test ∷ yield_test ∷ []

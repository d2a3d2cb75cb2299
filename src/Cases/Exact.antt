-- ===== src/Cases/Exact.antt =====
-- user/src/oscomp/*_test.py: the tests that expect fixed lines.
use user_basic.Base.{List, [], ◌∷◌, Line, All}
use user_basic.TestBase.{TestBase}
use user_basic.Cases.Registry.{
  write_test, exit_test, dup2_test, sleep_test, unlink_test, execve_test, open_test, read_test,
  wait_test, waitpid_test,
}
use user_basic.Cases.Expects.{ExpectsLines}
use user_basic.Cases.Single.{
  write_lines, write-ExpectsLines, exit_lines, exit-ExpectsLines, dup2_lines, dup2-ExpectsLines,
  sleep_lines, sleep-ExpectsLines, unlink_lines, unlink-ExpectsLines,
}
use user_basic.Cases.Several.{
  execve_lines, execve-ExpectsLines, open_lines, open-ExpectsLines, read_lines, read-ExpectsLines,
  wait_lines, wait-ExpectsLines, waitpid_lines, waitpid-ExpectsLines,
}

-- The tests whose checks compare the first lines of the log with fixed texts, and those texts.
abbrev pub fixed_lines : List (TestBase × List Line)
fixed_lines =
    (dup2_test, dup2_lines)
    ∷ (execve_test, execve_lines)
    ∷ (exit_test, exit_lines)
    ∷ (open_test, open_lines)
    ∷ (read_test, read_lines)
    ∷ (sleep_test, sleep_lines)
    ∷ (unlink_test, unlink_lines)
    ∷ (wait_test, wait_lines)
    ∷ (waitpid_test, waitpid_lines)
    ∷ (write_test, write_lines)
    ∷ []

-- Each of these ten tests gives its full score exactly to the logs that begin with its texts.
pub fixed_lines-ExpectsLines : All (λ (p : TestBase × List Line). ExpectsLines p.0 p.1) fixed_lines
fixed_lines-ExpectsLines = (
  dup2-ExpectsLines,
  (
    execve-ExpectsLines,
    (
      exit-ExpectsLines,
      (
        open-ExpectsLines,
        (
          read-ExpectsLines,
          (
            sleep-ExpectsLines,
            (
              unlink-ExpectsLines,
              (wait-ExpectsLines, (waitpid-ExpectsLines, (write-ExpectsLines, tt))),
            ),
          ),
        ),
      ),
    ),
  ),
)

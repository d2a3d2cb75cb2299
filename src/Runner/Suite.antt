-- ===== src/Runner/Suite.antt =====
-- test_runner.py on the repository's own tests.
use user_basic.Base.{List, [], ◌∷◌, Line, ◌≡◌, ◌↔◌, All, refl, arith, inl, length}
use user_basic.TestBase.{TestBase, init, start, get_result}
use user_basic.TestBase.Checks.{Checks, AllTrue}
use user_basic.TestBase.Verdicts.{start-IsSoundReport, full_score_iff}
use user_basic.Cases.Registry
use user_basic.Cases.Registry.{tests}
use user_basic.Cases.Bounds
use user_basic.Runner.{grade}
use user_basic.Runner.Grade.{IsSoundTest, AllReports, grade-AllReports}

-- A new test object of a class whose checks are bounded.
fresh-IsSoundTest :
    (t : TestBase)
    → t.result ≡ []
    → ((log : List Line) → Checks Unit t.count (t.test log))
    → IsSoundTest t
unfolding get_result
fresh-IsSoundTest t e h = record {
  checks = h;
  report = record {
    bounded = rw e (omega arith);
    verdict = rw e (inl (refl, refl));
    counted = refl;
  };
}

tests-IsSoundTest : All IsSoundTest tests
unfolding tests init Registry.brk_test Registry.chdir_test Registry.clone_test Registry.close_test
    Registry.dup_test Registry.dup2_test Registry.execve_test Registry.exit_test Registry.fork_test
    Registry.fstat_test Registry.getcwd_test Registry.getdents_test Registry.getpid_test
    Registry.getppid_test Registry.gettimeofday_test Registry.mkdir_test Registry.mmap_test
    Registry.mount_test Registry.munmap_test Registry.open_test Registry.openat_test
    Registry.pipe_test Registry.read_test Registry.sleep_test Registry.times_test
    Registry.umount_test Registry.uname_test Registry.unlink_test Registry.wait_test
    Registry.waitpid_test Registry.write_test Registry.yield_test
tests-IsSoundTest = (
  fresh-IsSoundTest Registry.brk_test refl Bounds.brk-Checks,
  (
    fresh-IsSoundTest Registry.chdir_test refl Bounds.chdir-Checks,
    (
      fresh-IsSoundTest Registry.clone_test refl Bounds.clone-Checks,
      (
        fresh-IsSoundTest Registry.close_test refl Bounds.close-Checks,
        (
          fresh-IsSoundTest Registry.dup_test refl Bounds.dup-Checks,
          (
            fresh-IsSoundTest Registry.dup2_test refl Bounds.dup2-Checks,
            (
              fresh-IsSoundTest Registry.execve_test refl Bounds.execve-Checks,
              (
                fresh-IsSoundTest Registry.exit_test refl Bounds.exit-Checks,
                (
                  fresh-IsSoundTest Registry.fork_test refl Bounds.fork-Checks,
                  (
                    fresh-IsSoundTest Registry.fstat_test refl Bounds.fstat-Checks,
                    (
                      fresh-IsSoundTest Registry.getcwd_test refl Bounds.getcwd-Checks,
                      (
                        fresh-IsSoundTest Registry.getdents_test refl Bounds.getdents-Checks,
                        (
                          fresh-IsSoundTest Registry.getpid_test refl Bounds.getpid-Checks,
                          (
                            fresh-IsSoundTest Registry.getppid_test refl Bounds.getppid-Checks,
                            (
                              fresh-IsSoundTest Registry.gettimeofday_test refl
                                  Bounds.gettimeofday-Checks,
                              (
                                fresh-IsSoundTest Registry.mkdir_test refl Bounds.mkdir-Checks,
                                (
                                  fresh-IsSoundTest Registry.mmap_test refl Bounds.mmap-Checks,
                                  (
                                    fresh-IsSoundTest Registry.mount_test refl Bounds.mount-Checks,
                                    (
                                      fresh-IsSoundTest Registry.munmap_test refl
                                          Bounds.munmap-Checks,
                                      (
                                        fresh-IsSoundTest Registry.open_test refl
                                            Bounds.open-Checks,
                                        (
                                          fresh-IsSoundTest Registry.openat_test refl
                                              Bounds.openat-Checks,
                                          (
                                            fresh-IsSoundTest Registry.pipe_test refl
                                                Bounds.pipe-Checks,
                                            (
                                              fresh-IsSoundTest Registry.read_test refl
                                                  Bounds.read-Checks,
                                              (
                                                fresh-IsSoundTest Registry.sleep_test refl
                                                    Bounds.sleep-Checks,
                                                (
                                                  fresh-IsSoundTest Registry.times_test refl
                                                      Bounds.times-Checks,
                                                  (
                                                    fresh-IsSoundTest Registry.umount_test refl
                                                        Bounds.umount-Checks,
                                                    (
                                                      fresh-IsSoundTest Registry.uname_test refl
                                                          Bounds.uname-Checks,
                                                      (
                                                        fresh-IsSoundTest Registry.unlink_test refl
                                                            Bounds.unlink-Checks,
                                                        (
                                                          fresh-IsSoundTest Registry.wait_test refl
                                                            Bounds.wait-Checks,
                                                          (
                                                            fresh-IsSoundTest Registry.waitpid_test
                                                            refl Bounds.waitpid-Checks,
                                                            (
                                                            fresh-IsSoundTest Registry.write_test
                                                            refl Bounds.write-Checks,
                                                            (
                                                            fresh-IsSoundTest Registry.yield_test
                                                            refl Bounds.yield-Checks,
                                                            tt,
                                                            ),
                                                            ),
                                                          ),
                                                        ),
                                                      ),
                                                    ),
                                                  ),
                                                ),
                                              ),
                                            ),
                                          ),
                                        ),
                                      ),
                                    ),
                                  ),
                                ),
                              ),
                            ),
                          ),
                        ),
                      ),
                    ),
                  ),
                ),
              ),
            ),
          ),
        ),
      ),
    ),
  ),
)

-- Whatever the serial log holds, each of the 32 reports that the script prints has at most `all`
-- outcomes, of which only the last can be a failed one, and `passed` counts those that passed.
pub suite-AllReports : (serial_out : Line) → AllReports (grade tests serial_out)
suite-AllReports serial_out = grade-AllReports tests serial_out tests-IsSoundTest

All-full_score :
    (log : List Line) (ts : List TestBase)
    → All IsSoundTest ts
    → All
        (λ (t : TestBase). ((get_result (start log t)).passed ≡ (get_result (start log t)).all) ↔ (
          AllTrue (get_result (start log t)).results
          × (length (get_result (start log t)).results ≡ (get_result (start log t)).all)))
        ts
All-full_score log [] h = tt
All-full_score log (t ∷ ts) (h, hs) = (
  full_score_iff (get_result (start log t)) (start-IsSoundReport log t (h.checks log)),
  All-full_score log ts hs,
)

-- Whatever lines each of the 32 scripts is given, it scores as many points as its count exactly if
-- it ran as many checks as its count and none of them failed.
pub tests-full_score :
    (log : List Line)
    → All
        (λ (t : TestBase). ((get_result (start log t)).passed ≡ (get_result (start log t)).all) ↔ (
          AllTrue (get_result (start log t)).results
          × (length (get_result (start log t)).results ≡ (get_result (start log t)).all)))
        tests
tests-full_score log = All-full_score log tests tests-IsSoundTest

-- ===== src/Cases/Expects.antt =====
-- When a test script of user/src/oscomp/*_test.py gives its full score.
use user_basic.Base.{ℕ, List, ◌++◌, Line, ◌≡◌, ◌↔◌}
use user_basic.TestBase.{TestBase, start, get_result}

-- What `get_result` counts after a run on the log.
abbrev pub score : TestBase → List Line → ℕ
score t log = (get_result (start log t)).passed

abbrev pub Begins : List Line → List Line → Type 0
Begins want log = (rest : List Line) × (log ≡ want ++ rest)

-- The full score is given exactly to the logs that begin with `want`.
abbrev pub ExpectsLines : TestBase → List Line → Type 0
ExpectsLines t want = (log : List Line) → (score t log ≡ t.count) ↔ Begins want log

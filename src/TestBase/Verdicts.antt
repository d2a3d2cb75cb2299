-- ===== src/TestBase/Verdicts.antt =====
-- What the report of a test says of a run whose checks are bounded by the test's count.
use user_basic.Base.{
  suc, ◌+◌, ◌≤◌, ◌≡◌, ◌↔◌, ◌⊎◌, inl, inr, refl, List, [], ◌∷◌, ◌++◌, Line, arith, length,
  length-append,
}
use user_basic.TestBase.{
  TestBase, Entry, Result, ok, err, assert_fail, index_error, value_error, start, get_result,
  Report, passed_of,
}
use user_basic.TestBase.Checks.{Checks, AllTrue, FailsLast, Shape}

pub passed_of-append : (xs ys : List Entry) → passed_of (xs ++ ys) ≡ passed_of xs + passed_of ys
passed_of-append [] ys = omega arith
passed_of-append (x ∷ xs) ys = omega (arith, passed_of-append xs ys)

passed_of-AllTrue : (es : List Entry) → AllTrue es → passed_of es ≡ length es
passed_of-AllTrue [] h = refl
passed_of-AllTrue (e ∷ es) h = ground (arith, passed_of-AllTrue es)

passed_of-FailsLast : (es : List Entry) → FailsLast es → suc (passed_of es) ≡ length es
passed_of-FailsLast es h = rw (h.splits) (
    omega (
      arith,
      passed_of-append h.before (h.last ∷ []),
      length-append {0} h.before (h.last ∷ []),
      passed_of-AllTrue h.before h.good,
      last_zero,
    ))
  where
    last_zero : passed_of (h.last ∷ []) ≡ 0
    last_zero = ground (arith, h.bad)

-- Either every outcome passed, or all did but the last.
abbrev pub Verdict : List Entry → Type 0
Verdict es =
    (AllTrue es × (passed_of es ≡ length es)) ⊎ (FailsLast es × (suc (passed_of es) ≡ length es))

Shape-Verdict : (es : List Entry) (r : Result Unit) → Shape es r → Verdict es
Shape-Verdict es (ok a) h = inl (h, passed_of-AllTrue es h)
Shape-Verdict es (err assert_fail) h = inr (h, passed_of-FailsLast es h)
Shape-Verdict es (err index_error) h = inl (h, passed_of-AllTrue es h)
Shape-Verdict es (err value_error) h = inl (h, passed_of-AllTrue es h)

-- The report of a run.
pub record IsSoundReport (r : Report) : Type 0 where
  pub bounded : length r.results ≤ r.all
  pub verdict : Verdict r.results
  pub counted : r.passed ≡ passed_of r.results

pub start-IsSoundReport :
    (log : List Line) (t : TestBase)
    → Checks Unit t.count (t.test log)
    → IsSoundReport (get_result (start log t))
unfolding start get_result
start-IsSoundReport log t h =
    let a = h.run [] in
    record {
      bounded = rw (a.extends) (a.within);
      verdict = rw (a.extends) (Shape-Verdict a.added _ a.shape);
      counted = refl;
    }

-- The score of a sound report is full exactly if no outcome failed and every check was run.
pub full_score_iff :
    (r : Report)
    → IsSoundReport r
    → (r.passed ≡ r.all) ↔ (AllTrue r.results × (length r.results ≡ r.all))
full_score_iff r s =
    (go s.verdict, λ h. omega (arith, s.counted, passed_of-AllTrue r.results h.0, h.1))
  where
    go : Verdict r.results → r.passed ≡ r.all → AllTrue r.results × (length r.results ≡ r.all)
    go (inl (a, e)) h = (a, omega (arith, s.counted))
    go (inr (f, e)) h = absurd (omega (arith, s.counted, s.bounded))

-- ===== src/CheckTests/Accepts.antt =====
-- When check_tests.py prints "OK!".
use user_basic.Base.{
  ℕ, true, false, ◌&&◌, some, List, [], ◌∷◌, Line, length, All, line_eq, line_eq_iff, ◌≡◌, refl,
  ◌⊎◌, inl, inr, arith, Bool-cases, Option-cases,
}
use user_basic.Base.Int.{ℤ, pos}
use user_basic.Regex.{find_all, lit}
use user_basic.Base.Number.{parse_int}
use user_basic.TestBase.{value_eq, int}
use user_basic.CheckTests.{
  Verdict, skipped, accepted, index_error, assertion_error, check_file, check_tests,
  compare_matches, compare_names, is_python, permitted, name_pattern, class_pattern, init_pattern,
}

-- The first matches of three searches agree in the test's name, and the count is `asserts`.
pub IsConsistent : List (List Line) → List (List Line) → List (List Line) → ℕ → Type 0
IsConsistent ((file_name ∷ []) ∷ fs) ((class_name ∷ []) ∷ cs) ((test_name ∷ test_count ∷ []) ∷ is)
      asserts =
    (class_name ≡ file_name)
    × (file_name ≡ test_name)
    × ((n : ℤ) × (parse_int test_count ≡ some n) × (value_eq (int n) (int (pos asserts)) ≡ true))
IsConsistent fs cs is asserts = ⊥

compare_names-accepted :
    (file_name class_name test_name test_count : Line) (asserts : ℕ)
    → compare_names file_name class_name test_name test_count asserts ≡ accepted
    → (class_name ≡ file_name)
      × (file_name ≡ test_name)
      × ((n : ℤ) × (parse_int test_count ≡ some n) × (value_eq (int n) (int (pos asserts)) ≡ true))
unfolding compare_names
compare_names-accepted file_name class_name test_name test_count asserts h =
    elim (Bool-cases (line_eq class_name file_name && line_eq file_name test_name)) [
      | inr differ ↦ ground (arith, rw differ at h)
      | inl agree ↦ elim (Option-cases (parse_int test_count)) [
        | inl bad ↦ ground (arith, rw (agree, bad) at h)
        | inr (n, e) ↦ (
          ground (arith, line_eq_iff class_name file_name),
          ground (arith, line_eq_iff file_name test_name),
          (n, e, ground (arith, rw (agree, e) at h)),
        )
      ]
    ]

compare_matches-accepted :
    (fs cs is : List (List Line)) (asserts : ℕ)
    → compare_matches fs cs is asserts ≡ accepted
    → IsConsistent fs cs is asserts
unfolding compare_matches IsConsistent
compare_matches-accepted ((file_name ∷ []) ∷ fs) ((class_name ∷ []) ∷ cs)
      ((test_name ∷ test_count ∷ []) ∷ is) asserts h =
    compare_names-accepted file_name class_name test_name test_count asserts h
compare_matches-accepted fs cs is asserts h = ground arith

-- A file that is accepted is named, in its file name, its class line and its call of `__init__`,
-- for one test, and that call gives the number of assertions in its text.
check_file-accepted :
    (file_name content : Line)
    → check_file file_name content ≡ accepted
    → IsConsistent
        (find_all name_pattern file_name)
        (find_all class_pattern content)
        (find_all init_pattern content)
        (length (find_all (lit "self.assert_") content))
unfolding check_file
check_file-accepted file_name content h = elim (Bool-cases (is_python file_name)) [
  | inr other ↦ ground (arith, rw other at h)
  | inl python ↦ elim (Bool-cases (permitted file_name)) [
    | inl skip ↦ ground (arith, rw (python, skip) at h)
    | inr go ↦
        compare_matches-accepted (find_all name_pattern file_name) (find_all class_pattern content)
          (find_all init_pattern content) (length (find_all (lit "self.assert_") content))
          (rw (python, go) at h)
  ]
]

-- A file that is passed over: its name does not end in .py, or is yield_test.py, or has no match.
pub IsPassedOver : Line → Type 0
IsPassedOver file_name =
    (is_python file_name ≡ false)
    ⊎ (permitted file_name ≡ true)
    ⊎ (find_all name_pattern file_name ≡ [])

compare_matches-skipped :
    (fs cs is : List (List Line)) (asserts : ℕ)
    → compare_matches fs cs is asserts ≡ skipped
    → fs ≡ []
unfolding compare_matches compare_names
compare_matches-skipped [] cs is asserts h = refl
compare_matches-skipped (f ∷ fs) cs is asserts h = absurd (ground arith)

check_file-skipped :
    (file_name content : Line) → check_file file_name content ≡ skipped → IsPassedOver file_name
unfolding check_file IsPassedOver
check_file-skipped file_name content h = elim (Bool-cases (is_python file_name)) [
  | inr other ↦ inl other
  | inl python ↦ elim (Bool-cases (permitted file_name)) [
    | inl skip ↦ inr (inl skip)
    | inr go ↦ inr (
        inr (
          compare_matches-skipped (find_all name_pattern file_name) (find_all class_pattern content)
            (find_all init_pattern content) (length (find_all (lit "self.assert_") content))
            (rw (python, go) at h)))
  ]
]

-- What check_tests.py wants of a file with this name and this text.
pub IsChecked : Line × Line → Type 0
IsChecked f =
    IsPassedOver f.0
    ⊎ IsConsistent (find_all name_pattern f.0) (find_all class_pattern f.1)
        (find_all init_pattern f.1) (length (find_all (lit "self.assert_") f.1))

-- When "OK!" is printed, each file of the directory is passed over, or names one test in its file
-- name, its class line and its call of `__init__`, and that call gives the number of places where
-- its text has `self.assert_`.
pub check_tests-IsChecked :
    (files : List (Line × Line)) → check_tests files ≡ true → All IsChecked files
unfolding check_tests IsChecked
check_tests-IsChecked [] h = tt
check_tests-IsChecked ((file_name, content) ∷ files) h =
    go (check_file file_name content) refl (λ k. check_tests-IsChecked files k)
  where
    go :
        (v : Verdict)
        → check_file file_name content ≡ v
        → (check_tests files ≡ true → All IsChecked files)
        → All IsChecked ((file_name, content) ∷ files)
    go skipped e later =
        (inl (check_file-skipped file_name content e), later (ground (arith, e, h)))
    go accepted e later =
        (inr (check_file-accepted file_name content e), later (ground (arith, e, h)))
    go index_error e later = absurd (ground (arith, e, h))
    go assertion_error e later = absurd (ground (arith, e, h))

-- ===== src/SshRun/Flash.antt =====
-- ssh_run.py: when the script gives up, and what it records.
use user_basic.Base.{
  ℕ, zero, suc, ◌+◌, ◌≤◌, ◌<◌, true, false, List, [], ◌∷◌, ◌++◌, Line, is_nil, ◌≡◌, ◌↔◌, ◌⊎◌, ◌∙◌,
  ap, sym, arith, All, Bool-cases, inl, inr,
}
use mathlib.Core.List.{append-nil, append_assoc}
use user_basic.SshRun.{
  Flashed, flashed, gave_up, has_error, flash_loop, flash, Reading, finished, record_serial,
}

-- The script gives up exactly if all three rounds report an error.
pub flash-gave_up_iff :
    (log : ℕ → Line)
    → (flash log ≡ gave_up)
      ↔ ((has_error (log 0) ≡ true) × (has_error (log 1) ≡ true) × (has_error (log 2) ≡ true))
unfolding flash flash_loop
flash-gave_up_iff log = ground arith

abbrev round_of : Flashed → ℕ
round_of (flashed i) = i
round_of gave_up = 0

IsFirst : (ℕ → Line) → ℕ → ℕ → ℕ → Type 0
IsFirst log i n k =
    (i ≤ k)
    × (k ≤ i + n)
    × (has_error (log k) ≡ false)
    × ((j : ℕ) → i ≤ j → j < k → has_error (log j) ≡ true)

here : (log : ℕ → Line) (n i k : ℕ) → has_error (log i) ≡ false → i ≡ k → IsFirst log i n k
unfolding IsFirst
here log n i k good e =
    (omega arith, omega arith, ap (λ m. has_error (log m)) (sym e) ∙ good, λ j p q. ground arith)

later :
    (log : ℕ → Line) (n i k : ℕ)
    → has_error (log i) ≡ true
    → IsFirst log (i + 1) n k
    → IsFirst log i (suc n) k
unfolding IsFirst
later log n i k bad (p, q, r, f) = (omega arith, omega arith, r, λ j p' q'. go j q' (split_at j p'))
  where
    split_at : (j : ℕ) → i ≤ j → (i ≡ j) ⊎ (i + 1 ≤ j)
    split_at j p' = omega arith

    go : (j : ℕ) → j < k → (i ≡ j) ⊎ (i + 1 ≤ j) → has_error (log j) ≡ true
    go j q' (inl e) = ap (λ m. has_error (log m)) (sym e) ∙ bad
    go j q' (inr more) = f j more q'

flash_loop-IsFirst :
    (log : ℕ → Line) (n i k : ℕ) → flash_loop log n i ≡ flashed k → IsFirst log i n k
unfolding flash_loop
flash_loop-IsFirst log zero i k h = elim (Bool-cases (has_error (log i))) [
  | inl bad ↦ ground (arith, rw bad at h)
  | inr good ↦ here log 0 i k good (ap round_of (rw good at h))
]
flash_loop-IsFirst log (suc n) i k h = elim (Bool-cases (has_error (log i))) [
  | inl bad ↦ later log n i k bad (flash_loop-IsFirst log n (i + 1) k (rw bad at h))
  | inr good ↦ here log (suc n) i k good (ap round_of (rw good at h))
]

-- Otherwise it stops at the first of the three rounds that reports none.
pub flash_first :
    (log : ℕ → Line) (i : ℕ)
    → flash log ≡ flashed i
    → (i ≤ 2) × (has_error (log i) ≡ false) × ((j : ℕ) → j < i → has_error (log j) ≡ true)
unfolding flash IsFirst
flash_first log i h =
    let (p, q, r, f) = flash_loop-IsFirst log 2 0 i h in (q, r, λ j. f j (omega arith))

abbrev pub texts : List Reading → Line
texts [] = []
texts (r ∷ rs) = r.text ++ texts rs

-- All that the port sends up to the first empty reading is recorded, in order.
pub record_serial_lem :
    (out : Line) (rs : List Reading) (last : Reading) (more : List Reading)
    → All (λ (r : Reading). is_nil r.text ≡ false) rs
    → last.text ≡ []
    → record_serial out (rs ++ last ∷ more) ≡ finished (out ++ texts rs)
unfolding record_serial
record_serial_lem out [] last more h e = ground (arith, append-nil out)
record_serial_lem out (r ∷ rs) last more (h, hs) e = rw h (
    record_serial_lem (out ++ r.text) rs last more hs e
    ∙ ap finished (append_assoc out r.text (texts rs)))

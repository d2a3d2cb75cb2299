-- ===== src/Ktool/Display/Bar.antt =====
-- ktool.py: the progress bar.
use mathlib.Core.List.{append_assoc}
use native.Mathlib.Nat.{
  div-le_of_le-mul, div-lt_iff_lt-mul, mul-div_cancel, mul-le-mul_left, mul-lt-mul_of_pos_left,
  mul_comm, le-div_iff_mul-le,
}
use user_basic.Base.{
  Bool, true, false, some, ◌==◌, ==_iff, ℕ, suc, ◌-◌, ◌≤◌, ◌<◌, ◌*◌, ◌++◌, Line, codes, replicate,
  ◌≡◌, ◌↔◌, refl, arith,
}
use user_basic.Ktool.Display.{filled_length, bar, print_progress_bar, Shown}

filled_length_le :
    (len iteration total : ℕ) → iteration ≤ total → filled_length len iteration total ≤ len
unfolding filled_length
filled_length_le len iteration total h =
    div-le_of_le-mul total (rw (mul_comm len total) at (mul-le-mul_left len h))

not_zero : {n : ℕ} → 0 < n → (n == 0) ≡ false
not_zero pos = ground arith

filled_length_part :
    (len iteration total : ℕ)
    → 0 < total
    → filled_length len iteration total * total ≤ len * iteration
unfolding filled_length
filled_length_part len iteration total pos = (le-div_iff_mul-le pos).0 (omega arith)

filled_length_next :
    (len iteration total : ℕ)
    → 0 < total
    → len * iteration < suc (filled_length len iteration total) * total
unfolding filled_length
filled_length_next len iteration total pos = (div-lt_iff_lt-mul pos).0 (omega arith)

-- Before the end there is something left of the bar.
filled_length_lt :
    (len iteration total : ℕ)
    → 0 < total
    → iteration < total
    → 0 < len
    → filled_length len iteration total < len
unfolding filled_length
filled_length_lt len iteration total pos h some_len =
    (div-lt_iff_lt-mul pos).1 (mul-lt-mul_of_pos_left h some_len)

filled_length_full : (len total : ℕ) → 0 < total → filled_length len total total ≡ len
unfolding filled_length
filled_length_full len total pos = mul-div_cancel len pos

not_before : {a b : ℕ} → a ≤ b → ¬ (a < b) → a ≡ b
not_before le not_lt = ground arith

-- For a part of a total that is not 0, and a bar that is not to be empty: the prefix is shown, then
-- between bars `=` for the greatest number of places that is no greater a part of the length, and
-- `-` for the rest of the length, and then the percentage and the suffix. The line is ended exactly
-- when all places are `=`.
pub print_progress_bar-full :
    (callback : Bool) (percent : Line) (iteration total : ℕ) (prefix suffix filename : Line)
    (len : ℕ)
    → 0 < total
    → iteration ≤ total
    → 0 < len
    → (shown : Shown) × (places : ℕ) × (print_progress_bar callback percent iteration total prefix
          suffix filename len
        ≡ some shown)
      × (shown.text ≡ (
          codes "\r"
          ++ prefix
          ++ codes " |"
          ++ replicate places b'='
          ++ replicate (len - places) b'-'
          ++ codes "| "
          ++ percent
          ++ codes "% "
          ++ suffix))
      × (places ≤ len)
      × (places * total ≤ len * iteration)
      × (len * iteration < suc places * total)
      × ((shown.new_line ≡ true) ↔ (places ≡ len))
unfolding print_progress_bar bar
print_progress_bar-full callback percent iteration total prefix suffix filename len pos h some_len =
    let last = ==_iff iteration total in
    rw (not_zero pos) (
      _,
      filled_length len iteration total,
      refl,
      simp append_assoc refl,
      filled_length_le len iteration total h,
      filled_length_part len iteration total pos,
      filled_length_next len iteration total pos,
      (
        (λ e. rw (last.0 e) (filled_length_full len total pos)),
        (λ e. last.1 (
            not_before h
              (λ less. ground (arith, e, filled_length_lt len iteration total pos less some_len)))),
      ),
    )

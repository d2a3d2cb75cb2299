-- ===== src/Ktool/Display.antt =====
-- ktool.py: the progress bar.
pub mod Bar
pub mod Size
use user_basic.Base.{
  ℕ, ◌-◌, ◌*◌, ◌/◌, Bool, true, false, ◌&&◌, Option, none, some, List, [], ◌∷◌, ◌++◌, Line, codes,
  line_eq, is_nil, replicate, ◌==◌, if◌then◌else◌,
}

-- `bar`: a negative length, on a terminal of less than 35 columns, gives no bar, as 0 does.
unfoldable pub filled_length : ℕ → ℕ → ℕ → ℕ
filled_length len iteration total = len * iteration / total

unfoldable pub bar : ℕ → ℕ → ℕ → Line
unfolding filled_length
bar len iteration total =
    replicate (filled_length len iteration total) b'='
    ++ replicate (len - filled_length len iteration total) b'-'

-- `fileTypeStr`
unfoldable pub file_type : Line → Line → Line
file_type prefix filename =
    if line_eq prefix (codes "Downloading ISP:")
    then codes "ISP"
    else if line_eq prefix (codes "Programming BIN:") && is_nil filename
    then codes "BIN"
    else filename

-- What `printProgressBar` shows: the text, whether a new line follows, and the arguments of the
-- callback, if there is one.
pub record Shown : Type 0 where
  pub text : Line
  pub new_line : Bool
  pub called : Option (Line × ℕ × ℕ × Line)

-- `percent` is the text that `format` makes of the quotient; `none` is the `ZeroDivisionError`.
unfoldable pub print_progress_bar : Bool → Line → ℕ → ℕ → Line → Line → Line → ℕ → Option Shown
unfolding bar file_type
print_progress_bar callback percent iteration total prefix suffix filename len =
    if total == 0
    then none
    else some (record {
      text =
          b'\r'
          ∷ (prefix
              ++ (codes " |"
                  ++ (bar len iteration total
                      ++ (codes "| " ++ (percent ++ (codes "% " ++ suffix))))));
      new_line = iteration == total;
      called =
          if callback then some (file_type prefix filename, iteration, total, suffix) else none;
    })

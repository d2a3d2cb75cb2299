-- ===== src/Runner/Names.antt =====
-- test_runner.py: the name that is cut out of a start line.
use mathlib.Core.List.{append-nil}
use user_basic.Base.{true, not, [], ◌++◌, Line, codes, ◌==◌, ◌≡◌, all_list, replace}
use user_basic.Base.Text.{replace_from, strip_prefix}
use user_basic.Base.Text.Replace.{
  replace-char, remove_char-append, remove_char-absent, replace_from-absent,
}
use user_basic.Runner.{name_of, start_mark}

-- A name without `=`, blank and capital S, as those of all tests.
pub record IsName (name : Line) : Type 0 where
  pub no_equals : all_list (λ x. not (b'=' == x)) name ≡ true
  pub no_blank : all_list (λ x. not (b' ' == x)) name ≡ true
  pub no_capital : all_list (λ x. not (b'S' == x)) name ≡ true

-- What the C programs print: `========== START name ==========`.
abbrev pub start_line : Line → Line
start_line name = start_mark ++ (name ++ codes " ==========")

-- Of a start line with a name that has no `=`, no blank and no capital S, the three calls of
-- `replace` give back the name.
pub name_of-start_line : (name : Line) → IsName name → name_of (start_line name) ≡ name
unfolding name_of
name_of-start_line name h =
    rw
      (
        replace-char b'=' (start_line name),
        remove_char-append b'=' name (codes " =========="),
        remove_char-absent b'=' name h.no_equals,
        replace-char b' ',
        remove_char-append b' ' name (codes " "),
        remove_char-absent b' ' name h.no_blank,
        append-nil name,
      )
      (unfold replace replace_from strip_prefix in
        replace_from-absent b'S' (codes "TART") [] name h.no_capital)

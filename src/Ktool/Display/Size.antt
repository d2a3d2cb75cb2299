-- ===== src/Ktool/Display/Size.antt =====
-- ktool.py: the size of the terminal.
use user_basic.Base.{
  ℕ, ◌+◌, ◌-◌, Bool, true, false, Option, none, some, Line, codes, ◌≡◌, refl, if◌then◌else◌, ◌==◌,
}
use user_basic.Base.Int.{ℤ, pos}
use user_basic.Base.Number.{parse_int}

-- `platform.system()`
pub data System : Type 0 where
  windows linux darwin cygwin other_system : System

-- The edges of a console window, which are not negative.
pub record Window : Type 0 where
  pub left : ℕ
  pub top : ℕ
  pub right : ℕ
  pub bottom : ℕ

-- What the system gives: the window of `GetConsoleScreenBufferInfo`, the texts that `tput cols` and
-- `tput lines` print, the rows and columns that the ioctl gives for a descriptor, and for the
-- terminal of the process. `none` stands for a call that fails.
pub record Probes : Type 0 where
  pub console : Option Window
  pub tput : Option (Line × Line)
  pub ioctl_gwinsz : ℕ → Option (ℕ × ℕ)
  pub ctermid_gwinsz : Option (ℕ × ℕ)

abbrev pub Size : Type 0
Size = Option (ℤ × ℤ)

-- `a or b`: a tuple of two counts as true.
abbrev pub or_size {ℓ} : {A : Type ℓ} → Option A → Option A → Option A
or_size none other = other
or_size (some size) other = some size

size_of_window : Option Window → Size
size_of_window none = none
size_of_window (some w) = some (pos (w.right + 1 - w.left), pos (w.bottom + 1 - w.top))

-- `_getTerminalSize_windows`
unfoldable pub windows_size : Probes → Size
unfolding size_of_window
windows_size p = size_of_window p.console

both : Option ℤ → Option ℤ → Size
both (some cols) (some rows) = some (cols, rows)
both _ _ = none

size_of_texts : Option (Line × Line) → Size
unfolding both
size_of_texts none = none
size_of_texts (some (cols, rows)) = both (parse_int cols) (parse_int rows)

-- `_getTerminalSize_tput`
unfoldable pub tput_size : Probes → Size
unfolding size_of_texts
tput_size p = size_of_texts p.tput

-- The rows come first. Without any, the environment is asked by `os.env`, which Python does not have,
-- and the exception gives no size.
swapped : Option (ℕ × ℕ) → Size
swapped none = none
swapped (some (rows, columns)) = some (pos columns, pos rows)

-- `_getTerminalSize_linux`
unfoldable pub linux_size : Probes → Size
unfolding swapped
linux_size p = swapped (
    or_size (or_size (or_size (p.ioctl_gwinsz 0) (p.ioctl_gwinsz 1)) (p.ioctl_gwinsz 2))
      p.ctermid_gwinsz)

unfoldable pub probed : System → Probes → Size
unfolding windows_size tput_size linux_size
probed windows p = or_size (windows_size p) (tput_size p)
probed linux p = linux_size p
probed darwin p = linux_size p
probed cygwin p = linux_size p
probed other_system p = none

size_or : ℤ × ℤ → Size → ℤ × ℤ
size_or default none = default
size_or default (some size) = size

-- `getTerminalSize`
unfoldable pub detected_size : System → Probes → ℤ × ℤ
unfolding probed size_or
detected_size system p = size_or (pos 80, pos 25) (probed system p)

-- `get_terminal_size`, where a caller that is no terminal may give the size.
unfoldable pub get_terminal_size : Bool → Bool → ℤ × ℤ → System → Probes → ℤ × ℤ
unfolding detected_size
get_terminal_size terminal auto_size given system p =
    if terminal then detected_size system p else if auto_size then detected_size system p else given

abbrev redirected : Probes
redirected = record {
  console = none;
  tput = some (codes "120\n", codes "40\n");
  ioctl_gwinsz = λ fd. if fd == 2 then some (50, 132) else none;
  ctermid_gwinsz = none;
}

of_stderr : get_terminal_size true false (pos 100, pos 24) linux redirected ≡ (pos 132, pos 50)
unfolding get_terminal_size
of_stderr = refl

of_tput : get_terminal_size true false (pos 100, pos 24) windows redirected ≡ (pos 120, pos 40)
unfolding get_terminal_size parse_int
of_tput = refl

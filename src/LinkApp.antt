-- ===== src/LinkApp.antt =====
-- link_app.py: the assembly file with the embedded programs, or a stub, and the manifest.
pub mod Layout
pub mod Sorted
use user_basic.Base.{
  ℕ, zero, suc, ◌+◌, ◌/◌, ◌%◌, Bool, true, false, not, ◌&&◌, ◌||◌, Option, none, some, List, [],
  ◌∷◌, ◌++◌, map, String, Line, codes, line_eq, length, if◌then◌else◌, ◌==◌, ltb,
}

-- One line of `manager_str` or `section_str`.
pub data Directive : Type 0 where
  p2align_4 : Directive
  section_data_app : Directive
  section_user : Directive
  global : Line → Directive
  label : Line → Directive
  quad_number : ℕ → Directive
  quad_symbol : Line → Directive
  incbin : Line → Directive

-- `str` of a number. Each round divides by ten, so the number is enough fuel.
decimal_from : ℕ → ℕ → Line
decimal_from zero n = []
decimal_from (suc f) n =
    let rest = decimal_from f (n / 10) in
    if ltb n 10 then (b'0' + n) ∷ [] else rest ++ (b'0' + n % 10) ∷ []

unfoldable pub decimal : ℕ → Line
unfolding decimal_from
decimal n = decimal_from (suc n) n

-- The text of a line.
unfoldable pub line_text : Directive → Line
unfolding decimal
line_text p2align_4 = codes "\t.p2align 4\n"
line_text section_data_app = codes "\t.section .data.app\n"
line_text section_user = codes "\t.section .user\n"
line_text (global s) = codes "\t.global " ++ (s ++ codes "\n")
line_text (label s) = s ++ codes ":\n"
line_text (quad_number n) = codes "\t.quad " ++ (decimal n ++ codes "\n")
line_text (quad_symbol s) = codes "\t.quad " ++ (s ++ codes "\n")
line_text (incbin file) = codes "\t.incbin \"" ++ (file ++ codes "\"\n")

unfoldable pub asm_text : List Directive → Line
unfolding line_text
asm_text [] = []
asm_text (d ∷ ds) = line_text d ++ asm_text ds

abbrev pub num_app : Line
num_app = codes "_num_app"

abbrev pub start_of : Line → Line
start_of file = file ++ codes "_start"

abbrev pub end_of : Line → Line
end_of file = file ++ codes "_end"

abbrev header : Directive → List Directive
header count = p2align_4 ∷ section_data_app ∷ global num_app ∷ label num_app ∷ count ∷ []

-- `generate_stub_link_app`: the text that is written to link_app.S.
unfoldable pub generate_stub_link_app : List Directive
generate_stub_link_app = header (quad_number 0)

-- What the loop adds to `manager_str` and to `section_str` for a file. `join` is `os.path.join`
-- of the working directory and the directory of the programs with a file name.
unfoldable pub manager_entry : Line → List Directive
manager_entry file = quad_symbol (start_of file) ∷ quad_symbol (end_of file) ∷ []

unfoldable pub section_entry : (Line → Line) → Line → List Directive
section_entry join file =
    p2align_4
    ∷ section_user
    ∷ global (start_of file)
    ∷ global (end_of file)
    ∷ label (start_of file)
    ∷ incbin (join file)
    ∷ label (end_of file)
    ∷ []

-- The loop over `elf_file_list`, with the two texts.
generate_loop :
    (Line → Line) → List Directive → List Directive → List Line → List Directive × List Directive
generate_loop join manager section [] = (manager, section)
generate_loop join manager section (file ∷ files) =
    generate_loop join (manager ++ manager_entry file) (section ++ section_entry join file) files

-- `generate_link_app`: the first text is written, then the second.
unfoldable pub generate_link_app : (Line → Line) → List Line → List Directive
unfolding generate_loop manager_entry section_entry
generate_link_app join files =
    let (manager, section) = generate_loop join (header (quad_number (length files))) [] files in
    manager ++ section

-- `write_manifest_order`: the text of build/manifest.order.
unfoldable pub write_manifest_order : List Line → Line
write_manifest_order [] = []
write_manifest_order (name ∷ names) = name ++ b'\n' ∷ write_manifest_order names

-- `sorted` on names, by code points.
unfoldable pub less : Line → Line → Bool
less [] [] = false
less [] (y ∷ ys) = true
less (x ∷ xs) [] = false
less (x ∷ xs) (y ∷ ys) = ltb x y || x == y && less xs ys

insert : Line → List Line → List Line
insert x [] = x ∷ []
insert x (y ∷ ys) = let rest = insert x ys in if less y x then y ∷ rest else x ∷ y ∷ ys

unfoldable pub sorted : List Line → List Line
unfolding insert less
sorted [] = []
sorted (x ∷ xs) = insert x (sorted xs)

keep_files : (Line → Bool) → List Line → List Line
keep_files is_file [] = []
keep_files is_file (f ∷ fs) =
    let rest = keep_files is_file fs in if is_file f then f ∷ rest else rest

-- `collect_elf_files`: `none` is a directory that does not exist; `is_file` is `os.path.isfile`.
unfoldable pub collect_elf_files : (Line → Bool) → Option (List Line) → List Line
unfolding keep_files sorted
collect_elf_files is_file none = []
collect_elf_files is_file (some all_items) = sorted (keep_files is_file all_items)

-- `os.environ.get("RENDEZVOS_FILESYSTEM_MODE", "") in ("1", "true", "yes")`
unfoldable pub filesystem_mode : Option Line → Bool
filesystem_mode none = false
filesystem_mode (some v) =
    line_eq v (codes "1") || line_eq v (codes "true") || line_eq v (codes "yes")

-- The main program: the text of the manifest and that of the assembly file.
unfoldable pub main : (Line → Bool) → (Line → Line) → Option Line → Option (List Line) → Line × Line
unfolding asm_text
main is_file join mode listing =
    let elf_files = collect_elf_files is_file listing in
    (
      write_manifest_order elf_files,
      asm_text (
          if filesystem_mode mode
          then generate_stub_link_app
          else generate_link_app join elf_files),
    )

-- ===== src/LinkApp/Layout.antt =====
-- link_app.py: the table and the labels of the assembly file, and the manifest.
use mathlib.Core.List.{append-nil, append_assoc}
use user_basic.Base.{
  ℕ, true, not, List, [], ◌∷◌, ◌++◌, Line, length, split, split-append, ◌==◌, ◌≡◌, refl, ◌∙◌, ap,
  sym, All, all_list,
}
use user_basic.LinkApp.{
  Directive, label, quad_number, quad_symbol, num_app, start_of, end_of, header,
  generate_stub_link_app, manager_entry, section_entry, generate_loop, generate_link_app,
  write_manifest_order,
}

-- The stub is the file for no programs at all.
pub stub-generate : (join : Line → Line) → generate_stub_link_app ≡ generate_link_app join []
unfolding generate_stub_link_app generate_link_app
stub-generate join = refl

-- The symbols that a text refers to by `.quad`, those that it defines, and its numbers.
abbrev pub used : List Directive → List Line
used [] = []
used (quad_symbol s ∷ ds) = s ∷ used ds
used (_ ∷ ds) = used ds

abbrev pub defined : List Directive → List Line
defined [] = []
defined (label s ∷ ds) = s ∷ defined ds
defined (_ ∷ ds) = defined ds

abbrev pub numbers : List Directive → List ℕ
numbers [] = []
numbers (quad_number n ∷ ds) = n ∷ numbers ds
numbers (_ ∷ ds) = numbers ds

-- The symbols of the files, two for each.
abbrev pub symbols : List Line → List Line
symbols [] = []
symbols (file ∷ files) = start_of file ∷ end_of file ∷ symbols files

abbrev managers : List Line → List Directive
managers [] = []
managers (file ∷ files) = quad_symbol (start_of file) ∷ quad_symbol (end_of file) ∷ managers files

abbrev sections : (Line → Line) → List Line → List Directive
sections join [] = []
sections join (file ∷ files) = section_entry join file ++ sections join files

generate_loop_lem :
    (join : Line → Line) (m s : List Directive) (files : List Line)
    → generate_loop join m s files ≡ (m ++ managers files, s ++ sections join files)
unfolding generate_loop manager_entry
generate_loop_lem join m s [] = λ i. (sym (append-nil m) i, sym (append-nil s) i)
generate_loop_lem join m s (file ∷ files) =
    generate_loop_lem join (m ++ manager_entry file) (s ++ section_entry join file) files ∙ (λ i. (
      append_assoc m (manager_entry file) (managers files) i,
      append_assoc s (section_entry join file) (sections join files) i,
    ))

generate_link_app_lem :
    (join : Line → Line) (files : List Line)
    → generate_link_app join files
      ≡ header (quad_number (length files)) ++ (managers files ++ sections join files)
unfolding generate_link_app
generate_link_app_lem join files =
    ap (λ (p : List Directive × List Directive). p.0 ++ p.1)
      (generate_loop_lem join (header (quad_number (length files))) [] files)

used-managers :
    (files : List Line) (ds : List Directive)
    → used (managers files ++ ds) ≡ symbols files ++ used ds
used-managers [] ds = refl
used-managers (file ∷ files) ds = ap (λ t. start_of file ∷ end_of file ∷ t) (used-managers files ds)

defined-managers :
    (files : List Line) (ds : List Directive) → defined (managers files ++ ds) ≡ defined ds
defined-managers [] ds = refl
defined-managers (file ∷ files) ds = defined-managers files ds

numbers-managers :
    (files : List Line) (ds : List Directive) → numbers (managers files ++ ds) ≡ numbers ds
numbers-managers [] ds = refl
numbers-managers (file ∷ files) ds = numbers-managers files ds

module _ (join : Line → Line) where
  used-sections : (files : List Line) → used (sections join files) ≡ []
  unfolding section_entry
  used-sections [] = refl
  used-sections (file ∷ files) = used-sections files

  numbers-sections : (files : List Line) → numbers (sections join files) ≡ []
  unfolding section_entry
  numbers-sections [] = refl
  numbers-sections (file ∷ files) = numbers-sections files

  defined-sections : (files : List Line) → defined (sections join files) ≡ symbols files
  unfolding section_entry
  defined-sections [] = refl
  defined-sections (file ∷ files) =
      ap (λ t. start_of file ∷ end_of file ∷ t) (defined-sections files)

  -- The table refers to exactly the symbols that the sections define, in the same order, a start and
  -- an end for each file; the only other label is `_num_app`, and its number is that of the files.
  pub generate_link_app-symbols :
      (files : List Line)
      → (used (generate_link_app join files) ≡ symbols files)
        × (defined (generate_link_app join files) ≡ num_app ∷ symbols files)
        × (numbers (generate_link_app join files) ≡ length files ∷ [])
  generate_link_app-symbols files = rw (generate_link_app_lem join files) (
    used-managers files (sections join files)
        ∙ rw (used-sections files) (append-nil (symbols files)),
    ap (λ t. num_app ∷ t) (defined-managers files (sections join files) ∙ defined-sections files),
    ap (λ t. length files ∷ t)
        (numbers-managers files (sections join files) ∙ numbers-sections files),
  )

-- A manifest is read back line by line, for names without a line break.
pub split-write_manifest_order :
    (names : List Line)
    → All (λ name. all_list (λ c. not (c == b'\n')) name ≡ true) names
    → split b'\n' (write_manifest_order names) ≡ names ++ [] ∷ []
unfolding write_manifest_order
split-write_manifest_order [] h = unfold split in refl
split-write_manifest_order (name ∷ names) (h, hs) =
    split-append b'\n' name (write_manifest_order names) h
    ∙ ap (λ t. name ∷ t) (split-write_manifest_order names hs)

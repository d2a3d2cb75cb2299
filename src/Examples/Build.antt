-- ===== src/Examples/Build.antt =====
-- link_app.py, check_tests.py and ssh_run.py on small inputs.
use user_basic.Base.{
  ℕ, ◌++◌, true, false, none, some, List, [], ◌∷◌, Line, codes, Bool, replicate, split, contains,
  ◌≡◌, refl, All, length, line_eq, ◌==◌, if◌then◌else◌, arith,
}
use user_basic.LinkApp
use user_basic.LinkApp.{
  asm_text, generate_link_app, generate_stub_link_app, section_entry, manager_entry, line_text,
  decimal, num_app, sorted, less, write_manifest_order, collect_elf_files, filesystem_mode,
}
use user_basic.LinkApp.Layout.{
  used, defined, numbers, symbols, generate_link_app-symbols, split-write_manifest_order,
}
use user_basic.SshRun.{
  flash_loop, flash, Reading, Half, Script, text, printed, flash_cmd, flash_sdcard_cmd, reset_lines,
  main, ssh_run, watch_sdcard, record_serial, set_item,
}
use user_basic.SshRun.Whole.{HasRun, main-HasRun}
use user_basic.Base.Text.{strip_prefix}
use user_basic.CheckTests.{check_file, check_tests, accepted, is_python}
use user_basic.CheckTests.Accepts.{IsChecked, check_tests-IsChecked}
use user_basic.Base.Number.{parse_int}
use user_basic.TestBase.{value_eq}
use user_basic.Regex.{find_all}

abbrev in_build : Line → Line
in_build file = codes "/w/build/" ++ file

-- The file for one program.
main_text : LinkApp.main (λ f. true) in_build none (some (codes "a" ∷ [])) ≡ (
  codes "a\n",
  codes
      "\t.p2align 4\n\t.section .data.app\n\t.global _num_app\n_num_app:\n\t.quad 1\n\t.quad a_start\n\t.quad a_end\n\t.p2align 4\n\t.section .user\n\t.global a_start\n\t.global a_end\na_start:\n\t.incbin \"/w/build/a\"\na_end:\n",
)
unfolding LinkApp.main asm_text generate_link_app collect_elf_files write_manifest_order
    filesystem_mode
main_text = refl

abbrev files : List Line
files = codes "write" ∷ codes "exit" ∷ []

generate_link_app-symbols_example :
    (used (generate_link_app in_build files) ≡ symbols files)
    × (defined (generate_link_app in_build files) ≡ num_app ∷ symbols files)
    × (numbers (generate_link_app in_build files) ≡ length files ∷ [])
generate_link_app-symbols_example = generate_link_app-symbols in_build files

split-write_manifest_order_example : split b'\n' (write_manifest_order files) ≡ files ++ [] ∷ []
split-write_manifest_order_example = split-write_manifest_order files (refl, (refl, tt))

-- The first round fails, the second does not.
abbrev logs : ℕ → Line
logs i = if i == 0 then codes "[ERROR]" else codes "ok"

abbrev said : Line → Reading
said t = record { late = false; text = t }

abbrev exit_name : Line
exit_name = codes "exit_test.py"

abbrev exit_text : Line
exit_text =
    codes
      "class exit_test(TestBase):\n    super().__init__(\"exit\", 2)\n    self.assert_ge(len(data), 1)\n    self.assert_equal(\"exit OK.\", data[0])\n"

exit_accepted : check_file exit_name exit_text ≡ accepted
unfolding check_file find_all is_python line_eq parse_int value_eq
exit_accepted = refl

exit_checked : check_tests ((exit_name, exit_text) ∷ []) ≡ true
unfolding check_tests
exit_checked = ground (arith, exit_accepted)

check_tests-IsChecked_example : All IsChecked ((exit_name, exit_text) ∷ [])
check_tests-IsChecked_example = check_tests-IsChecked ((exit_name, exit_text) ∷ []) exit_checked

abbrev good_half : Bool → Half
good_half opens = record {
  log = λ i. if i == 0 then codes "[ERROR] no port" else codes "done";
  out = λ i. codes "out";
  err = λ i. [];
  opens = some opens;
  readings =
      record { late = false; text = codes "finish" } ∷ record { late = false; text = [] } ∷ [];
}

abbrev two_rounds : Script
two_rounds = record {
  result =
      (codes "sdcard_run_out", text (codes "out"))
      ∷ (codes "sdcard_run_stderr", text [])
      ∷ (codes "ssh_run_out", text (codes "out"))
      ∷ (codes "ssh_run_stderr", text [])
      ∷ [];
  commands =
      replicate 2 (flash_sdcard_cmd (codes "/dev/ttyUSB0"))
      ++ replicate 2 (flash_cmd (codes "/dev/ttyUSB0"));
  lines = reset_lines ++ reset_lines;
  sdcard_write = codes "finish\nFINISH\n";
  serial_out = codes "finish";
}

two_rounds_printed :
    main (codes "/dev/ttyUSB0") (good_half true) (good_half true)
    ≡ (two_rounds, printed two_rounds.result)
unfolding main ssh_run flash flash_loop watch_sdcard record_serial set_item line_eq contains
    strip_prefix
two_rounds_printed = refl

main-HasRun_example :
    (i : ℕ) × (j : ℕ) × HasRun
      (codes "/dev/ttyUSB0")
      (good_half true)
      (good_half true)
      two_rounds
      two_rounds.result
      i
      j
main-HasRun_example =
    main-HasRun (codes "/dev/ttyUSB0") (good_half true) (good_half true) two_rounds
      two_rounds.result two_rounds_printed

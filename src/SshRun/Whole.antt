-- ===== src/SshRun/Whole.antt =====
-- ssh_run.py: what a run that prints its dictionary has done.
use user_basic.Base.{
  ℕ, suc, ◌≤◌, ◌<◌, Bool, true, false, Option, none, some, [], ◌∷◌, ◌++◌, Line, codes, line_eq,
  replicate, if◌then◌else◌, ◌≡◌, refl, ◌∙◌, ap, sym, arith,
}
use user_basic.SshRun.{
  Flashed, flashed, gave_up, has_error, flash, Record, finished, too_long, unread, watch_sdcard,
  record_serial, flash_cmd, flash_sdcard_cmd, text, number, Dict, set_item, Script, Half, Outcome,
  printed, reset_lines, of_record, open_firmware_port, open_sdcard_port, run_firmware, ssh_run,
  watched, run_sdcard, fresh, main,
}
use user_basic.SshRun.Flash.{flash_first}

-- The first of the three rounds that reports no error.
abbrev pub IsFirstGood : (ℕ → Line) → ℕ → Type 0
IsFirstGood log i =
    (i ≤ 2) × (has_error (log i) ≡ false) × ((j : ℕ) → j < i → has_error (log j) ≡ true)

abbrev pub flashed_items : Half → Half → ℕ → ℕ → Dict
flashed_items sd fw i j =
    (codes "sdcard_run_out", text (sd.out i))
    ∷ (codes "sdcard_run_stderr", text (sd.err i))
    ∷ (codes "ssh_run_out", text (fw.out j))
    ∷ (codes "ssh_run_stderr", text (fw.err j))
    ∷ []

abbrev pub verdict_items : Bool → Dict
verdict_items true = []
verdict_items false =
    (codes "verdict", text (codes "SerialError"))
    ∷ (codes "stderr", text (codes "OPEN Serial fail"))
    ∷ (codes "return_code", number 1)
    ∷ []

-- The record of a run that printed d.
pub record HasRun (arg : Line) (sd fw : Half) (s : Script) (d : Dict) (i j : ℕ) : Type 0 where
  pub sdcard : IsFirstGood sd.log i
  pub firmware : IsFirstGood fw.log j
  pub opened : sd.opens ≡ some true
  pub is_open : Bool
  pub again : fw.opens ≡ some is_open
  pub items : d ≡ flashed_items sd fw i j ++ verdict_items is_open
  pub kept : s.result ≡ d
  pub commands :
      s.commands ≡ replicate (suc i) (flash_sdcard_cmd arg) ++ replicate (suc j) (flash_cmd arg)
  pub lines : s.lines ≡ reset_lines ++ (if is_open then reset_lines else [])
  pub watched : watch_sdcard [] sd.readings ≡ finished s.sdcard_write
  pub recorded : is_open ≡ true → record_serial [] fw.readings ≡ finished s.serial_out

abbrev dict_of : Outcome → Dict
dict_of (printed d) = d
dict_of _ = []

-- The script behind the watching of the card.
abbrev behind_sdcard : Line → Half → ℕ → Line → Script
behind_sdcard arg sd i out = record fresh {
  commands = replicate (suc i) (flash_sdcard_cmd arg);
  result =
      (codes "sdcard_run_out", text (sd.out i)) ∷ (codes "sdcard_run_stderr", text (sd.err i)) ∷ [];
  lines = reset_lines;
  sdcard_write = out;
}

module _ (arg : Line) (sd fw : Half) (s : Script) (d : Dict) (i : ℕ) (out : Line)
    (good : IsFirstGood sd.log i) (o : sd.opens ≡ some true)
    (w : watch_sdcard [] sd.readings ≡ finished out) where
  opened-HasRun :
      (j : ℕ)
      → IsFirstGood fw.log j
      → fw.opens ≡ some true
      → (r : Record) → record_serial [] fw.readings ≡ r
      → run_firmware arg fw (behind_sdcard arg sd i out) (flashed j) ≡ (s, printed d)
      → HasRun arg sd fw s d i j
  unfolding run_firmware open_firmware_port of_record set_item line_eq
  opened-HasRun j g e (finished serial) q p =
      let p' = rw (e, q) at p in
      record {
        sdcard = good;
        firmware = g;
        opened = o;
        is_open = true;
        again = e;
        items = sym (ap (λ r. dict_of r.1) p');
        kept = sym (ap (λ r. r.0.result) p') ∙ ap (λ r. dict_of r.1) p';
        commands = sym (ap (λ r. r.0.commands) p');
        lines = sym (ap (λ r. r.0.lines) p');
        watched = w ∙ ap (λ r. finished r.0.sdcard_write) p';
        recorded = λ _. q ∙ ap (λ r. finished r.0.serial_out) p';
      }
  opened-HasRun j g e (too_long serial) q p = absurd (ground (arith, p, e, q))
  opened-HasRun j g e (unread serial) q p = absurd (ground (arith, p, e, q))

  closed-HasRun :
      (j : ℕ)
      → IsFirstGood fw.log j
      → fw.opens ≡ some false
      → run_firmware arg fw (behind_sdcard arg sd i out) (flashed j) ≡ (s, printed d)
      → HasRun arg sd fw s d i j
  unfolding run_firmware open_firmware_port of_record set_item line_eq
  closed-HasRun j g e p =
      let p' = rw e at p in
      record {
        sdcard = good;
        firmware = g;
        opened = o;
        is_open = false;
        again = e;
        items = sym (ap (λ r. dict_of r.1) p');
        kept = sym (ap (λ r. r.0.result) p') ∙ ap (λ r. dict_of r.1) p';
        commands = sym (ap (λ r. r.0.commands) p');
        lines = sym (ap (λ r. r.0.lines) p');
        watched = w ∙ ap (λ r. finished r.0.sdcard_write) p';
        recorded = λ t. absurd (cc);
      }

  -- What `ssh_run` adds.
  abbrev Ran : Type 0
  Ran = (j : ℕ) × HasRun arg sd fw s d i j

  firmware-HasRun :
      (f : Flashed)
      → flash fw.log ≡ f
      → run_firmware arg fw (behind_sdcard arg sd i out) f ≡ (s, printed d)
      → Ran
  unfolding run_firmware open_firmware_port
  firmware-HasRun gave_up q p = absurd (ground (arith, p))
  firmware-HasRun (flashed j) q p = go fw.opens refl
    where
      go : (o' : Option Bool) → fw.opens ≡ o' → Ran
      go none e = absurd (ground (arith, rw e at p))
      go (some true) e =
          (j, opened-HasRun j (flash_first fw.log j q) e (record_serial [] fw.readings) refl p)
      go (some false) e = (j, closed-HasRun j (flash_first fw.log j q) e p)

watched-HasRun :
    (arg : Line) (sd fw : Half) (s : Script) (d : Dict) (i : ℕ) (r : Record)
    → IsFirstGood sd.log i
    → sd.opens ≡ some true
    → watch_sdcard [] sd.readings ≡ r
    → watched arg fw (behind_sdcard arg sd i []) r ≡ (s, printed d)
    → (j : ℕ) × HasRun arg sd fw s d i j
unfolding watched ssh_run
watched-HasRun arg sd fw s d i (finished out) g o w p =
    firmware-HasRun arg sd fw s d i out g o w (flash fw.log) refl p
watched-HasRun arg sd fw s d i (too_long out) g o w p = absurd (ground (arith, p))
watched-HasRun arg sd fw s d i (unread out) g o w p = absurd (ground (arith, p))

sdcard-HasRun :
    (arg : Line) (sd fw : Half) (s : Script) (d : Dict) (f : Flashed)
    → flash sd.log ≡ f
    → run_sdcard arg sd fw fresh f ≡ (s, printed d)
    → (i : ℕ) × (j : ℕ) × HasRun arg sd fw s d i j
unfolding run_sdcard open_sdcard_port set_item line_eq
sdcard-HasRun arg sd fw s d gave_up q p = absurd (ground (arith, p))
sdcard-HasRun arg sd fw s d (flashed i) q p = go sd.opens refl
  where
    go : (o : Option Bool) → sd.opens ≡ o → (i : ℕ) × (j : ℕ) × HasRun arg sd fw s d i j
    go none e = absurd (ground (arith, rw e at p))
    go (some false) e = absurd (ground (arith, rw e at p))
    go (some true) e =
        let r =
          watched-HasRun arg sd fw s d i (watch_sdcard [] sd.readings) (flash_first sd.log i q) e
            refl (rw e at p) in
        (i, r.0, r.1)

-- When the script prints its dictionary, both flashing commands were run, one after the other, each
-- up to and with its first round of at most three without an error, the port was opened both times
-- without an exception, and the card was watched up to its `finish`. The dictionary holds the output
-- of just these two rounds, and a verdict exactly if `isOpen` denies that the second port is open;
-- otherwise the file holds what was recorded up to the end.
pub main-HasRun :
    (arg : Line) (sd fw : Half) (s : Script) (d : Dict)
    → main arg sd fw ≡ (s, printed d)
    → (i : ℕ) × (j : ℕ) × HasRun arg sd fw s d i j
unfolding main
main-HasRun arg sd fw s d p = sdcard-HasRun arg sd fw s d (flash sd.log) refl p

-- ===== src/Process/Ends.antt =====
-- `KTool.process`: what holds where code comes to its end.
use user_basic.Base.{Bool, true, false, Option, List, ◌≡◌, refl, if◌then◌else◌}
use user_basic.Ktool.Slip.{Bytes}
use user_basic.Ktool.Reset.{Action}
use user_basic.Ktool.Port.{Loader, Failure, ok, Io, ◌>>=◌, ◌>>◌, raise, pure, exit}
use user_basic.Ktool.Greeting.{flash_erase}
use user_basic.Ktool.Keeps.{IsStable, Keeps}
use user_basic.Ktool.Runs.{bind_ok}
use user_basic.Process.Args.{Args}
use user_basic.Process.World.{World, Format, fmt_binary, fmt_elf, fmt_kfpkg}
use user_basic.Process.Flow.{open_terminal, when, run_sram, run_read}

-- Code that never comes to its end: it always raises or ends the process.
pub record NeverReturns {A : Type 0} (m : Io A) : Type 0 where
  pub at : (l l' : Loader) (a : A) → ¬ (m l ≡ (l', ok a))

pub NeverReturns-raise : {A : Type 0} (e : Failure) → NeverReturns (raise {A = A} e)
NeverReturns-raise e = record { at = λ l l' a p. cc }

pub NeverReturns-if :
    {A : Type 0} (b : Bool) (m n : Io A)
    → NeverReturns m
    → NeverReturns n
    → NeverReturns (if b then m else n)
NeverReturns-if true m n hm hn = hm
NeverReturns-if false m n hm hn = hn

pub NeverReturns-bind :
    {A B : Type 0} (m : Io A) (f : A → Io B)
    → ((a : A) → NeverReturns (f a))
    → NeverReturns (m >>= f)
NeverReturns-bind m f h = record {
  at = λ l l' b p. let s = bind_ok (m l) f l' b p in (h s.1).at s.0 l' b s.3;
}

pub ruleset ends_rules = (NeverReturns-raise, NeverReturns-if, NeverReturns-bind)

pub run_sram-NeverReturns :
    (w : World) (a : Args) (file : Option Bytes) (f : Format) → NeverReturns (run_sram w a file f)
unfolding run_sram
run_sram-NeverReturns w a file fmt_kfpkg = NeverReturns-raise (exit 1)
run_sram-NeverReturns w a file fmt_elf = search ends_rules
run_sram-NeverReturns w a file fmt_binary = search ends_rules

pub open_terminal-NeverReturns :
    (w : World) (reset : Bool) (a : Args) → NeverReturns (open_terminal w reset a)
unfolding open_terminal
open_terminal-NeverReturns w reset a = search ends_rules

pub run_read-NeverReturns : (w : World) (a : Args) → NeverReturns (run_read w a)
unfolding run_read
run_read-NeverReturns w a = search ends_rules

pub erase-NeverReturns : NeverReturns (flash_erase >> raise {A = Unit {0}} (exit 0))
erase-NeverReturns = search ends_rules

-- Where the code comes to its end from a state with P, its result and its last state have Q.
pub record Ensures {A : Type 0} (P : Loader → Type 0) (m : Io A) (Q : A → Loader → Type 0)
    : Type 0 where
  pub at : (l l' : Loader) (a : A) → P l → m l ≡ (l', ok a) → Q a l'

pub Ensures-bind :
    {A B : Type 0} {P : Loader → Type 0} {R : A → Loader → Type 0} {Q : B → Loader → Type 0}
    (m : Io A) (f : A → Io B)
    → Ensures P m R
    → ((a : A) → Ensures (R a) (f a) Q)
    → Ensures P (m >>= f) Q
Ensures-bind m f hm hf = record {
  at = λ l l' b h p.
      let s = bind_ok (m l) f l' b p in (hf s.1).at s.0 l' b (hm.at l s.0 s.1 h s.2) s.3;
}

pub Ensures-Keeps : {A : Type 0} {P : Loader → Type 0} (m : Io A) → Keeps P m → Ensures P m (λ _. P)
Ensures-Keeps {A} {P} m k = record { at = λ l l' a h p. rw p at (k.at l h) }

-- A step that is only taken where the code does not come to its end.
pub Ensures-when :
    {B : Type 0} {P : Loader → Type 0} {Q : B → Loader → Type 0} (b : Bool) (m : Io (Unit {0}))
    (k : Io B)
    → NeverReturns m
    → (b ≡ false → Ensures P k Q)
    → Ensures P (when b m >> k) Q
unfolding when
Ensures-when true m k h hk = record {
  at = λ l l' a _ p. let s = bind_ok (m l) (λ _. k) l' a p in absurd (h.at l s.0 s.1 s.2);
}
Ensures-when false m k h hk = record { at = (hk refl).at }

pub Ensures-pure :
    {A : Type 0} {P : Loader → Type 0} {Q : A → Loader → Type 0} (a : A)
    → ((l : Loader) → P l → Q a l)
    → Ensures P (pure a) Q
Ensures-pure {A} {P} {Q} a q = record {
  at = λ l l' a' h p. let el : l ≡ l' = cc in let ea : a ≡ a' = cc in rw el at (rw ea at (q l h));
}

-- Such a step as the last one.
pub Ensures-when_last :
    {P : Loader → Type 0} {Q : Unit {0} → Loader → Type 0} (b : Bool) (m : Io (Unit {0}))
    → NeverReturns m
    → (b ≡ false → (l : Loader) → P l → Q tt l)
    → Ensures P (when b m) Q
unfolding when
Ensures-when_last true m h q = record { at = λ l l' a _ p. absurd (h.at l l' a p) }
Ensures-when_last false m h q = Ensures-pure tt (q refl)

pub Ensures-weaken :
    {A : Type 0} {P : Loader → Type 0} {Q R : A → Loader → Type 0} (m : Io A)
    → Ensures P m Q
    → ((a : A) (l : Loader) → Q a l → R a l)
    → Ensures P m R
Ensures-weaken m e h = record { at = λ l l' a k p. h a l' (e.at l l' a k p) }

-- A fact that does not depend on the state.
pub Ensures-given :
    {A C : Type 0} {P : Loader → Type 0} {Q : A → Loader → Type 0} (m : Io A)
    → (C → Ensures P m Q)
    → Ensures (λ l. C × P l) m Q
Ensures-given m h = record { at = λ l l' a k p. (h k.0).at l l' a k.1 p }

-- These actions were done to the control lines.
abbrev pub Acted : List Action → Loader → Type 0
Acted as' l = l.actions ≡ as'

pub Acted-IsStable : (as' : List Action) → IsStable (Acted as')
Acted-IsStable as' = record {
  on_close = λ l h. h;
  on_kill = λ l h. h;
  on_write = λ l bytes e h. h;
  on_read = λ l bytes es e h. h;
  on_failure = λ l es h. h;
  on_baudrate = λ l b h. h;
}

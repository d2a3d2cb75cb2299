-- ===== src/Ktool/Stall.antt =====
-- Where the loader's code of ktool.py may wait for ever: only on an open port whose reads meet no
-- deadline any more.
pub mod Operations
pub mod Data
pub mod Install
use user_basic.Base.{
  ℕ, Bool, true, false, Option, none, some, List, [], ◌∷◌, ◌==◌, ◌≡◌, refl, arith, if◌then◌else◌,
}
use user_basic.Ktool.Slip.{
  Bytes, frame, Event, late, silent, byte, Scan, got, timeout_start, timeout_end, bad_escape, dry,
  Round, more, ended, invalid, round, recv_body, recv,
}
use user_basic.Ktool.Response.{Parsed, parsed, failed, index_error, value_error}
use user_basic.Ktool.Port.{
  Loader, Failure, stalled, bad_index, bad_value, bad_struct, Res, ok, err, Io, then_do, ◌>>=◌,
  ◌>>◌, pure, raise, close, raise_exception, check_kill_exit, port_write, write, recv_one_return,
  after_scan, of_parsed, of_code, flash_reply, isp_reply, recv_debug, flash_recv_debug, catch,
  caught, packed,
}

-- A deadline expires somewhere among the events.
abbrev pub has_late : List Event → Bool
has_late [] = false
has_late (late ∷ es) = true
has_late (silent ∷ es) = has_late es
has_late (byte c ∷ es) = has_late es

-- What a receive leaves of it.
abbrev pub Ahead : Bool → Scan → Type 0
Ahead b (got bytes es) = has_late es ≡ b
Ahead b (timeout_start es) = Unit
Ahead b (timeout_end es) = Unit
Ahead b (bad_escape es) = Unit
Ahead b dry = b ≡ false

recv_body-Ahead :
    (read : Bytes) (in_escape : Bool) (es : List Event)
    → Ahead (has_late es) (recv_body read in_escape es)
unfolding recv_body
recv_body-Ahead read in_escape [] = refl
recv_body-Ahead read in_escape (late ∷ es) = tt
recv_body-Ahead read true (silent ∷ es) = tt
recv_body-Ahead read false (silent ∷ es) = recv_body-Ahead read false es
recv_body-Ahead read in_escape (byte c ∷ es) =
    go (round read in_escape c) (λ read' in_escape'. recv_body-Ahead read' in_escape' es)
  where
    go :
        (r : Round)
        → ((read' : Bytes) (in_escape' : Bool)
            → Ahead (has_late es) (recv_body read' in_escape' es))
        → Ahead (has_late es) (elim r [
          | more read' in_escape' ↦ recv_body read' in_escape' es
          | ended ↦ got read es
          | invalid ↦ bad_escape es
        ])
    go (more read' in_escape') ih = ih read' in_escape'
    go ended ih = refl
    go invalid ih = tt

-- A receive that returns a packet leaves the deadline ahead, and one that meets it does not wait on.
pub recv-Ahead : (es : List Event) → Ahead (has_late es) (recv es)
unfolding recv
recv-Ahead [] = refl
recv-Ahead (late ∷ es) = tt
recv-Ahead (silent ∷ es) = recv-Ahead es
recv-Ahead (byte c ∷ es) = go (c == 0xc0) (recv-Ahead es)
  where
    go :
        (b : Bool)
        → Ahead (has_late es) (recv es)
        → Ahead (has_late es) (if b then recv_body [] false es else recv es)
    go true ih = recv_body-Ahead [] false es
    go false ih = ih

-- The port is open, and no deadline is ahead.
abbrev pub IsDry : Loader → Type 0
IsDry l = (l.is_open ≡ true) × (has_late l.events ≡ false)

abbrev pub DryStall : {A : Type 0} → Loader × Res A → Type 0
DryStall (l, ok a) = Unit
DryStall (l, err stalled) = IsDry l
DryStall (l, err e) = Unit

-- Where the code stalls, it does so in such a state.
pub record StallsDry {A : Type 0} (m : Io A) : Type 0 where
  pub at : (l : Loader) → DryStall (m l)

-- An exception that is one.
abbrev pub IsRaised : Failure → Type 0
IsRaised stalled = ⊥
IsRaised e = Unit

raised_stall : (A : Type 0) (e : Failure) → IsRaised e → (l : Loader) → DryStall (raise {A = A} e l)
raised_stall A stalled h l = absurd h
raised_stall A _ h l = tt

module _ {A : Type 0} where
  pub StallsDry-pure : (a : A) → StallsDry (pure a)
  StallsDry-pure a = record { at = λ l. tt }

  pub StallsDry-raise : (e : Failure) → IsRaised e → StallsDry (raise {A = A} e)
  StallsDry-raise e h = record { at = λ l. raised_stall A e h l }

  pub StallsDry-if :
      (b : Bool) (m n : Io A) → StallsDry m → StallsDry n → StallsDry (if b then m else n)
  StallsDry-if true m n hm hn = hm
  StallsDry-if false m n hm hn = hn

  pub StallsDry-catch : (m : Io A) → StallsDry m → StallsDry (catch m)
  unfolding catch caught
  StallsDry-catch m hm = record { at = λ l. go (m l) (hm.at l) }
    where
      go : (r : Loader × Res A) → DryStall r → DryStall (caught r)
      go (l, ok a) h = tt
      go (l, err stalled) h = h
      go (l, err _) h = tt

module _ {A B : Type 0} where
  pub StallsDry-bind :
      (m : Io A) (f : A → Io B) → StallsDry m → ((a : A) → StallsDry (f a)) → StallsDry (m >>= f)
  StallsDry-bind m f hm hf = record { at = λ l. go (m l) (hm.at l) }
    where
      go : (r : Loader × Res A) → DryStall r → DryStall (then_do f r)
      go (l, ok a) h = (hf a).at l
      go (l, err stalled) h = h
      go (l, err _) h = tt

pub ruleset stall_rules =
    (StallsDry-pure, StallsDry-raise, StallsDry-if, StallsDry-catch, StallsDry-bind)

pub dry_if :
    {A : Type 0} (b : Bool) (r s : Loader × Res A)
    → (b ≡ true → DryStall r)
    → DryStall s
    → DryStall (if b then r else s)
dry_if true r s h k = h refl
dry_if false r s h k = k

pub raise_exception-StallsDry :
    {A : Type 0} (e : Failure) → IsRaised e → StallsDry (raise_exception {A = A} e)
unfolding raise_exception
raise_exception-StallsDry {A} e h = record { at = λ l. raised_stall A e h (close l) }

pub check_kill_exit-StallsDry : StallsDry check_kill_exit
unfolding check_kill_exit
check_kill_exit-StallsDry = record { at = λ l. dry_if l.kill_process _ _ (λ _. tt) tt }

pub port_write-StallsDry : (bytes : Bytes) → StallsDry (port_write bytes)
unfolding port_write
port_write-StallsDry bytes = record { at = λ l. dry_if l.is_open _ _ (λ _. tt) tt }

pub write-StallsDry : (packet : Bytes) → StallsDry (write packet)
unfolding write
write-StallsDry packet = port_write-StallsDry (frame packet)

pub recv_one_return-StallsDry : StallsDry recv_one_return
unfolding recv_one_return after_scan
recv_one_return-StallsDry = record {
  at = λ l. dry_if l.is_open _ _ (λ o. scanned l (recv l.events) o (recv-Ahead l.events)) tt;
}
  where
    scanned :
        (l : Loader) (s : Scan)
        → l.is_open ≡ true
        → Ahead (has_late l.events) s
        → DryStall (after_scan l s)
    scanned l (got bytes es) o h = tt
    scanned l (timeout_start es) o h = tt
    scanned l (timeout_end es) o h = tt
    scanned l (bad_escape es) o h = tt
    scanned l dry o h = (o, h)

of_parsed-StallsDry : (p : Parsed) → StallsDry (of_parsed p)
unfolding of_parsed
of_parsed-StallsDry (parsed op reason text) = StallsDry-pure (op, reason, text)
of_parsed-StallsDry (failed index_error) = StallsDry-raise bad_index tt
of_parsed-StallsDry (failed value_error) = StallsDry-raise bad_value tt

of_code-StallsDry : (o : Option ℕ) → StallsDry (of_code o)
unfolding of_code
of_code-StallsDry none = StallsDry-raise bad_value tt
of_code-StallsDry (some r) = StallsDry-pure r

pub packed-StallsDry : (o : Option Bytes) → StallsDry (packed o)
unfolding packed
packed-StallsDry none = StallsDry-raise bad_struct tt
packed-StallsDry (some bytes) = StallsDry-pure bytes

pub flash_reply-StallsDry : StallsDry flash_reply
unfolding flash_reply
flash_reply-StallsDry = search (stall_rules, recv_one_return-StallsDry, of_parsed-StallsDry)

pub isp_reply-StallsDry : StallsDry isp_reply
unfolding isp_reply
isp_reply-StallsDry = search (stall_rules, recv_one_return-StallsDry, of_parsed-StallsDry)

pub recv_debug-StallsDry : StallsDry recv_debug
unfolding recv_debug
recv_debug-StallsDry = search (stall_rules, isp_reply-StallsDry, of_code-StallsDry)

pub flash_recv_debug-StallsDry : StallsDry flash_recv_debug
unfolding flash_recv_debug
flash_recv_debug-StallsDry = search (stall_rules, flash_reply-StallsDry, of_code-StallsDry)

pub ruleset stall_calls = (
  stall_rules, raise_exception-StallsDry, check_kill_exit-StallsDry, port_write-StallsDry,
  write-StallsDry, recv_one_return-StallsDry, packed-StallsDry, flash_reply-StallsDry,
  isp_reply-StallsDry, recv_debug-StallsDry, flash_recv_debug-StallsDry,
)

-- ===== src/Ktool/Transfer/Spending.antt =====
-- How much of the events an operation takes.
use user_basic.Base.{
  ℕ, zero, suc, ◌+◌, ◌≤◌, ◌<◌, Bool, true, false, Option, List, [], ◌∷◌, ◌==◌, ◌||◌, if◌then◌else◌,
  length, ◌≡◌, sym, ◌∙◌, ap, arith,
}
use user_basic.Ktool.Slip.{
  Bytes, Event, late, silent, byte, Scan, got, timeout_start, timeout_end, bad_escape, dry, Round,
  more, ended, invalid, round, recv_body, recv,
}
use user_basic.Ktool.Response.{Parsed, isp_parse, isp_error_code}
use user_basic.Ktool.Port.{
  Loader, ok, Io, ◌>>=◌, pure, check_kill_exit, packed, write, port_write, recv_debug, isp_reply,
  recv_one_return, after_scan, of_parsed, of_code,
}
use user_basic.Ktool.Runs.{bind_ok}
use user_basic.Ktool.Transfer.{install_chunk}

-- A packet leaves fewer events than this.
abbrev IsBelow : ℕ → Scan → Type 0
IsBelow n (got bytes es) = length es < n
IsBelow n _ = Unit

IsBelow-suc : (n : ℕ) (s : Scan) → IsBelow n s → IsBelow (suc n) s
IsBelow-suc n (got bytes es) h = omega arith
IsBelow-suc n (timeout_start es) h = tt
IsBelow-suc n (timeout_end es) h = tt
IsBelow-suc n (bad_escape es) h = tt
IsBelow-suc n dry h = tt

recv_body-IsBelow :
    (read : Bytes) (in_escape : Bool) (es : List Event)
    → IsBelow (length es) (recv_body read in_escape es)
unfolding recv_body
recv_body-IsBelow read in_escape [] = tt
recv_body-IsBelow read in_escape (late ∷ es) = tt
recv_body-IsBelow read true (silent ∷ es) = tt
recv_body-IsBelow read false (silent ∷ es) =
    IsBelow-suc (length es) _ (recv_body-IsBelow read false es)
recv_body-IsBelow read in_escape (byte c ∷ es) =
    go (round read in_escape c) (λ read' in_escape'. recv_body-IsBelow read' in_escape' es)
  where
    go :
        (r : Round)
        → ((read' : Bytes) (in_escape' : Bool)
            → IsBelow (length es) (recv_body read' in_escape' es))
        → IsBelow (suc (length es)) (elim r [
          | more read' in_escape' ↦ recv_body read' in_escape' es
          | ended ↦ got read es
          | invalid ↦ bad_escape es
        ])
    go (more read' in_escape') ih = IsBelow-suc (length es) _ (ih read' in_escape')
    go ended ih = omega arith
    go invalid ih = tt

recv-IsBelow : (es : List Event) → IsBelow (length es) (recv es)
unfolding recv
recv-IsBelow [] = tt
recv-IsBelow (late ∷ es) = tt
recv-IsBelow (silent ∷ es) = IsBelow-suc (length es) _ (recv-IsBelow es)
recv-IsBelow (byte c ∷ es) = go (c == 0xc0) (recv-IsBelow es)
  where
    go :
        (b : Bool)
        → IsBelow (length es) (recv es)
        → IsBelow (suc (length es)) (if b then recv_body [] false es else recv es)
    go true ih = IsBelow-suc (length es) _ (recv_body-IsBelow [] false es)
    go false ih = IsBelow-suc (length es) _ ih

-- The code leaves fewer events than the bound wherever it comes to its end.
pub record Reads {A : Type 0} (m : Io A) : Type 0 where
  pub at : (l l' : Loader) (a : A) → m l ≡ (l', ok a) → length l'.events < length l.events

-- The code leaves the events as they are.
pub record Leaves {A : Type 0} (m : Io A) : Type 0 where
  pub at : (l l' : Loader) (a : A) → m l ≡ (l', ok a) → l'.events ≡ l.events

pub check_kill_exit-Leaves : Leaves check_kill_exit
unfolding check_kill_exit
check_kill_exit-Leaves = record { at = λ l l' a p. ground arith }

pub packed-Leaves : (o : Option Bytes) → Leaves (packed o)
unfolding packed
packed-Leaves o = record { at = λ l l' a p. ground arith }

pub write-Leaves : (packet : Bytes) → Leaves (write packet)
unfolding write port_write
write-Leaves packet = record { at = λ l l' a p. ground arith }

recv_one_return-Reads : Reads recv_one_return
unfolding recv_one_return after_scan
recv_one_return-Reads = record { at = λ l l' a p. let b = recv-IsBelow l.events in ground arith }

of_parsed-Leaves : (p : Parsed) → Leaves (of_parsed p)
unfolding of_parsed
of_parsed-Leaves p = record { at = λ l l' a q. ground arith }

of_code-Leaves : (o : Option ℕ) → Leaves (of_code o)
unfolding of_code
of_code-Leaves o = record { at = λ l l' a q. ground arith }

pure-Leaves : {A : Type 0} (a : A) → Leaves (pure a)
pure-Leaves a = record { at = λ l l' a' q. cc }

Leaves-bind :
    {A B : Type 0} (m : Io A) (f : A → Io B)
    → Leaves m
    → ((a : A) → Leaves (f a))
    → Leaves (m >>= f)
Leaves-bind m f h k = record {
  at = λ l l' b p. let s = bind_ok (m l) f l' b p in (k s.1).at s.0 l' b s.3 ∙ h.at l s.0 s.1 s.2;
}

Reads-bind :
    {A B : Type 0} (m : Io A) (f : A → Io B) → Reads m → ((a : A) → Leaves (f a)) → Reads (m >>= f)
Reads-bind m f h k = record {
  at = λ l l' b p.
      let s = bind_ok (m l) f l' b p in
      let less = h.at l s.0 s.1 s.2 in rw (sym ((k s.1).at s.0 l' b s.3)) at less;
}

pub recv_debug-Reads : Reads recv_debug
unfolding recv_debug isp_reply
recv_debug-Reads =
    Reads-bind _ _
      (Reads-bind _ _ recv_one_return-Reads (λ bytes. of_parsed-Leaves (isp_parse bytes)))
      (λ r. code-Leaves r.1)
  where
    code-Leaves :
        (reason : ℕ)
        → Leaves (of_code (isp_error_code reason) >>= λ code. pure (code == 0 || code == 0xE0))
    code-Leaves reason =
        Leaves-bind _ _ (of_code-Leaves (isp_error_code reason)) (λ code. pure-Leaves _)

-- The code leaves no more events than there were, wherever it comes to its end.
pub record Shrinks {A : Type 0} (m : Io A) : Type 0 where
  pub at : (l l' : Loader) (a : A) → m l ≡ (l', ok a) → length l'.events ≤ length l.events

pub Leaves-Shrinks : {A : Type 0} (m : Io A) → Leaves m → Shrinks m
Leaves-Shrinks m h = record {
  at = λ l l' a p. let e = ap length (h.at l l' a p) in omega (arith, e);
}

Reads-Shrinks : {A : Type 0} (m : Io A) → Reads m → Shrinks m
Reads-Shrinks m h = record { at = λ l l' a p. let e = h.at l l' a p in omega (arith, e) }

Shrinks-bind :
    {A B : Type 0} (m : Io A) (f : A → Io B)
    → Shrinks m
    → ((a : A) → Shrinks (f a))
    → Shrinks (m >>= f)
Shrinks-bind m f h k = record {
  at = λ l l' b p.
      let s = bind_ok (m l) f l' b p in
      let first = h.at l s.0 s.1 s.2 in
      let next = (k s.1).at s.0 l' b s.3 in omega (arith, first, next);
}

Shrinks-if :
    {A : Type 0} (b : Bool) (m n : Io A) → Shrinks m → Shrinks n → Shrinks (if b then m else n)
Shrinks-if true m n hm hn = hm
Shrinks-if false m n hm hn = hn

pub install_chunk-Shrinks :
    (fuel address : ℕ) (chunk : Bytes) → Shrinks (install_chunk fuel address chunk)
unfolding install_chunk
install_chunk-Shrinks zero address chunk = record { at = λ l l' a p. absurd (cc) }
install_chunk-Shrinks (suc fuel) address chunk =
    let again = install_chunk-Shrinks fuel (address + length chunk) chunk in
    Shrinks-bind _ _ (Leaves-Shrinks _ check_kill_exit-Leaves) (λ _.
      Shrinks-bind _ _ (Leaves-Shrinks _ (packed-Leaves _)) (λ out.
        Shrinks-bind _ _ (Leaves-Shrinks _ (write-Leaves out)) (λ _.
          Shrinks-bind _ _ (Reads-Shrinks _ recv_debug-Reads)
            (λ accepted. Shrinks-if accepted _ _ (Leaves-Shrinks _ (pure-Leaves _)) again))))

-- ===== src/Ktool/Keeps/Calls.antt =====
-- The calls of the port keep a stable property.
use user_basic.Base.{ℕ, Bool, true, false, Option, none, some, ◌≡◌, refl, if◌then◌else◌}
use user_basic.Ktool.Slip.{
  Bytes, frame, Scan, got, timeout_start, timeout_end, bad_escape, dry, recv,
}
use user_basic.Ktool.Response.{Parsed, parsed, failed, index_error, value_error}
use user_basic.Ktool.Port.{
  Loader, Failure, Res, raise_exception, check_kill_exit, port_write, write, recv_one_return,
  after_scan, of_parsed, of_code, flash_reply, isp_reply, recv_debug, flash_recv_debug, packed,
}
use user_basic.Ktool.Keeps.{
  IsStable, Keeps, Keeps-pure, Keeps-raise, Keeps-if, Keeps-catch, Keeps-bind, keeps_rules,
}

pub branch :
    {A : Type 0} (P : Loader → Type 0) (b : Bool) (r s : Loader × Res A)
    → (b ≡ true → P r.0)
    → P s.0
    → P (if b then r else s).0
branch P true r s h k = h refl
branch P false r s h k = k

module _ {P : Loader → Type 0} (stable : IsStable P) where
  pub raise_exception-Keeps : {A : Type 0} (e : Failure) → Keeps P (raise_exception {A = A} e)
  unfolding raise_exception
  raise_exception-Keeps e = record { at = stable.on_close }

  pub check_kill_exit-Keeps : Keeps P check_kill_exit
  unfolding check_kill_exit
  check_kill_exit-Keeps = record {
    at = λ l h. branch P l.kill_process _ _ (λ _. stable.on_kill l h) h;
  }

  pub port_write-Keeps : (bytes : Bytes) → Keeps P (port_write bytes)
  unfolding port_write
  port_write-Keeps bytes = record {
    at = λ l h. branch P l.is_open _ _ (λ e. stable.on_write l bytes e h) h;
  }

  pub write-Keeps : (packet : Bytes) → Keeps P (write packet)
  unfolding write
  write-Keeps packet = port_write-Keeps (frame packet)

  pub recv_one_return-Keeps : Keeps P recv_one_return
  unfolding recv_one_return after_scan
  recv_one_return-Keeps = record {
    at = λ l h. branch P l.is_open _ _ (λ _. scanned l (recv l.events) refl h) h;
  }
    where
      scanned : (l : Loader) (s : Scan) → recv l.events ≡ s → P l → P (after_scan l s).0
      scanned l (got bytes es) e h = stable.on_read l bytes es e h
      scanned l (timeout_start es) e h = stable.on_failure l es h
      scanned l (timeout_end es) e h = stable.on_failure l es h
      scanned l (bad_escape es) e h = stable.on_failure l es h
      scanned l dry e h = h

  of_parsed-Keeps : (p : Parsed) → Keeps P (of_parsed p)
  unfolding of_parsed
  of_parsed-Keeps (parsed op reason text) = Keeps-pure (op, reason, text)
  of_parsed-Keeps (failed index_error) = record { at = λ l h. h }
  of_parsed-Keeps (failed value_error) = record { at = λ l h. h }

  of_code-Keeps : (o : Option ℕ) → Keeps P (of_code o)
  unfolding of_code
  of_code-Keeps none = record { at = λ l h. h }
  of_code-Keeps (some r) = Keeps-pure r

  pub packed-Keeps : (o : Option Bytes) → Keeps P (packed o)
  unfolding packed
  packed-Keeps none = record { at = λ l h. h }
  packed-Keeps (some bytes) = Keeps-pure bytes

  pub flash_reply-Keeps : Keeps P flash_reply
  unfolding flash_reply
  flash_reply-Keeps = search (keeps_rules, recv_one_return-Keeps, of_parsed-Keeps)

  pub isp_reply-Keeps : Keeps P isp_reply
  unfolding isp_reply
  isp_reply-Keeps = search (keeps_rules, recv_one_return-Keeps, of_parsed-Keeps)

  pub recv_debug-Keeps : Keeps P recv_debug
  unfolding recv_debug
  recv_debug-Keeps = search (keeps_rules, isp_reply-Keeps, of_code-Keeps)

  pub flash_recv_debug-Keeps : Keeps P flash_recv_debug
  unfolding flash_recv_debug
  flash_recv_debug-Keeps = search (keeps_rules, flash_reply-Keeps, of_code-Keeps)

pub ruleset call_rules = (
  keeps_rules, raise_exception-Keeps, check_kill_exit-Keeps, port_write-Keeps, write-Keeps,
  recv_one_return-Keeps, packed-Keeps, flash_reply-Keeps, isp_reply-Keeps, recv_debug-Keeps,
  flash_recv_debug-Keeps,
)

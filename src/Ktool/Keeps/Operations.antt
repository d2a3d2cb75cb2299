-- ===== src/Ktool/Keeps/Operations.antt =====
-- The operations of `MAIXLoader` keep a stable property.
use user_basic.Base.{ℕ, zero, suc, Bool, true, false, Option, none, some, ◌==◌}
use user_basic.Ktool.Slip.{Bytes}
use user_basic.Ktool.Port.{Loader, Failure, bad_value, Io}
use user_basic.Ktool.Response.{Operation, operation, error_code}
use user_basic.Ktool.Greeting.{
  greeting, of_reason, of_operation, answers, after_reply, attempt, retry, flash_greeting,
  get_flash_id, init_flash, boot, change_baudrate, set_baudrate, flash_erase,
}
use user_basic.Ktool.Keeps.{IsStable, Keeps, keeps_rules, Keeps-raise, Keeps-pure}
use user_basic.Ktool.Keeps.Calls.{
  call_rules, check_kill_exit-Keeps, raise_exception-Keeps, flash_reply-Keeps,
}

module _ {P : Loader → Type 0} (stable : IsStable P) where
  pub greeting-Keeps : Keeps P greeting
  unfolding greeting
  greeting-Keeps = search call_rules

  of_reason-Keeps : (r : Option ℕ) → Keeps P (of_reason r)
  unfolding of_reason
  of_reason-Keeps none = Keeps-raise bad_value
  of_reason-Keeps (some r) = Keeps-pure (r == 0xE0)

  of_operation-Keeps :
      (o : Option Operation) (same : Bool) (reason : ℕ) → Keeps P (of_operation o same reason)
  unfolding of_operation
  of_operation-Keeps none same reason = Keeps-raise bad_value
  of_operation-Keeps (some o) true reason = of_reason-Keeps (error_code reason)
  of_operation-Keeps (some o) false reason = Keeps-pure false

  answers-Keeps : (expected op reason : ℕ) → Keeps P (answers expected op reason)
  unfolding answers
  answers-Keeps expected op reason = of_operation-Keeps (operation op) (op == expected) reason

  after_reply-Keeps :
      (expected : ℕ) (done again : Io (Unit {0})) (r : Option (ℕ × ℕ × Bytes))
      → Keeps P done
      → Keeps P again
      → Keeps P (after_reply expected done again r)
  unfolding after_reply
  after_reply-Keeps expected done again none kd ka = ka
  after_reply-Keeps expected done again (some (op, reason, text)) kd ka =
      search (keeps_rules, answers-Keeps)

  attempt-Keeps :
      (send : Io (Unit {0})) (expected : ℕ) (done again : Io (Unit {0}))
      → Keeps P send
      → Keeps P done
      → Keeps P again
      → Keeps P (attempt send expected done again)
  unfolding attempt
  attempt-Keeps send expected done again ks kd ka =
      search (keeps_rules, check_kill_exit-Keeps, flash_reply-Keeps, after_reply-Keeps)

  retry-Keeps :
      (send : Io (Unit {0})) (expected : ℕ) (done : Io (Unit {0})) (e : Failure) (n : ℕ)
      → Keeps P send
      → Keeps P done
      → Keeps P (retry send expected done e n)
  unfolding retry
  retry-Keeps send expected done e zero ks kd = search (attempt-Keeps, raise_exception-Keeps)
  retry-Keeps send expected done e (suc n) ks kd =
      attempt-Keeps send expected done _ ks kd (retry-Keeps send expected done e n ks kd)

  pub flash_greeting-Keeps : Keeps P flash_greeting
  unfolding flash_greeting
  flash_greeting-Keeps = search (call_rules, retry-Keeps)

  get_flash_id-Keeps : Keeps P get_flash_id
  unfolding get_flash_id
  get_flash_id-Keeps = search call_rules

  pub init_flash-Keeps : Keeps P init_flash
  unfolding init_flash
  init_flash-Keeps = search (call_rules, retry-Keeps, get_flash_id-Keeps)

  pub boot-Keeps : (address : ℕ) → Keeps P (boot address)
  unfolding boot
  boot-Keeps address = search call_rules

  pub set_baudrate-Keeps : (b : ℕ) → Keeps P (set_baudrate b)
  unfolding set_baudrate
  set_baudrate-Keeps b = record { at = λ l. stable.on_baudrate l b }

  pub change_baudrate-Keeps : (goE : Bool) (b : ℕ) → Keeps P (change_baudrate goE b)
  unfolding change_baudrate
  change_baudrate-Keeps goE b = search (call_rules, set_baudrate-Keeps)

  pub flash_erase-Keeps : Keeps P flash_erase
  unfolding flash_erase
  flash_erase-Keeps = search (call_rules, of_reason-Keeps)

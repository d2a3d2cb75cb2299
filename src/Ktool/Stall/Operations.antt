-- ===== src/Ktool/Stall/Operations.antt =====
-- The operations of `MAIXLoader` stall only where no deadline is ahead.
use user_basic.Base.{ℕ, zero, suc, Bool, true, false, Option, none, some, ◌==◌}
use user_basic.Ktool.Slip.{Bytes}
use user_basic.Ktool.Port.{Failure, bad_value, Io}
use user_basic.Ktool.Response.{Operation, operation, error_code}
use user_basic.Ktool.Greeting.{
  greeting, of_reason, of_operation, answers, after_reply, attempt, retry, flash_greeting,
  get_flash_id, init_flash, boot, change_baudrate, set_baudrate, flash_erase,
}
use user_basic.Ktool.Stall.{
  StallsDry, IsRaised, stall_rules, stall_calls, StallsDry-raise, StallsDry-pure,
  check_kill_exit-StallsDry, raise_exception-StallsDry, flash_reply-StallsDry,
}

pub greeting-StallsDry : StallsDry greeting
unfolding greeting
greeting-StallsDry = search stall_calls

of_reason-StallsDry : (r : Option ℕ) → StallsDry (of_reason r)
unfolding of_reason
of_reason-StallsDry none = StallsDry-raise bad_value tt
of_reason-StallsDry (some r) = StallsDry-pure (r == 0xE0)

of_operation-StallsDry :
    (o : Option Operation) (same : Bool) (reason : ℕ) → StallsDry (of_operation o same reason)
unfolding of_operation
of_operation-StallsDry none same reason = StallsDry-raise bad_value tt
of_operation-StallsDry (some o) true reason = of_reason-StallsDry (error_code reason)
of_operation-StallsDry (some o) false reason = StallsDry-pure false

answers-StallsDry : (expected op reason : ℕ) → StallsDry (answers expected op reason)
unfolding answers
answers-StallsDry expected op reason = of_operation-StallsDry (operation op) (op == expected) reason

after_reply-StallsDry :
    (expected : ℕ) (done again : Io (Unit {0})) (r : Option (ℕ × ℕ × Bytes))
    → StallsDry done
    → StallsDry again
    → StallsDry (after_reply expected done again r)
unfolding after_reply
after_reply-StallsDry expected done again none kd ka = ka
after_reply-StallsDry expected done again (some (op, reason, text)) kd ka =
    search (stall_rules, answers-StallsDry)

attempt-StallsDry :
    (send : Io (Unit {0})) (expected : ℕ) (done again : Io (Unit {0}))
    → StallsDry send
    → StallsDry done
    → StallsDry again
    → StallsDry (attempt send expected done again)
unfolding attempt
attempt-StallsDry send expected done again ks kd ka =
    search (stall_rules, check_kill_exit-StallsDry, flash_reply-StallsDry, after_reply-StallsDry)

retry-StallsDry :
    (send : Io (Unit {0})) (expected : ℕ) (done : Io (Unit {0})) (e : Failure) (n : ℕ)
    → IsRaised e
    → StallsDry send
    → StallsDry done
    → StallsDry (retry send expected done e n)
unfolding retry
retry-StallsDry send expected done e zero he ks kd =
    search (attempt-StallsDry, raise_exception-StallsDry)
retry-StallsDry send expected done e (suc n) he ks kd =
    attempt-StallsDry send expected done _ ks kd (retry-StallsDry send expected done e n he ks kd)

pub flash_greeting-StallsDry : StallsDry flash_greeting
unfolding flash_greeting
flash_greeting-StallsDry = search (stall_calls, retry-StallsDry)

get_flash_id-StallsDry : StallsDry get_flash_id
unfolding get_flash_id
get_flash_id-StallsDry = search stall_calls

pub init_flash-StallsDry : StallsDry init_flash
unfolding init_flash
init_flash-StallsDry = search (stall_calls, retry-StallsDry, get_flash_id-StallsDry)

pub boot-StallsDry : (address : ℕ) → StallsDry (boot address)
unfolding boot
boot-StallsDry address = search stall_calls

pub set_baudrate-StallsDry : (b : ℕ) → StallsDry (set_baudrate b)
unfolding set_baudrate
set_baudrate-StallsDry b = record { at = λ l. tt }

pub change_baudrate-StallsDry : (goE : Bool) (b : ℕ) → StallsDry (change_baudrate goE b)
unfolding change_baudrate
change_baudrate-StallsDry goE b = search (stall_calls, set_baudrate-StallsDry)

pub flash_erase-StallsDry : StallsDry flash_erase
unfolding flash_erase
flash_erase-StallsDry = search (stall_calls, of_reason-StallsDry)

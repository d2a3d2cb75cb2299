-- ===== src/Ktool/Greeting/Retry.antt =====
-- The retry loops of `flash_greeting` and `init_flash`.
use user_basic.Base.{
  ℕ, zero, suc, ◌+◌, ◌≤◌, Bool, true, false, Option, none, some, List, [], ◌∷◌, ◌++◌, ◌≡◌, arith,
  length, length-append, if◌then◌else◌,
}
use user_basic.Ktool.Slip.{Bytes, Event, timeout_start, recv}
use user_basic.Ktool.Response.{Parsed, flash_parse}
use user_basic.Ktool.Port.{
  Loader, Failure, port_closed, stalled, not_connected, Res, ok, err, Io, then_do, ◌>>=◌, pure,
  raise_exception, check_kill_exit, port_write, recv_one_return, flash_reply, catch, caught,
  of_parsed,
}
use user_basic.Ktool.Greeting.{attempt, after_reply, retry, flash_greeting, bare_frame, answers}

-- On an open port that nobody cancels, if no reply starts before the deadline, the port is closed
-- and `flash_greeting` fails after one frame with the error of a closed port: it does not get to
-- a second try.
pub flash_greeting_timeout :
    (l : Loader) (rest : List Event)
    → l.is_open ≡ true
    → l.kill_process ≡ false
    → recv l.events ≡ timeout_start rest
    → flash_greeting l ≡ (
      record l { is_open = false; events = rest; sent = l.sent ++ bare_frame 0xd2 ∷ [] },
      err port_closed,
    )
unfolding flash_greeting retry attempt check_kill_exit port_write recv_one_return flash_reply catch
flash_greeting_timeout l rest o k h = ground arith

-- The code writes at most n entries more, whatever it meets.
abbrev Writes : {A : Type 0} → ℕ → Io A → Type 0
Writes n m = (l : Loader) → length (m l).0.sent ≤ length l.sent + n

bind-Writes :
    {A B : Type 0} (a b : ℕ) (m : Io A) (f : A → Io B)
    → Writes a m
    → ((x : A) → Writes b (f x))
    → Writes (a + b) (m >>= f)
bind-Writes {A} a b m f h k l = go (m l) (h l)
  where
    go :
        (r : Loader × Res A)
        → length r.0.sent ≤ length l.sent + a
        → length (then_do f r).0.sent ≤ length l.sent + (a + b)
    go (l', ok x) q = omega (arith, k x l')
    go (l', err e) q = omega arith

check_kill_exit-Writes : Writes 0 check_kill_exit
unfolding check_kill_exit
check_kill_exit-Writes l = ground arith

port_write-Writes : (bytes : Bytes) → Writes 1 (port_write bytes)
unfolding port_write
port_write-Writes bytes l = ground (arith, length-append l.sent (bytes ∷ []))

recv_one_return-Writes : Writes 0 recv_one_return
unfolding recv_one_return
recv_one_return-Writes l = ground arith

catch-Writes : {A : Type 0} (n : ℕ) (m : Io A) → Writes n m → Writes n (catch m)
unfolding catch caught
catch-Writes {A} n m h l = go (m l) (h l)
  where
    go :
        (r : Loader × Res A)
        → length r.0.sent ≤ length l.sent + n
        → length (caught r).0.sent ≤ length l.sent + n
    go (l', ok x) q = q
    go (l', err stalled) q = q
    go (l', err _) q = q

of_parsed-Writes : (p : Parsed) → Writes 0 (of_parsed p)
unfolding of_parsed
of_parsed-Writes p l = ground arith

flash_reply-Writes : Writes 0 flash_reply
unfolding flash_reply
flash_reply-Writes =
    bind-Writes 0 0 recv_one_return (λ bytes. of_parsed (flash_parse bytes)) recv_one_return-Writes
      (λ bytes. of_parsed-Writes (flash_parse bytes))

answers-Writes : (expected op reason : ℕ) → Writes 0 (answers expected op reason)
unfolding answers
answers-Writes expected op reason l = ground arith

module _ (expected n : ℕ) (done again : Io Unit) (hd : Writes n done) (ha : Writes n again) where
  after_reply-Writes : (o : Option (ℕ × ℕ × Bytes)) → Writes n (after_reply expected done again o)
  unfolding after_reply
  after_reply-Writes none l = ha l
  after_reply-Writes (some (op, reason, text)) l = omega (
    arith,
    bind-Writes 0 n (answers expected op reason) (λ good. if good then done else again)
        (answers-Writes expected op reason) either l,
  )
    where
      either : (b : Bool) → Writes n (if b then done else again)
      either true = hd
      either false = ha

  ask : Io Unit
  ask = catch flash_reply >>= after_reply expected done again

  ask-Writes : Writes n ask
  unfolding ask
  ask-Writes l = omega (
    arith,
    bind-Writes 0 n (catch flash_reply) (after_reply expected done again)
        (catch-Writes 0 flash_reply flash_reply-Writes) after_reply-Writes l,
  )

  attempt-Writes :
      (send : Io Unit) → Writes 1 send → Writes (1 + n) (attempt send expected done again)
  unfolding attempt ask
  attempt-Writes send hs l = omega (
    arith,
    bind-Writes 0 (1 + n) check_kill_exit (λ _. send >>= λ _. ask) check_kill_exit-Writes
        (λ _. bind-Writes 1 n send (λ _. ask) hs (λ _. ask-Writes)) l,
  )

raise_exception-Writes : (n : ℕ) (e : Failure) → Writes {A = Unit} n (raise_exception e)
unfolding raise_exception
raise_exception-Writes n e l = omega arith

retry-Writes :
    (send : Io Unit) (expected n : ℕ) (done : Io Unit) (e : Failure) (k : ℕ)
    → Writes 1 send
    → Writes n done
    → Writes (suc k + n) (retry send expected done e k)
unfolding retry
retry-Writes send expected n done e zero hs hd l = omega (
  arith,
  attempt-Writes expected n done (raise_exception e) hd (raise_exception-Writes n e) send hs l,
)
retry-Writes send expected n done e (suc k) hs hd l = omega (
  arith,
  attempt-Writes expected (suc k + n) done (retry send expected done e k)
      (λ l'. omega (arith, hd l')) (retry-Writes send expected n done e k hs hd) send hs l,
)

-- Whatever the board answers, and however often nothing comes, `flash_greeting` writes at most
-- five frames before it succeeds or raises.
pub flash_greeting-sent : (l : Loader) → length (flash_greeting l).0.sent ≤ length l.sent + 5
unfolding flash_greeting
flash_greeting-sent l = omega (
  arith,
  retry-Writes (port_write (bare_frame 0xd2)) 0xd2 0 (pure tt) not_connected 4
      (port_write-Writes (bare_frame 0xd2)) (λ l'. omega arith) l,
)

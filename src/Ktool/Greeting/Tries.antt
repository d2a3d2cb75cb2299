-- ===== src/Ktool/Greeting/Tries.antt =====
-- `flash_greeting` on a board whose first replies are wrong.
use mathlib.Core.List.{append_assoc}
use user_basic.Base.{
  ℕ, zero, suc, ◌≤◌, true, false, some, List, [], ◌∷◌, ◌++◌, replicate, ◌≡◌, arith, ◌==◌,
}
use user_basic.Ktool.Slip.{Bytes, Event, recv, got}
use user_basic.Ktool.Response.{flash_parse, operation, error_code}
use user_basic.Ktool.Port.{
  Loader, not_connected, ok, err, pure, raise_exception, check_kill_exit, port_write,
  recv_one_return, flash_reply, catch,
}
use user_basic.Ktool.Greeting.{attempt, retry, flash_greeting, bare_frame, answers}

-- The next `k` replies are greetings with a known code that is not that of success; `es'` is left.
abbrev pub Refused : ℕ → List Event → List Event → Type 0
Refused zero es es' = es ≡ es'
Refused (suc k) es es' =
    (reason : ℕ) × (text : Bytes) × (mid : List Event) × (recv es ≡ got (0xd2 ∷ reason ∷ text) mid)
    × (error_code reason ≡ some reason)
    × ((reason == 0xe0) ≡ false)
    × Refused k mid es'

retry-Refused :
    (n k : ℕ) (l : Loader) (mid rest : List Event) (text : Bytes)
    → l.is_open ≡ true
    → l.kill_process ≡ false
    → k ≤ n
    → Refused k l.events mid
    → recv mid ≡ got (0xd2 ∷ 0xe0 ∷ text) rest
    → retry (port_write (bare_frame 0xd2)) 0xd2 (pure tt) not_connected n l
      ≡ (record l { events = rest; sent = l.sent ++ replicate (suc k) (bare_frame 0xd2) }, ok tt)
unfolding retry attempt check_kill_exit port_write recv_one_return flash_reply catch flash_parse
    answers operation error_code
retry-Refused zero zero l mid rest text o q b r h = ground (arith, r)
retry-Refused (suc n) zero l mid rest text o q b r h = ground (arith, r)
retry-Refused zero (suc k) l mid rest text o q b r h = absurd (omega arith)
retry-Refused (suc n) (suc k) l mid rest text o q b (reason, said, next, g, e, f, r) h = ground (
  arith,
  retry-Refused n k (record l { events = next; sent = l.sent ++ bare_frame 0xd2 ∷ [] }) mid rest
      text o q (omega arith) r h,
  append_assoc l.sent (bare_frame 0xd2 ∷ []) (replicate (suc k) (bare_frame 0xd2)),
)

-- On an open port that nobody cancels, after at most four refusals a right reply ends the
-- greeting well, with one frame written for each reply.
pub flash_greeting-Refused :
    (k : ℕ) (l : Loader) (mid rest : List Event) (text : Bytes)
    → l.is_open ≡ true
    → l.kill_process ≡ false
    → k ≤ 4
    → Refused k l.events mid
    → recv mid ≡ got (0xd2 ∷ 0xe0 ∷ text) rest
    → flash_greeting l
      ≡ (record l { events = rest; sent = l.sent ++ replicate (suc k) (bare_frame 0xd2) }, ok tt)
unfolding flash_greeting
flash_greeting-Refused k l mid rest text o q b r h = retry-Refused 4 k l mid rest text o q b r h

retry_exhausted :
    (n : ℕ) (l : Loader) (rest : List Event)
    → l.is_open ≡ true
    → l.kill_process ≡ false
    → Refused (suc n) l.events rest
    → retry (port_write (bare_frame 0xd2)) 0xd2 (pure tt) not_connected n l ≡ (
      record l {
        is_open = false;
        events = rest;
        sent = l.sent ++ replicate (suc n) (bare_frame 0xd2);
      },
      err not_connected,
    )
unfolding retry attempt check_kill_exit port_write recv_one_return flash_reply catch flash_parse
    answers operation error_code raise_exception
retry_exhausted zero l rest o q (reason, said, next, g, e, f, r) = ground (arith, r)
retry_exhausted (suc n) l rest o q (reason, said, next, g, e, f, r) = ground (
  arith,
  retry_exhausted n (record l { events = next; sent = l.sent ++ bare_frame 0xd2 ∷ [] }) rest o q r,
  append_assoc l.sent (bare_frame 0xd2 ∷ []) (replicate (suc n) (bare_frame 0xd2)),
)

-- On an open port that nobody cancels, after five refusals the greeting gives up with its own
-- error: five frames were written, and the port is closed.
pub flash_greeting_exhausted :
    (l : Loader) (rest : List Event)
    → l.is_open ≡ true
    → l.kill_process ≡ false
    → Refused 5 l.events rest
    → flash_greeting l ≡ (
      record l { is_open = false; events = rest; sent = l.sent ++ replicate 5 (bare_frame 0xd2) },
      err not_connected,
    )
unfolding flash_greeting
flash_greeting_exhausted l rest o q r = retry_exhausted 4 l rest o q r

-- ===== src/Ktool/Port.antt =====
-- The serial port under `MAIXLoader` of ktool.py, and the calls that read and write it.
use user_basic.Base.{
  ℕ, Bool, false, ◌||◌, Option, none, some, List, [], ◌∷◌, ◌++◌, ◌==◌, if◌then◌else◌,
}
use user_basic.Ktool.Reset.{Action}
use user_basic.Ktool.Slip.{
  Bytes, frame, Event, Scan, got, timeout_start, timeout_end, bad_escape, dry, recv,
}
use user_basic.Ktool.Response.{
  Parsed, parsed, failed, index_error, value_error, isp_parse, flash_parse, isp_error_code,
  error_code,
}

-- The state of the loader. `events` is what the reads to come will return; bytes that
-- `flushInput` throws away are no events. `sent` is what was written, one entry for each write.
pub record Loader : Type 0 where
  pub is_open : Bool
  pub kill_process : Bool
  pub baudrate : ℕ
  pub events : List Event
  pub sent : List Bytes
  -- What was done to the control lines; the flag `killProcess` of `KTool`; the file of `--read`.
  pub actions : List Action
  pub tool_killed : Bool
  pub dump : Option Bytes

-- The exceptions, and the end of the process with a status. `timed_out` is the class `TimeoutError`
-- that the source declares; `port_closed` is what pyserial raises on a port that was closed.
-- `stalled` is none: the given events are used up and the code still waits.
pub data Failure : Type 0 where
  no_start no_end invalid_escape : Failure
  bad_index bad_value bad_struct port_closed cancelled : Failure
  not_connected not_initialized stalled : Failure
  timed_out greeting_failed no_port no_serial no_file bad_key bad_zip bad_attribute bad_type :
      Failure
  no_key : Failure
  no_mpyterm : Failure
  exit : ℕ → Failure

pub data Res (A : Type 0) : Type 0 where
  ok : A → Res A
  err : Failure → Res A

abbrev pub Io : Type 0 → Type 0
Io A = Loader → Loader × Res A

abbrev pub then_do : {A B : Type 0} → (A → Io B) → Loader × Res A → Loader × Res B
then_do f (l, ok a) = f a l
then_do f (l, err e) = (l, err e)

infixl 5 ◌>>=◌ ◌>>◌
abbrev pub ◌>>=◌ : {A B : Type 0} → Io A → (A → Io B) → Io B
◌>>=◌ m f l = then_do f (m l)

abbrev pub ◌>>◌ : {B : Type 0} → Io (Unit {0}) → Io B → Io B
m >> k = m >>= λ _. k

abbrev pub pure : {A : Type 0} → A → Io A
pure a l = (l, ok a)

abbrev pub raise : {A : Type 0} → Failure → Io A
raise e l = (l, err e)

-- `raise_exception`: the port is closed first.
abbrev pub close : Loader → Loader
close l = record l { is_open = false }

unfoldable pub raise_exception : {A : Type 0} → Failure → Io A
raise_exception e l = (close l, err e)

-- `checkKillExit` of `MAIXLoader`
unfoldable pub check_kill_exit : Io (Unit {0})
check_kill_exit l =
    if l.kill_process
    then (record (close l) { kill_process = false }, err cancelled)
    else (l, ok tt)

-- `self._port.write`
unfoldable pub port_write : Bytes → Io (Unit {0})
port_write bytes l =
    if l.is_open then (record l { sent = l.sent ++ bytes ∷ [] }, ok tt) else (l, err port_closed)

-- `MAIXLoader.write`
unfoldable pub write : Bytes → Io (Unit {0})
unfolding port_write
write packet = port_write (frame packet)

-- The control lines, which pyserial also sets on a closed port.
unfoldable pub line_actions : List Action → Io (Unit {0})
line_actions added l = (record l { actions = l.actions ++ added }, ok tt)

unfoldable pub after_scan : Loader → Scan → Loader × Res Bytes
after_scan l (got bytes es) = (record l { events = es }, ok bytes)
after_scan l (timeout_start es) = (close (record l { events = es }), err no_start)
after_scan l (timeout_end es) = (close (record l { events = es }), err no_end)
after_scan l (bad_escape es) = (close (record l { events = es }), err invalid_escape)
after_scan l dry = (l, err stalled)

-- `recv_one_return`, whose exceptions go through `raise_exception`.
unfoldable pub recv_one_return : Io Bytes
unfolding after_scan
recv_one_return l = if l.is_open then after_scan l (recv l.events) else (l, err port_closed)

unfoldable pub of_parsed : Parsed → Io (ℕ × ℕ × Bytes)
of_parsed (parsed op reason text) = pure (op, reason, text)
of_parsed (failed index_error) = raise bad_index
of_parsed (failed value_error) = raise bad_value

unfoldable pub of_code : Option ℕ → Io ℕ
of_code none = raise bad_value
of_code (some r) = pure r

-- `FlashModeResponse.parse(self.recv_one_return())`
unfoldable pub flash_reply : Io (ℕ × ℕ × Bytes)
unfolding of_parsed
flash_reply = recv_one_return >>= λ bytes. of_parsed (flash_parse bytes)

unfoldable pub isp_reply : Io (ℕ × ℕ × Bytes)
unfolding of_parsed
isp_reply = recv_one_return >>= λ bytes. of_parsed (isp_parse bytes)

-- `recv_debug`: whether the first loader accepted the request.
unfoldable pub recv_debug : Io Bool
unfolding isp_reply of_code
recv_debug = do r ← isp_reply; code ← of_code (isp_error_code r.1); pure (code == 0 || code == 0xE0)

-- `flash_recv_debug`: whether the second loader accepted the request.
unfoldable pub flash_recv_debug : Io Bool
unfolding flash_reply of_code
flash_recv_debug = do r ← flash_reply; code ← of_code (error_code r.1); pure (code == 0xE0)

unfoldable pub caught : {A : Type 0} → Loader × Res A → Loader × Res (Option A)
caught (l, ok a) = (l, ok (some a))
caught (l, err stalled) = (l, err stalled)
caught (l, err _) = (l, ok none)

-- `try: ... except:`, with `none` for any exception.
unfoldable pub catch : {A : Type 0} → Io A → Io (Option A)
unfolding caught
catch m l = caught (m l)

-- `struct.pack` may raise `struct.error`.
unfoldable pub packed : Option Bytes → Io Bytes
packed none = raise bad_struct
packed (some packet) = pure packet

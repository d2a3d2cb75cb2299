-- ===== src/Ktool/Keeps.antt =====
-- Invariants of the loader: a property of its state that every primitive keeps, and the rules by
-- which the operations keep it.
pub mod Calls
pub mod Data
pub mod Operations
use user_basic.Base.{
  ℕ, Bool, true, false, Option, none, some, List, [], ◌∷◌, ◌++◌, ◌≡◌, refl, if◌then◌else◌,
}
use user_basic.Ktool.Slip.{Bytes, Event, recv, got}
use user_basic.Ktool.Reset.{Action}
use user_basic.Ktool.Port.{
  Loader, Failure, stalled, Res, ok, err, Io, then_do, ◌>>=◌, ◌>>◌, pure, raise, close,
  raise_exception, check_kill_exit, port_write, write, recv_one_return, flash_reply, isp_reply,
  recv_debug, flash_recv_debug, catch, caught, packed, line_actions,
}

-- What has to hold of a property so that every primitive keeps it.
pub record IsStable (P : Loader → Type 0) : Type 0 where
  pub on_close : (l : Loader) → P l → P (close l)
  pub on_kill : (l : Loader) → P l → P (record (close l) { kill_process = false })
  pub on_write :
      (l : Loader) (bytes : Bytes)
      → l.is_open ≡ true
      → P l
      → P (record l { sent = l.sent ++ bytes ∷ [] })
  pub on_read :
      (l : Loader) (bytes : Bytes) (es : List Event)
      → recv l.events ≡ got bytes es
      → P l
      → P (record l { events = es })
  pub on_failure : (l : Loader) (es : List Event) → P l → P (close (record l { events = es }))
  pub on_baudrate : (l : Loader) (b : ℕ) → P l → P (record l { baudrate = b })

-- The code keeps the property, whether it returns or raises.
pub record Keeps {A : Type 0} (P : Loader → Type 0) (m : Io A) : Type 0 where
  pub at : (l : Loader) → P l → P (m l).0

module _ {P : Loader → Type 0} {A : Type 0} where
  pub Keeps-pure : (a : A) → Keeps P (pure a)
  Keeps-pure a = record { at = λ l h. h }

  pub Keeps-raise : (e : Failure) → Keeps P (raise {A = A} e)
  Keeps-raise e = record { at = λ l h. h }

  pub Keeps-if : (b : Bool) (m n : Io A) → Keeps P m → Keeps P n → Keeps P (if b then m else n)
  Keeps-if true m n km kn = km
  Keeps-if false m n km kn = kn

  pub Keeps-catch : (m : Io A) → Keeps P m → Keeps P (catch m)
  unfolding catch
  Keeps-catch m km = record { at = λ l h. go (m l) (km.at l h) }
    where
      go : (r : Loader × Res A) → P r.0 → P (caught r).0
      go (l, ok a) h = h
      go (l, err stalled) h = h
      go (l, err _) h = h

module _ {P : Loader → Type 0} {A B : Type 0} where
  pub Keeps-bind :
      (m : Io A) (f : A → Io B) → Keeps P m → ((a : A) → Keeps P (f a)) → Keeps P (m >>= f)
  Keeps-bind m f km kf = record { at = λ l h. go (m l) (km.at l h) }
    where
      go : (r : Loader × Res A) → P r.0 → P (then_do f r).0
      go (l, ok a) h = (kf a).at l h
      go (l, err e) h = h

pub ruleset keeps_rules = (Keeps-pure, Keeps-raise, Keeps-if, Keeps-catch, Keeps-bind)

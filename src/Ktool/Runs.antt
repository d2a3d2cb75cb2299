-- ===== src/Ktool/Runs.antt =====
-- Runs of the loader's code, one step after the other.
use user_basic.Base.{◌≡◌, refl, ◌∙◌, ap}
use user_basic.Ktool.Port.{Loader, Failure, Res, ok, err, Io, ◌>>=◌, ◌>>◌, then_do}

-- From l, the code ends with r.
pub record Runs {A : Type 0} (m : Io A) (l : Loader) (r : Loader × Res A) : Type 0 where
  pub by : m l ≡ r

module _ {A B : Type 0} {l l' : Loader} where
  pub Runs-bind :
      {a : A} {r : Loader × Res B} (m : Io A) (f : A → Io B)
      → Runs m l (l', ok a)
      → Runs (f a) l' r
      → Runs (m >>= f) l r
  Runs-bind m f h k = record { by = ap (then_do f) h.by ∙ k.by }

  pub Runs-err :
      {e : Failure} (m : Io A) (f : A → Io B) → Runs m l (l', err e) → Runs (m >>= f) l (l', err e)
  Runs-err m f h = record { by = ap (then_do f) h.by }

pub Runs-then :
    {B : Type 0} {l l' : Loader} {u : Unit {0}} {r : Loader × Res B} (m : Io (Unit {0})) (k : Io B)
    → Runs m l (l', ok u)
    → Runs k l' r
    → Runs (m >> k) l r
Runs-then m k h j = record { by = ap (then_do (λ _. k)) h.by ∙ j.by }

-- A sequence that comes to its end: so do both its parts.
pub bind_ok :
    {A B : Type 0} (r : Loader × Res A) (f : A → Io B) (l' : Loader) (b : B)
    → then_do f r ≡ (l', ok b)
    → (l1 : Loader) × (a : A) × (r ≡ (l1, ok a)) × (f a l1 ≡ (l', ok b))
bind_ok (l1, ok a) f l' b p = (l1, a, refl, p)
bind_ok (l1, err e) f l' b p = absurd (cc)

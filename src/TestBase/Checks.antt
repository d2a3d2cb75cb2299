-- ===== src/TestBase/Checks.antt =====
-- What every test body built from the checks does to `self.result`.
use mathlib.Core.List.{append-nil, append_assoc}
use native.Mathlib.Nat.{zero-add}
use native.Mathlib.Numerals.{one-add}
use user_basic.Base.Int.{ℤ}
use user_basic.Base.{
  ℕ, suc, ◌+◌, ◌≤◌, ◌≡◌, refl, sym, ◌∙◌, ap, Bool, true, false, Option, none, some, List, [], ◌∷◌,
  ◌++◌, String, Line, arith, length, length-append, get_elem?, all_list,
}
use user_basic.Base.Number.{parse_int}
use user_basic.TestBase.{
  Value, Entry, assert_fail, index_error, value_error, Result, ok, err, M, then_do, ◌>>=◌, pure,
  raise, index, of_option, when, to_int, of_int, assert_util,
}

abbrev pub AllTrue : List Entry → Type 0
AllTrue es = all_list (λ e. e.res) es ≡ true

-- The last entry is a failed one, and only that.
pub record FailsLast (es : List Entry) : Type 0 where
  pub before : List Entry
  pub last : Entry
  pub splits : es ≡ before ++ last ∷ []
  pub good : AllTrue before
  pub bad : last.res ≡ false

abbrev pub Shape : {A : Type 0} → List Entry → Result A → Type 0
Shape es (ok a) = AllTrue es
Shape es (err assert_fail) = FailsLast es
Shape es (err index_error) = AllTrue es
Shape es (err value_error) = AllTrue es

-- From `s` the code ends with `r`: it added at most `n` entries, and a failed one only as the last.
pub record Adds (A : Type 0) (n : ℕ) (s : List Entry) (r : List Entry × Result A) : Type 0 where
  pub added : List Entry
  pub extends : r.0 ≡ s ++ added
  pub within : length added ≤ n
  pub shape : Shape added r.1

-- The code adds at most `n` entries, from every state.
pub record Checks (A : Type 0) (n : ℕ) (m : M A) : Type 0 where
  pub run : (s : List Entry) → Adds A n s (m s)

AllTrue-append : (xs ys : List Entry) → AllTrue xs → AllTrue ys → AllTrue (xs ++ ys)
AllTrue-append [] ys h k = k
AllTrue-append (x ∷ xs) ys h k = ground (arith, AllTrue-append xs ys)

Shape-append :
    {A : Type 0} (xs ys : List Entry) (r : Result A) → AllTrue xs → Shape ys r → Shape (xs ++ ys) r
Shape-append xs ys (ok a) h k = AllTrue-append xs ys h k
Shape-append xs ys (err assert_fail) h k = record {
  before = xs ++ k.before;
  last = k.last;
  splits = rw (k.splits) (sym (append_assoc xs k.before (k.last ∷ [])));
  good = AllTrue-append xs k.before h k.good;
  bad = k.bad;
}
Shape-append xs ys (err index_error) h k = AllTrue-append xs ys h k
Shape-append xs ys (err value_error) h k = AllTrue-append xs ys h k

module _ {A B : Type 0} where
  then_do-Adds :
      (a b : ℕ) (s : List Entry) (r : List Entry × Result A) (f : A → M B)
      → Adds A a s r
      → ((x : A) → Checks B b (f x))
      → Adds B (a + b) s (then_do f r)
  then_do-Adds a b s (s', ok x) f h k =
      let g = (k x).run s' in
      record {
        added = h.added ++ g.added;
        extends = g.extends ∙ ap (λ t. t ++ g.added) h.extends ∙ append_assoc s h.added g.added;
        within = omega (arith, length-append {0} h.added g.added, h.within, g.within);
        shape = Shape-append h.added g.added _ h.shape g.shape;
      }
  then_do-Adds a b s (s', err assert_fail) f h k = record {
    added = h.added;
    extends = h.extends;
    within = omega (arith, h.within);
    shape = h.shape;
  }
  then_do-Adds a b s (s', err index_error) f h k = record {
    added = h.added;
    extends = h.extends;
    within = omega (arith, h.within);
    shape = h.shape;
  }
  then_do-Adds a b s (s', err value_error) f h k = record {
    added = h.added;
    extends = h.extends;
    within = omega (arith, h.within);
    shape = h.shape;
  }

  -- A check, and what follows it.
  pub check_next :
      {n : ℕ} {m : M A} {f : A → M B}
      → Checks A 1 m
      → ((x : A) → Checks B n (f x))
      → Checks B (suc n) (m >>= f)
  check_next {n} {m} {f} h k = record {
    run = λ s. rw (← one-add) (then_do-Adds 1 n s (m s) f (h.run s) k);
  }

  -- A step that checks nothing, and what follows it.
  pub read_next :
      {n : ℕ} {m : M A} {f : A → M B}
      → Checks A 0 m
      → ((x : A) → Checks B n (f x))
      → Checks B n (m >>= f)
  read_next {n} {m} {f} h k = record {
    run = λ s. rw (← zero-add n) (then_do-Adds 0 n s (m s) f (h.run s) k);
  }

Adds-nothing : {A : Type 0} (n : ℕ) (s : List Entry) (r : Result A) → Shape [] r → Adds A n s (s, r)
Adds-nothing n s r h = record {
  added = [];
  extends = sym (append-nil s);
  within = omega arith;
  shape = h;
}

pub pure-Checks : {A : Type 0} (a : A) → Checks A 0 (pure a)
unfolding pure
pure-Checks a = record { run = λ s. Adds-nothing 0 s (ok a) refl }

of_option-Checks : {A : Type 0} (o : Option A) → Checks A 0 (of_option o)
unfolding of_option pure raise
of_option-Checks none = record { run = λ s. Adds-nothing 0 s (err index_error) refl }
of_option-Checks (some a) = record { run = λ s. Adds-nothing 0 s (ok a) refl }

pub index-Checks : {A : Type 0} (xs : List A) (i : ℕ) → Checks A 0 (index xs i)
unfolding index
index-Checks xs i = of_option-Checks (get_elem? xs i)

of_int-Checks : (o : Option ℤ) → Checks ℤ 0 (of_int o)
unfolding of_int pure raise
of_int-Checks none = record { run = λ s. Adds-nothing 0 s (err value_error) refl }
of_int-Checks (some a) = record { run = λ s. Adds-nothing 0 s (ok a) refl }

pub to_int-Checks : (l : Line) → Checks ℤ 0 (to_int l)
unfolding to_int
to_int-Checks l = of_int-Checks (parse_int l)

pub when-Checks : {n : ℕ} {m : M Unit} (b : Bool) → Checks Unit n m → Checks Unit n (when b m)
unfolding when pure
when-Checks true h = record { run = h.run }
when-Checks {n} false h = record { run = λ s. Adds-nothing n s (ok tt) refl }

pub assert_util-Checks :
    (res : Bool) (rep : String) (args : List Value) → Checks Unit 1 (assert_util res rep args)
unfolding assert_util
assert_util-Checks true rep args = record {
  run = λ s. record { added = _ ∷ []; extends = refl; within = omega arith; shape = refl };
}
assert_util-Checks false rep args = record {
  run = λ s. record {
    added = _ ∷ [];
    extends = refl;
    within = omega arith;
    shape = record { before = []; last = _; splits = refl; good = refl; bad = refl };
  };
}

-- ===== src/TestBase.antt =====
-- user/src/oscomp/test_base.py: the class `TestBase`, and the values that its checks record.
pub mod Checks
pub mod Verdicts
pub mod InStr
use user_basic.Base.{
  ℕ, zero, suc, ◌+◌, ◌-◌, ◌*◌, Bool, true, false, not, ◌&&◌, ◌||◌, Option, none, some, List, [],
  ◌∷◌, ◌++◌, String, Line, codes, line_eq, contains, length, get_elem?, leb, ltb, ◌==◌,
  if◌then◌else◌,
}
use user_basic.Base.Number.{parse_int}
use user_basic.Base.Int.{ℤ, pos, negsuc, pos_part, neg_part, ltb_ℤ}
use mathlib.Core.List.{reverse}
use mathlib.Core.Option
use user_basic.Regex.{Regex, search_in}

-- What a test hands to a check.
pub data Value : Type 0 where
  int : ℤ → Value
  str : Line → Value
  bool : Bool → Value
  lines : List Line → Value
  pattern : Regex → Value

-- One dictionary of `self.result`.
pub record Entry : Type 0 where
  pub rep : String
  pub res : Bool
  pub arg : List Value
  pub msg : String

pub data Exc : Type 0 where
  assert_fail index_error value_error : Exc

pub data Result (A : Type 0) : Type 0 where
  ok : A → Result A
  err : Exc → Result A

-- Code of a test: it reads and extends `self.result`, and may raise an exception.
abbrev pub M : Type 0 → Type 0
M A = List Entry → List Entry × Result A

abbrev pub then_do : {A B : Type 0} → (A → M B) → List Entry × Result A → List Entry × Result B
then_do f (s, ok a) = f a s
then_do f (s, err e) = (s, err e)

infixl 5 ◌>>=◌ ◌>>◌
abbrev pub ◌>>=◌ : {A B : Type 0} → M A → (A → M B) → M B
◌>>=◌ m f s = then_do f (m s)

abbrev pub ◌>>◌ : {B : Type 0} → M (Unit {0}) → M B → M B
m >> k = m >>= λ _. k

unfoldable pub pure : {A : Type 0} → A → M A
pure a s = (s, ok a)

unfoldable pub raise : {A : Type 0} → Exc → M A
raise e s = (s, err e)

-- `xs[i]`
of_option : {A : Type 0} → Option A → M A
unfolding pure raise
of_option none = raise index_error
of_option (some a) = pure a

unfoldable pub index : {A : Type 0} → List A → ℕ → M A
unfolding of_option
index xs i = of_option (get_elem? xs i)

unfoldable pub when : Bool → M (Unit {0}) → M (Unit {0})
unfolding pure
when true m = m
when false m = pure tt

of_int : Option ℤ → M ℤ
unfolding pure raise
of_int none = raise value_error
of_int (some a) = pure a

unfoldable pub to_int : Line → M ℤ
unfolding of_int
to_int s = of_int (parse_int s)

eq_ℤ : ℤ → ℤ → Bool
eq_ℤ a b = pos_part a + neg_part b == pos_part b + neg_part a

of_bool : Bool → ℤ
of_bool false = pos 0
of_bool true = pos 1

lines_eq : List Line → List Line → Bool
lines_eq [] [] = true
lines_eq (x ∷ xs) (y ∷ ys) = line_eq x y && lines_eq xs ys
lines_eq _ _ = false

-- `a == b`. In Python `True` is 1.
unfoldable pub value_eq : Value → Value → Bool
unfolding eq_ℤ of_bool lines_eq
value_eq (int a) (int b) = eq_ℤ a b
value_eq (int a) (bool b) = eq_ℤ a (of_bool b)
value_eq (bool a) (int b) = eq_ℤ (of_bool a) b
value_eq (bool a) (bool b) = eq_ℤ (of_bool a) (of_bool b)
value_eq (str a) (str b) = line_eq a b
value_eq (lines a) (lines b) = lines_eq a b
value_eq _ _ = false

-- `assert_util`: the outcome of the comparison is recorded, and a failed one ends the test.
unfoldable pub assert_util : Bool → String → List Value → M (Unit {0})
assert_util res rep args s = (
  s ++ (record { rep = rep; res = res; arg = args; msg = "" }) ∷ [],
  if res then ok tt else err assert_fail,
)

unfoldable pub assert_equal : Value → Value → M (Unit {0})
assert_equal v1 v2 = assert_util (value_eq v1 v2) "=" (v1 ∷ v2 ∷ [])

unfoldable pub assert_not_equal : Value → Value → M (Unit {0})
assert_not_equal v1 v2 = assert_util (not (value_eq v1 v2)) "!=" (v1 ∷ v2 ∷ [])

-- The tests compare only integers by order.
unfoldable pub assert_great : ℤ → ℤ → M (Unit {0})
assert_great v1 v2 = assert_util (ltb_ℤ v2 v1) ">" (int v1 ∷ int v2 ∷ [])

unfoldable pub assert_ge : ℤ → ℤ → M (Unit {0})
assert_ge v1 v2 = assert_util (not (ltb_ℤ v1 v2)) ">=" (int v1 ∷ int v2 ∷ [])

found_in : Regex → List Line → Bool
found_in p [] = false
found_in p (line ∷ rest) = search_in p line || found_in p rest

unfoldable pub assert_in_str : Regex → List Line → M (Unit {0})
unfolding found_in
assert_in_str v1 v2 = assert_util (found_in v1 v2) "in" (pattern v1 ∷ lines v2 ∷ [])

-- On texts, `a in b` looks for a part of `b`.
unfoldable pub assert_in : Line → Line → M (Unit {0})
assert_in v1 v2 = assert_util (contains v1 v2) "in" (str v1 ∷ str v2 ∷ [])

-- A test object with the `test` method of its class.
pub record TestBase : Type 0 where
  pub name : Line
  pub count : ℕ
  pub result : List Entry
  pub test : List Line → M (Unit {0})

-- `__init__`
unfoldable pub init : String → ℕ → (List Line → M (Unit {0})) → TestBase
init name count test = record {
  name = codes "test_" ++ codes name;
  count = count;
  result = [];
  test = test;
}

-- `start`: every exception of the test is swallowed; what was recorded before it stays.
unfoldable pub start : List Line → TestBase → TestBase
start log t = record t { result = (t.test log []).0 }

abbrev pub passed_of : List Entry → ℕ
passed_of [] = 0
passed_of (e ∷ es) = (if e.res then 1 else 0) + passed_of es

pub record Report : Type 0 where
  pub name : Line
  pub results : List Entry
  pub all : ℕ
  pub passed : ℕ

unfoldable pub get_result : TestBase → Report
get_result t = record {
  name = t.name;
  results = t.result;
  all = t.count;
  passed = passed_of t.result;
}

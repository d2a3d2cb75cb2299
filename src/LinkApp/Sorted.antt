-- ===== src/LinkApp/Sorted.antt =====
-- link_app.py: the order of the programs.
use mathlib.Core.List.{Perm}
use mathlib.Core.List.Perm
use user_basic.Base.{true, false, List, [], ◌∷◌, Line, ◌≡◌, refl, arith, Bool-cases, ◌⊎◌, inl, inr}
use user_basic.LinkApp.{less, insert, sorted}

-- No name comes behind a greater one.
pub data IsSorted : List Line → Type 0 where
  nil : IsSorted []
  one : (x : Line) → IsSorted (x ∷ [])
  more : {x y : Line} {l : List Line} → less y x ≡ false → IsSorted (y ∷ l) → IsSorted (x ∷ y ∷ l)

less-asymm : (x y : Line) → less x y ≡ true → less y x ≡ false
unfolding less
less-asymm [] [] h = refl
less-asymm [] (y ∷ ys) h = refl
less-asymm (x ∷ xs) [] h = cc
less-asymm (x ∷ xs) (y ∷ ys) h = ground (arith, less-asymm xs ys)

insert-IsSorted : (x : Line) {l : List Line} → IsSorted l → IsSorted (insert x l)
unfolding insert
insert-IsSorted x nil = one x
insert-IsSorted x (one y) = elim (Bool-cases (less y x)) [
  | inl e ↦ rw e (more (less-asymm y x e) (one x))
  | inr e ↦ rw e (more e (one y))
]
insert-IsSorted x (more {x = y} {y = z} {l} h s) = elim (Bool-cases (less y x)) [
  | inl e ↦ rw e (behind (Bool-cases (less z x)) (less-asymm y x e) (insert-IsSorted x s))
  | inr e ↦ rw e (more e (more h s))
]
  where
    behind :
        (less z x ≡ true) ⊎ (less z x ≡ false)
        → less x y ≡ false
        → IsSorted (insert x (z ∷ l))
        → IsSorted (y ∷ insert x (z ∷ l))
    behind (inl e) k t = rw e (more h (rw e at t))
    behind (inr e) k t = rw e (more k (more e s))

insert-perm : (x : Line) (l : List Line) → Perm (insert x l) (x ∷ l)
unfolding insert
insert-perm x [] = Perm.refl (x ∷ [])
insert-perm x (y ∷ ys) = elim (Bool-cases (less y x)) [
  | inl e ↦ rw e (Perm.trans (Perm.cons y (insert-perm x ys)) (Perm.swap x y ys))
  | inr e ↦ rw e (Perm.refl (x ∷ y ∷ ys))
]

sorted-perm : (l : List Line) → Perm (sorted l) l
unfolding sorted
sorted-perm [] = Perm.refl []
sorted-perm (x ∷ xs) = Perm.trans (insert-perm x (sorted xs)) (Perm.cons x (sorted-perm xs))

sorted-IsSorted : (l : List Line) → IsSorted (sorted l)
unfolding sorted
sorted-IsSorted [] = nil
sorted-IsSorted (x ∷ xs) = insert-IsSorted x (sorted-IsSorted xs)

-- The files are listed in the order of their names, each as often as it was.
pub sorted_lem : (l : List Line) → IsSorted (sorted l) × Perm (sorted l) l
sorted_lem l = (sorted-IsSorted l, sorted-perm l)

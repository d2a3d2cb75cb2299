-- ===== src/Runner/Last.antt =====
-- test_runner.py: what the script prints, without the order in which it goes through the log.
use mathlib.Core.Option
use user_basic.Base.{
  Bool, true, false, ◌||◌, Option, none, some, List, [], ◌∷◌, map, Line, line_eq, line_eq_iff,
  if◌then◌else◌, ◌≡◌, refl, ◌∙◌, ap, sym, arith, All, Bool-cases, inl, inr,
}
use user_basic.TestBase.{TestBase, start, get_result}
use user_basic.Runner.{start_named, name_of, grade}
use user_basic.Runner.Blocks.{Part, noise, block, IsPart, lines_of, start_all, non_blank}
use user_basic.Runner.Grade.{text_of, OneLine, grade-text_of}

-- The lines of the last block of this name.
abbrev pub last_log : Line → List Part → Option (List Line)
last_log name [] = none
last_log name (noise line ∷ ps) = last_log name ps
last_log name (block first body last ∷ ps) = elim (last_log name ps) [
  | some log ↦ some log
  | none ↦ if line_eq name (name_of first) then some (non_blank body) else none
]

-- The object of a test after a log: started on its last block, if it has one.
abbrev pub graded : List Part → TestBase → TestBase
graded ps t = elim (last_log t.name ps) [ some log ↦ start log t | none ↦ t ]

abbrev pub Distinct : List TestBase → Type 0
Distinct [] = Unit
Distinct (t ∷ ts) = All (λ u. line_eq u.name t.name ≡ false) ts × Distinct ts

abbrev pub is_named : Line → List TestBase → Bool
is_named name [] = false
is_named name (t ∷ ts) = line_eq t.name name || is_named name ts

-- Every block is one of these tests.
abbrev pub Known : List TestBase → Part → Type 0
Known ts (noise line) = Unit
Known ts (block first body last) = is_named (name_of first) ts ≡ true

-- One block: the test of that name is started, the others stay.
abbrev start_if : Line → List Line → TestBase → TestBase
start_if name log t = if line_eq t.name name then start log t else t

start_named-absent :
    (name : Line) (log : List Line) (ts : List TestBase)
    → All (λ u. line_eq u.name name ≡ false) ts
    → (start_named name log ts ≡ none) × (map (start_if name log) ts ≡ ts)
unfolding start_named
start_named-absent name log [] h = (refl, refl)
start_named-absent name log (t ∷ ts) (h, hs) =
    let ih = start_named-absent name log ts hs in (rw (ih.0, h) refl, rw (ih.1, h) refl)

start_named_lem :
    (name : Line) (log : List Line) (ts : List TestBase)
    → Distinct ts
    → is_named name ts ≡ true
    → start_named name log ts ≡ some (map (start_if name log) ts)
unfolding start_named
start_named_lem name log [] d k = absurd (cc)
start_named_lem name log (t ∷ ts) (d, ds) k = elim (Bool-cases (line_eq t.name name)) [
  | inl e ↦
      let same = (line_eq_iff t.name name).0 e in
      let rest = start_named-absent name log ts (rw same at d) in rw (rest.0, e, rest.1) refl
  | inr e ↦ rw (start_named_lem name log ts ds (rw e at k), e) refl
]

start_if-name : (name : Line) (log : List Line) (t : TestBase) → (start_if name log t).name ≡ t.name
unfolding start
start_if-name name log t = ground arith

start_if-All :
    (name other : Line) (log : List Line) (ts : List TestBase)
    → All (λ u. line_eq u.name other ≡ false) ts
    → All (λ u. line_eq u.name other ≡ false) (map (start_if name log) ts)
start_if-All name other log [] h = tt
start_if-All name other log (t ∷ ts) (h, hs) =
    (ap (λ n. line_eq n other) (start_if-name name log t) ∙ h, start_if-All name other log ts hs)

start_if-Distinct :
    (name : Line) (log : List Line) (ts : List TestBase)
    → Distinct ts
    → Distinct (map (start_if name log) ts)
start_if-Distinct name log [] d = tt
start_if-Distinct name log (t ∷ ts) (d, ds) = (
  rw (start_if-name name log t) (start_if-All name t.name log ts d),
  start_if-Distinct name log ts ds,
)

start_if-is_named :
    (name other : Line) (log : List Line) (ts : List TestBase)
    → is_named other (map (start_if name log) ts) ≡ is_named other ts
start_if-is_named name other log [] = refl
start_if-is_named name other log (t ∷ ts) =
    rw (start_if-name name log t, start_if-is_named name other log ts) refl

start_if-Known :
    (name : Line) (log : List Line) (ts : List TestBase) (ps : List Part)
    → All (Known ts) ps
    → All (Known (map (start_if name log) ts)) ps
start_if-Known name log ts [] k = tt
start_if-Known name log ts (noise line ∷ ps) (k, ks) = (tt, start_if-Known name log ts ps ks)
start_if-Known name log ts (block first body last ∷ ps) (k, ks) =
    (start_if-is_named name (name_of first) log ts ∙ k, start_if-Known name log ts ps ks)

-- A later block of the test takes the place of this one.
graded-block :
    (first last : Line) (body : List Line) (ps : List Part) (t : TestBase)
    → graded ps (start_if (name_of first) (non_blank body) t)
      ≡ graded (block first body last ∷ ps) t
unfolding start
graded-block first last body ps t = go (line_eq t.name (name_of first)) (last_log t.name ps) refl
  where
    chosen : Bool → Option (List Line) → Option (List Line)
    chosen b o = elim o [ some log ↦ some log | none ↦ if b then some (non_blank body) else none ]

    applied : Option (List Line) → TestBase → TestBase
    applied o u = elim o [ some log ↦ start log u | none ↦ u ]

    go :
        (b : Bool) (o : Option (List Line))
        → last_log t.name ps ≡ o
        → graded ps (if b then start (non_blank body) t else t) ≡ applied (chosen b o) t
    go true none e = rw (e, graded) refl
    go true (some log) e = rw (e, graded) refl
    go false none e = rw (e, graded) refl
    go false (some log) e = rw (e, graded) refl

map-graded :
    (first last : Line) (body : List Line) (ps : List Part) (ts : List TestBase)
    → map (graded ps) (map (start_if (name_of first) (non_blank body)) ts)
      ≡ map (graded (block first body last ∷ ps)) ts
map-graded first last body ps [] = refl
map-graded first last body ps (t ∷ ts) =
    rw (graded-block first last body ps t, map-graded first last body ps ts) refl

map-same : (ts : List TestBase) → map (graded []) ts ≡ ts
map-same [] = refl
map-same (t ∷ ts) = ap (◌∷◌ t) (map-same ts)

start_all_lem :
    (ps : List Part) (ts : List TestBase)
    → Distinct ts
    → All (Known ts) ps
    → start_all ps ts ≡ some (map (graded ps) ts)
unfolding Option.bind
start_all_lem [] ts d k = ap some (sym (map-same ts))
start_all_lem (noise line ∷ ps) ts d (k, ks) = start_all_lem ps ts d ks
start_all_lem (block first body last ∷ ps) ts d (k, ks) =
    rw (start_named_lem (name_of first) (non_blank body) ts d k) (
      start_all_lem ps (map (start_if (name_of first) (non_blank body)) ts)
        (start_if-Distinct (name_of first) (non_blank body) ts d)
        (start_if-Known (name_of first) (non_blank body) ts ps ks)
      ∙ ap some (map-graded first last body ps ts))

map-map :
    (ps : List Part) (ts : List TestBase)
    → map get_result (map (graded ps) ts) ≡ map (λ t. get_result (graded ps t)) ts
map-map ps [] = refl
map-map ps (t ∷ ts) = ap (◌∷◌ (get_result (graded ps t))) (map-map ps ts)

-- Refines the view of the log as a finite map from names to lines: for tests with different names,
-- and a log of complete blocks of these tests, whose lines have no line break in them, the script
-- prints for each test, in the order of the tests, the report of the last block of its name, or of
-- the test as it was where the log has no such block.
pub grade-last_log :
    (ts : List TestBase) (ps : List Part)
    → Distinct ts
    → All (Known ts) ps
    → All IsPart ps
    → All OneLine (lines_of ps)
    → grade ts (text_of (lines_of ps)) ≡ some (map (λ t. get_result (graded ps t)) ts)
grade-last_log ts ps d k h one =
    grade-text_of ts ps h one
    ∙ ap (Option.map (map get_result)) (start_all_lem ps ts d k)
    ∙ ap some (map-map ps ts)

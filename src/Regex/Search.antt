-- ===== src/Regex/Search.antt =====
-- What `re.search` finds, told apart from how it backtracks.
use user_basic.Base.{
  ℕ, Bool, true, false, ◌&&◌, ◌||◌, Option, none, some, [], ◌∷◌, ◌++◌, Line, ◌≡◌, ◌↔◌, inl, inr,
  refl, arith, Bool-cases,
}
use user_basic.Regex.{
  Class, Capture, one, many, Regex, fits, Match, is_some, keep_match, or_else, greedy, step_one,
  match_at, search_in,
}

-- The text starts with a match of the pattern.
pub data Starts : Regex → Line → Type 0 where
  done : {s : Line} → Starts [] s
  single :
      {c : Class} {ps : Regex} {x : ℕ} {s : Line}
      → fits c x ≡ true
      → Starts ps s
      → Starts (one c ∷ ps) (x ∷ s)
  last :
      {k : Capture} {c : Class} {ps : Regex} {x : ℕ} {s : Line}
      → fits c x ≡ true
      → Starts ps s
      → Starts (many k c ∷ ps) (x ∷ s)
  again :
      {k : Capture} {c : Class} {ps : Regex} {x : ℕ} {s : Line}
      → fits c x ≡ true
      → Starts (many k c ∷ ps) s
      → Starts (many k c ∷ ps) (x ∷ s)

-- Somewhere in the text a match starts.
pub data Holds (p : Regex) : Line → Type 0 where
  here : {s : Line} → Starts p s → Holds p s
  there : {x : ℕ} {s : Line} → Holds p s → Holds p (x ∷ s)

or_else-is_some : (a b : Option Match) → is_some (or_else a b) ≡ is_some a || is_some b
or_else-is_some none b = refl
or_else-is_some (some m) b = refl

keep_match-is_some :
    (k : Capture) (run : Line) (o : Option Match) → is_some (keep_match k run o) ≡ is_some o
unfolding keep_match
keep_match-is_some k run none = refl
keep_match-is_some k run (some (gs, rest)) = refl

module _ (k : Line → Option Match) (cap : Capture) (c : Class) where
  greedy-is_some :
      (run : Line) (x : ℕ) (s : Line)
      → is_some (greedy k cap c run (x ∷ s))
        ≡ fits c x && (is_some (greedy k cap c (run ++ x ∷ []) s) || is_some (k s))
  unfolding greedy
  greedy-is_some run x s = ground (
    arith,
    or_else-is_some (greedy k cap c (run ++ x ∷ []) s) (keep_match cap (run ++ x ∷ []) (k s)),
    keep_match-is_some cap (run ++ x ∷ []) (k s),
  )

greedy_sound :
    (cap : Capture) (c : Class) (ps : Regex) (run s : Line)
    → ((t : Line) → is_some (match_at ps t) ≡ true → Starts ps t)
    → is_some (greedy (match_at ps) cap c run s) ≡ true
    → Starts (many cap c ∷ ps) s
greedy_sound cap c ps run [] ih h = absurd (unfold greedy in ground arith)
greedy_sound cap c ps run (x ∷ s) ih h =
    go (fits c x) refl (is_some (greedy (match_at ps) cap c (run ++ x ∷ []) s)) refl
      (greedy_sound cap c ps (run ++ x ∷ []) s ih)
      (rw (greedy-is_some (match_at ps) cap c run x s) at h)
  where
    go :
        (b : Bool)
        → fits c x ≡ b
        → (more : Bool) → is_some (greedy (match_at ps) cap c (run ++ x ∷ []) s) ≡ more
        → (is_some (greedy (match_at ps) cap c (run ++ x ∷ []) s) ≡ true
            → Starts (many cap c ∷ ps) s)
        → b && (more || is_some (match_at ps s)) ≡ true
        → Starts (many cap c ∷ ps) (x ∷ s)
    go false f more e rest k = absurd (ground arith)
    go true f true e rest k = again f (rest e)
    go true f false e rest k = last f (ih s k)

match_at_sound : (p : Regex) (s : Line) → is_some (match_at p s) ≡ true → Starts p s
match_at_sound [] s h = done
match_at_sound (one c ∷ ps) [] h = absurd (unfold match_at step_one in ground arith)
match_at_sound (one c ∷ ps) (x ∷ s) h = elim (Bool-cases (fits c x)) [
  | inl f ↦ single f (match_at_sound ps s (unfold match_at step_one in ground arith))
  | inr f ↦ absurd (unfold match_at step_one in ground arith)
]
match_at_sound (many cap c ∷ ps) s h =
    greedy_sound cap c ps [] s (λ t. match_at_sound ps t) (unfold match_at in h)

greedy_complete :
    (cap : Capture) (c : Class) (ps : Regex) (run : Line) {s : Line}
    → ((t : Line) → Starts ps t → is_some (match_at ps t) ≡ true)
    → Starts (many cap c ∷ ps) s
    → is_some (greedy (match_at ps) cap c run s) ≡ true
greedy_complete cap c ps run ih (last {x = x} {s = s} f h) =
    rw (greedy-is_some (match_at ps) cap c run x s) (ground (arith, ih s h))
greedy_complete cap c ps run ih (again {x = x} {s = s} f h) =
    rw (greedy-is_some (match_at ps) cap c run x s)
      (ground (arith, greedy_complete cap c ps (run ++ x ∷ []) ih h))

match_at_complete : (p : Regex) {s : Line} → Starts p s → is_some (match_at p s) ≡ true
unfolding match_at step_one
match_at_complete [] h = refl
match_at_complete (one c ∷ ps) (single {x = x} {s = s} f h) = rw f (match_at_complete ps h)
match_at_complete (many k c ∷ ps) h = greedy_complete k c ps [] (λ t u. match_at_complete ps u) h

search_in_sound : (p : Regex) (s : Line) → search_in p s ≡ true → Holds p s
search_in_sound p [] h = here (match_at_sound p [] (unfold search_in in h))
search_in_sound p (x ∷ s) h = elim (Bool-cases (is_some (match_at p (x ∷ s)))) [
  | inl e ↦ here (match_at_sound p (x ∷ s) e)
  | inr e ↦ there (search_in_sound p s (unfold search_in in ground arith))
]

search_in_complete : (p : Regex) {s : Line} → Holds p s → search_in p s ≡ true
unfolding search_in
search_in_complete p (here {s = []} h) = match_at_complete p h
search_in_complete p (here {s = x ∷ s} h) = rw (match_at_complete p h) refl
search_in_complete p (there {x = x} {s = s} h) = ground (arith, search_in_complete p h)

-- The search with backtracking finds a match exactly if there is one.
pub search_in_iff : (p : Regex) (s : Line) → (search_in p s ≡ true) ↔ Holds p s
search_in_iff p s = (search_in_sound p s, search_in_complete p)

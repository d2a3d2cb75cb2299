-- ===== src/TestBase/InStr.antt =====
-- When `assert_in_str` passes.
use user_basic.Base.{true, List, [], ◌∷◌, Line, ◌≡◌, ◌↔◌, ◌⊎◌, arith}
use user_basic.Regex.{Regex}
use user_basic.Regex.Search.{Holds, search_in_iff}
use user_basic.TestBase.{Entry, ok, found_in, assert_util, assert_in_str}

-- Some line of the list holds a match of the pattern.
abbrev pub SomeLine : Regex → List Line → Type 0
SomeLine p [] = ⊥
SomeLine p (line ∷ rest) = Holds p line ⊎ SomeLine p rest

found_in_iff : (p : Regex) (ls : List Line) → (found_in p ls ≡ true) ↔ SomeLine p ls
unfolding found_in
found_in_iff p [] = ground arith
found_in_iff p (line ∷ rest) = ground (arith, search_in_iff p line, found_in_iff p rest)

-- `assert_in_str` goes on, whatever was recorded before, exactly if some line of the list holds a
-- match of the pattern.
pub assert_in_str_iff :
    (p : Regex) (ls : List Line) (s : List Entry)
    → ((assert_in_str p ls s).1 ≡ ok tt) ↔ SomeLine p ls
unfolding assert_in_str assert_util
assert_in_str_iff p ls s = ground (arith, found_in_iff p ls)

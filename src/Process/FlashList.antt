-- ===== src/Process/FlashList.antt =====
-- ktool.py: the text of `flash-list.json` in a kfpkg archive, before json reads it.
pub mod Quoted
use user_basic.Base.{
  ℕ, zero, suc, Bool, Option, none, some, List, [], ◌∷◌, ◌++◌, Line, codes, length, ◌≡◌, refl,
}
use user_basic.Base.Int.{ℤ, pos, negsuc}
use user_basic.Base.Number.{auto_int}
use user_basic.Regex.{Regex, Match, lit, group_any, match_at}

-- `re.sub`, given where the pattern matches and what a match's groups turn into. A match is not
-- empty, so each round takes at least one character, and the text's length is enough fuel.
sub_from : ℕ → (Line → Option Match) → (List Line → Line) → Line → Line
sub_from zero m f s = s
sub_from (suc n) m f [] = []
sub_from (suc n) m f (x ∷ s) = elim (m (x ∷ s)) [
  | some (gs, rest) ↦ f gs ++ sub_from n m f rest
  | none ↦ x ∷ sub_from n m f s
]

unfoldable pub sub : (Line → Option Match) → (List Line → Line) → Line → Line
unfolding sub_from
sub m f s = sub_from (length s) m f s

abbrev pub address_mark : Line
address_mark = codes "\"address\": "

-- `"address": (.+),`
abbrev pub some_address : Regex
some_address = lit "\"address\": " ++ (group_any ++ lit ",")

-- An empty group, where `(.+)` has no match.
empty_group : Option Match → Option Match
empty_group none = none
empty_group (some (gs, rest)) = some ([] ∷ gs, rest)

or_empty : Option Match → Option Match → Option Match
unfolding empty_group
or_empty (some m) other = some m
or_empty none other = empty_group other

-- `"address": (.*),`
unfoldable pub match_address : Line → Option Match
unfolding match_at or_empty
match_address s = or_empty (match_at some_address s) (match_at (lit "\"address\": ,") s)

-- `"address": "\1",`
unfoldable pub quoted : List Line → Line
quoted [] = []
quoted (address ∷ gs) = address_mark ++ (b'"' ∷ (address ++ codes "\","))

-- `re.sub(r'"address": (.*),', r'"address": "\1",', text)`
unfoldable pub quote_addresses : Line → Line
unfolding sub match_address quoted
quote_addresses = sub match_address quoted

-- The address of an entry: a text, or a number where the pattern did not reach it.
pub data Address : Type 0 where
  text : Line → Address
  number : ℕ → Address

-- An entry: the file, its address, whether it gets the prefix, and `swap`; `none` is a key that is
-- missing.
pub record FlashEntry : Type 0 where
  pub bin : Line
  pub address : Address
  pub sha256_prefix : Option Bool
  pub swap : Option Bool

quote_two :
    quote_addresses
      (codes "{\"address\": 0x0,\n\"address\": 4096, \"bin\": \"a\",\n\"address\": 7}")
    ≡ codes "{\"address\": \"0x0\",\n\"address\": \"4096, \"bin\": \"a\"\",\n\"address\": 7}"
unfolding quote_addresses
quote_two = refl

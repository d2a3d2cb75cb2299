-- ===== src/Process/FlashList/Quoted.antt =====
-- What the substitution in `flash-list.json` does to a list with each address on a line of its own.
use mathlib.Core.List.{append_assoc}
use native.Mathlib.Nat.{zero-add, suc-add}
use user_basic.Base.{
  ℕ, zero, suc, ◌+◌, ◌≤◌, Bool, true, false, not, Option, none, some, List, [], ◌∷◌, ◌++◌, map,
  Line, codes, length, length-append, all_list, All, strip_prefix, contains, ◌==◌, ◌≡◌, refl, ◌∙◌,
  ap, sym, arith,
}
use user_basic.Regex.{
  chr, any, one, whole, Regex, Match, lit, match_at, greedy, group_any, step_one, fits, keep_match,
  keep,
}
use user_basic.Process.FlashList.{
  sub_from, address_mark, or_empty, empty_group, match_address, quoted, quote_addresses,
}

-- What stands before the mark of an address, and the address.
abbrev pub Field : Type 0
Field = Line × Line

-- The text of the list: behind each address stand a comma and the end of the line.
unfoldable pub plain : List Field → Line → Line
plain [] tail = tail
plain ((before, value) ∷ fs) tail =
    before ++ (address_mark ++ (value ++ (b',' ∷ b'\n' ∷ plain fs tail)))

-- The same with each address in quotes.
unfoldable pub with_quotes : List Field → Line → Line
with_quotes [] tail = tail
with_quotes ((before, value) ∷ fs) tail =
    before ++ (address_mark ++ (b'"' ∷ (value ++ (b'"' ∷ b',' ∷ b'\n' ∷ with_quotes fs tail))))

-- The mark behind such a text is its first one.
abbrev pub IsFree : Line → Type 0
IsFree [] = Unit
IsFree (x ∷ before) =
    (strip_prefix address_mark (x ∷ (before ++ address_mark)) ≡ none) × IsFree before

abbrev pub one_line : Line → Bool
one_line = all_list (λ c. not (c == b'\n'))

abbrev pub IsField : Field → Type 0
IsField (before, value) = IsFree before × (one_line value ≡ true)

strip_prefix-append :
    (p a r : Line) → strip_prefix p a ≡ none → length p ≤ length a → strip_prefix p (a ++ r) ≡ none
unfolding strip_prefix
strip_prefix-append [] a r h le = absurd (cc)
strip_prefix-append (x ∷ p) [] r h le = absurd (omega arith)
strip_prefix-append (x ∷ p) (y ∷ a) r h le = ground (arith, strip_prefix-append p a r)

behind : Option Line → (Line → Option Match) → Option Match
behind none k = none
behind (some s) k = k s

match_at-lit :
    (w : Line) (ps : Regex) (s : Line)
    → match_at (map (λ c. one (chr c)) w ++ ps) s ≡ behind (strip_prefix w s) (match_at ps)
unfolding match_at step_one fits strip_prefix behind
match_at-lit [] ps s = refl
match_at-lit (x ∷ w) ps [] = refl
match_at-lit (x ∷ w) ps (y ∷ s) = ground (arith, match_at-lit w ps s)

match_address-none : (s : Line) → strip_prefix address_mark s ≡ none → match_address s ≡ none
unfolding match_address or_empty empty_group behind
match_address-none s h =
    ap (λ m. or_empty m (match_at (lit "\"address\": ,") s))
      (match_at-lit address_mark (group_any ++ lit ",") s
        ∙ ap (λ o. behind o (match_at (group_any ++ lit ","))) h)
    ∙ ap (or_empty none)
        (match_at-lit address_mark (lit ",") s ∙ ap (λ o. behind o (match_at (lit ","))) h)

-- The longest run that leaves a comma is the one before the last comma of the line.
greedy_line :
    (run : Line) (x : ℕ) (v r : Line)
    → one_line (x ∷ v) ≡ true
    → greedy (match_at (lit ",")) whole any run (x ∷ (v ++ (b',' ∷ b'\n' ∷ r)))
      ≡ some ((run ++ x ∷ v) ∷ [], b'\n' ∷ r)
unfolding greedy match_at step_one fits keep_match keep
greedy_line run x [] r h = ground arith
greedy_line run x (y ∷ v) r h =
    ground (arith, greedy_line (run ++ x ∷ []) y v r, append_assoc run (x ∷ []) (y ∷ v))

match_address_lem :
    (v r : Line)
    → one_line v ≡ true
    → match_address (address_mark ++ (v ++ (b',' ∷ b'\n' ∷ r))) ≡ some (v ∷ [], b'\n' ∷ r)
unfolding match_address match_at step_one fits or_empty empty_group greedy keep_match
match_address_lem [] r h = refl
match_address_lem (x ∷ v) r h =
    ap
      (λ m.
        or_empty m
          (match_at (lit "\"address\": ,") (address_mark ++ (x ∷ (v ++ (b',' ∷ b'\n' ∷ r))))))
      (greedy_line [] x v r h)

module _ (m : Line → Option Match) (f : List Line → Line) where
  -- Fuel that is not used.
  sub_from-none :
      (n x : ℕ) (s : Line) → m (x ∷ s) ≡ none → sub_from (suc n) m f (x ∷ s) ≡ x ∷ sub_from n m f s
  unfolding sub_from
  sub_from-none n x s h = ground (arith, h)

  sub_from-some :
      (n x : ℕ) (s : Line) (gs : List Line) (rest : Line)
      → m (x ∷ s) ≡ some (gs, rest)
      → sub_from (suc n) m f (x ∷ s) ≡ f gs ++ sub_from n m f rest
  unfolding sub_from
  sub_from-some n x s gs rest h = ground (arith, h)

abbrev replace_all : ℕ → Line → Line
replace_all n s = sub_from n match_address quoted s

contains-none :
    (w : Line) (x : ℕ) (s : Line)
    → contains w (x ∷ s) ≡ false
    → (strip_prefix w (x ∷ s) ≡ none) × (contains w s ≡ false)
unfolding contains
contains-none w x s h = ground arith

first_mark :
    (x : ℕ) (before rest : Line)
    → strip_prefix address_mark (x ∷ (before ++ address_mark)) ≡ none
    → strip_prefix address_mark (x ∷ (before ++ (address_mark ++ rest))) ≡ none
first_mark x before rest h = rw (append_assoc before address_mark rest) at (
    strip_prefix-append address_mark (x ∷ (before ++ address_mark)) rest h
      (ground (arith, length-append before address_mark)))

-- A text with no mark stays as it is.
replace_all_none : (n : ℕ) (s : Line) → contains address_mark s ≡ false → replace_all n s ≡ s
replace_all_none zero s h = unfold sub_from in refl
replace_all_none (suc n) [] h = unfold sub_from in refl
replace_all_none (suc n) (x ∷ s) h =
    sub_from-none match_address quoted n x s
      (match_address-none (x ∷ s) (contains-none address_mark x s h).0)
    ∙ ap (λ t. x ∷ t) (replace_all_none n s (contains-none address_mark x s h).1)

replace_all-before :
    (n : ℕ) (before rest : Line)
    → IsFree before
    → replace_all (length before + n) (before ++ (address_mark ++ rest))
      ≡ before ++ replace_all n (address_mark ++ rest)
replace_all-before n [] rest h = ap (λ k. replace_all k (address_mark ++ rest)) (zero-add n)
replace_all-before n (x ∷ before) rest h =
    ap (λ k. replace_all k (x ∷ (before ++ (address_mark ++ rest)))) (suc-add (length before) n)
    ∙ sub_from-none match_address quoted (length before + n) x (before ++ (address_mark ++ rest))
        (match_address-none (x ∷ (before ++ (address_mark ++ rest))) (first_mark x before rest h.0))
    ∙ ap (λ t. x ∷ t) (replace_all-before n before rest h.1)

newline_none : (s : Line) → match_address (b'\n' ∷ s) ≡ none
newline_none s = match_address-none (b'\n' ∷ s) (unfold strip_prefix in refl)

-- One address, and the rest of the text.
replace_all-value :
    (n : ℕ) (v rest : Line)
    → one_line v ≡ true
    → replace_all (suc (suc n)) (address_mark ++ (v ++ (b',' ∷ b'\n' ∷ rest)))
      ≡ address_mark ++ (b'"' ∷ (v ++ (b'"' ∷ b',' ∷ b'\n' ∷ replace_all n rest)))
replace_all-value n v rest h =
    sub_from-some match_address quoted (suc n) b'"'
      (codes "address\": " ++ (v ++ (b',' ∷ b'\n' ∷ rest))) (v ∷ []) (b'\n' ∷ rest)
      (match_address_lem v rest h)
    ∙ ap (λ t. quoted (v ∷ []) ++ t)
        (sub_from-none match_address quoted n b'\n' rest (newline_none rest))
    ∙ (unfold quoted in rw (append_assoc v (b'"' ∷ b',' ∷ []) (b'\n' ∷ replace_all n rest)) refl)

replace_all-plain :
    (extra : ℕ) (fs : List Field) (tail : Line)
    → All IsField fs
    → contains address_mark tail ≡ false
    → replace_all (extra + length (plain fs tail)) (plain fs tail) ≡ with_quotes fs tail
unfolding plain with_quotes
replace_all-plain extra [] tail h t = replace_all_none _ tail t
replace_all-plain extra ((before, value) ∷ fs) tail ((free, line), h) t =
    ap (λ k. replace_all k (plain ((before, value) ∷ fs) tail)) enough
    ∙ replace_all-before (suc (suc (extra + 11 + length value + length (plain fs tail)))) before
        (value ++ (b',' ∷ b'\n' ∷ plain fs tail)) free
    ∙ ap (λ s. before ++ s)
        (replace_all-value (extra + 11 + length value + length (plain fs tail)) value
            (plain fs tail) line
          ∙ ap (λ s. address_mark ++ (b'"' ∷ (value ++ (b'"' ∷ b',' ∷ b'\n' ∷ s))))
              (replace_all-plain (extra + 11 + length value) fs tail h t))
  where
    enough :
        extra + length (plain ((before, value) ∷ fs) tail)
        ≡ length before + suc (suc (extra + 11 + length value + length (plain fs tail)))
    enough = ground (
      arith,
      length-append before (address_mark ++ (value ++ (b',' ∷ b'\n' ∷ plain fs tail))),
      length-append value (b',' ∷ b'\n' ∷ plain fs tail),
    )

-- Where every address stands with its comma at the end of a line, and no mark stands elsewhere, the
-- substitution puts exactly the addresses in quotes.
pub quote_addresses-plain :
    (fs : List Field) (tail : Line)
    → All IsField fs
    → contains address_mark tail ≡ false
    → quote_addresses (plain fs tail) ≡ with_quotes fs tail
unfolding quote_addresses
quote_addresses-plain fs tail h t =
    ap (λ k. replace_all k (plain fs tail)) (sym (zero-add (length (plain fs tail))))
    ∙ replace_all-plain 0 fs tail h t

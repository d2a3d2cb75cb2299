-- ===== src/Ktool/Transfer/Chunks.antt =====
-- ktool.py: the chunks of a firmware, and the bytes of a word.
use mathlib.Core.List.{flatten}
use user_basic.Base.{
  ℕ, zero, suc, ◌-◌, ◌≤◌, ◌<◌, Option, none, some, [], ◌∷◌, ◌++◌, ◌≡◌, refl, ◌∙◌, ap, arith, length,
  take, drop, replicate, All, take-append-drop, length-take, length-drop, length-append,
  length-replicate,
}
use user_basic.Ktool.Slip.{Bytes}
use user_basic.Ktool.Transfer.{chunks, chunks_from, ljust, swap_words}

flatten-chunks_from : (f n : ℕ) (l : Bytes) → 0 < n → length l ≤ f → flatten (chunks_from f n l) ≡ l
unfolding chunks_from flatten
flatten-chunks_from zero n [] p h = refl
flatten-chunks_from zero n (b ∷ l) p h = absurd (omega arith)
flatten-chunks_from (suc f) n [] p h = refl
flatten-chunks_from (suc f) n (b ∷ l) p h =
    ap (λ (t : Bytes). take n (b ∷ l) ++ t)
      (flatten-chunks_from f n (drop n (b ∷ l)) p (omega (arith, length-drop n (b ∷ l))))
    ∙ take-append-drop n (b ∷ l)

All-chunks_from :
    (f n : ℕ) (l : Bytes) → All (λ (c : Bytes). length (ljust n c) ≡ n) (chunks_from f n l)
unfolding chunks_from
All-chunks_from zero n l = tt
All-chunks_from (suc f) n [] = tt
All-chunks_from (suc f) n (b ∷ l) = (padded, All-chunks_from f n (drop n (b ∷ l)))
  where
    padded : length (ljust n (take n (b ∷ l))) ≡ n
    padded = omega (
      arith,
      length-append {0} (take n (b ∷ l)) (replicate (n - length (take n (b ∷ l))) 0),
      length-replicate {0} {A = ℕ} (n - length (take n (b ∷ l))) 0,
      length-take {0} n (b ∷ l),
    )

-- The chunks put together are the data, and every chunk is padded to exactly the chunk size.
pub chunks_lem :
    (l : Bytes) (n : ℕ)
    → 0 < n
    → (flatten (chunks l n) ≡ l) × All (λ (c : Bytes). length (ljust n c) ≡ n) (chunks l n)
unfolding chunks
chunks_lem l n h =
    (flatten-chunks_from (length l) n l h (omega arith), All-chunks_from (length l) n l)

-- A text of whole words, with the bytes of each word in reverse.
abbrev Swaps : Bytes → Option Bytes → Type 0
Swaps l none = Unit
Swaps l (some s) = (swap_words s ≡ some l) × (length s ≡ length l)

swap_words-Swaps : (l : Bytes) → Swaps l (swap_words l)
unfolding swap_words
swap_words-Swaps [] = (refl, refl)
swap_words-Swaps (a ∷ b ∷ c ∷ d ∷ rest) = go (swap_words rest) (swap_words-Swaps rest)
  where
    go :
        (o : Option Bytes)
        → Swaps rest o
        → Swaps
            (a ∷ b ∷ c ∷ d ∷ rest)
            (elim o [ some swapped ↦ some (d ∷ c ∷ b ∷ a ∷ swapped) | none ↦ none ])
    go none h = tt
    go (some s) (h, k) = (rw h refl, omega arith)
swap_words-Swaps _ = tt

-- Swapping the bytes of each word twice gives the data back, and swapping keeps the length.
pub swap_words_twice :
    (l : Bytes) {s : Bytes}
    → swap_words l ≡ some s
    → (swap_words s ≡ some l) × (length s ≡ length l)
swap_words_twice l h = rw h at (swap_words-Swaps l)

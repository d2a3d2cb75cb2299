-- ===== src/Ktool/Transfer/Padding.antt =====
-- The padded chunks of a firmware put together.
use mathlib.Core.List.{flatten, append-nil, append_assoc}
use user_basic.Base.{
  ℕ, zero, suc, ◌-◌, ◌≤◌, ◌<◌, [], ◌∷◌, ◌++◌, map, ◌≡◌, refl, ◌∙◌, ap, sym, arith, length, take,
  drop, replicate, take-append-drop, length-take, length-drop, ◌⊎◌, inl, inr,
}
use user_basic.Ktool.Slip.{Bytes}
use user_basic.Ktool.Transfer.{chunks, chunks_from, ljust}

-- Behind the data at most one chunk's worth of zeros.
pub record IsPadded (n : ℕ) (l padded : Bytes) : Type 0 where
  pub zeros : ℕ
  pub few : zeros < n
  pub bytes : padded ≡ l ++ replicate zeros 0

take-all : (n : ℕ) (l : Bytes) → length l ≤ n → take n l ≡ l
take-all zero [] h = refl
take-all zero (x ∷ l) h = absurd (omega arith)
take-all (suc n) [] h = refl
take-all (suc n) (x ∷ l) h = ap (◌∷◌ x) (take-all n l (omega arith))

drop-all : (n : ℕ) (l : Bytes) → length l ≤ n → drop n l ≡ []
drop-all zero [] h = refl
drop-all zero (x ∷ l) h = absurd (omega arith)
drop-all (suc n) [] h = refl
drop-all (suc n) (x ∷ l) h = drop-all n l (omega arith)

ljust-full : (n : ℕ) (c : Bytes) → n ≤ length c → ljust n c ≡ c
ljust-full n c h = ap (λ k. c ++ replicate k 0) none_left ∙ append-nil c
  where
    none_left : n - length c ≡ 0
    none_left = omega arith

chunks_from-nil : (f n : ℕ) → chunks_from f n [] ≡ []
unfolding chunks_from
chunks_from-nil zero n = refl
chunks_from-nil (suc f) n = refl

chunks_from-IsPadded :
    (f n : ℕ) (l : Bytes)
    → 0 < n
    → length l ≤ f
    → IsPadded n l (flatten (map (ljust n) (chunks_from f n l)))
unfolding chunks_from flatten
chunks_from-IsPadded zero n [] p h = record { zeros = 0; few = p; bytes = refl }
chunks_from-IsPadded zero n (b ∷ l) p h = absurd (omega arith)
chunks_from-IsPadded (suc f) n [] p h = record { zeros = 0; few = p; bytes = refl }
chunks_from-IsPadded (suc f) n (b ∷ l) p h =
    go fits_or_more
      (chunks_from-IsPadded f n (drop n (b ∷ l)) p (omega (arith, length-drop n (b ∷ l))))
  where
    fits_or_more : (length (b ∷ l) ≤ n) ⊎ (n < length (b ∷ l))
    fits_or_more = omega arith

    go :
        (length (b ∷ l) ≤ n) ⊎ (n < length (b ∷ l))
        → IsPadded n (drop n (b ∷ l)) (flatten (map (ljust n) (chunks_from f n (drop n (b ∷ l)))))
        → IsPadded n
            (b ∷ l)
            (ljust n (take n (b ∷ l)) ++ flatten (map (ljust n) (chunks_from f n (drop n (b ∷ l)))))
    go (inl last) r = record {
      zeros = n - length (b ∷ l);
      few = omega arith;
      bytes =
          rw (take-all n (b ∷ l) last, drop-all n (b ∷ l) last, chunks_from-nil f n)
            (append-nil (ljust n (b ∷ l)));
    }
    go (inr full) r = record {
      zeros = r.zeros;
      few = r.few;
      bytes =
          rw (ljust-full n (take n (b ∷ l)) (omega (arith, length-take n (b ∷ l))), r.bytes)
            (sym (append_assoc (take n (b ∷ l)) (drop n (b ∷ l)) (replicate r.zeros 0))
              ∙ ap (λ t. t ++ replicate r.zeros 0) (take-append-drop n (b ∷ l)));
    }

-- The padded chunks put together are the data, with fewer zeros behind them than a chunk has bytes.
pub chunks-IsPadded :
    (l : Bytes) (n : ℕ) → 0 < n → IsPadded n l (flatten (map (ljust n) (chunks l n)))
unfolding chunks
chunks-IsPadded l n p = chunks_from-IsPadded (length l) n l p (omega arith)

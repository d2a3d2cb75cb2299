-- ===== src/Ktool/Transfer/Fuel.antt =====
-- The tries of `install_flash_bootloader` in ktool.py: the fuel is enough.
use user_basic.Base.{
  ℕ, zero, suc, ◌+◌, ◌≤◌, ◌<◌, Bool, true, false, List, [], ◌∷◌, if◌then◌else◌, length, ◌≡◌, refl,
  ◌∙◌, ap, arith,
}
use user_basic.Ktool.Slip.{Bytes}
use user_basic.Ktool.Port.{Loader, Res, ok, err, Io, ◌>>=◌, then_do}
use user_basic.Ktool.Greeting.{sram_start}
use user_basic.Ktool.Transfer.{install_chunk, install_chunks, install_flash_bootloader, chunks}
use user_basic.Ktool.Transfer.Spending.{
  Reads, Shrinks, Leaves-Shrinks, check_kill_exit-Leaves, packed-Leaves, write-Leaves,
  recv_debug-Reads, install_chunk-Shrinks,
}

-- The two codes do the same where fewer events than this are left.
record Agree {A : Type 0} (n : ℕ) (m m' : Io A) : Type 0 where
  at : (l : Loader) → length l.events < n → m l ≡ m' l

Agree-same : {A : Type 0} (n : ℕ) (m : Io A) → Agree n m m
Agree-same n m = record { at = λ l h. refl }

bind_agree :
    {A B : Type 0} (r : Loader × Res A) (f g : A → Io B)
    → ((l : Loader) (a : A) → r ≡ (l, ok a) → f a l ≡ g a l)
    → then_do f r ≡ then_do g r
bind_agree (l, ok a) f g h = h l a refl
bind_agree (l, err e) f g h = refl

Agree-bind :
    {A B : Type 0} {n : ℕ} (m m' : Io A) (f g : A → Io B)
    → Agree n m m'
    → Shrinks m'
    → ((a : A) → Agree n (f a) (g a))
    → Agree n (m >>= f) (m' >>= g)
Agree-bind m m' f g h s k = record {
  at = λ l b.
      ap (then_do f) (h.at l b)
      ∙ bind_agree (m' l) f g
          (λ l' a p. let e = s.at l l' a p in (k a).at l' (omega (arith, b, e)));
}

-- Behind a read, one event more may be left.
Agree-Reads :
    {A B : Type 0} {n : ℕ} (m : Io A) (f g : A → Io B)
    → Reads m
    → ((a : A) → Agree n (f a) (g a))
    → Agree (suc n) (m >>= f) (m >>= g)
Agree-Reads m f g s k = record {
  at = λ l b.
      bind_agree (m l) f g (λ l' a p. let e = s.at l l' a p in (k a).at l' (omega (arith, b, e)));
}

Agree-if :
    {A : Type 0} {n : ℕ} (b : Bool) (k m m' : Io A)
    → Agree n m m'
    → Agree n (if b then k else m) (if b then k else m')
Agree-if true k m m' h = Agree-same _ k
Agree-if false k m m' h = h

install_chunk-fuel :
    (n f g address : ℕ) (chunk : Bytes)
    → n ≤ f
    → n ≤ g
    → Agree n (install_chunk f address chunk) (install_chunk g address chunk)
unfolding install_chunk
install_chunk-fuel zero f g address chunk hf hg = record { at = λ l h. absurd (omega arith) }
install_chunk-fuel (suc n) zero g address chunk hf hg = absurd (omega arith)
install_chunk-fuel (suc n) (suc f) zero address chunk hf hg = absurd (omega arith)
install_chunk-fuel (suc n) (suc f) (suc g) address chunk hf hg =
    Agree-bind _ _ _ _ (Agree-same _ _) (Leaves-Shrinks _ check_kill_exit-Leaves) (λ _.
      Agree-bind _ _ _ _ (Agree-same _ _) (Leaves-Shrinks _ (packed-Leaves _)) (λ out.
        Agree-bind _ _ _ _ (Agree-same _ _) (Leaves-Shrinks _ (write-Leaves out)) (λ _.
          Agree-Reads _ _ _ recv_debug-Reads (λ accepted. Agree-if accepted _ _ _ (
            install_chunk-fuel n f g (address + length chunk) chunk (omega arith) (omega arith))))))

install_chunks-fuel :
    (n f g address : ℕ) (cs : List Bytes)
    → n ≤ f
    → n ≤ g
    → Agree n (install_chunks f address cs) (install_chunks g address cs)
unfolding install_chunks
install_chunks-fuel n f g address [] hf hg = Agree-same n _
install_chunks-fuel n f g address (c ∷ cs) hf hg =
    Agree-bind _ _ _ _ (Agree-same _ _) (Leaves-Shrinks _ check_kill_exit-Leaves) (λ _.
      Agree-bind _ _ _ _ (install_chunk-fuel n f g address c hf hg)
        (install_chunk-Shrinks g address c) (λ a. install_chunks-fuel n f g a cs hf hg))

-- The resending of refused chunks stops within its fuel: however many tries more it is given, on
-- whatever events, the result is the same.
pub install_flash_bootloader-fuel :
    (k : ℕ) (image : Bytes) (l : Loader)
    → install_chunks (suc (length l.events) + k) sram_start (chunks image 1024) l
      ≡ install_flash_bootloader image l
unfolding install_flash_bootloader
install_flash_bootloader-fuel k image l =
    (install_chunks-fuel (suc (length l.events)) (suc (length l.events) + k) (suc (length l.events))
        sram_start (chunks image 1024) (omega arith) (omega arith)).at
      l (omega arith)

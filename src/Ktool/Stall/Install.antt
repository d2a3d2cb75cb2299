-- ===== src/Ktool/Stall/Install.antt =====
-- The tries of `install_flash_bootloader` stall only where no deadline is ahead.
use user_basic.Base.{
  ℕ, zero, suc, ◌+◌, ◌≤◌, ◌<◌, Bool, true, false, List, [], ◌∷◌, length, ◌≡◌, refl, arith,
  if◌then◌else◌,
}
use user_basic.Ktool.Slip.{Bytes}
use user_basic.Ktool.Port.{Loader, stalled, Res, ok, err, Io, then_do, ◌>>=◌}
use user_basic.Ktool.Greeting.{sram_start}
use user_basic.Ktool.Transfer.{install_chunk, install_chunks, install_flash_bootloader, chunks}
use user_basic.Ktool.Transfer.Spending.{
  Reads, Shrinks, Leaves-Shrinks, check_kill_exit-Leaves, packed-Leaves, write-Leaves,
  recv_debug-Reads, install_chunk-Shrinks,
}
use user_basic.Ktool.Stall.{
  DryStall, StallsDry, StallsDry-pure, check_kill_exit-StallsDry, packed-StallsDry, write-StallsDry,
  recv_debug-StallsDry,
}

-- The same where fewer events than this are left.
record StallsBelow {A : Type 0} (n : ℕ) (m : Io A) : Type 0 where
  at : (l : Loader) → length l.events < n → DryStall (m l)

below_bind :
    {A B : Type 0} (r : Loader × Res A) (f : A → Io B)
    → DryStall r
    → ((l : Loader) (a : A) → r ≡ (l, ok a) → DryStall (f a l))
    → DryStall (then_do f r)
below_bind (l, ok a) f h k = k l a refl
below_bind (l, err stalled) f h k = h
below_bind (l, err _) f h k = tt

StallsBelow-any : {A : Type 0} {n : ℕ} (m : Io A) → StallsDry m → StallsBelow n m
StallsBelow-any m h = record { at = λ l b. h.at l }

StallsBelow-bind :
    {A B : Type 0} {n : ℕ} (m : Io A) (f : A → Io B)
    → StallsBelow n m
    → Shrinks m
    → ((a : A) → StallsBelow n (f a))
    → StallsBelow n (m >>= f)
StallsBelow-bind m f h s k = record {
  at = λ l b.
      below_bind (m l) f (h.at l b)
        (λ l' a p. let e = s.at l l' a p in (k a).at l' (omega (arith, b, e)));
}

-- Behind a read, one event more may be left.
StallsBelow-Reads :
    {A B : Type 0} {n : ℕ} (m : Io A) (f : A → Io B)
    → StallsDry m
    → Reads m
    → ((a : A) → StallsBelow n (f a))
    → StallsBelow (suc n) (m >>= f)
StallsBelow-Reads m f h s k = record {
  at = λ l b.
      below_bind (m l) f (h.at l)
        (λ l' a p. let e = s.at l l' a p in (k a).at l' (omega (arith, b, e)));
}

StallsBelow-if :
    {A : Type 0} {n : ℕ} (b : Bool) (k m : Io A)
    → StallsDry k
    → StallsBelow n m
    → StallsBelow n (if b then k else m)
StallsBelow-if true k m hk hm = StallsBelow-any _ hk
StallsBelow-if false k m hk hm = hm

install_chunk-StallsBelow :
    (n f address : ℕ) (chunk : Bytes) → n ≤ f → StallsBelow n (install_chunk f address chunk)
unfolding install_chunk
install_chunk-StallsBelow zero f address chunk h = record { at = λ l b. absurd (omega arith) }
install_chunk-StallsBelow (suc n) zero address chunk h = absurd (omega arith)
install_chunk-StallsBelow (suc n) (suc f) address chunk h =
    StallsBelow-bind _ _ (StallsBelow-any _ check_kill_exit-StallsDry)
      (Leaves-Shrinks _ check_kill_exit-Leaves)
      (λ _.
        StallsBelow-bind _ _ (StallsBelow-any _ (packed-StallsDry _))
          (Leaves-Shrinks _ (packed-Leaves _))
          (λ out.
            StallsBelow-bind _ _ (StallsBelow-any _ (write-StallsDry out))
              (Leaves-Shrinks _ (write-Leaves out))
              (λ _. StallsBelow-Reads _ _ recv_debug-StallsDry recv_debug-Reads (λ accepted.
                StallsBelow-if accepted _ _ (StallsDry-pure _)
                  (install_chunk-StallsBelow n f (address + length chunk) chunk (omega arith))))))

install_chunks-StallsBelow :
    (n f address : ℕ) (cs : List Bytes) → n ≤ f → StallsBelow n (install_chunks f address cs)
unfolding install_chunks
install_chunks-StallsBelow n f address [] h = StallsBelow-any _ (StallsDry-pure tt)
install_chunks-StallsBelow n f address (c ∷ cs) h =
    StallsBelow-bind _ _ (StallsBelow-any _ check_kill_exit-StallsDry)
      (Leaves-Shrinks _ check_kill_exit-Leaves)
      (λ _.
        StallsBelow-bind _ _ (install_chunk-StallsBelow n f address c h)
          (install_chunk-Shrinks f address c) (λ a. install_chunks-StallsBelow n f a cs h))

pub install_flash_bootloader-StallsDry :
    (image : Bytes) → StallsDry (install_flash_bootloader image)
unfolding install_flash_bootloader
install_flash_bootloader-StallsDry image = record {
  at = λ l.
      (install_chunks-StallsBelow (suc (length l.events)) (suc (length l.events)) sram_start
          (chunks image 1024) (omega arith)).at
        l (omega arith);
}

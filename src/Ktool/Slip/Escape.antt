-- ===== src/Ktool/Slip/Escape.antt =====
-- The two replacements of `write` escape byte by byte.
use mathlib.Core.List.{append_assoc}
use user_basic.Base.{
  ℕ, true, not, [], ◌∷◌, ◌++◌, replace, ◌==◌, if◌then◌else◌, ◌≡◌, refl, ◌∙◌, ap, arith, all_list,
}
use mathlib.Core.Path.{ap₂}
use user_basic.Base.Text.{replace_from, strip_prefix}
use user_basic.Ktool.Slip.{Bytes, escape}

-- One byte in a frame.
abbrev pub escape_byte : ℕ → Bytes
escape_byte b =
    if b == 0xdb then 0xdb ∷ 0xdd ∷ [] else if b == 0xc0 then 0xdb ∷ 0xdc ∷ [] else b ∷ []

abbrev pub escape_all : Bytes → Bytes
escape_all [] = []
escape_all (b ∷ bs) = escape_byte b ++ escape_all bs

replace_byte-append :
    (c : ℕ) (new a b : Bytes)
    → replace (c ∷ []) new (a ++ b) ≡ replace (c ∷ []) new a ++ replace (c ∷ []) new b
unfolding replace replace_from strip_prefix
replace_byte-append c new [] b = refl
replace_byte-append c new (x ∷ a) b = ground (
  arith,
  replace_byte-append c new a b,
  append_assoc new (replace (c ∷ []) new a) (replace (c ∷ []) new b),
)

abbrev replace_both : Bytes → Bytes
replace_both a = replace (0xc0 ∷ []) (0xdb ∷ 0xdc ∷ []) (replace (0xdb ∷ []) (0xdb ∷ 0xdd ∷ []) a)

replace_both-byte : (b : ℕ) → replace_both (b ∷ []) ≡ escape_byte b
unfolding replace replace_from strip_prefix
replace_both-byte b = ground arith

-- The order of the two calls is right: no byte is escaped twice.
pub escape-escape_all : (packet : Bytes) → escape packet ≡ escape_all packet
unfolding escape
escape-escape_all [] = unfold replace replace_from in refl
escape-escape_all (b ∷ bs) =
    ap (replace (0xc0 ∷ []) (0xdb ∷ 0xdc ∷ []))
      (replace_byte-append 0xdb (0xdb ∷ 0xdd ∷ []) (b ∷ []) bs)
    ∙ replace_byte-append 0xc0 (0xdb ∷ 0xdc ∷ []) (replace (0xdb ∷ []) (0xdb ∷ 0xdd ∷ []) (b ∷ []))
        (replace (0xdb ∷ []) (0xdb ∷ 0xdd ∷ []) bs)
    ∙ ap₂ (◌++◌) (replace_both-byte b) (escape-escape_all bs)

-- No byte of an escaped packet is the one that ends a frame.
pub escape_all-no_end :
    (packet : Bytes) → all_list (λ b. not (b == 0xc0)) (escape_all packet) ≡ true
escape_all-no_end [] = refl
escape_all-no_end (b ∷ bs) = ground (arith, escape_all-no_end bs)

-- ===== src/Order/Bytes.antt =====
-- An integer's way to the wire and back, on a machine of either byte order.
use cocolog.Prelude.{
  ℕ, zero, suc, ◌/◌, ◌^◌, ◌<◌, ◌≡◌, refl, ap, ◌∙◌, Bool, true, false, List, [], ◌∷◌, arith, length,
  length-append,
}
use mathlib.Core.List.{reverse, reverse-append, reverse-reverse}
use native.Mathlib.Nat.{pow-suc}
use cocolog.Order.{in_memory, from_memory, le_bytes, be_bytes, from_le, reorder}
use cocolog.Order.Reversal.{reorder-lem}

pub from_le-le_bytes : (n v : ℕ) → v < 256 ^ n → from_le (le_bytes n v) ≡ v
unfolding from_le le_bytes
from_le-le_bytes zero v h = omega arith
from_le-le_bytes (suc n) v h =
    let ih = from_le-le_bytes n (v / 256) (omega (arith, pow-suc 256 n)) in omega (arith, ih)

length-le_bytes : (n v : ℕ) → length (le_bytes n v) ≡ n
unfolding le_bytes
length-le_bytes zero v = refl
length-le_bytes (suc n) v = ap suc (length-le_bytes n (v / 256))

length-reverse : (xs : List ℕ) → length (reverse xs) ≡ length xs
length-reverse [] = refl
length-reverse (x ∷ xs) =
    ap length (reverse-append (x ∷ []) xs)
    ∙ length-append (reverse xs) (x ∷ [])
    ∙ omega (arith, length-reverse xs)

pub length-be_bytes : (n v : ℕ) → length (be_bytes n v) ≡ n
unfolding be_bytes
length-be_bytes n v = length-reverse (le_bytes n v) ∙ length-le_bytes n v

-- What `wr_be` puts on the wire: the bytes of the value, highest first, on either machine.
pub reorder-in_memory : (big : Bool) (n v : ℕ) → reorder big (in_memory big n v) ≡ be_bytes n v
unfolding in_memory be_bytes
reorder-in_memory true n v = reorder-lem true _
reorder-in_memory false n v = reorder-lem false _

-- What `rd_be` makes of those bytes: the value, on either machine.
pub from_memory-reorder :
    (big : Bool) (n v : ℕ) → v < 256 ^ n → from_memory big (reorder big (be_bytes n v)) ≡ v
unfolding from_memory be_bytes
from_memory-reorder true n v h = rw (reorder-lem true, reverse-reverse) (from_le-le_bytes n v h)
from_memory-reorder false n v h = rw (reorder-lem false, reverse-reverse) (from_le-le_bytes n v h)

-- ===== src/Order.antt =====
-- Byte order, in client/zigurat.c: `host_is_big_endian` and `reorder`, over an integer's bytes as
-- they lie in memory.
pub mod Reversal
pub mod Bytes
use cocolog.Prelude.{
  ℕ, zero, suc, ◌+◌, ◌-◌, ◌*◌, ◌/◌, ◌%◌, Bool, true, false, List, [], ◌∷◌, length, ◌==◌,
  if◌then◌else◌,
}
use mathlib.Core.List.{reverse}

-- The `n` bytes of `v`, lowest first, and highest first: the order of the wire.
unfoldable pub le_bytes : ℕ → ℕ → List ℕ
le_bytes zero v = []
le_bytes (suc n) v = (v % 256) ∷ le_bytes n (v / 256)

unfoldable pub be_bytes : ℕ → ℕ → List ℕ
unfolding le_bytes
be_bytes n v = reverse (le_bytes n v)

unfoldable pub from_le : List ℕ → ℕ
from_le [] = 0
from_le (b ∷ bs) = b + 256 * from_le bs

-- An integer of `n` bytes in the memory of a machine of either order, and back.
unfoldable pub in_memory : Bool → ℕ → ℕ → List ℕ
unfolding le_bytes be_bytes
in_memory big n v = if big then be_bytes n v else le_bytes n v

unfoldable pub from_memory : Bool → List ℕ → ℕ
unfolding from_le
from_memory big bs = if big then from_le (reverse bs) else from_le bs

-- `b[i]`, and a store into it.
unfoldable pub get_or : List ℕ → ℕ → ℕ → ℕ
get_or [] i d = d
get_or (x ∷ xs) zero d = x
get_or (x ∷ xs) (suc i) d = get_or xs i d

unfoldable pub set : List ℕ → ℕ → ℕ → List ℕ
set [] i v = []
set (x ∷ xs) zero v = v ∷ xs
set (x ∷ xs) (suc i) v = x ∷ set xs i v

-- The first byte of `one`.
unfoldable pub host_is_big_endian : Bool → Bool
unfolding in_memory get_or
host_is_big_endian big = get_or (in_memory big 2 1) 0 0 == 0

-- `b[i] = b[n - 1 - i]; b[n - 1 - i] = t;`
unfoldable pub swap_ends : ℕ → ℕ → List ℕ → List ℕ
unfolding get_or set
swap_ends n i b =
    let t = get_or b i 0 in let u = get_or b (n - 1 - i) 0 in set (set b i u) (n - 1 - i) t

-- The loop with `k` rounds left.
unfoldable pub swap_loop : ℕ → ℕ → ℕ → List ℕ → List ℕ
unfolding swap_ends
swap_loop zero n i b = b
swap_loop (suc k) n i b = swap_loop k n (i + 1) (swap_ends n i b)

unfoldable pub reorder : Bool → List ℕ → List ℕ
unfolding host_is_big_endian swap_loop
reorder big b = if host_is_big_endian big then b else swap_loop (length b / 2) (length b) 0 b

-- ===== src/Tensor/Shapes.antt =====
-- The shape of a recorded node by rule, in modules/tensorflow/backend.c: `leaf_shape`, `bcast` and
-- `shape_rule`. Arrays are lists; the source's `sh` has room for `max_dim` sizes.
pub mod Aligned
use cocolog.Prelude.{
  ℕ, zero, suc, ◌+◌, ◌-◌, ◌/◌, ◌%◌, Bool, true, false, ◌&&◌, ◌||◌, not, Option, none, some, List,
  [], ◌∷◌, ◌++◌, length, take, drop, ltb, leb, ◌==◌, if◌then◌else◌, text,
}
use cocolog.Tensor.Slots.{ℤ, pos, negsuc, OpSpec, TfSlot, slot, tfb_exists}
use cocolog.Tensor.Recording.{Ruled, ruled, against, unruled, same_name}
use cocolog.Tensor.Integers.{◌+ℤ◌, ◌-ℤ◌, ◌*ℤ◌, ◌==ℤ◌, less_than, is_negative, quotient, divides}

abbrev pub size_of : List ℤ → ℕ → ℤ
size_of [] i = pos 0
size_of (x ∷ xs) zero = x
size_of (x ∷ xs) (suc i) = size_of xs i

abbrev pub put_size : List ℤ → ℕ → ℤ → List ℤ
put_size [] i v = []
put_size (x ∷ xs) zero v = v ∷ xs
put_size (x ∷ xs) (suc i) v = x ∷ put_size xs i v

-- `(i < n - na) ? 1 : a[i - (n - na)]`
unfoldable pub aligned_size : List ℤ → ℕ → ℕ → ℤ
aligned_size a n i = if ltb i (n - length a) then pos 1 else size_of a (i - (n - length a))

unfoldable pub join_sizes : ℤ → ℤ → Option ℤ
join_sizes da db =
    if not (da ==ℤ db) && (not (da ==ℤ pos 1) && not (db ==ℤ pos 1))
    then none
    else some (if less_than db da then da else db)

-- The loop from `i`, with `k` rounds left of `n`.
unfoldable pub bcast_from : List ℤ → List ℤ → ℕ → ℕ → ℕ → Option (List ℤ)
bcast_from a b n i zero = some []
bcast_from a b n i (suc k) =
    let rest = bcast_from a b n (i + 1) k in
    elim (join_sizes (aligned_size a n i) (aligned_size b n i)) [
      | none ↦ none
      | some d ↦ elim rest [ none ↦ none | some ds ↦ some (d ∷ ds) ]
    ]

unfoldable pub larger : ℕ → ℕ → ℕ
larger m n = if ltb n m then m else n

unfoldable pub bcast : List ℤ → List ℤ → Option (List ℤ)
bcast a b = let n = larger (length a) (length b) in bcast_from a b n 0 n

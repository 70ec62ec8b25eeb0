-- ===== src/Tensor/Scalars.antt =====
-- The shared scalars of `fscalar`, in modules/tensorflow/backend.c: the table of the last 256 distinct
-- values. A float is its 32 bits.
pub mod Recent
pub mod Ring
use cocolog.Tensor.Slots.{ScalarCache}
use cocolog.Prelude.{
  ℕ, zero, suc, ◌+◌, ◌-◌, ◌%◌, ◌^◌, Bool, true, false, ◌&&◌, ◌||◌, not, Option, none, some, List,
  [], ◌∷◌, ◌++◌, length, ltb, ◌==◌, if◌then◌else◌,
}

abbrev pub tf_scalars : ℕ
tf_scalars = 256

-- `==` of C on floats: no NaN is equal to anything, and the two zeros are equal.
unfoldable pub is_nan : ℕ → Bool
is_nan a = ltb 2139095040 (a % 2 ^ 31)

unfoldable pub same_float : ℕ → ℕ → Bool
same_float a b =
    (not (is_nan a) && not (is_nan b)) && ((a == b) || ((a % 2 ^ 31 == 0) && (b % 2 ^ 31 == 0)))

abbrev pub no_scalars : ScalarCache
no_scalars = record { scalars = []; scalar_next = 0 }

-- The loop that looks a value up.
unfoldable pub find_scalar : ℕ → List (ℕ × ℕ) → Option ℕ
find_scalar f [] = none
find_scalar f (x ∷ xs) = if same_float x.0 f then some x.1 else find_scalar f xs

abbrev pub put_scalar : List (ℕ × ℕ) → ℕ → ℕ × ℕ → List (ℕ × ℕ)
put_scalar [] i v = []
put_scalar (x ∷ xs) zero v = v ∷ xs
put_scalar (x ∷ xs) (suc i) v = x ∷ put_scalar xs i v

abbrev pub handle_at : List (ℕ × ℕ) → ℕ → Option ℕ
handle_at [] i = none
handle_at (x ∷ xs) zero = some x.1
handle_at (x ∷ xs) (suc i) = handle_at xs i

-- Storing a value that was not found, with the handle that goes back to TensorFlow.
unfoldable pub keep_scalar : ℕ → ℕ → ScalarCache → ScalarCache × Option ℕ
keep_scalar f keep c =
    let n = length c.scalars in
    let i = if ltb n tf_scalars then n else c.scalar_next in
    let next = if i == c.scalar_next then (c.scalar_next + 1) % tf_scalars else c.scalar_next in
    let table =
      if ltb n tf_scalars then c.scalars ++ (f, keep) ∷ [] else put_scalar c.scalars i (f, keep) in
    (record { scalars = table; scalar_next = next }, handle_at c.scalars i)

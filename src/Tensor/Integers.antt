-- ===== src/Tensor/Integers.antt =====
-- Signed arithmetic as modules/tensorflow/backend.c uses it on sizes. A sum or a product that leaves
-- its type is undefined there, and has no case here.
use cocolog.Prelude.{
  ℕ, ◌+◌, ◌-◌, ◌*◌, ◌/◌, ◌%◌, Bool, true, false, not, ltb, leb, ◌==◌, if◌then◌else◌,
}
use cocolog.Tensor.Slots.{ℤ, pos, negsuc}

-- `m - n`
unfoldable pub difference : ℕ → ℕ → ℤ
difference m n = if leb n m then pos (m - n) else negsuc (n - m - 1)

infixl 60 ◌+ℤ◌
unfoldable pub ◌+ℤ◌ : ℤ → ℤ → ℤ
pos m +ℤ pos n = pos (m + n)
pos m +ℤ negsuc n = difference m (n + 1)
negsuc m +ℤ pos n = difference n (m + 1)
negsuc m +ℤ negsuc n = negsuc (m + n + 1)

unfoldable pub negate : ℤ → ℤ
negate (pos n) = difference 0 n
negate (negsuc n) = pos (n + 1)

infixl 60 ◌-ℤ◌
unfoldable pub ◌-ℤ◌ : ℤ → ℤ → ℤ
a -ℤ b = a +ℤ negate b

unfoldable pub magnitude : ℤ → ℕ
magnitude (pos n) = n
magnitude (negsuc n) = n + 1

unfoldable pub is_negative : ℤ → Bool
is_negative (pos n) = false
is_negative (negsuc n) = true

unfoldable pub with_sign : Bool → ℕ → ℤ
with_sign false n = pos n
with_sign true n = difference 0 n

unfoldable pub differ : Bool → Bool → Bool
differ true b = not b
differ false b = b

infixl 70 ◌*ℤ◌
unfoldable pub ◌*ℤ◌ : ℤ → ℤ → ℤ
a *ℤ b = with_sign (differ (is_negative a) (is_negative b)) (magnitude a * magnitude b)

-- `/` of C cuts off; `divides b a` is `a % b == 0`. Both for `b` that is not 0.
unfoldable pub quotient : ℤ → ℤ → ℤ
quotient a b = with_sign (differ (is_negative a) (is_negative b)) (magnitude a / magnitude b)

unfoldable pub divides : ℤ → ℤ → Bool
divides b a = magnitude a % magnitude b == 0

infix 50 ◌==ℤ◌
unfoldable pub ◌==ℤ◌ : ℤ → ℤ → Bool
pos m ==ℤ pos n = m == n
negsuc m ==ℤ negsuc n = m == n
_ ==ℤ _ = false

-- `a < b`
unfoldable pub less_than : ℤ → ℤ → Bool
less_than (pos m) (pos n) = ltb m n
less_than (pos m) (negsuc n) = false
less_than (negsuc m) (pos n) = true
less_than (negsuc m) (negsuc n) = ltb n m

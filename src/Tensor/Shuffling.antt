-- ===== src/Tensor/Shuffling.antt =====
-- `tfb_randperm` and `tfb_arange` of modules/tensorflow/backend.c: the values of the tensor, which are
-- whole and stored as floats. A seed is 64 bits.
use cocolog.Prelude.{
  eq_self, leb, leb-true, ◌≤◌, Bool, true, false, ℕ, zero, suc, ◌+◌, ◌-◌, ◌*◌, ◌/◌, ◌%◌, ◌^◌, ◌<◌,
  ◌≡◌, refl, ap, ◌∙◌, List, [], ◌∷◌, ◌++◌, length, if◌then◌else◌, arith, ltb, length-append,
}
use mathlib.Core.Path.{ap₂}
use cocolog.Tensor.Freeing.Counting.{occurs, occurs-append}

abbrev pub word : ℕ
word = 2 ^ 64

-- The doubles that `tfb_arange` and `tfb_randperm` begin with, which are exact below 2^53.
unfoldable pub whole_numbers : ℕ → List ℕ
whole_numbers zero = []
whole_numbers (suc n) = whole_numbers n ++ n ∷ []

abbrev pub value_at : List ℕ → ℕ → ℕ
value_at [] i = 0
value_at (x ∷ xs) zero = x
value_at (x ∷ xs) (suc i) = value_at xs i

abbrev pub put_value : List ℕ → ℕ → ℕ → List ℕ
put_value [] i v = []
put_value (x ∷ xs) zero v = v ∷ xs
put_value (x ∷ xs) (suc i) v = x ∷ put_value xs i v

-- `t = v[i]; v[i] = v[j]; v[j] = t;`
unfoldable pub swap : List ℕ → ℕ → ℕ → List ℕ
swap v i j = put_value (put_value v i (value_at v j)) j (value_at v i)

unfoldable pub next_random : ℕ → ℕ
next_random x = (x * 6364136223846793005 + 1442695040888963407) % word

unfoldable pub first_random : ℕ → ℕ → ℕ
first_random seed_base draw = (seed_base * 6364136223846793005 + draw * 1442695040888963407) % word

-- The loop from `i` down to 1.
unfoldable pub shuffle : ℕ → ℕ → List ℕ → List ℕ
shuffle zero x v = v
shuffle (suc i) x v =
    let y = next_random x in shuffle i y (swap v (suc i) ((y / 2 ^ 33) % (suc i + 1)))

-- A float has 24 bits: up to here every whole number is one.
abbrev pub exact_below : ℕ
exact_below = 16777216

-- The multiple of `u` next to `n`; half way, the even one.
unfoldable pub half_even : ℕ → ℕ → ℕ
half_even u n =
    let q = n / u in
    if ltb (2 * (n % u)) u
    then q * u
    else if ltb u (2 * (n % u))
    then (q + 1) * u
    else (q + q % 2) * u

-- The distance of the floats around `n`; a double below 2^63 needs 40 rounds at most.
unfoldable pub unit_from : ℕ → ℕ → ℕ → ℕ
unit_from zero n u = u
unit_from (suc fuel) n u =
    let more = unit_from fuel n (2 * u) in if ltb (n / u) exact_below then u else more

-- `(float)` of a whole number: `p[i] = (float) data[i]` of `tensor_f32`.
unfoldable pub float_near : ℕ → ℕ
float_near n = if leb n exact_below then n else half_even (unit_from 40 n 1) n

unfoldable pub as_floats : List ℕ → List ℕ
as_floats [] = []
as_floats (x ∷ xs) = float_near x ∷ as_floats xs

-- What `tfb_arange` and `tfb_randperm` store.
unfoldable pub arange : ℕ → List ℕ
arange n = as_floats (whole_numbers n)

unfoldable pub shuffled : ℕ → ℕ → ℕ → List ℕ
shuffled seed_base draw n = shuffle (n - 1) (first_random seed_base draw) (whole_numbers n)

unfoldable pub randperm : ℕ → ℕ → ℕ → List ℕ
randperm seed_base draw n = as_floats (shuffled seed_base draw n)

length-put_value : (v : List ℕ) (i w : ℕ) → length (put_value v i w) ≡ length v
length-put_value [] i w = refl
length-put_value (x ∷ v) zero w = refl
length-put_value (x ∷ v) (suc i) w = ap suc (length-put_value v i w)

occurs-put_value :
    (k : ℕ) (v : List ℕ) (i w : ℕ)
    → i < length v
    → occurs k (put_value v i w) + occurs k (value_at v i ∷ []) ≡ occurs k v + occurs k (w ∷ [])
occurs-put_value k [] i w l = absurd (omega arith)
occurs-put_value k (x ∷ v) zero w l = omega arith
occurs-put_value k (x ∷ v) (suc i) w l = omega (arith, occurs-put_value k v i w (omega arith))

value_at-put_value :
    (v : List ℕ) (i j : ℕ) → i < length v → value_at (put_value v i (value_at v j)) j ≡ value_at v j
value_at-put_value [] i j l = refl
value_at-put_value (x ∷ v) zero zero l = refl
value_at-put_value (x ∷ v) zero (suc j) l = refl
value_at-put_value (x ∷ v) (suc i) zero l = refl
value_at-put_value (x ∷ v) (suc i) (suc j) l = value_at-put_value v i j (omega (arith, l))

occurs-swap :
    (k : ℕ) (v : List ℕ) (i j : ℕ)
    → i < length v
    → j < length v
    → occurs k (swap v i j) ≡ occurs k v
unfolding swap
occurs-swap k v i j l m =
    let u = put_value v i (value_at v j) in
    let a = occurs-put_value k v i (value_at v j) l in
    let b = occurs-put_value k u j (value_at v i) (rw (length-put_value v i (value_at v j)) m) in
    let c = ap (λ (w : ℕ). occurs k (w ∷ [])) (value_at-put_value v i j l) in omega (arith, a, b, c)

length-swap : (v : List ℕ) (i j : ℕ) → length (swap v i j) ≡ length v
unfolding swap
length-swap v i j = length-put_value _ j _ ∙ length-put_value v i _

length-whole_numbers : (n : ℕ) → length (whole_numbers n) ≡ n
unfolding whole_numbers
length-whole_numbers zero = refl
length-whole_numbers (suc n) =
    length-append (whole_numbers n) (n ∷ []) ∙ (let a = length-whole_numbers n in omega (arith, a))

length-shuffle : (i x : ℕ) (v : List ℕ) → length (shuffle i x v) ≡ length v
unfolding shuffle
length-shuffle zero x v = refl
length-shuffle (suc i) x v = length-shuffle i _ _ ∙ length-swap v (suc i) _

occurs-shuffle : (k i x : ℕ) (v : List ℕ) → i < length v → occurs k (shuffle i x v) ≡ occurs k v
unfolding shuffle
occurs-shuffle k zero x v l = refl
occurs-shuffle k (suc i) x v l =
    let j = (next_random x / 2 ^ 33) % (suc i + 1) in
    occurs-shuffle k i (next_random x) _ (rw (length-swap v (suc i) j) (omega (arith, l)))
    ∙ occurs-swap k v (suc i) j l (omega (arith, l))

occurs-whole_numbers : (k n : ℕ) → occurs k (whole_numbers n) ≡ (if ltb k n then 1 else 0)
unfolding whole_numbers
occurs-whole_numbers k zero = ground arith
occurs-whole_numbers k (suc n) =
    occurs-append k (whole_numbers n) (n ∷ [])
    ∙ (let a = occurs-whole_numbers k n in ground (arith, a))

shuffled_lem :
    (seed_base draw n k : ℕ)
    → (length (shuffled seed_base draw n) ≡ n)
      × (occurs k (shuffled seed_base draw n) ≡ (if ltb k n then 1 else 0))
unfolding shuffled shuffle
shuffled_lem seed_base draw zero k = (length-whole_numbers 0, occurs-whole_numbers k 0)
shuffled_lem seed_base draw (suc n) k =
    let l = length-whole_numbers (suc n) in
    (
      length-shuffle (suc n - 1) _ (whole_numbers (suc n)) ∙ l,
      occurs-shuffle k (suc n - 1) _ (whole_numbers (suc n)) (omega (arith, l))
          ∙ occurs-whole_numbers k (suc n),
    )

-- Small numbers are floats.
float_near-exact : (n : ℕ) → n ≤ exact_below → float_near n ≡ n
unfolding float_near
float_near-exact n h = rw (leb-true n exact_below h) refl

as_floats-exact : (v : List ℕ) → ((k : ℕ) → 0 < occurs k v → k ≤ exact_below) → as_floats v ≡ v
unfolding as_floats
as_floats-exact [] h = refl
as_floats-exact (x ∷ v) h =
    ap₂ (λ (y : ℕ) (l : List ℕ). y ∷ l)
      (float_near-exact x (h x (let e = eq_self x in ground (arith, e))))
      (as_floats-exact v (λ k p. h k (omega (arith, p))))

shuffled-small :
    (seed_base draw n k : ℕ)
    → n ≤ exact_below + 1
    → 0 < occurs k (shuffled seed_base draw n)
    → k ≤ exact_below
shuffled-small seed_base draw n k h p =
    let e = (shuffled_lem seed_base draw n k).1 in below (ltb k n) refl (omega (arith, e, p))
  where
    below : (b : Bool) → ltb k n ≡ b → 0 < (if b then 1 else 0) → k ≤ exact_below
    below true e q = ground (arith, e, h)
    below false e q = absurd (omega (arith, q))

-- Of at most 2^24 + 1 indices the values of `tfb_randperm` are a permutation: every index below `n`
-- is there once, and nothing else is, whatever the seed.
pub randperm_lem :
    (seed_base draw n k : ℕ)
    → n ≤ exact_below + 1
    → (length (randperm seed_base draw n) ≡ n)
      × (occurs k (randperm seed_base draw n) ≡ (if ltb k n then 1 else 0))
unfolding randperm
randperm_lem seed_base draw n k h =
    rw (as_floats-exact (shuffled seed_base draw n) (λ j p. shuffled-small seed_base draw n j h p))
      (shuffled_lem seed_base draw n k)

-- ===== src/Tensor/Shapes/Aligned.antt =====
-- `bcast` of modules/tensorflow/backend.c is broadcasting: the ends of two shapes are aligned, the
-- shorter one counts as 1 in front, and sizes agree when they are equal or one of them is 1.
use cocolog.Prelude.{
  ℕ, zero, suc, ◌+◌, ◌-◌, ◌≤◌, ◌<◌, ◌≡◌, refl, sym, ap, ◌∙◌, Bool, true, false, ◌&&◌, not, Option,
  none, some, List, [], ◌∷◌, ◌++◌, length, length-append, drop, drop_all, ltb, ◌==◌, if◌then◌else◌,
  arith, ltb-true, ltb-false, inl, inr, leb_cases,
}
use cocolog.Tensor.Slots.{ℤ, pos, negsuc}
use cocolog.Tensor.Integers.{◌==ℤ◌, less_than}
use cocolog.Tensor.Shapes.{size_of, aligned_size, join_sizes, bcast_from, larger, bcast}

abbrev pub ones : ℕ → List ℤ
ones zero = []
ones (suc n) = pos 1 ∷ ones n

abbrev pub padded : ℕ → List ℤ → List ℤ
padded n a = ones (n - length a) ++ a

unfoldable pub agree : ℤ → ℤ → Option ℤ
agree da db =
    if da ==ℤ pos 1
    then some db
    else if db ==ℤ pos 1
    then some da
    else if da ==ℤ db
    then some da
    else none

abbrev pub cons_size : Option ℤ → Option (List ℤ) → Option (List ℤ)
cons_size none ds = none
cons_size (some d) none = none
cons_size (some d) (some ds) = some (d ∷ ds)

unfoldable pub broadcast : List ℤ → List ℤ → Option (List ℤ)
broadcast [] ys = some []
broadcast (x ∷ xs) [] = some []
broadcast (x ∷ xs) (y ∷ ys) = cons_size (agree x y) (broadcast xs ys)

abbrev pub is_positive : ℤ → Bool
is_positive (pos zero) = false
is_positive (pos (suc n)) = true
is_positive (negsuc n) = false

abbrev pub all_positive : List ℤ → Bool
all_positive [] = true
all_positive (x ∷ xs) = is_positive x && all_positive xs

join-agree : (d e : ℤ) → is_positive d ≡ true → is_positive e ≡ true → join_sizes d e ≡ agree d e
unfolding join_sizes agree ◌==ℤ◌ less_than
join-agree (pos (suc m)) (pos (suc n)) p q = naturals m n
  where
    naturals :
        (m n : ℕ)
        → (if not (suc m == suc n) && (not (suc m == 1) && not (suc n == 1))
            then none
            else some (if ltb (suc n) (suc m) then pos (suc m) else pos (suc n)))
          ≡ (if suc m == 1
              then some (pos (suc n))
              else if suc n == 1
              then some (pos (suc m))
              else if suc m == suc n
              then some (pos (suc m))
              else none)
    naturals m n = ground arith
join-agree (pos zero) e p q = absurd cc
join-agree (pos (suc m)) (pos zero) p q = absurd cc
join-agree (pos (suc m)) (negsuc n) p q = absurd cc
join-agree (negsuc m) e p q = absurd cc

size_of-ones :
    (k : ℕ) (a : List ℤ) (i : ℕ)
    → (if ltb i k then pos 1 else size_of a (i - k)) ≡ size_of (ones k ++ a) i
size_of-ones zero a i = rw (ltb-false i 0 (omega arith)) (ap (size_of a) (omega arith))
size_of-ones (suc k) a zero = rw (ltb-true 0 (suc k) (omega arith)) refl
size_of-ones (suc k) a (suc i) = elim (leb_cases k i) [
  | inl beyond ↦
      let b = beyond.0 in
      rw (ltb-false (suc i) (suc k) (omega (arith, b))) (
        ap (size_of a) (omega arith)
        ∙ sym (ap (λ (x : Bool). if x then pos 1 else size_of a (i - k)) (ltb-false i k b))
        ∙ size_of-ones k a i)
  | inr inside ↦
      let b = inside.0 in
      rw (ltb-true (suc i) (suc k) (omega (arith, b))) (
        sym (ap (λ (x : Bool). if x then pos 1 else size_of a (i - k)) (ltb-true i k b))
        ∙ size_of-ones k a i)
]

aligned_size-padded : (a : List ℤ) (n i : ℕ) → aligned_size a n i ≡ size_of (padded n a) i
unfolding aligned_size
aligned_size-padded a n i = size_of-ones (n - length a) a i

length-ones : (n : ℕ) → length (ones n) ≡ n
length-ones zero = refl
length-ones (suc n) = ap suc (length-ones n)

length-padded : (n : ℕ) (a : List ℤ) → length a ≤ n → length (padded n a) ≡ n
length-padded n a l =
    length-append (ones (n - length a)) a
    ∙ (let o = length-ones (n - length a) in omega (arith, o, l))

all_positive-padded :
    (k : ℕ) (a : List ℤ) → all_positive a ≡ true → all_positive (ones k ++ a) ≡ true
all_positive-padded zero a p = p
all_positive-padded (suc k) a p = all_positive-padded k a p

both : (a b : Bool) → (a && b) ≡ true → (a ≡ true) × (b ≡ true)
both true true e = (refl, refl)
both true false e = absurd cc
both false b e = absurd cc

is_positive-size_of :
    (p : List ℤ) (i : ℕ) → i < length p → all_positive p ≡ true → is_positive (size_of p i) ≡ true
is_positive-size_of [] i l e = absurd (omega arith)
is_positive-size_of (x ∷ p) zero l e = (both (is_positive x) (all_positive p) e).0
is_positive-size_of (x ∷ p) (suc i) l e =
    is_positive-size_of p i (omega (arith, l)) (both (is_positive x) (all_positive p) e).1

drop-size_of : (p : List ℤ) (i : ℕ) → i < length p → drop i p ≡ size_of p i ∷ drop (suc i) p
drop-size_of [] i l = absurd (omega arith)
drop-size_of (x ∷ p) zero l = refl
drop-size_of (x ∷ p) (suc i) l = drop-size_of p i (omega (arith, l))

joined_cases :
    (o : Option ℤ) (ds : Option (List ℤ))
    → elim o as (λ x. Option (List ℤ)) [
      | none ↦ none
      | some x ↦ elim ds [ none ↦ none | some xs ↦ some (x ∷ xs) ]
    ]
      ≡ cons_size o ds
joined_cases none ds = refl
joined_cases (some x) none = refl
joined_cases (some x) (some xs) = refl

bcast_from-step :
    (a b : List ℤ) (n i k : ℕ)
    → is_positive (size_of (padded n a) i) ≡ true
    → is_positive (size_of (padded n b) i) ≡ true
    → bcast_from a b n i (suc k)
      ≡ cons_size
          (agree (size_of (padded n a) i) (size_of (padded n b) i))
          (bcast_from a b n (i + 1) k)
unfolding bcast_from
bcast_from-step a b n i k p q =
    joined_cases (join_sizes (aligned_size a n i) (aligned_size b n i)) (bcast_from a b n (i + 1) k)
    ∙ ap (λ (o : Option ℤ). cons_size o (bcast_from a b n (i + 1) k))
        (rw (aligned_size-padded a n i, aligned_size-padded b n i) (join-agree _ _ p q))

bcast_from-broadcast :
    (a b : List ℤ) (n i k : ℕ)
    → length a ≤ n
    → length b ≤ n
    → all_positive a ≡ true
    → all_positive b ≡ true
    → i + k ≡ n
    → bcast_from a b n i k ≡ broadcast (drop i (padded n a)) (drop i (padded n b))
unfolding bcast_from broadcast
bcast_from-broadcast a b n i zero la lb pa pb e =
    let m = length-padded n a la in rw (drop_all i (padded n a) (omega (arith, m, e))) refl
bcast_from-broadcast a b n i (suc k) la lb pa pb e =
    let u = length-padded n a la in
    let v = length-padded n b lb in
    let next : i + 1 ≡ suc i = omega arith in
    let x : i < length (padded n a) = omega (arith, u, e) in
    let y : i < length (padded n b) = omega (arith, v, e) in
    rw (drop-size_of (padded n a) i x, drop-size_of (padded n b) i y)
      (bcast_from-step a b n i k
          (is_positive-size_of (padded n a) i x (all_positive-padded (n - length a) a pa))
          (is_positive-size_of (padded n b) i y (all_positive-padded (n - length b) b pb))
        ∙ ap (cons_size (agree (size_of (padded n a) i) (size_of (padded n b) i))) (
            bcast_from-broadcast a b n (i + 1) k la lb pa pb (omega (arith, e))
            ∙ ap (λ (j : ℕ). broadcast (drop j (padded n a)) (drop j (padded n b))) next))

larger_bounds : (m n : ℕ) → (m ≤ larger m n) × (n ≤ larger m n)
unfolding larger
larger_bounds m n = (ground arith, ground arith)

-- Of positive sizes, the rule answers the shape that broadcasting gives, and refuses what it refuses.
pub bcast-broadcast :
    (a b : List ℤ)
    → all_positive a ≡ true
    → all_positive b ≡ true
    → bcast a b
      ≡ broadcast
          (padded (larger (length a) (length b)) a)
          (padded (larger (length a) (length b)) b)
unfolding bcast
bcast-broadcast a b pa pb =
    let l = larger_bounds (length a) (length b) in
    bcast_from-broadcast a b (larger (length a) (length b)) 0 (larger (length a) (length b)) l.0 l.1
      pa pb (omega arith)

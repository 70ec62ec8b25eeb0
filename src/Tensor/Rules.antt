-- ===== src/Tensor/Rules.antt =====
-- `shape_rule` of modules/tensorflow/backend.c, with the rule of each operation.
use cocolog.Prelude.{
  ℕ, zero, suc, ◌+◌, ◌-◌, ◌/◌, ◌%◌, Bool, true, false, ◌&&◌, ◌||◌, not, Option, none, some, List,
  [], ◌∷◌, ◌++◌, length, take, drop, ltb, ◌==◌, if◌then◌else◌, text,
}
use cocolog.Tensor.Slots.{ℤ, pos, negsuc, OpSpec, TfSlot, slot, tfb_exists, Backend}
use cocolog.Tensor.Recording.{Ruled, ruled, against, unruled, same_name}
use cocolog.Tensor.Integers.{◌+ℤ◌, ◌-ℤ◌, ◌*ℤ◌, ◌==ℤ◌, less_than, is_negative, quotient, divides}
use cocolog.Tensor.Shapes.{size_of, put_size, bcast}

-- `leaf_shape`, by the first branch of `tfb_shape`; the shape of a node that has no known one is
-- inferred by TensorFlow, from the compiled closure.
unfoldable pub leaf_shape : (Backend → ℕ → Option (List ℤ)) → Backend → ℕ → Option (List ℤ)
leaf_shape inferred b h =
    let s = slot b.slots h in
    if tfb_exists b.slots h then (if s.shape_known then some s.shape else inferred b h) else none

abbrev pub input_of : List ℕ → ℕ → ℕ
input_of [] i = 0
input_of (h ∷ hs) zero = h
input_of (h ∷ hs) (suc i) = input_of hs i

unfoldable pub is_one_of : List ℕ → List (List ℕ) → Bool
is_one_of op [] = false
is_one_of op (x ∷ xs) = same_name op x || is_one_of op xs

-- The digits of `%lld`; a `long long` has 20 at most.
unfoldable pub decimals : ℕ → ℕ → List ℕ
decimals zero n = []
decimals (suc fuel) n =
    let rest = decimals fuel (n / 10) in
    if ltb n 10 then (48 + n) ∷ [] else rest ++ (48 + n % 10) ∷ []

unfoldable pub printed : ℤ → List ℕ
printed (pos n) = decimals 20 n
printed (negsuc n) = 45 ∷ decimals 20 (n + 1)

unfoldable pub product : List ℤ → ℤ
product [] = pos 1
product (x ∷ xs) = x *ℤ product xs

unfoldable pub binary_rule : List ℤ → List ℤ → Ruled
binary_rule a b = elim (bcast a b) [
  | none ↦ against (text "shapes do not broadcast")
  | some sh ↦ ruled sh
]

unfoldable pub matmul_rule : List ℤ → List ℤ → Ruled
matmul_rule (r ∷ c ∷ []) (s ∷ d ∷ []) =
    if c ==ℤ s
    then ruled (r ∷ d ∷ [])
    else against
        (text "matmul: " ++ printed c ++ text " columns against " ++ printed s ++ text " rows")
matmul_rule a b = against (text "matmul wants two matrices")

unfoldable pub transpose_rule : List ℤ → Ruled
transpose_rule (r ∷ c ∷ []) = ruled (c ∷ r ∷ [])
transpose_rule a = unruled

-- The last `keep_dims` among the attributes.
unfoldable pub keeps_dims : Bool → List (List ℕ × Bool) → Bool
keeps_dims keep [] = keep
keeps_dims keep (a ∷ as_) = keeps_dims (if same_name a.0 (text "keep_dims") then a.1 else keep) as_

unfoldable pub is_reduced : List ℤ → ℕ → ℕ → Bool
is_reduced [] na i = false
is_reduced (x ∷ xs) na i = (x ==ℤ pos i || (x +ℤ pos na) ==ℤ pos i) || is_reduced xs na i

unfoldable pub reduced_from : List ℤ → Bool → ℕ → ℕ → List ℤ → List ℤ
reduced_from axes keep na i [] = []
reduced_from axes keep na i (d ∷ ds) =
    let rest = reduced_from axes keep na (i + 1) ds in
    if is_reduced axes na i then (if keep then pos 1 ∷ rest else rest) else d ∷ rest

unfoldable pub from_end : ℤ → ℕ → ℤ
from_end dim na = if is_negative dim then dim +ℤ pos na else dim

unfoldable pub without_axis : ℤ → ℕ → List ℤ → List ℤ
without_axis dim i [] = []
without_axis dim i (d ∷ ds) =
    if pos i ==ℤ dim then without_axis dim (i + 1) ds else d ∷ without_axis dim (i + 1) ds

-- The last place of -1, and the product of the other sizes.
unfoldable pub wild_from : ℕ → Option ℕ → List ℤ → Option ℕ
wild_from i wild [] = wild
wild_from i wild (x ∷ xs) = wild_from (i + 1) (if x ==ℤ negsuc 0 then some i else wild) xs

unfoldable pub known_sizes : List ℤ → ℤ
known_sizes [] = pos 1
known_sizes (x ∷ xs) = if x ==ℤ negsuc 0 then known_sizes xs else x *ℤ known_sizes xs

unfoldable pub reshape_rule : List ℤ → List ℤ → Ruled
reshape_rule v a =
    let total = product a in
    let known = known_sizes v in
    elim (wild_from 0 none v) [
      | some wild ↦
          if (known ==ℤ pos 0) || not (divides known total)
          then against (text "reshape: the sizes do not divide")
          else ruled (put_size v wild (quotient total known))
      | none ↦
          if known ==ℤ total
          then ruled v
          else against (text "reshape: " ++ printed total ++ text " values into " ++ printed known)
    ]

unfoldable pub add_size : ℤ → List ℤ → List ℤ → List ℤ
add_size (pos dim) b sh = put_size sh dim (size_of sh dim +ℤ size_of b dim)
add_size (negsuc dim) b sh = sh

-- The sizes of two shapes of one rank, but for the axis.
unfoldable pub agree_off : ℤ → ℕ → List ℤ → List ℤ → Bool
agree_off dim i (x ∷ xs) (y ∷ ys) = ((pos i ==ℤ dim) || (x ==ℤ y)) && agree_off dim (i + 1) xs ys
agree_off dim i a b = true

-- The loop over the other shapes; `none` is one that is not known. An axis outside the shape, where
-- the source reads and writes outside its arrays, changes nothing here.
unfoldable pub concat_rule : ℤ → List ℤ → List ℤ → List (Option (List ℤ)) → Ruled
concat_rule dim a sh [] = ruled sh
concat_rule dim a sh (none ∷ bs) = unruled
concat_rule dim a sh (some b ∷ bs) =
    let rest = concat_rule dim a (add_size dim b sh) bs in
    if not (length b == length a)
    then against (text "cat: ranks differ")
    else if agree_off dim 0 a b
    then rest
    else against (text "cat: shapes differ off the axis")

unfoldable pub gather_rule : List ℤ → List ℤ → Ruled
gather_rule a b = ruled (b ++ drop 1 a)

unfoldable pub slice_size : ℤ → ℤ → ℤ → ℤ
slice_size d begin size = if is_negative size then d -ℤ begin else size

unfoldable pub slice_from : List ℤ → List ℤ → ℕ → List ℤ → Option (List ℤ)
slice_from begin size i [] = some []
slice_from begin size i (d ∷ ds) =
    let rest = slice_from begin size (i + 1) ds in
    let s = slice_size d (size_of begin i) (size_of size i) in
    if is_negative (size_of begin i) || less_than d (size_of begin i +ℤ s)
    then none
    else elim rest [ none ↦ none | some ss ↦ some (s ∷ ss) ]

unfoldable pub slice_rule : List ℤ → List ℤ → List ℤ → Ruled
slice_rule begin size a = elim (slice_from begin size 0 a) [
  | none ↦ against (text "slice: out of range")
  | some sh ↦ ruled sh
]

-- A rule that wants the second input's shape, or a made constant's values.
unfoldable pub with_known {ℓ} : {A : Type ℓ} → Option A → (A → Ruled) → Ruled
with_known none f = unruled
with_known (some a) f = f a

abbrev pub unary_ops : List (List ℕ)
unary_ops =
    text "Neg"
    ∷ text "Abs"
    ∷ text "Exp"
    ∷ text "Log"
    ∷ text "Sqrt"
    ∷ text "Relu"
    ∷ text "Sigmoid"
    ∷ text "Tanh"
    ∷ text "Cast"
    ∷ []

abbrev pub binary_ops : List (List ℕ)
binary_ops =
    text "AddV2" ∷ text "Sub" ∷ text "Mul" ∷ text "RealDiv" ∷ text "Pow" ∷ text "Maximum" ∷ []

abbrev pub reductions : List (List ℕ)
reductions = text "Sum" ∷ text "Mean" ∷ text "Max" ∷ text "Min" ∷ []

unfoldable pub map_leaf : (ℕ → Option (List ℤ)) → List ℕ → List (Option (List ℤ))
map_leaf leaf [] = []
map_leaf leaf (h ∷ hs) = leaf h ∷ map_leaf leaf hs

-- What follows the first input's shape `a`.
unfoldable pub rule_for : (ℕ → Option (List ℤ)) → List TfSlot → OpSpec → List ℤ → Ruled
rule_for leaf t p a =
    let second = leaf (input_of p.inputs 1) in
    let values : ℕ → Option (List ℤ) = λ i. (slot t (input_of p.inputs i)).val in
    if is_one_of p.op unary_ops
    then ruled a
    else if is_one_of p.op binary_ops
    then with_known second (binary_rule a)
    else if same_name p.op (text "MatMul")
    then with_known second (matmul_rule a)
    else if same_name p.op (text "Transpose")
    then transpose_rule a
    else if is_one_of p.op reductions
    then with_known (values 1)
        (λ axes. ruled (reduced_from axes (keeps_dims false p.bools) (length a) 0 a))
    else if same_name p.op (text "ArgMax")
    then with_known (values 1) (λ d. ruled (without_axis (from_end (size_of d 0) (length a)) 0 a))
    else if same_name p.op (text "Reshape")
    then with_known (values 1) (λ v. reshape_rule v a)
    else if same_name p.op (text "ConcatV2")
    then with_known (values (length p.inputs - 1)) (λ ax.
      concat_rule (from_end (size_of ax 0) (length a)) a a
        (map_leaf leaf (drop 1 (take p.list_n p.inputs))))
    else if same_name p.op (text "GatherV2")
    then with_known second (gather_rule a)
    else if same_name p.op (text "Slice")
    then with_known (values 1) (λ begin. with_known (values 2) (λ size. slice_rule begin size a))
    else unruled

unfoldable pub shape_rule : (Backend → ℕ → Option (List ℤ)) → OpSpec → Backend → Ruled
shape_rule inferred p b =
    let leaf : ℕ → Option (List ℤ) = λ h. leaf_shape inferred b h in
    if ltb 0 (length p.inputs)
    then with_known (leaf (input_of p.inputs 0)) (rule_for leaf b.slots p)
    else rule_for leaf b.slots p []

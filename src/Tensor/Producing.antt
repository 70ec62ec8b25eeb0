-- ===== src/Tensor/Producing.antt =====
-- The producers of modules/tensorflow/backend.c under graph mode: from `tfb_unary` to `tfb_gather`.
pub mod Keeping
use cocolog.Prelude.{
  ℕ, zero, suc, ◌+◌, ◌-◌, ◌*◌, ◌/◌, ◌%◌, ◌^◌, Bool, true, false, ◌&&◌, ◌||◌, Option, none, some,
  List, [], ◌∷◌, length, ltb, leb, ◌==◌, if◌then◌else◌, text, not,
}
use cocolog.Tensor.Slots.{
  ℤ, pos, negsuc, DataType, tf_float, tf_int32, tf_int64, OpSpec, Backend, slot, tfb_exists,
  fail_with, max_in,
}
use cocolog.Tensor.Recording.{
  Ruled, ruled, against, unruled, same_name, spec_init, spec_in, spec_type, spec_int, spec_bool,
  run_spec_graph,
}
use cocolog.Tensor.Integers.{magnitude, is_negative}
use cocolog.Tensor.Rules.{leaf_shape, shape_rule, product}
use cocolog.Tensor.Making.{TensorFlow, Producer, ivec, iscalar, fscalar, with_temporary, made}

unfoldable pub known_shape : TensorFlow → OpSpec → Backend → Ruled
known_shape tf p b = elim (shape_rule tf.infer_leaf p b) [
  | ruled sh ↦ ruled sh
  | against m ↦ against m
  | unruled ↦ elim (tf.infer_node p b) [ none ↦ unruled | some sh ↦ ruled sh ]
]

unfoldable pub run_spec : TensorFlow → OpSpec → Producer
run_spec tf p = run_spec_graph (known_shape tf) p

-- The answer -1, with a message or without.
unfoldable pub refuse_with : List ℕ → Producer
refuse_with m b = some (none, fail_with m b)

unfoldable pub answer_none : Producer
answer_none b = some (none, b)

unfoldable pub op_named : List ℕ → List (List ℕ × List ℕ) → Option (List ℕ)
op_named nm [] = none
op_named nm (x ∷ xs) = if same_name nm x.0 then some x.1 else op_named nm xs

abbrev pub unary_names : List (List ℕ × List ℕ)
unary_names =
    (text "neg", text "Neg")
    ∷ (text "abs", text "Abs")
    ∷ (text "exp", text "Exp")
    ∷ (text "log", text "Log")
    ∷ (text "sqrt", text "Sqrt")
    ∷ (text "relu", text "Relu")
    ∷ (text "sigmoid", text "Sigmoid")
    ∷ (text "tanh", text "Tanh")
    ∷ []

abbrev pub binary_names : List (List ℕ × List ℕ)
binary_names =
    (text "add", text "AddV2")
    ∷ (text "sub", text "Sub")
    ∷ (text "mul", text "Mul")
    ∷ (text "div", text "RealDiv")
    ∷ (text "pow", text "Pow")
    ∷ (text "matmul", text "MatMul")
    ∷ []

abbrev pub floats : OpSpec → OpSpec
floats p = spec_type (text "T") tf_float p

unfoldable pub transpose_spec : ℕ → ℕ → OpSpec
transpose_spec a perm =
    spec_type (text "Tperm") tf_int32
      (floats (spec_in perm (spec_in a (spec_init (text "Transpose")))))

unfoldable pub tfb_unary : TensorFlow → List ℕ → ℕ → Producer
tfb_unary tf nm a =
    if same_name nm (text "transpose")
    then with_temporary (made (ivec tf (pos 1 ∷ pos 0 ∷ [])))
        (λ pv. run_spec tf (transpose_spec a pv))
    else elim (op_named nm unary_names) [
      | none ↦ refuse_with (text "unknown unary")
      | some op ↦ run_spec tf (floats (spec_in a (spec_init op)))
    ]

unfoldable pub pair_spec : List ℕ → ℕ → ℕ → OpSpec
pair_spec op a b = floats (spec_in b (spec_in a (spec_init op)))

unfoldable pub binary_spec : List ℕ → ℕ → ℕ → OpSpec
binary_spec op a b =
    if same_name op (text "MatMul")
    then spec_bool (text "transpose_b") false
        (spec_bool (text "transpose_a") false (pair_spec op a b))
    else pair_spec op a b

unfoldable pub tfb_binary : TensorFlow → List ℕ → ℕ → ℕ → Producer
tfb_binary tf nm a b = elim (op_named nm binary_names) [
  | none ↦ refuse_with (text "unknown binary")
  | some op ↦ run_spec tf (binary_spec op a b)
]

unfoldable pub tfb_scalar : TensorFlow → List ℕ → ℕ → ℕ → Producer
tfb_scalar tf nm a v = elim (op_named nm binary_names) [
  | none ↦ refuse_with (text "unknown scalar op")
  | some op ↦
      if same_name op (text "MatMul")
      then refuse_with (text "unknown scalar op")
      else with_temporary (made (fscalar tf v)) (λ s. run_spec tf (pair_spec op a s))
]

unfoldable pub reduce_spec : List ℕ → ℕ → ℕ → Bool → OpSpec
reduce_spec op a axes keep =
    spec_bool (text "keep_dims") keep
      (spec_type (text "Tidx") tf_int32 (floats (spec_in axes (spec_in a (spec_init op)))))

unfoldable pub axes_from : ℕ → List ℤ → List ℤ
axes_from i [] = []
axes_from i (d ∷ ds) = pos i ∷ axes_from (i + 1) ds

-- What follows the shape of `a`, if it has one.
unfoldable pub with_shape : TensorFlow → ℕ → (List ℤ → Producer) → Producer
with_shape tf a f b = elim (leaf_shape tf.infer_leaf b a) [
  | none ↦ answer_none b
  | some sh ↦ f sh b
]

unfoldable pub reduce_all : TensorFlow → List ℕ → ℕ → Bool → Producer
reduce_all tf op a keep = with_shape tf a (λ sh.
    with_temporary (made (ivec tf (axes_from 0 sh))) (λ ax. run_spec tf (reduce_spec op a ax keep)))

unfoldable pub reduce_axis : TensorFlow → List ℕ → ℕ → ℤ → Bool → Producer
reduce_axis tf op a axis keep =
    with_temporary (made (ivec tf (axis ∷ []))) (λ ax. run_spec tf (reduce_spec op a ax keep))

-- The float of a count, rounded to the nearest and to even, as its bits.
unfoldable pub exponent_of : ℕ → ℕ → ℕ
exponent_of zero n = 0
exponent_of (suc fuel) n = let e = exponent_of fuel (n / 2) in if ltb n 2 then 0 else e + 1

unfoldable pub rounded_to : ℕ → ℕ → ℕ
rounded_to n s =
    let q = n / s in
    let r = n % s in if ltb s (2 * r) || ((2 * r == s) && (q % 2 == 1)) then q + 1 else q

unfoldable pub float_of : ℕ → ℕ
float_of n =
    let e = exponent_of 64 n in
    if n == 0
    then 0
    else if leb e 23
    then (127 + e) * 2 ^ 23 + (n - 2 ^ e) * 2 ^ (23 - e)
    else (127 + e) * 2 ^ 23 + (rounded_to n (2 ^ (e - 23)) - 2 ^ 23)

-- `(double)(n > 1 ? n - 1 : 1)`
unfoldable pub one_less : ℤ → ℕ
one_less (pos n) = if ltb 1 n then n - 1 else 1
one_less (negsuc n) = 1

-- The sample standard deviation; each step lets go of the one before.
unfoldable pub deviation : TensorFlow → ℕ → List ℤ → Producer
deviation tf a sh =
    with_temporary
      (with_temporary
        (with_temporary
          (with_temporary
            (with_temporary (reduce_all tf (text "Mean") a false)
              (λ mu. tfb_binary tf (text "sub") a mu))
            (λ d. tfb_binary tf (text "mul") d d))
          (λ sq. reduce_all tf (text "Sum") sq false))
        (λ ss. tfb_scalar tf (text "div") ss (float_of (one_less (product sh)))))
      (λ v. tfb_unary tf (text "sqrt") v)

unfoldable pub tfb_agg : TensorFlow → List ℕ → ℕ → Producer
tfb_agg tf nm a =
    if same_name nm (text "sum")
    then reduce_all tf (text "Sum") a false
    else if same_name nm (text "mean")
    then reduce_all tf (text "Mean") a false
    else if same_name nm (text "max")
    then reduce_all tf (text "Max") a false
    else if same_name nm (text "min")
    then reduce_all tf (text "Min") a false
    else if same_name nm (text "std")
    then with_shape tf a (deviation tf a)
    else refuse_with (text "unknown aggregation")

unfoldable pub argmax_spec : ℕ → ℕ → OpSpec
argmax_spec a d =
    spec_type (text "output_type") tf_int64 (
      spec_type (text "Tidx") tf_int32 (floats (spec_in d (spec_in a (spec_init (text "ArgMax"))))))

unfoldable pub tfb_argmax : TensorFlow → ℕ → ℤ → Producer
tfb_argmax tf a dim = with_temporary (made (iscalar tf dim)) (λ d. run_spec tf (argmax_spec a d))

unfoldable pub is_int_type : DataType → Bool
is_int_type tf_int32 = true
is_int_type tf_int64 = true
is_int_type _ = false

unfoldable pub tfb_is_int : ℕ → Backend → Bool
tfb_is_int h b = tfb_exists b.slots h && is_int_type (slot b.slots h).dtype

unfoldable pub own_type : ℕ → Backend → DataType
own_type h b = if tfb_is_int h b then (slot b.slots h).dtype else tf_float

unfoldable pub reshape_spec : ℕ → ℕ → DataType → OpSpec
reshape_spec a sv t =
    spec_type (text "Tshape") tf_int32
      (spec_type (text "T") t (spec_in sv (spec_in a (spec_init (text "Reshape")))))

unfoldable pub tfb_reshape : TensorFlow → ℕ → List ℤ → Producer
tfb_reshape tf a shape =
    with_temporary (made (ivec tf shape)) (λ sv b. run_spec tf (reshape_spec a sv (own_type a b)) b)

unfoldable pub spec_ins : List ℕ → OpSpec → OpSpec
spec_ins [] p = p
spec_ins (h ∷ hs) p = spec_ins hs (spec_in h p)

unfoldable pub cat_spec : List ℕ → ℕ → OpSpec
cat_spec hs ax =
    let p = spec_in ax (spec_ins hs (spec_init (text "ConcatV2"))) in
    spec_int (text "N") (pos (length hs))
      (spec_type (text "Tidx") tf_int32 (floats (record p { list_n = length hs })))

unfoldable pub tfb_cat : TensorFlow → List ℕ → ℤ → Producer
tfb_cat tf hs dim =
    if ltb (length hs) 1 || ltb (max_in - 1) (length hs)
    then refuse_with (text "cat: 1 to 7 tensors")
    else with_temporary (made (iscalar tf dim)) (λ ax. run_spec tf (cat_spec hs ax))

unfoldable pub cast_spec : ℕ → OpSpec
cast_spec idx = spec_bool (text "Truncate") false (
    spec_type (text "DstT") tf_int32
      (spec_type (text "SrcT") tf_float (spec_in idx (spec_init (text "Cast")))))

unfoldable pub gather_spec : ℕ → ℕ → ℕ → DataType → DataType → OpSpec
gather_spec a ix ax ta ti = spec_int (text "batch_dims") (pos 0) (
    spec_type (text "Taxis") tf_int32 (
      spec_type (text "Tindices") ti (
        spec_type (text "Tparams") ta
          (spec_in ax (spec_in ix (spec_in a (spec_init (text "GatherV2"))))))))

-- The rows by an index that is whole.
unfoldable pub gather_by : TensorFlow → ℕ → ℕ → Producer
gather_by tf a ix =
    with_temporary (made (iscalar tf (pos 0)))
      (λ ax b. run_spec tf (gather_spec a ix ax (own_type a b) (slot b.slots ix).dtype) b)

unfoldable pub tfb_gather : TensorFlow → ℕ → ℕ → Producer
tfb_gather tf a idx b =
    if tfb_is_int idx b
    then gather_by tf a idx b
    else with_temporary (run_spec tf (cast_spec idx)) (λ tmp. gather_by tf a tmp) b

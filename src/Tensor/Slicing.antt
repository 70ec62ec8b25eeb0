-- ===== src/Tensor/Slicing.antt =====
-- `tfb_slice` and `tfb_standardise` of modules/tensorflow/backend.c, under graph mode, with the
-- temporaries that they do not let go of when a later operation is refused.
pub mod Sound
use cocolog.Prelude.{
  ℕ, zero, suc, ◌+◌, ◌-◌, Bool, true, false, Option, none, some, List, [], ◌∷◌, length, ltb, leb,
  if◌then◌else◌, text,
}
use cocolog.Tensor.Slots.{ℤ, pos, negsuc, DataType, tf_float, tf_int32, OpSpec, Backend}
use cocolog.Tensor.Recording.{spec_init, spec_in, spec_type}
use cocolog.Tensor.Integers.{◌-ℤ◌}
use cocolog.Tensor.Shapes.{put_size}
use cocolog.Tensor.Making.{TensorFlow, Producer, ivec, fscalar, free_after, made}
use cocolog.Tensor.Producing.{
  run_spec, refuse_with, with_shape, own_type, reduce_axis, tfb_binary, tfb_scalar, tfb_unary,
  pair_spec, float_of, one_less,
}

-- The handles that are let go of, in their order, and then what follows if there was an answer.
unfoldable pub free_each : List ℕ → Option (Option ℕ × Backend) → Option (Option ℕ × Backend)
free_each [] r = r
free_each (t ∷ ts) r = free_each ts (free_after t r)

unfoldable pub use_next : (ℕ → Producer) → Option (Option ℕ × Backend) → Option (Option ℕ × Backend)
use_next go none = none
use_next go (some r) = elim r.0 [ none ↦ some (none, r.1) | some t ↦ go t r.1 ]

unfoldable pub and_next : Producer → List ℕ → (ℕ → Producer) → Producer
and_next first frees go b = use_next go (free_each frees (first b))

unfoldable pub repeated : ℤ → List ℤ → List ℤ
repeated v [] = []
repeated v (d ∷ ds) = v ∷ repeated v ds

unfoldable pub slice_spec : ℕ → ℕ → ℕ → DataType → OpSpec
slice_spec a bg sz t =
    spec_type (text "Index") tf_int32
      (spec_type (text "T") t (spec_in sz (spec_in bg (spec_in a (spec_init (text "Slice"))))))

-- With both vectors, or with one that stays when the other could not be made.
unfoldable pub slice_by : TensorFlow → ℕ → Option ℕ → Option ℕ → Producer
slice_by tf a none sz b = some (none, b)
slice_by tf a (some bg) none b = some (none, b)
slice_by tf a (some bg) (some sz) b =
    free_each (bg ∷ sz ∷ []) (run_spec tf (slice_spec a bg sz (own_type a b)) b)

unfoldable pub slice_at : TensorFlow → ℕ → List ℤ → List ℤ → Producer
slice_at tf a begin size b =
    let x = ivec tf begin b in let y = ivec tf size x.1 in slice_by tf a x.0 y.0 y.1

unfoldable pub tfb_slice : TensorFlow → ℕ → ℕ → ℤ → ℤ → Producer
tfb_slice tf a axis from to = with_shape tf a (λ sh.
    if leb (length sh) axis
    then refuse_with (text "slice: no such axis")
    else slice_at tf a (put_size (repeated (pos 0) sh) axis from)
        (put_size (repeated (negsuc 0) sh) axis (to -ℤ from)))

-- The bits of `(float) 1e-7`.
abbrev pub smallest_deviation : ℕ
smallest_deviation = 869711765

unfoldable pub by_deviation : TensorFlow → ℕ → ℕ → ℕ → Producer
by_deviation tf a mu sd =
    and_next (tfb_binary tf (text "sub") a mu) (mu ∷ [])
      (λ c b. free_each (c ∷ sd ∷ []) (tfb_binary tf (text "div") c sd b))

unfoldable pub floored : TensorFlow → ℕ → ℕ → ℕ → Producer
floored tf a mu sd0 = and_next (made (fscalar tf smallest_deviation)) [] (λ low.
    and_next (run_spec tf (pair_spec (text "Maximum") sd0 low)) (sd0 ∷ low ∷ [])
      (λ sd. by_deviation tf a mu sd))

unfoldable pub deviated : TensorFlow → ℕ → ℤ → ℕ → ℕ → Producer
deviated tf a ntrain mu d = and_next (tfb_binary tf (text "mul") d d) (d ∷ []) (λ sq.
    and_next (reduce_axis tf (text "Sum") sq (pos 0) true) (sq ∷ []) (λ ss.
      and_next (tfb_scalar tf (text "div") ss (float_of (one_less ntrain))) (ss ∷ [])
        (λ var. and_next (tfb_unary tf (text "sqrt") var) (var ∷ []) (λ sd0. floored tf a mu sd0))))

unfoldable pub tfb_standardise : TensorFlow → ℕ → ℤ → Producer
tfb_standardise tf a ntrain = and_next (tfb_slice tf a 0 (pos 0) ntrain) [] (λ head.
    and_next (reduce_axis tf (text "Mean") head (pos 0) true) [] (λ mu.
      and_next (tfb_binary tf (text "sub") head mu) (head ∷ []) (λ d. deviated tf a ntrain mu d)))

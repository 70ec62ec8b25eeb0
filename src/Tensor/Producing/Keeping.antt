-- ===== src/Tensor/Producing/Keeping.antt =====
-- What the producers of modules/tensorflow/backend.c leave under graph mode: one new tensor, or none,
-- and no temporary.
use cocolog.Prelude.{
  ℕ, ◌-◌, refl, Bool, true, false, Option, none, some, List, ◌||◌, length, ltb, if◌then◌else◌, text,
}
use cocolog.Tensor.Slots.{ℤ, pos, OpSpec, Backend, fail_with, max_in}
use cocolog.Tensor.Recording.{Ruled, same_name, spec_in, spec_init}
use cocolog.Tensor.Recording.Runs.{Recording, recorded, unrecorded}
use cocolog.Tensor.Recording.Outcomes.{run_spec_graph-Recording}
use cocolog.Tensor.Rules.{leaf_shape}
use cocolog.Tensor.Making.{TensorFlow, Producer, ivec, iscalar, fscalar, with_temporary, made}
use cocolog.Tensor.Making.Temporaries.{
  IsSound, Produced, produced, unproduced, with_temporary-Produced,
}
use cocolog.Tensor.Making.Makers.{same-Produced, slot_from_tensor-Produced, fscalar-Produced}
use cocolog.Tensor.Producing.{
  reduce_axis, known_shape, run_spec, refuse_with, answer_none, op_named, unary_names, binary_names,
  floats, tfb_unary, pair_spec, binary_spec, tfb_binary, tfb_scalar, with_shape, reduce_all,
  deviation, tfb_agg, tfb_argmax, tfb_reshape, tfb_cat, cast_spec, gather_by, tfb_gather,
  tfb_is_int,
}

-- A choice between producers.
if-Produced :
    (a : Bool) (p q : Producer) (b : Backend)
    → Produced b (p b)
    → Produced b (q b)
    → Produced b ((if a then p else q) b)
if-Produced true p q b x y = x
if-Produced false p q b x y = y

op_named-Produced :
    (o : Option (List ℕ)) (p : Producer) (f : List ℕ → Producer) (b : Backend)
    → Produced b (p b)
    → ((op : List ℕ) → Produced b (f op b))
    → Produced b ((elim o as (λ o. Producer) [ none ↦ p | some op ↦ f op ]) b)
op_named-Produced none p f b x y = x
op_named-Produced (some op) p f b x y = y op

Recording-Produced :
    {rule : OpSpec → Backend → Ruled} {p : OpSpec} {r : Option (Option ℕ × Backend)} (b : Backend)
    → Recording rule p b r
    → Produced b r
Recording-Produced b (recorded h c i k e f v n) =
    produced h c (record { in_range = i; counted = k }) e f v
Recording-Produced b (unrecorded c y i k v) = unproduced c (record { in_range = i; counted = k }) v

pub run_spec-Produced :
    (tf : TensorFlow) (p : OpSpec) (b : Backend) → IsSound b → Produced b (run_spec tf p b)
unfolding run_spec
run_spec-Produced tf p b s =
    Recording-Produced b (run_spec_graph-Recording (known_shape tf) p b s.counted s.in_range)

pub refuse_with-Produced : (m : List ℕ) (b : Backend) → IsSound b → Produced b (refuse_with m b)
unfolding refuse_with fail_with
refuse_with-Produced m b s = same-Produced b _ s refl refl

pub ivec_made :
    (tf : TensorFlow) (v : List ℤ) (b : Backend) → IsSound b → Produced b (some (ivec tf v b))
unfolding ivec
ivec_made tf v b s = slot_from_tensor-Produced tf _ _ _ b s

pub ivec-Produced :
    (tf : TensorFlow) (v : List ℤ) (b : Backend) → IsSound b → Produced b (made (ivec tf v) b)
unfolding made ivec
ivec-Produced tf v b s = slot_from_tensor-Produced tf _ _ _ b s

iscalar-Produced :
    (tf : TensorFlow) (v : ℤ) (b : Backend) → IsSound b → Produced b (made (iscalar tf v) b)
unfolding made iscalar
iscalar-Produced tf v b s = slot_from_tensor-Produced tf _ _ _ b s

pub scalar-Produced :
    (tf : TensorFlow) (f : ℕ) (b : Backend) → IsSound b → Produced b (made (fscalar tf f) b)
unfolding made
scalar-Produced tf f b s = fscalar-Produced tf f b s

pub tfb_unary-Produced :
    (tf : TensorFlow) (nm : List ℕ) (a : ℕ) (b : Backend)
    → IsSound b
    → Produced b (tfb_unary tf nm a b)
unfolding tfb_unary
tfb_unary-Produced tf nm a b s =
    if-Produced (same_name nm (text "transpose")) _ _ b
      (with_temporary-Produced _ _ b (ivec-Produced tf _ b s) (λ t c r. run_spec-Produced tf _ c r))
      (op_named-Produced (op_named nm unary_names) _
        (λ op. run_spec tf (floats (spec_in a (spec_init op)))) b (refuse_with-Produced _ b s)
        (λ op. run_spec-Produced tf _ b s))

pub tfb_binary-Produced :
    (tf : TensorFlow) (nm : List ℕ) (a c : ℕ) (b : Backend)
    → IsSound b
    → Produced b (tfb_binary tf nm a c b)
unfolding tfb_binary
tfb_binary-Produced tf nm a c b s =
    op_named-Produced (op_named nm binary_names) _ (λ op. run_spec tf (binary_spec op a c)) b
      (refuse_with-Produced _ b s) (λ op. run_spec-Produced tf _ b s)

pub tfb_scalar-Produced :
    (tf : TensorFlow) (nm : List ℕ) (a v : ℕ) (b : Backend)
    → IsSound b
    → Produced b (tfb_scalar tf nm a v b)
unfolding tfb_scalar
tfb_scalar-Produced tf nm a v b s =
    op_named-Produced (op_named nm binary_names) _
      (λ op.
        if same_name op (text "MatMul")
        then refuse_with (text "unknown scalar op")
        else with_temporary (made (fscalar tf v)) (λ t. run_spec tf (pair_spec op a t)))
      b (refuse_with-Produced _ b s)
      (λ op. if-Produced (same_name op (text "MatMul")) _ _ b (refuse_with-Produced _ b s) (
        with_temporary-Produced _ _ b (scalar-Produced tf v b s)
          (λ t c r. run_spec-Produced tf _ c r)))

with_shape-Produced :
    (tf : TensorFlow) (a : ℕ) (f : List ℤ → Producer) (b : Backend)
    → IsSound b
    → ((sh : List ℤ) → Produced b (f sh b))
    → Produced b (with_shape tf a f b)
unfolding with_shape answer_none
with_shape-Produced tf a f b s g = by_shape (leaf_shape tf.infer_leaf b a)
  where
    by_shape :
        (o : Option (List ℤ))
        → Produced b (elim o as (λ o. Option (Option ℕ × Backend)) [
          | none ↦ some (none, b)
          | some sh ↦ f sh b
        ])
    by_shape none = same-Produced b b s refl refl
    by_shape (some sh) = g sh

reduce_all-Produced :
    (tf : TensorFlow) (op : List ℕ) (a : ℕ) (keep : Bool) (b : Backend)
    → IsSound b
    → Produced b (reduce_all tf op a keep b)
unfolding reduce_all
reduce_all-Produced tf op a keep b s = with_shape-Produced tf a _ b s (λ sh.
    with_temporary-Produced _ _ b (ivec-Produced tf _ b s) (λ t c r. run_spec-Produced tf _ c r))

pub reduce_axis-Produced :
    (tf : TensorFlow) (op : List ℕ) (a : ℕ) (axis : ℤ) (keep : Bool) (b : Backend)
    → IsSound b
    → Produced b (reduce_axis tf op a axis keep b)
unfolding reduce_axis
reduce_axis-Produced tf op a axis keep b s =
    with_temporary-Produced _ _ b (ivec-Produced tf _ b s) (λ t c r. run_spec-Produced tf _ c r)

deviation-Produced :
    (tf : TensorFlow) (a : ℕ) (sh : List ℤ) (b : Backend)
    → IsSound b
    → Produced b (deviation tf a sh b)
unfolding deviation
deviation-Produced tf a sh b s =
    with_temporary-Produced _ _ b
      (with_temporary-Produced _ _ b
        (with_temporary-Produced _ _ b
          (with_temporary-Produced _ _ b
            (with_temporary-Produced _ _ b (reduce_all-Produced tf _ a false b s)
              (λ t c r. tfb_binary-Produced tf _ a t c r))
            (λ t c r. tfb_binary-Produced tf _ t t c r))
          (λ t c r. reduce_all-Produced tf _ t false c r))
        (λ t c r. tfb_scalar-Produced tf _ t _ c r))
      (λ t c r. tfb_unary-Produced tf _ t c r)

-- An aggregation ends in every sound state, whatever TensorFlow answers. It answers one new tensor, or
-- none; every other handle is as it was, and the temporaries of the deviation are gone.
pub tfb_agg-Produced :
    (tf : TensorFlow) (nm : List ℕ) (a : ℕ) (b : Backend)
    → IsSound b
    → Produced b (tfb_agg tf nm a b)
unfolding tfb_agg
tfb_agg-Produced tf nm a b s =
    if-Produced (same_name nm (text "sum")) _ _ b (reduce_all-Produced tf _ a false b s) (
      if-Produced (same_name nm (text "mean")) _ _ b (reduce_all-Produced tf _ a false b s) (
        if-Produced (same_name nm (text "max")) _ _ b (reduce_all-Produced tf _ a false b s) (
          if-Produced (same_name nm (text "min")) _ _ b (reduce_all-Produced tf _ a false b s) (
            if-Produced (same_name nm (text "std")) _ _ b
              (with_shape-Produced tf a _ b s (λ sh. deviation-Produced tf a sh b s))
              (refuse_with-Produced _ b s)))))

pub tfb_argmax-Produced :
    (tf : TensorFlow) (a : ℕ) (dim : ℤ) (b : Backend)
    → IsSound b
    → Produced b (tfb_argmax tf a dim b)
unfolding tfb_argmax
tfb_argmax-Produced tf a dim b s =
    with_temporary-Produced _ _ b (iscalar-Produced tf dim b s)
      (λ t c r. run_spec-Produced tf _ c r)

pub tfb_reshape-Produced :
    (tf : TensorFlow) (a : ℕ) (shape : List ℤ) (b : Backend)
    → IsSound b
    → Produced b (tfb_reshape tf a shape b)
unfolding tfb_reshape
tfb_reshape-Produced tf a shape b s =
    with_temporary-Produced _ _ b (ivec-Produced tf shape b s) (λ t c r. run_spec-Produced tf _ c r)

pub tfb_cat-Produced :
    (tf : TensorFlow) (hs : List ℕ) (dim : ℤ) (b : Backend)
    → IsSound b
    → Produced b (tfb_cat tf hs dim b)
unfolding tfb_cat
tfb_cat-Produced tf hs dim b s =
    if-Produced (ltb (length hs) 1 || ltb (max_in - 1) (length hs)) _ _ b
      (refuse_with-Produced _ b s)
      (with_temporary-Produced _ _ b (iscalar-Produced tf dim b s)
        (λ t c r. run_spec-Produced tf _ c r))

gather_by-Produced :
    (tf : TensorFlow) (a ix : ℕ) (b : Backend) → IsSound b → Produced b (gather_by tf a ix b)
unfolding gather_by
gather_by-Produced tf a ix b s =
    with_temporary-Produced _ _ b (iscalar-Produced tf (pos 0) b s)
      (λ t c r. run_spec-Produced tf _ c r)

-- Rows by index end in every sound state with one new tensor, or none, and nothing else that the
-- program sees: the axis is gone, and the whole index where the index was of floats.
pub tfb_gather-Produced :
    (tf : TensorFlow) (a idx : ℕ) (b : Backend) → IsSound b → Produced b (tfb_gather tf a idx b)
unfolding tfb_gather
tfb_gather-Produced tf a idx b s = by_kind (tfb_is_int idx b)
  where
    by_kind :
        (c : Bool)
        → Produced b (
            if c
            then gather_by tf a idx b
            else with_temporary (run_spec tf (cast_spec idx)) (λ t. gather_by tf a t) b)
    by_kind true = gather_by-Produced tf a idx b s
    by_kind false =
        with_temporary-Produced _ _ b (run_spec-Produced tf _ b s)
          (λ t c r. gather_by-Produced tf a t c r)

-- ===== src/Tensor/Slicing/Sound.antt =====
-- `tfb_slice` and `tfb_standardise` of modules/tensorflow/backend.c end in a sound state.
use cocolog.Prelude.{
  ℕ, Bool, true, false, Option, none, some, List, [], ◌∷◌, length, leb, if◌then◌else◌,
}
use cocolog.Tensor.Slots.{ℤ, pos, Backend}
use cocolog.Tensor.Freeing.Leaving.{Freed, freed, unknown}
use cocolog.Tensor.Freeing.Releasing.{tfb_free-Freed}
use cocolog.Tensor.Rules.{leaf_shape}
use cocolog.Tensor.Making.{TensorFlow, Producer, free_after}
use cocolog.Tensor.Making.Temporaries.{IsSound, Produced, produced, unproduced}
use cocolog.Tensor.Producing.{with_shape, answer_none}
use cocolog.Tensor.Producing.Keeping.{
  run_spec-Produced, refuse_with-Produced, ivec_made, scalar-Produced, tfb_unary-Produced,
  tfb_binary-Produced, tfb_scalar-Produced, reduce_axis-Produced,
}
use cocolog.Tensor.Slicing.{
  free_each, use_next, and_next, slice_by, slice_at, tfb_slice, by_deviation, floored, deviated,
  tfb_standardise,
}

-- There is an answer, and the state is sound.
pub data Ended : Option (Option ℕ × Backend) → Type 0 where
  answered : (a : Option ℕ) (c : Backend) → IsSound c → Ended (some (a, c))

Produced-Ended : {r : Option (Option ℕ × Backend)} (b : Backend) → Produced b r → Ended r
Produced-Ended b (produced h c s e f v) = answered (some h) c s
Produced-Ended b (unproduced c s v) = answered none c s

Freed-Ended :
    {r : Option (Backend × Bool)} (a : Option ℕ) (t : ℕ) (b : Backend)
    → IsSound b
    → Freed t b r
    → Ended (elim r [ none ↦ none | some x ↦ some (a, x.0) ])
Freed-Ended a t b s (freed c e q i g o) =
    answered a c (record { in_range = rw q s.in_range; counted = i })
Freed-Ended a t b s (unknown e) = answered a b s

free_after-Ended : {r : Option (Option ℕ × Backend)} (t : ℕ) → Ended r → Ended (free_after t r)
unfolding free_after
free_after-Ended t (answered a c s) = Freed-Ended a t c s (tfb_free-Freed t c s.counted)

free_each-Ended : (ts : List ℕ) {r : Option (Option ℕ × Backend)} → Ended r → Ended (free_each ts r)
unfolding free_each
free_each-Ended [] e = e
free_each-Ended (t ∷ ts) e = free_each-Ended ts (free_after-Ended t e)

use_next-Ended :
    {r : Option (Option ℕ × Backend)} (go : ℕ → Producer)
    → ((t : ℕ) (c : Backend) → IsSound c → Ended (go t c))
    → Ended r
    → Ended (use_next go r)
unfolding use_next
use_next-Ended go g (answered none c s) = answered none c s
use_next-Ended go g (answered (some t) c s) = g t c s

and_next-Ended :
    (first : Producer) (frees : List ℕ) (go : ℕ → Producer) (b : Backend)
    → Ended (first b)
    → ((t : ℕ) (c : Backend) → IsSound c → Ended (go t c))
    → Ended (and_next first frees go b)
unfolding and_next
and_next-Ended first frees go b e g = use_next-Ended go g (free_each-Ended frees e)

slice_by-Ended :
    (tf : TensorFlow) (a : ℕ) (x y : Option ℕ) (b : Backend)
    → IsSound b
    → Ended (slice_by tf a x y b)
unfolding slice_by
slice_by-Ended tf a none y b s = answered none b s
slice_by-Ended tf a (some x) none b s = answered none b s
slice_by-Ended tf a (some x) (some y) b s =
    free_each-Ended (x ∷ y ∷ []) (Produced-Ended b (run_spec-Produced tf _ b s))

IsSound-made : {r : Option ℕ × Backend} (b : Backend) → Produced b (some r) → IsSound r.1
IsSound-made b (produced h c s e f v) = s
IsSound-made b (unproduced c s v) = s

slice_at-Ended :
    (tf : TensorFlow) (a : ℕ) (begin size : List ℤ) (b : Backend)
    → IsSound b
    → Ended (slice_at tf a begin size b)
unfolding slice_at
slice_at-Ended tf a begin size b s =
    let x = IsSound-made b (ivec_made tf begin b s) in
    slice_by-Ended tf a _ _ _ (IsSound-made _ (ivec_made tf size _ x))

if-Ended :
    (a : Bool) (p q : Producer) (b : Backend)
    → Ended (p b)
    → Ended (q b)
    → Ended ((if a then p else q) b)
if-Ended true p q b x y = x
if-Ended false p q b x y = y

with_shape-Ended :
    (tf : TensorFlow) (a : ℕ) (f : List ℤ → Producer) (b : Backend)
    → IsSound b
    → ((sh : List ℤ) → Ended (f sh b))
    → Ended (with_shape tf a f b)
unfolding with_shape answer_none
with_shape-Ended tf a f b s g = by_shape (leaf_shape tf.infer_leaf b a)
  where
    by_shape :
        (o : Option (List ℤ))
        → Ended (elim o as (λ o. Option (Option ℕ × Backend)) [
          | none ↦ some (none, b)
          | some sh ↦ f sh b
        ])
    by_shape none = answered none b s
    by_shape (some sh) = g sh

pub tfb_slice-Ended :
    (tf : TensorFlow) (a axis : ℕ) (from to : ℤ) (b : Backend)
    → IsSound b
    → Ended (tfb_slice tf a axis from to b)
unfolding tfb_slice
tfb_slice-Ended tf a axis from to b s = with_shape-Ended tf a _ b s (λ sh.
    if-Ended (leb (length sh) axis) _ _ b (Produced-Ended b (refuse_with-Produced _ b s))
      (slice_at-Ended tf a _ _ b s))

by_deviation-Ended :
    (tf : TensorFlow) (a mu sd : ℕ) (b : Backend) → IsSound b → Ended (by_deviation tf a mu sd b)
unfolding by_deviation
by_deviation-Ended tf a mu sd b s =
    and_next-Ended _ (mu ∷ []) _ b (Produced-Ended b (tfb_binary-Produced tf _ a mu b s)) (λ c d r.
      free_each-Ended (c ∷ sd ∷ []) (Produced-Ended d (tfb_binary-Produced tf _ c sd d r)))

floored-Ended :
    (tf : TensorFlow) (a mu sd0 : ℕ) (b : Backend) → IsSound b → Ended (floored tf a mu sd0 b)
unfolding floored
floored-Ended tf a mu sd0 b s =
    and_next-Ended _ [] _ b (Produced-Ended b (scalar-Produced tf _ b s)) (λ low c r.
      and_next-Ended _ (sd0 ∷ low ∷ []) _ c (Produced-Ended c (run_spec-Produced tf _ c r))
        (λ sd d q. by_deviation-Ended tf a mu sd d q))

deviated-Ended :
    (tf : TensorFlow) (a : ℕ) (ntrain : ℤ) (mu d : ℕ) (b : Backend)
    → IsSound b
    → Ended (deviated tf a ntrain mu d b)
unfolding deviated
deviated-Ended tf a ntrain mu d b s =
    and_next-Ended _ (d ∷ []) _ b (Produced-Ended b (tfb_binary-Produced tf _ d d b s)) (λ sq c r.
      and_next-Ended _ (sq ∷ []) _ c
        (Produced-Ended c (reduce_axis-Produced tf _ sq (pos 0) true c r))
        (λ ss e q.
          and_next-Ended _ (ss ∷ []) _ e (Produced-Ended e (tfb_scalar-Produced tf _ ss _ e q))
            (λ var g p.
              and_next-Ended _ (var ∷ []) _ g (Produced-Ended g (tfb_unary-Produced tf _ var g p))
                (λ sd0 h o. floored-Ended tf a mu sd0 h o))))

pub tfb_standardise-Ended :
    (tf : TensorFlow) (a : ℕ) (ntrain : ℤ) (b : Backend)
    → IsSound b
    → Ended (tfb_standardise tf a ntrain b)
unfolding tfb_standardise
tfb_standardise-Ended tf a ntrain b s =
    and_next-Ended _ [] _ b (tfb_slice-Ended tf a 0 (pos 0) ntrain b s) (λ head c r.
      and_next-Ended _ [] _ c (Produced-Ended c (reduce_axis-Produced tf _ head (pos 0) true c r))
        (λ mu e q.
          and_next-Ended _ (head ∷ []) _ e (Produced-Ended e (tfb_binary-Produced tf _ head mu e q))
            (λ d g p. deviated-Ended tf a ntrain mu d g p)))

-- ===== src/Tensor/Stepping.antt =====
-- `tfb_step` of modules/tensorflow/backend.c: a step of gradient descent.
use cocolog.Prelude.{
  ℕ, ◌≡◌, refl, ◌∙◌, true, false, Option, none, some, List, text, inl, inr, Bool-cases,
}
use cocolog.Tensor.Slots.{TfSlot, Backend, slot, put_slot, is_node, tfb_exists, with_slots}
use cocolog.Tensor.Freeing.{inputs_of, drop_structure, unref}
use cocolog.Tensor.Freeing.Counting.{length-put_slot}
use cocolog.Tensor.Freeing.Unref.{Unreffed, unreffed}
use cocolog.Tensor.Freeing.Cursor.{Steady, steady, unref_all-Steady}
use cocolog.Tensor.Freeing.Dropping.{drop_structure-Unreffed}
use cocolog.Tensor.Recording.References.{Alike, Alike-refl, Alike-IsCounted}
use cocolog.Tensor.Recording.Tables.{Alike-put_slot}
use cocolog.Tensor.Recording.Outcomes.{exists-Alike}
use cocolog.Tensor.Making.{TensorFlow, Producer, with_temporary}
use cocolog.Tensor.Making.Temporaries.{
  IsSound, Produced, produced, unproduced, with_temporary-Produced,
}
use cocolog.Tensor.Producing.{tfb_binary, tfb_scalar}
use cocolog.Tensor.Producing.Keeping.{tfb_binary-Produced, tfb_scalar-Produced}
use cocolog.Tensor.Slicing.Sound.{Ended, answered}

unfoldable pub param_slot : TfSlot → TfSlot
param_slot s = record s { is_param = true }

unfoldable pub step_answer : ℕ → Option Backend → Option (Option ℕ × Backend)
step_answer h none = none
step_answer h (some c) = some (some h, c)

-- The new tensor is a parameter; a node that has its value lets its inputs go.
unfoldable pub step_on : ℕ → Producer
step_on h b =
    let c = with_slots (put_slot b.slots h (param_slot (slot b.slots h))) b in
    elim (slot c.slots h).eh [
      | none ↦ some (some h, c)
      | some e ↦ step_answer h (drop_structure h c)
    ]

unfoldable pub step_after : Option (Option ℕ × Backend) → Option (Option ℕ × Backend)
step_after none = none
step_after (some r) = elim r.0 [ none ↦ some (none, r.1) | some h ↦ step_on h r.1 ]

unfoldable pub tfb_step : TensorFlow → ℕ → ℕ → ℕ → Producer
tfb_step tf w g lr b =
    step_after
      (with_temporary (tfb_scalar tf (text "mul") g lr) (λ s. tfb_binary tf (text "sub") w s) b)

param_slot-Alike : (s : TfSlot) → Alike s (param_slot s)
unfolding param_slot inputs_of
param_slot-Alike s = record {
  same_kind = refl;
  same_released = refl;
  same_refs = refl;
  same_inputs = refl;
}

param-Alike :
    (t : List TfSlot) (h k : ℕ) → Alike (slot t k) (slot (put_slot t h (param_slot (slot t h))) k)
param-Alike t h k =
    Alike-put_slot t h k _ _ (Alike-refl _) (λ e. rw e (param_slot-Alike (slot t k)))

drop_structure-Steady :
    (h : ℕ) (b : Backend)
    → is_node (slot b.slots h).kind ≡ true
    → Steady b.cursor (drop_structure h b)
unfolding drop_structure unref with_slots
drop_structure-Steady h b n = rw n (unref_all-Steady _ _ _)

drop_structure-value :
    (h : ℕ) (b : Backend) → is_node (slot b.slots h).kind ≡ false → drop_structure h b ≡ some b
unfolding drop_structure
drop_structure-value h b n = rw n refl

dropped-Ended :
    {r : Option Backend} {t : List TfSlot} (h : ℕ) (b : Backend)
    → IsSound b
    → Unreffed t r
    → Steady b.cursor r
    → Ended (step_answer h r)
unfolding step_answer
dropped-Ended h b s (unreffed c i v) (steady _ q) =
    answered (some h) c (record { in_range = rw q s.in_range; counted = i })

step_answer-Ended :
    (h : ℕ) (b : Backend)
    → IsSound b
    → tfb_exists b.slots h ≡ true
    → Ended (step_answer h (drop_structure h b))
unfolding step_answer
step_answer-Ended h b s e = elim (Bool-cases (is_node (slot b.slots h).kind)) [
  | inl n ↦
      dropped-Ended h b s (drop_structure-Unreffed h b s.counted e n) (drop_structure-Steady h b n)
  | inr n ↦ rw (drop_structure-value h b n) (answered (some h) b s)
]

param-IsSound :
    (h : ℕ) (b : Backend)
    → IsSound b
    → IsSound (with_slots (put_slot b.slots h (param_slot (slot b.slots h))) b)
unfolding with_slots
param-IsSound h b s = record {
  in_range = s.in_range;
  counted =
      Alike-IsCounted b.slots _ (length-put_slot b.slots h _) (param-Alike b.slots h) s.counted;
}

slots-with_slots : (t : List TfSlot) (b : Backend) → (with_slots t b).slots ≡ t
unfolding with_slots
slots-with_slots t b = refl

step_on-Ended :
    (h : ℕ) (b : Backend) → IsSound b → tfb_exists b.slots h ≡ true → Ended (step_on h b)
unfolding step_on
step_on-Ended h b s e =
    let t = put_slot b.slots h (param_slot (slot b.slots h)) in
    let c = with_slots t b in
    by_value c (slot c.slots h).eh (param-IsSound h b s)
      (rw (slots-with_slots t b) (exists-Alike b.slots t h (param-Alike b.slots h h) ∙ e))
  where
    by_value :
        (c : Backend) (o : Option ℕ)
        → IsSound c
        → tfb_exists c.slots h ≡ true
        → Ended (elim o as (λ o. Option (Option ℕ × Backend)) [
          | none ↦ some (some h, c)
          | some e ↦ step_answer h (drop_structure h c)
        ])
    by_value c none q f = answered (some h) c q
    by_value c (some x) q f = step_answer-Ended h c q f

step_after-Ended :
    {r : Option (Option ℕ × Backend)} (b : Backend) → Produced b r → Ended (step_after r)
unfolding step_after
step_after-Ended b (produced h c s e f v) = step_on-Ended h c s f
step_after-Ended b (unproduced c s v) = answered none c s

pub tfb_step-Ended :
    (tf : TensorFlow) (w g lr : ℕ) (b : Backend) → IsSound b → Ended (tfb_step tf w g lr b)
unfolding tfb_step
tfb_step-Ended tf w g lr b s = step_after-Ended b (
    with_temporary-Produced _ _ b (tfb_scalar-Produced tf _ g lr b s)
      (λ t c r. tfb_binary-Produced tf _ w t c r))

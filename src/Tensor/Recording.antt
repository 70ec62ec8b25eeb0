-- ===== src/Tensor/Recording.antt =====
-- Recording an operation, in modules/tensorflow/backend.c: `spec_init`, `spec_in`, `spec_type`,
-- `spec_int`, `spec_bool`, and what `run_spec_` does under graph mode.
pub mod References
pub mod Undoing
pub mod Nodes
pub mod Tables
pub mod Contents
pub mod Runs
pub mod Outcomes
use cocolog.Prelude.{
  ℕ, zero, suc, ◌+◌, ◌-◌, Bool, true, false, ◌&&◌, ◌||◌, not, Option, none, some, List, [], ◌∷◌,
  ◌++◌, length, ◌==◌, if◌then◌else◌, ltb, text,
}
use cocolog.Tensor.Slots.{
  ℤ, DataType, tf_float, OpSpec, TfSlot, Kind, k_free, k_node, no_spec, Backend, slot, put_slot,
  is_node, tfb_exists, with_slots, fail_with, slot_new, max_in,
}
use cocolog.Tensor.Freeing.{with_refs, unref}

-- `strcmp(a, b) == 0`
unfoldable pub same_name : List ℕ → List ℕ → Bool
same_name [] [] = true
same_name [] (y ∷ ys) = false
same_name (x ∷ xs) [] = false
same_name (x ∷ xs) (y ∷ ys) = (x == y) && same_name xs ys

unfoldable pub spec_init : List ℕ → OpSpec
spec_init op = record { op = op; inputs = []; list_n = 0; types = []; ints = []; bools = [] }

unfoldable pub spec_in : ℕ → OpSpec → OpSpec
spec_in h p = if ltb (length p.inputs) max_in then record p { inputs = p.inputs ++ h ∷ [] } else p

unfoldable pub spec_type : List ℕ → DataType → OpSpec → OpSpec
spec_type a t p = if ltb (length p.types) 4 then record p { types = p.types ++ (a, t) ∷ [] } else p

unfoldable pub spec_int : List ℕ → ℤ → OpSpec → OpSpec
spec_int a v p = if ltb (length p.ints) 2 then record p { ints = p.ints ++ (a, v) ∷ [] } else p

unfoldable pub spec_bool : List ℕ → Bool → OpSpec → OpSpec
spec_bool a v p = if ltb (length p.bools) 2 then record p { bools = p.bools ++ (a, v) ∷ [] } else p

-- What is known of a shape: the sizes; or a message, which the source marks with `!`; or nothing.
pub data Ruled : Type 0 where
  ruled : List ℤ → Ruled
  against : List ℕ → Ruled
  unruled : Ruled

unfoldable pub all_exist : List TfSlot → List ℕ → Bool
all_exist t [] = true
all_exist t (h ∷ hs) = tfb_exists t h && all_exist t hs

-- Whether a parameter is under one of the inputs.
unfoldable pub under_any : List TfSlot → List ℕ → Bool
under_any t [] = false
under_any t (h ∷ hs) =
    ((slot t h).is_param || (is_node (slot t h).kind && (slot t h).under_param)) || under_any t hs

-- `slots[p->in[i]].refs++`
unfoldable pub add_refs : List ℕ → List TfSlot → List TfSlot
add_refs [] t = t
add_refs (h ∷ hs) t = add_refs hs (put_slot t h (with_refs ((slot t h).refs + 1) (slot t h)))

unfoldable pub is_typed : List ℕ → Bool
is_typed a = same_name a (text "output_type") || same_name a (text "DstT")

unfoldable pub last_type : DataType → List (List ℕ × DataType) → DataType
last_type d [] = d
last_type d (a ∷ as_) = last_type (if is_typed a.0 then a.1 else d) as_

unfoldable pub first_of : List ℕ → ℕ
first_of [] = 0
first_of (h ∷ hs) = h

unfoldable pub is_kept_type : List ℕ → Bool
is_kept_type op =
    same_name op (text "Reshape") || (same_name op (text "GatherV2") || same_name op (text "Slice"))

unfoldable pub node_type : List TfSlot → OpSpec → DataType
node_type t p =
    if is_kept_type p.op then (slot t (first_of p.inputs)).dtype else last_type tf_float p.types

-- The new node, before its references are counted; then its type.
unfoldable pub node_slot : OpSpec → Bool → TfSlot → TfSlot
node_slot p up s = record s { kind = k_node; spec = p; under_param = up }

unfoldable pub typed_slot : DataType → TfSlot → TfSlot
typed_slot d s = record s { dtype = d }

unfoldable pub recorded_slots : OpSpec → ℕ → List TfSlot → List TfSlot
recorded_slots p h t =
    let up = under_any t p.inputs in
    let u = add_refs p.inputs (put_slot t h (node_slot p up (slot t h))) in
    put_slot u h (typed_slot (node_type u p) (slot u h))

unfoldable pub shaped_slot : List ℤ → TfSlot → TfSlot
shaped_slot sh s = record s { shape = sh; shape_known = true }

unfoldable pub freed_slot : TfSlot → TfSlot
freed_slot s = record s { kind = k_free }

-- `slots[h].kind = K_FREE; stat_rec--;` after the inputs are let go of.
unfoldable pub undo_record : ℕ → Option Backend → Option (Option ℕ × Backend)
undo_record h none = none
undo_record h (some c) = some (
  none,
  record c { slots = put_slot c.slots h (freed_slot (slot c.slots h)); stat_rec = c.stat_rec - 1 },
)

unfoldable pub after_rule : OpSpec → ℕ → Ruled → Backend → Option (Option ℕ × Backend)
after_rule p h (ruled sh) b =
    some (some h, with_slots (put_slot b.slots h (shaped_slot sh (slot b.slots h))) b)
after_rule p h (against m) b = undo_record h (unref p.inputs (fail_with m b))
after_rule p h unruled b = undo_record h (unref p.inputs b)

-- Under graph mode, with the shape as it is known in each state. The count of the recorded
-- operations does not reach the bound of its `long long`.
unfoldable pub record_node :
    (OpSpec → Backend → Ruled) → OpSpec → ℕ → Backend → Option (Option ℕ × Backend)
record_node rule p h b =
    let c : Backend = record b { slots = recorded_slots p h b.slots; stat_rec = b.stat_rec + 1 } in
    after_rule p h (rule p c) c

unfoldable pub run_spec_graph :
    (OpSpec → Backend → Ruled) → OpSpec → Backend → Option (Option ℕ × Backend)
run_spec_graph rule p b =
    let fresh = slot_new b in
    if all_exist b.slots p.inputs
    then elim fresh.0 [ none ↦ some (none, fresh.1) | some h ↦ record_node rule p h fresh.1 ]
    else some (none, fail_with (text "not a tensor") b)

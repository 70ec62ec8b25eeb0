-- ===== src/Tensor/Making.antt =====
-- New values in modules/tensorflow/backend.c: `slot_from_tensor`, `slot_from_handle`, `ivec`,
-- `iscalar`, `fscalar` and `with_free`. TensorFlow's answers are an argument.
pub mod Temporaries
pub mod Values
pub mod Makers
use cocolog.Prelude.{
  ℕ, zero, suc, ◌+◌, ◌-◌, ◌%◌, ◌^◌, Bool, true, false, Option, none, some, List, [], ◌∷◌, length,
  ltb, if◌then◌else◌,
}
use cocolog.Tensor.Slots.{
  ℤ, pos, negsuc, DataType, tf_float, tf_int32, OpSpec, TfSlot, k_free, k_value, blank_slot,
  Backend, slot, put_slot, with_slots, fail_with, slot_new,
}
use cocolog.Tensor.Freeing.{delete_handle, tfb_free}
use cocolog.Tensor.Scalars.{find_scalar, keep_scalar}

-- What TensorFlow answers in each state: a handle for a tensor, a second handle on one, a copy on the
-- device where one is made, the shapes that it infers, and its message.
pub record TensorFlow : Type 0 where
  pub new_tensor : Backend → Option ℕ
  pub share : ℕ → Backend → Option ℕ
  pub place : ℕ → Option ℕ
  pub infer_leaf : Backend → ℕ → Option (List ℤ)
  pub infer_node : OpSpec → Backend → Option (List ℤ)
  pub message : Backend → List ℕ

-- A handle, or the answer -1.
abbrev pub Maker : Type 0
Maker = Backend → Option ℕ × Backend

-- `(int32_t)`
unfoldable pub to_int32 : ℤ → ℤ
to_int32 (pos n) = let m = n % 2 ^ 32 in if ltb m (2 ^ 31) then pos m else negsuc (2 ^ 32 - 1 - m)
to_int32 (negsuc n) =
    let m = n % 2 ^ 32 in if ltb m (2 ^ 31) then negsuc m else pos (2 ^ 32 - 1 - m)

-- The slot, which was blank, with its value.
unfoldable pub value_slot : Option ℕ → Option (List ℤ) → List ℤ → DataType → TfSlot
value_slot eh val shape dtype = record blank_slot {
  kind = k_value;
  eh = eh;
  val = val;
  ckey = false;
  shape = shape;
  shape_known = true;
  dtype = dtype;
}

unfoldable pub constant_slot : ℕ → List ℤ → List ℤ → DataType → TfSlot
constant_slot e val shape dtype = record (value_slot (some e) (some val) shape dtype) {
  ckey = true;
}

unfoldable pub unmade_slot : List ℤ → DataType → TfSlot
unmade_slot shape dtype = record (value_slot none none shape dtype) { kind = k_free }

unfoldable pub placed : TensorFlow → ℕ → List ℤ → DataType → ℕ → Backend → Backend
placed tf e shape dtype h b = elim (tf.place e) [
  | none ↦ with_slots (put_slot b.slots h (value_slot (some e) none shape dtype)) b
  | some d ↦
      with_slots (put_slot b.slots h (value_slot (some d) none shape dtype))
        (delete_handle (some e) b)
]

-- The value of a made constant stays readable; any other is placed.
unfoldable pub store_value :
    TensorFlow → Option (List ℤ) → List ℤ → DataType → ℕ → ℕ → Backend → Backend
store_value tf none shape dtype e h b = placed tf e shape dtype h b
store_value tf (some v) shape dtype e h b =
    with_slots (put_slot b.slots h (constant_slot e v shape dtype)) b

unfoldable pub tensor_slot : TensorFlow → Option (List ℤ) → List ℤ → DataType → Option ℕ → ℕ → Maker
tensor_slot tf val shape dtype none h b =
    (none, fail_with (tf.message b) (with_slots (put_slot b.slots h (unmade_slot shape dtype)) b))
tensor_slot tf val shape dtype (some e) h b = (some h, store_value tf val shape dtype e h b)

unfoldable pub slot_from_tensor : TensorFlow → Option (List ℤ) → List ℤ → DataType → Maker
slot_from_tensor tf val shape dtype b =
    let r = slot_new b in
    elim r.0 [
      | none ↦ (none, r.1)
      | some h ↦ tensor_slot tf val shape dtype (tf.new_tensor r.1) h r.1
    ]

-- `slot_from_handle`, with the shape and the type that TensorFlow tells of the handle.
unfoldable pub slot_from_handle : ℕ → List ℤ → DataType → Maker
slot_from_handle e shape dtype b =
    let r = slot_new b in
    elim r.0 [
      | none ↦ (none, delete_handle (some e) r.1)
      | some h ↦
          (some h, with_slots (put_slot r.1.slots h (value_slot (some e) none shape dtype)) r.1)
    ]

-- `tfb_from_doubles` and `tfb_from_ints`, but for the values, which go to TensorFlow.
unfoldable pub tfb_from_doubles : TensorFlow → List ℤ → Maker
tfb_from_doubles tf shape = slot_from_tensor tf none shape tf_float

unfoldable pub tfb_from_ints : TensorFlow → ℕ → Maker
tfb_from_ints tf n = slot_from_tensor tf none (pos n ∷ []) tf_int32

unfoldable pub int32s : List ℤ → List ℤ
int32s [] = []
int32s (x ∷ xs) = to_int32 x ∷ int32s xs

unfoldable pub ivec : TensorFlow → List ℤ → Maker
ivec tf v = slot_from_tensor tf (some (int32s v)) (pos (length v) ∷ []) tf_int32

unfoldable pub iscalar : TensorFlow → ℤ → Maker
iscalar tf v = slot_from_tensor tf (some (to_int32 v ∷ [])) [] tf_int32

unfoldable pub handle_or_null : Option ℕ → ℕ
handle_or_null none = 0
handle_or_null (some e) = e

-- A value that was made is shared from now on.
unfoldable pub keep_made : ℕ → ℕ → Backend → Backend
keep_made f keep b =
    let k = keep_scalar f keep b.cache in delete_handle k.1 (record b { cache = k.0 })

unfoldable pub share_found : TensorFlow → Option ℕ → Maker
share_found tf none b = (none, fail_with (tf.message b) b)
share_found tf (some s) b = slot_from_handle s [] tf_float b

unfoldable pub keep_new : TensorFlow → ℕ → ℕ → Option ℕ → Maker
keep_new tf f h none b = (some h, fail_with (tf.message b) b)
keep_new tf f h (some keep) b = (some h, keep_made f keep b)

unfoldable pub fscalar : TensorFlow → ℕ → Maker
fscalar tf f b =
    let r = slot_from_tensor tf none [] tf_float b in
    elim (find_scalar f b.cache.scalars) [
      | some e ↦ share_found tf (tf.share e b) b
      | none ↦ elim r.0 [
        | none ↦ (none, r.1)
        | some h ↦ keep_new tf f h (tf.share (handle_or_null (slot r.1.slots h).eh) r.1) r.1
      ]
    ]

-- An operation of the file; `none` is that the fuel of `unref` is spent.
abbrev pub Producer : Type 0
Producer = Backend → Option (Option ℕ × Backend)

unfoldable pub free_after : ℕ → Option (Option ℕ × Backend) → Option (Option ℕ × Backend)
free_after t none = none
free_after t (some r) = elim (tfb_free t r.1) [ none ↦ none | some x ↦ some (r.0, x.0) ]

-- `with_free`: what is made first is let go of at the end, however the second ends.
unfoldable pub use_made : (ℕ → Producer) → Option (Option ℕ × Backend) → Option (Option ℕ × Backend)
use_made go none = none
use_made go (some r) = elim r.0 [ none ↦ some (none, r.1) | some t ↦ free_after t (go t r.1) ]

unfoldable pub with_temporary : Producer → (ℕ → Producer) → Producer
with_temporary make go b = use_made go (make b)

unfoldable pub made : Maker → Producer
made f b = some (f b)

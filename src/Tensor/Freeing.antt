-- ===== src/Tensor/Freeing.antt =====
-- Letting tensors go, in modules/tensorflow/backend.c: `unref`, `really_free`, `tfb_free` and
-- `drop_structure`.
pub mod Counting
pub mod Storing
pub mod Unref
pub mod Cursor
pub mod Leaving
pub mod Releasing
pub mod Dropping
use cocolog.Prelude.{
  ℕ, zero, suc, ◌+◌, ◌-◌, Bool, true, false, ◌&&◌, not, Option, none, some, List, [], ◌∷◌, ◌++◌,
  length, ◌==◌, if◌then◌else◌,
}
use cocolog.Tensor.Slots.{
  OpSpec, TfSlot, Kind, k_free, k_value, k_node, no_spec, blank_slot, Backend, slot, put_slot,
  is_free, is_node, live, tfb_exists, with_slots,
}

-- `TFE_DeleteTensorHandle`, if there is a handle.
unfoldable pub delete_handle : Option ℕ → Backend → Backend
delete_handle none b = b
delete_handle (some e) b = record b { deleted = e ∷ b.deleted }

-- The inputs that `really_free` and `drop_structure` let go.
unfoldable pub inputs_of : TfSlot → List ℕ
inputs_of s = if is_node s.kind then s.spec.inputs else []

-- `really_free`, up to its calls of `unref`. The host copy `val` goes with its slot.
unfoldable pub clear_slot : ℕ → Backend → Backend
clear_slot h b =
    let s = slot b.slots h in with_slots (put_slot b.slots h blank_slot) (delete_handle s.eh b)

-- `if (slots[h].refs > 0) slots[h].refs--;`
unfoldable pub with_refs : ℕ → TfSlot → TfSlot
with_refs n s = record s { refs = n }

unfoldable pub drop_ref : ℕ → Backend → Backend
drop_ref h b =
    let s = slot b.slots h in with_slots (put_slot b.slots h (with_refs (s.refs - 1) s)) b

unfoldable pub is_over : TfSlot → Bool
is_over s = s.released && (s.refs == 0)

-- The calls of `unref` that are still to be made, in their order: a slot that is freed calls `unref`
-- for each of its inputs before the next. The fuel is the number of calls in all.
unfoldable pub unref_all : ℕ → List ℕ → Backend → Option Backend
unref_all fuel [] b = some b
unref_all zero (h ∷ hs) b = none
unref_all (suc fuel) (h ∷ hs) b =
    let c = drop_ref h b in
    let s = slot c.slots h in
    let skipped = unref_all fuel hs b in
    let freed = unref_all fuel (inputs_of s ++ hs) (clear_slot h c) in
    let kept = unref_all fuel hs c in
    if live b.slots h then (if is_over s then freed else kept) else skipped

-- The calls of `unref` that there can be: one for each input of each node.
unfoldable pub reads : List TfSlot → ℕ
reads [] = 0
reads (s ∷ t) = length (inputs_of s) + reads t

-- `unref` of each handle, and `really_free` with the calls of `unref` that it makes.
unfoldable pub unref : List ℕ → Backend → Option Backend
unref hs b = unref_all (length hs + reads b.slots) hs b

unfoldable pub really_free : ℕ → Backend → Option Backend
really_free h b = unref (inputs_of (slot b.slots h)) (clear_slot h b)

unfoldable pub release : ℕ → Backend → Backend
release h b = with_slots (put_slot b.slots h (record (slot b.slots h) { released = true })) b

-- A node that the tape still holds lets its value go.
unfoldable pub drop_value : ℕ → Backend → Backend
drop_value h b =
    let s = slot b.slots h in
    if is_node s.kind
    then with_slots (put_slot b.slots h (record s { eh = none })) (delete_handle s.eh b)
    else b

-- `tfb_free`, with its answer.
unfoldable pub tfb_free : ℕ → Backend → Option (Backend × Bool)
tfb_free h b =
    let r = release h b in
    let gone = really_free h r in
    if tfb_exists b.slots h
    then (if (slot r.slots h).refs == 0
        then elim gone [ none ↦ none | some c ↦ some (c, true) ]
        else some (drop_value h r, true))
    else some (b, false)

-- `drop_structure`
unfoldable pub as_value : TfSlot → TfSlot
as_value s = record s { kind = k_value; spec = no_spec }

unfoldable pub drop_structure : ℕ → Backend → Option Backend
drop_structure h b =
    let s = slot b.slots h in
    let dropped = unref (inputs_of s) (with_slots (put_slot b.slots h (as_value s)) b) in
    if is_node s.kind then dropped else some b

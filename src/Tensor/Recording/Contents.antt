-- ===== src/Tensor/Recording/Contents.antt =====
-- What the slot of a new node holds, in modules/tensorflow/backend.c: the operation, its shape, its
-- type, and whether a parameter is under it.
use cocolog.Prelude.{
  ℕ, ◌+◌, ◌<◌, ◌≡◌, ◌≢◌, refl, sym, ap, ◌∙◌, Bool, true, false, none, List, [], ◌∷◌, length, arith,
}
use cocolog.Tensor.Slots.{
  ℤ, OpSpec, TfSlot, DataType, k_node, Backend, blank_slot, slot, put_slot, tfb_exists,
}
use cocolog.Tensor.Freeing.{with_refs}
use cocolog.Tensor.Freeing.Counting.{occurs, length-put_slot, slot-put_slot, slot-put_other}
use cocolog.Tensor.Recording.{
  Ruled, ruled, all_exist, add_refs, first_of, node_type, node_slot, typed_slot, shaped_slot,
  recorded_slots, under_any,
}
use cocolog.Tensor.Recording.References.{all_below, length-add_refs, slot-add_refs}
use cocolog.Tensor.Recording.Undoing.{exists_head, exists_tail}

-- The slot is a node of the operation `p`, over the table `t`: it keeps the whole operation, has the
-- shape that the rule gives and the type of the operation, and is under a parameter if an input is;
-- it has no value yet.
pub record IsNode (rule : OpSpec → Backend → Ruled) (p : OpSpec) (t : List TfSlot) (s : TfSlot)
    : Type 0 where
  pub is_a_node : s.kind ≡ k_node
  pub keeps : s.spec ≡ p
  pub valueless : s.eh ≡ none
  pub known : s.shape_known ≡ true
  pub asked : Backend
  pub as_ruled : rule p asked ≡ ruled s.shape
  pub typed : s.dtype ≡ node_type t p
  pub under : s.under_param ≡ under_any t p.inputs

-- The new node's slot, whole.
slot-recorded :
    (p : OpSpec) (h : ℕ) (t : List TfSlot)
    → slot t h ≡ blank_slot
    → h < length t
    → all_below (length t) p.inputs ≡ true
    → slot (recorded_slots p h t) h ≡ (
        let u = add_refs p.inputs (put_slot t h (node_slot p (under_any t p.inputs) (slot t h))) in
        let n = node_slot p (under_any t p.inputs) blank_slot in
        typed_slot (node_type u p) (with_refs (n.refs + occurs h p.inputs) n))
unfolding recorded_slots
slot-recorded p h t b l w =
    let v = node_slot p (under_any t p.inputs) (slot t h) in
    let u = add_refs p.inputs (put_slot t h v) in
    slot-put_slot u h _ (rw (length-add_refs p.inputs (put_slot t h v), length-put_slot t h v) l)
    ∙ ap (typed_slot (node_type u p)) (
        slot-add_refs p.inputs (put_slot t h v) h (rw (length-put_slot t h v) w)
        ∙ ap (λ (s : TfSlot). with_refs (s.refs + occurs h p.inputs) s)
            (slot-put_slot t h v l ∙ ap (node_slot p (under_any t p.inputs)) b))

-- An input of the operation is not the new slot.
exists-other : (k h : ℕ) (t : List TfSlot) → tfb_exists t h ≡ false → tfb_exists t k ≡ true → k ≢ h
exists-other k h t f e q = differ (tfb_exists t k) e (ap (tfb_exists t) q ∙ f)
  where
    differ : (b : Bool) → b ≡ true → b ≡ false → ⊥
    differ true p q = cc
    differ false p q = cc

first_of-other :
    (xs : List ℕ) (h : ℕ) (t : List TfSlot)
    → 0 < h
    → tfb_exists t h ≡ false
    → all_exist t xs ≡ true
    → first_of xs ≢ h
unfolding first_of
first_of-other [] h t z f e q = omega (arith, z, q)
first_of-other (x ∷ xs) h t z f e q = exists-other x h t f (exists_head t x xs e) q

node_type-kept :
    (p : OpSpec) (t u : List TfSlot)
    → (slot u (first_of p.inputs)).dtype ≡ (slot t (first_of p.inputs)).dtype
    → node_type u p ≡ node_type t p
unfolding node_type
node_type-kept p t u e = rw e refl

under_any-kept :
    (xs : List ℕ) (t u : List TfSlot)
    → ((k : ℕ) → tfb_exists t k ≡ true → slot u k ≡ slot t k)
    → all_exist t xs ≡ true
    → under_any u xs ≡ under_any t xs
unfolding under_any
under_any-kept [] t u s e = refl
under_any-kept (x ∷ xs) t u s e =
    rw (s x (exists_head t x xs e), under_any-kept xs t u s (exists_tail t x xs e)) refl

dtype-new :
    (p : OpSpec) (h k : ℕ) (t : List TfSlot) (v : TfSlot)
    → all_below (length t) p.inputs ≡ true
    → k ≢ h
    → (slot (add_refs p.inputs (put_slot t h v)) k).dtype ≡ (slot t k).dtype
unfolding with_refs
dtype-new p h k t v w n =
    ap (λ (s : TfSlot). s.dtype)
      (slot-add_refs p.inputs (put_slot t h v) k (rw (length-put_slot t h v) w))
    ∙ ap (λ (s : TfSlot). s.dtype) (slot-put_other t h k v n)

-- What is filled in makes the node that was asked for.
filled-IsNode :
    (rule : OpSpec → Backend → Ruled) (p : OpSpec) (t : List TfSlot) (sh : List ℤ) (c : Backend)
    (d : DataType) (up : Bool) (n : ℕ)
    → rule p c ≡ ruled sh
    → d ≡ node_type t p
    → up ≡ under_any t p.inputs
    → IsNode rule p t (shaped_slot sh (typed_slot d (with_refs n (node_slot p up blank_slot))))
unfolding shaped_slot typed_slot with_refs node_slot
filled-IsNode rule p t sh c d up n a e f = record {
  is_a_node = refl;
  keeps = refl;
  valueless = refl;
  known = refl;
  asked = c;
  as_ruled = a;
  typed = e;
  under = f;
}

pub recorded_slots-IsNode :
    (rule : OpSpec → Backend → Ruled) (p : OpSpec) (h : ℕ) (t u : List TfSlot) (sh : List ℤ)
    (c : Backend)
    → rule p c ≡ ruled sh
    → slot t h ≡ blank_slot
    → 0 < h
    → h < length t
    → tfb_exists t h ≡ false
    → all_exist t p.inputs ≡ true
    → all_below (length t) p.inputs ≡ true
    → ((k : ℕ) → k ≢ h → slot t k ≡ slot u k)
    → IsNode rule p u (shaped_slot sh (slot (recorded_slots p h t) h))
recorded_slots-IsNode rule p h t u sh c a b z l f e w o =
    let v = node_slot p (under_any t p.inputs) (slot t h) in
    let n = first_of-other p.inputs h t z f e in
    rw (slot-recorded p h t b l w) (
      filled-IsNode rule p u sh c _ _ _ a
        (node_type-kept p u (add_refs p.inputs (put_slot t h v))
          (dtype-new p h _ t v w n ∙ ap (λ (s : TfSlot). s.dtype) (o _ n)))
        (sym (under_any-kept p.inputs t u (λ k q. sym (o k (exists-other k h t f q))) e)))

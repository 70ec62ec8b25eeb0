-- ===== src/Tensor/Recording/Tables.antt =====
-- The tables of `run_spec_` under graph mode, in modules/tensorflow/backend.c: with the new node, and
-- after its record is undone.
use cocolog.Prelude.{
  ℕ, zero, suc, ◌+◌, ◌-◌, ◌<◌, ◌≡◌, ◌≢◌, refl, sym, ap, ◌∙◌, Bool, true, false, ◌&&◌, Option, none,
  List, [], ◌∷◌, length, if◌then◌else◌, arith, ltb,
}
use cocolog.Tensor.Slots.{TfSlot, blank_slot, slot, put_slot, is_free, is_node, tf_slots}
use cocolog.Tensor.Freeing.{inputs_of, with_refs}
use cocolog.Tensor.Freeing.Counting.{
  occurs, length-put_slot, slot-put_slot, slot-put_other, IsCounted,
}
use cocolog.Tensor.Freeing.Storing.{view, face}
use cocolog.Tensor.Slots.{ℤ, OpSpec, DataType}
use cocolog.Tensor.Freeing.Storing.{view-face}
use cocolog.Tensor.Recording.{
  all_exist, add_refs, node_slot, typed_slot, shaped_slot, freed_slot, recorded_slots, under_any,
}
use cocolog.Tensor.Recording.References.{
  all_below, length-add_refs, slot-add_refs, Alike, Alike-refl,
}
use cocolog.Tensor.Recording.Nodes.{Added, IsNew, Added-IsCounted}

pub node_slot-IsNew : (p : OpSpec) (up : Bool) → IsNew p.inputs (node_slot p up blank_slot)
unfolding node_slot inputs_of is_node is_free
node_slot-IsNew p up = record { reads_them = refl; unread = refl; unreleased = refl; in_use = refl }

typed_slot-Alike : (d : DataType) (s u : TfSlot) → Alike s u → Alike s (typed_slot d u)
unfolding typed_slot inputs_of
typed_slot-Alike d s u a = record {
  same_kind = a.same_kind;
  same_released = a.same_released;
  same_refs = a.same_refs;
  same_inputs = a.same_inputs;
}

pub shaped_slot-Alike : (sh : List ℤ) (s : TfSlot) → Alike s (shaped_slot sh s)
unfolding shaped_slot inputs_of
shaped_slot-Alike sh s = record {
  same_kind = refl;
  same_released = refl;
  same_refs = refl;
  same_inputs = refl;
}

-- A slot in the place of one that counts alike.
pub Alike-put_slot :
    (t : List TfSlot) (h k : ℕ) (s v : TfSlot)
    → Alike v (slot t k)
    → (h ≡ k → Alike v s)
    → Alike v (slot (put_slot t h s) k)
Alike-put_slot [] h k s v a e = a
Alike-put_slot (x ∷ t) zero zero s v a e = e refl
Alike-put_slot (x ∷ t) zero (suc k) s v a e = a
Alike-put_slot (x ∷ t) (suc h) zero s v a e = a
Alike-put_slot (x ∷ t) (suc h) (suc k) s v a e = Alike-put_slot t h k s v a (λ q. e (ap suc q))

Alike-at :
    (t : List TfSlot) (h k : ℕ) (v : TfSlot) → h ≡ k → Alike v (slot t k) → Alike v (slot t h)
Alike-at t h k v e a = rw e a

add_refs-Alike :
    (xs : List ℕ) (t : List TfSlot) (k : ℕ)
    → all_below (length t) xs ≡ true
    → Alike (with_refs ((slot t k).refs + occurs k xs) (slot t k)) (slot (add_refs xs t) k)
add_refs-Alike xs t k b = rw (slot-add_refs xs t k b) (Alike-refl _)

pub recorded_slots-Added :
    (p : OpSpec) (h : ℕ) (t : List TfSlot)
    → all_below (length t) p.inputs ≡ true
    → Added p.inputs
        (put_slot t h (node_slot p (under_any t p.inputs) (slot t h)))
        (recorded_slots p h t)
unfolding recorded_slots
recorded_slots-Added p h t b =
    let u = put_slot t h (node_slot p (under_any t p.inputs) (slot t h)) in
    let c : all_below (length u) p.inputs ≡ true =
      rw (length-put_slot t h (node_slot p (under_any t p.inputs) (slot t h))) b in
    record {
      same_length = length-put_slot (add_refs p.inputs u) h _ ∙ length-add_refs p.inputs u;
      alike = λ k.
          Alike-put_slot (add_refs p.inputs u) h k _ _ (add_refs-Alike p.inputs u k c)
            (λ e. typed_slot-Alike _ _ _ (Alike-at _ h k _ e (add_refs-Alike p.inputs u k c)));
    }

pub recorded_slots-IsCounted :
    (p : OpSpec) (h : ℕ) (t : List TfSlot)
    → IsCounted [] t
    → slot t h ≡ blank_slot
    → 0 < h
    → h < length t
    → all_exist t p.inputs ≡ true
    → all_below (length t) p.inputs ≡ true
    → IsCounted [] (recorded_slots p h t)
recorded_slots-IsCounted p h t c b z l e w =
    Added-IsCounted t _ h p.inputs _ c b z l e (rw b (node_slot-IsNew p _))
      (recorded_slots-Added p h t w)

-- The other slots.
face-with_refs : (n : ℕ) (s : TfSlot) → face (with_refs n s) ≡ face s
unfolding face with_refs
face-with_refs n s = refl

pub slot-recorded_slots :
    (p : OpSpec) (h k : ℕ) (t : List TfSlot)
    → all_below (length t) p.inputs ≡ true
    → k ≢ h
    → slot (recorded_slots p h t) k ≡ with_refs ((slot t k).refs + occurs k p.inputs) (slot t k)
unfolding recorded_slots
slot-recorded_slots p h k t b n =
    let u = put_slot t h (node_slot p (under_any t p.inputs) (slot t h)) in
    slot-put_other (add_refs p.inputs u) h k _ n
    ∙ slot-add_refs p.inputs u k
        (rw (length-put_slot t h (node_slot p (under_any t p.inputs) (slot t h))) b)
    ∙ ap (λ (s : TfSlot). with_refs (s.refs + occurs k p.inputs) s) (slot-put_other t h k _ n)

pub view-recorded_slots :
    (p : OpSpec) (h k : ℕ) (t : List TfSlot)
    → all_below (length t) p.inputs ≡ true
    → k ≢ h
    → view (recorded_slots p h t) k ≡ view t k
view-recorded_slots p h k t b n =
    view-face _ k
    ∙ ap (λ (x : Option TfSlot). if ltb 0 k && ltb k tf_slots then x else none)
        (ap face (slot-recorded_slots p h k t b n) ∙ face-with_refs _ (slot t k))
    ∙ sym (view-face t k)

-- After the record is undone: the new slot is free, and the others hold what they held.
again_same :
    (m c : ℕ) (s u v : TfSlot) → u ≡ with_refs (s.refs + c) s → v ≡ with_refs (u.refs - c) u → v ≡ s
unfolding with_refs
again_same m c s u v e f =
    f ∙ rw e (ap (λ (n : ℕ). let w : TfSlot = record s { refs = n } in w) (omega arith))

pub slot-undone :
    (p : OpSpec) (h k : ℕ) (t u : List TfSlot)
    → all_below (length t) p.inputs ≡ true
    → ((k : ℕ)
        → slot u k
          ≡ with_refs
              ((slot (recorded_slots p h t) k).refs - occurs k p.inputs)
              (slot (recorded_slots p h t) k))
    → k ≢ h
    → slot (put_slot u h (freed_slot (slot u h))) k ≡ slot t k
slot-undone p h k t u b e n =
    slot-put_other u h k _ n
    ∙ again_same 0 (occurs k p.inputs) (slot t k) (slot (recorded_slots p h t) k) _
        (slot-recorded_slots p h k t b n) (e k)

blank_and_freed :
    (c : ℕ) (n u v : TfSlot)
    → Alike (with_refs (0 + c) n) u
    → n.released ≡ false
    → v ≡ with_refs (u.refs - c) u
    → Alike blank_slot (freed_slot v)
unfolding with_refs freed_slot inputs_of is_node
blank_and_freed c n u v a r e = rw e (record {
  same_kind = refl;
  same_released = a.same_released ∙ r;
  same_refs = (let q = a.same_refs in omega (arith, q));
  same_inputs = refl;
})

Alike-of :
    (c : ℕ) (s n u : TfSlot)
    → s ≡ n
    → n.refs ≡ 0
    → Alike (with_refs (s.refs + c) s) u
    → Alike (with_refs (0 + c) n) u
Alike-of c s n u e z a = rw (sym e) (
    recounted (s.refs + c) (0 + c) (let q = ap (λ (x : TfSlot). x.refs) e in omega (arith, q, z)) a)
  where
    recounted : (i j : ℕ) → i ≡ j → Alike (with_refs i s) u → Alike (with_refs j s) u
    recounted i j q b = rw (sym q) b

-- The new node, but for its type.
pub Alike-recorded :
    (p : OpSpec) (h : ℕ) (t : List TfSlot)
    → slot t h ≡ blank_slot
    → h < length t
    → all_below (length t) p.inputs ≡ true
    → Alike
        (with_refs (0 + occurs h p.inputs) (node_slot p (under_any t p.inputs) blank_slot))
        (slot (recorded_slots p h t) h)
Alike-recorded p h t b l w =
    Alike-of (occurs h p.inputs) _ _ _
      (slot-put_slot t h _ l ∙ ap (node_slot p (under_any t p.inputs)) b)
      (node_slot-IsNew p (under_any t p.inputs)).unread ((recorded_slots-Added p h t w).alike h)

pub Alike-undone :
    (p : OpSpec) (h : ℕ) (t u : List TfSlot)
    → slot t h ≡ blank_slot
    → h < length t
    → all_below (length t) p.inputs ≡ true
    → ((k : ℕ)
        → slot u k
          ≡ with_refs
              ((slot (recorded_slots p h t) k).refs - occurs k p.inputs)
              (slot (recorded_slots p h t) k))
    → Alike blank_slot (freed_slot (slot u h))
Alike-undone p h t u b l w e =
    let n = node_slot-IsNew p (under_any t p.inputs) in
    blank_and_freed (occurs h p.inputs) (node_slot p (under_any t p.inputs) blank_slot)
      (slot (recorded_slots p h t) h) (slot u h) (Alike-recorded p h t b l w) n.unreleased (e h)

-- ===== src/Tensor/Making/Makers.antt =====
-- What `slot_from_tensor`, `slot_from_handle` and `fscalar` of modules/tensorflow/backend.c leave.
use cocolog.Prelude.{ℕ, ◌≡◌, refl, sym, ap, ◌∙◌, true, false, Option, none, some, List, []}
use cocolog.Tensor.Slots.{
  ℤ, DataType, tf_float, TfSlot, blank_slot, Backend, slot, put_slot, is_free, with_slots,
  fail_with, slot_new,
}
use cocolog.Tensor.Freeing.{delete_handle}
use cocolog.Tensor.Freeing.Unref.{slots-delete_handle}
use cocolog.Tensor.Freeing.Cursor.{cursor-delete_handle}
use cocolog.Tensor.Searching.{IsInRange, Searched, found, full, slot_new-Searched}
use cocolog.Tensor.Scalars.{find_scalar, keep_scalar}
use cocolog.Tensor.Making.{
  TensorFlow, value_slot, constant_slot, unmade_slot, placed, slot_from_tensor, slot_from_handle,
  fscalar, keep_made, handle_or_null, store_value, tensor_slot, share_found, keep_new,
}
use cocolog.Tensor.Making.Temporaries.{IsSound, Produced, produced, unproduced}
use cocolog.Tensor.Making.Values.{
  IsAlone, value-Produced, free-Produced, value_slot-IsAlone, value_slot-taken,
  constant_slot-IsAlone, constant_slot-taken, unmade_slot-IsAlone, unmade_slot-free, found-IsFresh,
}

pub same-Produced :
    (b c : Backend)
    → IsSound b
    → c.slots ≡ b.slots
    → c.cursor ≡ b.cursor
    → Produced b (some (none, c))
same-Produced b c s e q =
    unproduced c (record { in_range = rw q s.in_range; counted = rw e s.counted }) (λ k. rw e refl)

-- A state with the same table.
as_before :
    {o : Option ℕ} (b c d : Backend)
    → d.slots ≡ c.slots
    → d.cursor ≡ c.cursor
    → Produced b (some (o, c))
    → Produced b (some (o, d))
as_before b c d e q (produced h _ s x y v) =
    produced h d (record { in_range = rw q s.in_range; counted = rw e s.counted }) x (rw e y)
      (λ k n. rw e (v k n))
as_before b c d e q (unproduced _ s v) =
    unproduced d (record { in_range = rw q s.in_range; counted = rw e s.counted }) (λ k. rw e (v k))

fields-with_slots :
    (t : List TfSlot) (b : Backend)
    → ((with_slots t b).slots ≡ t) × ((with_slots t b).cursor ≡ b.cursor)
unfolding with_slots
fields-with_slots t b = (refl, refl)

fields-fail_with :
    (m : List ℕ) (b : Backend)
    → ((fail_with m b).slots ≡ b.slots) × ((fail_with m b).cursor ≡ b.cursor)
unfolding fail_with
fields-fail_with m b = (refl, refl)

full-Produced :
    (b d : Backend)
    → IsSound b
    → d.slots ≡ b.slots
    → IsInRange d.cursor
    → Produced b (some (none, d))
full-Produced b d s e q =
    unproduced d (record { in_range = q; counted = rw e s.counted }) (λ k. rw e refl)

-- The slot that was found, with a value.
stored-Produced :
    (h : ℕ) (b d : Backend) (s : TfSlot)
    → IsSound b
    → IsInRange h
    → is_free (slot b.slots h).kind ≡ true
    → d.slots ≡ put_slot b.slots h blank_slot
    → IsInRange d.cursor
    → IsAlone s
    → is_free s.kind ≡ false
    → Produced b (some (some h, with_slots (put_slot d.slots h s) d))
stored-Produced h b d s q i f e m a k =
    let w = fields-with_slots (put_slot d.slots h s) d in
    value-Produced h b (with_slots (put_slot d.slots h s) d) (put_slot b.slots h blank_slot) s
      (found-IsFresh h b q.counted i f) (rw w.1 m)
      (w.0 ∙ ap (λ (t : List TfSlot). put_slot t h s) e) a k

pub slot_from_handle-Produced :
    (e : ℕ) (sh : List ℤ) (dt : DataType) (b : Backend)
    → IsSound b
    → Produced b (some (slot_from_handle e sh dt b))
unfolding slot_from_handle
slot_from_handle-Produced e sh dt b q = searched (slot_new b) (slot_new-Searched b q.in_range)
  where
    searched :
        (r : Option ℕ × Backend)
        → Searched b r
        → Produced b (
            some (elim r.0 as (λ o. Option ℕ × Backend) [
              | none ↦ (none, delete_handle (some e) r.1)
              | some h ↦
                  (some h, with_slots (put_slot r.1.slots h (value_slot (some e) none sh dt)) r.1)
            ]))
    searched _ (full d s m f) =
        full-Produced b (delete_handle (some e) d) q (slots-delete_handle (some e) d ∙ s)
          (rw (cursor-delete_handle (some e) d) m)
    searched _ (found h d i f s m) =
        stored-Produced h b d (value_slot (some e) none sh dt) q i f s m
          (value_slot-IsAlone _ _ _ _) (value_slot-taken _ _ _ _)

placed-Produced :
    (tf : TensorFlow) (e : ℕ) (sh : List ℤ) (dt : DataType) (h : ℕ) (b d : Backend)
    → IsSound b
    → IsInRange h
    → is_free (slot b.slots h).kind ≡ true
    → d.slots ≡ put_slot b.slots h blank_slot
    → IsInRange d.cursor
    → Produced b (some (some h, placed tf e sh dt h d))
unfolding placed
placed-Produced tf e sh dt h b d q i f s m = by_place (tf.place e)
  where
    by_place :
        (o : Option ℕ)
        → Produced b (
            some (
              some h,
              elim o as (λ o. Backend) [
                | none ↦ with_slots (put_slot d.slots h (value_slot (some e) none sh dt)) d
                | some x ↦
                    with_slots
                      (put_slot d.slots h (value_slot (some x) none sh dt))
                      (delete_handle (some e) d)
              ],
            ))
    by_place none =
        stored-Produced h b d (value_slot (some e) none sh dt) q i f s m
          (value_slot-IsAlone _ _ _ _) (value_slot-taken _ _ _ _)
    by_place (some x) =
        as_before b (with_slots (put_slot d.slots h (value_slot (some x) none sh dt)) d) _
          ((fields-with_slots _ (delete_handle (some e) d)).0 ∙ sym (fields-with_slots _ d).0)
          ((fields-with_slots _ (delete_handle (some e) d)).1
            ∙ cursor-delete_handle (some e) d
            ∙ sym (fields-with_slots _ d).1)
          (stored-Produced h b d (value_slot (some x) none sh dt) q i f s m
            (value_slot-IsAlone _ _ _ _) (value_slot-taken _ _ _ _))

tensor_slot-Produced :
    (tf : TensorFlow) (val : Option (List ℤ)) (sh : List ℤ) (dt : DataType) (o : Option ℕ) (h : ℕ)
    (b d : Backend)
    → IsSound b
    → IsInRange h
    → is_free (slot b.slots h).kind ≡ true
    → d.slots ≡ put_slot b.slots h blank_slot
    → IsInRange d.cursor
    → Produced b (some (tensor_slot tf val sh dt o h d))
unfolding tensor_slot store_value
tensor_slot-Produced tf val sh dt none h b d q i f s m =
    let u = fields-with_slots (put_slot d.slots h (unmade_slot sh dt)) d in
    let v =
      fields-fail_with (tf.message d) (with_slots (put_slot d.slots h (unmade_slot sh dt)) d) in
    free-Produced h b _ (put_slot b.slots h blank_slot) (unmade_slot sh dt)
      (found-IsFresh h b q.counted i f) (rw (v.1, u.1) m)
      (v.0 ∙ u.0 ∙ ap (λ (t : List TfSlot). put_slot t h (unmade_slot sh dt)) s)
      (unmade_slot-IsAlone sh dt) (unmade_slot-free sh dt)
tensor_slot-Produced tf none sh dt (some e) h b d q i f s m =
    placed-Produced tf e sh dt h b d q i f s m
tensor_slot-Produced tf (some v) sh dt (some e) h b d q i f s m =
    stored-Produced h b d (constant_slot e v sh dt) q i f s m (constant_slot-IsAlone e v sh dt)
      (constant_slot-taken e v sh dt)

pub slot_from_tensor-Produced :
    (tf : TensorFlow) (val : Option (List ℤ)) (sh : List ℤ) (dt : DataType) (b : Backend)
    → IsSound b
    → Produced b (some (slot_from_tensor tf val sh dt b))
unfolding slot_from_tensor
slot_from_tensor-Produced tf val sh dt b q = searched (slot_new b) (slot_new-Searched b q.in_range)
  where
    searched :
        (r : Option ℕ × Backend)
        → Searched b r
        → Produced b (
            some (elim r.0 as (λ o. Option ℕ × Backend) [
              | none ↦ (none, r.1)
              | some h ↦ tensor_slot tf val sh dt (tf.new_tensor r.1) h r.1
            ]))
    searched _ (full d s m f) = full-Produced b d q s m
    searched _ (found h d i f s m) =
        tensor_slot-Produced tf val sh dt (tf.new_tensor d) h b d q i f s m

keep_new-Produced :
    (tf : TensorFlow) (f h : ℕ) (o : Option ℕ) (b c : Backend)
    → Produced b (some (some h, c))
    → Produced b (some (keep_new tf f h o c))
unfolding keep_new keep_made
keep_new-Produced tf f h none b c p =
    let v = fields-fail_with (tf.message c) c in as_before b c _ v.0 v.1 p
keep_new-Produced tf f h (some keep) b c p =
    as_before b c _ (slots-delete_handle (keep_scalar f keep c.cache).1 _)
      (cursor-delete_handle (keep_scalar f keep c.cache).1 _) p

share_found-Produced :
    (tf : TensorFlow) (o : Option ℕ) (b : Backend)
    → IsSound b
    → Produced b (some (share_found tf o b))
unfolding share_found
share_found-Produced tf none b q =
    let v = fields-fail_with (tf.message b) b in same-Produced b _ q v.0 v.1
share_found-Produced tf (some s) b q = slot_from_handle-Produced s [] tf_float b q

pub fscalar-Produced :
    (tf : TensorFlow) (f : ℕ) (b : Backend) → IsSound b → Produced b (some (fscalar tf f b))
unfolding fscalar
fscalar-Produced tf f b q = looked_up (find_scalar f b.cache.scalars)
  where
    shared : (o : Option ℕ) → Produced b (some (share_found tf o b))
    shared o = share_found-Produced tf o b q

    kept :
        (r : Option ℕ × Backend)
        → Produced b (some r)
        → Produced b (
            some (elim r.0 as (λ o. Option ℕ × Backend) [
              | none ↦ (none, r.1)
              | some h ↦ keep_new tf f h (tf.share (handle_or_null (slot r.1.slots h).eh) r.1) r.1
            ]))
    kept _ (unproduced c s v) = unproduced c s v
    kept _ (produced h c s x y v) = keep_new-Produced tf f h _ b c (produced h c s x y v)

    looked_up :
        (o : Option ℕ)
        → Produced b (
            some (elim o as (λ o. Option ℕ × Backend) [
              | some e ↦ share_found tf (tf.share e b) b
              | none ↦
                  elim (slot_from_tensor tf none [] tf_float b).0 as (λ o. Option ℕ × Backend) [
                    | none ↦ (none, (slot_from_tensor tf none [] tf_float b).1)
                    | some h ↦
                        keep_new tf f h
                          (tf.share
                            (handle_or_null
                              (slot (slot_from_tensor tf none [] tf_float b).1.slots h).eh)
                            (slot_from_tensor tf none [] tf_float b).1)
                          (slot_from_tensor tf none [] tf_float b).1
                  ]
            ]))
    looked_up (some e) = shared (tf.share e b)
    looked_up none =
        kept (slot_from_tensor tf none [] tf_float b)
          (slot_from_tensor-Produced tf none [] tf_float b q)

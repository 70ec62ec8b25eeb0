-- ===== src/Tensor/Freeing/Releasing.antt =====
-- `tfb_free` of modules/tensorflow/backend.c: what they do to the table, and what
-- the program sees.
use cocolog.Prelude.{
  ℕ, ◌<◌, ◌≡◌, refl, ◌∙◌, Bool, true, false, none, some, [], length, ◌==◌, if◌then◌else◌, arith,
  inl, inr, Bool-cases,
}
use cocolog.Tensor.Slots.{TfSlot, Backend, slot, put_slot, is_free, is_node, tfb_exists, with_slots}
use cocolog.Tensor.Freeing.{inputs_of, release, drop_value, tfb_free}
use cocolog.Tensor.Freeing.Counting.{IsTidy, IsCounted}
use cocolog.Tensor.Freeing.Storing.{put-put, put_slot-IsCounted}
use cocolog.Tensor.Freeing.Cursor.{really_free-Steady, cursor-drop_value}
use cocolog.Tensor.Freeing.Unref.{face-released}
use cocolog.Tensor.Freeing.Leaving.{
  Freed, freed, unknown, exists-InUse, view-put_other, view-put_slot_gone, gone-exists,
  slots-release, released_slot, really_free-Unreffed, gone-Freed,
}

-- A slot that is still read stays, with its count and what it reads itself.
record IsHeld (s u : TfSlot) : Type 0 where
  given_up : u.released ≡ true
  same_kind : u.kind ≡ s.kind
  same_refs : u.refs ≡ s.refs
  same_inputs : inputs_of u ≡ inputs_of s

IsHeld-IsTidy :
    (s u : TfSlot) → IsHeld s u → is_free s.kind ≡ false → (s.refs == 0) ≡ false → IsTidy u
unfolding IsTidy
IsHeld-IsTidy s u i f r = rw (i.same_kind, i.same_refs, i.given_up, f, r) (refl, refl)

held-Freed :
    (h : ℕ) (b c : Backend) (u : TfSlot)
    → tfb_exists b.slots h ≡ true
    → IsCounted [] b.slots
    → ((slot b.slots h).refs == 0) ≡ false
    → c.slots ≡ put_slot b.slots h u
    → c.cursor ≡ b.cursor
    → IsHeld (slot b.slots h) u
    → Freed h b (some (c, true))
held-Freed h b c u e i r p q d =
    let w = exists-InUse b.slots h i.whole e in
    freed c e q
      (rw p (
        put_slot-IsCounted [] [] b.slots h u i w.not_zero w.inside (λ k n. rw d.same_inputs refl)
          (let a = i.counted h in rw (d.same_inputs, d.same_refs) (omega (arith, a)))
          (IsHeld-IsTidy (slot b.slots h) u d w.taken_up r)))
      (gone-exists c.slots h
        (rw p (view-put_slot_gone b.slots h u w.inside (face-released u d.given_up))))
      (λ k n. rw p (view-put_other b.slots h k u n))

ap_if : (a : Bool) (b c : Backend) → (if a then b else c).slots ≡ (if a then b.slots else c.slots)
ap_if true b c = refl
ap_if false b c = refl

slots-drop_value :
    (h : ℕ) (b : Backend)
    → (drop_value h b).slots ≡ (
        if is_node (slot b.slots h).kind
        then put_slot b.slots h (record (slot b.slots h) { eh = none })
        else b.slots)
unfolding drop_value with_slots
slots-drop_value h b = ap_if (is_node (slot b.slots h).kind) _ b

IsHeld-node : (s : TfSlot) → IsHeld s (record s { eh = none; released = true })
unfolding inputs_of
IsHeld-node s = record { given_up = refl; same_kind = refl; same_refs = refl; same_inputs = refl }

IsHeld-value : (s : TfSlot) → IsHeld s (record s { released = true })
unfolding inputs_of
IsHeld-value s = record { given_up = refl; same_kind = refl; same_refs = refl; same_inputs = refl }

held_slots-node :
    (h : ℕ) (b : Backend)
    → h < length b.slots
    → is_node (slot b.slots h).kind ≡ true
    → (drop_value h (release h b)).slots
      ≡ put_slot b.slots h (record (slot b.slots h) { eh = none; released = true })
held_slots-node h b l n =
    slots-drop_value h (release h b)
    ∙ rw (released_slot h b l, n, slots-release h b) (put-put b.slots h _ _)

held_slots-value :
    (h : ℕ) (b : Backend)
    → h < length b.slots
    → is_node (slot b.slots h).kind ≡ false
    → (drop_value h (release h b)).slots
      ≡ put_slot b.slots h (record (slot b.slots h) { released = true })
held_slots-value h b l n =
    slots-drop_value h (release h b) ∙ rw (released_slot h b l, n, slots-release h b) refl

-- At a handle that the program can name, `tfb_free` ends and says so; the table is counted after it,
-- the handle is gone, and every other one is as it was. At any other it changes nothing.
pub tfb_free-Freed : (h : ℕ) (b : Backend) → IsCounted [] b.slots → Freed h b (tfb_free h b)
unfolding tfb_free
tfb_free-Freed h b i = elim (Bool-cases (tfb_exists b.slots h)) [
  | inr g ↦ rw g (unknown g)
  | inl e ↦
      let w = exists-InUse b.slots h i.whole e in
      rw (e, released_slot h b w.inside)
        (elim (Bool-cases ((slot b.slots h).refs == 0)) [
          | inl z ↦ rw z (
              gone-Freed h b e w (really_free-Unreffed h b i w (ground (arith, z)))
                (really_free-Steady h b))
          | inr z ↦ rw z (elim (Bool-cases (is_node (slot b.slots h).kind)) [
            | inl n ↦
                held-Freed h b _ _ e i z (held_slots-node h b w.inside n) (cursor-drop_value h b)
                  (IsHeld-node _)
            | inr n ↦
                held-Freed h b _ _ e i z (held_slots-value h b w.inside n) (cursor-drop_value h b)
                  (IsHeld-value _)
          ])
        ])
]

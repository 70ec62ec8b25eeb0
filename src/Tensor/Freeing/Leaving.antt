-- ===== src/Tensor/Freeing/Leaving.antt =====
-- A slot that goes, in modules/tensorflow/backend.c: what `tfb_free` leaves.
use cocolog.Prelude.{
  ℕ, ◌<◌, ◌≡◌, ◌≢◌, refl, sym, ap, ◌∙◌, Bool, true, false, ◌&&◌, Option, none, some, List, [],
  length, if◌then◌else◌, arith, ltb,
}
use cocolog.Tensor.Slots.{
  TfSlot, blank_slot, Backend, slot, put_slot, tfb_exists, tf_slots, with_slots,
}
use cocolog.Tensor.Freeing.{inputs_of, clear_slot, unref, really_free, release}
use cocolog.Tensor.Freeing.Counting.{slot-put_slot, slot-put_other, IsCounted}
use cocolog.Tensor.Freeing.Storing.{put-put, InUse, put_slot-IsCounted, view, face, view-face}
use cocolog.Tensor.Freeing.Cursor.{Steady, steady}
use cocolog.Tensor.Freeing.Unref.{
  Unreffed, unreffed, unref_all-Unreffed, slots-clear_slot, inputs_of-blank_slot, blank_slot-IsTidy,
  face-blank_slot,
}

-- `h` is let go of, or it was not the program's to let go of.
pub data Freed (h : ℕ) (b : Backend) : Option (Backend × Bool) → Type 0 where
  freed :
      (c : Backend)
      → tfb_exists b.slots h ≡ true
      → c.cursor ≡ b.cursor
      → IsCounted [] c.slots
      → tfb_exists c.slots h ≡ false
      → ((k : ℕ) → k ≢ h → view c.slots k ≡ view b.slots k)
      → Freed h b (some (c, true))
  unknown : tfb_exists b.slots h ≡ false → Freed h b (some (b, false))

pub exists-InUse :
    (b : List TfSlot) (h : ℕ) → length b ≡ tf_slots → tfb_exists b h ≡ true → InUse b h
unfolding tfb_exists
exists-InUse b h l e = record {
  not_zero = ground arith;
  inside = ground (arith, l);
  taken_up = ground arith;
}

pub view-put_other :
    (t : List TfSlot) (h k : ℕ) (s : TfSlot) → k ≢ h → view (put_slot t h s) k ≡ view t k
view-put_other t h k s n =
    view-face (put_slot t h s) k
    ∙ ap (λ (x : TfSlot). if ltb 0 k && ltb k tf_slots then face x else none)
        (slot-put_other t h k s n)
    ∙ sym (view-face t k)

pub none_if : {x : Option TfSlot} (b : Bool) → x ≡ none → (if b then x else none) ≡ none
none_if true e = e
none_if false e = refl

pub view-put_slot_gone :
    (t : List TfSlot) (h : ℕ) (s : TfSlot)
    → h < length t
    → face s ≡ none
    → view (put_slot t h s) h ≡ none
view-put_slot_gone t h s l f =
    view-face (put_slot t h s) h
    ∙ ap (λ (x : TfSlot). if ltb 0 h && ltb h tf_slots then face x else none)
        (slot-put_slot t h s l)
    ∙ none_if (ltb 0 h && ltb h tf_slots) f

pub not_some : (b : Bool) (x : TfSlot) → (if b then some x else none) ≡ none → b ≡ false
not_some true x e = absurd cc
not_some false x e = refl

pub gone-exists : (t : List TfSlot) (h : ℕ) → view t h ≡ none → tfb_exists t h ≡ false
unfolding view
gone-exists t h v = not_some (tfb_exists t h) _ v

-- `unref` as a whole.
pub unref-Unreffed :
    (hs : List ℕ) (b : Backend) (t : List TfSlot)
    → b.slots ≡ t
    → IsCounted hs t
    → Unreffed t (unref hs b)
unfolding unref
unref-Unreffed hs b t e c = rw (sym e) (unref_all-Unreffed _ hs b (rw e c) (omega arith))

pub slots-release :
    (h : ℕ) (b : Backend)
    → (release h b).slots ≡ put_slot b.slots h (record (slot b.slots h) { released = true })
unfolding release with_slots
slots-release h b = refl

pub cleared_slots :
    (h : ℕ) (b : Backend) → (clear_slot h (release h b)).slots ≡ put_slot b.slots h blank_slot
cleared_slots h b =
    slots-clear_slot h (release h b)
    ∙ ap (λ (t : List TfSlot). put_slot t h blank_slot) (slots-release h b)
    ∙ put-put b.slots h _ blank_slot

pub released_slot :
    (h : ℕ) (b : Backend)
    → h < length b.slots
    → slot (release h b).slots h ≡ record (slot b.slots h) { released = true }
released_slot h b l =
    ap (λ (t : List TfSlot). slot t h) (slots-release h b) ∙ slot-put_slot b.slots h _ l

pub inputs_of-release : (s : TfSlot) → inputs_of (record s { released = true }) ≡ inputs_of s
unfolding inputs_of
inputs_of-release s = refl

pub blanked-IsCounted :
    (t : List TfSlot) (h : ℕ)
    → IsCounted [] t
    → InUse t h
    → (slot t h).refs ≡ 0
    → IsCounted (inputs_of (slot t h)) (put_slot t h blank_slot)
blanked-IsCounted t h c u r =
    put_slot-IsCounted [] (inputs_of (slot t h)) t h blank_slot c u.not_zero u.inside
      (λ k n. rw inputs_of-blank_slot (omega arith))
      (rw inputs_of-blank_slot (let a = c.counted h in omega (arith, a, r))) blank_slot-IsTidy

pub really_free-Unreffed :
    (h : ℕ) (b : Backend)
    → IsCounted [] b.slots
    → InUse b.slots h
    → (slot b.slots h).refs ≡ 0
    → Unreffed (put_slot b.slots h blank_slot) (really_free h (release h b))
unfolding really_free
really_free-Unreffed h b c u r = unref-Unreffed _ _ _ (cleared_slots h b) (
    rw (released_slot h b u.inside, inputs_of-release (slot b.slots h))
      (blanked-IsCounted b.slots h c u r))

pub gone-Freed :
    {r : Option Backend} (h : ℕ) (b : Backend)
    → tfb_exists b.slots h ≡ true
    → InUse b.slots h
    → Unreffed (put_slot b.slots h blank_slot) r
    → Steady b.cursor r
    → Freed h b (elim r [ none ↦ none | some c ↦ some (c, true) ])
gone-Freed h b e u (unreffed c i v) (steady _ q) =
    freed c e q i
      (gone-exists c.slots h
        (v h ∙ view-put_slot_gone b.slots h blank_slot u.inside face-blank_slot))
      (λ k n. v k ∙ view-put_other b.slots h k blank_slot n)

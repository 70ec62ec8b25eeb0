-- ===== src/Tensor/Freeing/Storing.antt =====
-- Storing a slot in the table of modules/tensorflow/backend.c: what it has to count, and what the
-- program sees of it.
use cocolog.Prelude.{
  ℕ, zero, suc, ◌+◌, ◌<◌, ◌≡◌, ◌≢◌, refl, sym, ap, ◌∙◌, Bool, true, false, ◌&&◌, not, Option, none,
  some, List, [], ◌∷◌, length, if◌then◌else◌, arith, inl, inr, eq_cases, ltb, ltb-true,
}
use cocolog.Tensor.Slots.{TfSlot, slot, put_slot, is_free, live, tfb_exists, tf_slots}
use cocolog.Tensor.Freeing.{inputs_of, with_refs}
use cocolog.Tensor.Freeing.Counting.{
  occurs, uses, length-put_slot, slot-put_slot, slot-put_other, uses-put_slot, IsTidy, IsCounted,
}

pub put-put :
    (t : List TfSlot) (h : ℕ) (a b : TfSlot) → put_slot (put_slot t h a) h b ≡ put_slot t h b
put-put [] h a b = refl
put-put (x ∷ t) zero a b = refl
put-put (x ∷ t) (suc h) a b = ap (λ (l : List TfSlot). x ∷ l) (put-put t h a b)

-- A slot with references is in use, and its handle is one that the program can have.
pub record InUse (t : List TfSlot) (h : ℕ) : Type 0 where
  pub not_zero : 0 < h
  pub inside : h < length t
  pub taken_up : is_free (slot t h).kind ≡ false

tidy_in_use : (s : TfSlot) → IsTidy s → 0 < s.refs → is_free s.kind ≡ false
unfolding IsTidy
tidy_in_use s t r = ground arith

not_reserved :
    {P : List ℕ} (t : List TfSlot) (h : ℕ) → IsCounted P t → is_free (slot t h).kind ≡ false → 0 < h
not_reserved t zero c f = absurd (cc c.reserved)
not_reserved t (suc h) c f = omega arith

refs_inside : (t : List TfSlot) (h : ℕ) → 0 < (slot t h).refs → h < length t
refs_inside [] h r = absurd (omega (arith, r))
refs_inside (x ∷ t) zero r = omega arith
refs_inside (x ∷ t) (suc h) r = let l = refs_inside t h r in omega (arith, l)

pub InUse-refs :
    {P : List ℕ} (t : List TfSlot) (h : ℕ) → IsCounted P t → 0 < (slot t h).refs → InUse t h
InUse-refs t h c r =
    let f = tidy_in_use (slot t h) (c.tidy h) r in
    record { not_zero = not_reserved t h c f; inside = refs_inside t h r; taken_up = f }

pub live-InUse :
    {P : List ℕ} (t : List TfSlot) (h : ℕ) → IsCounted P t → InUse t h → live t h ≡ true
unfolding live
live-InUse t h c u =
    rw (ltb-true 0 h u.not_zero, ltb-true h tf_slots (omega (arith, u.inside, c.whole)), u.taken_up)
      refl

-- Storing a slot, with what it has to count.
pub put_slot-IsCounted :
    (P Q : List ℕ) (t : List TfSlot) (h : ℕ) (s : TfSlot)
    → IsCounted P t
    → 0 < h
    → h < length t
    → ((k : ℕ)
        → k ≢ h
        → occurs k (inputs_of s) + occurs k Q ≡ occurs k (inputs_of (slot t h)) + occurs k P)
    → s.refs + occurs h (inputs_of (slot t h)) ≡ uses h t + occurs h (inputs_of s) + occurs h Q
    → IsTidy s
    → IsCounted Q (put_slot t h s)
put_slot-IsCounted P Q t h s c z l e r d = record {
  whole = length-put_slot t h s ∙ c.whole;
  reserved =
      ap (λ (x : TfSlot). is_free x.kind) (slot-put_other t h 0 s (omega arith)) ∙ c.reserved;
  counted = λ k. elim (eq_cases k h) [
    | inl same ↦ rw same (
        ap (λ (x : TfSlot). x.refs) (slot-put_slot t h s l)
        ∙ omega (arith, uses-put_slot t h h s l, r))
    | inr other ↦
        ap (λ (x : TfSlot). x.refs) (slot-put_other t h k s other)
        ∙ omega (arith, c.counted k, uses-put_slot t h k s l, e k other)
  ];
  tidy = λ k. elim (eq_cases k h) [
    | inl same ↦ rw (same, slot-put_slot t h s l) d
    | inr other ↦ rw (slot-put_other t h k s other) (c.tidy k)
  ];
}

-- What the program sees of a handle: the whole slot but its count, while it names it.
unfoldable pub view : List TfSlot → ℕ → Option TfSlot
view t h = if tfb_exists t h then some (with_refs 0 (slot t h)) else none

-- A new slot in the place of an old one is not seen, if the two look the same.
unfoldable pub face : TfSlot → Option TfSlot
face s = if not (is_free s.kind) && not s.released then some (with_refs 0 s) else none

inner_if :
    (a b c d : Bool) (x : TfSlot)
    → (if a && (b && (c && d)) then some x else none)
      ≡ (if a && b then (if c && d then some x else none) else none)
inner_if true true c d x = refl
inner_if true false c d x = refl
inner_if false b c d x = refl

pub view-face :
    (t : List TfSlot) (h : ℕ)
    → view t h ≡ (if ltb 0 h && ltb h tf_slots then face (slot t h) else none)
unfolding view face tfb_exists
view-face t h =
    inner_if (ltb 0 h) (ltb h tf_slots) (not (is_free (slot t h).kind)) (not (slot t h).released)
      (with_refs 0 (slot t h))

face-put_slot :
    (t : List TfSlot) (h k : ℕ) (s : TfSlot)
    → face s ≡ face (slot t h)
    → face (slot (put_slot t h s) k) ≡ face (slot t k)
face-put_slot [] h k s e = refl
face-put_slot (x ∷ t) zero zero s e = e
face-put_slot (x ∷ t) zero (suc k) s e = refl
face-put_slot (x ∷ t) (suc h) zero s e = refl
face-put_slot (x ∷ t) (suc h) (suc k) s e = face-put_slot t h k s e

pub view-put_slot :
    (t : List TfSlot) (h k : ℕ) (s : TfSlot)
    → face s ≡ face (slot t h)
    → view (put_slot t h s) k ≡ view t k
view-put_slot t h k s e =
    view-face (put_slot t h s) k
    ∙ ap (λ (o : Option TfSlot). if ltb 0 k && ltb k tf_slots then o else none)
        (face-put_slot t h k s e)
    ∙ sym (view-face t k)

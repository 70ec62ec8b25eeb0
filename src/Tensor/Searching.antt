-- ===== src/Tensor/Searching.antt =====
-- `slot_new` of modules/tensorflow/backend.c: it finds a free slot whenever there is one.
use cocolog.Prelude.{
  ℕ, zero, suc, ◌+◌, ◌<◌, ◌≡◌, ◌≢◌, refl, sym, ap, ◌∙◌, Bool, true, false, Option, none, some, List,
  if◌then◌else◌, arith, inl, inr, Bool-cases, eq_cases, ltb,
}
use cocolog.Tensor.Slots.{
  TfSlot, blank_slot, Backend, slot, put_slot, is_free, tf_slots, with_slots, slot_new, search_free,
  next_cursor, fail_with,
}

-- The cursor is at a slot that a handle can name.
pub record IsInRange (c : ℕ) : Type 0 where
  pub above : 0 < c
  pub below : c < tf_slots

next_cursor-IsInRange : (c : ℕ) → IsInRange (next_cursor c)
unfolding next_cursor
next_cursor-IsInRange c = record { above = ground arith; below = ground arith }

-- A free slot is taken and blank, or there is none.
pub data Searched (b : Backend) : Option ℕ × Backend → Type 0 where
  found :
      (i : ℕ) (c : Backend)
      → IsInRange i
      → is_free (slot b.slots i).kind ≡ true
      → c.slots ≡ put_slot b.slots i blank_slot
      → IsInRange c.cursor
      → Searched b (some i, c)
  full :
      (c : Backend)
      → c.slots ≡ b.slots
      → IsInRange c.cursor
      → ((k : ℕ) → 0 < k → k < tf_slots → is_free (slot b.slots k).kind ≡ false)
      → Searched b (none, c)

-- The same, of the slots that `n` rounds from the cursor look at.
unfoldable ahead_of : ℕ → ℕ → ℕ
ahead_of c k = if ltb k c then k + 65535 else k

data SearchedFor (n : ℕ) (b : Backend) : Option ℕ × Backend → Type 0 where
  found_in :
      (i : ℕ) (c : Backend)
      → IsInRange i
      → is_free (slot b.slots i).kind ≡ true
      → c.slots ≡ put_slot b.slots i blank_slot
      → IsInRange c.cursor
      → SearchedFor n b (some i, c)
  none_in :
      (c : Backend)
      → c.slots ≡ b.slots
      → IsInRange c.cursor
      → ((k : ℕ)
          → 0 < k
          → k < tf_slots
          → ahead_of b.cursor k < b.cursor + n
          → is_free (slot b.slots k).kind ≡ false)
      → SearchedFor n b (none, c)

ahead_of-step :
    (c k n : ℕ)
    → k ≢ c
    → IsInRange c
    → 0 < k
    → k < tf_slots
    → ahead_of c k < c + suc n
    → ahead_of (next_cursor c) k < next_cursor c + n
unfolding ahead_of next_cursor
ahead_of-step c k n o r z l a = let p = r.above in let q = r.below in ground (arith, p, q)

-- The next round, from the cursor that follows.
SearchedFor-step :
    {r : Option ℕ × Backend} (n : ℕ) (b c : Backend)
    → IsInRange b.cursor
    → c.slots ≡ b.slots
    → c.cursor ≡ next_cursor b.cursor
    → is_free (slot b.slots b.cursor).kind ≡ false
    → SearchedFor n c r
    → SearchedFor (suc n) b r
SearchedFor-step n b c i e q f (found_in h d r g s m) =
    found_in h d r (ap (λ (t : List TfSlot). is_free (slot t h).kind) (sym e) ∙ g)
      (s ∙ ap (λ (t : List TfSlot). put_slot t h blank_slot) e) m
SearchedFor-step n b c i e q f (none_in d s m g) = none_in d (s ∙ e) m (λ k z l a.
    elim (eq_cases k b.cursor) [
      | inl same ↦ rw same f
      | inr other ↦
          ap (λ (t : List TfSlot). is_free (slot t k).kind) (sym e)
          ∙ g k z l (rw q (ahead_of-step b.cursor k n other i z l a))
    ])

unfoldable moved_on : Backend → Backend
moved_on b = record b { cursor = next_cursor b.cursor }

slots-moved_on : (b : Backend) → (moved_on b).slots ≡ b.slots
unfolding moved_on
slots-moved_on b = refl

cursor-moved_on : (b : Backend) → (moved_on b).cursor ≡ next_cursor b.cursor
unfolding moved_on
cursor-moved_on b = refl

search_free-step :
    (n : ℕ) (b : Backend)
    → search_free (suc n) b ≡ (
        if is_free (slot b.slots b.cursor).kind
        then (some b.cursor, with_slots (put_slot b.slots b.cursor blank_slot) (moved_on b))
        else search_free n (moved_on b))
unfolding search_free moved_on
search_free-step n b = refl

fields-with_slots :
    (t : List TfSlot) (b : Backend)
    → ((with_slots t b).slots ≡ t) × ((with_slots t b).cursor ≡ b.cursor)
unfolding with_slots
fields-with_slots t b = (refl, refl)

nothing_ahead : (c k : ℕ) (f : Bool) → c < tf_slots → ahead_of c k < c + 0 → f ≡ false
unfolding ahead_of
nothing_ahead c k f l a = absurd (ground (arith, l, a))

none_failed : (b : Backend) → IsInRange b.cursor → SearchedFor 0 b (search_free 0 b)
unfolding search_free fail_with
none_failed b i = none_in _ refl i (λ k z l a. nothing_ahead b.cursor k _ i.below a)

search_free-SearchedFor :
    (n : ℕ) (b : Backend) → IsInRange b.cursor → SearchedFor n b (search_free n b)
search_free-SearchedFor zero b i = none_failed b i
search_free-SearchedFor (suc n) b i =
    rw (search_free-step n b) (elim (Bool-cases (is_free (slot b.slots b.cursor).kind)) [
      | inl g ↦
          let f = fields-with_slots (put_slot b.slots b.cursor blank_slot) (moved_on b) in
          rw g (
            found_in b.cursor _ i g f.0
              (rw (f.1, cursor-moved_on b) (next_cursor-IsInRange b.cursor)))
      | inr g ↦ rw g (
          SearchedFor-step n b (moved_on b) i (slots-moved_on b) (cursor-moved_on b) g (
            search_free-SearchedFor n (moved_on b)
              (rw (cursor-moved_on b) (next_cursor-IsInRange b.cursor))))
    ])

whole_round : (c k : ℕ) → IsInRange c → 0 < k → k < tf_slots → ahead_of c k < c + 65535
unfolding ahead_of
whole_round c k i z l = let p = i.above in let q = i.below in ground (arith, p, q)

-- The search answers a free slot, blank now, and leaves every other as it was; it fails only when no
-- slot is free, wherever the cursor stands.
pub slot_new-Searched : (b : Backend) → IsInRange b.cursor → Searched b (slot_new b)
unfolding slot_new
slot_new-Searched b i = whole (search_free-SearchedFor 65535 b i)
  where
    whole : {r : Option ℕ × Backend} → SearchedFor 65535 b r → Searched b r
    whole (found_in h c r g s m) = found h c r g s m
    whole (none_in c s m g) = full c s m (λ k z l. g k z l (whole_round b.cursor k i z l))

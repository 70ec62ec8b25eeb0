-- ===== src/Tensor/Freeing/Counting.antt =====
-- The references of the slot table: every slot counts the nodes that read it.
use cocolog.Prelude.{
  ℕ, zero, suc, ◌+◌, ◌<◌, ◌≡◌, ◌≢◌, refl, ap, true, false, ◌&&◌, not, List, [], ◌∷◌, ◌++◌, length,
  ◌==◌, if◌then◌else◌, arith,
}
use cocolog.Tensor.Slots.{
  TfSlot, blank_slot, slot, put_slot, is_free, is_node, tf_slots, empty_slots,
}
use cocolog.Tensor.Freeing.{inputs_of, reads}

-- How often `h` is in a list, and how often the nodes of a table read it.
abbrev pub occurs : ℕ → List ℕ → ℕ
occurs h [] = 0
occurs h (x ∷ xs) = (if x == h then 1 else 0) + occurs h xs

pub occurs-append : (h : ℕ) (xs ys : List ℕ) → occurs h (xs ++ ys) ≡ occurs h xs + occurs h ys
occurs-append h [] ys = omega arith
occurs-append h (x ∷ xs) ys = omega (arith, occurs-append h xs ys)

abbrev pub uses : ℕ → List TfSlot → ℕ
uses h [] = 0
uses h (s ∷ t) = occurs h (inputs_of s) + uses h t

pub length-put_slot : (t : List TfSlot) (h : ℕ) (s : TfSlot) → length (put_slot t h s) ≡ length t
length-put_slot [] h s = refl
length-put_slot (x ∷ t) zero s = refl
length-put_slot (x ∷ t) (suc h) s = ap suc (length-put_slot t h s)

pub slot-put_slot :
    (t : List TfSlot) (h : ℕ) (s : TfSlot) → h < length t → slot (put_slot t h s) h ≡ s
slot-put_slot [] h s l = absurd (omega arith)
slot-put_slot (x ∷ t) zero s l = refl
slot-put_slot (x ∷ t) (suc h) s l = slot-put_slot t h s (omega arith)

pub slot-put_other :
    (t : List TfSlot) (h k : ℕ) (s : TfSlot) → k ≢ h → slot (put_slot t h s) k ≡ slot t k
slot-put_other [] h k s n = refl
slot-put_other (x ∷ t) zero zero s n = absurd (n refl)
slot-put_other (x ∷ t) zero (suc k) s n = refl
slot-put_other (x ∷ t) (suc h) zero s n = refl
slot-put_other (x ∷ t) (suc h) (suc k) s n = slot-put_other t h k s (omega arith)

-- What a new slot in the place of an old one changes.
pub uses-put_slot :
    (t : List TfSlot) (h k : ℕ) (s : TfSlot)
    → h < length t
    → uses k (put_slot t h s) + occurs k (inputs_of (slot t h)) ≡ uses k t + occurs k (inputs_of s)
uses-put_slot [] h k s l = absurd (omega arith)
uses-put_slot (x ∷ t) zero k s l = omega arith
uses-put_slot (x ∷ t) (suc h) k s l = omega (arith, uses-put_slot t h k s (omega arith))

pub reads-put_slot :
    (t : List TfSlot) (h : ℕ) (s : TfSlot)
    → h < length t
    → reads (put_slot t h s) + length (inputs_of (slot t h)) ≡ reads t + length (inputs_of s)
unfolding reads
reads-put_slot [] h s l = absurd (omega arith)
reads-put_slot (x ∷ t) zero s l = omega arith
reads-put_slot (x ∷ t) (suc h) s l = omega (arith, reads-put_slot t h s (omega arith))

-- Of a slot: nothing is counted while it is free, and it is not both released and unread.
unfoldable pub IsTidy : TfSlot → Type 0
IsTidy s =
    ((if is_free s.kind then s.refs else 0) ≡ 0)
    × ((not (is_free s.kind) && (s.released && (s.refs == 0))) ≡ false)

-- The table with the calls of `unref` that are still to be made. `refs` counts the reads of each
-- slot and those calls, so what a node reads, or a call names, is in use; and what is released goes
-- when nothing reads it.
pub record IsCounted (pending : List ℕ) (t : List TfSlot) : Type 0 where
  pub whole : length t ≡ tf_slots
  pub reserved : is_free (slot t 0).kind ≡ true
  pub counted : (h : ℕ) → (slot t h).refs ≡ uses h t + occurs h pending
  pub tidy : (h : ℕ) → IsTidy (slot t h)

pub slot-empty_slots : (n h : ℕ) → slot (empty_slots n) h ≡ blank_slot
unfolding empty_slots
slot-empty_slots zero h = refl
slot-empty_slots (suc n) zero = refl
slot-empty_slots (suc n) (suc h) = slot-empty_slots n h

uses-empty_slots : (h n : ℕ) → uses h (empty_slots n) ≡ 0
unfolding empty_slots inputs_of is_node
uses-empty_slots h zero = refl
uses-empty_slots h (suc n) = let a = uses-empty_slots h n in omega (arith, a)

length-empty_slots : (n : ℕ) → length (empty_slots n) ≡ n
unfolding empty_slots
length-empty_slots zero = refl
length-empty_slots (suc n) = ap suc (length-empty_slots n)

empty_reserved : is_free (slot (empty_slots tf_slots) 0).kind ≡ true
unfolding is_free
empty_reserved = rw (slot-empty_slots tf_slots 0) refl

empty-IsTidy : (h : ℕ) → IsTidy (slot (empty_slots tf_slots) h)
unfolding IsTidy is_free
empty-IsTidy h = rw (slot-empty_slots tf_slots h) (refl, refl)

empty_counted :
    (h : ℕ) → (slot (empty_slots tf_slots) h).refs ≡ uses h (empty_slots tf_slots) + occurs h []
empty_counted h = rw (slot-empty_slots tf_slots h, uses-empty_slots h tf_slots) refl

pub empty_slots-IsCounted : IsCounted [] (empty_slots tf_slots)
empty_slots-IsCounted = record {
  whole = length-empty_slots tf_slots;
  reserved = empty_reserved;
  counted = empty_counted;
  tidy = empty-IsTidy;
}

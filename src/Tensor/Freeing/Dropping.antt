-- ===== src/Tensor/Freeing/Dropping.antt =====
-- `drop_structure` of modules/tensorflow/backend.c: what it does to the table, and what the program
-- sees.
use cocolog.Prelude.{ℕ, ◌≡◌, refl, Bool, true, false, ◌&&◌, not, List, [], arith}
use cocolog.Tensor.Slots.{TfSlot, Backend, slot, put_slot, is_free, is_node, tfb_exists, with_slots}
use cocolog.Tensor.Freeing.{inputs_of, drop_structure, as_value}
use cocolog.Tensor.Freeing.Counting.{IsTidy, IsCounted}
use cocolog.Tensor.Freeing.Storing.{InUse, put_slot-IsCounted}
use cocolog.Tensor.Freeing.Unref.{Unreffed}
use cocolog.Tensor.Freeing.Leaving.{exists-InUse, unref-Unreffed}

open_and : (a b : Bool) → a ≡ false → (not a && b) ≡ false → b ≡ false
open_and true b e h = absurd cc
open_and false b e h = h

valued-IsTidy : (s : TfSlot) → IsTidy s → is_free s.kind ≡ false → IsTidy (as_value s)
unfolding IsTidy as_value is_free
valued-IsTidy s t f = (refl, open_and (is_free s.kind) _ f t.1)

inputs_of-as_value : (s : TfSlot) → inputs_of (as_value s) ≡ []
unfolding inputs_of is_node as_value
inputs_of-as_value s = refl

as_value-refs : (s : TfSlot) → (as_value s).refs ≡ s.refs
unfolding as_value
as_value-refs s = refl

valued-IsCounted :
    (t : List TfSlot) (h : ℕ)
    → IsCounted [] t
    → InUse t h
    → IsCounted (inputs_of (slot t h)) (put_slot t h (as_value (slot t h)))
valued-IsCounted t h c u =
    let e = inputs_of-as_value (slot t h) in
    put_slot-IsCounted [] (inputs_of (slot t h)) t h (as_value (slot t h)) c u.not_zero u.inside
      (λ k n. rw e (omega arith))
      (let a = c.counted h in rw (e, as_value-refs (slot t h)) (omega (arith, a)))
      (valued-IsTidy (slot t h) (c.tidy h) u.taken_up)

slots-with_slots : (t : List TfSlot) (b : Backend) → (with_slots t b).slots ≡ t
unfolding with_slots
slots-with_slots t b = refl

pub drop_structure-Unreffed :
    (h : ℕ) (b : Backend)
    → IsCounted [] b.slots
    → tfb_exists b.slots h ≡ true
    → is_node (slot b.slots h).kind ≡ true
    → Unreffed (put_slot b.slots h (as_value (slot b.slots h))) (drop_structure h b)
unfolding drop_structure
drop_structure-Unreffed h b i e n = rw n (
    unref-Unreffed _ _ _ (slots-with_slots _ b)
      (valued-IsCounted b.slots h i (exists-InUse b.slots h i.whole e)))

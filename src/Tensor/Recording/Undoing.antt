-- ===== src/Tensor/Recording/Undoing.antt =====
-- `unref` of handles that all exist, in modules/tensorflow/backend.c: nothing is freed.
use cocolog.Prelude.{
  ℕ, zero, suc, ◌-◌, ◌≤◌, ◌<◌, ◌≡◌, refl, sym, ap, ◌∙◌, Bool, true, false, ◌&&◌, Option, some, List,
  [], ◌∷◌, length, ◌==◌, if◌then◌else◌, arith, eq_self, eq_other, ltb-true,
}
use cocolog.Tensor.Slots.{with_slots, TfSlot, Backend, slot, put_slot, live, tfb_exists, tf_slots}
use cocolog.Tensor.Freeing.{with_refs, drop_ref, is_over, unref_all}
use cocolog.Tensor.Freeing.Counting.{occurs, length-put_slot}
use cocolog.Tensor.Recording.{all_exist}
use cocolog.Tensor.Recording.References.{all_below, slot-put_slot_refs, again, with_refs_self}
use cocolog.Tensor.Freeing.Unref.{unref_all-step, slots-drop_ref}

kind-put_slot :
    (t : List TfSlot) (h k n : ℕ)
    → (slot (put_slot t h (with_refs n (slot t h))) k).kind ≡ (slot t k).kind
unfolding with_refs
kind-put_slot [] h k n = refl
kind-put_slot (x ∷ t) zero zero n = refl
kind-put_slot (x ∷ t) zero (suc k) n = refl
kind-put_slot (x ∷ t) (suc h) zero n = refl
kind-put_slot (x ∷ t) (suc h) (suc k) n = kind-put_slot t h k n

released-put_slot :
    (t : List TfSlot) (h k n : ℕ)
    → (slot (put_slot t h (with_refs n (slot t h))) k).released ≡ (slot t k).released
unfolding with_refs
released-put_slot [] h k n = refl
released-put_slot (x ∷ t) zero zero n = refl
released-put_slot (x ∷ t) zero (suc k) n = refl
released-put_slot (x ∷ t) (suc h) zero n = refl
released-put_slot (x ∷ t) (suc h) (suc k) n = released-put_slot t h k n

-- The count of a slot is not what makes a handle exist.
pub all_exist-put_slot :
    (t : List TfSlot) (h n : ℕ) (xs : List ℕ)
    → all_exist (put_slot t h (with_refs n (slot t h))) xs ≡ all_exist t xs
unfolding all_exist tfb_exists
all_exist-put_slot t h n [] = refl
all_exist-put_slot t h n (x ∷ xs) =
    rw (kind-put_slot t h x n, released-put_slot t h x n, all_exist-put_slot t h n xs) refl

pub exists_head :
    (t : List TfSlot) (x : ℕ) (xs : List ℕ) → all_exist t (x ∷ xs) ≡ true → tfb_exists t x ≡ true
unfolding all_exist
exists_head t x xs e = and_left (tfb_exists t x) (all_exist t xs) e
  where
    and_left : (a c : Bool) → (a && c) ≡ true → a ≡ true
    and_left true c q = refl
    and_left false c q = absurd cc

pub exists_tail :
    (t : List TfSlot) (x : ℕ) (xs : List ℕ) → all_exist t (x ∷ xs) ≡ true → all_exist t xs ≡ true
unfolding all_exist
exists_tail t x xs e = and_right (tfb_exists t x) (all_exist t xs) e
  where
    and_right : (a c : Bool) → (a && c) ≡ true → c ≡ true
    and_right true c q = q
    and_right false c q = absurd cc

pub exists-live : (t : List TfSlot) (h : ℕ) → tfb_exists t h ≡ true → live t h ≡ true
unfolding tfb_exists live
exists-live t h e = ground arith

pub exists_below : (t : List TfSlot) (h : ℕ) → tfb_exists t h ≡ true → h < tf_slots
unfolding tfb_exists
exists_below t h e = ground arith

pub all_exist_below :
    (t : List TfSlot) (xs : List ℕ) → all_exist t xs ≡ true → all_below tf_slots xs ≡ true
all_exist_below t [] e = refl
all_exist_below t (x ∷ xs) e =
    rw
      (
        ltb-true x tf_slots (exists_below t x (exists_head t x xs e)),
        all_exist_below t xs (exists_tail t x xs e),
      )
      refl

not_over :
    (t : List TfSlot) (h n : ℕ)
    → h < length t
    → tfb_exists t h ≡ true
    → is_over (slot (put_slot t h (with_refs n (slot t h))) h) ≡ false
unfolding is_over tfb_exists
not_over t h n l e = rw (released-put_slot t h h n) ground (arith, e)

-- The references are let go of, and nothing else.
pub data LetGo (xs : List ℕ) (n : ℕ) (t : List TfSlot) : Option Backend → Type 0 where
  went :
      (c : Backend)
      → c.cursor ≡ n
      → length c.slots ≡ length t
      → ((k : ℕ) → slot c.slots k ≡ with_refs ((slot t k).refs - occurs k xs) (slot t k))
      → LetGo xs n t (some c)

LetGo-step :
    {r : Option Backend} {n : ℕ} (x : ℕ) (xs : List ℕ) (t : List TfSlot)
    → x < length t
    → LetGo xs n (put_slot t x (with_refs ((slot t x).refs - 1) (slot t x))) r
    → LetGo (x ∷ xs) n t r
LetGo-step x xs t l (went c q n s) = went c q (n ∙ length-put_slot t x _) (λ k.
    s k
    ∙ again (λ r. r - occurs k xs) ((slot t k).refs - (if x == k then 1 else 0)) _ (slot t k) _
        (slot-put_slot_refs t x k _ _ l (λ e. rw (e, eq_self k) refl)
          (λ o. rw (eq_other x k o) (omega arith)))
        (omega arith))

pub LetGo-at :
    {r : Option Backend} {xs : List ℕ} {m n : ℕ} {t u : List TfSlot}
    → m ≡ n
    → u ≡ t
    → LetGo xs m u r
    → LetGo xs n t r
LetGo-at e d g = rw (sym e, sym d) g

cursor-drop_ref : (h : ℕ) (b : Backend) → (drop_ref h b).cursor ≡ b.cursor
unfolding drop_ref with_slots
cursor-drop_ref h b = refl

pub unref_all-LetGo :
    (fuel : ℕ) (xs : List ℕ) (b : Backend)
    → length xs ≤ fuel
    → length b.slots ≡ tf_slots
    → all_exist b.slots xs ≡ true
    → LetGo xs b.cursor b.slots (unref_all fuel xs b)
unfolding unref_all
unref_all-LetGo fuel [] b l w e = went b refl refl (λ k.
    sym (
      ap (λ (n : ℕ). with_refs n (slot b.slots k)) (omega arith) ∙ with_refs_self (slot b.slots k)))
unref_all-LetGo zero (x ∷ xs) b l w e = absurd (omega (arith, l))
unref_all-LetGo (suc fuel) (x ∷ xs) b l w e =
    let head = exists_head b.slots x xs e in
    let below = exists_below b.slots x head in
    let here : x < length b.slots = omega (arith, below, w) in
    let kept = not_over b.slots x ((slot b.slots x).refs - 1) here head in
    let d = slots-drop_ref x b in
    let go_on =
      unref_all-LetGo fuel xs (drop_ref x b) (omega (arith, l))
        (rw d (length-put_slot b.slots x _ ∙ w))
        (rw d (all_exist-put_slot b.slots x _ xs ∙ exists_tail b.slots x xs e)) in
    rw
      (
        unref_all-step fuel x xs b (exists-live b.slots x head),
        ap (λ (t : List TfSlot). is_over (slot t x)) d ∙ kept,
      )
      (LetGo-step x xs b.slots here (LetGo-at (cursor-drop_ref x b) d go_on))

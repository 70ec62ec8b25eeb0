-- ===== src/Tensor/Recording/Nodes.antt =====
-- A new node in the table of modules/tensorflow/backend.c: the count after it.
use cocolog.Prelude.{
  ℕ, ◌+◌, ◌<◌, ◌≡◌, refl, sym, ap, ◌∙◌, Bool, true, false, ◌&&◌, not, List, [], ◌∷◌, length, ◌==◌,
  arith, inl, inr, Bool-cases, eq_other, eq_cases,
}
use cocolog.Tensor.Slots.{TfSlot, blank_slot, slot, put_slot, is_free, tfb_exists}
use cocolog.Tensor.Freeing.{inputs_of, with_refs}
use cocolog.Tensor.Freeing.Counting.{
  occurs, uses, length-put_slot, slot-put_slot, slot-put_other, uses-put_slot, IsTidy, IsCounted,
}
use cocolog.Tensor.Freeing.Unref.{inputs_of-blank_slot}
use cocolog.Tensor.Recording.{all_exist}
use cocolog.Tensor.Recording.References.{Alike, Alike-IsTidy, uses-pointwise}
use cocolog.Tensor.Recording.Undoing.{exists_head, exists_tail}

IsTidy-more :
    (s : TfSlot) (n : ℕ)
    → IsTidy s
    → (is_free s.kind ≡ true → n ≡ 0)
    → IsTidy (with_refs (s.refs + n) s)
unfolding IsTidy with_refs
IsTidy-more s n t f = elim (Bool-cases (is_free s.kind)) [
  | inl g ↦ rw (f g) (let a = t in rw (more s.refs) a)
  | inr g ↦ rw g (refl, more_false s.released s.refs n (open_and (is_free s.kind) _ g t.1))
]
  where
    more : (r : ℕ) → r + 0 ≡ r
    more r = omega arith

    more_false : (b : Bool) (r n : ℕ) → (b && (r == 0)) ≡ false → (b && (r + n == 0)) ≡ false
    more_false b r n e = ground (arith, e)

    open_and : (a b : Bool) → a ≡ false → (not a && b) ≡ false → b ≡ false
    open_and true b e h = absurd cc
    open_and false b e h = h

exists-taken : (t : List TfSlot) (h : ℕ) → tfb_exists t h ≡ true → is_free (slot t h).kind ≡ false
unfolding tfb_exists
exists-taken t h e = ground arith

occurs-free :
    (t : List TfSlot) (k : ℕ) (xs : List ℕ)
    → all_exist t xs ≡ true
    → is_free (slot t k).kind ≡ true
    → occurs k xs ≡ 0
occurs-free t k [] e f = refl
occurs-free t k (x ∷ xs) e f = elim (eq_cases x k) [
  | inl same ↦
      let g =
        ap (λ (j : ℕ). is_free (slot t j).kind) (sym same)
        ∙ exists-taken t x (exists_head t x xs e) in
      absurd cc
  | inr other ↦
      rw (eq_other x k other)
        (let a = occurs-free t k xs (exists_tail t x xs e) f in omega (arith, a))
]

-- The table `u` has the references `xs` more than `t`.
pub record Added (xs : List ℕ) (t u : List TfSlot) : Type 0 where
  pub same_length : length u ≡ length t
  pub alike : (k : ℕ) → Alike (with_refs ((slot t k).refs + occurs k xs) (slot t k)) (slot u k)

inputs_of-with_refs : (n : ℕ) (s : TfSlot) → inputs_of (with_refs n s) ≡ inputs_of s
unfolding inputs_of with_refs
inputs_of-with_refs n s = refl

refs-with_refs : (n : ℕ) (s : TfSlot) → (with_refs n s).refs ≡ n
unfolding with_refs
refs-with_refs n s = refl

kind-with_refs : (n : ℕ) (s : TfSlot) → (with_refs n s).kind ≡ s.kind
unfolding with_refs
kind-with_refs n s = refl

uses-Added : (xs : List ℕ) (t u : List TfSlot) (h : ℕ) → Added xs t u → uses h u ≡ uses h t
uses-Added xs t u h a =
    uses-pointwise h t u a.same_length
      (λ k. (a.alike k).same_inputs ∙ inputs_of-with_refs _ (slot t k))

-- A blank slot that becomes a node of no references yet.
pub record IsNew (xs : List ℕ) (n : TfSlot) : Type 0 where
  pub reads_them : inputs_of n ≡ xs
  pub unread : n.refs ≡ 0
  pub unreleased : n.released ≡ false
  pub in_use : is_free n.kind ≡ false

IsNew-IsTidy : (xs : List ℕ) (n : TfSlot) → IsNew xs n → IsTidy n
unfolding IsTidy
IsNew-IsTidy xs n i = rw (i.unreleased, i.in_use) (refl, refl)

node_counted :
    (t u : List TfSlot) (h k : ℕ) (xs : List ℕ) (n : TfSlot)
    → IsCounted [] t
    → slot t h ≡ blank_slot
    → h < length t
    → IsNew xs n
    → Added xs (put_slot t h n) u
    → (slot u k).refs ≡ uses k u + occurs k []
node_counted t u h k xs n c b l i a =
    let r = (a.alike k).same_refs ∙ refs-with_refs _ (slot (put_slot t h n) k) in
    let v = uses-Added xs (put_slot t h n) u k a in
    let p = uses-put_slot t h k n l in
    let q = ap (λ (ys : List ℕ). occurs k ys) i.reads_them in
    let z =
      ap (λ (s : TfSlot). occurs k (inputs_of s)) b
      ∙ ap (λ (ys : List ℕ). occurs k ys) inputs_of-blank_slot in
    let d = c.counted k in omega (arith, r, v, p, q, z, d, same_refs)
  where
    same_refs : (slot (put_slot t h n) k).refs ≡ (slot t k).refs
    same_refs = elim (eq_cases k h) [
      | inl same ↦ rw same (
          ap (λ (s : TfSlot). s.refs) (slot-put_slot t h n l)
          ∙ i.unread
          ∙ sym (ap (λ (s : TfSlot). s.refs) b))
      | inr other ↦ ap (λ (s : TfSlot). s.refs) (slot-put_other t h k n other)
    ]

node-IsTidy :
    (t u : List TfSlot) (h k : ℕ) (xs : List ℕ) (n : TfSlot)
    → IsCounted [] t
    → all_exist t xs ≡ true
    → h < length t
    → IsNew xs n
    → Added xs (put_slot t h n) u
    → IsTidy (slot u k)
node-IsTidy t u h k xs n c e l i a =
    Alike-IsTidy _ _ (a.alike k)
      (IsTidy-more (slot (put_slot t h n) k) (occurs k xs) tidy_before none_read)
  where
    tidy_before : IsTidy (slot (put_slot t h n) k)
    tidy_before = elim (eq_cases k h) [
      | inl same ↦ rw (same, slot-put_slot t h n l) (IsNew-IsTidy xs n i)
      | inr other ↦ rw (slot-put_other t h k n other) (c.tidy k)
    ]

    none_read : is_free (slot (put_slot t h n) k).kind ≡ true → occurs k xs ≡ 0
    none_read f = elim (eq_cases k h) [
      | inl same ↦
          let g =
            ap (λ (s : TfSlot). is_free s.kind) (sym (slot-put_slot t h n l))
            ∙ ap (λ (j : ℕ). is_free (slot (put_slot t h n) j).kind) (sym same)
            ∙ f in
          let m = i.in_use in absurd cc
      | inr other ↦
          occurs-free t k xs e
            (ap (λ (s : TfSlot). is_free s.kind) (sym (slot-put_other t h k n other)) ∙ f)
    ]

-- A table with a new node, whose references are counted.
pub Added-IsCounted :
    (t u : List TfSlot) (h : ℕ) (xs : List ℕ) (n : TfSlot)
    → IsCounted [] t
    → slot t h ≡ blank_slot
    → 0 < h
    → h < length t
    → all_exist t xs ≡ true
    → IsNew xs n
    → Added xs (put_slot t h n) u
    → IsCounted [] u
Added-IsCounted t u h xs n c b z l e i a = record {
  whole = a.same_length ∙ length-put_slot t h n ∙ c.whole;
  reserved =
      ap is_free ((a.alike 0).same_kind ∙ kind-with_refs _ (slot (put_slot t h n) 0))
      ∙ ap (λ (s : TfSlot). is_free s.kind) (slot-put_other t h 0 n (omega (arith, z)))
      ∙ c.reserved;
  counted = λ k. node_counted t u h k xs n c b l i a;
  tidy = λ k. node-IsTidy t u h k xs n c e l i a;
}

-- ===== src/Tensor/Closing/Growing.antt =====
-- How `visit` of modules/tensorflow/backend.c lets a closure grow, and what is in it after one more.
use cocolog.Prelude.{
  ℕ, ◌≤◌, ◌≢◌, arith, ◌≡◌, refl, sym, ap, ◌∙◌, ◌⊎◌, inl, inr, Bool, true, false, ◌||◌, List, [],
  ◌∷◌, length, ltb, ◌==◌, eq_cases, eq_self, eq_other,
}
use cocolog.Tensor.Slots.{TfSlot, live}
use cocolog.Tensor.Closing.{Closure, Visited, visited, failed, has, mark}
use cocolog.Tensor.Closing.Reaching.{is_in, Reaches, IsDistinct, IsOpen}

-- Why there is no closure: a handle that is reached from `top` is not live, or an array is full of
-- different handles that are reached from it.
pub data Refusal (t : List TfSlot) (top : ℕ) : Type 0 where
  not_live : (x : ℕ) → Reaches t top x → live t x ≡ false → Refusal t top
  full_leaves :
      (xs : List ℕ)
      → IsDistinct xs
      → 4096 ≤ length xs
      → ((x : ℕ) → has x xs ≡ true → Reaches t top x)
      → Refusal t top
  full_nodes :
      (xs : List ℕ)
      → IsDistinct xs
      → 8192 ≤ length xs
      → ((x : ℕ) → has x xs ≡ true → Reaches t top x)
      → Refusal t top

-- The closure grew, and has `hs`.
pub data Grown (t : List TfSlot) (top : ℕ) (pending : ℕ → Type 0) (hs : List ℕ) (c : Closure)
    : Visited → Type 0 where
  grown :
      (d : Closure)
      → IsOpen t top pending d
      → ((x : ℕ) → is_in c x ≡ true → is_in d x ≡ true)
      → ((x : ℕ) → has x hs ≡ true → is_in d x ≡ true)
      → Grown t top pending hs c (visited d)
  stopped : (m : List ℕ) → Refusal t top → Grown t top pending hs c (failed m)

abbrev pub OrSelf : ℕ → (ℕ → Type 0) → ℕ → Type 0
OrSelf h pending x = pending x ⊎ (x ≡ h)

pub has-head : (h : ℕ) (hs : List ℕ) → has h (h ∷ hs) ≡ true
unfolding has
has-head h hs = rw (eq_self h) refl

pub has-tail : (x h : ℕ) (hs : List ℕ) → has x hs ≡ true → has x (h ∷ hs) ≡ true
unfolding has
has-tail x h hs e = rw e (or_true (h == x))
  where
    or_true : (a : Bool) → (a || true) ≡ true
    or_true true = refl
    or_true false = refl

pub has-cases : (x h : ℕ) (hs : List ℕ) → has x (h ∷ hs) ≡ true → (x ≡ h) ⊎ (has x hs ≡ true)
unfolding has
has-cases x h hs e = elim (eq_cases h x) [
  | inl same ↦ inl (sym same)
  | inr other ↦ inr (sym (ap (λ (b : Bool). b || has x hs) (eq_other h x other)) ∙ e)
]

-- What is not marked is not in.
pub unmet : (a : Bool) {b : Bool} → (a ≡ true → b ≡ true) → b ≡ false → a ≡ false
unmet true k e = absurd (both_ways (k refl) e)
  where
    both_ways : {b : Bool} → b ≡ true → b ≡ false → ⊥
    both_ways {b = true} p q = cc
    both_ways {b = false} p q = cc
unmet false k e = refl

pub pending_other :
    (t : List TfSlot) (top : ℕ) (pending : ℕ → Type 0) (h x : ℕ) (c : Closure)
    → IsOpen t top pending c
    → has h c.seen ≡ false
    → pending x
    → x ≢ h
pending_other t top pending h x c o s p e =
    apart (has x c.seen) (o.begun x p) (ap (λ (y : ℕ). has y c.seen) e ∙ s)
  where
    apart : (b : Bool) → b ≡ true → b ≡ false → ⊥
    apart true p q = cc
    apart false p q = cc

pub IsOpen-mark :
    (t : List TfSlot) (top : ℕ) (pending : ℕ → Type 0) (h : ℕ) (c : Closure)
    → has h c.seen ≡ false
    → IsOpen t top pending c
    → IsOpen t top (OrSelf h pending) (mark h c)
unfolding mark is_in
IsOpen-mark t top pending h c s o = record {
  ordered = o.ordered;
  distinct_leaves = o.distinct_leaves;
  distinct_nodes = o.distinct_nodes;
  met = λ x i. has-tail x h c.seen (o.met x i);
  reached = o.reached;
  begun = λ x p. elim p [
    | inl old ↦ has-tail x h c.seen (o.begun x old)
    | inr same ↦ rw same (has-head h c.seen)
  ];
  kept_out = λ x p. elim p [
    | inl old ↦ o.kept_out x old
    | inr same ↦ rw same (unmet (is_in c h) (o.met h) s)
  ];
  marked = λ x m. elim (has-cases x h c.seen m) [
    | inl same ↦ inr (inr same)
    | inr old ↦ elim (o.marked x old) [ inl i ↦ inl i | inr p ↦ inr (inl p) ]
  ];
}

pub or_left : (a b : Bool) → a ≡ true → (a || b) ≡ true
or_left a b e = rw e refl

pub or_right : (a b : Bool) → b ≡ true → (a || b) ≡ true
or_right true b e = refl
or_right false b e = e

pub leaf_more :
    (x h : ℕ) (ls ns : List ℕ) → (has x ls || has x ns) ≡ true → (has x (h ∷ ls) || has x ns) ≡ true
unfolding has
leaf_more x h ls ns e = wider (h == x) (has x ls) (has x ns) e
  where
    wider : (a b c : Bool) → (b || c) ≡ true → ((a || b) || c) ≡ true
    wider true b c e = refl
    wider false b c e = e

pub node_more :
    (x h : ℕ) (ls ns : List ℕ) → (has x ls || has x ns) ≡ true → (has x ls || has x (h ∷ ns)) ≡ true
unfolding has
node_more x h ls ns e = wider (h == x) (has x ls) (has x ns) e
  where
    wider : (a b c : Bool) → (b || c) ≡ true → (b || (a || c)) ≡ true
    wider a true c e = refl
    wider true false c e = refl
    wider false false c e = e

pub or_false : (a b : Bool) → (a || b) ≡ false → (a ≡ false) × (b ≡ false)
or_false true b e = absurd cc
or_false false b e = (refl, e)

pub leaf_cases :
    (x h : ℕ) (ls ns : List ℕ)
    → (has x (h ∷ ls) || has x ns) ≡ true
    → (x ≡ h) ⊎ ((has x ls || has x ns) ≡ true)
unfolding has
leaf_cases x h ls ns e = elim (eq_cases h x) [
  | inl same ↦ inl (sym same)
  | inr other ↦ inr (sym (ap (λ (b : Bool). (b || has x ls) || has x ns) (eq_other h x other)) ∙ e)
]

pub node_cases :
    (x h : ℕ) (ls ns : List ℕ)
    → (has x ls || has x (h ∷ ns)) ≡ true
    → (x ≡ h) ⊎ ((has x ls || has x ns) ≡ true)
unfolding has
node_cases x h ls ns e = elim (eq_cases h x) [
  | inl same ↦ inl (sym same)
  | inr other ↦ inr (sym (ap (λ (b : Bool). has x ls || (b || has x ns)) (eq_other h x other)) ∙ e)
]

pub leaf_none :
    (x h : ℕ) (ls ns : List ℕ)
    → x ≢ h
    → (has x ls || has x ns) ≡ false
    → (has x (h ∷ ls) || has x ns) ≡ false
unfolding has
leaf_none x h ls ns n e =
    ap (λ (b : Bool). (b || has x ls) || has x ns) (eq_other h x (λ q. n (sym q))) ∙ e

pub node_none :
    (x h : ℕ) (ls ns : List ℕ)
    → x ≢ h
    → (has x ls || has x ns) ≡ false
    → (has x ls || has x (h ∷ ns)) ≡ false
unfolding has
node_none x h ls ns n e =
    ap (λ (b : Bool). has x ls || (b || has x ns)) (eq_other h x (λ q. n (sym q))) ∙ e

pub not_below : (n m : ℕ) → ltb n m ≡ false → m ≤ n
not_below n m e = ground (arith, e)

pub has-nothing : {A : Type 0} (x : ℕ) → has x [] ≡ true → A
unfolding has
has-nothing x e = absurd cc

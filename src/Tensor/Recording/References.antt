-- ===== src/Tensor/Recording/References.antt =====
-- Counting the references of a new node and letting them go again, in modules/tensorflow/backend.c,
-- slot by slot.
use cocolog.Prelude.{
  ℕ, suc, ◌+◌, ◌<◌, ◌≡◌, ◌≢◌, refl, sym, ap, ◌∙◌, Bool, true, false, ◌&&◌, List, [], ◌∷◌, length,
  ◌==◌, if◌then◌else◌, arith, inl, inr, eq_self, eq_other, eq_cases, ltb,
}
use cocolog.Tensor.Slots.{TfSlot, slot, put_slot, is_free}
use cocolog.Tensor.Freeing.{inputs_of, with_refs}
use cocolog.Tensor.Freeing.Counting.{
  occurs, uses, length-put_slot, slot-put_slot, slot-put_other, IsTidy, IsCounted,
}
use cocolog.Tensor.Recording.{add_refs}

-- The slots count alike: their fields that the count reads are the same.
pub record Alike (s u : TfSlot) : Type 0 where
  pub same_kind : u.kind ≡ s.kind
  pub same_released : u.released ≡ s.released
  pub same_refs : u.refs ≡ s.refs
  pub same_inputs : inputs_of u ≡ inputs_of s

pub Alike-refl : (s : TfSlot) → Alike s s
Alike-refl s = record {
  same_kind = refl;
  same_released = refl;
  same_refs = refl;
  same_inputs = refl;
}

pub uses-pointwise :
    (h : ℕ) (t u : List TfSlot)
    → length u ≡ length t
    → ((k : ℕ) → inputs_of (slot u k) ≡ inputs_of (slot t k))
    → uses h u ≡ uses h t
uses-pointwise h [] [] l e = refl
uses-pointwise h [] (y ∷ u) l e = absurd (omega (arith, l))
uses-pointwise h (x ∷ t) [] l e = absurd (omega (arith, l))
uses-pointwise h (x ∷ t) (y ∷ u) l e =
    let a = uses-pointwise h t u (omega (arith, l)) (λ k. e (suc k)) in
    let b = ap (λ (xs : List ℕ). occurs h xs) (e 0) in omega (arith, a, b)

pub Alike-IsTidy : (s u : TfSlot) → Alike s u → IsTidy s → IsTidy u
unfolding IsTidy
Alike-IsTidy s u a t = rw (a.same_kind, a.same_released, a.same_refs) t

pub Alike-IsCounted :
    {P : List ℕ} (t u : List TfSlot)
    → length u ≡ length t
    → ((k : ℕ) → Alike (slot t k) (slot u k))
    → IsCounted P t
    → IsCounted P u
Alike-IsCounted t u l a c = record {
  whole = l ∙ c.whole;
  reserved = ap is_free (a 0).same_kind ∙ c.reserved;
  counted = λ k.
      let r = (a k).same_refs in
      let d = c.counted k in
      let e = uses-pointwise k t u l (λ j. (a j).same_inputs) in omega (arith, r, d, e);
  tidy = λ k. Alike-IsTidy (slot t k) (slot u k) (a k) (c.tidy k);
}

-- Every handle of a list is below a bound.
abbrev pub all_below : ℕ → List ℕ → Bool
all_below n [] = true
all_below n (x ∷ xs) = ltb x n && all_below n xs

pub length-add_refs : (xs : List ℕ) (t : List TfSlot) → length (add_refs xs t) ≡ length t
unfolding add_refs
length-add_refs [] t = refl
length-add_refs (x ∷ xs) t = length-add_refs xs _ ∙ length-put_slot t x _

pub slot-put_slot_refs :
    (t : List TfSlot) (h k m n : ℕ)
    → h < length t
    → (h ≡ k → n ≡ m)
    → (h ≢ k → (slot t k).refs ≡ m)
    → slot (put_slot t h (with_refs n (slot t h))) k ≡ with_refs m (slot t k)
unfolding with_refs
slot-put_slot_refs t h k m n l e o = elim (eq_cases h k) [
  | inl same ↦ rw (e same, sym same) (slot-put_slot t h _ l)
  | inr other ↦ slot-put_other t h k _ (λ q. other (sym q)) ∙ kept (slot t k) (o other)
]
  where
    kept : (s : TfSlot) → s.refs ≡ m → s ≡ record s { refs = m }
    kept s q = ap (λ (r : ℕ). let u : TfSlot = record s { refs = r } in u) q

pub with_refs_self : (s : TfSlot) → with_refs s.refs s ≡ s
unfolding with_refs
with_refs_self s = refl

pub again :
    (f : ℕ → ℕ) (m n : ℕ) (s u : TfSlot)
    → u ≡ with_refs m s
    → f m ≡ n
    → with_refs (f u.refs) u ≡ with_refs n s
unfolding with_refs
again f m n s u e q = rw e (ap (λ (r : ℕ). with_refs r s) q)

below_head : (n x : ℕ) (xs : List ℕ) → all_below n (x ∷ xs) ≡ true → x < n
below_head n x xs b = ground arith

below_tail : (n m x : ℕ) (xs : List ℕ) → m ≡ n → all_below n (x ∷ xs) ≡ true → all_below m xs ≡ true
below_tail n m x xs e b = rw e (and_right (ltb x n) _ b)
  where
    and_right : (a c : Bool) → (a && c) ≡ true → c ≡ true
    and_right true c q = q
    and_right false c q = absurd cc

pub slot-add_refs :
    (xs : List ℕ) (t : List TfSlot) (k : ℕ)
    → all_below (length t) xs ≡ true
    → slot (add_refs xs t) k ≡ with_refs ((slot t k).refs + occurs k xs) (slot t k)
unfolding add_refs
slot-add_refs [] t k b =
    sym (ap (λ (n : ℕ). with_refs n (slot t k)) (omega arith) ∙ with_refs_self (slot t k))
slot-add_refs (x ∷ xs) t k b =
    slot-add_refs xs _ k (below_tail (length t) _ x xs (length-put_slot t x _) b)
    ∙ again (λ r. r + occurs k xs) ((slot t k).refs + (if x == k then 1 else 0)) _ (slot t k) _
        (slot-put_slot_refs t x k _ _ (below_head (length t) x xs b) (λ e. rw (e, eq_self k) refl)
          (λ o. rw (eq_other x k o) (omega arith)))
        (omega arith)

-- ===== src/Tensor/Freeing/Unref.antt =====
-- Letting references go keeps the count, ends, and is not seen by the program.
use cocolog.Prelude.{
  ℕ, zero, suc, ◌+◌, ◌-◌, ◌≤◌, ◌<◌, ◌≡◌, ◌≢◌, refl, sym, ap, ◌∙◌, Bool, true, false, ◌&&◌, not,
  Option, none, some, List, [], ◌∷◌, ◌++◌, length, if◌then◌else◌, arith, inl, inr, Bool-cases,
  eq_self, eq_other, length-append,
}
use cocolog.Tensor.Slots.{
  TfSlot, blank_slot, Backend, slot, put_slot, is_free, is_node, live, with_slots,
}
use cocolog.Tensor.Freeing.{
  inputs_of, reads, delete_handle, clear_slot, with_refs, drop_ref, is_over, unref_all,
}
use cocolog.Tensor.Freeing.Storing.{
  put-put, InUse, InUse-refs, live-InUse, put_slot-IsCounted, view, face, view-put_slot,
}
use cocolog.Tensor.Freeing.Counting.{
  occurs, occurs-append, uses, slot-put_slot, reads-put_slot, IsTidy, IsCounted,
}

-- The count is kept with what is still to be let go of, and the program sees no change.
pub record IsStep (P Q : List ℕ) (t u : List TfSlot) : Type 0 where
  counts : IsCounted Q u
  unseen : (k : ℕ) → view u k ≡ view t k
  spent : length Q + reads u < length P + reads t

is_over-free :
    (s : TfSlot)
    → IsTidy s
    → 0 < s.refs
    → is_free s.kind ≡ false
    → is_over (with_refs (s.refs - 1) s) ≡ false
    → IsTidy (with_refs (s.refs - 1) s)
unfolding IsTidy is_over with_refs
is_over-free s t r f o = rw f (refl, o)

pub occurs_self : (h : ℕ) (hs : List ℕ) → occurs h (h ∷ hs) ≡ suc (occurs h hs)
occurs_self h hs = rw (eq_self h) (omega arith)

pub occurs-other : (h k : ℕ) (hs : List ℕ) → k ≢ h → occurs k (h ∷ hs) ≡ occurs k hs
occurs-other h k hs n = rw (eq_other h k (λ e. n (sym e))) (omega arith)

pub inputs_of-blank_slot : inputs_of blank_slot ≡ []
unfolding inputs_of is_node
inputs_of-blank_slot = refl

pub blank_slot-IsTidy : IsTidy blank_slot
unfolding IsTidy is_free
blank_slot-IsTidy = (refl, refl)

over_released : (s : TfSlot) → is_over s ≡ true → (s.released ≡ true) × (s.refs ≡ 0)
unfolding is_over
over_released s o = ground arith

hidden_if : (a r : Bool) (x : TfSlot) → r ≡ true → (if not a && not r then some x else none) ≡ none
hidden_if a false x e = absurd cc
hidden_if true true x e = refl
hidden_if false true x e = refl

pub face-released : (s : TfSlot) → s.released ≡ true → face s ≡ none
unfolding face
face-released s r = hidden_if (is_free s.kind) s.released (with_refs 0 s) r

pub face-blank_slot : face blank_slot ≡ none
unfolding face is_free
face-blank_slot = refl

-- A reference is let go of, and the slot stays.
kept-IsStep :
    (h : ℕ) (hs : List ℕ) (t : List TfSlot)
    → IsCounted (h ∷ hs) t
    → InUse t h
    → 0 < (slot t h).refs
    → is_over (with_refs ((slot t h).refs - 1) (slot t h)) ≡ false
    → IsStep (h ∷ hs) hs t (put_slot t h (with_refs ((slot t h).refs - 1) (slot t h)))
unfolding with_refs inputs_of face
kept-IsStep h hs t c u r o =
    let s = slot t h in
    record {
      counts =
          put_slot-IsCounted (h ∷ hs) hs t h (with_refs (s.refs - 1) s) c u.not_zero u.inside
            (λ k n. let a = occurs-other h k hs n in omega (arith, a))
            (let a = c.counted h in let b = occurs_self h hs in omega (arith, a, b, r))
            (is_over-free s (c.tidy h) r u.taken_up o);
      unseen = λ k. view-put_slot t h k _ refl;
      spent = let a = reads-put_slot t h (with_refs (s.refs - 1) s) u.inside in omega (arith, a);
    }

-- The slot goes, and what it read is next.
pub cleared-IsCounted :
    (P hs : List ℕ) (t : List TfSlot) (h : ℕ)
    → IsCounted P t
    → InUse t h
    → ((k : ℕ) → k ≢ h → occurs k P ≡ occurs k hs)
    → uses h t + occurs h hs ≡ 0
    → IsCounted (inputs_of (slot t h) ++ hs) (put_slot t h blank_slot)
cleared-IsCounted P hs t h c u e z =
    put_slot-IsCounted P (inputs_of (slot t h) ++ hs) t h blank_slot c u.not_zero u.inside
      (λ k n.
        rw inputs_of-blank_slot (
          let a = occurs-append k (inputs_of (slot t h)) hs in
          let b = e k n in omega (arith, a, b)))
      (rw inputs_of-blank_slot
        (let a = occurs-append h (inputs_of (slot t h)) hs in omega (arith, a, z)))
      blank_slot-IsTidy

freed-IsStep :
    (h : ℕ) (hs : List ℕ) (t : List TfSlot)
    → IsCounted (h ∷ hs) t
    → InUse t h
    → 0 < (slot t h).refs
    → is_over (with_refs ((slot t h).refs - 1) (slot t h)) ≡ true
    → IsStep (h ∷ hs) (inputs_of (slot t h) ++ hs) t (put_slot t h blank_slot)
unfolding with_refs
freed-IsStep h hs t c u r o =
    let over = over_released (with_refs ((slot t h).refs - 1) (slot t h)) o in
    record {
      counts =
          cleared-IsCounted (h ∷ hs) hs t h c u (λ k n. occurs-other h k hs n)
            (let a = c.counted h in
              let b = occurs_self h hs in let z = over.1 in omega (arith, a, b, r, z));
      unseen = λ k.
          view-put_slot t h k blank_slot (face-blank_slot ∙ sym (face-released (slot t h) over.0));
      spent =
          let a = reads-put_slot t h blank_slot u.inside in
          let b = ap (λ (l : List ℕ). length l) inputs_of-blank_slot in
          let d = length-append (inputs_of (slot t h)) hs in omega (arith, a, b, d);
    }

pub data Unreffed (t : List TfSlot) : Option Backend → Type 0 where
  unreffed :
      (b : Backend)
      → IsCounted [] b.slots
      → ((k : ℕ) → view b.slots k ≡ view t k)
      → Unreffed t (some b)

Unreffed-step :
    {P Q : List ℕ} {t u : List TfSlot} {r : Option Backend}
    → IsStep P Q t u
    → Unreffed u r
    → Unreffed t r
Unreffed-step i (unreffed b c v) = unreffed b c (λ k. v k ∙ i.unseen k)

pub slots-delete_handle : (o : Option ℕ) (b : Backend) → (delete_handle o b).slots ≡ b.slots
unfolding delete_handle
slots-delete_handle none b = refl
slots-delete_handle (some e) b = refl

pub slots-drop_ref :
    (h : ℕ) (b : Backend)
    → (drop_ref h b).slots
      ≡ put_slot b.slots h (with_refs ((slot b.slots h).refs - 1) (slot b.slots h))
unfolding drop_ref with_slots
slots-drop_ref h b = refl

pub slots-clear_slot :
    (h : ℕ) (b : Backend) → (clear_slot h b).slots ≡ put_slot b.slots h blank_slot
unfolding clear_slot with_slots
slots-clear_slot h b = refl

pub unref_all-step :
    (fuel h : ℕ) (hs : List ℕ) (b : Backend)
    → live b.slots h ≡ true
    → unref_all (suc fuel) (h ∷ hs) b ≡ (
        let s = slot (drop_ref h b).slots h in
        if is_over s
        then unref_all fuel (inputs_of s ++ hs) (clear_slot h (drop_ref h b))
        else unref_all fuel hs (drop_ref h b))
unfolding unref_all
unref_all-step fuel h hs b l = rw l refl

dropped_slot :
    (h : ℕ) (b : Backend)
    → h < length b.slots
    → slot (drop_ref h b).slots h ≡ with_refs ((slot b.slots h).refs - 1) (slot b.slots h)
dropped_slot h b l =
    ap (λ (t : List TfSlot). slot t h) (slots-drop_ref h b) ∙ slot-put_slot b.slots h _ l

freed_slots :
    (h : ℕ) (b : Backend) → (clear_slot h (drop_ref h b)).slots ≡ put_slot b.slots h blank_slot
freed_slots h b =
    slots-clear_slot h (drop_ref h b)
    ∙ ap (λ (t : List TfSlot). put_slot t h blank_slot) (slots-drop_ref h b)
    ∙ put-put b.slots h _ blank_slot

inputs_of-with_refs : (n : ℕ) (s : TfSlot) → inputs_of (with_refs n s) ≡ inputs_of s
unfolding inputs_of with_refs
inputs_of-with_refs n s = refl

counted_refs : (h : ℕ) (hs : List ℕ) (t : List TfSlot) → IsCounted (h ∷ hs) t → 0 < (slot t h).refs
counted_refs h hs t c = let a = c.counted h in let b = occurs_self h hs in omega (arith, a, b)

freed_call :
    (h : ℕ) (hs : List ℕ) (b : Backend)
    → IsCounted (h ∷ hs) b.slots
    → InUse b.slots h
    → is_over (slot (drop_ref h b).slots h) ≡ true
    → IsStep
        (h ∷ hs)
        (inputs_of (slot (drop_ref h b).slots h) ++ hs)
        b.slots
        (clear_slot h (drop_ref h b)).slots
freed_call h hs b c u o =
    let e = dropped_slot h b u.inside in
    rw (freed_slots h b, e, inputs_of-with_refs ((slot b.slots h).refs - 1) (slot b.slots h))
      (freed-IsStep h hs b.slots c u (counted_refs h hs b.slots c) (ap is_over (sym e) ∙ o))

kept_call :
    (h : ℕ) (hs : List ℕ) (b : Backend)
    → IsCounted (h ∷ hs) b.slots
    → InUse b.slots h
    → is_over (slot (drop_ref h b).slots h) ≡ false
    → IsStep (h ∷ hs) hs b.slots (drop_ref h b).slots
kept_call h hs b c u o = rw (slots-drop_ref h b) (
    kept-IsStep h hs b.slots c u (counted_refs h hs b.slots c)
      (ap is_over (sym (dropped_slot h b u.inside)) ∙ o))

-- Enough fuel is one for each call that there can be.
pub unref_all-Unreffed :
    (fuel : ℕ) (hs : List ℕ) (b : Backend)
    → IsCounted hs b.slots
    → length hs + reads b.slots ≤ fuel
    → Unreffed b.slots (unref_all fuel hs b)
unfolding unref_all
unref_all-Unreffed fuel [] b c l = unreffed b c (λ k. refl)
unref_all-Unreffed zero (h ∷ hs) b c l = absurd (omega (arith, l))
unref_all-Unreffed (suc fuel) (h ∷ hs) b c l =
    let u = InUse-refs b.slots h c (counted_refs h hs b.slots c) in
    rw (unref_all-step fuel h hs b (live-InUse b.slots h c u))
      (elim (Bool-cases (is_over (slot (drop_ref h b).slots h))) [
        | inl o ↦
            let i = freed_call h hs b c u o in
            rw o (
              Unreffed-step i
                (unref_all-Unreffed fuel _ _ i.counts (let p = i.spent in omega (arith, l, p))))
        | inr o ↦
            let i = kept_call h hs b c u o in
            rw o (
              Unreffed-step i
                (unref_all-Unreffed fuel _ _ i.counts (let p = i.spent in omega (arith, l, p))))
      ])

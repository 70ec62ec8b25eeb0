-- ===== src/Tensor/Recording/Runs.antt =====
-- `run_spec_` under graph mode, in modules/tensorflow/backend.c, as a whole.
use cocolog.Prelude.{
  ℕ, ◌+◌, ◌<◌, ◌≡◌, ◌≢◌, refl, sym, ap, ◌∙◌, Bool, true, false, Option, none, some, List, [], ◌∷◌,
  length, if◌then◌else◌, arith, inl, inr, eq_cases, ltb-true,
}
use cocolog.Tensor.Slots.{
  TfSlot, Kind, k_free, k_value, k_node, blank_slot, Backend, slot, put_slot, is_free, is_node,
  tfb_exists, tf_slots,
}
use cocolog.Tensor.Freeing.{inputs_of, with_refs}
use cocolog.Tensor.Freeing.Counting.{occurs, IsTidy, IsCounted}
use cocolog.Tensor.Freeing.Storing.{view, face, view-put_slot}
use cocolog.Tensor.Slots.{OpSpec}
use cocolog.Tensor.Freeing.Storing.{put_slot-IsCounted}
use cocolog.Tensor.Freeing.Unref.{inputs_of-blank_slot, face-blank_slot, blank_slot-IsTidy}
use cocolog.Tensor.Searching.{IsInRange}
use cocolog.Tensor.Recording.{
  Ruled, against, unruled, all_exist, recorded_slots, under_any, node_slot,
}
use cocolog.Tensor.Recording.References.{all_below}
use cocolog.Tensor.Recording.Undoing.{all_exist_below, exists_head, exists_tail}
use cocolog.Tensor.Recording.Contents.{IsNode}
use cocolog.Tensor.Recording.Tables.{
  Alike-recorded, node_slot-IsNew, recorded_slots-IsCounted, view-recorded_slots,
}

-- Why an operation is not recorded: it reads what is not there, no slot is free, its shape cannot be,
-- or nothing is known of it.
pub data Unmade (rule : OpSpec → Backend → Ruled) (p : OpSpec) (b : Backend) : Type 0 where
  missing : all_exist b.slots p.inputs ≡ false → Unmade rule p b
  no_slot :
      ((k : ℕ) → 0 < k → k < tf_slots → is_free (slot b.slots k).kind ≡ false) → Unmade rule p b
  ruled_out : (c : Backend) (m : List ℕ) → rule p c ≡ against m → Unmade rule p b
  shapeless : (c : Backend) → rule p c ≡ unruled → Unmade rule p b

-- A new handle with the node that was asked for, or a reason, and no other change that the program
-- sees.
pub data Recording (rule : OpSpec → Backend → Ruled) (p : OpSpec) (b : Backend)
    : Option (Option ℕ × Backend) → Type 0 where
  recorded :
      (h : ℕ) (c : Backend)
      → IsInRange c.cursor
      → IsCounted [] c.slots
      → tfb_exists b.slots h ≡ false
      → tfb_exists c.slots h ≡ true
      → ((k : ℕ) → k ≢ h → view c.slots k ≡ view b.slots k)
      → IsNode rule p b.slots (slot c.slots h)
      → Recording rule p b (some (some h, c))
  unrecorded :
      (c : Backend)
      → Unmade rule p b
      → IsInRange c.cursor
      → IsCounted [] c.slots
      → ((k : ℕ) → view c.slots k ≡ view b.slots k)
      → Recording rule p b (some (none, c))

pub free-face : (s : TfSlot) → is_free s.kind ≡ true → face s ≡ none
unfolding face
free-face s f = rw f refl

free-inputs_of : (s : TfSlot) → is_free s.kind ≡ true → inputs_of s ≡ []
unfolding inputs_of is_node is_free
free-inputs_of s f = by_kind s.kind f
  where
    by_kind : (k : Kind) → is_free k ≡ true → (if is_node k then s.spec.inputs else []) ≡ []
    by_kind k_free f = refl
    by_kind k_value f = refl
    by_kind k_node f = absurd cc

free-refs : (s : TfSlot) → IsTidy s → is_free s.kind ≡ true → s.refs ≡ 0
unfolding IsTidy
free-refs s t f = let a = t.0 in ground (arith, a, f)

pub blank_free-IsCounted :
    (t : List TfSlot) (h : ℕ)
    → IsCounted [] t
    → IsInRange h
    → is_free (slot t h).kind ≡ true
    → IsCounted [] (put_slot t h blank_slot)
blank_free-IsCounted t h c i f =
    let w = c.whole in
    let q = i.below in
    let z = free-refs (slot t h) (c.tidy h) f in
    let d = c.counted h in
    put_slot-IsCounted [] [] t h blank_slot c i.above (omega (arith, w, q))
      (λ k n. rw (inputs_of-blank_slot, free-inputs_of (slot t h) f) refl)
      (rw (inputs_of-blank_slot, free-inputs_of (slot t h) f) (omega (arith, z, d)))
      blank_slot-IsTidy

pub view-blank_free :
    (t : List TfSlot) (h k : ℕ)
    → is_free (slot t h).kind ≡ true
    → view (put_slot t h blank_slot) k ≡ view t k
view-blank_free t h k f =
    view-put_slot t h k blank_slot (face-blank_slot ∙ sym (free-face (slot t h) f))

pub free-exists :
    (t : List TfSlot) (h : ℕ) → is_free (slot t h).kind ≡ true → tfb_exists t h ≡ false
unfolding tfb_exists
free-exists t h f = ground (arith, f)

some_cases :
    (a b : Bool) (x y : TfSlot)
    → (if a then some x else none) ≡ (if b then some y else none)
    → a ≡ b
some_cases true true x y e = refl
some_cases true false x y e = absurd cc
some_cases false true x y e = absurd cc
some_cases false false x y e = refl

pub view-exists :
    (t u : List TfSlot) (k : ℕ) → view u k ≡ view t k → tfb_exists u k ≡ tfb_exists t k
unfolding view
view-exists t u k e = some_cases (tfb_exists u k) (tfb_exists t k) _ _ e

pub all_exist_mono :
    (t u : List TfSlot) (xs : List ℕ)
    → ((k : ℕ) → tfb_exists t k ≡ true → tfb_exists u k ≡ true)
    → all_exist t xs ≡ true
    → all_exist u xs ≡ true
unfolding all_exist
all_exist_mono t u [] m e = refl
all_exist_mono t u (x ∷ xs) m e =
    rw (m x (exists_head t x xs e), all_exist_mono t u xs m (exists_tail t x xs e)) refl

-- A table with a blank slot at `h`, whose operation reads what exists.
pub record IsReady (p : OpSpec) (h : ℕ) (t : List TfSlot) : Type 0 where
  pub counts : IsCounted [] t
  pub in_range : IsInRange h
  pub is_blank : slot t h ≡ blank_slot
  pub there : all_exist t p.inputs ≡ true

pub ready_below :
    (p : OpSpec) (h : ℕ) (t : List TfSlot) → IsReady p h t → all_below (length t) p.inputs ≡ true
ready_below p h t r = rw r.counts.whole (all_exist_below t p.inputs r.there)

pub ready_inside : (p : OpSpec) (h : ℕ) (t : List TfSlot) → IsReady p h t → h < length t
ready_inside p h t r = let w = r.counts.whole in let q = r.in_range.below in omega (arith, w, q)

pub ready-IsCounted :
    (p : OpSpec) (h : ℕ) (t : List TfSlot) → IsReady p h t → IsCounted [] (recorded_slots p h t)
ready-IsCounted p h t r =
    recorded_slots-IsCounted p h t r.counts r.is_blank r.in_range.above (ready_inside p h t r)
      r.there (ready_below p h t r)

pub exists_at :
    (t : List TfSlot) (h : ℕ)
    → IsInRange h
    → is_free (slot t h).kind ≡ false
    → (slot t h).released ≡ false
    → tfb_exists t h ≡ true
unfolding tfb_exists
exists_at t h i f r = rw (ltb-true 0 h i.above, ltb-true h tf_slots i.below, f, r) refl

kind-with_refs :
    (n : ℕ) (s : TfSlot) → ((with_refs n s).kind ≡ s.kind) × ((with_refs n s).released ≡ s.released)
unfolding with_refs
kind-with_refs n s = (refl, refl)

pub exists-recorded :
    (p : OpSpec) (h : ℕ) (t : List TfSlot)
    → IsReady p h t
    → tfb_exists (recorded_slots p h t) h ≡ true
exists-recorded p h t r =
    let a = Alike-recorded p h t r.is_blank (ready_inside p h t r) (ready_below p h t r) in
    let n = node_slot-IsNew p (under_any t p.inputs) in
    let k =
      kind-with_refs (0 + occurs h p.inputs) (node_slot p (under_any t p.inputs) blank_slot) in
    exists_at _ h r.in_range (ap is_free (a.same_kind ∙ k.0) ∙ n.in_use)
      (a.same_released ∙ k.1 ∙ n.unreleased)

pub exists-kept :
    (p : OpSpec) (h k : ℕ) (t : List TfSlot)
    → IsReady p h t
    → tfb_exists t k ≡ true
    → tfb_exists (recorded_slots p h t) k ≡ true
exists-kept p h k t r e = elim (eq_cases k h) [
  | inl same ↦ rw same (exists-recorded p h t r)
  | inr other ↦
      view-exists t (recorded_slots p h t) k
        (view-recorded_slots p h k t (ready_below p h t r) other)
      ∙ e
]

-- ===== src/Tensor/Making/Temporaries.antt =====
-- What a producer of modules/tensorflow/backend.c leaves, and that it leaves no temporary.
use cocolog.Prelude.{
  ℕ, ◌≡◌, ◌≢◌, refl, sym, ap, ◌∙◌, Bool, true, false, Option, none, some, [], inl, inr, eq_cases,
}
use cocolog.Tensor.Slots.{Backend, tfb_exists}
use cocolog.Tensor.Freeing.Counting.{IsCounted}
use cocolog.Tensor.Freeing.Storing.{view}
use cocolog.Tensor.Freeing.Leaving.{Freed, freed, unknown}
use cocolog.Tensor.Freeing.Releasing.{tfb_free-Freed}
use cocolog.Tensor.Searching.{IsInRange}
use cocolog.Tensor.Recording.Runs.{view-exists}
use cocolog.Tensor.Making.{Producer, free_after, use_made, with_temporary}

pub record IsSound (b : Backend) : Type 0 where
  pub in_range : IsInRange b.cursor
  pub counted : IsCounted [] b.slots

-- One new handle, and the others as they were; or no change that the program sees.
pub data Produced (b : Backend) : Option (Option ℕ × Backend) → Type 0 where
  produced :
      (h : ℕ) (c : Backend)
      → IsSound c
      → tfb_exists b.slots h ≡ false
      → tfb_exists c.slots h ≡ true
      → ((k : ℕ) → k ≢ h → view c.slots k ≡ view b.slots k)
      → Produced b (some (some h, c))
  unproduced :
      (c : Backend)
      → IsSound c
      → ((k : ℕ) → view c.slots k ≡ view b.slots k)
      → Produced b (some (none, c))

unseen : (b : Backend) (k : ℕ) → tfb_exists b.slots k ≡ false → view b.slots k ≡ none
unfolding view
unseen b k e = rw e refl

-- A temporary `t` of `b` that is gone from `x` is seen in neither.
unseen-both :
    (b x : Backend) (t : ℕ)
    → tfb_exists b.slots t ≡ false
    → tfb_exists x.slots t ≡ false
    → view x.slots t ≡ view b.slots t
unseen-both b x t e g = unseen x t g ∙ sym (unseen b t e)

IsSound-after : (c x : Backend) → IsSound c → x.cursor ≡ c.cursor → IsCounted [] x.slots → IsSound x
IsSound-after c x s q i = record { in_range = rw q s.in_range; counted = i }

freed-Unproduced :
    {r : Option (Backend × Bool)} (b c d : Backend) (t : ℕ)
    → tfb_exists b.slots t ≡ false
    → tfb_exists d.slots t ≡ true
    → ((k : ℕ) → k ≢ t → view d.slots k ≡ view b.slots k)
    → IsSound d
    → Freed t d r
    → Produced b (elim r [ none ↦ none | some x ↦ some (none, x.0) ])
freed-Unproduced b c d t e f v s (unknown g) = absurd cc
freed-Unproduced b c d t e f v s (freed x _ q i gone others) =
    unproduced x (IsSound-after d x s q i) (λ k. elim (eq_cases k t) [
      | inl same ↦ rw same (unseen-both b x t e gone)
      | inr other ↦ others k other ∙ v k other
    ])

freed-Produced :
    {r : Option (Backend × Bool)} (b d : Backend) (t h : ℕ)
    → h ≢ t
    → tfb_exists b.slots t ≡ false
    → tfb_exists b.slots h ≡ false
    → tfb_exists d.slots t ≡ true
    → tfb_exists d.slots h ≡ true
    → ((k : ℕ) → k ≢ t → k ≢ h → view d.slots k ≡ view b.slots k)
    → IsSound d
    → Freed t d r
    → Produced b (elim r [ none ↦ none | some x ↦ some (some h, x.0) ])
freed-Produced b d t h n e eh f fh v s (unknown g) = absurd cc
freed-Produced b d t h n e eh f fh v s (freed x _ q i gone others) =
    produced h x (IsSound-after d x s q i) eh (view-exists d.slots x.slots h (others h n) ∙ fh)
      (λ k m. elim (eq_cases k t) [
        | inl same ↦ rw same (unseen-both b x t e gone)
        | inr other ↦ others k other ∙ v k other m
      ])

free_after-Produced :
    {r : Option (Option ℕ × Backend)} (b c : Backend) (t : ℕ)
    → tfb_exists b.slots t ≡ false
    → tfb_exists c.slots t ≡ true
    → ((k : ℕ) → k ≢ t → view c.slots k ≡ view b.slots k)
    → Produced c r
    → Produced b (free_after t r)
unfolding free_after
free_after-Produced b c t e f v (unproduced d s w) =
    freed-Unproduced b c d t e (view-exists c.slots d.slots t (w t) ∙ f) (λ k n. w k ∙ v k n) s
      (tfb_free-Freed t d s.counted)
free_after-Produced b c t e f v (produced h d s eh fh w) =
    let n : h ≢ t = λ q. let g = ap (λ (k : ℕ). tfb_exists c.slots k) (sym q) ∙ eh in absurd cc in
    freed-Produced b d t h n e (sym (view-exists b.slots c.slots h (v h n)) ∙ eh)
      (view-exists c.slots d.slots t (w t (λ q. n (sym q))) ∙ f) fh (λ k m o. w k o ∙ v k m) s
      (tfb_free-Freed t d s.counted)

use_made-Produced :
    {r : Option (Option ℕ × Backend)} (go : ℕ → Producer) (b : Backend)
    → ((t : ℕ) (c : Backend) → IsSound c → Produced c (go t c))
    → Produced b r
    → Produced b (use_made go r)
unfolding use_made
use_made-Produced go b g (unproduced c s v) = unproduced c s v
use_made-Produced go b g (produced t c s e f v) = free_after-Produced b c t e f v (g t c s)

-- What is made, used and let go of leaves what its use leaves.
pub with_temporary-Produced :
    (make : Producer) (go : ℕ → Producer) (b : Backend)
    → Produced b (make b)
    → ((t : ℕ) (c : Backend) → IsSound c → Produced c (go t c))
    → Produced b (with_temporary make go b)
unfolding with_temporary
with_temporary-Produced make go b m g = use_made-Produced go b g m

-- ===== src/Tensor/Closing/Order.antt =====
-- `visit` of modules/tensorflow/backend.c puts every node after what it reads.
use cocolog.Prelude.{ℕ, ◌≡◌, true, false, ◌||◌, List}
use cocolog.Tensor.Slots.{TfSlot}
use cocolog.Tensor.Closing.{Closure, Visited, visited, failed, has}
use cocolog.Tensor.Closing.Reaching.{IsOrdered}
use cocolog.Tensor.Closing.Growing.{Refusal}

-- What a closure is: its nodes after what they read, and the one asked for.
pub data IsClosed (t : List TfSlot) (h : ℕ) : Visited → Type 0 where
  closed_over :
      (c : Closure)
      → IsOrdered t c.leaves c.nodes
      → (has h c.leaves || has h c.nodes) ≡ true
      → IsClosed t h (visited c)
  given_up : (m : List ℕ) → Refusal t h → IsClosed t h (failed m)

-- Nothing is pending at the start.
abbrev Nothing : ℕ → Type 0
Nothing x = true ≡ false

-- ===== src/Tensor/Closing/Reaching.antt =====
-- What a closure of modules/tensorflow/backend.c is: the handles that are reached from one, in order.
use cocolog.Prelude.{ℕ, ◌<◌, ◌≡◌, ◌⊎◌, Bool, true, false, ◌||◌, List, [], ◌∷◌}
use cocolog.Tensor.Slots.{TfSlot, slot, is_node}
use cocolog.Tensor.Closing.{Closure, has}

-- A handle is in the closure.
unfoldable pub is_in : Closure → ℕ → Bool
is_in c h = has h c.leaves || has h c.nodes

-- Every node, the last first, reads leaves of the closure and nodes before it.
pub data IsOrdered (t : List TfSlot) (leaves : List ℕ) : List ℕ → Type 0 where
  no_node : IsOrdered t leaves []
  one_more :
      (h : ℕ) (hs : List ℕ)
      → IsOrdered t leaves hs
      → ((x : ℕ) → has x (slot t h).spec.inputs ≡ true → (has x leaves || has x hs) ≡ true)
      → IsOrdered t leaves (h ∷ hs)

-- No node reads one that was made after it: `rank` is the order in which they were made.
pub record IsRanked (t : List TfSlot) (rank : ℕ → ℕ) : Type 0 where
  pub earlier :
      (h x : ℕ)
      → is_node (slot t h).kind ≡ true
      → has x (slot t h).spec.inputs ≡ true
      → rank x < rank h

-- A handle is `top`, or a node that is reached reads it.
pub data Reaches (t : List TfSlot) (top : ℕ) : ℕ → Type 0 where
  itself : Reaches t top top
  one_below :
      (x y : ℕ)
      → Reaches t top x
      → is_node (slot t x).kind ≡ true
      → has y (slot t x).spec.inputs ≡ true
      → Reaches t top y

-- No handle is in the list twice.
abbrev pub IsDistinct : List ℕ → Type 0
IsDistinct [] = Unit
IsDistinct (x ∷ xs) = (has x xs ≡ false) × IsDistinct xs

-- What is in the closure was reached and marked, once. What is marked is in the closure, or its inputs
-- are still being visited.
pub record IsOpen (t : List TfSlot) (top : ℕ) (pending : ℕ → Type 0) (c : Closure) : Type 0 where
  pub ordered : IsOrdered t c.leaves c.nodes
  pub distinct_leaves : IsDistinct c.leaves
  pub distinct_nodes : IsDistinct c.nodes
  pub met : (x : ℕ) → is_in c x ≡ true → has x c.seen ≡ true
  pub reached : (x : ℕ) → is_in c x ≡ true → Reaches t top x
  pub begun : (x : ℕ) → pending x → has x c.seen ≡ true
  pub kept_out : (x : ℕ) → pending x → is_in c x ≡ false
  pub marked : (x : ℕ) → has x c.seen ≡ true → (is_in c x ≡ true) ⊎ pending x

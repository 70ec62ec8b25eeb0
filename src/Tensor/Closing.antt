-- ===== src/Tensor/Closing.antt =====
-- The closure of a node, in modules/tensorflow/backend.c: `visit`, `leaf_index`, `node_index`, and the
-- results that `closure_of_` marks.
pub mod Reaching
pub mod Growing
pub mod Marks
pub mod Order
use cocolog.Prelude.{
  ℕ, zero, suc, ◌+◌, Bool, true, false, ◌&&◌, ◌||◌, not, Option, none, some, List, [], ◌∷◌, ◌++◌,
  length, ltb, ◌==◌, if◌then◌else◌, text,
}
use cocolog.Tensor.Slots.{OpSpec, TfSlot, Kind, k_free, k_value, k_node, slot, live}

abbrev pub max_leaf : ℕ
max_leaf = 4096

abbrev pub max_node : ℕ
max_node = 8192

-- `leaves` and `nodes` with the last first, and the handles that `seen` marks.
pub record Closure : Type 0 where
  pub leaves : List ℕ
  pub nodes : List ℕ
  pub seen : List ℕ

abbrev pub empty_closure : Closure
empty_closure = record { leaves = []; nodes = []; seen = [] }

-- `failed` is the answer 0 with its message; `too_deep` is that the fuel, which bounds the depth of
-- the recursion, is spent.
pub data Visited : Type 0 where
  visited : Closure → Visited
  failed : List ℕ → Visited
  too_deep : Visited

unfoldable pub has : ℕ → List ℕ → Bool
has h [] = false
has h (x ∷ xs) = (x == h) || has h xs

unfoldable pub is_value : Kind → Bool
is_value k_value = true
is_value _ = false

unfoldable pub has_value : TfSlot → Bool
has_value s = elim s.eh [ none ↦ false | some e ↦ true ]

unfoldable pub is_leaf : Bool → TfSlot → Bool
is_leaf grad_mode s = is_value s.kind || (has_value s && (not grad_mode || s.is_param))

unfoldable pub mark : ℕ → Closure → Closure
mark h c = record c { seen = h ∷ c.seen }

unfoldable pub add_leaf : ℕ → Closure → Visited
add_leaf h c =
    if ltb (length c.leaves) max_leaf
    then visited (record c { leaves = h ∷ c.leaves })
    else failed (text "too many leaves")

unfoldable pub add_node : ℕ → Closure → Visited
add_node h c =
    if ltb (length c.nodes) max_node
    then visited (record c { nodes = h ∷ c.nodes })
    else failed (text "too many nodes")

unfoldable pub and_then : Visited → (Closure → Visited) → Visited
and_then (visited c) f = f c
and_then (failed m) f = failed m
and_then too_deep f = too_deep

-- The loop over the inputs, with `visit` at one less depth.
unfoldable pub visit_all : (ℕ → Closure → Visited) → List ℕ → Closure → Visited
visit_all go [] c = visited c
visit_all go (h ∷ hs) c = and_then (go h c) (visit_all go hs)

unfoldable pub visit : Bool → List TfSlot → ℕ → ℕ → Closure → Visited
visit grad_mode t zero h c = too_deep
visit grad_mode t (suc fuel) h c =
    let d = mark h c in
    let s = slot t h in
    let under = visit_all (visit grad_mode t fuel) s.spec.inputs d in
    if live t h
    then (if has h c.seen
        then visited c
        else if is_leaf grad_mode s
        then add_leaf h d
        else and_then under (add_node h))
    else failed (text "a tensor this one needs has been freed")

-- The place of a handle, from the front of the array.
unfoldable pub index_from : ℕ → ℕ → List ℕ → Option ℕ
index_from i h [] = none
index_from i h (x ∷ xs) = if x == h then some i else index_from (i + 1) h xs

unfoldable pub in_order : List ℕ → List ℕ
in_order [] = []
in_order (x ∷ xs) = in_order xs ++ x ∷ []

unfoldable pub leaf_index : Closure → ℕ → Option ℕ
leaf_index c h = index_from 0 h (in_order c.leaves)

unfoldable pub node_index : Closure → ℕ → Option ℕ
node_index c h = index_from 0 h (in_order c.nodes)

-- `c->want[i]`, for the closure of `h`.
unfoldable pub want : List TfSlot → ℕ → ℕ → Bool
want t h n = let s = slot t n in not (has_value s) && ((not s.released || s.is_param) || (n == h))

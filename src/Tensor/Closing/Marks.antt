-- ===== src/Tensor/Closing/Marks.antt =====
-- The closure as `visit` of modules/tensorflow/backend.c fills it: what is marked, and what is in.
use cocolog.Prelude.{ℕ, ◌≡◌, inl, inr, true, false, List, [], ◌∷◌, length, ltb, Bool-cases}
use cocolog.Tensor.Slots.{TfSlot}
use cocolog.Tensor.Closing.{Closure, Visited, has, mark, add_leaf, and_then, visit_all, max_leaf}
use cocolog.Tensor.Closing.Reaching.{is_in, IsOrdered, no_node, one_more, Reaches, IsOpen}
use cocolog.Tensor.Closing.Growing.{
  full_leaves, Grown, grown, stopped, has-head, has-tail, has-cases, unmet, pending_other, or_left,
  leaf_more, or_false, leaf_cases, leaf_none, not_below, has-nothing,
}

pub Grown-join :
    (t : List TfSlot) (top : ℕ) (pending : ℕ → Type 0) (h : ℕ) (hs : List ℕ) (c d : Closure)
    {r : Visited}
    → ((x : ℕ) → is_in c x ≡ true → is_in d x ≡ true)
    → is_in d h ≡ true
    → Grown t top pending hs d r
    → Grown t top pending (h ∷ hs) c r
Grown-join t top pending h hs c d up i (grown e q more all) =
    grown e q (λ x j. more x (up x j))
      (λ x j. elim (has-cases x h hs j) [ inl same ↦ rw same (more h i) | inr other ↦ all x other ])
Grown-join t top pending h hs c d up i (stopped m y) = stopped m y

pub Grown-then :
    (t : List TfSlot) (top : ℕ) (pending : ℕ → Type 0) (h : ℕ) (hs : List ℕ) (c : Closure)
    (f : Closure → Visited) {r : Visited}
    → Grown t top pending (h ∷ []) c r
    → ((d : Closure) → IsOpen t top pending d → Grown t top pending hs d (f d))
    → Grown t top pending (h ∷ hs) c (and_then r f)
unfolding and_then
Grown-then t top pending h hs c f (grown d q up all) rest =
    Grown-join t top pending h hs c d up (all h (has-head h [])) (rest d q)
Grown-then t top pending h hs c f (stopped m y) rest = stopped m y

pub visit_all-Grown :
    (t : List TfSlot) (top : ℕ) (pending : ℕ → Type 0) (go : ℕ → Closure → Visited) (hs : List ℕ)
    (c : Closure)
    → ((h : ℕ) (d : Closure)
        → has h hs ≡ true
        → IsOpen t top pending d
        → Grown t top pending (h ∷ []) d (go h d))
    → IsOpen t top pending c
    → Grown t top pending hs c (visit_all go hs c)
unfolding visit_all has
visit_all-Grown t top pending go [] c g o = grown c o (λ x i. i) (λ x i. absurd cc)
visit_all-Grown t top pending go (h ∷ hs) c g o =
    Grown-then t top pending h hs c (visit_all go hs) (g h c (has-head h hs) o)
      (λ d q. visit_all-Grown t top pending go hs d (λ k e i r. g k e (has-tail k h hs i) r) q)

pub IsOrdered-leaf :
    {t : List TfSlot} {ls ns : List ℕ} (h : ℕ) → IsOrdered t ls ns → IsOrdered t (h ∷ ls) ns
IsOrdered-leaf h no_node = no_node
IsOrdered-leaf {t} {ls} h (one_more k ks o e) =
    one_more k ks (IsOrdered-leaf h o) (λ x r. leaf_more x h ls ks (e x r))

-- A leaf is in at once.
pub add_leaf-Grown :
    (t : List TfSlot) (top : ℕ) (pending : ℕ → Type 0) (h : ℕ) (c : Closure)
    → Reaches t top h
    → has h c.seen ≡ false
    → IsOpen t top pending c
    → Grown t top pending (h ∷ []) c (add_leaf h (mark h c))
unfolding add_leaf mark is_in
add_leaf-Grown t top pending h c y s o = elim (Bool-cases (ltb (length c.leaves) max_leaf)) [
  | inr full ↦ rw full (
      stopped _ (
        full_leaves c.leaves o.distinct_leaves (not_below _ _ full)
          (λ x i. o.reached x (or_left (has x c.leaves) (has x c.nodes) i))))
  | inl room ↦ rw room (
      grown _
        (record {
          ordered = IsOrdered-leaf h o.ordered;
          distinct_leaves = (
            (or_false (has h c.leaves) (has h c.nodes) (unmet _ (o.met h) s)).0,
            o.distinct_leaves,
          );
          distinct_nodes = o.distinct_nodes;
          met = λ x i. elim (leaf_cases x h c.leaves c.nodes i) [
            | inl same ↦ rw same (has-head h c.seen)
            | inr old ↦ has-tail x h c.seen (o.met x old)
          ];
          reached = λ x i. elim (leaf_cases x h c.leaves c.nodes i) [
            | inl same ↦ rw same y
            | inr old ↦ o.reached x old
          ];
          begun = λ x p. has-tail x h c.seen (o.begun x p);
          kept_out = λ x p.
              leaf_none x h c.leaves c.nodes (pending_other t top pending h x c o s p)
                (o.kept_out x p);
          marked = λ x m. elim (has-cases x h c.seen m) [
            | inl same ↦ inl (rw same (or_left (has h (h ∷ c.leaves)) _ (has-head h c.leaves)))
            | inr old ↦ elim (o.marked x old) [
              | inl i ↦ inl (leaf_more x h c.leaves c.nodes i)
              | inr p ↦ inr p
            ]
          ];
        })
        (λ x i. leaf_more x h c.leaves c.nodes i)
        (λ x i. elim (has-cases x h [] i) [
          | inl same ↦ rw same (or_left (has h (h ∷ c.leaves)) _ (has-head h c.leaves))
          | inr none_there ↦ has-nothing x none_there
        ]))
]

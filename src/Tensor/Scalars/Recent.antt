-- ===== src/Tensor/Scalars/Recent.antt =====
-- The table of shared scalars in modules/tensorflow/backend.c is a queue of the last 256.
use cocolog.Prelude.{
  ℕ, zero, suc, ◌+◌, ◌%◌, ◌≤◌, ◌<◌, ◌≡◌, refl, sym, ap, ◌∙◌, ◌⊎◌, Option, none, some, List, [], ◌∷◌,
  ◌++◌, append-nil, length, take, drop, ltb, if◌then◌else◌, arith, ltb-true, ltb-false, eq_self,
  take-append, drop-append, take_all, drop_all,
}
use cocolog.Tensor.Slots.{ScalarCache}
use cocolog.Tensor.Scalars.{tf_scalars, put_scalar, handle_at, keep_scalar}

-- The abstract queue: the oldest first, and the oldest goes when a new one has no room.
abbrev pub oldest : List (ℕ × ℕ) → Option ℕ
oldest [] = none
oldest (x ∷ xs) = some x.1

unfoldable pub remember : ℕ → ℕ → List (ℕ × ℕ) → List (ℕ × ℕ) × Option ℕ
remember f keep q =
    if ltb (length q) tf_scalars
    then (q ++ (f, keep) ∷ [], none)
    else (drop 1 q ++ (f, keep) ∷ [], oldest q)

-- The table as that queue.
unfoldable pub recent : ScalarCache → List (ℕ × ℕ)
recent c = drop c.scalar_next c.scalars ++ take c.scalar_next c.scalars

-- While the table fills, the next place is its end; then it goes round.
pub record IsRing (c : ScalarCache) : Type 0 where
  pub bounded : length c.scalars ≤ tf_scalars
  pub next_inside : c.scalar_next ≤ length c.scalars
  pub next_below : c.scalar_next < tf_scalars
  pub at_end : (c.scalar_next ≡ length c.scalars) ⊎ (length c.scalars ≡ tf_scalars)

pub data Split (n : ℕ) : List (ℕ × ℕ) → Type 0 where
  split : (a b : List (ℕ × ℕ)) (o : ℕ × ℕ) → length a ≡ n → Split n (a ++ o ∷ b)

pub Split-at : (n : ℕ) (e : List (ℕ × ℕ)) → n < length e → Split n e
Split-at n [] l = absurd (omega arith)
Split-at zero (x ∷ e) l = split [] e x refl
Split-at (suc n) (x ∷ e) l = one_more (Split-at n e (omega arith))
  where
    one_more : {e : List (ℕ × ℕ)} → Split n e → Split (suc n) (x ∷ e)
    one_more (split a b o q) = split (x ∷ a) b o (ap suc q)

pub put_scalar-append :
    (a b : List (ℕ × ℕ)) (o v : ℕ × ℕ) → put_scalar (a ++ o ∷ b) (length a) v ≡ a ++ v ∷ b
put_scalar-append [] b o v = refl
put_scalar-append (x ∷ a) b o v = ap (λ (l : List (ℕ × ℕ)). x ∷ l) (put_scalar-append a b o v)

pub handle_at-append :
    (a b : List (ℕ × ℕ)) (o : ℕ × ℕ) → handle_at (a ++ o ∷ b) (length a) ≡ some o.1
handle_at-append [] b o = refl
handle_at-append (x ∷ a) b o = handle_at-append a b o

pub handle_at_end : (a : List (ℕ × ℕ)) → handle_at a (length a) ≡ none
handle_at_end [] = refl
handle_at_end (x ∷ a) = handle_at_end a

-- A list that is cut at its end, or at its start, and put together the other way round.
pub whole_at_end : (e : List (ℕ × ℕ)) (n : ℕ) → n ≡ length e → drop n e ++ take n e ≡ e
whole_at_end e n q = rw (drop_all n e (omega (arith, q)), take_all n e (omega (arith, q))) refl

pub whole_at_start : (e : List (ℕ × ℕ)) (n : ℕ) → n ≡ 0 → drop n e ++ take n e ≡ e
whole_at_start e n q = rw q (append-nil e)

pub turned : (a b : List (ℕ × ℕ)) → drop (length a) (a ++ b) ++ take (length a) (a ++ b) ≡ b ++ a
turned a b = rw (drop-append a b, take-append a b) refl

pub filled :
    (f keep : ℕ) (c : ScalarCache)
    → length c.scalars < tf_scalars
    → c.scalar_next ≡ length c.scalars
    → keep_scalar f keep c ≡ (
      record {
        scalars = c.scalars ++ (f, keep) ∷ [];
        scalar_next = (c.scalar_next + 1) % tf_scalars;
      },
      none,
    )
unfolding keep_scalar
filled f keep c l e =
    rw (ltb-true (length c.scalars) tf_scalars l, sym e, eq_self c.scalar_next)
      (ap
        (λ (o : Option ℕ). (
          record {
            scalars = c.scalars ++ (f, keep) ∷ [];
            scalar_next = (c.scalar_next + 1) % tf_scalars;
          },
          o,
        ))
        (ap (handle_at c.scalars) e ∙ handle_at_end c.scalars))

pub turned_over :
    (f keep : ℕ) (c : ScalarCache)
    → length c.scalars ≡ tf_scalars
    → keep_scalar f keep c ≡ (
      record {
        scalars = put_scalar c.scalars c.scalar_next (f, keep);
        scalar_next = (c.scalar_next + 1) % tf_scalars;
      },
      handle_at c.scalars c.scalar_next,
    )
unfolding keep_scalar
turned_over f keep c e =
    rw (ltb-false (length c.scalars) tf_scalars (omega (arith, e)), eq_self c.scalar_next) refl

-- What storing does, in both views of the table.
pub record Keeps (f keep : ℕ) (c : ScalarCache) (r : ScalarCache × Option ℕ) : Type 0 where
  pub ring : IsRing r.0
  pub queue : recent r.0 ≡ (remember f keep (recent c)).0
  pub given_back : r.1 ≡ (remember f keep (recent c)).1

pub remember_room :
    (f keep : ℕ) (q r : List (ℕ × ℕ))
    → q ≡ r
    → length r < tf_scalars
    → remember f keep q ≡ (r ++ (f, keep) ∷ [], none)
unfolding remember
remember_room f keep q r e l = rw (e, ltb-true (length r) tf_scalars l) refl

pub remember_full :
    (f keep : ℕ) (q r : List (ℕ × ℕ)) (o : ℕ × ℕ)
    → q ≡ o ∷ r
    → length r + 1 ≡ tf_scalars
    → remember f keep q ≡ (r ++ (f, keep) ∷ [], some o.1)
unfolding remember
remember_full f keep q r o e l =
    rw (e, ltb-false (length (o ∷ r)) tf_scalars (omega (arith, l))) refl

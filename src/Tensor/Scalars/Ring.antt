-- ===== src/Tensor/Scalars/Ring.antt =====
-- `fscalar` of modules/tensorflow/backend.c keeps the queue in its ring.
use cocolog.Prelude.{
  ℕ, ◌+◌, ◌%◌, ◌≤◌, ◌<◌, ◌≡◌, refl, sym, ap, ◌∙◌, ◌⊎◌, inl, inr, Bool, true, false, Option, none,
  some, List, [], ◌∷◌, ◌++◌, append_assoc, length, take, drop, if◌then◌else◌, arith, length-append,
  leb_cases, take-append-drop, ◌||◌,
}
use cocolog.Tensor.Slots.{ScalarCache}
use cocolog.Tensor.Scalars.{same_float, tf_scalars, find_scalar, put_scalar, handle_at, keep_scalar}
use cocolog.Tensor.Scalars.Recent.{
  remember, recent, IsRing, Split, Split-at, put_scalar-append, handle_at-append, whole_at_end,
  whole_at_start, turned, filled, turned_over, Keeps, remember_room, remember_full, split,
}

-- The next place, and a whole table seen from it.
next_place :
    (n m : ℕ)
    → n + 1 ≡ m
    → m ≤ tf_scalars
    → ((n + 1) % tf_scalars ≡ m) ⊎ (((n + 1) % tf_scalars ≡ 0) × (m ≡ tf_scalars))
next_place n m e l = elim (leb_cases m 255) [
  | inl below ↦ let b = below.0 in inl (omega (arith, e, b))
  | inr above ↦ let b = above.0 in inr ((omega (arith, e, b, l), omega (arith, e, b, l)))
]

whole_from :
    (e : List (ℕ × ℕ)) (n : ℕ)
    → (n ≡ length e) ⊎ ((n ≡ 0) × (length e ≡ tf_scalars))
    → drop n e ++ take n e ≡ e
whole_from e n (inl q) = whole_at_end e n q
whole_from e n (inr q) = whole_at_start e n q.0

end_or_full : (n m : ℕ) → (n ≡ m) ⊎ ((n ≡ 0) × (m ≡ tf_scalars)) → (n ≡ m) ⊎ (m ≡ tf_scalars)
end_or_full n m (inl q) = inl q
end_or_full n m (inr q) = inr q.1

filled-Keeps :
    (f keep : ℕ) (c : ScalarCache)
    → length c.scalars < tf_scalars
    → c.scalar_next ≡ length c.scalars
    → Keeps f keep c (
      record {
        scalars = c.scalars ++ (f, keep) ∷ [];
        scalar_next = (c.scalar_next + 1) % tf_scalars;
      },
      none,
    )
unfolding recent
filled-Keeps f keep c l e =
    let n = length-append c.scalars ((f, keep) ∷ []) in
    let at =
      next_place c.scalar_next (length (c.scalars ++ (f, keep) ∷ [])) (omega (arith, n, e))
        (omega (arith, n, l)) in
    let room =
      remember_room f keep (recent c) c.scalars (whole_at_end c.scalars c.scalar_next e) l in
    record {
      ring = record {
        bounded = omega (arith, n, l);
        next_inside = omega (arith, n, l, e);
        next_below = omega arith;
        at_end = end_or_full _ _ at;
      };
      queue =
          whole_from (c.scalars ++ (f, keep) ∷ []) _ at
          ∙ sym (ap (λ (x : List (ℕ × ℕ) × Option ℕ). x.0) room);
      given_back = sym (ap (λ (x : List (ℕ × ℕ) × Option ℕ). x.1) room);
    }

turned_at :
    (e a b : List (ℕ × ℕ)) (n : ℕ) → e ≡ a ++ b → length a ≡ n → drop n e ++ take n e ≡ b ++ a
turned_at e a b n p q = rw (p, sym q) (turned a b)

turned_next :
    (n : ℕ) (a b : List (ℕ × ℕ)) (x : ℕ × ℕ)
    → length a ≡ n
    → n + length b ≡ 255
    → drop ((n + 1) % tf_scalars) (a ++ x ∷ b) ++ take ((n + 1) % tf_scalars) (a ++ x ∷ b)
      ≡ (b ++ a) ++ x ∷ []
turned_next n a [] x e l = whole_at_start (a ++ x ∷ []) _ (omega (arith, l))
turned_next n a (y ∷ b) x e l =
    let s = length-append a (x ∷ []) in
    turned_at (a ++ x ∷ y ∷ b) (a ++ x ∷ []) (y ∷ b) _ (sym (append_assoc a (x ∷ []) (y ∷ b)))
      (omega (arith, s, e, l))
    ∙ sym (append_assoc (y ∷ b) a (x ∷ []))

-- A full table: the new value takes the place of the oldest.
rounded :
    (f keep n : ℕ) (a b : List (ℕ × ℕ)) (o : ℕ × ℕ)
    → length a ≡ n
    → length (a ++ o ∷ b) ≡ tf_scalars
    → Keeps f keep
        (record { scalars = a ++ o ∷ b; scalar_next = n })
        (record { scalars = a ++ (f, keep) ∷ b; scalar_next = (n + 1) % tf_scalars }, some o.1)
unfolding recent
rounded f keep n a b o e l =
    let s = length-append a (o ∷ b) in
    let t = length-append a ((f, keep) ∷ b) in
    let u = length-append b a in
    let v : List (ℕ × ℕ) = o ∷ b in
    let oldest_first : drop n (a ++ v) ++ take n (a ++ v) ≡ o ∷ (b ++ a) =
      rw (sym e) (turned a v) in
    let full = remember_full f keep _ (b ++ a) o oldest_first (omega (arith, s, u, l)) in
    record {
      ring = record {
        bounded = omega (arith, s, t, l);
        next_inside = omega (arith, s, t, l);
        next_below = omega arith;
        at_end = inr (omega (arith, s, t, l));
      };
      queue =
          turned_next n a b (f, keep) e (omega (arith, s, e, l))
          ∙ sym (ap (λ (x : List (ℕ × ℕ) × Option ℕ). x.0) full);
      given_back = sym (ap (λ (x : List (ℕ × ℕ) × Option ℕ). x.1) full);
    }

full-Keeps :
    (f keep : ℕ) (c : ScalarCache)
    → length c.scalars ≡ tf_scalars
    → c.scalar_next < tf_scalars
    → Keeps f keep c (
      record {
        scalars = put_scalar c.scalars c.scalar_next (f, keep);
        scalar_next = (c.scalar_next + 1) % tf_scalars;
      },
      handle_at c.scalars c.scalar_next,
    )
full-Keeps f keep c l n = from (Split-at c.scalar_next c.scalars (omega (arith, l, n))) l
  where
    from :
        {e : List (ℕ × ℕ)}
        → Split c.scalar_next e
        → length e ≡ tf_scalars
        → Keeps f keep
            (record { scalars = e; scalar_next = c.scalar_next })
            (
              record {
                scalars = put_scalar e c.scalar_next (f, keep);
                scalar_next = (c.scalar_next + 1) % tf_scalars;
              },
              handle_at e c.scalar_next,
            )
    from (split a b o q) m =
        rw
          (
            ap (λ (i : ℕ). put_scalar (a ++ o ∷ b) i (f, keep)) (sym q)
                ∙ put_scalar-append a b o (f, keep),
            ap (handle_at (a ++ o ∷ b)) (sym q) ∙ handle_at-append a b o,
          )
          (rounded f keep c.scalar_next a b o q m)

keep_scalar-Keeps :
    (f keep : ℕ) (c : ScalarCache) → IsRing c → Keeps f keep c (keep_scalar f keep c)
keep_scalar-Keeps f keep c r = elim (leb_cases tf_scalars (length c.scalars)) [
  | inr room ↦
      let l = room.0 in
      let e : c.scalar_next ≡ length c.scalars = at_the_end r.at_end l in
      rw (filled f keep c l e) (filled-Keeps f keep c l e)
  | inl full ↦
      let b = r.bounded in
      let f0 = full.0 in
      let e : length c.scalars ≡ tf_scalars = omega (arith, b, f0) in
      rw (turned_over f keep c e) (full-Keeps f keep c e r.next_below)
]
  where
    at_the_end :
        (c.scalar_next ≡ length c.scalars) ⊎ (length c.scalars ≡ tf_scalars)
        → length c.scalars < tf_scalars
        → c.scalar_next ≡ length c.scalars
    at_the_end (inl e) l = e
    at_the_end (inr e) l = absurd (omega (arith, e, l))

unfoldable pub is_found : Option ℕ → Bool
is_found none = false
is_found (some e) = true

found-append :
    (g : ℕ) (xs ys : List (ℕ × ℕ))
    → is_found (find_scalar g (xs ++ ys))
      ≡ is_found (find_scalar g xs) || is_found (find_scalar g ys)
unfolding find_scalar is_found
found-append g [] ys = refl
found-append g (x ∷ xs) ys = by_test (same_float x.0 g) _ _ _ (found-append g xs ys)
  where
    by_test :
        (b : Bool) (o p q : Option ℕ)
        → is_found o ≡ is_found p || is_found q
        → is_found (if b then some x.1 else o) ≡ is_found (if b then some x.1 else p) || is_found q
    by_test true o p q e = refl
    by_test false o p q e = e

or_comm : (a b : Bool) → (a || b) ≡ (b || a)
or_comm true true = refl
or_comm true false = refl
or_comm false true = refl
or_comm false false = refl

-- Whatever is looked up, the table has it when the queue does.
found-recent :
    (g : ℕ) (c : ScalarCache)
    → is_found (find_scalar g c.scalars) ≡ is_found (find_scalar g (recent c))
unfolding recent
found-recent g c =
    sym (
      ap (λ (l : List (ℕ × ℕ)). is_found (find_scalar g l))
        (take-append-drop c.scalar_next c.scalars))
    ∙ found-append g (take c.scalar_next c.scalars) (drop c.scalar_next c.scalars)
    ∙ or_comm (is_found (find_scalar g (take c.scalar_next c.scalars)))
        (is_found (find_scalar g (drop c.scalar_next c.scalars)))
    ∙ sym (found-append g (drop c.scalar_next c.scalars) (take c.scalar_next c.scalars))

-- Storing a scalar is putting it last in a queue of 256, whose first goes when it is full: the ring
-- stays one, the handle that goes back to TensorFlow is the one that the queue lets go of, and then a
-- value is found in the table just when it is in the queue.
pub keep_scalar-Refines :
    (f keep g : ℕ) (c : ScalarCache)
    → IsRing c
    → Keeps f keep c (keep_scalar f keep c)
      × (is_found (find_scalar g (keep_scalar f keep c).0.scalars)
          ≡ is_found (find_scalar g (remember f keep (recent c)).0))
keep_scalar-Refines f keep g c r =
    let k = keep_scalar-Keeps f keep c r in
    (
      k,
      found-recent g (keep_scalar f keep c).0
          ∙ ap (λ (l : List (ℕ × ℕ)). is_found (find_scalar g l)) k.queue,
    )

-- ===== src/Order/Reversal.antt =====
-- The loop of `reorder` turns its bytes round.
use cocolog.Prelude.{
  ℕ, zero, suc, ◌+◌, ◌-◌, ◌/◌, ◌≡◌, refl, sym, ap, ◌∙◌, Bool, true, false, List, if◌then◌else◌, [],
  ◌∷◌, ◌++◌, append-nil, append_assoc, arith, length, length-append,
}
use mathlib.Core.List.{reverse, reverse-append}
use cocolog.Order.{get_or, set, swap_ends, swap_loop, reorder}

get_or-middle :
    (xs : List ℕ) (a : ℕ) (ys : List ℕ) (d : ℕ) → get_or (xs ++ (a ∷ ys)) (length xs) d ≡ a
unfolding get_or
get_or-middle [] a ys d = refl
get_or-middle (x ∷ xs) a ys d = get_or-middle xs a ys d

pub set-middle :
    (xs : List ℕ) (a : ℕ) (ys : List ℕ) (v : ℕ)
    → set (xs ++ (a ∷ ys)) (length xs) v ≡ xs ++ (v ∷ ys)
unfolding set
set-middle [] a ys v = refl
set-middle (x ∷ xs) a ys v = ap (λ (l : List ℕ). x ∷ l) (set-middle xs a ys v)

-- The last element of a list that is not empty.
record Split (x : ℕ) (xs : List ℕ) : Type 0 where
  front : List ℕ
  last : ℕ
  whole : x ∷ xs ≡ front ++ (last ∷ [])

Split-last : (x : ℕ) (xs : List ℕ) → Split x xs
Split-last x [] = record { front = []; last = x; whole = refl }
Split-last x (y ∷ ys) =
    let r = Split-last y ys in
    record { front = x ∷ r.front; last = r.last; whole = ap (λ (l : List ℕ). x ∷ l) r.whole }

get_or-at :
    (xs : List ℕ) (a : ℕ) (ys : List ℕ) (i : ℕ) → i ≡ length xs → get_or (xs ++ (a ∷ ys)) i 0 ≡ a
get_or-at xs a ys i e = rw e (get_or-middle xs a ys 0)

set-at :
    (xs : List ℕ) (a : ℕ) (ys : List ℕ) (v i : ℕ)
    → i ≡ length xs
    → set (xs ++ (a ∷ ys)) i v ≡ xs ++ (v ∷ ys)
set-at xs a ys v i e = rw e (set-middle xs a ys v)

-- One swap, of the ends `a` and `z` of the part that is not yet turned.
swap_ends-middle :
    (n : ℕ) (xs : List ℕ) (a : ℕ) (mid : List ℕ) (z : ℕ) (ys : List ℕ)
    → length xs ≡ length ys
    → n ≡ length xs + length mid + length ys + 2
    → swap_ends n (length xs) (xs ++ (a ∷ (mid ++ (z ∷ ys))))
      ≡ (xs ++ (z ∷ [])) ++ (mid ++ (a ∷ ys))
unfolding swap_ends
swap_ends-middle n xs a mid z ys same e =
    let at_end : (c : ℕ) → n - 1 - length xs ≡ length (xs ++ (c ∷ mid)) =
      λ c. omega (arith, length-append xs (c ∷ mid)) in
    let split : (c : ℕ) → xs ++ (c ∷ (mid ++ (z ∷ ys))) ≡ (xs ++ (c ∷ mid)) ++ (z ∷ ys) =
      λ c. sym (append_assoc xs (c ∷ mid) (z ∷ ys)) in
    rw (get_or-middle xs a) (
      rw
        (ap (λ (l : List ℕ). get_or l (n - 1 - length xs) 0) (split a)
          ∙ get_or-at (xs ++ (a ∷ mid)) z ys _ (at_end a))
        (rw (set-middle xs a) (
          ap (λ (l : List ℕ). set l (n - 1 - length xs) a) (split z)
          ∙ set-at (xs ++ (z ∷ mid)) z ys a _ (at_end z)
          ∙ append_assoc xs (z ∷ mid) (a ∷ ys)
          ∙ sym (append_assoc xs (z ∷ []) (mid ++ (a ∷ ys))))))

reverse-ends :
    (a : ℕ) (mid : List ℕ) (z : ℕ) → reverse (a ∷ (mid ++ (z ∷ []))) ≡ z ∷ (reverse mid ++ (a ∷ []))
reverse-ends a mid z =
    reverse-append (a ∷ []) (mid ++ (z ∷ []))
    ∙ ap (λ (l : List ℕ). l ++ (a ∷ [])) (reverse-append mid (z ∷ []))

swap_loop-middle :
    (k n : ℕ) (xs mid ys : List ℕ)
    → length xs ≡ length ys
    → n ≡ length xs + length mid + length ys
    → k ≡ length mid / 2
    → swap_loop k n (length xs) (xs ++ (mid ++ ys)) ≡ xs ++ (reverse mid ++ ys)
unfolding swap_loop
swap_loop-middle zero n xs [] ys same e ek = refl
swap_loop-middle zero n xs (a ∷ []) ys same e ek = refl
swap_loop-middle zero n xs (a ∷ b ∷ mid) ys same e ek = absurd (omega arith)
swap_loop-middle (suc k) n xs [] ys same e ek = absurd (omega arith)
swap_loop-middle (suc k) n xs (a ∷ []) ys same e ek = absurd (omega arith)
swap_loop-middle (suc k) n xs (a ∷ b ∷ mid) ys same e ek =
    let r = Split-last b mid in
    let front = r.front in
    let z = r.last in
    let long : length (b ∷ mid) ≡ length front + 1 =
      ap length r.whole ∙ length-append front (z ∷ []) in
    let grown : length (xs ++ (z ∷ [])) ≡ length xs + 1 = length-append xs (z ∷ []) in
    ap (λ (l : List ℕ). swap_loop k n (length xs + 1) (swap_ends n (length xs) (xs ++ (a ∷ l))))
      (ap (λ (l : List ℕ). l ++ ys) r.whole ∙ append_assoc front (z ∷ []) ys)
    ∙ ap (swap_loop k n (length xs + 1)) (swap_ends-middle n xs a front z ys same (omega arith))
    ∙ ap (λ (i : ℕ). swap_loop k n i ((xs ++ (z ∷ [])) ++ (front ++ (a ∷ ys)))) (sym grown)
    ∙ swap_loop-middle k n (xs ++ (z ∷ [])) front (a ∷ ys) (omega arith) (omega arith) (omega arith)
    ∙ append_assoc xs (z ∷ []) _
    ∙ ap (λ (l : List ℕ). xs ++ (z ∷ l)) (sym (append_assoc (reverse front) (a ∷ []) ys))
    ∙ ap (λ (l : List ℕ). xs ++ (l ++ ys))
        (sym (ap (λ (l : List ℕ). reverse (a ∷ l)) r.whole ∙ reverse-ends a front z))

-- `reorder` leaves the bytes alone on a big-endian machine, and turns them round on any other.
pub reorder-lem : (big : Bool) (b : List ℕ) → reorder big b ≡ (if big then b else reverse b)
unfolding reorder
reorder-lem true b = refl
reorder-lem false b =
    ap (swap_loop (length b / 2) (length b) 0) (sym (append-nil b))
    ∙ swap_loop-middle (length b / 2) (length b) [] b [] refl (omega arith) refl
    ∙ append-nil (reverse b)

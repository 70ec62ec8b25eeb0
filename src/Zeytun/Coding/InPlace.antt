-- ===== src/Zeytun/Coding/InPlace.antt =====
-- The loop of `zt_unescape` writes over what it has read: it is the replacement of the entities.
use cocolog.Prelude.{
  ℕ, zero, suc, ◌+◌, ◌≤◌, ◌<◌, ◌≡◌, refl, sym, ap, ◌∙◌, Option, some, List, [], ◌∷◌, ◌++◌,
  append_assoc, append-nil, arith, length, length-append, drop, drop_inside, drop_beyond, drop-drop,
  length-drop, All,
}
use cocolog.Order.{get_or, set}
use cocolog.Order.Reversal.{set-middle}
use cocolog.Zeytun.Coding.{unescape_round, unescape_loop, unescape}
use cocolog.Zeytun.Coding.Entities.{
  replaced_after, replaced, is_zero-positive, round_terminated, round_inside,
}

-- `t` with its terminator, and `n` bytes in all, are in the buffer.
pub data Leaves (t : List ℕ) (n : ℕ) : Option (List ℕ × ℕ) → Type 0 where
  leaves :
      (rest : List ℕ) → length (t ++ (0 ∷ rest)) ≡ n → Leaves t n (some (t ++ (0 ∷ rest), length t))

-- A round that is not the last.
unescape_loop-step :
    (fuel : ℕ) (s : List ℕ) (r w c : ℕ) (e : ℕ × ℕ)
    → get_or s r 0 ≡ c
    → unescape_round c (drop r s) ≡ e
    → 0 < c
    → unescape_loop (suc fuel) s r w ≡ unescape_loop fuel (set s w e.0) (r + suc e.1) (w + 1)
unfolding unescape_loop
unescape_loop-step fuel s r w c e g q h = rw (g, q, is_zero-positive c h) refl

get_or-drop : (s : List ℕ) (r : ℕ) → get_or s r 0 ≡ get_or (drop r s) 0 0
unfolding get_or
get_or-drop [] zero = refl
get_or-drop [] (suc r) = refl
get_or-drop (x ∷ s) zero = refl
get_or-drop (x ∷ s) (suc r) = get_or-drop s r

replaced_after-drop : (k : ℕ) (s : List ℕ) → replaced_after k s ≡ replaced (drop k s)
unfolding replaced replaced_after
replaced_after-drop zero s = refl
replaced_after-drop (suc k) [] = refl
replaced_after-drop (suc k) (c ∷ s) = replaced_after-drop k s

All-drop : (k : ℕ) (s : List ℕ) → All (λ c. 0 < c) s → All (λ c. 0 < c) (drop k s)
All-drop zero s h = h
All-drop (suc k) [] h = tt
All-drop (suc k) (c ∷ s) h = All-drop k s h.1

-- The last round.
unescape_loop-last :
    (fuel : ℕ) (s : List ℕ) (r w : ℕ)
    → get_or s r 0 ≡ 0
    → unescape_loop (suc fuel) s r w ≡ some (set s w 0, w)
unfolding unescape_loop
unescape_loop-last fuel s r w g = rw g refl

replaced-round :
    (c : ℕ) (cs : List ℕ)
    → replaced (c ∷ cs)
      ≡ (unescape_round c (c ∷ cs)).0 ∷ replaced (drop (unescape_round c (c ∷ cs)).1 cs)
unfolding replaced replaced_after
replaced-round c cs =
    ap (λ (l : List ℕ). (unescape_round c (c ∷ cs)).0 ∷ l) (replaced_after-drop _ cs)

-- The buffer is what has been written and then `tail`, of which `j` bytes are read already.
module _ (s : List ℕ) (r w : ℕ) (done : List ℕ) (x : ℕ) (tail : List ℕ) (j : ℕ)
    (es : s ≡ done ++ (x ∷ tail)) (ew : w ≡ length done) (er : r ≡ length done + j) where
  set-done : (v : ℕ) → set s w v ≡ done ++ (v ∷ tail)
  set-done v =
      ap (λ (l : List ℕ). set l w v) es
      ∙ ap (λ (i : ℕ). set (done ++ (x ∷ tail)) i v) ew
      ∙ set-middle done x tail v

  drop-done : drop r s ≡ drop j (x ∷ tail)
  drop-done =
      ap (drop r) es
      ∙ drop_beyond r done (x ∷ tail) (omega (arith, er))
      ∙ ap (λ (k : ℕ). drop k (x ∷ tail)) (omega (arith, er))

  length-set-done : (v : ℕ) → length (set s w v) ≡ length s
  length-set-done v =
      ap length (set-done v)
      ∙ length-append done (v ∷ tail)
      ∙ sym (length-append done (x ∷ tail))
      ∙ ap length (sym es)

  read-done : (cs : List ℕ) → drop j (x ∷ tail) ≡ cs → get_or s r 0 ≡ get_or cs 0 0
  read-done cs et = get_or-drop s r ∙ ap (λ (l : List ℕ). get_or l 0 0) (drop-done ∙ et)

drop-round :
    (j k x : ℕ) (tail : List ℕ) (c : ℕ) (cs ys : List ℕ)
    → drop j (x ∷ tail) ≡ c ∷ (cs ++ (0 ∷ ys))
    → k ≤ length cs
    → drop (j + k) tail ≡ drop k cs ++ (0 ∷ ys)
drop-round j k x tail c cs ys et h =
    sym (drop-drop j (suc k) (suc (j + k)) (x ∷ tail) (omega arith))
    ∙ ap (drop (suc k)) et
    ∙ drop_inside k cs (0 ∷ ys) h

Leaves-cast :
    {t u : List ℕ} {m n : ℕ} {p q : Option (List ℕ × ℕ)}
    → t ≡ u
    → m ≡ n
    → p ≡ q
    → Leaves u n q
    → Leaves t m p
Leaves-cast et en er h = rw (et, en, er) h

unescape_loop-Leaves :
    (fuel : ℕ) (s : List ℕ) (r w : ℕ) (done tail : List ℕ) (j : ℕ) (cs ys : List ℕ)
    → s ≡ done ++ tail
    → w ≡ length done
    → r ≡ length done + j
    → drop j tail ≡ cs ++ (0 ∷ ys)
    → All (λ c. 0 < c) cs
    → length cs < fuel
    → Leaves (done ++ replaced cs) (length s) (unescape_loop fuel s r w)
unfolding get_or replaced replaced_after
unescape_loop-Leaves zero s r w done tail j cs ys es ew er et h k = absurd (omega arith)
unescape_loop-Leaves (suc fuel) s r w done [] j cs ys es ew er et h k = absurd (
    let a = ap length et in
    let b : length (drop {A = ℕ} j []) ≡ 0 = length-drop {A = ℕ} j [] ∙ omega arith in
    let c = length-append cs (0 ∷ ys) in omega (arith, a, b, c))
unescape_loop-Leaves (suc fuel) s r w done (x ∷ tail) j [] ys es ew er et h k =
    rw
      (
        unescape_loop-last fuel s r w (read-done s r w done x tail j es ew er _ et),
        set-done s r w done x tail j es ew er 0,
        ew,
        append-nil done,
      )
      (leaves tail (
        ap length (sym (set-done s r w done x tail j es ew er 0))
        ∙ length-set-done s r w done x tail j es ew er 0))
unescape_loop-Leaves (suc fuel) s r w done (x ∷ tail) j (c ∷ cs) ys es ew er et h k =
    let e = unescape_round c (c ∷ cs) in
    let next = set s w e.0 in
    let inside = round_inside c cs in
    let left = length-drop e.1 cs in
    let ih =
      unescape_loop-Leaves fuel next (r + suc e.1) (w + 1) (done ++ (e.0 ∷ [])) tail (j + e.1)
        (drop e.1 cs) ys
        (set-done s r w done x tail j es ew er e.0 ∙ sym (append_assoc done (e.0 ∷ []) tail))
        (omega (arith, ew, length-append done (e.0 ∷ [])))
        (omega (arith, er, length-append done (e.0 ∷ [])))
        (drop-round j e.1 x tail c cs ys et inside) (All-drop e.1 cs h.1)
        (omega (arith, left, k)) in
    Leaves-cast
      (ap (λ (l : List ℕ). done ++ l) (replaced-round c cs) ∙ sym (append_assoc done (e.0 ∷ []) _))
      (sym (length-set-done s r w done x tail j es ew er e.0))
      (unescape_loop-step fuel s r w c e (read-done s r w done x tail j es ew er _ et)
        (ap (unescape_round c) (drop-done s r w done x tail j es ew er ∙ et)
          ∙ round_terminated c (c ∷ cs) ys)
        h.0)
      ih

-- On a C string the loop in place ends, and leaves the text with its entities replaced.
pub unescape-Leaves :
    (s ys : List ℕ)
    → All (λ c. 0 < c) s
    → Leaves (replaced s) (length (s ++ (0 ∷ ys))) (unescape (s ++ (0 ∷ ys)))
unfolding unescape
unescape-Leaves s ys h =
    unescape_loop-Leaves _ _ 0 0 [] _ 0 s ys refl refl refl refl h
      (omega (arith, length-append s (0 ∷ ys)))

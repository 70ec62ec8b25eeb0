-- ===== src/Zeytun/Fetching/Status.antt =====
-- The status line that `zt_get2` of client/zeytun.c demands: HTTP/1.x with the status 200.
use cocolog.Prelude.{
  ℕ, zero, suc, ◌≡◌, ◌≢◌, refl, sym, ap, ◌∙◌, ◌⊎◌, ◌&&◌, ◌==◌, eq_cases, eq_other, arith, text,
  Bool, true, false, Option, none, some, List, [], ◌∷◌, ◌++◌, drop, length, if◌then◌else◌, inl, inr,
  Bool-cases,
}
use cocolog.Tls.{starts}
use cocolog.Zeytun.Pages.{find_text}
use cocolog.Zeytun.Fetching.{is_at_eight, is_success}

-- A status line with the status 200.
unfoldable pub HasStatus : List ℕ → Type 0
HasStatus s = (v : ℕ) × (r : List ℕ) × (s ≡ text "HTTP/1." ++ (v ∷ (text " 200 " ++ r)))

and_left : (a b : Bool) → (a && b) ≡ true → a ≡ true
and_left true b e = refl
and_left false b e = absurd cc

and_right : (a b : Bool) → (a && b) ≡ true → b ≡ true
and_right true b e = e
and_right false b e = absurd cc

never : (a b : Bool) → a ≡ false → (a && b) ≡ true → ⊥
never true b f e = cc
never false b f e = cc

nothing : starts (text " 200 ") [] ≡ true → ⊥
unfolding starts text
nothing e = cc

starts-true : (p s : List ℕ) → starts p s ≡ true → s ≡ p ++ drop (length p) s
unfolding starts
starts-true [] s e = refl
starts-true (c ∷ p) [] e = absurd cc
starts-true (c ∷ p) (d ∷ s) e = both (eq_cases c d) (starts-true p s)
  where
    both :
        (c ≡ d) ⊎ (c ≢ d)
        → (starts p s ≡ true → s ≡ p ++ drop (length p) s)
        → d ∷ s ≡ c ∷ (p ++ drop (length p) s)
    both (inl q) k = rw q (ap (λ (l : List ℕ). d ∷ l) (k (and_right (c == d) _ e)))
    both (inr n) k = absurd (never (c == d) _ (eq_other c d n) e)

drop-nil : (i : ℕ) → drop {A = ℕ} i [] ≡ []
drop-nil zero = refl
drop-nil (suc i) = refl

no_place : (b : Bool) {i : ℕ} → b ≡ false → (if b then some 0 else none) ≡ some i → ⊥
no_place true f e = cc
no_place false f e = cc

not_here :
    (b : Bool) (i : ℕ) (o : Option ℕ) → b ≡ true → (if b then some 0 else o) ≡ some (suc i) → ⊥
not_here true i o f e = by_value (ap (λ (o : Option ℕ). elim o [ none ↦ 0 | some j ↦ j ]) e)
  where
    by_value : 0 ≡ suc i → ⊥
    by_value q = omega (arith, q)
not_here false i o f e = cc

not_first : (b : Bool) (j : ℕ) → b ≡ false → (if b then some 0 else some (suc j)) ≡ some 0 → ⊥
not_first true j f e = cc
not_first false j f e = by_value (ap (λ (o : Option ℕ). elim o [ none ↦ 0 | some j ↦ j ]) e)
  where
    by_value : suc j ≡ 0 → ⊥
    by_value q = omega (arith, q)

by_tail :
    (b : Bool) (i j : ℕ)
    → b ≡ false
    → (if b then some 0 else some (suc j)) ≡ some (suc i)
    → some j ≡ some i
by_tail true i j f e = absurd cc
by_tail false i j f e =
    ap some (by_value (ap (λ (o : Option ℕ). elim o [ none ↦ 0 | some j ↦ j ]) e))
  where
    by_value : suc j ≡ suc i → j ≡ i
    by_value q = omega (arith, q)

find_text-at : (p s : List ℕ) (i : ℕ) → find_text p s ≡ some i → starts p (drop i s) ≡ true
unfolding find_text
find_text-at p [] i e = at_end (Bool-cases (starts p [])) e
  where
    at_end :
        (starts p [] ≡ true) ⊎ (starts p [] ≡ false)
        → (if starts p [] then some 0 else none) ≡ some i
        → starts p (drop i []) ≡ true
    at_end (inl h) q = rw (drop-nil i) h
    at_end (inr h) q = absurd (no_place (starts p []) h q)
find_text-at p (c ∷ s) i e =
    further i (Bool-cases (starts p (c ∷ s))) (find_text p s) (find_text-at p s) e
  where
    further :
        (i : ℕ)
        → (starts p (c ∷ s) ≡ true) ⊎ (starts p (c ∷ s) ≡ false)
        → (o : Option ℕ) → ((j : ℕ) → o ≡ some j → starts p (drop j s) ≡ true)
        → (if starts p (c ∷ s) then some 0 else elim o [ none ↦ none | some j ↦ some (suc j) ])
          ≡ some i
        → starts p (drop i (c ∷ s)) ≡ true
    further zero (inl h) o k q = h
    further (suc i) (inl h) o k q = absurd (not_here (starts p (c ∷ s)) i _ h q)
    further i (inr h) none k q = absurd (no_place (starts p (c ∷ s)) h q)
    further zero (inr h) (some j) k q = absurd (not_first (starts p (c ∷ s)) j h q)
    further (suc i) (inr h) (some j) k q = k i (by_tail (starts p (c ∷ s)) i j h q)

is_at_eight-some : (o : Option ℕ) → is_at_eight o ≡ true → o ≡ some 8
unfolding is_at_eight
is_at_eight-some none e = absurd cc
is_at_eight-some (some i) e = ap some (ground (arith, e))

status_line :
    (s : List ℕ)
    → starts (text "HTTP/1.") s ≡ true
    → starts (text " 200 ") (drop 8 s) ≡ true
    → HasStatus s
unfolding HasStatus text
status_line s e f =
    let q = starts-true (text "HTTP/1.") s e in
    behind (drop 7 s) q (ap (λ (l : List ℕ). starts (text " 200 ") (drop 8 l)) (sym q) ∙ f)
  where
    behind :
        (u : List ℕ)
        → s ≡ text "HTTP/1." ++ u
        → starts (text " 200 ") (drop 8 (text "HTTP/1." ++ u)) ≡ true
        → (v : ℕ) × (r : List ℕ) × (s ≡ text "HTTP/1." ++ (v ∷ (text " 200 " ++ r)))
    behind [] q g = absurd (nothing g)
    behind (v ∷ w) q g = (
      v,
      drop 5 w,
      q ∙ ap (λ (l : List ℕ). text "HTTP/1." ++ (v ∷ l)) (starts-true (text " 200 ") w g),
    )

pub is_success-HasStatus : (s : List ℕ) → is_success s ≡ true → HasStatus s
unfolding is_success
is_success-HasStatus s e = status_line s (and_left _ _ e) (
    find_text-at (text " 200 ") s 8
      (is_at_eight-some _ (and_right (starts (text "HTTP/1.") s) _ e)))

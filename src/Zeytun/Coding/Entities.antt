-- ===== src/Zeytun/Coding/Entities.antt =====
-- The five entities of `zt_unescape`, and the replacement of them in a text.
use cocolog.Prelude.{
  ℕ, zero, suc, ◌≤◌, ◌<◌, ◌≡◌, refl, ap, Bool, true, false, Option, none, some, List, [], ◌∷◌, ◌++◌,
  arith, length, text, Bool-cases, ◌&&◌, if◌then◌else◌, All, ◌==◌, inl, inr,
}
use cocolog.Tls.{starts}
use cocolog.Zeytun.Coding.{entity_at, unescape_round, taken_at}

-- The reference: the text with each of the five entities replaced, `k` characters to be passed over.
unfoldable pub replaced_after : ℕ → List ℕ → List ℕ
replaced_after k [] = []
replaced_after zero (c ∷ s) =
    let e = unescape_round c (c ∷ s) in let rest = replaced_after e.1 s in e.0 ∷ rest
replaced_after (suc k) (c ∷ s) = replaced_after k s

unfoldable pub replaced : List ℕ → List ℕ
replaced s = replaced_after 0 s

pub is_zero-positive : (c : ℕ) → 0 < c → (c == 0) ≡ false
is_zero-positive c h = ground arith

starts-terminated : (p s ys : List ℕ) → All (λ c. 0 < c) p → starts p (s ++ (0 ∷ ys)) ≡ starts p s
unfolding starts
starts-terminated [] s ys h = refl
starts-terminated (c ∷ p) [] ys h = rw (is_zero-positive c h.0) refl
starts-terminated (c ∷ p) (d ∷ s) ys h =
    ap (λ (b : Bool). (c == d) && b) (starts-terminated p s ys h.1)

starts-long : (p s : List ℕ) → starts p s ≡ true → length p ≤ length s
unfolding starts
starts-long [] s h = omega arith
starts-long (c ∷ p) [] h = cc
starts-long (c ∷ p) (d ∷ s) h =
    let b = starts-long p s (second (c == d) (starts p s) h) in omega (arith, b)
  where
    second : (a b : Bool) → (a && b) ≡ true → b ≡ true
    second true b h = h
    second false b h = cc

-- No entity has a zero in it.
pub amp-positive : All (λ c. 0 < c) (text "&amp;")
unfolding text
amp-positive = (omega arith, (omega arith, (omega arith, (omega arith, (omega arith, tt)))))

pub lt-positive : All (λ c. 0 < c) (text "&lt;")
unfolding text
lt-positive = (omega arith, (omega arith, (omega arith, (omega arith, tt))))

pub gt-positive : All (λ c. 0 < c) (text "&gt;")
unfolding text
gt-positive = (omega arith, (omega arith, (omega arith, (omega arith, tt))))

pub quot-positive : All (λ c. 0 < c) (text "&quot;")
unfolding text
quot-positive =
    (omega arith, (omega arith, (omega arith, (omega arith, (omega arith, (omega arith, tt))))))

pub apos-positive : All (λ c. 0 < c) (text "&#39;")
unfolding text
apos-positive = (omega arith, (omega arith, (omega arith, (omega arith, (omega arith, tt)))))

-- The terminator ends no entity.
entity_at-terminated : (s ys : List ℕ) → entity_at (s ++ (0 ∷ ys)) ≡ entity_at s
unfolding entity_at
entity_at-terminated s ys =
    rw
      (
        starts-terminated (text "&amp;") s ys amp-positive,
        starts-terminated (text "&lt;") s ys lt-positive,
        starts-terminated (text "&gt;") s ys gt-positive,
        starts-terminated (text "&quot;") s ys quot-positive,
        starts-terminated (text "&#39;") s ys apos-positive,
      )
      refl

-- An entity lies inside of the text.
abbrev FitsIn : ℕ → Option (ℕ × ℕ) → Type 0
FitsIn n none = Unit
FitsIn n (some e) = e.1 < n

FitsIn-if :
    (s p : List ℕ) (e : ℕ × ℕ) (o : Option (ℕ × ℕ))
    → e.1 < length p
    → FitsIn (length s) o
    → FitsIn (length s) (if starts p s then some e else o)
FitsIn-if s p e o h k = elim (Bool-cases (starts p s)) [
  | inl q ↦ rw q (let b = starts-long p s q in omega (arith, b, h))
  | inr q ↦ rw q k
]

entity_at-FitsIn : (s : List ℕ) → FitsIn (length s) (entity_at s)
unfolding entity_at text
entity_at-FitsIn s =
    FitsIn-if s (text "&amp;") (38, 4) _ (omega arith)
      (FitsIn-if s (text "&lt;") (60, 3) _ (omega arith)
        (FitsIn-if s (text "&gt;") (62, 3) _ (omega arith)
          (FitsIn-if s (text "&quot;") (34, 5) _ (omega arith)
            (FitsIn-if s (text "&#39;") (39, 4) _ (omega arith) (tt)))))

pub round_terminated :
    (c : ℕ) (s ys : List ℕ) → unescape_round c (s ++ (0 ∷ ys)) ≡ unescape_round c s
unfolding unescape_round
round_terminated c s ys = ap (taken_at c) (entity_at-terminated s ys)

taken_inside : (n c : ℕ) (o : Option (ℕ × ℕ)) → FitsIn (suc n) o → (taken_at c o).1 ≤ n
unfolding taken_at
taken_inside n c none h = omega arith
taken_inside n c (some e) h = elim (Bool-cases (c == 38)) [
  | inl q ↦ rw q (omega (arith, h))
  | inr q ↦ rw q (omega arith)
]

pub round_inside : (c : ℕ) (s : List ℕ) → (unescape_round c (c ∷ s)).1 ≤ length s
unfolding unescape_round
round_inside c s = taken_inside (length s) c _ (entity_at-FitsIn (c ∷ s))

pub length-replaced_after : (k : ℕ) (s : List ℕ) → length (replaced_after k s) ≤ length s
unfolding replaced_after
length-replaced_after k [] = omega arith
length-replaced_after zero (c ∷ s) =
    let b = length-replaced_after (unescape_round c (c ∷ s)).1 s in omega (arith, b)
length-replaced_after (suc k) (c ∷ s) = let b = length-replaced_after k s in omega (arith, b)

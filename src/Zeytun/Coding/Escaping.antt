-- ===== src/Zeytun/Coding/Escaping.antt =====
-- `zt_unescape` takes back what Zeytun's escaper does.
use cocolog.Prelude.{
  ℕ, ◌<◌, ◌≡◌, refl, ap, ◌∙◌, Bool, true, false, Option, none, some, List, [], ◌∷◌, ◌++◌, arith,
  length, text, Bool-cases, if◌then◌else◌, All, ◌==◌, inl, inr,
}
use cocolog.Tls.{starts}
use cocolog.Zeytun.Coding.{entity_at, unescape_round, unescape, taken_at}
use cocolog.Zeytun.Coding.Entities.{
  replaced_after, replaced, amp-positive, lt-positive, gt-positive, quot-positive, apos-positive,
}
use cocolog.Zeytun.Coding.InPlace.{Leaves, unescape-Leaves}

-- What Zeytun's escaper does to a text: each of the five characters becomes its entity.
unfoldable pub escaped_char : ℕ → List ℕ
escaped_char c =
    if c == 38
    then text "&amp;"
    else if c == 60
    then text "&lt;"
    else if c == 62
    then text "&gt;"
    else if c == 34
    then text "&quot;"
    else if c == 39
    then text "&#39;"
    else c ∷ []

unfoldable pub escaped : List ℕ → List ℕ
escaped [] = []
escaped (c ∷ s) = escaped_char c ++ escaped s

taken_plain : (c : ℕ) (o : Option (ℕ × ℕ)) → (c == 38) ≡ false → taken_at c o ≡ (c, 0)
unfolding taken_at
taken_plain c none h = refl
taken_plain c (some e) h = rw h refl

replaced-plain : (c : ℕ) (s : List ℕ) → (c == 38) ≡ false → replaced (c ∷ s) ≡ c ∷ replaced s
unfolding replaced replaced_after unescape_round
replaced-plain c s h = rw (taken_plain c (entity_at (c ∷ s)) h) refl

-- Each entity becomes the character it stands for.
replaced-entity :
    (s : List ℕ)
    → (replaced (text "&amp;" ++ s) ≡ 38 ∷ replaced s)
      × (replaced (text "&lt;" ++ s) ≡ 60 ∷ replaced s)
      × (replaced (text "&gt;" ++ s) ≡ 62 ∷ replaced s)
      × (replaced (text "&quot;" ++ s) ≡ 34 ∷ replaced s)
      × (replaced (text "&#39;" ++ s) ≡ 39 ∷ replaced s)
unfolding replaced replaced_after unescape_round taken_at entity_at text starts
replaced-entity s = (refl, refl, refl, refl, refl)

is_equal : (a b : ℕ) → (a == b) ≡ true → a ≡ b
is_equal a b h = ground arith

replaced-escaped_char : (c : ℕ) (s : List ℕ) → replaced (escaped_char c ++ s) ≡ c ∷ replaced s
unfolding escaped_char
replaced-escaped_char c s =
    let (amp, lt, gt, quot, apos) = replaced-entity s in
    elim (Bool-cases (c == 38)) [
      | inl h ↦ rw (h, is_equal c 38 h) amp
      | inr h ↦ elim (Bool-cases (c == 60)) [
        | inl k ↦ rw (h, k, is_equal c 60 k) lt
        | inr k ↦ elim (Bool-cases (c == 62)) [
          | inl l ↦ rw (h, k, l, is_equal c 62 l) gt
          | inr l ↦ elim (Bool-cases (c == 34)) [
            | inl m ↦ rw (h, k, l, m, is_equal c 34 m) quot
            | inr m ↦ elim (Bool-cases (c == 39)) [
              | inl n ↦ rw (h, k, l, m, n, is_equal c 39 n) apos
              | inr n ↦ rw (h, k, l, m, n) (replaced-plain c s h)
            ]
          ]
        ]
      ]
    ]

pub replaced-escaped : (s : List ℕ) → replaced (escaped s) ≡ s
unfolding escaped replaced replaced_after
replaced-escaped [] = refl
replaced-escaped (c ∷ s) =
    replaced-escaped_char c (escaped s) ∙ ap (λ (l : List ℕ). c ∷ l) (replaced-escaped s)

All-append :
    (xs ys : List ℕ) → All (λ b. 0 < b) xs → All (λ b. 0 < b) ys → All (λ b. 0 < b) (xs ++ ys)
All-append [] ys h k = k
All-append (x ∷ xs) ys h k = (h.0, All-append xs ys h.1 k)

-- A text without a terminator in it.
data NoZero (s : List ℕ) : Type 0 where
  no_zero : All (λ b. 0 < b) s → NoZero s

NoZero-if : (b : Bool) (xs ys : List ℕ) → NoZero xs → NoZero ys → NoZero (if b then xs else ys)
NoZero-if true xs ys h k = h
NoZero-if false xs ys h k = k

escaped_char-NoZero : (c : ℕ) → 0 < c → NoZero (escaped_char c)
unfolding escaped_char
escaped_char-NoZero c h = NoZero-if _ _ _ (no_zero amp-positive) (
    NoZero-if _ _ _ (no_zero lt-positive) (
      NoZero-if _ _ _ (no_zero gt-positive) (
        NoZero-if _ _ _ (no_zero quot-positive)
          (NoZero-if _ _ (c ∷ []) (no_zero apos-positive) (no_zero (h, tt))))))

escaped_char-positive : (c : ℕ) → 0 < c → All (λ b. 0 < b) (escaped_char c)
escaped_char-positive c h = elim (escaped_char-NoZero c h) [ no_zero k ↦ k ]

escaped-positive : (s : List ℕ) → All (λ b. 0 < b) s → All (λ b. 0 < b) (escaped s)
unfolding escaped
escaped-positive [] h = tt
escaped-positive (c ∷ s) h =
    All-append (escaped_char c) (escaped s) (escaped_char-positive c h.0) (escaped-positive s h.1)

-- A text that Zeytun escaped is taken back as it was, in the buffer that it lies in, with its
-- terminator behind it and its length as the answer.
pub unescape-escaped :
    (s ys : List ℕ)
    → All (λ c. 0 < c) s
    → Leaves s (length (escaped s ++ (0 ∷ ys))) (unescape (escaped s ++ (0 ∷ ys)))
unescape-escaped s ys h =
    rw (replaced-escaped s) at (unescape-Leaves (escaped s) ys (escaped-positive s h))

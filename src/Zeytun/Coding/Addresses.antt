-- ===== src/Zeytun/Coding/Addresses.antt =====
-- `zt_urlencode`: what it writes, when it fits, and that nothing is lost.
use cocolog.Prelude.{
  ℕ, ◌+◌, ◌*◌, ◌/◌, ◌%◌, ◌-◌, ◌≤◌, ◌<◌, ◌≡◌, refl, sym, ap, ◌∙◌, ◌⊎◌, Bool, ◌&&◌, ◌||◌, leb, true,
  false, List, [], ◌∷◌, ◌++◌, append_assoc, append-nil, arith, length, length-append, ltb, ltb-true,
  ltb-false, inl, inr, Bool-cases, if◌then◌else◌, All, ◌==◌,
}
use cocolog.Zeytun.Coding.{
  is_safe, hex_digit, Encoding, written, no_room, store, encode_loop, urlencode,
}

-- The encoding of one byte, and of a text: what the code should write, had it room enough.
unfoldable pub encoded_byte : ℕ → List ℕ
encoded_byte c = if is_safe c then c ∷ [] else 37 ∷ (hex_digit (c / 16) ∷ (hex_digit (c % 16) ∷ []))

unfoldable pub encoded : List ℕ → List ℕ
encoded [] = []
encoded (c ∷ p) = encoded_byte c ++ encoded p

-- A text in a buffer, with a terminator.
unfoldable pub if_room : ℕ → List ℕ → Encoding
if_room cap out = if ltb cap (length out + 1) then no_room else written out

if_room-none : (cap : ℕ) (out : List ℕ) → cap < length out + 1 → if_room cap out ≡ no_room
unfolding if_room
if_room-none cap out h = rw (ltb-true cap (length out + 1) h) refl

ltb_holds : (a b : ℕ) → ltb a b ≡ true → a < b
ltb_holds a b h = ground arith

longer : (xs ys zs : List ℕ) → length (xs ++ (ys ++ zs)) ≡ length xs + length ys + length zs
longer xs ys zs = omega (arith, length-append xs (ys ++ zs), length-append ys zs)

ltb_fails : (a b : ℕ) → ltb a b ≡ false → b ≤ a
ltb_fails a b h = ground arith

store-inside :
    (cap : ℕ) (out ys : List ℕ) (r : List ℕ → Encoding)
    → length out + length ys ≤ cap
    → store cap out ys r ≡ r (out ++ ys)
unfolding store
store-inside cap out ys r h = rw (ltb-false cap (length out + length ys) h) refl

encode_end :
    (cap : ℕ) (out : List ℕ)
    → (if ltb cap (length out + 1) then no_room else store cap out (0 ∷ []) (λ _. written out))
      ≡ if_room cap out
unfolding if_room
encode_end cap out = elim (Bool-cases (ltb cap (length out + 1))) [
  | inl h ↦ rw h refl
  | inr h ↦ rw h (store-inside cap out (0 ∷ []) (λ _. written out) (ltb_fails cap _ h))
]

-- One round: it stops where there is no room for `ys` and a terminator.
encode_step :
    (cap n : ℕ) (out ys rest : List ℕ) (r : List ℕ → Encoding)
    → n ≡ length out + (length ys + 1)
    → r (out ++ ys) ≡ if_room cap ((out ++ ys) ++ rest)
    → (if ltb cap n then no_room else store cap out ys r) ≡ if_room cap (out ++ (ys ++ rest))
encode_step cap n out ys rest r e ih = elim (Bool-cases (ltb cap n)) [
  | inl h ↦ rw h (
      sym (
        if_room-none cap (out ++ (ys ++ rest))
          (let k = longer out ys rest in let l = ltb_holds cap n h in omega (arith, k, l))))
  | inr h ↦ rw h (
      store-inside cap out ys r (let l = ltb_fails cap n h in omega (arith, l, e))
      ∙ ih
      ∙ ap (if_room cap) (append_assoc out ys rest))
]

encode_loop-if_room :
    (p : List ℕ) (cap : ℕ) (out : List ℕ) → encode_loop p cap out ≡ if_room cap (out ++ encoded p)
unfolding encode_loop encoded encoded_byte
encode_loop-if_room [] cap out = rw (append-nil out) (encode_end cap out)
encode_loop-if_room (c ∷ p) cap out = elim (Bool-cases (is_safe c)) [
  | inl h ↦ rw h (
      encode_step cap _ out (c ∷ []) (encoded p) (encode_loop p cap) refl
        (encode_loop-if_room p cap _))
  | inr h ↦ rw h (
      encode_step cap _ out (37 ∷ (hex_digit (c / 16) ∷ (hex_digit (c % 16) ∷ []))) (encoded p)
        (encode_loop p cap) refl (encode_loop-if_room p cap _))
]

-- `zt_urlencode` answers the whole encoding if it fits the buffer with its terminator, and 0 if it
-- does not: it never stores outside of the buffer and never cuts.
pub urlencode-fits :
    (s : List ℕ) (cap : ℕ)
    → (length (encoded s) < cap → urlencode s cap ≡ written (encoded s))
      × (cap ≤ length (encoded s) → urlencode s cap ≡ no_room)
unfolding urlencode if_room
urlencode-fits s cap = (
  (λ h.
      encode_loop-if_room s cap []
      ∙ rw (ltb-false cap (length (encoded s) + 1) (omega arith)) refl),
  (λ h. encode_loop-if_room s cap [] ∙ if_room-none cap (encoded s) (omega arith)),
)

-- The percent-decoding of RFC 3986: what is pending is nothing, a sign, or a sign and a digit.
pub data Pending : Type 0 where
  plain percent : Pending
  high : ℕ → Pending

unfoldable pub digit_of : ℕ → ℕ
digit_of h = if ltb h 58 then h - 48 else h - 55

unfoldable pub decoded_from : Pending → List ℕ → List ℕ
decoded_from p [] = []
decoded_from plain (c ∷ cs) =
    let coded = decoded_from percent cs in
    let kept = decoded_from plain cs in if c == 37 then coded else c ∷ kept
decoded_from percent (c ∷ cs) = decoded_from (high (digit_of c)) cs
decoded_from (high d) (c ∷ cs) = (16 * d + digit_of c) ∷ decoded_from plain cs

unfoldable pub decoded : List ℕ → List ℕ
decoded s = decoded_from plain s

is_safe-not_percent : (c : ℕ) → is_safe c ≡ true → (c == 37) ≡ false
unfolding is_safe
is_safe-not_percent c h = ground arith

digit_of-hex_digit : (d : ℕ) → d < 16 → digit_of (hex_digit d) ≡ d
unfolding digit_of hex_digit
digit_of-hex_digit d h = ground arith

hex_digit-safe : (d : ℕ) → d < 16 → is_safe (hex_digit d) ≡ true
unfolding is_safe hex_digit
hex_digit-safe d h = ground arith

-- A byte that may stand in an address: the unreserved characters of RFC 3986, or the percent sign of
-- a code.
pub data IsPlain (c : ℕ) : Type 0 where
  upper : 65 ≤ c → c ≤ 90 → IsPlain c
  lower : 97 ≤ c → c ≤ 122 → IsPlain c
  digit : 48 ≤ c → c ≤ 57 → IsPlain c
  hyphen : c ≡ 45 → IsPlain c
  period : c ≡ 46 → IsPlain c
  underscore : c ≡ 95 → IsPlain c
  tilde : c ≡ 126 → IsPlain c
  percent_sign : c ≡ 37 → IsPlain c

or_cases : (a b : Bool) → (a || b) ≡ true → (a ≡ true) ⊎ (b ≡ true)
or_cases true b e = inl refl
or_cases false b e = inr e

between : (a b c : ℕ) → (leb a c && leb c b) ≡ true → (a ≤ c) × (c ≤ b)
between a b c e = ground arith

equal : (c d : ℕ) → (c == d) ≡ true → c ≡ d
equal c d e = ground arith

unreserved : (c : ℕ) → is_safe c ≡ true → IsPlain c
unfolding is_safe
unreserved c e = elim (or_cases (leb 97 c && leb c 122) _ e) [
  | inl a ↦ let r = between 97 122 c a in lower r.0 r.1
  | inr f ↦ elim (or_cases (leb 65 c && leb c 90) _ f) [
    | inl a ↦ let r = between 65 90 c a in upper r.0 r.1
    | inr g ↦ elim (or_cases (leb 48 c && leb c 57) _ g) [
      | inl a ↦ let r = between 48 57 c a in digit r.0 r.1
      | inr i ↦ elim (or_cases (c == 45) _ i) [
        | inl a ↦ hyphen (equal c 45 a)
        | inr j ↦ elim (or_cases (c == 95) _ j) [
          | inl a ↦ underscore (equal c 95 a)
          | inr k ↦ elim (or_cases (c == 46) _ k) [
            | inl a ↦ period (equal c 46 a)
            | inr l ↦ tilde (equal c 126 l)
          ]
        ]
      ]
    ]
  ]
]

decoded-encoded : (s : List ℕ) → All (λ c. c < 256) s → decoded (encoded s) ≡ s
unfolding decoded decoded_from encoded encoded_byte
decoded-encoded [] h = refl
decoded-encoded (c ∷ s) h = elim (Bool-cases (is_safe c)) [
  | inl k ↦ rw (k, is_safe-not_percent c k) (ap (λ (l : List ℕ). c ∷ l) (decoded-encoded s h.1))
  | inr k ↦ rw k (
      rw
        (
          digit_of-hex_digit (c / 16) (let b = h.0 in omega (arith, b)),
          digit_of-hex_digit (c % 16) (omega arith),
        )
        (ap (λ (l : List ℕ). (16 * (c / 16) + c % 16) ∷ l) (decoded-encoded s h.1)
          ∙ ap (λ (b : ℕ). b ∷ s) (omega arith)))
]

encoded-IsPlain : (s : List ℕ) → All (λ c. c < 256) s → All IsPlain (encoded s)
unfolding encoded encoded_byte
encoded-IsPlain [] h = tt
encoded-IsPlain (c ∷ s) h = elim (Bool-cases (is_safe c)) [
  | inl k ↦ rw k (unreserved c k, encoded-IsPlain s h.1)
  | inr k ↦ rw k (
    percent_sign refl,
    (
      unreserved _ (hex_digit-safe (c / 16) (let b = h.0 in omega (arith, b))),
      (unreserved _ (hex_digit-safe (c % 16) (omega arith)), encoded-IsPlain s h.1),
    ),
  )
]

length-encoded : (s : List ℕ) → length (encoded s) ≤ 3 * length s
unfolding encoded encoded_byte
length-encoded [] = omega arith
length-encoded (c ∷ s) = elim (Bool-cases (is_safe c)) [
  | inl k ↦ rw k (let b = length-encoded s in omega (arith, b))
  | inr k ↦ rw k (let b = length-encoded s in omega (arith, b))
]

-- A buffer of three bytes for each byte of the text, and one, is always enough; what is then in it
-- decodes to the text, and has only unreserved characters and percent signs.
pub urlencode_round_trip :
    (s : List ℕ) (cap : ℕ)
    → All (λ c. c < 256) s
    → 3 * length s < cap
    → (urlencode s cap ≡ written (encoded s)) × (decoded (encoded s) ≡ s) × All IsPlain (encoded s)
urlencode_round_trip s cap h k =
    let b = length-encoded s in
    ((urlencode-fits s cap).0 (omega (arith, b)), decoded-encoded s h, encoded-IsPlain s h)

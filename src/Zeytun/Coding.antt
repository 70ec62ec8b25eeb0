-- ===== src/Zeytun/Coding.antt =====
-- What client/zeytun.c does to the text of a page and of its address: `zt_unescape` and
-- `zt_urlencode`.
pub mod Addresses
pub mod Entities
pub mod InPlace
pub mod Escaping
use cocolog.Prelude.{
  ℕ, zero, suc, ◌+◌, ◌-◌, ◌*◌, ◌/◌, ◌%◌, Bool, true, false, ◌&&◌, ◌||◌, Option, none, some, List,
  [], ◌∷◌, ◌++◌, text, length, drop, ltb, leb, ◌==◌, if◌then◌else◌,
}
use cocolog.Tls.{starts}
use cocolog.Order.{get_or, set}

-- The characters that `zt_urlencode` leaves alone.
unfoldable pub is_safe : ℕ → Bool
is_safe c =
    (leb 97 c && leb c 122)
    || ((leb 65 c && leb c 90)
        || ((leb 48 c && leb c 57) || ((c == 45) || ((c == 95) || ((c == 46) || (c == 126))))))

-- `hex[d]`, for a digit below 16.
unfoldable pub hex_digit : ℕ → ℕ
hex_digit d = if ltb d 10 then 48 + d else 55 + d

-- How `zt_urlencode` ends: the answer 1, with the bytes before the terminator; the answer 0; or a
-- store outside of the buffer, which is undefined.
pub data Encoding : Type 0 where
  written : List ℕ → Encoding
  no_room : Encoding
  outside : Encoding

-- Stores into the `cap` bytes of `out`, behind the bytes that are in it so far.
unfoldable pub store : ℕ → List ℕ → List ℕ → (List ℕ → Encoding) → Encoding
store cap out bs rest = if ltb cap (length out + length bs) then outside else rest (out ++ bs)

-- The loop over the rest of `in`, with the bytes that are in `out` so far.
unfoldable pub encode_loop : List ℕ → ℕ → List ℕ → Encoding
unfolding is_safe hex_digit store
encode_loop [] cap out =
    if ltb cap (length out + 1) then no_room else store cap out (0 ∷ []) (λ _. written out)
encode_loop (c ∷ p) cap out =
    if is_safe c
    then (if ltb cap (length out + 2) then no_room else store cap out (c ∷ []) (encode_loop p cap))
    else (if ltb cap (length out + 4)
        then no_room
        else store cap out (37 ∷ (hex_digit (c / 16) ∷ (hex_digit (c % 16) ∷ [])))
            (encode_loop p cap))

-- `zt_urlencode`, of a C string into a buffer of `cap` bytes.
unfoldable pub urlencode : List ℕ → ℕ → Encoding
unfolding encode_loop
urlencode s cap = encode_loop s cap []

-- The entity at the start of `s`: the character it stands for and its width less one.
unfoldable pub entity_at : List ℕ → Option (ℕ × ℕ)
unfolding starts
entity_at s =
    if starts (text "&amp;") s
    then some (38, 4)
    else if starts (text "&lt;") s
    then some (60, 3)
    else if starts (text "&gt;") s
    then some (62, 3)
    else if starts (text "&quot;") s
    then some (34, 5)
    else if starts (text "&#39;") s
    then some (39, 4)
    else none

-- What the next round stores at `w`, and by how much it moves `r`, less one.
unfoldable pub taken_at : ℕ → Option (ℕ × ℕ) → ℕ × ℕ
taken_at c none = (c, 0)
taken_at c (some e) = if c == 38 then e else (c, 0)

unfoldable pub unescape_round : ℕ → List ℕ → ℕ × ℕ
unfolding taken_at
unescape_round c s = taken_at c (entity_at s)

-- The loop of `zt_unescape` over its buffer, with the two positions.
unfoldable pub unescape_loop : ℕ → List ℕ → ℕ → ℕ → Option (List ℕ × ℕ)
unfolding get_or set
unescape_loop zero s r w = none
unescape_loop (suc fuel) s r w =
    let c = get_or s r 0 in
    let e = unescape_round c (drop r s) in
    let rest = unescape_loop fuel (set s w e.0) (r + suc e.1) (w + 1) in
    if c == 0 then some (set s w 0, w) else rest

-- `zt_unescape`: the buffer after it, and the answer. A round moves `r` by one at least, and the
-- terminator is in the buffer, so there are no more rounds than bytes.
unfoldable pub unescape : List ℕ → Option (List ℕ × ℕ)
unfolding unescape_loop
unescape s = unescape_loop (length s) s 0 0

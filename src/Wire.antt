-- ===== src/Wire.antt =====
-- The primitives of client/zigurat.c: integers in network order, and the two kinds of text.
pub mod Values
use Prim.Native.Nat.{◌%◌}
use cocolog.Prelude.{ℕ, zero, suc, ◌+◌, List, [], ◌∷◌, ◌++◌, text, length, ltb, if◌then◌else◌}
use cocolog.State.{State, Action, Result, ok, pure, ◌>>=◌, ◌>>◌}
use cocolog.Errors.{say}
use cocolog.Socket.{rd, wr, skip}
use cocolog.Order.{in_memory, from_memory, reorder}

abbrev pub max_string : ℕ
max_string = 255

abbrev pub max_text : ℕ
max_text = 65535

-- The value whose bytes were read, once they are turned to this machine's order.
unfoldable pub received : List ℕ → Action ℕ
received bs s = ok (from_memory s.world.big_endian (reorder s.world.big_endian bs)) s

-- `rd_be`, into an integer of `n` bytes.
unfoldable pub rd_be : ℕ → Action ℕ
rd_be n = rd n >>= received

unfoldable pub too_wide : List ℕ
too_wide = text "a value wider than the protocol carries"

-- `wr_be`, of an integer of `n` bytes.
unfoldable pub wr_be : ℕ → ℕ → Action (Unit {0})
wr_be n v s =
    if ltb 16 n
    then say too_wide s
    else wr (reorder s.world.big_endian (in_memory s.world.big_endian n v)) s

-- The byte that `rd(c, v, 1)` stores.
unfoldable pub first_byte : List ℕ → ℕ
first_byte [] = 0
first_byte (b ∷ bs) = b

unfoldable pub rd_u8 : Action ℕ
rd_u8 = rd 1 >>= λ bs. pure (first_byte bs)

unfoldable pub rd_u16 : Action ℕ
rd_u16 = rd_be 2

unfoldable pub rd_u32 : Action ℕ
rd_u32 = rd_be 4

-- `size_t` has eight bytes.
unfoldable pub rd_sz : Action ℕ
rd_sz = rd_be 8

-- The conversion to `uint8_t` and `uint16_t` is the caller's.
unfoldable pub wr_u8 : ℕ → Action (Unit {0})
wr_u8 v = wr ((v % 256) ∷ [])

unfoldable pub wr_u16 : ℕ → Action (Unit {0})
wr_u16 v = wr_be 2 (v % 65536)

-- `n ? wr(c, s, n) : 1`
unfoldable pub wr_if_any : List ℕ → Action (Unit {0})
wr_if_any [] = pure tt
wr_if_any (c ∷ cs) = wr (c ∷ cs)

-- `n && !rd(c, buf, n)`
unfoldable pub rd_if_any : ℕ → Action (List ℕ)
rd_if_any zero = pure []
rd_if_any (suc n) = rd (suc n)

unfoldable pub string_limit : List ℕ
string_limit = text "a String is limited to 255 bytes"

unfoldable pub text_limit : List ℕ
text_limit = text "a Text is limited to 65535 bytes"

unfoldable pub answer_too_long : List ℕ
answer_too_long = text "the answer does not fit in the buffer given"

unfoldable pub wr_std_string : List ℕ → Action (Unit {0})
wr_std_string s =
    if ltb max_string (length s) then say string_limit else wr_u8 (length s) >> wr_if_any s

unfoldable pub wr_std_text : List ℕ → Action (Unit {0})
wr_std_text s = if ltb max_text (length s) then say text_limit else wr_u16 (length s) >> wr_if_any s

-- `n` bytes into a buffer of `cap`, with a terminator; if they do not fit they are passed over.
unfoldable pub rd_into : List ℕ → ℕ → ℕ → Action (List ℕ)
rd_into complaint cap n = if ltb cap (n + 1) then skip n >> say complaint else rd_if_any n

-- The bytes that the buffer holds before the terminator.
unfoldable pub rd_std_string : ℕ → Action (List ℕ)
rd_std_string cap = rd_u8 >>= rd_into answer_too_long cap

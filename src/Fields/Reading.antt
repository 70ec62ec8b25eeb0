-- ===== src/Fields/Reading.antt =====
-- Reading fields, in client/zigurat.c. What a pointer argument held before stands beside the
-- arguments, and what it holds after is part of the answer, with the null flag behind it.
use Prim.Native.Nat.{bit_and}
use cocolog.Prelude.{
  ℕ, zero, suc, ◌^◌, ◌%◌, Bool, true, false, not, Option, none, some, List, [], ◌∷◌, text, ltb,
  ◌==◌, if◌then◌else◌,
}
use cocolog.World.{read_num, read_str, read_str_alloc, read_dvector}
use cocolog.State.{Action, pure, ◌>>=◌, ◌>>◌, attempt}
use cocolog.Errors.{say}
use cocolog.Socket.{skip}
use cocolog.Wire.{rd_be, rd_u8, rd_u16, rd_u32, rd_std_string, rd_into, rd_if_any}
use cocolog.Engine.{in_session, allocate, by_transport}
use cocolog.Fields.{tdb_is_null, tdb_scale_mask, tdb_scale_dwrd}

-- `x & m` is not zero.
unfoldable pub any_bit : ℕ → ℕ → Bool
any_bit x m = not (bit_and x m == 0)

-- `field_head`: the descriptor byte, and whether it says null.
unfoldable pub field_head : Action (ℕ × Bool)
field_head = do tdb ← rd_u8; pure (tdb, any_bit tdb tdb_is_null)

unfoldable pub value_unless_null : ℕ → ℕ × Bool → Action (Option ℕ)
value_unless_null n (tdb, true) = pure none
value_unless_null n (tdb, false) = do v ← rd_be n; pure (some v)

-- `rd_scalar`, of `n` bytes; a null leaves the value alone.
unfoldable pub rd_scalar : ℕ → Action (Option ℕ)
rd_scalar n = do h ← field_head; value_unless_null n h

unfoldable pub or_old : ℕ → Option ℕ → ℕ × Bool
or_old old none = (old, true)
or_old old (some v) = (v, false)

-- The source reads into a local 0, and stores whether that is set in any case.
unfoldable pub as_bool : ℕ × Bool → Bool × Bool
as_bool (b, null) = (not (b == 0), null)

unfoldable pub read_bool : Bool → Action (Bool × Bool)
read_bool old = do o ← rd_scalar 1; pure (as_bool (or_old 0 o))

unfoldable pub read_int : ℕ → Action (ℕ × Bool)
read_int old =
    by_transport (do r ← in_session read_num; pure (r.number % 2 ^ 32, false))
      (do o ← rd_scalar 4; pure (or_old old o))

unfoldable pub read_long : ℕ → Action (ℕ × Bool)
read_long old =
    by_transport (do r ← in_session read_num; pure (r.number, false))
      (do o ← rd_scalar 8; pure (or_old old o))

unfoldable pub read_double : ℕ → Action (ℕ × Bool)
read_double old = do o ← rd_scalar 8; pure (or_old old o)

-- `if (cap) buf[0] = '\0';`
unfoldable pub emptied : ℕ → List ℕ → List ℕ
emptied zero old = old
emptied (suc n) old = []

unfoldable pub string_unless_null : ℕ → List ℕ → ℕ × Bool → Action (List ℕ × Bool)
string_unless_null room old (tdb, true) = pure (emptied room old, true)
string_unless_null room old (tdb, false) = do s ← rd_std_string room; pure (s, false)

unfoldable pub read_string : ℕ → List ℕ → Action (List ℕ × Bool)
read_string room old =
    by_transport (do r ← in_session (λ h. read_str h room); pure (r.bytes, false))
      (do h ← field_head; string_unless_null room old h)

unfoldable pub text_too_long : List ℕ
text_too_long = text "the Text does not fit in the buffer given"

-- A Text's length and then its bytes, into a buffer of `room`.
unfoldable pub rd_text : ℕ → Action (List ℕ)
rd_text room = do n ← rd_u16; rd_into text_too_long room n

unfoldable pub text_unless_null : ℕ → List ℕ → ℕ × Bool → Action (List ℕ × Bool)
text_unless_null room old (tdb, true) = pure (emptied room old, true)
text_unless_null room old (tdb, false) = do s ← rd_text room; pure (s, false)

unfoldable pub read_text : ℕ → List ℕ → Action (List ℕ × Bool)
read_text room old =
    by_transport (do r ← in_session (λ h. read_str h room); pure (r.bytes, false))
      (do h ← field_head; text_unless_null room old h)

-- With no memory the bytes are passed over, whether or not that succeeds.
unfoldable pub rd_allocated : ℕ → Bool → Action (List ℕ)
rd_allocated n true = rd_if_any n
rd_allocated n false = do attempt (skip n); say (text "out of memory reading a Text")

unfoldable pub alloc_unless_null : ℕ × Bool → Action (Option (List ℕ))
alloc_unless_null (tdb, true) = pure none
alloc_unless_null (tdb, false) = do n ← rd_u16; a ← allocate; s ← rd_allocated n a; pure (some s)

-- `zg_read_text_alloc`: none is a null, for which the pointer is null and the length 0.
unfoldable pub read_text_alloc : Action (Option (List ℕ))
read_text_alloc =
    by_transport (do r ← in_session read_str_alloc; pure (some r.bytes))
      (do h ← field_head; alloc_unless_null h)

-- The elements of a vector: a descriptor byte, which is not looked at, and eight bytes.
unfoldable pub read_elements : ℕ → Action (List ℕ)
read_elements zero = pure []
read_elements (suc n) = do rd_u8; v ← rd_be 8; vs ← read_elements n; pure (v ∷ vs)

unfoldable pub vector_too_wide : List ℕ
vector_too_wide = text "a vector wider than the caller's buffer"

unfoldable pub elements_within : ℕ → ℕ → Action (List ℕ)
elements_within room n = if ltb room n then say vector_too_wide else read_elements n

unfoldable pub not_a_vector : List ℕ
not_a_vector = text "the field is not a vector"

unfoldable pub vector_unless_null : ℕ → ℕ × Bool → Action (Option (List ℕ))
vector_unless_null room (tdb, true) = pure none
vector_unless_null room (tdb, false) =
    if bit_and tdb tdb_scale_mask == tdb_scale_dwrd
    then (do n ← rd_u32; vs ← elements_within room n; pure (some vs))
    else say not_a_vector

-- `zg_read_dvector`: none is a null.
unfoldable pub read_vector : ℕ → Action (Option (List ℕ))
read_vector room =
    by_transport (do r ← in_session (λ h. read_dvector h room); pure (some r.words))
      (do h ← field_head; vector_unless_null room h)

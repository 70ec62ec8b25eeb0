-- ===== src/Fields/Skipping.antt =====
-- Fields of any type, in client/zigurat.c: `zg_skip_field`, `zg_read_field` and `zg_drain`.
use Prim.Native.Nat.{bit_and}
use cocolog.Prelude.{
  ℕ, zero, suc, ◌+◌, ◌-◌, ◌*◌, ◌^◌, Bool, true, false, List, [], ◌∷◌, text, length, ◌==◌,
  if◌then◌else◌,
}
use cocolog.World.{skip_value, Reply, got, stopped}
use cocolog.State.{State, Action, exhausted, pure, ◌>>=◌, ◌>>◌}
use cocolog.Errors.{say}
use cocolog.Socket.{ahead, skip}
use cocolog.Wire.{rd_be, rd_u8, rd_u16, rd_u32, rd_std_string, max_string}
use cocolog.Engine.{by_transport}
use cocolog.Results.{result, successful_done, cursor_open, cursor_fetch, return_value}
use cocolog.Calls.{done_in_session, read_columns}
use cocolog.Fields.{
  tdb_scale_mask, tdb_scale_byte, tdb_scale_word, tdb_scale_dwrd, tdb_type_mask, tdb_bool, tdb_int,
  tdb_long, tdb_double, tdb_string, tdb_text, sign_extend,
}
use cocolog.Fields.Reading.{field_head, rd_text}

-- `for (i = 0; i < n; i++) if (!m) return 0;`
unfoldable pub repeat : ℕ → Action (Unit {0}) → Action (Unit {0})
repeat zero m = pure tt
repeat (suc n) m = do m; repeat n m

-- The bytes of one element: `1u << (class - 1)`, or none for class 0.
unfoldable pub element_size : ℕ → ℕ
element_size tdb = if bit_and tdb tdb_type_mask == 0 then 0 else 2 ^ (bit_and tdb tdb_type_mask - 1)

-- The `switch` on the scale; its `default` is never reached, as the mask has four values.
unfoldable pub skip_scaled : Action (Unit {0}) → ℕ → ℕ → Action (Unit {0})
skip_scaled element size scale =
    if scale == 0
    then skip size
    else if scale == tdb_scale_byte
    then (do n ← rd_u8; skip (n * size))
    else if scale == tdb_scale_word
    then (do n ← rd_u16; skip (n * size))
    else if scale == tdb_scale_dwrd
    then (do n ← rd_u32; repeat n element)
    else say (text "a field arrived with a type this client does not know")

unfoldable pub skip_unless_null : Action (Unit {0}) → ℕ × Bool → Action (Unit {0})
skip_unless_null element (tdb, true) = pure tt
skip_unless_null element (tdb, false) =
    skip_scaled element (element_size tdb) (bit_and tdb tdb_scale_mask)

-- A vector's elements are fields themselves; the fuel bounds how deep they lie.
unfoldable pub skip_within : ℕ → Action (Unit {0})
skip_within zero s = exhausted
skip_within (suc fuel) s =
    by_transport (done_in_session skip_value)
      (do h ← field_head; skip_unless_null (skip_within fuel) h) s

-- The bytes that can still be read, whatever stops on the way.
unfoldable pub arrivals : List Reply → ℕ
arrivals [] = 0
arrivals (got b bs ∷ r) = suc (length bs) + arrivals r
arrivals (stopped st ∷ r) = arrivals r

unfoldable pub supply : State → ℕ
supply s = length (ahead s.conn) + arrivals s.world.replies

-- `zg_skip_field`
unfoldable pub skip_field : Action (Unit {0})
skip_field s = skip_within (suc (supply s)) s

-- What `zg_read_field` stores, by its kind.
pub data FieldValue : Type 0 where
  null : FieldValue
  long double : ℕ → FieldValue
  chars : List ℕ → FieldValue
  vector : ℕ → FieldValue

unfoldable pub unknown_type : List ℕ
unknown_type = text "a field arrived with a type this client does not know"

unfoldable pub read_other : ℕ → Action FieldValue
read_other tdb =
    if bit_and tdb tdb_scale_mask == tdb_scale_dwrd
    then (do n ← rd_u32; pure (vector n))
    else say unknown_type

unfoldable pub as_flag : ℕ → ℕ
as_flag b = if b == 0 then 0 else 1

unfoldable pub read_unless_null : ℕ → ℕ × Bool → Action FieldValue
read_unless_null room (tdb, true) = pure null
read_unless_null room (tdb, false) =
    if tdb == tdb_bool
    then (do b ← rd_be 1; pure (long (as_flag b)))
    else if tdb == tdb_int
    then (do v ← rd_be 4; pure (long (sign_extend v)))
    else if tdb == tdb_long
    then (do v ← rd_be 8; pure (long v))
    else if tdb == tdb_double
    then (do v ← rd_be 8; pure (double v))
    else if tdb == tdb_string
    then (do s ← rd_std_string room; pure (chars s))
    else if tdb == tdb_text
    then (do s ← rd_text room; pure (chars s))
    else read_other tdb

-- `zg_read_field`, with room for `room` bytes of text.
unfoldable pub read_field : ℕ → Action FieldValue
read_field room =
    by_transport
      (say (
        text
          "reading a field without naming its type needs the wire's descriptors; an embedded connection has none to offer"))
      (do h ← field_head; read_unless_null room h)

-- One round of `zg_drain`, by the result that it got.
unfoldable pub drain_on : ℕ → Action (Unit {0}) → ℕ → Action (Unit {0})
drain_on row_fields again r =
    if r == successful_done
    then pure tt
    else if r == cursor_open
    then (do read_columns (max_string + 1); again)
    else if r == cursor_fetch
    then (do repeat row_fields skip_field; again)
    else if r == return_value
    then (do skip_field; again)
    else again

-- `zg_drain`, for at most `fuel` results: the byte stream holds at most `supply` of them, and the
-- embedded engine any number.
unfoldable pub drain : ℕ → ℕ → Action (Unit {0})
drain zero row_fields s = exhausted
drain (suc fuel) row_fields s = (do r ← result; drain_on row_fields (drain fuel row_fields) r) s

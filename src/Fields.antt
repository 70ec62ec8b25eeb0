-- ===== src/Fields.antt =====
-- Writing parameters, in client/zigurat.c: a field is its type-descriptor byte and then its value.
pub mod Reading
pub mod Skipping
pub mod Scalars
pub mod Texts
pub mod Vectors
pub mod AnyType
pub mod Draining
pub mod Kinds
use Prim.Native.Nat.{bit_or}
use cocolog.Prelude.{ℕ, ◌+◌, ◌^◌, Bool, List, [], ◌∷◌, length, ◌-◌, ltb, if◌then◌else◌}
use cocolog.World.{write_num, write_str, write_dvector}
use cocolog.State.{Action, pure, ◌>>=◌, ◌>>◌}
use cocolog.Wire.{
  wr_u8, wr_be, wr_std_string, wr_std_text, max_string, max_text, string_limit, text_limit,
}
use cocolog.Engine.{by_transport}
use cocolog.Calls.{within, flag, done_in_session}

abbrev pub tdb_is_null : ℕ
tdb_is_null = 0x80

abbrev pub tdb_scale_mask : ℕ
tdb_scale_mask = 0x60

abbrev pub tdb_scale_byte : ℕ
tdb_scale_byte = 0x20

abbrev pub tdb_scale_word : ℕ
tdb_scale_word = 0x40

abbrev pub tdb_scale_dwrd : ℕ
tdb_scale_dwrd = 0x60

abbrev pub tdb_type_mask : ℕ
tdb_type_mask = 0x07

abbrev pub tdb_bool : ℕ
tdb_bool = 0x09

abbrev pub tdb_int : ℕ
tdb_int = 0x0b

abbrev pub tdb_long : ℕ
tdb_long = 0x0c

abbrev pub tdb_double : ℕ
tdb_double = 0x1c

abbrev pub tdb_string : ℕ
tdb_string = 0x29

abbrev pub tdb_text : ℕ
tdb_text = 0x49

-- `TDB_SCALE_DWRD | TDB_DOUBLE`
abbrev pub tdb_vector_double : ℕ
tdb_vector_double = bit_or tdb_scale_dwrd tdb_double

-- `wr_field`, of a value of `n` bytes.
unfoldable pub wr_field : ℕ → ℕ → ℕ → Action (Unit {0})
wr_field tdb n v = do wr_u8 tdb; wr_be n v

-- An `int32_t` and an `int64_t` are their bit patterns, and a `double` is its 64 bits.
unfoldable pub write_bool : Bool → Action (Unit {0})
write_bool v = wr_field tdb_bool 1 (flag v)

unfoldable pub sign_extend : ℕ → ℕ
sign_extend w = if ltb w (2 ^ 31) then w else w + (2 ^ 64 - 2 ^ 32)

unfoldable pub write_int : ℕ → Action (Unit {0})
write_int v =
    by_transport (done_in_session λ h. write_num h tdb_int (sign_extend v)) (wr_field tdb_int 4 v)

unfoldable pub write_long : ℕ → Action (Unit {0})
write_long v = by_transport (done_in_session λ h. write_num h tdb_long v) (wr_field tdb_long 8 v)

unfoldable pub write_double : ℕ → Action (Unit {0})
write_double v = wr_field tdb_double 8 v

unfoldable pub write_string : List ℕ → Action (Unit {0})
write_string s = within max_string s string_limit (
    by_transport (done_in_session λ h. write_str h tdb_string s)
      (do wr_u8 tdb_string; wr_std_string s))

unfoldable pub write_text : List ℕ → Action (Unit {0})
write_text s =
    within max_text s text_limit (
      by_transport (done_in_session λ h. write_str h tdb_text s) (do wr_u8 tdb_text; wr_std_text s))

-- The elements of a vector, each a whole field.
unfoldable pub write_elements : List ℕ → Action (Unit {0})
write_elements [] = pure tt
write_elements (v ∷ vs) = do wr_u8 tdb_double; wr_be 8 v; write_elements vs

-- `zg_write_dvector`; the count is a `uint32_t`, and the caller's array has that many elements.
unfoldable pub wire_write_dvector : List ℕ → Action (Unit {0})
wire_write_dvector vs = do wr_u8 tdb_vector_double; wr_be 4 (length vs); write_elements vs

unfoldable pub write_vector : List ℕ → Action (Unit {0})
write_vector vs = by_transport (done_in_session λ h. write_dvector h vs) (wire_write_dvector vs)

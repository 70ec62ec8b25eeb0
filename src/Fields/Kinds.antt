-- ===== src/Fields/Kinds.antt =====
-- What `zg_read_field` and `zg_skip_field` make of the fields that the client writes.
use mathlib.Core.Path.{ap₂}
use cocolog.Prelude.{
  ℕ, suc, sym, ◌∙◌, ◌^◌, ◌<◌, ◌≤◌, ◌≡◌, refl, ap, Bool, true, false, List, [], ◌∷◌, ◌++◌, arith,
  length,
}
use cocolog.Order.{be_bytes}
use cocolog.Order.Bytes.{length-be_bytes}
use cocolog.Exchange.{Talks, Talks-bind, Talks-cast, Talks-by_transport}
use cocolog.Wire.{max_string, max_text, rd_u32}
use cocolog.Wire.Values.{string_bytes, text_bytes, Talks-rd_be, Talks-rd_std_string}
use cocolog.Calls.{flag}
use cocolog.Fields.AnyType
use cocolog.Fields.Vectors
use cocolog.Fields.{
  tdb_scale_byte, tdb_scale_word, tdb_scale_dwrd, tdb_is_null, tdb_bool, tdb_int, tdb_long,
  tdb_double, tdb_string, tdb_text, tdb_vector_double, sign_extend,
}
use cocolog.Fields.Reading.{any_bit}
use cocolog.Fields.Skipping.{
  FieldValue, long, double, chars, vector, read_field, read_unless_null, as_flag, element_size,
  skip_field, read_other,
}
use cocolog.Fields.Scalars.{scalar_bytes, Talks-field_head, Talks-then}
use cocolog.Fields.Texts.{Talks-rd_text}
use cocolog.Fields.Vectors.{vector_head, vector_bytes}
use cocolog.Fields.AnyType.{
  Field, null_field, atom, short, Elements, end, element, field_bytes, count, AreFields, IsField,
  HasScale, skip_field-passes,
}

-- Past the head, what each descriptor byte leads to.
reads_as :
    (room tdb : ℕ) (bs : List ℕ) (v : FieldValue)
    → any_bit tdb tdb_is_null ≡ false
    → Talks (read_unless_null room (tdb, false)) [] bs v
    → Talks (read_field room) [] (tdb ∷ bs) v
unfolding read_field
reads_as room tdb bs v e t =
    Talks-by_transport _ (Talks-bind (read_unless_null room) (Talks-field_head tdb false e) t)

-- The type-descriptor byte alone tells what a field holds: each kind that the client writes is read
-- back as itself, an Int as the Long of the same value, and of a vector the count, with its elements
-- left to be read as fields of their own.
pub read_field_kinds :
    (b : Bool) (i l d n room : ℕ) (s t : List ℕ)
    → i < 2 ^ 32
    → l < 2 ^ 64
    → d < 2 ^ 64
    → n < 2 ^ 32
    → length s ≤ max_string
    → length t ≤ max_text
    → length s < room
    → length t < room
    → Talks (read_field room) [] (scalar_bytes tdb_bool 1 (flag b)) (long (flag b))
      × Talks (read_field room) [] (scalar_bytes tdb_int 4 i) (long (sign_extend i))
      × Talks (read_field room) [] (scalar_bytes tdb_long 8 l) (long l)
      × Talks (read_field room) [] (scalar_bytes tdb_double 8 d) (double d)
      × Talks (read_field room) [] (tdb_string ∷ string_bytes s) (chars s)
      × Talks (read_field room) [] (tdb_text ∷ text_bytes t) (chars t)
      × Talks (read_field room) [] (vector_head n) (vector n)
unfolding read_unless_null read_other any_bit scalar_bytes vector_head as_flag flag rd_u32
read_field_kinds b i l d n room s t hi hl hd hn hs ht ks kt = (
  reads_as room tdb_bool _ _ refl (bool b),
  reads_as room tdb_int _ _ refl (Talks-then (λ v. long (sign_extend v)) (Talks-rd_be 4 i hi)),
  reads_as room tdb_long _ _ refl (Talks-then long (Talks-rd_be 8 l hl)),
  reads_as room tdb_double _ _ refl (Talks-then double (Talks-rd_be 8 d hd)),
  reads_as room tdb_string _ _ refl (Talks-then chars (Talks-rd_std_string room s ks)),
  reads_as room tdb_text _ _ refl (Talks-then chars (Talks-rd_text room t ht kt)),
  reads_as room tdb_vector_double _ _ refl (Talks-then vector (Talks-rd_be 4 n hn)),
)
  where
    bool :
        (b : Bool)
        → Talks (read_unless_null room (tdb_bool, false)) [] (be_bytes 1 (flag b)) (long (flag b))
    bool true = Talks-then (λ v. long (as_flag v)) (Talks-rd_be 1 1 (omega arith))
    bool false = Talks-then (λ v. long (as_flag v)) (Talks-rd_be 1 0 (omega arith))

-- A descriptor byte with the scale of one value, or of a count of one or of two bytes.
scales :
    HasScale tdb_bool 0
    × HasScale tdb_int 0
    × HasScale tdb_long 0
    × HasScale tdb_double 0
    × HasScale tdb_string tdb_scale_byte
    × HasScale tdb_text tdb_scale_word
    × HasScale tdb_vector_double tdb_scale_dwrd
unfolding any_bit
scales = (
  record { not_null = refl; scaled = refl },
  record { not_null = refl; scaled = refl },
  record { not_null = refl; scaled = refl },
  record { not_null = refl; scaled = refl },
  record { not_null = refl; scaled = refl },
  record { not_null = refl; scaled = refl },
  record { not_null = refl; scaled = refl },
)

scalar-IsField :
    (tdb n v : ℕ) → HasScale tdb 0 → element_size tdb ≡ n → IsField (atom tdb (be_bytes n v))
unfolding IsField
scalar-IsField tdb n v h e = (h, length-be_bytes n v ∙ sym e)

elements_of : List ℕ → Elements
elements_of [] = end
elements_of (v ∷ vs) = element (atom tdb_double (be_bytes 8 v)) (elements_of vs)

elements_of_bytes :
    (vs : List ℕ)
    → (count (elements_of vs) ≡ length vs)
      × (AnyType.elements_bytes (elements_of vs) ≡ Vectors.elements_bytes vs)
      × AreFields (elements_of vs)
unfolding elements_of count AnyType.elements_bytes Vectors.elements_bytes scalar_bytes element_size
    IsField
elements_of_bytes [] = (refl, refl, tt)
elements_of_bytes (v ∷ vs) =
    let (c, b, f) = elements_of_bytes vs in
    (
      ap suc c,
      ap (λ (l : List ℕ). tdb_double ∷ (be_bytes 8 v ++ l)) b,
      (scalar-IsField tdb_double 8 v scales.3 refl, f),
    )

-- `zg_skip_field` passes over each kind of field that the client writes, exactly.
pub skip_written :
    (b : Bool) (i l d : ℕ) (s t vs : List ℕ)
    → length t ≤ max_text
    → length vs < 2 ^ 32
    → Talks skip_field [] (scalar_bytes tdb_bool 1 (flag b)) tt
      × Talks skip_field [] (scalar_bytes tdb_int 4 i) tt
      × Talks skip_field [] (scalar_bytes tdb_long 8 l) tt
      × Talks skip_field [] (scalar_bytes tdb_double 8 d) tt
      × Talks skip_field [] (tdb_string ∷ string_bytes s) tt
      × Talks skip_field [] (tdb_text ∷ text_bytes t) tt
      × Talks skip_field [] (vector_bytes vs) tt
unfolding scalar_bytes string_bytes text_bytes vector_bytes vector_head field_bytes element_size
    IsField
skip_written b i l d s t vs ht hv =
    let (c, e, f) = elements_of_bytes vs in
    (
      skip_field-passes (atom tdb_bool (be_bytes 1 (flag b)))
          (scalar-IsField tdb_bool 1 _ scales.0 refl),
      skip_field-passes (atom tdb_int (be_bytes 4 i)) (scalar-IsField tdb_int 4 i scales.1 refl),
      skip_field-passes (atom tdb_long (be_bytes 8 l)) (scalar-IsField tdb_long 8 l scales.2 refl),
      skip_field-passes (atom tdb_double (be_bytes 8 d))
          (scalar-IsField tdb_double 8 d scales.3 refl),
      skip_field-passes (short tdb_string (length s) s) (scales.4, omega arith),
      skip_field-passes (AnyType.Field.long tdb_text (length t) t)
          (scales.5, omega arith, omega arith),
      Talks-cast refl (ap₂ (λ (k : ℕ) (l : List ℕ). tdb_vector_double ∷ (be_bytes 4 k ++ l)) c e)
          refl
          (skip_field-passes (AnyType.Field.vector tdb_vector_double (elements_of vs))
            (scales.6, omega (arith, c), f)),
    )

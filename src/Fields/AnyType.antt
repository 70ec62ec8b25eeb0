-- ===== src/Fields/AnyType.antt =====
-- Fields of any type on the wire, and that `zg_skip_field` passes over exactly one of them.
use Prim.Native.Nat.{bit_and, max}
use cocolog.Wire.{rd_u16, rd_u32}
use cocolog.Prelude.{
  ℕ, zero, suc, ◌*◌, ◌^◌, ◌<◌, ◌≤◌, ◌≡◌, ap, true, false, Option, List, [], ◌∷◌, ◌++◌, arith,
  length, length-append,
}
use cocolog.World.{Reply, got, stopped}
use cocolog.State.{State, Action}
use cocolog.Order.{be_bytes}
use cocolog.Order.Bytes.{length-be_bytes}
use cocolog.Tls.{ZtTls}
use cocolog.Socket.{ahead, skip}
use cocolog.Socket.Ready.{arriving, unread}
use cocolog.Exchange.{Talks, Talks-pure, Talks-bind, Talks-by_transport}
use cocolog.Wire.Values.{Talks-rd_u8, Talks-rd_be, Talks-skip}
use cocolog.Fields.{tdb_scale_mask, tdb_scale_byte, tdb_scale_word, tdb_scale_dwrd, tdb_is_null}
use cocolog.Fields.Reading.{any_bit}
use cocolog.Fields.Skipping.{
  repeat, element_size, skip_scaled, skip_unless_null, skip_within, skip_field, arrivals, supply,
}
use cocolog.Fields.Scalars.{Talks-field_head}

-- A field by its descriptor byte: a null; a value; values after a count of one or of two bytes;
-- and a vector, whose elements are fields.
mutual
  pub data Field : Type 0 where
    null_field : ℕ → Field
    atom : ℕ → List ℕ → Field
    short : ℕ → ℕ → List ℕ → Field
    long : ℕ → ℕ → List ℕ → Field
    vector : ℕ → Elements → Field

  pub data Elements : Type 0 where
    end : Elements
    element : Field → Elements → Elements

unfoldable mutual
  pub field_bytes : Field → List ℕ
  field_bytes (null_field tdb) = tdb ∷ []
  field_bytes (atom tdb bs) = tdb ∷ bs
  field_bytes (short tdb n bs) = tdb ∷ n ∷ bs
  field_bytes (long tdb n bs) = tdb ∷ (be_bytes 2 n ++ bs)
  field_bytes (vector tdb fs) = tdb ∷ (be_bytes 4 (count fs) ++ elements_bytes fs)

  pub elements_bytes : Elements → List ℕ
  elements_bytes end = []
  elements_bytes (element f fs) = field_bytes f ++ elements_bytes fs

  pub count : Elements → ℕ
  count end = 0
  count (element f fs) = suc (count fs)

-- A descriptor byte that is not null and has the given scale.
pub record HasScale (tdb scale : ℕ) : Type 0 where
  pub not_null : any_bit tdb tdb_is_null ≡ false
  pub scaled : bit_and tdb tdb_scale_mask ≡ scale

-- What the descriptor byte says of the bytes behind it, at every depth.
unfoldable mutual
  pub IsField : Field → Type 0
  IsField (null_field tdb) = any_bit tdb tdb_is_null ≡ true
  IsField (atom tdb bs) = HasScale tdb 0 × (length bs ≡ element_size tdb)
  IsField (short tdb n bs) = HasScale tdb tdb_scale_byte × (length bs ≡ n * element_size tdb)
  IsField (long tdb n bs) =
      HasScale tdb tdb_scale_word × (n < 2 ^ 16) × (length bs ≡ n * element_size tdb)
  IsField (vector tdb fs) = HasScale tdb tdb_scale_dwrd × (count fs < 2 ^ 32) × AreFields fs

  pub AreFields : Elements → Type 0
  AreFields end = Unit
  AreFields (element f fs) = IsField f × AreFields fs

Talks-skip_scaled_atom :
    (m : Action (Unit {0})) (size : ℕ) (bs : List ℕ)
    → length bs ≡ size
    → Talks (skip_scaled m size 0) [] bs tt
unfolding skip_scaled
Talks-skip_scaled_atom m size bs e = Talks-skip size bs e

Talks-skip_scaled_short :
    (m : Action (Unit {0})) (size n : ℕ) (bs : List ℕ)
    → length bs ≡ n * size
    → Talks (skip_scaled m size tdb_scale_byte) [] (n ∷ bs) tt
unfolding skip_scaled
Talks-skip_scaled_short m size n bs e =
    Talks-bind (λ k. skip (k * size)) (Talks-rd_u8 n) (Talks-skip (n * size) bs e)

Talks-skip_scaled_long :
    (m : Action (Unit {0})) (size n : ℕ) (bs : List ℕ)
    → n < 2 ^ 16
    → length bs ≡ n * size
    → Talks (skip_scaled m size tdb_scale_word) [] (be_bytes 2 n ++ bs) tt
unfolding skip_scaled rd_u16
Talks-skip_scaled_long m size n bs h e =
    Talks-bind (λ k. skip (k * size)) (Talks-rd_be 2 n h) (Talks-skip (n * size) bs e)

Talks-skip_scaled_vector :
    (m : Action (Unit {0})) (size n : ℕ) (bs : List ℕ)
    → n < 2 ^ 32
    → Talks (repeat n m) [] bs tt
    → Talks (skip_scaled m size tdb_scale_dwrd) [] (be_bytes 4 n ++ bs) tt
unfolding skip_scaled rd_u32
Talks-skip_scaled_vector m size n bs h t = Talks-bind (λ k. repeat k m) (Talks-rd_be 4 n h) t

-- A descriptor byte, and then what its scale says.
Talks-skip_from :
    (fuel tdb scale : ℕ) (bs : List ℕ)
    → HasScale tdb scale
    → Talks (skip_scaled (skip_within fuel) (element_size tdb) scale) [] bs tt
    → Talks (skip_within (suc fuel)) [] (tdb ∷ bs) tt
unfolding skip_within skip_unless_null
Talks-skip_from fuel tdb scale bs h t = Talks-by_transport _ (
    Talks-bind (skip_unless_null (skip_within fuel)) (Talks-field_head tdb false h.not_null)
      (rw h.scaled t))

Talks-skip_null :
    (fuel tdb : ℕ)
    → any_bit tdb tdb_is_null ≡ true
    → Talks (skip_within (suc fuel)) [] (tdb ∷ []) tt
unfolding skip_within skip_unless_null
Talks-skip_null fuel tdb e =
    Talks-by_transport _ (
      Talks-bind (skip_unless_null (skip_within fuel)) (Talks-field_head tdb true e)
        (Talks-pure tt))

-- How deep the vectors of a field are nested.
mutual
  pub depth : Field → ℕ
  depth (null_field tdb) = 0
  depth (atom tdb bs) = 0
  depth (short tdb n bs) = 0
  depth (long tdb n bs) = 0
  depth (vector tdb fs) = suc (depth_elements fs)

  pub depth_elements : Elements → ℕ
  depth_elements end = 0
  depth_elements (element f fs) = max (depth f) (depth_elements fs)

-- With fuel for its depth a field is passed over exactly.
mutual
  unfolding field_bytes depth repeat IsField

  Talks-skip_within :
      (f : Field) (fuel : ℕ)
      → IsField f
      → depth f < fuel
      → Talks (skip_within fuel) [] (field_bytes f) tt
  Talks-skip_within f zero h d = absurd (omega arith)
  Talks-skip_within (null_field tdb) (suc fuel) h d = Talks-skip_null fuel tdb h
  Talks-skip_within (atom tdb bs) (suc fuel) (h, e) d =
      Talks-skip_from fuel tdb 0 bs h (Talks-skip_scaled_atom _ _ bs e)
  Talks-skip_within (short tdb n bs) (suc fuel) (h, e) d =
      Talks-skip_from fuel tdb _ (n ∷ bs) h (Talks-skip_scaled_short _ _ n bs e)
  Talks-skip_within (long tdb n bs) (suc fuel) (h, k, e) d =
      Talks-skip_from fuel tdb _ (be_bytes 2 n ++ bs) h (Talks-skip_scaled_long _ _ n bs k e)
  Talks-skip_within (vector tdb fs) (suc fuel) (h, k, e) d =
      Talks-skip_from fuel tdb _ (be_bytes 4 (count fs) ++ elements_bytes fs) h (
        Talks-skip_scaled_vector _ _ (count fs) (elements_bytes fs) k
          (Talks-repeat_skip fs fuel e (omega arith)))

  Talks-repeat_skip :
      (fs : Elements) (fuel : ℕ)
      → AreFields fs
      → depth_elements fs < fuel
      → Talks (repeat (count fs) (skip_within fuel)) [] (elements_bytes fs) tt
  Talks-repeat_skip end fuel h d = Talks-pure tt
  Talks-repeat_skip (element f fs) fuel (h, hs) d =
      Talks-bind (λ _. repeat (count fs) (skip_within fuel))
        (Talks-skip_within f fuel h (omega arith)) (Talks-repeat_skip fs fuel hs (omega arith))

mutual
  unfolding field_bytes depth

  depth-le : (f : Field) → depth f < length (field_bytes f)
  depth-le (null_field tdb) = omega arith
  depth-le (atom tdb bs) = omega arith
  depth-le (short tdb n bs) = omega arith
  depth-le (long tdb n bs) = omega arith
  depth-le (vector tdb fs) = omega (
    arith,
    depth_elements-le fs,
    length-append (be_bytes 4 (count fs)) (elements_bytes fs),
    length-be_bytes 4 (count fs),
  )

  depth_elements-le : (fs : Elements) → depth_elements fs ≤ length (elements_bytes fs)
  depth_elements-le end = omega arith
  depth_elements-le (element f fs) =
      omega
        (arith, depth-le f, depth_elements-le fs, length-append (field_bytes f) (elements_bytes fs))

length-arriving : (tls : Option ZtTls) (r : List Reply) → length (arriving tls r) ≤ arrivals r
unfolding arriving arrivals
length-arriving tls [] = omega arith
length-arriving tls (got b bs ∷ r) =
    omega (arith, length-arriving tls r, length-append bs (arriving tls r))
length-arriving tls (stopped st ∷ r) = ground (arith, length-arriving tls r)

-- The stream is no longer than the supply.
pub length-unread : (s : State) → length (unread s) ≤ supply s
unfolding supply
length-unread s = omega (
  arith,
  length-append (ahead s.conn) (arriving s.conn.tls s.world.replies),
  length-arriving s.conn.tls s.world.replies,
)

-- `zg_skip_field` passes over exactly one field, whatever its type and however deep its vectors, and
-- always ends on one.
pub skip_field-passes : (f : Field) → IsField f → Talks skip_field [] (field_bytes f) tt
unfolding skip_field
skip_field-passes f h = record {
  on = λ s rest ready e.
      (Talks-skip_within f (suc (supply s)) h (
          omega (
            arith,
            depth-le f,
            length-unread s,
            length-append (field_bytes f) rest,
            ap length e,
          ))).on
        s rest ready e;
}

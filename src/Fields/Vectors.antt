-- ===== src/Fields/Vectors.antt =====
-- Vectors of doubles as fields.
use cocolog.Prelude.{
  ℕ, ◌^◌, ◌<◌, ◌≤◌, ◌≡◌, refl, false, some, List, [], ◌∷◌, ◌++◌, append-nil, arith, length,
  ltb-true, ltb-false, All,
}
use cocolog.State.{pure, ◌>>=◌, ◌>>◌}
use cocolog.Order.{be_bytes}
use cocolog.Exchange.{
  Talks, Refuses, Talks-pure, Talks-bind, Talks-by_transport, Refuses-bind, Refuses-first,
  Refuses-say, Refuses-by_transport, Refuses-cast,
}
use cocolog.Wire.{rd_u32, rd_be, wr_be, wr_u8}
use cocolog.Wire.Values.{Talks-rd_u8, Talks-wr_u8, Talks-rd_be, Talks-wr_be}
use cocolog.Fields.{
  write_vector, wire_write_dvector, write_elements, tdb_double, tdb_vector_double, tdb_is_null,
}
use cocolog.Fields.Reading.{
  any_bit, vector_unless_null, elements_within, read_elements, read_vector, vector_too_wide,
}
use cocolog.Fields.Scalars.{Talks-field_head, Talks-then, scalar_bytes, Carries}

unfoldable pub elements_bytes : List ℕ → List ℕ
elements_bytes [] = []
elements_bytes (v ∷ vs) = scalar_bytes tdb_double 8 v ++ elements_bytes vs

-- The descriptor and the count, and then each element as a field of its own.
unfoldable pub vector_head : ℕ → List ℕ
vector_head n = tdb_vector_double ∷ be_bytes 4 n

unfoldable pub vector_bytes : List ℕ → List ℕ
vector_bytes vs = vector_head (length vs) ++ elements_bytes vs

abbrev pub AreWords : List ℕ → Type 0
AreWords = All (λ v. v < 2 ^ 64)

Talks-write_elements : (vs : List ℕ) → Talks (write_elements vs) (elements_bytes vs) [] tt
unfolding write_elements elements_bytes scalar_bytes
Talks-write_elements [] = Talks-pure tt
Talks-write_elements (v ∷ vs) =
    Talks-bind (λ _. wr_be 8 v >> write_elements vs) (Talks-wr_u8 tdb_double (omega arith))
      (Talks-bind (λ _. write_elements vs) (Talks-wr_be 8 v (omega arith))
        (Talks-write_elements vs))

Talks-read_elements :
    (vs : List ℕ) → AreWords vs → Talks (read_elements (length vs)) [] (elements_bytes vs) vs
unfolding read_elements elements_bytes scalar_bytes
Talks-read_elements [] h = Talks-pure []
Talks-read_elements (v ∷ vs) (hv, h) =
    Talks-bind (λ _. rd_be 8 >>= λ w. read_elements (length vs) >>= λ ws. pure (w ∷ ws))
      (Talks-rd_u8 tdb_double)
      (Talks-bind (λ w. read_elements (length vs) >>= λ ws. pure (w ∷ ws)) (Talks-rd_be 8 v hv)
        (Talks-then (λ ws. v ∷ ws) (Talks-read_elements vs h)))

Talks-elements_within :
    (room : ℕ) (vs : List ℕ)
    → AreWords vs
    → length vs ≤ room
    → Talks (elements_within room (length vs)) [] (elements_bytes vs) vs
unfolding elements_within
Talks-elements_within room vs h fits =
    rw (ltb-false room (length vs) fits) (Talks-read_elements vs h)

Refuses-elements_within :
    (room n : ℕ) → room < n → Refuses (elements_within room n) [] [] vector_too_wide
unfolding elements_within
Refuses-elements_within room n wide = rw (ltb-true room n wide) (Refuses-say vector_too_wide)

not_null : any_bit tdb_vector_double tdb_is_null ≡ false
unfolding any_bit
not_null = refl

Talks-head :
    (n : ℕ) → n < 2 ^ 32 → Talks (wr_u8 tdb_vector_double >> wr_be 4 n) (vector_head n) [] tt
unfolding vector_head
Talks-head n h =
    Talks-bind (λ _. wr_be 4 n) (Talks-wr_u8 tdb_vector_double (omega arith))
      (Talks-wr_be 4 n (omega arith))

-- A vector of up to 2 ^ 32 - 1 doubles is read back as it was written, into an array with room.
pub vector_round_trip :
    (vs : List ℕ) (room : ℕ)
    → AreWords vs
    → length vs < 2 ^ 32
    → length vs ≤ room
    → Carries (write_vector vs) (vector_bytes vs) (read_vector room) (some vs)
unfolding write_vector wire_write_dvector read_vector vector_unless_null rd_u32 vector_bytes
    vector_head
vector_round_trip vs room h small fits = (
  Talks-by_transport _ (
      Talks-bind (λ _. wr_be 4 (length vs) >> write_elements vs)
        (Talks-wr_u8 tdb_vector_double (omega arith))
        (Talks-bind (λ _. write_elements vs) (Talks-wr_be 4 (length vs) (omega arith))
          (Talks-write_elements vs))),
  Talks-by_transport _ (
      Talks-bind (vector_unless_null room) (Talks-field_head tdb_vector_double false not_null) (
        Talks-bind (λ n. elements_within room n >>= λ ws. pure (some ws))
          (Talks-rd_be 4 (length vs) small)
          (Talks-then some (Talks-elements_within room vs h fits)))),
)

-- A vector wider than the caller's array is refused after its count: its elements are left on the
-- stream of a connection that is still open, where the next call will read them as its own answer.
pub wide_vector_out_of_step :
    (vs : List ℕ) (room : ℕ)
    → length vs < 2 ^ 32
    → room < length vs
    → Refuses (read_vector room) [] (vector_head (length vs)) vector_too_wide
unfolding read_vector vector_unless_null rd_u32 vector_head
wide_vector_out_of_step vs room small wide = Refuses-by_transport _ (
    Refuses-bind (vector_unless_null room) (Talks-field_head tdb_vector_double false not_null) (
      Refuses-cast refl (append-nil _) (
        Refuses-bind (λ n. elements_within room n >>= λ ws. pure (some ws))
          (Talks-rd_be 4 (length vs) small)
          (Refuses-first _ (Refuses-elements_within room (length vs) wide)))))

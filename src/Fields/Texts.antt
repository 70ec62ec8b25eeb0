-- ===== src/Fields/Texts.antt =====
-- Strings and Texts as fields, and the limits on them.
use cocolog.Prelude.{ℕ, ◌<◌, ◌≤◌, ◌≡◌, refl, Bool, false, List, [], ◌∷◌, arith, length, ltb-false}
use cocolog.State.{Action}
use cocolog.Exchange.{
  Talks, Refuses, Talks-bind, Talks-by_transport, Refuses-bind, Refuses-first, Refuses-by_transport,
}
use cocolog.Wire.{
  rd_u16, rd_into, max_string, max_text, string_limit, text_limit, answer_too_long, wr_std_string,
  wr_std_text,
}
use cocolog.Wire.Values.{
  string_bytes, text_bytes, Talks-wr_u8, Talks-rd_be, Talks-wr_std_string, Talks-wr_std_text,
  Talks-rd_std_string, Talks-rd_into, Refuses-rd_std_string, Refuses-rd_into,
}
use cocolog.Calls.{within}
use cocolog.Fields.{write_string, write_text, tdb_string, tdb_text, tdb_is_null}
use cocolog.Fields.Reading.{
  any_bit, string_unless_null, text_unless_null, rd_text, text_too_long, read_string, read_text,
}
use cocolog.Fields.Scalars.{Talks-field_head, Talks-then, Carries}

-- A test of the length that passes leaves the action.
pub Talks-within :
    {A : Type 0} (bound : ℕ) (s complaint : List ℕ) {m : Action A} {ws bs : List ℕ} {a : A}
    → length s ≤ bound
    → Talks m ws bs a
    → Talks (within bound s complaint m) ws bs a
unfolding within
Talks-within bound s complaint h t = rw (ltb-false bound (length s) h) t

pub Talks-rd_text :
    (room : ℕ) (s : List ℕ)
    → length s ≤ max_text
    → length s < room
    → Talks (rd_text room) [] (text_bytes s) s
unfolding rd_text rd_u16 text_bytes
Talks-rd_text room s h k =
    Talks-bind (rd_into text_too_long room) (Talks-rd_be 2 (length s) (omega arith))
      (Talks-rd_into text_too_long room s k)

Refuses-rd_text :
    (room : ℕ) (s : List ℕ)
    → length s ≤ max_text
    → room ≤ length s
    → Refuses (rd_text room) [] (text_bytes s) text_too_long
unfolding rd_text rd_u16 text_bytes
Refuses-rd_text room s h k =
    Refuses-bind (rd_into text_too_long room) (Talks-rd_be 2 (length s) (omega arith))
      (Refuses-rd_into text_too_long room s k)

not_null : (any_bit tdb_string tdb_is_null ≡ false) × (any_bit tdb_text tdb_is_null ≡ false)
unfolding any_bit
not_null = (refl, refl)

-- A String of up to 255 bytes and a Text of up to 65535 are written with their length before them,
-- and read back whole into a buffer with room for one byte more.
pub texts_round_trip :
    (s t old : List ℕ) (room : ℕ)
    → length s ≤ max_string
    → length t ≤ max_text
    → length s < room
    → length t < room
    → Carries (write_string s) (tdb_string ∷ string_bytes s) (read_string room old) (s, false)
      × Carries (write_text t) (tdb_text ∷ text_bytes t) (read_text room old) (t, false)
unfolding write_string write_text read_string read_text string_unless_null text_unless_null
texts_round_trip s t old room hs ht ks kt = (
  (
    Talks-within max_string s string_limit hs (
        Talks-by_transport _ (
          Talks-bind (λ _. wr_std_string s) (Talks-wr_u8 tdb_string (omega arith))
            (Talks-wr_std_string s hs))),
    Talks-by_transport _ (
        Talks-bind (string_unless_null room old) (Talks-field_head tdb_string false not_null.0) (
          Talks-then (λ x. let p : List ℕ × Bool = (x, false) in p)
            (Talks-rd_std_string room s ks))),
  ),
  (
    Talks-within max_text t text_limit ht (
        Talks-by_transport _ (
          Talks-bind (λ _. wr_std_text t) (Talks-wr_u8 tdb_text (omega arith))
            (Talks-wr_std_text t ht))),
    Talks-by_transport _ (
        Talks-bind (text_unless_null room old) (Talks-field_head tdb_text false not_null.1)
          (Talks-then (λ x. let p : List ℕ × Bool = (x, false) in p) (Talks-rd_text room t ht kt))),
  ),
)

-- A String, or a Text, that does not fit its buffer is an error, and all of it is taken off the
-- stream.
pub texts_too_long :
    (s t old : List ℕ) (room text_room : ℕ)
    → length s ≤ max_string
    → length t ≤ max_text
    → room ≤ length s
    → text_room ≤ length t
    → Refuses (read_string room old) [] (tdb_string ∷ string_bytes s) answer_too_long
      × Refuses (read_text text_room old) [] (tdb_text ∷ text_bytes t) text_too_long
unfolding read_string read_text string_unless_null text_unless_null
texts_too_long s t old room text_room hs ht ks kt = (
  Refuses-by_transport _ (
      Refuses-bind (string_unless_null room old) (Talks-field_head tdb_string false not_null.0)
        (Refuses-first _ (Refuses-rd_std_string room s ks))),
  Refuses-by_transport _ (
      Refuses-bind (text_unless_null text_room old) (Talks-field_head tdb_text false not_null.1)
        (Refuses-first _ (Refuses-rd_text text_room t ht kt))),
)

-- ===== src/Fields/Scalars.antt =====
-- Scalar fields: what is written is what is read, on the wire.
use cocolog.Prelude.{
  ℕ, ◌^◌, ◌<◌, ◌≤◌, ◌≡◌, refl, ap, Bool, true, false, none, some, List, [], ◌∷◌, append-nil, arith,
}
use cocolog.State.{Action, pure, ◌>>=◌}
use cocolog.Order.{be_bytes}
use cocolog.Wire.{wr_be}
use cocolog.Exchange.{Talks, Talks-pure, Talks-bind, Talks-cast, Talks-by_transport}
use cocolog.Wire.Values.{Talks-rd_u8, Talks-wr_u8, Talks-rd_be, Talks-wr_be}
use cocolog.Calls.{flag}
use cocolog.Fields.{
  wr_field, write_bool, write_int, write_long, write_double, tdb_bool, tdb_int, tdb_long,
  tdb_double, tdb_is_null,
}
use cocolog.Fields.Reading.{
  any_bit, field_head, value_unless_null, rd_scalar, or_old, as_bool, read_bool, read_int,
  read_long, read_double,
}

-- A scalar field on the wire.
unfoldable pub scalar_bytes : ℕ → ℕ → ℕ → List ℕ
scalar_bytes tdb n v = tdb ∷ be_bytes n v

pub Talks-field_head :
    (tdb : ℕ) (null : Bool)
    → any_bit tdb tdb_is_null ≡ null
    → Talks field_head [] (tdb ∷ []) (tdb, null)
unfolding field_head
Talks-field_head tdb null e =
    Talks-bind (λ t. pure (t, any_bit t tdb_is_null)) (Talks-rd_u8 tdb)
      (Talks-cast refl refl (ap (λ (b : Bool). let p : ℕ × Bool = (tdb, b) in p) e) (Talks-pure _))

Talks-rd_scalar :
    (tdb n v : ℕ)
    → any_bit tdb tdb_is_null ≡ false
    → v < 256 ^ n
    → Talks (rd_scalar n) [] (scalar_bytes tdb n v) (some v)
unfolding rd_scalar value_unless_null scalar_bytes
Talks-rd_scalar tdb n v e h = Talks-bind (value_unless_null n) (Talks-field_head tdb false e) (
    Talks-cast refl (append-nil _) refl
      (Talks-bind (λ x. pure (some x)) (Talks-rd_be n v h) (Talks-pure (some v))))

-- A null is its descriptor byte alone.
Talks-rd_scalar_null :
    (tdb n : ℕ) → any_bit tdb tdb_is_null ≡ true → Talks (rd_scalar n) [] (tdb ∷ []) none
unfolding rd_scalar value_unless_null
Talks-rd_scalar_null tdb n e =
    Talks-bind (value_unless_null n) (Talks-field_head tdb true e) (Talks-pure none)

pub Talks-then :
    {A B : Type 0} {m : Action A} {bs : List ℕ} {a : A} (f : A → B)
    → Talks m [] bs a
    → Talks (m >>= λ x. pure (f x)) [] bs (f a)
Talks-then f t =
    Talks-cast refl (append-nil _) refl (Talks-bind (λ x. pure (f x)) t (Talks-pure (f _)))

pub Talks-wr_field :
    (tdb n v : ℕ) → tdb < 256 → n ≤ 16 → Talks (wr_field tdb n v) (scalar_bytes tdb n v) [] tt
unfolding wr_field scalar_bytes
Talks-wr_field tdb n v h k = Talks-bind (λ _. wr_be n v) (Talks-wr_u8 tdb h) (Talks-wr_be n v k)

-- `write` puts `bs` on the wire, and `read` takes exactly those bytes and answers `a`.
abbrev pub Carries : {A : Type 0} → Action (Unit {0}) → List ℕ → Action A → A → Type 0
Carries write bs read a = Talks write bs [] tt × Talks read [] bs a

read_back :
    (tdb n v o : ℕ)
    → any_bit tdb tdb_is_null ≡ false
    → v < 256 ^ n
    → Talks (rd_scalar n >>= λ x. pure (or_old o x)) [] (scalar_bytes tdb n v) (v, false)
unfolding or_old
read_back tdb n v o e h = Talks-then (or_old o) (Talks-rd_scalar tdb n v e h)

bool_back : (b old : Bool) → Talks (read_bool old) [] (scalar_bytes tdb_bool 1 (flag b)) (b, false)
unfolding read_bool or_old as_bool flag any_bit
bool_back true old =
    Talks-then (λ x. as_bool (or_old 0 x)) (Talks-rd_scalar tdb_bool 1 1 refl (omega arith))
bool_back false old =
    Talks-then (λ x. as_bool (or_old 0 x)) (Talks-rd_scalar tdb_bool 1 0 refl (omega arith))

not_null :
    (any_bit tdb_int tdb_is_null ≡ false)
    × (any_bit tdb_long tdb_is_null ≡ false)
    × (any_bit tdb_double tdb_is_null ≡ false)
unfolding any_bit
not_null = (refl, refl, refl)

-- Each scalar that is written is read back as it was, with the null flag down, and from one to
-- eight bytes after the descriptor carry it. The words of 32 and 64 bits cover every signed value
-- and every double.
pub scalars_round_trip :
    (b old : Bool) (i l d o : ℕ)
    → i < 2 ^ 32
    → l < 2 ^ 64
    → d < 2 ^ 64
    → Carries (write_bool b) (scalar_bytes tdb_bool 1 (flag b)) (read_bool old) (b, false)
      × Carries (write_int i) (scalar_bytes tdb_int 4 i) (read_int o) (i, false)
      × Carries (write_long l) (scalar_bytes tdb_long 8 l) (read_long o) (l, false)
      × Carries (write_double d) (scalar_bytes tdb_double 8 d) (read_double o) (d, false)
unfolding write_bool write_int write_long write_double read_int read_long read_double
scalars_round_trip b old i l d o hi hl hd = (
  (Talks-wr_field tdb_bool 1 (flag b) (omega arith) (omega arith), bool_back b old),
  (
    Talks-by_transport _ (Talks-wr_field tdb_int 4 i (omega arith) (omega arith)),
    Talks-by_transport _ (read_back tdb_int 4 i o not_null.0 hi),
  ),
  (
    Talks-by_transport _ (Talks-wr_field tdb_long 8 l (omega arith) (omega arith)),
    Talks-by_transport _ (read_back tdb_long 8 l o not_null.1 hl),
  ),
  (
    Talks-wr_field tdb_double 8 d (omega arith) (omega arith),
    read_back tdb_double 8 d o not_null.2 hd,
  ),
)

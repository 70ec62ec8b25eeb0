-- ===== src/Tensor/Slots.antt =====
-- The slot table of modules/tensorflow/backend.c: `OpSpec`, `TfSlot`, `slot_new`, `tfb_exists`, `live`.
use cocolog.Prelude.{
  ℕ, zero, suc, ◌+◌, Bool, true, false, ◌&&◌, not, Option, none, some, List, [], ◌∷◌, text, take,
  ltb, if◌then◌else◌,
}

abbrev pub tf_slots : ℕ
tf_slots = 65536

abbrev pub max_in : ℕ
max_in = 65

abbrev pub max_dim : ℕ
max_dim = 8

-- A signed integer, in the library's names.
pub data ℤ : Type 0 where
  pos negsuc : ℕ → ℤ

-- The data types of TensorFlow that the file names. A blank slot has none.
pub data DataType : Type 0 where
  no_type tf_float tf_double tf_int32 tf_int64 : DataType

pub data Kind : Type 0 where
  k_free k_value k_node : Kind

-- The operation's name, the handles that it reads, and its attributes with their names.
pub record OpSpec : Type 0 where
  pub op : List ℕ
  pub inputs : List ℕ
  pub list_n : ℕ
  pub types : List (List ℕ × DataType)
  pub ints : List (List ℕ × ℤ)
  pub bools : List (List ℕ × Bool)

-- `eh` is the value's handle in TensorFlow. `val` has the integers of a made constant. `shape` holds
-- the first `nd` sizes.
pub record TfSlot : Type 0 where
  pub kind : Kind
  pub eh : Option ℕ
  pub val : Option (List ℤ)
  pub spec : OpSpec
  pub refs : ℕ
  pub released : Bool
  pub ckey : Bool
  pub is_param : Bool
  pub under_param : Bool
  pub shape : List ℤ
  pub shape_known : Bool
  pub dtype : DataType

-- What `memset` leaves.
abbrev pub no_spec : OpSpec
no_spec = record { op = []; inputs = []; list_n = 0; types = []; ints = []; bools = [] }

abbrev pub blank_slot : TfSlot
blank_slot = record {
  kind = k_free;
  eh = none;
  val = none;
  spec = no_spec;
  refs = 0;
  released = false;
  ckey = false;
  is_param = false;
  under_param = false;
  shape = [];
  shape_known = false;
  dtype = no_type;
}

-- `scalar_cache` up to `nscalars`: each value with its handle; and `scalar_next`.
pub record ScalarCache : Type 0 where
  pub scalars : List (ℕ × ℕ)
  pub scalar_next : ℕ

-- The state of the file: its slots, where the search for a free one goes on, its message, and the
-- handles that were given back to TensorFlow, the last first; the count of the recorded operations;
-- and the shared scalars.
pub record Backend : Type 0 where
  pub slots : List TfSlot
  pub cursor : ℕ
  pub errbuf : List ℕ
  pub deleted : List ℕ
  pub stat_rec : ℕ
  pub cache : ScalarCache

-- The table as `memset` leaves it.
unfoldable pub empty_slots : ℕ → List TfSlot
empty_slots zero = []
empty_slots (suc n) = blank_slot ∷ empty_slots n

abbrev pub slot : List TfSlot → ℕ → TfSlot
slot [] h = blank_slot
slot (s ∷ t) zero = s
slot (s ∷ t) (suc h) = slot t h

abbrev pub put_slot : List TfSlot → ℕ → TfSlot → List TfSlot
put_slot [] h v = []
put_slot (s ∷ t) zero v = v ∷ t
put_slot (s ∷ t) (suc h) v = s ∷ put_slot t h v

unfoldable pub is_free : Kind → Bool
is_free k_free = true
is_free _ = false

unfoldable pub is_node : Kind → Bool
is_node k_node = true
is_node _ = false

unfoldable pub live : List TfSlot → ℕ → Bool
live t h = ltb 0 h && (ltb h tf_slots && not (is_free (slot t h).kind))

-- `tfb_exists`
unfoldable pub tfb_exists : List TfSlot → ℕ → Bool
tfb_exists t h =
    ltb 0 h && (ltb h tf_slots && (not (is_free (slot t h).kind) && not (slot t h).released))

unfoldable pub with_slots : List TfSlot → Backend → Backend
with_slots t b = record b { slots = t }

-- `fail`; the message is `char[512]`.
unfoldable pub fail_with : List ℕ → Backend → Backend
fail_with m b = record b { errbuf = take 511 m }

unfoldable pub next_cursor : ℕ → ℕ
next_cursor c = if ltb (c + 1) tf_slots then c + 1 else 1

-- The loop of `slot_new`, with `n` rounds left.
unfoldable pub search_free : ℕ → Backend → Option ℕ × Backend
search_free zero b = (none, fail_with (text "handle table full") b)
search_free (suc n) b =
    let i = b.cursor in
    let c : Backend = record b { cursor = next_cursor i } in
    let rest = search_free n c in
    if is_free (slot c.slots i).kind
    then (some i, with_slots (put_slot c.slots i blank_slot) c)
    else rest

unfoldable pub slot_new : Backend → Option ℕ × Backend
slot_new b = search_free 65535 b

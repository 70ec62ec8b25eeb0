-- ===== src/Examples.antt =====
-- The theorems at concrete connections, and runs of the client against small scripts.
use cocolog.Prelude.{
  ℕ, zero, suc, ◌^◌, ◌≡◌, refl, true, false, none, some, List, [], ◌∷◌, ◌++◌, arith, ap, length,
  text,
}
use mathlib.Core.List.{reverse}
use cocolog.World.{would_block, Lock, granted, denied}
use cocolog.State.{State}
use cocolog.State.Outcomes.{Ensures, Returns}
use cocolog.Errors.{detailed}
use cocolog.Turn.{take_turn}
use cocolog.Turn.Waiting.{TookTurn, GaveUp, take_turn-ends}
use cocolog.Order.{reorder}
use cocolog.Order.Reversal.{reorder-lem}
use cocolog.Socket.{wr, rd}
use cocolog.Socket.Ready.{IsReady, arriving, unread}
use cocolog.Socket.Safety.{Joined, wr-Joined}
use cocolog.Socket.Sending.{IsClosed}
use cocolog.Socket.Reading.{Received, rd-Received}
use cocolog.Exchange.{Talks, Refuses, Answered}
use cocolog.Wire.{answer_too_long}
use cocolog.Wire.Values.{string_bytes, text_bytes}
use cocolog.Results.{exception_thrown, server_refused, result}
use cocolog.Results.Exceptions.{HungUp, exception_ends_connection}
use cocolog.Calls.{call, call_send, call_wait, flag}
use cocolog.Calls.Conversations.{call_bytes, two_acks, call_in_halves}
use cocolog.Fields.{
  write_bool, write_int, write_long, write_double, write_string, write_text, write_vector, tdb_bool,
  tdb_int, tdb_long, tdb_double, tdb_string, tdb_text, sign_extend,
}
use cocolog.Fields.Reading.{
  read_bool, read_int, read_long, read_double, read_string, read_text, read_vector, text_too_long,
  vector_too_wide, any_bit,
}
use cocolog.Fields.Skipping.{
  skip_field, drain, supply, read_field, long, double, chars, vector, element_size, arrivals,
}
use cocolog.Fields.Scalars.{scalar_bytes, Carries, scalars_round_trip}
use cocolog.Fields.Texts.{texts_round_trip, texts_too_long}
use cocolog.Fields.Vectors.{vector_head, vector_bytes, vector_round_trip, wide_vector_out_of_step}
use cocolog.Fields.AnyType.{
  Field, end, element, field_bytes, IsField, count, elements_bytes, skip_field-passes,
}
use cocolog.Fields.Draining.{Event, opened, fetched, closed, reply_bytes, drain-passes, event_bytes}
use cocolog.Fields.Kinds.{read_field_kinds}
use cocolog.Samples.{scripted, conn, around, busy}

wr-Joined_example : Ensures (λ _ t. Joined (20 ∷ 21 ∷ []) busy t) IsClosed (wr (20 ∷ 21 ∷ []) busy)
wr-Joined_example = wr-Joined (20 ∷ 21 ∷ []) busy

rd-Received_example : Ensures (Received 5 [] (unread busy) busy) IsClosed (rd 5 busy)
rd-Received_example = rd-Received 5 busy

scalars_round_trip_example :
    Carries (write_bool true) (scalar_bytes tdb_bool 1 (flag true)) (read_bool false) (true, false)
    × Carries (write_int 7) (scalar_bytes tdb_int 4 7) (read_int 0) (7, false)
    × Carries (write_long (2 ^ 63)) (scalar_bytes tdb_long 8 (2 ^ 63)) (read_long 0) (2 ^ 63, false)
    × Carries (write_double 0) (scalar_bytes tdb_double 8 0) (read_double 0) (0, false)
scalars_round_trip_example =
    scalars_round_trip true false 7 (2 ^ 63) 0 0 (omega arith) (omega arith) (omega arith)

texts_round_trip_example :
    Carries
      (write_string (1 ∷ 2 ∷ []))
      (tdb_string ∷ string_bytes (1 ∷ 2 ∷ []))
      (read_string 8 [])
      (1 ∷ 2 ∷ [], false)
    × Carries (write_text []) (tdb_text ∷ text_bytes []) (read_text 8 []) ([], false)
texts_round_trip_example =
    texts_round_trip (1 ∷ 2 ∷ []) [] [] 8 (omega arith) (omega arith) (omega arith) (omega arith)

texts_too_long_example :
    Refuses (read_string 2 []) [] (tdb_string ∷ string_bytes (1 ∷ 2 ∷ [])) answer_too_long
    × Refuses (read_text 3 []) [] (tdb_text ∷ text_bytes (3 ∷ 4 ∷ 5 ∷ [])) text_too_long
texts_too_long_example =
    texts_too_long (1 ∷ 2 ∷ []) (3 ∷ 4 ∷ 5 ∷ []) [] 2 3 (omega arith) (omega arith) (omega arith)
      (omega arith)

vector_round_trip_example :
    Carries
      (write_vector (3 ∷ 2 ^ 63 ∷ []))
      (vector_bytes (3 ∷ 2 ^ 63 ∷ []))
      (read_vector 2)
      (some (3 ∷ 2 ^ 63 ∷ []))
vector_round_trip_example =
    vector_round_trip (3 ∷ 2 ^ 63 ∷ []) 2 (omega arith) (omega arith) (omega arith)

wide_vector_out_of_step_example : Refuses (read_vector 1) [] (vector_head 2) vector_too_wide
wide_vector_out_of_step_example = wide_vector_out_of_step (3 ∷ 4 ∷ []) 1 (omega arith) (omega arith)

-- A vector of one Bool.
abbrev flags : Field
flags = Field.vector 0x69 (element (Field.atom tdb_bool (1 ∷ [])) end)

flags-IsField : IsField flags
unfolding IsField any_bit element_size count
flags-IsField = (
  record { not_null = refl; scaled = refl },
  omega arith,
  ((record { not_null = refl; scaled = refl }, refl), tt),
)

skip_field-passes_example : Talks skip_field [] (field_bytes flags) tt
skip_field-passes_example = skip_field-passes flags flags-IsField

-- A connection with the bytes of a reply in hand.
abbrev holding : List ℕ → State
holding bs = around (record (conn none) { inb = bs; pin = 0 }) (scripted [] [] [])

holding-IsReady : (bs : List ℕ) → IsReady (holding bs)
holding-IsReady bs = record {
  socket = 5;
  is_open = refl;
  on_wire = refl;
  willing = refl;
  turn = refl;
}

-- A cursor of one column and one row, and then the end.
abbrev events : List Event
events = opened (text "x") ∷ fetched (element (Field.atom tdb_bool (1 ∷ [])) end) ∷ closed ∷ []

drain-passes_example :
    Answered
      (holding (reply_bytes events ++ (9 ∷ [])))
      []
      (9 ∷ [])
      tt
      (drain 20 1 (holding (reply_bytes events ++ (9 ∷ []))))
unfolding reply_bytes event_bytes string_bytes elements_bytes field_bytes supply arrivals arriving
    IsField any_bit element_size count text
drain-passes_example =
    drain-passes 1 20 events (holding (reply_bytes events ++ (9 ∷ []))) (9 ∷ [])
      (omega arith, ((((record { not_null = refl; scaled = refl }, refl), tt), refl), (tt, tt)))
      (holding-IsReady _) refl (omega arith)

call_in_halves_example :
    Talks (call (text "p")) (call_bytes (text "p")) two_acks tt
    × Talks (call_send (text "p")) (call_bytes (text "p")) [] tt
    × Talks (call_wait (text "p")) [] two_acks tt
unfolding text
call_in_halves_example = call_in_halves (text "p") (omega arith)

exception_ends_connection_example :
    HungUp
      (holding (exception_thrown ∷ string_bytes (7 ∷ [])))
      5
      (detailed server_refused (7 ∷ []))
      (result (holding (exception_thrown ∷ string_bytes (7 ∷ []))))
unfolding string_bytes arriving holding-IsReady
exception_ends_connection_example =
    exception_ends_connection (7 ∷ []) (holding (exception_thrown ∷ string_bytes (7 ∷ []))) []
      (omega arith) (holding-IsReady _) refl

abbrev denials : ℕ → List Lock
denials n = elim n [ zero ↦ granted ∷ [] | suc (n → ih) ↦ denied would_block ∷ ih ]

abbrev waiting : State
waiting = around (conn (some 6)) (scripted [] [] (denials 600))

take_turn-ends_example :
    Returns (λ _ t. TookTurn waiting 1000 t) (λ t. GaveUp waiting 1000 t) (take_turn waiting)
take_turn-ends_example = take_turn-ends waiting 6 refl refl (omega arith) (omega arith)

reorder-lem_example : reorder false (1 ∷ 2 ∷ 3 ∷ []) ≡ reverse (1 ∷ 2 ∷ 3 ∷ [])
reorder-lem_example = reorder-lem false (1 ∷ 2 ∷ 3 ∷ [])

read_field_kinds_example :
    Talks (read_field 4) [] (scalar_bytes tdb_bool 1 (flag true)) (long (flag true))
    × Talks (read_field 4) [] (scalar_bytes tdb_int 4 (2 ^ 31)) (long (sign_extend (2 ^ 31)))
    × Talks (read_field 4) [] (scalar_bytes tdb_long 8 1) (long 1)
    × Talks (read_field 4) [] (scalar_bytes tdb_double 8 2) (double 2)
    × Talks (read_field 4) [] (tdb_string ∷ string_bytes (1 ∷ [])) (chars (1 ∷ []))
    × Talks (read_field 4) [] (tdb_text ∷ text_bytes (2 ∷ [])) (chars (2 ∷ []))
    × Talks (read_field 4) [] (vector_head 3) (vector 3)
read_field_kinds_example =
    read_field_kinds true (2 ^ 31) 1 2 3 4 (1 ∷ []) (2 ∷ []) (omega arith) (omega arith)
      (omega arith) (omega arith) (omega arith) (omega arith) (omega arith) (omega arith)

-- `n` bytes of one value.
unfoldable long_text : ℕ → List ℕ
long_text zero = []
long_text (suc n) = 65 ∷ long_text n

length-long_text : (n : ℕ) → length (long_text n) ≡ n
unfolding long_text
length-long_text zero = refl
length-long_text (suc n) = ap suc (length-long_text n)

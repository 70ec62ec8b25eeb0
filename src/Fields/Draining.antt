-- ===== src/Fields/Draining.antt =====
-- A procedure's whole reply, and that `zg_drain` takes exactly that off the stream.
use cocolog.Prelude.{
  ℕ, zero, suc, ◌+◌, ◌<◌, ◌≤◌, ◌≡◌, ap, List, [], ◌∷◌, ◌++◌, arith, length, length-append,
}
use cocolog.State.{State, Action, ◌>>=◌}
use cocolog.Socket.Ready.{IsReady, unread}
use cocolog.Exchange.{Answered, Talks, Talks-pure, Talks-bind, Talks-by_transport}
use cocolog.Wire.{max_string}
use cocolog.Wire.Values.{string_bytes, Talks-rd_std_string}
use cocolog.Results.{result, successful_done, cursor_open, cursor_fetch, cursor_close, return_value}
use cocolog.Results.Conversations.{Talks-result}
use cocolog.Calls.{read_columns}
use cocolog.Fields.Skipping.{repeat, skip_field, drain_on, drain, supply}
use cocolog.Fields.AnyType.{
  Field, Elements, end, element, field_bytes, elements_bytes, count, IsField, AreFields,
  skip_field-passes, length-unread,
}

-- One result of a procedure: a cursor's columns, a row of it, its end, a value.
pub data Event : Type 0 where
  opened : List ℕ → Event
  fetched : Elements → Event
  closed : Event
  returned : Field → Event

unfoldable pub event_bytes : Event → List ℕ
event_bytes (opened cols) = cursor_open ∷ string_bytes cols
event_bytes (fetched row) = cursor_fetch ∷ elements_bytes row
event_bytes closed = cursor_close ∷ []
event_bytes (returned f) = return_value ∷ field_bytes f

-- The results, and then SUCCESSFUL_DONE.
unfoldable pub reply_bytes : List Event → List ℕ
reply_bytes [] = successful_done ∷ []
reply_bytes (e ∷ es) = event_bytes e ++ reply_bytes es

-- Rows have as many fields as the caller says, and columns' names fit a String.
abbrev pub IsEvent : ℕ → Event → Type 0
IsEvent n (opened cols) = length cols ≤ max_string
IsEvent n (fetched row) = AreFields row × (count row ≡ n)
IsEvent n closed = Unit
IsEvent n (returned f) = IsField f

abbrev pub AreEvents : ℕ → List Event → Type 0
AreEvents n [] = Unit
AreEvents n (e ∷ es) = IsEvent n e × AreEvents n es

Talks-columns :
    (cols : List ℕ)
    → length cols ≤ max_string
    → Talks (read_columns (max_string + 1)) [] (string_bytes cols) cols
unfolding read_columns
Talks-columns cols h =
    Talks-by_transport _ (Talks-rd_std_string (max_string + 1) cols (omega arith))

Talks-row :
    (row : Elements)
    → AreFields row
    → Talks (repeat (count row) skip_field) [] (elements_bytes row) tt
unfolding repeat count elements_bytes IsField
Talks-row end h = Talks-pure tt
Talks-row (element f fs) (h, hs) =
    Talks-bind (λ _. repeat (count fs) skip_field) (skip_field-passes f h) (Talks-row fs hs)

Talks-row_of :
    (n : ℕ) (row : Elements)
    → AreFields row
    → count row ≡ n
    → Talks (repeat n skip_field) [] (elements_bytes row) tt
Talks-row_of n row h e = rw (← e) (Talks-row row h)

Talks-drain_on :
    (n : ℕ) (again : Action (Unit {0})) (e : Event) (bs : List ℕ)
    → IsEvent n e
    → Talks again [] bs tt
    → Talks (do r ← result; drain_on n again r) [] (event_bytes e ++ bs) tt
unfolding drain_on event_bytes
Talks-drain_on n again (opened cols) bs h t =
    Talks-bind (drain_on n again) (Talks-result cursor_open (λ q. cc))
      (Talks-bind (λ _. again) (Talks-columns cols h) t)
Talks-drain_on n again (fetched row) bs (h, e) t =
    Talks-bind (drain_on n again) (Talks-result cursor_fetch (λ q. cc))
      (Talks-bind (λ _. again) (Talks-row_of n row h e) t)
Talks-drain_on n again closed bs h t =
    Talks-bind (drain_on n again) (Talks-result cursor_close (λ q. cc)) t
Talks-drain_on n again (returned f) bs h t =
    Talks-bind (drain_on n again) (Talks-result return_value (λ q. cc))
      (Talks-bind (λ _. again) (skip_field-passes f h) t)

Talks-drain :
    (fuel n : ℕ) (es : List Event)
    → AreEvents n es
    → length es < fuel
    → Talks (drain fuel n) [] (reply_bytes es) tt
unfolding drain reply_bytes drain_on
Talks-drain zero n es h k = absurd (omega arith)
Talks-drain (suc fuel) n [] h k =
    Talks-bind (drain_on n (drain fuel n)) (Talks-result successful_done (λ q. cc)) (Talks-pure tt)
Talks-drain (suc fuel) n (e ∷ es) (he, hes) k =
    Talks-drain_on n (drain fuel n) e (reply_bytes es) he (Talks-drain fuel n es hes (omega arith))

length-reply_bytes : (es : List Event) → length es < length (reply_bytes es)
unfolding reply_bytes event_bytes
length-reply_bytes [] = omega arith
length-reply_bytes (opened cols ∷ es) =
    omega (arith, length-reply_bytes es, length-append (string_bytes cols) (reply_bytes es))
length-reply_bytes (fetched row ∷ es) =
    omega (arith, length-reply_bytes es, length-append (elements_bytes row) (reply_bytes es))
length-reply_bytes (closed ∷ es) = omega (arith, length-reply_bytes es)
length-reply_bytes (returned f ∷ es) =
    omega (arith, length-reply_bytes es, length-append (field_bytes f) (reply_bytes es))

-- `zg_drain` reads a procedure's reply up to and with its SUCCESSFUL_DONE, and nothing behind it,
-- when the rows have the number of fields that it is told; it needs no more rounds than there are
-- bytes to come.
pub drain-passes :
    (n fuel : ℕ) (es : List Event) (s : State) (rest : List ℕ)
    → AreEvents n es
    → IsReady s
    → unread s ≡ reply_bytes es ++ rest
    → supply s ≤ fuel
    → Answered s [] rest tt (drain fuel n s)
drain-passes n fuel es s rest h ready e enough =
    (Talks-drain fuel n es h (
        omega (
          arith,
          length-reply_bytes es,
          length-unread s,
          length-append (reply_bytes es) rest,
          ap length e,
        ))).on
      s rest ready e

-- ===== src/Calls/Conversations.antt =====
-- The verbs as conversations: what each writes and which acknowledgements it takes.
use cocolog.Prelude.{ℕ, ◌≤◌, ◌<◌, refl, List, [], ◌∷◌, ◌++◌, append-nil, arith, length, text}
use cocolog.Exchange.{Talks, Talks-bind, Talks-cast, Talks-by_transport}
use cocolog.Wire.{max_string, rd_std_string, string_limit}
use cocolog.Wire.Values.{string_bytes, Talks-wr_std_string, Talks-rd_std_string}
use cocolog.Results.{successful_done, expect_done, verb_refused}
use cocolog.Results.Conversations.{
  Talks-result, Talks-verb, Talks-clear_err, Talks-take_turn, Talks-expect_done,
}
use cocolog.Calls.{echo, call, wire_call, call_send, wire_call_send, call_wait, call_refused}
use cocolog.Fields.Texts.{Talks-within}

short_names :
    (length (text "echo") ≤ max_string)
    × (length (text "call") ≤ max_string)
    × (length (text "compile") ≤ max_string)
unfolding text
short_names = omega arith

-- `zg_echo` sends the verb and its text, and answers the text that comes back.
pub echo_lem :
    (message answer : List ℕ) (room : ℕ)
    → length message ≤ max_string
    → length answer < room
    → Talks
        (echo message room)
        (string_bytes (text "echo") ++ string_bytes message)
        (successful_done ∷ string_bytes answer)
        answer
unfolding echo
echo_lem message answer room h k = Talks-within max_string message string_limit h (
    Talks-bind _ (Talks-verb (text "echo") short_names.0) (
      Talks-cast (append-nil _) refl refl (
        Talks-bind (λ _. rd_std_string room) (Talks-wr_std_string message h)
          (Talks-rd_std_string room answer k))))

-- The request that names a procedure, and the two acknowledgements of it.
unfoldable pub call_bytes : List ℕ → List ℕ
call_bytes procedure = string_bytes (text "call") ++ string_bytes procedure

abbrev pub two_acks : List ℕ
two_acks = successful_done ∷ successful_done ∷ []

Talks-wire_call :
    (p : List ℕ) → length p ≤ max_string → Talks (wire_call p) (call_bytes p) two_acks tt
unfolding wire_call call_bytes
Talks-wire_call p h = Talks-bind _ (Talks-verb (text "call") short_names.1) (
    Talks-cast (append-nil _) refl refl (
      Talks-bind _ (Talks-wr_std_string p h) (
        Talks-bind (expect_done call_refused p) (Talks-result successful_done (λ q. cc))
          (Talks-expect_done call_refused p))))

Talks-wire_call_send :
    (p : List ℕ) → length p ≤ max_string → Talks (wire_call_send p) (call_bytes p) [] tt
unfolding wire_call_send call_bytes
Talks-wire_call_send p h = Talks-within max_string p string_limit h (
    Talks-bind _ Talks-clear_err (
      Talks-bind _ Talks-take_turn
        (Talks-bind _ (Talks-wr_std_string (text "call") short_names.1) (Talks-wr_std_string p h))))

Talks-call_wait : (p : List ℕ) → Talks (call_wait p) [] two_acks tt
unfolding call_wait
Talks-call_wait p = Talks-by_transport _ (
    Talks-bind _ (Talks-result successful_done (λ q. cc)) (
      Talks-bind _ (Talks-expect_done verb_refused (text "call"))
        (Talks-bind _ (Talks-result successful_done (λ q. cc)) (Talks-expect_done call_refused p))))

-- On a connection in working order, where the server acknowledges the verb and the call with
-- SUCCESSFUL_DONE, the pipelined call is the call, split: its first half writes what the call writes
-- and reads nothing, and its second half takes the call's two acknowledgements and writes nothing.
pub call_in_halves :
    (p : List ℕ)
    → length p ≤ max_string
    → Talks (call p) (call_bytes p) two_acks tt
      × Talks (call_send p) (call_bytes p) [] tt
      × Talks (call_wait p) [] two_acks tt
unfolding call call_send
call_in_halves p h = (
  Talks-within max_string p string_limit h (Talks-by_transport _ (Talks-wire_call p h)),
  Talks-by_transport _ (Talks-wire_call_send p h),
  Talks-call_wait p,
)

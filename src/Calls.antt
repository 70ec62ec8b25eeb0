-- ===== src/Calls.antt =====
-- The verbs of client/zigurat.c: `zg_echo`, `zg_compile`, `zg_call` and its pipelined halves,
-- `zg_auto_commit`, `zg_isolate`, `zg_commit`, `zg_rollback` and `zg_columns`.
pub mod Conversations
use cocolog.Prelude.{ℕ, Bool, List, text, length, ltb, if◌then◌else◌}
use cocolog.World.{EngineCall, ce_call, isolate, commit, rollback, columns}
use cocolog.State.{Action, ok, pure, ◌>>=◌, ◌>>◌, attempt}
use cocolog.Errors.{say, detailed}
use cocolog.Turn.{take_turn, give_turn}
use cocolog.Wire.{
  wr_u8, wr_std_string, wr_std_text, rd_std_string, max_string, max_text, string_limit, text_limit,
}
use cocolog.Engine.{in_session, by_transport}
use cocolog.Results.{result, clear_err, expect_done, verb_refused, verb, confirmed, settle}

-- A verb of the embedded engine, whose answer is only its status.
unfoldable pub done_in_session : (ℕ → EngineCall) → Action (Unit {0})
done_in_session call = do in_session call; pure tt

-- `if (strlen(s) > ZG_MAX_…) return say(c, …);` before anything else.
unfoldable pub within : {A : Type 0} → ℕ → List ℕ → List ℕ → Action A → Action A
within bound s complaint m = if ltb bound (length s) then say complaint else m

unfoldable pub echo : List ℕ → ℕ → Action (List ℕ)
echo message room =
    within max_string message string_limit
      (do verb (text "echo"); wr_std_string message; rd_std_string room)

unfoldable pub compile : List ℕ → Action (Unit {0})
compile suite = within max_text suite text_limit (do
  verb (text "compile")
  confirmed (text "the suite would not compile") (do wr_std_text suite; result))

unfoldable pub call_refused : List ℕ
call_refused = text "the server would not call"

unfoldable pub wire_call : List ℕ → Action (Unit {0})
wire_call procedure = do
  verb (text "call")
  wr_std_string procedure
  r ← result
  expect_done call_refused procedure r

-- `zg_call`
unfoldable pub call : List ℕ → Action (Unit {0})
call procedure =
    within max_string procedure string_limit
      (by_transport (done_in_session λ h. ce_call h procedure) (wire_call procedure))

unfoldable pub wire_call_send : List ℕ → Action (Unit {0})
wire_call_send procedure =
    within max_string procedure string_limit
      (do clear_err; take_turn; wr_std_string (text "call"); wr_std_string procedure)

-- `zg_call_send`: the verb and the name go out, and nothing is read.
unfoldable pub call_send : List ℕ → Action (Unit {0})
call_send procedure = by_transport (call procedure) (wire_call_send procedure)

-- `zg_call_wait`: the two acknowledgements, in order.
unfoldable pub call_wait : List ℕ → Action (Unit {0})
call_wait procedure = by_transport (pure tt) (do
  r ← result
  expect_done verb_refused (text "call") r
  q ← result
  expect_done call_refused procedure q)

unfoldable pub flag : Bool → ℕ
flag b = if b then 1 else 0

unfoldable pub auto_commit : Bool → Action (Unit {0})
auto_commit on = by_transport (pure tt) (do
  verb (text "auto_commit")
  confirmed (text "auto_commit was refused") (do wr_u8 (flag on); result))

unfoldable pub set_isolation : ℕ → Action (Unit {0})
set_isolation level = by_transport (done_in_session λ h. isolate h level) (do
  verb (text "isolate")
  confirmed (text "the isolation level was refused") (do wr_u8 level; result))

unfoldable pub give_turn_back : Action (Unit {0})
give_turn_back s = ok tt (give_turn s)

unfoldable pub refused_verb : List ℕ
refused_verb = text "refused"

-- `simple_verb`: the turn goes back before the answer is judged.
unfoldable pub simple_verb : List ℕ → Action (Unit {0})
simple_verb name = do
  verb name
  r ← attempt result
  give_turn_back
  settle (detailed refused_verb name) r

-- `zg_commit` and `zg_rollback`
unfoldable pub commit_all : Action (Unit {0})
commit_all = by_transport (done_in_session commit) (simple_verb (text "commit"))

unfoldable pub roll_back : Action (Unit {0})
roll_back = by_transport (done_in_session rollback) (simple_verb (text "rollback"))

-- `zg_columns`
unfoldable pub read_columns : ℕ → Action (List ℕ)
read_columns room =
    by_transport (do r ← in_session (λ h. columns h room); pure r.bytes) (rd_std_string room)

-- ===== src/Results.antt =====
-- Results and verbs, in client/zigurat.c and client/zigurat.h: `zg_result_t`, `zg_result` and `verb`.
pub mod Conversations
pub mod Exceptions
use cocolog.Prelude.{ℕ, ◌+◌, List, [], ◌∷◌, Option, none, some, text, ◌==◌, if◌then◌else◌}
use cocolog.World.{EngineReply, EngineCall, ce_result}
use cocolog.State.{State, Action, Result, ok, fail, pure, ◌>>=◌, ◌>>◌, attempt}
use cocolog.Errors.{say, say2}
use cocolog.Turn.{take_turn}
use cocolog.Socket.{lost2}
use cocolog.Wire.{rd_u8, rd_std_string, wr_std_string, max_string}
use cocolog.Engine.{in_session, by_transport}

-- A result byte is kept as it came: the source casts it to `zg_result_t`.
abbrev pub successful_done : ℕ
successful_done = 0

abbrev pub cursor_open : ℕ
cursor_open = 1

abbrev pub cursor_fetch : ℕ
cursor_fetch = 2

abbrev pub cursor_close : ℕ
cursor_close = 3

abbrev pub return_value : ℕ
return_value = 4

abbrev pub exception_thrown : ℕ
exception_thrown = 5

unfoldable pub server_refused : List ℕ
server_refused = text "the server refused it"

-- An exception ends the connection: its message is read, and the socket is closed.
unfoldable pub thrown : Action ℕ
thrown = rd_std_string (max_string + 1) >>= lost2 server_refused

unfoldable pub judge : ℕ → Action ℕ
judge r = if r == exception_thrown then thrown else pure r

unfoldable pub wire_result : Action ℕ
wire_result = rd_u8 >>= judge

unfoldable pub engine_result : Action ℕ
engine_result = in_session ce_result >>= λ r. pure r.number

-- `zg_result`
unfoldable pub result : Action ℕ
result = by_transport engine_result wire_result

unfoldable pub clear_err : Action (Unit {0})
clear_err s = ok tt (record s { conn = record s.conn { err = [] } })

-- `if (r != ZG_SUCCESSFUL_DONE) return say2(c, what, detail);`
unfoldable pub expect_done : List ℕ → List ℕ → ℕ → Action (Unit {0})
expect_done what detail r = if r == successful_done then pure tt else say2 what detail

unfoldable pub verb_refused : List ℕ
verb_refused = text "the server would not take the verb"

unfoldable pub verb : List ℕ → Action (Unit {0})
verb name = do clear_err; take_turn; wr_std_string name; r ← result; expect_done verb_refused name r

unfoldable pub complain_if_silent : List ℕ → List ℕ → Action (Unit {0})
complain_if_silent complaint [] s = say complaint s
complain_if_silent complaint (c ∷ cs) s = fail s

unfoldable pub settle : List ℕ → Option ℕ → Action (Unit {0})
settle complaint none s = complain_if_silent complaint s.conn.err s
settle complaint (some r) s =
    if r == successful_done then ok tt s else complain_if_silent complaint s.conn.err s

-- `ok = m && r == ZG_SUCCESSFUL_DONE; if (!ok && c->err[0] == '\0') return say(c, complaint);`
unfoldable pub confirmed : List ℕ → Action ℕ → Action (Unit {0})
confirmed complaint m = attempt m >>= settle complaint

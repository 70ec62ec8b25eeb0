-- ===== src/Dialling.antt =====
-- The life of a connection, in client/zigurat.c: `dial`, `zg_open`, `zg_open_embed`, `zg_reopen` and
-- `zg_close`, with what may be asked of it, and the end of a thread's sessions.
pub mod Opened
pub mod Greeting
pub mod Descriptors
pub mod Connecting
pub mod Closing
mod Examples
use cocolog.Prelude.{
  ℕ, ◌-◌, Bool, true, false, Option, none, some, List, [], ◌∷◌, text, take, ◌==◌, ◌&&◌, ◌||◌,
  if◌then◌else◌,
}
use cocolog.World.{
  World, Errno, EngineReply, EngineCall, engine_open, engine_close, session_free, reset,
}
use cocolog.Tls.{ZtTls}
use cocolog.Tls.Opening.{TlsOptions, OpenSsl, Handshake, Step, made, bad, tls_open}
use cocolog.State.{Slot, State, Conn, Action, Result, ok, fail, pure, attempt, ◌>>=◌, ◌>>◌}
use cocolog.Errors.{with_err, say, say2}
use cocolog.Turn.{give_turn, close_descriptor}
use cocolog.Socket.{shut}
use cocolog.Wire.{rd_sz}
use cocolog.Engine.{ask, allocate, find_slot, ce_of, ce_forget, no_session, emb, in_session}

-- One address: `socket` fails, or `connect` does on the descriptor, or the descriptor is connected.
pub data Attempt : Type 0 where
  no_socket : Attempt
  unreachable : ℕ → Attempt
  reached : ℕ → Attempt

-- What `getaddrinfo` answers: the text of its error, or the addresses with what comes of them.
pub data Resolved : Type 0 where
  unresolved : List ℕ → Resolved
  addresses : List Attempt → Resolved

-- `g_tls` and `g_tls_on`: plain, or the options, with OpenSSL where it is linked.
pub data Transport : Type 0 where
  plain no_tls : Transport
  secure : OpenSsl → TlsOptions → Transport

-- A call of `dial`, and what it meets. `connect_errno` is `errno` behind the last address.
pub record Route : Type 0 where
  pub host : List ℕ
  pub resolved : Resolved
  pub connect_errno : Errno
  pub transport : Transport

-- `coco_client_tls_close`
unfoldable pub end_session : Option ZtTls → State → State
end_session none s = s
end_session (some t) s = record s {
  conn = record s.conn { tls = none };
  world = record s.world { ended = t.ssl ∷ s.world.ended };
}

-- The first steps of `dial`: whatever the old connection was in the middle of is over.
unfoldable pub start_afresh : State → State
start_afresh s =
    let ended : State = end_session s.conn.tls s in
    let t : State = give_turn (shut ended.conn.fd ended) in
    record t { conn = record t.conn { out = []; inb = []; pin = 0; transaction_id = 0 } }

unfoldable pub connect_to : ℕ → State → State
connect_to d s = record s { conn = record s.conn { fd = some d } }

unfoldable pub close_again : ℕ → State → State
close_again d s = record s { world = close_descriptor d s.world }

-- The loop over the addresses.
unfoldable pub try_addresses : List Attempt → State → State
try_addresses [] s = s
try_addresses (no_socket ∷ r) s = try_addresses r s
try_addresses (unreachable d ∷ r) s = try_addresses r (close_again d s)
try_addresses (reached d ∷ r) s = connect_to d s

-- `close(c->fd); c->fd = -1; return 0;`
unfoldable pub hang_up_and_fail : {A : Type 0} → Action A
hang_up_and_fail s = fail (shut s.conn.fd s)

unfoldable pub keep_session : Step (ℕ × Handshake) → Action (Unit {0})
keep_session (made h) s =
    ok tt (record s { conn = record s.conn { tls = some (record { ssl = h.0; why = [] }) } })
keep_session (bad m) s = hang_up_and_fail (record s { conn = with_err m s.conn })

-- The handshake before the greeting.
unfoldable pub secured : Transport → List ℕ → Action (Unit {0})
secured plain host s = ok tt s
secured no_tls host s = say (text "this build has no TLS") (shut s.conn.fd s)
secured (secure a o) host s = keep_session (tls_open a o host) s

-- The server speaks first.
unfoldable pub keep_id : Option ℕ → Action (Unit {0})
keep_id none s = hang_up_and_fail s
keep_id (some id) s = ok tt (record s { conn = record s.conn { transaction_id = id; err = [] } })

unfoldable pub greeted : Action (Unit {0})
greeted = attempt rd_sz >>= keep_id

unfoldable pub when_connected : Option ℕ → Route → Action (Unit {0})
when_connected none w s = say2 (text "cannot connect") (s.world.strerror w.connect_errno) s
when_connected (some d) w s = (secured w.transport w.host >> greeted) s

unfoldable pub connected_by : Resolved → Route → Action (Unit {0})
connected_by (unresolved m) w s = say2 (text "cannot resolve the server") m s
connected_by (addresses l) w s = let t : State = try_addresses l s in when_connected t.conn.fd w t

-- `dial`; the options that it sets on the socket change none of its answers.
unfoldable pub dial : Route → Action (Unit {0})
dial w s = connected_by w.resolved w (start_afresh s)

-- What `calloc` and the first assignments of `zg_open` and `zg_open_embed` make.
unfoldable pub blank : Conn
blank = record {
  fd = none;
  tls = none;
  embed = false;
  owner = 0;
  transaction_id = 0;
  err = [];
  lockfd = none;
  held = false;
  lockwait = 0;
  out = [];
  inb = [];
  pin = 0;
}

-- What the two ways of opening answer: the connection, or null with a message in the caller's buffer.
pub data Handle : Type 0 where
  handle : Handle
  no_handle : List ℕ → Handle

-- `snprintf(err, errcap, "%s", m)`
unfoldable pub refusal : ℕ → List ℕ → Handle
refusal cap m = no_handle (take (cap - 1) m)

unfoldable pub handle_of : ℕ → Option (Unit {0}) → Action Handle
handle_of cap none s = ok (refusal cap s.conn.err) s
handle_of cap (some x) s = ok handle s

unfoldable pub open_wire : Route → ℕ → Bool → Action Handle
open_wire w cap false s = ok (refusal cap (text "out of memory")) s
open_wire w cap true s = (attempt (dial w) >>= handle_of cap) s

-- `zg_open`, of a connection at this state's address: what is there before is no connection.
unfoldable pub zg_open : Route → ℕ → Action Handle
zg_open w cap s = (allocate >>= open_wire w cap) (record s { conn = blank })

-- The first session is the store's.
unfoldable pub begin_session : ℕ → Option ℕ → Action Handle
begin_session cap (some h) s = ok handle s
begin_session cap none s =
    (ask engine_close >> (λ t. ok (refusal cap (text "cannot begin an embedded session")) t)) s

unfoldable pub opened_engine : ℕ → EngineReply → Action Handle
opened_engine cap r s =
    if r.ok
    then (ce_of >>= begin_session cap)
        (record s { conn = record s.conn { embed = true; owner = s.thread } })
    else ok (refusal cap (take 511 r.message)) s

unfoldable pub open_engine : List ℕ → ℕ → Bool → Action Handle
open_engine dir cap false s = ok (refusal cap (text "out of memory")) s
open_engine dir cap true s = (ask (engine_open dir) >>= opened_engine cap) s

-- `zg_open_embed`
unfoldable pub zg_open_embed : List ℕ → ℕ → Action Handle
zg_open_embed dir cap s =
    if s.world.engine_linked
    then (allocate >>= open_engine dir cap) (record s { conn = blank })
    else ok (refusal cap (text "this build carries no embedded engine (see embed/build.sh)")) s

-- `zg_reopen`
unfoldable pub reopen : Route → Action (Unit {0})
reopen w s = if s.conn.embed then (in_session reset >> pure tt) s else dial w s

unfoldable pub close_lock : Option ℕ → State → State
close_lock none s = s
close_lock (some d) s = record s {
  conn = record s.conn { lockfd = none };
  world = close_descriptor d s.world;
}

unfoldable pub close_wire : State → State
close_wire s =
    let given : State = give_turn s in
    let unlocked : State = close_lock given.conn.lockfd given in
    let ended : State = end_session unlocked.conn.tls unlocked in shut ended.conn.fd ended

-- `zg_close`
unfoldable pub close : Action (Unit {0})
close s =
    if s.conn.embed then (ce_forget >> ask engine_close >> pure tt) s else ok tt (close_wire s)

-- `zg_is_open` and `zg_owns`
unfoldable pub has_socket : Option ℕ → Bool
has_socket none = false
has_socket (some d) = true

unfoldable pub is_open : State → Bool
is_open s = s.conn.embed || has_socket s.conn.fd

unfoldable pub owns : State → Bool
owns s = if s.conn.embed then s.conn.owner == s.thread else true

-- `zg_error`, `zg_transaction_id` and `zg_embedded`
unfoldable pub zg_error : State → List ℕ
zg_error s = s.conn.err

unfoldable pub zg_transaction_id : State → ℕ
zg_transaction_id s = s.conn.transaction_id

unfoldable pub zg_embedded : State → Bool
zg_embedded s = s.conn.embed

-- `zg_page_size`, where `size` is what the engine answers.
unfoldable pub page_size : ℕ → State → ℕ
page_size size s = if s.conn.embed && s.world.engine_linked then size else 0

-- `zg_tls_configure_flat`: the transport of every later dial.
unfoldable pub configured_flat : OpenSsl → Bool → TlsOptions → Transport
configured_flat a linked o = if linked then secure a o else no_tls

-- `ce_thread_slots_free`: the sessions of a thread end with it.
unfoldable pub free_sessions : List Slot → Action (Unit {0})
free_sessions [] = pure tt
free_sessions (l ∷ ls) = ask (session_free l.session) >> free_sessions ls

-- ===== src/Socket.antt =====
-- The socket of client/zigurat.c: `lost`, `why`, `rd`, `wr_now`, `flush_out`, `wr` and `skip`.
pub mod Ready
pub mod Flushing
pub mod Receiving
pub mod Sending
pub mod Descriptors
pub mod Safety
pub mod Reading
use cocolog.Prelude.{
  ℕ, zero, suc, ◌+◌, ◌-◌, ◌≡◌, Bool, true, false, Option, none, some, List, [], ◌∷◌, ◌++◌, ◌&&◌,
  not, text, take, drop, length, min, ltb, leb, ◌==◌, if◌then◌else◌,
}
use cocolog.World.{
  World, Errno, eintr, would_block, other_errno, Stop, Reply, got, stopped, Accepted, took, hangs,
  refused,
}
use cocolog.Tls.{ZtTls, tls_note, tls_why}
use cocolog.State.{
  State, Conn, Action, Result, ok, fail, blocked, pure, ◌>>=◌, ◌>>◌, out_size, in_size,
}
use cocolog.Errors.{say, say2}
use cocolog.Turn.{give_turn, close_descriptor}

-- ---- failures ----

unfoldable pub shut : Option ℕ → State → State
unfolding close_descriptor
shut none s = s
shut (some d) s = record s {
  conn = record s.conn { fd = none };
  world = close_descriptor d s.world;
}

-- The first three steps of `lost`.
unfoldable pub hang_up : State → State
unfolding shut give_turn
hang_up s =
    let t : State = shut s.conn.fd s in
    give_turn (record t { conn = record t.conn { inb = []; pin = 0 } })

-- `lost` without and with a detail.
unfoldable pub lost : {A : Type 0} → List ℕ → Action A
unfolding hang_up say
lost what s = say what (hang_up s)

unfoldable pub lost2 : {A : Type 0} → List ℕ → List ℕ → Action A
unfolding hang_up say2
lost2 what detail s = say2 what detail (hang_up s)

unfoldable pub noted : (Errno → List ℕ) → Stop → Option ZtTls → Option ZtTls
noted strerror st none = none
noted strerror st (some t) = some (tls_note strerror st t)

-- A stop is noted in the TLS handle, if there is one.
unfoldable pub note : Stop → State → State
unfolding noted tls_note
note st s = record s { conn = record s.conn { tls = noted s.world.strerror st s.conn.tls } }

-- What `coco_client_tls_why` answers for this connection; none on a plain one.
unfoldable pub session_why : Option ZtTls → Option (List ℕ)
unfolding tls_why
session_why none = none
session_why (some t) = tls_why t 256

unfoldable pub or_errno : Option (List ℕ) → List ℕ → List ℕ
or_errno none e = e
or_errno (some w) e = w

-- `why(c, w, sizeof w)`
unfoldable pub why : Errno → State → List ℕ
unfolding session_why or_errno
why e s = or_errno (session_why s.conn.tls) (s.world.strerror e)

unfoldable pub is_eintr : Errno → Bool
is_eintr eintr = true
is_eintr _ = false

-- ---- writing ----

-- `k < 0 && errno == EINTR` for a send: a TLS send that stopped always answers -1.
unfoldable pub retries_send : Option ZtTls → Stop → Bool
unfolding is_eintr
retries_send none st = not st.answers_zero && is_eintr st.errno
retries_send (some t) st = is_eintr st.errno

unfoldable pub accept_bytes : List Accepted → List ℕ → State → State
accept_bytes r bs s = record s { world = record s.world { accepts = r; sent = s.world.sent ++ bs } }

-- The loop of `wr_now`, over the answers that the kernel will give.
unfoldable pub send_loop : List Accepted → List ℕ → Action (Unit {0})
unfolding accept_bytes note why retries_send lost2
send_loop accepts [] s = ok tt s
send_loop [] (b ∷ bs) s = ok tt (accept_bytes [] (b ∷ bs) s)
send_loop (took k ∷ r) (b ∷ bs) s = send_loop r (drop k bs) (accept_bytes r (b ∷ take k bs) s)
send_loop (hangs ∷ r) (b ∷ bs) s = blocked
send_loop (refused st ∷ r) (b ∷ bs) s =
    let t : State = note st (accept_bytes r [] s) in
    let again : Result (Unit {0}) = send_loop r (b ∷ bs) t in
    if retries_send s.conn.tls st then again else lost2 (text "write failed") (why st.errno t) t

-- `if (c->fd < 0) return say(c, "the connection is closed");`
abbrev pub when_open : {A : Type 0} → Option ℕ → Action A → Action A
when_open none m = say (text "the connection is closed")
when_open (some d) m = m

unfoldable pub wr_now : List ℕ → Action (Unit {0})
unfolding send_loop say
wr_now bs s = when_open s.conn.fd (send_loop s.world.accepts bs) s

unfoldable pub flush : List ℕ → Action (Unit {0})
unfolding wr_now
flush [] s = ok tt s
flush (b ∷ bs) s = wr_now (b ∷ bs) (record s { conn = record s.conn { out = [] } })

-- What was held is cleared before it goes out.
unfoldable pub flush_out : Action (Unit {0})
unfolding flush
flush_out s = flush s.conn.out s

-- `memcpy(c->out + c->nout, buf, n); c->nout += n;`
unfoldable pub hold : List ℕ → Action (Unit {0})
hold bs s = ok tt (record s { conn = record s.conn { out = s.conn.out ++ bs } })

unfoldable pub held_back : List ℕ → Action (Unit {0})
unfolding flush_out hold ◌>>=◌
held_back bs s =
    if ltb out_size (length s.conn.out + length bs) then (flush_out >> hold bs) s else hold bs s

unfoldable pub wr : List ℕ → Action (Unit {0})
unfolding flush_out wr_now held_back say ◌>>=◌
wr bs s =
    when_open s.conn.fd (if leb out_size (length bs) then flush_out >> wr_now bs else held_back bs)
      s

-- ---- reading ----

-- What was read ahead and not yet handed out: `in + pin`, of `nin - pin` bytes.
abbrev pub ahead : Conn → List ℕ
ahead c = drop c.pin c.inb

unfoldable pub consume : ℕ → State → State
consume n s = record s { conn = record s.conn { pin = s.conn.pin + n } }

unfoldable pub arrive : List ℕ → List Reply → Action (Unit {0})
arrive bs r s = ok tt (record s {
  conn = record s.conn { inb = bs; pin = 0 };
  world = record s.world { replies = r };
})

-- One round of the loop of `rd`: `m` bytes are wanted still, and `acc` is what `buf` holds.
unfoldable pub in_hand : ℕ → List ℕ → (ℕ → List ℕ → Action (List ℕ)) → Action (List ℕ)
unfolding consume
in_hand m acc more s =
    let have : ℕ = length (ahead s.conn) in
    if leb m have
    then ok (acc ++ take m (ahead s.conn)) (consume m s)
    else more (m - have) (acc ++ ahead s.conn) (consume have s)

-- `k < 0 && errno == EINTR` for a receive: a TLS read that stopped always answers 0.
unfoldable pub retries_recv : Option ZtTls → Stop → Bool
unfolding is_eintr
retries_recv none st = not st.answers_zero && is_eintr st.errno
retries_recv (some t) st = false

unfoldable pub closed_by_server : List ℕ
closed_by_server = text "the server closed the connection"

unfoldable pub session_failed : {A : Type 0} → Option (List ℕ) → Action A
session_failed none = lost closed_by_server
session_failed (some w) = lost2 (text "read failed") w

unfoldable pub failed_with : {A : Type 0} → Option ZtTls → Stop → Action A
failed_with none st t =
    if st.answers_zero
    then lost closed_by_server t
    else lost2 (text "read failed") (why st.errno t) t
failed_with (some _) st t = session_failed (session_why t.conn.tls) t

-- What `rd` makes of a receive that brought nothing and is not tried again: a session says why.
unfoldable pub receive_failed : {A : Type 0} → Stop → Action A
unfolding failed_with
receive_failed st s = failed_with s.conn.tls st (note st s)

unfoldable pub never : {A : Type 0} → Action A
never s = blocked

-- `rd` from where nothing is in hand, over the answers that the kernel will give.
unfoldable pub receive : List Reply → ℕ → List ℕ → Action (List ℕ)
unfolding flush_out arrive in_hand retries_recv receive_failed never ◌>>=◌
receive [] m acc = flush_out >> arrive [] [] >> never
receive (got b bs ∷ r) m acc = flush_out >> arrive (b ∷ bs) r >> in_hand m acc (receive r)
receive (stopped st ∷ r) m acc = flush_out >> arrive [] r >> λ s.
    let again : Result (List ℕ) = receive r m acc s in
    if retries_recv s.conn.tls st then again else receive_failed st s

unfoldable pub rd : ℕ → Action (List ℕ)
unfolding receive in_hand say
rd n s = when_open s.conn.fd (in_hand n [] (receive s.world.replies)) s

-- The loop of `skip`, in pails of 512 bytes; fuel `n` is enough, as each round takes one at least.
unfoldable pub skip_loop : ℕ → ℕ → Action (Unit {0})
unfolding rd ◌>>=◌
skip_loop fuel zero s = ok tt s
skip_loop zero (suc n) s = Result.exhausted
skip_loop (suc fuel) (suc n) s =
    (rd (min (suc n) 512) >>= λ _. skip_loop fuel (suc n - min (suc n) 512)) s

unfoldable pub skip : ℕ → Action (Unit {0})
unfolding skip_loop
skip n = skip_loop n n

-- ===== src/Socket/Ready.antt =====
-- Connections in working order, the byte streams on their two sides, and what an exchange leaves
-- alone.
use cocolog.Prelude.{
  ℕ, ◌≡◌, ap, ◌∙◌, Bool, true, false, Option, none, some, List, [], ◌∷◌, ◌++◌, if◌then◌else◌,
}
use cocolog.World.{Reply, got, stopped}
use cocolog.Tls.{ZtTls}
use cocolog.State.{State, Action}
use cocolog.Socket.{ahead, retries_recv, when_open}

-- The bytes that will arrive before the stream ends or breaks.
unfoldable pub arriving : Option ZtTls → List Reply → List ℕ
arriving tls [] = []
arriving tls (got b bs ∷ r) = (b ∷ bs) ++ arriving tls r
arriving tls (stopped st ∷ r) =
    let rest = arriving tls r in if retries_recv tls st then rest else []

-- What is still to be read from the server, and all that has been written to it.
abbrev pub unread : State → List ℕ
unread s = ahead s.conn ++ arriving s.conn.tls s.world.replies

abbrev pub written : State → List ℕ
written s = s.world.sent ++ s.conn.out

-- All but the buffers, the message and the scripts of the transport.
abbrev pub frame : State → State
frame s = record s {
  conn = record s.conn { err = []; out = []; inb = []; pin = 0 };
  world = record s.world { replies = []; accepts = []; sent = [] };
}

abbrev pub has_turn : Option ℕ → Bool → Bool
has_turn none held = true
has_turn (some d) held = held

-- A socket that is open, takes what it is given, and has the turn if turns are taken.
pub record IsReady (s : State) : Type 0 where
  pub socket : ℕ
  pub is_open : s.conn.fd ≡ some socket
  pub on_wire : s.conn.embed ≡ false
  pub willing : s.world.accepts ≡ []
  pub turn : has_turn s.conn.lockfd s.conn.held ≡ true

pub IsReady-frame : {s t : State} → IsReady s → frame t ≡ frame s → t.world.accepts ≡ [] → IsReady t
IsReady-frame h f a = record {
  socket = h.socket;
  is_open = ap (λ (u : State). u.conn.fd) f ∙ h.is_open;
  on_wire = ap (λ (u : State). u.conn.embed) f ∙ h.on_wire;
  willing = a;
  turn = ap (λ (u : State). has_turn u.conn.lockfd u.conn.held) f ∙ h.turn;
}

when_open-some : {A : Type 0} (o : Option ℕ) (d : ℕ) (m : Action A) → o ≡ some d → when_open o m ≡ m
when_open-some o d m e = rw e

-- On a ready connection the test for a closed one passes.
pub opened : {A : Type 0} {s : State} → IsReady s → (m : Action A) → when_open s.conn.fd m ≡ m
opened h m = when_open-some _ h.socket m h.is_open

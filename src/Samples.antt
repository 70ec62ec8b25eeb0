-- ===== src/Samples.antt =====
-- Concrete connections and worlds, for the examples.
use cocolog.Prelude.{ℕ, false, Option, none, some, List, [], ◌∷◌, text}
use cocolog.World.{
  World, eintr, ssl_none, Stop, Reply, got, stopped, Accepted, took, refused, Lock, EngineReply,
}
use cocolog.State.{State, Conn}

abbrev pub no_answer : EngineReply
no_answer = record { ok = false; number = 0; bytes = []; words = []; message = [] }

-- A little-endian machine, and a world that will answer as scripted.
abbrev pub scripted : List Reply → List Accepted → List Lock → World
scripted replies accepts locks = record {
  replies = replies;
  accepts = accepts;
  locks = locks;
  engine = λ n. no_answer;
  engine_linked = false;
  malloc_fails = λ n. false;
  strerror = λ e. text "errno";
  big_endian = false;
  sent = [];
  closed = [];
  ended = [];
  locked = false;
  slept = 0;
  engine_calls = [];
  engine_count = 0;
  mallocs = 0;
}

-- A plain connection on descriptor 5, with two bytes held back and three read ahead.
abbrev pub conn : Option ℕ → Conn
conn lockfd = record {
  fd = some 5;
  tls = none;
  embed = false;
  owner = 1;
  transaction_id = 7;
  err = [];
  lockfd = lockfd;
  held = false;
  lockwait = 1;
  out = 10 ∷ 11 ∷ [];
  inb = 1 ∷ 2 ∷ 3 ∷ [];
  pin = 1;
}

abbrev pub around : Conn → World → State
around c w = record { address = 100; thread = 1; slots = []; conn = c; world = w }

abbrev pub interrupted : Stop
interrupted = record {
  answers_zero = false;
  errno = eintr;
  ssl_error = ssl_none;
  ssl_queued = false;
  ssl_reason = none;
}

-- Short sends with an interruption, and a reply in two pieces around another.
abbrev pub busy : State
busy = around (conn none) (
    scripted (got 4 (5 ∷ []) ∷ stopped interrupted ∷ got 6 [] ∷ [])
      (took 0 ∷ refused interrupted ∷ took 2 ∷ []) [])

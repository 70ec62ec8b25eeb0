-- ===== src/Turn.antt =====
-- Taking turns, in client/zigurat.c: `take_turn`, `give_turn` and `zg_serialise`.
pub mod Waiting
use cocolog.Prelude.{
  ℕ, ◌+◌, ◌*◌, Bool, true, false, Option, none, some, List, [], ◌∷◌, text, ltb, leb, ◌&&◌,
  if◌then◌else◌,
}
use cocolog.World.{World, Errno, other_errno, Lock, granted, denied}
use cocolog.State.{State, Action, Result, ok, blocked}
use cocolog.Errors.{say, say2}

-- `errno != EWOULDBLOCK && errno != EINTR` is false.
unfoldable pub worth_retrying : Errno → Bool
worth_retrying (other_errno n) = false
worth_retrying _ = true

-- `c->lockwait > 0 && waited_ms >= c->lockwait * 1000`
unfoldable pub waited_enough : ℕ → ℕ → Bool
waited_enough lockwait waited = ltb 0 lockwait && leb (lockwait * 1000) waited

unfoldable pub take_loop : List Lock → ℕ → Action (Unit {0})
unfolding worth_retrying waited_enough say say2
take_loop [] waited s = blocked
take_loop (granted ∷ r) waited s = ok tt (record s {
  conn = record s.conn { held = true };
  world = record s.world { locks = r; locked = true };
})
take_loop (denied e ∷ r) waited s =
    let tried : State = record s { world = record s.world { locks = r } } in
    let again : Result (Unit {0}) =
      take_loop r (waited + 2)
        (record s { world = record s.world { locks = r; slept = s.world.slept + 2 } }) in
    if worth_retrying e
    then (if waited_enough s.conn.lockwait waited
        then say (text "timed out waiting for another cocolog process") tried
        else again)
    else say2 (text "cannot take the turn") (s.world.strerror e) tried

unfoldable pub needs_turn : Option ℕ → Bool → Bool
needs_turn none held = false
needs_turn (some d) true = false
needs_turn (some d) false = true

unfoldable pub take_turn : Action (Unit {0})
unfolding take_loop needs_turn
take_turn s = if needs_turn s.conn.lockfd s.conn.held then take_loop s.world.locks 0 s else ok tt s

unfoldable pub holds : Option ℕ → Bool → Bool
holds none held = false
holds (some d) held = held

-- `give_turn`
unfoldable pub give_turn : State → State
unfolding holds
give_turn s =
    if holds s.conn.lockfd s.conn.held
    then record s {
      conn = record s.conn { held = false };
      world = record s.world { locked = false };
    }
    else s

-- `close(fd)`; the kernel lets go of a lock whose descriptor is closed.
unfoldable pub close_descriptor : ℕ → World → World
close_descriptor d w = record w { closed = d ∷ w.closed }

unfoldable pub let_go : Option ℕ → State → State
unfolding give_turn close_descriptor
let_go none s = s
let_go (some d) s =
    let t : State = give_turn s in
    record t { conn = record t.conn { lockfd = none }; world = close_descriptor d t.world }

-- What `open(path, O_RDWR | O_CREAT, 0666)` answers.
pub data Opened : Type 0 where
  descriptor : ℕ → Opened
  refused_open : Errno → Opened

unfoldable pub open_turn : Opened → ℕ → Action (Unit {0})
unfolding say2
open_turn (descriptor d) wait s =
    ok tt (record s { conn = record s.conn { lockfd = some d; lockwait = wait } })
open_turn (refused_open e) wait s = say2 (text "cannot open the turn file") (s.world.strerror e) s

unfoldable pub serve_turn : List ℕ → Opened → ℕ → Action (Unit {0})
unfolding open_turn
serve_turn [] opened wait s = ok tt s
serve_turn (c ∷ cs) opened wait s = open_turn opened wait s

-- `zg_serialise`. The path is `[]` where it is empty or absent; `opened` is what opening it answers.
unfoldable pub serialise : List ℕ → Opened → ℕ → Action (Unit {0})
unfolding let_go serve_turn
serialise path opened wait s =
    if s.conn.embed then ok tt s else serve_turn path opened wait (let_go s.conn.lockfd s)

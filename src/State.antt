-- ===== src/State.antt =====
-- `struct zg_conn` of client/zigurat.c with the world around it, and the actions over them.
pub mod Outcomes
use cocolog.Prelude.{ℕ, Bool, Option, none, some, List}
use cocolog.World.{World}
use cocolog.Tls.{ZtTls}

-- `fd` and `lockfd` are none where the source holds -1. `out` holds the first `nout` bytes of the
-- outgoing buffer and `inb` the first `nin` of the incoming one. `err` is the text before the
-- terminator. A `pthread_t` is a number, and so is a time in seconds.
pub record Conn : Type 0 where
  pub fd : Option ℕ
  pub tls : Option ZtTls
  pub embed : Bool
  pub owner : ℕ
  pub transaction_id : ℕ
  pub err : List ℕ
  pub lockfd : Option ℕ
  pub held : Bool
  pub lockwait : ℕ
  pub out : List ℕ
  pub inb : List ℕ
  pub pin : ℕ

abbrev pub out_size : ℕ
out_size = 1024

abbrev pub in_size : ℕ
in_size = 8192

-- A thread's entry of `ce_slots`: the connection's address and the session's handle.
pub record Slot : Type 0 where
  pub conn_at : ℕ
  pub session : ℕ

-- One connection, its address, the calling thread with its sessions, and the world.
pub record State : Type 0 where
  pub address : ℕ
  pub thread : ℕ
  pub slots : List Slot
  pub conn : Conn
  pub world : World

-- How a call ends: with a value, with the answer 0, not at all (a system call never returns), or
-- in the model alone, by running out of fuel.
pub data Result (A : Type 0) : Type 0 where
  ok : A → State → Result A
  fail : State → Result A
  blocked : Result A
  exhausted : Result A

abbrev pub Action : Type 0 → Type 0
Action A = State → Result A

abbrev pub pure : {A : Type 0} → A → Action A
pure a s = ok a s

-- `return 0;`
abbrev pub give_up : {A : Type 0} → Action A
give_up s = fail s

-- `if (!m) return 0;` and then the rest.
abbrev pub continue : {A B : Type 0} → Result A → (A → Action B) → Result B
continue (ok a s) f = f a s
continue (fail s) f = fail s
continue blocked f = blocked
continue exhausted f = exhausted

infixl 5 ◌>>=◌ ◌>>◌
unfoldable pub ◌>>=◌ : {A B : Type 0} → Action A → (A → Action B) → Action B
◌>>=◌ m f s = continue (m s) f

abbrev pub ◌>>◌ : {A B : Type 0} → Action A → Action B → Action B
m >> k = m >>= λ _. k

-- `ok = m;`: the answer 0 is kept as a value.
abbrev pub caught : {A : Type 0} → Result A → Result (Option A)
caught (ok a s) = ok (some a) s
caught (fail s) = ok none s
caught blocked = blocked
caught exhausted = exhausted

unfoldable pub attempt : {A : Type 0} → Action A → Action (Option A)
attempt m s = caught (m s)

abbrev pub gets : {A : Type 0} → (State → A) → Action A
gets f s = ok (f s) s

abbrev pub set_conn : (Conn → Conn) → Action (Unit {0})
set_conn f s = ok tt (record s { conn = f s.conn })

abbrev pub set_world : (World → World) → Action (Unit {0})
set_world f s = ok tt (record s { world = f s.world })

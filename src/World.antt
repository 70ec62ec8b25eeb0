-- ===== src/World.antt =====
-- What client/zigurat.c and client/tls.c do not implement: the kernel, OpenSSL, the allocator and
-- the embedded engine. What these will answer is fixed in advance by scripts, one answer to a call,
-- so that a statement about every world is one about everything that they could answer. What the
-- client did to them is kept beside the scripts.
use cocolog.Prelude.{ℕ, Bool, Option, List}

-- The values of `errno` that the client tells apart.
pub data Errno : Type 0 where
  eintr would_block : Errno
  other_errno : ℕ → Errno

-- What `SSL_get_error` answers.
pub data SslError : Type 0 where
  ssl_none zero_return syscall ssl_fault other_ssl : SslError

-- A transfer that moved nothing, seen by both layers: `recv` or `send` answers 0 or -1 and sets
-- `errno`; `SSL_read` or `SSL_write` leaves an error and, on its queue, perhaps a reason.
pub record Stop : Type 0 where
  pub answers_zero : Bool
  pub errno : Errno
  pub ssl_error : SslError
  pub ssl_queued : Bool
  pub ssl_reason : Option (List ℕ)

-- One `recv` or `SSL_read`: at least one byte arrives, or none does.
pub data Reply : Type 0 where
  got : ℕ → List ℕ → Reply
  stopped : Stop → Reply

-- One `send` or `SSL_write`: `took k` accepts k + 1 bytes, or all if fewer are offered.
pub data Accepted : Type 0 where
  took : ℕ → Accepted
  hangs : Accepted
  refused : Stop → Accepted

-- One try of `flock(LOCK_EX | LOCK_NB)`.
pub data Lock : Type 0 where
  granted : Lock
  denied : Errno → Lock

-- One answer of an embedded engine's entry point: its status, what it hands back, and what
-- `ce_error` says after it.
pub record EngineReply : Type 0 where
  pub ok : Bool
  pub number : ℕ
  pub bytes : List ℕ
  pub words : List ℕ
  pub message : List ℕ

-- The calls of the embedded engine's entry points, each with its session first.
pub data EngineCall : Type 0 where
  session_new engine_close : EngineCall
  session_free reset ce_result skip_value commit rollback read_num read_str_alloc : ℕ → EngineCall
  ce_call : ℕ → List ℕ → EngineCall
  engine_open : List ℕ → EngineCall
  isolate columns read_str read_dvector : ℕ → ℕ → EngineCall
  write_num : ℕ → ℕ → ℕ → EngineCall
  write_str : ℕ → ℕ → List ℕ → EngineCall
  write_dvector : ℕ → List ℕ → EngineCall

pub record World : Type 0 where
  -- The scripts. When `accepts` is used up the kernel takes all that it is offered; when `replies`
  -- or `locks` is, nothing more ever arrives, or the lock is never let go.
  pub replies : List Reply
  pub accepts : List Accepted
  pub locks : List Lock
  pub engine : ℕ → EngineReply
  pub engine_linked : Bool
  pub malloc_fails : ℕ → Bool
  pub strerror : Errno → List ℕ
  -- The byte order of this machine.
  pub big_endian : Bool
  -- What has been done: the bytes that the kernel or OpenSSL took, in order; the descriptors that
  -- were closed and the sessions of OpenSSL that were ended; whether this process holds the lock; the milliseconds slept; the engine's calls
  -- and the allocations so far.
  pub sent : List ℕ
  pub closed : List ℕ
  pub ended : List ℕ
  pub locked : Bool
  pub slept : ℕ
  pub engine_calls : List EngineCall
  pub engine_count : ℕ
  pub mallocs : ℕ

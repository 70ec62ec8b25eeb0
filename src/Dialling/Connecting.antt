-- ===== src/Dialling/Connecting.antt =====
-- `dial` and `zg_open` from the first address to the greeting, whatever is met on the way.
use cocolog.Prelude.{
  ℕ, ◌≡◌, refl, sym, ap, ◌∙◌, Bool, true, false, Option, none, some, List, if◌then◌else◌,
}
use mathlib.Core.Path.{subst, ap₂}
use cocolog.Tls.Opening.{Handshake, Step, made, bad}
use cocolog.State.{State, attempt}
use cocolog.State.Outcomes.{Ensures, gives, fails, Ensures-bind, Ensures-weaken, Ensures-both}
use cocolog.Errors.{say, say2, with_err}
use cocolog.Socket.Ready.{arriving}
use cocolog.Socket.Sending.{IsClosed}
use cocolog.Socket.Descriptors.{in_all, Owes}
use cocolog.Dialling.Opened.{opened_by}
use cocolog.Dialling.Descriptors.{dial-Keeps}
use cocolog.Engine.{allocate}
use cocolog.Dialling.{
  Transport, plain, no_tls, secure, Route, Resolved, unresolved, addresses, start_afresh,
  try_addresses, hang_up_and_fail, keep_session, secured, greeted, when_connected, connected_by,
  dial, blank, Handle, handle, no_handle, refusal, handle_of, open_wire, zg_open,
}
use cocolog.Dialling.Greeting.{
  IsFresh, IsFresh-step, shut-IsClosed, start_afresh-IsFresh, try_addresses-IsFresh, Caught,
  Ensures-caught, Dialled, greeted-Dialled,
}

-- Ready to be greeted on the descriptor `d`.
Awaits : State → ℕ → State → Type 0
Awaits s d t = IsFresh s t × (t.conn.fd ≡ some d)

keep_session-Awaits :
    (r : Step (ℕ × Handshake)) (s u : State) (d : ℕ)
    → Awaits s d u
    → Ensures (λ _ t. Awaits s d t) IsClosed (keep_session r u)
unfolding keep_session hang_up_and_fail Awaits
keep_session-Awaits (made h) s u d a =
    gives (IsFresh-step a.0 refl refl refl (record { unsent = refl; to_come = refl }) refl, a.1)
keep_session-Awaits (bad m) s u d a = fails (shut-IsClosed _)

secured-Awaits :
    (tr : Transport) (host : List ℕ) (s u : State) (d : ℕ)
    → Awaits s d u
    → Ensures (λ _ t. Awaits s d t) IsClosed (secured tr host u)
unfolding secured say with_err
secured-Awaits plain host s u d a = gives a
secured-Awaits no_tls host s u d a = fails (shut-IsClosed u)
secured-Awaits (secure x o) host s u d a = keep_session-Awaits _ s u d a

when_connected-Dialled :
    (o : Option ℕ) (w : Route) (s u : State)
    → u.conn.fd ≡ o
    → IsFresh s u
    → Ensures (λ _ t. Dialled s t) IsClosed (when_connected o w u)
unfolding when_connected say2 say with_err Awaits
when_connected-Dialled none w s u e f = fails e
when_connected-Dialled (some d) w s u e f =
    Ensures-bind (secured w.transport w.host) (λ _. greeted) u
      (secured-Awaits w.transport w.host s u d (f, e)) λ _ t a. greeted-Dialled s t d a.0 a.1

connected_by-Dialled :
    (r : Resolved) (w : Route) (s u : State)
    → IsClosed u
    → IsFresh s u
    → Ensures (λ _ t. Dialled s t) IsClosed (connected_by r w u)
unfolding connected_by say2 say with_err
connected_by-Dialled (unresolved m) w s u c f = fails c
connected_by-Dialled (addresses l) w s u c f =
    when_connected-Dialled _ w s (try_addresses l u) refl (try_addresses-IsFresh l s u f)

dial_ends : (w : Route) (s : State) → Ensures (λ _ t. Dialled s t) IsClosed (dial w s)
unfolding dial
dial_ends w s =
    let f = start_afresh-IsFresh s in connected_by-Dialled w.resolved w s (start_afresh s) f.1 f.0

-- No socket is open, and the descriptors that have been closed are `cl`, the last first.
pub record Abandoned (cl : List ℕ) (t : State) : Type 0 where
  pub no_socket : IsClosed t
  pub all_closed : t.world.closed ≡ cl

owed_none : (cl : List ℕ) (t : State) → IsClosed t → Owes cl t → Abandoned cl t
unfolding in_all
owed_none cl t c o = record {
  no_socket = c;
  all_closed = ap (λ (x : Option ℕ). in_all x t.world.closed) (sym c) ∙ o;
}

pub dial-Dialled :
    (w : Route) (s : State)
    → Ensures
        (λ _ t. Dialled s t × Owes (opened_by w.resolved (in_all s.conn.fd s.world.closed)) t)
        (Abandoned (opened_by w.resolved (in_all s.conn.fd s.world.closed)))
        (dial w s)
dial-Dialled w s =
    Ensures-weaken (λ a t h. h) (λ t h. owed_none _ t h.0 h.1)
      (Ensures-both (dial_ends w s) (dial-Keeps w s))

-- What `zg_open` answers: a connection that is dialled, or a message, with no socket open; `cl` are
-- the descriptors that were closed and the one in use.
abbrev pub Opens : List ℕ → State → Handle → State → Type 0
Opens cl s handle t = Dialled s t × Owes cl t
Opens cl s (no_handle m) t = Abandoned cl t

handle_of-Opens :
    (cl : List ℕ) (errcap : ℕ) (s : State) (o : Option (Unit {0})) (t : State)
    → Caught (λ _ u. Dialled s u × Owes cl u) (Abandoned cl) o t
    → Ensures (Opens cl s) (λ _. ⊥) (handle_of errcap o t)
unfolding handle_of refusal
handle_of-Opens cl errcap s none t h = gives h
handle_of-Opens cl errcap s (some x) t h = gives h

-- With the memory for a connection, or without.
abbrev after_allocation : Bool → Route → List ℕ → List ℕ
after_allocation false w c = c
after_allocation true w c = opened_by w.resolved c

dial_from_none :
    (w : Route) (s : State)
    → IsClosed s
    → Ensures
        (λ _ t. Dialled s t × Owes (opened_by w.resolved s.world.closed) t)
        (Abandoned (opened_by w.resolved s.world.closed))
        (dial w s)
unfolding in_all
dial_from_none w s c =
    subst
      (λ (l : List ℕ).
        Ensures (λ _ t. Dialled s t × Owes (opened_by w.resolved l) t)
          (Abandoned (opened_by w.resolved l)) (dial w s))
      (ap (λ (o : Option ℕ). in_all o s.world.closed) c) (dial-Dialled w s)

open_wire-Opens :
    (w : Route) (errcap : ℕ) (b : Bool) (s : State)
    → IsClosed s
    → Ensures (Opens (after_allocation b w s.world.closed) s) (λ _. ⊥) (open_wire w errcap b s)
unfolding open_wire refusal attempt
open_wire-Opens w errcap false s c = gives (record { no_socket = c; all_closed = refl })
open_wire-Opens w errcap true s c =
    Ensures-bind (attempt (dial w)) (handle_of errcap) s (Ensures-caught _ (dial_from_none w s c))
      λ o t h. handle_of-Opens _ errcap s o t h

Opens-from :
    (cl dl : List ℕ) (s s' t : State) (h : Handle)
    → s.world.sent ≡ s'.world.sent
    → s.world.replies ≡ s'.world.replies
    → cl ≡ dl
    → Opens cl s h t
    → Opens dl s' h t
Opens-from cl dl s s' t handle e r q h = (
  record {
    socket = h.0.socket;
    connected_on = h.0.connected_on;
    greeting = h.0.greeting;
    eight_bytes = h.0.eight_bytes;
    stream = h.0.stream ∙ ap (arriving t.conn.tls) r;
    id = h.0.id;
    unsent = h.0.unsent ∙ e;
    silent = h.0.silent;
  },
  h.1 ∙ q,
)
Opens-from cl dl s s' t (no_handle m) e r q h = record {
  no_socket = h.no_socket;
  all_closed = h.all_closed ∙ q;
}

-- The connection before it is dialled.
record Before (s : State) (b : Bool) (t : State) : Type 0 where
  before_closed : IsClosed t
  same_sent : t.world.sent ≡ s.world.sent
  same_replies : t.world.replies ≡ s.world.replies
  same_closed : t.world.closed ≡ s.world.closed
  allocated : b ≡ (if s.world.malloc_fails s.world.mallocs then false else true)

allocate-Before : (s : State) → Ensures (Before s) (λ _. ⊥) (allocate (record s { conn = blank }))
unfolding allocate blank
allocate-Before s = gives (record {
  before_closed = refl;
  same_sent = refl;
  same_replies = refl;
  same_closed = refl;
  allocated = refl;
})

without_memory :
    (f : Bool) (w : Route) (c : List ℕ)
    → after_allocation (if f then false else true) w c ≡ (if f then c else opened_by w.resolved c)
without_memory true w c = refl
without_memory false w c = refl

-- Whatever is met, `zg_open` answers, unless a system call never returns: with a connection that has
-- read its greeting and sent nothing, or with a message and no socket open. Each descriptor that was
-- opened on the way has been closed, once, but for the one in use; without the memory for a connection
-- none is opened.
pub zg_open-Opens :
    (w : Route) (errcap : ℕ) (s : State)
    → Ensures
        (Opens
          (if s.world.malloc_fails s.world.mallocs
            then s.world.closed
            else opened_by w.resolved s.world.closed)
          s)
        (λ _. ⊥)
        (zg_open w errcap s)
unfolding zg_open
zg_open-Opens w errcap s = Ensures-bind allocate (open_wire w errcap) _ (allocate-Before s) λ b t h.
    Ensures-weaken
      (λ a u o.
        Opens-from _ _ t s u a h.same_sent h.same_replies
          (ap₂ (λ (b : Bool) (c : List ℕ). after_allocation b w c) h.allocated h.same_closed
            ∙ without_memory (s.world.malloc_fails s.world.mallocs) w s.world.closed)
          o)
      (λ u o. o) (open_wire-Opens w errcap b t h.before_closed)

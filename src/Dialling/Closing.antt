-- ===== src/Dialling/Closing.antt =====
-- `zg_close` of a connection to a server, and the end of a thread.
use cocolog.Prelude.{
  ℕ, ◌≡◌, refl, sym, ap, ◌∙◌, Bool, false, Option, none, some, List, [], ◌∷◌, ◌++◌, append_assoc,
  if◌then◌else◌, Bool-cases, inl, inr,
}
use mathlib.Core.Path.{ap₂}
use mathlib.Core.List.{reverse, reverse-append}
use cocolog.World.{EngineCall, session_free}
use cocolog.Tls.{ZtTls}
use cocolog.State.{Slot, State, Result, ◌>>=◌}
use cocolog.State.Outcomes.{Returns, answers, Returns-weaken}
use cocolog.Turn.{holds, give_turn, close_descriptor}
use cocolog.Socket.{shut}
use cocolog.Engine.{ask}
use cocolog.Dialling.{end_session, close_lock, close_wire, close, free_sessions}
use cocolog.Dialling.Greeting.{holds-let_go}

-- The descriptor or the session, if there is one.
unfoldable pub one : Option ℕ → List ℕ
one none = []
one (some d) = d ∷ []

unfoldable pub session_of : Option ZtTls → List ℕ
session_of none = []
session_of (some t) = t.ssl ∷ []

-- All that the connection held has been let go of, and nothing more was sent.
pub record Released (s t : State) : Type 0 where
  pub no_socket : t.conn.fd ≡ none
  pub no_lock : t.conn.lockfd ≡ none
  pub session_over : t.conn.tls ≡ none
  pub closed : t.world.closed ≡ one s.conn.fd ++ (one s.conn.lockfd ++ s.world.closed)
  pub ended : t.world.ended ≡ session_of s.conn.tls ++ s.world.ended
  pub turn_given : holds s.conn.lockfd t.conn.held ≡ false
  pub unsent : t.world.sent ≡ s.world.sent

-- One step of closing: what it closes and ends, and what it leaves of the connection.
record Lets (fds sessions : List ℕ) (s t : State) : Type 0 where
  closed : t.world.closed ≡ fds ++ s.world.closed
  ended : t.world.ended ≡ sessions ++ s.world.ended
  held : t.conn.held ≡ s.conn.held
  unsent : t.world.sent ≡ s.world.sent

close_lock-Lets :
    (o : Option ℕ) (s : State)
    → s.conn.lockfd ≡ o
    → Lets (one o) [] s (close_lock o s)
      × ((close_lock o s).conn.lockfd ≡ none)
      × ((close_lock o s).conn.fd ≡ s.conn.fd)
      × ((close_lock o s).conn.tls ≡ s.conn.tls)
unfolding close_lock close_descriptor one
close_lock-Lets none s e =
    (record { closed = refl; ended = refl; held = refl; unsent = refl }, e, refl, refl)
close_lock-Lets (some d) s e =
    (record { closed = refl; ended = refl; held = refl; unsent = refl }, refl, refl, refl)

end_session-Lets :
    (o : Option ZtTls) (s : State)
    → s.conn.tls ≡ o
    → Lets [] (session_of o) s (end_session o s)
      × ((end_session o s).conn.tls ≡ none)
      × ((end_session o s).conn.fd ≡ s.conn.fd)
      × ((end_session o s).conn.lockfd ≡ s.conn.lockfd)
unfolding end_session session_of
end_session-Lets none s e =
    (record { closed = refl; ended = refl; held = refl; unsent = refl }, e, refl, refl)
end_session-Lets (some t) s e =
    (record { closed = refl; ended = refl; held = refl; unsent = refl }, refl, refl, refl)

shut-Lets :
    (o : Option ℕ) (s : State)
    → s.conn.fd ≡ o
    → Lets (one o) [] s (shut o s)
      × ((shut o s).conn.fd ≡ none)
      × ((shut o s).conn.lockfd ≡ s.conn.lockfd)
      × ((shut o s).conn.tls ≡ s.conn.tls)
unfolding shut close_descriptor one
shut-Lets none s e =
    (record { closed = refl; ended = refl; held = refl; unsent = refl }, e, refl, refl)
shut-Lets (some d) s e =
    (record { closed = refl; ended = refl; held = refl; unsent = refl }, refl, refl, refl)

-- What giving the turn back leaves alone.
record Gives (s t : State) : Type 0 where
  given : holds s.conn.lockfd t.conn.held ≡ false
  fd : t.conn.fd ≡ s.conn.fd
  lockfd : t.conn.lockfd ≡ s.conn.lockfd
  tls : t.conn.tls ≡ s.conn.tls
  closed : t.world.closed ≡ s.world.closed
  ended : t.world.ended ≡ s.world.ended
  unsent : t.world.sent ≡ s.world.sent

give_turn-Gives : (s : State) → Gives s (give_turn s)
unfolding give_turn
give_turn-Gives s = elim (Bool-cases (holds s.conn.lockfd s.conn.held)) [
  | inl h ↦ rw h (record {
    given = holds-let_go s.conn.lockfd;
    fd = refl;
    lockfd = refl;
    tls = refl;
    closed = refl;
    ended = refl;
    unsent = refl;
  })
  | inr h ↦ rw h (record {
    given = h;
    fd = refl;
    lockfd = refl;
    tls = refl;
    closed = refl;
    ended = refl;
    unsent = refl;
  })
]

close_wire-Released : (s : State) → Released s (close_wire s)
unfolding close_wire
close_wire-Released s =
    let t = give_turn s in
    let g = give_turn-Gives s in
    let u = close_lock t.conn.lockfd t in
    let (l, l_none, l_fd, l_tls) = close_lock-Lets t.conn.lockfd t refl in
    let v = end_session u.conn.tls u in
    let (e, e_none, e_fd, e_lock) = end_session-Lets u.conn.tls u refl in
    let (c, c_none, c_lock, c_tls) = shut-Lets v.conn.fd v refl in
    record {
      no_socket = c_none;
      no_lock = c_lock ∙ e_lock ∙ l_none;
      session_over = c_tls ∙ e_none;
      closed =
          c.closed
          ∙ ap₂ (λ (o : Option ℕ) (r : List ℕ). one o ++ r) (e_fd ∙ l_fd ∙ g.fd)
              (e.closed
                ∙ l.closed
                ∙ ap₂ (λ (o : Option ℕ) (r : List ℕ). one o ++ r) g.lockfd g.closed);
      ended =
          c.ended
          ∙ e.ended
          ∙ ap₂ (λ (o : Option ZtTls) (r : List ℕ). session_of o ++ r) (l_tls ∙ g.tls)
              (l.ended ∙ g.ended);
      turn_given = ap (holds s.conn.lockfd) (c.held ∙ e.held ∙ l.held) ∙ g.given;
      unsent = c.unsent ∙ e.unsent ∙ l.unsent ∙ g.unsent;
    }

on_wire :
    {P : Unit {0} → State → Type 0} {Q : State → Type 0} (r r' : Result (Unit {0})) (b : Bool)
    → b ≡ false
    → Returns P Q r'
    → Returns P Q (if b then r else r')
on_wire r r' b h k = rw h k

-- Closing a connection to a server returns, and lets go of all that it held: its socket, the file of
-- the turns, the turn itself and the session of OpenSSL, each once and nothing else. A request that
-- is still held back is not sent.
pub close-Released :
    (s : State) → s.conn.embed ≡ false → Returns (λ _ t. Released s t) (λ _. ⊥) (close s)
unfolding close
close-Released s h = on_wire _ _ s.conn.embed h (answers (close_wire-Released s))

-- The sessions of a list, as they are freed.
unfoldable pub freed : List Slot → List EngineCall
freed [] = []
freed (l ∷ ls) = session_free l.session ∷ freed ls

-- When a thread ends each of its sessions is freed, once and in the order of its list.
pub free_sessions-freed :
    (ls : List Slot) (s : State)
    → Returns
        (λ _ t. t.world.engine_calls ≡ reverse (freed ls) ++ s.world.engine_calls)
        (λ _. ⊥)
        (free_sessions ls s)
unfolding free_sessions freed ask ◌>>=◌
free_sessions-freed [] s = answers refl
free_sessions-freed (l ∷ ls) s =
    Returns-weaken
      (λ _ t h.
        h
        ∙ sym (append_assoc (reverse (freed ls)) (session_free l.session ∷ []) s.world.engine_calls)
        ∙ ap (λ (r : List EngineCall). r ++ s.world.engine_calls)
            (sym (reverse-append (session_free l.session ∷ []) (freed ls))))
      (λ t h. h) (free_sessions-freed ls _)

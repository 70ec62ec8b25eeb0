-- ===== src/Dialling/Descriptors.antt =====
-- The descriptors that `dial` of client/zigurat.c opens, to the greeting: none is lost.
use cocolog.Prelude.{ℕ, ◌≡◌, refl, sym, ◌∙◌, Option, none, some, List, [], ◌∷◌}
use cocolog.Tls.{ZtTls}
use cocolog.Tls.Opening.{Handshake, Step, made, bad}
use cocolog.State.{State, attempt}
use cocolog.State.Outcomes.{gives, fails, Ensures-bind}
use cocolog.Errors.{say, say2, with_err}
use cocolog.Turn.{close_descriptor}
use cocolog.Socket.{shut, rd}
use cocolog.Socket.Descriptors.{in_all, Owes, Keeps, shut-Owes, give_turn-Owes, rd-Keeps}
use cocolog.Wire.{rd_be, rd_sz, received}
use cocolog.Dialling.{
  Attempt, no_socket, unreachable, reached, Resolved, unresolved, addresses, Transport, plain,
  no_tls, secure, Route, end_session, start_afresh, connect_to, close_again, try_addresses,
  hang_up_and_fail, keep_session, secured, keep_id, greeted, when_connected, connected_by, dial,
}
use cocolog.Dialling.Greeting.{Caught, Ensures-caught, start_afresh-IsFresh}
use cocolog.Dialling.Opened.{opened, opened_by}

end_session-Owes :
    (cl : List ℕ) (o : Option ZtTls) (s : State) → Owes cl s → Owes cl (end_session o s)
unfolding end_session
end_session-Owes cl none s w = w
end_session-Owes cl (some t) s w = w

start_afresh-Owes : (cl : List ℕ) (s : State) → Owes cl s → Owes cl (start_afresh s)
unfolding start_afresh
start_afresh-Owes cl s w =
    let e = end_session s.conn.tls s in
    give_turn-Owes cl (shut e.conn.fd e) (shut-Owes cl e (end_session-Owes cl s.conn.tls s w))

try_addresses-Owes :
    (l : List Attempt) (s : State)
    → s.conn.fd ≡ none
    → Owes (opened l s.world.closed) (try_addresses l s)
unfolding try_addresses opened in_all close_again connect_to close_descriptor
try_addresses-Owes [] s e = rw e refl
try_addresses-Owes (no_socket ∷ r) s e = try_addresses-Owes r s e
try_addresses-Owes (unreachable d ∷ r) s e = try_addresses-Owes r _ e
try_addresses-Owes (reached d ∷ r) s e = refl

hang_up_and_fail-Keeps :
    {A : Type 0} (cl : List ℕ) (s : State) → Owes cl s → Keeps cl (hang_up_and_fail {A = A} s)
unfolding hang_up_and_fail
hang_up_and_fail-Keeps cl s w = fails (shut-Owes cl s w)

keep_session-Keeps :
    (cl : List ℕ) (r : Step (ℕ × Handshake)) (s : State) → Owes cl s → Keeps cl (keep_session r s)
unfolding keep_session with_err
keep_session-Keeps cl (made h) s w = gives w
keep_session-Keeps cl (bad m) s w = hang_up_and_fail-Keeps cl _ w

secured-Keeps :
    (cl : List ℕ) (t : Transport) (host : List ℕ) (s : State)
    → Owes cl s
    → Keeps cl (secured t host s)
unfolding secured say with_err
secured-Keeps cl plain host s w = gives w
secured-Keeps cl no_tls host s w = fails (shut-Owes cl s w)
secured-Keeps cl (secure a o) host s w = keep_session-Keeps cl _ s w

rd_be-Keeps : (cl : List ℕ) (n : ℕ) (s : State) → Owes cl s → Keeps cl (rd_be n s)
unfolding rd_be received
rd_be-Keeps cl n s w = Ensures-bind (rd n) received s (rd-Keeps cl n s w) (λ bs t v. gives v)

keep_id-Keeps :
    (cl : List ℕ) (o : Option ℕ) (s : State)
    → Caught (λ _ t. Owes cl t) (Owes cl) o s
    → Keeps cl (keep_id o s)
unfolding keep_id
keep_id-Keeps cl none s w = hang_up_and_fail-Keeps cl s w
keep_id-Keeps cl (some id) s w = gives w

greeted-Keeps : (cl : List ℕ) (s : State) → Owes cl s → Keeps cl (greeted s)
unfolding greeted attempt rd_sz
greeted-Keeps cl s w =
    Ensures-bind (attempt rd_sz) keep_id s (Ensures-caught (Owes cl) (rd_be-Keeps cl 8 s w))
      (λ o t v. keep_id-Keeps cl o t v)

when_connected-Keeps :
    (cl : List ℕ) (o : Option ℕ) (w : Route) (s : State)
    → Owes cl s
    → Keeps cl (when_connected o w s)
unfolding when_connected say2 say with_err
when_connected-Keeps cl none w s v = fails v
when_connected-Keeps cl (some d) w s v =
    Ensures-bind (secured w.transport w.host) (λ _. greeted) s
      (secured-Keeps cl w.transport w.host s v) (λ _ t u. greeted-Keeps cl t u)

none_in_use : (s : State) → s.conn.fd ≡ none → in_all s.conn.fd s.world.closed ≡ s.world.closed
unfolding in_all
none_in_use s e = rw e refl

connected_by-Keeps :
    (r : Resolved) (w : Route) (s : State)
    → s.conn.fd ≡ none
    → Keeps (opened_by r s.world.closed) (connected_by r w s)
unfolding connected_by opened_by say2 say with_err
connected_by-Keeps (unresolved m) w s e = fails (none_in_use s e)
connected_by-Keeps (addresses l) w s e =
    when_connected-Keeps _ _ w (try_addresses l s) (try_addresses-Owes l s e)

-- What is in use and what has been closed, after `dial`: the descriptor of the old connection, and
-- all that were opened on the way, each once.
pub dial-Keeps :
    (w : Route) (s : State)
    → Keeps (opened_by w.resolved (in_all s.conn.fd s.world.closed)) (dial w s)
unfolding dial
dial-Keeps w s =
    let t = start_afresh s in
    let c = (start_afresh-IsFresh s).1 in
    rw (sym (sym (none_in_use t c) ∙ start_afresh-Owes _ s refl))
      (connected_by-Keeps w.resolved w t c)

-- ===== src/Socket/Descriptors.antt =====
-- What the reads and writes of client/zigurat.c do to the socket's descriptor: they keep it, or close
-- it.
use cocolog.Prelude.{
  ℕ, ◌≡◌, refl, sym, ap, ◌∙◌, Bool, true, false, Option, none, some, List, [], ◌∷◌, length, leb,
  take, drop, if◌then◌else◌, inl, inr, Bool-cases,
}
use cocolog.World.{Accepted, took, hangs, refused, Stop, Reply, got, stopped}
use cocolog.Tls.{ZtTls}
use cocolog.State.{State, Action, Result, ◌>>◌}
use cocolog.State.Outcomes.{Ensures, gives, fails, waits, Ensures-bind}
use cocolog.Errors.{say, say2, with_err}
use cocolog.Turn.{give_turn, holds, close_descriptor}
use cocolog.Socket.{
  shut, hang_up, lost, lost2, note, retries_send, accept_bytes, send_loop, when_open, wr_now, flush,
  flush_out, ahead, consume, arrive, in_hand, retries_recv, session_failed, failed_with,
  receive_failed, never, receive, rd,
}

-- The descriptor in use, if there is one, in front of those that were closed.
unfoldable pub in_all : Option ℕ → List ℕ → List ℕ
in_all none c = c
in_all (some d) c = d ∷ c

-- Once the socket is closed, the closed descriptors are `cl`.
abbrev pub Owes : List ℕ → State → Type 0
Owes cl s = in_all s.conn.fd s.world.closed ≡ cl

abbrev pub Keeps : {A : Type 0} → List ℕ → Result A → Type 0
Keeps cl r = Ensures (λ _ t. Owes cl t) (Owes cl) r

shut-at_fd :
    (cl : List ℕ) (o : Option ℕ) (s : State) → s.conn.fd ≡ o → Owes cl s → Owes cl (shut o s)
unfolding shut in_all close_descriptor
shut-at_fd cl none s e w = w
shut-at_fd cl (some d) s e w = ap (λ (o : Option ℕ). in_all o s.world.closed) (sym e) ∙ w

pub shut-Owes : (cl : List ℕ) (s : State) → Owes cl s → Owes cl (shut s.conn.fd s)
shut-Owes cl s w = shut-at_fd cl s.conn.fd s refl w

pub give_turn-Owes : (cl : List ℕ) (s : State) → Owes cl s → Owes cl (give_turn s)
unfolding give_turn
give_turn-Owes cl s w = elim (Bool-cases (holds s.conn.lockfd s.conn.held)) [
  | inl h ↦ rw h w
  | inr h ↦ rw h w
]

hang_up-Owes : (cl : List ℕ) (s : State) → Owes cl s → Owes cl (hang_up s)
unfolding hang_up
hang_up-Owes cl s w =
    let t = shut s.conn.fd s in
    give_turn-Owes cl (record t { conn = record t.conn { inb = []; pin = 0 } }) (shut-Owes cl s w)

say-Keeps : {A : Type 0} (cl m : List ℕ) (s : State) → Owes cl s → Keeps cl (say {A = A} m s)
unfolding say with_err
say-Keeps cl m s w = fails w

lost-Keeps : {A : Type 0} (cl m : List ℕ) (s : State) → Owes cl s → Keeps cl (lost {A = A} m s)
unfolding lost
lost-Keeps cl m s w = say-Keeps cl m (hang_up s) (hang_up-Owes cl s w)

lost2-Keeps :
    {A : Type 0} (cl m d : List ℕ) (s : State) → Owes cl s → Keeps cl (lost2 {A = A} m d s)
unfolding lost2 say2
lost2-Keeps cl m d s w = say-Keeps cl _ (hang_up s) (hang_up-Owes cl s w)

note-Owes : (cl : List ℕ) (st : Stop) (s : State) → Owes cl s → Owes cl (note st s)
unfolding note
note-Owes cl st s w = w

accept_bytes-Owes :
    (cl : List ℕ) (r : List Accepted) (bs : List ℕ) (s : State)
    → Owes cl s
    → Owes cl (accept_bytes r bs s)
unfolding accept_bytes
accept_bytes-Owes cl r bs s w = w

Keeps-if :
    {A : Type 0} (cl : List ℕ) (b : Bool) (x y : Result A)
    → Keeps cl x
    → Keeps cl y
    → Keeps cl (if b then x else y)
Keeps-if cl true x y h k = h
Keeps-if cl false x y h k = k

send_loop-Keeps :
    (cl : List ℕ) (r : List Accepted) (bs : List ℕ) (s : State)
    → Owes cl s
    → Keeps cl (send_loop r bs s)
unfolding send_loop
send_loop-Keeps cl r [] s w = gives w
send_loop-Keeps cl [] (b ∷ bs) s w = gives (accept_bytes-Owes cl [] (b ∷ bs) s w)
send_loop-Keeps cl (took k ∷ r) (b ∷ bs) s w =
    send_loop-Keeps cl r (drop k bs) _ (accept_bytes-Owes cl r (b ∷ take k bs) s w)
send_loop-Keeps cl (hangs ∷ r) (b ∷ bs) s w = waits
send_loop-Keeps cl (refused st ∷ r) (b ∷ bs) s w =
    let v = note-Owes cl st (accept_bytes r [] s) (accept_bytes-Owes cl r [] s w) in
    Keeps-if cl (retries_send s.conn.tls st) _ _ (send_loop-Keeps cl r (b ∷ bs) _ v)
      (lost2-Keeps cl _ _ _ v)

when_open-Keeps :
    {A : Type 0} (cl : List ℕ) (o : Option ℕ) (m : Action A) (s : State)
    → Owes cl s
    → Keeps cl (m s)
    → Keeps cl (when_open o m s)
when_open-Keeps cl none m s w h = say-Keeps cl _ s w
when_open-Keeps cl (some d) m s w h = h

wr_now-Keeps : (cl bs : List ℕ) (s : State) → Owes cl s → Keeps cl (wr_now bs s)
unfolding wr_now
wr_now-Keeps cl bs s w =
    when_open-Keeps cl s.conn.fd (send_loop s.world.accepts bs) s w (send_loop-Keeps cl _ bs s w)

flush-Keeps : (cl bs : List ℕ) (s : State) → Owes cl s → Keeps cl (flush bs s)
unfolding flush
flush-Keeps cl [] s w = gives w
flush-Keeps cl (b ∷ bs) s w = wr_now-Keeps cl (b ∷ bs) _ w

flush_out-Keeps : (cl : List ℕ) (s : State) → Owes cl s → Keeps cl (flush_out s)
unfolding flush_out
flush_out-Keeps cl s w = flush-Keeps cl s.conn.out s w

arrive-Keeps : (cl bs : List ℕ) (r : List Reply) (s : State) → Owes cl s → Keeps cl (arrive bs r s)
unfolding arrive
arrive-Keeps cl bs r s w = gives w

in_hand-Keeps :
    (cl : List ℕ) (m : ℕ) (acc : List ℕ) (more : ℕ → List ℕ → Action (List ℕ)) (s : State)
    → ((n : ℕ) (bs : List ℕ) (t : State) → Owes cl t → Keeps cl (more n bs t))
    → Owes cl s
    → Keeps cl (in_hand m acc more s)
unfolding in_hand consume
in_hand-Keeps cl m acc more s h w =
    Keeps-if cl (leb m (length (ahead s.conn))) _ _ (gives w) (h _ _ _ w)

session_failed-Keeps :
    {A : Type 0} (cl : List ℕ) (o : Option (List ℕ)) (s : State)
    → Owes cl s
    → Keeps cl (session_failed {A = A} o s)
unfolding session_failed
session_failed-Keeps cl none s w = lost-Keeps cl _ s w
session_failed-Keeps cl (some d) s w = lost2-Keeps cl _ d s w

failed_with-Keeps :
    {A : Type 0} (cl : List ℕ) (o : Option ZtTls) (st : Stop) (s : State)
    → Owes cl s
    → Keeps cl (failed_with {A = A} o st s)
unfolding failed_with
failed_with-Keeps cl none st s w =
    Keeps-if cl st.answers_zero _ _ (lost-Keeps cl _ s w) (lost2-Keeps cl _ _ s w)
failed_with-Keeps cl (some t) st s w = session_failed-Keeps cl _ s w

receive_failed-Keeps :
    {A : Type 0} (cl : List ℕ) (st : Stop) (s : State)
    → Owes cl s
    → Keeps cl (receive_failed {A = A} st s)
unfolding receive_failed
receive_failed-Keeps cl st s w = failed_with-Keeps cl s.conn.tls st _ (note-Owes cl st s w)

-- After flushing and taking what arrives, the rest.
arrived-Keeps :
    {A : Type 0} (cl bs : List ℕ) (r : List Reply) (f : Action A) (s : State)
    → ((t : State) → Owes cl t → Keeps cl (f t))
    → Owes cl s
    → Keeps cl ((flush_out >> arrive bs r >> f) s)
arrived-Keeps cl bs r f s h w =
    Ensures-bind (flush_out >> arrive bs r) (λ _. f) s
      (Ensures-bind flush_out (λ _. arrive bs r) s (flush_out-Keeps cl s w)
        (λ _ t v. arrive-Keeps cl bs r t v))
      (λ _ t v. h t v)

receive-Keeps :
    (cl : List ℕ) (r : List Reply) (m : ℕ) (acc : List ℕ) (s : State)
    → Owes cl s
    → Keeps cl (receive r m acc s)
unfolding receive
receive-Keeps cl [] m acc s w = arrived-Keeps cl [] [] never s (λ t v. never_ends t) w
  where
    never_ends : (t : State) → Keeps cl (never {A = List ℕ} t)
    never_ends t = waits
receive-Keeps cl (got b bs ∷ r) m acc s w =
    arrived-Keeps cl (b ∷ bs) r (in_hand m acc (receive r)) s
      (λ t v. in_hand-Keeps cl m acc (receive r) t (λ n cs u x. receive-Keeps cl r n cs u x) v) w
receive-Keeps cl (stopped st ∷ r) m acc s w =
    arrived-Keeps cl [] r _ s
      (λ t v.
        Keeps-if cl (retries_recv t.conn.tls st) _ _ (receive-Keeps cl r m acc t v)
          (receive_failed-Keeps cl st t v))
      w

-- A read keeps the descriptor, or closes it: none is lost, and no other is closed.
pub rd-Keeps : (cl : List ℕ) (n : ℕ) (s : State) → Owes cl s → Keeps cl (rd n s)
unfolding rd
rd-Keeps cl n s w =
    when_open-Keeps cl s.conn.fd _ s w
      (in_hand-Keeps cl n [] _ s (λ m bs t v. receive-Keeps cl s.world.replies m bs t v) w)

-- ===== src/Socket/Reading.antt =====
-- What `rd` hands out, whatever the kernel, OpenSSL and the server answer.
use cocolog.Prelude.{
  ℕ, ◌+◌, ◌-◌, ◌<◌, ◌≡◌, refl, sym, ap, ◌∙◌, true, Option, none, some, List, [], ◌∷◌, ◌++◌,
  append-nil, append_assoc, arith, inl, inr, Bool-cases, leb_cases, length, length-append,
  length-take, take, drop, drop-drop, take-append-drop,
}
use mathlib.Core.Path.{ap₂}
use cocolog.World.{Reply, got, stopped, Stop}
use cocolog.Tls.{ZtTls}
use cocolog.State.{State, Action, ◌>>=◌, ◌>>◌}
use cocolog.State.Outcomes.{Ensures, gives, waits, Ensures-bind, Ensures-continue, Ensures-weaken}
use cocolog.Socket.{
  session_failed, failed_with, receive_failed, flush_out, ahead, consume, arrive, never, in_hand,
  retries_recv, receive, rd,
}
use cocolog.Socket.Ready.{arriving, unread, written}
use cocolog.Socket.Safety.{Flushed, flush_out-Flushed}
use cocolog.Socket.Sending.{IsClosed, lost-IsClosed, lost2-IsClosed, is_secure, when_open-Ensures}

session_failed-IsClosed :
    {A : Type 0} (P : A → State → Type 0) (o : Option (List ℕ)) (s : State)
    → Ensures P IsClosed (session_failed {A = A} o s)
unfolding session_failed
session_failed-IsClosed P none s = lost-IsClosed P _ s
session_failed-IsClosed P (some w) s = lost2-IsClosed P _ w s

failed_with-IsClosed :
    {A : Type 0} (P : A → State → Type 0) (o : Option ZtTls) (st : Stop) (s : State)
    → Ensures P IsClosed (failed_with {A = A} o st s)
unfolding failed_with
failed_with-IsClosed P none st s = elim (Bool-cases st.answers_zero) [
  | inl z ↦ rw z (lost-IsClosed P _ s)
  | inr z ↦ rw z (lost2-IsClosed P _ _ s)
]
failed_with-IsClosed P (some t) st s = session_failed-IsClosed P _ s

receive_failed-IsClosed :
    {A : Type 0} (P : A → State → Type 0) (st : Stop) (s : State)
    → Ensures P IsClosed (receive_failed {A = A} st s)
unfolding receive_failed
receive_failed-IsClosed P st s = failed_with-IsClosed P s.conn.tls st _

-- Whether a stop ends the stream depends on there being a session, and on nothing in it.
retries-secure :
    (o p : Option ZtTls) (st : Stop)
    → is_secure o ≡ is_secure p
    → retries_recv o st ≡ retries_recv p st
unfolding retries_recv
retries-secure none none st e = refl
retries-secure none (some t) st e = cc
retries-secure (some t) none st e = cc
retries-secure (some t) (some u) st e = refl

pub arriving-secure :
    (o p : Option ZtTls) (r : List Reply) → is_secure o ≡ is_secure p → arriving o r ≡ arriving p r
unfolding arriving
arriving-secure o p [] e = refl
arriving-secure o p (got b bs ∷ r) e = ap (λ (l : List ℕ). (b ∷ bs) ++ l) (arriving-secure o p r e)
arriving-secure o p (stopped st ∷ r) e = cc (retries-secure o p st e, arriving-secure o p r e)

-- `m` bytes more than `acc`: they are the beginning of `stream`, and the rest of it is still to come.
pub record Received (m : ℕ) (acc stream : List ℕ) (s : State) (bs : List ℕ) (t : State)
    : Type 0 where
  pub taken : List ℕ
  pub whole : bs ≡ acc ++ taken
  pub enough : length taken ≡ m
  pub rest : taken ++ unread t ≡ stream
  pub kept : written t ≡ written s
  pub secure : is_secure t.conn.tls ≡ is_secure s.conn.tls
  pub socket : t.conn.fd ≡ s.conn.fd

in_hand-Received :
    (m : ℕ) (acc : List ℕ) (more : ℕ → List ℕ → Action (List ℕ)) (s : State)
    → (let have = length (ahead s.conn) in
        have < m
        → Ensures
            (Received (m - have) (acc ++ ahead s.conn) (arriving s.conn.tls s.world.replies) s)
            IsClosed
            (more (m - have) (acc ++ ahead s.conn) (consume have s)))
    → Ensures (Received m acc (unread s) s) IsClosed (in_hand m acc more s)
unfolding in_hand
in_hand-Received m acc more s k = elim (leb_cases m (length (ahead s.conn))) [
  | inl (le, e) ↦ rw e (
      gives (record {
        taken = take m (ahead s.conn);
        whole = refl;
        enough = omega (arith, length-take m (ahead s.conn));
        rest =
            ap (λ (l : List ℕ). take m (ahead s.conn) ++ (l ++ arriving s.conn.tls s.world.replies))
              (sym (drop-drop s.conn.pin m (s.conn.pin + m) s.conn.inb refl))
            ∙ sym (append_assoc (take m (ahead s.conn)) _ _)
            ∙ ap (λ (l : List ℕ). l ++ arriving s.conn.tls s.world.replies)
                (take-append-drop m (ahead s.conn));
        kept = unfold consume in refl;
        secure = unfold consume in refl;
        socket = unfold consume in refl;
      }))
  | inr (lt, e) ↦ rw e (
      Ensures-weaken
        (λ bs t h. record {
          taken = ahead s.conn ++ h.taken;
          whole = h.whole ∙ append_assoc acc (ahead s.conn) h.taken;
          enough = omega (arith, h.enough, length-append (ahead s.conn) h.taken);
          rest =
              append_assoc (ahead s.conn) h.taken (unread t)
              ∙ ap (λ (l : List ℕ). ahead s.conn ++ l) h.rest;
          kept = h.kept;
          secure = h.secure;
          socket = h.socket;
        })
        (λ t h. h) (k lt))
]

-- A state after a flush and then an arrival, seen from before.
written-filled : {s t : State} → Flushed s t → t.world.sent ++ t.conn.out ≡ written s
written-filled f = ap₂ (λ (l m : List ℕ). l ++ m) f.stream f.holding ∙ append-nil _

Received-from :
    {m : ℕ} {acc stream stream' bs : List ℕ} {s t u : State}
    → written t ≡ written s
    → is_secure t.conn.tls ≡ is_secure s.conn.tls
    → t.conn.fd ≡ s.conn.fd
    → stream ≡ stream'
    → Received m acc stream t bs u
    → Received m acc stream' s bs u
Received-from w e d p h = record {
  taken = h.taken;
  whole = h.whole;
  enough = h.enough;
  rest = h.rest ∙ p;
  kept = h.kept ∙ w;
  secure = h.secure ∙ e;
  socket = h.socket ∙ d;
}

-- What a flush and an arrival make of a state.
record Filled (bs : List ℕ) (r : List Reply) (s u : State) : Type 0 where
  buffer : u.conn.inb ≡ bs
  place : u.conn.pin ≡ 0
  to_come : u.world.replies ≡ r
  kept : written u ≡ written s
  secure : is_secure u.conn.tls ≡ is_secure s.conn.tls
  socket : u.conn.fd ≡ s.conn.fd

abbrev arrived : List ℕ → List Reply → State → State
arrived bs r t = record t {
  conn = record t.conn { inb = bs; pin = 0 };
  world = record t.world { replies = r };
}

Filled-arrive :
    (bs : List ℕ) (r : List Reply) {s t : State} → Flushed s t → Filled bs r s (arrived bs r t)
Filled-arrive bs r f = record {
  buffer = refl;
  place = refl;
  to_come = refl;
  kept = written-filled f;
  secure = f.else_same.secure;
  socket = f.else_same.socket;
}

stream_of :
    {bs : List ℕ} {r : List Reply} {s u : State}
    → Filled bs r s u
    → unread u ≡ bs ++ arriving s.conn.tls r
stream_of {bs} {r} {s} {u} f =
    ap₂ (λ (n : ℕ) (l : List ℕ). drop n l ++ arriving u.conn.tls u.world.replies) f.place f.buffer
    ∙ ap (λ (q : List Reply). bs ++ arriving u.conn.tls q) f.to_come
    ∙ ap (λ (l : List ℕ). bs ++ l) (arriving-secure u.conn.tls s.conn.tls r f.secure)

-- A stop that is tried again does not end the stream.
goes_on :
    (r : List Reply) (st : Stop) (s u : State)
    → is_secure u.conn.tls ≡ is_secure s.conn.tls
    → retries_recv u.conn.tls st ≡ true
    → arriving u.conn.tls r ≡ arriving s.conn.tls (stopped st ∷ r)
unfolding arriving
goes_on r st s u e again =
    rw (← retries-secure u.conn.tls s.conn.tls st e, again)
      (arriving-secure u.conn.tls s.conn.tls r e)

flush_arrive :
    (bs : List ℕ) (r : List Reply) (s : State)
    → Ensures (λ _ u. Filled bs r s u) IsClosed ((flush_out >> arrive bs r) s)
unfolding arrive ◌>>=◌
flush_arrive bs r s =
    Ensures-continue (λ _. arrive bs r) (flush_out-Flushed s) λ _ t f. gives (Filled-arrive bs r f)

receive-Received :
    (r : List Reply) (m : ℕ) (acc : List ℕ) (s : State)
    → Ensures (Received m acc (arriving s.conn.tls r) s) IsClosed (receive r m acc s)
unfolding receive never arriving
receive-Received [] m acc s =
    Ensures-bind (flush_out >> arrive [] []) _ s (flush_arrive [] [] s) λ _ u f. waits
receive-Received (got b bs ∷ r) m acc s =
    Ensures-bind (flush_out >> arrive (b ∷ bs) r) (λ _. in_hand m acc (receive r)) s
      (flush_arrive (b ∷ bs) r s)
      λ _ u f.
        Ensures-weaken (λ cs v h. Received-from f.kept f.secure f.socket (stream_of f) h) (λ v h. h)
          (in_hand-Received m acc (receive r) u λ lt.
            Ensures-weaken
              (λ cs v h.
                Received-from (unfold consume in refl) (unfold consume in refl)
                  (unfold consume in refl)
                  (unfold consume in ap (arriving u.conn.tls) (sym f.to_come)) h)
              (λ v h. h) (receive-Received r _ _ (consume (length (ahead u.conn)) u)))
receive-Received (stopped st ∷ r) m acc s =
    Ensures-bind (flush_out >> arrive [] r) _ s (flush_arrive [] r s) λ _ u f.
      elim (Bool-cases (retries_recv u.conn.tls st)) [
        | inl again ↦ rw again (
            Ensures-weaken
              (λ cs v h. Received-from f.kept f.secure f.socket (goes_on r st s u f.secure again) h)
              (λ v h. h) (receive-Received r m acc u))
        | inr over ↦ rw over (receive_failed-IsClosed _ st u)
      ]

-- Whatever the kernel, OpenSSL and the server answer: when `rd` succeeds it hands out the next `n`
-- bytes of the stream, the rest of the stream is still to come, no written byte is lost, and the
-- socket is the same; when it fails the socket is closed.
pub rd-Received : (n : ℕ) (s : State) → Ensures (Received n [] (unread s) s) IsClosed (rd n s)
unfolding rd
rd-Received n s = when_open-Ensures _ s (
    in_hand-Received n [] (receive s.world.replies) s λ lt.
      Ensures-weaken
        (λ cs v h.
          Received-from (unfold consume in refl) (unfold consume in refl) (unfold consume in refl)
            (unfold consume in refl) h)
        (λ v h. h) (receive-Received s.world.replies _ _ (consume (length (ahead s.conn)) s)))

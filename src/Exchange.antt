-- ===== src/Exchange.antt =====
-- Conversations: what an action writes, what it reads, and what it answers, on any connection in
-- working order whose stream begins with what is read. The rules put long conversations together
-- from short ones.
use cocolog.Prelude.{
  ℕ, some, ◌≡◌, refl, sym, ap, ◌∙◌, List, [], ◌++◌, append-nil, append_assoc, length, take, drop,
  arith, length-append, take-append, drop-append,
}
use cocolog.State.{State, Action, Result, ok, fail, pure, ◌>>=◌, continue, caught, attempt}
use cocolog.Engine.{by_transport}
use cocolog.Errors.{fits_err, say, with_err}
use cocolog.Socket.{rd, wr}
use cocolog.Socket.Ready.{IsReady, IsReady-frame, unread, written, frame}
use cocolog.Socket.Flushing.{wr-ready}
use cocolog.Socket.Receiving.{rd-reads}

-- The call answered `a`, wrote `ws`, and left `rest` to be read.
pub record Answered {A : Type 0} (s : State) (ws rest : List ℕ) (a : A) (r : Result A)
    : Type 0 where
  pub post : State
  pub runs : r ≡ ok a post
  pub reading : unread post ≡ rest
  pub stream : written post ≡ written s ++ ws
  pub ready : IsReady post
  pub same : frame post ≡ frame s

-- The action writes `ws`, reads exactly `bs`, and answers `a`.
pub record Talks {A : Type 0} (m : Action A) (ws bs : List ℕ) (a : A) : Type 0 where
  pub on :
      (s : State) (rest : List ℕ) → IsReady s → unread s ≡ bs ++ rest → Answered s ws rest a (m s)

pub Talks-pure : {A : Type 0} (a : A) → Talks (pure a) [] [] a
Talks-pure a = record {
  on = λ s rest h e. record {
    post = s;
    runs = refl;
    reading = e;
    stream = sym (append-nil _);
    ready = h;
    same = refl;
  };
}

pub Talks-bind :
    {A B : Type 0} {m : Action A} (f : A → Action B) {ws ws' bs bs' : List ℕ} {a : A} {b : B}
    → Talks m ws bs a
    → Talks (f a) ws' bs' b
    → Talks (m >>= f) (ws ++ ws') (bs ++ bs') b
unfolding ◌>>=◌
Talks-bind f {ws = ws} {ws' = ws'} {bs = bs} {bs' = bs'} hm hf = record {
  on = λ s rest h e.
      let one = hm.on s (bs' ++ rest) h (e ∙ append_assoc bs bs' rest) in
      let two = hf.on one.post rest one.ready one.reading in
      record {
        post = two.post;
        runs = ap (λ r. continue r f) one.runs ∙ two.runs;
        reading = two.reading;
        stream =
            two.stream ∙ ap (λ (l : List ℕ). l ++ ws') one.stream ∙ append_assoc (written s) ws ws';
        ready = two.ready;
        same = two.same ∙ one.same;
      };
}

pub Talks-rd : (bs : List ℕ) → Talks (rd (length bs)) [] bs bs
Talks-rd bs = record {
  on = λ s rest h e.
      let r = rd-reads (length bs) s h (rw e (omega (arith, length-append bs rest))) in
      record {
        post = r.post;
        runs =
            r.runs
            ∙ ap (λ (l : List ℕ). ok l r.post) (ap (take (length bs)) e ∙ take-append bs rest);
        reading = r.reading ∙ ap (drop (length bs)) e ∙ drop-append bs rest;
        stream = r.stream ∙ sym (append-nil _);
        ready = r.ready;
        same = r.same;
      };
}

pub Talks-wr : (ws : List ℕ) → Talks (wr ws) ws [] tt
Talks-wr ws = record {
  on = λ s rest h e.
      let w = wr-ready ws s h in
      record {
        post = w.post;
        runs = w.runs;
        reading = w.reading ∙ e;
        stream = w.stream;
        ready = w.ready;
        same = w.same;
      };
}

-- The call answered 0 with the message `m`, and the connection is still in step and in use.
pub record Declined {A : Type 0} (s : State) (ws rest m : List ℕ) (r : Result A) : Type 0 where
  pub post : State
  pub runs : r ≡ fail post
  pub message : post.conn.err ≡ fits_err m
  pub reading : unread post ≡ rest
  pub stream : written post ≡ written s ++ ws
  pub ready : IsReady post
  pub same : frame post ≡ frame s

-- The action writes `ws`, reads exactly `bs`, and answers 0 with the message `m`.
pub record Refuses {A : Type 0} (a : Action A) (ws bs m : List ℕ) : Type 0 where
  pub on :
      (s : State) (rest : List ℕ) → IsReady s → unread s ≡ bs ++ rest → Declined s ws rest m (a s)

pub Refuses-say : {A : Type 0} (m : List ℕ) → Refuses (say {A = A} m) [] [] m
unfolding say with_err
Refuses-say m = record {
  on = λ s rest h e. record {
    post = record s { conn = with_err m s.conn };
    runs = refl;
    message = refl;
    reading = e;
    stream = sym (append-nil _);
    ready = IsReady-frame h refl h.willing;
    same = refl;
  };
}

pub Refuses-bind :
    {A B : Type 0} {a : Action A} (f : A → Action B) {ws ws' bs bs' m : List ℕ} {v : A}
    → Talks a ws bs v
    → Refuses (f v) ws' bs' m
    → Refuses (a >>= f) (ws ++ ws') (bs ++ bs') m
unfolding ◌>>=◌
Refuses-bind f {ws = ws} {ws' = ws'} {bs = bs} {bs' = bs'} ha hf = record {
  on = λ s rest h e.
      let one = ha.on s (bs' ++ rest) h (e ∙ append_assoc bs bs' rest) in
      let two = hf.on one.post rest one.ready one.reading in
      record {
        post = two.post;
        runs = ap (λ r. continue r f) one.runs ∙ two.runs;
        message = two.message;
        reading = two.reading;
        stream =
            two.stream ∙ ap (λ (l : List ℕ). l ++ ws') one.stream ∙ append_assoc (written s) ws ws';
        ready = two.ready;
        same = two.same ∙ one.same;
      };
}

-- The same conversation at equal bytes.
pub Talks-cast :
    {A : Type 0} {m : Action A} {ws ws' bs bs' : List ℕ} {a b : A}
    → ws ≡ ws'
    → bs ≡ bs'
    → a ≡ b
    → Talks m ws bs a
    → Talks m ws' bs' b
Talks-cast {m = m} p q r t = rw (← p, ← q, ← r) t

pub Refuses-cast :
    {A : Type 0} {a : Action A} {ws ws' bs bs' m : List ℕ}
    → ws ≡ ws'
    → bs ≡ bs'
    → Refuses a ws bs m
    → Refuses a ws' bs' m
Refuses-cast {a = a} {m = m} p q t = rw (← p, ← q) t

pub Talks-attempt :
    {A : Type 0} {m : Action A} {ws bs : List ℕ} {a : A}
    → Talks m ws bs a
    → Talks (attempt m) ws bs (some a)
unfolding attempt
Talks-attempt t = record {
  on = λ s rest h e.
      let r = t.on s rest h e in
      record {
        post = r.post;
        runs = ap caught r.runs;
        reading = r.reading;
        stream = r.stream;
        ready = r.ready;
        same = r.same;
      };
}

-- On a socket the embedded branch is not taken.
pub Talks-by_transport :
    {A : Type 0} (embedded : Action A) {m : Action A} {ws bs : List ℕ} {a : A}
    → Talks m ws bs a
    → Talks (by_transport embedded m) ws bs a
unfolding by_transport
Talks-by_transport embedded t = record { on = λ s rest h e. simp h.on_wire (t.on s rest h e) }

pub Refuses-by_transport :
    {A : Type 0} (embedded : Action A) {a : Action A} {ws bs m : List ℕ}
    → Refuses a ws bs m
    → Refuses (by_transport embedded a) ws bs m
unfolding by_transport
Refuses-by_transport embedded t = record { on = λ s rest h e. simp h.on_wire (t.on s rest h e) }

-- A refusal stands, whatever was to come after.
pub Refuses-first :
    {A B : Type 0} {a : Action A} (f : A → Action B) {ws bs m : List ℕ}
    → Refuses a ws bs m
    → Refuses (a >>= f) ws bs m
unfolding ◌>>=◌
Refuses-first f t = record {
  on = λ s rest h e.
      let r = t.on s rest h e in
      record {
        post = r.post;
        runs = ap (λ q. continue q f) r.runs;
        message = r.message;
        reading = r.reading;
        stream = r.stream;
        ready = r.ready;
        same = r.same;
      };
}

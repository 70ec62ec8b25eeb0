-- ===== src/Socket/Flushing.antt =====
-- `flush_out`, `wr_now` and `wr` on a socket that takes what it is given.
use cocolog.Prelude.{
  ℕ, ◌+◌, ◌≡◌, refl, sym, ap, ◌∙◌, List, [], ◌∷◌, ◌++◌, append-nil, append_assoc, length, leb, ltb,
  Bool-cases, inl, inr,
}
use cocolog.State.{State, Result, ok, ◌>>=◌, ◌>>◌, out_size}
use cocolog.Socket.{send_loop, wr_now, flush_out, wr, hold, held_back, flush}
use cocolog.Socket.Ready.{IsReady, IsReady-frame, unread, written, frame, opened}
use cocolog.World.{Accepted}

-- A state after all of `bs` has gone out, with `held` in the outgoing buffer.
abbrev pub after_sending : List ℕ → List ℕ → State → State
after_sending bs held s = record s {
  conn = record s.conn { out = held };
  world = record s.world { accepts = []; sent = s.world.sent ++ bs };
}

nothing_sent : (s : State) → s.world.accepts ≡ [] → s ≡ after_sending [] s.conn.out s
nothing_sent s a = λ i. record s {
  world = record s.world { accepts = a i; sent = sym (append-nil s.world.sent) i };
}

send_loop-willing :
    (a : List Accepted) (b : ℕ) (bs : List ℕ) (s : State)
    → a ≡ []
    → send_loop a (b ∷ bs) s ≡ ok tt (after_sending (b ∷ bs) s.conn.out s)
unfolding send_loop
send_loop-willing a b bs s e = rw e

pub wr_now-ready :
    (bs : List ℕ) (s : State) → IsReady s → wr_now bs s ≡ ok tt (after_sending bs s.conn.out s)
unfolding wr_now send_loop
wr_now-ready [] s h = rw (opened h) (ap (ok tt) (nothing_sent s h.willing))
wr_now-ready (b ∷ bs) s h = rw (opened h) (send_loop-willing s.world.accepts b bs s h.willing)

abbrev with_out : List ℕ → State → State
with_out bs s = record s { conn = record s.conn { out = bs } }

IsReady-with_out : (bs : List ℕ) {s : State} → IsReady s → IsReady (with_out bs s)
IsReady-with_out bs h = IsReady-frame h refl h.willing

flush-ready :
    (bs : List ℕ) (s : State)
    → s.conn.out ≡ bs
    → IsReady s
    → flush bs s ≡ ok tt (after_sending bs [] s)
unfolding flush
flush-ready [] s e h = ap (ok tt) (nothing_sent s h.willing ∙ λ i. after_sending [] (e i) s)
flush-ready (b ∷ bs) s e h = wr_now-ready (b ∷ bs) (with_out [] s) (IsReady-with_out [] h)

-- What was held goes out, and nothing is held after.
pub flush_out-ready : (s : State) → IsReady s → flush_out s ≡ ok tt (after_sending s.conn.out [] s)
unfolding flush_out
flush_out-ready s h = flush-ready s.conn.out s refl h

pub IsReady-after_sending :
    (bs held : List ℕ) {s : State} → IsReady s → IsReady (after_sending bs held s)
IsReady-after_sending bs held h = IsReady-frame h refl refl

-- `wr` on a ready connection: the bytes join the stream, through the buffer or past it.
pub record Wrote (s : State) (bs : List ℕ) (r : Result (Unit {0})) : Type 0 where
  pub post : State
  pub runs : r ≡ ok tt post
  pub stream : written post ≡ written s ++ bs
  pub reading : unread post ≡ unread s
  pub ready : IsReady post
  pub same : frame post ≡ frame s

Wrote-now : (bs : List ℕ) (s : State) → IsReady s → Wrote s bs ((flush_out >> wr_now bs) s)
unfolding ◌>>=◌
Wrote-now bs s h =
    let t : State = after_sending s.conn.out [] s in
    record {
      post = after_sending bs [] t;
      runs = rw (flush_out-ready s h) (wr_now-ready bs t (IsReady-after_sending s.conn.out [] h));
      stream = append-nil _;
      reading = refl;
      ready = IsReady-frame h refl refl;
      same = refl;
    }

Wrote-held : (bs : List ℕ) (s : State) → IsReady s → Wrote s bs (hold bs s)
unfolding hold
Wrote-held bs s h = record {
  post = with_out (s.conn.out ++ bs) s;
  runs = refl;
  stream = sym (append_assoc s.world.sent s.conn.out bs);
  reading = refl;
  ready = IsReady-with_out _ h;
  same = refl;
}

Wrote-after_flush : (bs : List ℕ) (s : State) → IsReady s → Wrote s bs ((flush_out >> hold bs) s)
unfolding ◌>>=◌ hold
Wrote-after_flush bs s h = record {
  post = after_sending s.conn.out bs s;
  runs = rw (flush_out-ready s h);
  stream = refl;
  reading = refl;
  ready = IsReady-frame h refl refl;
  same = refl;
}

Wrote-back : (bs : List ℕ) (s : State) → IsReady s → Wrote s bs (held_back bs s)
unfolding held_back
Wrote-back bs s h = elim (Bool-cases (ltb out_size (length s.conn.out + length bs))) [
  | inl full ↦ rw full (Wrote-after_flush bs s h)
  | inr room ↦ rw room (Wrote-held bs s h)
]

pub wr-ready : (bs : List ℕ) (s : State) → IsReady s → Wrote s bs (wr bs s)
unfolding wr
wr-ready bs s h = elim (Bool-cases (leb out_size (length bs))) [
  | inl large ↦ rw (opened h, large) (Wrote-now bs s h)
  | inr small ↦ rw (opened h, small) (Wrote-back bs s h)
]

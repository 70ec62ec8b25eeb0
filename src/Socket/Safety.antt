-- ===== src/Socket/Safety.antt =====
-- The two streams whatever the kernel, OpenSSL and the server answer.
use cocolog.Prelude.{
  ℕ, ◌+◌, ◌≡◌, refl, sym, ap, ◌∙◌, List, [], ◌∷◌, ◌++◌, append-nil, append_assoc, inl, inr,
  Bool-cases, length, ltb, leb, if◌then◌else◌,
}
use mathlib.Core.Path.{ap₂}
use cocolog.State.{out_size, State, ◌>>◌}
use cocolog.State.Outcomes.{Ensures, gives, Ensures-bind, Ensures-weaken}
use cocolog.Socket.{wr_now, flush, flush_out, hold, held_back, wr}
use cocolog.Socket.Ready.{written}
use cocolog.Socket.Sending.{
  IsClosed, Undisturbed, Undisturbed-trans, Undisturbed-refl, when_open-Ensures, wr_now-Sent,
}

-- All that was held has been accepted, and nothing is held.
pub record Flushed (s t : State) : Type 0 where
  pub stream : t.world.sent ≡ s.world.sent ++ s.conn.out
  pub holding : t.conn.out ≡ []
  pub else_same : Undisturbed s t

flush-Flushed :
    (bs : List ℕ) (s : State) → s.conn.out ≡ bs → Ensures (λ _ t. Flushed s t) IsClosed (flush bs s)
unfolding flush
flush-Flushed [] s e = gives (record {
  stream = sym (append-nil _) ∙ ap (λ (l : List ℕ). s.world.sent ++ l) (sym e);
  holding = e;
  else_same = Undisturbed-refl s;
})
flush-Flushed (b ∷ bs) s e =
    Ensures-weaken
      (λ _ t h. record {
        stream = h.stream ∙ ap (λ (l : List ℕ). s.world.sent ++ l) (sym e);
        holding = h.holding;
        else_same = record {
          socket = h.else_same.socket;
          in_buffer = h.else_same.in_buffer;
          in_place = h.else_same.in_place;
          to_come = h.else_same.to_come;
          secure = h.else_same.secure;
        };
      })
      (λ t h. h) (wr_now-Sent (b ∷ bs) (record s { conn = record s.conn { out = [] } }))

pub flush_out-Flushed : (s : State) → Ensures (λ _ t. Flushed s t) IsClosed (flush_out s)
unfolding flush_out
flush_out-Flushed s = flush-Flushed s.conn.out s refl

-- The bytes have joined the stream to the server, and the other stream is as it was.
pub record Joined (bs : List ℕ) (s t : State) : Type 0 where
  pub stream : written t ≡ written s ++ bs
  pub else_same : Undisturbed s t

hold-Joined : (bs : List ℕ) (s : State) → Ensures (λ _ t. Joined bs s t) IsClosed (hold bs s)
unfolding hold
hold-Joined bs s = gives (record {
  stream = sym (append_assoc s.world.sent s.conn.out bs);
  else_same = record {
    socket = refl;
    in_buffer = refl;
    in_place = refl;
    to_come = refl;
    secure = refl;
  };
})

flush_hold-Joined :
    (bs : List ℕ) (s : State) → Ensures (λ _ t. Joined bs s t) IsClosed ((flush_out >> hold bs) s)
flush_hold-Joined bs s =
    Ensures-bind flush_out (λ _. hold bs) s (flush_out-Flushed s)
      λ _ t f.
        Ensures-weaken
          (λ _ u h. record {
            stream =
                h.stream
                ∙ ap₂ (λ (l m : List ℕ). (l ++ m) ++ bs) f.stream f.holding
                ∙ ap (λ (l : List ℕ). l ++ bs) (append-nil (written s));
            else_same = Undisturbed-trans f.else_same h.else_same;
          })
          (λ u h. h) (hold-Joined bs t)

flush_send-Joined :
    (bs : List ℕ) (s : State) → Ensures (λ _ t. Joined bs s t) IsClosed ((flush_out >> wr_now bs) s)
flush_send-Joined bs s =
    Ensures-bind flush_out (λ _. wr_now bs) s (flush_out-Flushed s)
      λ _ t f.
        Ensures-weaken
          (λ _ u h. record {
            stream =
                ap₂ (λ (l m : List ℕ). l ++ m) h.stream (h.holding ∙ f.holding)
                ∙ append-nil _
                ∙ ap (λ (l : List ℕ). l ++ bs) f.stream;
            else_same = Undisturbed-trans f.else_same h.else_same;
          })
          (λ u h. h) (wr_now-Sent bs t)

held_back-Joined :
    (bs : List ℕ) (s : State) → Ensures (λ _ t. Joined bs s t) IsClosed (held_back bs s)
unfolding held_back
held_back-Joined bs s = elim (Bool-cases (ltb out_size (length s.conn.out + length bs))) [
  | inl full ↦ rw full (flush_hold-Joined bs s)
  | inr room ↦ rw room (hold-Joined bs s)
]

either-Joined :
    (bs : List ℕ) (s : State)
    → Ensures
        (λ _ t. Joined bs s t)
        IsClosed
        ((if leb out_size (length bs) then flush_out >> wr_now bs else held_back bs) s)
either-Joined bs s = elim (Bool-cases (leb out_size (length bs))) [
  | inl large ↦ rw large (flush_send-Joined bs s)
  | inr small ↦ rw small (held_back-Joined bs s)
]

-- Whatever the kernel and OpenSSL answer: when `wr` succeeds its bytes have joined the stream to the
-- server behind all that was written before, none of them lost, doubled or overtaken, and what the
-- server sends is untouched; when it fails the socket is closed.
pub wr-Joined : (bs : List ℕ) (s : State) → Ensures (λ _ t. Joined bs s t) IsClosed (wr bs s)
unfolding wr
wr-Joined bs s = when_open-Ensures _ s (either-Joined bs s)

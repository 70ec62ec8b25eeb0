-- ===== src/Results/Exceptions.antt =====
-- An exception that the server reports.
use cocolog.Prelude.{
  ℕ, ◌+◌, ◌≤◌, ◌≡◌, refl, ap, ◌∙◌, false, some, List, [], ◌∷◌, ◌++◌, arith, length, drop,
}
use mathlib.Core.Path.{ap₂}
use cocolog.State.{State, Result, fail, ◌>>=◌, continue}
use cocolog.Errors.{fits_err, detailed, say2, say, with_err}
use cocolog.Turn.{holds}
use cocolog.Socket.{hang_up, lost2, ahead}
use cocolog.Socket.Ready.{IsReady, unread}
use cocolog.Socket.Sending.{IsClosed, hang_up-IsClosed}
use cocolog.Wire.{max_string}
use cocolog.Wire.Values.{string_bytes, Talks-rd_u8, Talks-rd_std_string}
use cocolog.Engine.{by_transport}
use cocolog.Results.{exception_thrown, server_refused, thrown, judge, wire_result, result}

-- The socket `d` was closed with the message `m`; nothing that was read ahead is kept, and the turn
-- is given back.
pub record HungUp {A : Type 0} (s : State) (d : ℕ) (m : List ℕ) (r : Result A) : Type 0 where
  pub post : State
  pub runs : r ≡ fail post
  pub message : post.conn.err ≡ fits_err m
  pub closed : IsClosed post
  pub freed : post.world.closed ≡ d ∷ s.world.closed
  pub empty : ahead post.conn ≡ []
  pub turn_given : holds post.conn.lockfd post.conn.held ≡ false

hang_up_clean :
    (s : State) (d : ℕ)
    → s.conn.fd ≡ some d
    → ((hang_up s).world.closed ≡ d ∷ s.world.closed)
      × ((hang_up s).conn.inb ≡ [])
      × ((hang_up s).conn.pin ≡ 0)
      × (holds (hang_up s).conn.lockfd (hang_up s).conn.held ≡ false)
unfolding hang_up holds
hang_up_clean s d e = ground arith

lost2-HungUp :
    {A : Type 0} (what detail : List ℕ) (s : State) (d : ℕ)
    → s.conn.fd ≡ some d
    → HungUp s d (detailed what detail) (lost2 {A = A} what detail s)
unfolding lost2 say2 say with_err
lost2-HungUp what detail s d e =
    let (freed, buffer, place, turn) = hang_up_clean s d e in
    record {
      post = record (hang_up s) { conn = with_err (detailed what detail) (hang_up s).conn };
      runs = refl;
      message = refl;
      closed = hang_up-IsClosed s;
      freed = freed;
      empty = ap₂ (λ (n : ℕ) (l : List ℕ). drop n l) place buffer;
      turn_given = turn;
    }

-- An exception's message is taken off the stream and reported, and that is the end of the
-- connection: the socket is closed, what was read ahead is dropped, and the turn is given back.
pub exception_ends_connection :
    (m : List ℕ) (s : State) (rest : List ℕ)
    → length m ≤ max_string
    → (h : IsReady s) → unread s ≡ (exception_thrown ∷ string_bytes m) ++ rest
    → HungUp s h.socket (detailed server_refused m) (result s)
unfolding result by_transport wire_result judge thrown ◌>>=◌
exception_ends_connection m s rest le h e =
    let one = (Talks-rd_u8 exception_thrown).on s (string_bytes m ++ rest) h e in
    let two =
      (Talks-rd_std_string (max_string + 1) m (omega arith)).on one.post rest one.ready
        one.reading in
    let hung =
      lost2-HungUp {A = ℕ} server_refused m two.post h.socket
        (ap (λ (u : State). u.conn.fd) (two.same ∙ one.same) ∙ h.is_open) in
    record {
      post = hung.post;
      runs = simp h.on_wire (
          ap (λ r. continue r judge) one.runs
          ∙ ap (λ r. continue r (lost2 server_refused)) two.runs
          ∙ hung.runs);
      message = hung.message;
      closed = hung.closed;
      freed =
          hung.freed
          ∙ ap (λ (l : List ℕ). h.socket ∷ l)
              (ap (λ (u : State). u.world.closed) (two.same ∙ one.same));
      empty = hung.empty;
      turn_given = hung.turn_given;
    }

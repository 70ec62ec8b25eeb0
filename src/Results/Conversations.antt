-- ===== src/Results/Conversations.antt =====
-- Results and verbs as conversations.
use cocolog.Prelude.{
  ℕ, ◌≡◌, ◌≢◌, refl, sym, Bool, true, false, Option, none, some, List, [], ◌∷◌, append-nil, arith,
  length, ◌≤◌, ◌==◌, if◌then◌else◌,
}
use cocolog.State.{State, ok}
use cocolog.Turn.{take_turn, needs_turn, take_loop}
use cocolog.Socket.Ready.{IsReady-frame, has_turn}
use cocolog.Exchange.{Talks, Talks-pure, Talks-bind, Talks-cast, Talks-by_transport}
use cocolog.Wire.{max_string}
use cocolog.Wire.Values.{Talks-rd_u8, Talks-wr_std_string, string_bytes}
use cocolog.Results.{
  exception_thrown, successful_done, judge, wire_result, engine_result, result, clear_err,
  expect_done, verb_refused, verb,
}

-- Any result byte but an exception is handed on.
pub Talks-result : (r : ℕ) → r ≢ exception_thrown → Talks result [] (r ∷ []) r
unfolding result wire_result judge
Talks-result r h =
    Talks-by_transport engine_result
      (Talks-bind judge (Talks-rd_u8 r) (rw (other r h) (Talks-pure r)))
  where
    other : (r : ℕ) → r ≢ exception_thrown → (r == exception_thrown) ≡ false
    other r h = ground arith

pub Talks-clear_err : Talks clear_err [] [] tt
unfolding clear_err
Talks-clear_err = record {
  on = λ s rest h e. record {
    post = record s { conn = record s.conn { err = [] } };
    runs = refl;
    reading = e;
    stream = sym (append-nil _);
    ready = IsReady-frame h refl h.willing;
    same = refl;
  };
}

-- A connection that holds its turn does not wait for it.
take_turn-held : (s : State) → has_turn s.conn.lockfd s.conn.held ≡ true → take_turn s ≡ ok tt s
unfolding take_turn
take_turn-held s h = settled s.conn.lockfd s.conn.held h
  where
    settled :
        (l : Option ℕ) (b : Bool)
        → has_turn l b ≡ true
        → (if needs_turn l b then take_loop s.world.locks 0 s else ok tt s) ≡ ok tt s
    settled none b e = refl
    settled (some d) true e = refl
    settled (some d) false e = cc

pub Talks-take_turn : Talks take_turn [] [] tt
Talks-take_turn = record {
  on = λ s rest h e. record {
    post = s;
    runs = take_turn-held s h.turn;
    reading = e;
    stream = sym (append-nil _);
    ready = h;
    same = refl;
  };
}

pub Talks-expect_done :
    (what detail : List ℕ) → Talks (expect_done what detail successful_done) [] [] tt
unfolding expect_done
Talks-expect_done what detail = Talks-pure tt

-- A verb: its name goes out, and one byte comes back.
pub Talks-verb :
    (name : List ℕ)
    → length name ≤ max_string
    → Talks (verb name) (string_bytes name) (successful_done ∷ []) tt
unfolding verb
Talks-verb name h = Talks-cast (append-nil _) refl refl (
    Talks-bind _ Talks-clear_err (
      Talks-bind _ Talks-take_turn (
        Talks-bind _ (Talks-wr_std_string name h) (
          Talks-bind (expect_done verb_refused name) (Talks-result successful_done λ e. cc)
            (Talks-expect_done verb_refused name)))))

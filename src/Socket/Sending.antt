-- ===== src/Socket/Sending.antt =====
-- `send_loop` of client/zigurat.c whatever the kernel and OpenSSL answer: bytes that are accepted, or a
-- closed socket.
use cocolog.Prelude.{
  ℕ, ◌≡◌, refl, sym, ap, ◌∙◌, Bool, true, false, Option, none, some, List, [], ◌∷◌, ◌++◌,
  append-nil, append_assoc, arith, inl, inr, Bool-cases, take, drop, take-append-drop,
}
use mathlib.Core.Path.{subst}
use cocolog.World.{Errno, Accepted, took, hangs, refused, Stop}
use cocolog.Tls.{ZtTls}
use cocolog.State.{State, Action}
use cocolog.State.Outcomes.{Ensures, gives, fails, waits, Ensures-weaken}
use cocolog.Errors.{say}
use cocolog.Socket.{
  hang_up, lost, lost2, noted, note, retries_send, accept_bytes, send_loop, when_open, wr_now,
}

-- The socket is closed.
abbrev pub IsClosed : State → Type 0
IsClosed s = s.conn.fd ≡ none

pub hang_up-IsClosed : (s : State) → IsClosed (hang_up s)
unfolding hang_up
hang_up-IsClosed s = ground arith

pub lost-IsClosed :
    {A : Type 0} (P : A → State → Type 0) (m : List ℕ) (s : State)
    → Ensures P IsClosed (lost {A = A} m s)
unfolding lost
lost-IsClosed P m s = fails (hang_up-IsClosed s)

pub lost2-IsClosed :
    {A : Type 0} (P : A → State → Type 0) (m d : List ℕ) (s : State)
    → Ensures P IsClosed (lost2 {A = A} m d s)
unfolding lost2
lost2-IsClosed P m d s = fails (hang_up-IsClosed s)

abbrev pub is_secure : Option ZtTls → Bool
is_secure none = false
is_secure (some t) = true

-- What sending leaves alone.
pub record Undisturbed (s t : State) : Type 0 where
  pub socket : t.conn.fd ≡ s.conn.fd
  pub in_buffer : t.conn.inb ≡ s.conn.inb
  pub in_place : t.conn.pin ≡ s.conn.pin
  pub to_come : t.world.replies ≡ s.world.replies
  pub secure : is_secure t.conn.tls ≡ is_secure s.conn.tls

pub Undisturbed-trans : {s t u : State} → Undisturbed s t → Undisturbed t u → Undisturbed s u
Undisturbed-trans a b = record {
  socket = b.socket ∙ a.socket;
  in_buffer = b.in_buffer ∙ a.in_buffer;
  in_place = b.in_place ∙ a.in_place;
  to_come = b.to_come ∙ a.to_come;
  secure = b.secure ∙ a.secure;
}

pub Undisturbed-refl : (s : State) → Undisturbed s s
Undisturbed-refl s = record {
  socket = refl;
  in_buffer = refl;
  in_place = refl;
  to_come = refl;
  secure = refl;
}

-- All of `bs` has been accepted, in order, and nothing else.
pub record Sent (bs : List ℕ) (s t : State) : Type 0 where
  pub stream : t.world.sent ≡ s.world.sent ++ bs
  pub holding : t.conn.out ≡ s.conn.out
  pub else_same : Undisturbed s t

pub Sent-step : {bs cs : List ℕ} {s t u : State} → Sent bs s t → Sent cs t u → Sent (bs ++ cs) s u
Sent-step {bs} {cs} {s} a b = record {
  stream = b.stream ∙ ap (λ (l : List ℕ). l ++ cs) a.stream ∙ append_assoc s.world.sent bs cs;
  holding = b.holding ∙ a.holding;
  else_same = Undisturbed-trans a.else_same b.else_same;
}

pub Sent-accept : (r : List Accepted) (bs : List ℕ) (s : State) → Sent bs s (accept_bytes r bs s)
unfolding accept_bytes
Sent-accept r bs s = record {
  stream = refl;
  holding = refl;
  else_same = record {
    socket = refl;
    in_buffer = refl;
    in_place = refl;
    to_come = refl;
    secure = refl;
  };
}

pub noted-secure :
    (strerror : Errno → List ℕ) (st : Stop) (o : Option ZtTls)
    → is_secure (noted strerror st o) ≡ is_secure o
unfolding noted
noted-secure strerror st none = refl
noted-secure strerror st (some t) = refl

pub Sent-note : (st : Stop) (s : State) → Sent [] s (note st s)
unfolding note
Sent-note st s = record {
  stream = sym (append-nil s.world.sent);
  holding = refl;
  else_same = record {
    socket = refl;
    in_buffer = refl;
    in_place = refl;
    to_come = refl;
    secure = noted-secure s.world.strerror st s.conn.tls;
  };
}

pub Sent-cast : {bs cs : List ℕ} {s t : State} → bs ≡ cs → Sent bs s t → Sent cs s t
Sent-cast {s = s} {t = t} e h = subst (λ (l : List ℕ). Sent l s t) e h

-- Whatever the kernel does, `send_loop` sends everything in order, or closes the socket, or waits
-- for ever.
pub send_loop-Sent :
    (a : List Accepted) (bs : List ℕ) (s : State)
    → Ensures (λ _ t. Sent bs s t) IsClosed (send_loop a bs s)
unfolding send_loop
send_loop-Sent a [] s =
    gives (record { stream = sym (append-nil _); holding = refl; else_same = Undisturbed-refl s })
send_loop-Sent [] (b ∷ bs) s = gives (Sent-accept [] (b ∷ bs) s)
send_loop-Sent (took k ∷ r) (b ∷ bs) s =
    Ensures-weaken
      (λ _ t h.
        Sent-cast (ap (λ (l : List ℕ). b ∷ l) (take-append-drop k bs))
          (Sent-step (Sent-accept r (b ∷ take k bs) s) h))
      (λ t h. h) (send_loop-Sent r (drop k bs) (accept_bytes r (b ∷ take k bs) s))
send_loop-Sent (hangs ∷ r) (b ∷ bs) s = waits
send_loop-Sent (refused st ∷ r) (b ∷ bs) s =
    let t = note st (accept_bytes r [] s) in
    elim (Bool-cases (retries_send s.conn.tls st)) [
      | inl again ↦ rw again (
          Ensures-weaken (λ _ u h. Sent-step (Sent-step (Sent-accept r [] s) (Sent-note st _)) h)
            (λ u h. h) (send_loop-Sent r (b ∷ bs) t))
      | inr over ↦ rw over (lost2-IsClosed _ _ _ t)
    ]

-- On a closed connection nothing is tried.
pub when_open-Ensures :
    {A : Type 0} {P : A → State → Type 0} (m : Action A) (s : State)
    → Ensures P IsClosed (m s)
    → Ensures P IsClosed (when_open s.conn.fd m s)
when_open-Ensures {P = P} m s h = choose s.conn.fd refl
  where
    choose : (o : Option ℕ) → s.conn.fd ≡ o → Ensures P IsClosed (when_open o m s)
    choose none e = unfold say in fails e
    choose (some d) e = h

pub wr_now-Sent : (bs : List ℕ) (s : State) → Ensures (λ _ t. Sent bs s t) IsClosed (wr_now bs s)
unfolding wr_now
wr_now-Sent bs s = when_open-Ensures (send_loop s.world.accepts bs) s (send_loop-Sent _ bs s)

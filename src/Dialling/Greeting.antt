-- ===== src/Dialling/Greeting.antt =====
-- A dialled connection starts with the server's greeting, and with nothing of the old one.
use cocolog.Prelude.{
  ℕ, ◌≡◌, refl, sym, ap, ◌∙◌, false, Option, none, some, List, [], ◌∷◌, ◌++◌, append-nil, length,
  drop, inl, inr, Bool-cases,
}
use mathlib.Core.Path.{ap₂}
use cocolog.Tls.{ZtTls}
use cocolog.State.{State, Result, caught, attempt}
use cocolog.State.Outcomes.{Ensures, gives, fails, waits, Ensures-bind}
use cocolog.Turn.{holds, give_turn, close_descriptor}
use cocolog.Order.{from_memory, reorder}
use cocolog.Socket.{shut, rd}
use cocolog.Socket.Ready.{arriving, unread, written}
use cocolog.Socket.Sending.{IsClosed, is_secure}
use cocolog.Socket.Reading.{Received, rd-Received, arriving-secure}
use cocolog.Wire.{rd_be, rd_sz, received}
use cocolog.Dialling.{
  Attempt, no_socket, unreachable, reached, end_session, start_afresh, connect_to, close_again,
  try_addresses, hang_up_and_fail, keep_id, greeted,
}

-- Nothing of the old connection is left in `t`, and nothing has been sent or read since `s`.
pub record IsFresh (s t : State) : Type 0 where
  pub holding : t.conn.out ≡ []
  pub in_buffer : t.conn.inb ≡ []
  pub in_place : t.conn.pin ≡ 0
  pub unsent : t.world.sent ≡ s.world.sent
  pub to_come : t.world.replies ≡ s.world.replies
  pub turn_given : holds t.conn.lockfd t.conn.held ≡ false

shut-at : (o : Option ℕ) (s : State) → s.conn.fd ≡ o → IsClosed (shut o s)
unfolding shut
shut-at none s e = e
shut-at (some d) s e = refl

pub shut-IsClosed : (s : State) → IsClosed (shut s.conn.fd s)
shut-IsClosed s = shut-at s.conn.fd s refl

-- Neither stream has moved.
pub record IsStill (s t : State) : Type 0 where
  pub unsent : t.world.sent ≡ s.world.sent
  pub to_come : t.world.replies ≡ s.world.replies

IsStill-trans : {s t u : State} → IsStill s t → IsStill t u → IsStill s u
IsStill-trans h k = record { unsent = k.unsent ∙ h.unsent; to_come = k.to_come ∙ h.to_come }

shut-IsStill : (o : Option ℕ) (s : State) → IsStill s (shut o s)
unfolding shut close_descriptor
shut-IsStill none s = record { unsent = refl; to_come = refl }
shut-IsStill (some d) s = record { unsent = refl; to_come = refl }

end_session-IsStill : (o : Option ZtTls) (s : State) → IsStill s (end_session o s)
unfolding end_session
end_session-IsStill none s = record { unsent = refl; to_come = refl }
end_session-IsStill (some t) s = record { unsent = refl; to_come = refl }

-- Giving the turn back moves nothing else.
pub record HasGiven (s t : State) : Type 0 where
  pub given : holds t.conn.lockfd t.conn.held ≡ false
  pub still : IsStill s t
  pub socket : t.conn.fd ≡ s.conn.fd

pub holds-let_go : (o : Option ℕ) → holds o false ≡ false
unfolding holds
holds-let_go none = refl
holds-let_go (some d) = refl

pub give_turn-HasGiven : (s : State) → HasGiven s (give_turn s)
unfolding give_turn
give_turn-HasGiven s = elim (Bool-cases (holds s.conn.lockfd s.conn.held)) [
  | inl h ↦ rw h (record {
    given = holds-let_go s.conn.lockfd;
    still = record { unsent = refl; to_come = refl };
    socket = refl;
  })
  | inr h ↦
      rw h (record { given = h; still = record { unsent = refl; to_come = refl }; socket = refl })
]

pub start_afresh-IsFresh : (s : State) → IsFresh s (start_afresh s) × IsClosed (start_afresh s)
unfolding start_afresh
start_afresh-IsFresh s =
    let ended = end_session s.conn.tls s in
    let closed = shut ended.conn.fd ended in
    let g = give_turn-HasGiven closed in
    let still =
      IsStill-trans (end_session-IsStill s.conn.tls s)
        (IsStill-trans (shut-IsStill ended.conn.fd ended) g.still) in
    (
      record {
        holding = refl;
        in_buffer = refl;
        in_place = refl;
        unsent = still.unsent;
        to_come = still.to_come;
        turn_given = g.given;
      },
      g.socket ∙ shut-IsClosed ended,
    )

-- A step that moves nothing but the socket and what is closed.
pub IsFresh-step :
    {s t u : State}
    → IsFresh s t
    → u.conn.out ≡ t.conn.out
    → u.conn.inb ≡ t.conn.inb
    → u.conn.pin ≡ t.conn.pin
    → IsStill t u
    → holds u.conn.lockfd u.conn.held ≡ holds t.conn.lockfd t.conn.held
    → IsFresh s u
IsFresh-step h o i p k g = record {
  holding = o ∙ h.holding;
  in_buffer = i ∙ h.in_buffer;
  in_place = p ∙ h.in_place;
  unsent = k.unsent ∙ h.unsent;
  to_come = k.to_come ∙ h.to_come;
  turn_given = g ∙ h.turn_given;
}

close_again-IsFresh : (d : ℕ) (s t : State) → IsFresh s t → IsFresh s (close_again d t)
unfolding close_again close_descriptor
close_again-IsFresh d s t h =
    IsFresh-step h refl refl refl (record { unsent = refl; to_come = refl }) refl

connect_to-IsFresh : (d : ℕ) (s t : State) → IsFresh s t → IsFresh s (connect_to d t)
unfolding connect_to
connect_to-IsFresh d s t h =
    IsFresh-step h refl refl refl (record { unsent = refl; to_come = refl }) refl

pub try_addresses-IsFresh :
    (l : List Attempt) (s t : State) → IsFresh s t → IsFresh s (try_addresses l t)
unfolding try_addresses
try_addresses-IsFresh [] s t h = h
try_addresses-IsFresh (no_socket ∷ r) s t h = try_addresses-IsFresh r s t h
try_addresses-IsFresh (unreachable d ∷ r) s t h =
    try_addresses-IsFresh r s _ (close_again-IsFresh d s t h)
try_addresses-IsFresh (reached d ∷ r) s t h = connect_to-IsFresh d s t h

-- An answer that is kept as a value.
abbrev pub Caught :
    {A : Type 0} → (A → State → Type 0) → (State → Type 0) → Option A → State → Type 0
Caught P Q none t = Q t
Caught P Q (some a) t = P a t

pub Ensures-caught :
    {A : Type 0} {P : A → State → Type 0} {Q : State → Type 0} (R : State → Type 0) {r : Result A}
    → Ensures P Q r
    → Ensures (Caught P Q) R (caught r)
Ensures-caught R (gives p) = gives p
Ensures-caught R (fails q) = gives q
Ensures-caught R waits = waits

-- A number from the next `n` bytes of the stream.
record Numbered (n : ℕ) (s : State) (v : ℕ) (t : State) : Type 0 where
  digits : List ℕ
  is_read : Received n [] (unread s) s digits t
  number : v ≡ from_memory t.world.big_endian (reorder t.world.big_endian digits)

rd_be-Numbered : (n : ℕ) (s : State) → Ensures (Numbered n s) IsClosed (rd_be n s)
unfolding rd_be received
rd_be-Numbered n s =
    Ensures-bind (rd n) received s (rd-Received n s)
      λ bs t h. gives (record { digits = bs; is_read = h; number = refl })

-- The connection has the server's greeting, the transaction's id, and nothing else: what follows the
-- greeting is still to be read, and nothing has been sent.
pub record Dialled (s t : State) : Type 0 where
  pub socket : ℕ
  pub connected_on : t.conn.fd ≡ some socket
  pub greeting : List ℕ
  pub eight_bytes : length greeting ≡ 8
  pub stream : greeting ++ unread t ≡ arriving t.conn.tls s.world.replies
  pub id :
      t.conn.transaction_id ≡ from_memory t.world.big_endian (reorder t.world.big_endian greeting)
  pub unsent : written t ≡ s.world.sent
  pub silent : t.conn.err ≡ []

-- Where the stream begins.
fresh_stream :
    (s u : State) (tls : Option ZtTls)
    → IsFresh s u
    → is_secure tls ≡ is_secure u.conn.tls
    → unread u ≡ arriving tls s.world.replies
fresh_stream s u tls f e =
    ap₂ (λ (n : ℕ) (l : List ℕ). drop n l ++ arriving u.conn.tls u.world.replies) f.in_place
      f.in_buffer
    ∙ ap (arriving u.conn.tls) f.to_come
    ∙ sym (arriving-secure tls u.conn.tls s.world.replies e)

keep_id-Dialled :
    (s u : State) (d : ℕ)
    → IsFresh s u
    → u.conn.fd ≡ some d
    → (o : Option ℕ) (t : State) → Caught (Numbered 8 u) IsClosed o t
    → Ensures (λ _ v. Dialled s v) IsClosed (keep_id o t)
unfolding keep_id hang_up_and_fail
keep_id-Dialled s u d f e none t h = fails (shut-IsClosed t)
keep_id-Dialled s u d f e (some id) t h = gives (record {
  socket = d;
  connected_on = h.is_read.socket ∙ e;
  greeting = h.digits;
  eight_bytes = ap length h.is_read.whole ∙ h.is_read.enough;
  stream =
      ap (λ (l : List ℕ). l ++ unread t) h.is_read.whole
      ∙ h.is_read.rest
      ∙ fresh_stream s u t.conn.tls f h.is_read.secure;
  id = h.number;
  unsent =
      h.is_read.kept ∙ ap₂ (λ (l m : List ℕ). l ++ m) f.unsent f.holding ∙ append-nil s.world.sent;
  silent = refl;
})

pub greeted-Dialled :
    (s u : State) (d : ℕ)
    → IsFresh s u
    → u.conn.fd ≡ some d
    → Ensures (λ _ t. Dialled s t) IsClosed (greeted u)
unfolding greeted attempt rd_sz
greeted-Dialled s u d f e =
    Ensures-bind (attempt rd_sz) keep_id u (Ensures-caught _ (rd_be-Numbered 8 u))
      (keep_id-Dialled s u d f e)

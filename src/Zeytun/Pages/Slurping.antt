-- ===== src/Zeytun/Pages/Slurping.antt =====
-- What `slurp` reads, and that its buffer has room for it.
use cocolog.Prelude.{
  ℕ, zero, suc, ◌+◌, ◌-◌, ◌*◌, ◌≤◌, ◌<◌, ◌≡◌, refl, ap, ◌∙◌, Bool, true, false, List, [], ◌∷◌, ◌++◌,
  append_assoc, Option, none, some, arith, length, length-append, length-take, take, drop,
  take-append-drop, min, ltb, if◌then◌else◌, ltb-false, inl, inr, Bool-cases, ◌==◌,
}
use cocolog.World.{Errno}
use cocolog.Socket.{is_eintr}
use cocolog.Zeytun.Pages.{
  Read, piece, closes, breaks, Page, Fetched, fetched, failed, waiting, refuse, worded, Head,
  is_complete, double_until, grown, memory_for, used, room_made, has_room, arriving_now, taken_off,
  next_reads, slurp_loop, slurp, no_head,
}

-- The descriptor and the session are as they were.
pub record IsHeld (p q : Page) : Type 0 where
  pub same_fd : q.fd ≡ p.fd
  pub same_session : q.secure ≡ p.secure
  pub none_closed : q.closed ≡ p.closed
  pub none_ended : q.sessions_ended ≡ p.sessions_ended

-- The answer is the beginning of `stream`, and what is still coming is the rest of it; or the call
-- fails, with the descriptor and the session as they were for the caller to close; or it waits.
pub data Slurped (stream : List ℕ) (p : Page) : Fetched (List ℕ) → Type 0 where
  whole :
      {buf : List ℕ} {q : Page}
      → buf ++ q.coming ≡ stream
      → IsHeld p q
      → Slurped stream p (fetched buf q)
  broken : {q : Page} → IsHeld p q → Slurped stream p (failed q)
  waits : Slurped stream p waiting

IsHeld-refl : (p : Page) → IsHeld p p
IsHeld-refl p = record {
  same_fd = refl;
  same_session = refl;
  none_closed = refl;
  none_ended = refl;
}

IsHeld-trans : {p q r : Page} → IsHeld p q → IsHeld q r → IsHeld p r
IsHeld-trans h k = record {
  same_fd = k.same_fd ∙ h.same_fd;
  same_session = k.same_session ∙ h.same_session;
  none_closed = k.none_closed ∙ h.none_closed;
  none_ended = k.none_ended ∙ h.none_ended;
}

Slurped-if :
    (b : Bool) (x y : Fetched (List ℕ)) (stream : List ℕ) (p : Page)
    → Slurped stream p x
    → Slurped stream p y
    → Slurped stream p (if b then x else y)
Slurped-if true x y stream p h k = h
Slurped-if false x y stream p h k = k

Slurped-from :
    {stream : List ℕ} {p q : Page} {r : Fetched (List ℕ)}
    → IsHeld p q
    → Slurped stream q r
    → Slurped stream p r
Slurped-from h (whole e k) = whole e (IsHeld-trans h k)
Slurped-from h (broken k) = broken (IsHeld-trans h k)
Slurped-from h waits = waits

refuse-Slurped :
    (stream what : List ℕ) (detail : Option (List ℕ)) (p q : Page)
    → IsHeld p q
    → Slurped stream p (refuse what detail q)
unfolding refuse
refuse-Slurped stream what detail p q h = by_room (q.errcap == 0)
  where
    by_room :
        (b : Bool)
        → Slurped stream p
            (failed (if b then q else record q { err = take (q.errcap - 1) (worded what detail) }))
    by_room true = broken h
    by_room false = broken (record {
      same_fd = h.same_fd;
      same_session = h.same_session;
      none_closed = h.none_closed;
      none_ended = h.none_ended;
    })

-- What making room leaves alone.
record IsRoomOnly (p q : Page) : Type 0 where
  held : IsHeld p q
  same_coming : q.coming ≡ p.coming

used-IsRoomOnly : (p : Page) → IsRoomOnly p (used p)
unfolding used
used-IsRoomOnly p = record {
  held = record { same_fd = refl; same_session = refl; none_closed = refl; none_ended = refl };
  same_coming = refl;
}

room_made-IsRoomOnly : (len room : ℕ) (p : Page) → IsRoomOnly p (room_made len room p)
unfolding room_made
room_made-IsRoomOnly len room p = elim (Bool-cases (ltb room (len + 4096))) [
  | inl h ↦ rw h (used-IsRoomOnly p)
  | inr h ↦ rw h (record { held = IsHeld-refl p; same_coming = refl })
]

next_reads-IsRoomOnly :
    (r : List Read) (p q : Page) → IsRoomOnly p q → IsRoomOnly p (next_reads r q)
unfolding next_reads
next_reads-IsRoomOnly r p q h = record {
  held = record {
    same_fd = h.held.same_fd;
    same_session = h.held.same_session;
    none_closed = h.held.none_closed;
    none_ended = h.held.none_ended;
  };
  same_coming = h.same_coming;
}

taken_off-IsHeld : (k n : ℕ) (p q : Page) → IsHeld p q → IsHeld p (taken_off k n q)
unfolding taken_off
taken_off-IsHeld k n p q h = record {
  same_fd = h.same_fd;
  same_session = h.same_session;
  none_closed = h.none_closed;
  none_ended = h.none_ended;
}

-- A read takes the next bytes off what is coming.
read_on :
    (k n : ℕ) (buf stream : List ℕ) (p q : Page)
    → q.coming ≡ p.coming
    → buf ++ p.coming ≡ stream
    → (buf ++ arriving_now k n p.coming) ++ (taken_off k n q).coming ≡ stream
unfolding arriving_now taken_off
read_on k n buf stream p q e h =
    append_assoc buf (take (min (suc k) n) p.coming) (drop (min (suc k) n) q.coming)
    ∙ ap (λ (l : List ℕ). buf ++ (take (min (suc k) n) p.coming ++ drop (min (suc k) n) l)) e
    ∙ ap (λ (l : List ℕ). buf ++ l) (take-append-drop (min (suc k) n) p.coming)
    ∙ h

slurp_loop-Slurped :
    (strerror : Errno → List ℕ) (r : List Read) (buf : List ℕ) (room : ℕ) (h : Head) (p : Page)
    (stream : List ℕ)
    → buf ++ p.coming ≡ stream
    → Slurped stream p (slurp_loop strerror r buf room h p)
unfolding slurp_loop
slurp_loop-Slurped strerror [] buf room h p stream e =
    Slurped-if (is_complete (length buf) h) _ _ stream p (whole e (IsHeld-refl p)) (
      Slurped-if (has_room (length buf) room p) _ _ stream p waits
        (refuse-Slurped stream _ none p _ (room_made-IsRoomOnly (length buf) room p).held))
slurp_loop-Slurped strerror (piece k ∷ r) buf room h p stream e =
    let q = next_reads-IsRoomOnly r p _ (room_made-IsRoomOnly (length buf) room p) in
    Slurped-if (is_complete (length buf) h) _ _ stream p (whole e (IsHeld-refl p)) (
      Slurped-if (has_room (length buf) room p) _ _ stream p
        (Slurped-if (length p.coming == 0) _ _ stream p waits (
          Slurped-from (taken_off-IsHeld k _ p _ q.held) (
            slurp_loop-Slurped strerror r _ _ _ _ stream
              (read_on k _ buf stream p _ q.same_coming e))))
        (refuse-Slurped stream _ none p _ (room_made-IsRoomOnly (length buf) room p).held))
slurp_loop-Slurped strerror (closes ∷ r) buf room h p stream e =
    let q = next_reads-IsRoomOnly r p _ (room_made-IsRoomOnly (length buf) room p) in
    Slurped-if (is_complete (length buf) h) _ _ stream p (whole e (IsHeld-refl p)) (
      Slurped-if (has_room (length buf) room p) _ _ stream p
        (whole (ap (λ (l : List ℕ). buf ++ l) q.same_coming ∙ e) q.held)
        (refuse-Slurped stream _ none p _ (room_made-IsRoomOnly (length buf) room p).held))
slurp_loop-Slurped strerror (breaks x ∷ r) buf room h p stream e =
    let q = next_reads-IsRoomOnly r p _ (room_made-IsRoomOnly (length buf) room p) in
    Slurped-if (is_complete (length buf) h) _ _ stream p (whole e (IsHeld-refl p)) (
      Slurped-if (has_room (length buf) room p) _ _ stream p
        (Slurped-if p.secure _ _ stream p
          (whole (ap (λ (l : List ℕ). buf ++ l) q.same_coming ∙ e) q.held)
          (Slurped-if (is_eintr x) _ _ stream p
            (Slurped-from q.held (
              slurp_loop-Slurped strerror r buf _ h _ stream
                (ap (λ (l : List ℕ). buf ++ l) q.same_coming ∙ e)))
            (refuse-Slurped stream _ (some (strerror x)) p _ q.held)))
        (refuse-Slurped stream _ none p _ (room_made-IsRoomOnly (length buf) room p).held))

-- Whatever the reads and the allocator answer: what `slurp` answers is the beginning of what the
-- server sends, with no byte lost, doubled or moved, and the rest of it is still to come. The
-- descriptor and the session are left for the caller to close, also when it fails.
pub slurp-Slurped : (strerror : Errno → List ℕ) (p : Page) → Slurped p.coming p (slurp strerror p)
unfolding slurp
slurp-Slurped strerror p =
    let u = used-IsRoomOnly p in
    Slurped-if (memory_for p.memory) _ _ p.coming p
      (Slurped-from u.held (slurp_loop-Slurped strerror p.reads [] 8192 no_head _ _ u.same_coming))
      (refuse-Slurped p.coming _ none p _ u.held)

double_until-enough : (fuel len room : ℕ) → len + 4096 ≤ room → double_until fuel len room ≡ room
unfolding double_until
double_until-enough zero len room h = refl
double_until-enough (suc fuel) len room h = rw (ltb-false room (len + 4096) h) refl

grown-enough : (len room : ℕ) → len < room → 4096 ≤ room → len + 4096 ≤ grown len room
unfolding grown
grown-enough len room h k = elim (Bool-cases (ltb room (len + 4096))) [
  | inl b ↦ rw (b, double_until-enough len len (room * 2) (omega arith)) (omega arith)
  | inr b ↦ rw b (at_most room (len + 4096) b)
]
  where
    at_most : (a b : ℕ) → ltb a b ≡ false → b ≤ a
    at_most a b h = ground arith

-- Before each read the buffer has room for 4095 bytes and more, and behind it for what has arrived
-- and a terminator: one doubling is always enough.
pub slurp_room :
    (k room : ℕ) (buf coming : List ℕ)
    → length buf < room
    → 4096 ≤ room
    → (4095 ≤ grown (length buf) room - length buf - 1)
      × (length (buf ++ arriving_now k (grown (length buf) room - length buf - 1) coming)
          < grown (length buf) room)
      × (4096 ≤ grown (length buf) room)
unfolding arriving_now
slurp_room k room buf coming h j =
    let g = grown-enough (length buf) room h j in
    let n = min (suc k) (grown (length buf) room - length buf - 1) in
    (
      omega (arith, g),
      omega (arith, g, length-append buf (take n coming), length-take n coming),
      omega (arith, g),
    )

-- ===== src/Engine/Sessions.antt =====
-- A thread's sessions with the embedded engine: one for each connection, made on first use, found
-- again, and gone with the connection.
use cocolog.Prelude.{
  ℕ, ◌≡◌, ◌≢◌, refl, sym, ap, ◌∙◌, Bool, true, false, Option, none, some, List, [], ◌∷◌, ◌++◌,
  arith, ◌==◌, if◌then◌else◌, inl, inr, Bool-cases,
}
use cocolog.World.{EngineReply, EngineCall, session_free}
use cocolog.State.{Slot, State, ok, ◌>>=◌}
use cocolog.State.Outcomes.{Returns, answers, Returns-if}
use cocolog.Engine.{
  ask, allocate, find_slot, add_slot, new_slot, make_slot, or_make, ce_of, without_slot, free_slot,
  ce_forget,
}

same_address : (a : ℕ) → (a == a) ≡ true
same_address a = ground arith

other_address : (a b : ℕ) → a ≢ b → (a == b) ≡ false
other_address a b h = ground arith

-- The session is found from now on, by the same name, and those of other connections are where they
-- were: `c` is another connection's address.
pub record IsFound (c : ℕ) (s : State) (h : ℕ) (t : State) : Type 0 where
  pub found : find_slot t.address t.slots ≡ some h
  pub again : ce_of t ≡ ok (some h) t
  pub same_conn : t.conn ≡ s.conn
  pub others : find_slot c t.slots ≡ find_slot c s.slots

-- `ce_of` with a session, or without one.
pub data Session (c : ℕ) (s : State) : Option ℕ → State → Type 0 where
  has_session : {h : ℕ} {t : State} → IsFound c s h t → Session c s (some h) t
  without : {t : State} → t.slots ≡ s.slots → t.conn ≡ s.conn → Session c s none t

found_again : (t : State) (h : ℕ) → find_slot t.address t.slots ≡ some h → ce_of t ≡ ok (some h) t
unfolding ce_of or_make
found_again t h e = rw e refl

added :
    (c a h : ℕ) (ls : List Slot)
    → c ≢ a
    → (find_slot a (record { conn_at = a; session = h } ∷ ls) ≡ some h)
      × (find_slot c (record { conn_at = a; session = h } ∷ ls) ≡ find_slot c ls)
unfolding find_slot
added c a h ls n = (rw (same_address a) refl, rw (other_address a c (λ e. n (sym e))) refl)

add_slot-Session :
    (c : ℕ) (r : EngineReply) (s t : State)
    → t.slots ≡ s.slots
    → t.conn ≡ s.conn
    → t.address ≡ s.address
    → c ≢ s.address
    → Returns (Session c s) (λ _. ⊥) (add_slot r t)
unfolding add_slot
add_slot-Session c r s t e k a n =
    let x = added c t.address r.number t.slots (rw a n) in
    Returns-if r.ok _ _
      (answers (
        has_session (record {
          found = x.0;
          again = found_again _ r.number x.0;
          same_conn = k;
          others = x.1 ∙ ap (find_slot c) e;
        })))
      (answers (without e k))

new_slot-Session :
    (c : ℕ) (b : Bool) (s t : State)
    → t.slots ≡ s.slots
    → t.conn ≡ s.conn
    → t.address ≡ s.address
    → c ≢ s.address
    → Returns (Session c s) (λ _. ⊥) (new_slot b t)
unfolding new_slot ask ◌>>=◌
new_slot-Session c false s t e k a n = answers (without e k)
new_slot-Session c true s t e k a n = add_slot-Session c _ s _ e k a n

make_slot-Session :
    (c : ℕ) (s : State) → c ≢ s.address → Returns (Session c s) (λ _. ⊥) (make_slot s)
unfolding make_slot allocate ◌>>=◌
make_slot-Session c s n =
    Returns-if s.world.engine_linked _ _ (new_slot-Session c _ s _ refl refl refl n)
      (answers (without refl refl))

or_make-Session :
    (c : ℕ) (o : Option ℕ) (s : State)
    → find_slot s.address s.slots ≡ o
    → c ≢ s.address
    → Returns (Session c s) (λ _. ⊥) (or_make o s)
unfolding or_make
or_make-Session c none s e n = make_slot-Session c s n
or_make-Session c (some h) s e n =
    answers (
      has_session
        (record { found = e; again = found_again s h e; same_conn = refl; others = refl }))

-- Finding a session returns. If it has one, the same session is found from then on, without another
-- being made; the connection and the sessions of other connections are as they were; if it has none,
-- none has been added.
pub ce_of-Session : (c : ℕ) (s : State) → c ≢ s.address → Returns (Session c s) (λ _. ⊥) (ce_of s)
unfolding ce_of
ce_of-Session c s n = or_make-Session c _ s refl n

elsewhere : (b a c : ℕ) → (b == a) ≡ true → c ≢ a → (b == c) ≡ false
elsewhere b a c h n = ground arith

-- Without the first session of the address, those of the others are found as before.
without_slot-others :
    (a c : ℕ) (ls : List Slot) → c ≢ a → find_slot c (without_slot a ls) ≡ find_slot c ls
unfolding find_slot without_slot
without_slot-others a c [] n = refl
without_slot-others a c (l ∷ ls) n = elim (Bool-cases (l.conn_at == a)) [
  | inl h ↦ rw (h, elsewhere l.conn_at a c h n) refl
  | inr h ↦ rw h (
      ap (λ (o : Option ℕ). if l.conn_at == c then some l.session else o)
        (without_slot-others a c ls n))
]

-- The call that frees a session.
unfoldable pub freed_session : Option ℕ → List EngineCall
freed_session none = []
freed_session (some h) = session_free h ∷ []

-- The slots without the first one of the connection `a`; or there was none, and they are the same.
pub data IsWithout (a : ℕ) : List Slot → List Slot → Type 0 where
  nothing_there : IsWithout a [] []
  taken_off : (l : Slot) (ls : List Slot) → l.conn_at ≡ a → IsWithout a (l ∷ ls) ls
  further_on :
      (l : Slot) (ls ms : List Slot)
      → l.conn_at ≢ a
      → IsWithout a ls ms
      → IsWithout a (l ∷ ls) (l ∷ ms)

same_conn_at : (b a : ℕ) → (b == a) ≡ true → b ≡ a
same_conn_at b a e = ground arith

not_conn_at : (b a : ℕ) → (b == a) ≡ false → b ≢ a
not_conn_at b a e = ground arith

without_slot-IsWithout : (a : ℕ) (ls : List Slot) → IsWithout a ls (without_slot a ls)
unfolding without_slot
without_slot-IsWithout a [] = nothing_there
without_slot-IsWithout a (l ∷ ls) = elim (Bool-cases (l.conn_at == a)) [
  | inl h ↦ rw h (taken_off l ls (same_conn_at l.conn_at a h))
  | inr h ↦ rw h (further_on l ls _ (not_conn_at l.conn_at a h) (without_slot-IsWithout a ls))
]

IsWithout-cast : {a : ℕ} {ls ms ns : List Slot} → ms ≡ ns → IsWithout a ls ms → IsWithout a ls ns
IsWithout-cast e w = rw (sym e) w

-- What forgetting a session does: it is freed, once, and the sessions of other connections stay.
pub record IsForgotten (c : ℕ) (o : Option ℕ) (s t : State) : Type 0 where
  pub calls : t.world.engine_calls ≡ freed_session o ++ s.world.engine_calls
  pub rest : IsWithout s.address s.slots t.slots
  pub same_conn : t.conn ≡ s.conn
  pub others : find_slot c t.slots ≡ find_slot c s.slots

neither :
    (b : Bool) (h : ℕ) (o : Option ℕ) → (if b then some h else o) ≡ none → (b ≡ false) × (o ≡ none)
neither true h o e = absurd cc
neither false h o e = (refl, e)

without_slot-none : (a : ℕ) (ls : List Slot) → find_slot a ls ≡ none → without_slot a ls ≡ ls
unfolding find_slot without_slot
without_slot-none a [] e = refl
without_slot-none a (l ∷ ls) e =
    let x = neither (l.conn_at == a) l.session (find_slot a ls) e in
    rw x.0 (ap (λ (r : List Slot). l ∷ r) (without_slot-none a ls x.1))

free_slot-IsForgotten :
    (c : ℕ) (o : Option ℕ) (s : State)
    → find_slot s.address s.slots ≡ o
    → c ≢ s.address
    → Returns (λ _ t. IsForgotten c o s t) (λ _. ⊥) (free_slot o s)
unfolding free_slot freed_session ask ◌>>=◌
free_slot-IsForgotten c none s e n = answers (record {
  calls = refl;
  rest =
      IsWithout-cast (without_slot-none s.address s.slots e)
        (without_slot-IsWithout s.address s.slots);
  same_conn = refl;
  others = refl;
})
free_slot-IsForgotten c (some h) s e n = answers (record {
  calls = refl;
  rest = without_slot-IsWithout s.address s.slots;
  same_conn = refl;
  others = without_slot-others s.address c s.slots n;
})

-- Forgetting returns. The connection's session, if it has one, is freed once and taken off the
-- thread's list, and the sessions of other connections are found as before.
pub ce_forget-IsForgotten :
    (c : ℕ) (s : State)
    → c ≢ s.address
    → Returns (λ _ t. IsForgotten c (find_slot s.address s.slots) s t) (λ _. ⊥) (ce_forget s)
unfolding ce_forget
ce_forget-IsForgotten c s n = free_slot-IsForgotten c _ s refl n

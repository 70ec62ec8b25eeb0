-- ===== src/Turn/Waiting.antt =====
-- How long a connection waits for its turn, and what it has after.
use cocolog.Prelude.{
  ℕ, zero, suc, ◌+◌, ◌*◌, ◌≤◌, ◌<◌, ◌≡◌, refl, Bool, true, false, Option, some, List, [], ◌∷◌,
  arith, length, if◌then◌else◌,
}
use cocolog.World.{Lock, granted, denied}
use cocolog.State.{State, Result}
use cocolog.State.Outcomes.{Returns, answers, declines, Returns-weaken}
use cocolog.Turn.{take_loop, take_turn, needs_turn, worth_retrying, waited_enough}

-- The turn has been taken, within the milliseconds allowed.
pub record TookTurn (s : State) (left : ℕ) (t : State) : Type 0 where
  pub held : t.conn.held ≡ true
  pub locked : t.world.locked ≡ true
  pub in_time : t.world.slept ≤ s.world.slept + left

-- The turn has not been taken, and the wait for it was no longer than allowed.
pub record GaveUp (s : State) (left : ℕ) (t : State) : Type 0 where
  pub held : t.conn.held ≡ s.conn.held
  pub locked : t.world.locked ≡ s.world.locked
  pub in_time : t.world.slept ≤ s.world.slept + left

still_waiting : (l w : ℕ) → w < l * 1000 → waited_enough l w ≡ false
unfolding waited_enough
still_waiting l w h = ground arith

waited_long : (l w : ℕ) → 0 < l → l * 1000 ≤ w → waited_enough l w ≡ true
unfolding waited_enough
waited_long l w p h = ground arith

module _ {A : Type 0} {P : A → State → Type 0} {Q : State → Type 0} where
  either_way :
      (b : Bool) {x y : Result A}
      → (b ≡ true → Returns P Q x)
      → (b ≡ false → Returns P Q y)
      → Returns P Q (if b then x else y)
  either_way true f g = f refl
  either_way false f g = g refl

take_loop-ends :
    (locks : List Lock) (rounds waited : ℕ) (s : State)
    → waited + 2 * rounds ≡ s.conn.lockwait * 1000
    → 0 < s.conn.lockwait
    → rounds < length locks
    → Returns
        (λ _ t. TookTurn s (2 * rounds) t)
        (λ t. GaveUp s (2 * rounds) t)
        (take_loop locks waited s)
unfolding take_loop
take_loop-ends [] rounds waited s e pos more = absurd (omega arith)
take_loop-ends (granted ∷ r) rounds waited s e pos more =
    answers (record { held = refl; locked = refl; in_time = omega arith })
take_loop-ends (denied x ∷ r) zero waited s e pos more =
    either_way (worth_retrying x)
      (λ _.
        rw (waited_long s.conn.lockwait waited pos (omega arith))
          (declines (record { held = refl; locked = refl; in_time = omega arith })))
      (λ _. declines (record { held = refl; locked = refl; in_time = omega arith }))
take_loop-ends (denied x ∷ r) (suc rounds) waited s e pos more =
    either_way (worth_retrying x)
      (λ _. rw (still_waiting s.conn.lockwait waited (omega arith)) (
        Returns-weaken
          (λ _ t h. record { held = h.held; locked = h.locked; in_time = omega (arith, h.in_time) })
          (λ t h. record { held = h.held; locked = h.locked; in_time = omega (arith, h.in_time) })
          (take_loop-ends r rounds (waited + 2) _ (omega arith) pos (omega arith))))
      (λ _. declines (record { held = refl; locked = refl; in_time = omega arith }))

-- A connection that is to wait at most `lockwait` seconds, and does not hold its turn, has it or
-- gives up after no more than that many seconds of sleep, when the kernel has answered `flock` once
-- for every two milliseconds of them and once more.
pub take_turn-ends :
    (s : State) (d : ℕ)
    → s.conn.lockfd ≡ some d
    → s.conn.held ≡ false
    → 0 < s.conn.lockwait
    → s.conn.lockwait * 500 < length s.world.locks
    → Returns
        (λ _ t. TookTurn s (s.conn.lockwait * 1000) t)
        (λ t. GaveUp s (s.conn.lockwait * 1000) t)
        (take_turn s)
unfolding take_turn
take_turn-ends s d e f pos more = rw (needed s.conn.lockfd s.conn.held d e f) (
    Returns-weaken
      (λ _ t h. record { held = h.held; locked = h.locked; in_time = omega (arith, h.in_time) })
      (λ t h. record { held = h.held; locked = h.locked; in_time = omega (arith, h.in_time) })
      (take_loop-ends s.world.locks (s.conn.lockwait * 500) 0 s (omega arith) pos more))
  where
    needed : (l : Option ℕ) (h : Bool) (d : ℕ) → l ≡ some d → h ≡ false → needs_turn l h ≡ true
    needed l h d e f = rw (e, f)

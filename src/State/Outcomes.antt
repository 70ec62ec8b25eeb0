-- ===== src/State/Outcomes.antt =====
-- Statements about however a call ends, and the rules that put them together.
use cocolog.Prelude.{◌≡◌, Bool, true, false, if◌then◌else◌}
use cocolog.State.{State, Action, Result, ok, fail, blocked, continue, ◌>>=◌}

-- `P` holds after a value and `Q` after the answer 0, if the call returns; it does not run out of
-- fuel.
pub data Ensures {A : Type 0} (P : A → State → Type 0) (Q : State → Type 0)
    : Result A → Type 0 where
  gives : {a : A} {t : State} → P a t → Ensures P Q (ok a t)
  fails : {t : State} → Q t → Ensures P Q (fail t)
  waits : Ensures P Q blocked

pub Ensures-continue :
    {A B : Type 0} {P : A → State → Type 0} {P' : B → State → Type 0} {Q : State → Type 0}
    {r : Result A} (f : A → Action B)
    → Ensures P Q r
    → ((a : A) (t : State) → P a t → Ensures P' Q (f a t))
    → Ensures P' Q (continue r f)
Ensures-continue f (gives {a = a} {t = t} p) k = k a t p
Ensures-continue f (fails q) k = fails q
Ensures-continue f waits k = waits

pub Ensures-bind :
    {A B : Type 0} {P : A → State → Type 0} {P' : B → State → Type 0} {Q : State → Type 0}
    (m : Action A) (f : A → Action B) (s : State)
    → Ensures P Q (m s)
    → ((a : A) (t : State) → P a t → Ensures P' Q (f a t))
    → Ensures P' Q ((m >>= f) s)
unfolding ◌>>=◌
Ensures-bind m f s h k = Ensures-continue f h k

pub Ensures-weaken :
    {A : Type 0} {P P' : A → State → Type 0} {Q Q' : State → Type 0} {r : Result A}
    → ((a : A) (t : State) → P a t → P' a t)
    → ((t : State) → Q t → Q' t)
    → Ensures P Q r
    → Ensures P' Q' r
Ensures-weaken f g (gives h) = gives (f _ _ h)
Ensures-weaken f g (fails h) = fails (g _ h)
Ensures-weaken f g waits = waits

-- What is ensured of the values is so of a value that is given.
pub Ensures-ok :
    {A : Type 0} {P : A → State → Type 0} {Q : State → Type 0} {r : Result A}
    → Ensures P Q r
    → (a : A) (t : State) → r ≡ ok a t
    → P a t
Ensures-ok {P = P} (gives {a = b} {t = u} p) a t e = rw (value e, state e) at p
  where
    value : ok b u ≡ ok a t → b ≡ a
    value q = cc

    state : ok b u ≡ ok a t → u ≡ t
    state q = cc
Ensures-ok (fails q) a t e = cc
Ensures-ok waits a t e = cc

-- The call returns, with `P` after a value and `Q` after the answer 0.
pub data Returns {A : Type 0} (P : A → State → Type 0) (Q : State → Type 0)
    : Result A → Type 0 where
  answers : {a : A} {t : State} → P a t → Returns P Q (ok a t)
  declines : {t : State} → Q t → Returns P Q (fail t)

pub Returns-weaken :
    {A : Type 0} {P P' : A → State → Type 0} {Q Q' : State → Type 0} {r : Result A}
    → ((a : A) (t : State) → P a t → P' a t)
    → ((t : State) → Q t → Q' t)
    → Returns P Q r
    → Returns P' Q' r
Returns-weaken f g (answers h) = answers (f _ _ h)
Returns-weaken f g (declines h) = declines (g _ h)

pub Returns-if :
    {A : Type 0} {P : A → State → Type 0} {Q : State → Type 0} (b : Bool) (x y : Result A)
    → Returns P Q x
    → Returns P Q y
    → Returns P Q (if b then x else y)
Returns-if true x y h k = h
Returns-if false x y h k = k

-- Two statements about how a call ends.
pub Ensures-both :
    {A : Type 0} {P P' : A → State → Type 0} {Q Q' : State → Type 0} {r : Result A}
    → Ensures P Q r
    → Ensures P' Q' r
    → Ensures (λ a t. P a t × P' a t) (λ t. Q t × Q' t) r
Ensures-both (gives p) k = gives (p, of_value k)
  where
    of_value :
        {A : Type 0} {P' : A → State → Type 0} {Q' : State → Type 0} {a : A} {t : State}
        → Ensures P' Q' (ok a t)
        → P' a t
    of_value (gives q) = q
Ensures-both (fails p) k = fails (p, of_failure k)
  where
    of_failure :
        {A : Type 0} {P' : A → State → Type 0} {Q' : State → Type 0} {t : State}
        → Ensures P' Q' (fail t)
        → Q' t
    of_failure (fails q) = q
Ensures-both waits k = waits

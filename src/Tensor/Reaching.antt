-- ===== src/Tensor/Reaching.antt =====
-- The states that a program reaches through the calls of modules/tensorflow/backend.c that are
-- modelled, under graph mode.
use cocolog.Prelude.{
  ℕ, zero, suc, ◌≤◌, ◌<◌, ◌≡◌, refl, sym, ap, Bool, true, ◌&&◌, Option, none, some, List, [], ◌∷◌,
  arith,
}
use cocolog.Tensor.Slots.{
  ℤ, pos, tf_float, tf_int32, TfSlot, Backend, slot, live, empty_slots, tf_slots, is_node,
}
use cocolog.Tensor.Scalars.{no_scalars}
use cocolog.Tensor.Freeing.{inputs_of, tfb_free}
use cocolog.Tensor.Freeing.Counting.{occurs, uses, IsCounted, empty_slots-IsCounted}
use cocolog.Tensor.Freeing.Storing.{InUse-refs, live-InUse}
use cocolog.Tensor.Freeing.Unref.{occurs_self}
use cocolog.Tensor.Freeing.Leaving.{Freed, freed, unknown}
use cocolog.Tensor.Freeing.Releasing.{tfb_free-Freed}
use cocolog.Tensor.Slicing.{tfb_slice, tfb_standardise}
use cocolog.Tensor.Slicing.Sound.{Ended, answered, tfb_slice-Ended, tfb_standardise-Ended}
use cocolog.Tensor.Stepping.{tfb_step, tfb_step-Ended}
use cocolog.Tensor.Making.{TensorFlow, tfb_from_doubles, tfb_from_ints}
use cocolog.Tensor.Making.Makers.{slot_from_tensor-Produced}
use cocolog.Tensor.Making.Temporaries.{IsSound, Produced, produced, unproduced}
use cocolog.Tensor.Producing.{
  tfb_unary, tfb_binary, tfb_scalar, tfb_agg, tfb_argmax, tfb_reshape, tfb_cat, tfb_gather,
}
use cocolog.Tensor.Producing.Keeping.{
  tfb_unary-Produced, tfb_binary-Produced, tfb_scalar-Produced, tfb_agg-Produced,
  tfb_argmax-Produced, tfb_reshape-Produced, tfb_cat-Produced, tfb_gather-Produced,
}

-- What `tfb_init` leaves.
abbrev pub start : Backend
start = record {
  slots = empty_slots tf_slots;
  cursor = 1;
  errbuf = [];
  deleted = [];
  stat_rec = 0;
  cache = no_scalars;
}

-- One call, with its answer.
pub data Called (tf : TensorFlow) (b : Backend) : Backend → Type 0 where
  called_free : (h : ℕ) (c : Backend) (a : Bool) → tfb_free h b ≡ some (c, a) → Called tf b c
  called_doubles :
      (sh : List ℤ) (c : Backend) (a : Option ℕ) → tfb_from_doubles tf sh b ≡ (a, c) → Called tf b c
  called_ints : (n : ℕ) (c : Backend) (a : Option ℕ) → tfb_from_ints tf n b ≡ (a, c) → Called tf b c
  called_unary :
      (nm : List ℕ) (x : ℕ) (c : Backend) (a : Option ℕ)
      → tfb_unary tf nm x b ≡ some (a, c)
      → Called tf b c
  called_binary :
      (nm : List ℕ) (x y : ℕ) (c : Backend) (a : Option ℕ)
      → tfb_binary tf nm x y b ≡ some (a, c)
      → Called tf b c
  called_scalar :
      (nm : List ℕ) (x v : ℕ) (c : Backend) (a : Option ℕ)
      → tfb_scalar tf nm x v b ≡ some (a, c)
      → Called tf b c
  called_agg :
      (nm : List ℕ) (x : ℕ) (c : Backend) (a : Option ℕ)
      → tfb_agg tf nm x b ≡ some (a, c)
      → Called tf b c
  called_argmax :
      (x : ℕ) (d : ℤ) (c : Backend) (a : Option ℕ)
      → tfb_argmax tf x d b ≡ some (a, c)
      → Called tf b c
  called_reshape :
      (x : ℕ) (sh : List ℤ) (c : Backend) (a : Option ℕ)
      → tfb_reshape tf x sh b ≡ some (a, c)
      → Called tf b c
  called_cat :
      (xs : List ℕ) (d : ℤ) (c : Backend) (a : Option ℕ)
      → tfb_cat tf xs d b ≡ some (a, c)
      → Called tf b c
  called_gather :
      (x i : ℕ) (c : Backend) (a : Option ℕ) → tfb_gather tf x i b ≡ some (a, c) → Called tf b c
  called_slice :
      (x axis : ℕ) (from to : ℤ) (c : Backend) (a : Option ℕ)
      → tfb_slice tf x axis from to b ≡ some (a, c)
      → Called tf b c
  called_standardise :
      (x : ℕ) (n : ℤ) (c : Backend) (a : Option ℕ)
      → tfb_standardise tf x n b ≡ some (a, c)
      → Called tf b c
  called_step :
      (w g lr : ℕ) (c : Backend) (a : Option ℕ) → tfb_step tf w g lr b ≡ some (a, c) → Called tf b c

pub data Reached (tf : TensorFlow) : Backend → Type 0 where
  started : Reached tf start
  one_call : (b c : Backend) → Reached tf b → Called tf b c → Reached tf c

pub start-IsSound : IsSound start
start-IsSound = record {
  in_range = record { above = omega arith; below = omega arith };
  counted = empty_slots-IsCounted;
}

-- The state of an answer, or another one.
unfoldable freed_state : Backend → Option (Backend × Bool) → Backend
freed_state d none = d
freed_state d (some x) = x.0

unfoldable pub made_state : Backend → Option (Option ℕ × Backend) → Backend
made_state d none = d
made_state d (some x) = x.1

IsSound-at : (b c : Backend) → b ≡ c → IsSound b → IsSound c
IsSound-at b c e s = rw (sym e) s

Freed-IsSound :
    {h : ℕ} {r : Option (Backend × Bool)} (b c : Backend) (a : Bool)
    → IsSound b
    → Freed h b r
    → r ≡ some (c, a)
    → IsSound c
unfolding freed_state
Freed-IsSound b c a s (freed d e q i g o) p =
    IsSound-at d c (ap (freed_state b) p) (record { in_range = rw q s.in_range; counted = i })
Freed-IsSound b c a s (unknown e) p = IsSound-at b c (ap (freed_state b) p) s

Produced-IsSound :
    {r : Option (Option ℕ × Backend)} (b c : Backend) (a : Option ℕ)
    → Produced b r
    → r ≡ some (a, c)
    → IsSound c
unfolding made_state
Produced-IsSound b c a (produced h d s e f v) p = IsSound-at d c (ap (made_state b) p) s
Produced-IsSound b c a (unproduced d s v) p = IsSound-at d c (ap (made_state b) p) s

-- A call that ends has an answer and a state.
pub Produced-answers :
    {r : Option (Option ℕ × Backend)} (b : Backend)
    → Produced b r
    → (a : Option ℕ) × (r ≡ some (a, made_state b r))
unfolding made_state
Produced-answers b (produced h d s e f v) = (some h, refl)
Produced-answers b (unproduced d s v) = (none, refl)

Ended-IsSound :
    {r : Option (Option ℕ × Backend)} (b c : Backend) (a : Option ℕ)
    → Ended r
    → r ≡ some (a, c)
    → IsSound c
unfolding made_state
Ended-IsSound b c a (answered o d s) p = IsSound-at d c (ap (made_state b) p) s

-- Every call keeps what a sound state has.
Called-IsSound : (tf : TensorFlow) (b c : Backend) → IsSound b → Called tf b c → IsSound c
unfolding tfb_from_doubles tfb_from_ints
Called-IsSound tf b _ s (called_free h c a e) =
    Freed-IsSound b c a s (tfb_free-Freed h b s.counted) e
Called-IsSound tf b _ s (called_doubles sh c a e) =
    Produced-IsSound b c a (slot_from_tensor-Produced tf none sh tf_float b s)
      (ap (λ (r : Option ℕ × Backend). some r) e)
Called-IsSound tf b _ s (called_ints n c a e) =
    Produced-IsSound b c a (slot_from_tensor-Produced tf none (pos n ∷ []) tf_int32 b s)
      (ap (λ (r : Option ℕ × Backend). some r) e)
Called-IsSound tf b _ s (called_unary nm x c a e) =
    Produced-IsSound b c a (tfb_unary-Produced tf nm x b s) e
Called-IsSound tf b _ s (called_binary nm x y c a e) =
    Produced-IsSound b c a (tfb_binary-Produced tf nm x y b s) e
Called-IsSound tf b _ s (called_scalar nm x v c a e) =
    Produced-IsSound b c a (tfb_scalar-Produced tf nm x v b s) e
Called-IsSound tf b _ s (called_agg nm x c a e) =
    Produced-IsSound b c a (tfb_agg-Produced tf nm x b s) e
Called-IsSound tf b _ s (called_argmax x d c a e) =
    Produced-IsSound b c a (tfb_argmax-Produced tf x d b s) e
Called-IsSound tf b _ s (called_reshape x sh c a e) =
    Produced-IsSound b c a (tfb_reshape-Produced tf x sh b s) e
Called-IsSound tf b _ s (called_cat xs d c a e) =
    Produced-IsSound b c a (tfb_cat-Produced tf xs d b s) e
Called-IsSound tf b _ s (called_gather x i c a e) =
    Produced-IsSound b c a (tfb_gather-Produced tf x i b s) e
Called-IsSound tf b _ s (called_slice x axis from to c a e) =
    Ended-IsSound b c a (tfb_slice-Ended tf x axis from to b s) e
Called-IsSound tf b _ s (called_standardise x n c a e) =
    Ended-IsSound b c a (tfb_standardise-Ended tf x n b s) e
Called-IsSound tf b _ s (called_step w g lr c a e) =
    Ended-IsSound b c a (tfb_step-Ended tf w g lr b s) e

pub Reached-IsSound : (tf : TensorFlow) (b : Backend) → Reached tf b → IsSound b
Reached-IsSound tf _ started = start-IsSound
Reached-IsSound tf _ (one_call b c r k) = Called-IsSound tf b c (Reached-IsSound tf b r) k

unfoldable pub all_live : List TfSlot → List ℕ → Bool
all_live t [] = true
all_live t (h ∷ hs) = live t h && all_live t hs

occurs-uses : (h x : ℕ) (t : List TfSlot) → occurs x (inputs_of (slot t h)) ≤ uses x t
unfolding inputs_of is_node
occurs-uses h x [] = omega arith
occurs-uses zero x (s ∷ t) = omega arith
occurs-uses (suc h) x (s ∷ t) = let a = occurs-uses h x t in omega (arith, a)

read_live : (t : List TfSlot) (x : ℕ) → IsCounted [] t → 0 < uses x t → live t x ≡ true
read_live t x c u = let k = c.counted x in live-InUse t x c (InUse-refs t x c (omega (arith, k, u)))

inputs-all_live :
    (t : List TfSlot) (xs : List ℕ)
    → IsCounted [] t
    → ((x : ℕ) → occurs x xs ≤ uses x t)
    → all_live t xs ≡ true
unfolding all_live
inputs-all_live t [] c u = refl
inputs-all_live t (x ∷ xs) c u =
    rw
      (
        read_live t x c (let a = u x in let b = occurs_self x xs in omega (arith, a, b)),
        inputs-all_live t xs c (λ y. let a = u y in omega (arith, a)),
      )
      refl

-- In every state that the program reaches by these calls, whatever TensorFlow answers, what a node
-- reads is in use.
pub Reached-all_live :
    (tf : TensorFlow) (b : Backend) (h : ℕ)
    → Reached tf b
    → all_live b.slots (inputs_of (slot b.slots h)) ≡ true
Reached-all_live tf b h r =
    let c = (Reached-IsSound tf b r).counted in
    inputs-all_live b.slots (inputs_of (slot b.slots h)) c (λ x. occurs-uses h x b.slots)

-- ===== src/Tensor/Examples.antt =====
-- The theorems on modules/tensorflow/backend.c at a small table, and runs of its operations.
use cocolog.Prelude.{
  ℕ, ◌≡◌, refl, ◌∙◌, inl, true, false, none, some, List, [], ◌∷◌, length, text, arith,
  if◌then◌else◌, ltb,
}
use cocolog.Tensor.Slots.{
  ℤ, pos, negsuc, tf_float, OpSpec, TfSlot, k_value, k_node, no_spec, blank_slot, Backend, slot,
  put_slot, is_free, is_node, tf_slots, empty_slots, live,
}
use cocolog.Tensor.Freeing.{inputs_of, tfb_free}
use cocolog.Tensor.Freeing.Counting.{
  IsTidy, IsCounted, empty_slots-IsCounted, slot-put_slot, slot-put_other, slot-empty_slots,
  length-put_slot, occurs,
}
use cocolog.Tensor.Freeing.Storing.{put_slot-IsCounted}
use cocolog.Tensor.Freeing.Leaving.{Freed}
use cocolog.Tensor.Freeing.Releasing.{tfb_free-Freed}
use cocolog.Tensor.Searching.{IsInRange, Searched, slot_new-Searched}
use cocolog.Tensor.Slots.{slot_new}
use cocolog.Tensor.Recording.{Ruled, ruled}
use cocolog.Tensor.Recording.Runs.{Recording}
use cocolog.Tensor.Rules.{shape_rule, gather_rule, reshape_rule, product, known_sizes, wild_from}
use cocolog.Tensor.Integers.{
  ◌==ℤ◌, ◌*ℤ◌, less_than, quotient, divides, magnitude, with_sign, differ, is_negative, difference,
}
use cocolog.Tensor.Shapes.{bcast, bcast_from, larger, join_sizes, aligned_size}
use cocolog.Tensor.Shapes.Aligned.{ones, padded, broadcast, bcast-broadcast}
use cocolog.Tensor.Closing.{
  empty_closure, visited, visit, visit_all, and_then, is_leaf, has_value, is_value, has, mark,
  add_leaf, add_node,
}
use cocolog.Tensor.Scalars.{same_float, is_nan, no_scalars, keep_scalar, find_scalar}
use cocolog.Tensor.Scalars.Recent.{IsRing, Keeps, recent, remember}
use cocolog.Tensor.Scalars.Ring.{is_found, keep_scalar-Refines}
use cocolog.Tensor.Making.{TensorFlow, tfb_from_doubles}
use cocolog.Tensor.Reaching.{
  start, Reached, started, one_call, called_doubles, called_unary, made_state, Produced-answers,
  Reached-IsSound, all_live, Reached-all_live,
}
use cocolog.Tensor.Making.Temporaries.{IsSound, Produced}
use cocolog.Tensor.Producing.{tfb_unary, tfb_agg, tfb_gather, float_of, exponent_of, rounded_to}
use cocolog.Tensor.Producing.Keeping.{tfb_unary-Produced, tfb_agg-Produced, tfb_gather-Produced}
use cocolog.Tensor.Shuffling.{randperm, float_near, half_even, unit_from, randperm_lem}

-- A matrix of two rows, and a node that reads it twice.
abbrev matrix : TfSlot
matrix = record blank_slot {
  kind = k_value;
  refs = 2;
  eh = some 7;
  shape = pos 2 ∷ pos 3 ∷ [];
  shape_known = true;
  dtype = tf_float;
}

abbrev squared_spec : OpSpec
squared_spec = record no_spec { op = text "Mul"; inputs = 1 ∷ 1 ∷ [] }

abbrev squared : TfSlot
squared = record blank_slot { kind = k_node; spec = squared_spec; dtype = tf_float }

abbrev one_matrix : List TfSlot
one_matrix = put_slot (empty_slots tf_slots) 1 matrix

abbrev pair_slots : List TfSlot
pair_slots = put_slot one_matrix 2 squared

abbrev pair_table : Backend
pair_table = record {
  slots = pair_slots;
  cursor = 3;
  errbuf = [];
  deleted = [];
  stat_rec = 0;
  cache = no_scalars;
}

length-one_matrix : length one_matrix ≡ tf_slots
length-one_matrix = length-put_slot (empty_slots tf_slots) 1 matrix ∙ empty_slots-IsCounted.whole

slot-one : slot pair_slots 1 ≡ matrix
slot-one =
    slot-put_other one_matrix 2 1 squared (omega arith)
    ∙ slot-put_slot (empty_slots tf_slots) 1 matrix
        (let w = empty_slots-IsCounted.whole in omega (arith, w))

matrix-IsTidy : IsTidy matrix
unfolding IsTidy is_free
matrix-IsTidy = (refl, refl)

squared-IsTidy : IsTidy squared
unfolding IsTidy is_free
squared-IsTidy = (refl, refl)

reads_nothing : (k : ℕ) (s : TfSlot) → s ≡ blank_slot → (occurs k (inputs_of s) ≡ 0) × (s.refs ≡ 0)
unfolding inputs_of is_node
reads_nothing k s e = rw e (refl, refl)

slot-empty : slot (empty_slots tf_slots) 1 ≡ blank_slot
slot-empty = slot-empty_slots tf_slots 1

slot-next : slot one_matrix 2 ≡ blank_slot
slot-next =
    slot-put_other (empty_slots tf_slots) 1 2 matrix (omega arith) ∙ slot-empty_slots tf_slots 2

one_matrix-IsCounted : IsCounted (1 ∷ 1 ∷ []) one_matrix
unfolding inputs_of is_node
one_matrix-IsCounted =
    put_slot-IsCounted [] (1 ∷ 1 ∷ []) (empty_slots tf_slots) 1 matrix empty_slots-IsCounted
      (omega arith) (let w = empty_slots-IsCounted.whole in omega (arith, w))
      (λ k n. let e = (reads_nothing k _ slot-empty).0 in ground (arith, n, e))
      (let e = reads_nothing 1 _ slot-empty in
        let a = e.0 in
        let b = e.1 in let c = empty_slots-IsCounted.counted 1 in omega (arith, a, b, c))
      matrix-IsTidy

pair_slots-IsCounted : IsCounted [] pair_slots
unfolding inputs_of is_node
pair_slots-IsCounted =
    put_slot-IsCounted (1 ∷ 1 ∷ []) [] one_matrix 2 squared one_matrix-IsCounted (omega arith)
      (let w = length-one_matrix in omega (arith, w))
      (λ k n. let e = (reads_nothing k _ slot-next).0 in omega (arith, e))
      (let e = reads_nothing 2 _ slot-next in
        let a = e.0 in
        let b = e.1 in let c = one_matrix-IsCounted.counted 2 in omega (arith, a, b, c))
      squared-IsTidy

tfb_free-Freed_example : Freed 2 pair_table (tfb_free 2 pair_table)
tfb_free-Freed_example = tfb_free-Freed 2 pair_table pair_slots-IsCounted

third-IsInRange : IsInRange 3
third-IsInRange = record { above = omega arith; below = omega arith }

slot_new-Searched_example : Searched pair_table (slot_new pair_table)
slot_new-Searched_example = slot_new-Searched pair_table third-IsInRange

-- The rule, where no shape has to be inferred; and the sum of the matrix and its square.
abbrev ask_nothing : OpSpec → Backend → Ruled
ask_nothing = shape_rule (λ b h. none)

abbrev sum_spec : OpSpec
sum_spec = record no_spec { op = text "AddV2"; inputs = 1 ∷ 2 ∷ [] }

-- A table of three slots, in the order in which they were made.
abbrev three_slots : List TfSlot
three_slots = blank_slot ∷ matrix ∷ squared ∷ []

abbrev own_number : ℕ → ℕ
own_number h = h

visit_test :
    visit false three_slots 3 2 empty_closure
    ≡ visited (record { leaves = 1 ∷ []; nodes = 2 ∷ []; seen = 1 ∷ 2 ∷ [] })
unfolding visit visit_all and_then live is_free is_leaf has_value is_value has mark add_leaf
    add_node
visit_test = refl

no_scalars-IsRing : IsRing no_scalars
no_scalars-IsRing = record {
  bounded = omega arith;
  next_inside = omega arith;
  next_below = omega arith;
  at_end = inl refl;
}

keep_scalar-Refines_example :
    Keeps 1065353216 5 no_scalars (keep_scalar 1065353216 5 no_scalars)
    × (is_found (find_scalar 1065353216 (keep_scalar 1065353216 5 no_scalars).0.scalars)
        ≡ is_found (find_scalar 1065353216 (remember 1065353216 5 (recent no_scalars)).0))
keep_scalar-Refines_example =
    keep_scalar-Refines 1065353216 5 1065353216 no_scalars no_scalars-IsRing

zeros_test : same_float 0 2147483648 ≡ true
unfolding same_float is_nan
zeros_test = refl

abbrev column : List ℤ
column = pos 2 ∷ pos 1 ∷ []

abbrev row : List ℤ
row = pos 3 ∷ []

bcast-broadcast_example :
    bcast column row
    ≡ broadcast
        (padded (larger (length column) (length row)) column)
        (padded (larger (length column) (length row)) row)
bcast-broadcast_example = bcast-broadcast column row refl refl

bcast_test : bcast column row ≡ some (pos 2 ∷ pos 3 ∷ [])
unfolding bcast bcast_from larger join_sizes aligned_size ◌==ℤ◌ less_than
bcast_test = refl

-- A size of 0 against 1.
empty_test : bcast (pos 0 ∷ []) (pos 1 ∷ []) ≡ some (pos 1 ∷ [])
unfolding bcast bcast_from larger join_sizes aligned_size ◌==ℤ◌ less_than
empty_test = refl

-- More sizes than a slot has room for.
gather_test : gather_rule (ones 8) (ones 8) ≡ ruled (ones 15)
unfolding gather_rule
gather_test = refl

reshape_test :
    reshape_rule (pos 3 ∷ negsuc 0 ∷ []) (pos 2 ∷ pos 6 ∷ []) ≡ ruled (pos 3 ∷ pos 4 ∷ [])
unfolding reshape_rule product known_sizes wild_from quotient divides magnitude with_sign differ
    is_negative ◌*ℤ◌ ◌==ℤ◌
reshape_test = refl

negative_test :
    reshape_rule (negsuc 1 ∷ negsuc 2 ∷ []) (pos 6 ∷ []) ≡ ruled (negsuc 1 ∷ negsuc 2 ∷ [])
unfolding difference reshape_rule product known_sizes wild_from quotient divides magnitude with_sign
    differ is_negative ◌*ℤ◌ ◌==ℤ◌
negative_test = refl

-- The first whole numbers that are no floats, half way between two.
float_near_rounds : (float_near 16777217 ≡ 16777216) × (float_near 16777219 ≡ 16777220)
unfolding float_near half_even unit_from
float_near_rounds = (refl, refl)

randperm_lem_example :
    (length (randperm 1234 1 5) ≡ 5) × (occurs 3 (randperm 1234 1 5) ≡ (if ltb 3 5 then 1 else 0))
randperm_lem_example = randperm_lem 1234 1 5 3 (omega arith)

-- A TensorFlow that makes every tensor, with one handle, and copies none to a device.
abbrev willing : TensorFlow
willing = record {
  new_tensor = λ b. some 9;
  share = λ e b. some 10;
  place = λ e. none;
  infer_leaf = λ b h. none;
  infer_node = λ p b. none;
  message = λ b. [];
}

pair_table-IsSound : IsSound pair_table
pair_table-IsSound = record { in_range = third-IsInRange; counted = pair_slots-IsCounted }

tfb_agg-Produced_example : Produced pair_table (tfb_agg willing (text "std") 1 pair_table)
tfb_agg-Produced_example = tfb_agg-Produced willing (text "std") 1 pair_table pair_table-IsSound

tfb_gather-Produced_example : Produced pair_table (tfb_gather willing 1 2 pair_table)
tfb_gather-Produced_example = tfb_gather-Produced willing 1 2 pair_table pair_table-IsSound

-- 5 and 2 ^ 24 + 1 as floats; the second is rounded to even.
float_test : (float_of 5 ≡ 1084227584) × (float_of 16777217 ≡ 1266679808)
unfolding float_of exponent_of rounded_to
float_test = (refl, refl)

-- The program makes a matrix and asks for its negation, which is a node.
abbrev first_state : Backend
first_state = (tfb_from_doubles willing (pos 2 ∷ pos 3 ∷ []) start).1

first-Reached : Reached willing first_state
first-Reached =
    one_call start first_state started (called_doubles (pos 2 ∷ pos 3 ∷ []) first_state _ refl)

abbrev second_state : Backend
second_state = made_state first_state (tfb_unary willing (text "neg") 1 first_state)

second-Reached : Reached willing second_state
second-Reached =
    let a = Produced-answers first_state (
      tfb_unary-Produced willing (text "neg") 1 first_state
        (Reached-IsSound willing first_state first-Reached)) in
    one_call first_state second_state first-Reached
      (called_unary (text "neg") 1 second_state a.0 a.1)

Reached-all_live_example :
    all_live second_state.slots (inputs_of (slot second_state.slots 2)) ≡ true
Reached-all_live_example = Reached-all_live willing second_state 2 second-Reached

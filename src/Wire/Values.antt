-- ===== src/Wire/Values.antt =====
-- The primitives as conversations.
use Prim.Native.Nat.{◌%◌, ◌^◌}
use cocolog.Prelude.{
  ℕ, zero, suc, ◌+◌, ◌-◌, ◌≤◌, ◌<◌, ◌≡◌, refl, sym, ap, List, [], ◌∷◌, ◌++◌, append-nil, arith,
  length, take, drop, length-take, length-drop, take-append-drop, ltb-true, ltb-false, min,
}
use cocolog.State.{ok, pure}
use cocolog.Errors.{say}
use cocolog.Socket.{rd, skip, skip_loop}
use cocolog.Order.{be_bytes}
use cocolog.Order.Bytes.{length-be_bytes, reorder-in_memory, from_memory-reorder}
use cocolog.Exchange.{
  Talks, Refuses, Talks-pure, Talks-bind, Talks-rd, Talks-wr, Refuses-say, Refuses-bind, Talks-cast,
  Refuses-cast,
}
use cocolog.Wire.{
  received, rd_be, wr_be, first_byte, rd_u8, wr_u8, wr_u16, wr_if_any, rd_if_any, answer_too_long,
  wr_std_string, wr_std_text, rd_into, rd_std_string, max_string, max_text,
}

received-be : (n v : ℕ) → v < 256 ^ n → Talks (received (be_bytes n v)) [] [] v
unfolding received
received-be n v h = record {
  on = λ s rest ready e. record {
    post = s;
    runs = ap (λ (x : ℕ). ok x s) (from_memory-reorder s.world.big_endian n v h);
    reading = e;
    stream = sym (append-nil _);
    ready = ready;
    same = refl;
  };
}

pub Talks-rd_n : (n : ℕ) (bs : List ℕ) → length bs ≡ n → Talks (rd n) [] bs bs
Talks-rd_n n bs e = rw (← e) (Talks-rd bs)

pub Talks-rd_be : (n v : ℕ) → v < 256 ^ n → Talks (rd_be n) [] (be_bytes n v) v
unfolding rd_be
Talks-rd_be n v h =
    Talks-cast refl (append-nil _) refl
      (Talks-bind received (Talks-rd_n n (be_bytes n v) (length-be_bytes n v)) (received-be n v h))

pub Talks-wr_be : (n v : ℕ) → n ≤ 16 → Talks (wr_be n v) (be_bytes n v) [] tt
unfolding wr_be
Talks-wr_be n v h = record {
  on = λ s rest ready e.
      rw (ltb-false 16 n h, reorder-in_memory) ((Talks-wr (be_bytes n v)).on s rest ready e);
}

pub Talks-rd_u8 : (b : ℕ) → Talks rd_u8 [] (b ∷ []) b
unfolding rd_u8 first_byte
Talks-rd_u8 b = Talks-bind (λ bs. pure (first_byte bs)) (Talks-rd (b ∷ [])) (Talks-pure b)

pub Talks-wr_u8 : (v : ℕ) → v < 256 → Talks (wr_u8 v) (v ∷ []) [] tt
unfolding wr_u8
Talks-wr_u8 v h = rw mod_small (Talks-wr (v ∷ []))
  where
    mod_small : v % 256 ≡ v
    mod_small = omega arith

pub Talks-wr_if_any : (s : List ℕ) → Talks (wr_if_any s) s [] tt
unfolding wr_if_any
Talks-wr_if_any [] = Talks-pure tt
Talks-wr_if_any (c ∷ cs) = Talks-wr (c ∷ cs)

pub Talks-rd_if_any : (bs : List ℕ) → Talks (rd_if_any (length bs)) [] bs bs
unfolding rd_if_any
Talks-rd_if_any [] = Talks-pure []
Talks-rd_if_any (b ∷ bs) = Talks-rd (b ∷ bs)

-- A String on the wire, and a Text.
unfoldable pub string_bytes : List ℕ → List ℕ
string_bytes s = length s ∷ s

unfoldable pub text_bytes : List ℕ → List ℕ
text_bytes s = be_bytes 2 (length s) ++ s

pub Talks-wr_std_string :
    (s : List ℕ) → length s ≤ max_string → Talks (wr_std_string s) (string_bytes s) [] tt
unfolding wr_std_string string_bytes
Talks-wr_std_string s h =
    rw (ltb-false max_string (length s) h)
      (Talks-bind (λ _. wr_if_any s) (Talks-wr_u8 (length s) (omega arith)) (Talks-wr_if_any s))

pub Talks-wr_std_text :
    (s : List ℕ) → length s ≤ max_text → Talks (wr_std_text s) (text_bytes s) [] tt
unfolding wr_std_text wr_u16 text_bytes
Talks-wr_std_text s h =
    rw (ltb-false max_text (length s) h, low)
      (Talks-bind (λ _. wr_if_any s) (Talks-wr_be 2 (length s) (omega arith)) (Talks-wr_if_any s))
  where
    low : length s % 65536 ≡ length s
    low = omega arith

-- `skip` passes over exactly the bytes that it is told to, in however many pails.
Talks-skip_loop :
    (fuel n : ℕ) (bs : List ℕ) → length bs ≡ n → n ≤ fuel → Talks (skip_loop fuel n) [] bs tt
unfolding skip_loop
Talks-skip_loop zero zero [] e h = Talks-pure tt
Talks-skip_loop (suc fuel) zero [] e h = Talks-pure tt
Talks-skip_loop fuel zero (b ∷ bs) e h = absurd (omega arith)
Talks-skip_loop zero (suc n) bs e h = absurd (omega arith)
Talks-skip_loop (suc fuel) (suc n) bs e h =
    let pail = min (suc n) 512 in
    Talks-cast refl (take-append-drop pail bs) refl (
      Talks-bind (λ _. skip_loop fuel (suc n - pail))
        (Talks-rd_n pail (take pail bs) (omega (arith, length-take pail bs)))
        (Talks-skip_loop fuel (suc n - pail) (drop pail bs) (omega (arith, length-drop pail bs))
          (omega arith)))

pub Talks-skip : (n : ℕ) (bs : List ℕ) → length bs ≡ n → Talks (skip n) [] bs tt
unfolding skip
Talks-skip n bs e = Talks-skip_loop n n bs e (omega arith)

-- A value with its terminator fits, and is read.
pub Talks-rd_into :
    (m : List ℕ) (room : ℕ) (bs : List ℕ)
    → length bs < room
    → Talks (rd_into m room (length bs)) [] bs bs
unfolding rd_into
Talks-rd_into m room bs h = rw (ltb-false room (length bs + 1) (omega arith)) (Talks-rd_if_any bs)

-- It does not fit, and is passed over whole: the complaint leaves the stream in step.
pub Refuses-rd_into :
    (m : List ℕ) (room : ℕ) (bs : List ℕ)
    → room ≤ length bs
    → Refuses (rd_into m room (length bs)) [] bs m
unfolding rd_into
Refuses-rd_into m room bs h = rw (ltb-true room (length bs + 1) (omega arith)) (
    Refuses-cast refl (append-nil bs)
      (Refuses-bind (λ _. say m) (Talks-skip (length bs) bs refl) (Refuses-say m)))

pub Talks-rd_std_string :
    (room : ℕ) (s : List ℕ) → length s < room → Talks (rd_std_string room) [] (string_bytes s) s
unfolding rd_std_string string_bytes
Talks-rd_std_string room s h =
    Talks-bind (rd_into answer_too_long room) (Talks-rd_u8 (length s))
      (Talks-rd_into answer_too_long room s h)

pub Refuses-rd_std_string :
    (room : ℕ) (s : List ℕ)
    → room ≤ length s
    → Refuses (rd_std_string room) [] (string_bytes s) answer_too_long
unfolding rd_std_string string_bytes
Refuses-rd_std_string room s h =
    Refuses-bind (rd_into answer_too_long room) (Talks-rd_u8 (length s))
      (Refuses-rd_into answer_too_long room s h)

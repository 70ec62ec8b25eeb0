-- ===== src/Tensor/Making/Values.antt =====
-- What a new value of modules/tensorflow/backend.c leaves.
use cocolog.Prelude.{
  ℕ, ◌<◌, ◌≡◌, refl, sym, ap, ◌∙◌, true, false, Option, none, some, List, [], length, arith,
}
use cocolog.Tensor.Slots.{
  ℤ, DataType, TfSlot, blank_slot, Backend, slot, put_slot, is_free, is_node,
}
use cocolog.Tensor.Freeing.{inputs_of}
use cocolog.Tensor.Freeing.Counting.{slot-put_slot, IsTidy, IsCounted}
use cocolog.Tensor.Freeing.Storing.{view, view-put_slot, put_slot-IsCounted}
use cocolog.Tensor.Freeing.Unref.{inputs_of-blank_slot}
use cocolog.Tensor.Freeing.Leaving.{view-put_other}
use cocolog.Tensor.Searching.{IsInRange}
use cocolog.Tensor.Recording.Runs.{
  view-exists, blank_free-IsCounted, view-blank_free, free-exists, exists_at, free-face,
}
use cocolog.Tensor.Making.{value_slot, constant_slot, unmade_slot}
use cocolog.Tensor.Making.Temporaries.{Produced, produced, unproduced}

-- A slot that nothing reads, and that reads nothing.
pub record IsAlone (s : TfSlot) : Type 0 where
  pub unread : s.refs ≡ 0
  pub reads_nothing : inputs_of s ≡ []
  pub unreleased : s.released ≡ false

IsAlone-IsTidy : (s : TfSlot) → IsAlone s → is_free s.kind ≡ false → IsTidy s
unfolding IsTidy
IsAlone-IsTidy s a f = rw (f, a.unreleased) (refl, refl)

IsAlone-IsTidy_free : (s : TfSlot) → IsAlone s → is_free s.kind ≡ true → IsTidy s
unfolding IsTidy
IsAlone-IsTidy_free s a f = rw (f, a.unread) (refl, refl)

-- The table after `slot_new`, with a slot of that kind in the new place.
alone-IsCounted :
    (t : List TfSlot) (h : ℕ) (s : TfSlot)
    → IsCounted [] t
    → IsInRange h
    → slot t h ≡ blank_slot
    → IsAlone s
    → IsTidy s
    → IsCounted [] (put_slot t h s)
alone-IsCounted t h s c i b a d =
    let w = c.whole in
    let q = i.below in
    let r = ap (λ (x : TfSlot). x.refs) b in
    let z = a.unread in
    let u = c.counted h in
    put_slot-IsCounted [] [] t h s c i.above (omega (arith, w, q))
      (λ k n. rw (a.reads_nothing, b, inputs_of-blank_slot) refl)
      (rw (a.reads_nothing, b, inputs_of-blank_slot) (omega (arith, r, z, u))) d

-- A place that is free in `b` and blank in `t`, where the two are otherwise the same.
pub record IsFresh (h : ℕ) (b : Backend) (t : List TfSlot) : Type 0 where
  pub counts : IsCounted [] t
  pub in_range : IsInRange h
  pub is_blank : slot t h ≡ blank_slot
  pub same : (k : ℕ) → view t k ≡ view b.slots k

blank_face : (s : TfSlot) → s ≡ blank_slot → is_free s.kind ≡ true
unfolding is_free
blank_face s e = ap (λ (x : TfSlot). is_free x.kind) e

fresh-inside : (h : ℕ) (b : Backend) (t : List TfSlot) → IsFresh h b t → h < length t
fresh-inside h b t f = let w = f.counts.whole in let q = f.in_range.below in omega (arith, w, q)

pub value-Produced :
    (h : ℕ) (b c : Backend) (t : List TfSlot) (s : TfSlot)
    → IsFresh h b t
    → IsInRange c.cursor
    → c.slots ≡ put_slot t h s
    → IsAlone s
    → is_free s.kind ≡ false
    → Produced b (some (some h, c))
value-Produced h b c t s f i e a k =
    produced h c
      (record {
        in_range = i;
        counted =
            rw e (alone-IsCounted t h s f.counts f.in_range f.is_blank a (IsAlone-IsTidy s a k));
      })
      (sym (view-exists b.slots t h (f.same h))
        ∙ free-exists t h (blank_face (slot t h) f.is_blank))
      (rw e (
        exists_at (put_slot t h s) h f.in_range
          (ap (λ (x : TfSlot). is_free x.kind) (slot-put_slot t h s (fresh-inside h b t f)) ∙ k)
          (ap (λ (x : TfSlot). x.released) (slot-put_slot t h s (fresh-inside h b t f))
            ∙ a.unreleased)))
      (λ j n. rw e (view-put_other t h j s n ∙ f.same j))

pub free-Produced :
    (h : ℕ) (b c : Backend) (t : List TfSlot) (s : TfSlot)
    → IsFresh h b t
    → IsInRange c.cursor
    → c.slots ≡ put_slot t h s
    → IsAlone s
    → is_free s.kind ≡ true
    → Produced b (some (none, c))
free-Produced h b c t s f i e a k =
    unproduced c
      (record {
        in_range = i;
        counted =
            rw e
              (alone-IsCounted t h s f.counts f.in_range f.is_blank a (IsAlone-IsTidy_free s a k));
      })
      (λ j. rw e (
        view-put_slot t h j s
          (free-face s k ∙ sym (free-face (slot t h) (blank_face (slot t h) f.is_blank)))
        ∙ f.same j))

pub value_slot-IsAlone :
    (eh : Option ℕ) (val : Option (List ℤ)) (sh : List ℤ) (d : DataType)
    → IsAlone (value_slot eh val sh d)
unfolding value_slot inputs_of is_node
value_slot-IsAlone eh val sh d = record { unread = refl; reads_nothing = refl; unreleased = refl }

pub value_slot-taken :
    (eh : Option ℕ) (val : Option (List ℤ)) (sh : List ℤ) (d : DataType)
    → is_free (value_slot eh val sh d).kind ≡ false
unfolding value_slot is_free
value_slot-taken eh val sh d = refl

pub constant_slot-IsAlone :
    (e : ℕ) (v sh : List ℤ) (d : DataType) → IsAlone (constant_slot e v sh d)
unfolding constant_slot value_slot inputs_of is_node
constant_slot-IsAlone e v sh d = record { unread = refl; reads_nothing = refl; unreleased = refl }

pub constant_slot-taken :
    (e : ℕ) (v sh : List ℤ) (d : DataType) → is_free (constant_slot e v sh d).kind ≡ false
unfolding constant_slot value_slot is_free
constant_slot-taken e v sh d = refl

pub unmade_slot-IsAlone : (sh : List ℤ) (d : DataType) → IsAlone (unmade_slot sh d)
unfolding unmade_slot value_slot inputs_of is_node
unmade_slot-IsAlone sh d = record { unread = refl; reads_nothing = refl; unreleased = refl }

pub unmade_slot-free : (sh : List ℤ) (d : DataType) → is_free (unmade_slot sh d).kind ≡ true
unfolding unmade_slot value_slot is_free
unmade_slot-free sh d = refl

pub found-IsFresh :
    (h : ℕ) (b : Backend)
    → IsCounted [] b.slots
    → IsInRange h
    → is_free (slot b.slots h).kind ≡ true
    → IsFresh h b (put_slot b.slots h blank_slot)
found-IsFresh h b c i f =
    let w = c.whole in
    let q = i.below in
    record {
      counts = blank_free-IsCounted b.slots h c i f;
      in_range = i;
      is_blank = slot-put_slot b.slots h blank_slot (omega (arith, w, q));
      same = λ k. view-blank_free b.slots h k f;
    }

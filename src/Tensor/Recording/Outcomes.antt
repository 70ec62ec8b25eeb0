-- ===== src/Tensor/Recording/Outcomes.antt =====
-- Every outcome of `run_spec_` under graph mode, in modules/tensorflow/backend.c.
use cocolog.Prelude.{
  ℕ, ◌-◌, ◌<◌, ◌≡◌, ◌≢◌, refl, sym, ap, ◌∙◌, true, ◌&&◌, Option, none, some, List, [], length,
  if◌then◌else◌, arith, inl, inr, Bool-cases, eq_cases, ltb,
}
use cocolog.Tensor.Slots.{
  TfSlot, blank_slot, Backend, slot, put_slot, is_free, tfb_exists, tf_slots, with_slots, slot_new,
  fail_with,
}
use cocolog.Tensor.Freeing.{with_refs, unref}
use cocolog.Tensor.Freeing.Counting.{
  occurs, length-put_slot, slot-put_slot, slot-put_other, IsCounted,
}
use cocolog.Tensor.Freeing.Storing.{view, face}
use cocolog.Tensor.Slots.{ℤ, OpSpec}
use cocolog.Tensor.Freeing.Storing.{view-face}
use cocolog.Tensor.Freeing.Leaving.{view-put_other}
use cocolog.Tensor.Searching.{IsInRange, Searched, found, full, slot_new-Searched}
use cocolog.Tensor.Recording.{
  Ruled, ruled, against, unruled, all_exist, recorded_slots, shaped_slot, freed_slot, undo_record,
  after_rule, record_node, run_spec_graph,
}
use cocolog.Tensor.Recording.References.{Alike, Alike-refl, Alike-IsCounted}
use cocolog.Tensor.Recording.Undoing.{LetGo, LetGo-at, went, unref_all-LetGo}
use cocolog.Tensor.Recording.Contents.{IsNode, recorded_slots-IsNode}
use cocolog.Tensor.Recording.Tables.{
  view-recorded_slots, slot-undone, Alike-undone, Alike-put_slot, shaped_slot-Alike,
}
use cocolog.Tensor.Recording.Runs.{
  Recording, recorded, unrecorded, Unmade, missing, no_slot, ruled_out, shapeless, Unmade, missing,
  no_slot, ruled_out, IsReady, ready_below, ready_inside, ready-IsCounted, exists-recorded,
  exists-kept, free-exists, view-exists, all_exist_mono, view-blank_free, blank_free-IsCounted,
}

unfoldable undone_slots : List TfSlot → ℕ → List TfSlot
undone_slots u h = put_slot u h (freed_slot (slot u h))

undone-Alike :
    (p : OpSpec) (h k : ℕ) (t u : List TfSlot)
    → IsReady p h t
    → ((k : ℕ)
        → slot u k
          ≡ with_refs
              ((slot (recorded_slots p h t) k).refs - occurs k p.inputs)
              (slot (recorded_slots p h t) k))
    → h < length u
    → Alike (slot t k) (slot (undone_slots u h) k)
unfolding undone_slots
undone-Alike p h k t u r e l = elim (eq_cases k h) [
  | inl same ↦
      rw (same, slot-put_slot u h (freed_slot (slot u h)) l, r.is_blank)
        (Alike-undone p h t u r.is_blank (ready_inside p h t r) (ready_below p h t r) e)
  | inr other ↦ rw (slot-undone p h k t u (ready_below p h t r) e other) (Alike-refl _)
]

other_undone :
    (p : OpSpec) (h k : ℕ) (t u : List TfSlot)
    → IsReady p h t
    → ((k : ℕ)
        → slot u k
          ≡ with_refs
              ((slot (recorded_slots p h t) k).refs - occurs k p.inputs)
              (slot (recorded_slots p h t) k))
    → k ≢ h
    → slot (undone_slots u h) k ≡ slot t k
unfolding undone_slots
other_undone p h k t u r e n = slot-undone p h k t u (ready_below p h t r) e n

blank-free : (t : List TfSlot) (h : ℕ) → slot t h ≡ blank_slot → is_free (slot t h).kind ≡ true
unfolding is_free
blank-free t h b = ap (λ (s : TfSlot). is_free s.kind) b

free_view : (t : List TfSlot) (k : ℕ) → is_free (slot t k).kind ≡ true → view t k ≡ none
unfolding view
free_view t k f = rw (free-exists t k f) refl

-- The program sees the table as it was.
undone-view :
    (p : OpSpec) (h k : ℕ) (t u : List TfSlot)
    → IsReady p h t
    → ((k : ℕ)
        → slot u k
          ≡ with_refs
              ((slot (recorded_slots p h t) k).refs - occurs k p.inputs)
              (slot (recorded_slots p h t) k))
    → h < length u
    → view (undone_slots u h) k ≡ view t k
undone-view p h k t u r e l = elim (eq_cases k h) [
  | inl same ↦ rw same (
      free_view (undone_slots u h) h
        (ap is_free (undone-Alike p h h t u r e l).same_kind ∙ blank-free t h r.is_blank)
      ∙ sym (free_view t h (blank-free t h r.is_blank)))
  | inr other ↦
      view-face (undone_slots u h) k
      ∙ ap (λ (s : TfSlot). if ltb 0 k && ltb k tf_slots then face s else none)
          (other_undone p h k t u r e other)
      ∙ sym (view-face t k)
]

length-undone : (u : List TfSlot) (h : ℕ) → length (undone_slots u h) ≡ length u
unfolding undone_slots
length-undone u h = length-put_slot u h _

undone-IsCounted :
    (p : OpSpec) (h : ℕ) (t u : List TfSlot)
    → IsReady p h t
    → ((k : ℕ)
        → slot u k
          ≡ with_refs
              ((slot (recorded_slots p h t) k).refs - occurs k p.inputs)
              (slot (recorded_slots p h t) k))
    → length u ≡ length t
    → IsCounted [] (undone_slots u h)
undone-IsCounted p h t u r e l =
    let i = ready_inside p h t r in
    Alike-IsCounted t (undone_slots u h) (length-undone u h ∙ l)
      (λ k. undone-Alike p h k t u r e (omega (arith, i, l))) r.counts

undone-Recording :
    {rule : OpSpec → Backend → Ruled} {r : Option Backend} {n : ℕ} (p : OpSpec) (h : ℕ)
    (b : Backend) (t : List TfSlot)
    → Unmade rule p b
    → IsReady p h t
    → ((k : ℕ) → view t k ≡ view b.slots k)
    → IsInRange n
    → LetGo p.inputs n (recorded_slots p h t) r
    → Recording rule p b (undo_record h r)
unfolding undone_slots undo_record
undone-Recording p h b t y i v j (went d q n e) =
    let w = ready-IsCounted p h t i in
    let l = n ∙ w.whole ∙ sym i.counts.whole in
    let z = ready_inside p h t i in
    unrecorded _ y (rw q j) (undone-IsCounted p h t d.slots i e l)
      (λ k. undone-view p h k t d.slots i e (omega (arith, l, z)) ∙ v k)

pub exists-Alike :
    (t u : List TfSlot) (h : ℕ) → Alike (slot t h) (slot u h) → tfb_exists u h ≡ tfb_exists t h
unfolding tfb_exists
exists-Alike t u h a = rw (a.same_kind, a.same_released) refl

shaped_at :
    (sh : List ℤ) (t : List TfSlot) (h k : ℕ) → h ≡ k → Alike (slot t k) (shaped_slot sh (slot t h))
shaped_at sh t h k e = rw e (shaped_slot-Alike sh (slot t k))

-- The new handle stands.
stands-Recording :
    {rule : OpSpec → Backend → Ruled} (p : OpSpec) (h : ℕ) (b : Backend) (t u : List TfSlot)
    (c : Backend)
    → IsReady p h t
    → ((k : ℕ) → view t k ≡ view b.slots k)
    → IsInRange c.cursor
    → c.slots ≡ u
    → length u ≡ length t
    → ((k : ℕ) → Alike (slot (recorded_slots p h t) k) (slot u k))
    → ((k : ℕ) → k ≢ h → view u k ≡ view (recorded_slots p h t) k)
    → IsNode rule p b.slots (slot u h)
    → Recording rule p b (some (some h, c))
stands-Recording p h b t u c i v n s l a o d =
    let w = ready-IsCounted p h t i in
    let here = exists-recorded p h t i in
    recorded h c n
      (rw s (Alike-IsCounted (recorded_slots p h t) u (l ∙ i.counts.whole ∙ sym w.whole) a w))
      (sym (view-exists b.slots t h (v h)) ∙ free-exists t h (blank-free t h i.is_blank))
      (rw s (exists-Alike (recorded_slots p h t) u h (a h) ∙ here))
      (λ k m. rw s (o k m ∙ view-recorded_slots p h k t (ready_below p h t i) m ∙ v k)) (rw s d)

cursor-fail_with : (m : List ℕ) (c : Backend) → (fail_with m c).cursor ≡ c.cursor
unfolding fail_with
cursor-fail_with m c = refl

slots-fail_with : (m : List ℕ) (c : Backend) → (fail_with m c).slots ≡ c.slots
unfolding fail_with
slots-fail_with m c = refl

unref-LetGo :
    (xs : List ℕ) (b : Backend) (t : List TfSlot)
    → b.slots ≡ t
    → length t ≡ tf_slots
    → all_exist t xs ≡ true
    → LetGo xs b.cursor t (unref xs b)
unfolding unref
unref-LetGo xs b t s w e = LetGo-at refl s (unref_all-LetGo _ xs b (omega arith) (rw s w) (rw s e))

after_rule-Recording :
    {rule : OpSpec → Backend → Ruled} (a : Ruled) (p : OpSpec) (h : ℕ) (b c : Backend)
    (t : List TfSlot)
    → rule p c ≡ a
    → IsReady p h t
    → ((k : ℕ) → view t k ≡ view b.slots k)
    → c.slots ≡ recorded_slots p h t
    → IsInRange c.cursor
    → ((k : ℕ) → k ≢ h → slot t k ≡ slot b.slots k)
    → Recording rule p b (after_rule p h a c)
unfolding after_rule with_slots
after_rule-Recording {rule = rule} (ruled sh) p h b c t y i v s j o =
    let w = ready-IsCounted p h t i in
    stands-Recording p h b t
      (put_slot (recorded_slots p h t) h (shaped_slot sh (slot (recorded_slots p h t) h))) _ i v j
      (rw s refl) (length-put_slot (recorded_slots p h t) h _ ∙ w.whole ∙ sym i.counts.whole)
      (λ k.
        Alike-put_slot (recorded_slots p h t) h k _ _ (Alike-refl _)
          (λ e. shaped_at sh (recorded_slots p h t) h k e))
      (λ k m. view-put_other (recorded_slots p h t) h k _ m)
      (rw
        (slot-put_slot (recorded_slots p h t) h (shaped_slot sh (slot (recorded_slots p h t) h)) (
          let q = ready_inside p h t i in
          let r = i.counts.whole in let m = w.whole in omega (arith, q, r, m)))
        (recorded_slots-IsNode rule p h t b.slots sh c y i.is_blank i.in_range.above
          (ready_inside p h t i) (free-exists t h (blank-free t h i.is_blank)) i.there
          (ready_below p h t i) o))
after_rule-Recording (against m) p h b c t y i v s j o =
    undone-Recording p h b t (ruled_out c m y) i v (rw (cursor-fail_with m c) j) (
      unref-LetGo p.inputs (fail_with m c) (recorded_slots p h t) (slots-fail_with m c ∙ s)
        (ready-IsCounted p h t i).whole
        (all_exist_mono t (recorded_slots p h t) p.inputs (λ k e. exists-kept p h k t i e) i.there))
after_rule-Recording unruled p h b c t y i v s j o =
    undone-Recording p h b t (shapeless c y) i v j (
      unref-LetGo p.inputs c (recorded_slots p h t) s (ready-IsCounted p h t i).whole
        (all_exist_mono t (recorded_slots p h t) p.inputs (λ k e. exists-kept p h k t i e) i.there))

record_node-Recording :
    (rule : OpSpec → Backend → Ruled) (p : OpSpec) (h : ℕ) (b c : Backend) (t : List TfSlot)
    → IsReady p h t
    → ((k : ℕ) → view t k ≡ view b.slots k)
    → c.slots ≡ t
    → IsInRange c.cursor
    → ((k : ℕ) → k ≢ h → slot t k ≡ slot b.slots k)
    → Recording rule p b (record_node rule p h c)
unfolding record_node
record_node-Recording rule p h b c t i v s j o =
    after_rule-Recording (rule p _) p h b _ t refl i v (ap (recorded_slots p h) s) j o

all_exist-view :
    (t u : List TfSlot) (xs : List ℕ)
    → ((k : ℕ) → view u k ≡ view t k)
    → all_exist t xs ≡ true
    → all_exist u xs ≡ true
all_exist-view t u xs v e = all_exist_mono t u xs (λ k q. view-exists t u k (v k) ∙ q) e

pub run_spec_graph-Recording :
    (rule : OpSpec → Backend → Ruled) (p : OpSpec) (b : Backend)
    → IsCounted [] b.slots
    → IsInRange b.cursor
    → Recording rule p b (run_spec_graph rule p b)
unfolding run_spec_graph
run_spec_graph-Recording rule p b c i = elim (Bool-cases (all_exist b.slots p.inputs)) [
  | inr g ↦ rw g (
      unrecorded _ (missing g) (rw (cursor-fail_with _ b) i) (rw (slots-fail_with _ b) c)
        (λ k. rw (slots-fail_with _ b) refl))
  | inl e ↦ rw e (searched (slot_new b) (slot_new-Searched b i) e)
]
  where
    searched :
        (r : Option ℕ × Backend)
        → Searched b r
        → all_exist b.slots p.inputs ≡ true
        → Recording rule p b
            (elim r.0 [ none ↦ some (none, r.1) | some h ↦ record_node rule p h r.1 ])
    searched _ (full d s q f) e = unrecorded d (no_slot f) q (rw s c) (λ k. rw s refl)
    searched _ (found h d r f s m) e =
        let v : (k : ℕ) → view (put_slot b.slots h blank_slot) k ≡ view b.slots k =
          λ k. view-blank_free b.slots h k f in
        let w = c.whole in
        let q = r.below in
        record_node-Recording rule p h b d (put_slot b.slots h blank_slot)
          (record {
            counts = blank_free-IsCounted b.slots h c r f;
            in_range = r;
            is_blank = slot-put_slot b.slots h blank_slot (omega (arith, w, q));
            there = all_exist-view b.slots (put_slot b.slots h blank_slot) p.inputs v e;
          })
          v s m (λ k n. slot-put_other b.slots h k blank_slot n)

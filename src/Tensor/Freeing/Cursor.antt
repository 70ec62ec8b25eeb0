-- ===== src/Tensor/Freeing/Cursor.antt =====
-- Letting tensors go, in modules/tensorflow/backend.c, does not move the cursor of `slot_new`.
use cocolog.Prelude.{
  ℕ, zero, suc, ◌≡◌, refl, sym, ◌∙◌, Bool, true, false, Option, none, some, List, [], ◌∷◌, ◌++◌,
  if◌then◌else◌,
}
use cocolog.Tensor.Slots.{Backend, slot, live, is_node, with_slots}
use cocolog.Tensor.Freeing.{
  inputs_of, delete_handle, clear_slot, drop_ref, is_over, unref_all, unref, release, really_free,
  drop_value,
}

-- If there is a state, its cursor is `n`.
pub data Steady (n : ℕ) : Option Backend → Type 0 where
  steady : (c : Backend) → c.cursor ≡ n → Steady n (some c)
  no_state : Steady n none

Steady-if :
    {n : ℕ} (b : Bool) {r q : Option Backend}
    → Steady n r
    → Steady n q
    → Steady n (if b then r else q)
Steady-if true s t = s
Steady-if false s t = t

Steady-at : {m n : ℕ} {r : Option Backend} → m ≡ n → Steady m r → Steady n r
Steady-at e s = rw (sym e) s

pub cursor-delete_handle : (o : Option ℕ) (b : Backend) → (delete_handle o b).cursor ≡ b.cursor
unfolding delete_handle
cursor-delete_handle none b = refl
cursor-delete_handle (some e) b = refl

cursor-clear_slot : (h : ℕ) (b : Backend) → (clear_slot h b).cursor ≡ b.cursor
unfolding clear_slot with_slots
cursor-clear_slot h b = cursor-delete_handle (slot b.slots h).eh b

cursor-drop_ref : (h : ℕ) (b : Backend) → (drop_ref h b).cursor ≡ b.cursor
unfolding drop_ref with_slots
cursor-drop_ref h b = refl

pub unref_all-Steady :
    (fuel : ℕ) (hs : List ℕ) (b : Backend) → Steady b.cursor (unref_all fuel hs b)
unfolding unref_all
unref_all-Steady fuel [] b = steady b refl
unref_all-Steady zero (h ∷ hs) b = no_state
unref_all-Steady (suc fuel) (h ∷ hs) b =
    let c = drop_ref h b in
    Steady-if (live b.slots h)
      (Steady-if (is_over (slot c.slots h))
        (Steady-at (cursor-clear_slot h c ∙ cursor-drop_ref h b)
          (unref_all-Steady fuel (inputs_of (slot c.slots h) ++ hs) (clear_slot h c)))
        (Steady-at (cursor-drop_ref h b) (unref_all-Steady fuel hs c)))
      (unref_all-Steady fuel hs b)

cursor-release : (h : ℕ) (b : Backend) → (release h b).cursor ≡ b.cursor
unfolding release with_slots
cursor-release h b = refl

pub really_free-Steady : (h : ℕ) (b : Backend) → Steady b.cursor (really_free h (release h b))
unfolding really_free unref
really_free-Steady h b =
    Steady-at (cursor-clear_slot h (release h b) ∙ cursor-release h b) (unref_all-Steady _ _ _)

cursor_if :
    (a : Bool) (b c : Backend) → b.cursor ≡ c.cursor → (if a then b else c).cursor ≡ c.cursor
cursor_if true b c e = e
cursor_if false b c e = refl

pub cursor-drop_value : (h : ℕ) (b : Backend) → (drop_value h (release h b)).cursor ≡ b.cursor
unfolding drop_value with_slots
cursor-drop_value h b =
    cursor_if (is_node (slot (release h b).slots h).kind) _ (release h b)
      (cursor-delete_handle (slot (release h b).slots h).eh (release h b))
    ∙ cursor-release h b

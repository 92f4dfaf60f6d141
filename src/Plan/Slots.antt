-- ===== src/Plan/Slots.antt =====
-- The two forms in which a JSON snapshot that nauti-fabric/src/plan.rs reads lists a host's slots.
use nauti_virtualizer.Prelude.{
  ℕ, String, ◌+◌, false, Option, none, some, List, [], ◌∷◌, ◌≡◌, refl, ap, ◌∙◌,
}
use nauti_virtualizer.Json.{Value, Fields, Items, array, object, items, entries}
use nauti_virtualizer.Plan.Number.{Float}
use nauti_virtualizer.Plan.View.{SlotView}
use nauti_virtualizer.Plan.Snapshot.{Derived, named, push_slot, read_slots, slot_items, numbered}
use nauti_virtualizer.Vmm.Texts.{is_empty}

module _ (n : Float) (serde : Derived n) where
  -- Every item that decodes names its slot.
  unfoldable pub AllNamed : List (Value n.F) → Type 0
  AllNamed [] = Unit
  AllNamed (v ∷ vs) =
      ((s : SlotView n) → serde.slot v ≡ some s → is_empty s.slot ≡ false) × AllNamed vs

  named_alike :
      (j k : String) (s : SlotView n)
      → is_empty s.slot ≡ false
      → named n serde j s ≡ named n serde k s
  unfolding named
  named_alike j k s e = simp e

  pushed_alike :
      (j k : String) (o : Option (SlotView n)) (xs ys : List (SlotView n))
      → ((s : SlotView n) → o ≡ some s → is_empty s.slot ≡ false)
      → xs ≡ ys
      → push_slot n serde j o xs ≡ push_slot n serde k o ys
  unfolding push_slot
  pushed_alike j k none xs ys h e = e
  pushed_alike j k (some s) xs ys h e = cc (named_alike j k s (h s refl), e)

  -- The entries hold the items of the list in their order, whatever the keys.
  unfoldable pub SameItems : List (Value n.F) → List (String × Value n.F) → Type 0
  SameItems [] [] = Unit
  SameItems (v ∷ vs) ((k, w) ∷ es) = (v ≡ w) × SameItems vs es
  SameItems _ _ = ⊥

  read_slots_alike :
      (i : ℕ) (vs : List (Value n.F)) (es : List (String × Value n.F))
      → AllNamed vs
      → SameItems vs es
      → read_slots n serde (numbered n serde i vs) ≡ read_slots n serde es
  unfolding numbered read_slots AllNamed SameItems
  read_slots_alike i [] [] all same = refl
  read_slots_alike i [] (e ∷ es) all same = absurd same
  read_slots_alike i (v ∷ vs) [] all same = absurd same
  read_slots_alike i (v ∷ vs) ((k, w) ∷ es) (named, all) (same, rest) =
      let later = read_slots_alike (i + 1) vs es all rest in
      pushed_alike (n.decimal i) k (serde.slot v) (read_slots n serde (numbered n serde (i + 1) vs))
        (read_slots n serde es) named later
      ∙ ap (λ x. push_slot n serde k (serde.slot x) (read_slots n serde es)) same

  -- A host's slots may stand in a list or in an object: when each item names its slot, both forms
  -- give the same slots in the same order.
  pub slots_list_or_object :
      (vs : Items n.F) (fs : Fields n.F)
      → AllNamed (items vs)
      → SameItems (items vs) (entries fs)
      → read_slots n serde (slot_items n serde (array vs))
        ≡ read_slots n serde (slot_items n serde (object fs))
  unfolding slot_items
  slots_list_or_object vs fs all same = read_slots_alike 0 (items vs) (entries fs) all same

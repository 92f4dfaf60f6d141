-- ===== src/Plan/Intake.antt =====
-- What nauti-fabric/src/plan.rs takes from a JSON snapshot, and what the fleet-wide planner makes of
-- it.
use nauti_virtualizer.Prelude.{
  String, Bool, true, false, Option, none, some, List, [], ◌∷◌, In, ◌≡◌, ◌≢◌, refl, sym, ap, ◌∙◌,
  subst, inl, inr, ◌⊎◌, arith, str_eq, eq_iff, if◌then◌else◌,
}
use nauti_virtualizer.Dict.{Dict, insert}
use nauti_virtualizer.Json.{Value, Fields, entries, get_field, as_object}
use nauti_virtualizer.Plan.Number.{Float}
use nauti_virtualizer.Plan.View.{SlotView, HostView, PlanFragment, PlanRequest, serves}
use nauti_virtualizer.Plan.Planner.{monolithic_plan}
use nauti_virtualizer.Plan.Fleet.{monolithic_plan-Placed}
use nauti_virtualizer.Plan.Snapshot.{
  Derived, named, push_slot, read_slots, slot_items, slots_value, and_then_bool, unwrap_or_false,
  host_view, with_host, read_hosts, host_map, view_of, from_snapshot_json, matrix_from_json,
}

module _ {V : Type 0} (k j : String) (h x : V) where
  -- Where an entry of the changed dictionary comes from.
  From : Dict V → Type 0
  From m = ((j ≡ k) × (x ≡ h)) ⊎ In (k, h) m

  From-head :
      (i : String) (w : V) (m rest : Dict V) (b : Bool)
      → str_eq i j ≡ b
      → (In (k, h) rest → From m)
      → In (k, h) (if b then (i, x) ∷ m else (i, w) ∷ rest)
      → From ((i, w) ∷ m)
  unfolding From
  From-head i w m rest true same ih (inl e) =
      inl (sym ((eq_iff i j).0 same) ∙ ap (λ p. p.0) e, ap (λ p. p.1) e)
  From-head i w m rest true same ih (inr e) = inr (inr e)
  From-head i w m rest false other ih (inl e) = inr (inl e)
  From-head i w m rest false other ih (inr e) = elim (ih e) [
    | inl found ↦ inl found
    | inr old ↦ inr (inr old)
  ]

  In-insert : (m : Dict V) → In (k, h) (insert j x m) → From m
  unfolding insert From
  In-insert [] (inl e) = inl (ap (λ p. p.0) e, ap (λ p. p.1) e)
  In-insert [] (inr e) = absurd e
  In-insert ((i, w) ∷ m) e = From-head i w m (insert j x m) (str_eq i j) refl (In-insert m) e

module _ (n : Float) (serde : Derived n) where
  -- The slot is one of the items that decode, under its own name or the item's key.
  pub record FromItem (s : SlotView n) (its : List (String × Value n.F)) : Type 0 where
    pub key : String
    pub item : Value n.F
    pub decoded : SlotView n
    pub listed : In (key, item) its
    pub decodes : serde.slot item ≡ some decoded
    pub renamed : named n serde key decoded ≡ s

  further :
      (s : SlotView n) (i : String × Value n.F) (its : List (String × Value n.F))
      → FromItem s its
      → FromItem s (i ∷ its)
  further s i its f = record {
    key = f.key;
    item = f.item;
    decoded = f.decoded;
    listed = inr f.listed;
    decodes = f.decodes;
    renamed = f.renamed;
  }

  pushed :
      (key : String) (item : Value n.F) (o : Option (SlotView n)) (s : SlotView n)
      (its : List (String × Value n.F))
      → serde.slot item ≡ o
      → (In s (read_slots n serde its) → FromItem s its)
      → In s (push_slot n serde key o (read_slots n serde its))
      → FromItem s ((key, item) ∷ its)
  unfolding push_slot
  pushed key item none s its e ih m = further s (key, item) its (ih m)
  pushed key item (some d) s its e ih (inl m) = record {
    key = key;
    item = item;
    decoded = d;
    listed = inl refl;
    decodes = e;
    renamed = m;
  }
  pushed key item (some d) s its e ih (inr m) = further s (key, item) its (ih m)

  read_slots-FromItem :
      (s : SlotView n) (its : List (String × Value n.F))
      → In s (read_slots n serde its)
      → FromItem s its
  unfolding read_slots
  read_slots-FromItem s [] m = absurd m
  read_slots-FromItem s ((key, item) ∷ its) m =
      pushed key item (serde.slot item) s its refl (read_slots-FromItem s its) m

  -- The host is the view of an object that stands under its key.
  pub record FromEntry (key : String) (host : HostView n) (es : List (String × Value n.F))
      : Type 0 where
    pub value : Value n.F
    pub fields : Fields n.F
    pub listed : In (key, value) es
    pub is_object : as_object value ≡ some fields
    pub viewed : host_view n serde fields value ≡ host

  added :
      (key k : String) (host : HostView n) (v : Value n.F) (all : List (String × Value n.F))
      (acc : Dict (HostView n)) (o : Option (Fields n.F))
      → as_object v ≡ o
      → In (k, v) all
      → (In (key, host) acc → FromEntry key host all)
      → In (key, host) (with_host n serde k v o acc)
      → FromEntry key host all
  unfolding with_host From
  added key k host v all acc none e at old m = old m
  added key k host v all acc (some fs) e at old m =
      elim (In-insert key k host (host_view n serde fs v) acc m) [
        | inl (same, viewed) ↦ record {
          value = v;
          fields = fs;
          listed = subst (λ j. In (j, v) all) same at;
          is_object = e;
          viewed = viewed;
        }
        | inr before ↦ old before
      ]

  read_hosts-FromEntry :
      (key : String) (host : HostView n) (es all : List (String × Value n.F))
      (acc : Dict (HostView n))
      → ((e : String × Value n.F) → In e es → In e all)
      → (In (key, host) acc → FromEntry key host all)
      → In (key, host) (read_hosts n serde es acc)
      → FromEntry key host all
  unfolding read_hosts
  read_hosts-FromEntry key host [] all acc sub old m = old m
  read_hosts-FromEntry key host ((k, v) ∷ es) all acc sub old m =
      read_hosts-FromEntry key host es all (with_host n serde k v (as_object v) acc)
        (λ e at. sub e (inr at))
        (added key k host v all acc (as_object v) refl (sub (k, v) (inl refl)) old) m

  view_of-FromEntry :
      (key : String) (host : HostView n) (o : Option (Fields n.F)) (value : Value n.F)
      → host_map n serde value ≡ o
      → In (key, host) (view_of n serde o (matrix_from_json n serde value)).hosts
      → (hosts : Fields n.F) × (host_map n serde value ≡ some hosts)
        × FromEntry key host (entries hosts)
  unfolding view_of
  view_of-FromEntry key host none value e m = absurd m
  view_of-FromEntry key host (some hosts) value e m = (
    hosts,
    e,
    read_hosts-FromEntry key host (entries hosts) (entries hosts) [] (λ x at. at)
        (λ none. absurd none) m,
  )

  -- Every host of a snapshot's view is an object of its host map.
  pub from_snapshot_json-FromEntry :
      (key : String) (host : HostView n) (value : Value n.F)
      → In (key, host) (from_snapshot_json n serde value).hosts
      → (hosts : Fields n.F) × (host_map n serde value ≡ some hosts)
        × FromEntry key host (entries hosts)
  unfolding from_snapshot_json
  from_snapshot_json-FromEntry key host value m =
      view_of-FromEntry key host (host_map n serde value) value refl m

  -- What stands in the snapshot for a fragment: an object of the host map that is not marked as
  -- locked, and in it an item that decodes to a healthy slot for the role, with the fragment's model.
  pub record InSnapshot (f : PlanFragment n) (role : String) (hosts : Fields n.F) : Type 0 where
    pub value : Value n.F
    pub fields : Fields n.F
    pub listed : In (f.host_key, value) (entries hosts)
    pub is_object : as_object value ≡ some fields
    pub not_locked : and_then_bool n serde (get_field "locked" fields) ≢ some true
    pub slot : SlotView n
    pub from_item :
        FromItem slot (slot_items n serde (slots_value n serde (get_field "slots" fields) value))
    pub serving : serves n slot role ≡ true
    pub same_slot : f.slot ≡ slot.slot
    pub same_model : f.model_id ≡ slot.model_id

  unlocked-not_locked : (o : Option Bool) → unwrap_or_false o ≡ false → o ≢ some true
  unfolding unwrap_or_false
  unlocked-not_locked o h = λ e. ground (arith, e)

  -- A fragment that the fleet-wide planner makes of a snapshot names a host that the snapshot holds
  -- and does not mark as locked, and a healthy slot of its items that serves the role.
  pub monolithic_plan-InSnapshot :
      (ask : PlanRequest) (value : Value n.F) (f : PlanFragment n)
      → monolithic_plan n ask (from_snapshot_json n serde value) ≡ some f
      → (hosts : Fields n.F) × (host_map n serde value ≡ some hosts) × InSnapshot f ask.role hosts
  unfolding host_view
  monolithic_plan-InSnapshot ask value f h =
      let q = monolithic_plan-Placed n ask (from_snapshot_json n serde value) f h in
      let (hosts, e, entry) =
        from_snapshot_json-FromEntry f.host_key q.host value q.remote.listed in
      (
        hosts,
        e,
        record {
          value = entry.value;
          fields = entry.fields;
          listed = entry.listed;
          is_object = entry.is_object;
          not_locked =
              unlocked-not_locked (and_then_bool n serde (get_field "locked" entry.fields))
                (ap (λ h. h.locked) entry.viewed ∙ q.remote.takes.unlocked);
          slot = q.slot;
          from_item =
              read_slots-FromItem q.slot
                (slot_items n serde
                  (slots_value n serde (get_field "slots" entry.fields) entry.value))
                (subst (λ h. In q.slot h.slots) (sym entry.viewed) q.remote.takes.present);
          serving = q.remote.takes.serving;
          same_slot = q.describes.in_slot;
          same_model = q.describes.serving_model;
        },
      )

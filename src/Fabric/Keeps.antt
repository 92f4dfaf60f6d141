-- ===== src/Fabric/Keeps.antt =====
-- Predicates on the state that an action keeps, whether it answers, fails or panics: one rule for
-- each way to build an action of `Fabric`.
use nauti_virtualizer.Prelude.{String, Bool, true, false, Option, none, some, ◌≡◌, refl, arith}
use nauti_virtualizer.Dict.{get}
use nauti_virtualizer.Resource.{Resource, Lease, FabricError, Result}
use nauti_virtualizer.Fabric.{
  Fabric, Adapter, Exec, Outcome, ok, err, panic, continue, ◌>>=◌, guard, or_fail, gets, pure,
  lock_leases, require, lift, call_attach, call_detach, detach_with, detach_named,
}

pub record Keeps {W A : Type 0} (P : Fabric W → Type 0) (m : Exec W A) : Type 0 where
  pub at : (f : Fabric W) → P f → P (m f).1

or_fail_state :
    {W A : Type 0} (o : Option A) (e : FabricError) (f : Fabric W) → (or_fail o e f).1 ≡ f
or_fail_state none e f = refl
or_fail_state (some a) e f = refl

guard_state : {W : Type 0} (b : Bool) (e : FabricError) (f : Fabric W) → (guard b e f).1 ≡ f
guard_state true e f = refl
guard_state false e f = refl

module _ {W A : Type 0} {P : Fabric W → Type 0} where
  pub Keeps-pure : (a : A) → Keeps P (pure a)
  Keeps-pure a = record { at = λ f h. h }

  pub Keeps-gets : (g : Fabric W → A) → Keeps P (gets g)
  Keeps-gets g = record { at = λ f h. h }

  pub Keeps-or_fail : (o : Option A) (e : FabricError) → Keeps P (or_fail o e)
  Keeps-or_fail o e = record { at = λ f h. rw (or_fail_state o e f) h }

module _ {W A B : Type 0} {P : Fabric W → Type 0} where
  continue_at :
      (o : Outcome A) (k : A → Exec W B) (f : Fabric W)
      → ((a : A) → Keeps P (k a))
      → P f
      → P (continue o k f).1
  continue_at (ok a) k f each h = (each a).at f h
  continue_at (err e) k f each h = h
  continue_at panic k f each h = h

  pub Keeps-bind :
      (m : Exec W A) (k : A → Exec W B) → Keeps P m → ((a : A) → Keeps P (k a)) → Keeps P (m >>= k)
  Keeps-bind m k first each = record {
    at = λ f h. continue_at (m f).0 k (m f).1 each (first.at f h);
  }

  -- The rest of the block may use that what it is handed was read off the state.
  pub Keeps-bind_gets :
      (g : Fabric W → A) (k : A → Exec W B)
      → ((f : Fabric W) → P f → P (k (g f) f).1)
      → Keeps P (gets g >>= k)
  Keeps-bind_gets g k each = record { at = each }

module _ {W : Type 0} {P : Fabric W → Type 0} where
  pub Keeps-guard : (b : Bool) (e : FabricError) → Keeps P (guard b e)
  Keeps-guard b e = record { at = λ f h. rw (guard_state b e f) h }

  pub Keeps-lock : Keeps P lock_leases
  unfolding lock_leases
  Keeps-lock = record { at = λ f h. ground arith }

  pub Keeps-require : (id : String) → Keeps P (require id)
  unfolding require
  Keeps-require id = record { at = λ f h. ground arith }

-- What does not look at `world` survives a call of an adapter.
module _ {W : Type 0} {P : Fabric W → Type 0}
    (blind : (f : Fabric W) (w : W) → P f → P (record f { world = w })) where
  lift_at : {A : Type 0} (r : Result A × W) (f : Fabric W) → P f → P (lift r f).1
  unfolding lift
  lift_at (Result.ok a, w) f h = blind f w h
  lift_at (Result.err e, w) f h = blind f w h

  pub Keeps-call_attach : (a : Adapter W) (r : Resource) (l : Lease) → Keeps P (call_attach a r l)
  unfolding call_attach
  Keeps-call_attach a r l = record { at = λ f h. lift_at (a.attach r l f.world) f h }

  detach_with_at :
      (l : Lease) (r : Option Resource) (a : Option (Adapter W)) (f : Fabric W)
      → P f
      → P (detach_with l r a f).1
  unfolding detach_with call_detach
  detach_with_at l none a f h = h
  detach_with_at l (some r) none f h = h
  detach_with_at l (some r) (some a) f h = lift_at (a.detach r l f.world) f h

  detach_named_at :
      (l : Lease) (name : Option String) (f : Fabric W) → P f → P (detach_named l name f).1
  unfolding detach_named
  detach_named_at l none f h = h
  detach_named_at l (some name) f h =
      detach_with_at l (get l.resource_id f.resources) (get name f.adapters) f h

  pub Keeps-detach_named : (l : Lease) (name : Option String) → Keeps P (detach_named l name)
  Keeps-detach_named l name = record { at = detach_named_at l name }

pub ruleset keeps_rules =
    (Keeps-pure, Keeps-gets, Keeps-or_fail, Keeps-bind, Keeps-guard, Keeps-lock, Keeps-require)

-- ===== src/Base/Effects.antt =====
-- What a Python call can do besides returning: raise. Code that calls back into the outside world
-- threads that world, so what was done before a raise stays done.
use Prim.Native.String.{String}
use mathlib.Core.Path.{◌≡◌, refl}
use mathlib.Core.Logic.{◌⊎◌, inl, inr}
use mathlib.Core.Bool.{Bool, true, false}

pub data Exception : Type 0 where
  -- the classes that some handler of the program names
  os_error pickling_error type_error attribute_error stop_iteration value_error : Exception
  -- neudc.core.policy.NodeFailure
  node_failure : Exception
  -- SystemExit or KeyboardInterrupt, which `except Exception` lets through
  system_exit : Exception
  -- any other subclass of Exception
  other : String → Exception

pub data Outcome (A : Type 0) : Type 0 where
  returned : A → Outcome A
  raised : Exception → Outcome A

pub Outcome-cases :
    {A : Type 0} (o : Outcome A) → ((e : Exception) × (o ≡ raised e)) ⊎ ((a : A) × (o ≡ returned a))
Outcome-cases (raised e) = inl (e, refl)
Outcome-cases (returned a) = inr (a, refl)

-- An action on a world `W`.
abbrev pub Act : Type 0 → Type 0 → Type 0
Act W A = W → Outcome A × W

-- The next statement, unless this one raised.
abbrev pub and_then : {W A B : Type 0} → Outcome A × W → (A → Act W B) → Outcome B × W
and_then (returned a, w) f = f a w
and_then (raised e, w) f = (raised e, w)

-- `except Exception` catches the error.
abbrev pub is_caught : Exception → Bool
is_caught system_exit = false
is_caught _ = true

abbrev pub pure : {W A : Type 0} → A → Act W A
pure a w = (returned a, w)

infixl 5 ◌>>=◌ ◌>>◌
abbrev pub ◌>>=◌ : {W A B : Type 0} → Act W A → (A → Act W B) → Act W B
◌>>=◌ m f w = and_then (m w) f

abbrev pub ◌>>◌ : {W B : Type 0} → Act W (Unit {0}) → Act W B → Act W B
m >> k = m >>= λ _. k

-- An effect that does not raise, such as reading the clock.
abbrev pub lift : {W A : Type 0} → (W → A × W) → Act W A
lift f w = let (a, w') = f w in (returned a, w')

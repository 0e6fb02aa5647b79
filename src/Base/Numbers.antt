-- ===== src/Base/Numbers.antt =====
-- Numbers of the program that are not counters: Python's `int` as an integer over the native
-- numbers, and `float` through its operations.
use Prim.Native.Nat.{ℕ, suc, ◌-◌}
use mathlib.Core.Bool.{Bool, true, false}
use mathlib.Core.Option.{Option}
use data_pipeline_orchestrat.Base.Tests.{leb, if◌then◌else◌}

-- `negsuc n` is -(n + 1).
pub data ℤ : Type 0 where
  pos : ℕ → ℤ
  negsuc : ℕ → ℤ

-- k <= i, for a bound that is not negative.
abbrev pub at_least : ℕ → ℤ → Bool
at_least k (pos n) = leb k n
at_least k (negsuc n) = false

abbrev pub magnitude : ℤ → ℕ
magnitude (pos n) = n
magnitude (negsuc n) = suc n

-- a - b, as an integer.
abbrev pub sub_ℕ : ℕ → ℕ → ℤ
sub_ℕ a b = if leb b a then pos (a - b) else negsuc (b - a - 1)

-- i <= j
abbrev pub leb_ℤ : ℤ → ℤ → Bool
leb_ℤ (pos m) (pos n) = leb m n
leb_ℤ (pos m) (negsuc n) = false
leb_ℤ (negsuc m) (pos n) = true
leb_ℤ (negsuc m) (negsuc n) = leb n m

-- The operations on `float` that the program uses.
pub record FloatOps (F : Type 0) : Type 0 where
  -- the literal with these digits, and this many of them behind the point
  pub literal : ℕ → ℕ → F
  pub ltb_F : F → F → Bool
  pub leb_F : F → F → Bool
  pub add_F : F → F → F
  pub mul_F : F → F → F
  -- x ** n; none is an OverflowError
  pub pow_F : F → ℕ → Option F
  -- x / 2
  pub half : F → F

-- min(a, b)
abbrev pub min_F : {F : Type 0} → FloatOps F → F → F → F
min_F ops a b = if ops.ltb_F b a then b else a

-- ===== src/Policy/Execute/Backoff.antt =====
-- The bounds of the backoff delay, from the documented behaviour of float and of random.uniform.
use data_pipeline_orchestrat.Base.{
  ℕ, ◌≡◌, refl, true, false, some, returned, min_F, FloatOps, Bool-cases, inl, inr,
}
use data_pipeline_orchestrat.Policy.Config.{ErrorPolicyConfig}
use data_pipeline_orchestrat.Policy.Execute.{Runtime, backoff_delay, spread_delay}

-- A number that is not NaN is not below 0.
abbrev pub IsNonneg : {F : Type 0} → FloatOps F → F → Type 0
IsNonneg ops x = ops.leb_F (ops.literal 0 0) x ≡ true

-- Facts of IEEE arithmetic on numbers that are not below 0 (and so not NaN), infinity included, and
-- of random.uniform(0, b) for such a b below infinity.
pub record FloatLaws {W F Item : Type 0} (rt : Runtime W F Item) (infinity : F) : Type 0 where
  pub leb_refl : (x : F) → IsNonneg rt.floats x → rt.floats.leb_F x x ≡ true
  pub leb_trans :
      (x y z : F)
      → rt.floats.leb_F x y ≡ true
      → rt.floats.leb_F y z ≡ true
      → rt.floats.leb_F x z ≡ true
  pub leb_of_ltb : (x y : F) → rt.floats.ltb_F x y ≡ true → rt.floats.leb_F x y ≡ true
  pub leb_of_not_ltb :
      (x y : F)
      → IsNonneg rt.floats x
      → IsNonneg rt.floats y
      → rt.floats.ltb_F y x ≡ false
      → rt.floats.leb_F x y ≡ true
  pub ltb_of_leb :
      (x y z : F)
      → rt.floats.leb_F x y ≡ true
      → rt.floats.ltb_F y z ≡ true
      → rt.floats.ltb_F x z ≡ true
  pub half_below : (x : F) → IsNonneg rt.floats x → rt.floats.leb_F (rt.floats.half x) x ≡ true
  pub half_nonneg : (x : F) → IsNonneg rt.floats x → IsNonneg rt.floats (rt.floats.half x)
  pub add_mono :
      (y x z : F)
      → IsNonneg rt.floats y
      → IsNonneg rt.floats x
      → rt.floats.leb_F x z ≡ true
      → rt.floats.leb_F (rt.floats.add_F y x) (rt.floats.add_F y z) ≡ true
  pub add_nonneg :
      (y x : F)
      → IsNonneg rt.floats y
      → IsNonneg rt.floats x
      → rt.floats.leb_F y (rt.floats.add_F y x) ≡ true
  pub uniform_nonneg :
      (b : F) (w : W)
      → IsNonneg rt.floats b
      → rt.floats.ltb_F b infinity ≡ true
      → IsNonneg rt.floats (rt.uniform b w).0
  pub uniform_below :
      (b : F) (w : W)
      → IsNonneg rt.floats b
      → rt.floats.ltb_F b infinity ≡ true
      → rt.floats.leb_F (rt.uniform b w).0 b ≡ true

module _ {W F Item : Type 0} (rt : Runtime W F Item) (c : ErrorPolicyConfig F) where
  open rt.floats use {ltb_F, leb_F, add_F, mul_F, pow_F, half}

  -- initial_backoff times the power, capped at max_backoff
  abbrev pub capped : F → F
  capped power = min_F rt.floats c.max_backoff (mul_F c.initial_backoff power)

  -- What is claimed of a delay: at most `max_backoff`; the capped exponential itself without jitter,
  -- and between half of it and all of it with jitter.
  pub record IsBackoff (power delay : F) : Type 0 where
    pub below_max : leb_F delay c.max_backoff ≡ true
    pub plain : c.jitter ≡ false → delay ≡ capped power
    pub above_half : c.jitter ≡ true → leb_F (half (capped power)) delay ≡ true
    pub below_capped : c.jitter ≡ true → leb_F delay (capped power) ≡ true

  module _ (infinity : F) (laws : FloatLaws rt infinity) (power : F)
      (positive : IsNonneg rt.floats c.max_backoff) (finite : ltb_F c.max_backoff infinity ≡ true)
      (scaled : IsNonneg rt.floats (mul_F c.initial_backoff power)) where
    capped-le-max : leb_F (capped power) c.max_backoff ≡ true
    capped-le-max = elim (Bool-cases (ltb_F (mul_F c.initial_backoff power) c.max_backoff)) [
      | inl h ↦ rw h (laws.leb_of_ltb _ _ h)
      | inr h ↦ rw h (laws.leb_refl c.max_backoff positive)
    ]

    capped-IsNonneg : IsNonneg rt.floats (capped power)
    capped-IsNonneg = elim (Bool-cases (ltb_F (mul_F c.initial_backoff power) c.max_backoff)) [
      | inl h ↦ rw h scaled
      | inr h ↦ rw h positive
    ]

    half-IsFinite : ltb_F (half (capped power)) infinity ≡ true
    half-IsFinite =
        laws.ltb_of_leb _ _ _
          (laws.leb_trans _ _ _ (laws.half_below (capped power) capped-IsNonneg) capped-le-max)
          finite

    spread_delay-IsBackoff :
        (w : W)
        → add_F (half (capped power)) (half (capped power)) ≡ capped power
        → IsBackoff power ((spread_delay rt c.jitter (capped power) w).0)
    unfolding spread_delay
    spread_delay-IsBackoff w exact =
        let half_ok = laws.half_nonneg (capped power) capped-IsNonneg in
        let spread = (rt.uniform (half (capped power)) w).0 in
        let spread_ok = laws.uniform_nonneg (half (capped power)) w half_ok half-IsFinite in
        let below : leb_F (add_F (half (capped power)) spread) (capped power) ≡ true = rw exact at (
          laws.add_mono (half (capped power)) spread (half (capped power)) half_ok spread_ok
            (laws.uniform_below (half (capped power)) w half_ok half-IsFinite)) in
        elim (Bool-cases c.jitter) [
          | inl j ↦ record {
            below_max = rw j (laws.leb_trans _ _ _ below capped-le-max);
            plain = λ e. absurd cc;
            above_half = λ e. rw j (laws.add_nonneg (half (capped power)) spread half_ok spread_ok);
            below_capped = λ e. rw j below;
          }
          | inr j ↦ record {
            below_max = rw j capped-le-max;
            plain = λ e. rw j refl;
            above_half = λ e. absurd cc;
            below_capped = λ e. absurd cc;
          }
        ]

    -- If the power does not overflow, and the capped delay halves without rounding, the delay of an
    -- attempt never passes `max_backoff`; without jitter it is the capped exponential itself, with
    -- jitter it lies between half of that and all of it. This takes that `max_backoff` is finite, that
    -- neither it nor the exponential is below 0, and the laws of floats that are not.
    pub backoff_delay_bounds :
        (attempt : ℕ) (w : W)
        → pow_F c.backoff_multiplier attempt ≡ some power
        → add_F (half (capped power)) (half (capped power)) ≡ capped power
        → (delay : F) × (w1 : W) × (backoff_delay rt c attempt w ≡ (returned delay, w1))
          × IsBackoff power delay
    unfolding backoff_delay
    backoff_delay_bounds attempt w raised_to exact =
        let (delay, w1) = spread_delay rt c.jitter (capped power) w in
        (delay, w1, rw (raised_to, backoff_delay) refl, spread_delay-IsBackoff w exact)

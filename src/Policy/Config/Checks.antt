-- ===== src/Policy/Config/Checks.antt =====
-- What the validation of an `error_policy` block accepts, and why it refuses.
use data_pipeline_orchestrat.Base.{
  ℕ, ◌≡◌, ◌≢◌, ◌<◌, none, some, [], Bool, not, ◌&&◌, ltb, is_some, true, false, negsuc, FloatOps,
}
use data_pipeline_orchestrat.Policy.Config.{
  retry, RawErrorPolicy, ErrorPolicyConfig, PolicyError, Checked, accepted, refused,
  extra_forbidden, negative_retries, initial_not_positive, max_not_positive, multiplier_below_one,
  retry_without_retries, max_below_initial, payload_without_dir, with_defaults, is_retry,
}

module _ {F : Type 0} (ops : FloatOps F) where
  open ops use {literal, ltb_F, leb_F}

  -- What the run time may rely on.
  pub record IsConsistent (c : ErrorPolicyConfig F) : Type 0 where
    pub retry_retries : c.on_error ≡ retry → 0 < c.max_retries
    pub initial_positive : ltb_F (literal 0 0) c.initial_backoff ≡ true
    pub multiplier_grows : leb_F (literal 10 1) c.backoff_multiplier ≡ true
    pub max_above_initial : ltb_F c.max_backoff c.initial_backoff ≡ false
    pub payload_has_dir : c.store_payload ≡ true → c.dead_letter_dir ≢ none

  -- The fault that a refusal names is there.
  abbrev pub HasFault : RawErrorPolicy F → PolicyError → Type 0
  HasFault raw extra_forbidden = raw.extra ≢ []
  HasFault raw negative_retries = (n : ℕ) × (raw.max_retries ≡ some (negsuc n))
  HasFault raw initial_not_positive =
      ltb_F (literal 0 0) (with_defaults ops raw).initial_backoff ≡ false
  HasFault raw max_not_positive = ltb_F (literal 0 0) (with_defaults ops raw).max_backoff ≡ false
  HasFault raw multiplier_below_one =
      leb_F (literal 10 1) (with_defaults ops raw).backoff_multiplier ≡ false
  HasFault raw retry_without_retries =
      (raw.on_error ≡ some retry) × ((with_defaults ops raw).max_retries ≡ 0)
  HasFault raw max_below_initial =
      ltb_F (with_defaults ops raw).max_backoff (with_defaults ops raw).initial_backoff ≡ true
  HasFault raw payload_without_dir = (raw.store_payload ≡ some true) × (raw.dead_letter_dir ≡ none)

  abbrev pub Verdict : RawErrorPolicy F → Checked (ErrorPolicyConfig F) → Type 0
  Verdict raw (accepted c) = (c ≡ with_defaults ops raw) × IsConsistent c
  Verdict raw (refused e) = HasFault raw e

  module _ (raw : RawErrorPolicy F) where
    consistency : (c : ErrorPolicyConfig F) → Bool × Bool × Bool
    consistency c = (
      not (is_retry c.on_error && ltb c.max_retries 1),
      not (ltb_F c.max_backoff c.initial_backoff),
      not (c.store_payload && not (is_some c.dead_letter_dir)),
    )

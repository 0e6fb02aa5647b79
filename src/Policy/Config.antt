-- ===== src/Policy/Config.antt =====
-- `ErrorPolicyConfig` of neudc/core/policy/error_policy.py: the block of the YAML file, its
-- defaults and its validation. pydantic has typed the values (`Raw`); a key that is absent is `none`.
pub mod Checks
use data_pipeline_orchestrat.Base.{
  ℕ, ◌≡◌, ◌≤◌, String, Option, none, some, List, [], ◌∷◌, Bool, true, false, not, ltb, is_some, ℤ,
  pos, at_least, magnitude, FloatOps, if◌then◌else◌, ◌&&◌,
}

pub data ErrorAction : Type 0 where
  skip retry fail : ErrorAction

abbrev pub is_retry : ErrorAction → Bool
is_retry retry = true
is_retry _ = false

abbrev pub is_fail : ErrorAction → Bool
is_fail fail = true
is_fail _ = false

pub record RawErrorPolicy (F : Type 0) : Type 0 where
  pub on_error : Option ErrorAction
  pub max_retries : Option ℤ
  pub initial_backoff : Option F
  pub max_backoff : Option F
  pub backoff_multiplier : Option F
  pub jitter : Option Bool
  pub dead_letter_dir : Option (List String)
  pub store_payload : Option Bool
  -- the keys of the block that are none of the above
  pub extra : List String

pub record ErrorPolicyConfig (F : Type 0) : Type 0 where
  pub on_error : ErrorAction
  pub max_retries : ℕ
  pub initial_backoff : F
  pub max_backoff : F
  pub backoff_multiplier : F
  pub jitter : Bool
  pub dead_letter_dir : Option (List String)
  pub store_payload : Bool

pub data PolicyError : Type 0 where
  extra_forbidden negative_retries initial_not_positive max_not_positive multiplier_below_one :
      PolicyError
  retry_without_retries max_below_initial payload_without_dir : PolicyError

pub data Checked (A : Type 0) : Type 0 where
  accepted : A → Checked A
  refused : PolicyError → Checked A

infixl 5 ◌>>=◌ ◌>>◌
abbrev ◌>>=◌ : {A B : Type 0} → Checked A → (A → Checked B) → Checked B
accepted a >>= f = f a
refused e >>= f = refused e

abbrev ◌>>◌ : {B : Type 0} → Checked (Unit {0}) → Checked B → Checked B
m >> k = m >>= λ _. k

abbrev require : Bool → PolicyError → Checked (Unit {0})
require true e = accepted tt
require false e = refused e

abbrev value_or {ℓ} : {A : Type ℓ} → Option A → A → A
value_or none d = d
value_or (some a) d = a

abbrev is_empty {ℓ} : {A : Type ℓ} → List A → Bool
is_empty [] = true
is_empty (x ∷ xs) = false

module _ {F : Type 0} (ops : FloatOps F) where
  open ops use {literal, ltb_F, leb_F}

  -- The fields with their defaults, before any constraint is looked at.
  unfoldable pub with_defaults : RawErrorPolicy F → ErrorPolicyConfig F
  with_defaults raw = record {
    on_error = value_or raw.on_error skip;
    max_retries = magnitude (value_or raw.max_retries (pos 0));
    initial_backoff = value_or raw.initial_backoff (literal 1 1);
    max_backoff = value_or raw.max_backoff (literal 50 1);
    backoff_multiplier = value_or raw.backoff_multiplier (literal 20 1);
    jitter = value_or raw.jitter true;
    dead_letter_dir = raw.dead_letter_dir;
    store_payload = value_or raw.store_payload false;
  }

  unfoldable pub check_consistency : ErrorPolicyConfig F → Checked (ErrorPolicyConfig F)
  check_consistency c = do
    require (not (is_retry c.on_error && ltb c.max_retries 1)) retry_without_retries
    require (not (ltb_F c.max_backoff c.initial_backoff)) max_below_initial
    require (not (c.store_payload && not (is_some c.dead_letter_dir))) payload_without_dir
    accepted c

  -- ErrorPolicyConfig(**raw): the first refusal, where pydantic lists them all.
  unfoldable pub validate : RawErrorPolicy F → Checked (ErrorPolicyConfig F)
  unfolding with_defaults check_consistency
  validate raw = do
    let c = with_defaults raw
    require (is_empty raw.extra) extra_forbidden
    require (at_least 0 (value_or raw.max_retries (pos 0))) negative_retries
    require (ltb_F (literal 0 0) c.initial_backoff) initial_not_positive
    require (ltb_F (literal 0 0) c.max_backoff) max_not_positive
    require (leb_F (literal 10 1) c.backoff_multiplier) multiplier_below_one
    check_consistency c

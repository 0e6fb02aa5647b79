-- ===== src/Policy/Examples.antt =====
-- The laws of the error policy at work on small runs. Floats are natural numbers here, a world is
-- the list of the values that were delivered, and the disk takes everything but payloads.
use data_pipeline_orchestrat.Base.{
  ℕ, zero, suc, ◌+◌, ◌*◌, ◌/◌, ◌≡◌, refl, arith, none, some, List, [], ◌∷◌, ◌++◌, true, false, ltb,
  leb, FloatOps, Exception, other, pickling_error, os_error, returned, raised, Bool-cases, inl, inr,
}
use data_pipeline_orchestrat.Policy.Config.{ErrorPolicyConfig, RawErrorPolicy, retry}
use data_pipeline_orchestrat.Policy.DeadLetter.{Disk, DeadLetterSink, record_failure}
use data_pipeline_orchestrat.Policy.DeadLetter.Laws.{FailsAsDocumented, record_failure-returned}
use data_pipeline_orchestrat.Policy.Execute.{
  ErrorPolicy, new_policy, Gen, yields, fails, generator, Callbacks, Runtime, cancelled, back_off,
  sleep, backoff_delay, spread_delay, execute, extra_attempts, start_attempt,
}
use data_pipeline_orchestrat.Policy.Execute.Accounting.{Accounted, execute-Accounted}
use data_pipeline_orchestrat.Policy.Execute.Runs.{IsRun, execute-IsRun}
use data_pipeline_orchestrat.Policy.Execute.Delivery.{OnlyDeliveries, execute_delivers_once}
use data_pipeline_orchestrat.Policy.Execute.Backoff.{FloatLaws, IsBackoff, backoff_delay_bounds}

abbrev power : ℕ → ℕ → ℕ
power x zero = 1
power x (suc n) = x * power x n

abbrev naturals : FloatOps ℕ
naturals = record {
  literal = λ digits places. digits;
  ltb_F = ltb;
  leb_F = leb;
  add_F = λ x y. x + y;
  mul_F = λ x y. x * y;
  pow_F = λ x n. some (power x n);
  half = λ x. x / 2;
}

-- A disk on which `pickle.dump` raises this error.
abbrev disk_with : Exception → Disk (List ℕ) ℕ ℕ
disk_with e = record {
  time = λ w. (7, w);
  mkdir = λ path w. (returned tt, w);
  append_line = λ path entry w. (returned tt, w);
  pickle_dump = λ path item w. (raised e, w);
  attribute = λ item name. none;
  item_type = λ item. "int";
  exception_type = λ x. "ValueError";
  exception_text = λ x. "bad item";
  format_exception = λ x. 84 ∷ 98 ∷ [];
  format_stamp = λ t. "7.000000";
}

abbrev full_disk : Disk (List ℕ) ℕ ℕ
full_disk = record (disk_with pickling_error) { mkdir = λ path w. (raised os_error, w) }

abbrev runtime : Runtime (List ℕ) ℕ ℕ
runtime = record {
  floats = naturals;
  disk = full_disk;
  sleep_for = λ d w. w;
  uniform = λ b w. (0, w);
}

abbrev retry_twice : ErrorPolicyConfig ℕ
retry_twice = record {
  on_error = retry;
  max_retries = 2;
  initial_backoff = 1;
  max_backoff = 8;
  backoff_multiplier = 2;
  jitter = false;
  dead_letter_dir = some ("dead" ∷ []);
  store_payload = true;
}

abbrev sink : DeadLetterSink
sink = record { directory = "dead" ∷ []; store_payload = true }

abbrev delivering : Callbacks (List ℕ) ℕ ℕ
delivering = record {
  wait = none;
  on_item = some (λ v w. (returned tt, w ++ v ∷ []));
  is_cancelled = none;
}

-- Yields the item, then fails.
abbrev broken_body : ℕ → List ℕ → Gen (List ℕ) ℕ
broken_body item w = yields item (fails (other "RuntimeError"))

abbrev policy : ErrorPolicy ℕ
policy = new_policy retry_twice "tts"

execute-IsRun_example :
    IsRun runtime
      (generator broken_body)
      delivering
      3
      policy.config
      0
      (extra_attempts policy.config)
      policy
      []
      (execute runtime (generator broken_body) delivering 3 policy [])
execute-IsRun_example = execute-IsRun runtime (generator broken_body) delivering 3 policy []

execute-Accounted_example :
    Accounted {F = ℕ}
      (extra_attempts policy.config)
      policy.stats
      (execute runtime (generator broken_body) delivering 3 policy [])
execute-Accounted_example =
    execute-Accounted ℕ runtime (generator broken_body) delivering 3 policy []

only_deliveries : OnlyDeliveries runtime delivering (λ w. w)
unfolding cancelled back_off backoff_delay spread_delay sleep record_failure
only_deliveries = record {
  check = λ w. refl;
  backing_off = λ c attempt w. elim (Bool-cases c.jitter) [ inl e ↦ rw e refl | inr e ↦ rw e refl ];
  recording = λ s node_id item e w. refl;
}

execute_delivers_once_example :
    (u : List ℕ) × (u ≡ [])
    × ((execute runtime (generator broken_body) delivering 3 policy []).2
        ≡ (start_attempt (generator broken_body) delivering 3 u).1)
execute_delivers_once_example =
    execute_delivers_once runtime delivering (λ w. w) only_deliveries broken_body 3 (λ w. tt) policy
      []

float_laws : FloatLaws runtime 1000
float_laws = record {
  leb_refl = λ x p. ground arith;
  leb_trans = λ x y z h k. ground arith;
  ltb_of_leb = λ x y z h k. ground arith;
  half_below = λ x p. ground arith;
  leb_of_ltb = λ x y h. ground arith;
  leb_of_not_ltb = λ x y p q h. ground arith;
  half_nonneg = λ x p. ground arith;
  add_mono = λ y x z p q h. ground arith;
  add_nonneg = λ y x p q. ground arith;
  uniform_nonneg = λ b w p f. refl;
  uniform_below = λ b w p f. ground arith;
}

backoff_delay_bounds_example :
    (delay : ℕ) × (w1 : List ℕ) × (backoff_delay runtime retry_twice 2 [] ≡ (returned delay, w1))
    × IsBackoff runtime retry_twice 4 delay
backoff_delay_bounds_example =
    backoff_delay_bounds runtime retry_twice 1000 float_laws 4 refl refl refl 2 [] refl refl

documented : FailsAsDocumented (disk_with pickling_error)
documented = record {
  mkdir_os = λ p w. tt;
  append_os = λ p entry w. tt;
  dump_named = λ p item w. refl;
}

record_failure-returned_example :
    (record_failure (disk_with pickling_error) sink "tts" 3 (some os_error) []).0 ≡ returned tt
record_failure-returned_example =
    record_failure-returned (disk_with pickling_error) sink "tts" 3 (some os_error) [] documented

abbrev block_of_yaml : RawErrorPolicy ℕ
block_of_yaml = record {
  on_error = some retry;
  max_retries = none;
  initial_backoff = none;
  max_backoff = none;
  backoff_multiplier = none;
  jitter = none;
  dead_letter_dir = none;
  store_payload = none;
  extra = [];
}

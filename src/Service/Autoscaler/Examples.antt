-- ===== src/Service/Autoscaler/Examples.antt =====
-- The autoscaler at a pool of two replicas, whose depth readings are their own numbers.
use data_pipeline_orchestrat.Base.{
  ℕ, ◌≤◌, arith, none, some, [], ◌∷◌, ◌+◌, ◌*◌, ltb, leb, returned, FloatOps, length,
}
use data_pipeline_orchestrat.Service.Autoscaler.{AutoscaleConfig, RawAutoscale, Scaling, run_rounds}
use data_pipeline_orchestrat.Service.Autoscaler.Laws.{Consistent, pool_bounded}

abbrev naturals : FloatOps ℕ
naturals = record {
  literal = λ digits places. digits;
  ltb_F = ltb;
  leb_F = leb;
  add_F = λ x y. x + y;
  mul_F = λ x y. x * y;
  pow_F = λ x n. some (x * n);
  half = λ x. x;
}

abbrev config : AutoscaleConfig ℕ
config = record {
  min_replicas = 1;
  max_replicas = 3;
  queue_depth_high = 15;
  queue_depth_low = 2;
  check_interval_s = 5;
}

-- The world counts the replicas that were created.
abbrev scaling : Scaling ℕ ℕ
scaling = record {
  read_depth = λ replica w. (returned replica, w);
  scale_up = λ w. (returned 20, w + 1);
  scale_down = λ replica w. (returned tt, w);
}

abbrev raw_block : RawAutoscale ℕ
raw_block = record {
  min_replicas = none;
  max_replicas = none;
  queue_depth_high = none;
  queue_depth_low = none;
  check_interval_s = some 1;
  extra = [];
}

config-Consistent : Consistent config
config-Consistent = record { one = omega arith; bounds = omega arith; thresholds = omega arith }

pool_bounded_example :
    (1 ≤ length (run_rounds scaling 4 config (20 ∷ 16 ∷ []) 0).0)
    × (length (run_rounds scaling 4 config (20 ∷ 16 ∷ []) 0).0 ≤ 3)
pool_bounded_example = pool_bounded scaling config 4 (20 ∷ 16 ∷ []) 0 (omega arith, omega arith)

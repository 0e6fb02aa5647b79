-- ===== src/Node/Process/Examples.antt =====
-- A process node whose loop hangs.
use data_pipeline_orchestrat.Base.{ℕ, ◌≡◌, arith, [], ◌∷◌, true, false}
use data_pipeline_orchestrat.Node.{NodeState}
use data_pipeline_orchestrat.Node.Process.{Shared, process_status}
use data_pipeline_orchestrat.Node.Health.{tick, iterates, looks, happen_all}
use data_pipeline_orchestrat.Node.Health.Laws.{status_on_time}

abbrev started : NodeState (Shared ℕ)
started = record {
  is_running = true;
  is_ready = true;
  failed = false;
  stop_requested = false;
  outside = record {
    now = 40;
    healthy = true;
    last_success_time = 38;
    last_iteration_time = 39;
    outside = 0;
  };
}

-- Idle for a while, then a hang of 12 ticks.
status_on_time_example :
    process_status
      (happen_all 10 (tick 8 ∷ iterates ∷ tick 9 ∷ looks ∷ tick 3 ∷ looks ∷ []) started)
    ≡ false
unfolding process_status
status_on_time_example =
    status_on_time 10 (tick 8 ∷ iterates ∷ tick 9 ∷ looks ∷ tick 3 ∷ looks ∷ []) started
      (omega arith)

-- ===== src/Node/Examples.antt =====
-- A node whose `process` always raises, under the policy `fail`.
use data_pipeline_orchestrat.Base.{
  ℕ, ◌+◌, ◌≡◌, refl, Bool, none, some, true, false, value_error, returned, raised,
}
use data_pipeline_orchestrat.Policy.Config.{fail}
use data_pipeline_orchestrat.Policy.Execute.{
  ErrorPolicy, no_stats, plain, execute, attempts_from, end_attempt, give_up, terminal,
  start_attempt, count_error, count_failure,
}
use data_pipeline_orchestrat.Node.{NodeState, Services, turn_cancelled, run_loop}
use data_pipeline_orchestrat.Node.Laws.{failure_ends_loop}
use data_pipeline_orchestrat.Node.Fixtures.{runtime}

-- Receives 5 every time; the world counts the sent messages.
abbrev services_with : Bool → Services ℕ ℕ ℕ ℕ
services_with cancelled = record {
  receive = λ s. (some 5, s);
  send = λ reply s. (returned tt, record s { outside = s.outside + 1 });
  is_cancelled = some (λ turn s. (cancelled, s));
  turn_of = λ item. record { session_id = none; turn_id = some item };
  process = plain (λ item s. (raised value_error, s));
  wait_for_stop = λ d s. (false, s);
  is_empty_batch = λ v. false;
}

abbrev failing : ErrorPolicy ℕ
failing = record {
  config = record {
    on_error = fail;
    max_retries = 0;
    initial_backoff = 1;
    max_backoff = 8;
    backoff_multiplier = 2;
    jitter = false;
    dead_letter_dir = none;
    store_payload = false;
  };
  node_id = "asr";
  stats = no_stats;
  sink = none;
}

abbrev started : NodeState ℕ
started = record {
  is_running = true;
  is_ready = true;
  failed = false;
  stop_requested = false;
  outside = 0;
}

failure_ends_loop_example : run_loop (services_with false) runtime 10 failing started ≡ (
  returned tt,
  count_failure (count_error failing),
  record started { failed = true; is_running = false; stop_requested = true },
)
unfolding turn_cancelled execute attempts_from end_attempt give_up terminal start_attempt
failure_ends_loop_example =
    failure_ends_loop (services_with false) runtime 9 failing (count_failure (count_error failing))
      started started started started 5 refl refl refl refl

-- ===== src/Service/Manager.antt =====
-- `PipelineServiceManager` of service/pipeline_manager.py. The processes belong to the system: `W`
-- is its state, and what `BasePipeline` offers of one is a parameter.
pub mod Laws
pub mod Examples
use data_pipeline_orchestrat.Base.{
  ℕ, String, Option, none, some, List, [], ◌∷◌, Bool, true, false, ◌||◌, Dict, lookup, has_key,
  assign, delete, Exception, value_error, Outcome, returned, raised, Act, if◌then◌else◌,
}

-- A pipeline process and its stop event are one handle `P`.
pub record Processes (W P C : Type 0) : Type 0 where
  -- BasePipeline(...) and its start
  pub launch : String → C → Act W P
  pub set_stop : P → W → W
  -- join(timeout=5)
  pub join : P → W → W
  pub is_alive : P → W → Bool
  pub terminate : P → W → W

pub record Manager (P C : Type 0) : Type 0 where
  pub pipelines : Dict P
  pub external_pipelines : Dict C

pub data Status : Type 0 where
  running stopped : Status

module _ {W P C : Type 0} (os : Processes W P C) where
  abbrev pub Update : Type 0
  Update = Outcome (Unit {0}) × Manager P C × W

  pub name_taken : String → Manager P C → Bool
  name_taken name m = has_key name m.pipelines || has_key name m.external_pipelines

  abbrev pub after_launch : String → Manager P C → Outcome P × W → Update
  after_launch name m (raised e, w) = (raised e, m, w)
  after_launch name m (returned p, w) =
      (returned tt, record m { pipelines = assign name p m.pipelines }, w)

  pub start_pipeline : String → C → Manager P C → W → Update
  unfolding name_taken
  start_pipeline name config m w =
      if name_taken name m
      then (raised value_error, m, w)
      else after_launch name m (os.launch name config w)

  -- stop_event.set(), join, and terminate if the process is still alive
  pub shut_down : P → W → W
  shut_down p w =
      let w1 = os.join p (os.set_stop p w) in if os.is_alive p w1 then os.terminate p w1 else w1

  -- The branches of `stop_pipeline`, by what is managed under the name.
  pub stop_found : Option P → String → Manager P C → W → Update
  unfolding shut_down
  stop_found none name m w = (raised value_error, m, w)
  stop_found (some p) name m w =
      (returned tt, record m { pipelines = delete name m.pipelines }, shut_down p w)

  pub stop_pipeline : String → Manager P C → W → Update
  unfolding stop_found
  stop_pipeline name m w = stop_found (lookup name m.pipelines) name m w

  pub register_external_pipeline : String → C → Manager P C → W → Update
  unfolding name_taken
  register_external_pipeline name config m w =
      if name_taken name m then (raised value_error, m, w) else (
        returned tt,
        record m { external_pipelines = assign name config m.external_pipelines },
        w,
      )

  pub unregister_external_pipeline : String → Manager P C → W → Update
  unregister_external_pipeline name m w =
      if has_key name m.external_pipelines
      then (returned tt, record m { external_pipelines = delete name m.external_pipelines }, w)
      else (raised value_error, m, w)

  abbrev pub process_status : P → W → Status
  process_status p w = if os.is_alive p w then running else stopped

  -- The comprehension over the managed pipelines.
  pub managed_statuses : Dict P → W → Dict Status
  managed_statuses [] w = []
  managed_statuses ((name, p) ∷ rest) w = (name, process_status p w) ∷ managed_statuses rest w

  -- statuses.update(dict.fromkeys(external, "running"))
  pub update_running : Dict C → Dict Status → Dict Status
  update_running [] d = d
  update_running ((name, c) ∷ rest) d = update_running rest (assign name running d)

  pub status : Manager P C → W → Dict Status
  unfolding managed_statuses update_running
  status m w = update_running m.external_pipelines (managed_statuses m.pipelines w)

-- A call of the manager's interface.
pub data Request (C : Type 0) : Type 0 where
  start : String → C → Request C
  stop : String → Request C
  register : String → C → Request C
  unregister : String → Request C

module _ {W P C : Type 0} (os : Processes W P C) where
  pub serve : Request C → Manager P C → W → Outcome (Unit {0}) × Manager P C × W
  serve (start name config) m w = start_pipeline os name config m w
  serve (stop name) m w = stop_pipeline os name m w
  serve (register name config) m w = register_external_pipeline os name config m w
  serve (unregister name) m w = unregister_external_pipeline os name m w

  -- A refused call leaves the manager as it stands for the next one.
  pub serve_all : List (Request C) → Manager P C → W → Manager P C × W
  unfolding serve
  serve_all [] m w = (m, w)
  serve_all (r ∷ rs) m w = let (result, m1, w1) = serve r m w in serve_all rs m1 w1

-- ===== src/Node/Health.antt =====
-- `_health_monitor` of core/base/base_process.py, beside the loop of the node: the events of both
-- threads that bear on the health of a node, in the order in which they happen.
pub mod Laws
use data_pipeline_orchestrat.Base.{
  ℕ, ◌+◌, ◌-◌, List, [], ◌∷◌, Bool, true, false, ltb, if◌then◌else◌,
}
use data_pipeline_orchestrat.Node.{NodeState}
use data_pipeline_orchestrat.Node.Process.{Shared, stamp_iteration, stamp_success}

pub data Event : Type 0 where
  -- the clock moves on
  tick : ℕ → Event
  -- a pass of the loop begins
  iterates : Event
  -- the loop has sent or processed something
  succeeds : Event
  -- the monitor wakes up
  looks : Event

module _ {W : Type 0} (health_timeout : ℕ) where
  -- The body of the monitor's loop after its sleep.
  pub monitor_look : NodeState (Shared W) → NodeState (Shared W)
  monitor_look s =
      if ltb health_timeout (s.outside.now - s.outside.last_iteration_time)
      then record s { outside = record s.outside { healthy = false } }
      else s

  pub happen : Event → NodeState (Shared W) → NodeState (Shared W)
  unfolding monitor_look stamp_iteration stamp_success
  happen (tick d) s = record s { outside = record s.outside { now = s.outside.now + d } }
  happen iterates s = stamp_iteration s
  happen succeeds s = stamp_success s
  happen looks s = monitor_look s

  pub happen_all : List Event → NodeState (Shared W) → NodeState (Shared W)
  unfolding happen
  happen_all [] s = s
  happen_all (e ∷ es) s = happen_all es (happen e s)

-- ===== src/Node/Process.antt =====
-- The loop of a process node, core/base/base_process.py. It shares `_handle` and `_should_send` with
-- the thread nodes; its send passes errors on, and time stamps say what it last did. The clock is a
-- part of the world, in ticks, which any call may have moved on.
pub mod Laws
pub mod Examples
use data_pipeline_orchestrat.Base.{
  ℕ, zero, suc, ◌-◌, Option, none, some, Bool, true, false, not, leb, Outcome, returned, raised,
  Act, is_caught, if◌then◌else◌,
}
use data_pipeline_orchestrat.Policy.Execute.{ErrorPolicy, Reply, value, Runtime}
use data_pipeline_orchestrat.Node.{NodeState, Services, Handled, Looped, handle, should_send}

-- The shared memory of a process node, and the clock; `outside` is the rest of the world.
pub record Shared (W : Type 0) : Type 0 where
  pub now : ℕ
  pub healthy : Bool
  pub last_success_time : ℕ
  pub last_iteration_time : ℕ
  pub outside : W

module _ {W : Type 0} where
  -- with self._last_success_time.get_lock(): ...
  unfoldable pub stamp_success : NodeState (Shared W) → NodeState (Shared W)
  stamp_success s = record s { outside = record s.outside { last_success_time = s.outside.now } }

  unfoldable pub stamp_iteration : NodeState (Shared W) → NodeState (Shared W)
  stamp_iteration s = record s {
    outside = record s.outside { last_iteration_time = s.outside.now };
  }

  -- `_mark_running`
  pub mark_running : NodeState (Shared W) → NodeState (Shared W)
  mark_running s = record s {
    outside = record s.outside {
      healthy = true;
      last_success_time = s.outside.now;
      last_iteration_time = s.outside.now;
    };
  }

  -- `stop`
  pub stop_process : NodeState (Shared W) → NodeState (Shared W)
  stop_process s = record s { stop_requested = true }

  -- `status`
  unfoldable pub process_status : NodeState (Shared W) → Bool
  process_status s = s.outside.healthy

  -- `is_processing`
  pub is_processing : (health_timeout : ℕ) → NodeState (Shared W) → Bool
  is_processing health_timeout s = leb (s.outside.now - s.outside.last_success_time) health_timeout

module _ {W F Item V : Type 0} (calls : Services (Shared W) F Item V)
    (rt : Runtime (NodeState (Shared W)) F Item) where
  abbrev pub stamp_sent :
      Outcome (Unit {0}) × NodeState (Shared W) → Outcome (Unit {0}) × NodeState (Shared W)
  unfolding stamp_success
  stamp_sent (returned u, s) = (returned tt, stamp_success s)
  stamp_sent (raised e, s) = (raised e, s)

  -- `_send_item`: an error is not caught here.
  pub process_send : Reply V → Act (NodeState (Shared W)) (Unit {0})
  process_send reply s = stamp_sent (calls.send reply s)

  -- The end of the `try` body.
  abbrev pub after_reply :
      ErrorPolicy F → Outcome (Unit {0}) × NodeState (Shared W) → Looped (Shared W) F
  after_reply p (raised e, s) = (raised e, p, s)
  after_reply p (returned u, s) = (returned tt, p, stamp_success s)

  abbrev pub after_handling : Handled (Shared W) F V → Looped (Shared W) F
  after_handling (raised e, p, s) = (raised e, p, s)
  after_handling (returned r, p, s) =
      if should_send calls r
      then after_reply p (process_send r s)
      else (returned tt, p, stamp_success s)

  abbrev pub after_collect :
      ErrorPolicy F → Option Item × NodeState (Shared W) → Looped (Shared W) F
  after_collect p (none, s) = (returned tt, p, s)
  after_collect p (some item, s) =
      after_handling (handle calls rt (λ v. process_send (value v)) p item s)

  -- `except Exception`: the error is logged and the loop goes on.
  abbrev pub except_logged : Looped (Shared W) F → Looped (Shared W) F
  except_logged (returned u, p, s) = (returned tt, p, s)
  except_logged (raised e, p, s) = if is_caught e then (returned tt, p, s) else (raised e, p, s)

  -- One pass of `while not self.stop_event.is_set()`.
  pub process_round : ErrorPolicy F → NodeState (Shared W) → Looped (Shared W) F
  unfolding handle should_send process_send stamp_iteration
  process_round p s = except_logged (after_collect p (calls.receive (stamp_iteration s)))

  abbrev pub next_pass :
      (ErrorPolicy F → NodeState (Shared W) → Looped (Shared W) F)
      → Looped (Shared W) F
      → Looped (Shared W) F
  next_pass rest (raised e, p, s) = (raised e, p, s)
  next_pass rest (returned u, p, s) = rest p s

  -- The loop of `run`, for at most this many passes.
  pub process_loop : ℕ → ErrorPolicy F → NodeState (Shared W) → Looped (Shared W) F
  unfolding process_round
  process_loop zero p s = (returned tt, p, s)
  process_loop (suc n) p s =
      let rest = next_pass (process_loop n) (process_round p s) in
      if s.stop_requested then (returned tt, p, s) else rest

  -- `run`, whose set-up is the parameter `prepare`.
  pub run_process :
      (NodeState (Shared W) → NodeState (Shared W))
      → ℕ
      → ErrorPolicy F
      → NodeState (Shared W)
      → Looped (Shared W) F
  unfolding process_loop mark_running
  run_process prepare n p s = process_loop n p (mark_running (prepare s))

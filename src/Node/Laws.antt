-- ===== src/Node/Laws.antt =====
-- What ends the loop of a node, and what does not.
use data_pipeline_orchestrat.Base.{
  ℕ, zero, suc, ◌≡◌, refl, some, true, false, node_failure, returned, raised,
}
use data_pipeline_orchestrat.Policy.Execute.{value, ErrorPolicy, Runtime, execute}
use data_pipeline_orchestrat.Node.{
  NodeState, Services, send_item, turn_cancelled, should_send, callbacks, handle, round, run_loop,
  stop_node, node_status, has_failed,
}

module _ {W F Item V : Type 0} (calls : Services W F Item V)
    (rt : Runtime (NodeState W) F Item) where
  run_loop-halted :
      (n : ℕ) (p : ErrorPolicy F) (s : NodeState W)
      → s.is_running ≡ false
      → run_loop calls rt n p s ≡ (returned tt, p, s)
  unfolding run_loop
  run_loop-halted zero p s h = refl
  run_loop-halted (suc n) p s h = rw h refl

  -- A node that runs receives a message whose turn is not cancelled, and its policy gives up under
  -- `fail`: however many rounds the loop is given, it ends there without an exception. The failure
  -- is flagged, the node is stopped, and nothing more is received or sent.
  pub failure_ends_loop :
      (n : ℕ) (p p1 : ErrorPolicy F) (s s1 s2 s3 : NodeState W) (item : Item)
      → s.is_running ≡ true
      → calls.receive s ≡ (some item, s1)
      → turn_cancelled calls (calls.turn_of item) s1 ≡ (false, s2)
      → execute rt calls.process
          (callbacks calls (λ v. send_item calls (value v)) (calls.turn_of item))
          item
          p
          s2
        ≡ (raised node_failure, p1, s3)
      → run_loop calls rt (suc n) p s
        ≡ (returned tt, p1, record s3 { failed = true; is_running = false; stop_requested = true })
  unfolding run_loop round handle should_send
  failure_ends_loop n p p1 s s1 s2 s3 item on got live gave_up =
      rw (got, live, gave_up, on)
        (run_loop-halted n p1
          (record s3 { failed = true; is_running = false; stop_requested = true }) refl)

  -- A message of a cancelled turn is neither processed nor answered: a round that receives it
  -- leaves the policy's counters as they were.
  pub cancelled_skipped :
      (p : ErrorPolicy F) (s s1 s2 : NodeState W) (item : Item)
      → calls.receive s ≡ (some item, s1)
      → turn_cancelled calls (calls.turn_of item) s1 ≡ (true, s2)
      → round calls rt p s ≡ (returned tt, p, s2)
  unfolding round handle should_send
  cancelled_skipped p s s1 s2 item got cancelled = rw (got, cancelled) refl

  -- A node that is stopped before its loop looks at the flag again receives nothing more, however
  -- many rounds the loop is given, and is reported as not ready, and as failed only if it had
  -- failed, provided that the mailbox's `stop` leaves the node's flags alone.
  pub stopped_node_halts :
      (n : ℕ) (p : ErrorPolicy F) (s : NodeState W) (stop_mailbox : NodeState W → NodeState W)
      → ((t : NodeState W) → (stop_mailbox t).is_running ≡ t.is_running)
      → ((t : NodeState W) → (stop_mailbox t).is_ready ≡ t.is_ready)
      → ((t : NodeState W) → (stop_mailbox t).failed ≡ t.failed)
      → (run_loop calls rt n p (stop_node stop_mailbox s)
          ≡ (returned tt, p, stop_node stop_mailbox s))
        × (node_status (stop_node stop_mailbox s) ≡ false)
        × (has_failed (stop_node stop_mailbox s) ≡ has_failed s)
  unfolding stop_node node_status has_failed
  stopped_node_halts n p s stop_mailbox on ready failing =
      (run_loop-halted n p (stop_node stop_mailbox s) (on _), ready _, failing _)

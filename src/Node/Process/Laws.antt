-- ===== src/Node/Process/Laws.antt =====
-- How the loop of a process node takes the failures of its policy and of its sends.
use data_pipeline_orchestrat.Base.{
  ℕ, zero, suc, ap, ◌≡◌, ◌≢◌, refl, some, true, false, Exception, stop_iteration, node_failure,
  returned, raised, is_caught,
}
use data_pipeline_orchestrat.Policy.Execute.{
  ErrorPolicy, Callbacks, value, Gen, yields, generator, Runtime, cancelled, deliver, execute,
  give_up, count_error,
}
use data_pipeline_orchestrat.Policy.Execute.SendFailure.{send_failure_gives_up}
use data_pipeline_orchestrat.Node.{
  NodeState, Services, turn_cancelled, callbacks, after_execute, handle, should_send,
}
use data_pipeline_orchestrat.Node.Process.{
  Shared, stamp_iteration, stamp_success, process_send, process_round, process_loop,
}

module _ {W F Item V : Type 0} (calls : Services (Shared W) F Item V)
    (rt : Runtime (NodeState (Shared W)) F Item) where
  process_loop-halted :
      (n : ℕ) (p : ErrorPolicy F) (s : NodeState (Shared W))
      → s.stop_requested ≡ true
      → process_loop calls rt n p s ≡ (returned tt, p, s)
  unfolding process_loop
  process_loop-halted zero p s h = refl
  process_loop-halted (suc n) p s h = rw h refl

  -- When the policy of a process node gives up under `fail`, the pass is the last one: however many
  -- passes the loop is given, it ends without an exception, the failure is flagged, and the time
  -- stamp of the last success is set all the same.
  pub process_failure_ends_loop :
      (n : ℕ) (p p1 : ErrorPolicy F) (s s1 s2 s3 : NodeState (Shared W)) (item : Item)
      → s.stop_requested ≡ false
      → calls.receive (stamp_iteration s) ≡ (some item, s1)
      → turn_cancelled calls (calls.turn_of item) s1 ≡ (false, s2)
      → execute rt calls.process
          (callbacks calls (λ v. process_send calls rt (value v)) (calls.turn_of item))
          item
          p
          s2
        ≡ (raised node_failure, p1, s3)
      → process_loop calls rt (suc n) p s ≡ (
        returned tt,
        p1,
        stamp_success (record s3 { failed = true; is_running = false; stop_requested = true }),
      )
  unfolding process_loop process_round handle should_send stamp_success
  process_failure_ends_loop n p p1 s s1 s2 s3 item on got live gave_up =
      rw (got, live, gave_up, on)
        (process_loop-halted n p1
          (stamp_success (record s3 { failed = true; is_running = false; stop_requested = true }))
          refl)

-- A failure to send the first item that a generator yields does not reach the loop of a process
-- node: the policy takes it, and gives the message up at once, as it does with an error of
-- `process`. So it is dead-lettered, and it stops the node if the policy is `fail`.
pub streamed_send_failure :
    {W F Item V : Type 0} (calls : Services (Shared W) F Item V)
    (rt : Runtime (NodeState (Shared W)) F Item)
    (body : Item → NodeState (Shared W) → Gen (NodeState (Shared W)) V) (p : ErrorPolicy F)
    (item : Item) (v : V) (gen : Gen (NodeState (Shared W)) V) (e : Exception)
    (s s1 s2 s3 : NodeState (Shared W))
    → calls.process ≡ generator body
    → turn_cancelled calls (calls.turn_of item) s ≡ (false, s1)
    → body item s1 ≡ yields v gen
    → turn_cancelled calls (calls.turn_of item) s1 ≡ (false, s2)
    → calls.send (value v) s2 ≡ (raised e, s3)
    → e ≢ stop_iteration
    → is_caught e ≡ true
    → handle calls rt (λ x. process_send calls rt (value x)) p item s
      ≡ after_execute {V = V} (give_up rt (count_error p) item e s3)
unfolding handle callbacks process_send stamp_success cancelled deliver
streamed_send_failure {F = F} {V = V} calls rt body p item v gen e s s1 s2 s3 streams live yielded
      live1 failed other caught =
    let cb : Callbacks (NodeState _) F V =
      callbacks calls (λ x. process_send calls rt (value x)) (calls.turn_of item) in
    rw (live, streams)
      (ap after_execute (
        send_failure_gives_up rt body cb item p s1 s2 s3 v gen e yielded live1 (rw failed refl)
          other caught))

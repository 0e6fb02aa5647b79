-- ===== src/Node/Health/Laws.antt =====
-- When a node counts as healthy, told from the gaps between the passes of its loop.
use data_pipeline_orchestrat.Base.{
  ℕ, ◌+◌, ◌-◌, ◌≤◌, ◌<◌, ◌≡◌, ◌∙◌, arith, List, [], ◌∷◌, ◌++◌, Bool, true, false, ◌&&◌, ltb, leb,
  ap, Bool-cases, inl, inr,
}
use data_pipeline_orchestrat.Node.{NodeState}
use data_pipeline_orchestrat.Node.Process.{Shared, stamp_iteration, stamp_success, process_status}
use data_pipeline_orchestrat.Node.Health.{
  Event, tick, iterates, succeeds, looks, monitor_look, happen, happen_all,
}

-- Whether every look of the monitor comes at most `health_timeout` after the last pass of the loop
-- began, if that was `gap` ago at first.
abbrev pub on_time : (health_timeout gap : ℕ) → List Event → Bool
on_time timeout gap [] = true
on_time timeout gap (tick d ∷ es) = on_time timeout (gap + d) es
on_time timeout gap (iterates ∷ es) = on_time timeout 0 es
on_time timeout gap (succeeds ∷ es) = on_time timeout gap es
on_time timeout gap (looks ∷ es) = leb gap timeout && on_time timeout gap es

-- How much time the events take, up to the next pass of the loop.
abbrev pub elapsed : List Event → ℕ
elapsed [] = 0
elapsed (tick d ∷ es) = d + elapsed es
elapsed (iterates ∷ es) = 0
elapsed (succeeds ∷ es) = elapsed es
elapsed (looks ∷ es) = elapsed es

-- No pass of the loop begins.
abbrev pub hangs : List Event → Bool
hangs [] = true
hangs (iterates ∷ es) = false
hangs (tick d ∷ es) = hangs es
hangs (succeeds ∷ es) = hangs es
hangs (looks ∷ es) = hangs es

-- A hang that is longer than the timeout is late at the next look.
late :
    (health_timeout : ℕ) (es fs : List Event) (gap : ℕ)
    → hangs es ≡ true
    → health_timeout < gap + elapsed es
    → on_time health_timeout gap (es ++ looks ∷ fs) ≡ false
late n [] fs gap h k = ground arith
late n (tick d ∷ es) fs gap h k = late n es fs (gap + d) h (omega arith)
late n (iterates ∷ es) fs gap h k = cc
late n (succeeds ∷ es) fs gap h k = late n es fs gap h k
late n (looks ∷ es) fs gap h k = ground (arith, late n es fs gap h k)

module _ {W : Type 0} (health_timeout : ℕ) where
  -- A node is reported healthy exactly if it was so at first and every look of the monitor came in
  -- time after the begin of a pass, whatever else happened between. In particular an idle node,
  -- whose loop goes on without a success, stays healthy, and a node that was late once is never
  -- reported healthy again.
  pub status_on_time :
      (es : List Event) (s : NodeState (Shared W))
      → s.outside.last_iteration_time ≤ s.outside.now
      → process_status (happen_all health_timeout es s) ≡ (
          process_status s
          && on_time health_timeout (s.outside.now - s.outside.last_iteration_time) es)
  unfolding happen_all happen process_status monitor_look stamp_iteration stamp_success
  status_on_time [] s h = ground arith
  status_on_time (tick d ∷ es) s h =
      let t = happen health_timeout (tick d) s in
      let later : s.outside.now + d - s.outside.last_iteration_time
          ≡ s.outside.now - s.outside.last_iteration_time + d =
        omega (arith, h) in
      status_on_time es t (omega (arith, h))
      ∙ ap (λ gap. process_status s && on_time health_timeout gap es) later
  status_on_time (iterates ∷ es) s h =
      let t = happen health_timeout iterates s in
      let none_gone : s.outside.now - s.outside.now ≡ 0 = omega arith in
      status_on_time es t (omega arith)
      ∙ ap (λ gap. process_status s && on_time health_timeout gap es) none_gone
  status_on_time (succeeds ∷ es) s h = status_on_time es (stamp_success s) h
  status_on_time (looks ∷ es) s h =
      elim (Bool-cases (ltb health_timeout (s.outside.now - s.outside.last_iteration_time))) [
        | inl e ↦ rw e (
            ground (
              arith,
              status_on_time es (record s { outside = record s.outside { healthy = false } }) h,
            ))
        | inr e ↦ rw e (ground (arith, status_on_time es s h))
      ]

  -- A node whose loop hangs for longer than the timeout is reported unhealthy from the next look of
  -- the monitor on, whatever happens afterwards.
  pub hang_detected :
      (es fs : List Event) (s : NodeState (Shared W))
      → s.outside.last_iteration_time ≤ s.outside.now
      → hangs es ≡ true
      → health_timeout < (s.outside.now - s.outside.last_iteration_time) + elapsed es
      → process_status (happen_all health_timeout (es ++ looks ∷ fs) s) ≡ false
  hang_detected es fs s h k l = ground (
    arith,
    status_on_time (es ++ looks ∷ fs) s h,
    late health_timeout es fs (s.outside.now - s.outside.last_iteration_time) k l,
  )

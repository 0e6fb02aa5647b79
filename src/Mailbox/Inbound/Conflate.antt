-- ===== src/Mailbox/Inbound/Conflate.antt =====
-- What the policy `conflate` does with a queue, full or not.
use mathlib.Core.Path.{subst}
use data_pipeline_orchestrat.Base.{
  sym, ◌++◌, ℕ, zero, suc, ◌+◌, ◌≡◌, ap, arith, List, [], ◌∷◌, length,
}
use data_pipeline_orchestrat.Mailbox.Inbound.{
  first_call, conflate, idle, clearing, Inbound, arrive, receiver_step,
}

-- The receiver thread alone, for this many calls.
pub run_receiver : {M : Type 0} → ℕ → Inbound M → Inbound M
run_receiver zero s = s
run_receiver (suc n) s = run_receiver n (receiver_step s.receiver s)

module _ {M : Type 0} (m : M) where
  -- From the loop of `_enqueue_conflate` with this queue.
  clear_and_store :
      (q : List M) (s : Inbound M)
      → let t =
          run_receiver (suc (suc (length q))) (record s { queue = q; receiver = clearing m }) in
        (t.queue ≡ m ∷ []) × (t.drops ≡ s.drops + length q) × (t.receiver ≡ idle)
  unfolding run_receiver receiver_step
  clear_and_store [] s = ground arith
  clear_and_store (x ∷ q) s =
      let (stored, counted, idles) = clear_and_store q (record s { drops = s.drops + 1 }) in
      (stored, omega (arith, counted), idles)

  -- With no other thread in between, `_enqueue_conflate` replaces the whole queue by the new
  -- message and counts every other as a drop, whether the queue was full or not.
  pub conflate_replaces :
      (s : Inbound M)
      → s.policy ≡ conflate
      → let t = run_receiver (suc (suc (length s.queue))) (arrive m s) in
        (t.queue ≡ m ∷ []) × (t.drops ≡ s.drops + length s.queue) × (t.receiver ≡ idle)
  unfolding arrive
  conflate_replaces s e =
      subst
        (λ r.
          let t =
            run_receiver (suc (suc (length s.queue)))
              (record s { receiver = r; arrived = s.arrived ++ m ∷ [] }) in
          (t.queue ≡ m ∷ []) × (t.drops ≡ s.drops + length s.queue) × (t.receiver ≡ idle))
        (ap (λ p. first_call p m) (sym e))
        (clear_and_store s.queue (record s { arrived = s.arrived ++ m ∷ [] }))

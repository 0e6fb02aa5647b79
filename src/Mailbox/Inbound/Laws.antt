-- ===== src/Mailbox/Inbound/Laws.antt =====
-- The promises of the three queue policies, under any interleaving of receiver thread and node.
use mathlib.Core.List.{Sublist}
use mathlib.Core.Path.{subst}
use data_pipeline_orchestrat.Base.{
  ℕ, ◌+◌, ◌≤◌, ◌<◌, ◌≡◌, refl, ◌∙◌, arith, List, [], ◌∷◌, ◌++◌, true, false, length,
}
use data_pipeline_orchestrat.Mailbox.Inbound.{
  clearing, arrives, evicting, stop, receive, receive_from, Receiver, append, arrive, QueuePolicy,
  block, retrying, Inbound, new_inbound, is_full, drop_oldest_retry, Reach, here, next, Step,
  in_hand, receiver_step, idle, enqueues, receives, stops,
}
use data_pipeline_orchestrat.Mailbox.Inbound.Invariant.{InvAt, Inv, new_inbound-Inv}
use data_pipeline_orchestrat.Mailbox.Inbound.Steps.{Reach-Inv}

-- No step changes the policy or the bound.
abbrev Keeps : {M : Type 0} → Inbound M → Inbound M → Type 0
Keeps s t = (t.policy ≡ s.policy) × (t.maxsize ≡ s.maxsize)

receiver_step-Keeps : {M : Type 0} (r : Receiver M) (s : Inbound M) → Keeps s (receiver_step r s)
unfolding receiver_step
receiver_step-Keeps idle s = (refl, refl)
receiver_step-Keeps (evicting m) s = ground arith
receiver_step-Keeps (clearing m) s = ground arith
receiver_step-Keeps _ s = ground arith

receive_from-Keeps : {M : Type 0} (q : List M) (s : Inbound M) → Keeps s (receive_from q s).1
unfolding receive_from
receive_from-Keeps [] s = (refl, refl)
receive_from-Keeps (x ∷ rest) s = (refl, refl)

Step-Keeps : {M : Type 0} {s t : Inbound M} → Step s t → Keeps s t
unfolding arrive receive stop
Step-Keeps (arrives m e) = (refl, refl)
Step-Keeps {s = s} enqueues = receiver_step-Keeps s.receiver s
Step-Keeps {s = s} receives = receive_from-Keeps s.queue s
Step-Keeps stops = (refl, refl)

pub Reach-Keeps : {M : Type 0} {s t : Inbound M} → Reach s t → Keeps s t
Reach-Keeps here = (refl, refl)
Reach-Keeps (next r st) =
    let (p, n) = Reach-Keeps r in let (p', n') = Step-Keeps st in (p' ∙ p, n' ∙ n)

module _ {M : Type 0} (policy : QueuePolicy) (maxsize : ℕ) (s : Inbound M) where
  reached-Inv : Reach (new_inbound policy maxsize) s → Inv s
  reached-Inv r = Reach-Inv r (new_inbound-Inv policy maxsize)

  -- Under any policy, and any interleaving, a queue created with a bound never holds more
  -- messages than that.
  pub queue_bounded : Reach (new_inbound policy maxsize) s → 0 < maxsize → length s.queue ≤ maxsize
  unfolding new_inbound
  queue_bounded r h =
      let (_, n) = Reach-Keeps r in omega (arith, n, (reached-Inv r).bounded (rw n h))

  -- Until the mailbox is stopped, every message that arrived has been returned by `receive`, is in
  -- the queue, is in the receiver thread's hand, or is counted in the drop metric.
  pub drops_counted :
      Reach (new_inbound policy maxsize) s
      → s.running ≡ true
      → length s.received + length s.queue + length (in_hand s.receiver) + s.drops
        ≡ length s.arrived
  drops_counted r h = (reached-Inv r).counted h

  -- Under any policy the node gets messages in the order of arrival: what it has got, what is
  -- queued and what is in the receiver thread's hand is a sublist of what arrived.
  pub arrival_order :
      Reach (new_inbound policy maxsize) s
      → Sublist (s.received ++ (s.queue ++ in_hand s.receiver)) s.arrived
  arrival_order r = (reached-Inv r).ordered

-- Until the mailbox is stopped, `block` loses nothing and reorders nothing.
pub block_lossless :
    {M : Type 0} (maxsize : ℕ) (s : Inbound M)
    → Reach (new_inbound block maxsize) s
    → s.running ≡ true
    → s.received ++ (s.queue ++ in_hand s.receiver) ≡ s.arrived
unfolding new_inbound
block_lossless maxsize s r on = (reached-Inv block maxsize s r).lossless on (Reach-Keeps r).0

-- When `drop_oldest` comes to its second `put_nowait`, the new message is queued: the branch that
-- drops it is never taken.
pub drop_oldest_keeps_newest :
    {M : Type 0} (policy : QueuePolicy) (maxsize : ℕ) (s : Inbound M) (m : M)
    → Reach (new_inbound policy maxsize) s
    → s.receiver ≡ retrying m
    → drop_oldest_retry s m ≡ append s m
unfolding drop_oldest_retry
drop_oldest_keeps_newest policy maxsize s m r e =
    let room : is_full s ≡ false =
      let h : InvAt (retrying m) s = subst (λ x. InvAt x s) e (reached-Inv policy maxsize s r) in
      h.ready in
    rw room refl

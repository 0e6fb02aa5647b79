-- ===== src/Mailbox/Inbound/Examples.antt =====
-- The laws of the inbound queue at small runs of its threads.

use data_pipeline_orchestrat.Base.{ℕ, ◌+◌, ◌≤◌, ◌≡◌, refl, arith, ◌++◌, true, length}
use data_pipeline_orchestrat.Mailbox.Inbound.{
  QueuePolicy, block, drop_oldest, Inbound, new_inbound, arrive, enqueue_block, drop_oldest_put,
  drop_oldest_evict, receiver_step, Reach, here, next, arrives, enqueues, in_hand,
}
use data_pipeline_orchestrat.Mailbox.Inbound.Laws.{queue_bounded, drops_counted, block_lossless}

-- A message is queued, and another one is on its way.
abbrev first_of : QueuePolicy → Inbound ℕ
first_of policy = arrive 5 (new_inbound policy 1)

abbrev queued_in : QueuePolicy → Inbound ℕ
queued_in policy = receiver_step (first_of policy).receiver (first_of policy)

abbrev second_of : QueuePolicy → Inbound ℕ
second_of policy = arrive 6 (queued_in policy)

abbrev full_of : QueuePolicy → Inbound ℕ
full_of policy = receiver_step (second_of policy).receiver (second_of policy)

abbrev evicted_of : QueuePolicy → Inbound ℕ
evicted_of policy = receiver_step (full_of policy).receiver (full_of policy)

blocked : Reach (new_inbound block 1) (full_of block)
unfolding new_inbound arrive receiver_step enqueue_block
blocked = next (next (next (next here (arrives 5 refl)) enqueues) (arrives 6 refl)) enqueues

evicted : Reach (new_inbound drop_oldest 1) (evicted_of drop_oldest)
unfolding new_inbound arrive receiver_step drop_oldest_put
evicted =
    next (next (next (next (next here (arrives 5 refl)) enqueues) (arrives 6 refl)) enqueues)
      enqueues

queue_bounded_example : length (evicted_of drop_oldest).queue ≤ 1
queue_bounded_example = queue_bounded drop_oldest 1 (evicted_of drop_oldest) evicted (omega arith)

evicted_running : (evicted_of drop_oldest).running ≡ true
unfolding new_inbound arrive receiver_step drop_oldest_put drop_oldest_evict
evicted_running = refl

drops_counted_example :
    length (evicted_of drop_oldest).received
      + length (evicted_of drop_oldest).queue
      + length (in_hand (evicted_of drop_oldest).receiver)
      + (evicted_of drop_oldest).drops
    ≡ length (evicted_of drop_oldest).arrived
drops_counted_example = drops_counted drop_oldest 1 (evicted_of drop_oldest) evicted evicted_running

blocked_running : (full_of block).running ≡ true
unfolding new_inbound arrive receiver_step enqueue_block
blocked_running = refl

block_lossless_example :
    (full_of block).received ++ ((full_of block).queue ++ in_hand (full_of block).receiver)
    ≡ (full_of block).arrived
block_lossless_example = block_lossless 1 (full_of block) blocked blocked_running

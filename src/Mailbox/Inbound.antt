-- ===== src/Mailbox/Inbound.antt =====
-- The inbound queue of `ZMQMailbox`: its receiver thread, its three queue policies, and the node
-- that takes messages off it. Each call of a method of `queue.Queue` is one step, and the steps
-- of the two threads interleave in any order.
pub mod Invariant
pub mod Steps
pub mod Laws
pub mod Conflate
pub mod Examples
use data_pipeline_orchestrat.Base.{
  ℕ, zero, suc, ◌+◌, ◌≡◌, Option, none, some, List, [], ◌∷◌, ◌++◌, Bool, true, false, ◌&&◌, ltb,
  leb, length, if◌then◌else◌,
}

pub data QueuePolicy : Type 0 where
  block drop_oldest conflate : QueuePolicy

-- Where the receiver thread stands: between two messages, or at a call of the queue with the
-- message in hand.
pub data Receiver (M : Type 0) : Type 0 where
  idle : Receiver M
  -- the `put` of `_enqueue_block`
  blocking : M → Receiver M
  -- the first `put_nowait`, the `get_nowait` and the second `put_nowait` of `_enqueue_drop_oldest`
  putting : M → Receiver M
  evicting : M → Receiver M
  retrying : M → Receiver M
  -- the `get_nowait` in the loop of `_enqueue_conflate`, and its `put_nowait`
  clearing : M → Receiver M
  storing : M → Receiver M

pub record Inbound (M : Type 0) : Type 0 where
  pub policy : QueuePolicy
  -- Queue(maxsize): no bound, if it is 0
  pub maxsize : ℕ
  pub queue : List M
  pub running : Bool
  pub receiver : Receiver M
  -- QUEUE_DROPS of this mailbox, over both reasons
  pub drops : ℕ
  -- what the receiver thread has read from the socket, and what `receive` has returned
  pub arrived : List M
  pub received : List M

module _ {M : Type 0} where
  -- ZMQMailbox.__init__ and start
  unfoldable pub new_inbound : QueuePolicy → ℕ → Inbound M
  new_inbound policy maxsize = record {
    policy = policy;
    maxsize = maxsize;
    queue = [];
    running = true;
    receiver = idle;
    drops = 0;
    arrived = [];
    received = [];
  }

  -- Queue.full
  abbrev pub is_full : Inbound M → Bool
  is_full s = ltb 0 s.maxsize && leb s.maxsize (length s.queue)

  abbrev pub append : Inbound M → M → Inbound M
  append s m = record s { queue = s.queue ++ m ∷ []; receiver = idle }

  -- The dispatch of `_enqueue`.
  abbrev pub first_call : QueuePolicy → M → Receiver M
  first_call block m = blocking m
  first_call drop_oldest m = putting m
  first_call conflate m = clearing m

  -- The loop of `_receiver_loop` reads a message from the socket and calls `_enqueue`.
  pub arrive : M → Inbound M → Inbound M
  arrive m s = record s { receiver = first_call s.policy m; arrived = s.arrived ++ m ∷ [] }

  -- `put(message, timeout=...)` with `except Full: continue`: the message is given up only if the
  -- mailbox is not running any more.
  pub enqueue_block : Inbound M → M → Inbound M
  enqueue_block s m =
      if s.running
      then (if is_full s then record s { receiver = blocking m } else append s m)
      else record s { receiver = idle }

  pub drop_oldest_put : Inbound M → M → Inbound M
  drop_oldest_put s m = if is_full s then record s { receiver = evicting m } else append s m

  pub drop_oldest_evict : List M → Inbound M → M → Inbound M
  drop_oldest_evict [] s m = record s { receiver = retrying m }
  drop_oldest_evict (x ∷ rest) s m = record s {
    queue = rest;
    drops = s.drops + 1;
    receiver = retrying m;
  }

  pub drop_oldest_retry : Inbound M → M → Inbound M
  drop_oldest_retry s m =
      if is_full s then record s { drops = s.drops + 1; receiver = idle } else append s m

  pub conflate_clear : List M → Inbound M → M → Inbound M
  conflate_clear [] s m = record s { receiver = storing m }
  conflate_clear (x ∷ rest) s m = record s {
    queue = rest;
    drops = s.drops + 1;
    receiver = clearing m;
  }

  -- A `Full` that `put_nowait` raises here is logged by `_receiver_loop`, and the message is gone.
  pub conflate_store : Inbound M → M → Inbound M
  conflate_store s m = if is_full s then record s { receiver = idle } else append s m

  -- One call of the receiver thread.
  pub receiver_step : Receiver M → Inbound M → Inbound M
  unfolding enqueue_block drop_oldest_put drop_oldest_evict drop_oldest_retry conflate_clear
      conflate_store
  receiver_step idle s = s
  receiver_step (blocking m) s = enqueue_block s m
  receiver_step (putting m) s = drop_oldest_put s m
  receiver_step (evicting m) s = drop_oldest_evict s.queue s m
  receiver_step (retrying m) s = drop_oldest_retry s m
  receiver_step (clearing m) s = conflate_clear s.queue s m
  receiver_step (storing m) s = conflate_store s m

  -- `receive` of the node's thread: the oldest message, or None.
  pub receive_from : List M → Inbound M → Option M × Inbound M
  receive_from [] s = (none, s)
  receive_from (x ∷ rest) s = (some x, record s { queue = rest; received = s.received ++ x ∷ [] })

  pub receive : Inbound M → Option M × Inbound M
  unfolding receive_from
  receive s = receive_from s.queue s

  -- `stop`: the flag; the threads see it at their next look.
  pub stop : Inbound M → Inbound M
  stop s = record s { running = false }

  -- One step of either thread.
  pub data Step (s : Inbound M) : Inbound M → Type 0 where
    arrives : (m : M) → s.receiver ≡ idle → Step s (arrive m s)
    enqueues : Step s (receiver_step s.receiver s)
    receives : Step s (receive s).1
    stops : Step s (stop s)

  pub data Reach (s : Inbound M) : Inbound M → Type 0 where
    here : Reach s s
    next : {t u : Inbound M} → Reach s t → Step t u → Reach s u

  -- The message that the receiver thread has in hand.
  abbrev pub in_hand : Receiver M → List M
  in_hand idle = []
  in_hand (blocking m) = m ∷ []
  in_hand (putting m) = m ∷ []
  in_hand (evicting m) = m ∷ []
  in_hand (retrying m) = m ∷ []
  in_hand (clearing m) = m ∷ []
  in_hand (storing m) = m ∷ []

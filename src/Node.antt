-- ===== src/Node.antt =====
-- The loop of a thread node, core/base/base_node.py: from a received message through the error policy
-- to what is sent. The flags of the node and the rest of the world are one state, since the
-- callbacks of the policy change both.
pub mod Laws
pub mod Process
pub mod Health
pub mod Fixtures
pub mod Examples
use data_pipeline_orchestrat.Base.{
  ℕ, zero, suc, String, Option, none, some, List, Bool, true, false, not, Exception, node_failure,
  Outcome, returned, raised, Act, is_caught, if◌then◌else◌,
}
use data_pipeline_orchestrat.Policy.Execute.{
  ErrorPolicy, Reply, nothing, value, items, Func, Callbacks, Runtime, Run, execute,
}
use data_pipeline_orchestrat.Mailbox.Snapshot.{Turn}

pub record NodeState (W : Type 0) : Type 0 where
  pub is_running : Bool
  pub is_ready : Bool
  -- _failed_event and _stop_event
  pub failed : Bool
  pub stop_requested : Bool
  pub outside : W

-- What the node calls: its mailbox, `process`, and the wait on its stop event.
pub record Services (W F Item V : Type 0) : Type 0 where
  pub receive : NodeState W → Option Item × NodeState W
  pub send : Reply V → Act (NodeState W) (Unit {0})
  -- the mailbox's is_cancelled, if it has one
  pub is_cancelled : Option (Turn → NodeState W → Bool × NodeState W)
  -- getattr(data, "session_id", None) and getattr(data, "turn_id", None)
  pub turn_of : Item → Turn
  pub process : Func (NodeState W) Item V
  pub wait_for_stop : F → NodeState W → Bool × NodeState W
  -- isinstance(result, Batch) and len(result) == 0
  pub is_empty_batch : V → Bool

-- What a call of the node leaves.
abbrev pub Handled : (W F V : Type 0) → Type 0
Handled W F V = Outcome (Reply V) × ErrorPolicy F × NodeState W

-- `except NodeFailure`: flag the failure and let the loop fall out.
abbrev pub after_execute : {W F V : Type 0} → Handled W F V → Handled W F V
after_execute (raised node_failure, p, s) =
    (returned nothing, p, record s { failed = true; is_running = false; stop_requested = true })
after_execute (raised e, p, s) = (raised e, p, s)
after_execute (returned r, p, s) = (returned r, p, s)

module _ {W F Item V : Type 0} (calls : Services W F Item V) where
  open calls use {receive, send, is_cancelled, turn_of, process, wait_for_stop, is_empty_batch}

  pub turn_cancelled : Turn → NodeState W → Bool × NodeState W
  turn_cancelled turn s = elim is_cancelled [ none ↦ (false, s) | some f ↦ f turn s ]

  abbrev pub after_send : Outcome (Unit {0}) × NodeState W → Outcome (Unit {0}) × NodeState W
  after_send (returned u, s) = (returned tt, s)
  after_send (raised e, s) =
      if is_caught e then (returned tt, record s { is_ready = false }) else (raised e, s)

  -- `_send_item`: an error of the mailbox is logged, and the node counts as not ready.
  pub send_item : Reply V → Act (NodeState W) (Unit {0})
  send_item reply s = after_send (send reply s)

  pub should_send : Reply V → Bool
  should_send nothing = false
  should_send (value v) = not (is_empty_batch v)
  should_send (items vs) = true

  -- The keyword arguments that `_handle` gives to `execute`; `on_item` is its own argument.
  pub callbacks : (V → Act (NodeState W) (Unit {0})) → Turn → Callbacks (NodeState W) F V
  unfolding turn_cancelled
  callbacks on_item turn = record {
    wait = some wait_for_stop;
    on_item = some on_item;
    is_cancelled = some (turn_cancelled turn);
  }

module _ {W F Item V : Type 0} (calls : Services W F Item V) (rt : Runtime (NodeState W) F Item)
    (on_item : V → Act (NodeState W) (Unit {0})) where
  abbrev pub unless_cancelled : ErrorPolicy F → Item → Bool × NodeState W → Handled W F V
  unless_cancelled p item (true, s) = (returned nothing, p, s)
  unless_cancelled p item (false, s) =
      after_execute
        (execute rt calls.process (callbacks calls on_item (calls.turn_of item)) item p s)

  pub handle : ErrorPolicy F → Item → NodeState W → Handled W F V
  unfolding turn_cancelled callbacks
  handle p item s = unless_cancelled p item (turn_cancelled calls (calls.turn_of item) s)

-- What the loop leaves: it goes on, or an exception has ended the thread.
abbrev pub Looped : (W F : Type 0) → Type 0
Looped W F = Outcome (Unit {0}) × ErrorPolicy F × NodeState W

module _ {W F Item V : Type 0} (calls : Services W F Item V)
    (rt : Runtime (NodeState W) F Item) where
  abbrev pub sent : ErrorPolicy F → Outcome (Unit {0}) × NodeState W → Looped W F
  sent p (r, s) = (r, p, s)

  -- `if self._should_send(result): self._send_item(result)`
  abbrev pub after_handle : Handled W F V → Looped W F
  after_handle (raised e, p, s) = (raised e, p, s)
  after_handle (returned r, p, s) =
      if should_send calls r then sent p (send_item calls r s) else (returned tt, p, s)

  abbrev pub after_receive : ErrorPolicy F → Option Item × NodeState W → Looped W F
  after_receive p (none, s) = (returned tt, p, s)
  after_receive p (some item, s) =
      after_handle (handle calls rt (λ v. send_item calls (value v)) p item s)

  -- One round of `while self.is_running`.
  pub round : ErrorPolicy F → NodeState W → Looped W F
  unfolding handle send_item should_send
  round p s = after_receive p (calls.receive s)

  abbrev pub next_round : (ErrorPolicy F → NodeState W → Looped W F) → Looped W F → Looped W F
  next_round rest (raised e, p, s) = (raised e, p, s)
  next_round rest (returned u, p, s) = rest p s

  -- `_run`, for at most this many rounds.
  pub run_loop : ℕ → ErrorPolicy F → NodeState W → Looped W F
  unfolding round
  run_loop zero p s = (returned tt, p, s)
  run_loop (suc n) p s =
      let rest = next_round (run_loop n) (round p s) in
      if s.is_running then rest else (returned tt, p, s)

  -- `_run`
  pub run : ℕ → ErrorPolicy F → NodeState W → Looped W F
  unfolding run_loop
  run n p s = run_loop n p (record s { is_ready = true })

module _ {W : Type 0} where
  -- What `init_runtime` does before the thread runs `_run`.
  pub init_runtime : NodeState W → NodeState W
  init_runtime s = record s { is_running = true }

  -- `stop`, with the mailbox's own; the join of the thread is left out.
  pub stop_node : (NodeState W → NodeState W) → NodeState W → NodeState W
  stop_node stop_mailbox s =
      stop_mailbox (record s { is_running = false; is_ready = false; stop_requested = true })

  -- `failed` and `status`
  pub has_failed : NodeState W → Bool
  has_failed s = s.failed

  pub node_status : NodeState W → Bool
  node_status s = s.is_ready

-- ===== src/Transfer/Consumer.antt =====
-- `get` and `get_nowait` of ZeroQueueConsumer. What the socket does is a parameter; an error of ZeroMQ is
-- told from the others by a test.
use data_pipeline_orchestrat.Base.{
  ◌≡◌, ℕ, Option, none, some, Bool, false, if◌then◌else◌, Exception, other, Outcome, returned,
  raised, Act, and_then, Bool-cases, inl, inr, ◌⊎◌, ap, arith,
}

pub record Channel (A W : Type 0) : Type 0 where
  -- is there a message, after so many milliseconds? None waits without end.
  pub poll : Option ℕ → W → Bool × W
  -- recv_pyobj(NOBLOCK)
  pub recv : Act W A
  -- send(b"0", NOBLOCK)
  pub acknowledge : Act W (Unit {0})
  -- zmq.ZMQError, and zmq.Again below it
  pub is_zmq_error : Exception → Bool

abbrev pub queue_empty : Exception
queue_empty = other "queue.Empty"

module _ {A W : Type 0} (c : Channel A W) where
  -- A message, and its acknowledgement.
  unfoldable pub take_one : Act W A
  take_one w =
      and_then (c.recv w) λ item w1. and_then (c.acknowledge w1) λ _ w2. (returned item, w2)

  abbrev pub as_some : Outcome A × W → Outcome (Option A) × W
  as_some (returned a, w) = (returned (some a), w)
  as_some (raised e, w) = (raised e, w)

  unfoldable pub get : (timeout : Option ℕ) → Act W (Option A)
  unfolding take_one
  get timeout w =
      let (ready, w1) = c.poll timeout w in
      let item = as_some (take_one w1) in if ready then item else (returned none, w1)

  -- The two `except` clauses.
  abbrev pub as_empty : Outcome A × W → Outcome A × W
  as_empty (returned a, w) = (returned a, w)
  as_empty (raised e, w) = (raised (if c.is_zmq_error e then queue_empty else e), w)

  unfoldable pub get_nowait : Act W A
  unfolding take_one
  get_nowait w =
      let (ready, w1) = c.poll (some 1) w in
      let item = as_empty (take_one w1) in if ready then item else (raised queue_empty, w1)

  as_empty_raises :
      (r : Outcome A × W) (e : Exception) (w' : W)
      → as_empty r ≡ (raised e, w')
      → (e ≡ queue_empty) ⊎ (c.is_zmq_error e ≡ false)
  as_empty_raises (returned a, w) e w' fails = absurd (not_raised a e (ap (λ r. r.0) fails))
    where
      not_raised : (a : A) (e : Exception) → returned a ≡ raised e → ⊥
      not_raised a e h = cc
  as_empty_raises (raised d, w) e w' fails = elim (Bool-cases (c.is_zmq_error d)) [
    | inl zmq ↦ inl (ground arith)
    | inr another ↦ inr (ground arith)
  ]

  -- The caller of `get_nowait` sees no error of ZeroMQ: whatever the socket does, it gets a message
  -- that was received and acknowledged, queue.Empty, or an error that is none of ZeroMQ's.
  pub get_nowait_raises :
      (w : W) (e : Exception) (w' : W)
      → get_nowait w ≡ (raised e, w')
      → (e ≡ queue_empty) ⊎ (c.is_zmq_error e ≡ false)
  unfolding get_nowait
  get_nowait_raises w e w' fails = elim (Bool-cases (c.poll (some 1) w).0) [
    | inl ready ↦ as_empty_raises (take_one (c.poll (some 1) w).1) e w' (rw ready at fails)
    | inr idle ↦ inl (ground arith)
  ]

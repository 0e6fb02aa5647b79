-- ===== src/Transfer.antt =====
-- core/communication/zero_queue/queue_transfer.py: ZeroQueueProducer and ZeroQueueConsumer, which
-- exchange a message and an acknowledgement. What the two ends of ZeroMQ do is a parameter: `exchange`
-- sends an item on a socket and tells whether a reply came in time. A timeout is in milliseconds.
pub mod Laws
pub mod Endpoint
pub mod Consumer
pub mod Examples
use data_pipeline_orchestrat.Base.{
  ℕ, zero, suc, ◌+◌, ◌/◌, Option, none, some, List, [], ◌∷◌, ◌++◌, Bool, true, false, last_n, take,
  if◌then◌else◌,
}

-- What a socket of the producer is attached to.
pub data Socket : Type 0 where
  bound connected : ℕ → Socket

pub record Producer (A : Type 0) : Type 0 where
  pub port : ℕ
  -- at most `maxlen` items, the next to send first
  pub deque : List A
  pub maxlen : ℕ
  pub socket : Socket

-- DEQUE_LEN and TIMEOUT_MS
abbrev pub deque_len : ℕ
deque_len = 100

abbrev pub timeout_ms : ℕ
timeout_ms = 100

-- x or default, where x may be None; 0 counts as nothing too.
abbrev pub or_default : Option ℕ → ℕ → ℕ
or_default none d = d
or_default (some zero) d = d
or_default (some (suc n)) d = suc n

module _ {W : Type 0} (random_port : W → ℕ × W) where
  -- `init`, where `port` is what the attribute holds: the port and the socket.
  unfoldable pub attach : Option ℕ → W → ℕ × Socket × W
  attach (some (suc n)) w = (suc n, connected (suc n), w)
  attach _ w = let (port, w1) = random_port w in (port, bound port, w1)

module _ {A W : Type 0} (random_port : W → ℕ × W) where
  -- `__init__`
  unfoldable pub new_producer : (port deque_len : Option ℕ) → W → Producer A × W
  unfolding attach
  new_producer port len w =
      let (found, socket, w1) = attach random_port port w in
      (record { port = found; deque = []; maxlen = or_default len deque_len; socket = socket }, w1)

  -- `stop` and then `init`.
  unfoldable pub reconnect : Producer A → W → Producer A × W
  unfolding attach
  reconnect p w =
      let (port, socket, w1) = attach random_port (some p.port) w in
      (record p { port = port; socket = socket }, w1)

-- The calls of send_pyobj, each with whether it was acknowledged.
abbrev pub Log : Type 0 → Type 0
Log A = List (A × Bool)

abbrev pub logged :
    {A W : Type 0} → A × Bool → Option (Producer A × W × Log A) → Option (Producer A × W × Log A)
logged entry none = none
logged entry (some (p, w, log)) = some (p, w, entry ∷ log)

module _ {A W : Type 0} (random_port : W → ℕ × W)
    (exchange : Socket → A → (timeout : ℕ) → W → Bool × W) where
  -- The `while` loop of `put`, with what it sends; `none` means that the fuel ran out.
  unfoldable pub put_loop :
      (fuel timeout : ℕ) → Producer A → List A → W → Option (Producer A × W × Log A)
  unfolding reconnect
  put_loop fuel timeout p [] w = some (record p { deque = [] }, w, [])
  put_loop zero timeout p (item ∷ items) w = none
  put_loop (suc fuel) timeout p (item ∷ items) w =
      let (acknowledged, w1) = exchange p.socket item timeout w in
      let sent = logged (item, true) (put_loop fuel timeout p items w1) in
      let again =
        let (p1, w2) = reconnect random_port p w1 in
        logged (item, false) (put_loop fuel timeout p1 (item ∷ items) w2) in
      if acknowledged then sent else again

  -- `put`: append drops the oldest item of a full deque.
  unfoldable pub put :
      (fuel : ℕ) → A → (timeout : Option ℕ) → Producer A → W → Option (Producer A × W × Log A)
  unfolding put_loop
  put fuel item timeout p w =
      put_loop fuel (or_default timeout timeout_ms) p (last_n p.maxlen (p.deque ++ item ∷ [])) w

  -- `put_nowait`: false stands for queue.Full. appendleft drops the last item of a full deque.
  unfoldable pub put_nowait : A → Producer A → W → Bool × Producer A × W
  unfolding reconnect
  put_nowait item p w =
      let (acknowledged, w1) = exchange p.socket item (timeout_ms / 5 + 1) w in
      let full : Bool × Producer A × W =
        let (p1, w2) =
          reconnect random_port (record p { deque = take p.maxlen (item ∷ p.deque) }) w1 in
        (false, p1, w2) in
      if acknowledged then (true, p, w1) else full

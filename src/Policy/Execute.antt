-- ===== src/Policy/Execute.antt =====
-- `ErrorPolicy` of neudc/core/policy/error_policy.py: the attempts, the backoff between them, the
-- draining of a generator, and giving up. `W` is all that the callbacks, the sink, the clock and
-- the random source read and change. Each counter of `ErrorStats` also stands for the Prometheus
-- counter of the same name, which the code increments on the next line.
pub mod Runs
pub mod Accounting
pub mod Delivery
pub mod Backoff
pub mod SendFailure
pub mod Retry
use data_pipeline_orchestrat.Base.{
  ℕ, zero, suc, ◌+◌, String, Option, none, some, List, [], ◌∷◌, ◌++◌, Bool, true, false, ltb,
  FloatOps, min_F, Exception, stop_iteration, node_failure, other, Outcome, returned, raised, Act,
  is_caught, if◌then◌else◌, and_then, lift,
}
use data_pipeline_orchestrat.Policy.Config.{ErrorPolicyConfig, is_retry, is_fail}
use data_pipeline_orchestrat.Policy.DeadLetter.{Disk, DeadLetterSink, record_failure}

pub record ErrorStats : Type 0 where
  pub processed : ℕ
  pub errors : ℕ
  pub retries : ℕ
  pub dropped : ℕ
  pub dead_lettered : ℕ
  pub failures : ℕ

pub record ErrorPolicy (F : Type 0) : Type 0 where
  pub config : ErrorPolicyConfig F
  pub node_id : String
  pub stats : ErrorStats
  pub sink : Option DeadLetterSink

abbrev pub no_stats : ErrorStats
no_stats = record {
  processed = 0;
  errors = 0;
  retries = 0;
  dropped = 0;
  dead_lettered = 0;
  failures = 0;
}

-- __post_init__ of a policy that is constructed from a configuration
abbrev pub sink_of : {F : Type 0} → ErrorPolicyConfig F → Option DeadLetterSink
sink_of c = elim c.dead_letter_dir [
  | none ↦ none
  | some dir ↦ some (record { directory = dir; store_payload = c.store_payload })
]

-- ErrorPolicy(config=parsed, node_id=node_id)
unfoldable pub new_policy : {F : Type 0} → ErrorPolicyConfig F → String → ErrorPolicy F
new_policy c node_id = record { config = c; node_id = node_id; stats = no_stats; sink = sink_of c }

-- What `execute` and `process` return: None, a value, or the list of yielded values.
pub data Reply (V : Type 0) : Type 0 where
  nothing : Reply V
  value : V → Reply V
  items : List V → Reply V

-- A generator that is about to run on to its next `yield`: the body ends, raises, yields, or
-- does something to the world and goes on in view of it.
pub data Gen (W V : Type 0) : Type 0 where
  finish : Gen W V
  fails : Exception → Gen W V
  yields : V → Gen W V → Gen W V
  effect : (W → W) → (W → Gen W V) → Gen W V

-- `process`: a plain method or a generator function.
pub data Func (W Item V : Type 0) : Type 0 where
  plain : (Item → Act W (Reply V)) → Func W Item V
  generator : (Item → W → Gen W V) → Func W Item V

pub record Callbacks (W F V : Type 0) : Type 0 where
  pub wait : Option (F → W → Bool × W)
  pub on_item : Option (V → Act W (Unit {0}))
  pub is_cancelled : Option (W → Bool × W)

pub record Runtime (W F Item : Type 0) : Type 0 where
  pub floats : FloatOps F
  pub disk : Disk W F Item
  -- time.sleep
  pub sleep_for : F → W → W
  -- random.uniform(0, b)
  pub uniform : F → W → F × W

-- How one attempt ends: with a reply, or with an error, before or after something was delivered.
pub data Attempt (V : Type 0) : Type 0 where
  done : Reply V → Attempt V
  broke : (delivered : Bool) → Exception → Attempt V

abbrev pub plain_attempt : {W V : Type 0} → Outcome (Reply V) × W → Attempt V × W
plain_attempt (returned r, w) = (done r, w)
plain_attempt (raised e, w) = (broke false e, w)

module _ {W F V : Type 0} (cb : Callbacks W F V) where
  -- is_cancelled is not None and is_cancelled()
  unfoldable pub cancelled : W → Bool × W
  cancelled w = elim cb.is_cancelled [ none ↦ (false, w) | some f ↦ f w ]

  -- on_item(value), where it is given
  unfoldable pub deliver : V → Act W (Unit {0})
  deliver v w = elim cb.on_item [ none ↦ (returned tt, w) | some f ↦ f v w ]

  -- collected.append(value), where on_item is not given
  abbrev pub collect : List V → V → List V
  collect collected v = elim cb.on_item [ none ↦ collected ++ v ∷ [] | some f ↦ collected ]

  -- None if on_item is not None else collected
  abbrev pub drained : List V → Attempt V
  drained collected = done (elim cb.on_item [ none ↦ items collected | some f ↦ nothing ])

  -- An error of the body or of on_item, the StopIteration of on_item taken for the end.
  abbrev pub delivery_error : List V → Exception → Attempt V
  delivery_error collected stop_iteration = drained collected
  delivery_error collected e = broke true e

  -- A body that raises StopIteration raises RuntimeError in its place (PEP 479).
  abbrev pub body_error : Exception → Exception
  body_error stop_iteration = other "RuntimeError"
  body_error e = e

  -- `if is_cancelled is not None and is_cancelled()`: close the generator and end the turn.
  abbrev pub after_check : List V → (W → Attempt V × W) → Bool × W → Attempt V × W
  after_check collected next (true, w) = (drained collected, w)
  after_check collected next (false, w) = next w

  -- The rest of the loop body after `on_item`, and the test at the top of the next round.
  abbrev pub after_send : List V → V → (W → Attempt V × W) → Outcome (Unit {0}) × W → Attempt V × W
  after_send collected v next (raised e, w) = (delivery_error collected e, w)
  after_send collected v next (returned _, w) = after_check (collect collected v) next (cancelled w)

  -- `next(gen)` and what follows, round the `while True` loop; `yielded` is `yielded_count > 0`.
  unfoldable pub drain : Gen W V → Bool → List V → W → Attempt V × W
  unfolding cancelled deliver
  drain finish yielded collected w = (drained collected, w)
  drain (fails e) yielded collected w = (broke yielded (body_error e), w)
  drain (effect f k) yielded collected w = drain (k (f w)) yielded collected (f w)
  drain (yields v gen) yielded collected w =
      after_send collected v (drain gen true (collect collected v)) (deliver v w)

  -- The `try` of one attempt: the first look at is_cancelled, then the draining.
  unfoldable pub drain_attempt : Gen W V → W → Attempt V × W
  unfolding drain
  drain_attempt gen w = after_check [] (drain gen false []) (cancelled w)

unfoldable pub start_attempt :
    {W F Item V : Type 0} → Func W Item V → Callbacks W F V → Item → W → Attempt V × W
unfolding drain_attempt
start_attempt (plain f) cb item w = plain_attempt (f item w)
start_attempt (generator f) cb item w = drain_attempt cb (f item w) w

-- What an operation of the policy leaves: how it ended, the policy with its counters, the world.
abbrev pub Run : (W F V : Type 0) → Type 0
Run W F V = Outcome (Reply V) × ErrorPolicy F × W

module _ {F : Type 0} (p : ErrorPolicy F) where
  abbrev pub count_processed : ErrorPolicy F
  count_processed = record p { stats = record p.stats { processed = p.stats.processed + 1 } }

  abbrev pub count_error : ErrorPolicy F
  count_error = record p { stats = record p.stats { errors = p.stats.errors + 1 } }

  abbrev pub count_retry : ErrorPolicy F
  count_retry = record p { stats = record p.stats { retries = p.stats.retries + 1 } }

  abbrev pub count_dropped : ErrorPolicy F
  count_dropped = record p { stats = record p.stats { dropped = p.stats.dropped + 1 } }

  abbrev pub count_dead_lettered : ErrorPolicy F
  count_dead_lettered = record p {
    stats = record p.stats { dead_lettered = p.stats.dead_lettered + 1 };
  }

  abbrev pub count_failure : ErrorPolicy F
  count_failure = record p { stats = record p.stats { failures = p.stats.failures + 1 } }

-- attempts - 1: the retries that the configuration allows
abbrev pub extra_attempts : {F : Type 0} → ErrorPolicyConfig F → ℕ
extra_attempts c = if is_retry c.on_error then c.max_retries else 0

-- Once the error is counted: the delay cannot be computed, or the retry is counted, and the backoff is
-- interrupted or the next attempt follows.
abbrev pub resume :
    {W F V : Type 0}
    → ErrorPolicy F
    → (ErrorPolicy F → W → Run W F V)
    → Outcome Bool × W
    → Run W F V
resume p next (raised e, w) = (raised e, p, w)
resume p next (returned true, w) = (returned nothing, count_dropped (count_retry p), w)
resume p next (returned false, w) = next (count_retry p) w

module _ {W F Item : Type 0} (rt : Runtime W F Item) where
  open rt use {floats, sleep_for, uniform}
  open floats use {add_F, mul_F, pow_F, half}

  -- The jitter on the capped delay.
  unfoldable pub spread_delay : (jitter : Bool) → F → W → F × W
  spread_delay jitter delay w =
      let (spread, w1) = uniform (half delay) w in
      if jitter then (add_F (half delay) spread, w1) else (delay, w)

  abbrev pub overflow_error : Exception
  overflow_error = other "OverflowError"

  -- `_backoff_delay`; the power of two floats may overflow, which raises.
  unfoldable pub backoff_delay : ErrorPolicyConfig F → ℕ → Act W F
  unfolding spread_delay
  backoff_delay c attempt w = elim (pow_F c.backoff_multiplier attempt) [
    | none ↦ (raised overflow_error, w)
    | some power ↦
        let (delay, w1) =
          spread_delay c.jitter (min_F floats c.max_backoff (mul_F c.initial_backoff power)) w in
        (returned delay, w1)
  ]

  -- `_sleep`: True if the node was asked to stop meanwhile.
  unfoldable pub sleep : F → Option (F → W → Bool × W) → W → Bool × W
  sleep delay none w = (false, sleep_for delay w)
  sleep delay (some wait) w = wait delay w

module _ {W F Item V : Type 0} (rt : Runtime W F Item) where
  -- The end of `_give_up`: stop the node under `fail`, else drop the message.
  unfoldable pub terminal : ErrorPolicy F → W → Run W F V
  terminal p w =
      if is_fail p.config.on_error
      then (raised node_failure, count_failure p, w)
      else (returned nothing, count_dropped p, w)

  pub after_record : ErrorPolicy F → Outcome (Unit {0}) × W → Run W F V
  unfolding terminal
  after_record p (returned _, w) = terminal (count_dead_lettered p) w
  after_record p (raised e, w) = (raised e, p, w)

  unfoldable pub give_up : ErrorPolicy F → Item → Exception → W → Run W F V
  unfolding after_record
  give_up p item e w = elim p.sink [
    | none ↦ terminal p w
    | some sink ↦ after_record p (record_failure rt.disk sink p.node_id item (some e) w)
  ]

  -- The backoff before another attempt, and whether it was interrupted.
  unfoldable pub back_off : Callbacks W F V → ErrorPolicyConfig F → ℕ → Act W Bool
  unfolding backoff_delay sleep
  back_off cb config attempt w =
      and_then (backoff_delay rt config attempt w) λ delay. lift (sleep rt delay cb.wait)

  -- The end of an attempt that no other may follow: the last one, or one that has delivered output.
  unfoldable pub end_attempt : ErrorPolicy F → Item → Attempt V × W → Run W F V
  unfolding give_up
  end_attempt p item (done reply, w) = (returned reply, count_processed p, w)
  end_attempt p item (broke delivered e, w) =
      if is_caught e then give_up (count_error p) item e w else (raised e, p, w)

  -- The end of an attempt with another one left, `next`.
  pub end_or_retry :
      Callbacks W F V
      → ℕ
      → ErrorPolicy F
      → Item
      → (ErrorPolicy F → W → Run W F V)
      → Attempt V × W
      → Run W F V
  unfolding end_attempt back_off
  end_or_retry cb attempt p item next (broke false e, w) =
      if is_caught e
      then resume (count_error p) next (back_off cb p.config attempt w)
      else (raised e, p, w)
  end_or_retry cb attempt p item next ended = end_attempt p item ended

  -- `for attempt in range(attempts)`, with `left = attempts - attempt - 1`.
  unfoldable pub attempts_from :
      Func W Item V → Callbacks W F V → Item → (left attempt : ℕ) → ErrorPolicy F → W → Run W F V
  unfolding start_attempt end_or_retry
  attempts_from func cb item zero attempt p w = end_attempt p item (start_attempt func cb item w)
  attempts_from func cb item (suc left) attempt p w =
      end_or_retry cb attempt p item (attempts_from func cb item left (attempt + 1))
        (start_attempt func cb item w)

  unfoldable pub execute : Func W Item V → Callbacks W F V → Item → ErrorPolicy F → W → Run W F V
  unfolding attempts_from
  execute func cb item p w = attempts_from func cb item (extra_attempts p.config) 0 p w

-- ===== src/Policy/Execute/Accounting.antt =====
-- The counters of `ErrorStats` after a message.
use data_pipeline_orchestrat.Base.{
  ℕ, zero, suc, ◌+◌, ◌≤◌, ◌≡◌, refl, arith, Bool, true, false, Option, none, some, Outcome,
  returned, raised, Exception, is_caught, Bool-cases, inl, inr,
}
use data_pipeline_orchestrat.Policy.Config.{is_fail}
use data_pipeline_orchestrat.Policy.DeadLetter.{DeadLetterSink, record_failure}
use data_pipeline_orchestrat.Policy.Execute.{
  resume, end_attempt, count_retry, end_or_retry, ErrorStats, ErrorPolicy, Func, Callbacks, Runtime,
  Attempt, done, broke, start_attempt, count_dead_lettered, count_error, Run, terminal,
  after_record, give_up, back_off, attempts_from, execute, extra_attempts,
}

-- Messages that the policy has disposed of: processed, dropped, or fatal to the node.
abbrev pub settled : ErrorStats → ℕ
settled s = s.processed + s.dropped + s.failures

-- How the counters may move while one message is handled with `left` retries at most.
pub record Tally (left : ℕ) (b a : ErrorStats) : Type 0 where
  pub retries_grow : b.retries ≤ a.retries
  pub retries_bounded : a.retries ≤ b.retries + left
  -- every retry follows an error, and at most one error is not followed by a retry
  pub errors_above : b.errors + a.retries ≤ a.errors + b.retries
  pub errors_below : a.errors + b.retries ≤ b.errors + a.retries + 1
  pub settled_grow : settled b ≤ settled a
  pub settled_once : settled a ≤ settled b + 1

-- A call that returns has settled its message.
abbrev pub SettledOnReturn : {W F V : Type 0} → ErrorStats → Run W F V → Type 0
SettledOnReturn b (returned r, p, w) = settled p.stats ≡ settled b + 1
SettledOnReturn b (raised e, p, w) = Unit

abbrev pub Accounted : {W F V : Type 0} → ℕ → ErrorStats → Run W F V → Type 0
Accounted left b run = Tally left b run.1.stats × SettledOnReturn b run

module _ {W F Item : Type 0} (V : Type 0) (rt : Runtime W F Item) where
  terminal-Accounted :
      (p : ErrorPolicy F) (b : ErrorStats) (left : ℕ) (w : W)
      → Tally left b p.stats
      → settled p.stats ≡ settled b
      → Accounted {V = V} left b (terminal rt p w)
  unfolding terminal
  terminal-Accounted p b left w h e = elim (Bool-cases (is_fail p.config.on_error)) [
    | inl f ↦ rw f (omega arith, tt)
    | inr f ↦ rw f (omega arith, omega arith)
  ]

  after_record-Accounted :
      (p : ErrorPolicy F) (b : ErrorStats) (left : ℕ) (r : Outcome (Unit {0}) × W)
      → Tally left b p.stats
      → settled p.stats ≡ settled b
      → Accounted {V = V} left b (after_record rt p r)
  unfolding after_record
  after_record-Accounted p b left (returned _, w) h e =
      terminal-Accounted (count_dead_lettered p) b left w (omega arith) e
  after_record-Accounted p b left (raised x, w) h e = (h, tt)

  give_up-Accounted :
      (p : ErrorPolicy F) (b : ErrorStats) (left : ℕ) (item : Item) (x : Exception) (w : W)
      → Tally left b p.stats
      → settled p.stats ≡ settled b
      → Accounted {V = V} left b (give_up rt p item x w)
  unfolding give_up
  give_up-Accounted p b left item x w h e = by_sink p.sink
    where
      by_sink :
          (s : Option DeadLetterSink)
          → Accounted {W = W} {F = F} {V = V} left b (elim s [
            | none ↦ terminal rt p w
            | some sink ↦ after_record rt p (record_failure rt.disk sink p.node_id item (some x) w)
          ])
      by_sink none = terminal-Accounted p b left w h e
      by_sink (some sink) = after_record-Accounted p b left _ h e

  end_attempt-Accounted :
      (p : ErrorPolicy F) (item : Item) (left : ℕ) (ended : Attempt V × W)
      → Accounted {V = V} left p.stats (end_attempt rt p item ended)
  unfolding end_attempt
  end_attempt-Accounted p item left (done reply, w) = (omega arith, omega arith)
  end_attempt-Accounted p item left (broke delivered e, w) = elim (Bool-cases (is_caught e)) [
    | inl c ↦ rw c (give_up-Accounted (count_error p) p.stats left item e w (omega arith) refl)
    | inr c ↦ rw c (omega arith, tt)
  ]

  -- One more retry before the rest.
  Accounted-suc :
      (left : ℕ) (p : ErrorPolicy F) (run : Run W F V)
      → Accounted left (count_retry (count_error p)).stats run
      → Accounted (suc left) p.stats run
  Accounted-suc left p (returned r, q, w) (t, s) = (omega arith, omega arith)
  Accounted-suc left p (raised e, q, w) (t, s) = (omega arith, tt)

  module _ (func : Func W Item V) (cb : Callbacks W F V) (item : Item) where
    end_or_retry-Accounted :
        (left attempt : ℕ) (p : ErrorPolicy F) (next : ErrorPolicy F → W → Run W F V)
        (ended : Attempt V × W)
        → ((q : ErrorPolicy F) (w : W) → Accounted left q.stats (next q w))
        → Accounted (suc left) p.stats (end_or_retry rt cb attempt p item next ended)
    unfolding end_or_retry
    end_or_retry-Accounted left attempt p next (done reply, w) h =
        end_attempt-Accounted p item (suc left) (done reply, w)
    end_or_retry-Accounted left attempt p next (broke true e, w) h =
        end_attempt-Accounted p item (suc left) (broke true e, w)
    end_or_retry-Accounted left attempt p next (broke false e, w) h =
        elim (Bool-cases (is_caught e)) [
          | inl c ↦ rw c (resumed (back_off rt cb p.config attempt w))
          | inr c ↦ rw c (omega arith, tt)
        ]
      where
        resumed :
            (r : Outcome Bool × W) → Accounted (suc left) p.stats (resume (count_error p) next r)
        resumed (raised x, w1) = (omega arith, tt)
        resumed (returned true, w1) = (omega arith, omega arith)
        resumed (returned false, w1) =
            Accounted-suc left p (next (count_retry (count_error p)) w1)
              (h (count_retry (count_error p)) w1)

    attempts_from-Accounted :
        (left attempt : ℕ) (p : ErrorPolicy F) (w : W)
        → Accounted left p.stats (attempts_from rt func cb item left attempt p w)
    unfolding attempts_from
    attempts_from-Accounted zero attempt p w =
        end_attempt-Accounted p item zero (start_attempt func cb item w)
    attempts_from-Accounted (suc left) attempt p w =
        end_or_retry-Accounted left attempt p _ (start_attempt func cb item w)
          (attempts_from-Accounted left (attempt + 1))

    -- Whatever `process` does: one message makes at most `max_retries` retries (none, unless the
    -- policy is `retry`), at most one error is not followed by a retry, the message is settled at
    -- most once, and exactly once if `execute` returns.
    pub execute-Accounted :
        (p : ErrorPolicy F) (w : W)
        → Accounted (extra_attempts p.config) p.stats (execute rt func cb item p w)
    unfolding execute
    execute-Accounted p w = attempts_from-Accounted (extra_attempts p.config) 0 p w

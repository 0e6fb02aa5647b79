-- ===== src/Policy/Execute/Delivery.antt =====
-- A generator's output is delivered by one attempt only.

use data_pipeline_orchestrat.Base.{
  ℕ, ◌≡◌, ◌≢◌, refl, sym, ap, ◌∙◌, arith, Bool, true, false, Option, none, some, List, [], Outcome,
  returned, raised, Exception, String,
}
use data_pipeline_orchestrat.Policy.Config.{ErrorPolicyConfig}
use data_pipeline_orchestrat.Policy.DeadLetter.{DeadLetterSink, record_failure}
use data_pipeline_orchestrat.Policy.Execute.{
  Run, after_send, after_check, ErrorPolicy, Gen, finish, fails, yields, effect, generator,
  Callbacks, Runtime, Attempt, broke, drain, drain_attempt, cancelled, deliver, start_attempt,
  terminal, after_record, give_up, back_off, execute, delivery_error, collect,
}
use data_pipeline_orchestrat.Policy.Execute.Runs.{
  Retried, here, again, Ending, replied, spent, stopped, overflowed, uncaught, execute-IsRun,
}

module _ {W F V : Type 0} (cb : Callbacks W F V) where
  -- A finished or cancelled attempt is no failure, nor is a failure to send one before a delivery.
  delivery_error-delivered : (c : List V) (x e : Exception) → delivery_error cb c x ≢ broke false e
  delivery_error-delivered c x e h = ground arith

  after_check-delivered :
      (c : List V) (next : W → Attempt V × W) (r : Bool × W) (e : Exception)
      → ((w : W) → (next w).0 ≢ broke false e)
      → (after_check cb c next r).0 ≢ broke false e
  after_check-delivered c next (true, w) e k h = cc
  after_check-delivered c next (false, w) e k h = k w h

  after_send-delivered :
      (c : List V) (v : V) (next : W → Attempt V × W) (r : Outcome (Unit {0}) × W) (e : Exception)
      → ((w : W) → (next w).0 ≢ broke false e)
      → (after_send cb c v next r).0 ≢ broke false e
  after_send-delivered c v next (returned _, w) e k h =
      after_check-delivered (collect cb c v) next (cancelled cb w) e k h
  after_send-delivered c v next (raised x, w) e k h = delivery_error-delivered c x e h

  -- Once something was delivered, an attempt does not end as one that delivered nothing.
  drain-delivered :
      (gen : Gen W V) (c : List V) (w : W) (e : Exception)
      → (drain cb gen true c w).0 ≢ broke false e
  unfolding drain
  drain-delivered finish c w e h = cc
  drain-delivered (fails x) c w e h = cc
  drain-delivered (effect f k) c w e h = drain-delivered (k (f w)) c (f w) e h
  drain-delivered (yields v gen) c w e h =
      after_send-delivered c v (drain cb gen true (collect cb c v)) (deliver cb v w) e
        (λ w'. drain-delivered gen (collect cb c v) w' e) h

-- The body of the generator does not touch what `log` shows.
abbrev pub IsQuiet : {W V L : Type 0} → (W → L) → Gen W V → Type 0
IsQuiet log finish = Unit
IsQuiet log (fails e) = Unit
IsQuiet {W} log (effect f k) = (w : W) → (log (f w) ≡ log w) × IsQuiet log (k (f w))
IsQuiet log (yields v gen) = IsQuiet log gen

-- Of all that a run does, only on_item touches what `log` shows.
pub record OnlyDeliveries {W F Item V L : Type 0} (rt : Runtime W F Item) (cb : Callbacks W F V)
    (log : W → L) : Type 0 where
  pub check : (w : W) → log (cancelled cb w).1 ≡ log w
  pub backing_off :
      (c : ErrorPolicyConfig F) (attempt : ℕ) (w : W) → log (back_off rt cb c attempt w).1 ≡ log w
  pub recording :
      (sink : DeadLetterSink) (node_id : String) (item : Item) (e : Exception) (w : W)
      → log (record_failure rt.disk sink node_id item (some e) w).1 ≡ log w

module _ {W F Item V L : Type 0} (rt : Runtime W F Item) (cb : Callbacks W F V) (log : W → L)
    (only : OnlyDeliveries rt cb log) where
  -- An attempt that fails before it delivers anything leaves the log alone.
  drain-quiet :
      (gen : Gen W V) (c : List V) (w v : W) (e : Exception)
      → IsQuiet log gen
      → drain cb gen false c w ≡ (broke false e, v)
      → log v ≡ log w
  unfolding drain
  drain-quiet finish c w v e q h = cc
  drain-quiet (fails x) c w v e q h = cc
  drain-quiet (effect f k) c w v e q h = drain-quiet (k (f w)) c (f w) v e (q w).1 h ∙ (q w).0
  drain-quiet (yields x gen) c w v e q h = absurd (
      after_send-delivered cb c x (drain cb gen true (collect cb c x)) (deliver cb x w) e
        (λ w'. drain-delivered cb gen (collect cb c x) w' e) (ap (λ r. r.0) h))

  after_check-quiet :
      (gen : Gen W V) (r : Bool × W) (v : W) (e : Exception)
      → IsQuiet log gen
      → after_check cb [] (drain cb gen false []) r ≡ (broke false e, v)
      → log v ≡ log r.1
  after_check-quiet gen (true, w) v e q h = cc
  after_check-quiet gen (false, w) v e q h = drain-quiet gen [] w v e q h

  module _ (body : Item → W → Gen W V) (item : Item)
      (quiet : (w : W) → IsQuiet log (body item w)) where
    attempt-quiet :
        (w v : W) (e : Exception)
        → start_attempt (generator body) cb item w ≡ (broke false e, v)
        → log v ≡ log w
    unfolding start_attempt drain_attempt
    attempt-quiet w v e h =
        after_check-quiet (body item w) (cancelled cb w) v e (quiet w) h ∙ only.check w

    Retried-quiet :
        {c : ErrorPolicyConfig F} {n k : ℕ} {w u : W}
        → Retried rt (generator body) cb item c n k w u
        → log u ≡ log w
    Retried-quiet here = refl
    Retried-quiet {c = c} {n = n} {w = w} (again {w1 = w1} {w2 = w2} {e = e} s caught b rest) =
        Retried-quiet rest
        ∙ ap (λ r. log r.1) (sym b)
        ∙ only.backing_off c n w1
        ∙ attempt-quiet w w1 e s

    terminal-quiet : (p : ErrorPolicy F) (w : W) → log (terminal {V = V} rt p w).2 ≡ log w
    unfolding terminal
    terminal-quiet p w = ground arith

    after_record-quiet :
        (p : ErrorPolicy F) (r : Outcome (Unit {0}) × W)
        → log (after_record {V = V} rt p r).2 ≡ log r.1
    unfolding after_record
    after_record-quiet p (returned _, w) = terminal-quiet _ w
    after_record-quiet p (raised e, w) = refl

    give_up-quiet :
        (p : ErrorPolicy F) (e : Exception) (w : W) → log (give_up {V = V} rt p item e w).2 ≡ log w
    unfolding give_up
    give_up-quiet p e w = by_sink p.sink
      where
        by_sink :
            (s : Option DeadLetterSink)
            → log (
                let run : Run W F V = elim s [
                  | none ↦ terminal rt p w
                  | some sink ↦
                      after_record rt p (record_failure rt.disk sink p.node_id item (some e) w)
                ] in
                run.2)
              ≡ log w
        by_sink none = terminal-quiet p w
        by_sink (some sink) = after_record-quiet p _ ∙ only.recording sink p.node_id item e w

    Ending-log :
        {c : ErrorPolicyConfig F} {n left : ℕ} {q : ErrorPolicy F} {u : W} {run : Run W F V}
        → Ending rt (generator body) cb item c n left q u run
        → log run.2 ≡ log (start_attempt (generator body) cb item u).1
    Ending-log (replied r v s e) = ap (λ x. log x.2) e ∙ ap (λ x. log x.1) (sym s)
    Ending-log {q = q} (spent d e v s caught why g) =
        ap (λ x. log x.2) g ∙ give_up-quiet _ e v ∙ ap (λ x. log x.1) (sym s)
    Ending-log {c = c} {n = n} (stopped e v v1 s caught more b g) =
        ap (λ x. log x.2) g
        ∙ ap (λ x. log x.1) (sym b)
        ∙ only.backing_off c n v
        ∙ ap (λ x. log x.1) (sym s)
    Ending-log {c = c} {n = n} (overflowed e x v v1 s caught more b g) =
        ap (λ x. log x.2) g
        ∙ ap (λ x. log x.1) (sym b)
        ∙ only.backing_off c n v
        ∙ ap (λ x. log x.1) (sym s)
    Ending-log (uncaught d e v s caught g) = ap (λ x. log x.2) g ∙ ap (λ x. log x.1) (sym s)

    -- What a run on a generator delivers, however often it retries, is delivered by one attempt:
    -- it starts in a world `u` where nothing has been delivered yet, and leaves all of it. This
    -- takes that nothing but on_item touches what the log shows: not the generator's body, and not
    -- the cancellation test, the backoff or the dead-letter record.
    pub execute_delivers_once :
        (p : ErrorPolicy F) (w : W)
        → (u : W) × (log u ≡ log w)
          × (log (execute rt (generator body) cb item p w).2
              ≡ log (start_attempt (generator body) cb item u).1)
    execute_delivers_once p w =
        let run = execute-IsRun rt (generator body) cb item p w in
        (run.last, Retried-quiet run.retrying, Ending-log run.ending)

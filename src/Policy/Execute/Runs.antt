-- ===== src/Policy/Execute/Runs.antt =====
-- What a run of `execute` is, told without the loop: so many failed attempts with their backoffs,
-- and then one of five endings.
use mathlib.Core.Path.{subst₂}
use data_pipeline_orchestrat.Base.{
  ℕ, zero, suc, ◌+◌, ◌<◌, ◌≡◌, ◌⊎◌, Outcome, inl, inr, refl, sym, ap, arith, Bool, true, false,
  returned, raised, Exception, is_caught, Bool-cases,
}
use data_pipeline_orchestrat.Policy.Config.{ErrorPolicyConfig}
use data_pipeline_orchestrat.Policy.Execute.{
  ErrorPolicy, Reply, nothing, Func, Callbacks, Runtime, Attempt, done, broke, start_attempt, Run,
  give_up, back_off, attempts_from, execute, resume, end_attempt, end_or_retry, extra_attempts,
  count_error, count_retry, count_processed, count_dropped,
}

-- The policy after `k` errors that were each followed by a retry.
abbrev pub after_retries : {F : Type 0} → ℕ → ErrorPolicy F → ErrorPolicy F
after_retries k p = record p {
  stats = record p.stats { errors = p.stats.errors + k; retries = p.stats.retries + k };
}

after_retries-zero : {F : Type 0} (p : ErrorPolicy F) → p ≡ after_retries 0 p
after_retries-zero p = ground arith

after_retries-suc :
    {F : Type 0} (k : ℕ) (p : ErrorPolicy F)
    → after_retries k (count_retry (count_error p)) ≡ after_retries (suc k) p
after_retries-suc k p = ground arith

module _ {W F Item V : Type 0} (rt : Runtime W F Item) (func : Func W Item V) (cb : Callbacks W F V)
    (item : Item) (config : ErrorPolicyConfig F) where
  -- From attempt `n` in world `w`, `k` attempts that fail before they deliver anything, each with
  -- a backoff that is not interrupted, lead to the world `u`.
  pub data Retried : (n k : ℕ) (w u : W) → Type 0 where
    here : {n : ℕ} {w : W} → Retried n zero w w
    again :
        {n k : ℕ} {w w1 w2 u : W} {e : Exception}
        → start_attempt func cb item w ≡ (broke false e, w1)
        → is_caught e ≡ true
        → back_off rt cb config n w1 ≡ (returned false, w2)
        → Retried (n + 1) k w2 u
        → Retried n (suc k) w u

  -- How attempt `n` in the world `u` ends the run, with `left` attempts to follow it.
  pub data Ending (n left : ℕ) (p : ErrorPolicy F) (u : W) (run : Run W F V) : Type 0 where
    replied :
        (r : Reply V) (v : W)
        → start_attempt func cb item u ≡ (done r, v)
        → run ≡ (returned r, count_processed p, v)
        → Ending n left p u run
    spent :
        (d : Bool) (e : Exception) (v : W)
        → start_attempt func cb item u ≡ (broke d e, v)
        → is_caught e ≡ true
        → (d ≡ true) ⊎ (left ≡ 0)
        → run ≡ give_up rt (count_error p) item e v
        → Ending n left p u run
    stopped :
        (e : Exception) (v v1 : W)
        → start_attempt func cb item u ≡ (broke false e, v)
        → is_caught e ≡ true
        → 0 < left
        → back_off rt cb config n v ≡ (returned true, v1)
        → run ≡ (returned nothing, count_dropped (count_retry (count_error p)), v1)
        → Ending n left p u run
    overflowed :
        (e x : Exception) (v v1 : W)
        → start_attempt func cb item u ≡ (broke false e, v)
        → is_caught e ≡ true
        → 0 < left
        → back_off rt cb config n v ≡ (raised x, v1)
        → run ≡ (raised x, count_error p, v1)
        → Ending n left p u run
    uncaught :
        (d : Bool) (e : Exception) (v : W)
        → start_attempt func cb item u ≡ (broke d e, v)
        → is_caught e ≡ false
        → run ≡ (raised e, p, v)
        → Ending n left p u run

  -- `k` retried attempts and an ending, of at most `left + 1` attempts in all.
  pub record IsRun (n left : ℕ) (p : ErrorPolicy F) (w : W) (run : Run W F V) : Type 0 where
    pub retried : ℕ
    pub rest : ℕ
    pub last : W
    pub bounded : retried + rest ≡ left
    pub retrying : Retried n retried w last
    pub ending : Ending (n + retried) rest (after_retries retried p) last run

  Ending-of :
      {n m left : ℕ} {p q : ErrorPolicy F} {u : W} {run : Run W F V}
      → n ≡ m
      → p ≡ q
      → Ending n left p u run
      → Ending m left q u run
  Ending-of {left = left} {u = u} {run = run} e f h =
      subst₂ (λ (n : ℕ) (p : ErrorPolicy F). Ending n left p u run) e f h

  at_once :
      {n left : ℕ} {p : ErrorPolicy F} {w : W} {run : Run W F V}
      → Ending n left p w run
      → IsRun n left p w run
  at_once {left = left} {p = p} {w = w} h = record {
    retried = 0;
    rest = left;
    last = w;
    bounded = omega arith;
    retrying = here;
    ending = Ending-of (omega arith) (after_retries-zero p) h;
  }

  module _ (p : ErrorPolicy F) (w : W) where
    -- An attempt after which there is no other.
    end_attempt-Ending :
        (n left : ℕ) (ended : Attempt V × W)
        → start_attempt func cb item w ≡ ended
        → ((e : Exception) → ended.0 ≡ broke false e → left ≡ 0)
        → Ending n left p w (end_attempt rt p item ended)
    unfolding end_attempt
    end_attempt-Ending n left (done r, v) e h = replied r v e refl
    end_attempt-Ending n left (broke d x, v) e h = elim (Bool-cases (is_caught x)) [
      | inl c ↦ spent d x v e c (why d h) (rw c refl)
      | inr c ↦ uncaught d x v e c (rw c refl)
    ]
      where
        why :
            (b : Bool)
            → ((y : Exception) → ◌≡◌ {A = Attempt V} (broke b x) (broke false y) → left ≡ 0)
            → (b ≡ true) ⊎ (left ≡ 0)
        why true k = inl refl
        why false k = inr (k x refl)

  -- One more retry in front of a run.
  longer :
      {n left : ℕ} {p : ErrorPolicy F} {w w1 w2 : W} {e : Exception} {run : Run W F V}
      → start_attempt func cb item w ≡ (broke false e, w1)
      → is_caught e ≡ true
      → back_off rt cb config n w1 ≡ (returned false, w2)
      → IsRun (n + 1) left (count_retry (count_error p)) w2 run
      → IsRun n (suc left) p w run
  longer {p = p} s c b r = record {
    retried = suc r.retried;
    rest = r.rest;
    last = r.last;
    bounded = omega (arith, r.bounded);
    retrying = again s c b r.retrying;
    ending = Ending-of (omega arith) (after_retries-suc r.retried p) r.ending;
  }

  module _ (n left : ℕ) (p : ErrorPolicy F) (w : W) (next : ErrorPolicy F → W → Run W F V)
      (same : p.config ≡ config)
      (rest_IsRun : (q : ErrorPolicy F) (u : W)
        → q.config ≡ config
        → IsRun (n + 1) left q u (next q u)) where
    resume-IsRun :
        (e : Exception) (v : W) (r : Outcome Bool × W)
        → start_attempt func cb item w ≡ (broke false e, v)
        → is_caught e ≡ true
        → back_off rt cb config n v ≡ r
        → IsRun n (suc left) p w (resume (count_error p) next r)
    resume-IsRun e v (raised x, v1) s c b = at_once (overflowed e x v v1 s c (omega arith) b refl)
    resume-IsRun e v (returned true, v1) s c b = at_once (stopped e v v1 s c (omega arith) b refl)
    resume-IsRun e v (returned false, v1) s c b =
        longer s c b (rest_IsRun (count_retry (count_error p)) v1 same)

    end_or_retry-IsRun :
        (ended : Attempt V × W)
        → start_attempt func cb item w ≡ ended
        → IsRun n (suc left) p w (end_or_retry rt cb n p item next ended)
    unfolding end_or_retry
    end_or_retry-IsRun (done r, v) s =
        at_once (end_attempt-Ending p w n (suc left) (done r, v) s (λ e k. absurd (cc)))
    end_or_retry-IsRun (broke true x, v) s =
        at_once (end_attempt-Ending p w n (suc left) (broke true x, v) s (λ e k. absurd (cc)))
    end_or_retry-IsRun (broke false x, v) s = elim (Bool-cases (is_caught x)) [
      | inl c ↦ rw c (
          resume-IsRun x v (back_off rt cb p.config n v) s c
            (ap (λ k. back_off rt cb k n v) (sym same)))
      | inr c ↦ rw c (at_once (uncaught false x v s c refl))
    ]

  attempts_from-IsRun :
      (left n : ℕ) (p : ErrorPolicy F) (w : W)
      → p.config ≡ config
      → IsRun n left p w (attempts_from rt func cb item left n p w)
  unfolding attempts_from
  attempts_from-IsRun zero n p w same =
      at_once (end_attempt-Ending p w n zero (start_attempt func cb item w) refl (λ _ _. refl))
  attempts_from-IsRun (suc left) n p w same =
      end_or_retry-IsRun n left p w _ same (attempts_from-IsRun left (n + 1))
        (start_attempt func cb item w) refl

-- Every call of `execute` is a run of at most `1 + max_retries` attempts (one, unless the policy is
-- `retry`): attempts that fail before they deliver anything are retried after their backoff, and the
-- run ends with a reply, with giving up (after a delivery, or when no attempt is left), with a stop
-- request during a backoff, with an exception of computing the backoff, or with an exception of the
-- attempt that `except Exception` lets through.
pub execute-IsRun :
    {W F Item V : Type 0} (rt : Runtime W F Item) (func : Func W Item V) (cb : Callbacks W F V)
    (item : Item) (p : ErrorPolicy F) (w : W)
    → IsRun rt func cb item p.config 0 (extra_attempts p.config) p w (execute rt func cb item p w)
unfolding execute
execute-IsRun rt func cb item p w =
    attempts_from-IsRun rt func cb item p.config (extra_attempts p.config) 0 p w refl

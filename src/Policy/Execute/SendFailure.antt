-- ===== src/Policy/Execute/SendFailure.antt =====
-- What becomes of an error that `on_item` raises at the first yield of a generator.
use data_pipeline_orchestrat.Base.{
  ℕ, zero, suc, ◌≡◌, ◌≢◌, refl, true, false, List, [], Exception, stop_iteration, raised, is_caught,
}
use data_pipeline_orchestrat.Policy.Execute.{
  ErrorPolicy, Gen, yields, generator, Callbacks, Runtime, broke, cancelled, deliver,
  delivery_error, drain, drain_attempt, start_attempt, count_error, end_attempt, end_or_retry,
  give_up, attempts_from, extra_attempts, execute,
}

delivery_error-broke :
    {W F V : Type 0} (cb : Callbacks W F V) (c : List V) (e : Exception)
    → e ≢ stop_iteration
    → delivery_error cb c e ≡ broke true e
delivery_error-broke cb c stop_iteration h = absurd (h refl)
delivery_error-broke cb c _ h = refl

module _ {W F Item V : Type 0} (rt : Runtime W F Item) (body : Item → W → Gen W V)
    (cb : Callbacks W F V) (item : Item) where
  attempt_breaks :
      (w w1 w2 : W) (v : V) (gen : Gen W V) (e : Exception)
      → body item w ≡ yields v gen
      → cancelled cb w ≡ (false, w1)
      → deliver cb v w1 ≡ (raised e, w2)
      → e ≢ stop_iteration
      → start_attempt (generator body) cb item w ≡ (broke true e, w2)
  unfolding start_attempt drain_attempt drain
  attempt_breaks w w1 w2 v gen e yielded live failed other_error =
      rw (yielded, live, failed, delivery_error-broke cb [] e other_error) refl

  attempts_give_up :
      (left n : ℕ) (p : ErrorPolicy F) (w w2 : W) (e : Exception)
      → start_attempt (generator body) cb item w ≡ (broke true e, w2)
      → is_caught e ≡ true
      → attempts_from rt (generator body) cb item left n p w
        ≡ give_up {V = V} rt (count_error p) item e w2
  unfolding attempts_from end_or_retry end_attempt
  attempts_give_up zero n p w w2 e broken caught = rw (broken, caught) refl
  attempts_give_up (suc left) n p w w2 e broken caught = rw (broken, caught) refl

  -- An error of `on_item` at the first yield, other than StopIteration, does not leave `execute`:
  -- whatever the policy is, the message is given up at once, without a retry.
  pub send_failure_gives_up :
      (p : ErrorPolicy F) (w w1 w2 : W) (v : V) (gen : Gen W V) (e : Exception)
      → body item w ≡ yields v gen
      → cancelled cb w ≡ (false, w1)
      → deliver cb v w1 ≡ (raised e, w2)
      → e ≢ stop_iteration
      → is_caught e ≡ true
      → execute rt (generator body) cb item p w ≡ give_up {V = V} rt (count_error p) item e w2
  unfolding execute
  send_failure_gives_up p w w1 w2 v gen e yielded live failed other_error caught =
      attempts_give_up (extra_attempts p.config) 0 p w w2 e
        (attempt_breaks w w1 w2 v gen e yielded live failed other_error) caught

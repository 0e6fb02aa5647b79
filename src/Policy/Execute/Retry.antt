-- ===== src/Policy/Execute/Retry.antt =====
-- A message whose first attempt fails before a delivery, and whose second attempt ends well.
use data_pipeline_orchestrat.Base.{
  ℕ, zero, suc, ◌≡◌, refl, true, false, Exception, stop_iteration, os_error, pickling_error,
  type_error, attribute_error, value_error, node_failure, system_exit, other, returned, is_caught,
}
use data_pipeline_orchestrat.Policy.Execute.{
  ErrorPolicy, Func, Callbacks, body_error, Runtime, Reply, broke, done, back_off, start_attempt,
  count_error, count_retry, count_processed, end_attempt, end_or_retry, attempts_from,
  extra_attempts, execute,
}

-- An error stays one that is caught, or becomes one.
module _ {W F V : Type 0} (cb : Callbacks W F V) where
  pub body_error-caught : (e : Exception) → is_caught e ≡ true → is_caught (body_error cb e) ≡ true
  body_error-caught stop_iteration h = refl
  body_error-caught os_error h = refl
  body_error-caught pickling_error h = refl
  body_error-caught type_error h = refl
  body_error-caught attribute_error h = refl
  body_error-caught value_error h = refl
  body_error-caught node_failure h = refl
  body_error-caught system_exit h = h
  body_error-caught (other name) h = refl

module _ {W F Item V : Type 0} (rt : Runtime W F Item) (func : Func W Item V) (cb : Callbacks W F V)
    (item : Item) where
  second_attempt :
      (left : ℕ) (p : ErrorPolicy F) (w w1 : W) (r : Reply V)
      → start_attempt func cb item w ≡ (done r, w1)
      → attempts_from rt func cb item left 1 p w ≡ (returned r, count_processed p, w1)
  unfolding attempts_from end_or_retry end_attempt
  second_attempt zero p w w1 r ok = rw ok refl
  second_attempt (suc left) p w w1 r ok = rw ok refl

  -- One retry is enough, and the counters show one error, one retry, and a processed message.
  pub retried_once :
      (k : ℕ) (p : ErrorPolicy F) (w w1 w2 w3 : W) (e : Exception) (r : Reply V)
      → extra_attempts p.config ≡ suc k
      → start_attempt func cb item w ≡ (broke false e, w1)
      → is_caught e ≡ true
      → back_off rt cb p.config 0 w1 ≡ (returned false, w2)
      → start_attempt func cb item w2 ≡ (done r, w3)
      → execute rt func cb item p w
        ≡ (returned r, count_processed (count_retry (count_error p)), w3)
  unfolding execute attempts_from end_or_retry
  retried_once k p w w1 w2 w3 e r more broken caught waited ok =
      rw (more, broken, caught, waited) (second_attempt k (count_retry (count_error p)) w2 w3 r ok)

-- ===== src/Voice/Echo.antt =====
-- core/node/filters/mixins/aec.py: the echo canceller of the voice activity filter, and the buffer of
-- what the speaker has played. Samples and weights are numbers of one type, whichever width numpy
-- gives them, and a time is a number of clock ticks.
pub mod Laws
use data_pipeline_orchestrat.Base.{
  ℕ, zero, suc, ◌+◌, ◌-◌, Option, none, some, List, [], ◌∷◌, ◌++◌, Bool, true, false, not, ◌&&◌,
  ltb, leb, ◌==◌, length, drop, take, last_n, if◌then◌else◌, any, value_error, Outcome, returned,
  raised,
}

-- The arithmetic of numpy that the canceller and the filter use, and the resampling of scipy.
pub record Signal (A : Type 0) : Type 0 where
  pub zero_A : A
  pub add_A : A → A → A
  pub sub_A : A → A → A
  pub mul_A : A → A → A
  pub div_A : A → A → A
  pub leb_A : A → A → Bool
  -- whether a weight is not zero
  pub nonzero : A → Bool
  -- float(np.sqrt(np.mean(xs ** 2)))
  pub rms : List A → A
  -- resample_poly(samples, up=target_rate, down=source_rate), which raises for a rate of 0
  pub resample_poly : List A → (up down : ℕ) → Outcome (List A)

-- xs[::-1]
unfoldable pub reverse : {A : Type 0} → List A → List A
reverse [] = []
reverse (x ∷ xs) = reverse xs ++ x ∷ []

-- `xs[-n:]`, which is all of `xs` for 0.
unfoldable pub slice_last : {A : Type 0} → ℕ → List A → List A
slice_last zero xs = xs
slice_last (suc n) xs = last_n (suc n) xs

pub record Canceller (A : Type 0) : Type 0 where
  pub filter_length : ℕ
  pub step_size : A
  pub epsilon : A
  pub double_talk_ratio : A
  pub double_talk_floor : A
  pub weights : List A

module _ {A : Type 0} (sig : Signal A) where
  open sig use {zero_A, add_A, sub_A, mul_A, div_A, leb_A, nonzero, rms, resample_poly}

  -- np.zeros(n)
  unfoldable pub zeros : ℕ → List A
  zeros zero = []
  zeros (suc n) = zero_A ∷ zeros n

  -- np.dot
  pub dot : List A → List A → A
  dot (x ∷ xs) (y ∷ ys) = add_A (mul_A x y) (dot xs ys)
  dot _ _ = zero_A

  -- weights += (step_size / norm) * e * x_vec
  unfoldable pub adapt : (factor e : A) → (weights x_vec : List A) → List A
  adapt factor e (w ∷ ws) (x ∷ xs) = add_A w (mul_A (mul_A factor e) x) ∷ adapt factor e ws xs
  adapt factor e ws _ = ws

  -- `_nlms_process`: the cleaned samples and the weights that the loop leaves.
  unfoldable pub nlms_process :
      (mic ref_history weights : List A) → (step_size epsilon : A) → List A × List A
  unfolding reverse dot adapt
  nlms_process [] ref_history weights step_size epsilon = ([], weights)
  nlms_process (m ∷ mic) ref_history weights step_size epsilon =
      let x_vec = reverse (take (length weights) ref_history) in
      let e = sub_A m (dot weights x_vec) in
      let norm = add_A (dot x_vec x_vec) epsilon in
      let (out, weights') =
        nlms_process mic (drop 1 ref_history) (adapt (div_A step_size norm) e weights x_vec)
          step_size epsilon in
      (e ∷ out, weights')

  -- y_pred: what the weights predict for each sample of the block.
  pub predictions : (mic ref_history weights : List A) → List A
  unfolding reverse dot
  predictions [] ref_history weights = []
  predictions (m ∷ mic) ref_history weights =
      dot (reverse (take (length weights) ref_history)) weights
      ∷ predictions mic (drop 1 ref_history) weights

  -- mic64 - y_pred
  pub residual : (mic predicted : List A) → List A
  residual (m ∷ mic) (y ∷ ys) = sub_A m y ∷ residual mic ys
  residual _ _ = []

  -- effective_step: no adaptation in a block where the user's own speech dominates.
  pub effective_step : Canceller A → (mic ref_history : List A) → A
  unfolding predictions residual
  effective_step c mic ref_history =
      let y_pred = predictions mic ref_history c.weights in
      let pred_rms = rms y_pred in
      if any nonzero c.weights
        && not (leb_A pred_rms c.double_talk_floor)
        && not (leb_A (rms (residual mic y_pred)) (mul_A c.double_talk_ratio pred_rms))
      then zero_A
      else c.step_size

  -- `AdaptiveEchoCanceller.process`
  unfoldable pub cancel_echo :
      (mic ref_history : List A) → Canceller A → Outcome (List A) × Canceller A
  unfolding nlms_process effective_step
  cancel_echo mic ref_history c =
      let (out, weights) =
        nlms_process mic ref_history c.weights (effective_step c mic ref_history) c.epsilon in
      if length ref_history == c.filter_length + length mic
      then (returned out, record c { weights = weights })
      else (raised value_error, c)

  -- `_resample`
  unfoldable pub resample : List A → (source_rate target_rate : ℕ) → Outcome (List A)
  resample samples source_rate target_rate =
      if source_rate == target_rate
      then returned samples
      else resample_poly samples target_rate source_rate

pub record ReferenceBuffer (A : Type 0) : Type 0 where
  pub target_sample_rate : ℕ
  pub max_samples : ℕ
  pub samples : List A
  pub last_push_time : Option ℕ

module _ {A : Type 0} where
  -- The constructor, with int(target_sample_rate * max_seconds) worked out.
  unfoldable pub new_reference : (target_sample_rate max_samples : ℕ) → ReferenceBuffer A
  new_reference rate most = record {
    target_sample_rate = rate;
    max_samples = most;
    samples = [];
    last_push_time = none;
  }

  -- if len(self._samples) > self._max_samples
  unfoldable pub trim : ℕ → List A → List A
  unfolding slice_last
  trim most xs = if ltb most (length xs) then slice_last most xs else xs

  -- Samples were given; `now` is when the push ends.
  unfoldable pub push_some :
      Signal A → List A → (rate now : ℕ) → ReferenceBuffer A → Outcome (ReferenceBuffer A)
  unfolding trim resample
  push_some sig samples rate now b = elim (resample sig samples rate b.target_sample_rate) [
    | raised e ↦ raised e
    | returned resampled ↦ returned (record b {
      samples = trim b.max_samples (b.samples ++ resampled);
      last_push_time = some now;
    })
  ]

  unfoldable pub push :
      Signal A → List A → (rate now : ℕ) → ReferenceBuffer A → Outcome (ReferenceBuffer A)
  unfolding push_some
  push sig [] rate now b = returned b
  push sig (x ∷ xs) rate now b = push_some sig (x ∷ xs) rate now b

  -- `is_active`, with the tolerance and the time in ticks.
  unfoldable pub is_active : (max_staleness now : ℕ) → ReferenceBuffer A → Bool
  is_active max_staleness now b = elim b.last_push_time [
    | none ↦ false
    | some t ↦ leb (now - t) max_staleness
  ]

  unfoldable pub window : (filter_length len : ℕ) → ReferenceBuffer A → Option (List A)
  unfolding slice_last
  window filter_length len b =
      let needed = filter_length + len in
      if ltb (length b.samples) needed then none else some (slice_last needed b.samples)

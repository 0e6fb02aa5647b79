-- ===== src/Voice/Echo/Laws.antt =====
-- Lengths: of the buffer, of the window that it gives, and of what the canceller returns.
use data_pipeline_orchestrat.Base.{
  ℕ, zero, suc, ◌+◌, ◌-◌, ◌≤◌, ◌<◌, ◌≡◌, refl, ◌∙◌, ap, arith, some, List, [], ◌∷◌, length,
  length-drop, ltb, drop, take, returned, raised, Bool-cases, inl, inr, Exception, Outcome, ◌==◌,
  ◌++◌,
}
use data_pipeline_orchestrat.Voice.Echo.{
  Signal, dot, Canceller, ReferenceBuffer, reverse, slice_last, adapt, nlms_process, cancel_echo,
  effective_step, trim, push_some, resample, push, window,
}

module _ {A : Type 0} where
  length-slice_last : (n : ℕ) (xs : List A) → n ≤ length xs → 0 < n → length (slice_last n xs) ≡ n
  unfolding slice_last
  length-slice_last zero xs h k = omega (arith, k)
  length-slice_last (suc n) xs h k = omega (arith, length-drop (length xs - suc n) xs)

  -- A window has as many samples as were asked for.
  pub length-window :
      (filter_length len : ℕ) (b : ReferenceBuffer A) (xs : List A)
      → 0 < len
      → window filter_length len b ≡ some xs
      → length xs ≡ filter_length + len
  unfolding window
  length-window n len b xs h k = elim (Bool-cases (ltb (length b.samples) (n + len))) [
    | inl e ↦ ground (arith, e, k)
    | inr e ↦
        ground (
          arith,
          e,
          k,
          length-slice_last (n + len) b.samples (ground (arith, e)) (omega (arith, h)),
        )
  ]

  length-trim : (most : ℕ) (xs : List A) → 0 < most → length (trim most xs) ≤ most
  unfolding trim slice_last
  length-trim zero xs h = omega (arith, h)
  length-trim (suc most) xs h = ground (arith, length-drop (length xs - suc most) xs)

  -- What a push leaves: a buffer that keeps to its size, or an error of the resampling.
  abbrev pub IsPushed : (Exception → Type 0) → ℕ → Outcome (ReferenceBuffer A) → Type 0
  IsPushed P most (returned b) = (b.max_samples ≡ most) × (length b.samples ≤ most)
  IsPushed P most (raised e) = P e

  pub push-IsPushed :
      (sig : Signal A) (P : Exception → Type 0)
      → ((xs : List A) (up down : ℕ) (e : Exception)
          → sig.resample_poly xs up down ≡ raised e
          → P e)
      → (xs : List A) (rate now : ℕ) (b : ReferenceBuffer A) (most : ℕ) → 0 < most
      → b.max_samples ≡ most
      → length b.samples ≤ most
      → IsPushed P most (push sig xs rate now b)
  unfolding push push_some resample
  push-IsPushed sig P failing [] rate now b most h size k = (size, k)
  push-IsPushed sig P failing (x ∷ xs) rate now b most h size k =
      by_resample (resample sig (x ∷ xs) rate b.target_sample_rate) refl
    where
      by_resample :
          (r : Outcome (List A))
          → resample sig (x ∷ xs) rate b.target_sample_rate ≡ r
          → IsPushed P most (push sig (x ∷ xs) rate now b)
      by_resample (returned ys) done =
          rw (push, push_some, done, IsPushed)
            (size, rw size (length-trim most (b.samples ++ ys) h))
      by_resample (raised e) failed =
          rw (push, push_some, failed)
            (elim (Bool-cases (rate == b.target_sample_rate)) [
              | inl same ↦ cc (rw (resample, same) at failed)
              | inr other ↦
                  failing (x ∷ xs) b.target_sample_rate rate e (rw (resample, other) at failed)
            ])

module _ {A : Type 0} (sig : Signal A) where
  length-adapt : (factor e : A) (ws xs : List A) → length (adapt sig factor e ws xs) ≡ length ws
  unfolding adapt
  length-adapt factor e [] xs = refl
  length-adapt factor e (w ∷ ws) [] = refl
  length-adapt factor e (w ∷ ws) (x ∷ xs) = ap suc (length-adapt factor e ws xs)

  open sig use {sub_A, div_A, add_A}

  length-nlms_process :
      (mic ref weights : List A) (step epsilon : A)
      → (length ((nlms_process sig mic ref weights step epsilon).0) ≡ length mic)
        × (length ((nlms_process sig mic ref weights step epsilon).1) ≡ length weights)
  unfolding nlms_process
  length-nlms_process [] ref weights step epsilon = (refl, refl)
  length-nlms_process (m ∷ mic) ref weights step epsilon =
      let x_vec = reverse (take (length weights) ref) in
      let e = sub_A m (dot sig weights x_vec) in
      let f = div_A step (add_A (dot sig x_vec x_vec) epsilon) in
      let (a, b) =
        length-nlms_process mic (drop 1 ref) (adapt sig f e weights x_vec) step epsilon in
      (ap suc a, b ∙ length-adapt f e weights x_vec)

  -- With a history of the right length the canceller returns as many samples as the microphone gave.
  pub length-cancel_echo :
      (mic ref : List A) (c : Canceller A)
      → length ref ≡ c.filter_length + length mic
      → (out : List A) × (length out ≡ length mic)
        × (cancel_echo sig mic ref c ≡ (
          returned out,
          record c {
            weights =
                (nlms_process sig mic ref c.weights (effective_step sig c mic ref) c.epsilon).1;
          },
        ))
  unfolding cancel_echo
  length-cancel_echo mic ref c h =
      let step = effective_step sig c mic ref in
      (
        (nlms_process sig mic ref c.weights step c.epsilon).0,
        (length-nlms_process mic ref c.weights step c.epsilon).0,
        rw h (ground arith),
      )

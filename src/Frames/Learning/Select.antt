-- ===== src/Frames/Learning/Select.antt =====
-- What the selection picks.
use data_pipeline_orchestrat.Base.{
  ◌≡◌, refl, sym, ap, ◌∙◌, inl, inr, ℕ, zero, suc, ◌+◌, ◌≤◌, List, [], ◌∷◌, ◌++◌, map, true, min,
  leb, length, length-append, All, Bool-cases, arith, Outcome, returned, raised, none,
}
use mathlib.Core.List.{append_assoc, append-nil}
use data_pipeline_orchestrat.Frames.Learning.{
  Frame, Floats, Settings, uncertainties, normalised, raw_scores, masked, argmax, pick, chosen,
  active_select, fold_F, uncertainty, cons_uncertain,
}
use data_pipeline_orchestrat.Frames.Learning.Best.{IsOrdered, IsBest, argmax-IsBest}

returned-eq : {A : Type 0} {x y : A} → returned x ≡ returned y → x ≡ y
returned-eq h = cc

length-map : {A B : Type 0} (f : A → B) (xs : List A) → length (map f xs) ≡ length xs
length-map f [] = refl
length-map f (x ∷ xs) = ap suc (length-map f xs)

length-cons_uncertain :
    {F E : Type 0} (ops : Floats F E) (cfg : Settings F) (u : Outcome F) (r : Outcome (List F))
    (us : List F) (n : ℕ)
    → ((vs : List F) → r ≡ returned vs → length vs ≡ n)
    → cons_uncertain ops cfg u r ≡ returned us
    → length us ≡ suc n
length-cons_uncertain ops cfg (raised e) r us n others together = cc
length-cons_uncertain ops cfg (returned u) (raised e) us n others together = cc
length-cons_uncertain ops cfg (returned u) (returned vs) us n others together =
    rw (← returned-eq together) (ap suc (others vs refl))

nil_of_length : {A : Type 0} (xs : List A) → length xs ≤ 0 → xs ≡ []
nil_of_length [] empty = refl
nil_of_length (x ∷ xs) empty = absurd (omega arith)

module _ {F E : Type 0} (ops : Floats F E) (cfg : Settings F) (ordered : IsOrdered ops) where
  -- Each row is the best one after those before it.
  pub IsGreedy : (score : List ℕ → List F) (before picked : List ℕ) → Type 0
  IsGreedy score before [] = Unit
  IsGreedy score before (r ∷ rs) =
      IsBest ops cfg ordered before (score before) r × IsGreedy score (before ++ r ∷ []) rs

  module _ (score : List ℕ → List F) (n : ℕ)
      (above : (selected : List ℕ) → All (λ s. ops.ltb_F ops.neg_inf s ≡ true) (score selected))
      (rows : (selected : List ℕ) → length (score selected) ≡ n) where
    pick-IsGreedy :
        (m : ℕ) (selected : List ℕ)
        → m + length selected ≤ n
        → (rs : List ℕ) × (pick ops cfg score m selected ≡ selected ++ rs)
          × (length rs ≡ m)
          × IsGreedy score selected rs
    unfolding pick IsGreedy
    pick-IsGreedy zero selected enough = ([], sym (append-nil selected), refl, tt)
    pick-IsGreedy (suc m) selected enough =
        let r = argmax ops cfg (masked ops cfg selected 0 (score selected)) in
        let (rs, picked, count, greedy) =
          pick-IsGreedy m (selected ++ r ∷ []) (omega (arith, length-append selected (r ∷ []))) in
        (
          r ∷ rs,
          picked ∙ append_assoc selected (r ∷ []) rs,
          ap suc count,
          (
            argmax-IsBest ops cfg ordered selected (score selected) (above selected)
                (omega (arith, rows selected)),
            greedy,
          ),
        )

  -- The rows of scores that a selection compares.
  abbrev pub scores_for : List (Frame F E) → List F → List ℕ → List F
  scores_for frames us selected =
      raw_scores ops cfg (chosen (map (λ (f : Frame F E). f.embedding) frames) selected)
        (map (λ (f : Frame F E). f.embedding) frames) (normalised ops cfg us)

  length-normalised : (us : List F) → length (normalised ops cfg us) ≡ length us
  unfolding normalised
  length-normalised [] = refl
  length-normalised (u ∷ us) =
      let low = fold_F ops cfg ops.minimum u us in
      let spread = ops.sub (fold_F ops cfg ops.maximum u us) low in
      elim (Bool-cases (ops.ltb_F ops.spread_eps spread)) [
        | inl wide ↦ rw wide (length-map (λ v. ops.div (ops.sub v low) spread) (u ∷ us))
        | inr narrow ↦ rw narrow refl
      ]

  length-uncertainties :
      (frames : List (Frame F E)) (us : List F)
      → uncertainties ops cfg frames ≡ returned us
      → length us ≡ length frames
  unfolding uncertainties
  length-uncertainties [] us uncertain = rw (← returned-eq uncertain) refl
  length-uncertainties (f ∷ fs) us uncertain =
      length-cons_uncertain ops cfg (uncertainty ops cfg f.scores) (uncertainties ops cfg fs) us
        (length fs) (length-uncertainties fs) uncertain

  length-raw_scores :
      (picked es : List E) (us : List F)
      → length us ≡ length es
      → length (raw_scores ops cfg picked es us) ≡ length es
  unfolding raw_scores
  length-raw_scores picked [] us same = refl
  length-raw_scores picked (e ∷ es) [] same = absurd (omega arith)
  length-raw_scores picked (e ∷ es) (u ∷ us) same =
      ap suc (length-raw_scores picked es us (omega arith))

  active_select_picked :
      (frames : List (Frame F E)) (us : List F) (rs : List ℕ)
      → ops.vstack_error (map (λ (f : Frame F E). f.embedding) frames) ≡ none
      → uncertainties ops cfg frames ≡ returned us
      → pick ops cfg (scores_for frames us) (min cfg.num_to_select (length frames)) [] ≡ rs
      → length rs ≡ min cfg.num_to_select (length frames)
      → active_select ops cfg frames ≡ returned rs
  unfolding active_select
  active_select_picked frames us rs stacked uncertain picked count =
      elim (Bool-cases (leb (min cfg.num_to_select (length frames)) 0)) [
        | inl nothing ↦
            let empty : length rs ≤ 0 = ground arith in
            rw nothing (ap (λ r. returned r) (sym (nil_of_length rs empty)))
        | inr something ↦
            rw (something, stacked, uncertain, active_select) (ap (λ r. returned r) picked)
      ]

  -- If the embeddings stack to a matrix and no uncertainty fails, `active_select` picks as many frames
  -- as are wanted, or all if there are not as many, one after the other: each is a frame that was not
  -- picked yet, and none of those has a larger score, where the score is computed from the frames
  -- picked until then. This takes that comparisons order the numbers, and that every score the
  -- frames get is a number above -inf.
  pub active_select-IsGreedy :
      (frames : List (Frame F E)) (us : List F)
      → ops.vstack_error (map (λ (f : Frame F E). f.embedding) frames) ≡ none
      → uncertainties ops cfg frames ≡ returned us
      → ((selected : List ℕ)
          → All (λ s. ops.ltb_F ops.neg_inf s ≡ true) (scores_for frames us selected))
      → (rs : List ℕ) × (active_select ops cfg frames ≡ returned rs)
        × (length rs ≡ min cfg.num_to_select (length frames))
        × IsGreedy (scores_for frames us) [] rs
  active_select-IsGreedy frames us stacked uncertain above =
      let embs = map (λ (f : Frame F E). f.embedding) frames in
      let wanted = min cfg.num_to_select (length frames) in
      let same_length : length (normalised ops cfg us) ≡ length embs =
        length-normalised us
        ∙ length-uncertainties frames us uncertain
        ∙ sym (length-map (λ (f : Frame F E). f.embedding) frames) in
      let (rs, picked, count, greedy) =
        pick-IsGreedy (scores_for frames us) (length frames) above
          (λ selected.
            length-raw_scores (chosen embs selected) embs (normalised ops cfg us) same_length
            ∙ length-map (λ (f : Frame F E). f.embedding) frames)
          wanted [] (omega arith) in
      (rs, active_select_picked frames us rs stacked uncertain picked count, count, greedy)

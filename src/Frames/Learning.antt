-- ===== src/Frames/Learning.antt =====
-- core/node/model/mixins/active_learning_mixin.py. A folder is named by the text of its path, the
-- arithmetic of numpy and the distance of two embeddings are parameters, and a frame is the value that
-- the mixin reads of it.
pub mod Best
pub mod Select
pub mod Examples
use data_pipeline_orchestrat.Base.{
  ℕ, zero, suc, ◌+◌, String, str_eq, Option, none, some, List, [], ◌∷◌, ◌++◌, map, Bool, true,
  false, not, min, leb, ltb, ◌==◌, length, contains, filter, get_elem?, if◌then◌else◌, Dict, lookup,
  has_key, assign, Outcome, returned, raised, value_error, Exception, other, all,
}

pub record Frame (F E : Type 0) : Type 0 where
  -- Path(frame.source_frame).parent.as_posix()
  pub src_dir : String
  pub frame_id : ℕ
  pub frame_id_last : ℕ
  pub drop : Bool
  -- b.score for each box
  pub scores : List F
  pub embedding : E

-- The float operations of numpy that the code uses.
pub record Floats (F E : Type 0) : Type 0 where
  pub zero_F : F
  pub one_F : F
  pub neg_inf : F
  -- _UNCERTAINTY_SPREAD_EPS
  pub spread_eps : F
  pub add : F → F → F
  pub sub : F → F → F
  pub mul : F → F → F
  pub div : F → F → F
  pub of_nat : ℕ → F
  pub maximum : F → F → F
  pub minimum : F → F → F
  pub ltb_F : F → F → Bool
  -- what np.vstack of the embeddings raises, which may be missing or of unequal shape; none if it
  -- is a matrix with the embeddings as rows, of which cdist gives the distances
  pub vstack_error : List E → Option Exception
  -- cdist of two rows
  pub distance : E → E → F

pub record Settings (F : Type 0) : Type 0 where
  pub num_to_select : ℕ
  pub conf_strategy : String
  pub conf_weight : F

-- xs[indices], for indices in range.
abbrev pub chosen : {X : Type 0} → List X → List ℕ → List X
chosen xs [] = []
chosen xs (i ∷ is) = elim (get_elem? xs i) [ none ↦ chosen xs is | some x ↦ x ∷ chosen xs is ]

module _ {F E : Type 0} (ops : Floats F E) (cfg : Settings F) where
  open ops use {
    zero_F, one_F, neg_inf, spread_eps, add, sub, mul, div, of_nat, maximum, minimum, ltb_F,
    vstack_error, distance,
  }

  abbrev pub sum_F : List F → F
  sum_F [] = zero_F
  sum_F (x ∷ xs) = add x (sum_F xs)

  abbrev pub fold_F : (F → F → F) → F → List F → F
  fold_F f x [] = x
  fold_F f x (y ∷ ys) = f x (fold_F f y ys)

  -- The entry of `uncert` for the scores of a frame's boxes.
  unfoldable pub uncertainty : List F → Outcome F
  uncertainty [] = returned one_F
  uncertainty (s ∷ ss) =
      let inv = map (λ c. sub one_F c) (s ∷ ss) in
      if str_eq cfg.conf_strategy "sum"
      then returned (sum_F inv)
      else if str_eq cfg.conf_strategy "avg"
      then returned (div (sum_F inv) (of_nat (length inv)))
      else if str_eq cfg.conf_strategy "max"
      then returned (fold_F maximum (sub one_F s) (map (λ c. sub one_F c) ss))
      else raised value_error

  abbrev pub cons_uncertain : Outcome F → Outcome (List F) → Outcome (List F)
  cons_uncertain (raised e) us = raised e
  cons_uncertain (returned u) (raised e) = raised e
  cons_uncertain (returned u) (returned us) = returned (u ∷ us)

  unfoldable pub uncertainties : List (Frame F E) → Outcome (List F)
  unfolding uncertainty
  uncertainties [] = returned []
  uncertainties (f ∷ fs) = cons_uncertain (uncertainty f.scores) (uncertainties fs)

  -- From `np.ptp` on.
  unfoldable pub normalised : List F → List F
  normalised [] = []
  normalised (u ∷ us) =
      let low = fold_F minimum u us in
      let spread = sub (fold_F maximum u us) low in
      if ltb_F spread_eps spread then map (λ v. div (sub v low) spread) (u ∷ us) else u ∷ us

  -- cdist(embs, chosen).min(axis=1) for one row; zeros where nothing is chosen.
  abbrev pub nearest : E → List E → F
  nearest e [] = zero_F
  nearest e (c ∷ cs) = fold_F minimum (distance e c) (map (distance e) cs)

  -- `scores`, from the row `i` on, before the selected ones are masked.
  unfoldable pub raw_scores : List E → List E → List F → List F
  raw_scores picked [] us = []
  raw_scores picked (e ∷ es) [] = []
  raw_scores picked (e ∷ es) (u ∷ us) =
      add (nearest e picked) (mul cfg.conf_weight u) ∷ raw_scores picked es us

  -- scores[selected_idx] = -np.inf
  unfoldable pub masked : (selected : List ℕ) (i : ℕ) → List F → List F
  masked selected i [] = []
  masked selected i (s ∷ ss) =
      (if contains i selected then neg_inf else s) ∷ masked selected (suc i) ss

  -- np.argmax: the first of the largest entries; `best` is that of the entries before the row `i`.
  unfoldable pub argmax_from : (best : ℕ) (value : F) (i : ℕ) → List F → ℕ
  argmax_from best value i [] = best
  argmax_from best value i (s ∷ ss) =
      let replaced = argmax_from i s (suc i) ss in
      let stays = argmax_from best value (suc i) ss in if ltb_F value s then replaced else stays

  unfoldable pub argmax : List F → ℕ
  unfolding argmax_from
  argmax [] = 0
  argmax (s ∷ ss) = argmax_from 0 s 1 ss

  -- The loop that picks `n` more, where `score` is the row of unmasked scores for the picked ones.
  unfoldable pub pick : (score : List ℕ → List F) (n : ℕ) (selected : List ℕ) → List ℕ
  unfolding masked argmax
  pick score zero selected = selected
  pick score (suc n) selected =
      pick score n (selected ++ argmax (masked selected 0 (score selected)) ∷ [])

  -- `active_select`: the indices of the frames in the batch.
  unfoldable pub active_select : List (Frame F E) → Outcome (List ℕ)
  unfolding uncertainties normalised raw_scores pick
  active_select frames =
      let n_take = min cfg.num_to_select (length frames) in
      let embs = map (λ (f : Frame F E). f.embedding) frames in
      let picked : Outcome (List ℕ) = elim (uncertainties frames) [
        | raised e ↦ raised e
        | returned us ↦
            returned
              (pick (λ selected. raw_scores (chosen embs selected) embs (normalised us)) n_take [])
      ] in
      let stacked : Outcome (List ℕ) = elim (vstack_error embs) [
        | some e ↦ raised e
        | none ↦ picked
      ] in
      if leb n_take 0 then returned [] else stacked

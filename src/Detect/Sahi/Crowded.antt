-- ===== src/Detect/Sahi/Crowded.antt =====
-- What `_post_transform` makes of the detections of the crops, and when it cannot.
use data_pipeline_orchestrat.Base.{
  ◌≡◌, refl, ◌∙◌, ℕ, zero, suc, ◌+◌, ◌≤◌, ◌<◌, some, List, [], ◌∷◌, ◌++◌, length, arith, ℤ,
  returned, raised, value_error, take,
}
use data_pipeline_orchestrat.Detect.Nms.{Float32, Det, Predictions, clear_of}
use data_pipeline_orchestrat.Detect.Nms.Laws.{limit, choose, apply_nms-choose}
use data_pipeline_orchestrat.Detect.Sahi.{
  LetterboxParam, store_all, new_buffers, allocate, detect_all, suppress_all, post_transform,
}
use data_pipeline_orchestrat.Detect.Sahi.Buffers.{
  all_of, AreBelow, filled_all, no_rows, store_at_crowded, store_all-append, stored,
}

module _ {F : Type 0} (ops : Float32 F) (of_int : ℤ → F) (by_score : List (Det F) → List (Det F))
    (conf iou : F) (max_det : ℕ) where
  -- The choice among all detections of each image, for `n` images from `i` on.
  pub merged : (i n : ℕ) → List (ℕ × List (Det F)) → List (List (Det F))
  merged i zero found = []
  merged i (suc n) found =
      take (limit max_det) (choose (clear_of ops iou) [] (by_score (all_of i found)))
      ∷ merged (suc i) n found

  suppress_all-merged :
      (i n : ℕ) (found : List (ℕ × List (Det F)))
      → suppress_all ops of_int by_score conf iou max_det (filled_all i found (no_rows n))
        ≡ some (merged i n found)
  unfolding suppress_all filled_all no_rows merged
  suppress_all-merged i zero found = refl
  suppress_all-merged i (suc n) found =
      rw
        (
          apply_nms-choose ops by_score (all_of i found) iou max_det,
          suppress_all-merged (suc i) n found,
          suppress_all,
        )
        refl

  -- For one crop or more: where no image has more than `max_det` detections in all its crops, `_post_transform` returns,
  -- for each image, what the choice box by box keeps of all of them, in the order of the scores.
  pub post_transform-merged :
      (crop : Predictions F × LetterboxParam F) (crops : List (Predictions F × LetterboxParam F))
      (n_ims : ℕ) (found : List (ℕ × List (Det F)))
      → detect_all ops of_int by_score conf iou max_det (crop ∷ crops) ≡ some found
      → AreBelow n_ims found
      → ((i : ℕ) → length (all_of i found) ≤ max_det)
      → post_transform ops of_int by_score conf iou max_det (crop ∷ crops) n_ims
        ≡ returned (some (merged 0 n_ims found))
  unfolding post_transform allocate
  post_transform-merged crop crops n_ims found detected below few =
      rw
        (
          detected,
          post_transform,
          stored max_det n_ims found below few,
          suppress_all-merged 0 n_ims found,
        )
        refl

  -- The buffer of an image has `max_det` rows for all its crops. If the crops up to one have left too
  -- little room for its detections, of which there are two or more, the whole call fails, whatever the
  -- other pictures show.
  pub crowded_raises :
      (crop : Predictions F × LetterboxParam F) (crops : List (Predictions F × LetterboxParam F))
      (n_ims image_id : ℕ) (dets : List (Det F))
      → (earlier later : List (ℕ × List (Det F)))
      → detect_all ops of_int by_score conf iou max_det (crop ∷ crops)
        ≡ some (earlier ++ (image_id, dets) ∷ later)
      → AreBelow n_ims earlier
      → ((i : ℕ) → length (all_of i earlier) ≤ max_det)
      → image_id < n_ims
      → max_det < length (all_of image_id earlier) + length dets
      → 2 ≤ length dets
      → post_transform ops of_int by_score conf iou max_det (crop ∷ crops) n_ims
        ≡ raised value_error
  unfolding post_transform allocate
  crowded_raises crop crops n_ims image_id dets earlier later detected below few low many several =
      let before = stored max_det n_ims earlier below few in
      let fails : store_all max_det (earlier ++ (image_id, dets) ∷ later) (new_buffers n_ims)
          ≡ raised value_error =
        store_all-append max_det earlier ((image_id, dets) ∷ later) (new_buffers n_ims)
          (filled_all 0 earlier (no_rows n_ims)) before
        ∙ (unfold store_all in
            rw
              (store_at_crowded max_det image_id image_id 0 dets earlier n_ims (omega arith) low
                many several)
              refl) in
      rw (detected, post_transform, fails) refl

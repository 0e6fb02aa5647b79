-- ===== src/Detect/Nms/Decoded.antt =====
-- What `postprocess_yolo_outputs` returns.
use data_pipeline_orchestrat.Base.{
  ◌≡◌, refl, ℕ, zero, suc, ◌+◌, ◌≤◌, ◌<◌, some, List, [], ◌∷◌, Bool, true, ◌&&◌, all, All,
  all-append, ltb, length, take, length-take, arith,
}
use data_pipeline_orchestrat.Detect.Nms.{
  Float32, Det, Predictions, clear_of, decoded, decode_row, decode_rows, decode_output,
  postprocess_yolo_outputs,
}
use data_pipeline_orchestrat.Detect.Nms.Laws.{
  limit, choose, Apart, All-take, All-choose, Apart-choose, Apart-take, apply_nms-choose,
}

module _ {A : Type 0} (p : A → Bool) where
  all→All : (xs : List A) → all p xs ≡ true → All (λ x. p x ≡ true) xs
  all→All [] h = tt
  all→All (x ∷ xs) h = (ground arith, all→All xs (ground arith))

module _ {F : Type 0} (ops : Float32 F) where
  -- The score is at least `conf`, and the class is one of the prediction's.
  abbrev pub is_wanted : Predictions F → F → Det F → Bool
  is_wanted p conf d = ops.leb_F conf d.score && ltb d.class_id p.classes

  module _ (p : Predictions F) (conf : F) (ratio pad : F × F) where
    decode_row-wanted :
        (px n py : ℕ)
        → px < p.classes
        → all (is_wanted p conf) (decode_row ops p conf ratio pad px n py) ≡ true
    unfolding decode_row decoded
    decode_row-wanted px zero py low = refl
    decode_row-wanted px (suc n) py low = ground (arith, decode_row-wanted px n (suc py) low)

    decode_rows-wanted :
        (n px : ℕ)
        → n + px ≡ p.classes
        → all (is_wanted p conf) (decode_rows ops p conf ratio pad n px) ≡ true
    unfolding decode_rows
    decode_rows-wanted zero px sum = refl
    decode_rows-wanted (suc n) px sum = ground (
      arith,
      all-append (is_wanted p conf) (decode_row ops p conf ratio pad px p.anchors 0)
          (decode_rows ops p conf ratio pad n (suc px)),
      decode_row-wanted px p.anchors 0 (omega arith),
      decode_rows-wanted n (suc px) (omega arith),
    )

module _ {F : Type 0} (ops : Float32 F) (by_score : List (Det F) → List (Det F))
    (sorts : (p : Det F → Bool) (ds : List (Det F))
      → all p ds ≡ true
      → all p (by_score ds) ≡ true) where
  -- `postprocess_yolo_outputs` returns at most `max_det` detections, or at most one if that is 0. Each
  -- has a score of at least `conf` and a class of the prediction, and the overlap of each with every
  -- later one is below the threshold. This takes that sorting adds no rows.
  pub postprocess_bounds :
      (p : Predictions F) (conf iou : F) (max_det : ℕ) (ratio pad : F × F)
      → (dets : List (Det F)) × (postprocess_yolo_outputs ops by_score p conf iou max_det ratio pad
          ≡ some dets)
        × (length dets ≤ limit max_det)
        × All (λ d. is_wanted ops p conf d ≡ true) dets
        × Apart (clear_of ops iou) dets
  unfolding postprocess_yolo_outputs decode_output
  postprocess_bounds p conf iou max_det ratio pad =
      let found = decode_output ops p conf ratio pad in
      let chosen = choose (clear_of ops iou) [] (by_score found) in
      let wanted : All (λ d. is_wanted ops p conf d ≡ true) (by_score found) =
        all→All (is_wanted ops p conf) (by_score found) (
          sorts (is_wanted ops p conf) found
            (decode_rows-wanted ops p conf ratio pad p.classes 0 (omega arith))) in
      (
        take (limit max_det) chosen,
        apply_nms-choose ops by_score found iou max_det,
        length-take (limit max_det) chosen,
        All-take (clear_of ops iou) (λ d. is_wanted ops p conf d ≡ true) (limit max_det) chosen
            (All-choose (clear_of ops iou) (λ d. is_wanted ops p conf d ≡ true) (by_score found) []
              tt wanted),
        Apart-take (clear_of ops iou) (limit max_det) chosen
            (Apart-choose (clear_of ops iou) (by_score found) [] tt),
      )

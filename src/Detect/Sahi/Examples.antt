-- ===== src/Detect/Sahi/Examples.antt =====
-- Pictures that are their sizes, and a detector that sees nothing or the same boxes everywhere.
use data_pipeline_orchestrat.Base.{
  ◌≡◌, refl, ℕ, zero, suc, ◌+◌, ◌*◌, ◌≤◌, length, ◌++◌, ◌-◌, map, All, inl, inr, ltb, if◌then◌else◌,
  some, List, [], ◌∷◌, ℤ, pos, magnitude, returned, raised, value_error, arith,
}
use data_pipeline_orchestrat.Detect.Slices.{Size, calculate_slices_coordinates}
use data_pipeline_orchestrat.Detect.Nms.{Det, Predictions, postprocess_yolo_outputs}
use data_pipeline_orchestrat.Detect.Nms.Examples.{percents, sorted}
use data_pipeline_orchestrat.Detect.Sahi.{
  new_sahi, Images, LetterboxParam, pre_transform, detect_all, post_transform,
}
use data_pipeline_orchestrat.Detect.Sahi.Laws.{AllEntered}
use data_pipeline_orchestrat.Detect.Sahi.Stacked.{IsShaped, pre_transform-new_sahi}
use data_pipeline_orchestrat.Detect.Sahi.Buffers.{all_of}
use data_pipeline_orchestrat.Detect.Sahi.Crowded.{merged, post_transform-merged, crowded_raises}

abbrev size : ℕ → ℕ → Size
size h w = record { height = h; width = w }

abbrev pictures : Images Size ℕ
pictures = record {
  shape = λ i. i;
  crop = λ i s. size (magnitude s.y2 - magnitude s.y1) (magnitude s.x2 - magnitude s.x1);
  to_rgb = λ i. i;
  letterbox = λ crop i. (crop, 1, 1, 0, 0);
  normalise = λ i. i;
  one_F = 1;
  zero_F = 0;
}

shaped : IsShaped pictures
shaped = record { letterboxed = λ s i. refl; cropped = λ i y x h w low right. ground arith }

pre_transform-new_sahi_example :
    (es : List (Size × LetterboxParam ℕ)) × (pre_transform pictures
        (size 6 3 ∷ size 2 2 ∷ [])
        (new_sahi (size 3 3) (size 3 3) (pos 1) (pos 0) (pos 4))
      ≡ returned (map (λ (e : Size × LetterboxParam ℕ). (e.0, e.1)) es))
    × AllEntered pictures
        (new_sahi (size 3 3) (size 3 3) (pos 1) (pos 0) (pos 4))
        (size 6 3 ∷ size 2 2 ∷ [])
        0
        es
    × All (λ (e : Size × LetterboxParam ℕ). e.0 ≡ size 3 3) es
unfolding new_sahi
pre_transform-new_sahi_example =
    pre_transform-new_sahi pictures shaped (size 3 3) (pos 1) (pos 0) (pos 4) (size 6 3)
      (size 2 2 ∷ []) (omega arith) (omega arith) (inr (omega arith, omega arith), (inl refl, tt))

-- A picture that is narrower than a crop and has more rows.
narrow_raises :
    pre_transform pictures (size 6 2 ∷ []) (new_sahi (size 3 3) (size 3 3) (pos 0) (pos 0) (pos 4))
    ≡ raised value_error
unfolding pre_transform new_sahi calculate_slices_coordinates
narrow_raises = refl

-- A picture with `n` boxes, 100 pixels apart.
abbrev boxes : ℕ → Predictions ℕ
boxes n = record {
  entry = λ row column. if ltb row 2 then 100 + column * 100 else 10;
  classes = 1;
  anchors = n;
}

abbrev from_crop : ℤ → LetterboxParam ℕ
from_crop y = record { ry = 100; rx = 100; py = 0; px = 0; image_id = 0; oy = y; ox = pos 0 }

-- What is found of one of the boxes, below `y` rows.
abbrev spot : ℕ → ℕ → Det ℕ
spot c y = record {
  box = record {
    x1 = 95 + c * 100;
    y1 = 95 + c * 100 + y;
    x2 = 105 + c * 100;
    y2 = 105 + c * 100 + y;
  };
  score = 10;
  class_id = 0;
}

-- The whole picture, with one box, and a crop with two.
abbrev first_crop : Predictions ℕ × LetterboxParam ℕ
first_crop = (boxes 1, from_crop (pos 0))

abbrev later_crops : List (Predictions ℕ × LetterboxParam ℕ)
later_crops = (boxes 2, from_crop (pos 50)) ∷ []

abbrev crops : List (Predictions ℕ × LetterboxParam ℕ)
crops = first_crop ∷ later_crops

abbrev in_whole : List (ℕ × List (Det ℕ))
in_whole = (0, spot 0 0 ∷ []) ∷ []

abbrev in_crop : List (Det ℕ)
in_crop = spot 0 50 ∷ spot 1 50 ∷ []

detected_2 :
    detect_all percents magnitude sorted 5 50 2 crops ≡ some (in_whole ++ (0, in_crop) ∷ [])
unfolding detect_all postprocess_yolo_outputs
detected_2 = refl

detected_3 :
    detect_all percents magnitude sorted 5 50 3 crops ≡ some (in_whole ++ (0, in_crop) ∷ [])
unfolding detect_all postprocess_yolo_outputs
detected_3 = refl

few_in_whole : (i : ℕ) → length (all_of i in_whole) ≤ 2
unfolding all_of
few_in_whole zero = omega arith
few_in_whole (suc i) = ground arith

few_in_both : (i : ℕ) → length (all_of i (in_whole ++ (0, in_crop) ∷ [])) ≤ 3
unfolding all_of
few_in_both zero = omega arith
few_in_both (suc i) = ground arith

post_transform-merged_example :
    post_transform percents magnitude sorted 5 50 3 crops 1
    ≡ returned (some (merged percents magnitude sorted 5 50 3 0 1 (in_whole ++ (0, in_crop) ∷ [])))
post_transform-merged_example =
    post_transform-merged percents magnitude sorted 5 50 3 first_crop later_crops 1
      (in_whole ++ (0, in_crop) ∷ []) detected_3 (omega arith, (omega arith, tt)) few_in_both

crowded_raises_example :
    post_transform percents magnitude sorted 5 50 2 crops 1 ≡ raised value_error
unfolding all_of
crowded_raises_example =
    crowded_raises percents magnitude sorted 5 50 2 first_crop later_crops 1 0 in_crop in_whole []
      detected_2 (omega arith, tt) few_in_whole (omega arith) (omega arith) (omega arith)

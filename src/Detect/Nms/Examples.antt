-- ===== src/Detect/Nms/Examples.antt =====
-- Numbers in place of float32, with overlaps in percent.
use data_pipeline_orchestrat.Base.{
  ◌≡◌, refl, ℕ, ◌+◌, ◌-◌, ◌*◌, ◌/◌, min, ltb, leb, if◌then◌else◌, some, List, [], ◌∷◌, take,
}
use data_pipeline_orchestrat.Detect.Nms.{Float32, Det, clear_of, apply_nms}
use data_pipeline_orchestrat.Detect.Nms.Laws.{limit, choose, apply_nms-choose}

abbrev pub percents : Float32 ℕ
percents = record {
  zero_F = 0;
  add = λ a b. a + b;
  sub = λ a b. a - b;
  mul = λ a b. a * b;
  div = λ a b. (a * 100) / b;
  half = λ a. a / 2;
  maximum = λ a b. if ltb a b then b else a;
  minimum = λ a b. min a b;
  ltb_F = ltb;
  leb_F = leb;
}

-- A box one pixel high, with its score.
abbrev pub wide : ℕ → ℕ → ℕ → Det ℕ
wide from to score = record {
  box = record { x1 = from; y1 = 0; x2 = to; y2 = 1 };
  score = score;
  class_id = 0;
}

-- The rows are sorted already.
abbrev pub sorted : List (Det ℕ) → List (Det ℕ)
sorted ds = ds

three_boxes :
    apply_nms percents sorted (wide 0 10 9 ∷ wide 1 10 8 ∷ wide 20 30 7 ∷ []) 50 10
    ≡ some (wide 0 10 9 ∷ wide 20 30 7 ∷ [])
unfolding apply_nms
three_boxes = refl

apply_nms-choose_example :
    apply_nms percents sorted (wide 0 10 9 ∷ wide 1 10 8 ∷ wide 20 30 7 ∷ []) 50 10
    ≡ some (
        take
          (limit 10)
          (choose (clear_of percents 50) [] (wide 0 10 9 ∷ wide 1 10 8 ∷ wide 20 30 7 ∷ [])))
apply_nms-choose_example =
    apply_nms-choose percents sorted (wide 0 10 9 ∷ wide 1 10 8 ∷ wide 20 30 7 ∷ []) 50 10

-- ===== src/Detect/Nms.antt =====
-- `compute_iou`, `apply_nms`, `decode_output` and `postprocess_yolo_outputs` of neudc/nn/models/op.py.
-- The arithmetic of float32 is a parameter, and so is the order in which numpy sorts the scores. An
-- index into the detections is represented by the row that it selects.
pub mod Laws
pub mod Decoded
pub mod Examples
use data_pipeline_orchestrat.Base.{
  ℕ, zero, suc, ◌+◌, Option, none, some, List, [], ◌∷◌, ◌++◌, map, Bool, leb, length, filter,
  if◌then◌else◌,
}

-- The operations on float32 that the code uses.
pub record Float32 (F : Type 0) : Type 0 where
  pub zero_F : F
  pub add : F → F → F
  pub sub : F → F → F
  pub mul : F → F → F
  pub div : F → F → F
  -- x / 2
  pub half : F → F
  pub maximum : F → F → F
  pub minimum : F → F → F
  pub ltb_F : F → F → Bool
  pub leb_F : F → F → Bool

-- The first four columns of a row.
pub record Box (F : Type 0) : Type 0 where
  pub x1 : F
  pub y1 : F
  pub x2 : F
  pub y2 : F

-- A row of detections.
pub record Det (F : Type 0) : Type 0 where
  pub box : Box F
  pub score : F
  pub class_id : ℕ

-- The raw output for one image: the entry in a row and a column, and the shape, less the 4 rows of
-- the boxes.
pub record Predictions (F : Type 0) : Type 0 where
  pub entry : ℕ → ℕ → F
  pub classes : ℕ
  pub anchors : ℕ

module _ {F : Type 0} (ops : Float32 F) where
  open ops use {zero_F, add, sub, mul, div, half, maximum, minimum, ltb_F, leb_F}

  abbrev pub area : Box F → F
  area b = mul (sub b.x2 b.x1) (sub b.y2 b.y1)

  unfoldable pub inter_area : Box F → Box F → F
  inter_area a b =
      mul (maximum zero_F (sub (minimum a.x2 b.x2) (maximum a.x1 b.x1)))
        (maximum zero_F (sub (minimum a.y2 b.y2) (maximum a.y1 b.y1)))

  -- One entry of the result.
  unfoldable pub compute_iou : Box F → Box F → F
  unfolding inter_area
  compute_iou a b = div (inter_area a b) (sub (add (area a) (area b)) (inter_area a b))

  -- The entry of `iou_bbox < iou` for another row.
  unfoldable pub clear_of : F → Det F → Det F → Bool
  unfolding compute_iou
  clear_of iou current other = ltb_F (compute_iou current.box other.box) iou

module _ {A : Type 0} (is_clear : A → A → Bool) (max_det : ℕ) where
  -- The `while` loop; `none` means that the fuel ran out.
  unfoldable pub nms_loop : (fuel : ℕ) (indices keep : List A) → Option (List A)
  nms_loop fuel [] keep = some keep
  nms_loop fuel (current ∷ []) keep = some (keep ++ current ∷ [])
  nms_loop zero (current ∷ other ∷ others) keep = none
  nms_loop (suc fuel) (current ∷ other ∷ others) keep =
      let rest =
        nms_loop fuel (filter (is_clear current) (other ∷ others)) (keep ++ current ∷ []) in
      if leb max_det (length (keep ++ current ∷ [])) then some (keep ++ current ∷ []) else rest

module _ {F : Type 0} (ops : Float32 F) where
  open ops use {add, sub, div, half, leb_F}

  -- `by_score` gives the rows in the order of scores.argsort()[::-1].
  unfoldable pub apply_nms :
      (by_score : List (Det F) → List (Det F)) (dets : List (Det F)) (iou : F) (max_det : ℕ)
      → Option (List (Det F))
  unfolding nms_loop clear_of
  apply_nms by_score dets iou max_det =
      nms_loop (clear_of ops iou) max_det (length (by_score dets)) (by_score dets) []

  -- The row for the class `px` and the column `py`.
  unfoldable pub decoded : Predictions F → (ratio pad : F × F) → ℕ → ℕ → Det F
  decoded p (rw', rh) (dw, dh) px py = record {
    box = record {
      x1 = div (sub (sub (p.entry 0 py) (half (p.entry 2 py))) dw) rw';
      y1 = div (sub (sub (p.entry 1 py) (half (p.entry 3 py))) dh) rh;
      x2 = div (sub (add (p.entry 0 py) (half (p.entry 2 py))) dw) rw';
      y2 = div (sub (add (p.entry 1 py) (half (p.entry 3 py))) dh) rh;
    };
    score = p.entry (4 + px) py;
    class_id = px;
  }

  -- The columns from `py` on in the row of a class whose score is high enough, `n` of them.
  unfoldable pub decode_row :
      Predictions F → F → (ratio pad : F × F) → ℕ → (n py : ℕ) → List (Det F)
  unfolding decoded
  decode_row p conf ratio pad px zero py = []
  decode_row p conf ratio pad px (suc n) py =
      let rest = decode_row p conf ratio pad px n (suc py) in
      if leb_F conf (p.entry (4 + px) py) then decoded p ratio pad px py ∷ rest else rest

  -- np.where goes through the rows of the classes, and through each from its first column.
  unfoldable pub decode_rows : Predictions F → F → (ratio pad : F × F) → (n px : ℕ) → List (Det F)
  unfolding decode_row
  decode_rows p conf ratio pad zero px = []
  decode_rows p conf ratio pad (suc n) px =
      decode_row p conf ratio pad px p.anchors 0 ++ decode_rows p conf ratio pad n (suc px)

  unfoldable pub decode_output : Predictions F → F → (ratio pad : F × F) → List (Det F)
  unfolding decode_rows
  decode_output p conf ratio pad = decode_rows p conf ratio pad p.classes 0

  unfoldable pub postprocess_yolo_outputs :
      (by_score : List (Det F) → List (Det F))
      → Predictions F
      → (conf iou : F) (max_det : ℕ) → (ratio pad : F × F) → Option (List (Det F))
  unfolding decode_output apply_nms
  postprocess_yolo_outputs by_score p conf iou max_det ratio pad =
      apply_nms by_score (decode_output p conf ratio pad) iou max_det

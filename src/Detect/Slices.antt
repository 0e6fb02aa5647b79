-- ===== src/Detect/Slices.antt =====
-- `calculate_slices_coordinates` of neudc/nn/models/op.py, with `meshgrid2d_ij`. An array is the list
-- of its entries; an index may be negative, since the overlap may exceed the crop.
pub mod Laws
pub mod Examples
use data_pipeline_orchestrat.Base.{
  ℕ, zero, suc, ◌+◌, ◌-◌, ◌*◌, ◌/◌, List, [], ◌∷◌, ◌++◌, map, Bool, ◌&&◌, ltb, leb, not, min,
  if◌then◌else◌, ℤ, pos, negsuc, sub_ℕ, leb_ℤ, Outcome, returned, raised, other,
}

-- (height, width)
pub record Size : Type 0 where
  pub height : ℕ
  pub width : ℕ

pub record Slice : Type 0 where
  pub y1 : ℤ
  pub x1 : ℤ
  pub y2 : ℤ
  pub x2 : ℤ

-- The length of np.arange(0, n_steps), where n_steps is the floor division of an integer by the
-- step, plus 1.
unfoldable pub n_steps : (img crop : ℕ) (step : ℤ) → Outcome ℕ
n_steps img crop (pos zero) =
    if leb img crop then returned 1 else raised (other "ZeroDivisionError")
n_steps img crop (pos (suc s)) =
    returned (if leb img crop then 1 else (img - crop + suc s - 1) / suc s + 1)
n_steps img crop (negsuc s) = returned (
    if leb img crop
    then 1
    else if leb (img - crop) (s + 2)
    then (s + 2 - (img - crop)) / suc s + 1
    else 0)

-- i * step
unfoldable pub times : ℕ → ℤ → ℤ
times i (pos s) = pos (i * s)
times zero (negsuc s) = pos 0
times (suc i) (negsuc s) = negsuc (suc i * suc s - 1)

-- np.arange(i, i + n) * step
unfoldable pub starts : (n i : ℕ) (step : ℤ) → List ℤ
unfolding times
starts zero i step = []
starts (suc n) i step = times i step ∷ starts n (suc i) step

-- base[-1] = v
unfoldable pub set_last : ℤ → List ℤ → List ℤ
set_last v [] = []
set_last v (x ∷ []) = v ∷ []
set_last v (x ∷ y ∷ rest) = x ∷ set_last v (y ∷ rest)

-- `y1_base` or `x1_base`, once the steps are counted.
unfoldable pub positions : (img crop : ℕ) (step : ℤ) → Outcome ℕ → Outcome (List ℤ)
unfolding starts set_last
positions img crop step (raised e) = raised e
positions img crop step (returned n) = returned (
    if ltb crop img && ltb 1 n
    then set_last (pos (img - crop)) (starts n 0 step)
    else starts n 0 step)

unfoldable pub axis : (img crop overlap : ℕ) → Outcome (List ℤ)
unfolding positions n_steps
axis img crop overlap =
    positions img crop (sub_ℕ crop overlap) (n_steps img crop (sub_ℕ crop overlap))

-- np.minimum(y1 + crop, img)
unfoldable pub end_of : (img crop : ℕ) → ℤ → ℤ
end_of img crop (pos a) = pos (min (a + crop) img)
end_of img crop (negsuc a) =
    if leb (suc a) crop then pos (min (crop - suc a) img) else negsuc (a - crop)

unfoldable pub slice_at : (img crop : Size) → ℤ → ℤ → Slice
unfolding end_of
slice_at img crop y x = record {
  y1 = y;
  x1 = x;
  y2 = end_of img.height crop.height y;
  x2 = end_of img.width crop.width x;
}

-- meshgrid2d_ij, flattened: for each y1, in order, every x1.
unfoldable pub grid : (img crop : Size) (ys xs : List ℤ) → List Slice
unfolding slice_at
grid img crop [] xs = []
grid img crop (y ∷ ys) xs = map (slice_at img crop y) xs ++ grid img crop ys xs

unfoldable pub both_axes :
    (img crop : Size) → Outcome (List ℤ) → Outcome (List ℤ) → Outcome (List Slice)
unfolding grid
both_axes img crop (raised e) xs = raised e
both_axes img crop (returned ys) (raised e) = raised e
both_axes img crop (returned ys) (returned xs) = returned (grid img crop ys xs)

unfoldable pub calculate_slices_coordinates : (img crop overlap : Size) → Outcome (List Slice)
unfolding both_axes axis
calculate_slices_coordinates img crop overlap =
    both_axes img crop (axis img.height crop.height overlap.height)
      (axis img.width crop.width overlap.width)

-- Does the crop im[y1:y2, x1:x2] show the pixel in this row and column?
abbrev pub spans : (img crop : ℕ) → ℕ → ℤ → Bool
spans img crop r y = leb_ℤ y (pos r) && not (leb_ℤ (end_of img crop y) (pos r))

abbrev pub shows : ℕ → ℕ → Slice → Bool
shows r c s =
    (leb_ℤ s.y1 (pos r) && not (leb_ℤ s.y2 (pos r)))
    && (leb_ℤ s.x1 (pos c) && not (leb_ℤ s.x2 (pos c)))

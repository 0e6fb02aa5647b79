-- ===== src/Detect/Slices/Examples.antt =====
-- A picture of 6 x 3 pixels in crops of 3 x 3 that overlap by a row.
use data_pipeline_orchestrat.Base.{
  ◌≡◌, refl, ℕ, ◌<◌, List, [], ◌∷◌, true, any, All, pos, returned, raised, other, arith,
}
use data_pipeline_orchestrat.Detect.Slices.{Size, Slice, shows, calculate_slices_coordinates}
use data_pipeline_orchestrat.Detect.Slices.Laws.{Fits, calculate_slices-cover}

abbrev size : ℕ → ℕ → Size
size h w = record { height = h; width = w }

abbrev rows : ℕ → ℕ → Slice
rows from to = record { y1 = pos from; x1 = pos 0; y2 = pos to; x2 = pos 3 }

slices_of_6 :
    calculate_slices_coordinates (size 6 3) (size 3 3) (size 1 0)
    ≡ returned (rows 0 3 ∷ rows 2 5 ∷ rows 3 6 ∷ [])
unfolding calculate_slices_coordinates
slices_of_6 = refl

slices_without_step :
    calculate_slices_coordinates (size 6 3) (size 3 3) (size 3 0)
    ≡ raised (other "ZeroDivisionError")
unfolding calculate_slices_coordinates
slices_without_step = refl

calculate_slices-cover_example :
    (ss : List Slice) × (calculate_slices_coordinates (size 6 3) (size 3 3) (size 1 0)
      ≡ returned ss)
    × ((r c : ℕ) → r < 6 → c < 3 → any (shows r c) ss ≡ true)
    × All (Fits (size 6 3) (size 3 3)) ss
calculate_slices-cover_example =
    calculate_slices-cover (size 6 3) (size 3 3) (size 1 0) (omega arith) (omega arith)

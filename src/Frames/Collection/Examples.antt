-- ===== src/Frames/Collection/Examples.antt =====
-- A folder of three frames, which arrive as 2, 0, 1.
use data_pipeline_orchestrat.Base.{◌≡◌, refl, ℕ, some, [], ◌∷◌, returned}
use data_pipeline_orchestrat.Frames.Learning.{active_select}
use data_pipeline_orchestrat.Frames.Learning.Examples.{tenths, two_most, shot}
use data_pipeline_orchestrat.Frames.Collection.{Collected, empty, kept, process}
use data_pipeline_orchestrat.Frames.Collection.Laws.{
  AreNew, fresh, run, waits, first_folder_selected,
}

first_folder_selected_example :
    (s : Collected ℕ ℕ) × (run tenths two_most (shot 2 5 6 ∷ shot 0 9 0 ∷ []) empty
      ≡ (waits tenths two_most (shot 2 5 6 ∷ shot 0 9 0 ∷ []), s))
    × (process tenths two_most (shot 1 4 5) s
        ≡ (returned (some (shot 1 4 5 ∷ shot 0 9 0 ∷ [])), empty))
unfolding AreNew fresh active_select kept
first_folder_selected_example =
    first_folder_selected tenths two_most (shot 2 5 6) (shot 0 9 0 ∷ []) (shot 1 4 5) (1 ∷ 0 ∷ [])
      (refl, (refl, tt)) refl refl refl refl

-- ===== src/Frames/Hash/Examples.antt =====
-- Three pictures of a folder, of which the second is near the first.
use data_pipeline_orchestrat.Base.{ℕ, ◌≡◌, refl, [], ◌∷◌, true, false, lookup, assign, ◌-◌, ◌+◌}
use data_pipeline_orchestrat.Base.{arith}
use data_pipeline_orchestrat.Frames.Collection.{or_empty}
use data_pipeline_orchestrat.Frames.Hash.Laws.{IsSpread, AllSpread, process_all-IsSpread}
use data_pipeline_orchestrat.Frames.Hash.{Picture, Hashes, process_all}

abbrev naturals : Hashes ℕ ℕ
naturals = record { hash_func = λ n. n; difference = λ a b. (a - b) + (b - a) }

abbrev picture : ℕ → ℕ → Picture ℕ
picture n i = record { image = n; folder = "street"; frame_id = i; drop = false }

near_marked : process_all naturals 5 (picture 20 0 ∷ picture 24 1 ∷ picture 26 2 ∷ []) [] ≡ (
  picture 20 0 ∷ record (picture 24 1) { drop = true } ∷ picture 26 2 ∷ [],
  ("street", (0, 20) ∷ (2, 26) ∷ []) ∷ [],
)
unfolding process_all lookup assign
near_marked = refl

nothing_held : AllSpread naturals 5 []
unfolding lookup
nothing_held folder = tt

process_all-IsSpread_example : IsSpread naturals 5 (
    or_empty (
      lookup "street"
        (process_all naturals 5 (picture 20 0 ∷ picture 24 1 ∷ picture 26 2 ∷ []) []).1))
process_all-IsSpread_example =
    process_all-IsSpread naturals 5 (λ a b. omega arith)
      (picture 20 0 ∷ picture 24 1 ∷ picture 26 2 ∷ []) [] nothing_held "street"

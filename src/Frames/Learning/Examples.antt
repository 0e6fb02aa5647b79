-- ===== src/Frames/Learning/Examples.antt =====
-- Scores in tenths and embeddings on a line; 0 is below every score.
use data_pipeline_orchestrat.Base.{
  ◌≡◌, refl, ℕ, ◌+◌, ◌-◌, ◌*◌, ◌/◌, min, ltb, if◌then◌else◌, List, [], ◌∷◌, false, length, returned,
  arith, All, true, none,
}
use data_pipeline_orchestrat.Frames.Learning.{
  Frame, Floats, Settings, uncertainties, raw_scores, normalised, active_select,
}
use data_pipeline_orchestrat.Frames.Learning.Best.{IsOrdered}
use data_pipeline_orchestrat.Frames.Learning.Select.{IsGreedy, scores_for, active_select-IsGreedy}

abbrev pub tenths : Floats ℕ ℕ
tenths = record {
  zero_F = 0;
  one_F = 10;
  neg_inf = 0;
  spread_eps = 100;
  add = λ a b. a + b;
  sub = λ a b. a - b;
  mul = λ a b. a * b;
  div = λ a b. a / b;
  of_nat = λ n. n;
  maximum = λ a b. if ltb a b then b else a;
  minimum = λ a b. min a b;
  ltb_F = ltb;
  vstack_error = λ es. none;
  distance = λ a b. (a - b) + (b - a);
}

abbrev pub two_most : Settings ℕ
two_most = record { num_to_select = 2; conf_strategy = "max"; conf_weight = 1 }

ordered : IsOrdered tenths
ordered = record {
  asym = λ a b h. ground arith;
  irrefl = λ a. ground arith;
  not_lt_trans = λ a b c n h k. ground arith;
}

-- A frame of one folder that has three, with one box.
abbrev pub shot : (id score embedding : ℕ) → Frame ℕ ℕ
shot id score embedding = record {
  src_dir = "videos/a";
  frame_id = id;
  frame_id_last = 3;
  drop = false;
  scores = score ∷ [];
  embedding = embedding;
}

-- The least certain one first, and then the one that lies far from it.
picks_two :
    active_select tenths two_most (shot 0 9 0 ∷ shot 1 4 5 ∷ shot 2 5 6 ∷ [])
    ≡ returned (1 ∷ 0 ∷ [])
unfolding active_select
picks_two = refl

uncertain :
    uncertainties tenths two_most (shot 0 9 0 ∷ shot 1 4 5 ∷ shot 2 5 6 ∷ [])
    ≡ returned (1 ∷ 6 ∷ 5 ∷ [])
unfolding uncertainties
uncertain = refl

above :
    (selected : List ℕ)
    → All
        (λ s. ltb 0 s ≡ true)
        (scores_for tenths two_most ordered
          (shot 0 9 0 ∷ shot 1 4 5 ∷ shot 2 5 6 ∷ [])
          (1 ∷ 6 ∷ 5 ∷ [])
          selected)
unfolding raw_scores normalised
above selected = (ground arith, (ground arith, (ground arith, tt)))

active_select-IsGreedy_example :
    (rs : List ℕ) × (active_select tenths two_most (shot 0 9 0 ∷ shot 1 4 5 ∷ shot 2 5 6 ∷ [])
      ≡ returned rs)
    × (length rs ≡ 2)
    × IsGreedy tenths two_most ordered
        (scores_for tenths two_most ordered
          (shot 0 9 0 ∷ shot 1 4 5 ∷ shot 2 5 6 ∷ [])
          (1 ∷ 6 ∷ 5 ∷ []))
        []
        rs
active_select-IsGreedy_example =
    active_select-IsGreedy tenths two_most ordered (shot 0 9 0 ∷ shot 1 4 5 ∷ shot 2 5 6 ∷ [])
      (1 ∷ 6 ∷ 5 ∷ []) refl uncertain above

-- ===== src/Voice/Llm/Examples.antt =====
-- A greeting, answered in two deltas or in one piece, with a backend that fails at first.
use data_pipeline_orchestrat.Base.{
  ℕ, zero, suc, ◌≡◌, refl, some, [], ◌∷◌, true, false, os_error, returned, raised,
}
use data_pipeline_orchestrat.Policy.Execute.{yields, finish, effect}
use data_pipeline_orchestrat.Voice.Messages.{TextChunk, is_space, run_all}
use data_pipeline_orchestrat.Voice.Llm.{
  user, assistant, Llm, ChatBackend, new_llm, remember, make_chunk, process,
}
use data_pipeline_orchestrat.Voice.Llm.Laws.{streamed, stream-generate}

-- The world counts the calls, and the first `generate` fails.
abbrev backend : ChatBackend ℕ
backend = record {
  generate = λ history n. elim n [
    | zero ↦ (raised os_error, 1)
    | suc m ↦ (returned (72 ∷ 105 ∷ 33 ∷ []), suc (suc m))
  ];
  stream = λ history. effect (λ n. suc n) λ n. yields (72 ∷ 105 ∷ []) (yields (33 ∷ []) finish);
}

abbrev greeting : TextChunk
greeting = record {
  source = "asr";
  text = 72 ∷ 101 ∷ 121 ∷ [];
  turn = record { session_id = some "home"; turn_id = some 1 };
  is_final = true;
  drop = false;
}

stream-generate_example :
    let after : Llm ℕ =
      remember assistant
        (72 ∷ 105 ∷ 33 ∷ [])
        (record (remember {X = ℕ} user greeting.text (new_llm (66 ∷ []) 1)) { outside = 2 }) in
    (run_all ℕ (process backend "llm" true) (greeting ∷ []) (new_llm (66 ∷ []) 1)
      ≡ (streamed backend "llm" ℕ greeting ((72 ∷ 105 ∷ []) ∷ (33 ∷ []) ∷ []), after))
    × (run_all ℕ (process backend "llm" false) (greeting ∷ []) (new_llm (66 ∷ []) 1)
        ≡ (make_chunk backend "llm" greeting (72 ∷ 105 ∷ 33 ∷ []) true ∷ [], after))
unfolding new_llm is_space remember
stream-generate_example =
    stream-generate backend "llm" ℕ greeting (new_llm (66 ∷ []) 1)
      ((72 ∷ 105 ∷ []) ∷ (33 ∷ []) ∷ []) 2 refl ((33 ∷ []) ∷ [], refl, ([], refl, (refl, refl)))
      refl

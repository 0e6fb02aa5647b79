-- ===== src/Voice/Asr/Examples.antt =====
-- Two speech chunks and a silent one, with a backend that works and one that fails at first.
use data_pipeline_orchestrat.Base.{
  ℕ, zero, suc, ◌≡◌, refl, none, some, List, [], ◌∷◌, Bool, true, false, os_error, returned, raised,
  Act,
}
use data_pipeline_orchestrat.Policy.Config.{retry}
use data_pipeline_orchestrat.Policy.Execute.{
  ErrorPolicy, no_stats, Callbacks, generator, execute, nothing, cancelled, back_off, sleep,
  backoff_delay, spread_delay, count_error, count_retry, count_processed,
}
use data_pipeline_orchestrat.Node.Fixtures.{runtime}
use data_pipeline_orchestrat.Voice.Messages.{Text, AudioChunk, TextChunk, run_all}
use data_pipeline_orchestrat.Voice.Asr.{Asr, cleared, transcript, too_short, process}
use data_pipeline_orchestrat.Voice.Asr.Laws.{utterance_transcribed}
use data_pipeline_orchestrat.Voice.Asr.Retry.{retry_loses_utterance}

-- The text is the samples, and the world counts the calls; the first one fails.
abbrev transcribe : List ℕ → ℕ → Act ℕ Text
transcribe samples rate zero = (raised os_error, 1)
transcribe samples rate (suc n) = (returned samples, suc (suc n))

abbrev chunk : Bool → List ℕ → AudioChunk ℕ
chunk silent samples = record {
  source = "vad";
  samples = samples;
  sample_rate = 2;
  turn = record { session_id = some "home"; turn_id = some 4 };
  drop = silent;
}

utterance_transcribed_example :
    run_all ℕ
      (process transcribe "asr" 300)
      (chunk false (1 ∷ 2 ∷ []) ∷ chunk false [] ∷ chunk false (3 ∷ []) ∷ chunk true (0 ∷ []) ∷ [])
      (cleared 1)
    ≡ (
      transcript transcribe "asr" 300
            (record { session_id = some "home"; turn_id = some 4 })
            (1 ∷ 2 ∷ 3 ∷ [])
          ∷ [],
      cleared 2,
    )
unfolding cleared too_short
utterance_transcribed_example =
    utterance_transcribed transcribe "asr" 300 ℕ (chunk false (1 ∷ 2 ∷ []) ∷ chunk false [] ∷ [])
      (chunk false (3 ∷ [])) (chunk true (0 ∷ [])) (cleared 1) 3 [] 1 (1 ∷ 2 ∷ 3 ∷ []) 2 refl refl
      refl refl refl refl refl refl

abbrev policy : ErrorPolicy ℕ
policy = record {
  config = record {
    on_error = retry;
    max_retries = 2;
    initial_backoff = 1;
    max_backoff = 8;
    backoff_multiplier = 2;
    jitter = false;
    dead_letter_dir = none;
    store_payload = false;
  };
  node_id = "asr";
  stats = no_stats;
  sink = none;
}

abbrev send : TextChunk → Act (Asr ℕ ℕ) (Unit {0})
send t s = (returned tt, s)

abbrev hooks : Callbacks (Asr ℕ ℕ) ℕ TextChunk
hooks = record { wait = some (λ d s. (false, s)); on_item = some send; is_cancelled = none }

-- The word that was said is nowhere in what is left.
abbrev spoken : Asr ℕ ℕ
spoken = record {
  buffer = (1 ∷ 2 ∷ []) ∷ [];
  buffer_sample_rate = some 2;
  buffer_turn = record { session_id = some "home"; turn_id = some 4 };
  outside = 0;
}

retry_loses_utterance_example :
    execute runtime
      (generator (process transcribe "asr" 300))
      hooks
      (chunk true (0 ∷ []))
      policy
      spoken
    ≡ (returned nothing, count_processed (count_retry (count_error policy)), cleared 1)
unfolding cleared too_short cancelled back_off sleep backoff_delay spread_delay
retry_loses_utterance_example =
    retry_loses_utterance transcribe "asr" 300 runtime hooks 1 policy (chunk true (0 ∷ [])) send
      spoken (1 ∷ 2 ∷ []) [] 1 os_error 1 1 refl (λ t. refl) refl refl refl refl refl refl refl refl

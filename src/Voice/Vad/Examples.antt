-- ===== src/Voice/Vad/Examples.antt =====
-- A microphone and a speaker: a word, the assistant's voice, and an interruption.
use data_pipeline_orchestrat.Base.{
  ℕ, ◌+◌, ◌-◌, ◌*◌, ◌≡◌, Option, none, List, [], ◌∷◌, true, false, leb, returned, raised, Exception,
  os_error, value_error, some, ◌⊎◌, if◌then◌else◌,
}
use data_pipeline_orchestrat.Voice.Messages.{AudioChunk}
use data_pipeline_orchestrat.Voice.Echo.{Signal}
use data_pipeline_orchestrat.Voice.Vad.{Clock, VadConfig, process_all, new_vad, reference_source}
use data_pipeline_orchestrat.Voice.Vad.Laws.{cancels_paced}
use data_pipeline_orchestrat.Voice.Vad.Pace.{IsPaced}

-- Samples are natural numbers, and the loudness of a block is its first one.
abbrev loudness : List ℕ → ℕ
loudness [] = 0
loudness (x ∷ xs) = x

abbrev naturals : Signal ℕ
naturals = record {
  zero_A = 0;
  add_A = λ x y. x + y;
  sub_A = λ x y. x - y;
  mul_A = λ x y. x * y;
  div_A = λ x y. x;
  leb_A = leb;
  nonzero = λ x. leb 1 x;
  rms = loudness;
  resample_poly = λ xs up down. if leb 1 down then returned xs else raised value_error;
}

abbrev config : VadConfig ℕ
config = record {
  energy_threshold = 3;
  session_id = "home";
  barge_in_energy_threshold = 5;
  barge_in_cooldown = 15;
  aec_enabled = true;
  aec_filter_length = 1;
  max_staleness = 5;
}

abbrev clock : Clock
clock = record { now = 100; steps = 2 ∷ 1 ∷ 20 ∷ 3 ∷ [] }

abbrev heard : List ℕ → AudioChunk ℕ
heard xs = record {
  source = "mic";
  samples = xs;
  sample_rate = 16;
  turn = record { session_id = none; turn_id = none };
  drop = false;
}

abbrev played : AudioChunk ℕ
played = record (heard (2 ∷ 1 ∷ 2 ∷ [])) { source = reference_source }

abbrev conversation : List (AudioChunk ℕ)
conversation = heard (4 ∷ 4 ∷ []) ∷ heard (0 ∷ []) ∷ played ∷ heard (9 ∷ 9 ∷ []) ∷ heard [] ∷ []

-- The first cancellation raises.
abbrev control : List (Option Exception)
control = some os_error ∷ []

cancels_paced_example :
    let s =
      process_all naturals config conversation
        (new_vad naturals config 16 48 1 1 2 1 clock control) in
    IsPaced "home" 15 s.turn_id s.sent
cancels_paced_example = cancels_paced config naturals 16 48 1 1 2 1 clock control conversation

-- The errors of a rate of 0, and of the mailbox.
abbrev IsOutside : Exception → Type 0
IsOutside e = (e ≡ value_error) ⊎ (e ≡ os_error)

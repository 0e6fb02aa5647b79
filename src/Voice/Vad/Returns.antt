-- ===== src/Voice/Vad/Returns.antt =====
-- The echo canceller always gets the window that it asks for, so that the filter itself does not raise.
use data_pipeline_orchestrat.Base.{
  ℕ, ◌≤◌, ◌≡◌, Option, none, some, List, true, str_eq, length, Outcome, returned, raised, All,
  Exception,
}
use data_pipeline_orchestrat.Voice.Messages.{AudioChunk}
use data_pipeline_orchestrat.Voice.Echo.{Signal}
use data_pipeline_orchestrat.Voice.Vad.{VadConfig, Vad, reference_source}

-- What calls of send_control raise is of this kind.
abbrev pub Raises : (Exception → Type 0) → Option Exception → Type 0
Raises P none = Unit
Raises P (some e) = P e

module _ {A : Type 0} (sig : Signal A) (c : VadConfig A) (most : ℕ) (P : Exception → Type 0) where
  -- The canceller has the length of the configuration, the buffer keeps to its size, and the calls of
  -- send_control to come raise nothing but what `P` describes.
  abbrev pub IsFitted : Vad A → Type 0
  IsFitted s =
      (s.canceller.filter_length ≡ c.aec_filter_length)
      × (s.reference_buffer.max_samples ≡ most)
      × (length s.reference_buffer.samples ≤ most)
      × All (Raises P) s.control

  -- An action that leaves a fitted state, and raises nothing else.
  abbrev pub Behaves : {B : Type 0} → Outcome B × Vad A → Type 0
  Behaves (returned b, s) = IsFitted s
  Behaves (raised e, s) = P e × IsFitted s

  -- A call that returns as many samples as it was given, and leaves a fitted state.
  abbrev pub Keeps : List A → Outcome (List A) × Vad A → Type 0
  Keeps samples (o, s) =
      ((out : List A) × (o ≡ returned out) × (length out ≡ length samples)) × IsFitted s

  -- Nothing for a reference chunk, else a chunk with as many samples; or an error of `P`.
  abbrev pub Answers : AudioChunk A → Outcome (Option (AudioChunk A)) → Type 0
  Answers chunk (returned none) = str_eq chunk.source reference_source ≡ true
  Answers chunk (returned (some out)) = length out.samples ≡ length chunk.samples
  Answers chunk (raised e) = P e

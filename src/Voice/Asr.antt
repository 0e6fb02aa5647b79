-- ===== src/Voice/Asr.antt =====
-- core/node/model/mixins/asr_mixin.py: speech chunks are buffered, and the utterance is transcribed
-- at the next silent chunk. A node is its buffer beside the world `X` of the backend. The shortest
-- duration worth a call is in milliseconds, and it is compared without rounding.
pub mod Laws
pub mod Retry
pub mod Examples
use data_pipeline_orchestrat.Base.{
  ℕ, zero, suc, ◌+◌, ◌*◌, String, Option, none, some, List, [], ◌∷◌, ◌++◌, Bool, true, false, ltb,
  length, if◌then◌else◌, other, Act,
}
use data_pipeline_orchestrat.Policy.Execute.{Gen, finish, fails, yields}
use data_pipeline_orchestrat.Mailbox.Snapshot.{Turn}
use data_pipeline_orchestrat.Voice.Messages.{
  Text, AudioChunk, TextChunk, concat, with_world, set_world, perform_or_raise, beside,
}

pub record Asr (A X : Type 0) : Type 0 where
  pub buffer : List (List A)
  pub buffer_sample_rate : Option ℕ
  -- _buffer_session_id and _buffer_turn_id
  pub buffer_turn : Turn
  pub outside : X

abbrev pub no_turn : Turn
no_turn = record { session_id = none; turn_id = none }

module _ {A X : Type 0} where
  -- The four assignments of a new mixin, and of a flush.
  unfoldable pub cleared : X → Asr A X
  cleared x = record { buffer = []; buffer_sample_rate = none; buffer_turn = no_turn; outside = x }

  abbrev pub put_outside : X → Asr A X → Asr A X
  put_outside x s = record s { outside = x }

  -- A speech chunk.
  unfoldable pub buffer_speech : AudioChunk A → Asr A X → Asr A X
  buffer_speech chunk s = elim chunk.samples [
    | [] ↦ s
    | x ∷ xs ↦ record s {
      buffer = s.buffer ++ chunk.samples ∷ [];
      buffer_sample_rate = some chunk.sample_rate;
      buffer_turn = chunk.turn;
    }
  ]

module _ {A X : Type 0} (transcribe : List A → ℕ → Act X Text) (id : String) (min_speech : ℕ) where
  -- yield TextChunk(...)
  abbrev pub transcript : Turn → Text → TextChunk
  transcript turn text = record {
    source = id;
    text = text;
    turn = turn;
    is_final = true;
    drop = false;
  }

  -- duration < self.min_speech_duration
  unfoldable pub too_short : (samples sample_rate : ℕ) → Bool
  too_short samples sample_rate = ltb (samples * 1000) (min_speech * sample_rate)

  -- From the computation of the duration on; the division fails for a sample rate of 0.
  unfoldable pub recognise : List A → ℕ → Turn → Gen (Asr A X) TextChunk
  unfolding too_short
  recognise samples zero turn = fails (other "ZeroDivisionError")
  recognise samples (suc n) turn =
      if too_short (length samples) (suc n)
      then finish
      else perform_or_raise (beside (λ s. s.outside) put_outside (transcribe samples (suc n)))
          λ text. yields (transcript turn text) finish

  -- A silent chunk: the `assert`, and the buffer that is emptied before the call.
  unfoldable pub flush : Asr A X → Gen (Asr A X) TextChunk
  unfolding recognise cleared
  flush s = elim s.buffer [
    | [] ↦ finish
    | u ∷ us ↦ elim s.buffer_sample_rate [
      | none ↦ fails (other "AssertionError")
      | some rate ↦ set_world (cleared s.outside) (recognise (concat s.buffer) rate s.buffer_turn)
    ]
  ]

  unfoldable pub process : AudioChunk A → Asr A X → Gen (Asr A X) TextChunk
  unfolding flush buffer_speech
  process chunk _ =
      with_world λ s. if chunk.drop then flush s else set_world (buffer_speech chunk s) finish

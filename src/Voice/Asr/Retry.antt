-- ===== src/Voice/Asr/Retry.antt =====
-- What the retry of a failed transcription does.
use data_pipeline_orchestrat.Base.{
  ℕ, suc, ◌≡◌, refl, String, some, List, [], ◌∷◌, true, false, length, Exception, returned, raised,
  is_caught, Act,
}
use data_pipeline_orchestrat.Policy.Execute.{
  ErrorPolicy, Callbacks, Runtime, generator, broke, done, nothing, start_attempt, drain_attempt,
  drain, cancelled, body_error, back_off, execute, extra_attempts, count_error, count_retry,
  count_processed,
}
use data_pipeline_orchestrat.Policy.Execute.Retry.{retried_once, body_error-caught}
use data_pipeline_orchestrat.Mailbox.Snapshot.{Turn}
use data_pipeline_orchestrat.Voice.Messages.{Text, AudioChunk, TextChunk, concat}
use data_pipeline_orchestrat.Voice.Asr.{Asr, cleared, too_short, recognise, flush, process}

module _ {A X F : Type 0} (transcribe : List A → ℕ → Act X Text) (id : String) (min_speech : ℕ)
    (cb : Callbacks (Asr A X) F TextChunk) where
  recognition_failed :
      (samples : List A) (n : ℕ) (turn : Turn) (s : Asr A X) (e : Exception) (x : X)
      → too_short transcribe id min_speech (length samples) (suc n) ≡ false
      → transcribe samples (suc n) s.outside ≡ (raised e, x)
      → drain cb (recognise transcribe id min_speech samples (suc n) turn) false [] s
        ≡ (broke false (body_error cb e), record s { outside = x })
  unfolding recognise drain
  recognition_failed samples n turn s e x long failed = rw (long, drain, failed) refl

  first_attempt :
      (silent : AudioChunk A) (s : Asr A X) (u : List A) (us : List (List A)) (n : ℕ)
      (e : Exception) (x : X)
      → ((t : Asr A X) → cancelled cb t ≡ (false, t))
      → silent.drop ≡ true
      → s.buffer ≡ u ∷ us
      → s.buffer_sample_rate ≡ some (suc n)
      → too_short transcribe id min_speech (length (concat (u ∷ us))) (suc n) ≡ false
      → transcribe (concat (u ∷ us)) (suc n) s.outside ≡ (raised e, x)
      → start_attempt (generator (process transcribe id min_speech)) cb silent s
        ≡ (broke false (body_error cb e), cleared x)
  unfolding start_attempt drain_attempt drain process flush cleared
  first_attempt silent s u us n e x live quiet full rate long failed =
      rw (live s, quiet, full, rate)
        (recognition_failed (concat (u ∷ us)) n s.buffer_turn (cleared s.outside) e x long failed)

  -- A silent chunk with nothing buffered.
  empty_attempt :
      (silent : AudioChunk A) (send : TextChunk → Act (Asr A X) (Unit {0})) (x : X)
      → ((t : Asr A X) → cancelled cb t ≡ (false, t))
      → silent.drop ≡ true
      → cb.on_item ≡ some send
      → start_attempt (generator (process transcribe id min_speech)) cb silent (cleared x)
        ≡ (done nothing, cleared x)
  unfolding start_attempt drain_attempt drain process flush cleared
  empty_attempt silent send x live quiet sends = rw (live (cleared x), quiet, sends) refl

module _ {A X F : Type 0} (transcribe : List A → ℕ → Act X Text) (id : String) (min_speech : ℕ)
    (rt : Runtime (Asr A X) F (AudioChunk A)) (cb : Callbacks (Asr A X) F TextChunk) where
  -- A retry loses the utterance. Where the first transcription of a buffered utterance raises an
  -- error and the policy allows a retry, the second attempt finds the buffer empty: nothing is
  -- transcribed or sent, and yet the message counts as processed and is not dead-lettered.
  pub retry_loses_utterance :
      (k : ℕ) (p : ErrorPolicy F) (silent : AudioChunk A)
      (send : TextChunk → Act (Asr A X) (Unit {0})) (s : Asr A X) (u : List A) (us : List (List A))
      (n : ℕ) (e : Exception) (x1 x2 : X)
      → cb.on_item ≡ some send
      → ((t : Asr A X) → cancelled cb t ≡ (false, t))
      → extra_attempts p.config ≡ suc k
      → silent.drop ≡ true
      → s.buffer ≡ u ∷ us
      → s.buffer_sample_rate ≡ some (suc n)
      → too_short transcribe id min_speech (length (concat (u ∷ us))) (suc n) ≡ false
      → transcribe (concat (u ∷ us)) (suc n) s.outside ≡ (raised e, x1)
      → is_caught e ≡ true
      → back_off rt cb p.config 0 (cleared x1) ≡ (returned false, cleared x2)
      → execute rt (generator (process transcribe id min_speech)) cb silent p s
        ≡ (returned nothing, count_processed (count_retry (count_error p)), cleared x2)
  retry_loses_utterance k p silent send s u us n e x1 x2 sends live more quiet full rate long failed
        caught waited =
      retried_once rt (generator (process transcribe id min_speech)) cb silent k p s (cleared x1)
        (cleared x2) (cleared x2) (body_error cb e) nothing more
        (first_attempt transcribe id min_speech cb silent s u us n e x1 live quiet full rate long
          failed)
        (body_error-caught cb e caught) waited
        (empty_attempt transcribe id min_speech cb silent send x2 live quiet sends)

-- ===== src/Voice/Tts/Retry.antt =====
-- What the retry of a failed synthesis does.
use data_pipeline_orchestrat.Base.{
  ℕ, suc, String, ◌≡◌, refl, ◌∙◌, some, List, [], ◌∷◌, true, false, Exception, returned, raised,
  is_caught, Act,
}
use data_pipeline_orchestrat.Policy.Execute.{
  ErrorPolicy, Callbacks, Runtime, generator, broke, done, nothing, start_attempt, drain_attempt,
  drain, cancelled, body_error, back_off, execute, extra_attempts, count_error, count_retry,
  count_processed,
}
use data_pipeline_orchestrat.Policy.Execute.Retry.{retried_once, body_error-caught}
use data_pipeline_orchestrat.Voice.Messages.{Text, AudioChunk, TextChunk, concat}
use data_pipeline_orchestrat.Voice.Tts.{
  Tts, cleared, turn_to, buffer_text, take_text, sanitize_for_speech, strip_markdown,
  collapse_spaces, strip_spaces, speak, flush, process,
}
use data_pipeline_orchestrat.Voice.Tts.Laws.{IsEnd, take_text-own}

module _ {A X F : Type 0} (synthesize : Text → Act X (List A × ℕ)) (id : String)
    (cb : Callbacks (Tts X) F (AudioChunk A)) (c : TextChunk) where
  synthesis_failed :
      (s : Tts X) (e : Exception) (x : X) (d : ℕ) (ds : Text)
      → sanitize_for_speech (concat s.buffer) ≡ d ∷ ds
      → synthesize (d ∷ ds) s.outside ≡ (raised e, x)
      → drain cb (flush synthesize id c.turn s) false [] s
        ≡ (broke false (body_error cb e), cleared x)
  unfolding drain flush speak cleared
  synthesis_failed s e x d ds clean failed = rw (clean, drain, failed) refl

  first_attempt :
      (s : Tts X) (e : Exception) (x : X) (d : ℕ) (ds : Text)
      → ((t : Tts X) → cancelled cb t ≡ (false, t))
      → IsEnd c.turn c
      → c.text ≡ []
      → s.buffer_turn_key ≡ some c.turn
      → sanitize_for_speech (concat s.buffer) ≡ d ∷ ds
      → synthesize (d ∷ ds) s.outside ≡ (raised e, x)
      → start_attempt (generator (process synthesize id)) cb c s
        ≡ (broke false (body_error cb e), cleared x)
  unfolding start_attempt drain_attempt drain process buffer_text
  first_attempt s e x d ds live (_, sent, last) blank key clean failed =
      let same : take_text c s ≡ s = take_text-own c.turn c s refl key ∙ rw blank refl in
      rw (live s, sent, last, drain) (rw same (synthesis_failed s e x d ds clean failed))

  empty_attempt :
      (send : AudioChunk A → Act (Tts X) (Unit {0})) (x : X)
      → ((t : Tts X) → cancelled cb t ≡ (false, t))
      → IsEnd c.turn c
      → c.text ≡ []
      → cb.on_item ≡ some send
      → start_attempt (generator (process synthesize id)) cb c (cleared x)
        ≡ (done nothing, cleared x)
  unfolding start_attempt drain_attempt drain process take_text turn_to buffer_text cleared flush
      speak sanitize_for_speech strip_markdown collapse_spaces strip_spaces
  empty_attempt send x live (_, sent, last) blank sends =
      rw (live (cleared x), sent, last, blank, sends) refl

-- A retry loses a streamed reply. Where the last chunk of a reply has no text of its own, as the
-- chat node sends it after the deltas, the first synthesis raises an error, and the policy allows a
-- retry, the second attempt finds the buffer empty: nothing is synthesized or sent, and yet the
-- message counts as processed and is not dead-lettered.
pub retry_loses_reply :
    {A X F : Type 0} (synthesize : Text → Act X (List A × ℕ)) (id : String)
    (rt : Runtime (Tts X) F TextChunk) (cb : Callbacks (Tts X) F (AudioChunk A)) (k : ℕ)
    (p : ErrorPolicy F) (c : TextChunk) (send : AudioChunk A → Act (Tts X) (Unit {0})) (s : Tts X)
    (e : Exception) (x1 x2 : X) (d : ℕ) (ds : Text)
    → cb.on_item ≡ some send
    → ((t : Tts X) → cancelled cb t ≡ (false, t))
    → extra_attempts p.config ≡ suc k
    → IsEnd c.turn c
    → c.text ≡ []
    → s.buffer_turn_key ≡ some c.turn
    → sanitize_for_speech (concat s.buffer) ≡ d ∷ ds
    → synthesize (d ∷ ds) s.outside ≡ (raised e, x1)
    → is_caught e ≡ true
    → back_off rt cb p.config 0 (cleared x1) ≡ (returned false, cleared x2)
    → execute rt (generator (process synthesize id)) cb c p s
      ≡ (returned nothing, count_processed (count_retry (count_error p)), cleared x2)
retry_loses_reply synthesize id rt cb k p c send s e x1 x2 d ds sends live more ended blank key
      clean failed caught waited =
    retried_once rt (generator (process synthesize id)) cb c k p s (cleared x1) (cleared x2)
      (cleared x2) (body_error cb e) nothing more
      (first_attempt synthesize id cb c s e x1 d ds live ended blank key clean failed)
      (body_error-caught cb e caught) waited
      (empty_attempt synthesize id cb c send x2 live ended blank sends)

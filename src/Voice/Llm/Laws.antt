-- ===== src/Voice/Llm/Laws.antt =====
-- Streaming and not streaming compared, and what the retry of a failed reply does to the history.
use data_pipeline_orchestrat.Base.{
  ℕ, suc, ◌≡◌, refl, ◌∙◌, String, some, List, [], ◌∷◌, ◌++◌, map, Bool, true, false, ◌||◌, all,
  Exception, returned, raised, is_caught, Act,
}
use mathlib.Core.List.{append_assoc, append-nil}
use data_pipeline_orchestrat.Policy.Execute.{
  ErrorPolicy, Callbacks, Runtime, Gen, finish, fails, yields, effect, generator, broke, done,
  items, nothing, start_attempt, drain_attempt, drain, cancelled, deliver, body_error, back_off,
  execute, extra_attempts, count_error, count_retry, count_processed,
}
use data_pipeline_orchestrat.Policy.Execute.Retry.{retried_once, body_error-caught}
use data_pipeline_orchestrat.Voice.Messages.{
  Text, TextChunk, concat, is_space, run_all, no_callbacks,
}
use data_pipeline_orchestrat.Voice.Llm.{
  user, assistant, Llm, ChatBackend, remember, make_chunk, answer, stream_reply, reply_to, process,
}

-- The stream yields these texts from `x` on, ends, and leaves the world as `x1`.
abbrev pub Streams : {X : Type 0} → Gen X Text → X → List Text → X → Type 0
Streams finish x ds x1 = (ds ≡ []) × (x1 ≡ x)
Streams (fails e) x ds x1 = ⊥
Streams (yields d gen) x ds x1 = (rest : List Text) × (ds ≡ d ∷ rest) × Streams gen x rest x1
Streams (effect f k) x ds x1 = Streams (k (f x)) (f x) ds x1

module _ {X : Type 0} (backend : ChatBackend X) (id : String) (F : Type 0) (chunk : TextChunk) where
  -- The chunks of a streamed reply.
  abbrev pub streamed : List Text → List TextChunk
  streamed ds =
      map (λ d. make_chunk backend id chunk d false) ds ++ make_chunk backend id chunk [] true ∷ []

  stream_reply-drain :
      (gen : Gen X Text) (yielded : Bool) (collected : List TextChunk) (pieces : List Text)
      (s : Llm X) (ds : List Text) (x1 : X)
      → Streams gen s.outside ds x1
      → drain {F = F} no_callbacks (stream_reply backend id chunk pieces gen) yielded collected s
        ≡ (
          done (items (collected ++ streamed ds)),
          remember assistant (concat (pieces ++ ds)) (record s { outside = x1 }),
        )
  unfolding drain stream_reply answer remember cancelled deliver
  stream_reply-drain finish yielded collected pieces s ds x1 (ended, same) =
      rw (ended, same) (rw (append-nil pieces) refl)
  stream_reply-drain (fails e) yielded collected pieces s ds x1 h = absurd h
  stream_reply-drain (yields d gen) yielded collected pieces s ds x1 (rest, e, h) = rw e (
      stream_reply-drain gen true (collected ++ make_chunk backend id chunk d false ∷ [])
        (pieces ++ d ∷ []) s rest x1 h
      ∙ rw
          (
            append_assoc collected (make_chunk backend id chunk d false ∷ []) (streamed rest),
            append_assoc pieces (d ∷ []) rest,
          )
          refl)
  stream_reply-drain (effect f k) yielded collected pieces s ds x1 h =
      stream_reply-drain (k (f s.outside)) yielded collected pieces
        (record s { outside = f s.outside }) ds x1 h

  -- A streamed reply and one in one piece come to the same: where the stream yields the texts `ds`
  -- and `generate` would return them joined, both leave the same conversation, the user's text and
  -- the joined reply after what was there. Streaming sends the texts one by one and then an empty
  -- final chunk, the other way sends the joined text as one final chunk.
  pub stream-generate :
      (s : Llm X) (ds : List Text) (x1 : X)
      → (chunk.drop || all is_space chunk.text) ≡ false
      → let asked = remember user chunk.text s in
        let after = remember assistant (concat ds) (record asked { outside = x1 }) in
        Streams (backend.stream asked.history) s.outside ds x1
        → backend.generate asked.history s.outside ≡ (returned (concat ds), x1)
        → (run_all F (process backend id true) (chunk ∷ []) s ≡ (streamed ds, after))
          × (run_all F (process backend id false) (chunk ∷ []) s
              ≡ (make_chunk backend id chunk (concat ds) true ∷ [], after))
  unfolding run_all process drain reply_to answer
  stream-generate s ds x1 speaks yielded said =
      let asked = remember user chunk.text s in
      (
        rw speaks (
            rw (stream_reply-drain (backend.stream asked.history) false [] [] asked ds x1 yielded)
              (rw (append-nil (streamed ds)) refl)),
        rw (speaks, drain, said) refl,
      )

module _ {X F : Type 0} (backend : ChatBackend X) (id : String)
    (cb : Callbacks (Llm X) F TextChunk) where
  first_attempt :
      (chunk : TextChunk) (s : Llm X) (e : Exception) (x : X)
      → ((t : Llm X) → cancelled cb t ≡ (false, t))
      → (chunk.drop || all is_space chunk.text) ≡ false
      → let asked = remember user chunk.text s in
        backend.generate asked.history s.outside ≡ (raised e, x)
        → start_attempt (generator (process backend id false)) cb chunk s
          ≡ (broke false (body_error cb e), record asked { outside = x })
  unfolding start_attempt drain_attempt drain process reply_to remember
  first_attempt chunk s e x live speaks failed = rw (live s, speaks, drain, failed) refl

  good_attempt :
      (chunk : TextChunk) (send : TextChunk → Act (Llm X) (Unit {0})) (s s1 : Llm X) (reply : Text)
      (x : X)
      → ((t : Llm X) → cancelled cb t ≡ (false, t))
      → cb.on_item ≡ some send
      → (chunk.drop || all is_space chunk.text) ≡ false
      → let asked = remember user chunk.text s in
        backend.generate asked.history s.outside ≡ (returned reply, x)
        → send
            (make_chunk backend id chunk reply true)
            (remember assistant reply (record asked { outside = x }))
          ≡ (returned tt, s1)
        → start_attempt (generator (process backend id false)) cb chunk s ≡ (done nothing, s1)
  unfolding start_attempt drain_attempt drain process reply_to remember answer deliver
  good_attempt chunk send s s1 reply x live sends speaks said sent =
      rw (live s, speaks, drain, said) (rw (deliver, sends, sent) (rw (live s1) refl))

-- A retry repeats the user's message. Where the first call of the backend raises an error and the
-- policy allows a retry, the second call is made with the user's text twice at the end of the
-- history, and if it succeeds, the text stays there twice, before the one reply.
pub retry_repeats_user :
    {X F : Type 0} (backend : ChatBackend X) (id : String) (rt : Runtime (Llm X) F TextChunk)
    (cb : Callbacks (Llm X) F TextChunk) (k : ℕ) (p : ErrorPolicy F) (chunk : TextChunk)
    (send : TextChunk → Act (Llm X) (Unit {0})) (s s1 : Llm X) (e : Exception) (reply : Text)
    (x1 x2 x3 : X)
    → let asked = remember user chunk.text s in
      let asked_again = remember user chunk.text asked in
      cb.on_item ≡ some send
      → ((t : Llm X) → cancelled cb t ≡ (false, t))
      → extra_attempts p.config ≡ suc k
      → (chunk.drop || all is_space chunk.text) ≡ false
      → backend.generate asked.history s.outside ≡ (raised e, x1)
      → is_caught e ≡ true
      → back_off rt cb p.config 0 (record asked { outside = x1 })
        ≡ (returned false, record asked { outside = x2 })
      → backend.generate asked_again.history x2 ≡ (returned reply, x3)
      → send
          (make_chunk backend id chunk reply true)
          (remember assistant reply (record asked_again { outside = x3 }))
        ≡ (returned tt, s1)
      → execute rt (generator (process backend id false)) cb chunk p s
        ≡ (returned nothing, count_processed (count_retry (count_error p)), s1)
unfolding remember
retry_repeats_user backend id rt cb k p chunk send s s1 e reply x1 x2 x3 sends live more speaks
      failed caught waited said sent =
    let asked = remember user chunk.text s in
    retried_once rt (generator (process backend id false)) cb chunk k p s
      (record asked { outside = x1 }) (record asked { outside = x2 }) s1 (body_error cb e) nothing
      more (first_attempt backend id cb chunk s e x1 live speaks failed)
      (body_error-caught cb e caught) waited
      (good_attempt backend id cb chunk send (record asked { outside = x2 }) s1 reply x3 live sends
        speaks said sent)

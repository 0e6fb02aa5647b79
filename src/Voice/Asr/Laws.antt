-- ===== src/Voice/Asr/Laws.antt =====
-- What is transcribed of an utterance.
use data_pipeline_orchestrat.Base.{
  ℕ, suc, ◌≡◌, refl, sym, ap, ◌∙◌, arith, String, some, List, [], ◌∷◌, ◌++◌, map, true, false, any,
  length, returned, Act, Bool-cases, inl, inr,
}
use mathlib.Core.List.{append_assoc, append-nil}
use data_pipeline_orchestrat.Policy.Execute.{done, items, drain}
use data_pipeline_orchestrat.Mailbox.Snapshot.{Turn}
use data_pipeline_orchestrat.Voice.Messages.{
  Text, AudioChunk, concat, concat-append, run_all, no_callbacks,
}
use data_pipeline_orchestrat.Voice.Asr.{
  Asr, cleared, buffer_speech, transcript, too_short, recognise, flush, process,
}

module _ {A X : Type 0} where
  buffer_all : List (AudioChunk A) → Asr A X → Asr A X
  buffer_all [] s = s
  buffer_all (c ∷ cs) s = buffer_all cs (buffer_speech c s)

  concat-buffer_speech :
      (c : AudioChunk A) (s : Asr A X)
      → concat ((buffer_speech c s).buffer) ≡ concat s.buffer ++ c.samples
  unfolding buffer_speech
  concat-buffer_speech c s = go c.samples
    where
      go :
          (xs : List A)
          → concat ((buffer_speech (record c { samples = xs }) s).buffer) ≡ concat s.buffer ++ xs
      go [] = sym (append-nil (concat s.buffer))
      go (x ∷ xs) =
          concat-append s.buffer ((x ∷ xs) ∷ [])
          ∙ ap (λ r. concat s.buffer ++ r) (append-nil (x ∷ xs))

  -- The samples of all chunks so far, in their order.
  concat-buffer_all :
      (cs : List (AudioChunk A)) (s : Asr A X)
      → concat ((buffer_all cs s).buffer) ≡ concat s.buffer ++ concat (map (λ c. c.samples) cs)
  unfolding buffer_all buffer_speech
  concat-buffer_all [] s = sym (append-nil (concat s.buffer))
  concat-buffer_all (c ∷ cs) s =
      concat-buffer_all cs (buffer_speech c s)
      ∙ ap (λ front. front ++ concat (map (λ d. d.samples) cs)) (concat-buffer_speech c s)
      ∙ append_assoc (concat s.buffer) c.samples (concat (map (λ d. d.samples) cs))

  buffer_all-outside :
      (cs : List (AudioChunk A)) (s : Asr A X) → (buffer_all cs s).outside ≡ s.outside
  unfolding buffer_all buffer_speech
  buffer_all-outside [] s = refl
  buffer_all-outside (c ∷ cs) s = buffer_all-outside cs (buffer_speech c s) ∙ same c.samples
    where
      same : (xs : List A) → (buffer_speech (record c { samples = xs }) s).outside ≡ s.outside
      same [] = refl
      same (x ∷ xs) = refl

snoc-cons : {B : Type 0} (bs : List B) (b : B) → (c : B) × (cs : List B) × (bs ++ b ∷ [] ≡ c ∷ cs)
snoc-cons [] b = (b, [], refl)
snoc-cons (c ∷ bs) b = (c, bs ++ b ∷ [], refl)

buffer_speech-cons :
    {A X : Type 0} (c : AudioChunk A) (s : Asr A X) (y : A) (ys : List A)
    → c.samples ≡ y ∷ ys
    → buffer_speech c s ≡ record s {
      buffer = s.buffer ++ c.samples ∷ [];
      buffer_sample_rate = some c.sample_rate;
      buffer_turn = c.turn;
    }
unfolding buffer_speech
buffer_speech-cons c s y ys e = rw e refl

module _ {A X : Type 0} (transcribe : List A → ℕ → Act X Text) (id : String) (min_speech : ℕ)
    (F : Type 0) where
  heard :
      (cs rest : List (AudioChunk A)) (s : Asr A X)
      → any (λ c. c.drop) cs ≡ false
      → run_all F (process transcribe id min_speech) (cs ++ rest) s
        ≡ run_all F (process transcribe id min_speech) rest (buffer_all cs s)
  unfolding run_all drain process buffer_all
  heard [] rest s h = refl
  heard (c ∷ cs) rest s h = elim (Bool-cases c.drop) [
    | inl e ↦ cc
    | inr e ↦ rw e (heard cs rest (buffer_speech c s) (ground (arith, h, e)))
  ]

  recognised :
      (samples : List A) (n : ℕ) (turn : Turn) (s : Asr A X) (text : Text) (x : X)
      → too_short transcribe id min_speech (length samples) (suc n) ≡ false
      → transcribe samples (suc n) s.outside ≡ (returned text, x)
      → drain {F = F} no_callbacks
          (recognise transcribe id min_speech samples (suc n) turn)
          false
          []
          s
        ≡ (
          done (items (transcript transcribe id min_speech turn text ∷ [])),
          record s { outside = x },
        )
  unfolding recognise drain
  recognised samples n turn s text x long said = rw (long, drain, said) refl

  -- The silent chunk after an utterance.
  flushed :
      (silent : AudioChunk A) (s : Asr A X) (u : List A) (us : List (List A)) (n : ℕ) (text : Text)
      (x : X)
      → silent.drop ≡ true
      → s.buffer ≡ u ∷ us
      → s.buffer_sample_rate ≡ some (suc n)
      → too_short transcribe id min_speech (length (concat (u ∷ us))) (suc n) ≡ false
      → transcribe (concat (u ∷ us)) (suc n) s.outside ≡ (returned text, x)
      → run_all F (process transcribe id min_speech) (silent ∷ []) s
        ≡ (transcript transcribe id min_speech s.buffer_turn text ∷ [], cleared x)
  unfolding run_all drain process flush cleared
  flushed silent s u us n text x quiet full rate long said =
      rw (quiet, full, rate)
        (rw (recognised (concat (u ∷ us)) n s.buffer_turn (cleared s.outside) text x long said)
          refl)

  -- An utterance is transcribed whole: the speech chunks `cs` and then `c`, which is not empty, send
  -- nothing, and at the silent chunk that follows, the backend gets all their samples in order and
  -- the rate of the last one, in one call. If that is long enough and succeeds, exactly one final
  -- text goes out, for the turn of the last speech chunk, and the buffer is empty again.
  pub utterance_transcribed :
      (cs : List (AudioChunk A)) (c silent : AudioChunk A) (s : Asr A X) (y : A) (ys : List A)
      (n : ℕ) (text : Text) (x : X)
      → any (λ d. d.drop) cs ≡ false
      → c.drop ≡ false
      → silent.drop ≡ true
      → s.buffer ≡ []
      → c.samples ≡ y ∷ ys
      → c.sample_rate ≡ suc n
      → let samples = concat (map (λ d. d.samples) cs) ++ c.samples in
        too_short transcribe id min_speech (length samples) (suc n) ≡ false
        → transcribe samples (suc n) s.outside ≡ (returned text, x)
        → run_all F (process transcribe id min_speech) (cs ++ c ∷ silent ∷ []) s
          ≡ (transcript transcribe id min_speech c.turn text ∷ [], cleared x)
  unfolding buffer_all
  utterance_transcribed cs c silent s y ys n text x speech spoken quiet empty filled rate long
        said =
      let t = buffer_all cs s in
      let (u, us, full) = snoc-cons t.buffer c.samples in
      let held : Asr A X = record t {
        buffer = t.buffer ++ c.samples ∷ [];
        buffer_sample_rate = some c.sample_rate;
        buffer_turn = c.turn;
      } in
      let all_heard : concat (u ∷ us) ≡ concat (map (λ d. d.samples) cs) ++ c.samples =
        ap concat (sym full)
        ∙ concat-append t.buffer (c.samples ∷ [])
        ∙ ap (λ b. b ++ concat (c.samples ∷ [])) (concat-buffer_all cs s ∙ rw empty refl)
        ∙ ap (λ b. concat (map (λ d. d.samples) cs) ++ b) (append-nil c.samples) in
      heard cs (c ∷ silent ∷ []) s speech
      ∙ heard (c ∷ []) (silent ∷ []) t (rw spoken refl)
      ∙ ap (run_all F (process transcribe id min_speech) (silent ∷ []))
          (buffer_speech-cons c t y ys filled)
      ∙ flushed silent held u us n text x quiet full (ap some rate) (rw all_heard long)
          (rw (all_heard, buffer_all-outside cs s) said)

-- ===== src/Voice/Tts/Laws.antt =====
-- How the buffer grows with the pieces of a reply, and what the node does at its end.
use data_pipeline_orchestrat.Base.{
  ℕ, String, ◌≡◌, refl, sym, ap, ◌∙◌, some, List, [], ◌∷◌, ◌++◌, map, All, true, false, Bool-cases,
  inl, inr, returned, Act,
}
use mathlib.Core.List.{append_assoc, append-nil}
use data_pipeline_orchestrat.Policy.Execute.{Attempt, drain, done, items}
use data_pipeline_orchestrat.Mailbox.Snapshot.{Turn}
use data_pipeline_orchestrat.Voice.Messages.{
  Text, AudioChunk, TextChunk, concat, concat-append, same_key, run_all, no_callbacks, emitted,
  same_turn_refl,
}
use data_pipeline_orchestrat.Voice.Tts.{
  Tts, cleared, turn_to, buffer_text, take_text, sanitize_for_speech, speech, speak, flush, process,
}

-- A piece of a reply in this turn, with more to come.
abbrev pub IsPiece : Turn → TextChunk → Type 0
IsPiece turn c = (c.turn ≡ turn) × (c.drop ≡ false) × (c.is_final ≡ false)

-- The last chunk of a reply in this turn.
abbrev pub IsEnd : Turn → TextChunk → Type 0
IsEnd turn c = (c.turn ≡ turn) × (c.drop ≡ false) × (c.is_final ≡ true)

-- The text of a reply.
abbrev pub texts : List TextChunk → Text
texts cs = concat (map (λ c. c.text) cs)

module _ {X : Type 0} where
  pub buffer_all : List TextChunk → Tts X → Tts X
  buffer_all [] s = s
  buffer_all (c ∷ cs) s = buffer_all cs (buffer_text c.text s)

  concat-buffer_text :
      (text : Text) (s : Tts X) → concat ((buffer_text text s).buffer) ≡ concat s.buffer ++ text
  unfolding buffer_text
  concat-buffer_text [] s = sym (append-nil (concat s.buffer))
  concat-buffer_text (c ∷ cs) s =
      concat-append s.buffer ((c ∷ cs) ∷ []) ∙ ap (λ r. concat s.buffer ++ r) (append-nil (c ∷ cs))

  pub concat-buffer_all :
      (cs : List TextChunk) (s : Tts X)
      → concat ((buffer_all cs s).buffer) ≡ concat s.buffer ++ texts cs
  unfolding buffer_all
  concat-buffer_all [] s = sym (append-nil (concat s.buffer))
  concat-buffer_all (c ∷ cs) s =
      concat-buffer_all cs (buffer_text c.text s)
      ∙ ap (λ front. front ++ texts cs) (concat-buffer_text c.text s)
      ∙ append_assoc (concat s.buffer) c.text (texts cs)

  buffer_text-keeps :
      (text : Text) (s : Tts X)
      → ((buffer_text text s).buffer_turn_key ≡ s.buffer_turn_key)
        × ((buffer_text text s).outside ≡ s.outside)
  unfolding buffer_text
  buffer_text-keeps [] s = (refl, refl)
  buffer_text-keeps (c ∷ cs) s = (refl, refl)

  pub buffer_all-keeps :
      (cs : List TextChunk) (s : Tts X)
      → ((buffer_all cs s).buffer_turn_key ≡ s.buffer_turn_key)
        × ((buffer_all cs s).outside ≡ s.outside)
  unfolding buffer_all
  buffer_all-keeps [] s = (refl, refl)
  buffer_all-keeps (c ∷ cs) s =
      let (key, outside) = buffer_all-keeps cs (buffer_text c.text s) in
      let (key1, outside1) = buffer_text-keeps c.text s in (key ∙ key1, outside ∙ outside1)

  turn_to-again : (turn : Turn) (s : Tts X) → s.buffer_turn_key ≡ some turn → turn_to turn s ≡ s
  unfolding turn_to
  turn_to-again turn s key = rw (key, same_turn_refl turn) refl

  pub take_text-own :
      (turn : Turn) (c : TextChunk) (s : Tts X)
      → c.turn ≡ turn
      → s.buffer_turn_key ≡ some turn
      → take_text c s ≡ buffer_text c.text s
  unfolding take_text
  take_text-own turn c s same key = rw same (ap (buffer_text c.text) (turn_to-again turn s key))

  turn_to-other :
      (turn : Turn) (s : Tts X)
      → same_key turn s.buffer_turn_key ≡ false
      → turn_to turn s ≡ record s { buffer = []; buffer_turn_key = some turn }
  unfolding turn_to
  turn_to-other turn s other = rw other refl

  pub take_text-other :
      (turn : Turn) (c : TextChunk) (s : Tts X)
      → c.turn ≡ turn
      → same_key turn s.buffer_turn_key ≡ false
      → let fresh : Tts X = record s { buffer = []; buffer_turn_key = some turn } in
        take_text c s ≡ take_text c fresh
  unfolding take_text
  take_text-other turn c s same other =
      let fresh : Tts X = record s { buffer = []; buffer_turn_key = some turn } in
      rw same
        (ap (buffer_text c.text) (turn_to-other turn s other ∙ sym (turn_to-again turn fresh refl)))

module _ {A X : Type 0} (synthesize : Text → Act X (List A × ℕ)) (id : String) (F : Type 0) where
  step_more :
      (c : TextChunk) (rest : List TextChunk) (s : Tts X)
      → c.drop ≡ false
      → c.is_final ≡ false
      → run_all F (process synthesize id) (c ∷ rest) s
        ≡ run_all F (process synthesize id) rest (take_text c s)
  unfolding run_all drain process
  step_more c rest s sent more = rw (sent, more) refl

  -- What follows the draining of one chunk.
  abbrev pub go_on : List TextChunk → Attempt (AudioChunk A) × Tts X → List (AudioChunk A) × Tts X
  go_on rest (a, s1) =
      let (vs, s2) = run_all F (process synthesize id) rest s1 in (emitted a ++ vs, s2)

  pub step_last :
      (c : TextChunk) (rest : List TextChunk) (s : Tts X)
      → c.drop ≡ false
      → c.is_final ≡ true
      → run_all F (process synthesize id) (c ∷ rest) s
        ≡ go_on rest (
            drain {F = F} no_callbacks
              (flush synthesize id c.turn (take_text c s))
              false
              []
              (take_text c s))
  unfolding run_all drain process
  step_last c rest s sent last = rw (sent, last) refl

  pub same_take :
      (c : TextChunk) (rest : List TextChunk) (s t : Tts X)
      → c.drop ≡ false
      → take_text c s ≡ take_text c t
      → run_all F (process synthesize id) (c ∷ rest) s
        ≡ run_all F (process synthesize id) (c ∷ rest) t
  same_take c rest s t sent same = elim (Bool-cases c.is_final) [
    | inr e ↦
        step_more c rest s sent e
        ∙ ap (run_all F (process synthesize id) rest) same
        ∙ sym (step_more c rest t sent e)
    | inl e ↦
        step_last c rest s sent e
        ∙ ap
            (λ u. go_on rest (drain {F = F} no_callbacks (flush synthesize id c.turn u) false [] u))
            same
        ∙ sym (step_last c rest t sent e)
  ]

  pub pieces_buffered :
      (turn : Turn) (cs rest : List TextChunk) (s : Tts X)
      → All (IsPiece turn) cs
      → s.buffer_turn_key ≡ some turn
      → run_all F (process synthesize id) (cs ++ rest) s
        ≡ run_all F (process synthesize id) rest (buffer_all cs s)
  unfolding buffer_all
  pieces_buffered turn [] rest s parts key = refl
  pieces_buffered turn (c ∷ cs) rest s ((same, sent, more), parts) key =
      step_more c (cs ++ rest) s sent more
      ∙ ap (run_all F (process synthesize id) (cs ++ rest)) (take_text-own turn c s same key)
      ∙ pieces_buffered turn cs rest (buffer_text c.text s) parts
          ((buffer_text-keeps c.text s).0 ∙ key)

  spoken :
      (turn : Turn) (s : Tts X) (sound : List A × ℕ) (x : X) (text : Text) (d : ℕ) (ds : Text)
      → concat s.buffer ≡ text
      → sanitize_for_speech text ≡ d ∷ ds
      → synthesize (d ∷ ds) s.outside ≡ (returned sound, x)
      → drain {F = F} no_callbacks (flush synthesize id turn s) false [] s
        ≡ (done (items (speech synthesize id turn sound ∷ [])), cleared x)
  unfolding drain flush speak cleared
  spoken turn s sound x text d ds all clean said = rw (all, clean, drain, said) refl

  end_spoken :
      (turn : Turn) (c : TextChunk) (rest : List TextChunk) (s : Tts X) (sound : List A × ℕ) (x : X)
      (d : ℕ) (ds : Text)
      → IsEnd turn c
      → s.buffer_turn_key ≡ some turn
      → sanitize_for_speech (concat s.buffer ++ c.text) ≡ d ∷ ds
      → synthesize (d ∷ ds) s.outside ≡ (returned sound, x)
      → run_all F (process synthesize id) (c ∷ rest) s
        ≡ go_on rest (done (items (speech synthesize id turn sound ∷ [])), cleared x)
  end_spoken turn c rest s sound x d ds (same, sent, last) key clean said =
      let t = buffer_text c.text s in
      step_last c rest s sent last
      ∙ ap (λ u. go_on rest (drain {F = F} no_callbacks (flush synthesize id c.turn u) false [] u))
          (take_text-own turn c s same key)
      ∙ ap (λ v. go_on rest (drain {F = F} no_callbacks (flush synthesize id v t) false [] t)) same
      ∙ ap (go_on rest) (
          spoken turn t sound x (concat s.buffer ++ c.text) d ds (concat-buffer_text c.text s) clean
            (rw ((buffer_text-keeps c.text s).1) said))

  -- A reply, whole, and then `rest`.
  pub reply_then :
      (turn : Turn) (cs : List TextChunk) (c : TextChunk) (rest : List TextChunk) (s : Tts X)
      (sound : List A × ℕ) (x : X) (d : ℕ) (ds : Text)
      → All (IsPiece turn) cs
      → IsEnd turn c
      → same_key turn s.buffer_turn_key ≡ false
      → sanitize_for_speech (texts cs ++ c.text) ≡ d ∷ ds
      → synthesize (d ∷ ds) s.outside ≡ (returned sound, x)
      → run_all F (process synthesize id) (cs ++ c ∷ rest) s
        ≡ go_on rest (done (items (speech synthesize id turn sound ∷ [])), cleared x)
  reply_then turn cs c rest s sound x d ds parts (same, sent, last) other clean said =
      let fresh : Tts X = record s { buffer = []; buffer_turn_key = some turn } in
      refreshed cs parts
      ∙ pieces_buffered turn cs (c ∷ rest) fresh parts refl
      ∙ end_spoken turn c rest (buffer_all cs fresh) sound x d ds (same, sent, last)
          ((buffer_all-keeps cs fresh).0) (rw (concat-buffer_all cs fresh) clean)
          (rw ((buffer_all-keeps cs fresh).1) said)
    where
      refreshed :
          (bs : List TextChunk)
          → All (IsPiece turn) bs
          → run_all F (process synthesize id) (bs ++ c ∷ rest) s
            ≡ run_all F
                (process synthesize id)
                (bs ++ c ∷ rest)
                (record s { buffer = []; buffer_turn_key = some turn })
      refreshed [] parts =
          same_take c rest s (record s { buffer = []; buffer_turn_key = some turn }) sent
            (take_text-other turn c s same other)
      refreshed (b ∷ bs) ((mine, kept, more), parts) =
          same_take b (bs ++ c ∷ rest) s (record s { buffer = []; buffer_turn_key = some turn })
            kept (take_text-other turn b s mine other)

-- ===== src/Voice/Tts/Replies.antt =====
-- What is spoken of a reply that comes in pieces, alone or with a chunk of another turn between.
use data_pipeline_orchestrat.Base.{
  ℕ, String, ◌≡◌, refl, ◌∙◌, ap, List, [], ◌∷◌, ◌++◌, All, false, some, returned, Act,
}
use data_pipeline_orchestrat.Mailbox.Snapshot.{Turn, same_turn}
use data_pipeline_orchestrat.Voice.Messages.{Text, TextChunk, same_key, run_all}
use data_pipeline_orchestrat.Voice.Tts.{Tts, cleared, sanitize_for_speech, speech, process}
use data_pipeline_orchestrat.Voice.Tts.Laws.{
  IsPiece, IsEnd, texts, buffer_all, buffer_all-keeps, take_text-other, same_take, pieces_buffered,
  reply_then,
}

module _ {A X : Type 0} (synthesize : Text → Act X (List A × ℕ)) (id : String) (F : Type 0)
    (turn : Turn) where
  -- A reply that comes in any pieces of one turn is spoken once and whole: the text of all its
  -- pieces and of its last chunk is joined, cleaned, and synthesized in one call at the last chunk,
  -- for its turn, and what the buffer held of another turn is not. This is said of a cleaned text
  -- that is not empty and a call that succeeds.
  pub reply_spoken :
      (cs : List TextChunk) (c : TextChunk) (s : Tts X) (sound : List A × ℕ) (x : X) (d : ℕ)
      (ds : Text)
      → All (IsPiece turn) cs
      → IsEnd turn c
      → same_key turn s.buffer_turn_key ≡ false
      → sanitize_for_speech (texts cs ++ c.text) ≡ d ∷ ds
      → synthesize (d ∷ ds) s.outside ≡ (returned sound, x)
      → run_all F (process synthesize id) (cs ++ c ∷ []) s
        ≡ (speech synthesize id turn sound ∷ [], cleared x)
  unfolding run_all
  reply_spoken cs c s sound x d ds parts ended other clean said =
      reply_then synthesize id F turn cs c [] s sound x d ds parts ended other clean said

  -- A reminder cuts off the beginning of a reply. When a final chunk of another turn, such as the
  -- reminder of a timer, which has no turn number, arrives between the pieces of a streamed reply,
  -- the pieces before it are never spoken: the node speaks the reminder, and then only what came
  -- of the reply after it.
  pub reminder_cuts_reply :
      (b : TextChunk) (bs cs : List TextChunk) (reminder c : TextChunk) (s : Tts X)
      (sound1 sound2 : List A × ℕ) (x1 x2 : X) (d1 d2 : ℕ) (ds1 ds2 : Text)
      → All (IsPiece turn) (b ∷ bs)
      → IsEnd reminder.turn reminder
      → same_turn reminder.turn turn ≡ false
      → All (IsPiece turn) cs
      → IsEnd turn c
      → same_key turn s.buffer_turn_key ≡ false
      → sanitize_for_speech reminder.text ≡ d1 ∷ ds1
      → synthesize (d1 ∷ ds1) s.outside ≡ (returned sound1, x1)
      → sanitize_for_speech (texts cs ++ c.text) ≡ d2 ∷ ds2
      → synthesize (d2 ∷ ds2) x1 ≡ (returned sound2, x2)
      → run_all F (process synthesize id) ((b ∷ bs) ++ reminder ∷ (cs ++ c ∷ [])) s ≡ (
        speech synthesize id reminder.turn sound1 ∷ speech synthesize id turn sound2 ∷ [],
        cleared x2,
      )
  unfolding run_all cleared
  reminder_cuts_reply b bs cs reminder c s sound1 sound2 x1 x2 d1 d2 ds1 ds2
        ((mine, kept, more), before) reminds foreign after ended other clean1 said1 clean2 said2 =
      let fresh : Tts X = record s { buffer = []; buffer_turn_key = some turn } in
      let held = buffer_all (b ∷ bs) fresh in
      let (key, same) = buffer_all-keeps (b ∷ bs) fresh in
      same_take synthesize id F b (bs ++ reminder ∷ (cs ++ c ∷ [])) s fresh kept
        (take_text-other turn b s mine other)
      ∙ pieces_buffered synthesize id F turn (b ∷ bs) (reminder ∷ (cs ++ c ∷ [])) fresh
          ((mine, kept, more), before) refl
      ∙ reply_then synthesize id F reminder.turn [] reminder (cs ++ c ∷ []) held sound1 x1 d1 ds1 tt
          reminds (rw key foreign) clean1 (rw same said1)
      ∙ ap (λ r. (speech synthesize id reminder.turn sound1 ∷ r.0, r.1))
          (reply_then synthesize id F turn cs c [] (cleared x1) sound2 x2 d2 ds2 after ended refl
            clean2 said2)

-- ===== src/Voice/Tts/Examples.antt =====
-- The cleaning of a text, and a reply with a reminder between its pieces.
use data_pipeline_orchestrat.Base.{
  ℕ, suc, ◌≡◌, refl, some, List, [], ◌∷◌, Bool, true, false, returned, Act,
}
use data_pipeline_orchestrat.Mailbox.Snapshot.{Turn}
use data_pipeline_orchestrat.Voice.Echo.{reverse}
use data_pipeline_orchestrat.Voice.Messages.{Text, TextChunk, is_space, run_all}
use data_pipeline_orchestrat.Voice.Tts.{
  Tts, cleared, is_mark, count_spaces, heading_width, strip_markdown, collapse_spaces, strip_left,
  strip_spaces, sanitize_for_speech, speech, process,
}
use data_pipeline_orchestrat.Voice.Tts.Replies.{reply_spoken}

-- "# Hi\n *a*" is spoken as "Hi a", and "a # b" as it is.
heading_cleaned :
    sanitize_for_speech (35 ∷ 32 ∷ 72 ∷ 105 ∷ 10 ∷ 32 ∷ 42 ∷ 97 ∷ 42 ∷ []) ≡ 72 ∷ 105 ∷ 32 ∷ 97 ∷ []
unfolding sanitize_for_speech strip_markdown collapse_spaces strip_spaces strip_left reverse is_mark
    heading_width count_spaces is_space
heading_cleaned = refl

hash_kept : sanitize_for_speech (97 ∷ 32 ∷ 35 ∷ 32 ∷ 98 ∷ []) ≡ 97 ∷ 32 ∷ 35 ∷ 32 ∷ 98 ∷ []
unfolding sanitize_for_speech strip_markdown collapse_spaces strip_spaces strip_left reverse is_mark
    heading_width count_spaces is_space
hash_kept = refl

-- The sound is the text, and the world counts the calls.
abbrev synthesize : Text → Act ℕ (List ℕ × ℕ)
synthesize text n = (returned (text, 24), suc n)

abbrev answer_turn : Turn
answer_turn = record { session_id = some "home"; turn_id = some 2 }

abbrev chunk : Turn → Bool → Text → TextChunk
chunk turn last text = record {
  source = "llm";
  text = text;
  turn = turn;
  is_final = last;
  drop = false;
}

-- Left over from a reply that was cancelled.
abbrev interrupted : Tts ℕ
interrupted = record {
  buffer = (79 ∷ []) ∷ [];
  buffer_turn_key = some (record { session_id = some "home"; turn_id = some 1 });
  outside = 0;
}

reply_spoken_example :
    run_all ℕ
      (process synthesize "tts")
      (chunk answer_turn false (42 ∷ 72 ∷ [])
        ∷ chunk answer_turn false (105 ∷ 42 ∷ [])
        ∷ chunk answer_turn true []
        ∷ [])
      interrupted
    ≡ (speech synthesize "tts" answer_turn (72 ∷ 105 ∷ [], 24) ∷ [], cleared 1)
unfolding sanitize_for_speech strip_markdown collapse_spaces strip_spaces strip_left reverse is_mark
    heading_width count_spaces is_space
reply_spoken_example =
    reply_spoken synthesize "tts" ℕ answer_turn
      (chunk answer_turn false (42 ∷ 72 ∷ []) ∷ chunk answer_turn false (105 ∷ 42 ∷ []) ∷ [])
      (chunk answer_turn true []) interrupted (72 ∷ 105 ∷ [], 24) 1 72 (105 ∷ [])
      ((refl, refl, refl), ((refl, refl, refl), tt)) (refl, refl, refl) refl refl refl

-- ===== src/Voice/Llm.antt =====
-- core/node/model/mixins/llm_mixin.py: a user's text is answered by the chat backend, in one piece or
-- delta by delta, and both are kept in the history. A node is its history beside the world `X` of
-- the backend; the temperature and the bound on the tokens are part of the backend's calls.
pub mod Laws
pub mod Examples
use data_pipeline_orchestrat.Base.{
  String, List, [], ◌∷◌, ◌++◌, Bool, true, false, ◌||◌, all, if◌then◌else◌, Act,
}
use data_pipeline_orchestrat.Policy.Execute.{Gen, finish, fails, yields, effect}
use data_pipeline_orchestrat.Voice.Messages.{
  Text, TextChunk, concat, is_space, with_world, set_world, perform_or_raise, beside,
}

pub data Role : Type 0 where
  system user assistant : Role

pub record ChatMessage : Type 0 where
  pub role : Role
  pub content : Text

pub record Llm (X : Type 0) : Type 0 where
  pub history : List ChatMessage
  pub outside : X

pub record ChatBackend (X : Type 0) : Type 0 where
  pub generate : List ChatMessage → Act X Text
  pub stream : List ChatMessage → Gen X Text

module _ {X : Type 0} where
  -- self._history.append(ChatMessage(role=..., content=...))
  unfoldable pub remember : Role → Text → Llm X → Llm X
  remember role content s = record s {
    history = s.history ++ record { role = role; content = content } ∷ [];
  }

  abbrev pub put_outside : X → Llm X → Llm X
  put_outside x s = record s { outside = x }

  -- The constructor, whose prompt is not kept if it is empty or not given.
  unfoldable pub new_llm : (system_prompt : Text) → X → Llm X
  unfolding remember
  new_llm [] x = record { history = []; outside = x }
  new_llm (c ∷ cs) x = remember system (c ∷ cs) (record { history = []; outside = x })

module _ {X : Type 0} (backend : ChatBackend X) (id : String) where
  open backend use {generate, stream}

  -- `_make_chunk`
  unfoldable pub make_chunk : TextChunk → Text → (is_final : Bool) → TextChunk
  make_chunk source_chunk text is_final = record {
    source = id;
    text = text;
    turn = source_chunk.turn;
    is_final = is_final;
    drop = false;
  }

  -- The history is extended by the reply, which is then yielded.
  unfoldable pub answer : TextChunk → (reply text : Text) → Llm X → Gen (Llm X) TextChunk
  unfolding make_chunk remember
  answer chunk reply text s =
      set_world (remember assistant reply s) (yields (make_chunk chunk text true) finish)

  -- The loop over the deltas, and what follows it.
  unfoldable pub stream_reply : TextChunk → List Text → Gen X Text → Gen (Llm X) TextChunk
  unfolding answer make_chunk
  stream_reply chunk pieces finish = with_world (answer chunk (concat pieces) [])
  stream_reply chunk pieces (fails e) = fails e
  stream_reply chunk pieces (yields delta gen) =
      yields (make_chunk chunk delta false) (stream_reply chunk (pieces ++ delta ∷ []) gen)
  stream_reply chunk pieces (effect f k) =
      effect (λ s. record s { outside = f s.outside }) λ s. stream_reply chunk pieces (k s.outside)

  -- The call of the backend, with the user's message in the history.
  unfoldable pub reply_to : (streams : Bool) → TextChunk → Llm X → Gen (Llm X) TextChunk
  unfolding stream_reply answer
  reply_to true chunk s = stream_reply chunk [] (stream s.history)
  reply_to false chunk s =
      perform_or_raise (beside (λ t. t.outside) put_outside (generate s.history))
        λ reply. with_world (answer chunk reply reply)

  unfoldable pub process : (streams : Bool) → TextChunk → Llm X → Gen (Llm X) TextChunk
  unfolding reply_to remember is_space
  process streams chunk _ =
      if chunk.drop || all is_space chunk.text
      then finish
      else with_world λ s.
        let asked = remember user chunk.text s in set_world asked (reply_to streams chunk asked)

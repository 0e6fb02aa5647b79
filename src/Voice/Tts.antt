-- ===== src/Voice/Tts.antt =====
-- core/node/model/mixins/tts_mixin.py: the texts of a reply are buffered, and spoken once its final
-- chunk arrives. A node is its buffer beside the world `X` of the backend.
pub mod Laws
pub mod Replies
pub mod Retry
pub mod Examples
use data_pipeline_orchestrat.Base.{
  ℕ, zero, suc, String, Option, none, some, List, [], ◌∷◌, ◌++◌, Bool, true, false, not, ◌&&◌, ◌||◌,
  ltb, leb, ◌==◌, ◌-◌, if◌then◌else◌, Act,
}
use data_pipeline_orchestrat.Policy.Execute.{Gen, finish, yields}
use data_pipeline_orchestrat.Mailbox.Snapshot.{Turn}
use data_pipeline_orchestrat.Voice.Echo.{reverse}
use data_pipeline_orchestrat.Voice.Messages.{
  Text, AudioChunk, TextChunk, concat, is_space, same_key, with_world, set_world, perform_or_raise,
  beside,
}

-- One of the characters * _ ` ~.
unfoldable pub is_mark : ℕ → Bool
is_mark c = c == 42 || c == 95 || c == 96 || c == 126

unfoldable pub count_spaces : Text → ℕ
unfolding is_space
count_spaces [] = 0
count_spaces (c ∷ cs) = let rest = count_spaces cs in if is_space c then suc rest else 0

-- How many characters `#{1,6}\s+` matches, 0 if it does not; `hashes` of them are read.
unfoldable pub heading_width : (hashes : ℕ) → Text → ℕ
unfolding count_spaces
heading_width hashes [] = 0
heading_width hashes (c ∷ cs) =
    let rest = heading_width (suc hashes) cs in
    if c == 35
    then (if rest == 0 then 0 else suc rest)
    else if ltb 0 hashes && leb hashes 6
    then count_spaces (c ∷ cs)
    else 0

-- _MARKDOWN_STRIP_RE.sub("", text): `skip` characters of a heading are left to remove, and the
-- character before is a line feed, or there is none.
unfoldable pub strip_markdown : (skip : ℕ) (line_start : Bool) → Text → Text
unfolding is_mark heading_width
strip_markdown skip line_start [] = []
strip_markdown (suc skip) line_start (c ∷ cs) = strip_markdown skip (c == 10) cs
strip_markdown zero line_start (c ∷ cs) =
    let width = heading_width 0 (c ∷ cs) in
    let after_heading = strip_markdown (width - 1) (c == 10) cs in
    let rest = strip_markdown 0 (c == 10) cs in
    if is_mark c then rest else if line_start && not (width == 0) then after_heading else c ∷ rest

-- re.sub(r"\s+", " ", text), after a character that is a space or not
unfoldable pub collapse_spaces : (after_space : Bool) → Text → Text
unfolding is_space
collapse_spaces after_space [] = []
collapse_spaces after_space (c ∷ cs) =
    let rest = collapse_spaces (is_space c) cs in
    if is_space c then (if after_space then rest else 32 ∷ rest) else c ∷ rest

-- text.lstrip()
unfoldable pub strip_left : Text → Text
unfolding is_space
strip_left [] = []
strip_left (c ∷ cs) = let rest = strip_left cs in if is_space c then rest else c ∷ cs

-- text.strip()
unfoldable pub strip_spaces : Text → Text
unfolding strip_left reverse
strip_spaces text = reverse (strip_left (reverse (strip_left text)))

unfoldable pub sanitize_for_speech : Text → Text
unfolding strip_markdown collapse_spaces strip_spaces
sanitize_for_speech text = strip_spaces (collapse_spaces false (strip_markdown 0 true text))

pub record Tts (X : Type 0) : Type 0 where
  pub buffer : List Text
  pub buffer_turn_key : Option Turn
  pub outside : X

module _ {X : Type 0} where
  -- The two assignments of a new mixin, and of a flush.
  unfoldable pub cleared : X → Tts X
  cleared x = record { buffer = []; buffer_turn_key = none; outside = x }

  abbrev pub put_outside : X → Tts X → Tts X
  put_outside x s = record s { outside = x }

  -- A chunk of another turn resets the buffer.
  unfoldable pub turn_to : Turn → Tts X → Tts X
  turn_to turn s =
      if same_key turn s.buffer_turn_key
      then s
      else record s { buffer = []; buffer_turn_key = some turn }

  -- if chunk.text: self._buffer.append(chunk.text)
  unfoldable pub buffer_text : Text → Tts X → Tts X
  buffer_text [] s = s
  buffer_text (c ∷ cs) s = record s { buffer = s.buffer ++ (c ∷ cs) ∷ [] }

  unfoldable pub take_text : TextChunk → Tts X → Tts X
  unfolding turn_to buffer_text
  take_text chunk s = buffer_text chunk.text (turn_to chunk.turn s)

module _ {A X : Type 0} (synthesize : Text → Act X (List A × ℕ)) (id : String) where
  -- yield AudioChunk(...)
  unfoldable pub speech : Turn → List A × ℕ → AudioChunk A
  speech turn (samples, rate) = record {
    source = id;
    samples = samples;
    sample_rate = rate;
    turn = turn;
    drop = false;
  }

  unfoldable pub speak : Text → Turn → Gen (Tts X) (AudioChunk A)
  unfolding speech
  speak [] turn = finish
  speak (c ∷ cs) turn =
      perform_or_raise (beside (λ s. s.outside) put_outside (synthesize (c ∷ cs)))
        λ sound. yields (speech turn sound) finish

  -- From the join on; the buffer is emptied before the call.
  unfoldable pub flush : Turn → Tts X → Gen (Tts X) (AudioChunk A)
  unfolding speak cleared sanitize_for_speech
  flush turn s = set_world (cleared s.outside) (speak (sanitize_for_speech (concat s.buffer)) turn)

  unfoldable pub process : TextChunk → Tts X → Gen (Tts X) (AudioChunk A)
  unfolding flush take_text
  process chunk _ =
      if chunk.drop
      then finish
      else with_world λ s.
        set_world (take_text chunk s)
          (if chunk.is_final then with_world (flush chunk.turn) else finish)

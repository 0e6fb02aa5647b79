-- ===== src/Voice/Tools.antt =====
-- core/node/processors/mixins/agent_tool_mixin.py, `_flush_outbox` of agent_tool_node.py, and
-- tools/timer_tool.py: markers `[[name({...})]]` in a reply are replaced by what the tools answer,
-- and a tail that may be the beginning of a marker is held back. What Python's `re` finds for the
-- pattern of a call, `json.loads`, and the formatting of messages are parameters.
pub mod Laws
pub mod Resolve
pub mod Files
pub mod Examples
use data_pipeline_orchestrat.Base.{
  ℕ, zero, suc, ◌+◌, ◌-◌, ◌*◌, String, Option, none, some, List, [], ◌∷◌, ◌++◌, Bool, true, false,
  not, ◌&&◌, ◌==◌, ltb, leb, length, take, drop, Dict, lookup, is_some, if◌then◌else◌, Exception,
  type_error, Outcome, returned, raised, Act, and_then, ℤ, pos, negsuc,
}
use data_pipeline_orchestrat.Mailbox.Snapshot.{Turn}
use data_pipeline_orchestrat.Voice.Messages.{Text, TextChunk, same_key}

-- text.startswith(2 * c)
unfoldable pub starts_double : ℕ → Text → Bool
starts_double c (a ∷ b ∷ cs) = a == c && b == c
starts_double c _ = false

-- text.find(2 * c)
unfoldable pub find_double : ℕ → Text → Option ℕ
unfolding starts_double
find_double c [] = none
find_double c (a ∷ cs) =
    if starts_double c (a ∷ cs)
    then some 0
    else elim (find_double c cs) [ none ↦ none | some i ↦ some (suc i) ]

-- text.rfind(2 * c)
unfoldable pub rfind_double : ℕ → Text → Option ℕ
unfolding starts_double
rfind_double c [] = none
rfind_double c (a ∷ cs) = elim (rfind_double c cs) [
  | some i ↦ some (suc i)
  | none ↦ if starts_double c (a ∷ cs) then some 0 else none
]

-- text.endswith("[")
unfoldable pub ends_open : Text → Bool
ends_open [] = false
ends_open (c ∷ []) = c == 91
ends_open (c ∷ d ∷ cs) = ends_open (d ∷ cs)

-- A lone `[` at the end, which is the rest of `_incomplete_marker_start`.
unfoldable pub trailing_start : Text → ℕ
unfolding ends_open
trailing_start text = if ends_open text then length text - 1 else length text

-- `_incomplete_marker_start`
unfoldable pub incomplete_marker_start : Text → ℕ
unfolding find_double rfind_double trailing_start
incomplete_marker_start text = elim (rfind_double 91 text) [
  | none ↦ trailing_start text
  | some start ↦
      if is_some (find_double 93 (drop (start + 2) text)) then trailing_start text else start
]

-- How many characters `\[\[.*?\]\]` matches at the front, 0 if it does not.
unfoldable pub marker_width : Text → ℕ
unfolding starts_double find_double
marker_width text = elim (find_double 93 (drop 2 text)) [
  | none ↦ 0
  | some i ↦ if starts_double 91 text then i + 4 else 0
]

-- _LEFTOVER_MARKER_RE.sub("", text), with `skip` characters of a match left to remove
unfoldable pub strip_leftovers : (skip : ℕ) → Text → Text
unfolding marker_width
strip_leftovers skip [] = []
strip_leftovers (suc skip) (c ∷ cs) = strip_leftovers skip cs
strip_leftovers zero (c ∷ cs) =
    let width = marker_width (c ∷ cs) in
    let after = strip_leftovers (width - 1) cs in
    let rest = strip_leftovers 0 cs in if width == 0 then c ∷ rest else after

-- What `_TOOL_CALL_RE` makes of a text: the text between the matches, and the groups of each.
pub data Piece : Type 0 where
  literal_text : Text → Piece
  call : (tool_name : String) → (raw_args : Text) → Piece

-- The short error messages of `_resolve_call`.
pub data Issue : Type 0 where
  unknown_tool malformed_arguments bad_arguments : String → Issue
  tool_failed : Text → Issue

-- How a tool ends: with a text, with its ToolError, or with another exception.
pub data ToolResult : Type 0 where
  answer : Text → ToolResult
  tool_error : Text → ToolResult
  raises : Exception → ToolResult

pub record ToolRuntime (Args : Type 0) : Type 0 where
  pub find_calls : Text → List Piece
  -- json.loads, `none` for a JSONDecodeError
  pub loads : Text → Option Args
  pub render : Issue → Text

pub record Agent (X : Type 0) : Type 0 where
  pub pending : Text
  pub pending_turn_key : Option Turn
  pub outside : X

module _ {Args X : Type 0} (rt : ToolRuntime Args) (tools : Dict (Args → X → ToolResult × X)) where
  open rt use {find_calls, loads, render}

  -- The last `try` of `_resolve_call`.
  unfoldable pub tool_reply : String → ToolResult × X → Outcome Text × X
  tool_reply name (answer text, x) = (returned text, x)
  tool_reply name (tool_error message, x) = (returned (render (tool_failed message)), x)
  tool_reply name (raises type_error, x) = (returned (render (bad_arguments name)), x)
  tool_reply name (raises e, x) = (raised e, x)

  -- `_resolve_call`
  unfoldable pub resolve_call : String → Text → Act X Text
  unfolding tool_reply lookup
  resolve_call name raw_args x = elim (lookup name tools) [
    | none ↦ (returned (render (unknown_tool name)), x)
    | some tool ↦ elim (loads raw_args) [
      | none ↦ (returned (render (malformed_arguments name)), x)
      | some kwargs ↦ tool_reply name (tool kwargs x)
    ]
  ]

  -- _TOOL_CALL_RE.sub(self._resolve_call, text), over what is found in the text
  unfoldable pub substitute : List Piece → Act X Text
  unfolding resolve_call
  substitute [] x = (returned [], x)
  substitute (literal_text text ∷ ps) x =
      and_then (substitute ps x) λ rest x1. (returned (text ++ rest), x1)
  substitute (call name raw_args ∷ ps) x =
      and_then (resolve_call name raw_args x)
        λ text x1. and_then (substitute ps x1) λ rest x2. (returned (text ++ rest), x2)

  -- if self.tools and _LEFTOVER_MARKER_RE.search(text)
  unfoldable pub strip_unresolved : Text → Text
  unfolding strip_leftovers
  strip_unresolved text = elim tools [ [] ↦ text | t ∷ ts ↦ strip_leftovers 0 text ]

  -- `_resolve_text`
  unfoldable pub resolve_text : Text → Act X Text
  unfolding substitute strip_unresolved
  resolve_text [] x = (returned [], x)
  resolve_text (c ∷ cs) x =
      and_then (substitute (find_calls (c ∷ cs)) x)
        λ text x1. (returned (strip_unresolved text), x1)

  -- A chunk of another turn discards the held text.
  unfoldable pub turn_to : Turn → Agent X → Agent X
  turn_to turn s =
      let fresh = record s { pending = []; pending_turn_key = some turn } in
      if same_key turn s.pending_turn_key then s else fresh

  -- The text that is ready, and the state with the rest.
  unfoldable pub hold_back : (is_final : Bool) → Text → Agent X → Text × Agent X
  unfolding incomplete_marker_start
  hold_back true text s = (text, record s { pending = []; pending_turn_key = none })
  hold_back false text s =
      let split = incomplete_marker_start text in
      (take split text, record s { pending = drop split text })

  -- `process` up to the resolution
  unfoldable pub prepare : TextChunk → Agent X → Text × Agent X
  unfolding turn_to hold_back
  prepare chunk s =
      let s1 = turn_to chunk.turn s in hold_back chunk.is_final (s1.pending ++ chunk.text) s1

  -- The state keeps the world that the tools leave.
  abbrev pub put_reply : TextChunk → Agent X → Outcome Text × X → Outcome TextChunk × Agent X
  put_reply chunk s (returned text, x) =
      (returned (record chunk { text = text }), record s { outside = x })
  put_reply chunk s (raised e, x) = (raised e, record s { outside = x })

  unfoldable pub process : TextChunk → Act (Agent X) TextChunk
  unfolding prepare resolve_text
  process chunk s =
      let (ready, s1) = prepare chunk s in
      if chunk.drop then (returned chunk, s) else put_reply chunk s1 (resolve_text ready s1.outside)

-- MAX_TIMER_SECONDS
abbrev pub max_timer_seconds : ℕ
max_timer_seconds = 24 * 60 * 60

-- 0 < seconds <= MAX_TIMER_SECONDS of `TimerTool`, for a whole number of seconds
unfoldable pub timer_in_range : ℤ → Bool
timer_in_range (pos n) = ltb 0 n && leb n max_timer_seconds
timer_in_range (negsuc n) = false

-- `_flush_outbox`: each queued message is sent in turn; what a send raises ends the flush, and the
-- message it was about is off the queue.
unfoldable pub flush_outbox :
    {M W : Type 0} → (M → Act W (Unit {0})) → List M → W → Outcome (Unit {0}) × List M × W
flush_outbox send [] w = (returned tt, [], w)
flush_outbox send (m ∷ ms) w =
    let (o, w1) = send m w in
    let rest = flush_outbox send ms w1 in
    elim o [ returned _ ↦ rest | raised e ↦ (raised e, ms, w1) ]

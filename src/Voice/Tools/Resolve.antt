-- ===== src/Voice/Tools/Resolve.antt =====
-- How the calls of tools in a text end.
use data_pipeline_orchestrat.Base.{
  String, ◌≡◌, refl, ap, sym, false, if◌then◌else◌, some, List, [], ◌∷◌, Dict, lookup, Exception,
  type_error, Outcome, returned, raised, and_then, Option-cases, inl, inr,
}
use mathlib.Core.Path.{subst}
use data_pipeline_orchestrat.Voice.Messages.{Text, TextChunk}
use data_pipeline_orchestrat.Voice.Tools.{
  Piece, literal_text, call, ToolRuntime, ToolResult, answer, tool_error, raises, Agent, tool_reply,
  resolve_call, substitute, resolve_text, prepare, put_reply, process,
}

-- The call ends with a value.
abbrev pub Returns : {A X : Type 0} → Outcome A × X → Type 0
Returns {A = A} (o, x) = (a : A) × (o ≡ returned a)

and_then-Returns :
    {A B X : Type 0} (r : Outcome A × X) (k : A → X → Outcome B × X)
    → Returns r
    → ((a : A) (x : X) → Returns (k a x))
    → Returns (and_then r k)
and_then-Returns (returned a, x) k h next = next a x
and_then-Returns (raised e, x) k (a, h) next = cc

module _ {Args X : Type 0} (rt : ToolRuntime Args) (tools : Dict (Args → X → ToolResult × X)) where
  open rt use {find_calls, loads, render}

  -- Every tool raises nothing but ToolError, and TypeError for arguments that it does not take.
  abbrev pub IsTame : Type 0
  IsTame =
      (name : String) (tool : Args → X → ToolResult × X) (kwargs : Args) (x x1 : X) (e : Exception)
      → lookup name tools ≡ some tool
      → tool kwargs x ≡ (raises e, x1)
      → e ≡ type_error

  tool_reply-Returns :
      (name : String) (r : ToolResult × X)
      → ((e : Exception) → r.0 ≡ raises e → e ≡ type_error)
      → Returns (tool_reply rt tools name r)
  unfolding tool_reply
  tool_reply-Returns name (answer text, x) tame = (text, refl)
  tool_reply-Returns name (tool_error message, x) tame = (_, refl)
  tool_reply-Returns name (raises e, x) tame = rw (tame e refl) (_, refl)

  resolve_call-Returns :
      (name : String) (raw_args : Text) (x : X)
      → IsTame
      → Returns (resolve_call rt tools name raw_args x)
  unfolding resolve_call
  resolve_call-Returns name raw_args x tame = elim (Option-cases (lookup name tools)) [
    | inl e ↦ rw (resolve_call, e) (_, refl)
    | inr (tool, e) ↦ elim (Option-cases (loads raw_args)) [
      | inl f ↦ rw (resolve_call, e, f) (_, refl)
      | inr (kwargs, f) ↦
          rw (resolve_call, e, f)
            (tool_reply-Returns name (tool kwargs x) λ err h.
              tame name tool kwargs x ((tool kwargs x).1) err e
                (ap (λ r. (r, (tool kwargs x).1)) h))
    ]
  ]

  substitute-Returns : (ps : List Piece) (x : X) → IsTame → Returns (substitute rt tools ps x)
  unfolding substitute
  substitute-Returns [] x tame = ([], refl)
  substitute-Returns (literal_text text ∷ ps) x tame =
      and_then-Returns (substitute rt tools ps x) _ (substitute-Returns ps x tame)
        λ rest x1. (_, refl)
  substitute-Returns (call name raw_args ∷ ps) x tame =
      and_then-Returns (resolve_call rt tools name raw_args x) _
        (resolve_call-Returns name raw_args x tame)
        λ text x1.
          and_then-Returns (substitute rt tools ps x1) _ (substitute-Returns ps x1 tame)
            λ rest x2. (_, refl)

  resolve_text-Returns : (text : Text) (x : X) → IsTame → Returns (resolve_text rt tools text x)
  unfolding resolve_text
  resolve_text-Returns [] x tame = ([], refl)
  resolve_text-Returns (c ∷ cs) x tame =
      and_then-Returns (substitute rt tools (find_calls (c ∷ cs)) x) _
        (substitute-Returns (find_calls (c ∷ cs)) x tame) λ text x1. (_, refl)

  put_reply-Returns :
      (chunk : TextChunk) (s : Agent X) (r : Outcome Text × X)
      → Returns r
      → (text : Text) × ((put_reply rt tools chunk s r).0 ≡ returned (record chunk { text = text }))
  put_reply-Returns chunk s (returned text, x) h = (text, refl)
  put_reply-Returns chunk s (raised e, x) (text, h) = cc

  -- A reply always gets through the tools: where every tool raises nothing but ToolError and
  -- TypeError, a chunk that is not dropped is returned, whatever calls its text holds, unknown
  -- tools and malformed arguments included, with its turn and its finality as they were.
  pub process_returns :
      (chunk : TextChunk) (s : Agent X)
      → IsTame
      → chunk.drop ≡ false
      → (text : Text) × ((process rt tools chunk s).0 ≡ returned (record chunk { text = text }))
  unfolding process
  process_returns chunk s tame sent =
      let (ready, s1) = prepare rt tools chunk s in
      let reply = put_reply rt tools chunk s1 (resolve_text rt tools ready s1.outside) in
      subst
        (λ b.
          (text : Text) × ((if b then (returned chunk, s) else reply).0
            ≡ returned (record chunk { text = text })))
        (sym sent)
        (put_reply-Returns chunk s1 (resolve_text rt tools ready s1.outside)
          (resolve_text-Returns ready s1.outside tame))

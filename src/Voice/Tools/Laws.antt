-- ===== src/Voice/Tools/Laws.antt =====
-- What is held back of a reply, and what becomes of it.
use data_pipeline_orchestrat.Base.{
  ℕ, suc, ◌+◌, ◌-◌, ◌≡◌, ◌⊎◌, inl, inr, refl, sym, ap, ◌∙◌, arith, none, some, List, [], ◌∷◌, ◌++◌,
  All, true, false, ==_iff, drop, take-append-drop, length, Dict, is_some, Bool-cases, Option-cases,
}
use mathlib.Core.Path.{subst}
use mathlib.Core.List.{append_assoc, append-nil}
use data_pipeline_orchestrat.Mailbox.Snapshot.{Turn}
use data_pipeline_orchestrat.Voice.Messages.{Text, TextChunk, concat, same_key, same_turn_refl}
use data_pipeline_orchestrat.Voice.Tts.Laws.{IsPiece, IsEnd, texts}
use data_pipeline_orchestrat.Voice.Tools.{
  starts_double, find_double, rfind_double, ends_open, trailing_start, incomplete_marker_start,
  Agent, ToolRuntime, ToolResult, turn_to, hold_back, prepare,
}

starts_double-head : (c a : ℕ) (cs : Text) → starts_double c (a ∷ cs) ≡ true → a ≡ c
unfolding starts_double
starts_double-head c a [] h = cc
starts_double-head c a (b ∷ cs) h = ground (arith, h, ==_iff a c)

rfind_double-drop :
    (c : ℕ) (text : Text) (i : ℕ)
    → rfind_double c text ≡ some i
    → (rest : Text) × (drop i text ≡ c ∷ rest)
unfolding rfind_double
rfind_double-drop c [] i h = cc
rfind_double-drop c (a ∷ cs) i h = elim (Option-cases (rfind_double c cs)) [
  | inr (j, e) ↦
      let here : some (suc j) ≡ some i = sym (rw e refl) ∙ h in
      let (rest, below) = rfind_double-drop c cs j e in
      let same : suc j ≡ i = cc in (rest, subst (λ n. drop n (a ∷ cs) ≡ c ∷ rest) same below)
  | inl e ↦ elim (Bool-cases (starts_double c (a ∷ cs))) [
    | inl f ↦
        let here : some 0 ≡ some i = sym (rw (e, f) refl) ∙ h in
        let same : 0 ≡ i = cc in
        (
          cs,
          subst (λ n. drop n (a ∷ cs) ≡ c ∷ cs) same
              (ap (λ b. b ∷ cs) (starts_double-head c a cs f)),
        )
    | inr f ↦ let here : none ≡ some i = sym (rw (e, f) refl) ∙ h in cc
  ]
]

ends_open-drop : (text : Text) → ends_open text ≡ true → drop (length text - 1) text ≡ 91 ∷ []
unfolding ends_open
ends_open-drop [] h = cc
ends_open-drop (c ∷ []) h = ap (λ d. d ∷ []) ((==_iff c 91).0 h)
ends_open-drop (c ∷ d ∷ cs) h =
    let longer : length (c ∷ d ∷ cs) - 1 ≡ suc (length (d ∷ cs) - 1) = omega arith in
    rw longer (ends_open-drop (d ∷ cs) h)

drop-length : {A : Type 0} (xs : List A) → drop (length xs) xs ≡ []
drop-length [] = refl
drop-length (x ∷ xs) = drop-length xs

-- A tail that may open a marker: nothing, or a text that begins with `[`.
abbrev pub Opens : Text → Type 0
Opens text = (text ≡ []) ⊎ ((rest : Text) × (text ≡ 91 ∷ rest))

trailing_start-Opens : (text : Text) → Opens (drop (trailing_start text) text)
unfolding trailing_start
trailing_start-Opens text = elim (Bool-cases (ends_open text)) [
  | inl e ↦ rw e (inr ([], ends_open-drop text e))
  | inr e ↦ rw e (inl (drop-length text))
]

incomplete_marker_start-Opens : (text : Text) → Opens (drop (incomplete_marker_start text) text)
unfolding incomplete_marker_start
incomplete_marker_start-Opens text = elim (Option-cases (rfind_double 91 text)) [
  | inl e ↦
      at (trailing_start text) (rw (incomplete_marker_start, e) refl) (trailing_start-Opens text)
  | inr (i, e) ↦ elim (Bool-cases (is_some (find_double 93 (drop (i + 2) text)))) [
    | inl f ↦
        at (trailing_start text) (rw (incomplete_marker_start, e, f) refl)
          (trailing_start-Opens text)
    | inr f ↦ at i (rw (incomplete_marker_start, e, f) refl) (inr (rfind_double-drop 91 text i e))
  ]
]
  where
    at :
        (n : ℕ)
        → incomplete_marker_start text ≡ n
        → Opens (drop n text)
        → Opens (drop (incomplete_marker_start text) text)
    at n e = subst (λ m. Opens (drop m text)) (sym e)

module _ {Args X : Type 0} (rt : ToolRuntime Args) (tools : Dict (Args → X → ToolResult × X)) where
  -- The texts that are ready at each chunk, one after the other.
  abbrev pub prepare_all : List TextChunk → Agent X → List Text × Agent X
  prepare_all [] s = ([], s)
  prepare_all (c ∷ cs) s =
      let (ready, s1) = prepare rt tools c s in
      let (rest, s2) = prepare_all cs s1 in (ready ∷ rest, s2)

  turn_to-again :
      (turn : Turn) (s : Agent X) → s.pending_turn_key ≡ some turn → turn_to rt tools turn s ≡ s
  unfolding turn_to
  turn_to-again turn s key = rw (key, same_turn_refl turn) refl

  turn_to-other :
      (turn : Turn) (s : Agent X)
      → same_key turn s.pending_turn_key ≡ false
      → turn_to rt tools turn s ≡ record s { pending = []; pending_turn_key = some turn }
  unfolding turn_to
  turn_to-other turn s other = rw other refl

  -- A piece of the turn of the held text: what is ready and what is held are all that was there.
  piece_kept :
      (turn : Turn) (c : TextChunk) (s : Agent X)
      → c.turn ≡ turn
      → c.is_final ≡ false
      → s.pending_turn_key ≡ some turn
      → ((prepare rt tools c s).0 ++ (prepare rt tools c s).1.pending ≡ s.pending ++ c.text)
        × ((prepare rt tools c s).1.pending_turn_key ≡ some turn)
        × Opens ((prepare rt tools c s).1.pending)
  unfolding prepare hold_back
  piece_kept turn c s same more key =
      rw (same, more, turn_to-again turn s key)
        (
          take-append-drop (incomplete_marker_start (s.pending ++ c.text)) (s.pending ++ c.text),
          key,
          incomplete_marker_start-Opens (s.pending ++ c.text),
        )

  -- The chunks of a turn whose held text is `s.pending`.
  pieces_kept :
      (turn : Turn) (cs : List TextChunk) (s : Agent X)
      → All (IsPiece turn) cs
      → s.pending_turn_key ≡ some turn
      → Opens s.pending
      → let r = prepare_all cs s in
        (concat (r.0) ++ r.1.pending ≡ s.pending ++ texts cs)
        × (r.1.pending_turn_key ≡ some turn)
        × Opens r.1.pending
  pieces_kept turn [] s parts key opens = (sym (append-nil s.pending), key, opens)
  pieces_kept turn (c ∷ cs) s ((same, _, more), parts) key opens =
      let t = (prepare rt tools c s).1 in
      let ready = (prepare rt tools c s).0 in
      let (split, key1, opens1) = piece_kept turn c s same more key in
      let (whole, key2, opens2) = pieces_kept turn cs t parts key1 opens1 in
      (
        append_assoc ready (concat ((prepare_all cs t).0)) ((prepare_all cs t).1.pending)
            ∙ ap (λ r. ready ++ r) whole
            ∙ sym (append_assoc ready t.pending (texts cs))
            ∙ ap (λ r. r ++ texts cs) split
            ∙ append_assoc s.pending c.text (texts cs),
        key2,
        opens2,
      )

  -- A piece of another turn finds nothing held.
  prepare-other :
      (turn : Turn) (c : TextChunk) (s : Agent X)
      → c.turn ≡ turn
      → same_key turn s.pending_turn_key ≡ false
      → prepare rt tools c s
        ≡ prepare rt tools c (record s { pending = []; pending_turn_key = some turn })
  unfolding prepare
  prepare-other turn c s same other =
      let fresh : Agent X = record s { pending = []; pending_turn_key = some turn } in
      rw same (
        ap (λ t. hold_back rt tools c.is_final (t.pending ++ c.text) t)
          (turn_to-other turn s other ∙ sym (turn_to-again turn fresh refl)))

  end_kept :
      (turn : Turn) (c : TextChunk) (s : Agent X)
      → IsEnd turn c
      → s.pending_turn_key ≡ some turn
      → let (last, u) = prepare rt tools c s in
        (last ≡ s.pending ++ c.text) × (u.pending ≡ []) × (u.pending_turn_key ≡ none)
  unfolding prepare hold_back
  end_kept turn c s (same, _, last) key =
      rw (same, last, turn_to-again turn s key) (refl, refl, refl)

  -- No text of a reply is lost, repeated or moved on its way to the tools. After the pieces of a
  -- turn, however they are cut, what was passed on and then what is held are the text of the turn,
  -- without what was held of another turn; what is held is nothing or begins with `[`. The final
  -- chunk passes on all that is held before its own text, and leaves nothing.
  pub reply_passes :
      (turn : Turn) (b : TextChunk) (bs : List TextChunk) (c : TextChunk) (s : Agent X)
      → All (IsPiece turn) (b ∷ bs)
      → IsEnd turn c
      → same_key turn s.pending_turn_key ≡ false
      → let (ready, t) = prepare_all (b ∷ bs) s in
        let (last, u) = prepare rt tools c t in
        (concat ready ++ t.pending ≡ texts (b ∷ bs))
        × Opens t.pending
        × (last ≡ t.pending ++ c.text)
        × (u.pending ≡ [])
        × (u.pending_turn_key ≡ none)
  reply_passes turn b bs c s ((same, sent, more), parts) ended other =
      let fresh : Agent X = record s { pending = []; pending_turn_key = some turn } in
      let t = (prepare_all (b ∷ bs) fresh).1 in
      let (whole, key, opens) =
        pieces_kept turn (b ∷ bs) fresh ((same, sent, more), parts) refl (inl refl) in
      let (all, none_held, no_key) = end_kept turn c t ended key in
      rw (prepare-other turn b s same other) (whole, opens, all, none_held, no_key)

-- ===== src/Voice/Tools/Examples.antt =====
-- Markers that come in pieces.
use data_pipeline_orchestrat.Base.{
  suc, returned, raised, os_error, if◌then◌else◌, ℕ, ◌≡◌, refl, none, some, [], ◌∷◌, ◌++◌, Bool,
  true, false, Dict,
}
use data_pipeline_orchestrat.Mailbox.Snapshot.{Turn}
use data_pipeline_orchestrat.Voice.Messages.{Text, TextChunk, concat}
use data_pipeline_orchestrat.Voice.Tools.{
  starts_double, find_double, rfind_double, ends_open, trailing_start, incomplete_marker_start,
  marker_width, strip_leftovers, literal_text, answer, ToolResult, ToolRuntime, Agent, prepare,
}
use data_pipeline_orchestrat.Voice.Tools.Files.{FileSystem, is_relative_to, create_file, read_file}
use data_pipeline_orchestrat.Voice.Tools.Files.Confined.{files_confined}
use data_pipeline_orchestrat.Voice.Tools.Laws.{Opens, prepare_all, reply_passes}

-- "a[[b" is cut before the brackets, and "a[[b[[c" before the second ones.
marker_held : incomplete_marker_start (97 ∷ 91 ∷ 91 ∷ 98 ∷ []) ≡ 1
unfolding incomplete_marker_start rfind_double starts_double find_double trailing_start ends_open
marker_held = refl

outer_marker_passed : incomplete_marker_start (97 ∷ 91 ∷ 91 ∷ 98 ∷ 91 ∷ 91 ∷ 99 ∷ []) ≡ 4
unfolding incomplete_marker_start rfind_double starts_double find_double trailing_start ends_open
outer_marker_passed = refl

-- "a[[b]]c" becomes "ac".
marker_stripped : strip_leftovers 0 (97 ∷ 91 ∷ 91 ∷ 98 ∷ 93 ∷ 93 ∷ 99 ∷ []) ≡ 97 ∷ 99 ∷ []
unfolding strip_leftovers marker_width find_double starts_double
marker_stripped = refl

abbrev runtime : ToolRuntime ℕ
runtime = record {
  find_calls = λ text. literal_text text ∷ [];
  loads = λ text. none;
  render = λ issue. [];
}

abbrev tools : Dict (ℕ → ℕ → ToolResult × ℕ)
tools = ("set_timer", λ seconds x. (answer [], x)) ∷ []

abbrev turn : Turn
turn = record { session_id = some "home"; turn_id = some 2 }

abbrev chunk : Bool → Text → TextChunk
chunk last text = record { source = "llm"; text = text; turn = turn; is_final = last; drop = false }

abbrev idle : Agent ℕ
idle = record { pending = 91 ∷ []; pending_turn_key = none; outside = 0 }

reply_passes_example :
    let (ready, t) =
      prepare_all runtime tools
        (chunk false (97 ∷ 91 ∷ []) ∷ chunk false (91 ∷ 98 ∷ []) ∷ [])
        idle in
    let (last, u) = prepare runtime tools (chunk true (93 ∷ 93 ∷ [])) t in
    (concat ready ++ t.pending ≡ 97 ∷ 91 ∷ 91 ∷ 98 ∷ [])
    × Opens t.pending
    × (last ≡ t.pending ++ 93 ∷ 93 ∷ [])
    × (u.pending ≡ [])
    × (u.pending_turn_key ≡ none)
reply_passes_example =
    reply_passes runtime tools turn (chunk false (97 ∷ 91 ∷ [])) (chunk false (91 ∷ 98 ∷ []) ∷ [])
      (chunk true (93 ∷ 93 ∷ [])) idle ((refl, refl, refl), ((refl, refl, refl), tt))
      (refl, refl, refl) refl

-- A file system that fails outside the directory "box", and one that does not.
abbrev writable : FileSystem ℕ
writable = record {
  join = λ root text. root ++ "note" ∷ [];
  resolve = λ p w. (returned p, w);
  mkdir = λ p w. (returned tt, w);
  write_text = λ p text w. (returned tt, suc w);
  is_file = λ p w. (true, w);
  read_text = λ p w. (returned (104 ∷ []), w);
}

abbrev guarded : FileSystem ℕ
guarded = record writable {
  write_text = λ p text w.
      if is_relative_to ("box" ∷ []) p then (returned tt, suc w) else (raised os_error, w);
}

files_confined_example :
    (create_file writable (λ m. []) ("box" ∷ []) (110 ∷ []) (104 ∷ []) 0
      ≡ create_file guarded (λ m. []) ("box" ∷ []) (110 ∷ []) (104 ∷ []) 0)
    × (read_file writable (λ m. []) ("box" ∷ []) (110 ∷ []) 0
        ≡ read_file guarded (λ m. []) ("box" ∷ []) (110 ∷ []) 0)
files_confined_example =
    files_confined writable guarded (λ m. []) ("box" ∷ []) (110 ∷ []) (104 ∷ []) 0 (λ p text. refl)
      (λ p w. refl) (λ p w inside. refl) (λ p text w inside. rw inside refl) (λ p w inside. refl)
      (λ p w inside. refl)

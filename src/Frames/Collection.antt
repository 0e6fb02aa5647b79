-- ===== src/Frames/Collection.antt =====
-- `process` of core/node/model/mixins/active_learning_mixin.py: frames are collected by folder until
-- every folder that was seen is complete, and then selected from. Logging is left out.
pub mod Laws
pub mod Examples
use data_pipeline_orchestrat.Base.{
  ℕ, zero, suc, ◌+◌, String, Option, none, some, List, [], ◌∷◌, ◌++◌, map, Bool, true, false, not,
  ltb, leb, ◌==◌, length, filter, if◌then◌else◌, Dict, lookup, has_key, assign, Outcome, returned,
  raised, all,
}
use data_pipeline_orchestrat.Frames.Learning.{Frame, Floats, Settings, chosen, active_select}

module _ (F E : Type 0) where
  abbrev pub Held : Type 0
  Held = List (ℕ × Frame F E)

pub record Collected (F E : Type 0) : Type 0 where
  pub cache : Dict (Held F E)
  pub expected : Dict ℕ
  pub remaining : Dict (List ℕ)

unfoldable pub empty : {F E : Type 0} → Collected F E
empty = record { cache = []; expected = []; remaining = [] }

-- set(range(i, i + n))
unfoldable pub range : (i n : ℕ) → List ℕ
range i zero = []
range i (suc n) = i ∷ range (suc i) n

-- The entry of a defaultdict.
abbrev pub or_empty : {A : Type 0} → Option (List A) → List A
or_empty none = []
or_empty (some xs) = xs

abbrev pub is_number : ℕ → Option ℕ → Bool
is_number k none = false
is_number k (some n) = k == n

module _ {F E : Type 0} where
  -- frames[frame_id] = frame
  unfoldable pub put_frame : ℕ → Frame F E → Held F E → Held F E
  put_frame i f [] = (i, f) ∷ []
  put_frame i f ((j, g) ∷ held) = if j == i then (j, f) ∷ held else (j, g) ∷ put_frame i f held

  -- A new entry of `sorted(frames)`, with its frame.
  unfoldable pub insert_sorted : ℕ → Frame F E → Held F E → Held F E
  insert_sorted i f [] = (i, f) ∷ []
  insert_sorted i f ((j, g) ∷ held) =
      if leb i j then (i, f) ∷ (j, g) ∷ held else (j, g) ∷ insert_sorted i f held

  unfoldable pub sorted : Held F E → Held F E
  unfolding insert_sorted
  sorted [] = []
  sorted ((i, f) ∷ held) = insert_sorted i f (sorted held)

  abbrev pub frames_of : Held F E → List (Frame F E)
  frames_of [] = []
  frames_of ((i, f) ∷ held) = f ∷ frames_of held

  -- The frames of a folder by their ids, without the dropped ones.
  unfoldable pub kept : Held F E → List (Frame F E)
  unfolding sorted
  kept held = filter (λ (f : Frame F E). not f.drop) (frames_of (sorted held))

  -- all_frames
  unfoldable pub all_frames : Dict (Held F E) → List (Frame F E)
  unfolding kept
  all_frames [] = []
  all_frames ((src, held) ∷ cache) = kept held ++ all_frames cache

  -- The folder has as many frames as its first frame has announced. Every folder of the cache has
  -- announced a number.
  unfoldable pub is_complete : Dict ℕ → String × Held F E → Bool
  is_complete expected (src, held) = is_number (length held) (lookup src expected)

  -- The first frame of a folder.
  unfoldable pub register : Frame F E → Collected F E → Collected F E
  unfolding range
  register f s = if has_key f.src_dir s.remaining then s else record s {
    remaining = assign f.src_dir (range 0 f.frame_id_last) s.remaining;
    expected = assign f.src_dir f.frame_id_last s.expected;
  }

  unfoldable pub add_frame : Frame F E → Collected F E → Collected F E
  unfolding put_frame
  add_frame f s = record s {
    cache = assign f.src_dir (put_frame f.frame_id f (or_empty (lookup f.src_dir s.cache))) s.cache;
    remaining =
        assign f.src_dir
          (filter (λ i. not (i == f.frame_id)) (or_empty (lookup f.src_dir s.remaining)))
          s.remaining;
  }

module _ {F E : Type 0} (ops : Floats F E) (cfg : Settings F) where
  abbrev pub after_select :
      Collected F E → Outcome (List ℕ) → Outcome (Option (List (Frame F E))) × Collected F E
  after_select s (raised e) = (raised e, s)
  after_select s (returned is) = (returned (some (chosen (all_frames s.cache) is)), empty)

  -- The selection, after which everything is cleared; an error leaves what was collected.
  unfoldable pub select_all : Collected F E → Outcome (Option (List (Frame F E))) × Collected F E
  unfolding all_frames empty
  select_all s = after_select s (active_select ops cfg (all_frames s.cache))

  -- `process` once the frame is in the cache; none means that the node waits.
  unfoldable pub select_if_ready :
      Collected F E → Outcome (Option (List (Frame F E))) × Collected F E
  unfolding is_complete select_all
  select_if_ready s =
      let selected = select_all s in
      if all (is_complete s.expected) s.cache then selected else (returned none, s)

  unfoldable pub process :
      Frame F E → Collected F E → Outcome (Option (List (Frame F E))) × Collected F E
  unfolding register add_frame select_if_ready
  process f s = select_if_ready (add_frame f (register f s))

-- ===== src/Service/Labels.antt =====
-- service/api/labels.py: the review of labelled frames. A text is the list of its code points and a
-- path the list of its parts. The files are a function of the resolved path; how links are resolved,
-- what a line of numbers says, JSON and the listing of directories are parameters.
pub mod Resolve
pub mod Paths
pub mod Review
pub mod Examples
use data_pipeline_orchestrat.Base.{
  ℕ, zero, suc, ◌+◌, Option, none, some, List, [], ◌∷◌, ◌++◌, map, Bool, true, false, not, ◌&&◌,
  ◌||◌, ◌==◌, leb, all, any, contains, is_some, length, if◌then◌else◌, Outcome, returned, raised,
  Act, and_then, pure, other, str_eq,
}
use data_pipeline_orchestrat.Voice.Messages.{Text, is_space}
use data_pipeline_orchestrat.Service.Labels.Resolve.{
  LabelPath, same_text, same_path, is_below, sep, frame_id_for, one_more, partition, is_unsafe,
  images, labels, jpg, txt, image_of, label_of, Files, Ids, Outside, read, write, is_file, checked,
  resolve_parts, resolve_frame_paths,
}

-- The characters at which splitlines cuts. A pair of \r and \n counts twice here; the reader skips the
-- blank line between.
unfoldable pub is_break : ℕ → Bool
is_break c = leb 10 c && leb c 13 || leb 28 c && leb c 30 || c == 133 || c == 8232 || c == 8233

-- `current` is the line before the rest.
unfoldable pub splitlines : (rest current : Text) → List Text
unfolding is_break
splitlines [] [] = []
splitlines [] (c ∷ current) = (c ∷ current) ∷ []
splitlines (d ∷ rest) current =
    let cut = current ∷ splitlines rest [] in
    let longer = splitlines rest (current ++ d ∷ []) in if is_break d then cut else longer

unfoldable pub contains_text : Text → Ids → Bool
unfolding same_text
contains_text t [] = false
contains_text t (none ∷ us) = contains_text t us
contains_text t (some u ∷ us) = same_text t u || contains_text t us

pub record FrameDetail (B : Type 0) : Type 0 where
  pub frame_id : Text
  pub boxes : List B
  pub reviewed : Bool

pub record FrameSummary : Type 0 where
  pub frame_id : Text
  pub box_count : ℕ
  pub reviewed : Bool

module _ {B : Type 0} (out : Outside B) where
  abbrev pub cons_box : Outcome B → Outcome (List B) → Outcome (List B)
  cons_box (raised e) r = raised e
  cons_box (returned b) (raised e) = raised e
  cons_box (returned b) (returned bs) = returned (b ∷ bs)

  unfoldable pub boxes_of : List Text → Outcome (List B)
  boxes_of [] = returned []
  boxes_of (line ∷ lines) =
      let more = cons_box (out.parse_box line) (boxes_of lines) in
      let rest = boxes_of lines in if all is_space line then rest else more

  abbrev pub or_no_text : Option Text → Text
  or_no_text none = []
  or_no_text (some t) = t

  -- `_read_boxes`, of a file that is there.
  unfoldable pub read_boxes : LabelPath → Files → Outcome (List B)
  unfolding boxes_of splitlines
  read_boxes label fs = boxes_of (splitlines (or_no_text (read out label fs)) [])

  -- "\n".join(lines), and a last "\n" unless there are no lines.
  unfoldable pub text_of : List B → Text
  text_of [] = []
  text_of (b ∷ bs) = out.print_box b ++ 10 ∷ text_of bs

  abbrev pub manifest_path : LabelPath → LabelPath
  manifest_path root = root ++ out.manifest_name ∷ []

  -- except json.JSONDecodeError
  abbrev pub or_no_ids : Outcome Ids → Outcome Ids
  or_no_ids (returned ids) = returned ids
  or_no_ids (raised (other name)) =
      if str_eq name "JSONDecodeError" then returned [] else raised (other name)
  or_no_ids (raised e) = raised e

  abbrev pub ids_of : Option Text → Outcome Ids
  ids_of none = returned []
  ids_of (some t) = or_no_ids (out.loads t)

  -- `_load_reviewed`
  unfoldable pub load_reviewed : LabelPath → Files → Outcome Ids
  load_reviewed root fs = ids_of (read out (manifest_path root) fs)

  -- `_mark_reviewed`
  unfoldable pub mark_reviewed : LabelPath → Text → Act Files (Unit {0})
  unfolding load_reviewed
  mark_reviewed root frame_id fs = elim (load_reviewed root fs) [
    | raised e ↦ (raised e, fs)
    | returned ids ↦ elim (out.dumps (some frame_id ∷ ids)) [
      | raised e ↦ (raised e, fs)
      | returned t ↦ (returned tt, write out (manifest_path root) t fs)
    ]
  ]

  abbrev pub summary_of : Text → Bool → Outcome (List B) → Outcome FrameSummary
  summary_of frame_id reviewed (raised e) = raised e
  summary_of frame_id reviewed (returned bs) =
      returned (record { frame_id = frame_id; box_count = length bs; reviewed = reviewed })

  abbrev pub cons_summary :
      Outcome FrameSummary → Outcome (List FrameSummary) → Outcome (List FrameSummary)
  cons_summary (raised e) r = raised e
  cons_summary (returned s) (raised e) = raised e
  cons_summary (returned s) (returned ss) = returned (s ∷ ss)

  -- `list_label_frames`, for the folders and stems of the pictures that the two globs find.
  unfoldable pub summaries :
      (reviewed : Ids) → LabelPath → List (Text × Text) → Files → Outcome (List FrameSummary)
  summaries reviewed root [] fs = returned []
  summaries reviewed root ((folder, stem) ∷ rest) fs =
      let frame_id = frame_id_for folder stem in
      let others = summaries reviewed root rest fs in
      let here =
        cons_summary
          (summary_of frame_id (contains_text frame_id reviewed)
            (read_boxes (label_of root folder stem) fs))
          others in
      if is_file out (label_of root folder stem) fs then here else others

  unfoldable pub list_label_frames :
      LabelPath → List (Text × Text) → Files → Outcome (List FrameSummary)
  unfolding summaries
  list_label_frames root found fs = elim (load_reviewed root fs) [
    | raised e ↦ raised e
    | returned reviewed ↦ summaries reviewed root found fs
  ]

  -- The boxes are read first.
  abbrev pub detail_of : Text → Outcome Ids → Outcome (List B) → Outcome (Option (FrameDetail B))
  detail_of frame_id loaded (raised e) = raised e
  detail_of frame_id (raised e) (returned bs) = raised e
  detail_of frame_id (returned ids) (returned bs) =
      returned
        (some (record { frame_id = frame_id; boxes = bs; reviewed = contains_text frame_id ids }))

  -- `get_frame_detail`
  unfoldable pub get_frame_detail : LabelPath → Text → Files → Outcome (Option (FrameDetail B))
  get_frame_detail root frame_id fs = elim (resolve_frame_paths out root frame_id fs) [
    | none ↦ returned none
    | some (image, label) ↦ detail_of frame_id (load_reviewed root fs) (read_boxes label fs)
  ]

  -- `get_frame_image_path`
  unfoldable pub get_frame_image_path : LabelPath → Text → Files → Option LabelPath
  unfolding resolve_frame_paths
  get_frame_image_path root frame_id fs = elim (resolve_frame_paths out root frame_id fs) [
    | none ↦ none
    | some (image, label) ↦ some image
  ]

  -- `save_frame_boxes`
  unfoldable pub save_frame_boxes : LabelPath → Text → List B → Act Files (Option (FrameDetail B))
  unfolding resolve_frame_paths text_of mark_reviewed
  save_frame_boxes root frame_id bs fs = elim (resolve_frame_paths out root frame_id fs) [
    | none ↦ (returned none, fs)
    | some (image, label) ↦
        and_then (mark_reviewed root frame_id (write out label (text_of bs) fs))
          λ _. pure (some (record { frame_id = frame_id; boxes = bs; reviewed = true }))
  ]

-- ===== src/Service/Labels/Resolve.antt =====
-- The ids and the guarded paths of service/api/labels.py, and the files by their resolved paths.
use data_pipeline_orchestrat.Base.{
  ℕ, Option, none, some, List, [], ◌∷◌, ◌++◌, Bool, true, false, not, ◌&&◌, ◌||◌, ◌==◌, contains,
  is_some, if◌then◌else◌, Outcome,
}
use data_pipeline_orchestrat.Voice.Messages.{Text}

abbrev pub LabelPath : Type 0
LabelPath = List Text

-- Two texts, and two paths, are compared by their parts.
unfoldable pub same_text : Text → Text → Bool
same_text [] [] = true
same_text [] (d ∷ t) = false
same_text (c ∷ s) [] = false
same_text (c ∷ s) (d ∷ t) = c == d && same_text s t

unfoldable pub same_path : LabelPath → LabelPath → Bool
unfolding same_text
same_path [] [] = true
same_path [] (q ∷ r) = false
same_path (p ∷ s) [] = false
same_path (p ∷ s) (q ∷ r) = same_text p q && same_path s r

-- `root in path.parents`, for a root without an end of its own.
unfoldable pub is_below : (root path : LabelPath) → Bool
unfolding same_text
is_below [] [] = false
is_below [] (p ∷ ps) = true
is_below (r ∷ rs) [] = false
is_below (r ∷ rs) (p ∷ ps) = same_text r p && is_below rs ps

-- _FRAME_ID_SEP
abbrev pub sep : ℕ
sep = b':'

-- `_frame_id_for`
unfoldable pub frame_id_for : (folder stem : Text) → Text
frame_id_for folder stem = folder ++ sep ∷ stem

-- frame_id.partition(":"): what stands before the first separator and behind it, if there is one.
abbrev pub one_more : ℕ → Option (Text × Text) → Option (Text × Text)
one_more c none = none
one_more c (some (before, after)) = some (c ∷ before, after)

unfoldable pub partition : Text → Option (Text × Text)
partition [] = none
partition (c ∷ s) = let rest = one_more c (partition s) in if c == sep then some ([], s) else rest

-- part in ("..", "", ".") or "/" in part or "\\" in part
unfoldable pub is_unsafe : Text → Bool
unfolding same_text
is_unsafe part =
    same_text part (b'.' ∷ b'.' ∷ [])
    || same_text part []
    || same_text part (b'.' ∷ [])
    || contains b'/' part
    || contains 92 part

abbrev pub images : Text
images = b'i' ∷ b'm' ∷ b'a' ∷ b'g' ∷ b'e' ∷ b's' ∷ []

abbrev pub labels : Text
labels = b'l' ∷ b'a' ∷ b'b' ∷ b'e' ∷ b'l' ∷ b's' ∷ []

abbrev pub jpg : Text
jpg = b'.' ∷ b'j' ∷ b'p' ∷ b'g' ∷ []

abbrev pub txt : Text
txt = b'.' ∷ b't' ∷ b'x' ∷ b't' ∷ []

-- dataset_root / folder / "images" / f"{stem}.jpg", and so for the labels.
abbrev pub image_of : (root : LabelPath) (folder stem : Text) → LabelPath
image_of root folder stem = root ++ folder ∷ images ∷ (stem ++ jpg) ∷ []

abbrev pub label_of : (root : LabelPath) (folder stem : Text) → LabelPath
label_of root folder stem = root ++ folder ∷ labels ∷ (stem ++ txt) ∷ []

-- The contents of the files, by their resolved paths.
abbrev pub Files : Type 0
Files = LabelPath → Option Text

-- The entries of the manifest, as a list; an entry that is no text is none.
abbrev pub Ids : Type 0
Ids = List (Option Text)

-- What the module calls.
pub record Outside (B : Type 0) : Type 0 where
  pub resolve : LabelPath → LabelPath
  -- a line of a label file that is not blank: int and float of its five parts
  pub parse_box : Text → Outcome B
  -- the line of a box
  pub print_box : B → Text
  -- json.dumps({"reviewed": sorted(reviewed)}), which raises where the entries cannot be sorted
  pub dumps : Ids → Outcome Text
  -- set(json.loads(...).get("reviewed", [])), which also raises where the JSON is no such dictionary
  pub loads : Text → Outcome Ids
  -- .review_state.json
  pub manifest_name : Text

module _ {B : Type 0} (out : Outside B) where
  abbrev pub read : LabelPath → Files → Option Text
  read p fs = fs (out.resolve p)

  abbrev pub write : LabelPath → Text → Files → Files
  write p t fs q = if same_path (out.resolve p) q then some t else fs q

  abbrev pub is_file : LabelPath → Files → Bool
  is_file p fs = is_some (read p fs)

  -- From the resolved paths on.
  unfoldable pub checked : (root image label : LabelPath) → Files → Option (LabelPath × LabelPath)
  unfolding is_below
  checked root image label fs =
      if not (is_below root image) || not (is_below root label)
      then none
      else if not (is_file image fs) || not (is_file label fs)
      then none
      else some (image, label)

  -- The tests of the two parts of an id; `not sep` is the case of none.
  unfoldable pub resolve_parts :
      LabelPath → Option (Text × Text) → Files → Option (LabelPath × LabelPath)
  unfolding is_unsafe checked
  resolve_parts root none fs = none
  resolve_parts root (some (folder, stem)) fs =
      if is_unsafe folder || is_unsafe stem
      then none
      else checked (out.resolve root) (out.resolve (image_of root folder stem))
          (out.resolve (label_of root folder stem)) fs

  -- `_resolve_frame_paths`
  unfoldable pub resolve_frame_paths : LabelPath → Text → Files → Option (LabelPath × LabelPath)
  unfolding resolve_parts partition
  resolve_frame_paths root frame_id fs = resolve_parts root (partition frame_id) fs

-- ===== src/Service/Labels/Review.antt =====
-- What is saved is read back, and what is listed can be opened.
use data_pipeline_orchestrat.Base.{
  ◌≡◌, refl, ap, ◌∙◌, some, List, [], ◌∷◌, ◌++◌, map, true, false, not, ◌||◌, all, contains, length,
  Bool-cases, inl, inr, arith, returned,
}
use mathlib.Core.List.{append_assoc, append-nil}
use data_pipeline_orchestrat.Voice.Messages.{Text, is_space}
use data_pipeline_orchestrat.Service.Labels.Resolve.{
  LabelPath, Outside, Files, Ids, same_path, sep, frame_id_for, is_unsafe, image_of, label_of,
  is_file, checked, resolve_parts, resolve_frame_paths, write,
}
use data_pipeline_orchestrat.Service.Labels.{
  is_break, splitlines, boxes_of, read_boxes, text_of, manifest_path, load_reviewed, mark_reviewed,
  contains_text, get_frame_detail, summaries, list_label_frames, save_frame_boxes,
}
use data_pipeline_orchestrat.Service.Labels.Paths.{
  same_text_refl, same_path_eq, same_path_refl, partition-frame_id_for,
  resolve_frame_paths-IsResolved, resolve_again,
}

-- What the review relies on: resolving twice changes nothing, a printed line is one line and is read as
-- the box with rounded numbers, and JSON brings the same ids back.
pub record Works {B : Type 0} (out : Outside B) (round : B → B) : Type 0 where
  pub stable : (p : LabelPath) → out.resolve (out.resolve p) ≡ out.resolve p
  pub one_line : (b : B) → all (λ c. not (is_break c)) (out.print_box b) ≡ true
  pub not_blank : (b : B) → all is_space (out.print_box b) ≡ false
  pub parsed : (b : B) → out.parse_box (out.print_box b) ≡ returned (round b)
  pub restored :
      (ids : Ids) (t : Text)
      → out.dumps ids ≡ returned t
      → (ids' : Ids) × (out.loads t ≡ returned ids')
        × ((u : Text) → contains_text u ids' ≡ contains_text u ids)

splitlines_line :
    (line rest current : Text)
    → all (λ c. not (is_break c)) line ≡ true
    → splitlines (line ++ 10 ∷ rest) current ≡ (current ++ line) ∷ splitlines rest []
unfolding splitlines
splitlines_line [] rest current whole = rw (append-nil current) refl
splitlines_line (c ∷ line) rest current whole =
    let inside : is_break c ≡ false = ground arith in
    rw inside (
      splitlines_line line rest (current ++ c ∷ []) (ground arith)
      ∙ ap (λ l. l ∷ splitlines rest []) (append_assoc current (c ∷ []) line))

module _ {B : Type 0} (out : Outside B) (round : B → B) (works : Works out round) where
  boxes_of-text_of :
      (bs : List B) → boxes_of out (splitlines (text_of out bs) []) ≡ returned (map round bs)
  unfolding text_of boxes_of
  boxes_of-text_of [] = unfold splitlines in refl
  boxes_of-text_of (b ∷ bs) =
      rw
        (
          splitlines_line (out.print_box b) (text_of out bs) [] (works.one_line b),
          works.not_blank b,
          works.parsed b,
          boxes_of-text_of bs,
        )
        refl

  written_there :
      (p q : LabelPath) (t : Text) (fs : Files)
      → is_file out p fs ≡ true
      → is_file out p (write out q t fs) ≡ true
  written_there p q t fs there = elim (Bool-cases (same_path (out.resolve q) (out.resolve p))) [
    | inl same ↦ rw same refl
    | inr other ↦ rw other there
  ]

  -- The files after a frame is saved, with the text of the new manifest.
  abbrev pub saved : LabelPath → Text → List B → LabelPath → Files → Files
  saved root manifest bs l fs =
      write out (manifest_path out root) manifest (write out l (text_of out bs) fs)

  saved_there :
      (root : LabelPath) (manifest : Text) (bs : List B) (l p : LabelPath) (fs : Files)
      → is_file out p fs ≡ true
      → is_file out p (saved root manifest bs l fs) ≡ true
  saved_there root manifest bs l p fs there =
      written_there p (manifest_path out root) manifest (write out l (text_of out bs) fs)
        (written_there p l (text_of out bs) fs there)

  -- The label file is not the manifest, which is therefore still the same.
  still_loaded :
      (root l : LabelPath) (bs : List B) (fs : Files)
      → out.resolve l ≡ l
      → same_path (out.resolve (manifest_path out root)) l ≡ false
      → load_reviewed out root (write out l (text_of out bs) fs) ≡ load_reviewed out root fs
  unfolding load_reviewed
  still_loaded root l bs fs resolved apart =
      let manifest = out.resolve (manifest_path out root) in
      elim (Bool-cases (same_path l manifest)) [
        | inl same ↦ absurd (clash (rw (same_path_eq l manifest same) (same_path_refl manifest)))
        | inr other ↦ rw (resolved, other) refl
      ]
    where
      clash : same_path (out.resolve (manifest_path out root)) l ≡ true → ⊥
      clash e = cc

  reviewed_then :
      (root : LabelPath) (frame_id manifest : Text) (ids : Ids) (fs : Files)
      → out.dumps (some frame_id ∷ ids) ≡ returned manifest
      → (ids' : Ids) × (load_reviewed out root (write out (manifest_path out root) manifest fs)
          ≡ returned ids')
        × (contains_text frame_id ids' ≡ true)
  unfolding load_reviewed
  reviewed_then root frame_id manifest ids fs dumped =
      let (ids', loaded, same) = works.restored (some frame_id ∷ ids) manifest dumped in
      (
        ids',
        rw (same_path_refl (out.resolve (manifest_path out root)), loaded) refl,
        rw (same frame_id) (unfold contains_text in rw (same_text_refl frame_id) refl),
      )

  boxes_then :
      (root l : LabelPath) (manifest : Text) (bs : List B) (fs : Files)
      → out.resolve l ≡ l
      → same_path (out.resolve (manifest_path out root)) l ≡ false
      → read_boxes out l (saved root manifest bs l fs) ≡ returned (map round bs)
  unfolding read_boxes
  boxes_then root l manifest bs fs resolved apart =
      rw (resolved, apart, same_path_refl l) (boxes_of-text_of bs)

  -- A frame whose id resolves can be saved, and is then read back: with the boxes that were saved,
  -- in their order, their numbers rounded as in the file, and marked as reviewed. This takes that the
  -- review manifest is not the label file itself, that it can be loaded, and that its entries
  -- together with the id can be dumped.
  pub saved_frame_read_back :
      (root : LabelPath) (frame_id : Text) (bs : List B) (fs : Files) (i l : LabelPath) (ids : Ids)
      (manifest : Text)
      → resolve_frame_paths out root frame_id fs ≡ some (i, l)
      → same_path (out.resolve (manifest_path out root)) l ≡ false
      → load_reviewed out root fs ≡ returned ids
      → out.dumps (some frame_id ∷ ids) ≡ returned manifest
      → (save_frame_boxes out root frame_id bs fs ≡ (
        returned (some (record { frame_id = frame_id; boxes = bs; reviewed = true })),
        saved root manifest bs l fs,
      ))
        × (get_frame_detail out root frame_id (saved root manifest bs l fs)
            ≡ returned
                (some (record { frame_id = frame_id; boxes = map round bs; reviewed = true })))
  unfolding save_frame_boxes get_frame_detail mark_reviewed
  saved_frame_read_back root frame_id bs fs i l ids manifest found apart loads dumps =
      let (passed, (p, path)) = resolve_frame_paths-IsResolved out root frame_id fs i l found in
      let resolved : out.resolve l ≡ l = rw (← path) (works.stable p) in
      let again : resolve_frame_paths out root frame_id (saved root manifest bs l fs)
          ≡ some (i, l) =
        resolve_again out root frame_id fs (saved root manifest bs l fs) i l found
          (saved_there root manifest bs l i fs passed.image_there)
          (saved_there root manifest bs l l fs passed.label_there) in
      let written = write out l (text_of out bs) fs in
      let still : load_reviewed out root written ≡ returned ids =
        still_loaded root l bs fs resolved apart ∙ loads in
      let (ids', loaded, inside) = reviewed_then root frame_id manifest ids written dumps in
      (
        rw (found, save_frame_boxes, still, mark_reviewed, dumps) refl,
        rw
            (
              again,
              get_frame_detail,
              boxes_then root l manifest bs fs resolved apart,
              loaded,
              inside,
            )
            refl,
      )

  listed :
      (root : LabelPath) (folder stem : Text) (fs : Files) (bs : List B) (ids : Ids)
      → load_reviewed out root fs ≡ returned ids
      → is_file out (label_of root folder stem) fs ≡ true
      → read_boxes out (label_of root folder stem) fs ≡ returned bs
      → list_label_frames out root ((folder, stem) ∷ []) fs
        ≡ returned (
            record {
              frame_id = frame_id_for folder stem;
              box_count = length bs;
              reviewed = contains_text (frame_id_for folder stem) ids;
            }
            ∷ [])
  unfolding list_label_frames summaries
  listed root folder stem fs bs ids loaded there boxes =
      rw (loaded, list_label_frames, there, boxes) refl

  again :
      (label : LabelPath) (fs : Files)
      → read_boxes out (out.resolve label) fs ≡ read_boxes out label fs
  unfolding read_boxes
  again label fs = rw (works.stable label) refl

  opened :
      (root : LabelPath) (frame_id : Text) (i label : LabelPath) (fs : Files) (bs : List B)
      (ids : Ids)
      → load_reviewed out root fs ≡ returned ids
      → resolve_frame_paths out root frame_id fs ≡ some (i, out.resolve label)
      → read_boxes out label fs ≡ returned bs
      → get_frame_detail out root frame_id fs
        ≡ returned (
            some
              (record { frame_id = frame_id; boxes = bs; reviewed = contains_text frame_id ids }))
  unfolding get_frame_detail
  opened root frame_id i label fs bs ids loaded resolved boxes =
      let same : read_boxes out (out.resolve label) fs ≡ returned bs = rw (again label fs) boxes in
      rw (resolved, get_frame_detail, same, loaded) refl

  -- What is listed can be opened. A frame whose folder has no `:` in its name, whose parts are safe and
  -- whose two files resolve to files of the dataset is listed with its id, if the manifest can be
  -- loaded; the detail of that id has as
  -- many boxes as listed, and the same review state.
  pub listed_frame_opens :
      (root : LabelPath) (folder stem : Text) (fs : Files) (bs : List B) (ids : Ids)
      → load_reviewed out root fs ≡ returned ids
      → contains sep folder ≡ false
      → (is_unsafe folder || is_unsafe stem) ≡ false
      → checked out
          (out.resolve root)
          (out.resolve (image_of root folder stem))
          (out.resolve (label_of root folder stem))
          fs
        ≡ some (out.resolve (image_of root folder stem), out.resolve (label_of root folder stem))
      → is_file out (label_of root folder stem) fs ≡ true
      → read_boxes out (label_of root folder stem) fs ≡ returned bs
      → let frame_id = frame_id_for folder stem in
        let reviewed = contains_text frame_id ids in
        (list_label_frames out root ((folder, stem) ∷ []) fs
          ≡ returned
              (record { frame_id = frame_id; box_count = length bs; reviewed = reviewed } ∷ []))
        × (get_frame_detail out root frame_id fs
            ≡ returned (some (record { frame_id = frame_id; boxes = bs; reviewed = reviewed })))
  listed_frame_opens root folder stem fs bs ids loaded clean safe inside there boxes =
      let label = label_of root folder stem in
      let resolved : resolve_frame_paths out root (frame_id_for folder stem) fs
          ≡ some (out.resolve (image_of root folder stem), out.resolve label) =
        (unfold resolve_frame_paths resolve_parts in
          rw (partition-frame_id_for folder stem clean, safe) inside) in
      (
        listed root folder stem fs bs ids loaded there boxes,
        opened root (frame_id_for folder stem) (out.resolve (image_of root folder stem)) label fs bs
            ids loaded resolved boxes,
      )

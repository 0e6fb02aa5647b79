-- ===== src/Service/Labels/Paths.antt =====
-- Which files an id of a frame can reach.
use data_pipeline_orchestrat.Base.{
  ◌≡◌, refl, Option, none, some, List, [], ◌∷◌, true, false, not, ◌||◌, ◌==◌, contains, Bool-cases,
  Option-cases, inl, inr, arith, Outcome, Outcome-cases, returned, raised, and_then, pure,
}
use data_pipeline_orchestrat.Voice.Messages.{Text}
use data_pipeline_orchestrat.Service.Labels.Resolve.{
  LabelPath, Outside, Files, same_text, same_path, is_below, sep, partition, frame_id_for,
  is_unsafe, image_of, label_of, is_file, checked, resolve_parts, resolve_frame_paths, write,
}
use data_pipeline_orchestrat.Service.Labels.{
  FrameDetail, save_frame_boxes, mark_reviewed, manifest_path, load_reviewed, text_of,
}

pub same_text_eq : (s t : Text) → same_text s t ≡ true → s ≡ t
unfolding same_text
same_text_eq [] [] h = refl
same_text_eq [] (d ∷ t) h = cc
same_text_eq (c ∷ s) [] h = cc
same_text_eq (c ∷ s) (d ∷ t) h = ground (arith, same_text_eq s t)

pub same_text_refl : (s : Text) → same_text s s ≡ true
unfolding same_text
same_text_refl [] = refl
same_text_refl (c ∷ s) = ground (arith, same_text_refl s)

pub same_path_eq : (p q : LabelPath) → same_path p q ≡ true → p ≡ q
unfolding same_path
same_path_eq [] [] h = refl
same_path_eq [] (q ∷ r) h = cc
same_path_eq (p ∷ s) [] h = cc
same_path_eq (p ∷ s) (q ∷ r) h = ground (arith, same_text_eq p q, same_path_eq s r)

pub same_path_refl : (p : LabelPath) → same_path p p ≡ true
unfolding same_path
same_path_refl [] = refl
same_path_refl (p ∷ s) = ground (arith, same_text_refl p, same_path_refl s)

-- An id is taken apart into the folder and the stem that it was made of.
pub partition-frame_id_for :
    (folder stem : Text)
    → contains sep folder ≡ false
    → partition (frame_id_for folder stem) ≡ some (folder, stem)
unfolding partition frame_id_for
partition-frame_id_for [] stem clean = refl
partition-frame_id_for (c ∷ folder) stem clean =
    let other : (c == sep) ≡ false = ground arith in
    rw (other, partition-frame_id_for folder stem (ground arith)) refl

not_none : {A : Type 0} {x : A} → none ≡ some x → ⊥
not_none h = cc

pair_0 : {A C : Type 0} (p q : A × C) → some p ≡ some q → p.0 ≡ q.0
pair_0 p q h = cc

pair_1 : {A C : Type 0} (p q : A × C) → some p ≡ some q → p.1 ≡ q.1
pair_1 p q h = cc

module _ {B : Type 0} (out : Outside B) where
  -- What a resolved id has passed.
  pub record IsResolved (root image label : LabelPath) (fs : Files) : Type 0 where
    pub image_below : is_below root image ≡ true
    pub label_below : is_below root label ≡ true
    pub image_there : is_file out image fs ≡ true
    pub label_there : is_file out label fs ≡ true

  checked-IsResolved :
      (root image label : LabelPath) (fs : Files) (i l : LabelPath)
      → checked out root image label fs ≡ some (i, l)
      → (image ≡ i) × (label ≡ l) × IsResolved root image label fs
  unfolding checked
  checked-IsResolved root image label fs i l found =
      elim (Bool-cases (not (is_below root image) || not (is_below root label))) [
        | inl outside ↦ absurd (not_none (rw outside at found))
        | inr inside ↦
            elim (Bool-cases (not (is_file out image fs) || not (is_file out label fs))) [
              | inl missing ↦ absurd (not_none (rw (inside, missing) at found))
              | inr there ↦
                  let same = rw (inside, there) at found in
                  (
                    pair_0 (image, label) (i, l) same,
                    pair_1 (image, label) (i, l) same,
                    record {
                      image_below = ground arith;
                      label_below = ground arith;
                      image_there = ground arith;
                      label_there = ground arith;
                    },
                  )
            ]
      ]

  pub resolve_frame_paths-IsResolved :
      (root : LabelPath) (frame_id : Text) (fs : Files) (i l : LabelPath)
      → resolve_frame_paths out root frame_id fs ≡ some (i, l)
      → IsResolved (out.resolve root) i l fs × ((p : LabelPath) × (out.resolve p ≡ l))
  unfolding resolve_frame_paths resolve_parts
  resolve_frame_paths-IsResolved root frame_id fs i l found = resolved (partition frame_id) found
    where
      resolved :
          (parts : Option (Text × Text))
          → resolve_parts out root parts fs ≡ some (i, l)
          → IsResolved (out.resolve root) i l fs × ((p : LabelPath) × (out.resolve p ≡ l))
      resolved none h = absurd (not_none h)
      resolved (some (folder, stem)) h = elim (Bool-cases (is_unsafe folder || is_unsafe stem)) [
        | inl unsafe ↦ absurd (not_none (rw unsafe at h))
        | inr safe ↦
            let (image, label, passed) =
              checked-IsResolved (out.resolve root) (out.resolve (image_of root folder stem))
                (out.resolve (label_of root folder stem)) fs i l (rw safe at h) in
            (rw (← image, ← label) passed, (label_of root folder stem, label))
      ]

  resolve_parts_again :
      (root : LabelPath) (parts : Option (Text × Text)) (fs fs' : Files) (i l : LabelPath)
      → resolve_parts out root parts fs ≡ some (i, l)
      → is_file out i fs' ≡ true
      → is_file out l fs' ≡ true
      → resolve_parts out root parts fs' ≡ some (i, l)
  unfolding resolve_parts checked
  resolve_parts_again root none fs fs' i l h image_there label_there = absurd (not_none h)
  resolve_parts_again root (some (folder, stem)) fs fs' i l h image_there label_there =
      elim (Bool-cases (is_unsafe folder || is_unsafe stem)) [
        | inl unsafe ↦ absurd (not_none (rw unsafe at h))
        | inr safe ↦
            let (image, label, passed) =
              checked-IsResolved (out.resolve root) (out.resolve (image_of root folder stem))
                (out.resolve (label_of root folder stem)) fs i l (rw safe at h) in
            let i_there : is_file out (out.resolve (image_of root folder stem)) fs' ≡ true =
              rw image image_there in
            let l_there : is_file out (out.resolve (label_of root folder stem)) fs' ≡ true =
              rw label label_there in
            rw (safe, passed.image_below, passed.label_below, i_there, l_there, image, label) refl
      ]

  -- The paths of an id stay the same while the two files exist.
  pub resolve_again :
      (root : LabelPath) (frame_id : Text) (fs fs' : Files) (i l : LabelPath)
      → resolve_frame_paths out root frame_id fs ≡ some (i, l)
      → is_file out i fs' ≡ true
      → is_file out l fs' ≡ true
      → resolve_frame_paths out root frame_id fs' ≡ some (i, l)
  unfolding resolve_frame_paths
  resolve_again root frame_id = resolve_parts_again root (partition frame_id)

  is_below_differs :
      (root p q : LabelPath)
      → is_below root p ≡ true
      → is_below root q ≡ false
      → same_path p q ≡ false
  is_below_differs root p q below outside = elim (Bool-cases (same_path p q)) [
    | inl same ↦ absurd (clash (same_path_eq p q same))
    | inr other ↦ other
  ]
    where
      clash : p ≡ q → ⊥
      clash e = cc

  -- Marking a frame changes the manifest only, if anything.
  mark_reviewed-elsewhere :
      (root : LabelPath) (frame_id : Text) (fs : Files) (q : LabelPath)
      → same_path (out.resolve (manifest_path out root)) q ≡ false
      → (mark_reviewed out root frame_id fs).1 q ≡ fs q
  unfolding mark_reviewed
  mark_reviewed-elsewhere root frame_id fs q other =
      elim (Outcome-cases (load_reviewed out root fs)) [
        | inl (e, failed) ↦ rw (failed, mark_reviewed) refl
        | inr (ids, loaded) ↦ elim (Outcome-cases (out.dumps (some frame_id ∷ ids))) [
          | inl (e, failed) ↦ rw (loaded, mark_reviewed, failed) refl
          | inr (t, dumped) ↦ rw (loaded, mark_reviewed, dumped, other) refl
        ]
      ]

  and_then-world :
      {A C : Type 0} (r : Outcome A × Files) (c : C) → (and_then r (λ _. pure c)).1 ≡ r.1
  and_then-world (returned a, w) c = refl
  and_then-world (raised e, w) c = refl

  -- Whatever id is sent, and whatever links there are, `save_frame_boxes` changes no file outside the
  -- resolved directory of the dataset, other than the review manifest. This takes that resolving a
  -- path twice changes nothing.
  pub save_confined :
      (root : LabelPath) (frame_id : Text) (bs : List B) (fs : Files) (q : LabelPath)
      → ((p : LabelPath) → out.resolve (out.resolve p) ≡ out.resolve p)
      → is_below (out.resolve root) q ≡ false
      → same_path (out.resolve (manifest_path out root)) q ≡ false
      → (save_frame_boxes out root frame_id bs fs).1 q ≡ fs q
  unfolding save_frame_boxes mark_reviewed
  save_confined root frame_id bs fs q stable outside other =
      elim (Option-cases (resolve_frame_paths out root frame_id fs)) [
        | inl refused ↦ rw (refused, save_frame_boxes) refl
        | inr ((i, l), found) ↦
            let (passed, (p, path)) = resolve_frame_paths-IsResolved root frame_id fs i l found in
            let at_label : out.resolve l ≡ l = rw (← path) (stable p) in
            let elsewhere = is_below_differs (out.resolve root) l q passed.label_below outside in
            let written = write out l (text_of out bs) fs in
            rw
              (
                found,
                save_frame_boxes,
                and_then-world {C = Option (FrameDetail B)}
                    (mark_reviewed out root frame_id written)
                    (some (record { frame_id = frame_id; boxes = bs; reviewed = true })),
                mark_reviewed-elsewhere root frame_id written q other,
                at_label,
                elsewhere,
              )
              refl
      ]

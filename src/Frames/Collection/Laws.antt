-- ===== src/Frames/Collection/Laws.antt =====
-- When the selection starts.
use data_pipeline_orchestrat.Base.{
  ◌≡◌, refl, ap, ◌∙◌, ℕ, suc, ◌+◌, ◌<◌, String, str_eq, eq_iff, Option, none, some, List, [], ◌∷◌,
  ◌++◌, Bool, true, false, not, length, length-append, if◌then◌else◌, arith, Outcome, returned,
  ◌==◌, lookup, assign, has_key, filter,
}
use mathlib.Core.List.{append-nil, append_assoc}
use data_pipeline_orchestrat.Frames.Learning.{Frame, Floats, Settings, chosen, active_select}
use data_pipeline_orchestrat.Frames.Collection.{
  Held, Collected, empty, range, put_frame, kept, all_frames, is_complete, register, add_frame,
  select_all, process, select_if_ready,
}

str_eq_refl : (s : String) → str_eq s s ≡ true
str_eq_refl s = (eq_iff s s).1 refl

module _ {F E : Type 0} where
  -- No frame with this id is held.
  unfoldable pub fresh : ℕ → Held F E → Bool
  fresh i [] = true
  fresh i ((j, g) ∷ held) = if j == i then false else fresh i held

  put_frame-fresh :
      (i : ℕ) (f : Frame F E) (held : Held F E)
      → fresh i held ≡ true
      → put_frame i f held ≡ held ++ (i, f) ∷ []
  unfolding put_frame fresh
  put_frame-fresh i f [] new = refl
  put_frame-fresh i f ((j, g) ∷ held) new = ground (arith, put_frame-fresh i f held)

  -- One folder, of which `n` frames are expected.
  abbrev pub folder : String → ℕ → Held F E → List ℕ → Collected F E
  folder src n held left = record {
    cache = (src, held) ∷ [];
    expected = (src, n) ∷ [];
    remaining = (src, left) ∷ [];
  }

  registered :
      (f : Frame F E) (src : String) (n : ℕ) (held : Held F E) (left : List ℕ)
      → src ≡ f.src_dir
      → register f (folder src n held left) ≡ folder src n held left
  unfolding register lookup has_key
  registered f src n held left here =
      let same : str_eq src f.src_dir ≡ true = (eq_iff src f.src_dir).1 here in rw same refl

  added_to :
      (f : Frame F E) (src : String) (n : ℕ) (held : Held F E) (left : List ℕ)
      → src ≡ f.src_dir
      → fresh f.frame_id held ≡ true
      → add_frame f (folder src n held left)
        ≡ folder src n (held ++ (f.frame_id, f) ∷ []) (filter (λ i. not (i == f.frame_id)) left)
  unfolding add_frame lookup assign
  added_to f src n held left here new =
      let same : str_eq src f.src_dir ≡ true = (eq_iff src f.src_dir).1 here in
      rw same (rw (put_frame-fresh f.frame_id f held new) refl)

  added :
      (f : Frame F E) (src : String) (n : ℕ) (held : Held F E) (left : List ℕ)
      → src ≡ f.src_dir
      → fresh f.frame_id held ≡ true
      → add_frame f (register f (folder src n held left))
        ≡ folder src n (held ++ (f.frame_id, f) ∷ []) (filter (λ i. not (i == f.frame_id)) left)
  added f src n held left here new =
      ap (add_frame f) (registered f src n held left here) ∙ added_to f src n held left here new

  added_first :
      (f : Frame F E)
      → add_frame f (register f empty)
        ≡ folder f.src_dir f.frame_id_last
            ((f.frame_id, f) ∷ [])
            (filter (λ i. not (i == f.frame_id)) (range 0 f.frame_id_last))
  unfolding add_frame register lookup assign has_key empty put_frame
  added_first f = rw (str_eq_refl f.src_dir) refl

  -- Frames of one folder with ids of their own, beside those that are held.
  unfoldable pub AreNew : String → Held F E → List (Frame F E) → Type 0
  AreNew src held [] = Unit
  AreNew src held (f ∷ fs) =
      (src ≡ f.src_dir)
      × ((fresh f.frame_id held ≡ true) × AreNew src (held ++ (f.frame_id, f) ∷ []) fs)

  abbrev pub by_id : List (Frame F E) → Held F E
  by_id [] = []
  by_id (f ∷ fs) = (f.frame_id, f) ∷ by_id fs

module _ {F E : Type 0} (ops : Floats F E) (cfg : Settings F) where
  -- The results of `process` on each frame, and what is collected then.
  pub run :
      List (Frame F E) → Collected F E → List (Outcome (Option (List (Frame F E)))) × Collected F E
  run [] s = ([], s)
  run (f ∷ fs) s = let (r, s1) = process ops cfg f s in let (rs, s2) = run fs s1 in (r ∷ rs, s2)

  -- Nothing but waiting.
  abbrev pub waits : List (Frame F E) → List (Outcome (Option (List (Frame F E))))
  waits [] = []
  waits (f ∷ fs) = returned none ∷ waits fs

  complete_lem :
      (src : String) (n : ℕ) (held : Held F E)
      → is_complete ((src, n) ∷ []) (src, held) ≡ (length held == n)
  unfolding is_complete lookup
  complete_lem src n held = rw (str_eq_refl src) refl

  select_if_ready_waits :
      (src : String) (n : ℕ) (held : Held F E) (left : List ℕ)
      → length held < n
      → select_if_ready ops cfg (folder src n held left) ≡ (returned none, folder src n held left)
  unfolding select_if_ready
  select_if_ready_waits src n held left more =
      let short : (length held == n) ≡ false = ground arith in
      rw (complete_lem src n held, short) refl

  select_if_ready_selects :
      (src : String) (n : ℕ) (held : Held F E) (left : List ℕ)
      → length held ≡ n
      → select_if_ready ops cfg (folder src n held left)
        ≡ select_all ops cfg (folder src n held left)
  unfolding select_if_ready
  select_if_ready_selects src n held left full =
      let complete : (length held == n) ≡ true = ground arith in
      rw (complete_lem src n held, complete) refl

  process_waits :
      (f : Frame F E) (src : String) (n : ℕ) (held : Held F E) (left : List ℕ)
      → src ≡ f.src_dir
      → fresh f.frame_id held ≡ true
      → length held + 1 < n
      → process ops cfg f (folder src n held left) ≡ (
        returned none,
        folder src n (held ++ (f.frame_id, f) ∷ []) (filter (λ i. not (i == f.frame_id)) left),
      )
  unfolding process
  process_waits f src n held left here new more =
      ap (select_if_ready ops cfg) (added f src n held left here new)
      ∙ select_if_ready_waits src n (held ++ (f.frame_id, f) ∷ [])
          (filter (λ i. not (i == f.frame_id)) left)
          (omega (arith, length-append held ((f.frame_id, f) ∷ [])))

  -- While frames are missing, every call waits; what is collected then.
  run-waits :
      (fs : List (Frame F E)) (src : String) (n : ℕ) (held : Held F E) (left : List ℕ)
      → AreNew src held fs
      → length held + length fs < n
      → (left' : List ℕ) × (run fs (folder src n held left)
          ≡ (waits fs, folder src n (held ++ by_id fs) left'))
  unfolding run AreNew
  run-waits [] src n held left new more = (left, rw (append-nil held) refl)
  run-waits (f ∷ fs) src n held left new more =
      let held' = held ++ (f.frame_id, f) ∷ [] in
      let left1 = filter (λ i. not (i == f.frame_id)) left in
      let (left', others) =
        run-waits fs src n held' left1 new.1.1
          (omega (arith, length-append held ((f.frame_id, f) ∷ []))) in
      (
        left',
        rw
            (
              process_waits f src n held left new.0 new.1.0 (omega arith),
              others,
              append_assoc held ((f.frame_id, f) ∷ []) (by_id fs),
            )
            refl,
      )

  first_waits :
      (f : Frame F E)
      → 1 < f.frame_id_last
      → process ops cfg f empty ≡ (
        returned none,
        folder f.src_dir f.frame_id_last
            ((f.frame_id, f) ∷ [])
            (filter (λ i. not (i == f.frame_id)) (range 0 f.frame_id_last)),
      )
  unfolding process
  first_waits f more =
      ap (select_if_ready ops cfg) (added_first f)
      ∙ select_if_ready_waits f.src_dir f.frame_id_last ((f.frame_id, f) ∷ [])
          (filter (λ i. not (i == f.frame_id)) (range 0 f.frame_id_last)) more

  length-by_id : (fs : List (Frame F E)) → length (by_id fs) ≡ length fs
  length-by_id [] = refl
  length-by_id (f ∷ fs) = ap suc (length-by_id fs)

  folder_selected :
      (src : String) (n : ℕ) (held : Held F E) (left is : List ℕ)
      → active_select ops cfg (kept held) ≡ returned is
      → select_all ops cfg (folder src n held left)
        ≡ (returned (some (chosen (kept held) is)), empty)
  unfolding select_all all_frames
  folder_selected src n held left is selected =
      rw (append-nil (kept held), selected, append-nil (kept held)) refl

  last_selects :
      (f : Frame F E) (src : String) (n : ℕ) (held : Held F E) (left is : List ℕ)
      → src ≡ f.src_dir
      → fresh f.frame_id held ≡ true
      → length held + 1 ≡ n
      → active_select ops cfg (kept (held ++ (f.frame_id, f) ∷ [])) ≡ returned is
      → process ops cfg f (folder src n held left)
        ≡ (returned (some (chosen (kept (held ++ (f.frame_id, f) ∷ [])) is)), empty)
  unfolding process
  last_selects f src n held left is here new full selected =
      let held' = held ++ (f.frame_id, f) ∷ [] in
      let left' = filter (λ i. not (i == f.frame_id)) left in
      ap (select_if_ready ops cfg) (added f src n held left here new)
      ∙ select_if_ready_selects src n held' left'
          (omega (arith, length-append held ((f.frame_id, f) ∷ [])))
      ∙ folder_selected src n held' left' is selected

  -- A folder whose frames come first is selected from as soon as it has as many as its first frame
  -- announces, whichever folders are still to come. Let it be two or more, with ids of their own, in
  -- any order: every call before the last frame waits, and the call for the last one returns what is
  -- selected among those that are not dropped, in the order of their ids. Nothing is collected then.
  pub first_folder_selected :
      (first : Frame F E) (front : List (Frame F E)) (last : Frame F E) (is : List ℕ)
      → AreNew first.src_dir ((first.frame_id, first) ∷ []) front
      → first.src_dir ≡ last.src_dir
      → fresh last.frame_id (by_id (first ∷ front)) ≡ true
      → length front + 2 ≡ first.frame_id_last
      → active_select ops cfg (kept (by_id (first ∷ front) ++ (last.frame_id, last) ∷ []))
        ≡ returned is
      → (s : Collected F E) × (run (first ∷ front) empty ≡ (waits (first ∷ front), s))
        × (process ops cfg last s ≡ (
          returned (some (chosen (kept (by_id (first ∷ front) ++ (last.frame_id, last) ∷ [])) is)),
          empty,
        ))
  unfolding run
  first_folder_selected first front last is new here own count selected =
      let n = first.frame_id_last in
      let src = first.src_dir in
      let left = filter (λ i. not (i == first.frame_id)) (range 0 n) in
      let start : process ops cfg first empty
          ≡ (returned none, folder src n ((first.frame_id, first) ∷ []) left) =
        first_waits first (omega arith) in
      let (left', others) =
        run-waits front src n ((first.frame_id, first) ∷ []) left new (omega arith) in
      (
        folder src n (by_id (first ∷ front)) left',
        rw (start, others) refl,
        last_selects last src n (by_id (first ∷ front)) left' is here own
            (omega (arith, length-by_id front)) selected,
      )

-- ===== src/Detect/Sahi/Laws.antt =====
-- The slices that a detector makes, and its calls of the backend.
use data_pipeline_orchestrat.Base.{
  ◌≡◌, refl, sym, ap, ◌⊎◌, ◌∙◌, ℕ, zero, suc, ◌≤◌, ◌<◌, some, List, [], ◌∷◌, ◌++◌, map, true, false,
  any, All, ltb, leb, ◌==◌, length, length-drop, take, drop, take-append-drop, Bool-cases, inl, inr,
  arith, ℤ, pos, negsuc, returned, raised, other, Exception, sub_ℕ,
}
use mathlib.Core.List.{map-append}
use data_pipeline_orchestrat.Detect.Slices.{
  Size, Slice, shows, calculate_slices_coordinates, axis, n_steps, positions, both_axes,
}
use data_pipeline_orchestrat.Detect.Slices.Laws.{Fits, calculate_slices-cover}
use data_pipeline_orchestrat.Detect.Sahi.{
  SahiDetector, new_sahi, Images, LetterboxParam, crops_of, make_slices, whole, is_small, entries,
  enter_all, pre_transform, chunked, predict,
}

module _ {I P : Type 0} (backend : List I → List P) (f : I → P)
    (by_image : (is : List I) → backend is ≡ map f is) where
  chunked-map :
      (fuel size : ℕ) (is : List I)
      → length is ≤ fuel
      → chunked backend fuel (suc size) is ≡ some (map f is)
  unfolding chunked
  chunked-map fuel size [] enough = refl
  chunked-map zero size (i ∷ is) enough = absurd (omega arith)
  chunked-map (suc fuel) size (i ∷ is) enough =
      rw
        (
          chunked-map fuel size (drop size is) (omega (arith, length-drop size is)),
          by_image (i ∷ take size is),
        )
        (ap (λ r. some (f i ∷ r))
          (sym (map-append f (take size is) (drop size is))
            ∙ ap (map f) (take-append-drop size is)))

  -- With a backend that treats each image by itself, the batch size makes no difference: for -1 and
  -- for every positive size the predictions are those of the images, in order.
  pub predict-map :
      (batch : ℤ) (is : List I)
      → (batch ≡ negsuc 0) ⊎ ((n : ℕ) × (batch ≡ pos (suc n)))
      → predict backend batch is ≡ returned (some (map f is))
  unfolding predict
  predict-map batch is (inl all) = rw all (ap (λ r. returned (some r)) (by_image is))
  predict-map batch is (inr (n, size)) = rw size (elim (Bool-cases (ltb (length is) (suc n))) [
    | inl few ↦ rw few (ap (λ r. returned (some r)) (by_image is))
    | inr many ↦
        let positive : (suc n == 0) ≡ false = ground arith in
        rw (many, positive) (ap (λ r. returned r) (chunked-map (length is) n is (omega arith)))
  ])

-- How far two crops overlap, for the crop size that is asked for.
module _ (imgsz : Size) (tall : 0 < imgsz.height) (wide : 0 < imgsz.width) (batch : ℤ) where
  pub new_sahi_crop : (h w : ℤ) → (new_sahi imgsz imgsz h w batch).crop_size ≡ imgsz
  unfolding new_sahi
  new_sahi_crop h w = ground arith

  pub new_sahi_height :
      (h w : ℤ) → (new_sahi imgsz imgsz h w batch).crop_overlap.height < imgsz.height
  unfolding new_sahi
  new_sahi_height (pos h) (pos w) = ground arith
  new_sahi_height (pos h) (negsuc w) = ground arith
  new_sahi_height (negsuc h) (pos w) = ground arith
  new_sahi_height (negsuc h) (negsuc w) = ground arith

  pub new_sahi_width : (h w : ℤ) → (new_sahi imgsz imgsz h w batch).crop_overlap.width < imgsz.width
  unfolding new_sahi
  new_sahi_width (pos h) (pos w) = ground arith
  new_sahi_width (pos h) (negsuc w) = ground arith
  new_sahi_width (negsuc h) (pos w) = ground arith
  new_sahi_width (negsuc h) (negsuc w) = ground arith

-- A detector whose crops overlap by all their rows.
abbrev mismatched : Size → ℕ → ℤ → SahiDetector
mismatched crop_size overlap_w batch = record {
  batch = batch;
  crop_size = crop_size;
  crop_overlap = record { height = crop_size.height; width = overlap_w };
}

new_sahi_mismatch :
    (imgsz crop_size : Size) (overlap_w : ℕ) (batch : ℤ)
    → imgsz.height < crop_size.height
    → overlap_w < crop_size.width
    → new_sahi imgsz crop_size (pos imgsz.height) (pos overlap_w) batch
      ≡ mismatched imgsz overlap_w batch
unfolding new_sahi
new_sahi_mismatch imgsz crop_size overlap_w batch smaller narrower = ground arith

axis_raises : (img crop : ℕ) → crop < img → axis img crop crop ≡ raised (other "ZeroDivisionError")
unfolding axis n_steps positions
axis_raises img crop larger =
    let none_left : sub_ℕ crop crop ≡ pos 0 = ground arith in
    let longer : leb img crop ≡ false = ground arith in rw (none_left, longer) refl

slices_raise :
    (img crop : Size) (overlap_w : ℕ)
    → crop.height < img.height
    → calculate_slices_coordinates img crop (record { height = crop.height; width = overlap_w })
      ≡ raised (other "ZeroDivisionError")
unfolding calculate_slices_coordinates both_axes
slices_raise img crop overlap_w larger = rw (axis_raises img.height crop.height larger) refl

module _ {I F : Type 0} (im : Images I F) where
  -- The entries of an image are the whole of it and, if it is larger than a crop, slices that show
  -- every pixel and fit.
  abbrev pub Entered : SahiDetector → I → ℕ → List (I × LetterboxParam F) → Type 0
  Entered d i im_id es =
      ((is_small im i d ≡ true) × (es ≡ whole im i d im_id ∷ []))
      ⊎ ((is_small im i d ≡ false)
          × (ss : List Slice) × (es ≡ whole im i d im_id ∷ crops_of im i im_id ss)
          × ((r c : ℕ)
              → r < (im.shape i).height
              → c < (im.shape i).width
              → any (shows r c) ss ≡ true)
          × All (Fits (im.shape i) d.crop_size) ss)

  pub entries-Entered :
      (d : SahiDetector) (i : I) (im_id : ℕ)
      → d.crop_overlap.height < d.crop_size.height
      → d.crop_overlap.width < d.crop_size.width
      → (es : List (I × LetterboxParam F)) × (entries im i d im_id ≡ returned es)
        × Entered d i im_id es
  unfolding entries make_slices
  entries-Entered d i im_id tall wide = elim (Bool-cases (is_small im i d)) [
    | inl small ↦ (whole im i d im_id ∷ [], rw small refl, inl (small, refl))
    | inr large ↦
        let (ss, computed, covers, fit) =
          calculate_slices-cover (im.shape i) d.crop_size d.crop_overlap tall wide in
        (
          whole im i d im_id ∷ crops_of im i im_id ss,
          rw (large, computed, entries, make_slices) refl,
          inr (large, ss, refl, covers, fit),
        )
  ]

  -- So for every image in turn, with its number.
  unfoldable pub AllEntered : SahiDetector → List I → ℕ → List (I × LetterboxParam F) → Type 0
  AllEntered d [] im_id es = es ≡ []
  AllEntered d (i ∷ is) im_id es =
      (here : List (I × LetterboxParam F)) × (rest : List (I × LetterboxParam F)) × (es
        ≡ here ++ rest)
      × Entered d (im.to_rgb i) im_id here
      × AllEntered d is (suc im_id) rest

  pub enter_all-AllEntered :
      (d : SahiDetector)
      → d.crop_overlap.height < d.crop_size.height
      → d.crop_overlap.width < d.crop_size.width
      → (is : List I) (im_id : ℕ)
      → (es : List (I × LetterboxParam F)) × (enter_all im is d im_id ≡ returned es)
        × AllEntered d is im_id es
  unfolding enter_all AllEntered
  enter_all-AllEntered d tall wide [] im_id = ([], refl, refl)
  enter_all-AllEntered d tall wide (i ∷ is) im_id =
      let (here, first, entered) = entries-Entered d (im.to_rgb i) im_id tall wide in
      let (rest, others, all) = enter_all-AllEntered d tall wide is (suc im_id) in
      (here ++ rest, rw (first, others, enter_all) refl, (here, rest, refl, entered, all))

  entries_raise :
      (i : I) (im_id : ℕ) (crop_size : Size) (overlap_w : ℕ) (batch : ℤ)
      → crop_size.height < (im.shape (im.to_rgb i)).height
      → entries im (im.to_rgb i) (mismatched crop_size overlap_w batch) im_id
        ≡ raised (other "ZeroDivisionError")
  unfolding entries make_slices
  entries_raise i im_id crop_size overlap_w batch taller =
      let large : is_small im (im.to_rgb i) (mismatched crop_size overlap_w batch) ≡ false =
        ground arith in
      rw
        (
          large,
          slices_raise (im.shape (im.to_rgb i)) crop_size overlap_w taller,
          entries,
          make_slices,
        )
        refl

  enter_all_raises :
      (d : SahiDetector) (i : I) (is : List I) (im_id : ℕ) (e : Exception)
      → entries im (im.to_rgb i) d im_id ≡ raised e
      → enter_all im (i ∷ is) d im_id ≡ raised e
  unfolding enter_all
  enter_all_raises d i is im_id e first = rw (first, enter_all) refl

  pre_transform_raises :
      (d : SahiDetector) (is : List I) (e : Exception)
      → enter_all im is d 0 ≡ raised e
      → pre_transform im is d ≡ raised e
  unfolding pre_transform
  pre_transform_raises d is e first = rw (first, pre_transform) refl

  -- The overlap is compared with the crop size that is asked for, and not with the one that is used.
  -- Where the model wants smaller pictures than asked for, and as many rows as the crops are to
  -- overlap, a picture with more rows makes `pre_transform` fail with a division by zero.
  pub mismatch_raises :
      (imgsz crop_size : Size) (overlap_w : ℕ) (batch : ℤ) (i : I) (is : List I)
      → imgsz.height < crop_size.height
      → overlap_w < crop_size.width
      → imgsz.height < (im.shape (im.to_rgb i)).height
      → pre_transform im
          (i ∷ is)
          (new_sahi imgsz crop_size (pos imgsz.height) (pos overlap_w) batch)
        ≡ raised (other "ZeroDivisionError")
  mismatch_raises imgsz crop_size overlap_w batch i is smaller narrower taller =
      rw (new_sahi_mismatch imgsz crop_size overlap_w batch smaller narrower) (
        pre_transform_raises (mismatched imgsz overlap_w batch) (i ∷ is) (other "ZeroDivisionError")
          (enter_all_raises (mismatched imgsz overlap_w batch) i is 0 (other "ZeroDivisionError")
            (entries_raise i 0 imgsz overlap_w batch taller)))

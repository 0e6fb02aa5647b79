-- ===== src/Detect/Sahi.antt =====
-- `SAHIDetector` of neudc/nn/models/det/sahi.py, over the slices and the suppression. The images, how
-- they are converted, letterboxed and normalised, and the backend are parameters.
pub mod Laws
pub mod Stacked
pub mod Buffers
pub mod Crowded
pub mod Examples
use data_pipeline_orchestrat.Base.{
  value_error, all, ℕ, zero, suc, ◌+◌, ◌-◌, Option, none, some, List, [], ◌∷◌, ◌++◌, map, Bool,
  ◌&&◌, ◌||◌, not, ◌==◌, ltb, leb, length, take, drop, if◌then◌else◌, ℤ, pos, negsuc, leb_ℤ,
  magnitude, Outcome, returned, raised, other, value_error,
}
use data_pipeline_orchestrat.Detect.Slices.{Size, Slice, calculate_slices_coordinates}
use data_pipeline_orchestrat.Detect.Nms.{
  Float32, Box, Det, Predictions, apply_nms, postprocess_yolo_outputs,
}

pub record SahiDetector : Type 0 where
  pub batch : ℤ
  pub crop_size : Size
  pub crop_overlap : Size

abbrev pub no_overlap : Size
no_overlap = record { height = 0; width = 0 }

-- `__init__`, for the image size of the wrapped detector.
unfoldable pub new_sahi : (imgsz crop_size : Size) (overlap_h overlap_w batch : ℤ) → SahiDetector
new_sahi imgsz crop_size overlap_h overlap_w batch = record {
  batch = batch;
  crop_size =
      if not (imgsz.height == crop_size.height) || not (imgsz.width == crop_size.width)
      then imgsz
      else crop_size;
  crop_overlap =
      if leb_ℤ (pos crop_size.height) overlap_h || leb_ℤ (pos crop_size.width) overlap_w
      then no_overlap
      else if not (leb_ℤ (pos 0) overlap_h) || not (leb_ℤ (pos 0) overlap_w)
      then no_overlap
      else record { height = magnitude overlap_h; width = magnitude overlap_w };
}

-- A row of letterbox parameters.
pub record LetterboxParam (F : Type 0) : Type 0 where
  pub ry : F
  pub rx : F
  pub py : F
  pub px : F
  pub image_id : ℕ
  pub oy : ℤ
  pub ox : ℤ

-- What the code calls on images.
pub record Images (I F : Type 0) : Type 0 where
  pub shape : I → Size
  -- im[y1:y2, x1:x2, :]
  pub crop : I → Slice → I
  -- cvtColor, and letterbox to the crop size, with ratio, dh and dw
  pub to_rgb : I → I
  pub letterbox : Size → I → I × F × F × F × F
  -- BHWC to BCHW, and 0 to 255 as 0 to 1
  pub normalise : I → I
  pub one_F : F
  pub zero_F : F

abbrev pub same_size : Size → Size → Bool
same_size a b = a.height == b.height && a.width == b.width

module _ {I F : Type 0} (im : Images I F) where
  -- `make_slices`, once the coordinates are computed.
  unfoldable pub crops_of : I → ℕ → List Slice → List (I × LetterboxParam F)
  crops_of i im_id [] = []
  crops_of i im_id (s ∷ ss) =
      (
        im.crop i s,
        record {
          ry = im.one_F;
          rx = im.one_F;
          py = im.zero_F;
          px = im.zero_F;
          image_id = im_id;
          oy = s.y1;
          ox = s.x1;
        },
      )
      ∷ crops_of i im_id ss

  unfoldable pub make_slices : I → SahiDetector → ℕ → Outcome (List (I × LetterboxParam F))
  unfolding crops_of
  make_slices i d im_id =
      elim (calculate_slices_coordinates (im.shape i) d.crop_size d.crop_overlap) [
        | returned ss ↦ returned (crops_of i im_id ss)
        | raised e ↦ raised e
      ]

  -- The first entry for an image: the whole of it.
  unfoldable pub whole : I → SahiDetector → ℕ → I × LetterboxParam F
  whole i d im_id =
      let (boxed, ry, rx, dh, dw) = im.letterbox d.crop_size i in
      (
        boxed,
        record { ry = ry; rx = rx; py = dh; px = dw; image_id = im_id; oy = pos 0; ox = pos 0 },
      )

  -- The test for an image that is no larger than a crop.
  abbrev pub is_small : I → SahiDetector → Bool
  is_small i d =
      leb (im.shape i).height d.crop_size.height && leb (im.shape i).width d.crop_size.width

  -- One round of the loop of `pre_transform`.
  unfoldable pub entries : I → SahiDetector → ℕ → Outcome (List (I × LetterboxParam F))
  unfolding whole make_slices
  entries i d im_id =
      let sliced = make_slices i d im_id in
      if is_small i d
      then returned (whole i d im_id ∷ [])
      else elim sliced [ returned cs ↦ returned (whole i d im_id ∷ cs) | raised e ↦ raised e ]

  -- The loop of `pre_transform`.
  unfoldable pub enter_all : List I → SahiDetector → ℕ → Outcome (List (I × LetterboxParam F))
  unfolding entries
  enter_all [] d im_id = returned []
  enter_all (i ∷ is) d im_id = elim (entries (im.to_rgb i) d im_id) [
    | raised e ↦ raised e
    | returned es ↦ elim (enter_all is d (suc im_id)) [
      | raised e ↦ raised e
      | returned rest ↦ returned (es ++ rest)
    ]
  ]

  -- np.stack: at least one image, and all of one shape.
  unfoldable pub stack : List (I × LetterboxParam F) → Outcome (List (I × LetterboxParam F))
  stack [] = raised value_error
  stack (e ∷ es) =
      if all (λ (x : I × LetterboxParam F). same_size (im.shape x.0) (im.shape e.0)) es
      then returned (e ∷ es)
      else raised value_error

  -- `_pre_transform_normalize` of YOLOv8 on the images, beside their parameters.
  unfoldable pub normalised :
      Outcome (List (I × LetterboxParam F)) → Outcome (List (I × LetterboxParam F))
  normalised (raised e) = raised e
  normalised (returned es) =
      returned (map (λ (x : I × LetterboxParam F). (im.normalise x.0, x.1)) es)

  unfoldable pub pre_transform : List I → SahiDetector → Outcome (List (I × LetterboxParam F))
  unfolding enter_all stack normalised
  pre_transform is d = elim (enter_all is d 0) [
    | raised e ↦ raised e
    | returned es ↦ normalised (stack es)
  ]

-- One more chunk in front of the others.
abbrev pub prepend : {P : Type 0} → List P → Option (List P) → Option (List P)
prepend xs none = none
prepend xs (some rest) = some (xs ++ rest)

module _ {I P : Type 0} (backend : List I → List P) where
  -- The chunks of a positive size, one call of the backend for each, concatenated.
  unfoldable pub chunked : (fuel size : ℕ) → List I → Option (List P)
  chunked fuel size [] = some []
  chunked zero size (i ∷ is) = none
  chunked (suc fuel) size (i ∷ is) =
      prepend (backend (take size (i ∷ is))) (chunked fuel size (drop size (i ∷ is)))

  -- The predictions of `__call__`. A step of 0 is no `range`, and np.concatenate wants a chunk.
  unfoldable pub predict : ℤ → List I → Outcome (Option (List P))
  unfolding chunked
  predict (negsuc zero) ims = returned (some (backend ims))
  predict (negsuc (suc n)) ims = raised value_error
  predict (pos n) ims =
      if ltb (length ims) n
      then returned (some (backend ims))
      else if n == 0
      then raised value_error
      else returned (chunked (length ims) n ims)

-- The next statement, unless this one raised.
abbrev pub next : {A B : Type 0} → Outcome A → (A → Outcome B) → Outcome B
next (returned a) f = f a
next (raised e) f = raised e

-- `output[i]` up to the rows that are filled, and `counts[i]`.
pub record Buffer (F : Type 0) : Type 0 where
  pub rows : List (Det F)
  pub count : ℕ

module _ {F : Type 0} (max_det : ℕ) where
  -- output[i][counts[i] : counts[i] + len(dets)] = dets. The buffer has `max_det` rows, and numpy
  -- assigns what has as many rows as there is room for; a single row also to no room, which does nothing.
  unfoldable pub store : List (Det F) → Buffer F → Outcome (Buffer F)
  store dets b =
      if leb (b.count + length dets) max_det
      then returned (record { rows = b.rows ++ dets; count = b.count + length dets })
      else if length dets == 1
      then returned (record b { count = b.count + length dets })
      else if length dets == 0
      then returned b
      else raised value_error

  unfoldable pub store_at : ℕ → List (Det F) → List (Buffer F) → Outcome (List (Buffer F))
  unfolding store
  store_at i dets [] = raised (other "IndexError")
  store_at zero dets (b ∷ bs) = elim (store dets b) [
    | returned b' ↦ returned (b' ∷ bs)
    | raised e ↦ raised e
  ]
  store_at (suc i) dets (b ∷ bs) = elim (store_at i dets bs) [
    | returned bs' ↦ returned (b ∷ bs')
    | raised e ↦ raised e
  ]

  -- The first loop of `_post_transform`, over the image and the shifted detections of each crop.
  unfoldable pub store_all : List (ℕ × List (Det F)) → List (Buffer F) → Outcome (List (Buffer F))
  unfolding store_at
  store_all [] bs = returned bs
  store_all ((i, dets) ∷ rest) bs = next (store_at i dets bs) (store_all rest)

-- output and counts at the beginning, for `n` images.
unfoldable pub new_buffers : {F : Type 0} → ℕ → List (Buffer F)
new_buffers zero = []
new_buffers (suc n) = record { rows = []; count = 0 } ∷ new_buffers n

-- The buffers of all images; their type is read off the first prediction.
unfoldable pub allocate : {F P : Type 0} → (crops : List P) → ℕ → Outcome (List (Buffer F))
unfolding new_buffers
allocate [] zero = returned []
allocate [] (suc n_ims) = raised (other "IndexError")
allocate (crop ∷ crops) n_ims = returned (new_buffers n_ims)

module _ {F : Type 0} (ops : Float32 F) (of_int : ℤ → F) (by_score : List (Det F) → List (Det F))
    (conf iou : F) (max_det : ℕ) where
  -- dets[:, 0] += ox, and so on
  abbrev pub shift : LetterboxParam F → Det F → Det F
  shift l d = record d {
    box = record {
      x1 = ops.add d.box.x1 (of_int l.ox);
      y1 = ops.add d.box.y1 (of_int l.oy);
      x2 = ops.add d.box.x2 (of_int l.ox);
      y2 = ops.add d.box.y2 (of_int l.oy);
    };
  }

  -- The detections of each crop; none where a suppression does not end.
  unfoldable pub detect_all :
      List (Predictions F × LetterboxParam F) → Option (List (ℕ × List (Det F)))
  detect_all [] = some []
  detect_all ((p, l) ∷ rest) =
      elim (postprocess_yolo_outputs ops by_score p conf iou max_det (l.rx, l.ry) (l.px, l.py)) [
        | none ↦ none
        | some dets ↦ elim (detect_all rest) [
          | none ↦ none
          | some more ↦ some ((l.image_id, map (shift l) dets) ∷ more)
        ]
      ]

  -- The second loop.
  unfoldable pub suppress_all : List (Buffer F) → Option (List (List (Det F)))
  suppress_all [] = some []
  suppress_all (b ∷ bs) = elim (apply_nms ops by_score b.rows iou max_det) [
    | none ↦ none
    | some kept ↦ elim (suppress_all bs) [ none ↦ none | some more ↦ some (kept ∷ more) ]
  ]

  -- `_post_transform`
  unfoldable pub post_transform :
      List (Predictions F × LetterboxParam F) → (n_ims : ℕ) → Outcome (Option (List (List (Det F))))
  unfolding detect_all suppress_all store_all allocate
  post_transform crops n_ims = elim (detect_all crops) [
    | none ↦ returned none
    | some found ↦
        next (allocate crops n_ims)
          λ rows. next (store_all max_det found rows) λ bs. returned (suppress_all bs)
  ]

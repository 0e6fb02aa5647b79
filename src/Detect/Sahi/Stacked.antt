-- ===== src/Detect/Sahi/Stacked.antt =====
-- The pictures for which the whole of `pre_transform` returns: all that is entered has the crop's shape.
use data_pipeline_orchestrat.Base.{
  ◌≡◌, refl, ◌⊎◌, ℕ, suc, ◌+◌, ◌≤◌, ◌<◌, min, List, [], ◌∷◌, map, true, all, length, All,
  All-append, inl, inr, arith, ℤ, pos, negsuc, returned,
}
use data_pipeline_orchestrat.Detect.Slices.{Size, Slice}
use data_pipeline_orchestrat.Detect.Slices.Laws.{Fits, FitsAxis}
use data_pipeline_orchestrat.Detect.Sahi.{
  SahiDetector, new_sahi, Images, LetterboxParam, same_size, crops_of, whole, is_small, stack,
  normalised, pre_transform,
}
use data_pipeline_orchestrat.Detect.Sahi.Laws.{
  new_sahi_crop, new_sahi_height, new_sahi_width, Entered, AllEntered, enter_all-AllEntered,
}

abbrev size : ℕ → ℕ → Size
size h w = record { height = h; width = w }

abbrev slice : (y x h w : ℕ) → Slice
slice y x h w = record { y1 = pos y; x1 = pos x; y2 = pos (y + h); x2 = pos (x + w) }

same_size_refl : (s : Size) → same_size s s ≡ true
same_size_refl s = ground arith

-- The shapes of the images that the letterbox and slicing give.
pub record IsShaped {I F : Type 0} (im : Images I F) : Type 0 where
  pub letterboxed : (s : Size) (i : I) → im.shape (im.letterbox s i).0 ≡ s
  pub cropped :
      (i : I) (y x h w : ℕ)
      → y + h ≤ (im.shape i).height
      → x + w ≤ (im.shape i).width
      → im.shape (im.crop i (slice y x h w)) ≡ size h w

module _ {I F : Type 0} (im : Images I F) (shaped : IsShaped im) where
  abbrev HasShape : Size → I × LetterboxParam F → Type 0
  HasShape s e = im.shape e.0 ≡ s

  -- No larger than a crop, or at least as large in both directions.
  abbrev pub IsTileable : SahiDetector → I → Type 0
  IsTileable d i =
      (is_small im i d ≡ true)
      ⊎ ((d.crop_size.height ≤ (im.shape i).height) × (d.crop_size.width ≤ (im.shape i).width))

  crop-HasShape :
      (i : I) (crop : Size) (y1 x1 y2 x2 : ℤ)
      → crop.height ≤ (im.shape i).height
      → crop.width ≤ (im.shape i).width
      → FitsAxis (im.shape i).height crop.height y1 y2
      → FitsAxis (im.shape i).width crop.width x1 x2
      → im.shape (im.crop i (record { y1 = y1; x1 = x1; y2 = y2; x2 = x2 })) ≡ crop
  crop-HasShape i crop (pos y) (pos x) y2 x2 tall wide (rows, low) (columns, right) =
      let h : min crop.height (im.shape i).height ≡ crop.height = omega arith in
      let w : min crop.width (im.shape i).width ≡ crop.width = omega arith in
      rw (rows, columns, h, w)
        (shaped.cropped i y x crop.height crop.width (omega (arith, low)) (omega (arith, right)))
  crop-HasShape i crop (pos y) (negsuc x) y2 x2 tall wide fits none_fits = absurd none_fits
  crop-HasShape i crop (negsuc y) x1 y2 x2 tall wide none_fits fits = absurd none_fits

  crops-HasShape :
      (i : I) (crop : Size) (im_id : ℕ) (ss : List Slice)
      → crop.height ≤ (im.shape i).height
      → crop.width ≤ (im.shape i).width
      → All (Fits (im.shape i) crop) ss
      → All (HasShape crop) (crops_of im i im_id ss)
  unfolding crops_of
  crops-HasShape i crop im_id [] tall wide fits = tt
  crops-HasShape i crop im_id (s ∷ ss) tall wide (fit, fits) = (
    crop-HasShape i crop s.y1 s.x1 s.y2 s.x2 tall wide fit.0 fit.1,
    crops-HasShape i crop im_id ss tall wide fits,
  )

  Entered-HasShape :
      (d : SahiDetector) (i : I) (im_id : ℕ) (es : List (I × LetterboxParam F))
      → 0 < d.crop_size.height
      → 0 < d.crop_size.width
      → IsTileable d i
      → Entered im d i im_id es
      → All (HasShape d.crop_size) es
  unfolding whole
  Entered-HasShape d i im_id es tall wide tileable (inl (small, e)) =
      rw e (shaped.letterboxed d.crop_size i, tt)
  Entered-HasShape d i im_id es tall wide (inr (high, broad)) (inr (large, ss, e, covers, fits)) =
      rw e (shaped.letterboxed d.crop_size i, crops-HasShape i d.crop_size im_id ss high broad fits)
  Entered-HasShape d i im_id es tall wide (inl small) (inr (large, ss, e, covers, fits)) = absurd cc

  AllEntered-HasShape :
      (d : SahiDetector) (is : List I) (im_id : ℕ) (es : List (I × LetterboxParam F))
      → 0 < d.crop_size.height
      → 0 < d.crop_size.width
      → All (λ i. IsTileable d (im.to_rgb i)) is
      → AllEntered im d is im_id es
      → All (HasShape d.crop_size) es
  unfolding AllEntered
  AllEntered-HasShape d [] im_id es tall wide tileable e = rw e tt
  AllEntered-HasShape d (i ∷ is) im_id es tall wide (first, others)
        (here, rest, e, entered, all_entered) =
      rw e (
        All-append (HasShape d.crop_size) here rest
          (Entered-HasShape d (im.to_rgb i) im_id here tall wide first entered)
          (AllEntered-HasShape d is (suc im_id) rest tall wide others all_entered))

  same_sizes :
      (s t : Size) (es : List (I × LetterboxParam F))
      → t ≡ s
      → All (HasShape s) es
      → all (λ (x : I × LetterboxParam F). same_size (im.shape x.0) t) es ≡ true
  same_sizes s t [] same shapes = refl
  same_sizes s t (e ∷ es) same (here, shapes) =
      let one : same_size (im.shape e.0) t ≡ true = rw (here, same) (same_size_refl s) in
      rw one (same_sizes s t es same shapes)

  stack-HasShape :
      (s : Size) (es : List (I × LetterboxParam F))
      → 0 < length es
      → All (HasShape s) es
      → stack im es ≡ returned es
  unfolding stack
  stack-HasShape s [] some_entry shapes = absurd (omega arith)
  stack-HasShape s (e ∷ es) some_entry (here, shapes) =
      rw (same_sizes s (im.shape e.0) es here shapes) refl

  AllEntered-some :
      (d : SahiDetector) (i : I) (is : List I) (es : List (I × LetterboxParam F))
      → AllEntered im d (i ∷ is) 0 es
      → 0 < length es
  unfolding AllEntered
  AllEntered-some d i is es (here, rest, e, inl (small, first), more) = rw (e, first) (omega arith)
  AllEntered-some d i is es (here, rest, e, inr (large, ss, first, covers, fits), more) =
      rw (e, first) (omega arith)

  -- A detector that is made for the crop size of its model, given one picture or more of which each is
  -- no larger than a crop, or at least as large in both directions. Whatever overlap and batch size
  -- were asked for, `pre_transform` returns, and for every picture, in their order, there is an entry
  -- of the whole of it; a picture that is larger than a crop also has slices, which lie in it, are of
  -- the crop's size, and show every pixel. This takes that the letterbox and the slicing of an
  -- image give the shapes that they are asked for.
  pub pre_transform-new_sahi :
      (imgsz : Size) (overlap_h overlap_w batch : ℤ) (i : I) (is : List I)
      → 0 < imgsz.height
      → 0 < imgsz.width
      → let d = new_sahi imgsz imgsz overlap_h overlap_w batch in
        All (λ j. IsTileable d (im.to_rgb j)) (i ∷ is)
        → (es : List (I × LetterboxParam F)) × (pre_transform im (i ∷ is) d
            ≡ returned (map (λ (e : I × LetterboxParam F). (im.normalise e.0, e.1)) es))
          × AllEntered im d (i ∷ is) 0 es
          × All (λ (e : I × LetterboxParam F). im.shape e.0 ≡ imgsz) es
  unfolding pre_transform normalised
  pre_transform-new_sahi imgsz overlap_h overlap_w batch i is tall wide tileable =
      let d = new_sahi imgsz imgsz overlap_h overlap_w batch in
      let crop : d.crop_size ≡ imgsz = new_sahi_crop imgsz tall wide batch overlap_h overlap_w in
      let (es, entered, all_entered) =
        enter_all-AllEntered im d
          (rw crop (new_sahi_height imgsz tall wide batch overlap_h overlap_w))
          (rw crop (new_sahi_width imgsz tall wide batch overlap_h overlap_w)) (i ∷ is) 0 in
      let shapes =
        AllEntered-HasShape d (i ∷ is) 0 es (rw crop tall) (rw crop wide) tileable all_entered in
      let stacked = stack-HasShape d.crop_size es (AllEntered-some d i is es all_entered) shapes in
      (es, rw (entered, pre_transform, stacked) refl, all_entered, (rw crop at shapes))

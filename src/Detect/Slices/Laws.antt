-- ===== src/Detect/Slices/Laws.antt =====
-- The slices cover the image and lie in it.
use data_pipeline_orchestrat.Base.{
  ◌≡◌, refl, ℕ, zero, suc, ◌+◌, ◌-◌, ◌*◌, ◌/◌, ◌≤◌, ◌<◌, List, [], ◌∷◌, map, true, false, ◌&&◌, any,
  All, any-append, All-append, min, arith, ltb, leb, ℤ, pos, negsuc, sub_ℕ, returned, Bool-cases,
  inl, inr,
}
use data_pipeline_orchestrat.Detect.Slices.{
  Size, Slice, n_steps, times, starts, set_last, positions, axis, end_of, slice_at, grid, both_axes,
  calculate_slices_coordinates, spans, shows,
}

-- From `y` to `e` are as many pixels as the crop has, or the image if it is smaller, all inside.
abbrev pub FitsAxis : (img crop : ℕ) → ℤ → ℤ → Type 0
FitsAxis img crop (pos a) e = (e ≡ pos (a + min crop img)) × (a + min crop img ≤ img)
FitsAxis img crop (negsuc a) e = ⊥

abbrev pub Fits : (img crop : Size) → Slice → Type 0
Fits img crop s =
    FitsAxis img.height crop.height s.y1 s.y2 × FitsAxis img.width crop.width s.x1 s.x2

module _ (img crop s r : ℕ) (inside : r < img) (small : suc s ≤ crop) (large : crop < img) where
  covered_from :
      (m i : ℕ)
      → i * suc s ≤ r
      → img - crop ≤ i * suc s + m * suc s
      → any (spans img crop r) (set_last (pos (img - crop)) (starts (suc m) i (pos (suc s)))) ≡ true
  unfolding starts set_last times end_of
  covered_from zero i low enough = ground arith
  covered_from (suc m) i low enough = elim (Bool-cases (ltb r (i * suc s + crop))) [
    | inl here ↦ ground arith
    | inr later ↦ ground (arith, covered_from m (suc i))
  ]

module _ (img crop s : ℕ) (large : crop < img) where
  fits_from :
      (m i : ℕ)
      → i * suc s + m * suc s < img - crop + suc s
      → All
          (λ y. FitsAxis img crop y (end_of img crop y))
          (set_last (pos (img - crop)) (starts (suc m) i (pos (suc s))))
  unfolding starts set_last times end_of
  fits_from zero i low = ground arith
  fits_from (suc m) i low = (ground arith, fits_from m (suc i) (ground arith))

-- Every row is spanned, and every position fits.
record IsCover (img crop : ℕ) (ys : List ℤ) : Type 0 where
  covers : (r : ℕ) → r < img → any (spans img crop r) ys ≡ true
  fits : All (λ y. FitsAxis img crop y (end_of img crop y)) ys

sub-suc :
    (crop overlap : ℕ)
    → overlap < crop
    → (s : ℕ) × (sub_ℕ crop overlap ≡ pos (suc s)) × (suc s ≤ crop)
sub-suc crop overlap less = (crop - overlap - 1, ground arith, ground arith)

-- One more step than fit wholly between the first position and the last.
enough_steps : (a s : ℕ) → a ≤ ((a + suc s - 1) / suc s) * suc s
enough_steps a s = grind arith

few_steps : (a s : ℕ) → ((a + suc s - 1) / suc s) * suc s < a + suc s
few_steps a s = grind arith

small-IsCover : (img crop s : ℕ) → img ≤ crop → IsCover img crop (starts 1 0 (pos (suc s)))
unfolding starts times end_of
small-IsCover img crop s small = record { covers = λ r inside. ground arith; fits = ground arith }

large-IsCover :
    (img crop s m : ℕ)
    → crop < img
    → suc s ≤ crop
    → img - crop ≤ m * suc s
    → m * suc s < img - crop + suc s
    → IsCover img crop (set_last (pos (img - crop)) (starts (suc m) 0 (pos (suc s))))
large-IsCover img crop s m large small enough few = record {
  covers =
      λ r inside. covered_from img crop s r inside small large m 0 (ground arith) (ground arith);
  fits = fits_from img crop s large m 0 (ground arith);
}

positions_small :
    (img crop s : ℕ)
    → img ≤ crop
    → positions img crop (pos (suc s)) (n_steps img crop (pos (suc s)))
      ≡ returned (starts 1 0 (pos (suc s)))
unfolding n_steps positions
positions_small img crop s small = ground arith

pos_of_mul : (a m k : ℕ) → 0 < a → a ≤ m * k → 0 < m
pos_of_mul a zero k h le = omega arith
pos_of_mul a (suc m) k h le = omega arith

positions_large :
    (img crop s m : ℕ)
    → crop < img
    → (img - crop + suc s - 1) / suc s ≡ m
    → 0 < m
    → positions img crop (pos (suc s)) (n_steps img crop (pos (suc s)))
      ≡ returned (set_last (pos (img - crop)) (starts (suc m) 0 (pos (suc s))))
unfolding n_steps positions
positions_large img crop s m large count more =
    let falls : leb img crop ≡ false = ground arith in
    let longer : ltb crop img ≡ true = ground arith in
    let many : ltb 1 (suc m) ≡ true = ground arith in
    let next : m + 1 ≡ suc m = omega arith in rw (falls, count, next, longer, many) refl

-- The positions for a step that is not 0.
positions-IsCover :
    (img crop s : ℕ)
    → suc s ≤ crop
    → (ys : List ℤ) × (positions img crop (pos (suc s)) (n_steps img crop (pos (suc s)))
        ≡ returned ys)
      × IsCover img crop ys
positions-IsCover img crop s small = elim (Bool-cases (leb img crop)) [
  | inl fits ↦ (
    starts 1 0 (pos (suc s)),
    positions_small img crop s (ground arith),
    small-IsCover img crop s (ground arith),
  )
  | inr large ↦
      let m = (img - crop + suc s - 1) / suc s in
      let longer : crop < img = ground arith in
      let enough = enough_steps (img - crop) s in
      (
        set_last (pos (img - crop)) (starts (suc m) 0 (pos (suc s))),
        positions_large img crop s m longer refl
            (pos_of_mul (img - crop) m (suc s) (omega arith) enough),
        large-IsCover img crop s m longer small enough (few_steps (img - crop) s),
      )
]

axis-IsCover :
    (img crop overlap : ℕ)
    → overlap < crop
    → (ys : List ℤ) × (axis img crop overlap ≡ returned ys) × IsCover img crop ys
unfolding axis
axis-IsCover img crop overlap less =
    let (s, step, small) = sub-suc crop overlap less in rw step (positions-IsCover img crop s small)

module _ (img crop : Size) (r c : ℕ) where
  any-row :
      (y : ℤ) (xs : List ℤ)
      → any (shows r c) (map (slice_at img crop y) xs)
        ≡ (spans img.height crop.height r y && any (spans img.width crop.width c) xs)
  unfolding slice_at
  any-row y [] = ground arith
  any-row y (x ∷ xs) = ground (arith, any-row y xs)

  any-grid :
      (ys xs : List ℤ)
      → any (shows r c) (grid img crop ys xs)
        ≡ (any (spans img.height crop.height r) ys && any (spans img.width crop.width c) xs)
  unfolding grid
  any-grid [] xs = refl
  any-grid (y ∷ ys) xs = ground (
    arith,
    any-append (shows r c) (map (slice_at img crop y) xs) (grid img crop ys xs),
    any-row y xs,
    any-grid ys xs,
  )

module _ (img crop : Size) where
  row-Fits :
      (y : ℤ) (xs : List ℤ)
      → FitsAxis img.height crop.height y (end_of img.height crop.height y)
      → All (λ x. FitsAxis img.width crop.width x (end_of img.width crop.width x)) xs
      → All (Fits img crop) (map (slice_at img crop y) xs)
  unfolding slice_at
  row-Fits y [] here all = tt
  row-Fits y (x ∷ xs) here all = ((here, all.0), row-Fits y xs here all.1)

  grid-Fits :
      (ys xs : List ℤ)
      → All (λ y. FitsAxis img.height crop.height y (end_of img.height crop.height y)) ys
      → All (λ x. FitsAxis img.width crop.width x (end_of img.width crop.width x)) xs
      → All (Fits img crop) (grid img crop ys xs)
  unfolding grid
  grid-Fits [] xs vertical horizontal = tt
  grid-Fits (y ∷ ys) xs vertical horizontal =
      All-append (Fits img crop) (map (slice_at img crop y) xs) (grid img crop ys xs)
        (row-Fits y xs vertical.0 horizontal) (grid-Fits ys xs vertical.1 horizontal)

-- Where the overlap is smaller than the crop, in height and width, the slices are computed, and
-- between them they show every pixel of the image. Each of them lies in the image and is as high and
-- as wide as the crop, or as the image where that is smaller.
pub calculate_slices-cover :
    (img crop overlap : Size)
    → overlap.height < crop.height
    → overlap.width < crop.width
    → (ss : List Slice) × (calculate_slices_coordinates img crop overlap ≡ returned ss)
      × ((r c : ℕ) → r < img.height → c < img.width → any (shows r c) ss ≡ true)
      × All (Fits img crop) ss
unfolding calculate_slices_coordinates both_axes
calculate_slices-cover img crop overlap lower narrower =
    let (ys, vertical, rows) = axis-IsCover img.height crop.height overlap.height lower in
    let (xs, horizontal, columns) = axis-IsCover img.width crop.width overlap.width narrower in
    (
      grid img crop ys xs,
      rw (vertical, horizontal) refl,
      λ r c low left.
          rw (any-grid img crop r c ys xs, rows.covers r low, columns.covers c left) refl,
      grid-Fits img crop ys xs rows.fits columns.fits,
    )

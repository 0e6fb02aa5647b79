-- ===== src/Detect/Sahi/Buffers.antt =====
-- The buffers of the images, as the detections of the crops are stored in `_post_transform`.
use data_pipeline_orchestrat.Base.{
  ◌≡◌, refl, sym, ap, ℕ, zero, suc, ◌+◌, ◌≤◌, ◌<◌, List, [], ◌∷◌, ◌++◌, true, false, ◌==◌, length,
  length-append, leb, if◌then◌else◌, arith, Outcome, returned, raised, value_error,
}
use mathlib.Core.List.{append_assoc, append-nil}
use data_pipeline_orchestrat.Detect.Nms.{Det}
use data_pipeline_orchestrat.Detect.Sahi.{Buffer, store, store_at, store_all, next, new_buffers}

returned-eq : {A : Type 0} (a b : A) → returned a ≡ returned b → a ≡ b
returned-eq a b h = cc

next-same :
    {A B C : Type 0} (r : Outcome A) (f : A → Outcome B) (g : A → Outcome C) (b : B) (c : Outcome C)
    → next r f ≡ returned b
    → ((a : A) → f a ≡ returned b → g a ≡ c)
    → next r g ≡ c
next-same (returned a) f g b c ends same = same a ends
next-same (raised e) f g b c ends same = cc

module _ {F : Type 0} where
  -- All detections of an image, in the order of its crops.
  unfoldable pub all_of : ℕ → List (ℕ × List (Det F)) → List (Det F)
  all_of i [] = []
  all_of i ((j, dets) ∷ rest) = (if j == i then dets else []) ++ all_of i rest

  abbrev pub filled : List (Det F) → Buffer F
  filled rows = record { rows = rows; count = length rows }

  -- The buffers from image `i` on, after the crops.
  unfoldable pub filled_all : ℕ → List (ℕ × List (Det F)) → List (List (Det F)) → List (Buffer F)
  filled_all i found [] = []
  filled_all i found (rows ∷ rest) = filled (rows ++ all_of i found) ∷ filled_all (suc i) found rest

  -- Every crop is of one of `n` images.
  abbrev pub AreBelow : ℕ → List (ℕ × List (Det F)) → Type 0
  AreBelow n [] = Unit
  AreBelow n ((i, dets) ∷ rest) = (i < n) × AreBelow n rest

  buffers : List (List (Det F)) → List (Buffer F)
  buffers [] = []
  buffers (rows ∷ rest) = filled rows ∷ buffers rest

  unfoldable pub no_rows : ℕ → List (List (Det F))
  no_rows zero = []
  no_rows (suc n) = [] ∷ no_rows n

  module _ (max_det : ℕ) where
    -- There is room for all that is still to come.
    Room : ℕ → List (ℕ × List (Det F)) → List (List (Det F)) → Type 0
    Room i found [] = Unit
    Room i found (rows ∷ rest) =
        (length rows + length (all_of i found) ≤ max_det) × Room (suc i) found rest

    -- Where the rows of one crop go.
    added : ℕ → ℕ → List (Det F) → List (List (Det F)) → List (List (Det F))
    added j i dets [] = []
    added j i dets (rows ∷ rest) =
        (rows ++ (if j == i then dets else [])) ∷ added j (suc i) dets rest

    store_fits :
        (dets rows : List (Det F))
        → length rows + length dets ≤ max_det
        → store max_det dets (filled rows) ≡ returned (filled (rows ++ dets))
    unfolding store
    store_fits dets rows fits =
        let room : leb (length rows + length dets) max_det ≡ true = ground arith in
        rw (room, length-append rows dets) refl

    added_before :
        (t i : ℕ) (dets : List (Det F)) (outs : List (List (Det F)))
        → t < i
        → added t i dets outs ≡ outs
    unfolding added
    added_before t i dets [] less = refl
    added_before t i dets (rows ∷ rest) less =
        let other : (t == i) ≡ false = ground arith in
        rw (other, added_before t (suc i) dets rest (omega arith), append-nil rows) refl

    length-added :
        (t i : ℕ) (dets : List (Det F)) (outs : List (List (Det F)))
        → length (added t i dets outs) ≡ length outs
    unfolding added
    length-added t i dets [] = refl
    length-added t i dets (rows ∷ rest) = ap suc (length-added t (suc i) dets rest)

    store_at-added :
        (j t i : ℕ) (dets : List (Det F)) (more : List (ℕ × List (Det F)))
        (outs : List (List (Det F)))
        → t ≡ j + i
        → j < length outs
        → Room i ((t, dets) ∷ more) outs
        → store_at max_det j dets (buffers outs) ≡ returned (buffers (added t i dets outs))
    unfolding store_at Room added buffers all_of
    store_at-added j t i dets more [] sum low room = absurd (omega arith)
    store_at-added zero t i dets more (rows ∷ rest) sum low room =
        let same : (t == i) ≡ true = ground arith in
        let fits : length rows + length (dets ++ all_of i more) ≤ max_det = rw same at (room.0) in
        rw
          (
            same,
            store_fits dets rows (omega (arith, length-append dets (all_of i more))),
            added_before t (suc i) dets rest (omega arith),
            store_at,
          )
          refl
    store_at-added (suc j) t i dets more (rows ∷ rest) sum low room =
        let other : (t == i) ≡ false = ground arith in
        rw
          (
            other,
            store_at-added j t (suc i) dets more rest (omega arith) (omega arith) room.1,
            append-nil rows,
            store_at,
          )
          refl

    Room-added :
        (t i : ℕ) (dets : List (Det F)) (more : List (ℕ × List (Det F)))
        (outs : List (List (Det F)))
        → Room i ((t, dets) ∷ more) outs
        → Room i more (added t i dets outs)
    unfolding Room added all_of
    Room-added t i dets more [] room = tt
    Room-added t i dets more (rows ∷ rest) room =
        let now = if t == i then dets else [] in
        (
          omega (arith, length-append rows now, length-append now (all_of i more), room.0),
          Room-added t (suc i) dets more rest room.1,
        )

    filled_all-added :
        (t i : ℕ) (dets : List (Det F)) (more : List (ℕ × List (Det F)))
        (outs : List (List (Det F)))
        → filled_all i more (added t i dets outs) ≡ filled_all i ((t, dets) ∷ more) outs
    unfolding filled_all added all_of
    filled_all-added t i dets more [] = refl
    filled_all-added t i dets more (rows ∷ rest) =
        let now = if t == i then dets else [] in
        rw (filled_all-added t (suc i) dets more rest, append_assoc rows now (all_of i more)) refl

    filled_all-nil : (i : ℕ) (outs : List (List (Det F))) → filled_all i [] outs ≡ buffers outs
    unfolding filled_all buffers all_of
    filled_all-nil i [] = refl
    filled_all-nil i (rows ∷ rest) = rw (filled_all-nil (suc i) rest, append-nil rows) refl

    store_all-filled_all :
        (found : List (ℕ × List (Det F))) (outs : List (List (Det F)))
        → AreBelow (length outs) found
        → Room 0 found outs
        → store_all max_det found (buffers outs) ≡ returned (filled_all 0 found outs)
    unfolding store_all
    store_all-filled_all [] outs below room = ap (λ r. returned r) (sym (filled_all-nil 0 outs))
    store_all-filled_all ((j, dets) ∷ rest) outs below room =
        rw
          (
            store_at-added j j 0 dets rest outs (omega arith) below.0 room,
            store_all,
            sym (filled_all-added j 0 dets rest outs),
          )
          (store_all-filled_all rest (added j 0 dets outs) (rw (length-added j 0 dets outs) below.1)
            (Room-added j 0 dets rest outs room))

    store_crowded :
        (dets rows : List (Det F))
        → max_det < length rows + length dets
        → 2 ≤ length dets
        → store max_det dets (filled rows) ≡ raised value_error
    unfolding store
    store_crowded dets rows many several =
        let full : leb (length rows + length dets) max_det ≡ false = ground arith in
        let not_one : (length dets == 1) ≡ false = ground arith in
        let not_none : (length dets == 0) ≡ false = ground arith in
        rw (full, not_one, not_none) refl

    pub store_at_crowded :
        (j t i : ℕ) (dets : List (Det F)) (found : List (ℕ × List (Det F))) (n : ℕ)
        → t ≡ j + i
        → j < n
        → max_det < length (all_of t found) + length dets
        → 2 ≤ length dets
        → store_at max_det j dets (filled_all i found (no_rows n)) ≡ raised value_error
    unfolding store_at filled_all no_rows
    store_at_crowded j t i dets found zero sum low many several = absurd (omega arith)
    store_at_crowded zero t i dets found (suc n) sum low many several =
        let same : i ≡ t = omega arith in
        rw (same, store_crowded dets (all_of t found) many several, store_at) refl
    store_at_crowded (suc j) t i dets found (suc n) sum low many several =
        rw
          (
            store_at_crowded j t (suc i) dets found n (omega arith) (omega arith) many several,
            store_at,
          )
          refl

    pub store_all-append :
        (xs ys : List (ℕ × List (Det F))) (bs cs : List (Buffer F))
        → store_all max_det xs bs ≡ returned cs
        → store_all max_det (xs ++ ys) bs ≡ store_all max_det ys cs
    unfolding store_all
    store_all-append [] ys bs cs stored = ap (store_all max_det ys) (returned-eq bs cs stored)
    store_all-append ((i, dets) ∷ xs) ys bs cs stored =
        next-same (store_at max_det i dets bs) (store_all max_det xs) (store_all max_det (xs ++ ys))
          cs (store_all max_det ys cs) stored λ b same. store_all-append xs ys b cs same

    -- There is room in empty buffers if no image has too many detections.
    Room-no_rows :
        (i n : ℕ) (found : List (ℕ × List (Det F)))
        → ((k : ℕ) → length (all_of k found) ≤ max_det)
        → Room i found (no_rows n)
    unfolding Room no_rows
    Room-no_rows i zero found few = tt
    Room-no_rows i (suc n) found few = (omega (arith, few i), Room-no_rows (suc i) n found few)

  new_buffers-buffers : (n : ℕ) → new_buffers n ≡ buffers (no_rows n)
  unfolding new_buffers buffers no_rows
  new_buffers-buffers zero = refl
  new_buffers-buffers (suc n) = rw (new_buffers-buffers n) refl

length-no_rows : (F : Type 0) (n : ℕ) → length (no_rows {F = F} n) ≡ n
unfolding no_rows
length-no_rows F zero = refl
length-no_rows F (suc n) = ap suc (length-no_rows F n)

-- The buffers for `n` images after all crops.
pub stored :
    {F : Type 0} (max_det n : ℕ) (found : List (ℕ × List (Det F)))
    → AreBelow n found
    → ((i : ℕ) → length (all_of i found) ≤ max_det)
    → store_all max_det found (new_buffers n) ≡ returned (filled_all 0 found (no_rows n))
stored {F} max_det n found below few = rw (new_buffers-buffers n) (
    store_all-filled_all max_det found (no_rows n) (rw (length-no_rows F n) below)
      (Room-no_rows max_det 0 n found few))

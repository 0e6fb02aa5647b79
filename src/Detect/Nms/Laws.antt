-- ===== src/Detect/Nms/Laws.antt =====
-- The suppression loop keeps what a box-by-box choice keeps.
use data_pipeline_orchestrat.Base.{
  ◌≡◌, refl, sym, ap, ℕ, zero, suc, ◌≤◌, ◌<◌, some, List, [], ◌∷◌, ◌++◌, Bool, true, false, all,
  All, all-append, All-append, leb, length, length-append, length-filter, take, take-length-append,
  take_all, filter, if◌then◌else◌, Bool-cases, inl, inr, arith,
}
use mathlib.Core.List.{append_assoc, append-nil}
use data_pipeline_orchestrat.Detect.Nms.{Float32, Det, clear_of, nms_loop, apply_nms}

module _ {A : Type 0} (is_clear : A → A → Bool) where
  -- The boxes in the order of their scores, each kept if it is clear of all that were kept before.
  pub choose : (keep indices : List A) → List A
  choose keep [] = keep
  choose keep (j ∷ js) = choose (if all (λ i. is_clear i j) keep then keep ++ j ∷ [] else keep) js

  choose-append : (js keep : List A) → (more : List A) × (choose keep js ≡ keep ++ more)
  unfolding choose
  choose-append [] keep = ([], sym (append-nil keep))
  choose-append (j ∷ js) keep = elim (Bool-cases (all (λ i. is_clear i j) keep)) [
    | inl taken ↦
        let (more, same) = choose-append js (keep ++ j ∷ []) in
        (j ∷ more, rw (taken, same) (append_assoc keep (j ∷ []) more))
    | inr suppressed ↦ let (more, same) = choose-append js keep in (more, rw suppressed same)
  ]

  step-kept :
      (c j : A) (keep : List A)
      → ((k : A) → all (λ i. is_clear i k) keep ≡ true → is_clear c k ≡ true)
      → (k : A)
      → all (λ i. is_clear i k) (if all (λ i. is_clear i j) keep then keep ++ j ∷ [] else keep)
        ≡ true
      → is_clear c k ≡ true
  step-kept c j keep kept k clear = elim (Bool-cases (all (λ i. is_clear i j) keep)) [
    | inl taken ↦ kept k (ground (arith, all-append (λ i. is_clear i k) keep (j ∷ [])))
    | inr suppressed ↦ kept k (ground arith)
  ]

  -- What one of the kept boxes suppresses may be left out beforehand.
  choose-filter :
      (c : A) (js keep : List A)
      → ((j : A) → all (λ i. is_clear i j) keep ≡ true → is_clear c j ≡ true)
      → choose keep js ≡ choose keep (filter (is_clear c) js)
  unfolding choose
  choose-filter c [] keep kept = refl
  choose-filter c (j ∷ js) keep kept = elim (Bool-cases (is_clear c j)) [
    | inl clear ↦
        let next = if all (λ i. is_clear i j) keep then keep ++ j ∷ [] else keep in
        rw clear (choose-filter c js next (step-kept c j keep kept))
    | inr suppressed ↦
        let left_out : all (λ i. is_clear i j) keep ≡ false = ground (arith, kept j) in
        rw (suppressed, left_out) (choose-filter c js keep kept)
  ]

-- One box is kept even where `max_det` is 0.
abbrev pub limit : ℕ → ℕ
limit max_det = if leb 1 max_det then max_det else 1

module _ {A : Type 0} (is_clear : A → A → Bool) (max_det : ℕ) where
  abbrev AllClear : List A → List A → Type 0
  AllClear keep js = All (λ j. all (λ i. is_clear i j) keep ≡ true) js

  AllClear-nil : (js : List A) → AllClear [] js
  AllClear-nil [] = tt
  AllClear-nil (j ∷ js) = (refl, AllClear-nil js)

  AllClear-filter :
      (c : A) (keep js : List A)
      → AllClear keep js
      → AllClear (keep ++ c ∷ []) (filter (is_clear c) js)
  AllClear-filter c keep [] clear = tt
  AllClear-filter c keep (j ∷ js) clear = elim (Bool-cases (is_clear c j)) [
    | inl stays ↦ rw stays (
      rw (all-append (λ i. is_clear i j) keep (c ∷ []), clear.0, stays) refl,
      AllClear-filter c keep js clear.1,
    )
    | inr goes ↦ rw goes (AllClear-filter c keep js clear.1)
  ]

  choose_clear :
      (c : A) (keep js : List A)
      → all (λ i. is_clear i c) keep ≡ true
      → choose is_clear keep (c ∷ js) ≡ choose is_clear (keep ++ c ∷ []) (filter (is_clear c) js)
  unfolding choose
  choose_clear c keep js clear = rw clear (
      choose-filter is_clear c js (keep ++ c ∷ [])
        λ j all_clear. ground (arith, all-append (λ i. is_clear i j) keep (c ∷ [])))

  -- The loop stops with as many boxes as are wanted.
  take-choose :
      (keep js : List A)
      → length keep ≡ limit max_det
      → take (limit max_det) (choose is_clear keep js) ≡ keep
  take-choose keep js full =
      let (more, same) = choose-append is_clear js keep in
      rw (same, sym full) (take-length-append keep more)

  nms_loop-choose :
      (fuel : ℕ) (indices keep : List A)
      → length indices ≤ fuel
      → length keep < limit max_det
      → AllClear keep indices
      → nms_loop is_clear max_det fuel indices keep
        ≡ some (take (limit max_det) (choose is_clear keep indices))
  unfolding nms_loop
  nms_loop-choose fuel [] keep enough room clear =
      ap some (sym (unfold choose in take_all (limit max_det) keep (omega arith)))
  nms_loop-choose fuel (current ∷ []) keep enough room clear = ap some (
      rw (choose_clear current keep [] clear.0) (
        sym (
          unfold choose in
          take_all (limit max_det) (keep ++ current ∷ [])
            (omega (arith, length-append keep (current ∷ []))))))
  nms_loop-choose zero (current ∷ other ∷ others) keep enough room clear = absurd (omega arith)
  nms_loop-choose (suc fuel) (current ∷ other ∷ others) keep enough room clear =
      rw (choose_clear current keep (other ∷ others) clear.0)
        (elim (Bool-cases (leb max_det (length (keep ++ current ∷ [])))) [
          | inl full ↦ rw full (
              ap some (
                sym (
                  take-choose (keep ++ current ∷ []) (filter (is_clear current) (other ∷ others))
                    (ground (arith, length-append keep (current ∷ []))))))
          | inr more ↦ rw more (
              nms_loop-choose fuel (filter (is_clear current) (other ∷ others))
                (keep ++ current ∷ [])
                (ground (arith, length-filter (is_clear current) (other ∷ others))) (ground arith)
                (AllClear-filter current keep (other ∷ others) clear.1))
        ])

module _ {A : Type 0} (is_clear : A → A → Bool) where
  -- Each is clear of all before it.
  abbrev pub Apart : List A → Type 0
  Apart [] = Unit
  Apart (x ∷ xs) = All (λ y. is_clear x y ≡ true) xs × Apart xs

  Apart-snoc :
      (xs : List A) (y : A) → Apart xs → all (λ x. is_clear x y) xs ≡ true → Apart (xs ++ y ∷ [])
  Apart-snoc [] y apart clear = (tt, tt)
  Apart-snoc (x ∷ xs) y apart clear = (
    All-append (λ z. is_clear x z ≡ true) xs (y ∷ []) apart.0 (ground arith, tt),
    Apart-snoc xs y apart.1 (ground arith),
  )

  pub Apart-choose : (js keep : List A) → Apart keep → Apart (choose is_clear keep js)
  unfolding choose
  Apart-choose [] keep apart = apart
  Apart-choose (j ∷ js) keep apart = elim (Bool-cases (all (λ i. is_clear i j) keep)) [
    | inl taken ↦ rw taken (Apart-choose js (keep ++ j ∷ []) (Apart-snoc keep j apart taken))
    | inr suppressed ↦ rw suppressed (Apart-choose js keep apart)
  ]

  pub All-take {κ} : (P : A → Type κ) (n : ℕ) (xs : List A) → All P xs → All P (take n xs)
  All-take P zero xs h = tt
  All-take P (suc n) [] h = tt
  All-take P (suc n) (x ∷ xs) h = (h.0, All-take P n xs h.1)

  pub Apart-take : (n : ℕ) (xs : List A) → Apart xs → Apart (take n xs)
  Apart-take zero xs apart = tt
  Apart-take (suc n) [] apart = tt
  Apart-take (suc n) (x ∷ xs) apart =
      (All-take (λ y. is_clear x y ≡ true) n xs apart.0, Apart-take n xs apart.1)

  pub All-choose {κ} :
      (P : A → Type κ) (js keep : List A) → All P keep → All P js → All P (choose is_clear keep js)
  unfolding choose
  All-choose P [] keep kept h = kept
  All-choose P (j ∷ js) keep kept h =
      All-choose P js (if all (λ i. is_clear i j) keep then keep ++ j ∷ [] else keep)
        (elim (Bool-cases (all (λ i. is_clear i j) keep)) [
          | inl taken ↦ rw taken (All-append P keep (j ∷ []) kept (h.0, tt))
          | inr suppressed ↦ rw suppressed kept
        ])
        h.1

module _ {F : Type 0} (ops : Float32 F) (by_score : List (Det F) → List (Det F)) where
  -- The suppression ends, and keeps what a choice box by box, in the order of the scores, keeps: a
  -- box is chosen if its overlap with every box chosen before is below the threshold. Of those the
  -- first `max_det` are returned, or the first one if that is 0.
  pub apply_nms-choose :
      (dets : List (Det F)) (iou : F) (max_det : ℕ)
      → apply_nms ops by_score dets iou max_det
        ≡ some (take (limit max_det) (choose (clear_of ops iou) [] (by_score dets)))
  unfolding apply_nms
  apply_nms-choose dets iou max_det =
      nms_loop-choose (clear_of ops iou) max_det (length (by_score dets)) (by_score dets) []
        (omega arith) (ground arith) (AllClear-nil (clear_of ops iou) max_det (by_score dets))

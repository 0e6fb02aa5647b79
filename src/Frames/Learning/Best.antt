-- ===== src/Frames/Learning/Best.antt =====
-- np.argmax over the masked scores: a row that was not selected, and none such has a larger score.
use data_pipeline_orchestrat.Base.{
  ◌≡◌, refl, sym, ap, ◌∙◌, ◌⊎◌, inl, inr, ℕ, zero, suc, ◌+◌, ◌≤◌, ◌<◌, none, some, List, [], ◌∷◌,
  true, false, ◌==◌, length, contains, All, All-get_elem?, get_elem?_in, get_elem?, if◌then◌else◌,
  Bool-cases, arith,
}
use data_pipeline_orchestrat.Frames.Learning.{Floats, Settings, masked, argmax_from, argmax}

-- How many of the rows from `i` on are selected.
masked_rows : (selected : List ℕ) (i n : ℕ) → ℕ
masked_rows selected i zero = 0
masked_rows selected i (suc n) =
    (if contains i selected then 1 else 0) + masked_rows selected (suc i) n

masked_rows-nil : (i n : ℕ) → masked_rows [] i n ≡ 0
unfolding masked_rows
masked_rows-nil i zero = refl
masked_rows-nil i (suc n) = omega (arith, masked_rows-nil (suc i) n)

-- One more selected row masks at most one more.
masked_rows-before :
    (x : ℕ) (selected : List ℕ) (i n : ℕ)
    → x < i
    → masked_rows (x ∷ selected) i n ≡ masked_rows selected i n
unfolding masked_rows
masked_rows-before x selected i zero less = refl
masked_rows-before x selected i (suc n) less =
    let other : (i == x) ≡ false = ground arith in
    rw (other, masked_rows-before x selected (suc i) n (omega arith)) refl

masked_rows-cons :
    (x : ℕ) (selected : List ℕ) (i n : ℕ)
    → masked_rows (x ∷ selected) i n ≤ 1 + masked_rows selected i n
unfolding masked_rows
masked_rows-cons x selected i zero = omega arith
masked_rows-cons x selected i (suc n) = elim (Bool-cases (i == x)) [
  | inl here ↦
      let now : i ≡ x = ground arith in
      ground (arith, masked_rows-before x selected (suc i) n (omega arith))
  | inr other ↦ ground (arith, masked_rows-cons x selected (suc i) n)
]

masked_rows-le : (selected : List ℕ) (i n : ℕ) → masked_rows selected i n ≤ length selected
masked_rows-le [] i n = omega (arith, masked_rows-nil i n)
masked_rows-le (x ∷ selected) i n =
    omega (arith, masked_rows-cons x selected i n, masked_rows-le selected i n)

-- With fewer selected than there are rows, one is free.
free_row :
    (selected : List ℕ) (i n : ℕ)
    → masked_rows selected i n < n
    → (k : ℕ) × (k < n) × (contains (i + k) selected ≡ false)
unfolding masked_rows
free_row selected i zero less = absurd (omega arith)
free_row selected i (suc n) less = elim (Bool-cases (contains i selected)) [
  | inl taken ↦
      let (k, low, free) = free_row selected (suc i) n (ground arith) in
      let next : suc i + k ≡ i + suc k = omega arith in (suc k, omega arith, rw (← next) free)
  | inr free ↦ let same : i + 0 ≡ i = omega arith in (0, omega arith, rw same free)
]

some-eq : {A : Type 0} {x y : A} → some x ≡ some y → x ≡ y
some-eq h = cc

-- Where an entry stands, counted from one row earlier.
moved :
    {F : Type 0} (r i : ℕ) (x : F) (xs : List F) (v : F)
    → ((r ≡ i) × (v ≡ x)) ⊎ ((k : ℕ) × (r ≡ suc i + k) × (get_elem? xs k ≡ some v))
    → (k : ℕ) × (r ≡ i + k) × (get_elem? (x ∷ xs) k ≡ some v)
moved r i x xs v (inl (here, same)) = (0, omega arith, ap some (sym same))
moved r i x xs v (inr (k, later, found)) = (suc k, omega arith, found)

stays :
    {F : Type 0} (r best i : ℕ) (value x : F) (xs : List F) (v : F)
    → ((r ≡ best) × (v ≡ value)) ⊎ ((k : ℕ) × (r ≡ suc i + k) × (get_elem? xs k ≡ some v))
    → ((r ≡ best) × (v ≡ value)) ⊎ ((k : ℕ) × (r ≡ i + k) × (get_elem? (x ∷ xs) k ≡ some v))
stays r best i value x xs v (inl first) = inl first
stays r best i value x xs v (inr (k, later, found)) = inr (suc k, omega arith, found)

-- -inf, or a number above it: not NaN.
abbrev pub IsNumber : {F E : Type 0} → Floats F E → F → Type 0
IsNumber ops a = (a ≡ ops.neg_inf) ⊎ (ops.ltb_F ops.neg_inf a ≡ true)

-- What the selection needs of comparisons: they order the numbers.
pub record IsOrdered {F E : Type 0} (ops : Floats F E) : Type 0 where
  pub asym : (a b : F) → ops.ltb_F a b ≡ true → ops.ltb_F b a ≡ false
  pub irrefl : (a : F) → ops.ltb_F a a ≡ false
  pub not_lt_trans :
      (a b c : F)
      → IsNumber ops b
      → ops.ltb_F a b ≡ false
      → ops.ltb_F b c ≡ false
      → ops.ltb_F a c ≡ false

module _ {F E : Type 0} (ops : Floats F E) (cfg : Settings F) (ordered : IsOrdered ops) where
  -- An entry that none exceeds, and where it stands.
  abbrev Largest : (r best : ℕ) (value : F) (i : ℕ) (xs : List F) → Type 0
  Largest r best value i xs =
      (v : F) × (((r ≡ best) × (v ≡ value)) ⊎ ((k : ℕ) × (r ≡ i + k) × (get_elem? xs k ≡ some v)))
      × (ops.ltb_F v value ≡ false)
      × All (λ x. ops.ltb_F v x ≡ false) xs

  argmax_from-Largest :
      (xs : List F) (best : ℕ) (value : F) (i : ℕ)
      → IsNumber ops value
      → All (IsNumber ops) xs
      → Largest (argmax_from ops cfg best value i xs) best value i xs
  unfolding argmax_from
  argmax_from-Largest [] best value i n ns = (value, inl (refl, refl), ordered.irrefl value, tt)
  argmax_from-Largest (x ∷ xs) best value i n (m, ms) = elim (Bool-cases (ops.ltb_F value x)) [
    | inl larger ↦
        let (v, place, most, all) = argmax_from-Largest xs i x (suc i) m ms in
        rw larger (
          v,
          inr (moved (argmax_from ops cfg i x (suc i) xs) i x xs v place),
          ordered.not_lt_trans v x value m most (ordered.asym value x larger),
          (most, all),
        )
    | inr smaller ↦
        let (v, place, most, all) = argmax_from-Largest xs best value (suc i) n ms in
        rw smaller (
          v,
          stays (argmax_from ops cfg best value (suc i) xs) best i value x xs v place,
          most,
          (ordered.not_lt_trans v value x n most smaller, all),
        )
  ]

  argmax_largest :
      (xs : List F)
      → 0 < length xs
      → All (IsNumber ops) xs
      → (v : F) × (get_elem? xs (argmax ops cfg xs) ≡ some v) × All (λ x. ops.ltb_F v x ≡ false) xs
  unfolding argmax
  argmax_largest [] some_row numbers = absurd (omega arith)
  argmax_largest (x ∷ xs) some_row (n, ns) =
      let (v, place, most, all) = argmax_from-Largest xs 0 x 1 n ns in
      let (k, here, found) = moved (argmax_from ops cfg 0 x 1 xs) 0 x xs v place in
      let same : k ≡ argmax_from ops cfg 0 x 1 xs = omega arith in
      (v, rw same at found, (most, all))

  masked_free :
      (selected : List ℕ) (i k : ℕ) (ss : List F)
      → contains (i + k) selected ≡ false
      → get_elem? (masked ops cfg selected i ss) k ≡ get_elem? ss k
  unfolding masked
  masked_free selected i k [] free = refl
  masked_free selected i zero (s ∷ ss) free =
      let same : i + 0 ≡ i = omega arith in
      let here : contains i selected ≡ false = rw same at free in rw here refl
  masked_free selected i (suc k) (s ∷ ss) free =
      let next : suc i + k ≡ i + suc k = omega arith in
      masked_free selected (suc i) k ss (rw next free)

  masked_taken :
      (selected : List ℕ) (i k : ℕ) (ss : List F) (v : F)
      → contains (i + k) selected ≡ true
      → get_elem? (masked ops cfg selected i ss) k ≡ some v
      → v ≡ ops.neg_inf
  unfolding masked
  masked_taken selected i k [] v taken found = absurd (not_some found)
    where
      not_some : none ≡ some v → ⊥
      not_some h = cc
  masked_taken selected i zero (s ∷ ss) v taken found =
      let same : i + 0 ≡ i = omega arith in
      let here : contains i selected ≡ true = rw same at taken in sym (some-eq (rw here at found))
  masked_taken selected i (suc k) (s ∷ ss) v taken found =
      let next : suc i + k ≡ i + suc k = omega arith in
      masked_taken selected (suc i) k ss v (rw next taken) found

  length-masked :
      (selected : List ℕ) (i : ℕ) (ss : List F) → length (masked ops cfg selected i ss) ≡ length ss
  unfolding masked
  length-masked selected i [] = refl
  length-masked selected i (s ∷ ss) = ap suc (length-masked selected (suc i) ss)

  masked-IsNumber :
      (selected : List ℕ) (i : ℕ) (ss : List F)
      → All (λ s. ops.ltb_F ops.neg_inf s ≡ true) ss
      → All (IsNumber ops) (masked ops cfg selected i ss)
  unfolding masked
  masked-IsNumber selected i [] above = tt
  masked-IsNumber selected i (s ∷ ss) above = elim (Bool-cases (contains i selected)) [
    | inl taken ↦ rw taken (inl refl, masked-IsNumber selected (suc i) ss above.1)
    | inr free ↦ rw free (inr above.0, masked-IsNumber selected (suc i) ss above.1)
  ]

  -- The next row to pick: free, and no other free row has a larger score.
  abbrev pub IsBest : (selected : List ℕ) (ss : List F) (r : ℕ) → Type 0
  IsBest selected ss r =
      (contains r selected ≡ false)
      × ((v : F) × (get_elem? ss r ≡ some v)
          × ((k : ℕ) (s : F)
              → contains k selected ≡ false
              → get_elem? ss k ≡ some s
              → ops.ltb_F v s ≡ false))

  pub argmax-IsBest :
      (selected : List ℕ) (ss : List F)
      → All (λ s. ops.ltb_F ops.neg_inf s ≡ true) ss
      → length selected < length ss
      → IsBest selected ss (argmax ops cfg (masked ops cfg selected 0 ss))
  argmax-IsBest selected ss above more =
      let r = argmax ops cfg (masked ops cfg selected 0 ss) in
      let (v, found, largest) =
        argmax_largest (masked ops cfg selected 0 ss) (omega (arith, length-masked selected 0 ss))
          (masked-IsNumber selected 0 ss above) in
      let (k, low, free) =
        free_row selected 0 (length ss) (omega (arith, masked_rows-le selected 0 (length ss))) in
      let (s, at_k) = get_elem?_in k ss low in
      let beaten =
        All-get_elem? (λ x. ops.ltb_F v x ≡ false) k (masked ops cfg selected 0 ss) s largest
          (masked_free selected 0 k ss free ∙ at_k) in
      elim (Bool-cases (contains r selected)) [
        | inl taken ↦
            let lowest = masked_taken selected 0 r ss v (rw (zero_add r) taken) found in
            let higher = All-get_elem? (λ x. ops.ltb_F ops.neg_inf x ≡ true) k ss s above at_k in
            absurd (not_both v s lowest beaten higher)
        | inr fresh ↦ (
          fresh,
          (
            v,
            sym (masked_free selected 0 r ss (rw (zero_add r) fresh)) ∙ found,
            λ j t free_j at_j.
                All-get_elem? (λ x. ops.ltb_F v x ≡ false) j (masked ops cfg selected 0 ss) t
                  largest (masked_free selected 0 j ss (rw (zero_add j) free_j) ∙ at_j),
          ),
        )
      ]
    where
      zero_add : (n : ℕ) → 0 + n ≡ n
      zero_add n = omega arith

      not_both :
          (v s : F) → v ≡ ops.neg_inf → ops.ltb_F v s ≡ false → ops.ltb_F ops.neg_inf s ≡ true → ⊥
      not_both v s lowest beaten higher = cc

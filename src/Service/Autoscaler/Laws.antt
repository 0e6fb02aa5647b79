-- ===== src/Service/Autoscaler/Laws.antt =====
-- What the pool and the thresholds of `ReplicaAutoscaler` promise.
use mathlib.Core.List.{append_assoc, append-nil}
use data_pipeline_orchestrat.Base.{
  ℕ, zero, suc, ◌+◌, ◌≤◌, ◌<◌, ◌≡◌, refl, arith, Option, none, some, List, [], ◌∷◌, ◌++◌, Bool,
  true, false, ◌&&◌, all, All, ltb, leb, length, length-append, pop_at, Outcome, returned, raised,
  if◌then◌else◌, Bool-cases, inl, inr, ℤ, FloatOps, String,
}
use data_pipeline_orchestrat.Service.Autoscaler.{
  AutoscaleConfig, interval_not_positive, interval_of, min_above_max, low_not_below_high,
  RawAutoscale, AutoscaleChecked, accepted, refused, field_value, make_config, with_fields,
  check_consistency, Scaling, least_index, victim_idx, read_depths, after_scale_up,
  after_scale_down, shrink, decide, after_reading, check_and_scale, run_rounds,
}

-- The bounds that a configuration keeps.
pub record Consistent {F : Type 0} (c : AutoscaleConfig F) : Type 0 where
  pub one : 1 ≤ c.min_replicas
  pub bounds : c.min_replicas ≤ c.max_replicas
  pub thresholds : c.queue_depth_low < c.queue_depth_high

field_value-bound :
    (default bound n : ℕ) (o : Option ℤ)
    → bound ≤ default
    → field_value default bound o ≡ some n
    → bound ≤ n
field_value-bound default bound n none h e = ground arith
field_value-bound default bound n (some (ℤ.pos m)) h e = ground arith
field_value-bound default bound n (some (ℤ.negsuc m)) h e = cc

-- The configuration that is accepted is consistent.
abbrev pub Sound : {F : Type 0} → AutoscaleChecked F → Type 0
Sound (refused e) = Unit
Sound (accepted c) = Consistent c

check_consistency-Sound :
    {F : Type 0} (c : AutoscaleConfig F) → 1 ≤ c.min_replicas → Sound (check_consistency c)
check_consistency-Sound c one = by_tests _ _ refl refl
  where
    by_tests :
        (crossed touching : Bool)
        → ltb c.max_replicas c.min_replicas ≡ crossed
        → leb c.queue_depth_high c.queue_depth_low ≡ touching
        → Sound (
            if crossed
            then refused min_above_max
            else (if touching then refused low_not_below_high else accepted c))
    by_tests true touching e f = tt
    by_tests false true e f = tt
    by_tests false false e f = record {
      one = one;
      bounds = ground arith;
      thresholds = ground arith;
    }

-- A block that is accepted has at least one replica as its minimum, no minimum above the maximum,
-- and the threshold for fewer replicas below the one for more, its defaults included.
pub make_config-Sound :
    {F : Type 0} (ops : FloatOps F) (raw : RawAutoscale F) → Sound (make_config ops raw)
unfolding make_config
make_config-Sound {F = F} ops raw = by_extra raw.extra
  where
    by_fields :
        (least most high low : Option ℕ) (interval : F)
        → field_value 1 1 raw.min_replicas ≡ least
        → Sound (with_fields least most high low interval)
    by_fields none most high low interval e = tt
    by_fields (some a) none high low interval e = tt
    by_fields (some a) (some b) none low interval e = tt
    by_fields (some a) (some b) (some c) none interval e = tt
    by_fields (some a) (some b) (some c) (some d) interval e =
        check_consistency-Sound
          (record {
            min_replicas = a;
            max_replicas = b;
            queue_depth_high = c;
            queue_depth_low = d;
            check_interval_s = interval;
          })
          (field_value-bound 1 1 a raw.min_replicas (omega arith) e)

    by_interval :
        (b : Bool)
        → Sound (
            if b
            then with_fields
                (field_value 1 1 raw.min_replicas)
                (field_value 1 1 raw.max_replicas)
                (field_value 15 0 raw.queue_depth_high)
                (field_value 2 0 raw.queue_depth_low)
                (interval_of ops raw.check_interval_s)
            else refused interval_not_positive)
    by_interval true = by_fields (field_value 1 1 raw.min_replicas) _ _ _ _ refl
    by_interval false = tt

    by_extra : (keys : List String) → Sound (make_config ops (record raw { extra = keys }))
    by_extra [] = by_interval _
    by_extra (key ∷ keys) = tt

-- The two triggers of `check_and_scale` exclude each other for a consistent configuration and a
-- pool that is not empty, so that the order of its branches does not matter.
pub triggers_exclusive :
    {F : Type 0} (c : AutoscaleConfig F) (d : ℕ) (ds : List ℕ)
    → Consistent c
    → (all (leb c.queue_depth_high) (d ∷ ds) && all (λ x. leb x c.queue_depth_low) (d ∷ ds)) ≡ false
triggers_exclusive c d ds h = ground (arith, h.thresholds)

-- What `list.pop` leaves is one shorter.
abbrev pub OneLess : {T : Type 0} → Option (T × List T) → ℕ → Type 0
OneLess none n = Unit
OneLess (some (v, rest)) n = length rest + 1 ≡ n

cons_OneLess :
    {T : Type 0} (x : T) (popped : Option (T × List T)) (n : ℕ)
    → OneLess popped n
    → OneLess (elim popped [ none ↦ none | some (y, rest) ↦ some (y, x ∷ rest) ]) (suc n)
cons_OneLess x none n h = tt
cons_OneLess x (some (y, rest)) n h = omega (arith, h)

length-pop_at : {T : Type 0} (i : ℕ) (rs : List T) → OneLess (pop_at i rs) (length rs)
length-pop_at i [] = tt
length-pop_at zero (x ∷ xs) = omega arith
length-pop_at (suc i) (x ∷ xs) = cons_OneLess x (pop_at i xs) (length xs) (length-pop_at i xs)

abbrev pub get_at : ℕ → List ℕ → Option ℕ
get_at i [] = none
get_at zero (x ∷ xs) = some x
get_at (suc i) (x ∷ xs) = get_at i xs

-- An entry of the list that is not above any.
abbrev pub Least : Option ℕ → List ℕ → Type 0
Least none xs = ⊥
Least (some d) xs = All (λ x. d ≤ x) xs

get_at-append : (i d : ℕ) (xs ys : List ℕ) → get_at i xs ≡ some d → get_at i (xs ++ ys) ≡ some d
get_at-append i d [] ys e = absurd cc
get_at-append zero d (x ∷ xs) ys e = e
get_at-append (suc i) d (x ∷ xs) ys e = get_at-append i d xs ys e

get_at-length : (d : ℕ) (xs : List ℕ) → get_at (length xs) (xs ++ d ∷ []) ≡ some d
get_at-length d [] = refl
get_at-length d (x ∷ xs) = get_at-length d xs

All-lower : (a b : ℕ) (xs : List ℕ) → a ≤ b → All (λ x. b ≤ x) xs → All (λ x. a ≤ x) xs
All-lower a b [] le h = tt
All-lower a b (x ∷ xs) le h = (omega (arith, le, h.0), All-lower a b xs le h.1)

All-snoc : (a d : ℕ) (xs : List ℕ) → a ≤ d → All (λ x. a ≤ x) xs → All (λ x. a ≤ x) (xs ++ d ∷ [])
All-snoc a d [] le h = (le, tt)
All-snoc a d (x ∷ xs) le h = (h.0, All-snoc a d xs le h.1)

least_index-Least :
    (best depth : ℕ) (seen ds : List ℕ)
    → get_at best seen ≡ some depth
    → All (λ x. depth ≤ x) seen
    → Least (get_at (least_index (length seen) best depth ds) (seen ++ ds)) (seen ++ ds)
least_index-Least best depth seen [] e h = rw (append-nil, e) h
least_index-Least best depth seen (d ∷ ds) e h =
    let len : length (seen ++ d ∷ []) ≡ suc (length seen) =
      omega (arith, length-append seen (d ∷ [])) in
    let split : (seen ++ d ∷ []) ++ ds ≡ seen ++ d ∷ ds = append_assoc seen (d ∷ []) ds in
    elim (Bool-cases (ltb d depth)) [
      | inl lower ↦
          rw (lower, ← len, ← split)
            (least_index-Least (length seen) d (seen ++ d ∷ []) ds (get_at-length d seen)
              (All-snoc d d seen (omega arith) (All-lower d depth seen (ground arith) h)))
      | inr other ↦
          rw (other, ← len, ← split)
            (least_index-Least best depth (seen ++ d ∷ []) ds
              (get_at-append best depth seen (d ∷ []) e) (All-snoc depth d seen (ground arith) h))
    ]

-- Of a pool that is not empty, `check_and_scale` takes an index that is in range and whose depth
-- is not above that of any other replica.
pub victim-Least : (d : ℕ) (ds : List ℕ) → Least (get_at (victim_idx (d ∷ ds)) (d ∷ ds)) (d ∷ ds)
unfolding victim_idx
victim-Least d ds = least_index-Least 0 d (d ∷ []) ds refl (omega arith, tt)

module _ {F W T : Type 0} (calls : Scaling W T) (config : AutoscaleConfig F) where
  abbrev pub InBounds : List T → Type 0
  InBounds rs = (config.min_replicas ≤ length rs) × (length rs ≤ config.max_replicas)

  scaled_up-InBounds :
      (rs : List T) (result : Outcome T × W)
      → length rs < config.max_replicas
      → InBounds rs
      → InBounds (after_scale_up calls rs result).1
  scaled_up-InBounds rs (raised e, w) less h = h
  scaled_up-InBounds rs (returned r, w) less h =
      (omega (arith, length-append rs (r ∷ []), h.0), omega (arith, length-append rs (r ∷ [])))

  scaled_down-InBounds :
      (rest : List T) (result : Outcome (Unit {0}) × W)
      → InBounds rest
      → InBounds (after_scale_down calls rest result).1
  scaled_down-InBounds rest (raised e, w) h = h
  scaled_down-InBounds rest (returned u, w) h = h

  shrink-InBounds :
      (popped : Option (T × List T)) (rs : List T) (w : W)
      → OneLess popped (length rs)
      → config.min_replicas < length rs
      → InBounds rs
      → InBounds (shrink calls popped rs w).1
  shrink-InBounds none rs w len more h = h
  shrink-InBounds (some (v, rest)) rs w len more h =
      scaled_down-InBounds rest (calls.scale_down v w)
        (omega (arith, len, more), omega (arith, len, h.1))

  decide-InBounds :
      (depths : List ℕ) (rs : List T) (w : W)
      → InBounds rs
      → InBounds (decide calls config depths rs w).1
  unfolding decide
  decide-InBounds depths rs w h =
      elim (Bool-cases
        (all (leb config.queue_depth_high) depths && ltb (length rs) config.max_replicas)) [
          | inl e ↦ rw e (scaled_up-InBounds rs (calls.scale_up w) (ground arith) h)
          | inr e ↦
              elim (Bool-cases (
                all (λ d. leb d config.queue_depth_low) depths
                && ltb config.min_replicas (length rs))) [
                  | inl f ↦
                      rw (e, f)
                        (shrink-InBounds (pop_at (victim_idx depths) rs) rs w
                          (length-pop_at (victim_idx depths) rs) (ground arith) h)
                  | inr f ↦ rw (e, f) h
                ]
        ]

  read-InBounds :
      (rs : List T) (read : Outcome (List ℕ) × W)
      → InBounds rs
      → InBounds (after_reading calls config rs read).1
  read-InBounds rs (raised e, w) h = h
  read-InBounds rs (returned depths, w) h = decide-InBounds depths rs w h

  check-InBounds :
      (rs : List T) (w : W) → InBounds rs → InBounds (check_and_scale calls config rs w).1
  unfolding check_and_scale
  check-InBounds [] w h = h
  check-InBounds (r ∷ rs) w h = read-InBounds (r ∷ rs) (read_depths calls (r ∷ rs) w) h

  -- A pool whose size is between `min_replicas` and `max_replicas` stays there over any number of
  -- checks, whatever the readings are and whichever of the three callables raise.
  pub pool_bounded :
      (n : ℕ) (rs : List T) (w : W) → InBounds rs → InBounds (run_rounds calls n config rs w).0
  unfolding run_rounds
  pool_bounded zero rs w h = h
  pool_bounded (suc n) rs w h =
      pool_bounded n (check_and_scale calls config rs w).1 (check_and_scale calls config rs w).2
        (check-InBounds rs w h)

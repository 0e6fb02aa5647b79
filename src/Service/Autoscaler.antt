-- ===== src/Service/Autoscaler.antt =====
-- `ReplicaAutoscaler` of core/utils/autoscaler.py and `AutoscaleConfig` of core/utils/autoscale.py.
-- The three callables are parameters: what a depth reading returns, what `scale_up` and `scale_down`
-- do to the world, and whether they raise.
pub mod Laws
pub mod Examples
use data_pipeline_orchestrat.Base.{
  ℕ, zero, suc, ◌+◌, Option, none, some, List, [], ◌∷◌, ◌++◌, map, Bool, true, false, ◌&&◌, all,
  ltb, leb, length, pop_at, String, Exception, Outcome, returned, raised, Act, ◌>>=◌, pure,
  if◌then◌else◌, ℤ, FloatOps,
}

-- The block as pydantic has read it.
pub record AutoscaleConfig (F : Type 0) : Type 0 where
  pub min_replicas : ℕ
  pub max_replicas : ℕ
  pub queue_depth_high : ℕ
  pub queue_depth_low : ℕ
  pub check_interval_s : F

pub data AutoscaleError : Type 0 where
  extra_forbidden interval_not_positive below_one below_zero min_above_max low_not_below_high :
      AutoscaleError

-- The block of the YAML file; a field that is left out has its default.
pub record RawAutoscale (F : Type 0) : Type 0 where
  pub min_replicas : Option ℤ
  pub max_replicas : Option ℤ
  pub queue_depth_high : Option ℤ
  pub queue_depth_low : Option ℤ
  pub check_interval_s : Option F
  -- the keys of the block that are none of the above
  pub extra : List String

-- Field(default=default, ge=bound), read as a number
abbrev pub field_value : ℕ → ℕ → Option ℤ → Option ℕ
field_value default bound none = some default
field_value default bound (some i) = elim i [
  | ℤ.pos n ↦ (if leb bound n then some n else none)
  | ℤ.negsuc n ↦ none
]

pub data AutoscaleChecked (F : Type 0) : Type 0 where
  accepted : AutoscaleConfig F → AutoscaleChecked F
  refused : AutoscaleError → AutoscaleChecked F

-- `_check_consistency`
abbrev pub check_consistency : {F : Type 0} → AutoscaleConfig F → AutoscaleChecked F
check_consistency c =
    if ltb c.max_replicas c.min_replicas
    then refused min_above_max
    else (if leb c.queue_depth_high c.queue_depth_low
        then refused low_not_below_high
        else accepted c)

-- The fields in their order, then the model validator.
abbrev pub with_fields :
    {F : Type 0} → Option ℕ → Option ℕ → Option ℕ → Option ℕ → F → AutoscaleChecked F
with_fields none most high low interval = refused below_one
with_fields (some least) none high low interval = refused below_one
with_fields (some least) (some most) none low interval = refused below_zero
with_fields (some least) (some most) (some high) none interval = refused below_zero
with_fields (some least) (some most) (some high) (some low) interval = check_consistency (record {
  min_replicas = least;
  max_replicas = most;
  queue_depth_high = high;
  queue_depth_low = low;
  check_interval_s = interval;
})

module _ {F : Type 0} (ops : FloatOps F) where
  open ops use {literal, ltb_F}

  -- default=5.0
  abbrev pub interval_of : Option F → F
  interval_of none = literal 50 1
  interval_of (some interval) = interval

  -- AutoscaleConfig(**raw), with extra="forbid" and gt=0 on the interval
  pub make_config : RawAutoscale F → AutoscaleChecked F
  make_config raw = elim raw.extra [
    | key ∷ keys ↦ refused extra_forbidden
    | [] ↦
        (if ltb_F (literal 0 0) (interval_of raw.check_interval_s)
          then with_fields (field_value 1 1 raw.min_replicas) (field_value 1 1 raw.max_replicas)
              (field_value 15 0 raw.queue_depth_high) (field_value 2 0 raw.queue_depth_low)
              (interval_of raw.check_interval_s)
          else refused interval_not_positive)
  ]

-- What `check_and_scale` reports.
pub data Scaled : Type 0 where
  up down unchanged : Scaled

-- The callables of the constructor, on a world `W`.
pub record Scaling (W T : Type 0) : Type 0 where
  pub read_depth : T → Act W ℕ
  pub scale_up : Act W T
  pub scale_down : T → Act W (Unit {0})

-- What a call leaves: its result, the pool, and the world.
abbrev pub Result : Type 0 → Type 0 → Type 0
Result W T = Outcome Scaled × List T × W

-- min(range(len(depths)), key=depths): the first index of a least depth, with that depth
abbrev pub least_index : ℕ → ℕ → ℕ → List ℕ → ℕ
least_index i best depth [] = best
least_index i best depth (d ∷ ds) =
    if ltb d depth then least_index (suc i) i d ds else least_index (suc i) best depth ds

pub victim_idx : List ℕ → ℕ
victim_idx [] = 0
victim_idx (d ∷ ds) = least_index 1 0 d ds

module _ {W T : Type 0} (calls : Scaling W T) where
  -- [queue_depth_reader(r) for r in replicas]
  pub read_depths : List T → Act W (List ℕ)
  read_depths [] = pure []
  read_depths (r ∷ rs) = calls.read_depth r >>= λ d. read_depths rs >>= λ ds. pure (d ∷ ds)

  abbrev pub after_scale_up : List T → Outcome T × W → Result W T
  after_scale_up rs (raised e, w) = (raised e, rs, w)
  after_scale_up rs (returned r, w) = (returned up, rs ++ r ∷ [], w)

  abbrev pub after_scale_down : List T → Outcome (Unit {0}) × W → Result W T
  after_scale_down rest (raised e, w) = (raised e, rest, w)
  after_scale_down rest (returned u, w) = (returned down, rest, w)

  -- pop(victim_idx), then scale_down: the pool is shorter also where scale_down raises
  abbrev pub shrink : Option (T × List T) → List T → W → Result W T
  shrink none rs w = (raised (Exception.other "IndexError"), rs, w)
  shrink (some (victim, rest)) rs w = after_scale_down rest (calls.scale_down victim w)

module _ {F W T : Type 0} (calls : Scaling W T) where
  pub decide : AutoscaleConfig F → List ℕ → List T → W → Result W T
  unfolding victim_idx
  decide config depths rs w =
      if all (leb config.queue_depth_high) depths && ltb (length rs) config.max_replicas
      then after_scale_up calls rs (calls.scale_up w)
      else (if all (λ d. leb d config.queue_depth_low) depths && ltb config.min_replicas (length rs)
          then shrink calls (pop_at (victim_idx depths) rs) rs w
          else (returned unchanged, rs, w))

  abbrev pub after_reading : AutoscaleConfig F → List T → Outcome (List ℕ) × W → Result W T
  after_reading config rs (raised e, w) = (raised e, rs, w)
  after_reading config rs (returned depths, w) = decide config depths rs w

  pub check_and_scale : AutoscaleConfig F → List T → W → Result W T
  unfolding read_depths decide
  check_and_scale config [] w = (returned unchanged, [], w)
  check_and_scale config (r ∷ rs) w = after_reading config (r ∷ rs) (read_depths calls (r ∷ rs) w)

  -- `_run` for a number of rounds before `stop`: an error of a round is logged.
  pub run_rounds : ℕ → AutoscaleConfig F → List T → W → List T × W
  unfolding check_and_scale
  run_rounds zero config rs w = (rs, w)
  run_rounds (suc n) config rs w =
      let (result, rs1, w1) = check_and_scale config rs w in run_rounds n config rs1 w1

-- The background thread: whether there is one, and its stop event.
pub record Background : Type 0 where
  pub thread : Bool
  pub stop_event : Bool

-- `start`
pub start_thread : Background → Background
start_thread b = if b.thread then b else record { thread = true; stop_event = false }

-- `stop`
pub stop_thread : Background → Background
stop_thread b = record { thread = false; stop_event = true }

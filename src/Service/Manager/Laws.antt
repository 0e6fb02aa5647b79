-- ===== src/Service/Manager/Laws.antt =====
-- The names that the manager keeps, and what its calls do to them.
use data_pipeline_orchestrat.Base.{
  ◌≡◌, refl, arith, String, Option, none, some, List, [], ◌∷◌, false, ◌||◌, ◌&&◌, Dict, lookup,
  has_key, assign, delete, lookup-assign, lookup-delete, Outcome, returned, raised, if◌then◌else◌,
  Bool-cases, inl, inr, str_eq, eq_iff,
}
use data_pipeline_orchestrat.Service.Manager.{
  Processes, Manager, Status, running, name_taken, after_launch, start_pipeline, shut_down,
  stop_found, stop_pipeline, register_external_pipeline, unregister_external_pipeline,
  process_status, managed_statuses, update_running, status, Request, start, stop, register,
  unregister, serve, serve_all,
}

module _ {V : Type 0} where
  has_key-assign :
      (k j : String) (v : V) (d : Dict V) → has_key j (assign k v d) ≡ (str_eq k j || has_key j d)
  unfolding has_key
  has_key-assign k j v d = ground (arith, lookup-assign k j v d)

  has_key-delete :
      (k j : String) (d : Dict V)
      → has_key j (delete k d) ≡ (if str_eq k j then false else has_key j d)
  unfolding has_key
  has_key-delete k j d = ground (arith, lookup-delete k j d)

module _ {W P C : Type 0} (os : Processes W P C) where
  -- No name is both managed and external.
  abbrev pub Disjoint : Manager P C → Type 0
  Disjoint m = (k : String) → (has_key k m.pipelines && has_key k m.external_pipelines) ≡ false

  after_launch-Disjoint :
      (name : String) (m : Manager P C) (launched : Outcome P × W)
      → name_taken os name m ≡ false
      → Disjoint m
      → Disjoint (after_launch os name m launched).1
  unfolding name_taken
  after_launch-Disjoint name m (raised e, w) free h = h
  after_launch-Disjoint name m (returned p, w) free h =
      λ k. ground (arith, has_key-assign name k p m.pipelines, h k, eq_iff name k)

  found-Disjoint :
      (o : Option P) (name : String) (m : Manager P C) (w : W)
      → Disjoint m
      → Disjoint (stop_found os o name m w).1
  unfolding stop_found
  found-Disjoint none name m w h = h
  found-Disjoint (some p) name m w h = λ k. ground (arith, has_key-delete name k m.pipelines, h k)

  serve-Disjoint :
      (r : Request C) (m : Manager P C) (w : W) → Disjoint m → Disjoint (serve os r m w).1
  unfolding serve start_pipeline stop_pipeline register_external_pipeline
      unregister_external_pipeline name_taken
  serve-Disjoint (start name config) m w h = elim (Bool-cases (name_taken os name m)) [
    | inl e ↦ rw e h
    | inr e ↦ rw e (after_launch-Disjoint name m (os.launch name config w) e h)
  ]
  serve-Disjoint (stop name) m w h = found-Disjoint (lookup name m.pipelines) name m w h
  serve-Disjoint (register name config) m w h = elim (Bool-cases (name_taken os name m)) [
    | inl e ↦ rw e h
    | inr e ↦
        rw e (λ k.
          ground (arith, has_key-assign name k config m.external_pipelines, h k, eq_iff name k))
  ]
  serve-Disjoint (unregister name) m w h = elim (Bool-cases (has_key name m.external_pipelines)) [
    | inl e ↦ rw e (λ k. ground (arith, has_key-delete name k m.external_pipelines, h k))
    | inr e ↦ rw e h
  ]

  -- Whatever calls the manager serves, refused and failing ones among them, no name becomes both a
  -- managed and an external pipeline.
  pub serve_all-Disjoint :
      (rs : List (Request C)) (m : Manager P C) (w : W)
      → Disjoint m
      → Disjoint (serve_all os rs m w).0
  unfolding serve_all
  serve_all-Disjoint [] m w h = h
  serve_all-Disjoint (r ∷ rs) m w h =
      let (result, m1, w1) = serve os r m w in
      serve_all-Disjoint rs (serve os r m w).1 (serve os r m w).2 (serve-Disjoint r m w h)

  lookup-managed :
      (k : String) (d : Dict P) (w : W)
      → lookup k (managed_statuses os d w)
        ≡ elim (lookup k d) [ none ↦ none | some p ↦ some (process_status os p w) ]
  unfolding managed_statuses lookup
  lookup-managed k [] w = refl
  lookup-managed k ((name, p) ∷ rest) w = elim (Bool-cases (str_eq name k)) [
    | inl e ↦ rw e refl
    | inr e ↦ rw e (lookup-managed k rest w)
  ]

  lookup-update :
      (k : String) (d : Dict C) (s : Dict Status)
      → lookup k (update_running os d s) ≡ (if has_key k d then some running else lookup k s)
  unfolding update_running lookup has_key
  lookup-update k [] s = refl
  lookup-update k ((name, c) ∷ rest) s = ground (
    arith,
    lookup-update k rest (assign name running s),
    lookup-assign name k running s,
    eq_iff name k,
  )

  -- `status` reports every external pipeline as running, every other managed one by whether its
  -- process is alive, and no other name.
  pub status_exact :
      (k : String) (m : Manager P C) (w : W)
      → lookup k (status os m w) ≡ (
          if has_key k m.external_pipelines
          then some running
          else elim (lookup k m.pipelines) [ none ↦ none | some p ↦ some (process_status os p w) ])
  unfolding status
  status_exact k m w =
      rw
        (
          lookup-update k m.external_pipelines (managed_statuses os m.pipelines w),
          lookup-managed k m.pipelines w,
        )
        refl

  -- A pipeline that is started under a free name and then stopped leaves the managed names as they
  -- were; its process has been told to stop, joined, and terminated if it was still alive.
  pub start-stop :
      (name : String) (config : C) (m : Manager P C) (w w1 : W) (p : P)
      → name_taken os name m ≡ false
      → os.launch name config w ≡ (returned p, w1)
      → (k : String)
      → let (started, m1, w2) = start_pipeline os name config m w in
        let (ended, m2, w3) = stop_pipeline os name m1 w2 in
        (ended ≡ returned tt)
        × (w3 ≡ shut_down os p w1)
        × (lookup k m2.pipelines ≡ lookup k m.pipelines)
  unfolding start_pipeline stop_pipeline stop_found name_taken has_key
  start-stop name config m w w1 p free launched k =
      let entry : lookup name (assign name p m.pipelines) ≡ some p =
        ground (arith, lookup-assign name name p m.pipelines, eq_iff name name) in
      rw (free, launched, entry) (refl, refl, restored)
    where
      restored : lookup k (delete name (assign name p m.pipelines)) ≡ lookup k m.pipelines
      restored = ground (
        arith,
        lookup-delete name k (assign name p m.pipelines),
        lookup-assign name k p m.pipelines,
        eq_iff name k,
      )

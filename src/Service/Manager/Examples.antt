-- ===== src/Service/Manager/Examples.antt =====
-- The manager with processes that live until they are told to stop; the world counts launches.
use data_pipeline_orchestrat.Base.{
  ℕ, ◌+◌, ◌≡◌, refl, List, [], ◌∷◌, true, false, lookup, has_key, returned, ◌&&◌,
}
use data_pipeline_orchestrat.Service.Manager.{
  Processes, Manager, Request, start, stop, register, serve_all,
}
use data_pipeline_orchestrat.Service.Manager.Laws.{Disjoint, serve_all-Disjoint}

abbrev processes : Processes ℕ ℕ ℕ
processes = record {
  launch = λ name config w. (returned w, w + 1);
  set_stop = λ p w. w;
  join = λ p w. w;
  is_alive = λ p w. true;
  terminate = λ p w. w;
}

abbrev fresh : Manager ℕ ℕ
fresh = record { pipelines = []; external_pipelines = [] }

abbrev requests : List (Request ℕ)
requests = start "asr" 0 ∷ register "asr" 1 ∷ register "mic" 1 ∷ stop "mic" ∷ []

fresh-Disjoint : Disjoint processes fresh
unfolding has_key lookup
fresh-Disjoint = λ k. refl

serve_all-Disjoint_example :
    (has_key "asr" (serve_all processes requests fresh 0).0.pipelines
      && has_key "asr" (serve_all processes requests fresh 0).0.external_pipelines)
    ≡ false
serve_all-Disjoint_example = serve_all-Disjoint processes requests fresh 0 fresh-Disjoint "asr"

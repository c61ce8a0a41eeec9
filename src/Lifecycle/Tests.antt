-- ===== src/Lifecycle/Tests.antt =====
-- src/k8s/serve-main.ts: a pod that is told to stop.
use nodejs_advanced_homework.Prelude.{true, [], false, ◌≡◌, ◌∷◌, List}
use nodejs_advanced_homework.Lifecycle.{
  sigterm, booted, closed, live, readiness, fresh_pod, Happening, middleware,
}
use nodejs_advanced_homework.Lifecycle.Probes.{run, readyz-is_ready_after}

abbrev a_life : List Happening
a_life = booted ∷ sigterm ∷ closed ∷ []

readyz-is_ready_after_example :
    (middleware (run a_life fresh_pod).lifecycle "/readyz" ≡ readiness 503 false true)
    × (middleware (run a_life fresh_pod).lifecycle "/healthz" ≡ live)
readyz-is_ready_after_example = readyz-is_ready_after a_life

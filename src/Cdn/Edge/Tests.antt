-- ===== src/Cdn/Edge/Tests.antt =====
-- src/cdn/edge.ts: two assets that the budget does not hold together.
use nodejs_advanced_homework.Prelude.{
  refl, starts_with, [], codes, ◌∷◌, ◌≡◌, none, Option, List, String, some, ℕ,
}
use nodejs_advanced_homework.Cdn.Headers.{cacheable_seconds}
use nodejs_advanced_homework.Cdn.Edge.{
  is_served, join_fetch, drop, evict, found, store, settle, resume, look_up, arrive, EdgeStats,
  Edge, EdgeOptions, Env, Request, StoredObject,
}
use nodejs_advanced_homework.Cdn.Edge.Serving.{
  resumes, ends, IsServing, comes, empty_edge, Step, step, run, run-empty_edge,
}

abbrev five_bytes : EdgeOptions
five_bytes = record { max_bytes = 5; max_object_bytes = 4 }

abbrev plain : Env
plain = record { now = 1000; decode = λ s. some s; number = λ s. some 60 }

abbrev get : String → Request
get url = record { method = "GET"; url = url; if_none_match = none }

abbrev asset : List ℕ → StoredObject
asset body = record {
  body = body;
  content_type = none;
  cache_control = some "public, max-age=60";
  etag = none;
}

abbrev two_assets : List Step
two_assets =
    comes plain (get "/assets/a")
    ∷ ends (codes "assets/a")
    ∷ resumes plain (get "/assets/a") (codes "assets/a") (found (asset (1 ∷ 2 ∷ 3 ∷ [])))
    ∷ comes plain (get "/assets/b?v=1")
    ∷ ends (codes "assets/b")
    ∷ resumes plain (get "/assets/b?v=1") (codes "assets/b") (found (asset (4 ∷ 5 ∷ 6 ∷ 7 ∷ [])))
    ∷ comes plain (get "/assets/b")
    ∷ []

abbrev counters : Option Edge → Option EdgeStats
counters none = none
counters (some edge) = some edge.stats

two_assets_counted :
    counters (run five_bytes two_assets empty_edge)
    ≡ some (record { hits = 1; misses = 2; origin_fetches = 2; cached_bytes = 4; evictions = 1 })
unfolding run step arrive look_up resume settle store evict drop join_fetch is_served
    cacheable_seconds starts_with
two_assets_counted = refl

run-empty_edge_example :
    (e : Edge) × (run five_bytes two_assets empty_edge ≡ some e) × IsServing five_bytes e
run-empty_edge_example = run-empty_edge five_bytes two_assets

-- ===== src/Cdn/Edge/Serving.antt =====
-- src/cdn/edge.ts: what holds whatever requests come, and whenever the origin answers them.
use nodejs_advanced_homework.Prelude.{
  ◌*◌, ◌+◌, ◌||◌, length, str_eq, leb, codes, ◌&&◌, inr, ap, Option-cases, ◌∙◌, inl, refl,
  Bool-cases, arith, not, false, filter, ltb, none, any, ◌∷◌, find?, some, ◌≤◌, ◌≡◌, count, Bool,
  [], List, Option, ℕ,
}
use nodejs_advanced_homework.Cdn.Edge.{
  strip_slashes, is_served, split_on, cacheable_seconds, head_of, failed, missing, count_hit,
  count_miss, is_named, found, look_up, EdgeStats, resume, waits, store, same_codes, settle,
  answered, Origin, drop, arrive, Reply, Arrival, Request, size, join_fetch, Env, EdgeOptions, Edge,
  Entry,
}
use nodejs_advanced_homework.Cdn.Edge.Bytes.{
  same_codes-eq, drop-inflight, drop-bytes, drop-IsCounted, IsConsistent, store-IsConsistent,
}

-- What runs without an `await`: a request comes, a fetch ends, a waiting request has its answer.
pub data Step : Type 0 where
  comes : Env → Request → Step
  ends : List ℕ → Step
  resumes : Env → Request → List ℕ → Origin → Step

abbrev after_arrival : Option Arrival → Option Edge
after_arrival none = none
after_arrival (some (answered reply edge)) = some edge
after_arrival (some (waits key edge)) = some edge

abbrev after_answer : Option (Reply × Edge) → Option Edge
after_answer none = none
after_answer (some (reply, edge)) = some edge

unfoldable pub step : EdgeOptions → Step → Edge → Option Edge
step opts (comes env req) edge = after_arrival (arrive opts env req edge)
step opts (ends key) edge = some (settle key edge)
step opts (resumes env req key origin) edge = after_answer (resume opts env req key origin edge)

unfoldable pub run : EdgeOptions → List Step → Edge → Option Edge
run opts [] edge = some edge
run opts (s ∷ ss) edge = elim (step opts s edge) [ none ↦ none | some next ↦ run opts ss next ]

-- `createEdge`
abbrev pub empty_edge : Edge
empty_edge = record {
  cache = [];
  inflight = [];
  stats = record { hits = 0; misses = 0; origin_fetches = 0; cached_bytes = 0; evictions = 0 };
}

-- The cache is consistent, and no key is fetched twice at a time.
pub record IsServing (opts : EdgeOptions) (edge : Edge) : Type 0 where
  pub consistent : IsConsistent opts edge
  pub single : (k : List ℕ) → count (λ j. same_codes j k) edge.inflight ≤ 1

found-small :
    (opts : EdgeOptions) (p : Entry → Bool) (es : List Entry) (e : Entry)
    → find? p es ≡ some e
    → any (λ e. ltb opts.max_object_bytes (size e)) es ≡ false
    → size e ≤ opts.max_object_bytes
found-small opts p [] e f h = cc
found-small opts p (x ∷ xs) e f h = ground (arith, found-small opts p xs e)

filter-single :
    (key k : List ℕ) (ks : List (List ℕ))
    → count (λ j. same_codes j k) (filter (λ j. not (same_codes j key)) ks)
      ≤ count (λ j. same_codes j k) ks
filter-single key k [] = omega arith
filter-single key k (j ∷ ks) = ground (arith, filter-single key k ks)

none-count :
    (k : List ℕ) (ks : List (List ℕ))
    → any (λ j. same_codes j k) ks ≡ false
    → count (λ j. same_codes j k) ks ≡ 0
none-count k [] h = refl
none-count k (j ∷ ks) h = ground (arith, none-count k ks)

cons-single :
    (key k : List ℕ) (ks : List (List ℕ))
    → any (λ j. same_codes j key) ks ≡ false
    → count (λ j. same_codes j k) ks ≤ 1
    → count (λ j. same_codes j k) (key ∷ ks) ≤ 1
cons-single key k ks new single = elim (Bool-cases (same_codes key k)) [
  | inl t ↦
      let same = ap (λ j. count (λ (i : List ℕ). same_codes i j) ks) (same_codes-eq key k t) in
      ground (arith, same, none-count key ks new)
  | inr f ↦ ground (arith, single)
]

module _ (opts : EdgeOptions) where
  abbrev Serves : Option Edge → Type 0
  Serves result = (e : Edge) × (result ≡ some e) × IsServing opts e

  drop-IsServing :
      (key : List ℕ) (edge : Edge) → IsServing opts edge → IsServing opts (drop key edge)
  drop-IsServing key edge i =
      let c = i.consistent in
      let d =
        drop-IsCounted opts key edge
          (record { bytes = c.bytes; keyed = c.keyed; small = c.small }) in
      record {
        consistent = record {
          bytes = d.bytes;
          within = omega (arith, drop-bytes key edge, c.within);
          keyed = d.keyed;
          small = d.small;
        };
        single = λ k. rw (drop-inflight key edge) (i.single k);
      }

  join_fetch-IsServing :
      (key : List ℕ) (edge : Edge) → IsServing opts edge → IsServing opts (join_fetch key edge)
  unfolding join_fetch
  join_fetch-IsServing key edge i = elim (Bool-cases (any (λ k. same_codes k key) edge.inflight)) [
    | inl t ↦ rw t i
    | inr f ↦ rw f (record {
      consistent = record {
        bytes = i.consistent.bytes;
        within = i.consistent.within;
        keyed = i.consistent.keyed;
        small = i.consistent.small;
      };
      single = λ k. cons-single key k edge.inflight f (i.single k);
    })
  ]

  store-IsServing :
      (entry : Entry) (edge : Edge)
      → IsServing opts edge
      → size entry ≤ opts.max_object_bytes
      → Serves (store opts entry edge)
  store-IsServing entry edge i fits =
      let (e, k, c, same) = store-IsConsistent opts entry edge i.consistent fits in
      (e, k, record { consistent = c; single = λ k. rw same (i.single k) })

  counted-IsServing :
      (stats : EdgeStats) (edge : Edge)
      → IsServing opts edge
      → stats.cached_bytes ≡ edge.stats.cached_bytes
      → IsServing opts (record edge { stats = stats })
  counted-IsServing stats edge i h = record {
    consistent = record {
      bytes = h ∙ i.consistent.bytes;
      within = omega (arith, i.consistent.within);
      keyed = i.consistent.keyed;
      small = i.consistent.small;
    };
    single = i.single;
  }

  look_up-IsServing :
      (env : Env) (req : Request) (key : List ℕ) (edge : Edge)
      → IsServing opts edge
      → Serves (after_arrival (look_up opts env req key edge))
  unfolding look_up
  look_up-IsServing env req key edge i = elim (Option-cases (find? (is_named key) edge.cache)) [
    | inl n ↦ (
      join_fetch key (count_miss edge),
      ground arith,
      join_fetch-IsServing key (count_miss edge) (counted-IsServing _ edge i refl),
    )
    | inr (entry, f) ↦ elim (Bool-cases (ltb env.now entry.expires_at)) [
      | inl fresh ↦
          let (e, k, s) =
            store-IsServing entry (count_hit edge) (counted-IsServing _ edge i refl)
              (found-small opts (is_named key) edge.cache entry f i.consistent.small) in
          (e, ground arith, s)
      | inr old ↦ (
        join_fetch key (count_miss (drop key edge)),
        ground arith,
        join_fetch-IsServing key (count_miss (drop key edge))
            (counted-IsServing _ (drop key edge) (drop-IsServing key edge i) refl),
      )
    ]
  ]

  arrive-IsServing :
      (env : Env) (req : Request) (edge : Edge)
      → IsServing opts edge
      → Serves (after_arrival (arrive opts env req edge))
  unfolding arrive
  arrive-IsServing env req edge i =
      elim (Option-cases (env.decode (head_of (split_on b'?' (codes req.url))))) [
        | inl n ↦ (edge, ground arith, i)
        | inr (path, d) ↦ elim (Bool-cases (str_eq req.method "GET" || str_eq req.method "HEAD")) [
          | inr m ↦ (edge, ground arith, i)
          | inl m ↦ elim (Bool-cases (is_served (strip_slashes path))) [
            | inr n ↦ (edge, ground arith, i)
            | inl y ↦
                let (e, k, s) = look_up-IsServing env req (strip_slashes path) edge i in
                (e, ground arith, s)
          ]
        ]
      ]

  resume-IsServing :
      (env : Env) (req : Request) (key : List ℕ) (origin : Origin) (edge : Edge)
      → IsServing opts edge
      → Serves (after_answer (resume opts env req key origin edge))
  unfolding resume
  resume-IsServing env req key failed edge i = (edge, refl, i)
  resume-IsServing env req key missing edge i = (edge, refl, i)
  resume-IsServing env req key (found obj) edge i =
      let ttl = cacheable_seconds env.number obj.cache_control in
      elim (Bool-cases (ltb 0 ttl && leb (length obj.body) opts.max_object_bytes)) [
        | inl y ↦
            let entry : Entry = record {
              key = key;
              obj = obj;
              expires_at = env.now + ttl * 1000;
            } in
            let (e, k, s) = store-IsServing entry edge i (ground arith) in (e, ground arith, s)
        | inr n ↦ (edge, ground arith, i)
      ]

  step-IsServing : (s : Step) (edge : Edge) → IsServing opts edge → Serves (step opts s edge)
  unfolding step settle
  step-IsServing (comes env req) edge i = arrive-IsServing env req edge i
  step-IsServing (ends key) edge i = (
    settle key edge,
    refl,
    record {
      consistent = record {
        bytes = i.consistent.bytes;
        within = i.consistent.within;
        keyed = i.consistent.keyed;
        small = i.consistent.small;
      };
      single = λ k. omega (arith, i.single k, filter-single key k edge.inflight);
    },
  )
  step-IsServing (resumes env req key origin) edge i = resume-IsServing env req key origin edge i

  run-IsServing : (ss : List Step) (edge : Edge) → IsServing opts edge → Serves (run opts ss edge)
  unfolding run
  run-IsServing [] edge i = (edge, refl, i)
  run-IsServing (s ∷ ss) edge i =
      let (next, k, n) = step-IsServing s edge i in
      let (e, j, m) = run-IsServing ss next n in (e, ground arith, m)

-- Whatever requests come, and however the origin's answers fall between them, every step ends (the
-- eviction loop too), the byte counter is what the cached bodies hold and within the budget, no key is
-- cached or fetched twice at a time, and no cached object is above the object limit.
pub run-empty_edge :
    (opts : EdgeOptions) (ss : List Step)
    → (e : Edge) × (run opts ss empty_edge ≡ some e) × IsServing opts e
run-empty_edge opts ss = run-IsServing opts ss empty_edge (record {
  consistent = record {
    bytes = refl;
    within = omega arith;
    keyed = λ k. omega arith;
    small = refl;
  };
  single = λ k. omega arith;
})

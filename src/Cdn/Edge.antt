-- ===== src/Cdn/Edge.antt =====
-- src/cdn/edge.ts: the cache, its requests and what the origin answers. A request that misses waits for
-- the origin, and other requests come meanwhile: each step is what runs without an `await`.
pub mod Tests
pub mod Bytes
pub mod Serving
use nodejs_advanced_homework.Prelude.{
  or_else, ℕ, zero, suc, ◌+◌, ◌-◌, ◌*◌, min, Bool, true, false, not, ◌&&◌, ◌||◌, Option, none, some,
  List, [], ◌∷◌, ◌++◌, String, str_eq, ltb, leb, ◌==◌, if◌then◌else◌, any, find?, filter, length,
  codes, is_some,
}
use nodejs_advanced_homework.Cdn.Headers.{
  split_on, same_codes, is_text, has_start, cacheable_seconds, etag_matches,
}

pub record StoredObject : Type 0 where
  pub body : List ℕ
  pub content_type : Option String
  pub cache_control : Option String
  pub etag : Option String

pub record Entry : Type 0 where
  pub key : List ℕ
  pub obj : StoredObject
  pub expires_at : ℕ

pub record EdgeStats : Type 0 where
  pub hits : ℕ
  pub misses : ℕ
  pub origin_fetches : ℕ
  pub cached_bytes : ℕ
  pub evictions : ℕ

pub record EdgeOptions : Type 0 where
  pub max_bytes : ℕ
  pub max_object_bytes : ℕ

-- `createEdge`: an object that the budget cannot hold is never cached
unfoldable pub edge_options : Option ℕ → Option ℕ → EdgeOptions
edge_options max_bytes max_object_bytes =
    let budget = or_else max_bytes 67108864 in
    record { max_bytes = budget; max_object_bytes = min (or_else max_object_bytes 10485760) budget }

-- The Map, the least recently used first; the keys that are being fetched; the counters.
pub record Edge : Type 0 where
  pub cache : List Entry
  pub inflight : List (List ℕ)
  pub stats : EdgeStats

abbrev pub size : Entry → ℕ
size entry = length entry.obj.body

abbrev pub is_named : List ℕ → Entry → Bool
is_named key entry = same_codes entry.key key

abbrev pub without : List ℕ → List Entry → List Entry
without key cache = filter (λ entry. not (is_named key entry)) cache

abbrev pub with_bytes : ℕ → Edge → Edge
with_bytes n edge = record edge { stats = record edge.stats { cached_bytes = n } }

unfoldable pub drop : List ℕ → Edge → Edge
drop key edge = elim (find? (is_named key) edge.cache) [
  | none ↦ edge
  | some entry ↦
      with_bytes (edge.stats.cached_bytes - size entry)
        (record edge { cache = without key edge.cache })
]

abbrev pub evicted : Edge → Edge
evicted edge = record edge { stats = record edge.stats { evictions = suc edge.stats.evictions } }

-- `drop(cache.keys().next().value!)`
abbrev pub drop_first : List Entry → Edge → Edge
drop_first [] edge = edge
drop_first (entry ∷ cache) edge = drop entry.key edge

-- `while (stats.cachedBytes > maxBytes)`; none is a loop that the fuel does not see the end of
unfoldable pub evict : EdgeOptions → ℕ → Edge → Option Edge
evict opts zero edge = none
evict opts (suc fuel) edge =
    let rest = evict opts fuel (evicted (drop_first edge.cache edge)) in
    if ltb opts.max_bytes edge.stats.cached_bytes then rest else some edge

unfoldable pub store : EdgeOptions → Entry → Edge → Option Edge
store opts entry edge =
    let dropped = drop entry.key edge in
    let added =
      with_bytes (dropped.stats.cached_bytes + size entry)
        (record dropped { cache = dropped.cache ++ entry ∷ [] }) in
    evict opts (suc (length added.cache)) added

pub record Request : Type 0 where
  pub method : String
  pub url : String
  pub if_none_match : Option String

pub data XCache : Type 0 where
  hit miss : XCache

pub data Reply : Type 0 where
  bad_request method_not_allowed not_found bad_gateway : Reply
  not_modified : XCache → StoredObject → Reply
  content : XCache → StoredObject → (with_body : Bool) → Reply

pub record Env : Type 0 where
  pub now : ℕ
  -- `decodeURIComponent`, none when it throws
  pub decode : List ℕ → Option (List ℕ)
  -- `Number`, of a text that stands for a finite positive number
  pub number : List ℕ → Option ℕ

abbrev matches_etag : Option String → Option String → Bool
matches_etag if_none_match none = false
matches_etag if_none_match (some etag) = not (str_eq etag "") && etag_matches if_none_match etag

unfoldable pub send : Request → StoredObject → XCache → Reply
send req obj x_cache =
    if matches_etag req.if_none_match obj.etag
    then not_modified x_cache obj
    else content x_cache obj (not (str_eq req.method "HEAD"))

-- `.split('?')[0]`
abbrev pub head_of : List (List ℕ) → List ℕ
head_of [] = []
head_of (part ∷ parts) = part

-- `.replace(/^\/+/, '')`
abbrev pub strip_slashes : List ℕ → List ℕ
strip_slashes [] = []
strip_slashes (c ∷ s) = let rest = strip_slashes s in if c == b'/' then rest else c ∷ s

unfoldable pub is_served : List ℕ → Bool
is_served key = has_start "assets/" key && not (any (is_text "..") (split_on b'/' key))

-- The request was answered, or waits for the fetch of its key.
pub data Arrival : Type 0 where
  answered : Reply → Edge → Arrival
  waits : List ℕ → Edge → Arrival

abbrev pub count_miss : Edge → Edge
count_miss edge = record edge { stats = record edge.stats { misses = suc edge.stats.misses } }

-- `inflight.get(key)`, and the fetch if there is none
unfoldable pub join_fetch : List ℕ → Edge → Edge
join_fetch key edge = if any (λ k. same_codes k key) edge.inflight then edge else record edge {
  inflight = key ∷ edge.inflight;
  stats = record edge.stats { origin_fetches = suc edge.stats.origin_fetches };
}

abbrev pub count_hit : Edge → Edge
count_hit edge = record edge { stats = record edge.stats { hits = suc edge.stats.hits } }

abbrev pub serve_hit : EdgeOptions → Request → Entry → Edge → Option Arrival
serve_hit opts req entry edge = elim (store opts entry (count_hit edge)) [
  | none ↦ none
  | some stored ↦ some (answered (send req entry.obj hit) stored)
]

unfoldable pub look_up : EdgeOptions → Env → Request → List ℕ → Edge → Option Arrival
look_up opts env req key edge = elim (find? (is_named key) edge.cache) [
  | none ↦ some (waits key (join_fetch key (count_miss edge)))
  | some entry ↦
      if ltb env.now entry.expires_at
      then serve_hit opts req entry edge
      else some (waits key (join_fetch key (count_miss (drop key edge))))
]

unfoldable pub arrive : EdgeOptions → Env → Request → Edge → Option Arrival
arrive opts env req edge = elim (env.decode (head_of (split_on b'?' (codes req.url)))) [
  | none ↦ some (answered bad_request edge)
  | some path ↦
      let key = strip_slashes path in
      if not (str_eq req.method "GET" || str_eq req.method "HEAD")
      then some (answered method_not_allowed edge)
      else if not (is_served key)
      then some (answered not_found edge)
      else look_up opts env req key edge
]

-- `.finally(() => inflight.delete(key))`
unfoldable pub settle : List ℕ → Edge → Edge
settle key edge = record edge { inflight = filter (λ k. not (same_codes k key)) edge.inflight }

abbrev pub keep : EdgeOptions → Env → List ℕ → StoredObject → Edge → Option Edge
keep opts env key obj edge =
    let ttl = cacheable_seconds env.number obj.cache_control in
    if ltb 0 ttl && leb (length obj.body) opts.max_object_bytes
    then store opts (record { key = key; obj = obj; expires_at = env.now + ttl * 1000 }) edge
    else some edge

-- What a waiting request does with the origin's answer; `failed` is a fetch that threw.
pub data Origin : Type 0 where
  failed missing : Origin
  found : StoredObject → Origin

unfoldable pub resume : EdgeOptions → Env → Request → List ℕ → Origin → Edge → Option (Reply × Edge)
resume opts env req key failed edge = some (bad_gateway, edge)
resume opts env req key missing edge = some (not_found, edge)
resume opts env req key (found obj) edge = elim (keep opts env key obj edge) [
  | none ↦ none
  | some kept ↦ some (send req obj miss, kept)
]

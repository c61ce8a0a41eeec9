-- ===== src/RateLimit/Waiting.antt =====
-- src/rate-limit/sliding-window.ts: `retryAfterMs` is exactly how long a refused client has to wait.
use nodejs_advanced_homework.Prelude.{
  All-map, All-filter, ◌-◌, subst, ◌↔◌, true, false, refl, inr, str_eq, inl, not, suc, [], ◌+◌, ltb,
  ◌<◌, filter, ◌≡◌, leb, String, Bool-cases, arith, Bool, All, ◌∷◌, ◌≤◌, length, List, ℕ,
}
use nodejs_advanced_homework.RateLimit.{
  wait_for, insert_entry, trim, present, zadd, Entry, RateLimitConfig, Window, hit,
}

abbrev pub IsSorted : List Entry → Type 0
IsSorted [] = Unit {0}
IsSorted (e ∷ es) = All (λ (x : Entry). e.score ≤ x.score) es × IsSorted es

-- The sorted set of a key, as hits up to `last` leave it.
pub record IsWindow (config : RateLimitConfig) (last : ℕ) (w : Window) : Type 0 where
  pub sorted : IsSorted w.entries
  pub short : length w.entries ≤ config.limit
  pub early : All (λ (e : Entry). e.score ≤ last) w.entries
  pub lives : All (λ (e : Entry). e.score + config.window_ms ≤ w.expires_at) w.entries

module _ (P : Entry → Type 0) where
  All-insert_entry : (e : Entry) (es : List Entry) → P e → All P es → All P (insert_entry e es)
  All-insert_entry e [] h a = (h, tt)
  All-insert_entry e (x ∷ xs) h (k, a) = elim (Bool-cases (leb x.score e.score)) [
    | inl t ↦ rw t (k, All-insert_entry e xs h a)
    | inr f ↦ rw f (h, (k, a))
  ]

filter-IsSorted : (p : Entry → Bool) (es : List Entry) → IsSorted es → IsSorted (filter p es)
filter-IsSorted p [] s = tt
filter-IsSorted p (e ∷ es) (l, s) = elim (Bool-cases (p e)) [
  | inl t ↦ rw t (All-filter _ p es l, filter-IsSorted p es s)
  | inr f ↦ rw f (filter-IsSorted p es s)
]

insert_entry-IsSorted : (e : Entry) (es : List Entry) → IsSorted es → IsSorted (insert_entry e es)
insert_entry-IsSorted e [] s = (tt, tt)
insert_entry-IsSorted e (x ∷ xs) (l, s) = elim (Bool-cases (leb x.score e.score)) [
  | inl t ↦ rw t (
    All-insert_entry (λ (y : Entry). x.score ≤ y.score) e xs (ground arith) l,
    insert_entry-IsSorted e xs s,
  )
  | inr f ↦ rw f (
    (
      ground arith,
      All-map (λ (y : Entry). x.score ≤ y.score) (λ (y : Entry). e.score ≤ y.score) xs
          (λ y h. ground arith) l,
    ),
    (l, s),
  )
]

length-filter-le : (p : Entry → Bool) (es : List Entry) → length (filter p es) ≤ length es
length-filter-le p [] = omega arith
length-filter-le p (e ∷ es) = ground (arith, length-filter-le p es)

length-insert_entry : (e : Entry) (es : List Entry) → length (insert_entry e es) ≡ suc (length es)
length-insert_entry e [] = refl
length-insert_entry e (x ∷ xs) = ground (arith, length-insert_entry e xs)

-- What is left of a set, and a set with a new entry, are windows too.
filter-IsWindow :
    (config : RateLimitConfig) (last : ℕ) (p : Entry → Bool) (w : Window)
    → IsWindow config last w
    → IsWindow config last (record w { entries = filter p w.entries })
filter-IsWindow config last p w i = record {
  sorted = filter-IsSorted p w.entries i.sorted;
  short = omega (arith, i.short, length-filter-le p w.entries);
  early = All-filter _ p w.entries i.early;
  lives = All-filter _ p w.entries i.lives;
}

zadd-IsWindow :
    (config : RateLimitConfig) (last now : ℕ) (m : String) (w : Window)
    → last ≤ now
    → length w.entries < config.limit
    → IsWindow config last w
    → IsWindow config now
        (record { entries = zadd now m w.entries; expires_at = now + config.window_ms })
unfolding zadd
zadd-IsWindow config last now m w later room i =
    let p : Entry → Bool = λ e. not (str_eq e.member m) in
    let new : Entry = record { score = now; member = m } in
    let left = filter-IsWindow config last p w i in
    let early =
      All-map (λ (e : Entry). e.score ≤ last) (λ (e : Entry). e.score ≤ now) (filter p w.entries)
        (λ e h. omega arith) left.early in
    record {
      sorted = insert_entry-IsSorted new (filter p w.entries) left.sorted;
      short =
          omega (arith, length-insert_entry new (filter p w.entries), length-filter-le p w.entries);
      early = All-insert_entry _ new (filter p w.entries) (omega arith) early;
      lives = All-insert_entry _ new (filter p w.entries) (omega arith) (
          All-map (λ (e : Entry). e.score ≤ now)
            (λ (e : Entry). e.score + config.window_ms ≤ now + config.window_ms)
            (filter p w.entries) (λ e h. omega arith) early);
    }

later-IsWindow :
    (config : RateLimitConfig) (last now : ℕ) (w : Window)
    → last ≤ now
    → IsWindow config last w
    → IsWindow config now w
later-IsWindow config last now w later i = record {
  sorted = i.sorted;
  short = i.short;
  lives = i.lives;
  early =
      All-map (λ (e : Entry). e.score ≤ last) (λ (e : Entry). e.score ≤ now) w.entries
        (λ e h. omega arith) i.early;
}

present-IsWindow :
    (config : RateLimitConfig) (last now : ℕ) (w : Window)
    → IsWindow config last w
    → IsWindow config last (record w { entries = present now w })
present-IsWindow config last now w i = elim (Bool-cases (ltb now w.expires_at)) [
  | inl t ↦ rw t (record { sorted = i.sorted; short = i.short; early = i.early; lives = i.lives })
  | inr f ↦ rw f (record { sorted = tt; short = omega arith; early = tt; lives = tt })
]

-- Every hit keeps the set sorted by time, no longer than the limit and alive as long as its entries count,
-- as long as the clock does not go back.
hit-IsWindow :
    (config : RateLimitConfig) (last now : ℕ) (m : String) (w : Window)
    → last ≤ now
    → IsWindow config last w
    → IsWindow config now (hit config now m w).1
unfolding hit trim
hit-IsWindow config last now m w later i =
    let p : Entry → Bool = λ e. ltb now (e.score + config.window_ms) in
    let left = filter-IsWindow config last p _ (present-IsWindow config last now w i) in
    elim (Bool-cases (ltb (length (filter p (present now w))) config.limit)) [
      | inl t ↦ rw t (zadd-IsWindow config last now m _ later (ground arith) left)
      | inr f ↦ rw f (later-IsWindow config last now _ later left)
    ]

-- A refused client's turn comes when the oldest entry of the window has left it.
refused-wait :
    (config : RateLimitConfig) (now : ℕ) (m : String) (w : Window)
    → 1 ≤ config.limit
    → (hit config now m w).0.allowed ≡ false
    → ((hit config now m w).1.entries ≡ trim config.window_ms now w.entries)
      × ((hit config now m w).1.expires_at ≡ w.expires_at)
      × (now < w.expires_at)
      × (config.limit ≤ length (trim config.window_ms now w.entries))
      × ((hit config now m w).0.retry_after_ms
          ≡ wait_for config.window_ms now (trim config.window_ms now w.entries))
unfolding hit trim
refused-wait config now m w pos h = elim (Bool-cases (ltb now w.expires_at)) [
  | inl t ↦ (ground arith, ground arith, ground arith, ground arith, ground arith)
  | inr f ↦ absurd (ground arith)
]

trim-kept :
    (window now from : ℕ) (es : List Entry)
    → now < from + window
    → All (λ (e : Entry). from ≤ e.score) es
    → trim window now es ≡ es
unfolding trim
trim-kept window now from [] h a = refl
trim-kept window now from (e ∷ es) h (k, a) = ground (arith, trim-kept window now from es h a)

-- A full set lets the next request in when its oldest entry is over.
full-allowed_iff :
    (config : RateLimitConfig) (now expires_at : ℕ) (m : String) (o : Entry) (es : List Entry)
    → length (o ∷ es) ≡ config.limit
    → IsSorted (o ∷ es)
    → o.score + config.window_ms ≤ expires_at
    → ((hit config now m (record { entries = o ∷ es; expires_at = expires_at })).0.allowed ≡ true)
      ↔ (o.score + config.window_ms ≤ now)
unfolding hit trim
full-allowed_iff config now expires_at m o es full (lowest, s) lives =
    elim (Bool-cases (ltb now (o.score + config.window_ms))) [
      | inl t ↦ ground (arith, trim-kept config.window_ms now o.score es (ground arith) lowest)
      | inr f ↦
          ground (arith, length-filter-le (λ (e : Entry). ltb now (e.score + config.window_ms)) es)
    ]

full_window-allowed_iff :
    (config : RateLimitConfig) (now now' expires_at : ℕ) (m : String) (entries : List Entry)
    → 1 ≤ config.limit
    → config.limit ≤ length entries
    → IsWindow config now (record { entries = entries; expires_at = expires_at })
    → All (λ (e : Entry). now < e.score + config.window_ms) entries
    → ((hit config now' m (record { entries = entries; expires_at = expires_at })).0.allowed ≡ true)
      ↔ (now + wait_for config.window_ms now entries ≤ now')
full_window-allowed_iff config now now' expires_at m [] pos full i a = absurd (omega arith)
full_window-allowed_iff config now now' expires_at m (o ∷ es) pos full i (young, a) =
    let same : now + ((o.score + config.window_ms) - now) ≡ o.score + config.window_ms =
      omega arith in
    rw same
      (full-allowed_iff config now' expires_at m o es (omega (arith, i.short)) i.sorted i.lives.0)

trim-young :
    (window now : ℕ) (es : List Entry)
    → All (λ (e : Entry). now < e.score + window) (trim window now es)
unfolding trim
trim-young window now [] = tt
trim-young window now (e ∷ es) = elim (Bool-cases (ltb now (e.score + window))) [
  | inl t ↦ rw t (ground arith, trim-young window now es)
  | inr f ↦ rw f (trim-young window now es)
]

-- A refused request is told exactly how long to wait: if no one else comes, a request is allowed when
-- `retryAfterMs` has passed, and none is before. (The limit is positive, the set is as earlier hits left it,
-- and the clock does not go back.)
pub hit-retry_after_ms :
    (config : RateLimitConfig) (last now now' : ℕ) (m m' : String) (w : Window)
    → 1 ≤ config.limit
    → last ≤ now
    → IsWindow config last w
    → (hit config now m w).0.allowed ≡ false
    → ((hit config now' m' (hit config now m w).1).0.allowed ≡ true)
      ↔ (now + (hit config now m w).0.retry_after_ms ≤ now')
hit-retry_after_ms config last now now' m m' w pos later i refused =
    let (entries, expires, lives, full, wait) = refused-wait config now m w pos refused in
    let next = hit-IsWindow config last now m w later i in
    let at : (hit config now m w).1
        ≡ record { entries = trim config.window_ms now w.entries; expires_at = w.expires_at } =
      ground arith in
    rw (at, wait)
      (full_window-allowed_iff config now now' w.expires_at m' (trim config.window_ms now w.entries)
        pos full (subst (λ x. IsWindow config now x) at next)
        (trim-young config.window_ms now w.entries))

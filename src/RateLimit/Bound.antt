-- ===== src/RateLimit/Bound.antt =====
-- src/rate-limit/sliding-window.ts: in no window are more requests allowed than the limit.
use nodejs_advanced_homework.Prelude.{
  any-filter-false, refl, ◌∙◌, sym, inr, inl, Bool-cases, [], ◌∷◌, not, leb, ◌&&◌, filter, str_eq,
  ◌+◌, if◌then◌else◌, false, arith, length, ltb, any, ◌≤◌, ◌≡◌, count, Bool, String, List, ℕ,
}
use nodejs_advanced_homework.RateLimit.{
  decide, RateLimitDecision, zadd, present, insert_entry, Entry, trim, RateLimitConfig, Window, hit,
}

-- The members that hits add are random: none is added twice.
abbrev pub is_member : String → List Entry → Bool
is_member m entries = any (λ e. str_eq e.member m) entries

pub record Hit : Type 0 where
  pub at : ℕ
  pub member : String

-- The clock of Redis does not go back, and each member is new to the set.
abbrev pub IsTrace : RateLimitConfig → ℕ → Window → List Hit → Type 0
IsTrace config last w [] = Unit {0}
IsTrace config last w (h ∷ hs) =
    (last ≤ h.at)
    × (is_member h.member w.entries ≡ false)
    × IsTrace config h.at (hit config h.at h.member w).1 hs

-- The times at which the hits of a trace were allowed.
unfoldable pub allowed_times : RateLimitConfig → Window → List Hit → List ℕ
allowed_times config w [] = []
allowed_times config w (h ∷ hs) =
    let (d, w') = hit config h.at h.member w in
    let rest = allowed_times config w' hs in if d.allowed then h.at ∷ rest else rest

-- How many times lie in the window that begins after `t`.
abbrev pub in_window : ℕ → ℕ → List ℕ → ℕ
in_window window t times = count (λ x. ltb t x && leb x (t + window)) times

-- How many entries of a set are later than `t`.
abbrev later_than : ℕ → List Entry → ℕ
later_than t entries = count (λ (e : Entry). ltb t e.score) entries

length-later_than : (t : ℕ) (entries : List Entry) → later_than t entries ≤ length entries
length-later_than t [] = omega arith
length-later_than t (e ∷ es) = ground (arith, length-later_than t es)

-- An expired entry is not later than the start of a window that the present lies in.
trim-later_than :
    (window now t : ℕ) (entries : List Entry)
    → now ≤ t + window
    → later_than t (trim window now entries) ≡ later_than t entries
unfolding trim
trim-later_than window now t [] h = refl
trim-later_than window now t (e ∷ es) h = ground (arith, trim-later_than window now t es)

insert_entry-later_than :
    (t : ℕ) (e : Entry) (entries : List Entry)
    → later_than t (insert_entry e entries) ≡ later_than t (e ∷ entries)
insert_entry-later_than t e [] = refl
insert_entry-later_than t e (x ∷ xs) = ground (arith, insert_entry-later_than t e xs)

filter-fresh :
    (m : String) (entries : List Entry)
    → is_member m entries ≡ false
    → filter (λ (e : Entry). not (str_eq e.member m)) entries ≡ entries
filter-fresh m [] h = refl
filter-fresh m (e ∷ es) h = ground (arith, filter-fresh m es)

abbrev pub nothing_stored : Window
nothing_stored = record { entries = []; expires_at = 0 }

module _ (config : RateLimitConfig) (t : ℕ) where
  -- What is known of a key, when so many hits of the window that begins after `t` were allowed.
  record IsCounted (allowed last : ℕ) (w : Window) : Type 0 where
    bound : allowed ≤ config.limit
    kept : (last ≤ t + config.window_ms → allowed ≤ later_than t w.entries)
    gone : (w.expires_at ≤ t + config.window_ms → later_than t w.entries ≡ 0)
    expires : w.expires_at ≤ last + config.window_ms

  present-later_than :
      (now : ℕ) (w : Window)
      → now ≤ t + config.window_ms
      → (w.expires_at ≤ t + config.window_ms → later_than t w.entries ≡ 0)
      → later_than t (present now w) ≡ later_than t w.entries
  present-later_than now w h gone = elim (Bool-cases (ltb now w.expires_at)) [
    | inl e ↦ rw e refl
    | inr e ↦ rw e (sym (gone (ground arith)))
  ]

  present-fresh :
      (now : ℕ) (m : String) (w : Window)
      → is_member m w.entries ≡ false
      → (is_member m (present now w) ≡ false)
        × (later_than t (present now w) ≤ later_than t w.entries)
  present-fresh now m w h = elim (Bool-cases (ltb now w.expires_at)) [
    | inl e ↦ rw e (h, omega arith)
    | inr e ↦ rw e (refl, omega arith)
  ]

  filter-later_than :
      (p : Entry → Bool) (entries : List Entry)
      → later_than t (filter p entries) ≤ later_than t entries
  filter-later_than p [] = omega arith
  filter-later_than p (e ∷ es) = ground (arith, filter-later_than p es)

  -- The new entry of a member that is not there.
  zadd-later_than :
      (now : ℕ) (m : String) (entries : List Entry)
      → is_member m entries ≡ false
      → later_than t (zadd now m entries) ≡ (if ltb t now then 1 else 0) + later_than t entries
  unfolding zadd
  zadd-later_than now m entries h =
      rw (filter-fresh m entries h)
        (insert_entry-later_than t (record { score = now; member = m }) entries)

  -- One if the decision allows a request in the window.
  abbrev counts : RateLimitDecision → ℕ → ℕ
  counts d now = if d.allowed && (ltb t now && leb now (t + config.window_ms)) then 1 else 0

  decide-IsCounted :
      (allowed last now : ℕ) (m : String) (w : Window) (left : List Entry)
      → last ≤ now
      → is_member m left ≡ false
      → (now ≤ t + config.window_ms → later_than t left ≡ later_than t w.entries)
      → later_than t left ≤ later_than t w.entries
      → IsCounted allowed last w
      → IsCounted
          (counts (decide config now m w.expires_at left).0 now + allowed)
          now
          (decide config now m w.expires_at left).1
  decide-IsCounted allowed last now m w left later fresh same fewer i =
      let added = zadd-later_than now m left fresh in
      let short = length-later_than t left in
      elim (Bool-cases (ltb (length left) config.limit)) [
        | inl y ↦ rw y (record {
          bound = ground (arith, i.bound, i.kept, same, short);
          kept = λ h. ground (arith, added, i.kept, same, short, i.bound);
          gone = λ h. ground (arith, added, i.gone, i.expires, fewer);
          expires = omega arith;
        })
        | inr n ↦ rw n (record {
          bound = omega (arith, i.bound);
          kept = λ h. ground (arith, i.kept, same);
          gone = λ h. ground (arith, i.gone, fewer);
          expires = ground (arith, i.expires);
        })
      ]

  hit-IsCounted :
      (allowed last now : ℕ) (m : String) (w : Window)
      → last ≤ now
      → is_member m w.entries ≡ false
      → IsCounted allowed last w
      → IsCounted (counts (hit config now m w).0 now + allowed) now (hit config now m w).1
  unfolding hit trim
  hit-IsCounted allowed last now m w later fresh i =
      let here = present now w in
      let (fresh_here, fewer_here) = present-fresh now m w fresh in
      let p : Entry → Bool = λ e. ltb now (e.score + config.window_ms) in
      decide-IsCounted allowed last now m w (trim config.window_ms now here) later
        (any-filter-false (λ (e : Entry). str_eq e.member m) p here fresh_here)
        (λ h. trim-later_than config.window_ms now t here h ∙ present-later_than now w h i.gone)
        (omega (arith, filter-later_than p here, fewer_here)) i

  allowed_times-IsCounted :
      (hs : List Hit) (allowed last : ℕ) (w : Window)
      → IsTrace config last w hs
      → IsCounted allowed last w
      → in_window config.window_ms t (allowed_times config w hs) + allowed ≤ config.limit
  unfolding allowed_times
  allowed_times-IsCounted [] allowed last w t' i = omega (arith, i.bound)
  allowed_times-IsCounted (h ∷ hs) allowed last w (later, fresh, more) i =
      let next = hit-IsCounted allowed last h.at h.member w later fresh i in
      let rest =
        allowed_times-IsCounted hs (counts (hit config h.at h.member w).0 h.at + allowed) h.at
          (hit config h.at h.member w).1 more next in
      ground arith

-- Whatever hits reach a key, starting with an empty one, and however they are spaced: of the requests
-- that were allowed, no window of the configured length has more than the limit. (The clock of Redis
-- does not go back, and a random member is not in the set.)
pub allowed_times-in_window :
    (config : RateLimitConfig) (hs : List Hit) (t : ℕ)
    → IsTrace config 0 nothing_stored hs
    → in_window config.window_ms t (allowed_times config nothing_stored hs) ≤ config.limit
allowed_times-in_window config hs t tr = omega (
  arith,
  allowed_times-IsCounted config t hs 0 0 nothing_stored tr (record {
    bound = omega arith;
    kept = λ h. omega arith;
    gone = λ h. refl;
    expires = omega arith;
  }),
)

-- ===== src/Orders/Events/History.antt =====
-- src/orders/order-events.service.ts: what a client that comes back is told.
use nodejs_advanced_homework.Prelude.{
  append_nil, append_assoc, filter-append, false, true, ◌&&◌, ==_iff, ◌+◌, filter, count, ◌<◌, inr,
  ◌∙◌, sym, ap, inl, ltb, Bool-cases, length-append, refl, arith, zero, ◌++◌, ◌≡◌, ◌-◌, length,
  ◌==◌, ◌∷◌, ◌≤◌, Bool, List, [], String, ℕ, suc,
}
use nodejs_advanced_homework.Orders.Events.{
  history_after, buffer_limit, event_of, push, shift, OrderStatusEvent, OrderEvents, publish,
}

pub record Published : Type 0 where
  pub order_id : ℕ
  pub status : String
  pub at : String

abbrev pub no_events : OrderEvents
no_events = record { seq = 0; buffers = λ k. [] }

unfoldable pub publish_all : List Published → OrderEvents → OrderEvents
publish_all [] events = events
publish_all (p ∷ ps) events = publish_all ps (publish p.order_id p.status p.at events).1

-- All events, the first id after `seq`.
unfoldable pub all_events : ℕ → List Published → List OrderStatusEvent
all_events seq [] = []
all_events seq (p ∷ ps) = event_of seq p.order_id p.status p.at ∷ all_events (suc seq) ps

abbrev pub is_of : ℕ → OrderStatusEvent → Bool
is_of order_id e = e.order_id == order_id

abbrev skip : ℕ → List OrderStatusEvent → List OrderStatusEvent
skip zero xs = xs
skip (suc n) [] = []
skip (suc n) (x ∷ xs) = skip n xs

abbrev keep_last : List OrderStatusEvent → List OrderStatusEvent
keep_last xs = skip (length xs - buffer_limit) xs

length-skip : (n : ℕ) (xs : List OrderStatusEvent) → length (skip n xs) ≡ length xs - n
length-skip zero xs = omega arith
length-skip (suc n) [] = omega arith
length-skip (suc n) (x ∷ xs) = omega (arith, length-skip n xs)

skip-append :
    (n : ℕ) (xs : List OrderStatusEvent) (x : OrderStatusEvent)
    → n ≤ length xs
    → skip n (xs ++ x ∷ []) ≡ skip n xs ++ x ∷ []
skip-append zero xs x h = refl
skip-append (suc n) [] x h = absurd (omega arith)
skip-append (suc n) (y ∷ ys) x h = skip-append n ys x (omega arith)

shift-skip : (n : ℕ) (xs : List OrderStatusEvent) → shift (skip n xs) ≡ skip (suc n) xs
shift-skip zero [] = refl
shift-skip zero (x ∷ xs) = refl
shift-skip (suc n) [] = refl
shift-skip (suc n) (x ∷ xs) = shift-skip n xs

push-keep_last :
    (xs : List OrderStatusEvent) (x : OrderStatusEvent)
    → push x (keep_last xs) ≡ keep_last (xs ++ x ∷ [])
push-keep_last xs x =
    let n = length xs - buffer_limit in
    let more = length-append xs (x ∷ []) in
    let size = length-append (keep_last xs) (x ∷ []) in
    let kept = length-skip n xs in
    elim (Bool-cases (ltb buffer_limit (length (keep_last xs ++ x ∷ [])))) [
      | inl t ↦
          let next : length (xs ++ x ∷ []) - buffer_limit ≡ suc n = ground arith in
          rw (t, next)
            (ap shift (sym (skip-append n xs x (omega arith))) ∙ shift-skip n (xs ++ x ∷ []))
      | inr f ↦
          let same : length (xs ++ x ∷ []) - buffer_limit ≡ n = ground arith in
          rw (f, same) (sym (skip-append n xs x (omega arith)))
    ]

-- Ids that rise, from above a first one.
abbrev IsAbove : ℕ → List OrderStatusEvent → Type 0
IsAbove n [] = Unit {0}
IsAbove n (e ∷ es) = (n < e.id) × IsAbove e.id es

lower-IsAbove : (m n : ℕ) (es : List OrderStatusEvent) → m ≤ n → IsAbove n es → IsAbove m es
lower-IsAbove m n [] h a = tt
lower-IsAbove m n (e ∷ es) h (l, a) = (omega arith, a)

filter-IsAbove :
    (p : OrderStatusEvent → Bool) (n : ℕ) (es : List OrderStatusEvent)
    → IsAbove n es
    → IsAbove n (filter p es)
filter-IsAbove p n [] a = tt
filter-IsAbove p n (e ∷ es) (l, a) = elim (Bool-cases (p e)) [
  | inl t ↦ rw t (l, filter-IsAbove p e.id es a)
  | inr f ↦ rw f (filter-IsAbove p n es (lower-IsAbove n e.id es (omega arith) a))
]

all_events-IsAbove : (seq : ℕ) (ps : List Published) → IsAbove seq (all_events seq ps)
unfolding all_events
all_events-IsAbove seq [] = tt
all_events-IsAbove seq (p ∷ ps) = (omega arith, all_events-IsAbove (suc seq) ps)

abbrev is_after : ℕ → OrderStatusEvent → Bool
is_after last e = ltb last e.id

above-count :
    (last n : ℕ) (es : List OrderStatusEvent)
    → last < n
    → IsAbove n es
    → count (is_after last) es ≡ length es
above-count last n [] h a = refl
above-count last n (e ∷ es) h (l, a) = ground (arith, above-count last e.id es (omega arith) a)

count-le-length :
    (p : OrderStatusEvent → Bool) (es : List OrderStatusEvent) → count p es ≤ length es
count-le-length p [] = omega arith
count-le-length p (e ∷ es) = ground (arith, count-le-length p es)

-- Events that are left out in front are old.
filter-skip :
    (last b n : ℕ) (es : List OrderStatusEvent)
    → IsAbove b es
    → count (is_after last) es + n ≤ length es
    → filter (is_after last) (skip n es) ≡ filter (is_after last) es
filter-skip last b zero es a h = refl
filter-skip last b (suc n) [] a h = refl
filter-skip last b (suc n) (e ∷ es) (l, a) h = elim (Bool-cases (ltb last e.id)) [
  | inl t ↦ absurd (ground (arith, above-count last e.id es (ground arith) a))
  | inr f ↦ rw f (filter-skip last e.id n es a (ground arith))
]

count-filter :
    (p q : OrderStatusEvent → Bool) (es : List OrderStatusEvent)
    → count q (filter p es) ≡ count (λ e. p e && q e) es
count-filter p q [] = refl
count-filter p q (e ∷ es) = ground (arith, count-filter p q es)

publish-buffers :
    (p : Published) (events : OrderEvents) (log : List OrderStatusEvent) (k : ℕ)
    → ((k : ℕ) → events.buffers k ≡ keep_last (filter (is_of k) log))
    → (publish p.order_id p.status p.at events).1.buffers k
      ≡ keep_last (filter (is_of k) (log ++ event_of events.seq p.order_id p.status p.at ∷ []))
unfolding publish
publish-buffers p events log k h =
    let event = event_of events.seq p.order_id p.status p.at in
    let more = filter-append (is_of k) log (event ∷ []) in
    elim (Bool-cases (k == p.order_id)) [
      | inl t ↦
          let same = (==_iff k p.order_id).0 t in
          let mine : (p.order_id == k) ≡ true = ground arith in
          rw (more, t, mine)
            (ap (push event) (h p.order_id)
              ∙ ap (λ j. push event (keep_last (filter (is_of j) log))) (sym same)
              ∙ push-keep_last (filter (is_of k) log) event)
      | inr f ↦
          let other : (p.order_id == k) ≡ false = ground arith in
          rw (more, f, other, append_nil (filter (is_of k) log)) (h k)
    ]

publish_all-buffers :
    (ps : List Published) (events : OrderEvents) (log : List OrderStatusEvent) (k : ℕ)
    → ((k : ℕ) → events.buffers k ≡ keep_last (filter (is_of k) log))
    → (publish_all ps events).buffers k
      ≡ keep_last (filter (is_of k) (log ++ all_events events.seq ps))
unfolding publish_all all_events publish
publish_all-buffers [] events log k h =
    h k ∙ ap (λ l. keep_last (filter (is_of k) l)) (sym (append_nil log))
publish_all-buffers (p ∷ ps) events log k h =
    let event = event_of events.seq p.order_id p.status p.at in
    publish_all-buffers ps (publish p.order_id p.status p.at events).1 (log ++ event ∷ []) k
      (λ j. publish-buffers p events log j h)
    ∙ ap (λ l. keep_last (filter (is_of k) l))
        (append_assoc log (event ∷ []) (all_events (suc events.seq) ps))

-- Whatever has been published: a client that comes back with the id of the last event it has seen is told
-- all later events of its order, in their order and no others, if those are not more than the buffer holds.
pub history_after-all_events :
    (ps : List Published) (order_id last_event_id : ℕ)
    → count (λ e. is_of order_id e && ltb last_event_id e.id) (all_events 0 ps) ≤ buffer_limit
    → history_after order_id last_event_id (publish_all ps no_events)
      ≡ filter (λ e. ltb last_event_id e.id) (filter (is_of order_id) (all_events 0 ps))
unfolding history_after
history_after-all_events ps k last h =
    let log = filter (is_of k) (all_events 0 ps) in
    let is = publish_all-buffers ps no_events [] k (λ j. refl) in
    let rising = filter-IsAbove (is_of k) 0 (all_events 0 ps) (all_events-IsAbove 0 ps) in
    let few = count-filter (is_of k) (is_after last) (all_events 0 ps) in
    ap (filter (is_after last)) is
    ∙ filter-skip last 0 (length log - buffer_limit) log rising
        (omega (arith, few, count-le-length (is_after last) log))

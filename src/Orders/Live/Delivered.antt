-- ===== src/Orders/Live/Delivered.antt =====
-- src/orders/: what an open stream has been written.
use nodejs_advanced_homework.Prelude.{
  list_laws, ◌≡◌, refl, ap, ◌∙◌, arith, ℕ, suc, ◌+◌, ◌≤◌, ◌&&◌, true, List, [], ◌∷◌, ◌++◌, Option,
  none, some, ltb, ◌==◌, filter, count, length, All, ==_iff,
}
use nodejs_advanced_homework.Orders.Events.{
  OrderStatusEvent, OrderEvents, publish, buffer_limit, event_of,
}
use nodejs_advanced_homework.Orders.Events.History.{
  Published, no_events, publish_all, all_events, is_of, history_after-all_events,
}
use nodejs_advanced_homework.Orders.Live.{Stream, start_stream, caught_up}
use nodejs_advanced_homework.Orders.Live.Steps.{
  Act, acts, published_in, Leaves, stream_of, new_hub, acts-stream_of, acts-events,
}

publish_all-seq :
    (ps : List Published) (events : OrderEvents)
    → (publish_all ps events).seq ≡ events.seq + length ps
unfolding publish_all
publish_all-seq [] events = omega arith
publish_all-seq (p ∷ ps) events =
    let one : (publish p.order_id p.status p.at events).1.seq ≡ suc events.seq =
      unfold publish in refl in
    omega (arith, publish_all-seq ps (publish p.order_id p.status p.at events).1, one)

all_events-append :
    (seq : ℕ) (ps qs : List Published)
    → all_events seq (ps ++ qs) ≡ all_events seq ps ++ all_events (seq + length ps) qs
unfolding all_events
all_events-append seq [] qs = ap (λ n. all_events n qs) (omega arith)
all_events-append seq (p ∷ ps) qs =
    ap (λ r. event_of seq p.order_id p.status p.at ∷ r)
      (all_events-append (suc seq) ps qs
        ∙ ap (λ n. all_events (suc seq) ps ++ all_events n qs) (omega arith))

-- All later events are after an id that has been given out.
later-filter :
    (k last seq : ℕ) (ps : List Published)
    → last ≤ seq
    → filter (λ e. ltb last e.id) (filter (is_of k) (all_events seq ps))
      ≡ filter (is_of k) (all_events seq ps)
unfolding all_events
later-filter k last seq [] h = refl
later-filter k last seq (p ∷ ps) h = ground (arith, later-filter k last (suc seq) ps (omega arith))

-- What a client of order `k` asks for: without an id the events that are published while it listens, and
-- with one all events after that id.
abbrev pub asked : ℕ → Option ℕ → List Published → List Published → List OrderStatusEvent
asked k none before after = filter (is_of k) (all_events (length before) after)
asked k (some last) before after =
    filter (λ e. ltb last e.id) (filter (is_of k) (all_events 0 (before ++ after)))

-- The id has been given out, and no more events of the order have followed it than the buffer holds.
abbrev pub Buffered : ℕ → Option ℕ → List Published → Type 0
Buffered k none before = Unit {0}
Buffered k (some last) before =
    (last ≤ length before)
    × (count (λ e. is_of k e && ltb last e.id) (all_events 0 before) ≤ buffer_limit)

caught_up-asked :
    (k : ℕ) (last : Option ℕ) (before after : List Published)
    → Buffered k last before
    → caught_up k last (publish_all before no_events)
        ++ filter (is_of k) (all_events (length before) after)
      ≡ asked k last before after
caught_up-asked k none before after b = refl
caught_up-asked k (some last) before after (given, few) =
    let is : all_events 0 (before ++ after)
        ≡ all_events 0 before ++ all_events (length before) after =
      all_events-append 0 before after
      ∙ ap (λ n. all_events 0 before ++ all_events n after) (omega arith) in
    let new = later-filter k last (length before) after given in
    let old = history_after-all_events before k last few in
    rw (old, is) (simp (list_laws, new) refl)

-- Whatever was published, opened and closed before, and whatever is after: a stream that is still open has
-- been written exactly the events of its order that its client asked for, each once and in their order, if
-- the buffer still held what it had missed. Nothing is lost or told twice between the history and the
-- subscription.
pub start_stream-asked :
    (c k : ℕ) (last : Option ℕ) (before after : List Act)
    → Buffered k last (published_in before)
    → All (Leaves c) after
    → stream_of c (acts after (start_stream c k last (acts before new_hub))).streams
      ≡ some (record {
        connection = c;
        order_id = k;
        written = asked k last (published_in before) (published_in after);
      })
unfolding start_stream
start_stream-asked c k last before after b q =
    let hub = acts before new_hub in
    let ps = published_in before in
    let s : Stream = record {
      connection = c;
      order_id = k;
      written = caught_up k last hub.events;
    } in
    let is = acts-events before new_hub in
    let named : (c == c) ≡ true = (==_iff c c).1 refl in
    let open_now : stream_of c (start_stream c k last hub).streams ≡ some s = rw named refl in
    let seq : hub.events.seq ≡ length ps =
      ap (λ e. e.seq) is ∙ publish_all-seq ps no_events ∙ omega arith in
    acts-stream_of c after (start_stream c k last hub) s open_now q
    ∙ ap (λ w. some (record s { written = w }))
        (ap (λ n. s.written ++ filter (is_of k) (all_events n (published_in after))) seq
          ∙ ap
              (λ e.
                caught_up k last e
                ++ filter (is_of k) (all_events (length ps) (published_in after)))
              is
          ∙ caught_up-asked k last ps (published_in after) b)

-- ===== src/Orders/Live/Steps.antt =====
-- src/orders/: what happens to the hub, and what each step writes to an open stream.
use nodejs_advanced_homework.Prelude.{
  append_nil, append_assoc, ◌≡◌, refl, sym, ap, ◌∙◌, arith, ℕ, suc, false, not, List, [], ◌∷◌, ◌++◌,
  Option, some, ◌==◌, find?, filter, map, Bool-cases, inl, inr, All, ==_iff,
}
use nodejs_advanced_homework.Orders.Events.{OrderStatusEvent, publish, event_of}
use nodejs_advanced_homework.Orders.Events.History.{
  Published, no_events, publish_all, all_events, is_of,
}
use nodejs_advanced_homework.Orders.Live.{
  Hub, Stream, deliver, publish_live, start_stream, close_stream, join_room,
}

-- What happens to the hub, once a request has passed its gate.
pub data Act : Type 0 where
  published : Published → Act
  streamed : ℕ → ℕ → Option ℕ → Act
  closed : ℕ → Act
  entered : ℕ → ℕ → Act

abbrev pub act : Act → Hub → Hub
act (published p) hub = (publish_live p.order_id p.status p.at hub).1
act (streamed connection order_id last) hub = start_stream connection order_id last hub
act (closed connection) hub = close_stream connection hub
act (entered client room) hub = join_room client room hub

unfoldable pub acts : List Act → Hub → Hub
acts [] hub = hub
acts (a ∷ rest) hub = acts rest (act a hub)

abbrev pub published_in : List Act → List Published
published_in [] = []
published_in (published p ∷ rest) = p ∷ published_in rest
published_in (streamed c k last ∷ rest) = published_in rest
published_in (closed c ∷ rest) = published_in rest
published_in (entered c k ∷ rest) = published_in rest

-- The act neither opens nor closes the connection.
abbrev pub Leaves : ℕ → Act → Type 0
Leaves c (published p) = Unit {0}
Leaves c (streamed d k last) = (d == c) ≡ false
Leaves c (closed d) = (c == d) ≡ false
Leaves c (entered d k) = Unit {0}

abbrev pub stream_of : ℕ → List Stream → Option Stream
stream_of c streams = find? (λ s. s.connection == c) streams

find-deliver :
    (c : ℕ) (e : OrderStatusEvent) (streams : List Stream) (s : Stream)
    → stream_of c streams ≡ some s
    → stream_of c (map (deliver e) streams) ≡ some (deliver e s)
find-deliver c e [] s h = absurd (ground arith)
find-deliver c e (t ∷ ts) s h = elim (Bool-cases (t.connection == c)) [
  | inl q ↦ let same : t ≡ s = ground arith in rw q (ap some (ap (deliver e) same))
  | inr q ↦ rw q (find-deliver c e ts s (ground arith))
]

find-others :
    (c d : ℕ) (streams : List Stream)
    → (c == d) ≡ false
    → stream_of c (filter (λ s. not (s.connection == d)) streams) ≡ stream_of c streams
find-others c d [] h = refl
find-others c d (t ∷ ts) h = grind (arith, find-others c d ts h, ==_iff t.connection c)

abbrev pub with_more : List OrderStatusEvent → Stream → Stream
with_more es s = record s { written = s.written ++ es }

-- An open stream is written the events of its order, one after the other.
pub acts-stream_of :
    (c : ℕ) (xs : List Act) (hub : Hub) (s : Stream)
    → stream_of c hub.streams ≡ some s
    → All (Leaves c) xs
    → stream_of c (acts xs hub).streams
      ≡ some (with_more (filter (is_of s.order_id) (all_events hub.events.seq (published_in xs))) s)
unfolding all_events acts start_stream close_stream join_room
acts-stream_of c [] hub s h q =
    h ∙ ap (λ w. some (record s { written = w })) (sym (append_nil s.written))
acts-stream_of c (published p ∷ xs) hub s h (l, q) =
    let e = event_of hub.events.seq p.order_id p.status p.at in
    let later = all_events (suc hub.events.seq) (published_in xs) in
    let next : stream_of c (act (published p) hub).streams ≡ some (deliver e s) =
      unfold publish_live publish in find-deliver c e hub.streams s h in
    let seq : (act (published p) hub).events.seq ≡ suc hub.events.seq =
      unfold publish_live publish in refl in
    let ih = acts-stream_of c xs (act (published p) hub) (deliver e s) next q in
    let ih' : stream_of c (acts xs (act (published p) hub)).streams
        ≡ some (with_more (filter (is_of s.order_id) later) (deliver e s)) =
      ih
      ∙ ap
          (λ n.
            some (
              with_more (filter (is_of s.order_id) (all_events n (published_in xs))) (deliver e s)))
          seq in
    elim (Bool-cases (e.order_id == s.order_id)) [
      | inl t ↦
          ih'
          ∙ ap (λ w. some (record s { written = w }))
              (rw t (append_assoc s.written (e ∷ []) (filter (is_of s.order_id) later)))
      | inr f ↦ ih' ∙ ap (λ w. some (record s { written = w })) (rw f refl)
    ]
acts-stream_of c (streamed d k last ∷ xs) hub s h (l, q) =
    acts-stream_of c xs (start_stream d k last hub) s (unfold start_stream in rw l h) q
acts-stream_of c (closed d ∷ xs) hub s h (l, q) =
    acts-stream_of c xs (close_stream d hub) s
      (unfold close_stream in find-others c d hub.streams l ∙ h) q
acts-stream_of c (entered d k ∷ xs) hub s h (l, q) =
    acts-stream_of c xs (join_room d k hub) s (unfold join_room in h) q

abbrev pub new_hub : Hub
new_hub = record { events = no_events; streams = []; sockets = [] }

pub acts-events :
    (xs : List Act) (hub : Hub) → (acts xs hub).events ≡ publish_all (published_in xs) hub.events
unfolding acts publish_all
acts-events [] hub = refl
acts-events (published p ∷ xs) hub =
    acts-events xs (act (published p) hub)
    ∙ ap (publish_all (published_in xs)) (unfold publish_live in refl)
acts-events (streamed d k last ∷ xs) hub =
    acts-events xs (start_stream d k last hub)
    ∙ ap (publish_all (published_in xs)) (unfold start_stream in refl)
acts-events (closed d ∷ xs) hub =
    acts-events xs (close_stream d hub)
    ∙ ap (publish_all (published_in xs)) (unfold close_stream in refl)
acts-events (entered d k ∷ xs) hub =
    acts-events xs (join_room d k hub)
    ∙ ap (publish_all (published_in xs)) (unfold join_room in refl)

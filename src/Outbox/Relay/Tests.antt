-- ===== src/Outbox/Relay/Tests.antt =====
-- src/outbox/relay.ts: a pass over two pending rows of which the broker refuses one, and one on which the
-- channel closes.
use nodejs_advanced_homework.Prelude.{
  ◌<◌, ◌*◌, subst, Bool, ◌≤◌, refl, length, [], inl, ok, err, true, ◌+◌, ◌∷◌, false, arith, Has,
  matches_ci, none, str_eq, Option, ◌≡◌, String, List, some, if◌then◌else◌, Each, ℕ,
}
use nodejs_advanced_homework.Outbox.Tests.{row}
use nodejs_advanced_homework.Outbox.Relay.{
  relay_max_attempts, has_id, note_failure, mark_published, settle, run_hook, mark_confirmed,
  count_pending, note_failures, record_outcome, drain_outbox, message_of, is_pending,
  publish_claimed, publish_row, is_channel_closed, claim, relay_tx, Message, Env, OutboxRow,
  RelayResult, relay_batch,
}
use nodejs_advanced_homework.Outbox.Relay.Marks.{Relayed, relay_batch-Relayed, relay_batch-closed}
use nodejs_advanced_homework.Outbox.Relay.Drain.{IsClear, drain_outbox-ok}

abbrev broker : (Message → Option String) → Env
broker send = record {
  locked = λ id. false;
  id_le = λ a b. true;
  encode = λ j. ok "{}";
  send = send;
  after_publish = λ rows. none;
  fault = λ stage. none;
  now = 2000;
  batch_size = some 10;
}

abbrev refuses_e2 : Env
refuses_e2 = broker (λ m. if str_eq m.message_id "e2" then some "no route" else none)

abbrev closes : Env
closes = broker (λ m. some "Channel closed")

abbrev pending_rows : List OutboxRow
pending_rows = row "e1" none ∷ row "e2" none ∷ row "e3" (some 900) ∷ []

abbrev after_pass : List OutboxRow
after_pass =
    (record (row "e1" none) { published_at = some 2000; attempts = 1 })
    ∷ (record (row "e2" none) { attempts = 1; last_error = some "no route" })
    ∷ row "e3" (some 900)
    ∷ []

abbrev one_of_two : RelayResult
one_of_two = record { published = 1; failed = 1 }

one_is_confirmed : relay_batch refuses_e2 pending_rows ≡ (ok one_of_two, after_pass)
unfolding relay_batch relay_tx publish_claimed record_outcome note_failures mark_confirmed run_hook
    settle publish_row claim message_of is_pending mark_published note_failure has_id
    is_channel_closed matches_ci
one_is_confirmed = refl

relay_batch-Relayed_example :
    Each (Relayed refuses_e2 (claim refuses_e2 pending_rows)) pending_rows after_pass
    × (1 + 1 ≡ length (claim refuses_e2 pending_rows))
    × (1 + 1 ≤ 10)
relay_batch-Relayed_example =
    relay_batch-Relayed refuses_e2 pending_rows after_pass one_of_two one_is_confirmed

e1_is_claimed : Has (row "e1" none) (claim closes pending_rows)
unfolding claim is_pending
e1_is_claimed = inl refl

e1_is_refused : publish_row closes (row "e1" none) ≡ some "Channel closed"
unfolding publish_row message_of
e1_is_refused = refl

channel_is_closed : is_channel_closed "Channel closed" ≡ true
unfolding is_channel_closed matches_ci
channel_is_closed = refl

relay_batch-closed_example :
    (x : String) × (relay_batch closes pending_rows ≡ (err x, pending_rows))
relay_batch-closed_example =
    relay_batch-closed closes pending_rows (row "e1" none) "Channel closed" e1_is_claimed
      e1_is_refused channel_is_closed

no_route-open :
    (b : Bool) (e : String)
    → (if b then some "no route" else none) ≡ some e
    → is_channel_closed e ≡ false
unfolding is_channel_closed matches_ci
no_route-open true e h =
    let is : "no route" ≡ e = ground arith in subst (λ x. is_channel_closed x ≡ false) is refl
no_route-open false e h = cc

two_are_pending : relay_max_attempts * count_pending pending_rows < 21
unfolding count_pending is_pending
two_are_pending = omega arith

refuses_e2-IsClear : IsClear refuses_e2
unfolding publish_row message_of is_channel_closed matches_ci
refuses_e2-IsClear = record {
  unlocked = λ id. refl;
  batch = omega arith;
  answers = λ stage. refl;
  quiet = λ rows. refl;
  open_channel = λ r e h. no_route-open (str_eq r.id "e2") e h;
}

drain_outbox-ok_example :
    (k : ℕ) × (t' : List OutboxRow) × (drain_outbox (λ n. refuses_e2) (λ n. 0) 100 21 pending_rows
      ≡ (some (ok k), t'))
    × (count_pending t' ≡ 0)
drain_outbox-ok_example =
    drain_outbox-ok (λ n. refuses_e2) (λ n. 0) 100 21 pending_rows (λ n. refuses_e2-IsClear)
      (λ n. omega arith) two_are_pending

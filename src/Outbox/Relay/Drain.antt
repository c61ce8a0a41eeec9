-- ===== src/Outbox/Relay/Drain.antt =====
-- src/outbox/relay.ts: the loop that drains the outbox ends, poison rows or not.
use nodejs_advanced_homework.Prelude.{
  ◌+◌, Bool-cases, ◌==◌, Succeeds, Succeeds-then, transaction_of_ok, update_where, filter-all,
  Has-filter, Has-take, Has-sort_by, sort_by-ne-nil, sum_by-map-lt, sum_by-map-le, ℕ, zero, suc,
  ◌*◌, ◌≤◌, ◌<◌, ◌≡◌, ◌≢◌, refl, ap, true, false, not, none, some, List, [], ◌∷◌, String, str_eq,
  length, filter, take, ok, arith, Option-cases, inl, inr, ◌⊎◌, Has, or_else, sum_by, sort_by,
}
use nodejs_advanced_homework.Outbox.Relay.{
  drain_from, drain_outbox, after_pass, OutboxRow, Env, Settled, RelayResult, Stage, note_failure,
  is_pending, claim, settle, relay_batch, relay_tx, publish_row, is_channel_closed, note_failures,
  mark_confirmed, query, run_hook, record_outcome, publish_claimed, row_le, relay_max_attempts,
  relay_batch_size, count_pending,
}
use nodejs_advanced_homework.Outbox.Relay.Potential.{
  potential, pending-potential, row_after-potential, row_after-potential_lt, settle-covers,
}
use nodejs_advanced_homework.Outbox.Relay.Pass.{row_after, relay_batch-Passed}

-- Nothing is locked elsewhere, the database answers, the hook is quiet, and the channel stays open:
-- the broker may still refuse any message.
pub record IsClear (env : Env) : Type 0 where
  pub unlocked : (id : String) → env.locked id ≡ false
  pub batch : 0 < or_else env.batch_size relay_batch_size
  pub answers : (stage : Stage) → env.fault stage ≡ none
  pub quiet : (rows : List OutboxRow) → env.after_publish rows ≡ none
  pub open_channel :
      (r : OutboxRow) (e : String) → publish_row env r ≡ some e → is_channel_closed e ≡ false

take-some :
    (n : ℕ) (xs : List OutboxRow) → 0 < n → (xs ≡ []) ⊎ ((c : OutboxRow) × Has c (take n xs))
take-some zero xs h = elim h [ ]
take-some (suc n) [] h = inl refl
take-some (suc n) (x ∷ xs) h = inr (x, inl refl)

module _ (env : Env) (clear : IsClear env) where
  settle-ok : (claimed : List OutboxRow) → (s : Settled) × (settle env claimed ≡ ok s)
  unfolding settle
  settle-ok [] = (_, refl)
  settle-ok (r ∷ rs) =
      let (s, h) = settle-ok rs in
      elim (Option-cases (publish_row env r)) [
        | inl p ↦ (record s { confirmed = r ∷ s.confirmed }, ground arith)
        | inr (e, p) ↦
            let o = clear.open_channel r e p in
            (record s { failed = (r.id, e) ∷ s.failed }, ground arith)
      ]

  query-ok : (stage : Stage) (t : List OutboxRow) → Succeeds (query env stage) t
  query-ok stage t = (tt, t, rw (clear.answers stage, query) refl)

  note_failures-ok :
      (fs : List (String × String)) (t : List OutboxRow) → Succeeds (note_failures env fs) t
  unfolding note_failures
  note_failures-ok [] t = (tt, t, refl)
  note_failures-ok ((id, e) ∷ fs) t =
      Succeeds-then (query env (Stage.note id)) _ t (query-ok (Stage.note id) t)
        (λ u. note_failures-ok fs (update_where (λ r. str_eq r.id id) (note_failure e) u))

  mark_confirmed-ok :
      (cs : List OutboxRow) (t : List OutboxRow) → Succeeds (mark_confirmed env cs) t
  unfolding mark_confirmed
  mark_confirmed-ok [] t = (tt, t, refl)
  mark_confirmed-ok (c ∷ cs) t =
      Succeeds-then (query env Stage.mark) _ t (query-ok Stage.mark t) (λ u. (tt, _, refl))

  record_outcome-ok : (s : Settled) (t : List OutboxRow) → Succeeds (record_outcome env s) t
  unfolding record_outcome run_hook
  record_outcome-ok s t =
      Succeeds-then (run_hook env s.confirmed) _ t
        (tt, t, rw (clear.quiet s.confirmed, run_hook) refl)
        λ u.
          Succeeds-then (mark_confirmed env s.confirmed) _ u (mark_confirmed-ok s.confirmed u) λ v.
            Succeeds-then (note_failures env s.failed) _ v (note_failures-ok s.failed v) λ w.
              Succeeds-then (query env Stage.commit) _ w (query-ok Stage.commit w)
                (λ x. (_, _, refl))

  publish_claimed-ok :
      (cs : List OutboxRow) (t : List OutboxRow) → Succeeds (publish_claimed env cs) t
  unfolding publish_claimed
  publish_claimed-ok [] t =
      Succeeds-then (query env Stage.commit) _ t (query-ok Stage.commit t) (λ x. (_, _, refl))
  publish_claimed-ok (c ∷ cs) t =
      let (s, h) = settle-ok (c ∷ cs) in rw (h, publish_claimed) (record_outcome-ok s t)

  relay_tx-ok : (t : List OutboxRow) → Succeeds (relay_tx env) t
  unfolding relay_tx
  relay_tx-ok t = Succeeds-then (query env Stage.connect) _ t (query-ok Stage.connect t) λ u.
      Succeeds-then (query env Stage.begin) _ u (query-ok Stage.begin u) λ v.
        Succeeds-then (query env Stage.select) _ v (query-ok Stage.select v)
          λ w. publish_claimed-ok (claim env w) w

  relay_batch-ok :
      (t : List OutboxRow)
      → (res : RelayResult) × (t' : List OutboxRow) × (relay_batch env t ≡ (ok res, t'))
  unfolding relay_batch
  relay_batch-ok t =
      let (res, t', h) = relay_tx-ok t in (res, t', transaction_of_ok (relay_tx env) t h)

  claim-some : (t : List OutboxRow) → count_pending t ≢ 0 → (c : OutboxRow) × Has c (claim env t)
  unfolding claim count_pending
  claim-some t h =
      elim (take-some (or_else env.batch_size relay_batch_size)
        (sort_by (row_le env.id_le) (filter is_pending t)) clear.batch) [
          | inl e ↦ absurd (h (ap length (sort_by-ne-nil _ _ e)))
          | inr (c, m) ↦ (
            c,
            rw
                (filter-all (λ (r : OutboxRow). not (env.locked r.id)) _
                  (λ r. rw (clear.unlocked r.id) refl))
                m,
          )
        ]

  claim-pending :
      (t : List OutboxRow) (c : OutboxRow) → Has c (claim env t) → Has c t × (is_pending c ≡ true)
  unfolding claim
  claim-pending t c m =
      Has-filter is_pending t c (Has-sort_by _ _ c (Has-filter _ _ c (Has-take _ _ c m)).0)

  -- A pass over an outbox with pending rows uses up at least one of their attempts.
  relay_batch-potential :
      (t t' : List OutboxRow) (res : RelayResult)
      → relay_batch env t ≡ (ok res, t')
      → count_pending t ≢ 0
      → sum_by potential t' < sum_by potential t
  relay_batch-potential t t' res h p =
      let q = relay_batch-Passed env t t' res h in
      let (c, m) = claim-some t p in
      let (m', pending) = claim-pending t c m in
      rw q.rows (
        sum_by-map-lt potential (row_after env.now q.settled) t c
          (row_after-potential env.now q.settled) m'
          (row_after-potential_lt env.now q.settled c pending
            (settle-covers env (claim env t) q.settled c q.settles m)))

count_pending-le : (t : List OutboxRow) → count_pending t ≤ sum_by potential t
unfolding count_pending
count_pending-le [] = omega arith
count_pending-le (r ∷ rs) = ground (arith, pending-potential r, count_pending-le rs)

potential-le : (t : List OutboxRow) → sum_by potential t ≤ relay_max_attempts * count_pending t
unfolding count_pending potential
potential-le [] = omega arith
potential-le (r ∷ rs) = ground (arith, potential-le rs)

potential_of_none : (t : List OutboxRow) → count_pending t ≡ 0 → sum_by potential t ≡ 0
unfolding count_pending potential
potential_of_none [] h = refl
potential_of_none (r ∷ rs) h = ground (arith, potential_of_none rs)

-- The same, without the premise that something was pending before.
relay_batch-potential_lt :
    (env : Env)
    → IsClear env
    → (t t' : List OutboxRow) (res : RelayResult) → relay_batch env t ≡ (ok res, t')
    → count_pending t' ≢ 0
    → sum_by potential t' < sum_by potential t
relay_batch-potential_lt env clear t t' res h p =
    let q = relay_batch-Passed env t t' res h in
    let le : sum_by potential t' ≤ sum_by potential t =
      rw q.rows (sum_by-map-le potential _ t (row_after-potential env.now q.settled)) in
    let some_left = count_pending-le t' in
    relay_batch-potential env clear t t' res h (λ z. p (omega (arith, potential_of_none t z)))

module _ (env : ℕ → Env) (clock : ℕ → ℕ) (deadline : ℕ) (clear : (n : ℕ) → IsClear (env n))
    (early : (n : ℕ) → clock n ≤ deadline) where
  drain_from-ok :
      (fuel n published : ℕ) (t : List OutboxRow)
      → sum_by potential t < fuel
      → (k : ℕ) × (t' : List OutboxRow) × (drain_from env clock deadline fuel n published t
          ≡ (some (ok k), t'))
        × (count_pending t' ≡ 0)
  unfolding drain_from after_pass
  drain_from-ok zero n published t h = elim h [ ]
  drain_from-ok (suc fuel) n published t h =
      let (res, t1, e) = relay_batch-ok (env n) (clear n) t in
      let timely = early n in
      elim (Bool-cases (count_pending t1 == 0)) [
        | inl done ↦ (published + res.published, t1, ground arith, ground arith)
        | inr more ↦
            let fall = relay_batch-potential_lt (env n) (clear n) t t1 res e (ground arith) in
            let (k, t2, h2, z) =
              drain_from-ok fuel (suc n) (published + res.published) t1 (omega (arith, fall)) in
            (k, t2, ground (arith, h2), z)
      ]

-- While every pass finds nothing locked, the database up, the channel open and the clock before the
-- deadline, the drain returns, whatever messages the broker refuses, and leaves nothing pending; a
-- number of passes above the attempts that are left is enough.
pub drain_outbox-ok :
    (env : ℕ → Env) (clock : ℕ → ℕ) (deadline fuel : ℕ) (t : List OutboxRow)
    → ((n : ℕ) → IsClear (env n))
    → ((n : ℕ) → clock n ≤ deadline)
    → relay_max_attempts * count_pending t < fuel
    → (k : ℕ) × (t' : List OutboxRow) × (drain_outbox env clock deadline fuel t ≡ (some (ok k), t'))
      × (count_pending t' ≡ 0)
unfolding drain_outbox
drain_outbox-ok env clock deadline fuel t clear early h =
    drain_from-ok env clock deadline clear early fuel 0 0 t (omega (arith, potential-le t))

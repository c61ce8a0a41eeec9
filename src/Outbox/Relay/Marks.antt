-- ===== src/Outbox/Relay/Marks.antt =====
-- src/outbox/relay.ts: which rows a pass stamps, counts and charges.
use nodejs_advanced_homework.Prelude.{
  transaction_of_ok, transaction_of_err, ◌+◌, ◌≤◌, ◌≡◌, ◌≢◌, refl, sym, ◌∙◌, Bool, true, false, not,
  ◌&&◌, none, some, List, [], ◌∷◌, String, str_eq, if◌then◌else◌, length, any, ok, err, arith,
  Option-cases, Result-cases, ◌⊎◌, Bool-cases, inl, inr, Each, Each-map, Has, is_some, or_else,
  length-take-le,
}
use nodejs_advanced_homework.Outbox.Relay.{
  OutboxRow, Env, Settled, RelayResult, mark_published, note_failure, has_id, claim, settle,
  relay_batch, relay_tx, publish_row, is_channel_closed, relay_batch_size,
}
use nodejs_advanced_homework.Outbox.Relay.Pass.{note_all, row_after, relay_batch-Passed}

-- A row of that id was claimed, and the broker confirmed its message.
abbrev pub is_confirmed : Env → List OutboxRow → OutboxRow → Bool
is_confirmed env claimed r =
    any (λ c. str_eq c.id r.id && not (is_some (publish_row env c))) claimed

note_all-published_at :
    (fs : List (String × String)) (r : OutboxRow) → (note_all fs r).published_at ≡ r.published_at
unfolding note_all note_failure
note_all-published_at [] r = refl
note_all-published_at ((id, e) ∷ fs) r =
    ground (arith, note_all-published_at fs (if str_eq r.id id then note_failure e r else r))

note_all-same :
    (fs : List (String × String)) (r : OutboxRow)
    → ((note_all fs r).id ≡ r.id)
      × ((note_all fs r).payload ≡ r.payload)
      × ((note_all fs r).created_at ≡ r.created_at)
      × (r.attempts ≤ (note_all fs r).attempts)
unfolding note_all note_failure
note_all-same [] r = ground arith
note_all-same ((id, e) ∷ fs) r =
    ground (arith, note_all-same fs (note_failure e r), note_all-same fs r)

module _ (env : Env) where
  -- The last step of the loop over the confirms, undone.
  pub record Step (c : OutboxRow) (cs : List OutboxRow) (s : Settled) : Type 0 where
    pub before : Settled
    pub settles : settle env cs ≡ ok before
    pub outcome :
        ((publish_row env c ≡ none) × (s ≡ record before { confirmed = c ∷ before.confirmed }))
        ⊎ ((e : String) × (publish_row env c ≡ some e)
            × (is_channel_closed e ≡ false)
            × (s ≡ record before { failed = (c.id, e) ∷ before.failed }))

  pub settle-cons :
      (c : OutboxRow) (cs : List OutboxRow) (s : Settled) → settle env (c ∷ cs) ≡ ok s → Step c cs s
  unfolding settle
  settle-cons c cs s h = elim (Result-cases (settle env cs)) [
    | inl (b, e) ↦ elim (Option-cases (publish_row env c)) [
      | inl p ↦ record { before = b; settles = e; outcome = inl (p, ground arith) }
      | inr (x, p) ↦ record {
        before = b;
        settles = e;
        outcome = inr (x, p, ground arith, ground arith);
      }
    ]
    | inr (x, e) ↦ absurd (ground arith)
  ]

  has_id-settle :
      (claimed : List OutboxRow) (s : Settled) (r : OutboxRow)
      → settle env claimed ≡ ok s
      → has_id s.confirmed r ≡ is_confirmed env claimed r
  unfolding has_id settle
  has_id-settle [] s r h = ground arith
  has_id-settle (c ∷ cs) s r h =
      let t = settle-cons c cs s h in
      ground (arith, t.outcome, has_id-settle cs t.before r t.settles)

  length-settle :
      (claimed : List OutboxRow) (s : Settled)
      → settle env claimed ≡ ok s
      → length s.confirmed + length s.failed ≡ length claimed
  unfolding settle
  length-settle [] s h = ground arith
  length-settle (c ∷ cs) s h =
      let t = settle-cons c cs s h in ground (arith, t.outcome, length-settle cs t.before t.settles)

  length-claim-le :
      (t : List OutboxRow) → length (claim env t) ≤ or_else env.batch_size relay_batch_size
  unfolding claim
  length-claim-le t = length-take-le _ _

  settle-closed :
      (claimed : List OutboxRow) (c : OutboxRow) (e : String) (s : Settled)
      → Has c claimed
      → publish_row env c ≡ some e
      → is_channel_closed e ≡ true
      → settle env claimed ≢ ok s
  settle-closed [] c e s m p x h = m
  settle-closed (d ∷ ds) c e s m p x h =
      let t = settle-cons d ds s h in
      ground (arith, t.outcome, m, settle-closed ds c e t.before, t.settles)

  -- What a pass may do to a row: its identity stays, its attempts never fall, and `published_at`
  -- is stamped exactly when the broker confirmed a claimed row of that id.
  pub record Relayed (claimed : List OutboxRow) (r r' : OutboxRow) : Type 0 where
    pub id : r'.id ≡ r.id
    pub payload : r'.payload ≡ r.payload
    pub attempts : r.attempts ≤ r'.attempts
    pub published_at :
        r'.published_at ≡ (if is_confirmed env claimed r then some env.now else r.published_at)

  row_after-Relayed :
      (claimed : List OutboxRow) (s : Settled) (r : OutboxRow)
      → settle env claimed ≡ ok s
      → Relayed claimed r (row_after env.now s r)
  unfolding row_after mark_published
  row_after-Relayed claimed s r h =
      let c = has_id-settle claimed s r h in
      elim (Bool-cases (has_id s.confirmed r)) [
        | inl e ↦
            let k = note_all-same s.failed (mark_published env.now r) in
            rw e (record {
              id = k.0;
              payload = k.1;
              attempts = omega (arith, k.3);
              published_at =
                  rw (sym c ∙ e) (note_all-published_at s.failed (mark_published env.now r));
            })
        | inr e ↦
            let k = note_all-same s.failed r in
            rw e (record {
              id = k.0;
              payload = k.1;
              attempts = k.3;
              published_at = rw (sym c ∙ e) (note_all-published_at s.failed r);
            })
      ]

  -- A pass that returns leaves every row in its place, with the same id and payload and no fewer
  -- attempts. It stamps `published_at` exactly where the broker confirmed the message of a claimed
  -- row of that id, and leaves it alone elsewhere: no event is marked that the broker did not take.
  -- Its two counts add up to the number of rows claimed, which is at most the batch size.
  pub relay_batch-Relayed :
      (t t' : List OutboxRow) (res : RelayResult)
      → relay_batch env t ≡ (ok res, t')
      → Each (Relayed (claim env t)) t t'
        × (res.published + res.failed ≡ length (claim env t))
        × (res.published + res.failed ≤ or_else env.batch_size relay_batch_size)
  relay_batch-Relayed t t' res h =
      let p = relay_batch-Passed env t t' res h in
      let n = length-settle (claim env t) p.settled p.settles in
      (
        rw p.rows (Each-map _ _ t (λ r. row_after-Relayed (claim env t) p.settled r p.settles)),
        omega (arith, n, p.published, p.failed),
        omega (arith, n, p.published, p.failed, length-claim-le t),
      )

  -- Where the confirm of a claimed row says that the channel closed, the pass throws and the whole
  -- table is left as it was: no row is stamped, and no row is charged an attempt.
  pub relay_batch-closed :
      (t : List OutboxRow) (c : OutboxRow) (e : String)
      → Has c (claim env t)
      → publish_row env c ≡ some e
      → is_channel_closed e ≡ true
      → (x : String) × (relay_batch env t ≡ (err x, t))
  unfolding relay_batch
  relay_batch-closed t c e m p x = elim (Result-cases (relay_tx env t)) [
    | inl ((res, t'), h) ↦
        let q = relay_batch-Passed env t t' res (transaction_of_ok (relay_tx env) t h) in
        absurd (settle-closed (claim env t) c e q.settled m p x q.settles)
    | inr (y, h) ↦ (y, transaction_of_err (relay_tx env) t h)
  ]

-- ===== src/Outbox/Relay/Pass.antt =====
-- src/outbox/relay.ts: the outcome of one relay pass on each row of the outbox.
use mathlib.Core.List.{map-map, map-id}
use nodejs_advanced_homework.Prelude.{
  ℕ, ◌≡◌, refl, sym, ap, subst, ◌∙◌, List, [], ◌∷◌, String, str_eq, if◌then◌else◌, length,
  update_where, update_where-map, Result, ok, err, map, arith, >>=-eq-ok, transaction-eq-ok,
}
use nodejs_advanced_homework.Outbox.Relay.{
  OutboxRow, Env, Settled, RelayResult, Stage, mark_published, note_failure, has_id, query, claim,
  settle, run_hook, mark_confirmed, note_failures, record_outcome, publish_claimed, relay_tx,
  relay_batch,
}

unfoldable pub note_all : List (String × String) → OutboxRow → OutboxRow
note_all [] r = r
note_all ((id, e) ∷ fs) r = note_all fs (if str_eq r.id id then note_failure e r else r)

-- The row that a pass leaves for a row: stamped if its id was confirmed, then the failures noted.
unfoldable pub row_after : ℕ → Settled → OutboxRow → OutboxRow
row_after now s r = note_all s.failed (if has_id s.confirmed r then mark_published now r else r)

module _ (env : Env) where
  query-eq-ok :
      (stage : Stage) (t t' : List OutboxRow) (u : Unit {0})
      → query env stage t ≡ ok (u, t')
      → t ≡ t'
  query-eq-ok stage t t' u h = ground arith

  run_hook-eq-ok :
      (cs : List OutboxRow) (t t' : List OutboxRow) (u : Unit {0})
      → run_hook env cs t ≡ ok (u, t')
      → t ≡ t'
  unfolding run_hook
  run_hook-eq-ok cs t t' u h = ground arith

  mark_confirmed-eq-ok :
      (cs : List OutboxRow) (t t' : List OutboxRow) (u : Unit {0})
      → mark_confirmed env cs t ≡ ok (u, t')
      → t' ≡ map (λ r. if has_id cs r then mark_published env.now r else r) t
  unfolding mark_confirmed has_id
  mark_confirmed-eq-ok [] t t' u h = ground (arith, map-id t)
  mark_confirmed-eq-ok (c ∷ cs) t t' u h =
      ground (arith, update_where-map (has_id (c ∷ cs)) (mark_published env.now) t)

  note_failures-eq-ok :
      (fs : List (String × String)) (t t' : List OutboxRow) (u : Unit {0})
      → note_failures env fs t ≡ ok (u, t')
      → t' ≡ map (note_all fs) t
  unfolding note_failures note_all
  note_failures-eq-ok [] t t' u h = ground (arith, map-id t)
  note_failures-eq-ok ((id, e) ∷ fs) t t' u h =
      let t1 : List OutboxRow = update_where (λ r. str_eq r.id id) (note_failure e) t in
      let rest : note_failures env fs t1 ≡ ok (u, t') = ground arith in
      note_failures-eq-ok fs t1 t' u rest
      ∙ ap (map (note_all fs)) (update_where-map (λ r. str_eq r.id id) (note_failure e) t)
      ∙ map-map (note_all fs) _ t

  record_outcome-eq-ok :
      (s : Settled) (t t' : List OutboxRow) (res : RelayResult)
      → record_outcome env s t ≡ ok (res, t')
      → (t' ≡ map (row_after env.now s) t)
        × (res.published ≡ length s.confirmed)
        × (res.failed ≡ length s.failed)
  unfolding record_outcome row_after
  record_outcome-eq-ok s t t' res h =
      let (u1, t1, e1, k1) = >>=-eq-ok (run_hook env s.confirmed) _ t h in
      let (u2, t2, e2, k2) = >>=-eq-ok (mark_confirmed env s.confirmed) _ t1 k1 in
      let (u3, t3, e3, k3) = >>=-eq-ok (note_failures env s.failed) _ t2 k2 in
      let (u4, t4, e4, k4) = >>=-eq-ok (query env Stage.commit) _ t3 k3 in
      let c = run_hook-eq-ok s.confirmed t t1 u1 e1 in
      let m = mark_confirmed-eq-ok s.confirmed t1 t2 u2 e2 in
      let n = note_failures-eq-ok s.failed t2 t3 u3 e3 in
      let q = query-eq-ok Stage.commit t3 t4 u4 e4 in
      (
        cc (
            map-map (note_all s.failed)
              (λ (r : OutboxRow). if has_id s.confirmed r then mark_published env.now r else r) t),
        ground arith,
        ground arith,
      )

  -- What a pass that returns has done.
  pub record Passed (t t' : List OutboxRow) (res : RelayResult) : Type 0 where
    pub settled : Settled
    pub settles : settle env (claim env t) ≡ ok settled
    pub rows : t' ≡ map (row_after env.now settled) t
    pub published : res.published ≡ length settled.confirmed
    pub failed : res.failed ≡ length settled.failed

  publish_claimed-eq-ok :
      (claimed t t' : List OutboxRow) (res : RelayResult)
      → claimed ≡ claim env t
      → publish_claimed env claimed t ≡ ok (res, t')
      → Passed t t' res
  unfolding publish_claimed settle row_after has_id note_all
  publish_claimed-eq-ok [] t t' res e h = record {
    settled = record { confirmed = []; failed = [] };
    settles = rw (← e);
    rows = ground (arith, map-id t);
    published = ground arith;
    failed = ground arith;
  }
  publish_claimed-eq-ok (c ∷ cs) t t' res e h = from (settle env (c ∷ cs)) refl h
    where
      from :
          (r : Result String Settled)
          → settle env (c ∷ cs) ≡ r
          → (elim r as (λ _. Result String (RelayResult × List OutboxRow)) [
            | err x ↦ err x
            | ok s ↦ record_outcome env s t
          ])
            ≡ ok (res, t')
          → Passed t t' res
      from (err x) _ k = cc
      from (ok s) same k =
          let (rows, published, failed) = record_outcome-eq-ok s t t' res k in
          record {
            settled = s;
            settles = rw (← e) same;
            rows = rows;
            published = published;
            failed = failed;
          }

  pub relay_batch-Passed :
      (t t' : List OutboxRow) (res : RelayResult)
      → relay_batch env t ≡ (ok res, t')
      → Passed t t' res
  unfolding relay_batch relay_tx
  relay_batch-Passed t t' res h =
      let (u1, t1, e1, k1) =
        >>=-eq-ok (query env Stage.connect) _ t (transaction-eq-ok (relay_tx env) t h) in
      let (u2, t2, e2, k2) = >>=-eq-ok (query env Stage.begin) _ t1 k1 in
      let (u3, t3, e3, k3) = >>=-eq-ok (query env Stage.select) _ t2 k2 in
      let q1 = query-eq-ok Stage.connect t t1 u1 e1 in
      let q2 = query-eq-ok Stage.begin t1 t2 u2 e2 in
      let q3 = query-eq-ok Stage.select t2 t3 u3 e3 in
      subst (λ x. Passed x t' res) (sym (q1 ∙ q2 ∙ q3))
        (publish_claimed-eq-ok (claim env t3) t3 t' res refl k3)

-- ===== src/Outbox/Relay/Potential.antt =====
-- src/outbox/relay.ts: the attempts that the pending rows have left, and how a pass uses them up.
use nodejs_advanced_homework.Prelude.{
  ℕ, ◌-◌, ◌≤◌, ◌<◌, ◌≡◌, refl, Bool, true, List, [], ◌∷◌, String, str_eq, str_eq_iff, if◌then◌else◌,
  any, ok, arith, ◌⊎◌, Has,
}
use nodejs_advanced_homework.Outbox.Relay.{
  OutboxRow, Env, Settled, mark_published, note_failure, has_id, is_pending, settle,
  relay_max_attempts,
}
use nodejs_advanced_homework.Outbox.Relay.Pass.{note_all, row_after}
use nodejs_advanced_homework.Outbox.Relay.Marks.{settle-cons}

-- The failed publishes that a row may still have.
unfoldable pub potential : OutboxRow → ℕ
potential r = if is_pending r then relay_max_attempts - r.attempts else 0

abbrev pub failed_at : List (String × String) → OutboxRow → Bool
failed_at fs r = any (λ f. str_eq r.id f.0) fs

pub note_failure-potential :
    (e : String) (r : OutboxRow)
    → (potential (note_failure e r) ≤ potential r)
      × (is_pending r ≡ true → potential (note_failure e r) < potential r)
unfolding potential note_failure is_pending
note_failure-potential e r = (ground arith, λ p. ground arith)

pub mark_published-potential : (now : ℕ) (r : OutboxRow) → potential (mark_published now r) ≡ 0
unfolding potential mark_published is_pending
mark_published-potential now r = refl

pub pending-potential : (r : OutboxRow) → is_pending r ≡ true → 0 < potential r
unfolding potential is_pending
pending-potential r p = ground arith

pub note_all-potential :
    (fs : List (String × String)) (r : OutboxRow) → potential (note_all fs r) ≤ potential r
unfolding note_all
note_all-potential [] r = omega arith
note_all-potential ((id, e) ∷ fs) r = ground (
  arith,
  note_all-potential fs r,
  note_all-potential fs (note_failure e r),
  (note_failure-potential e r).0,
)

pub note_all-potential_lt :
    (fs : List (String × String)) (r : OutboxRow)
    → is_pending r ≡ true
    → failed_at fs r ≡ true
    → potential (note_all fs r) < potential r
unfolding note_all
note_all-potential_lt [] r p h = cc
note_all-potential_lt ((id, e) ∷ fs) r p h = ground (
  arith,
  note_all-potential fs (note_failure e r),
  (note_failure-potential e r).1 p,
  note_all-potential_lt fs r p,
)

module _ (now : ℕ) (s : Settled) where
  pub row_after-potential : (r : OutboxRow) → potential (row_after now s r) ≤ potential r
  unfolding row_after
  row_after-potential r = ground (
    arith,
    note_all-potential s.failed r,
    note_all-potential s.failed (mark_published now r),
    mark_published-potential now r,
  )

  pub row_after-potential_lt :
      (r : OutboxRow)
      → is_pending r ≡ true
      → (has_id s.confirmed r ≡ true) ⊎ (failed_at s.failed r ≡ true)
      → potential (row_after now s r) < potential r
  unfolding row_after
  row_after-potential_lt r p h = ground (
    arith,
    pending-potential r p,
    note_all-potential s.failed (mark_published now r),
    mark_published-potential now r,
    note_all-potential_lt s.failed r p,
  )

module _ (env : Env) where
  -- Every claimed row is either confirmed or noted as failed.
  pub settle-covers :
      (claimed : List OutboxRow) (s : Settled) (c : OutboxRow)
      → settle env claimed ≡ ok s
      → Has c claimed
      → (has_id s.confirmed c ≡ true) ⊎ (failed_at s.failed c ≡ true)
  unfolding has_id
  settle-covers [] s c h m = absurd m
  settle-covers (d ∷ ds) s c h m =
      let t = settle-cons env d ds s h in
      ground (
        arith,
        t.outcome,
        m,
        settle-covers ds t.before c t.settles,
        str_eq_iff d.id c.id,
        str_eq_iff c.id d.id,
      )

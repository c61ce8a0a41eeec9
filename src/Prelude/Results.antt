-- ===== src/Prelude/Results.antt =====
-- Results of fallible code, and transactions on a state: what an error leaves is rolled back.
use mathlib.Core.Path.{◌≡◌, refl}
use mathlib.Core.Logic.{◌⊎◌, inl, inr}
use native.Mathlib.Omega.{arith}
use mathlib.Core.Bool.{Bool, true, false}

pub data Result {ℓ κ} (E : Type ℓ) (A : Type κ) : Type (ℓ ⊔ κ) where
  ok : A → Result E A
  err : E → Result E A

pub Result-cases {ℓ κ} :
    {E : Type ℓ} {A : Type κ} (r : Result E A) → ((a : A) × (r ≡ ok a)) ⊎ ((e : E) × (r ≡ err e))
Result-cases (ok a) = inl (a, refl)
Result-cases (err e) = inr (e, refl)

-- Statements of one transaction: each may throw, and hands its state to the next.
abbrev pub Tx : Type 0 → Type 0 → Type 0 → Type 0
Tx S E A = S → Result E (A × S)

infixl 5 ◌>>=◌ ◌>>◌
abbrev pub ◌>>=◌ : {S E A B : Type 0} → Tx S E A → (A → Tx S E B) → Tx S E B
◌>>=◌ m f s = elim (m s) [ err e ↦ err e | ok (a, s') ↦ f a s' ]

abbrev pub ◌>>◌ : {S E A B : Type 0} → Tx S E A → Tx S E B → Tx S E B
◌>>◌ m k s = elim (m s) [ err e ↦ err e | ok (a, s') ↦ k s' ]

abbrev pub pure : {S E A : Type 0} → A → Tx S E A
pure a s = ok (a, s)

abbrev pub throw : {S E A : Type 0} → E → Tx S E A
throw e s = err e

-- `throw` unless the test holds.
abbrev pub guard : {S E : Type 0} → Bool → E → Tx S E (Unit {0})
guard true e s = ok (tt, s)
guard false e s = err e

abbrev pub gets : {S E A : Type 0} → (S → A) → Tx S E A
gets f s = ok (f s, s)

abbrev pub modify : {S E : Type 0} → (S → S) → Tx S E (Unit {0})
modify f s = ok (tt, f s)

-- `BEGIN … COMMIT`, with `ROLLBACK` when a statement throws.
abbrev pub transaction : {S E A : Type 0} → Tx S E A → S → Result E A × S
transaction m s = elim (m s) [ err e ↦ (err e, s) | ok (a, s') ↦ (ok a, s') ]

-- Inversion of a transaction that succeeds.
pub >>=-eq-ok :
    {S E A B : Type 0} (m : Tx S E A) (f : A → Tx S E B) (s : S) {b : B} {s' : S}
    → ◌>>=◌ m f s ≡ ok (b, s')
    → (a : A) × (t : S) × (m s ≡ ok (a, t)) × (f a t ≡ ok (b, s'))
>>=-eq-ok {S} {E} {A} {B} m f s {b} {s'} h = from (m s) refl h
  where
    from :
        (r : Result E (A × S))
        → m s ≡ r
        → (elim r as (λ _. Result E (B × S)) [ err e ↦ err e | ok (a, t) ↦ f a t ]) ≡ ok (b, s')
        → (a : A) × (t : S) × (m s ≡ ok (a, t)) × (f a t ≡ ok (b, s'))
    from (ok (a, t)) e k = (a, t, e, k)
    from (err x) e k = cc

pub transaction-eq-ok :
    {S E A : Type 0} (m : Tx S E A) (s : S) {a : A} {s' : S}
    → transaction m s ≡ (ok a, s')
    → m s ≡ ok (a, s')
transaction-eq-ok m s h = ground arith

pub transaction-eq-err :
    {S E A : Type 0} (m : Tx S E A) (s : S) {e : E} {s' : S}
    → transaction m s ≡ (err e, s')
    → (m s ≡ err e) × (s' ≡ s)
transaction-eq-err m s h = ground arith

pub transaction_of_err :
    {S E A : Type 0} (m : Tx S E A) (s : S) {e : E} → m s ≡ err e → transaction m s ≡ (err e, s)
transaction_of_err m s h = ground arith

pub transaction_of_ok :
    {S E A : Type 0} (m : Tx S E A) (s : S) {a : A} {s' : S}
    → m s ≡ ok (a, s')
    → transaction m s ≡ (ok a, s')
transaction_of_ok m s h = ground arith

-- The transaction does not throw from that state.
abbrev pub Succeeds : {S E A : Type 0} → Tx S E A → S → Type 0
Succeeds {S} {E} {A} m s = (a : A) × (t : S) × (m s ≡ ok (a, t))

pub Succeeds-bind :
    {S E A B : Type 0} (m : Tx S E A) (f : A → Tx S E B) (s : S)
    → Succeeds m s
    → ((a : A) (t : S) → Succeeds (f a) t)
    → Succeeds (◌>>=◌ m f) s
Succeeds-bind m f s (a, t, e) k = let (b, u, e') = k a t in (b, u, ground arith)

pub Succeeds-then :
    {S E A B : Type 0} (m : Tx S E A) (k : Tx S E B) (s : S)
    → Succeeds m s
    → ((t : S) → Succeeds k t)
    → Succeeds (◌>>◌ m k) s
Succeeds-then m k s (a, t, e) h = let (b, u, e') = h t in (b, u, ground arith)

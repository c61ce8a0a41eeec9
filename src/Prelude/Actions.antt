-- ===== src/Prelude/Actions.antt =====
-- Actions on a state that an error leaves as it stands: what was sent before the error stays sent.
use mathlib.Core.Path.{◌≡◌, refl}
use mathlib.Core.Bool.{Bool, true, false}
use nodejs_advanced_homework.Prelude.Results.{Result, ok, err}

abbrev pub Act : Type 0 → Type 0 → Type 0 → Type 0
Act S E A = S → Result E A × S

abbrev pub after_act : {S E A B : Type 0} → Result E A × S → (A → Act S E B) → Result E B × S
after_act (ok a, s) f = f a s
after_act (err e, s) f = (err e, s)

infixl 5 ◌>>=◌ ◌>>◌
abbrev pub ◌>>=◌ : {S E A B : Type 0} → Act S E A → (A → Act S E B) → Act S E B
◌>>=◌ m f s = after_act (m s) f

abbrev pub ◌>>◌ : {S E A B : Type 0} → Act S E A → Act S E B → Act S E B
◌>>◌ m k s = after_act (m s) (λ _. k)

abbrev pub done : {S E A : Type 0} → A → Act S E A
done a s = (ok a, s)

abbrev pub fail : {S E A : Type 0} → E → Act S E A
fail e s = (err e, s)

-- `if (!test) throw e`
abbrev pub ensure : {S E : Type 0} → Bool → E → Act S E (Unit {0})
ensure true e s = (ok tt, s)
ensure false e s = (err e, s)

abbrev pub caught : {S E A : Type 0} → Result E A × S → (E → Act S E A) → Result E A × S
caught (ok a, s) h = (ok a, s)
caught (err e, s) h = h e s

-- `try { m } catch (err) { h(err) }`
abbrev pub catching : {S E A : Type 0} → Act S E A → (E → Act S E A) → Act S E A
catching m h s = caught (m s) h

module _ {S E A B : Type 0} where
  -- Inversion of a sequence that succeeds.
  pub after_act-eq-ok :
      (m : Act S E A) (f : A → Act S E B) (s : S) {b : B} {u : S}
      → after_act (m s) f ≡ (ok b, u)
      → (a : A) × (t : S) × (m s ≡ (ok a, t)) × (f a t ≡ (ok b, u))
  after_act-eq-ok m f s {b} {u} h = from (m s) refl h
    where
      from :
          (r : Result E A × S)
          → m s ≡ r
          → after_act r f ≡ (ok b, u)
          → (a : A) × (t : S) × (m s ≡ (ok a, t)) × (f a t ≡ (ok b, u))
      from (ok a, t) e k = (a, t, e, k)
      from (err x, t) e k = cc

  -- What both steps keep of the state, the sequence keeps, whichever of them fails.
  pub after_act-keeps :
      (P : S → Type 0) (m : Act S E A) (f : A → Act S E B) (s : S)
      → P (m s).1
      → ((a : A) (t : S) → m s ≡ (ok a, t) → P t → P (f a t).1)
      → P (after_act (m s) f).1
  after_act-keeps P m f s p k = from (m s) refl p
    where
      from : (r : Result E A × S) → m s ≡ r → P r.1 → P (after_act r f).1
      from (ok a, t) e q = k a t e q
      from (err x, t) e q = q

module _ {S E A : Type 0} where
  pub caught-keeps :
      (P : S → Type 0) (r : Result E A × S) (h : E → Act S E A)
      → P r.1
      → ((e : E) (t : S) → P t → P (h e t).1)
      → P (caught r h).1
  caught-keeps P (ok a, t) h p k = p
  caught-keeps P (err e, t) h p k = k e t p

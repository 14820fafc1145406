-- ===== src/Base/Exec.antt =====
-- Methods that mutate an object and may return early with an error: what was written before the
-- error stays written, so the state comes back beside either result.
use mathlib.Core.Path.{◌≡◌, refl}
use mathlib.Core.List.{List, [], ◌∷◌}
use native.Mathlib.Omega.{arith}
use embedded_services.Base.Errors.{Result, ok, err}

abbrev pub Exec : Type 0 → Type 0 → Type 0 → Type 0
Exec S E A = S → Result A E × S

module _ {S E A B : Type 0} where
  abbrev pub proceed : Result A E → (A → Exec S E B) → Exec S E B
  proceed (ok a) f s = f a s
  proceed (err e) f s = (err e, s)

  infixl 10 ◌>>=◌ ◌>>◌
  abbrev pub ◌>>=◌ : Exec S E A → (A → Exec S E B) → Exec S E B
  ◌>>=◌ m f s = let r = m s in proceed r.0 f r.1

  abbrev pub ◌>>◌ : Exec S E A → Exec S E B → Exec S E B
  m >> n = m >>= λ _. n

module _ {S E A : Type 0} where
  abbrev pub pure : A → Exec S E A
  pure a s = (ok a, s)

  abbrev pub fail : E → Exec S E A
  fail e s = (err e, s)

  abbrev pub lift : Result A E → Exec S E A
  lift r s = (r, s)

module _ {S E : Type 0} where
  -- An assignment, or a call whose result is not looked at.
  abbrev pub modify : (S → S) → Exec S E (Unit {0})
  modify f s = (ok tt, f s)

  -- `for x in xs { body(x)?; }`
  unfoldable pub for_each {ℓ} :
      {X : Type ℓ} → List X → (X → Exec S E (Unit {0})) → Exec S E (Unit {0})
  for_each [] body s = (ok tt, s)
  for_each (x ∷ xs) body s = let r = body x s in proceed r.0 (λ _. for_each xs body) r.1

  -- What every round keeps, the loop keeps, whether it ends or returns early.
  pub for_each-keeps {ℓ κ} :
      {X : Type ℓ} (K : S → Type κ) (xs : List X) (body : X → Exec S E (Unit {0}))
      → ((x : X) (s : S) → K s → K (body x s).1)
      → (s : S) → K s
      → K (for_each xs body s).1
  unfolding for_each
  for_each-keeps K [] body keep s k = k
  for_each-keeps {X} K (x ∷ xs) body keep s k =
      go (body x s).0 (body x s).1 (keep x s k) (λ t kt. for_each-keeps K xs body keep t kt)
    where
      go :
          (r : Result (Unit {0}) E) (t : S)
          → K t
          → ((u : S) → K u → K (for_each xs body u).1)
          → K (proceed r (λ _. for_each xs body) t).1
      go (ok u) t kt rest = rest t kt
      go (err e) t kt rest = kt

module _ {S E A B : Type 0} where
  -- A bind that succeeds has run both parts.
  pub bind-ok :
      (m : Exec S E A) (f : A → Exec S E B) (s : S) {b : B}
      → ((m >>= f) s).0 ≡ ok b
      → (a : A) × ((m s).0 ≡ ok a) × ((m >>= f) s ≡ f a (m s).1)
  bind-ok m f s {b} h = go (m s).0 refl h
    where
      go :
          (r : Result A E)
          → (m s).0 ≡ r
          → ((m >>= f) s).0 ≡ ok b
          → (a : A) × ((m s).0 ≡ ok a) × ((m >>= f) s ≡ f a (m s).1)
      go (ok a) e h = (a, e, rw e refl)
      go (err x) e h = absurd (ground arith)

  -- What the first part establishes for its two ends, and the second part keeps from there on,
  -- holds after the bind.
  pub bind-keeps {κ} :
      (K : S → Type κ) (m : Exec S E A) (f : A → Exec S E B) (s : S)
      → ((e : E) → (m s).0 ≡ err e → K (m s).1)
      → ((a : A) → (m s).0 ≡ ok a → K (f a (m s).1).1)
      → K ((m >>= f) s).1
  bind-keeps K m f s fails goes = go (m s).0 refl
    where
      go : (r : Result A E) → (m s).0 ≡ r → K ((m >>= f) s).1
      go (ok a) e = rw e (goes a e)
      go (err x) e = rw e (fails x e)

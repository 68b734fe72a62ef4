-- ===== src/Prelude/Exec.antt =====
-- Methods that change a state and may return an error. What was written before the error stays
-- written, so the state comes back beside the error too.
use mathlib.Core.Path.{◌≡◌, refl}
use mathlib.Core.Bool.{Bool, true, false}
use tos_ai.Prelude.Results.{Result, ok, err}

abbrev pub Exec {ℓ} : Type ℓ → Type ℓ → Type ℓ → Type ℓ
Exec S E A = S → Result E A × S

module _ {ℓ} {S E A : Type ℓ} where
  unfoldable pub pure : A → Exec S E A
  pure a s = (ok a, s)

  unfoldable pub raise : E → Exec S E A
  raise e s = (err e, s)

  -- A computation that leaves the state alone.
  unfoldable pub lift : Result E A → Exec S E A
  lift r s = (r, s)

  unfoldable pub gets : (S → A) → Exec S E A
  gets f s = (ok (f s), s)

module _ {ℓ} {S E : Type ℓ} where
  unfoldable pub modify : (S → S) → Exec S E (Unit {ℓ})
  modify f s = (ok tt, f s)

  -- `if condition { return err }`
  unfoldable pub raise_if : Bool → E → Exec S E (Unit {ℓ})
  raise_if true e s = (err e, s)
  raise_if false e s = (ok tt, s)

module _ {ℓ} {S E A B : Type ℓ} where
  abbrev continue : Result E A → (A → Exec S E B) → Exec S E B
  continue (ok a) f s = f a s
  continue (err e) f s = (err e, s)

  infixl 5 ◌>>=◌
  -- opening this opens the actions above too
  unfoldable pub ◌>>=◌ : Exec S E A → (A → Exec S E B) → Exec S E B
  unfolding pure raise lift gets modify raise_if
  ◌>>=◌ m f s = let (r, s') = m s in continue r f s'

module _ {ℓ} {S E B : Type ℓ} where
  infixl 5 ◌>>◌
  abbrev pub ◌>>◌ : Exec S E (Unit {ℓ}) → Exec S E B → Exec S E B
  m >> n = m >>= λ _. n

-- A postcondition of a method, by its first action: one premise for each way on.
module _ {ℓ κ} {S E B : Type ℓ} (Q : Result E B × S → Type κ) where
  pub check :
      (b : Bool) (e : E) (n : Exec S E B) (s : S)
      → (b ≡ true → Q (err e, s))
      → (b ≡ false → Q (n s))
      → Q ((raise_if b e >> n) s)
  unfolding ◌>>=◌
  check true e n s refused passed = refused refl
  check false e n s refused passed = passed refl

  pub fetch :
      {A : Type ℓ} (f : S → A) (k : A → Exec S E B) (s : S) → Q (k (f s) s) → Q ((gets f >>= k) s)
  unfolding ◌>>=◌
  fetch f k s h = h

  pub change : (g : S → S) (n : Exec S E B) (s : S) → Q (n (g s)) → Q ((modify g >> n) s)
  unfolding ◌>>=◌
  change g n s h = h

  pub return : (a : B) (s : S) → Q (ok a, s) → Q (pure a s)
  unfolding pure
  return a s h = h

  pub settle : (r : Result E B) (s : S) → Q (r, s) → Q (lift r s)
  unfolding lift
  settle r s h = h

  pub fail : (e : E) (s : S) → Q (err e, s) → Q (raise e s)
  unfolding raise
  fail e s h = h

  continue_cases :
      {A : Type ℓ} (r : Result E A) (f : A → Exec S E B) (s : S)
      → ((e : E) → r ≡ err e → Q (err e, s))
      → ((a : A) → r ≡ ok a → Q (f a s))
      → Q (continue r f s)
  continue_cases (ok a) f s failed went_on = went_on a refl
  continue_cases (err e) f s failed went_on = failed e refl

  pub call :
      {A : Type ℓ} (m : Exec S E A) (f : A → Exec S E B) (s : S)
      → ((e : E) → (m s).0 ≡ err e → Q (err e, (m s).1))
      → ((a : A) → (m s).0 ≡ ok a → Q (f a (m s).1))
      → Q ((m >>= f) s)
  unfolding ◌>>=◌
  call m f s = continue_cases (m s).0 f (m s).1

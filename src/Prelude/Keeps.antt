-- ===== src/Prelude/Keeps.antt =====
-- A property that a method keeps, whether it returns or fails, with a rule for each way to build a
-- method; `search keeps_rules` proves it of a `do` block.
use tos_ai.Prelude.{Bool, Result, false, true}
use tos_ai.Prelude.Exec.{Exec, call, gets, lift, modify, pure, raise, raise_if, ◌>>=◌}

pub record Keeps {ℓ} {S E A : Type ℓ} (P : S → Type ℓ) (m : Exec S E A) : Type ℓ where
  pub stays : (before : S) → P before → P (m before).1

module _ {ℓ} {S E : Type ℓ} {P : S → Type ℓ} where
  pub Keeps-modify :
      (f : S → S) → ((before : S) → P before → P (f before)) → Keeps {E = E} P (modify f)
  unfolding modify
  Keeps-modify f respects = record { stays = respects }

  pub Keeps-raise_if : (condition : Bool) (e : E) → Keeps P (raise_if condition e)
  unfolding raise_if
  Keeps-raise_if false e = record { stays = λ before holds. holds }
  Keeps-raise_if true e = record { stays = λ before holds. holds }

module _ {ℓ} {S E A : Type ℓ} {P : S → Type ℓ} where
  pub Keeps-gets : (read : S → A) → Keeps {E = E} P (gets read)
  unfolding gets
  Keeps-gets read = record { stays = λ before holds. holds }

  pub Keeps-raise : (reason : E) → Keeps {A = A} P (raise reason)
  unfolding raise
  Keeps-raise reason = record { stays = λ before holds. holds }

  pub Keeps-pure : (value : A) → Keeps {E = E} P (pure value)
  unfolding pure
  Keeps-pure value = record { stays = λ before holds. holds }

  pub Keeps-lift : (outcome : Result E A) → Keeps P (lift outcome)
  unfolding lift
  Keeps-lift outcome = record { stays = λ before holds. holds }

module _ {ℓ} {S E A B : Type ℓ} {P : S → Type ℓ} where
  pub Keeps-bind :
      (first : Exec S E A) (next : A → Exec S E B)
      → Keeps P first
      → ((value : A) → Keeps P (next value))
      → Keeps P (first >>= next)
  Keeps-bind first next first_keeps next_keeps = record {
    stays = λ before holds.
        let middle = first_keeps.stays before holds in
        call (λ r. P r.1) first next before (λ reason failed. middle)
          λ value returned. (next_keeps value).stays _ middle;
  }

pub ruleset keeps_rules =
    (Keeps-bind, Keeps-raise_if, Keeps-gets, Keeps-lift, Keeps-pure, Keeps-raise)

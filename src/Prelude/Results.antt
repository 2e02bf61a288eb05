-- ===== src/Prelude/Results.antt =====
-- `Result` of the Rust sources, over the error type of each crate.
use mathlib.Core.Path.{Path, ◌≡◌, ap, subst}
use mathlib.Core.Option.{Option, none, some}

pub data Result {ℓ} (E : Type 0) (A : Type ℓ) : Type ℓ where
  ok : A → Result E A
  err : E → Result E A

-- The `?` operator.
infixl 5 ◌>>=◌
abbrev pub ◌>>=◌ {ℓ κ} :
    {E : Type 0} {A : Type ℓ} {B : Type κ} → Result E A → (A → Result E B) → Result E B
ok a >>= f = f a
err e >>= f = err e

-- `Option::ok_or`.
abbrev pub ok_or {ℓ} : {E : Type 0} {A : Type ℓ} → Option A → E → Result E A
ok_or none e = err e
ok_or (some a) e = ok a

-- The value, or another one for an error.
abbrev value_or {ℓ} : {E : Type 0} {A : Type ℓ} → A → Result E A → A
value_or d (ok a) = a
value_or d (err e) = d

abbrev IsErr {ℓ} : {E : Type 0} {A : Type ℓ} → Result E A → Type 0
IsErr (ok a) = ⊥
IsErr (err e) = Unit

pub ok-injective {ℓ} : {E : Type 0} {A : Type ℓ} {a b : A} → Path (Result E A) (ok a) (ok b) → a ≡ b
ok-injective {E} {A} {a} h = ap (value_or a) h

pub err≢ok {ℓ} : {E : Type 0} {A : Type ℓ} {e : E} {a : A} → ¬ (Path (Result E A) (err e) (ok a))
err≢ok h = subst IsErr h tt

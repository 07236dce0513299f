-- ===== src/Base/Outcome.antt =====
-- Go code that may panic: an index or a slice out of range ends the run. `no_fuel` belongs to the
-- model only: a loop on fuel that the code would have continued.

pub data Run {ℓ} (A : Type ℓ) : Type ℓ where
  ok : A → Run A
  panic : Run A
  no_fuel : Run A

infixl 5 ◌>>=◌
abbrev pub ◌>>=◌ {ℓ κ} : {A : Type ℓ} {B : Type κ} → Run A → (A → Run B) → Run B
ok a >>= f = f a
panic >>= f = panic
no_fuel >>= f = no_fuel

-- The run ends by a value.
abbrev pub Returns {ℓ} : {A : Type ℓ} → Run A → Type 0
Returns (ok a) = Unit
Returns panic = ⊥
Returns no_fuel = ⊥

-- The run ends by a value that has the property.
abbrev pub Ensures {ℓ} : {A : Type ℓ} → (A → Type 0) → Run A → Type 0
Ensures P (ok a) = P a
Ensures P panic = ⊥
Ensures P no_fuel = ⊥

pub Ensures-bind {ℓ κ} :
    {A : Type ℓ} {B : Type κ} (P : A → Type 0) (Q : B → Type 0) (m : Run A) (f : A → Run B)
    → Ensures P m
    → ((a : A) → P a → Ensures Q (f a))
    → Ensures Q (m >>= f)
Ensures-bind P Q (ok a) f h k = k a h
Ensures-bind P Q panic f h k = h
Ensures-bind P Q no_fuel f h k = h

-- ===== src/Prelude/Result.antt =====
-- Code that may raise: a value, or the exception that left the function.
use mathlib.Core.Path.{◌≡◌, refl, subst}
use mathlib.Core.Bool.{Bool, true, false}

pub data Result {ℓ κ} (E : Type ℓ) (A : Type κ) : Type (ℓ ⊔ κ) where
  ok : A → Result E A
  err : E → Result E A

infixl 5 ◌>>=◌ ◌>>◌
unfoldable pub ◌>>=◌ {ℓ κ μ} :
    {E : Type ℓ} {A : Type κ} {B : Type μ} → Result E A → (A → Result E B) → Result E B
ok a >>= f = f a
err e >>= f = err e

abbrev pub ◌>>◌ {ℓ κ μ} :
    {E : Type ℓ} {A : Type κ} {B : Type μ} → Result E A → Result E B → Result E B
m >> k = m >>= λ _. k

-- `if condition: raise e`
abbrev pub raise_if {ℓ} : {E : Type ℓ} → Bool → E → Result E (Unit {0})
raise_if true e = err e
raise_if false e = ok tt

-- Every value that the code returns satisfies `P`.
pub record Ensures {ℓ κ μ} {E : Type ℓ} {A : Type κ} (P : A → Type μ) (r : Result E A)
    : Type (ℓ ⊔ κ ⊔ μ) where
  pub holds : (a : A) → r ≡ ok a → P a

module _ {ℓ κ μ} {E : Type ℓ} {A : Type κ} {P : A → Type μ} where
  pub Ensures-ok : (a : A) → P a → Ensures {E = E} P (ok a)
  Ensures-ok a p = record { holds = λ b h. subst P (cc) p }

  pub Ensures-err : (e : E) → Ensures P (err e)
  Ensures-err e = record { holds = λ b h. cc }

  pub Ensures-bind {ν} :
      {B : Type ν} (m : Result E B) (f : B → Result E A)
      → ((b : B) → m ≡ ok b → Ensures P (f b))
      → Ensures P (m >>= f)
  unfolding ◌>>=◌
  Ensures-bind (ok b) f k = k b refl
  Ensures-bind (err e) f k = Ensures-err e

  -- Behind a check the condition is known to be false.
  pub Ensures-raise_if :
      (b : Bool) (e : E) (f : Unit {0} → Result E A)
      → (b ≡ false → Ensures P (f tt))
      → Ensures P (raise_if b e >>= f)
  unfolding ◌>>=◌
  Ensures-raise_if true e f k = Ensures-err e
  Ensures-raise_if false e f k = k refl

-- ===== src/Base/Result.antt =====
-- A value or an error, Go's `(T, error)`.
use ai_proxy_pool.Base.{◌≡◌, ◌⊎◌, inl, inr, refl, Bool, true, false}

pub data Result {ℓ} (E A : Type ℓ) : Type ℓ where
  ok : A → Result E A
  err : E → Result E A

infixl 5 ◌>>=◌ ◌>>◌
abbrev pub ◌>>=◌ {ℓ} : {E A B : Type ℓ} → Result E A → (A → Result E B) → Result E B
ok a >>= f = f a
err e >>= f = err e

abbrev pub ◌>>◌ : {E B : Type 0} → Result E (Unit {0}) → Result E B → Result E B
m >> k = m >>= λ _. k

-- if bad { return err }
abbrev pub refuse_if : {E : Type 0} → Bool → E → Result E (Unit {0})
refuse_if true e = err e
refuse_if false e = ok tt

-- The parts of a chain that succeeds.
module _ {ℓ} {E A B : Type ℓ} {final : B} where
  pub bind-ok :
      (first : Result E A) (next : A → Result E B)
      → (first >>= next) ≡ ok final
      → (got : A) × (first ≡ ok got) × (next got ≡ ok final)
  bind-ok (err _) next made = cc
  bind-ok (ok got) next made = (got, refl, made)

pub ok_inj {ℓ} : {E A : Type ℓ} {a b : A} → ◌≡◌ {A = Result E A} (ok a) (ok b) → a ≡ b
ok_inj e = cc

pub Result-cases {ℓ} :
    {E A : Type ℓ} (r : Result E A) → ((e : E) × (r ≡ err e)) ⊎ ((a : A) × (r ≡ ok a))
Result-cases (ok a) = inr (a, refl)
Result-cases (err e) = inl (e, refl)

pub err_inj {ℓ} : {E A : Type ℓ} {a b : E} → ◌≡◌ {A = Result E A} (err a) (err b) → a ≡ b
err_inj e = cc

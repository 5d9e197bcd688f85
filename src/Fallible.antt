-- ===== src/Fallible.antt =====
-- Go's pairs of a result and an error, with the error's kind in place of its text.
use gardener_extension_provi.Base.{◌≡◌, refl}

pub data Fallible (E A : Type 0) : Type 0 where
  err : E → Fallible E A
  ok : A → Fallible E A

-- The caller goes on with the result, and returns at once on an error.
infixl 5 ◌>>=◌
abbrev pub ◌>>=◌ : {E A B : Type 0} → Fallible E A → (A → Fallible E B) → Fallible E B
err e >>= next = err e
ok result >>= next = next result

-- A call that only checks.
infixl 5 ◌>>◌
abbrev pub ◌>>◌ : {E B : Type 0} → Fallible E (Unit {0}) → Fallible E B → Fallible E B
check >> rest = check >>= λ _. rest

module _ {E A B : Type 0} where
  -- A step that succeeded, taken apart.
  pub >>=-eq-ok :
      (call : Fallible E A) (next : A → Fallible E B) {final : B}
      → (call >>= next) ≡ ok final
      → (result : A) × (call ≡ ok result) × (next result ≡ ok final)
  >>=-eq-ok (err e) next done = cc
  >>=-eq-ok (ok result) next done = (result, refl, done)

pub ok-eq : {E A : Type 0} {a b : A} → ◌≡◌ {A = Fallible E A} (ok a) (ok b) → a ≡ b
ok-eq h = cc

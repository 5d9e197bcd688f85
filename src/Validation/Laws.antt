-- ===== src/Validation/Laws.antt =====
-- When no error is found.
use gardener_extension_provi.Base.{ℕ, suc, true, List, [], ◌∷◌, ◌++◌, ◌≡◌, ◌↔◌, arith, All}
use gardener_extension_provi.Validation.{ErrorList, Check, failed, each}

pub append-eq-nil {ℓ} : {A : Type ℓ} (xs ys : List A) → ((xs ++ ys) ≡ []) ↔ ((xs ≡ []) × (ys ≡ []))
append-eq-nil [] ys = ground arith
append-eq-nil (x ∷ xs) ys = ground arith

abbrev pub Passes : Check → Type 0
Passes (passes, e) = passes ≡ true

pub failed-eq-nil : (checks : List Check) → (failed checks ≡ []) ↔ All Passes checks
unfolding failed
failed-eq-nil [] = ground arith
failed-eq-nil ((passes, e) ∷ checks) = ground (arith, failed-eq-nil checks)

-- A predicate of every element, with its place.
abbrev pub AllFrom : {A : Type 0} → (ℕ → A → Type 0) → ℕ → List A → Type 0
AllFrom P i [] = Unit
AllFrom P i (x ∷ xs) = P i x × AllFrom P (suc i) xs

pub each-eq-nil :
    {A : Type 0} (f : ℕ → A → ErrorList) (i : ℕ) (xs : List A)
    → (each f i xs ≡ []) ↔ AllFrom (λ j x. f j x ≡ []) i xs
unfolding each
each-eq-nil f i [] = ground arith
each-eq-nil f i (x ∷ xs) =
    ground (arith, append-eq-nil (f i x) (each f (suc i) xs), each-eq-nil f (suc i) xs)

-- Where the predicate does not depend on the place.
pub All-AllFrom :
    {A : Type 0} (P : ℕ → A → Type 0) (Q : A → Type 0)
    → ((i : ℕ) (x : A) → P i x → Q x)
    → (i : ℕ) (xs : List A) → AllFrom P i xs
    → All Q xs
All-AllFrom P Q k i [] h = tt
All-AllFrom P Q k i (x ∷ xs) h = (k i x h.0, All-AllFrom P Q k (suc i) xs h.1)

pub AllFrom-iff :
    {A : Type 0} (P : ℕ → A → Type 0) (Q : A → Type 0)
    → ((i : ℕ) (x : A) → P i x ↔ Q x)
    → (i : ℕ) (xs : List A) → AllFrom P i xs ↔ All Q xs
AllFrom-iff P Q k i [] = ((λ h. tt), (λ h. tt))
AllFrom-iff P Q k i (x ∷ xs) =
    let rest = AllFrom-iff P Q k (suc i) xs in
    ((λ h. ((k i x).0 h.0, rest.0 h.1)), (λ h. ((k i x).1 h.0, rest.1 h.1)))

-- The checks of a loop find nothing exactly if they find nothing at each element.
pub each_iff :
    {A : Type 0} (f : ℕ → A → ErrorList) (Q : A → Type 0)
    → ((i : ℕ) (x : A) → (f i x ≡ []) ↔ Q x)
    → (xs : List A) → (each f 0 xs ≡ []) ↔ All Q xs
each_iff f Q k xs =
    let e = each-eq-nil f 0 xs in
    let all = AllFrom-iff (λ j x. f j x ≡ []) Q k 0 xs in
    ((λ h. all.0 (e.0 h)), (λ h. e.1 (all.1 h)))

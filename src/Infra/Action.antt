-- ===== src/Infra/Action.antt =====
-- What a call of the ensurer does: it runs on the outside world `W` and on the state that it is
-- handed by pointer, so both come back after an error too. `panic` is a nil dereference;
-- `exhausted` is fuel run out in a loop that the source does not bound.
use gardener_extension_provi.Base.{ℕ, String, Option, none, some}
use gardener_extension_provi.Authorization.{Verdict}
use gardener_extension_provi.Infra.State.{NsxtInfraState}

-- What the NSX-T API answers in place of a result: `NotFound`, or another error with its text.
pub data ApiError : Type 0 where
  not_found : String → ApiError
  other : String → ApiError

pub data Error : Type 0 where
  text : String → Error
  -- the API's error, as it stands
  api : ApiError → Error
  -- the API's error through `nicerVAPIError`, which keeps no error type
  nicer : ApiError → Error
  -- `readingErr`, `updatingErr` and `creatingErr`
  reading : ApiError → Error
  updating : ApiError → Error
  creating : ApiError → Error
  -- an unexpected HTTP status code
  updating_status : ℕ → Error
  creating_status : ℕ → Error
  listing_status : ℕ → Error
  -- `CheckShootAuthorizationByTags`
  not_authorized : Verdict → Error
  -- `errors.Wrapf`
  wrapped : String → Error → Error

pub data Result (A : Type 0) : Type 0 where
  ok : A → Result A
  err : Error → Result A
  panic : Result A
  exhausted : Result A

pub data ActionName : Type 0 where
  created updated unchanged found external : ActionName

module _ (W : Type 0) where
  abbrev pub Outcome : Type 0 → Type 0
  Outcome A = Result A × W × NsxtInfraState

  abbrev pub Action : Type 0 → Type 0
  Action A = W → NsxtInfraState → Outcome A

module _ {W A : Type 0} where
  abbrev pub pure : A → Action W A
  pure a w s = (ok a, w, s)

  abbrev pub fail : Error → Action W A
  fail e w s = (err e, w, s)

  abbrev pub gets : (NsxtInfraState → A) → Action W A
  gets f w s = (ok (f s), w, s)

  -- A call of the outside, which does not see the state.
  abbrev pub call : (W → A × W) → Action W A
  call f w s = let (a, w') = f w in (ok a, w', s)

  -- `*p`
  abbrev pub deref : Option A → Action W A
  deref none w s = (panic, w, s)
  deref (some a) w s = (ok a, w, s)

  -- An early return of an error, from a pure computation that may fail.
  abbrev pub or_fail : Result A → Action W A
  or_fail r w s = (r, w, s)

abbrev pub modify : {W : Type 0} → (NsxtInfraState → NsxtInfraState) → Action W (Unit {0})
modify f w s = (ok tt, w, f s)

-- What follows a call runs only after it returned.
abbrev pub then_run : {W A B : Type 0} → (A → Action W B) → Outcome W A → Outcome W B
then_run f (ok a, w, s) = f a w s
then_run f (err e, w, s) = (err e, w, s)
then_run f (panic, w, s) = (panic, w, s)
then_run f (exhausted, w, s) = (exhausted, w, s)

infixl 5 ◌>>=◌ ◌>>◌
abbrev pub ◌>>=◌ : {W A B : Type 0} → Action W A → (A → Action W B) → Action W B
◌>>=◌ m f w s = then_run f (m w s)

abbrev pub ◌>>◌ : {W A B : Type 0} → Action W A → Action W B → Action W B
m >> k = m >>= λ _. k

-- A call neither dereferences nil nor, if it returns a value, leaves a state without `P`.
abbrev pub Safe : {W A : Type 0} → (NsxtInfraState → Type 0) → Outcome W A → Type 0
Safe P (ok a, w, s) = P s
Safe P (err e, w, s) = Unit
Safe P (panic, w, s) = ⊥
Safe P (exhausted, w, s) = Unit

pub Safe-then :
    {W A B : Type 0} (P Q : NsxtInfraState → Type 0) (f : A → Action W B) (o : Outcome W A)
    → Safe P o
    → ((a : A) (w : W) (s : NsxtInfraState) → P s → Safe Q (f a w s))
    → Safe Q (then_run f o)
Safe-then P Q f (ok a, w, s) h k = k a w s h
Safe-then P Q f (err e, w, s) h k = tt
Safe-then P Q f (panic, w, s) h k = absurd h
Safe-then P Q f (exhausted, w, s) h k = tt

pub Safe-weaken :
    {W A : Type 0} (P Q : NsxtInfraState → Type 0) (o : Outcome W A)
    → ((s : NsxtInfraState) → P s → Q s)
    → Safe P o
    → Safe Q o
Safe-weaken P Q (ok a, w, s) k h = k s h
Safe-weaken P Q (err e, w, s) k h = tt
Safe-weaken P Q (panic, w, s) k h = absurd h
Safe-weaken P Q (exhausted, w, s) k h = tt

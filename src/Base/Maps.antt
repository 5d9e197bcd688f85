-- ===== src/Base/Maps.antt =====
-- Go's maps from texts: association lists, where the first entry of a key counts.
use Prim.Native.String.{String}
use mathlib.Core.Path.{◌≡◌}
use mathlib.Core.Option.{Option, none, some}
use mathlib.Core.List.{List, [], ◌∷◌}
use native.Mathlib.Omega.{arith}
use gardener_extension_provi.Base.Tests.{if◌then◌else◌, same, same_iff}

abbrev pub Map : Type 0 → Type 0
Map A = List (String × A)

abbrev pub get : {A : Type 0} → String → Map A → Option A
get k [] = none
get k ((j, a) ∷ m) = if same k j then some a else get k m

abbrev pub put : {A : Type 0} → String → A → Map A → Map A
put k a [] = (k, a) ∷ []
put k a ((j, b) ∷ m) = if same k j then (k, a) ∷ m else (j, b) ∷ put k a m

pub get-put :
    {A : Type 0} (k j : String) (a : A) (m : Map A)
    → get k (put j a m) ≡ (if same k j then some a else get k m)
get-put k j a [] = ground arith
get-put k j a ((i, b) ∷ m) =
    ground (arith, get-put k j a m, same_iff k j, same_iff j i, same_iff k i)

-- ===== src/Infra/Lookup.antt =====
-- Looking an object up in a listing, page by page: `LookupIPPoolIDByName`, the tier-0 gateway's and
-- the other lookups, and `reflectTryRecover` (task/taskhelper.go, task/tasks.go). The loops have no
-- bound in the source; here they run on fuel, and `exhausted` says that it ran out.
pub mod Laws
use Prim.Native.String.{◌++◌}
use gardener_extension_provi.Base.{
  ℕ, zero, suc, ◌+◌, String, Bool, true, false, ◌||◌, List, [], ◌∷◌, Option, none, some, leb, ◌==◌,
  same, find, length, if◌then◌else◌,
}
use gardener_extension_provi.Tags.{Tag, contains_tags}
use gardener_extension_provi.Infra.State.{Reference, NsxtInfraState}
use gardener_extension_provi.Infra.Service.{Answer, got, failed, Stored, Page, Named}
use gardener_extension_provi.Infra.Action.{
  ApiError, Error, text, nicer, Result, ok, err, panic, exhausted, Action, pure, fail, call, ◌>>=◌,
}

-- A call whose error ends the caller.
abbrev pub api : {W A : Type 0} → (ApiError → Error) → (W → Answer A × W) → Action W A
api wrap f w s =
    let (answer, w') = f w in
    elim answer [ got a ↦ (ok a, w', s) | failed e ↦ (err (wrap e), w', s) ]

-- The loop over the items: `*item.DisplayName == name`.
unfoldable pub find_named : String → List Named → Result (Option Named)
find_named name [] = ok none
find_named name (item ∷ items) =
    let rest = find_named name items in
    elim item.display_name [
      | none ↦ panic
      | some found ↦ if same found name then ok (some item) else rest
    ]

abbrev pub not_found_by : String → Error
not_found_by name = text ("not found: " ++ name)

-- The total is read from a page that was asked for without a cursor.
abbrev pub total_of : Option String → ℕ → ℕ → ℕ
total_of none result_count total = result_count
total_of (some _) result_count total = total

module _ {W : Type 0} (list : Option String → W → Answer (Page Named) × W) (name : String) where
  unfoldable pub lookup_pages : ℕ → Option String → ℕ → ℕ → Action W Named
  unfolding find_named
  lookup_pages zero cursor total count w s = (exhausted, w, s)
  lookup_pages (suc fuel) cursor total count w s =
      let (answer, w') = list cursor w in
      elim answer [
        | failed e ↦ (err (nicer e), w', s)
        | got page ↦ elim (find_named name page.results) [
          | ok (some item) ↦ (ok item, w', s)
          | ok none ↦
              let total' = total_of cursor page.result_count total in
              let count' = count + length page.results in
              let next = lookup_pages fuel page.cursor total' count' w' s in
              if leb total' count' then (err (not_found_by name), w', s) else next
          | err e ↦ (err e, w', s)
          | panic ↦ (panic, w', s)
          | exhausted ↦ (exhausted, w', s)
        ]
      ]

  unfoldable pub lookup_by_name : ℕ → Action W Named
  unfolding lookup_pages
  lookup_by_name fuel = lookup_pages fuel none 0 0

-- The lookups of edge clusters and transport zones read one page only.
unfoldable pub lookup_in : {W : Type 0} → (W → Answer (List Named) × W) → String → Action W Named
unfolding find_named
lookup_in list name w s =
    let (answer, w') = list w in
    elim answer [
      | failed e ↦ (err (nicer e), w', s)
      | got items ↦ elim (find_named name items) [
        | ok (some item) ↦ (ok item, w', s)
        | ok none ↦ (err (not_found_by name), w', s)
        | err e ↦ (err e, w', s)
        | panic ↦ (panic, w', s)
        | exhausted ↦ (exhausted, w', s)
      ]
    ]

-- What reflection reads from a cursor that is nil.
abbrev pub cursor_text : Option String → String
cursor_text none = "<invalid Value>"
cursor_text (some c) = c

module _ {W O : Type 0} (list : Option String → W → Answer (Page (Stored O)) × W)
    (tags_of : O → List Tag) (tags : List Tag) where
  abbrev pub is_wanted : Stored O → Bool
  is_wanted item = contains_tags (tags_of item.object) tags

  -- `reflectTryRecover` up to the recovered item: an error of the listing counts as not found.
  unfoldable pub recover_pages : ℕ → Option String → ℕ → ℕ → Action W (Option (Stored O))
  recover_pages zero cursor total count w s = (exhausted, w, s)
  recover_pages (suc fuel) cursor total count w s =
      let (answer, w') = list cursor w in
      elim answer [
        | failed e ↦ (ok none, w', s)
        | got page ↦ elim (find is_wanted page.results) [
          | some item ↦ (ok (some item), w', s)
          | none ↦
              let items = length page.results in
              let total' = total_of cursor page.result_count total in
              let count' = count + items in
              let next = recover_pages fuel (some (cursor_text page.cursor)) total' count' w' s in
              if leb total' count' || items == 0 then (ok none, w', s) else next
        ]
      ]

  unfoldable pub recover_item : ℕ → Action W (Option (Stored O))
  unfolding recover_pages
  recover_item fuel = recover_pages fuel none 0 0

-- ===== src/Infra/Lookup/Laws.antt =====
-- The rounds of the loop in `reflectTryRecover` (task/taskhelper.go).
use gardener_extension_provi.Base.{
  ℕ, zero, suc, ◌+◌, ◌<◌, String, List, Option, none, some, ◌≡◌, ◌≢◌, arith, length, inl, inr,
}
use gardener_extension_provi.Tags.{Tag}
use gardener_extension_provi.Infra.State.{NsxtInfraState}
use gardener_extension_provi.Infra.Service.{Answer, got, Stored, Page}
use gardener_extension_provi.Infra.Action.{exhausted, Outcome}
use gardener_extension_provi.Infra.Lookup.{cursor_text, recover_pages, recover_item}
use gardener_extension_provi.Infra.Safety.Rules.{Answer-cases}

abbrev pub Returns : {W A : Type 0} → Outcome W A → Type 0
Returns o = o.0 ≢ exhausted

module _ {W O : Type 0} (list : Option String → W → Answer (Page (Stored O)) × W)
    (tags_of : O → List Tag) (tags : List Tag) (s : NsxtInfraState) where
  recover_pages-Returns :
      (fuel : ℕ) (cursor : String) (total count : ℕ) (w : W)
      → total < count + suc fuel
      → Returns (recover_pages list tags_of tags (suc fuel) (some cursor) total count w s)
  unfolding recover_pages
  recover_pages-Returns zero cursor total count w h = elim (Answer-cases (list (some cursor) w).0) [
    | inl (e, broken) ↦ ground arith
    | inr (page, listed) ↦ ground arith
  ]
  recover_pages-Returns (suc fuel) cursor total count w h =
      elim (Answer-cases (list (some cursor) w).0) [
        | inl (e, broken) ↦ ground arith
        | inr (page, listed) ↦ ground (
          arith,
          recover_pages-Returns fuel (cursor_text page.cursor) total (count + length page.results)
              (list (some cursor) w).1,
        )
      ]

  -- Recovery by tags returns, with an item or without, in two rounds more than the items that the
  -- first page announces, whatever the pages hold.
  pub recover_item-Returns :
      (fuel : ℕ) (w : W)
      → ((page : Page (Stored O)) → (list none w).0 ≡ got page → page.result_count < fuel)
      → Returns (recover_item list tags_of tags (suc fuel) w s)
  unfolding recover_item recover_pages
  recover_item-Returns zero w h = elim (Answer-cases (list none w).0) [
    | inl (e, broken) ↦ ground arith
    | inr (page, listed) ↦ absurd (let k = h page listed in omega arith)
  ]
  recover_item-Returns (suc fuel) w h = elim (Answer-cases (list none w).0) [
    | inl (e, broken) ↦ ground arith
    | inr (page, listed) ↦
        let k = h page listed in
        ground (
          arith,
          recover_pages-Returns fuel (cursor_text page.cursor) page.result_count
              (length page.results) (list none w).1,
        )
  ]

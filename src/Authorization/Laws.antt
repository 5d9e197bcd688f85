-- ===== src/Authorization/Laws.antt =====
-- When a shoot is authorized.
use gardener_extension_provi.Base.{
  String, Bool, true, false, List, [], ◌∷◌, none, some, ◌≡◌, ◌≢◌, ◌↔◌, inl, inr, arith, same_iff,
  Bool-cases, Option-cases,
}
use gardener_extension_provi.Tags.{TagMap, lookup, scope_garden, scope_authorized_shoots}
use gardener_extension_provi.Text.{split}
use gardener_extension_provi.Authorization.{
  Compile, has_star, part_allows, any_allows, check_shoot_authorization, authorized, tag_value,
  tokens_of, Token,
}
use gardener_extension_provi.Authorization.Pattern.{Matches, matches_iff}

-- A part allows a shoot that it names, or whose namespace its pattern stands for.
pub data Allows (compile : Compile) (ns : String) : String → Type 0 where
  named : {part : String} → has_star part ≡ false → part ≡ ns → Allows compile ns part
  simple :
      {part : String} {ts : List Token}
      → has_star part ≡ true
      → tokens_of part ≡ some ts
      → Matches ts ns
      → Allows compile ns part
  general :
      {part : String} {re : String → Bool}
      → has_star part ≡ true
      → tokens_of part ≡ none
      → compile part ≡ some re
      → re ns ≡ true
      → Allows compile ns part

pub data Some {A : Type 0} (P : A → Type 0) : List A → Type 0 where
  here : {x : A} {xs : List A} → P x → Some P (x ∷ xs)
  there : {x : A} {xs : List A} → Some P xs → Some P (x ∷ xs)

module _ (compile : Compile) (ns : String) where
  part_allows_sound : (part : String) → part_allows compile part ns ≡ true → Allows compile ns part
  unfolding part_allows
  part_allows_sound part h = elim (Bool-cases (has_star part)) [
    | inr plain ↦ named plain ((same_iff part ns).0 (ground arith))
    | inl starred ↦ elim (Option-cases (tokens_of part)) [
      | inr (ts, e) ↦ simple starred e ((matches_iff ts ns).0 (ground arith))
      | inl other ↦ elim (Option-cases (compile part)) [
        | inl bad ↦ absurd (ground arith)
        | inr (re, e) ↦ general starred other e (ground arith)
      ]
    ]
  ]

  part_allows_complete :
      {part : String} → Allows compile ns part → part_allows compile part ns ≡ true
  unfolding part_allows
  part_allows_complete (named {part} plain e) = ground (arith, same_iff part ns)
  part_allows_complete (simple {part} {ts} starred e m) = ground (arith, matches_iff ts ns, m)
  part_allows_complete (general starred other e accepts) = ground arith

  any_allows_sound :
      (parts : List String) → any_allows compile parts ns ≡ true → Some (Allows compile ns) parts
  unfolding any_allows
  any_allows_sound [] h = cc
  any_allows_sound (part ∷ parts) h = elim (Bool-cases (part_allows compile part ns)) [
    | inl yes_here ↦ here (part_allows_sound part yes_here)
    | inr not_here ↦ there (any_allows_sound parts (ground arith))
  ]

  any_allows_complete :
      {parts : List String} → Some (Allows compile ns) parts → any_allows compile parts ns ≡ true
  unfolding any_allows
  any_allows_complete (here p) = ground (arith, part_allows_complete p)
  any_allows_complete (there {x} r) = ground (arith, any_allows_complete r)

  -- A shoot is authorized exactly if the object carries a garden tag with the shoot's own, nonempty
  -- garden id, and some part of its authorized-shoots tag allows the shoot's namespace.
  pub check_shoot_authorization_iff :
      (garden_id : String) (tags : TagMap)
      → (check_shoot_authorization compile ns garden_id tags ≡ authorized) ↔ (
          (garden_id ≢ "")
          × (lookup scope_garden tags ≡ some garden_id)
          × (tag_value tags scope_authorized_shoots ≢ "")
          × Some (Allows compile ns) (split (tag_value tags scope_authorized_shoots) ","))
  unfolding check_shoot_authorization
  check_shoot_authorization_iff garden_id tags =
      let g : String = tag_value tags scope_garden in
      let shoots : String = tag_value tags scope_authorized_shoots in
      (
        λ h. (
          ground (arith, same_iff g "", same_iff garden_id g),
          ground (arith, same_iff g "", same_iff garden_id g),
          ground (arith, same_iff shoots ""),
          any_allows_sound (split shoots ",") (ground arith),
        ),
        λ (nonempty, garden, given, allowed). ground (
          arith,
          same_iff g "",
          same_iff garden_id g,
          same_iff shoots "",
          any_allows_complete allowed,
        ),
      )

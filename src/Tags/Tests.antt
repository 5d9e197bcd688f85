-- ===== src/Tags/Tests.antt =====
-- The tables of pkg/vsphere/infrastructure/task/helpers_test.go, and the theorems at inputs.
use gardener_extension_provi.Base.{
  String, List, [], ◌∷◌, ◌≡◌, refl, true, false, same, none, some, ◌↔◌, All,
}
use gardener_extension_provi.Tags.{Tag, contains_tags, merge_tags, lookup, tags_to_map}
use gardener_extension_provi.Tags.Laws.{value_of, last_value, contains_tags_iff, tags_to_map-lookup}
use gardener_extension_provi.Tags.Wanted.{IsMerged, merge_tags-IsMerged}

abbrev of : String → String → Tag
of scope tag = record { scope = scope; tag = tag }

abbrev tags1 : List Tag
tags1 = of "owner" "o1" ∷ of "cluster" "c1" ∷ []

abbrev tags2 : List Tag
tags2 = of "owner" "o1" ∷ of "cluster" "c2" ∷ []

abbrev item_tags : List Tag
item_tags = of "owner" "o1" ∷ of "cluster" "c1" ∷ of "foo" "bla" ∷ []

contains_table :
    (contains_tags tags1 tags1 ≡ true)
    × (contains_tags item_tags tags1 ≡ true)
    × (contains_tags item_tags tags2 ≡ false)
    × (contains_tags tags1 item_tags ≡ false)
unfolding contains_tags same
contains_table = (refl, refl, refl, refl)

merge_table : (merge_tags tags1 tags2 ≡ tags1) × (merge_tags tags1 item_tags ≡ item_tags)
unfolding merge_tags same
merge_table = (refl, refl)

merge_tags-IsMerged_example : IsMerged tags2 item_tags (merge_tags tags2 item_tags)
unfolding value_of same
merge_tags-IsMerged_example =
    merge_tags-IsMerged tags2 item_tags (refl, (refl, tt)) (refl, (refl, (refl, tt)))

contains_tags_iff_example :
    (contains_tags item_tags tags1 ≡ true)
    ↔ All (λ t. value_of item_tags t.scope ≡ some t.tag) tags1
contains_tags_iff_example = contains_tags_iff item_tags tags1

tags_to_map-lookup_example : lookup "foo" (tags_to_map item_tags) ≡ last_value none item_tags "foo"
tags_to_map-lookup_example = tags_to_map-lookup item_tags "foo"

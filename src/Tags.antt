-- ===== src/Tags.antt =====
-- NSX-T tags: pkg/vsphere/infrastructure/infraspec.go and the tag functions of
-- pkg/vsphere/infrastructure/task/helpers.go and tasks_advanced_dhcp.go.
-- The pointers of `model.Tag` are never nil in what the code builds or reads, so both tag types are
-- one record.
pub mod Laws
pub mod Wanted
pub mod Tests
use gardener_extension_provi.Base.{
  String, Bool, true, false, List, [], ◌∷◌, ◌++◌, Option, none, some, same, if◌then◌else◌,
}

pub record Tag : Type 0 where
  pub scope : String
  pub tag : String

-- The inner loop of `containsTags`: the first item with the scope decides.
pub has_tag : List Tag → Tag → Bool
has_tag [] tag = false
has_tag (t ∷ items) tag = if same t.scope tag.scope then same t.tag tag.tag else has_tag items tag

unfoldable pub contains_tags : List Tag → List Tag → Bool
unfolding has_tag
contains_tags items [] = true
contains_tags items (tag ∷ tags) = if has_tag items tag then contains_tags items tags else false

pub has_scope : List Tag → String → Bool
has_scope [] scope = false
has_scope (t ∷ items) scope = if same t.scope scope then true else has_scope items scope

-- The outer loop of `mergeTags`, on the result so far.
merge_from : List Tag → List Tag → List Tag → List Tag
unfolding has_scope
merge_from result a [] = result
merge_from result a (tag ∷ b) =
    merge_from (if has_scope a tag.scope then result else result ++ tag ∷ []) a b

unfoldable pub merge_tags : List Tag → List Tag → List Tag
unfolding merge_from
merge_tags a b = merge_from a a b

-- The same two functions over the tags of the Advanced API.
unfoldable pub contains_common_tags : List Tag → List Tag → Bool
unfolding contains_tags
contains_common_tags items tags = contains_tags items tags

unfoldable pub merge_common_tags : List Tag → List Tag → List Tag
unfolding merge_tags
merge_common_tags a b = merge_tags a b

-- A Go map from texts to texts, as an association list with one entry for a key.
abbrev pub TagMap : Type 0
TagMap = List (String × String)

unfoldable pub lookup : String → TagMap → Option String
lookup key [] = none
lookup key ((k, v) ∷ rest) = if same k key then some v else lookup key rest

pub insert : String → String → TagMap → TagMap
insert key value [] = (key, value) ∷ []
insert key value ((k, v) ∷ rest) =
    if same k key then (key, value) ∷ rest else (k, v) ∷ insert key value rest

tags_to_map_from : TagMap → List Tag → TagMap
unfolding insert
tags_to_map_from tagmap [] = tagmap
tags_to_map_from tagmap (t ∷ tags) = tags_to_map_from (insert t.scope t.tag tagmap) tags

unfoldable pub tags_to_map : List Tag → TagMap
unfolding tags_to_map_from
tags_to_map tags = tags_to_map_from [] tags

abbrev pub scope_garden : String
scope_garden = "garden"

abbrev pub scope_shoot : String
scope_shoot = "shoot"

abbrev pub scope_authorized_shoots : String
scope_authorized_shoots = "authorized-shoots"

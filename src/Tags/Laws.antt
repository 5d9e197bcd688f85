-- ===== src/Tags/Laws.antt =====
-- What the tag functions compute, against the value that a list of tags gives a scope.
use gardener_extension_provi.Base.{
  String, true, List, [], ◌∷◌, ◌++◌, Option, none, some, ◌≡◌, refl, ◌↔◌, arith, same, same_iff,
  is_some, if◌then◌else◌, All,
}
use gardener_extension_provi.Tags.{
  Tag, has_tag, contains_tags, has_scope, merge_from, merge_tags, lookup, insert, tags_to_map_from,
  tags_to_map, TagMap,
}

-- The value of the first tag with the scope.
unfoldable pub value_of : List Tag → String → Option String
value_of [] scope = none
value_of (t ∷ items) scope = if same t.scope scope then some t.tag else value_of items scope

-- The value of the last tag with the scope, or a default.
unfoldable pub last_value : Option String → List Tag → String → Option String
last_value found [] scope = found
last_value found (t ∷ items) scope =
    last_value (if same t.scope scope then some t.tag else found) items scope

abbrev pub or_else : Option String → Option String → Option String
or_else none other = other
or_else (some v) other = some v

has_tag_iff :
    (items : List Tag) (t : Tag) → (has_tag items t ≡ true) ↔ (value_of items t.scope ≡ some t.tag)
unfolding has_tag value_of
has_tag_iff [] t = ground arith
has_tag_iff (x ∷ items) t = ground (arith, has_tag_iff items t, same_iff x.tag t.tag)

-- `containsTags` answers true exactly when the items give each wanted scope the wanted value.
pub contains_tags_iff :
    (items tags : List Tag)
    → (contains_tags items tags ≡ true) ↔ All (λ t. value_of items t.scope ≡ some t.tag) tags
unfolding contains_tags
contains_tags_iff items [] = ground arith
contains_tags_iff items (t ∷ tags) =
    ground (arith, has_tag_iff items t, contains_tags_iff items tags)

pub value_of-append :
    (a b : List Tag) (s : String) → value_of (a ++ b) s ≡ or_else (value_of a s) (value_of b s)
unfolding value_of
value_of-append [] b s = refl
value_of-append (t ∷ a) b s = ground (arith, value_of-append a b s)

pub has_scope-value_of : (a : List Tag) (s : String) → has_scope a s ≡ is_some (value_of a s)
unfolding has_scope value_of
has_scope-value_of [] s = refl
has_scope-value_of (t ∷ a) s = ground (arith, has_scope-value_of a s)

-- The loop appends tags of foreign scopes only.
merge_from-value_of :
    (result a b : List Tag) (s : String)
    → value_of (merge_from result a b) s
      ≡ or_else (value_of result s) (if has_scope a s then none else value_of b s)
unfolding merge_from value_of
merge_from-value_of result a [] s = ground arith
merge_from-value_of result a (t ∷ b) s = ground (
  arith,
  merge_from-value_of result a b s,
  merge_from-value_of (result ++ t ∷ []) a b s,
  value_of-append result (t ∷ []) s,
  same_iff t.scope s,
)

pub merge_tags-value_of :
    (a b : List Tag) (s : String)
    → value_of (merge_tags a b) s ≡ or_else (value_of a s) (value_of b s)
unfolding merge_tags
merge_tags-value_of a b s = ground (arith, merge_from-value_of a a b s, has_scope-value_of a s)

lookup-insert :
    (key j v : String) (m : TagMap)
    → lookup j (insert key v m) ≡ (if same key j then some v else lookup j m)
unfolding lookup insert
lookup-insert key j v [] = refl
lookup-insert key j v ((i, w) ∷ m) =
    ground (arith, same_iff key j, same_iff i key, same_iff i j, lookup-insert key j v m)

tags_to_map_from-lookup :
    (m : TagMap) (tags : List Tag) (s : String)
    → lookup s (tags_to_map_from m tags) ≡ last_value (lookup s m) tags s
unfolding tags_to_map_from last_value
tags_to_map_from-lookup m [] s = refl
tags_to_map_from-lookup m (t ∷ tags) s = ground (
  arith,
  tags_to_map_from-lookup (insert t.scope t.tag m) tags s,
  lookup-insert t.scope s t.tag m,
)

-- `TagsToMap` gives each scope the value of the last tag that has it, and no other scope a value.
pub tags_to_map-lookup :
    (tags : List Tag) (s : String) → lookup s (tags_to_map tags) ≡ last_value none tags s
unfolding tags_to_map lookup
tags_to_map-lookup tags s = tags_to_map_from-lookup [] tags s

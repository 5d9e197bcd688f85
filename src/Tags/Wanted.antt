-- ===== src/Tags/Wanted.antt =====
-- The tags that the code writes and looks for.
use gardener_extension_provi.Base.{
  String, List, [], ◌∷◌, ◌++◌, none, some, ◌≡◌, refl, true, false, arith, same_iff, same_refl, All,
  inl, inr, Bool-cases,
}
use gardener_extension_provi.Tags.{Tag, contains_tags, has_scope, merge_from, merge_tags}
use gardener_extension_provi.Tags.Laws.{
  value_of, or_else, contains_tags_iff, merge_tags-value_of, has_scope-value_of, value_of-append,
}

-- No scope stands twice.
abbrev pub HasDistinctScopes : List Tag → Type 0
HasDistinctScopes [] = Unit
HasDistinctScopes (t ∷ tags) = (value_of tags t.scope ≡ none) × HasDistinctScopes tags

All-shift :
    (t : Tag) (tags wanted : List Tag)
    → All (λ w. value_of tags w.scope ≡ some w.tag) wanted
    → value_of tags t.scope ≡ none
    → All (λ w. value_of (t ∷ tags) w.scope ≡ some w.tag) wanted
unfolding value_of
All-shift t tags [] h fresh = tt
All-shift t tags (w ∷ wanted) h fresh =
    (ground (arith, same_iff t.scope w.scope), All-shift t tags wanted h.1 fresh)

value_of_self :
    (tags : List Tag) → HasDistinctScopes tags → All (λ w. value_of tags w.scope ≡ some w.tag) tags
unfolding value_of
value_of_self [] d = tt
value_of_self (t ∷ tags) d =
    (ground (arith, same_refl t.scope), All-shift t tags tags (value_of_self tags d.1) d.0)

All-merge_tags :
    (a b wanted : List Tag)
    → All (λ w. value_of a w.scope ≡ some w.tag) wanted
    → All (λ w. value_of (merge_tags a b) w.scope ≡ some w.tag) wanted
All-merge_tags a b [] h = tt
All-merge_tags a b (w ∷ wanted) h =
    (ground (arith, merge_tags-value_of a b w.scope), All-merge_tags a b wanted h.1)

pub merge_tags-contains_tags :
    (wanted old : List Tag)
    → HasDistinctScopes wanted
    → contains_tags (merge_tags wanted old) wanted ≡ true
merge_tags-contains_tags wanted old d =
    (contains_tags_iff (merge_tags wanted old) wanted).1
      (All-merge_tags wanted old wanted (value_of_self wanted d))

HasDistinctScopes-append :
    (tags : List Tag) (t : Tag)
    → HasDistinctScopes tags
    → value_of tags t.scope ≡ none
    → HasDistinctScopes (tags ++ t ∷ [])
unfolding value_of
HasDistinctScopes-append [] t d fresh = (refl, tt)
HasDistinctScopes-append (x ∷ tags) t d fresh = (
  ground (
    arith,
    value_of-append tags (t ∷ []) x.scope,
    same_iff x.scope t.scope,
    same_iff t.scope x.scope,
    d.0,
  ),
  HasDistinctScopes-append tags t d.1 (ground arith),
)

-- A tag that the loop can still append has a scope of its own.
abbrev IsNew : List Tag → List Tag → Tag → Type 0
IsNew result a t = has_scope a t.scope ≡ false → value_of result t.scope ≡ none

All-IsNew :
    (result a b : List Tag) (t : Tag)
    → value_of b t.scope ≡ none
    → All (IsNew result a) b
    → All (IsNew (result ++ t ∷ []) a) b
unfolding value_of
All-IsNew result a [] t fresh h = tt
All-IsNew result a (u ∷ b) t fresh h = (
  λ e. ground (
    arith,
    h.0 e,
    value_of-append result (t ∷ []) u.scope,
    same_iff t.scope u.scope,
    same_iff u.scope t.scope,
  ),
  All-IsNew result a b t (ground arith) h.1,
)

merge_from-HasDistinctScopes :
    (result a b : List Tag)
    → HasDistinctScopes result
    → HasDistinctScopes b
    → All (IsNew result a) b
    → HasDistinctScopes (merge_from result a b)
unfolding merge_from
merge_from-HasDistinctScopes result a [] d e h = d
merge_from-HasDistinctScopes result a (t ∷ b) d e h = elim (Bool-cases (has_scope a t.scope)) [
  | inl known ↦ rw known (merge_from-HasDistinctScopes result a b d e.1 h.1)
  | inr new ↦ rw new (
      merge_from-HasDistinctScopes (result ++ t ∷ []) a b
        (HasDistinctScopes-append result t d (h.0 new)) e.1 (All-IsNew result a b t e.0 h.1))
]

All-IsNew_self : (a b : List Tag) → All (IsNew a a) b
All-IsNew_self a [] = tt
All-IsNew_self a (t ∷ b) = ((λ e. ground (arith, has_scope-value_of a t.scope)), All-IsNew_self a b)

-- What a list of tags is that has the tags of `a`, and those of `b` with other scopes.
abbrev pub IsMerged : List Tag → List Tag → List Tag → Type 0
IsMerged a b tags =
    HasDistinctScopes tags
    × ((s : String) → value_of tags s ≡ or_else (value_of a s) (value_of b s))
    × (contains_tags tags a ≡ true)

-- Of two lists that each have no scope twice, `mergeTags` makes one that has no scope twice, gives
-- each scope the value of the first list or else that of the second, and contains the tags of the
-- first list.
pub merge_tags-IsMerged :
    (a b : List Tag) → HasDistinctScopes a → HasDistinctScopes b → IsMerged a b (merge_tags a b)
merge_tags-IsMerged a b d e = (
  unfold merge_tags in merge_from-HasDistinctScopes a a b d e (All-IsNew_self a b),
  merge_tags-value_of a b,
  merge_tags-contains_tags a b d,
)

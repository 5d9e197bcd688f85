-- ===== src/Infra/Safety/Rules.antt =====
-- How `Safe` goes through the parts that the tasks are made of.
use Prim.Native.String.{◌++◌}
use gardener_extension_provi.Base.{
  ℕ, zero, suc, String, true, List, Option, none, some, ◌≡◌, refl, arith, is_some, Bool-cases,
  Option-cases, All, same, ◌∷◌, [], inl, inr, ◌⊎◌, length, ◌+◌,
}
use mathlib.Core.Path.{subst, sym}
use gardener_extension_provi.Infra.State.{Reference, NsxtInfraState}
use gardener_extension_provi.Infra.Action.{
  ApiError, Error, Result, ok, err, panic, exhausted, Outcome, Action, ActionName, then_run, deref,
  or_fail, Safe, Safe-then, pure, modify, creating, created, ◌>>◌,
}
use gardener_extension_provi.Infra.Service.{Answer, got, failed, Page, Named, Stored}
use gardener_extension_provi.Infra.Lookup.{
  api, total_of, find_named, lookup_pages, lookup_by_name, lookup_in,
}
use gardener_extension_provi.Infra.Resource.{
  Resource, create_resource, refresh, on_read, on_reference, ensure_resource, is_not_found,
}

pub Answer-cases :
    {A : Type 0} (a : Answer A) → ((e : ApiError) × (a ≡ failed e)) ⊎ ((x : A) × (a ≡ got x))
Answer-cases (failed e) = inl (e, refl)
Answer-cases (got x) = inr (x, refl)

module _ {W A B : Type 0} (P : NsxtInfraState → Type 0) (f : A → Action W B) (w : W)
    (s : NsxtInfraState) where
  pub deref-Safe :
      (o : Option A)
      → is_some o ≡ true
      → ((a : A) → Safe P (f a w s))
      → Safe P (then_run f (deref o w s))
  deref-Safe none h k = cc
  deref-Safe (some a) h k = k a

  pub or_fail-Safe :
      (r : Result A)
      → ¬ (r ≡ panic)
      → ((a : A) → Safe P (f a w s))
      → Safe P (then_run f (or_fail r w s))
  or_fail-Safe (ok a) h k = k a
  or_fail-Safe (err e) h k = tt
  or_fail-Safe panic h k = absurd (h refl)
  or_fail-Safe exhausted h k = tt

module _ {W A B : Type 0} (P : NsxtInfraState → Type 0) (f : A → Action W B)
    (s : NsxtInfraState) where
  answer-Safe :
      (wrap : ApiError → Error) (o a : Answer A) (w : W)
      → o ≡ a
      → ((a : A) → o ≡ got a → Safe P (f a w s))
      → Safe P (then_run f (api wrap (λ v. (a, v)) w s))
  answer-Safe wrap o (got a) w e k = k a e
  answer-Safe wrap o (failed x) w e k = tt

  -- With what is known of the answer.
  pub answered-Safe :
      (wrap : ApiError → Error) (m : W → Answer A × W) (w : W)
      → ((a : A) → (m w).0 ≡ got a → Safe P (f a (m w).1 s))
      → Safe P (then_run f (api wrap m w s))
  answered-Safe wrap m w k = answer-Safe wrap (m w).0 (m w).0 (m w).1 refl k

  pub api-Safe :
      (wrap : ApiError → Error) (m : W → Answer A × W) (w : W)
      → ((a : A) (w' : W) → Safe P (f a w' s))
      → Safe P (then_run f (api wrap m w s))
  api-Safe wrap m w k = answered-Safe wrap m w (λ a e. k a (m w).1)

module _ {W O : Type 0} (P : NsxtInfraState → Type 0) (r : Resource W O)
    (create : Action W ActionName) (desired : O) (s : NsxtInfraState)
    (keeps : (ref : Reference) → r.ref s ≡ some ref → P s) (creates : (w : W) → Safe P (create w s))
    (recreates : (w : W) → Safe P (create w (r.forget s))) where
  refresh-Safe :
      (ref : Reference) (old : O) (w : W) → P s → Safe P (refresh r create desired ref old w s)
  unfolding refresh
  refresh-Safe ref old w h = ground arith

  on_read-Safe :
      (ref : Reference) (answer : Answer (Stored O)) (w : W)
      → P s
      → Safe P (on_read r create desired ref answer w s)
  unfolding on_read
  on_read-Safe ref (got old) w h = refresh-Safe ref old.object w h
  on_read-Safe ref (failed e) w h = elim (Bool-cases (is_not_found e)) [
    | inl gone ↦ rw gone (recreates w)
    | inr broken ↦ rw broken tt
  ]

  on_reference-Safe :
      (o : Option Reference) (w : W) → r.ref s ≡ o → Safe P (on_reference r create desired o w s)
  unfolding on_reference
  on_reference-Safe none w e = creates w
  on_reference-Safe (some ref) w e =
      on_read-Safe ref (r.read ref.id w).0 (r.read ref.id w).1 (keeps ref e)

  pub ensure_resource-Safe : (w : W) → Safe P (ensure_resource r create desired w s)
  unfolding ensure_resource
  ensure_resource-Safe w = on_reference-Safe (r.ref s) w refl

module _ {W O : Type 0} (P : NsxtInfraState → Type 0) (s : NsxtInfraState) where
  -- A creation leaves what it records.
  pub create_resource-Safe :
      (uuid : W → String × W) (kind : String) (update : String → W → Answer (Stored O) × W)
      (set : Stored O → NsxtInfraState → NsxtInfraState) (w : W)
      → ((stored : Stored O) → P (set stored s))
      → Safe P (create_resource uuid kind update set w s)
  unfolding create_resource
  create_resource-Safe uuid kind update set w k =
      let id = kind ++ "-" ++ (uuid w).0 in after (update id (uuid w).1).0 (update id (uuid w).1).1
    where
      after :
          (a : Answer (Stored O)) (v : W)
          → Safe P (
              then_run
                (λ stored. modify (set stored) >> pure created)
                (api creating (λ v. (a, v)) v s))
      after (got stored) v = k stored
      after (failed e) v = tt

-- A call that only reads.
abbrev pub Reads : {W A : Type 0} → NsxtInfraState → Outcome W A → Type 0
Reads s o = Safe (λ u. u ≡ s) o

pub Reads-then :
    {W A B : Type 0} (P : NsxtInfraState → Type 0) (f : A → Action W B) (s : NsxtInfraState)
    (o : Outcome W A)
    → Reads s o
    → ((a : A) (w : W) → Safe P (f a w s))
    → Safe P (then_run f o)
Reads-then P f s o h k =
    Safe-then (λ u. u ≡ s) P f o h (λ a w u e. subst (λ v. Safe P (f a w v)) (sym e) (k a w))

-- An item whose display name is set.
abbrev pub IsNamed : Named → Type 0
IsNamed item = is_some item.display_name ≡ true

find_named-cases :
    (name : String) (items : List Named)
    → All IsNamed items
    → (find_named name items ≡ ok none)
      ⊎ ((item : Named) × (find_named name items ≡ ok (some item)))
unfolding find_named
find_named-cases name [] h = inl refl
find_named-cases name (item ∷ items) h = elim (Option-cases item.display_name) [
  | inl e ↦ absurd (ground (arith, h.0))
  | inr (found, e) ↦ elim (Bool-cases (same found name)) [
    | inl q ↦ inr (item, ground arith)
    | inr q ↦ elim (find_named-cases name items h.1) [
      | inl r ↦ inl (ground arith)
      | inr (x, r) ↦ inr (x, ground arith)
    ]
  ]
]

module _ {W : Type 0} (list : Option String → W → Answer (Page Named) × W) (name : String)
    (s : NsxtInfraState)
    (named : (cursor : Option String) (w : W) (page : Page Named)
      → (list cursor w).0 ≡ got page
      → All IsNamed page.results) where
  lookup_pages-Reads :
      (fuel : ℕ) (cursor : Option String) (total count : ℕ) (w : W)
      → Reads s (lookup_pages list name fuel cursor total count w s)
  unfolding lookup_pages
  lookup_pages-Reads zero cursor total count w = tt
  lookup_pages-Reads (suc fuel) cursor total count w = elim (Answer-cases (list cursor w).0) [
    | inl (e, q) ↦ ground (arith, q)
    | inr (page, q) ↦ elim (find_named-cases name page.results (named cursor w page q)) [
      | inr (item, r) ↦ ground (arith, q, r)
      | inl r ↦
          let total' = total_of cursor page.result_count total in
          let count' = count + length page.results in
          let next = lookup_pages-Reads fuel page.cursor total' count' (list cursor w).1 in
          ground (arith, q, r, next)
    ]
  ]

  pub lookup_by_name-Reads : (fuel : ℕ) (w : W) → Reads s (lookup_by_name list name fuel w s)
  unfolding lookup_by_name
  lookup_by_name-Reads fuel w = lookup_pages-Reads fuel none 0 0 w

pub lookup_in-Reads :
    {W : Type 0} (list : W → Answer (List Named) × W) (name : String) (w : W) (s : NsxtInfraState)
    → ((w : W) (items : List Named) → (list w).0 ≡ got items → All IsNamed items)
    → Reads s (lookup_in list name w s)
unfolding lookup_in
lookup_in-Reads list name w s named = elim (Answer-cases (list w).0) [
  | inl (e, q) ↦ ground (arith, q)
  | inr (items, q) ↦ elim (find_named-cases name items (named w items q)) [
    | inl r ↦ ground (arith, q, r)
    | inr (item, r) ↦ ground (arith, q, r)
  ]
]

-- ===== src/Authorization/Pattern.antt =====
-- The texts that a pattern of an authorized-shoots tag stands for.
use Prim.Native.Char.{Char, code}
use Prim.Native.String.{String, [], ◌∷◌}
use gardener_extension_provi.Base.{List, [], ◌∷◌, true, ◌≡◌, refl, ◌↔◌, arith, Bool-cases, inl, inr}
use gardener_extension_provi.Authorization.{Token, lit, any, star, is_any, matches}

-- A literal stands for itself, `.` for one character and `*` for any run of characters, none of
-- them an end of line.
pub data Matches : List Token → String → Type 0 where
  done : Matches [] []
  this :
      {a c : Char} {ts : List Token} {s : String}
      → code a ≡ code c
      → Matches ts s
      → Matches (lit a ∷ ts) (c ∷ s)
  one :
      {c : Char} {ts : List Token} {s : String}
      → is_any c ≡ true
      → Matches ts s
      → Matches (any ∷ ts) (c ∷ s)
  stop : {ts : List Token} {s : String} → Matches ts s → Matches (star ∷ ts) s
  more :
      {c : Char} {ts : List Token} {s : String}
      → is_any c ≡ true
      → Matches (star ∷ ts) s
      → Matches (star ∷ ts) (c ∷ s)

matches_sound : (ts : List Token) (s : String) → matches ts s ≡ true → Matches ts s
unfolding matches
matches_sound [] [] h = done
matches_sound [] (c ∷ s) h = cc
matches_sound (lit a ∷ ts) [] h = cc
matches_sound (lit a ∷ ts) (c ∷ s) h = this (ground arith) (matches_sound ts s (ground arith))
matches_sound (any ∷ ts) [] h = cc
matches_sound (any ∷ ts) (c ∷ s) h = one (ground arith) (matches_sound ts s (ground arith))
matches_sound (star ∷ ts) [] h = stop (matches_sound ts [] h)
matches_sound (star ∷ ts) (c ∷ s) h = elim (Bool-cases (matches ts (c ∷ s))) [
  | inl now ↦ stop (matches_sound ts (c ∷ s) now)
  | inr later ↦ more (ground arith) (matches_sound (star ∷ ts) s (ground arith))
]

matches-star : (ts : List Token) (s : String) → matches ts s ≡ true → matches (star ∷ ts) s ≡ true
unfolding matches
matches-star ts [] h = h
matches-star ts (c ∷ s) h = ground arith

matches_complete : {ts : List Token} {s : String} → Matches ts s → matches ts s ≡ true
unfolding matches
matches_complete done = refl
matches_complete (this e m) = ground (arith, matches_complete m)
matches_complete (one e m) = ground (arith, matches_complete m)
matches_complete (stop {ts} {s} m) = matches-star ts s (matches_complete m)
matches_complete (more e m) = ground (arith, matches_complete m)

-- The matcher accepts exactly the texts that the pattern stands for.
pub matches_iff : (ts : List Token) (s : String) → (matches ts s ≡ true) ↔ Matches ts s
matches_iff ts s = (matches_sound ts s, matches_complete)

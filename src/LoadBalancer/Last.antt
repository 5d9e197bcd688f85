-- ===== src/LoadBalancer/Last.antt =====
-- The last class of a name in a list.
use gardener_extension_provi.Base.{
  String, Bool, true, false, List, [], ◌∷◌, ◌++◌, ◌≡◌, ◌≢◌, ◌⊎◌, refl, if◌then◌else◌, inl, inr, All,
}
use gardener_extension_provi.Profile.{LoadBalancerClass}

abbrev pub NotNamed : String → LoadBalancerClass → Type 0
NotNamed name c = c.name ≢ name

-- The last class of a name, or else the one given.
abbrev pub IsLast : String → LoadBalancerClass → List LoadBalancerClass → LoadBalancerClass → Type 0
IsLast name first cs d =
    ((d ≡ first) × All (NotNamed name) cs)
    ⊎ ((before after : List LoadBalancerClass) × (cs ≡ before ++ (d ∷ after))
        × (d.name ≡ name)
        × All (NotNamed name) after)

-- One class more in front.
IsLast-other :
    (name : String) (first c : LoadBalancerClass) {d : LoadBalancerClass}
    (cs : List LoadBalancerClass)
    → c.name ≢ name
    → IsLast name first cs d
    → IsLast name first (c ∷ cs) d
IsLast-other name first c cs e (inl (same_d, others)) = inl (same_d, (e, others))
IsLast-other name first c cs e (inr (before, after, split, named, others)) =
    inr (c ∷ before, after, rw split refl, named, others)

IsLast-named :
    (name : String) (first c : LoadBalancerClass) {d : LoadBalancerClass}
    (cs : List LoadBalancerClass)
    → c.name ≡ name
    → IsLast name c cs d
    → IsLast name first (c ∷ cs) d
IsLast-named name first c cs e (inl (same_d, others)) =
    inr ([], cs, rw same_d refl, rw same_d e, others)
IsLast-named name first c cs e (inr (before, after, split, named, others)) =
    inr (c ∷ before, after, rw split refl, named, others)

-- One round of a loop that keeps the last class of the name.
pub IsLast-step :
    (name : String) (first c : LoadBalancerClass) (cs : List LoadBalancerClass)
    (rest : LoadBalancerClass → LoadBalancerClass) (b : Bool)
    → (b ≡ true → (c.name ≡ name) × IsLast name c cs (rest c))
    → (b ≡ false → (c.name ≢ name) × IsLast name first cs (rest first))
    → IsLast name first (c ∷ cs) (rest (if b then c else first))
IsLast-step name first c cs rest true f g =
    let (named, last) = f refl in IsLast-named name first c cs named last
IsLast-step name first c cs rest false f g =
    let (other, last) = g refl in IsLast-other name first c cs other last

-- ===== src/Text/Tests.antt =====
-- Runs of the text functions.
use gardener_extension_provi.Base.{[], ◌∷◌, ◌≡◌, refl, some}
use gardener_extension_provi.Base.Int.{negsuc}
use gardener_extension_provi.Text.{split, show, atoi}

split_test : split "10.0.96.0/20" "/" ≡ "10.0.96.0" ∷ "20" ∷ []
unfolding split
split_test = refl

split_arrow_test : split "a=>b=>" "=>" ≡ "a" ∷ "b" ∷ "" ∷ []
unfolding split
split_arrow_test = refl

show_test : show 1050 ≡ "1050"
unfolding show
show_test = refl

atoi_test : atoi "-120" ≡ some (negsuc 119)
unfolding atoi
atoi_test = refl

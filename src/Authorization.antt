-- ===== src/Authorization.antt =====
-- `CheckShootAuthorizationByTags` (pkg/vsphere/infrastructure/task/taskhelper.go): whether a shoot
-- may use a shared NSX-T object. A part with `*` becomes an anchored regular expression; the model
-- reads those of letters, digits, `-`, `_`, `.` and `*` itself, and takes what `regexp.Compile` makes
-- of any other part as the parameter `compile`.
pub mod Pattern
pub mod Laws
pub mod Tests
use Prim.Native.Char.{Char, code}
use Prim.Native.String
use Prim.Native.String.{String, [], ◌∷◌}
use gardener_extension_provi.Base.{
  ℕ, Bool, true, false, not, ◌&&◌, ◌||◌, List, [], ◌∷◌, Option, none, some, leb, ◌==◌, same,
  if◌then◌else◌,
}
use gardener_extension_provi.Tags.{TagMap, lookup, scope_garden, scope_authorized_shoots}
use gardener_extension_provi.Text.{split}

pub data Token : Type 0 where
  lit : Char → Token
  any : Token
  star : Token

is_letter : ℕ → Bool
is_letter c = (leb b'a' c && leb c b'z') || (leb b'A' c && leb c b'Z')

is_literal : ℕ → Bool
unfolding is_letter
is_literal c = is_letter c || ((leb b'0' c && leb c b'9') || (c == b'-' || c == b'_'))

-- `strings.ReplaceAll(part, "*", ".*")` as the tokens of the expression.
token_of : Char → Option Token
unfolding is_literal
token_of c =
    if code c == b'*'
    then some star
    else if code c == b'.'
    then some any
    else if is_literal (code c)
    then some (lit c)
    else none

pub tokens_of : String → Option (List Token)
unfolding token_of
tokens_of [] = some []
tokens_of (c ∷ s) = elim (token_of c) [
  | none ↦ none
  | some t ↦ elim (tokens_of s) [ none ↦ none | some ts ↦ some (t ∷ ts) ]
]

-- `.` does not match the end of a line.
abbrev pub is_any : Char → Bool
is_any c = not (code c == 10)

unfoldable pub matches : List Token → String → Bool
matches [] [] = true
matches [] (c ∷ s) = false
matches (lit a ∷ ts) [] = false
matches (lit a ∷ ts) (c ∷ s) = code a == code c && matches ts s
matches (any ∷ ts) [] = false
matches (any ∷ ts) (c ∷ s) = is_any c && matches ts s
matches (star ∷ ts) [] = matches ts []
matches (star ∷ ts) (c ∷ s) =
    let later = is_any c && matches (star ∷ ts) s in
    elim (matches ts (c ∷ s)) [ true ↦ true | false ↦ later ]

abbrev pub Compile : Type 0
Compile = String → Option (String → Bool)

-- `regexp.Compile(fmt.Sprintf("^%s$", …))`, as the test of a whole text.
pub compile_part : Compile → String → Option (String → Bool)
compile_part compile part = elim (tokens_of part) [
  | some ts ↦ some (matches ts)
  | none ↦ compile part
]

pub has_star : String → Bool
has_star [] = false
has_star (c ∷ s) = code c == b'*' || has_star s

-- One round of the loop: an expression that does not compile is passed over.
pub part_allows : Compile → String → String → Bool
unfolding has_star compile_part tokens_of matches
part_allows compile part shoot_namespace =
    if has_star part
    then elim (compile_part compile part) [ none ↦ false | some re ↦ re shoot_namespace ]
    else same part shoot_namespace

pub any_allows : Compile → List String → String → Bool
unfolding part_allows
any_allows compile [] shoot_namespace = false
any_allows compile (part ∷ parts) shoot_namespace =
    part_allows compile part shoot_namespace || any_allows compile parts shoot_namespace

pub data Verdict : Type 0 where
  authorized missing_garden garden_mismatch missing_shoots no_match : Verdict

-- `tags[scope]`: the empty text where the key is missing.
abbrev pub tag_value : TagMap → String → String
tag_value tags scope = elim (lookup scope tags) [ none ↦ "" | some v ↦ v ]

unfoldable pub check_shoot_authorization : Compile → String → String → TagMap → Verdict
unfolding any_allows
check_shoot_authorization compile shoot_namespace garden_id tags =
    let garden_id_value = tag_value tags scope_garden in
    let authorized_shoots = tag_value tags scope_authorized_shoots in
    if same garden_id_value ""
    then missing_garden
    else if not (same garden_id garden_id_value)
    then garden_mismatch
    else if same authorized_shoots ""
    then missing_shoots
    else if any_allows compile (split authorized_shoots ",") shoot_namespace
    then authorized
    else no_match

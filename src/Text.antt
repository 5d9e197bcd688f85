-- ===== src/Text.antt =====
-- What the code uses of Go's `strings` and `strconv`, over native texts of ASCII characters.
pub mod Tests
use Prim.Native.Char.{Char, code}
use Prim.Native.String
use Prim.Native.String.{String, count, [], ◌∷◌}
use text.Mathlib.Text.{starts_with as begins_with}
use gardener_extension_provi.Base.{
  ℕ, zero, suc, ◌+◌, ◌-◌, ◌*◌, ◌/◌, ◌%◌, Bool, true, false, List, [], ◌∷◌, Option, none, some, ltb,
  leb, ◌==◌, ◌&&◌, if◌then◌else◌,
}
use mathlib.Core.Option
use gardener_extension_provi.Base.Int.{ℤ, pos, negsuc}

abbrev pub push : String → Char → String
push s c = String.◌++◌ s (c ∷ [])

-- `strings.Split` by a separator that is not empty; `skip` characters of a separator are left.
split_from : String → ℕ → String → String → List String
split_from sep skip cur [] = cur ∷ []
split_from sep (suc skip) cur (c ∷ s) = split_from sep skip cur s
split_from sep zero cur (c ∷ s) =
    let closed : List String = cur ∷ split_from sep (count sep - 1) "" s in
    let longer : List String = split_from sep zero (push cur c) s in
    if begins_with (c ∷ s) sep then closed else longer

unfoldable pub split : String → String → List String
unfolding split_from
split s sep = split_from sep zero "" s

is_digit : Char → Bool
is_digit c = leb b'0' (code c) && leb (code c) b'9'

-- A run of decimal digits to the end of the text.
digits_from : ℕ → String → Option ℕ
unfolding is_digit
digits_from acc [] = some acc
digits_from acc (c ∷ s) =
    let rest = digits_from (acc * 10 + (code c - b'0')) s in if is_digit c then rest else none

unfoldable pub decimal : String → Option ℕ
unfolding digits_from
decimal [] = none
decimal (c ∷ s) = digits_from 0 (c ∷ s)

abbrev negate : ℕ → ℤ
negate zero = pos zero
negate (suc n) = negsuc n

-- `strconv.Atoi`, on numbers of any size.
unfoldable pub atoi : String → Option ℤ
unfolding decimal
atoi [] = none
atoi (c ∷ s) =
    if code c == b'-'
    then Option.map negate (decimal s)
    else if code c == b'+'
    then Option.map pos (decimal s)
    else Option.map pos (decimal (c ∷ s))

-- An octet of a dotted address: one to three digits with no leading zero, at most 255.
unfoldable pub octet : String → Option ℕ
unfolding decimal
octet [] = none
octet (c ∷ []) = decimal (c ∷ [])
octet (c ∷ (d ∷ s)) =
    if code c == b'0'
    then none
    else elim (decimal (c ∷ (d ∷ s))) [ none ↦ none | some n ↦ if leb n 255 then some n else none ]

abbrev digit : ℕ → String
digit zero = "0"
digit (suc zero) = "1"
digit (suc (suc zero)) = "2"
digit (suc (suc (suc zero))) = "3"
digit (suc (suc (suc (suc zero)))) = "4"
digit (suc (suc (suc (suc (suc zero))))) = "5"
digit (suc (suc (suc (suc (suc (suc zero)))))) = "6"
digit (suc (suc (suc (suc (suc (suc (suc zero))))))) = "7"
digit (suc (suc (suc (suc (suc (suc (suc (suc zero)))))))) = "8"
digit _ = "9"

-- A number in decimal: `%d`. The fuel is the number itself, which is at least the digits.
show_from : ℕ → ℕ → String → String
show_from zero n text = String.◌++◌ (digit n) text
show_from (suc fuel) n text =
    let more = show_from fuel (n / 10) (String.◌++◌ (digit (n % 10)) text) in
    if ltb n 10 then String.◌++◌ (digit n) text else more

unfoldable pub show : ℕ → String
unfolding show_from
show n = show_from n n ""

unfoldable pub join : List String → String → String
join [] sep = ""
join (x ∷ []) sep = x
join (x ∷ (y ∷ xs)) sep = String.◌++◌ x (String.◌++◌ sep (join (y ∷ xs) sep))

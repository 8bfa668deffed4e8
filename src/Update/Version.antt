-- ===== src/Update/Version.antt =====
-- internal/update/update.go: the versions of packages and their order.
use Prim.Native.Char.{Char, code}
use Prim.Native.String.{String}
use omihomo.Base.{
  ℕ, ◌+◌, ◌-◌, ◌*◌, Bool, true, false, not, ◌&&◌, ◌||◌, List, [], ◌∷◌, ◌++◌, map, Option, none,
  some, str_eq, ltb, leb, length, codes, if◌then◌else◌, split_on, ◌≡◌, refl,
}
use omihomo.Engine.{Except, good, bad, Failure}
pub mod Order

-- `errors.New`
abbrev pub fail {ℓ} : {A : Type ℓ} → String → Except A
fail why = bad (record { message = why; is = λ _. false; status = none })

abbrev pub digit : ℕ → Bool
digit c = leb b'0' c && leb c b'9'

unfoldable pub digits : String → Bool
digits String.[] = true
digits (String.◌∷◌ c s) = digit (code c) && digits s

abbrev pub starts_positive : String → Bool
starts_positive String.[] = false
starts_positive (String.◌∷◌ c s) = leb b'1' (code c) && leb (code c) b'9'

-- `positiveNumber`
unfoldable pub positive_number : String → Bool
unfolding digits
positive_number value =
    if not (starts_positive value) || ltb 9 (length (codes value)) then false else digits value

-- a part of `versionPattern`: `0|[1-9][0-9]{0,8}`
abbrev pub version_part : String → Bool
version_part p = str_eq p "0" || positive_number p

abbrev pub dot : Char
dot = "."

abbrev pub dash : Char
dash = "-"

abbrev pub three_parts : List String → Bool
three_parts (a ∷ b ∷ c ∷ []) = version_part a && version_part b && version_part c
three_parts _ = false

-- `versionPattern.MatchString`
unfoldable pub version_pattern : String → Bool
version_pattern v = three_parts (split_on dot v)

unfoldable pub number_from : ℕ → String → ℕ
number_from n String.[] = n
number_from n (String.◌∷◌ c s) = number_from (n * 10 + (code c - b'0')) s

-- `strconv.Atoi` of digits, at most nine of them, so that it does not overflow
abbrev pub number : String → ℕ
number = number_from 0

-- `parse` inside `compare`
abbrev pub version_numbers : List String → Option (List ℕ)
version_numbers (p ∷ q ∷ []) =
    if version_pattern p && positive_number q
    then some (map number (split_on dot p) ++ number q ∷ [])
    else none
version_numbers _ = none

unfoldable pub parse_version : String → Option (List ℕ)
parse_version value = version_numbers (split_on dash value)

-- -1, 0 and 1 of `compare`
pub data Comparison : Type 0 where
  less : Comparison
  same : Comparison
  more : Comparison

-- the loop of `compare`
unfoldable pub first_difference : List ℕ → List ℕ → Except Comparison
first_difference [] right = good same
first_difference (n ∷ left) [] = fail "index out of range"
first_difference (n ∷ left) (m ∷ right) =
    let rest = first_difference left right in
    if ltb n m then good less else if ltb m n then good more else rest

-- `compare`
unfoldable pub compare : String → String → Except Comparison
unfolding first_difference
compare a b = elim (parse_version a) [
  | none ↦ fail "unsupported installed package version"
  | some left ↦ elim (parse_version b) [
    | none ↦ fail "unsupported installed package version"
    | some right ↦ first_difference left right
  ]
]

tenth_is_newer : compare "1.10.0-1" "1.9.3-2" ≡ good more
unfolding compare first_difference parse_version split_on version_pattern positive_number
    number_from
tenth_is_newer = refl

-- ===== src/Profile/Names.antt =====
-- internal/profile/profile.go: `checkName` and `unique`.
use Prim.Native.String.{String}
use omihomo.Base.{
  ℕ, zero, suc, ◌+◌, not, ◌||◌, List, [], ◌∷◌, any, Option, none, some, str_eq, ltb, length, codes,
  if◌then◌else◌, append, trim_space, holds, decimal, is_control,
}
use omihomo.Profile.Rules.{comma, one_of}

abbrev pub builtins : List String
builtins = "DIRECT" ∷ "REJECT" ∷ "REJECT-DROP" ∷ "PASS" ∷ "COMPATIBLE" ∷ []

module _ (len : String → ℕ) where
  -- `checkName`; `len` counts the bytes of a text
  unfoldable pub check_name : String → Option String
  unfolding any holds
  check_name name =
      if str_eq name "" || ltb 256 (len name) || any is_control (codes name)
      then some "the name is empty, too long or has control characters"
      else if not (str_eq name (trim_space name)) || holds comma name
      then some "the name has surrounding space or a comma"
      else if str_eq name "GLOBAL" || one_of builtins name
      then some "the name is reserved"
      else none

abbrev candidate : String → ℕ → String
candidate name i = append name (append " " (decimal i))

-- the loop of `unique`, on fuel
unfoldable pub unique_from : ℕ → List String → String → ℕ → String → String
unfolding any
unique_from zero names name i next = next
unique_from (suc fuel) names name i next =
    let rest = unique_from fuel names name (i + 1) (candidate name i) in
    if one_of names next then rest else next

-- `unique`: of one more candidate than there are names, one is free
unfoldable pub unique : List String → String → String
unique names name = unique_from (length names + 1) names name 2 name

-- ===== src/Mihomo/Rules.antt =====
-- internal/core/mihomo/build.go and rules.go: the rules that mihomo gets, as lines. `upper` is
-- `strings.ToUpper` and `compile` is what `regexp.Compile` says of a pattern.
pub mod RoundTrip
pub mod Fuel
pub mod Placement
use Prim.Native.Char.{Char, code}
use Prim.Native.String.{String}
use omihomo.Base.{
  ℕ, zero, suc, ◌+◌, Bool, true, false, not, ◌&&◌, ◌||◌, List, [], ◌∷◌, ◌++◌, map, any, Option,
  none, some, str_eq, ltb, ◌==◌, length, if◌then◌else◌, append, trim_space, join_with, holds, codes,
  len,
}
use omihomo.Engine.{Rule, Source, user, Config, Except, good, bad, Failure, integration_rules}
use omihomo.Profile.Rules.{comma, one_of, comma_values, rule_params}

-- `strings.Cut` at a comma: the parts before and behind it, the second empty where there is none
unfoldable pub cut_comma : String → String × String
cut_comma String.[] = ("", "")
cut_comma (String.◌∷◌ c s) =
    let (a, b) = cut_comma s in if code c == b',' then ("", s) else (String.◌∷◌ c a, b)

abbrev pub push : String → Char → String
push s c = append s (String.◌∷◌ c "")

-- The conditions in parentheses at the top of a logic expression. `opened` and `closed` count the
-- parentheses before this point, so that their difference is `depth`, which may fall below 0, and
-- `cur` is the text from `start` on.
unfoldable pub conditions : ℕ → ℕ → String → String → List String
conditions opened closed cur String.[] = []
conditions opened closed cur (String.◌∷◌ c s) =
    let open_first = conditions (opened + 1) closed "" s in
    let open_more = conditions (opened + 1) closed (push cur c) s in
    let close = conditions opened (closed + 1) (push cur c) s in
    let more = conditions opened closed (push cur c) s in
    if code c == b'('
    then (if opened == closed then open_first else open_more)
    else if code c == b')'
    then (if opened == closed + 1 then cur ∷ close else close)
    else more

-- the text but its first and last characters, if it stands in parentheses
abbrev pub drop_last : String → Option String
drop_last String.[] = none
drop_last (String.◌∷◌ c String.[]) = if code c == b')' then some "" else none
drop_last (String.◌∷◌ c s) = elim (drop_last s) [ none ↦ none | some t ↦ some (String.◌∷◌ c t) ]

unfoldable pub inner_of : String → Option String
inner_of String.[] = none
inner_of (String.◌∷◌ c s) = if code c == b'(' then drop_last s else none

-- `strings.HasSuffix`
unfoldable pub has_suffix : String → String → Bool
has_suffix end String.[] = str_eq end ""
has_suffix end (String.◌∷◌ c s) = str_eq end (String.◌∷◌ c s) || has_suffix end s

-- The answer of a check that runs on fuel: `none` where the fuel ran out, and else the error, if any.
abbrev pub Checked : Type 0
Checked = Option (Option String)

-- the check of `ss` behind that of a condition before it
abbrev pub then_check : Checked → Checked → Checked
then_check none rest = none
then_check (some none) rest = rest
then_check (some (some why)) rest = some (some why)

-- the first error of a check
unfoldable pub first_error : (String → Checked) → List String → Checked
first_error check [] = some none
first_error check (s ∷ ss) = then_check (check s) (first_error check ss)

abbrev pub is_logic : String → Bool
is_logic typ = str_eq typ "AND" || str_eq typ "OR" || str_eq typ "NOT" || str_eq typ "SUB-RULE"

-- a condition such as "DOMAIN,a.com"
abbrev pub check_pair : (String → String → Checked) → String → Checked
check_pair check s = let (typ, value) = cut_comma s in check (trim_space typ) (trim_space value)

-- the conditions of a logic expression
abbrev pub check_inner : (String → String → Checked) → String → Option String → Checked
check_inner check typ none = some none
check_inner check typ (some inner) =
    if str_eq typ "SUB-RULE"
    then check_pair check inner
    else first_error (check_pair check) (conditions 0 0 "" inner)

-- `strings.ContainsAny(f, "\r\n")`, and surrounding space
abbrev pub broken : String → Bool
broken f = any (λ c. c == b'\r' || c == b'\n') (codes f) || not (str_eq f (trim_space f))

-- `bad` of `ruleLine`
abbrev pub refuse : Rule → String → Except String
refuse r why = bad (record {
  message =
      append "rule " (
        append r.kind
          (append "," (append r.value (append "," (append r.target (append " " why))))));
  is = λ _. false;
  status = none;
})

-- the first param that mihomo does not know
unfoldable pub unknown_param : List String → Option String
unknown_param [] = none
unknown_param (p ∷ ps) =
    let rest = unknown_param ps in if one_of rule_params p then rest else some p

-- the last `switch` of `ruleLine`, and the line
abbrev pub line_text : String → Rule → String
line_text typ r = join_with "," (typ ∷ r.value ∷ r.target ∷ r.params)

abbrev pub is_empty : List String → Bool
is_empty [] = true
is_empty (p ∷ ps) = false

unfoldable pub write_line : String → Rule → Except String
unfolding any holds
write_line typ r =
    if str_eq typ "MATCH"
    then (if not (str_eq r.value "") || not (is_empty r.params)
        then refuse r "has a value or params, which MATCH takes none of"
        else good (append typ (append "," r.target)))
    else if one_of comma_values typ
    then (if str_eq r.value "" || not (is_empty r.params)
        then refuse r "needs a value and takes no params"
        else good (line_text typ r))
    else if str_eq r.value "" || holds comma r.value
    then refuse r "needs a value without commas"
    else good (line_text typ r)

module _ (compile : String → Option String) where
  -- what the pattern of a -REGEX rule gives
  abbrev pub check_pattern : String → Option String
  check_pattern value = elim (compile value) [
    | none ↦ none
    | some why ↦ some (append "use Go-compatible regex syntax: " why)
  ]

  -- `checkRuleRegex`, on fuel for the conditions inside conditions
  unfoldable pub check_regex_on : ℕ → String → String → Checked
  unfolding any has_suffix cut_comma conditions inner_of first_error
  check_regex_on zero typ value = none
  check_regex_on (suc fuel) typ value =
      let nested = check_inner (check_regex_on fuel) typ (inner_of value) in
      if has_suffix "-REGEX" typ
      then some (check_pattern value)
      else if is_logic typ
      then nested
      else some none

  -- the error that an answer gives
  abbrev pub error_of : Checked → Option String
  error_of none = none
  error_of (some x) = x

  -- a condition is shorter than the expression that holds it
  unfoldable pub check_regex : String → String → Option String
  check_regex typ value = error_of (check_regex_on (length (codes value) + 1) typ value)

  -- `ruleLine`
  unfoldable pub rule_line : (upper : String → String) → Rule → Except String
  unfolding any holds unknown_param
  rule_line upper r =
      let typ = upper r.kind in
      elim (check_regex typ r.value) [
        | some why ↦ refuse r why
        | none ↦
            if any broken (r.kind ∷ r.value ∷ r.target ∷ r.params)
            then refuse r "has a line break or surrounding space"
            else if str_eq typ "" || holds comma typ || str_eq r.target "" || holds comma r.target
            then refuse r "is malformed"
            else elim (unknown_param r.params) [
              | some p ↦ refuse r (append "has an unknown param " p)
              | none ↦ write_line typ r
            ]
      ]

-- the rules that the owner leads with, and those behind them
unfoldable pub lead : List Rule → List Rule × List Rule
lead [] = ([], [])
lead (r ∷ rs) = let (a, b) = lead rs in elim r.source [ user ↦ (r ∷ a, b) | _ ↦ ([], r ∷ rs) ]

-- `withOmihomoRules`
unfoldable pub with_omihomo_rules : List Rule → Config → List Rule
unfolding lead
with_omihomo_rules rules cfg =
    let (a, b) = lead rules in
    if cfg.omihomo_rules_disabled then rules else a ++ integration_rules cfg ++ b

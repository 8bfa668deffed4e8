-- ===== src/Profile/Rules.antt =====
-- internal/profile/rules.go: `ParseRule`, which splits a rule line the way mihomo does. `upper` is
-- `strings.ToUpper`.
use Prim.Native.Char.{Char}
use omihomo.Base.{
  String, Bool, ◌||◌, List, [], ◌∷◌, map, any, Option, none, some, str_eq, if◌then◌else◌, split_on,
  trim_space, join_with, ◌≡◌, refl,
}

-- the four fields of `core.Rule` that a line holds
pub record Line : Type 0 where
  pub kind : String
  pub value : String
  pub target : String
  pub params : List String

abbrev pub comma : Char
comma = ","

-- `slices.Contains`
abbrev pub one_of : List String → String → Bool
one_of names s = any (λ n. str_eq n s) names

-- `commaValues`, `ruleTypes` and `ruleParams`
abbrev pub comma_values : List String
comma_values =
    "NOT" ∷ "OR" ∷ "AND" ∷ "SUB-RULE" ∷ "DOMAIN-REGEX" ∷ "PROCESS-NAME-REGEX" ∷ "PROCESS-PATH-REGEX"
    ∷ []

abbrev pub rule_types : List String
rule_types =
    "SUB-RULE" ∷ "DOMAIN-REGEX" ∷ "PROCESS-NAME-REGEX" ∷ "PROCESS-PATH-REGEX"
    ∷ "PROCESS-NAME-WILDCARD" ∷ "PROCESS-PATH-WILDCARD" ∷ "REMATCH-NAME" ∷ "DOMAIN"
    ∷ "DOMAIN-SUFFIX" ∷ "DOMAIN-KEYWORD" ∷ "DOMAIN-WILDCARD" ∷ "GEOSITE" ∷ "GEOIP" ∷ "SRC-GEOIP"
    ∷ "IP-ASN" ∷ "SRC-IP-ASN" ∷ "IP-CIDR" ∷ "IP-CIDR6" ∷ "SRC-IP-CIDR" ∷ "IP-SUFFIX"
    ∷ "SRC-IP-SUFFIX" ∷ "SRC-PORT" ∷ "DST-PORT" ∷ "IN-PORT" ∷ "IN-TYPE" ∷ "IN-USER" ∷ "IN-NAME"
    ∷ "PROCESS-PATH" ∷ "PROCESS-NAME" ∷ "UID" ∷ "NETWORK" ∷ "DSCP" ∷ "RULE-SET" ∷ "AND" ∷ "OR"
    ∷ "NOT" ∷ "MATCH" ∷ []

abbrev pub rule_params : List String
rule_params = "no-resolve" ∷ "src" ∷ []

-- `fields[:len(fields)-1]` and the last field
unfoldable pub unlast : String → List String → List String × String
unlast w [] = ([], w)
unlast w (v ∷ vs) = let (ws, u) = unlast v vs in (w ∷ ws, u)

-- the three cases of the `switch`
unfoldable pub match_line : String → List String → Option Line
match_line kind (target ∷ []) =
    if str_eq target ""
    then none
    else some (record { kind = kind; value = ""; target = target; params = [] })
match_line kind _ = none

unfoldable pub comma_line : String → List String → Option Line
unfolding unlast
comma_line kind (v ∷ w ∷ ws) =
    let (vs, target) = unlast w ws in
    if str_eq target ""
    then none
    else some (record { kind = kind; value = join_with "," (v ∷ vs); target = target; params = [] })
comma_line kind _ = none

unfoldable pub plain_line : String → List String → Option Line
plain_line kind (value ∷ target ∷ params) =
    if str_eq value "" || str_eq target ""
    then none
    else some (record { kind = kind; value = value; target = target; params = params })
plain_line kind _ = none

unfoldable pub line_of : String → List String → Option Line
unfolding any
line_of kind rest =
    if str_eq kind "MATCH"
    then match_line kind rest
    else if one_of comma_values kind
    then comma_line kind rest
    else plain_line kind rest

abbrev pub fields_line : (String → String) → List String → Option Line
fields_line upper [] = none
fields_line upper (w ∷ ws) = line_of (upper w) ws

-- `ParseRule`; none where the rule is malformed
unfoldable pub parse_rule : (upper : String → String) → String → Option Line
unfolding line_of
parse_rule upper line = fields_line upper (map trim_space (split_on comma line))

-- a line that a subscription may hold
logic_line :
    parse_rule (λ s. s) "AND,((DOMAIN,a.com), (NETWORK,UDP)),REJECT"
    ≡ some (record {
      kind = "AND";
      value = "((DOMAIN,a.com),(NETWORK,UDP))";
      target = "REJECT";
      params = [];
    })
unfolding parse_rule comma_line split_on trim_space join_with
logic_line = refl

-- ===== src/Tests/Lines.antt =====
-- Runs of the theorems on rule lines, at a rule of a type whose value may hold commas.
use omihomo.Base.{false, List, ◌++◌, ◌∷◌}
use omihomo.Engine.{Group, end, subscription, integration_rules}
use omihomo.Fake.{no_config}
use omihomo.Mihomo.Groups.{OfGroup, primary_group, primary_group-OfGroup}
use omihomo.Mihomo.Rules.Placement.{AllOwner, OtherFirst, with_omihomo_rules-placed}
use omihomo.Mihomo.Rules.{with_omihomo_rules}
use omihomo.Base.{
  ◌<◌, arith, trim_space, String, [], Option, none, some, ◌≡◌, refl, split_on, join_with,
}
use omihomo.Engine.{Rule, good, user}
use omihomo.Profile.Rules.{comma, parse_rule}
use omihomo.Mihomo.Rules.{rule_line, check_regex, check_regex_on, write_line}
use omihomo.Mihomo.Rules.Fuel.{size, check_regex_on-enough}
use omihomo.Mihomo.Rules.RoundTrip.{Trimmed, fields_of, parse_rule-rule_line}

abbrev upper : String → String
upper s = s

abbrev compile : String → Option String
compile s = none

abbrev logic_rule : Rule
logic_rule = record {
  kind = "AND";
  value = "((DOMAIN,a.com),(NETWORK,UDP))";
  target = "REJECT";
  params = [];
  source = user;
}

logic_rule-written :
    rule_line compile upper logic_rule ≡ good "AND,((DOMAIN,a.com),(NETWORK,UDP)),REJECT"
unfolding rule_line check_regex check_regex_on trim_space write_line join_with
logic_rule-written = refl

logic_rule-Trimmed : Trimmed (split_on comma logic_rule.value)
unfolding split_on trim_space
logic_rule-Trimmed = (refl, (refl, (refl, (refl, tt))))

parse_rule-rule_line_example :
    parse_rule upper "AND,((DOMAIN,a.com),(NETWORK,UDP)),REJECT" ≡ some (fields_of logic_rule)
parse_rule-rule_line_example =
    parse_rule-rule_line upper logic_rule "AND,((DOMAIN,a.com),(NETWORK,UDP)),REJECT" compile refl
      logic_rule-Trimmed logic_rule-written

-- a condition inside another, with more fuel than the text has characters
nested_condition : size "((AND,((DOMAIN-REGEX,a))))" < 100
nested_condition = omega arith

check_regex_on-enough_example :
    check_regex_on compile 100 "OR" "((AND,((DOMAIN-REGEX,a))))"
    ≡ some (check_regex compile "OR" "((AND,((DOMAIN-REGEX,a))))")
check_regex_on-enough_example =
    check_regex_on-enough compile 100 "OR" "((AND,((DOMAIN-REGEX,a))))" nested_condition

abbrev first_group : Group
first_group = record { name = "Auto"; kind = "url-test"; members = "a" ∷ []; options = end }

primary_group-OfGroup_example : OfGroup (first_group ∷ []) (primary_group (first_group ∷ []) "gone")
primary_group-OfGroup_example = primary_group-OfGroup (first_group ∷ []) "gone"

abbrev owned_rule : Rule
owned_rule = record logic_rule { source = user }

abbrev other_rule : Rule
other_rule = record logic_rule { source = subscription }

integrations_on : no_config.omihomo_rules_disabled ≡ false
integrations_on = refl

with_omihomo_rules-placed_example :
    (front : List Rule) × (back : List Rule) × (with_omihomo_rules
        (owned_rule ∷ other_rule ∷ [])
        no_config
      ≡ front ++ integration_rules no_config ++ back)
    × (front ++ back ≡ owned_rule ∷ other_rule ∷ [])
    × AllOwner front
    × OtherFirst back
with_omihomo_rules-placed_example =
    with_omihomo_rules-placed (owned_rule ∷ other_rule ∷ []) no_config integrations_on

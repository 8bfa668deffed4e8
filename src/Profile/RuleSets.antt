-- ===== src/Profile/RuleSets.antt =====
-- internal/profile/profile.go: `ruleSets`, `lines` and `modelledRuleSet`, `rules` and the sub-rules.
use Prim.Native.Char.{Char}
use Prim.Native.String.{String}
use omihomo.Base.{
  ◌==◌, Bool, true, false, not, ◌&&◌, ◌||◌, List, [], ◌∷◌, map, any, keep, Option, none, some,
  str_eq, codes, append, if◌then◌else◌, sort_texts, split_on, trim_space,
}
use omihomo.Engine.{
  Any, Anys, nil, cons, Options, text, Rule, RuleSet, subscription, Except, good, bad,
}
use omihomo.Profile.Rules.{Line, one_of, rule_types, rule_params, parse_rule}
use omihomo.Profile.Reader.{Reader, find_key, get, as_text, as_list}
use omihomo.Profile.Filter.{invalid}
use omihomo.Profile.GroupOptions.{has_prefix}

abbrev pub behaviors : List String
behaviors = "domain" ∷ "ipcidr" ∷ "classical" ∷ []

abbrev known_format : String → Bool
known_format format = str_eq format "" || str_eq format "yaml" || str_eq format "text"

-- `modelledRuleSet`
unfoldable pub modelled_rule_set : Options → Bool
unfolding any
modelled_rule_set def =
    one_of behaviors (as_text (get "behavior" def)) && known_format (as_text (get "format" def))

abbrev has_break : String → Bool
has_break s = any (λ c. c == b'\r' || c == b'\n') (codes s)

-- the loop of `lines`
unfoldable pub payload_lines : Anys → Option (List String)
unfolding any
payload_lines nil = some []
payload_lines (cons (text s) vs) =
    let rest = payload_lines vs in
    let t = trim_space s in
    elim rest [
      | none ↦ none
      | some ls ↦ if str_eq t "" || has_break t then some ls else some (t ∷ ls)
    ]
payload_lines (cons _ vs) = none

-- `lines`; none is its error
abbrev pub lines : Option Any → Option (List String)
lines v = elim (as_list v) [ none ↦ none | some vs ↦ payload_lines vs ]

abbrev line_break : Char
line_break = "\n"

-- the lines of a provider in text format
unfoldable pub text_lines : String → List String
unfolding has_prefix keep
text_lines body =
    keep (λ l. not (str_eq l "" || has_prefix "#" l)) (map trim_space (split_on line_break body))

module _ (r : Reader) (bodies : List (String × String)) where
  abbrev read_body : String → String → Except (Option (List String))
  read_body format body =
      if str_eq format "text" then good (some (text_lines body)) else elim (r.yaml_payload body) [
        | bad why ↦ invalid "a rule provider does not read"
        | good v ↦ elim (lines (some v)) [
          | none ↦ invalid "a rule provider does not read"
          | some ls ↦ good (some ls)
        ]
      ]

  -- the payload of a rule provider, none where the provider is dropped
  unfoldable pub payload : String → Options → Except (Option (List String))
  unfolding payload_lines text_lines find_key any
  payload name def =
      let format = as_text (get "format" def) in
      if not (one_of behaviors (as_text (get "behavior" def)))
      then good none
      else if str_eq (as_text (get "type" def)) "inline"
      then good (lines (get "payload" def))
      else if not (str_eq (as_text (get "type" def)) "http")
          || not (r.check_url (as_text (get "url" def)))
          || not (known_format format)
      then good none
      else elim (find_key (append "rule:" name) bodies) [
        | none ↦ invalid "a rule provider was not downloaded"
        | some body ↦ read_body format body
      ]

  unfoldable pub rule_sets_of : List (String × Options) → List String → Except (List RuleSet)
  unfolding payload find_key
  rule_sets_of defs [] = good []
  rule_sets_of defs (name ∷ names) =
      let rest = rule_sets_of defs names in
      elim (find_key name defs) [
        | none ↦ rest
        | some def ↦ elim (payload name def) [
          | bad why ↦ bad why
          | good none ↦ rest
          | good (some ls) ↦ elim rest [
            | bad why ↦ bad why
            | good sets ↦ good (
                record { name = name; behavior = as_text (get "behavior" def); payload = ls }
                ∷ sets)
          ]
        ]
      ]

  -- `ruleSets`, by name
  abbrev pub rule_sets : List (String × Options) → Except (List RuleSet)
  rule_sets defs = rule_sets_of defs (sort_texts (map (λ m. m.0) defs))

-- a rule of the subscription
abbrev pub as_rule : List String → Line → Rule
as_rule params l = record {
  kind = l.kind;
  value = l.value;
  target = l.target;
  params = params;
  source = subscription;
}

-- `subRules[target] != nil`
abbrev pub has_sub_rules : List (String × Option (List String)) → String → Bool
has_sub_rules subs target = elim (find_key target subs) [ some (some ls) ↦ true | _ ↦ false ]

abbrev pub has_set : List RuleSet → String → Bool
has_set sets name = any (λ s. str_eq s.name name) sets

-- whether `rules` keeps a rule
unfoldable pub usable :
    List String → List (String × Option (List String)) → List RuleSet → Line → Bool
unfolding any find_key
usable names subs sets l =
    one_of rule_types l.kind
    && (if str_eq l.kind "SUB-RULE"
        then has_sub_rules subs l.target
        else one_of names l.target || str_eq l.target "GLOBAL")
    && (not (str_eq l.kind "RULE-SET") || has_set sets l.value)

module _ (upper : String → String) where
  -- `rules`
  unfoldable pub rules :
      List String → List (String × Option (List String)) → List RuleSet → List String → List Rule
  unfolding parse_rule usable keep any
  rules names subs sets [] = []
  rules names subs sets (l ∷ ls) =
      let rest = rules names subs sets ls in
      elim (parse_rule upper l) [
        | none ↦ rest
        | some line ↦
            if usable names subs sets line
            then as_rule (keep (one_of rule_params) line.params) line ∷ rest
            else rest
      ]

  -- the rules of one sub-rule; each must read
  unfoldable pub sub_rule : List String → Option (List Rule)
  unfolding parse_rule any
  sub_rule [] = some []
  sub_rule (l ∷ ls) =
      let rest = sub_rule ls in
      elim (parse_rule upper l) [
        | none ↦ none
        | some line ↦
            if not (one_of rule_types line.kind)
            then none
            else elim rest [ none ↦ none | some rs ↦ some (as_rule line.params line ∷ rs) ]
      ]

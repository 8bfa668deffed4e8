-- ===== src/Profile/Build.antt =====
-- internal/profile/profile.go: `Read`, `Downloads` and `Build`.
use Prim.Native.String.{String}
use omihomo.Base.{
  ℕ, ◌+◌, Bool, true, false, not, ◌&&◌, ◌||◌, List, [], ◌∷◌, ◌++◌, map, any, Option, none, some,
  str_eq, ltb, leb, length, if◌then◌else◌, sort_texts,
}
use omihomo.Engine.{Options, end, Rule, Proxy, Group, Profile, subscription, Except, good, bad}
use omihomo.Profile.Rules.{one_of}
use omihomo.Profile.Reader.{Reader, Document, find_key, get, as_text}
use omihomo.Profile.Names.{builtins}
use omihomo.Profile.Filter.{invalid}
use omihomo.Profile.Groups.{Choice, collect, finish_groups}
use omihomo.Profile.Proxies.{Builder, max_proxies, add_all, add_providers}
pub mod Names
pub mod Targets
pub mod Closed
pub mod Result
use omihomo.Profile.RuleSets.{modelled_rule_set, rule_sets, rules, sub_rule}

-- `Download`
pub record Download : Type 0 where
  pub kind : String
  pub name : String
  pub url : String

abbrev pub wrapper_group : String
wrapper_group = "Proxy"

abbrev max_groups : ℕ
max_groups = 2000

abbrev max_rules : ℕ
max_rules = 200000

abbrev pub too_much : Document → Bool
too_much d =
    ltb max_proxies (length d.proxies)
    || ltb max_groups (length d.groups)
    || ltb max_rules (length d.rules)

abbrev pub is_bare : List Group → List Proxy → Bool
is_bare [] [] = true
is_bare _ _ = false

module _ (r : Reader) where
  -- `add` of `Downloads`
  unfoldable pub downloads_of : String → List (String × Options) → List String → List Download
  unfolding find_key modelled_rule_set
  downloads_of kind defs [] = []
  downloads_of kind defs (name ∷ names) =
      let rest = downloads_of kind defs names in
      elim (find_key name defs) [
        | none ↦ rest
        | some p ↦
            let url = as_text (get "url" p) in
            if str_eq (as_text (get "type" p)) "http"
              && r.check_url url
              && (str_eq kind "proxy" || modelled_rule_set p)
            then record { kind = kind; name = name; url = url } ∷ rest
            else rest
      ]

  -- `Downloads`
  unfoldable pub downloads : Document → List Download
  unfolding downloads_of
  downloads d =
      downloads_of "proxy" d.proxy_providers (sort_texts (map (λ m. m.0) d.proxy_providers))
      ++ downloads_of "rule" d.rule_providers (sort_texts (map (λ m. m.0) d.rule_providers))

  -- the lines of a sub-rule, none of them where they are nil
  abbrev lines_of : Option (List String) → List String
  lines_of none = []
  lines_of (some ls) = ls

  -- `p.SubRules`, where a sub-rule without rules is no entry; `n` entries are there already
  unfoldable pub sub_rules :
      (len : String → ℕ)
      → ℕ
      → List (String × Option (List String))
      → Except (List (String × List Rule))
  unfolding sub_rule
  sub_rules len n [] = good []
  sub_rules len n ((name, ls) ∷ subs) =
      if ltb 256 (len name) || ltb max_rules (length (lines_of ls)) || leb 1000 n
      then invalid "sub-rules exceed limits"
      else elim (sub_rule r.upper (lines_of ls)) [
        | none ↦ invalid "malformed sub-rule"
        | some [] ↦ sub_rules len n subs
        | some (x ∷ xs) ↦ elim (sub_rules len (n + 1) subs) [
          | bad why ↦ bad why
          | good rest ↦ good ((name, x ∷ xs) ∷ rest)
        ]
      ]

  -- the profile of bare proxies: one group that every connection goes through
  unfoldable pub wrap : Builder → Except Profile
  unfolding any
  wrap b = elim (map (λ (p : Proxy). p.name) b.proxies) [
    | [] ↦ invalid "none of its proxies can run"
    | m ∷ ms ↦
        if one_of b.names wrapper_group
        then invalid "a proxy is named Proxy"
        else good (record {
          proxies = b.proxies;
          groups =
              record { name = wrapper_group; kind = "select"; members = m ∷ ms; options = end }
              ∷ [];
          sub_rules = [];
          rules =
              record {
                kind = "MATCH";
                value = "";
                target = wrapper_group;
                params = [];
                source = subscription;
              }
              ∷ [];
          rule_sets = [];
        })
  ]

  module _ (len : String → ℕ) (bodies : List (String × String)) (d : Document) where
    -- `Build` behind its groups
    unfoldable pub complete : List Proxy → List String → List Group → Except Profile
    unfolding sub_rules rules
    complete proxies names groups = elim (rule_sets r bodies d.rule_providers) [
      | bad why ↦ bad why
      | good sets ↦ elim (sub_rules len 0 d.sub_rules) [
        | bad why ↦ bad why
        | good subs ↦
            if is_bare groups proxies
            then invalid "it has no proxies"
            else good (record {
              proxies = proxies;
              groups = groups;
              sub_rules = subs;
              rules = rules r.upper names d.sub_rules sets d.rules;
              rule_sets = sets;
            })
      ]
    ]

    -- `Build` behind its proxies, of which the document lists `top`
    unfoldable pub with_groups : List Proxy → Builder → Except Profile
    unfolding complete collect finish_groups
    with_groups top b =
        let (ps, names) = collect r len d.groups b.names in
        elim (finish_groups r
          (record {
            names = names;
            top = top;
            proxies = b.proxies;
            from_provider = b.from_provider;
          })
          ps) [ bad why ↦ bad why | good groups ↦ complete b.proxies names groups ]

    abbrev pub listed : Builder
    listed = add_all r len d.proxies (record { names = builtins; proxies = []; from_provider = [] })

    -- `Build`
    unfoldable pub build : Except Profile
    unfolding with_groups wrap add_all
    build =
        if too_much d
        then invalid "it holds more proxies, groups or rules than omihomo runs"
        else elim (add_providers r bodies len d.proxy_providers listed) [
          | bad why ↦ bad why
          | good b ↦ if d.wrapped then wrap b else with_groups listed.proxies b
        ]

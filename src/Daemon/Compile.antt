-- ===== src/Daemon/Compile.antt =====
-- internal/daemon/settings.go, and `rules` of ops.go: the configuration that the daemon gives the
-- engine, and the list of rules that it shows.
pub mod Rules
use omihomo.Base.{
  String, Bool, false, not, ◌&&◌, ◌||◌, ℕ, ◌+◌, ◌*◌, List, [], ◌∷◌, ◌++◌, map, length, any, keep,
  fields, join, sort_texts, str_eq, if◌then◌else◌, ◌==◌,
}
use omihomo.Protocol.{RuleFields, Entries, entry, no_category, category, nil, cons}
use omihomo.Engine.{
  Prefix, v4, v6, Rule, Profile, Config, Source, integration_rules, user, integration, subscription,
}
use omihomo.Daemon.State.{Stored, ListedRule, RuleList}

-- a.b.c.d as a number
abbrev ip : ℕ → ℕ → ℕ → ℕ → ℕ
ip a b c d = ((a * 256 + b) * 256 + c) * 256 + d

abbrev pub tailnet_range : Prefix
tailnet_range = v4 (ip 100 64 0 0) 10

abbrev pub tailscale_dns : Prefix
tailscale_dns = v4 (ip 100 100 100 100) 32

abbrev pub tun_bypass : List Prefix
tun_bypass =
    v4 (ip 0 0 0 0) 8
    ∷ v4 (ip 10 0 0 0) 8
    ∷ tailnet_range
    ∷ v4 (ip 127 0 0 0) 8
    ∷ v4 (ip 169 254 0 0) 16
    ∷ v4 (ip 172 16 0 0) 12
    ∷ v4 (ip 192 0 0 0) 24
    ∷ v4 (ip 192 0 2 0) 24
    ∷ v4 (ip 192 88 99 0) 24
    ∷ v4 (ip 192 168 0 0) 16
    ∷ v4 (ip 198 51 100 0) 24
    ∷ v4 (ip 203 0 113 0) 24
    ∷ v4 (ip 224 0 0 0) 4
    ∷ v4 (ip 240 0 0 0) 5
    ∷ v6 0 127
    ∷ v6 0xfc000000000000000000000000000000 7
    ∷ v6 0xfe800000000000000000000000000000 10
    ∷ v6 0xff000000000000000000000000000000 9
    ∷ []

abbrev same_prefix : Prefix → Prefix → Bool
same_prefix (v4 a n) (v4 b m) = a == b && n == m
same_prefix (v6 a n) (v6 b m) = a == b && n == m
same_prefix _ _ = false

unfoldable pub bypass : Stored → List Prefix
unfolding keep
bypass s =
    if not s.settings.tailnet_proxy
    then tun_bypass
    else keep (λ p. not (same_prefix p tailnet_range)) tun_bypass ++ tailscale_dns ∷ []

abbrev pub builtin_targets : List String
builtin_targets = "DIRECT" ∷ "REJECT" ∷ "REJECT-DROP" ∷ []

unfoldable pub has_target : Profile → String → Bool
unfolding any
has_target p name =
    any (λ t. str_eq t name) builtin_targets
    || any (λ g. str_eq g.name name) p.groups
    || any (λ x. str_eq x.name name) p.proxies

unfoldable pub rule_active : Profile → RuleFields → Bool
unfolding any has_target
rule_active p r =
    if str_eq r.kind "SUB-RULE"
    then any (λ s. str_eq s.0 r.target) p.sub_rules
    else if str_eq r.kind "RULE-SET" && not (any (λ s. str_eq s.name r.value) p.rule_sets)
    then false
    else has_target p r.target

-- the two results of `compileRules`, as they grow
pub record Compiled : Type 0 where
  pub effective : List Rule
  pub listed : List ListedRule

abbrev inactive_reason : Bool → Bool → Bool → String
inactive_reason disabled rule_disabled inactive =
    if disabled
    then "Category disabled"
    else if rule_disabled
    then "Rule disabled"
    else if inactive
    then "Unavailable target or rule provider"
    else ""

abbrev pub effective_rule : RuleFields → Rule
effective_rule r = record {
  kind = r.kind;
  value = r.value;
  target = r.target;
  params = fields r.params;
  source = user;
}

-- `add` of `compileRules`
unfoldable pub add_rule : Profile → RuleFields → String → Bool → Compiled → Compiled
add_rule p r cat disabled c =
    let inactive = (disabled || r.disabled) || not (rule_active p r) in
    record {
      effective = if inactive then c.effective else c.effective ++ effective_rule r ∷ [];
      listed =
          c.listed
          ++ record {
            kind = r.kind;
            value = r.value;
            target = r.target;
            source = user;
            params = r.params;
            inactive = inactive;
            index = length c.listed + 1;
            category = cat;
            disabled = r.disabled;
            unreachable = false;
            inactive_reason = inactive_reason disabled r.disabled inactive;
          }
            ∷ [];
    }

-- the loop over the rules of one category
unfoldable pub add_rules : Profile → Entries → String → Bool → Compiled → Compiled
add_rules p nil cat disabled c = c
add_rules p (cons (entry r _) es) cat disabled c =
    add_rules p es cat disabled (add_rule p r cat disabled c)

unfoldable pub compile_from : Profile → Entries → Compiled → Compiled
compile_from p nil c = c
compile_from p (cons (entry r no_category) es) c = compile_from p es (add_rule p r "" false c)
compile_from p (cons (entry r (category id name rs)) es) c =
    compile_from p es (add_rules p rs id r.disabled c)

unfoldable pub compile_rules : Entries → Profile → Compiled
compile_rules es p = compile_from p es (record { effective = []; listed = [] })

unfoldable pub run_config : Stored → Profile → Config
run_config s p =
    let rules = (compile_rules s.rules p).effective in
    record {
      mode = s.settings.mode;
      tun = s.settings.tun;
      tun_redirect = s.settings.tun_redirect;
      tailscale = s.settings.tailscale;
      tailnet_proxy = s.settings.tailnet_proxy;
      omihomo_rules_disabled = s.settings.omihomo_rules_disabled;
      primary_group = s.settings.primary_group;
      dns_destination = s.settings.dns_destination;
      tun_bypass = bypass s;
      profile = record p {
        rules = if not s.settings.subscription_rules_disabled then rules ++ p.rules else rules;
      };
    }

-- a rule that is not the owner's, as `rules` lists it
unfoldable pub listed_rule : Source → String → Bool → Rule → ListedRule
listed_rule source cat off r = record {
  kind = r.kind;
  value = r.value;
  target = r.target;
  source = source;
  params = join r.params;
  inactive = off;
  index = 0;
  category = cat;
  disabled = off;
  unreachable = false;
  inactive_reason = "";
}

-- the last loop of `rules`: `caught` says that an active MATCH stands above
unfoldable pub mark_unreachable : Bool → List ListedRule → List ListedRule
mark_unreachable caught [] = []
mark_unreachable caught (r ∷ rs) =
    (if r.inactive then r else record r { unreachable = caught })
    ∷ mark_unreachable (if r.inactive then caught else caught || str_eq r.kind "MATCH") rs

unfoldable pub list_rules : Stored → Profile → RuleList
list_rules s p =
    let off = s.settings.omihomo_rules_disabled in
    let sub_off = s.settings.subscription_rules_disabled in
    record {
      rules = mark_unreachable false (
          (compile_rules s.rules p).listed
          ++ map (listed_rule integration "omihomo" off) (integration_rules (run_config s p))
          ++ map (listed_rule subscription "subscription" sub_off) p.rules);
      entries = s.rules;
      omihomo_disabled = off;
      subscription_disabled = sub_off;
      rule_sets = map (λ r. r.name) p.rule_sets;
      sub_rules = sort_texts (map (λ r. r.0) p.sub_rules);
    }

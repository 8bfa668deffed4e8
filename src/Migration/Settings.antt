-- ===== src/Migration/Settings.antt =====
-- internal/migration/import.go: `readSettings`. `decode` is `yaml.Unmarshal` of an override, `upper` is
-- `strings.ToUpper` and `is_prefix` is whether `netip.ParsePrefix` reads a text.
use Prim.Native.String.{String}
use omihomo.Base.{
  ◌^◌, Bool, true, false, not, ◌&&◌, ◌||◌, List, [], ◌∷◌, any, length, Option, none, some, str_eq,
  ltb, ◌==◌, if◌then◌else◌, codes, is_control, append, trim_space, join_with,
}
use omihomo.Update.Transfer.{size}
use omihomo.Protocol.{Settings, RuleFields, Entries, entry, no_category, nil, cons}
use omihomo.Daemon.State.{Stored}
use omihomo.Profile.Rules.{Line, one_of, parse_rule}
use omihomo.Migration.Reads.{Old, Result, ok, err, optional}

-- what an old override holds
pub record Override : Type 0 where
  pub mode : String
  pub tun_enable : Bool
  pub auto_redirect : Bool
  pub primary_group : String
  pub tailscale : Bool
  pub tailnet_proxy : Bool
  pub prepend : List String
  pub append_rules : List String
  pub filter : List String

-- `state.DefaultSettings`
abbrev pub default_settings : Stored
default_settings = record {
  settings = record {
    category_targets = record {
      domains = "";
      addresses = "";
      applications = "";
      ports = "";
      inbound = "";
      rule_sets = "";
      logic = "";
      other = "";
    };
    omihomo_rules_disabled = false;
    subscription_rules_disabled = false;
    mode = "rule";
    tun = false;
    tun_redirect = false;
    tailscale = false;
    tailnet_proxy = false;
    primary_group = "";
    dns_destination = "";
  };
  rules = nil;
  running = false;
}

abbrev has_control : String → Bool
has_control s = any is_control (codes s)

abbrev pub old_types : List String
old_types = "DOMAIN-SUFFIX" ∷ "DOMAIN-KEYWORD" ∷ "IP-CIDR" ∷ "PROCESS-NAME" ∷ []

abbrev empty_list : List String → Bool
empty_list [] = true
empty_list (s ∷ ss) = false

-- what a typed rule cannot hold
unfoldable pub unfit : Line → Bool
unfit r =
    str_eq r.target ""
    || str_eq r.value ""
    || not (str_eq (trim_space r.target) r.target)
    || not (str_eq (trim_space r.value) r.value)
    || not (empty_list r.params)
    || ltb 256 (size r.value)
    || ltb 256 (size r.target)
    || has_control (append r.value r.target)

module _ (decode : String → Option Override) (upper : String → String)
    (is_prefix : String → Bool) where
  -- the checks of one rule; none where it is accepted
  unfoldable pub old_rule_error : Line → Option String
  old_rule_error r =
      if not (one_of old_types r.kind)
      then some "old override has a raw rule; convert it to a typed rule before cutover"
      else if unfit r
      then some "old override rule cannot be represented as a typed rule"
      else if str_eq r.kind "IP-CIDR" && not (is_prefix r.value)
      then some "old rule has an invalid CIDR"
      else if (str_eq r.kind "DOMAIN-SUFFIX" || str_eq r.kind "DOMAIN-KEYWORD")
          && any (λ c. c == b' ' || c == b'/' || c == b'\\') (codes r.value)
      then some "old rule has an invalid domain value"
      else none

  abbrev pub typed : Line → RuleFields
  typed r = record {
    kind = r.kind;
    value = r.value;
    target = r.target;
    params = join_with " " r.params;
    disabled = false;
  }

  abbrev with_rule : RuleFields → Result Entries → Result Entries
  with_rule r (ok es) = ok (cons (entry r no_category) es)
  with_rule r (err why) = err why

  abbrev checked_line : Option Line → Result Entries → Result Entries
  checked_line none rest = err "old override has a malformed rule"
  checked_line (some r) rest = elim (old_rule_error r) [
    | some why ↦ err why
    | none ↦ with_rule (typed r) rest
  ]

  -- the loop over the rules
  unfoldable pub old_rules : List String → Result Entries
  old_rules [] = ok nil
  old_rules (line ∷ lines) = checked_line (parse_rule upper line) (old_rules lines)

  abbrev finish_rules : List String → Settings → Result Entries → Result Stored
  finish_rules lines v (err why) = err why
  finish_rules lines v (ok es) =
      if ltb 1000 (length lines)
      then err "old override has too many user rules"
      else ok (record { settings = v; rules = es; running = false })

  abbrev pub override_settings : Override → Settings
  override_settings o = record default_settings.settings {
    mode = (if str_eq o.mode "" then "rule" else o.mode);
    tun = o.tun_enable;
    tun_redirect = o.auto_redirect;
    primary_group = o.primary_group;
    tailscale = o.tailscale;
    tailnet_proxy = o.tailnet_proxy;
  }

  -- `readSettings` of an override
  unfoldable pub settings_of : Override → Result Stored
  settings_of o =
      let v = override_settings o in
      if not (one_of ("rule" ∷ "global" ∷ "direct" ∷ []) v.mode)
      then err "old override has an invalid mode"
      else if ltb 256 (size o.primary_group) || has_control o.primary_group
      then err "old primary group is invalid"
      else if not (empty_list o.append_rules) || not (empty_list o.filter)
      then err
          "raw append/filter rules are unsupported; convert them to typed prepend rules before cutover"
      else finish_rules o.prepend v (old_rules o.prepend)

  abbrev text_of : Option String → String
  text_of none = ""
  text_of (some s) = s

  -- `readSettings`
  unfoldable pub read_settings : Old → Result Stored
  read_settings old = elim (optional old "override.yaml" (2 ^ 20)) [
    | err why ↦ err why
    | ok body ↦ elim (decode (text_of body)) [
      | none ↦ err "old override YAML is malformed"
      | some o ↦ settings_of o
    ]
  ]

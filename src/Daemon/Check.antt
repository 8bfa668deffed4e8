-- ===== src/Daemon/Check.antt =====
-- internal/daemon/rules.go, `validName` and `checkSettings` of ops.go: what the daemon accepts.
pub mod Rules
use omihomo.Base.{
  ℕ, ◌+◌, ◌-◌, ◌*◌, ◌^◌, suc, zero, String, Bool, true, false, not, ◌&&◌, ◌||◌, List, [], ◌∷◌, ◌++◌,
  map, length, any, Option, none, some, str_eq, ltb, leb, ◌==◌, if◌then◌else◌, append, join, fields,
  codes, is_control, is_space, len, decimal,
}
use omihomo.Protocol.{
  Code, Error, invalid, CategoryTargets, Settings, RuleFields, Entries, entry, no_category,
  category, nil, cons,
}
use omihomo.Daemon.Publish.{fail}

abbrev pub max_name : ℕ
max_name = 256

abbrev pub max_names : ℕ
max_names = 4096

abbrev pub max_user_rules : ℕ
max_user_rules = 1000

-- `strings.ContainsFunc`
abbrev pub contains_func : (ℕ → Bool) → String → Bool
contains_func p s = any p (codes s)

-- the first of two checks that refuses
infixr 4 ◌or_else◌
abbrev pub ◌or_else◌ : Option Error → Option Error → Option Error
none or_else y = y
some x or_else y = some x

abbrev pub refuse_if : Bool → String → Option Error
refuse_if b message = if b then some (fail invalid message) else none

unfoldable pub valid_name : String → String → Option Error
unfolding any
valid_name what name =
    refuse_if (str_eq name "") (append what " is empty")
    or_else refuse_if (ltb max_name (len name) || contains_func is_control name)
        (append what " is not a valid name")

unfoldable pub valid_each : String → List String → Option Error
unfolding valid_name
valid_each what [] = none
valid_each what (n ∷ ns) = valid_name what n or_else valid_each what ns

unfoldable pub valid_names : String → List String → Option Error
unfolding valid_each
valid_names what names =
    refuse_if (ltb max_names (length names)) (append "too many " (append what "s"))
    or_else valid_each what names

abbrev pub no_targets : CategoryTargets → Bool
no_targets t =
    str_eq t.domains ""
    && str_eq t.addresses ""
    && str_eq t.applications ""
    && str_eq t.ports ""
    && str_eq t.inbound ""
    && str_eq t.rule_sets ""
    && str_eq t.logic ""
    && str_eq t.other ""

abbrev pub is_mode : String → Bool
is_mode m = str_eq m "rule" || str_eq m "global" || str_eq m "direct"

unfoldable pub check_settings : Settings → Option Error
unfolding valid_name
check_settings s =
    (if str_eq s.dns_destination "" then none else valid_name "DNS destination" s.dns_destination)
    or_else refuse_if (not (no_targets s.category_targets))
        "legacy category_targets are no longer supported; remove category_targets from settings.json before applying"
    or_else refuse_if (not (is_mode s.mode)) "mode must be rule, global or direct"
    or_else (if str_eq s.primary_group "" then none else valid_name "primary group" s.primary_group)

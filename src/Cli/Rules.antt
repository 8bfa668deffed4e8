-- ===== src/Cli/Rules.antt =====
-- internal/cli/rules.go: the commands that change the rules, as functions of their arguments and of the
-- settings and rules that they change. `checkName` of cli.go is in it as well.
pub mod Save
pub mod Ungroup
use Prim.Native.String.{String}
use omihomo.Base.{
  ℕ, zero, suc, ◌+◌, ◌-◌, Bool, true, false, not, ◌&&◌, ◌||◌, List, [], ◌∷◌, any, find, Option,
  none, some, str_eq, ltb, leb, ◌==◌, length, if◌then◌else◌, trim_space,
}
use omihomo.Protocol.{
  Code, Error, not_running, Settings, RuleFields, RuleEntry, Entries, entry, no_category, category,
  nil, cons,
}
use omihomo.Engine.{Member, LiveGroup, Except, good, bad}
use omihomo.Update.Version.{fail}
use omihomo.Daemon.Compile.{builtin_targets}
use omihomo.Cli.Entries.{
  Place, alone, within, append, delete, insert, nth, update, replace, fields, with_fields,
  with_rules, rule_at, category_of, position, change, entry_at, category_at, count,
}

-- `protocol.ApplyArgs`
pub record ApplyArgs : Type 0 where
  pub settings : Settings
  pub rules : Entries

abbrev pub no_rule : Except ApplyArgs
no_rule = fail "there is no such rule of yours"

abbrev pub no_such_category : Except ApplyArgs
no_such_category = fail "there is no editable category of that id"

-- `toggleRule`
unfoldable pub toggle_rule : Bool → ℕ → ApplyArgs → Except ApplyArgs
unfolding rule_at change update
toggle_rule enabled n v = elim (rule_at v.rules n) [
  | none ↦ no_rule
  | some p ↦ good (record v {
    rules =
        change p (update (position p) (with_fields (λ r. record r { disabled = not enabled })))
          v.rules;
  })
]

-- `remove`
unfoldable pub remove_rule : ℕ → ApplyArgs → Except ApplyArgs
unfolding rule_at change delete
remove_rule n v = elim (rule_at v.rules n) [
  | none ↦ no_rule
  | some p ↦ good (record v { rules = change p (delete (position p)) v.rules })
]

-- `slices.Delete` and then `slices.Insert` of the same entry
unfoldable pub shift : ℕ → ℕ → Entries → Entries
unfolding nth delete insert
shift from to es = elim (nth from es) [ none ↦ es | some e ↦ insert to e (delete from es) ]

-- `move`: both rules must be in the same category
unfoldable pub move_rule : ℕ → ℕ → ApplyArgs → Except ApplyArgs
unfolding rule_at change shift
move_rule from to v = elim (rule_at v.rules from) [
  | none ↦ no_rule
  | some p ↦ elim (rule_at v.rules to) [
    | none ↦ no_rule
    | some q ↦
        if not (str_eq (category_of p) (category_of q))
        then fail "choose a rule in the same category; use update to change category"
        else good (record v { rules = change p (shift (position p) (position q)) v.rules })
  ]
]

-- `moveEntry`, for indices that are positive
unfoldable pub move_entry : ℕ → ℕ → ApplyArgs → Except ApplyArgs
unfolding shift count
move_entry from to v =
    if ltb (count v.rules) from || ltb (count v.rules) to
    then fail "entry indices are outside your rules"
    else good (record v { rules = shift (from - 1) (to - 1) v.rules })

-- `categoryToggle`
unfoldable pub toggle_category : Bool → String → ApplyArgs → Except ApplyArgs
unfolding category_at update
toggle_category enabled id v =
    if str_eq id "omihomo"
    then good (record v { settings = record v.settings { omihomo_rules_disabled = not enabled } })
    else if str_eq id "subscription"
    then good
        (record v { settings = record v.settings { subscription_rules_disabled = not enabled } })
    else elim (category_at v.rules id) [
      | none ↦ no_such_category
      | some at ↦ good (record v {
        rules = update at (with_fields (λ r. record r { disabled = not enabled })) v.rules;
      })
    ]

abbrev renamed : String → RuleEntry → RuleEntry
renamed new (entry r no_category) = entry r no_category
renamed new (entry r (category id name rs)) = entry r (category id new rs)

-- `category rename`
unfoldable pub rename_category : String → String → ApplyArgs → Except ApplyArgs
unfolding category_at update
rename_category id new v = elim (category_at v.rules id) [
  | none ↦ no_such_category
  | some at ↦ good (record v { rules = update at (renamed new) v.rules })
]

-- every rule disabled
unfoldable pub disable_all : Entries → Entries
disable_all nil = nil
disable_all (cons (entry r c) es) = cons (entry (record r { disabled = true }) c) (disable_all es)

-- what takes the place of a category: its rules, disabled if it is
unfoldable pub released : RuleEntry → Entries
unfolding disable_all
released (entry r no_category) = nil
released (entry r (category id name rs)) = if r.disabled then disable_all rs else rs

-- `category remove`
unfoldable pub ungroup : String → ApplyArgs → Except ApplyArgs
unfolding category_at replace released
ungroup id v = elim (category_at v.rules id) [
  | none ↦ no_such_category
  | some at ↦ good (record v { rules = replace at released v.rules })
]

-- all rules of a category but its sub-rules, for another target
unfoldable pub aim : String → Entries → Entries
aim target nil = nil
aim target (cons (entry r c) es) =
    let rest = aim target es in
    cons (entry (if str_eq r.kind "SUB-RULE" then r else record r { target = target }) c) rest

-- what the daemon answers to a request for the groups
pub data Reply : Type 0 where
  groups : (gs : List LiveGroup) → Reply
  refused : (e : Error) → Reply
  unreachable : (why : String) → Reply

abbrev is_not_running : Code → Bool
is_not_running not_running = true
is_not_running _ = false

abbrev in_group : String → LiveGroup → Bool
in_group name g = str_eq g.name name || any (λ m. str_eq m.name name) g.members

-- `checkName` of a target; none where the name is there, or the proxy does not run
unfoldable pub check_target : Reply → String → Option String
unfolding any
check_target reply name = if any (λ t. str_eq t name) builtin_targets then none else elim reply [
  | groups gs ↦
      if any (in_group name) gs
      then none
      else some "the active subscription has no group or proxy of that name"
  | refused e ↦ if is_not_running e.code then none else some e.message
  | unreachable why ↦ some why
]

-- `category target`
unfoldable pub target_category : Reply → String → String → ApplyArgs → Except ApplyArgs
unfolding category_at update aim check_target
target_category reply id target v = elim (category_at v.rules id) [
  | none ↦ no_such_category
  | some at ↦ elim (check_target reply target) [
    | some why ↦ fail why
    | none ↦ good (record v { rules = update at (with_rules (aim target)) v.rules })
  ]
]

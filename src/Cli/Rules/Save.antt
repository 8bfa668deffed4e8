-- ===== src/Cli/Rules/Save.antt =====
-- internal/cli/rules.go: `assignRule`, and `save`, which adds a rule or changes one. `upper` is
-- `strings.ToUpper`, `parse_bool` is `strconv.ParseBool`, and `new_id` is a random text.
use Prim.Native.String.{String}
use omihomo.Base.{
  ℕ, zero, suc, Bool, true, false, not, ◌&&◌, ◌||◌, List, [], ◌∷◌, Option, none, some, str_eq, ◌==◌,
  if◌then◌else◌, trim_space,
}
use omihomo.Protocol.{RuleFields, RuleEntry, Entries, entry, no_category, category, nil, cons}
use omihomo.Engine.{Except, good, bad}
use omihomo.Update.Version.{fail}
use omihomo.Cli.Entries.{
  Place, append, delete, update, fields, with_rules, rule_at, category_of, position, change,
  entry_at, category_at,
}
use omihomo.Cli.Rules.{ApplyArgs, no_rule, no_such_category, Reply, check_target}

abbrev pub is_known : Option ℕ → Bool
is_known none = false
is_known (some at) = true

abbrev alone_rule : RuleFields → RuleEntry
alone_rule r = entry r no_category

-- the end of `assignRule`: the rule goes last
unfoldable pub put_last : RuleFields → String → Entries → Entries
unfolding append category_at update
put_last r id es =
    if str_eq id "" then append es (cons (alone_rule r) nil) else elim (category_at es id) [
      | none ↦ es
      | some at ↦ update at (with_rules (λ rs. append rs (cons (alone_rule r) nil))) es
    ]

-- `assignRule`; the place is that of the rule with the index, if the index is not 0
unfoldable pub assign_rule : RuleFields → ℕ → String → ApplyArgs → Except ApplyArgs
unfolding put_last rule_at change category_at update delete
assign_rule r index id v =
    if not (str_eq id "") && not (is_known (category_at v.rules id))
    then no_such_category
    else if index == 0
    then good (record v { rules = put_last r id v.rules })
    else elim (rule_at v.rules index) [
      | none ↦ no_rule
      | some p ↦
          if str_eq (category_of p) id
          then good
              (record v { rules = change p (update (position p) (λ _. alone_rule r)) v.rules })
          else good (record v { rules = put_last r id (change p (delete (position p)) v.rules) })
    ]

-- an argument that may be left out
unfoldable pub arg : ℕ → List String → Option String
arg n [] = none
arg zero (s ∷ ss) = some s
arg (suc n) (s ∷ ss) = arg n ss

abbrev or_else : Option String → String → String
or_else none s = s
or_else (some t) s = t

-- the rule that `update` changes, if there is one: its category, whether it is disabled, its target
abbrev pub Old : Type 0
Old = String × Bool × String

abbrev old_of : Place → Option RuleEntry → Old
old_of p none = ("", false, "")
old_of p (some e) = (category_of p, (fields e).disabled, (fields e).target)

unfoldable pub old_rule : ℕ → ApplyArgs → Except Old
unfolding rule_at entry_at
old_rule index v = if index == 0 then good ("", false, "") else elim (rule_at v.rules index) [
  | none ↦ fail "there is no such rule of yours"
  | some p ↦ good (old_of p (entry_at p v.rules))
]

module _ (upper : String → String) (parse_bool : String → Option Bool) (new_id : String)
    (reply : Reply) where
  -- the check of the target; a rule that is changed may keep one that is gone
  abbrev target_error : RuleFields → ℕ → String → Option String
  target_error r index old_target =
      if str_eq r.kind "SUB-RULE" then none else elim (check_target reply r.target) [
        | none ↦ none
        | some why ↦ if index == 0 || not (str_eq old_target r.target) then some why else none
      ]

  abbrev new_category : String → Entries → Entries
  new_category name es = append es (
      cons
        (entry (record { kind = ""; value = ""; target = ""; params = ""; disabled = false })
          (category new_id name nil))
        nil)

  -- `save` from the check of the target on
  unfoldable pub save_checked :
      RuleFields → ℕ → String → String → Option String → ApplyArgs → Except ApplyArgs
  unfolding assign_rule check_target append
  save_checked r index id old_target name v = elim (target_error r index old_target) [
    | some why ↦ fail why
    | none ↦
        if str_eq (or_else name "") ""
        then assign_rule r index id v
        else if not (str_eq id "")
        then fail "choose an existing category or a new name, not both"
        else assign_rule r index new_id
            (record v { rules = new_category (or_else name "") v.rules })
  ]

  abbrev disabled_by : Option String → Bool → Except Bool
  disabled_by none disabled = good disabled
  disabled_by (some s) disabled = elim (parse_bool s) [
    | none ↦ fail "enabled must be true or false"
    | some b ↦ good (not b)
  ]

  -- `save` from the rule that it changes on
  unfoldable pub save_over :
      ℕ → (kind value target : String) → List String → Old → ApplyArgs → Except ApplyArgs
  unfolding save_checked arg
  save_over index kind value target rest (id, off, old_target) v =
      elim (disabled_by (arg 2 rest) off) [
        | bad why ↦ bad why
        | good disabled ↦
            save_checked
              (record {
                kind = upper (trim_space kind);
                value = value;
                target = target;
                params = or_else (arg 0 rest) "";
                disabled = disabled;
              })
              index (or_else (arg 1 rest) id) old_target (arg 3 rest) v
      ]

  -- `save`: index 0 adds a rule; the arguments behind the target may be left out
  unfoldable pub save :
      ℕ → (kind value target : String) → List String → ApplyArgs → Except ApplyArgs
  unfolding save_over old_rule
  save index kind value target rest v = elim (old_rule index v) [
    | bad why ↦ bad why
    | good old ↦ save_over index kind value target rest old v
  ]

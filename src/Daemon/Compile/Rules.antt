-- ===== src/Daemon/Compile/Rules.antt =====
-- What `compileRules` gives the engine, against a description that flattens the categories first, and
-- what `PruneCategories` changes of it.
use omihomo.Base.{
  String, Bool, Bool-cases, true, false, not, ◌&&◌, ◌||◌, List, [], ◌∷◌, ◌++◌, map, any, keep,
  str_eq, if◌then◌else◌, ◌≡◌, refl, ◌∙◌, ap, sym, inl, inr, arith,
}
use mathlib.Core.List.{append_assoc, append-nil}
use omihomo.Protocol.{
  RuleFields, Entries, entry, no_category, category, nil, cons, prune_categories,
}
use omihomo.Engine.{Rule, Profile}
use omihomo.Daemon.State.{Stored, ListedRule}
use omihomo.Daemon.Compile.{
  rule_active, Compiled, effective_rule, add_rule, add_rules, compile_from, compile_rules,
  run_config, mark_unreachable,
}

-- the rules of a category, and of all entries, that are not disabled, in order
unfoldable pub enabled_of : Entries → List RuleFields
enabled_of nil = []
enabled_of (cons (entry r _) es) = if r.disabled then enabled_of es else r ∷ enabled_of es

unfoldable pub enabled : Entries → List RuleFields
unfolding enabled_of
enabled nil = []
enabled (cons (entry r no_category) es) = if r.disabled then enabled es else r ∷ enabled es
enabled (cons (entry r (category id name rs)) es) =
    if r.disabled then enabled es else enabled_of rs ++ enabled es

-- the rules that the engine gets of these
abbrev pub active_rules : Profile → List RuleFields → List Rule
active_rules p rs = map effective_rule (keep (rule_active p) rs)

active_rules-append :
    (p : Profile) (xs ys : List RuleFields)
    → active_rules p (xs ++ ys) ≡ active_rules p xs ++ active_rules p ys
unfolding keep
active_rules-append p [] ys = refl
active_rules-append p (x ∷ xs) ys = elim (Bool-cases (rule_active p x)) [
  | inl on ↦ rw on (ap (λ (l : List Rule). effective_rule x ∷ l) (active_rules-append p xs ys))
  | inr off ↦ rw off (active_rules-append p xs ys)
]

add_rule-effective :
    (p : Profile) (r : RuleFields) (cat : String) (off : Bool) (c : Compiled)
    (rest : List RuleFields)
    → (add_rule p r cat off c).effective ++ active_rules p rest
      ≡ c.effective ++ active_rules p (if off || r.disabled then rest else r ∷ rest)
unfolding add_rule keep
add_rule-effective p r cat off c rest = elim (Bool-cases (off || r.disabled)) [
  | inl gone ↦ rw gone refl
  | inr kept ↦ rw kept (elim (Bool-cases (rule_active p r)) [
    | inl on ↦ rw on (append_assoc c.effective (effective_rule r ∷ []) (active_rules p rest))
    | inr dead ↦ rw dead refl
  ])
]

-- a category that is disabled adds nothing
add_rules-off :
    (p : Profile) (es : Entries) (cat : String) (c : Compiled)
    → (add_rules p es cat true c).effective ≡ c.effective
unfolding add_rules add_rule
add_rules-off p nil cat c = refl
add_rules-off p (cons (entry r _) es) cat c = add_rules-off p es cat (add_rule p r cat true c)

add_rules-on :
    (p : Profile) (es : Entries) (cat : String) (c : Compiled)
    → (add_rules p es cat false c).effective ≡ c.effective ++ active_rules p (enabled_of es)
unfolding add_rules enabled_of keep
add_rules-on p nil cat c = sym (append-nil c.effective)
add_rules-on p (cons (entry r _) es) cat c =
    add_rules-on p es cat (add_rule p r cat false c)
    ∙ add_rule-effective p r cat false c (enabled_of es)

drop_if : (b : Bool) (xs : List RuleFields) → (if b then xs else xs) ≡ xs
drop_if true xs = refl
drop_if false xs = refl

category_step :
    (p : Profile) (id : String) (rs es : Entries) (c : Compiled) (off : Bool)
    → (add_rules p rs id off c).effective ++ active_rules p (enabled es)
      ≡ c.effective ++ active_rules p (if off then enabled es else enabled_of rs ++ enabled es)
category_step p id rs es c true =
    ap (λ (l : List Rule). l ++ active_rules p (enabled es)) (add_rules-off p rs id c)
category_step p id rs es c false =
    ap (λ (l : List Rule). l ++ active_rules p (enabled es)) (add_rules-on p rs id c)
    ∙ append_assoc c.effective _ _
    ∙ ap (λ (l : List Rule). c.effective ++ l)
        (sym (active_rules-append p (enabled_of rs) (enabled es)))

compile_from-effective :
    (p : Profile) (es : Entries) (c : Compiled)
    → (compile_from p es c).effective ≡ c.effective ++ active_rules p (enabled es)
unfolding compile_from enabled keep
compile_from-effective p nil c = sym (append-nil c.effective)
compile_from-effective p (cons (entry r no_category) es) c =
    compile_from-effective p es (add_rule p r "" false c)
    ∙ add_rule-effective p r "" false c (enabled es)
compile_from-effective p (cons (entry r (category id name rs)) es) c =
    compile_from-effective p es (add_rules p rs id r.disabled c)
    ∙ category_step p id rs es c r.disabled

-- The rules that the engine gets are those of the owner's entries that neither they nor their category
-- disable and that are active in the profile, in order.
pub compile_rules-effective :
    (es : Entries) (p : Profile)
    → (compile_rules es p).effective ≡ map effective_rule (keep (rule_active p) (enabled es))
unfolding compile_rules
compile_rules-effective es p = compile_from-effective p es (record { effective = []; listed = [] })

enabled-prune_categories : (es : Entries) → enabled (prune_categories es) ≡ enabled es
unfolding enabled enabled_of prune_categories
enabled-prune_categories nil = refl
enabled-prune_categories (cons (entry r no_category) es) = rw (enabled-prune_categories es) refl
enabled-prune_categories (cons (entry r (category id name nil)) es) =
    enabled-prune_categories es ∙ sym (drop_if r.disabled (enabled es))
enabled-prune_categories (cons (entry r (category id name (cons x xs))) es) =
    rw (enabled-prune_categories es) refl

-- Dropping the empty categories, as `apply` does, leaves the engine's rules as they were.
pub compile_rules-prune_categories :
    (es : Entries) (p : Profile)
    → (compile_rules (prune_categories es) p).effective ≡ (compile_rules es p).effective
compile_rules-prune_categories es p =
    compile_rules-effective (prune_categories es) p
    ∙ ap (λ (rs : List RuleFields). map effective_rule (keep (rule_active p) rs))
        (enabled-prune_categories es)
    ∙ sym (compile_rules-effective es p)

-- The engine gets the owner's rules before those of the subscription, which it gets if they are on.
pub run_config-rules :
    (s : Stored) (p : Profile)
    → (run_config s p).profile.rules
      ≡ map effective_rule (keep (rule_active p) (enabled s.rules))
        ++ (if s.settings.subscription_rules_disabled then [] else p.rules)
unfolding run_config
run_config-rules s p = elim (Bool-cases s.settings.subscription_rules_disabled) [
  | inl off ↦ rw off (compile_rules-effective s.rules p ∙ sym (append-nil _))
  | inr on ↦ rw on (ap (λ (l : List Rule). l ++ p.rules) (compile_rules-effective s.rules p))
]

-- an active rule that catches every connection
abbrev pub catches : ListedRule → Bool
catches r = not r.inactive && str_eq r.kind "MATCH"

catches-step :
    (caught : Bool) (x : ListedRule) (z : Bool)
    → ((if x.inactive then caught else caught || str_eq x.kind "MATCH") || z)
      ≡ (caught || (catches x || z))
catches-step caught x z = ground arith

mark_unreachable-from :
    (caught : Bool) (xs : List ListedRule) (r : ListedRule) (ys : List ListedRule)
    → mark_unreachable caught (xs ++ r ∷ ys)
      ≡ mark_unreachable caught xs
        ++ (if r.inactive then r else record r { unreachable = caught || any catches xs })
          ∷ mark_unreachable (caught || any catches (xs ++ r ∷ [])) ys
unfolding mark_unreachable any
mark_unreachable-from caught [] r ys = ground arith
mark_unreachable-from caught (x ∷ xs) r ys =
    ap (λ (l : List ListedRule). (if x.inactive then x else record x { unreachable = caught }) ∷ l)
      (mark_unreachable-from (if x.inactive then caught else caught || str_eq x.kind "MATCH") xs r
          ys
        ∙ rw (catches-step caught x (any catches xs))
            (rw (catches-step caught x (any catches (xs ++ r ∷ []))) refl))

-- A listed rule is marked unreachable exactly where it is active and an active MATCH stands above it.
pub mark_unreachable_iff :
    (xs : List ListedRule) (r : ListedRule) (ys : List ListedRule)
    → mark_unreachable false (xs ++ r ∷ ys)
      ≡ mark_unreachable false xs
        ++ (if r.inactive then r else record r { unreachable = any catches xs })
          ∷ mark_unreachable (any catches (xs ++ r ∷ [])) ys
mark_unreachable_iff xs r ys = mark_unreachable-from false xs r ys

-- ===== src/Profile/Build/Closed.antt =====
-- A built profile is closed: its groups and rules name only what it has, or what mihomo has.
use Prim.Native.String.{String}
use omihomo.Base.{
  ℕ, Bool, Bool-cases, true, false, not, ◌&&◌, ◌||◌, List, [], ◌∷◌, ◌++◌, map, any, keep, Option,
  none, some, str_eq, if◌then◌else◌, ◌≡◌, ◌≢◌, refl, sym, ap, ◌∙◌, ◌⊎◌, inl, inr, eq_iff,
  split_bool, split_option,
}
use omihomo.Engine.{Options, Rule, RuleSet, Group, Except, good, split_except}
use omihomo.Profile.Rules.{Line, one_of, rule_types, rule_params, parse_rule}
use omihomo.Profile.Reader.{Reader}
use omihomo.Profile.Groups.{
  Pending, Choice, pending, more_names, more_pending, collect, finish_group, finish_groups,
}
use omihomo.Profile.RuleSets.{has_sub_rules, has_set, usable, as_rule, rules}
use omihomo.Profile.Build.Names.{
  Subset, one_of_left, one_of_right, one_of_either, or_cases, or_true,
}
use omihomo.Profile.Build.Targets.{Offers, finish_group-Filled}

abbrev pub group_names : List Group → List String
group_names gs = map (λ (g : Group). g.name) gs

abbrev pub pending_names : List Pending → List String
pending_names ps = map (λ (p : Pending). p.group.name) ps

-- every group has a member, and its members are among the names
abbrev pub AllFilled : List String → List Group → Type 0
AllFilled names [] = Unit
AllFilled names (g ∷ gs) = (g.members ≢ []) × Subset g.members names × AllFilled names gs

-- a rule of a sub-rule that the document has, or for a name, or for mihomo's global group
abbrev pub Aimed : List String → List (String × Option (List String)) → Rule → Type 0
Aimed names subs x =
    ((x.kind ≡ "SUB-RULE") × (has_sub_rules subs x.target ≡ true))
    ⊎ (one_of names x.target ≡ true)
    ⊎ (x.target ≡ "GLOBAL")

abbrev pub AllAimed : List String → List (String × Option (List String)) → List Rule → Type 0
AllAimed names subs [] = Unit
AllAimed names subs (x ∷ xs) = Aimed names subs x × AllAimed names subs xs

pub AllFilled-Subset :
    (ns ms : List String) (gs : List Group) → Subset ns ms → AllFilled ns gs → AllFilled ms gs
AllFilled-Subset ns ms [] h a = tt
AllFilled-Subset ns ms (g ∷ gs) h (a, b, c) = (a, λ n k. h n (b n k), AllFilled-Subset ns ms gs h c)

Aimed-Subset :
    (ns ms : List String) (subs : List (String × Option (List String))) (x : Rule)
    → Subset ns ms
    → Aimed ns subs x
    → Aimed ms subs x
Aimed-Subset ns ms subs x h (inl a) = inl a
Aimed-Subset ns ms subs x h (inr (inl a)) = inr (inl (h x.target a))
Aimed-Subset ns ms subs x h (inr (inr a)) = inr (inr a)

pub AllAimed-Subset :
    (ns ms : List String) (subs : List (String × Option (List String))) (xs : List Rule)
    → Subset ns ms
    → AllAimed ns subs xs
    → AllAimed ms subs xs
AllAimed-Subset ns ms subs [] h a = tt
AllAimed-Subset ns ms subs (x ∷ xs) h (a, b) =
    (Aimed-Subset ns ms subs x h a, AllAimed-Subset ns ms subs xs h b)

and_left : (a b : Bool) → (a && b) ≡ true → a ≡ true
and_left true b h = refl
and_left false b h = h

pub and_right : (a b : Bool) → (a && b) ≡ true → b ≡ true
and_right true b h = h
and_right false b h = cc h

usable-Aimed :
    (names : List String) (subs : List (String × Option (List String))) (sets : List RuleSet)
    (params : List String) (l : Line)
    → usable names subs sets l ≡ true
    → Aimed names subs (as_rule params l)
unfolding usable
usable-Aimed names subs sets params l h =
    let k =
      and_right (one_of rule_types l.kind)
        (if str_eq l.kind "SUB-RULE"
          then has_sub_rules subs l.target
          else one_of names l.target || str_eq l.target "GLOBAL")
        (and_left _ (not (str_eq l.kind "RULE-SET") || has_set sets l.value) h) in
    elim (Bool-cases (str_eq l.kind "SUB-RULE")) [
      | inl e ↦ inl ((eq_iff l.kind "SUB-RULE").0 e, rw e at k)
      | inr e ↦ elim (or_cases (one_of names l.target) _ (rw e at k)) [
        | inl t ↦ inr (inl t)
        | inr t ↦ inr (inr ((eq_iff l.target "GLOBAL").0 t))
      ]
    ]

pub rules-AllAimed :
    (upper : String → String) (names : List String) (subs : List (String × Option (List String)))
    (sets : List RuleSet) (ls : List String)
    → AllAimed names subs (rules upper names subs sets ls)
unfolding rules
rules-AllAimed upper names subs sets [] = tt
rules-AllAimed upper names subs sets (l ∷ ls) =
    split_option (AllAimed names subs) (parse_rule upper l) _ _
      (λ q. rules-AllAimed upper names subs sets ls)
      (λ line q.
        split_bool (AllAimed names subs) (usable names subs sets line) _ _
          (λ u. (
            usable-Aimed names subs sets (keep (one_of rule_params) line.params) line u,
            rules-AllAimed upper names subs sets ls,
          ))
          (λ u. rules-AllAimed upper names subs sets ls))

-- the names after the first loop of `groups`
module _ (r : Reader) (len : String → ℕ) where
  more_keeps : (x : Option Pending) (names : List String) → Subset names (more_names r len x names)
  unfolding any
  more_keeps none names n k = k
  more_keeps (some p) names n k = rw k (or_true (str_eq p.group.name n))

  more_moves :
      (x : Option Pending) (ps : List Pending) (names : List String)
      → Subset
          (pending_names ps ++ more_names r len x names)
          (pending_names (more_pending r len x ps) ++ names)
  unfolding any
  more_moves none ps names n k = k
  more_moves (some p) ps names n k =
      elim (one_of_either (pending_names ps) (p.group.name ∷ names) n k) [
        | inl a ↦ rw (one_of_left (pending_names ps) names n a) (or_true (str_eq p.group.name n))
        | inr a ↦ elim (or_cases (str_eq p.group.name n) _ a) [
          | inl b ↦ rw b refl
          | inr b ↦ rw (one_of_right (pending_names ps) names n b) (or_true (str_eq p.group.name n))
        ]
      ]

  pub collect-keeps :
      (defs : List Options) (names : List String) → Subset names (collect r len defs names).1
  unfolding collect
  collect-keeps [] names n k = k
  collect-keeps (def ∷ defs) names n k =
      let x = pending r len names def in
      collect-keeps defs (more_names r len x names) n (more_keeps x names n k)

  pub collect-taken :
      (defs : List Options) (names : List String)
      → Subset (collect r len defs names).1 (pending_names (collect r len defs names).0 ++ names)
  unfolding collect
  collect-taken [] names n k = k
  collect-taken (def ∷ defs) names n k =
      let x = pending r len names def in
      more_moves x (collect r len defs (more_names r len x names)).0 names n
        (collect-taken defs (more_names r len x names) n k)

module _ (r : Reader) (c : Choice) (o : Offers c) where
  -- the groups have the names that were collected, and are filled
  abbrev pub Finished : List Pending → Except (List Group) → Type 0
  Finished ps x =
      (gs : List Group) → x ≡ good gs → (group_names gs ≡ pending_names ps) × AllFilled c.names gs

  pub finish_groups-Finished : (ps : List Pending) → Finished ps (finish_groups r c ps)
  unfolding finish_groups
  finish_groups-Finished [] = λ gs q. let z : [] ≡ gs = cc q in rw (sym z) (refl, tt)
  finish_groups-Finished (p ∷ ps) =
      split_except (Finished (p ∷ ps)) (finish_group r c p) _ _
        (λ g a.
          split_except (Finished (p ∷ ps)) (finish_groups r c ps) _ _
            (λ rest b gs. λ (q : good (g ∷ rest) ≡ good gs).
              let z : g ∷ rest ≡ gs = cc q in
              let f = finish_group-Filled r c o p g a in
              let (same, all) = finish_groups-Finished ps rest b in
              rw (sym z) (
                ap (λ (l : List String). g.name ∷ l) same
                    ∙ ap (λ (n : String). n ∷ pending_names ps) f.same_name,
                (f.some_member, f.members_taken, all),
              ))
            (λ why b gs q. cc q))
        (λ why a gs q. cc q)

-- ===== src/Cli/Rules/Ungroup.antt =====
-- Ungrouping a category, and the rules of the engine.
use Prim.Native.String.{String}
use omihomo.Base.{
  ℕ, suc, ◌+◌, Bool, Bool-cases, Option-cases, true, false, List, [], ◌∷◌, ◌++◌, map, keep, some,
  str_eq, if◌then◌else◌, ◌≡◌, refl, sym, ap, ◌∙◌, inl, inr, arith,
}
use omihomo.Protocol.{RuleFields, Entries, entry, no_category, category, nil, cons}
use omihomo.Engine.{Profile, Except, good}
use omihomo.Daemon.Compile.{rule_active, effective_rule, compile_rules}
use omihomo.Daemon.Compile.Rules.{enabled, enabled_of, compile_rules-effective}
use omihomo.Cli.Entries.{append, replace, category_from, category_at}
use omihomo.Cli.Rules.{ApplyArgs, disable_all, released, ungroup}

-- the rules of a category are rules, as the daemon accepts them
abbrev pub Flat : Entries → Type 0
Flat nil = Unit
Flat (cons (entry r no_category) es) = Flat es
Flat (cons (entry r (category id name rs)) es) = ⊥

abbrev pub Flats : Entries → Type 0
Flats nil = Unit
Flats (cons (entry r no_category) es) = Flats es
Flats (cons (entry r (category id name rs)) es) = Flat rs × Flats es

unless-append :
    (off : Bool) (r : RuleFields) (xs ys zs : List RuleFields)
    → xs ≡ ys ++ zs
    → (if off then xs else r ∷ xs) ≡ (if off then ys else r ∷ ys) ++ zs
unless-append true r xs ys zs e = e
unless-append false r xs ys zs e = ap (λ (l : List RuleFields). r ∷ l) e

enabled-append-Flat :
    (rs es : Entries) → Flat rs → enabled (append rs es) ≡ enabled_of rs ++ enabled es
unfolding enabled enabled_of append
enabled-append-Flat nil es h = refl
enabled-append-Flat (cons (entry r no_category) rs) es h =
    unless-append r.disabled r _ (enabled_of rs) (enabled es) (enabled-append-Flat rs es h)
enabled-append-Flat (cons (entry r (category id name ss)) rs) es h = elim h [ ]

disable_all-Flat : (rs : Entries) → Flat rs → Flat (disable_all rs)
unfolding disable_all
disable_all-Flat nil h = tt
disable_all-Flat (cons (entry r no_category) rs) h = disable_all-Flat rs h
disable_all-Flat (cons (entry r (category id name ss)) rs) h = elim h [ ]

enabled_of-disable_all : (rs : Entries) → enabled_of (disable_all rs) ≡ []
unfolding enabled_of disable_all
enabled_of-disable_all nil = refl
enabled_of-disable_all (cons (entry r c) rs) = enabled_of-disable_all rs

-- the rules of a category that is released are those that it had
released-enabled :
    (r : RuleFields) (id name : String) (rs es : Entries)
    → Flat rs
    → enabled (append (released (entry r (category id name rs))) es)
      ≡ (if r.disabled then enabled es else enabled_of rs ++ enabled es)
unfolding released
released-enabled r id name rs es h = elim (Bool-cases r.disabled) [
  | inl off ↦ rw off (
      enabled-append-Flat (disable_all rs) es (disable_all-Flat rs h)
      ∙ rw (enabled_of-disable_all rs) refl)
  | inr on ↦ rw on (enabled-append-Flat rs es h)
]

-- the entry that `category_from` finds, and the entries where it is released
replace-enabled :
    (i : ℕ) (es : Entries) (id : String) (at : ℕ)
    → Flats es
    → category_from i es id ≡ some at
    → (k : ℕ) × ((at ≡ i + k) × (enabled (replace k released es) ≡ enabled es))
unfolding category_from enabled replace
replace-enabled i nil id at h e = cc e
replace-enabled i (cons (entry r no_category) es) id at h e =
    let (k, (place, same)) = replace-enabled (i + 1) es id at h e in
    (suc k, (omega arith, rw same refl))
replace-enabled i (cons (entry r (category c name rs)) es) id at (flat, h) e =
    elim (Bool-cases (str_eq c id)) [
      | inl found ↦
          let here : i ≡ at = cc (rw found at e) in
          (0, (omega arith, released-enabled r c name rs es flat))
      | inr other ↦
          let (k, (place, same)) = replace-enabled (i + 1) es id at h (rw other at e) in
          (suc k, (omega arith, rw same refl))
    ]

-- Removing a category, whose rules stay, leaves the rules that the engine gets as they were.
pub ungroup-effective :
    (id : String) (v w : ApplyArgs) (p : Profile)
    → Flats v.rules
    → ungroup id v ≡ good w
    → (compile_rules w.rules p).effective ≡ (compile_rules v.rules p).effective
unfolding ungroup category_at
ungroup-effective id v w p h e = elim (Option-cases (category_from 0 v.rules id)) [
  | inl missing ↦ cc (rw (ungroup, missing) at e)
  | inr (at, found) ↦
      let (k, (place, same)) = replace-enabled 0 v.rules id at h found in
      let here : at ≡ k = omega arith in
      let new : Except ApplyArgs = good (record v { rules = replace k released v.rules }) in
      let result : new ≡ good w = rw (ungroup, found, here) at e in
      let now : w.rules ≡ replace k released v.rules = cc result in
      compile_rules-effective w.rules p
      ∙ ap (λ (rs : List RuleFields). map effective_rule (keep (rule_active p) rs))
          (ap enabled now ∙ same)
      ∙ sym (compile_rules-effective v.rules p)
]

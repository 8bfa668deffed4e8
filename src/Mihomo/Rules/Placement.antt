-- ===== src/Mihomo/Rules/Placement.antt =====
-- Where `withOmihomoRules` puts the rules of the integrations.
use omihomo.Base.{false, List, [], ◌∷◌, ◌++◌, ◌≡◌, ◌≢◌, refl, ap}
use omihomo.Engine.{Rule, Source, user, integration, subscription, Config, integration_rules}
use omihomo.Mihomo.Rules.{lead, with_omihomo_rules}

-- the rules are the owner's
abbrev pub AllOwner : List Rule → Type 0
AllOwner [] = Unit
AllOwner (r ∷ rs) = (r.source ≡ user) × AllOwner rs

-- the first rule, if there is one, is not the owner's
abbrev pub OtherFirst : List Rule → Type 0
OtherFirst [] = Unit
OtherFirst (r ∷ rs) = r.source ≢ user

abbrev Led : List Rule → List Rule × List Rule → Type 0
Led rules p = (p.0 ++ p.1 ≡ rules) × AllOwner p.0 × OtherFirst p.1

by_source :
    (r : Rule) (rs : List Rule) (p : List Rule × List Rule) (s : Source)
    → r.source ≡ s
    → Led rs p
    → Led (r ∷ rs) (elim s [ user ↦ (r ∷ p.0, p.1) | _ ↦ ([], r ∷ rs) ])
by_source r rs p user e (a, b, c) = (ap (λ (l : List Rule). r ∷ l) a, (e, b), c)
by_source r rs p integration e h = (refl, tt, λ k. cc (e, k))
by_source r rs p subscription e h = (refl, tt, λ k. cc (e, k))

lead-Led : (rules : List Rule) → Led rules (lead rules)
unfolding lead
lead-Led [] = (refl, tt, tt)
lead-Led (r ∷ rs) = by_source r rs (lead rs) r.source refl (lead-Led rs)

-- Unless the owner turned them off, the rules of the integrations stand directly behind the owner's
-- leading rules: in front of them are the owner's rules only, behind them is a rule that is not the
-- owner's or none, and the rules around them are the given ones in their order.
pub with_omihomo_rules-placed :
    (rules : List Rule) (cfg : Config)
    → cfg.omihomo_rules_disabled ≡ false
    → (front : List Rule) × (back : List Rule) × (with_omihomo_rules rules cfg
        ≡ front ++ integration_rules cfg ++ back)
      × (front ++ back ≡ rules)
      × AllOwner front
      × OtherFirst back
unfolding with_omihomo_rules
with_omihomo_rules-placed rules cfg h =
    let (a, b, c) = lead-Led rules in ((lead rules).0, (lead rules).1, rw h refl, a, b, c)

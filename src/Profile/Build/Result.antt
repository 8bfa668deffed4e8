-- ===== src/Profile/Build/Result.antt =====
-- What `Build` returns.
use Prim.Native.String.{String}
use omihomo.Base.{
  ℕ, false, List, [], ◌∷◌, ◌++◌, any, none, if◌then◌else◌, ◌≡◌, refl, sym, inl, inr, split_bool,
}
use omihomo.Engine.{
  end, Rule, RuleSet, Proxy, Group, Profile, Except, good, bad, split_except, subscription,
}
use omihomo.Profile.Rules.{one_of}
use omihomo.Profile.Reader.{Reader, Document}
use omihomo.Profile.Names.{builtins}
use omihomo.Profile.Groups.{Pending, Choice, collect, finish_groups}
use omihomo.Profile.RuleSets.{rules, rule_sets}
use omihomo.Profile.Proxies.{Builder}
use omihomo.Profile.Build.{
  too_much, is_bare, wrapper_group, sub_rules, wrap, complete, with_groups, listed, build,
}
use omihomo.Profile.Build.Names.{
  names_of, Subset, AllSubset, Named, WhenNamed, one_of_left, one_of_right, one_of_either,
  add_all-Named, add_named-Named,
}
use omihomo.Profile.Build.Targets.{Offers, nothing}
use omihomo.Profile.Build.Closed.{
  group_names, pending_names, AllFilled, AllAimed, AllFilled-Subset, AllAimed-Subset,
  rules-AllAimed, collect-keeps, collect-taken, finish_groups-Finished,
}

-- what a rule or a group of the profile may name
abbrev pub targets : Profile → List String
targets p = builtins ++ (names_of p.proxies ++ group_names p.groups)

pub record Closed (d : Document) (p : Profile) : Type 0 where
  pub groups_filled : AllFilled (targets p) p.groups
  pub rules_aimed : AllAimed (targets p) d.sub_rules p.rules

abbrev IsClosed : Document → Except Profile → Type 0
IsClosed d x = (p : Profile) → x ≡ good p → Closed d p

wrapped : Builder → List String → Profile
wrapped b ms = record {
  proxies = b.proxies;
  groups = record { name = wrapper_group; kind = "select"; members = ms; options = end } ∷ [];
  sub_rules = [];
  rules =
      record {
        kind = "MATCH";
        value = "";
        target = wrapper_group;
        params = [];
        source = subscription;
      }
      ∷ [];
  rule_sets = [];
}

wrapped-Closed :
    (d : Document) (b : Builder) (m : String) (ms : List String)
    → names_of b.proxies ≡ m ∷ ms
    → Closed d (wrapped b (m ∷ ms))
unfolding wrapped any
wrapped-Closed d b m ms e = record {
  groups_filled = (
    λ x. cc x,
    λ n k. one_of_right builtins _ n (one_of_left (names_of b.proxies) _ n (rw e k)),
    tt,
  );
  rules_aimed = (
    inr (
        inl (
          one_of_right builtins (names_of b.proxies ++ wrapper_group ∷ []) wrapper_group
            (one_of_right (names_of b.proxies) (wrapper_group ∷ []) wrapper_group refl))),
    tt,
  );
}

AllSubset-Subset :
    (from : List (String × List String)) (ns ms : List String)
    → AllSubset from ns
    → Subset ns ms
    → AllSubset from ms
AllSubset-Subset [] ns ms h s = tt
AllSubset-Subset ((p, l) ∷ from) ns ms (h, hs) s =
    (λ n k. s n (h n k), AllSubset-Subset from ns ms hs s)

module _ (r : Reader) (d : Document) where
  wrap-Closed : (b : Builder) → IsClosed d (wrap r b)
  unfolding wrap wrapped
  wrap-Closed b = of_members (names_of b.proxies) refl
    where
      of_members :
          (ms : List String)
          → names_of b.proxies ≡ ms
          → IsClosed d (elim ms [
            | [] ↦
                bad (record {
                  message = "none of its proxies can run";
                  is = λ _. false;
                  status = none;
                })
            | m ∷ ms ↦
                if one_of b.names wrapper_group
                then bad
                    (record { message = "a proxy is named Proxy"; is = λ _. false; status = none })
                else good (wrapped b (m ∷ ms))
          ])
      of_members [] e p q = cc q
      of_members (m ∷ ms) e p q =
          split_bool (IsClosed d) (one_of b.names wrapper_group) _ _ (λ k p q. cc q)
            (λ k p. λ (q : good (wrapped b (m ∷ ms)) ≡ good p).
              let z : wrapped b (m ∷ ms) ≡ p = cc q in rw (sym z) (wrapped-Closed d b m ms e))
            p q

  module _ (len : String → ℕ) (bodies : List (String × String)) where
    complete-Closed :
        (proxies : List Proxy) (names : List String) (groups : List Group)
        → AllFilled names groups
        → Subset names (builtins ++ (names_of proxies ++ group_names groups))
        → IsClosed d (complete r len bodies d proxies names groups)
    unfolding complete
    complete-Closed proxies names groups f s =
        split_except (IsClosed d) (rule_sets r bodies d.rule_providers) _ _
          (λ sets a.
            split_except (IsClosed d) (sub_rules r len 0 d.sub_rules) _ _
              (λ subs b.
                split_bool (IsClosed d) (is_bare groups proxies) _ _ (λ k p q. cc q)
                  (λ k p. λ (q : good (profile sets subs) ≡ good p).
                    let z : profile sets subs ≡ p = cc q in
                    rw (sym z) (record {
                      groups_filled =
                          AllFilled-Subset names (targets (profile sets subs)) groups s f;
                      rules_aimed =
                          AllAimed-Subset names (targets (profile sets subs)) d.sub_rules _ s
                            (rules-AllAimed r.upper names d.sub_rules sets d.rules);
                    })))
              (λ why b p q. cc q))
          (λ why a p q. cc q)
      where
        profile : List RuleSet → List (String × List Rule) → Profile
        profile sets subs = record {
          proxies = proxies;
          groups = groups;
          sub_rules = subs;
          rules = rules r.upper names d.sub_rules sets d.rules;
          rule_sets = sets;
        }

    -- the names that are taken are targets of the profile
    taken_targets :
        (b : Builder) (ps : List Pending) (names : List String) (groups : List Group)
        → Named b
        → Subset names (pending_names ps ++ b.names)
        → group_names groups ≡ pending_names ps
        → Subset names (builtins ++ (names_of b.proxies ++ group_names groups))
    taken_targets b ps names groups h s e n k =
        elim (one_of_either (pending_names ps) b.names n (s n k)) [
          | inl a ↦
              one_of_right builtins _ n
                (one_of_right (names_of b.proxies) (group_names groups) n (rw e a))
          | inr a ↦ elim (one_of_either builtins (names_of b.proxies) n (h.taken n a)) [
            | inl x ↦ one_of_left builtins _ n x
            | inr x ↦
                one_of_right builtins _ n
                  (one_of_left (names_of b.proxies) (group_names groups) n x)
          ]
        ]

    with_groups-Closed :
        (top : List Proxy) (b : Builder)
        → Named b
        → Subset (names_of top) b.names
        → IsClosed d (with_groups r len bodies d top b)
    unfolding with_groups
    with_groups-Closed top b h t =
        split_except (IsClosed d) (finish_groups r choice (collected.0)) _ _
          (λ groups q.
            let (same, all) = finish_groups-Finished r choice offers collected.0 groups q in
            complete-Closed b.proxies collected.1 groups all (
              taken_targets b collected.0 collected.1 groups h
                (collect-taken r len d.groups b.names) same))
          (λ why q p e. cc e)
      where
        collected : List Pending × List String
        collected = collect r len d.groups b.names

        choice : Choice
        choice = record {
          names = collected.1;
          top = top;
          proxies = b.proxies;
          from_provider = b.from_provider;
        }

        offers : Offers choice
        offers = record {
          top_taken = λ n k. collect-keeps r len d.groups b.names n (t n k);
          provided_taken =
              AllSubset-Subset b.from_provider b.names collected.1 h.provided_taken
                (collect-keeps r len d.groups b.names);
        }

    nobody : Named (record { names = builtins; proxies = []; from_provider = [] })
    nobody = record {
      taken = λ n k. one_of_left builtins [] n k;
      proxies_taken = λ n k. nothing n k;
      provided_taken = tt;
    }

    listed-Named : Named (listed r len bodies d)
    listed-Named = add_all-Named r len d.proxies _ nobody

    after_providers :
        (x : Except Builder)
        → WhenNamed (listed r len bodies d) x
        → IsClosed d (elim x [
          | bad why ↦ bad why
          | good b ↦
              if d.wrapped
              then wrap r b
              else with_groups r len bodies d (listed r len bodies d).proxies b
        ])
    after_providers (bad why) h p q = cc q
    after_providers (good b) (n, s) p q =
        split_bool (IsClosed d) d.wrapped _ _ (λ k. wrap-Closed b)
          (λ k.
            with_groups-Closed (listed r len bodies d).proxies b n
              (λ m e. s m (listed-Named.proxies_taken m e)))
          p q

    -- In a profile that `Build` returns, every group has a member, and the members of the groups and the
    -- targets of the rules are proxies and groups of the profile or mihomo's own targets; a rule may
    -- also name the global group, and a `SUB-RULE` names a list of sub-rules of the document.
    pub build-Closed : (p : Profile) → build r len bodies d ≡ good p → Closed d p
    unfolding build
    build-Closed =
        split_bool (IsClosed d) (too_much d) _ _ (λ k p q. cc q)
          (λ k.
            after_providers _ (
              add_named-Named r bodies len d.proxy_providers _ (listed r len bodies d)
                listed-Named))

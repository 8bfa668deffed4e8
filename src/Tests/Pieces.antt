-- ===== src/Tests/Pieces.antt =====
-- Runs of the theorems on rules, times, queues and the engine over mihomo, at concrete values.
use omihomo.Base.{
  Option, split_bool, ℕ, ◌+◌, ◌≤◌, true, false, [], ◌∷◌, ◌++◌, map, keep, none, some, ◌≡◌, ◌≢◌, ◌⊎◌,
  refl, arith, if◌then◌else◌, any,
}
use omihomo.Protocol.{Entries, entry, no_category, category, nil, cons, prune_categories}
use omihomo.Engine.{Config, Failure, good, no_profile, err_stopped, user}
use omihomo.Daemon.State.{Subscription, ListedRule}
use omihomo.Fake.{no_config}
use omihomo.Mihomo
use omihomo.Mihomo.{Host, no_gvisor}
use omihomo.Mihomo.Promises.{Documented, Shows, apply-outcome}
use omihomo.Daemon.Compile.{
  compile_rules, run_config, rule_active, effective_rule, mark_unreachable,
}
use omihomo.Daemon.Compile.Rules.{
  enabled, catches, compile_rules-effective, compile_rules-prune_categories, run_config-rules,
  mark_unreachable_iff,
}
use omihomo.Daemon.Subscriptions.Times.{
  ms, may_ask, wait_after, failed_record, may_ask-failed_record, failed_record-answered,
}
use omihomo.Tests.{world, match_direct, global_mode}

-- an entry, an empty category and a disabled one
abbrev entries : Entries
entries = cons (entry (record match_direct { kind = "DOMAIN"; value = "a" }) no_category) (
    cons (entry match_direct (category "c1" "empty" nil)) (
      cons
        (entry (record match_direct { disabled = true })
          (category "c2" "off" (cons (entry match_direct no_category) nil)))
        (cons (entry match_direct no_category) nil)))

compile_rules-effective_example :
    (compile_rules entries no_profile).effective
    ≡ map effective_rule (keep (rule_active no_profile) (enabled entries))
compile_rules-effective_example = compile_rules-effective entries no_profile

compile_rules-prune_categories_example :
    (compile_rules (prune_categories entries) no_profile).effective
    ≡ (compile_rules entries no_profile).effective
compile_rules-prune_categories_example = compile_rules-prune_categories entries no_profile

run_config-rules_example :
    (run_config global_mode no_profile).profile.rules
    ≡ map effective_rule (keep (rule_active no_profile) (enabled global_mode.rules))
      ++ (if global_mode.settings.subscription_rules_disabled then [] else no_profile.rules)
run_config-rules_example = run_config-rules global_mode no_profile

abbrev listed_match : ListedRule
listed_match = record {
  kind = "MATCH";
  value = "";
  target = "DIRECT";
  source = user;
  params = "";
  inactive = false;
  index = 1;
  category = "";
  disabled = false;
  unreachable = false;
  inactive_reason = "";
}

mark_unreachable_iff_example :
    mark_unreachable false ((listed_match ∷ []) ++ listed_match ∷ [])
    ≡ mark_unreachable false (listed_match ∷ [])
      ++ (if listed_match.inactive
          then listed_match
          else record listed_match { unreachable = any catches (listed_match ∷ []) })
        ∷ mark_unreachable (any catches ((listed_match ∷ []) ++ listed_match ∷ [])) []
mark_unreachable_iff_example = mark_unreachable_iff (listed_match ∷ []) listed_match []

abbrev sub : Subscription
sub = record {
  id = "a";
  name = "one";
  url = "u";
  updated_at = 1000000;
  interval_seconds = 3600;
  upload = none;
  download = none;
  total = none;
  expire = none;
  last_attempt = 1000000;
  retry_at = 1060000;
  held_until = 0;
  last_error = "";
}

-- an hour, in nanoseconds
abbrev hour : ℕ
hour = 3600000000000

may_ask-failed_record_example :
    may_ask world (failed_record sub 2000000000000 hour true 0 "no" sub) 3000000000000 ≢ none
unfolding failed_record wait_after
may_ask-failed_record_example =
    may_ask-failed_record world sub sub 2000000000000 hour 0 "no" 3000000000000 (omega arith)

failed_record-answered_example :
    (ms (2000000000000 + hour) ≤ (failed_record sub 2000000000000 hour true 0 "no" sub).retry_at)
    × (ms (2000000000000 + 0) ≤ (failed_record sub 2000000000000 hour true 0 "no" sub).retry_at)
failed_record-answered_example = failed_record-answered sub sub 2000000000000 hour 0 "no"

-- a failure that says nothing of a stop
abbrev port_taken : Failure
port_taken = record no_gvisor { message = "the local proxy port did not open" }

-- mihomo, as the config in force, if any: no config with a TUN comes up
abbrev host : Host
host = record {
  T = Option Config;
  gvisor = true;
  Parsed = Config;
  prepare = λ cfg t. good cfg;
  bring_up = λ p t. if p.tun then (some port_taken, none) else (none, some p);
  bring_down = λ t. none;
  reload_databases = λ t. t;
}

abbrev tun_config : Config
tun_config = record no_config { tun = true }

port_taken-quiet : port_taken.is err_stopped ≡ false
port_taken-quiet = refl

up :
    (p : Config) (t : Option Config) → (host.bring_up p t).0 ≡ none → (host.bring_up p t).1 ≡ some p
up p t =
    split_bool (λ (r : Option Failure × Option Config). r.0 ≡ none → r.1 ≡ some p) p.tun _ _
      (λ _ y. cc y) (λ _ _. refl)

refused :
    (p : Config) (t : Option Config) (f : Failure)
    → (host.bring_up p t).0 ≡ some f
    → f.is err_stopped ≡ false
refused p t f =
    split_bool (λ (r : Option Failure × Option Config). r.0 ≡ some f → f.is err_stopped ≡ false)
      p.tun _ _ (λ _ y. cc port_taken-quiet) (λ _ y. cc y)

documented : Documented host
documented = record {
  in_force = λ t. t;
  origin = λ p. p;
  prepared = λ cfg t p e. cc e;
  brought_up = up;
  brought_down = λ t. refl;
  prepare_error = λ cfg t f x. cc x;
  bring_up_error = refused;
}

abbrev running_core : Mihomo.Core host
running_core = record { host = some no_config; running = true; current = no_config; generation = 1 }

running_core-Shows : Shows no_config documented (some no_config) running_core
unfolding documented
running_core-Shows = record { in_mihomo = refl; in_core = refl }

apply-outcome_example :
    (((Mihomo.apply no_config tun_config running_core).0 ≡ none)
      × Shows no_config documented
          (some tun_config)
          (Mihomo.apply no_config tun_config running_core).1)
    ⊎ ((f : Failure) × ((Mihomo.apply no_config tun_config running_core).0 ≡ some f)
        × (f.is err_stopped ≡ false)
        × Shows no_config documented
            (some no_config)
            (Mihomo.apply no_config tun_config running_core).1)
    ⊎ ((f : Failure) × ((Mihomo.apply no_config tun_config running_core).0 ≡ some f)
        × (f.is err_stopped ≡ true)
        × Shows no_config documented none (Mihomo.apply no_config tun_config running_core).1)
apply-outcome_example =
    apply-outcome no_config documented tun_config (some no_config) running_core running_core-Shows

-- ===== src/Tests.antt =====
-- Runs of the theorems on the in-memory engine, in a world where every call outside succeeds.
mod Pieces
mod Lines
mod Releases
mod Profiles
mod Downloads
mod Network
mod Commands
mod Cutovers
use omihomo.Base.{
  ℕ, ◌+◌, ◌*◌, ◌≤◌, ◌<◌, Bool, true, false, String, List, [], ◌∷◌, ◌++◌, map, keep, Option, none,
  some, ◌≡◌, ◌≢◌, ◌⊎◌, refl, arith, if◌then◌else◌, length, append, fields, any, decimal,
}
use omihomo.Daemon.Commit.{commit_settings, apply, missing_destination}
use omihomo.Protocol.{
  Error, CategoryTargets, Settings, RuleFields, RuleEntry, Entries, entry, no_category, category,
  nil, cons, stopped, on, prune_categories, Settings-discrete, Entries-discrete,
}
use omihomo.Engine.{
  Engine, Contract, Config, Failure, Except, good, bad, Profile, Proxy, Group, no_profile,
  err_stopped, end,
}
use omihomo.Daemon.State.{
  Outside, NoFalseStop, Stored, Server, Subscription, Subscriptions, Snapshot, Disk, Request, Event,
  ListedRule,
}
use omihomo.Fake.{Core, fake, new, no_config, delay_of, find_delay}
use omihomo.Fake
use omihomo.Fake.Promises.{runs, fake-Contract}
use omihomo.Mihomo.{Host}
use omihomo.Mihomo
use omihomo.Mihomo.Promises
use omihomo.Daemon.Publish.{
  is_up, active_sub, publish, publish_stream, push_line, snapshot, status_of, subscription_list_of,
  event_line, line, same_bytes, send_line, set_state, is_running, describe, next_update,
}
use omihomo.Daemon.Compile.{
  run_config, bypass, has_target, rule_active, add_rule, add_rules, compile_from, compile_rules,
  listed_rule, mark_unreachable, list_rules,
}
use omihomo.Daemon.Check.{check_settings, valid_name}
use omihomo.Daemon.Check.Rules.{check_rules}
use omihomo.Daemon.Geodata.{ensure_geodata}
use omihomo.Daemon.Agrees.{Agrees, RunsAs}
use omihomo.Daemon.Run.{
  start, stop, retry_restore, reapply, rollback, start_locked, start_profile, start_engine,
  prepare_apply, engine_apply, save_running, save_settings,
}
use omihomo.Daemon.Results.{
  start-up, stop-down, retry_restore-pending, reapply-outcome, rollback-outcome,
  commit_settings-done, commit_settings-Agrees, apply-done,
}
use omihomo.Daemon.Steps.{blank, new_server, Reachable, initial, next, starts, applies}
use omihomo.Daemon.Steps.Agree.{step-Agrees, Reachable-Agrees}

abbrev engine : Engine
engine = fake (λ _. "") (λ _. []) (λ _ _. none)

no_failure : (f : Failure) → none ≡ some f → f.is err_stopped ≡ false
no_failure f x = cc

never_bad : {A : Type 0} (y : A) (f : Failure) → good y ≡ bad f → f.is err_stopped ≡ false
never_bad y f x = cc

abbrev contract : Contract engine
contract = fake-Contract (λ _. "") (λ _. []) (λ _ _. none) (λ g p. no_failure)

-- the instant of every call
abbrev noon : ℕ
noon = 1000000000000000

abbrev no_usage : omihomo.Daemon.State.Usage
no_usage = record { upload = none; download = none; total = none; expire = none }

-- a world with one clock time, where each file is written and each download is one byte
abbrev world : Outside
world = record {
  T = ℕ;
  now = λ t. noon;
  download_limit = 1000;
  wall_clock = λ t. noon;
  new_id = λ t. (decimal t, t + 1);
  tailscale_present = λ t. true;
  tailscale_sync = none;
  write_fault = λ f t. (none, t);
  Header = ℕ;
  get = λ r t. (good (1 ∷ [], 0), t);
  decide = λ id t. (none, t);
  expired = λ t. false;
  Doc = ℕ;
  read = λ b. good 0;
  providers = λ d. [];
  build = λ d ps. good no_profile;
  interval = λ h. 3600000000000;
  usage = λ h. no_usage;
  title = λ h u. u;
  check_url = λ u. none;
  stat = λ p t. none;
  modified = λ p t. noon;
  save_temporary = λ p b t. (good p, t);
  remove_temporary = λ p t. t;
  marshal = λ v. good [];
  parse_prefix = λ s. none;
  lower = λ s. s;
  quote = λ s. "";
  show_duration = λ a b. "";
  show_time = λ a. "";
}

abbrev quiet : NoFalseStop world
quiet = record {
  get_error = λ r t. never_bad (1 ∷ [], 0);
  save_error = λ p b t. never_bad p;
  stat_error = λ p t. no_failure;
}

abbrev no_targets : CategoryTargets
no_targets = record {
  domains = "";
  addresses = "";
  applications = "";
  ports = "";
  inbound = "";
  rule_sets = "";
  logic = "";
  other = "";
}

abbrev rule_mode : Settings
rule_mode = record {
  category_targets = no_targets;
  omihomo_rules_disabled = false;
  subscription_rules_disabled = false;
  mode = "rule";
  tun = true;
  tun_redirect = true;
  tailscale = false;
  tailnet_proxy = false;
  primary_group = "";
  dns_destination = "";
}

abbrev match_direct : RuleFields
match_direct = record {
  kind = "MATCH";
  value = "";
  target = "DIRECT";
  params = "";
  disabled = false;
}

abbrev one_rule : Entries
one_rule = cons (entry match_direct no_category) nil

abbrev files : Disk
files = record {
  settings = record { settings = rule_mode; rules = one_rule; running = true };
  subscriptions = record { active = ""; list = [] };
  snapshots = [];
}

abbrev stopped_server : Server engine world
stopped_server = blank new 0 files

stopped_server-Agrees : Agrees contract stopped_server
unfolding fake-Contract
stopped_server-Agrees = record { runs_it = refl }

start-up_example :
    (is_up (start stopped_server).1.state ≡ true)
    × (contract.runs (start stopped_server).1.engine
        ≡ some (run_config (start stopped_server).1.settings (start stopped_server).1.profile))
    × ((start stopped_server).1.settings.running ≡ true)
unfolding prune_categories start start_locked start_profile start_engine prepare_apply engine_apply
    save_running save_settings is_running check_settings check_rules active_sub ensure_geodata
    Fake.apply valid_name omihomo.Daemon.Check.Rules.check_entries
    omihomo.Daemon.Check.Rules.check_rule fields omihomo.Daemon.Geodata.ensure_files publish
    publish_stream push_line same_bytes set_state event_line
start-up_example = start-up contract quiet stopped_server stopped_server-Agrees refl

stop-down_example :
    ((stop stopped_server).1.state ≡ stopped)
    × (contract.runs (stop stopped_server).1.engine ≡ none)
    × ((stop stopped_server).1.settings.running ≡ false)
unfolding stop Fake.stop save_running publish publish_stream push_line same_bytes active_sub
    set_state event_line
stop-down_example = stop-down contract quiet stopped_server stopped_server-Agrees refl

retry_restore-pending_example :
    (is_up (retry_restore stopped_server).state ≡ true)
    ⊎ ((retry_restore stopped_server).restore_pending ≡ true)
retry_restore-pending_example =
    retry_restore-pending contract quiet stopped_server stopped_server-Agrees refl

abbrev global_mode : Stored
global_mode = record {
  settings = record rule_mode { mode = "global" };
  rules = one_rule;
  running = true;
}

abbrev old_config : Config
old_config = run_config files.settings no_profile

abbrev refused : Failure
refused = record { message = "the port is taken"; is = λ _. false; status = none }

-- the proxy is up, and the engine refuses the next config
abbrev running_server : Server engine world
running_server = record stopped_server {
  state = on;
  engine = record new { running = true; cfg = old_config; apply_err = some refused };
}

running_server-runs : contract.runs running_server.engine ≡ some old_config
unfolding fake-Contract
running_server-runs = refl

reapply-outcome_example :
    (((reapply {e = engine} {o = world} false global_mode no_profile running_server).0 ≡ none)
      × (is_up
            (reapply {e = engine} {o = world} false global_mode no_profile running_server).1.state
          ≡ true)
      × (contract.runs
            (reapply {e = engine} {o = world} false global_mode no_profile running_server).1.engine
          ≡ some (run_config global_mode no_profile)))
    ⊎ ((x : Error) × ((reapply {e = engine} {o = world} false global_mode no_profile
            running_server).0
          ≡ some x)
        × (is_up
              (reapply {e = engine} {o = world} false global_mode no_profile running_server).1.state
            ≡ true)
        × (contract.runs
              (reapply {e = engine} {o = world} false global_mode no_profile
                running_server).1.engine
            ≡ some old_config))
    ⊎ ((x : Error) × ((reapply {e = engine} {o = world} false global_mode no_profile
            running_server).0
          ≡ some x)
        × ((reapply {e = engine} {o = world} false global_mode no_profile running_server).1.state
            ≡ stopped)
        × (contract.runs
              (reapply {e = engine} {o = world} false global_mode no_profile
                running_server).1.engine
            ≡ none))
reapply-outcome_example =
    reapply-outcome contract quiet old_config false global_mode no_profile running_server refl
      running_server-runs

rollback-outcome_example :
    (((rollback {e = engine} {o = world} false global_mode no_profile running_server).0 ≡ true)
      × (is_up
            (rollback {e = engine} {o = world} false global_mode no_profile running_server).1.state
          ≡ true)
      × (contract.runs
            (rollback {e = engine} {o = world} false global_mode no_profile running_server).1.engine
          ≡ some (run_config global_mode no_profile)))
    ⊎ (((rollback {e = engine} {o = world} false global_mode no_profile running_server).0 ≡ false)
        × (is_up
              (rollback {e = engine} {o = world} false global_mode no_profile
                running_server).1.state
            ≡ true)
        × (contract.runs
              (rollback {e = engine} {o = world} false global_mode no_profile
                running_server).1.engine
            ≡ some old_config))
    ⊎ (((rollback {e = engine} {o = world} false global_mode no_profile running_server).0 ≡ false)
        × ((rollback {e = engine} {o = world} false global_mode no_profile running_server).1.state
            ≡ stopped)
        × (contract.runs
              (rollback {e = engine} {o = world} false global_mode no_profile
                running_server).1.engine
            ≡ none))
rollback-outcome_example =
    rollback-outcome contract quiet old_config false global_mode no_profile running_server refl
      running_server-runs

commit_settings-done_example :
    ((commit_settings global_mode no_profile stopped_server).1.settings ≡ global_mode)
    × ((commit_settings global_mode no_profile stopped_server).1.disk.settings ≡ global_mode)
    × RunsAs contract global_mode
        (commit_settings global_mode no_profile stopped_server).1.profile
        (commit_settings global_mode no_profile stopped_server).1
unfolding commit_settings omihomo.Daemon.Commit.sync_if reapply is_running
    omihomo.Daemon.Run.check_config ensure_geodata omihomo.Daemon.Geodata.ensure_files Fake.check
    omihomo.Daemon.Commit.finish_commit save_settings
commit_settings-done_example =
    commit_settings-done contract quiet global_mode stopped_server stopped_server-Agrees refl

commit_settings-Agrees_example :
    Agrees contract (commit_settings global_mode no_profile stopped_server).1
commit_settings-Agrees_example =
    commit_settings-Agrees contract quiet global_mode stopped_server stopped_server-Agrees

apply-done_example :
    ((apply global_mode.settings one_rule stopped_server).1.settings
      ≡ record stopped_server.settings {
        settings = global_mode.settings;
        rules = prune_categories one_rule;
      })
    × (check_settings global_mode.settings ≡ none)
    × (check_rules world one_rule ≡ none)
    × (missing_destination global_mode.settings stopped_server.profile ≡ false)
unfolding apply check_settings check_rules valid_name omihomo.Daemon.Check.Rules.check_entries
    omihomo.Daemon.Check.Rules.check_rule fields missing_destination Settings-discrete
    omihomo.Base.String_discrete commit_settings omihomo.Daemon.Commit.sync_if reapply is_running
    omihomo.Daemon.Run.check_config ensure_geodata omihomo.Daemon.Geodata.ensure_files Fake.check
    omihomo.Daemon.Commit.finish_commit save_settings
apply-done_example =
    apply-done contract quiet global_mode.settings one_rule stopped_server stopped_server-Agrees
      refl

Reachable-Agrees_example :
    Agrees contract
      (apply global_mode.settings one_rule
        (start (new_server {e = engine} {o = world} new 0 files)).1).1
unfolding fake-Contract
Reachable-Agrees_example =
    Reachable-Agrees contract quiet new 0 files _ refl
      (next (next initial starts) (applies global_mode.settings one_rule))

step-Agrees_example : Agrees contract (start stopped_server).1
step-Agrees_example = step-Agrees contract quiet starts stopped_server-Agrees

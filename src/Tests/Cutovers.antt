-- ===== src/Tests/Cutovers.antt =====
-- Runs of the theorems on a migration and a cutover, where the claim fails, on old request limits and on a
-- subscription with one provider.
use omihomo.Base.{
  String, ℕ, ◌+◌, ◌≤◌, Bool-cases, true, false, inl, inr, sym, arith, str_eq, ltb, [], ◌∷◌, ◌++◌,
  none, some, ◌≡◌, ◌⊎◌, refl, if◌then◌else◌, decimal,
}
use omihomo.Engine.{no_profile}
use omihomo.Update.Transfer.{size}
use omihomo.Migration.Reads.{
  Old, OldFile, absent, opened, ok, err, above, OldLimits, Times, request_state, limits_in,
  optional, read, read_opened, decoded_limits, limits_of, deadline, wrapped, max64,
}
use omihomo.Migration.Reads.Bounds.{InMilliseconds, request_state-times}
use omihomo.Migration.Snapshots.{
  World, Taken, snapshot, read_snapshot, parsed_snapshot, file_body, bodies_of, provider_body,
  read_path, or_cache, or_get, def_of, put,
}
use omihomo.Migration.Snapshots.Budget.{Limited, total, snapshot-budget}
use omihomo.Migration.Install.{Host, Import, install, commit, rollback}
use omihomo.Migration.Install.Restores.{Staged, Restored, rollback-commit}
use omihomo.Cli.Cutover.{
  Files, file, same_key, set, mihomo, Machine, Cutover, attempt, and_then, move, move_found,
  move_all, strip_privileges, strip_found, strip, drop_attribute,
}
use omihomo.Cli.Cutover.Run
use omihomo.Cli.Cutover.Run.{
  Plan, drop_in, cut_over, move_old, userctl, systemctl, commit_staged, unit_keys, move_drop_in,
  drop_in_found, take_over, claim,
}
use omihomo.Cli.Cutover.Recovers.{cut_over-Restores}

-- no call fails but the second rename of a commit
abbrev host : Host
host = record {
  T = ℕ;
  fault = λ c t. elim c [ install ↦ (some "no space left on device", t + 1) | _ ↦ (none, t + 1) ];
}

abbrev import_ready : Import host
import_ready = record {
  world = 0;
  target = some [];
  staged = some [];
  backup = none;
  backed_up = false;
  installed = false;
}

abbrev ready : Staged host import_ready
ready = record { not_installed = refl; not_backed_up = refl; no_backup = refl }

rollback-commit_example :
    Restored host import_ready
      ((commit host import_ready).0 ++ (rollback host (commit host import_ready).1).0)
      (rollback host (commit host import_ready).1).1
rollback-commit_example = rollback-commit host import_ready ready

abbrev machine : Machine
machine = record {
  host = record { T = ℕ; fault = λ c t. (none, t) };
  fault = λ what k t. (none, t + 1);
  nanoseconds = decimal;
  userctl = λ args t. ((true, none), t);
  systemctl = λ args t. (none, t);
  claim = λ old t. (
    (
      some "the service does not start",
      some (file "[Service]" 0o644 none none),
      record { owner = some "1000"; socket_drop_in = some "[Socket]" },
    ),
    t,
  );
  apply = λ t. ((none, none), t);
  check = λ running t. ((none, none), t);
}

abbrev old_files : Files
old_files k =
    if same_key k mihomo
    then some (file "ELF" 0o755 (some "cap_net_admin") none)
    else if same_key k drop_in
    then some (file "[Unit]" 0o644 none none)
    else none

abbrev plan : Plan
plan = record {
  units = "omihomo.service" ∷ [];
  active = [];
  running = false;
  remove_launcher = false;
  has_config = true;
  encoded = [];
}

abbrev old_install : Cutover machine
old_install = record {
  world = 0;
  files = old_files;
  claimed = record { owner = none; socket_drop_in = none };
  undo = [];
  discard = [];
  staged = none;
  had_tailscale = false;
  clobbered = false;
}

cut_over-Restores_example :
    ((cut_over machine plan old_install).1.files ≡ old_files)
    ⊎ ((cut_over machine plan old_install).1.clobbered ≡ true)
unfolding Run.install and_then move_old userctl systemctl commit_staged move_all unit_keys move
    attempt move_found same_key strip_privileges strip_found strip drop_attribute move_drop_in
    drop_in_found take_over claim Run.written set
cut_over-Restores_example = cut_over-Restores machine plan old_install (λ t. refl) refl refl

-- a file of the old directory
abbrev whole : String → OldFile
whole s = record {
  stat_error = none;
  regular = true;
  announced = size s;
  content = s;
  broken = none;
}

abbrev old_dir : Old
old_dir name =
    if str_eq name "requests/00.json"
    then opened (whole "{}")
    else if str_eq name "cache/a"
    then opened (whole "abcd")
    else absent

abbrev limits : OldLimits
limits = record {
  attempted_at = some (above 100);
  automatic_after = some (above 300);
  manual_after = some (above 200);
  paused = some false;
}

abbrev times : Times
times = record { last_attempt = above 100000; held_until = above 200000; retry_at = above 300000 }

request_state-times_example :
    (body : String) × ((l : OldLimits) × ((some limits ≡ some l) × InMilliseconds l times))
unfolding request_state limits_in optional read read_opened decoded_limits limits_of deadline
    wrapped max64
request_state-times_example = request_state-times old_dir (λ body. some limits) "00" times refl

-- one provider with a cache, and one that is downloaded
abbrev old_world : World
old_world = record {
  T = ℕ;
  yaml = λ s.
      some
        (record { providers = ("a", record { kind = "http"; path = "cache/a" }) ∷ []; rules = [] });
  Parsed = Unit;
  parse = λ s. some tt;
  downloads = λ d.
      record { name = "a"; of_rules = false; url = "https://a"; key = "proxy/a" }
      ∷ record { name = "b"; of_rules = false; url = "https://b"; key = "proxy/b" }
      ∷ [];
  build = λ d bodies. some no_profile;
  md5 = λ s. s;
  is_local = λ s. true;
  get = λ url limit t. (if ltb limit 2 then err "too large" else ok "xy", t);
}

get-Limited : Limited old_world
get-Limited url limit t b e = elim (Bool-cases (ltb limit 2)) [
  | inl small ↦ cc (rw small at e)
  | inr fits ↦ let same : "xy" ≡ b = cc (rw fits at e) in rw (sym same) (ground (arith, fits))
]

abbrev taken : Taken old_world old_dir
taken = (
  (
    record { body = "proxies: []"; providers = ("proxy/a", "abcd") ∷ ("proxy/b", "xy") ∷ [] },
    no_profile,
  ),
  4,
)

snapshot-budget_example : total taken.0.0.providers + taken.1 ≤ 10
unfolding snapshot read_snapshot parsed_snapshot file_body bodies_of provider_body read_path read
    read_opened or_cache or_get def_of put
snapshot-budget_example =
    snapshot-budget old_world old_dir "proxies: []" 10 0 taken get-Limited refl

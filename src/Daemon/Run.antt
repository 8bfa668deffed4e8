-- ===== src/Daemon/Run.antt =====
-- internal/daemon/ops.go: starting, stopping and reconfiguring the proxy. A call that returns an
-- error returns `some`; `direct` is the `initialDownload` of the context.
pub mod Apply
pub mod Start
use omihomo.Base.{
  ℕ, String, Bool, true, false, not, ◌&&◌, ◌||◌, ◌≡◌, arith, List, [], ◌∷◌, any, Option, none, some,
  str_eq, if◌then◌else◌, append, codes,
}
use mathlib.Core.Logic.{ite}
use omihomo.Protocol.{
  Code, Error, core_failed, rejected, not_running, not_found, fetch_failed, internal, conflict,
  stopped, starting, on, Settings, Entries, prune_categories, Settings-discrete, Entries-discrete,
}
use omihomo.Engine.{
  Engine, Config, Profile, Failure, Except, good, bad, err_invalid, err_not_running, err_not_found,
  err_stopped, deadline_exceeded,
}
use omihomo.Daemon.State.{Stored, Subscription, Snapshot, Outside, Server, Disk}
use omihomo.Daemon.Compile.{run_config}
use omihomo.Daemon.Publish.{fail, plain, active_sub, publish, is_running, set_state}
use omihomo.Daemon.Geodata.{ensure_geodata}
use omihomo.Daemon.Check.{check_settings}
use omihomo.Daemon.Check.Rules.{check_rules}

-- `coreError`
unfoldable pub core_error : Failure → Error
core_error f =
    if f.is err_invalid
    then fail rejected f.message
    else if f.is err_not_running
    then fail not_running "the proxy is not running"
    else if f.is err_not_found
    then fail not_found f.message
    else if f.is deadline_exceeded
    then fail core_failed "timed out"
    else fail core_failed f.message

-- `errors.Join`
abbrev pub join_failures : Option Failure → Option Failure → Option Failure
join_failures none y = y
join_failures (some x) none = some x
join_failures (some x) (some y) = some (record {
  message = append x.message (append "\n" y.message);
  is = λ t. x.is t || y.is t;
  status = none;
})

abbrev pub with_host_error : Error → Option Failure → Error
with_host_error x none = x
with_host_error x (some f) = record x {
  message = append x.message (append "; restore Tailscale integration: " f.message);
}

abbrev pub sub_file : String
sub_file = "subscriptions.json"

abbrev pub settings_file : String
settings_file = "settings.json"

-- a stored snapshot by the id of its subscription
unfoldable pub lookup_snapshot : String → List (String × Snapshot) → Option Snapshot
lookup_snapshot id [] = none
lookup_snapshot id ((k, v) ∷ m) = if str_eq k id then some v else lookup_snapshot id m

abbrev pub same_bool : Bool → Bool → Bool
same_bool true b = b
same_bool false b = not b

pub same_bool_lem : (a b : Bool) → same_bool a b ≡ true → a ≡ b
same_bool_lem a b h = ground arith

abbrev unreadable : Failure → String
unreadable f = append "the active subscription could not be read: " f.message

module _ {e : Engine} {o : Outside} where
  -- `loadProfile`
  unfoldable pub load_profile : Subscription → Server e o → Except Profile
  load_profile sub s = elim (lookup_snapshot sub.id s.disk.snapshots) [
    | none ↦ bad (plain "the content is not stored")
    | some snap ↦ elim (o.read snap.body) [ bad f ↦ bad f | good doc ↦ o.build doc snap.providers ]
  ]

  -- `saveSettings`
  unfoldable pub save_settings : Stored → Server e o → Option Error × Server e o
  save_settings next s =
      let (x, t) = o.write_fault settings_file s.outside in
      elim x [
        | none ↦ (
          none,
          record s { outside = t; disk = record s.disk { settings = next }; settings = next },
        )
        | some f ↦ (
          some (fail internal (append "the settings could not be saved: " f.message)),
          record s { outside = t },
        )
      ]

  unfoldable pub save_running : Bool → Server e o → Option Error × Server e o
  unfolding save_settings
  save_running up s =
      if same_bool s.settings.running up
      then (none, s)
      else save_settings (record s.settings { running = up }) s

  -- `core.Apply` and `core.Check` on the state of the engine
  unfoldable pub engine_apply : Config → Server e o → Option Failure × Server e o
  engine_apply c s = let (x, t) = e.apply c s.engine in (x, record s { engine = t })

  unfoldable pub engine_check : Config → Server e o → Option Failure × Server e o
  engine_check c s = let (x, t) = e.check c s.engine in (x, record s { engine = t })

  -- the geodata that a config needs, and then `core.Apply`
  unfoldable pub prepare_apply : Bool → Config → Server e o → Option Failure × Server e o
  unfolding engine_apply
  prepare_apply direct c s =
      let (x, s') = ensure_geodata direct c.profile s in
      elim x [ none ↦ engine_apply c s' | some f ↦ (some f, s') ]

  -- a stop that failed, shown to the clients
  abbrev give_up : Error → String → Server e o → Option Error × Server e o
  give_up x detail s = (some x, publish (set_state stopped detail s))

  -- the rest of `startLocked`, once the profile is the active one
  unfoldable pub start_engine : Bool → Server e o → Option Error × Server e o
  start_engine direct s =
      let s1 = publish (set_state starting "" s) in
      let (x, s2) = prepare_apply direct (run_config s1.settings s1.profile) s1 in
      elim x [
        | none ↦ (none, publish (set_state on "" s2))
        | some f ↦ give_up (core_error f) f.message s2
      ]

  -- the profile of the active subscription, read again
  unfoldable pub start_profile : Bool → Server e o → Option Error × Server e o
  start_profile direct s = elim (active_sub s.subs) [
    | none ↦ start_engine direct s
    | some sub ↦ elim (load_profile sub s) [
      | bad f ↦ give_up (fail rejected (unreadable f)) (unreadable f) s
      | good p ↦ start_engine direct (record s { profile = p })
    ]
  ]

  -- `startLocked`
  unfoldable pub start_locked : Bool → Server e o → Option Error × Server e o
  start_locked direct s0 =
      let s = record s0 { restore_pending = false } in
      if is_running s then (none, s) else elim (check_settings s.settings.settings) [
        | some x ↦ give_up x x.message s
        | none ↦ elim (check_rules o s.settings.rules) [
          | some x ↦ give_up x x.message s
          | none ↦ start_profile direct s
        ]
      ]

  unfoldable pub start : Server e o → Option Error × Server e o
  start s =
      let (x, s') = start_locked false s in
      elim x [ some f ↦ (some f, s') | none ↦ save_running true s' ]

  unfoldable pub stop : Server e o → Option Error × Server e o
  stop s0 =
      let s = record s0 { restore_pending = false } in
      let (x, t) = e.stop s.engine in
      let s' = record s { engine = t } in
      elim x [
        | some f ↦ (some (core_error f), s')
        | none ↦ save_running false (publish (set_state stopped "" s'))
      ]

  -- `retryRestore`
  unfoldable pub retry_restore : Server e o → Server e o
  retry_restore s =
      let (x, s') = start_locked false s in
      if s.restore_pending
      then (elim x [ none ↦ s' | some f ↦ record s' { restore_pending = true } ])
      else s

  -- the geodata that a config needs, and then `core.Check`; the code is that of a refused config
  unfoldable pub check_config : Code → Bool → Config → Server e o → Option Error × Server e o
  unfolding engine_check
  check_config code direct c s =
      let (x, s') = ensure_geodata direct c.profile s in
      let (y, s'') = engine_check c s' in
      elim x [
        | some f ↦ (some (fail fetch_failed f.message), s')
        | none ↦ elim y [
          | some f ↦ (some (fail code (append "the core would not run it: " f.message)), s'')
          | none ↦ (none, s'')
        ]
      ]

  -- `reapply` while the proxy runs
  unfoldable pub reapply_running : Bool → Config → Server e o → Option Error × Server e o
  reapply_running direct c s =
      let (x, s') = prepare_apply direct c s in
      elim x [
        | none ↦ (none, s')
        | some f ↦ (
          some (core_error f),
          if f.is err_stopped then publish (set_state stopped f.message s') else s',
        )
      ]

  unfoldable pub reapply : Bool → Stored → Profile → Server e o → Option Error × Server e o
  reapply direct next p s =
      if not (is_running s)
      then check_config core_failed direct (run_config next p) s
      else reapply_running direct (run_config next p) s

  unfoldable pub rollback : Bool → Stored → Profile → Server e o → Bool × Server e o
  rollback direct prev p s =
      let (x, s') = reapply direct prev p s in
      if not (is_running s)
      then (true, s)
      else (elim x [ none ↦ (true, s') | some f ↦ (false, s') ])

  unfoldable pub accept_content :
      Bool → Stored → Profile → Bool → Server e o → Option Error × Server e o
  accept_content direct st p runs s =
      if runs && is_running s
      then reapply direct st p s
      else check_config rejected direct (run_config st p) s

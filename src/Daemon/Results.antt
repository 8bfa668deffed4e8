-- ===== src/Daemon/Results.antt =====
-- How the calls that start, stop and reconfigure the proxy turn out: the cases of each result.
use omihomo.Base.{Bool, true, false, none, some, ◌≡◌, ◌⊎◌, inl, inr, arith, refl}
use omihomo.Protocol.{Error, Settings, Entries, stopped, prune_categories}
use omihomo.Engine.{Config, Engine, Contract, Profile}
use omihomo.Daemon.State.{Outside, NoFalseStop, Stored, Server}
use omihomo.Daemon.Compile.{run_config}
use omihomo.Daemon.Publish.{is_up, is_running}
use omihomo.Daemon.Check.{check_settings}
use omihomo.Daemon.Check.Rules.{check_rules}
use omihomo.Daemon.Agrees.{RunsAs, Agrees}
use omihomo.Daemon.Run.{start, stop, retry_restore, reapply, rollback}
use omihomo.Daemon.Run.Apply.{reapply_running-Turns}
use omihomo.Daemon.Run.Start.{start_lem, stop_lem, retry_restore_lem}
use omihomo.Daemon.Commit.{missing_destination, commit_settings, apply}
use omihomo.Daemon.Commit.Keeps.{commit_settings-Committed, apply_lem}

module _ {e : Engine} {o : Outside} (c : Contract e) (h : NoFalseStop o) where
  -- Where `start` succeeds, on a daemon that agrees with its engine, the proxy is up, the engine runs
  -- what the settings and the profile ask for, and the proxy is recorded as on.
  pub start-up :
      (s : Server e o)
      → Agrees c s
      → (start s).0 ≡ none
      → (is_up (start s).1.state ≡ true)
        × (c.runs (start s).1.engine ≡ some (run_config (start s).1.settings (start s).1.profile))
        × ((start s).1.settings.running ≡ true)
  start-up s a x =
      let r = start_lem c h s a in
      let u = (r.1 x).0 in (u, ground (arith, r.0.runs_it, u), (r.1 x).1)

  -- Where `stop` succeeds, on a daemon that agrees with its engine, the proxy is stopped, the engine
  -- runs nothing, and the proxy is recorded as off.
  pub stop-down :
      (s : Server e o)
      → Agrees c s
      → (stop s).0 ≡ none
      → ((stop s).1.state ≡ stopped)
        × (c.runs (stop s).1.engine ≡ none)
        × ((stop s).1.settings.running ≡ false)
  stop-down s a x = (stop_lem c h s a).1 x

  -- Where a restore is pending, on a daemon that agrees with its engine, the proxy is up after
  -- `retryRestore` or the restore is still pending.
  pub retry_restore-pending :
      (s : Server e o)
      → Agrees c s
      → s.restore_pending ≡ true
      → (is_up (retry_restore s).state ≡ true) ⊎ ((retry_restore s).restore_pending ≡ true)
  retry_restore-pending s a x = (retry_restore_lem c h s a).2 x

  -- While the proxy is up and the engine runs `old`, `reapply` returns no error, the proxy is up and the
  -- engine runs what `next` and `p` ask for; or it returns an error, the proxy is up and the engine runs
  -- `old`; or it returns an error, the proxy is shown stopped and the engine runs nothing.
  pub reapply-outcome :
      (old : Config) (direct : Bool) (next : Stored) (p : Profile) (s : Server e o)
      → is_up s.state ≡ true
      → c.runs s.engine ≡ some old
      → (((reapply direct next p s).0 ≡ none)
          × (is_up (reapply direct next p s).1.state ≡ true)
          × (c.runs (reapply direct next p s).1.engine ≡ some (run_config next p)))
        ⊎ ((x : Error) × ((reapply direct next p s).0 ≡ some x)
            × (is_up (reapply direct next p s).1.state ≡ true)
            × (c.runs (reapply direct next p s).1.engine ≡ some old))
        ⊎ ((x : Error) × ((reapply direct next p s).0 ≡ some x)
            × ((reapply direct next p s).1.state ≡ stopped)
            × (c.runs (reapply direct next p s).1.engine ≡ none))
  unfolding reapply is_running
  reapply-outcome old direct next p s up ran =
      rw up (reapply_running-Turns c h old direct next p s up ran)

  -- While the proxy is up and the engine runs `old`, `rollback` says yes and the engine runs what `prev`
  -- and `p0` ask for; or it says no, the proxy is up and the engine runs `old`; or it says no, the proxy
  -- is shown stopped and the engine runs nothing.
  pub rollback-outcome :
      (old : Config) (direct : Bool) (prev : Stored) (p0 : Profile) (s : Server e o)
      → is_up s.state ≡ true
      → c.runs s.engine ≡ some old
      → (((rollback direct prev p0 s).0 ≡ true)
          × (is_up (rollback direct prev p0 s).1.state ≡ true)
          × (c.runs (rollback direct prev p0 s).1.engine ≡ some (run_config prev p0)))
        ⊎ (((rollback direct prev p0 s).0 ≡ false)
            × (is_up (rollback direct prev p0 s).1.state ≡ true)
            × (c.runs (rollback direct prev p0 s).1.engine ≡ some old))
        ⊎ (((rollback direct prev p0 s).0 ≡ false)
            × ((rollback direct prev p0 s).1.state ≡ stopped)
            × (c.runs (rollback direct prev p0 s).1.engine ≡ none))
  unfolding rollback is_running
  rollback-outcome old direct prev p0 s up ran =
      rw up (elim (reapply-outcome old direct prev p0 s up ran) [
        | inl (x, still, r) ↦ rw x (inl (refl, still, r))
        | inr (inl (f, x, still, r)) ↦ rw x (inr (inl (refl, still, r)))
        | inr (inr (f, x, down, r)) ↦ rw x (inr (inr (refl, down, r)))
      ])

  -- Where `commitSettings` succeeds, on a daemon that agrees with its engine, the new settings are
  -- those in memory and on disk, and the engine runs what they ask for, or nothing where the proxy is
  -- down.
  pub commit_settings-done :
      (next : Stored) (s : Server e o)
      → Agrees c s
      → (commit_settings next s.profile s).0 ≡ none
      → ((commit_settings next s.profile s).1.settings ≡ next)
        × ((commit_settings next s.profile s).1.disk.settings ≡ next)
        × RunsAs c next
            (commit_settings next s.profile s).1.profile
            (commit_settings next s.profile s).1
  commit_settings-done next s a x =
      let r = commit_settings-Committed c h next s a in
      let k = r.done x in (k, r.written x, ground (arith, r.agrees.runs_it, k))

  -- `commitSettings` leaves the daemon and the engine in agreement, also where the integration of the
  -- host, the engine or the disk fails and where the way back fails too.
  pub commit_settings-Agrees :
      (next : Stored) (s : Server e o) → Agrees c s → Agrees c (commit_settings next s.profile s).1
  commit_settings-Agrees next s a = (commit_settings-Committed c h next s a).agrees

  -- Where `apply` succeeds, on a daemon that agrees with its engine, the settings and the rules were
  -- accepted, their DNS destination exists, and they are the daemon's, the empty categories left out.
  pub apply-done :
      (new : Settings) (rules : Entries) (s : Server e o)
      → Agrees c s
      → (apply new rules s).0 ≡ none
      → ((apply new rules s).1.settings
          ≡ record s.settings { settings = new; rules = prune_categories rules })
        × (check_settings new ≡ none)
        × (check_rules o rules ≡ none)
        × (missing_destination new s.profile ≡ false)
  apply-done new rules s a x =
      let r = apply_lem c h new rules s a in let k = r.checked x in (r.done x, k.0, k.1, k.2)

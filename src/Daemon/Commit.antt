-- ===== src/Daemon/Commit.antt =====
-- internal/daemon/ops.go: `commitSettings` and `apply`, a change of the owner's settings, with the
-- Tailscale integration of the host and the way back when something fails.
pub mod Keeps
use omihomo.Base.{
  ℕ, String, Bool, true, false, not, ◌&&◌, ◌||◌, List, [], ◌∷◌, any, Option, none, some, str_eq,
  if◌then◌else◌, append, codes,
}
use mathlib.Core.Logic.{ite}
use omihomo.Protocol.{
  Error, core_failed, not_found, conflict, Settings, Entries, prune_categories, Settings-discrete,
  Entries-discrete,
}
use omihomo.Engine.{Engine, Profile, Failure}
use omihomo.Daemon.State.{Stored, Outside, Server}
use omihomo.Daemon.Publish.{fail, publish}
use omihomo.Daemon.Check.{check_settings}
use omihomo.Daemon.Check.Rules.{check_rules}
use omihomo.Daemon.Run.{same_bool, join_failures, with_host_error, save_settings, reapply, rollback}

abbrev integration_failed : Failure → Error
integration_failed f = fail core_failed (append "Tailscale integration failed: " f.message)

-- whether the profile lacks the DNS destination that the settings name
unfoldable pub missing_destination : Settings → Profile → Bool
unfolding any
missing_destination new p =
    not (str_eq new.dns_destination "")
    && (str_eq new.dns_destination "GLOBAL"
        || not (
            any (λ g. str_eq g.name new.dns_destination) p.groups
            || any (λ x. str_eq x.name new.dns_destination) p.proxies))

module _ {e : Engine} {o : Outside} where
  abbrev set_outside : Option Failure × o.T → Server e o → Option Failure × Server e o
  set_outside (x, t) s = (x, record s { outside = t })

  -- `syncHost`
  unfoldable pub sync_host : Bool → Server e o → Option Failure × Server e o
  sync_host up s = elim o.tailscale_sync [
    | none ↦ (none, s)
    | some sync ↦ set_outside (sync up s.outside) s
  ]

  -- `syncHost` where `cond` holds, joined to an error from before
  unfoldable pub sync_if : Bool → Bool → Option Failure → Server e o → Option Failure × Server e o
  unfolding sync_host
  sync_if cond up before s =
      let (x, s') = sync_host up s in if cond then (join_failures before x, s') else (before, s)

  -- `revert` of `commitSettings`
  unfoldable pub revert : Error → Stored → Stored → Profile → Server e o → Option Error × Server e o
  revert failure prev next p s =
      let was = prev.settings.tailscale in
      let changed = not (same_bool next.settings.tailscale was) in
      let (x1, s1) = sync_if (changed && not was) false none s in
      let (restored, s2) = rollback false prev p s1 in
      let (x3, s3) = sync_if (changed && was) true x1 s2 in
      let (x4, s4) = sync_if changed next.settings.tailscale x3 (record s3 { settings = next }) in
      if restored
      then (some (with_host_error failure x3), s3)
      else (some (with_host_error failure x4), s4)

  -- the end of `commitSettings`: the integration is turned on, and the settings are saved
  unfoldable pub finish_commit :
      Stored → Stored → Profile → Bool → Server e o → Option Error × Server e o
  finish_commit prev next p turn_on s =
      let (x, s') = sync_if turn_on true none s in
      let (y, s'') = save_settings next s' in
      elim x [
        | some f ↦ revert (integration_failed f) prev next p s'
        | none ↦ elim y [ none ↦ (none, s'') | some z ↦ revert z prev next p s'' ]
      ]

  unfoldable pub commit_settings : Stored → Profile → Server e o → Option Error × Server e o
  commit_settings next p s =
      let prev = s.settings in
      let was = prev.settings.tailscale in
      let up = next.settings.tailscale in
      let changed = not (same_bool up was) in
      let (x, s1) = sync_if (changed && not up) false none s in
      let (y, s2) = reapply false next p s1 in
      let (z, s3) = sync_if (changed && not up) was none s2 in
      elim x [
        | some f ↦ (some (integration_failed f), s1)
        | none ↦ elim y [
          | some x' ↦ (some (with_host_error x' z), s3)
          | none ↦ finish_commit prev next p (changed && up) s2
        ]
      ]

  -- `apply`
  unfoldable pub apply : Settings → Entries → Server e o → Option Error × Server e o
  apply new rules0 s =
      let old = s.settings.settings in
      let rules = prune_categories rules0 in
      let (x, s') =
        commit_settings (record s.settings { settings = new; rules = rules }) s.profile s in
      elim (check_settings new) [
        | some y ↦ (some y, s)
        | none ↦ elim (check_rules o rules0) [
          | some y ↦ (some y, s)
          | none ↦
              if missing_destination new s.profile
              then (
                some (
                    fail not_found (
                      append "DNS destination " (
                        append (o.quote (codes new.dns_destination))
                          " is unavailable in the active subscription"))),
                s,
              )
              else if (new.tailscale && not old.tailscale
                    || new.tailnet_proxy && not old.tailnet_proxy)
                  && not (o.tailscale_present s.outside)
              then (some (fail conflict "tailscaled is not installed"), s)
              else ite (Settings-discrete new old)
                  (ite (Entries-discrete rules s.settings.rules) (none, s)
                    (elim x [ none ↦ (none, publish s') | some y ↦ (some y, s') ]))
                  (elim x [ none ↦ (none, publish s') | some y ↦ (some y, s') ])
        ]
      ]

-- ===== src/Cli/Cutover/Run.antt =====
-- internal/cli/cutover.go: `run`, from the stop of the services on, and its deferred function.
use Prim.Native.String.{String}
use omihomo.Base.{Bool, true, false, ◌&&◌, List, [], ◌∷◌, ◌++◌, Option, none, some, append}
use omihomo.Migration.Install
use omihomo.Migration.Install.{Host, Errors, Import}
use omihomo.Cli.Cutover.{
  Key, system, home, config, Node, Files, set, Undo, remove_if_there, revert, Machine, Cutover,
  Outcome, attempt, pushed, move, and_then, move_all, strip_privileges,
}
use omihomo.Cli.Cutover.Write.{write_settings}

-- what `run` has found before it changes anything: the old units and those of them that run, and what
-- `settings.Encode` makes of the import's settings
pub record Plan : Type 0 where
  pub units : List String
  pub active : List String
  pub running : Bool
  pub remove_launcher : Bool
  pub has_config : Bool
  pub encoded : List (String × String)

abbrev pub drop_in : Key
drop_in = record { root = system; name = "etc/systemd/system/tailscaled.service.d/omihomo.conf" }

abbrev pub launcher : Key
launcher = record { root = home; name = ".local/bin/omihomo" }

abbrev pub hooks : List Key
hooks =
    record { root = system; name = "usr/share/libalpm/hooks/omihomo-permissions.hook" }
    ∷ record { root = system; name = "usr/share/libalpm/hooks/omihomo-capabilities.hook" }
    ∷ []

abbrev pub services : List String
services = "omihomo.service" ∷ "omihomo.socket" ∷ []

abbrev pub unit_key : String → String → Key
unit_key dir unit = record { root = config; name = append dir unit }

-- where a unit may stand
unfoldable pub unit_keys : List String → List Key
unit_keys [] = []
unit_keys (u ∷ us) =
    unit_key "systemd/user/" u
    ∷ unit_key "systemd/user/default.target.wants/" u
    ∷ unit_key "systemd/user/timers.target.wants/" u
    ∷ unit_keys us

abbrev pub errors_of : Option String → Errors
errors_of none = []
errors_of (some why) = why ∷ []

module _ (m : Machine) where
  unfoldable pub systemctl : List String → Cutover m → Outcome m
  systemctl args c = let (x, t) = m.systemctl args c.world in (errors_of x, record c { world = t })

  unfoldable pub userctl : List String → Cutover m → Outcome m
  userctl args c = let (x, t) = m.userctl args c.world in (errors_of x.1, record c { world = t })

  abbrev pub only_if : Bool → (Cutover m → Outcome m) → Cutover m → Outcome m
  only_if true f c = f c
  only_if false f c = ([], c)

  abbrev pub any_of : List String → Bool
  any_of [] = false
  any_of (u ∷ us) = true

  -- `Commit` of the import, and the settings files
  unfoldable pub commit_staged : Cutover m → Outcome m
  commit_staged c = elim c.staged [
    | none ↦ ([], c)
    | some i ↦
        let r = Install.commit m.host (record i { world = c.world }) in
        (r.0, record c { world = r.1.world; staged = some r.1 })
  ]

  abbrev pub is_staged : Cutover m → Bool
  is_staged c = elim c.staged [ none ↦ false | some i ↦ true ]

  -- the drop-in of tailscaled is moved away, or what the claim writes is to be removed
  unfoldable pub drop_in_found : Option Node → Cutover m → Outcome m
  drop_in_found (some v) c = move m drop_in (record c { had_tailscale = true })
  drop_in_found none c = ([], pushed m (remove_if_there drop_in) c)

  unfoldable pub move_drop_in : Cutover m → Outcome m
  move_drop_in c = attempt m "lstat" drop_in (λ d. drop_in_found (d.files drop_in) d) c

  -- what a call that may write the drop-in of tailscaled leaves
  unfoldable pub written : (Option String × Option Node) × m.host.T → Cutover m → Outcome m
  written ((x, v), t) c = (errors_of x, record c { world = t; files = set drop_in v c.files })

  -- `claim`
  unfoldable pub claim : Cutover m → Outcome m
  claim c =
      let ((x, v, o), t) = m.claim c.claimed c.world in
      written ((x, v), t) (record c { claimed = o })

  unfoldable pub apply : Cutover m → Outcome m
  apply c = written (m.apply c.world) c

  unfoldable pub check : Bool → Cutover m → Outcome m
  check running c = written (m.check running c.world) c

  -- the steps up to the claim
  unfoldable pub move_old : Plan → Cutover m → Outcome m
  move_old p c = and_then m (only_if (any_of p.units) (userctl ("stop" ∷ p.units)) c) (λ c1.
      and_then m (commit_staged c1) (λ c2.
        and_then m (only_if (is_staged c2 && p.has_config) (write_settings m p.encoded) c2) (λ c3.
          and_then m (move_all m (unit_keys p.units) c3) (λ c4.
            and_then m (only_if (any_of p.units) (userctl ("daemon-reload" ∷ [])) c4) (λ c5.
              and_then m (move_all m hooks c5) (λ c6.
                and_then m (strip_privileges m c6)
                  (λ c7. only_if p.remove_launcher (move m launcher) c7)))))))

  -- the claim and what follows it
  unfoldable pub take_over : Plan → Cutover m → Outcome m
  take_over p c =
      and_then m (claim c)
        (λ d. and_then m (only_if (is_staged d && p.has_config) apply d) (check p.running))

  -- everything between the stop of the services and the deferred function
  unfoldable pub install : Plan → Cutover m → Outcome m
  install p c = and_then m (and_then m (move_old p c) move_drop_in) (take_over p)

  -- a step whose error is joined to those before it
  abbrev pub also : Outcome m → (Cutover m → Outcome m) → Outcome m
  also r f = let q = f r.1 in (r.0 ++ q.0, q.1)

  abbrev pub reverted : Option Files → Cutover m → Outcome m
  reverted none c = ("no such file or directory" ∷ [], c)
  reverted (some fs) c = ([], record c { files = fs })

  unfoldable pub undo_one : Undo → Cutover m → Outcome m
  undo_one u c = attempt m "undo" drop_in (λ d. reverted (revert u d.files) d) c

  -- the loop over `undo`, which goes on after an error
  unfoldable pub undo_all : List Undo → Cutover m → Outcome m
  undo_all [] c = ([], c)
  undo_all (u ∷ us) c = also (undo_one u c) (undo_all us)

  -- `Rollback` of the import
  unfoldable pub roll_back : Cutover m → Outcome m
  roll_back c = elim c.staged [
    | none ↦ ([], c)
    | some i ↦
        let r = Install.rollback m.host (record i { world = c.world }) in
        (r.0, record c { world = r.1.world; staged = some r.1 })
  ]

  -- steps that all run, whatever fails
  unfoldable pub join_all : List (Cutover m → Outcome m) → Outcome m → Outcome m
  join_all [] r = r
  join_all (f ∷ fs) r = join_all fs (also r f)

  -- what the deferred function does after the steps back
  abbrev pub last_steps : Plan → List (Cutover m → Outcome m)
  last_steps p =
      roll_back
      ∷ only_if (any_of p.units) (userctl ("daemon-reload" ∷ []))
      ∷ (λ d. only_if d.had_tailscale (systemctl ("daemon-reload" ∷ [])) d)
      ∷ (λ d. only_if d.had_tailscale (systemctl ("try-restart" ∷ "tailscaled.service" ∷ [])) d)
      ∷ only_if (any_of p.active) (userctl ("start" ∷ p.active))
      ∷ []

  -- the deferred function after an error
  unfoldable pub recover : Plan → Outcome m → Outcome m
  recover p r = join_all (systemctl ("stop" ∷ services) ∷ (λ c. undo_all c.undo c) ∷ last_steps p) r

  -- the loop over `discard`
  unfoldable pub discard_all : List Key → Cutover m → Outcome m
  discard_all [] c = ([], c)
  discard_all (k ∷ ks) c =
      also (attempt m "remove" k (λ d. ([], record d { files = set k none d.files })) c)
        (discard_all ks)

  abbrev finished : Cutover m → Cutover m
  finished c = elim c.staged [
    | none ↦ c
    | some i ↦ record c { staged = some (Install.finish m.host i) }
  ]

  -- the deferred function
  unfoldable pub settle : Plan → Outcome m → Outcome m
  settle p r = elim r.0 [ w ∷ ws ↦ recover p r | [] ↦ discard_all r.1.discard (finished r.1) ]

  -- `run` once the services are stopped, or are not
  unfoldable pub proceed : Plan → Errors → Cutover m → Outcome m
  proceed p [] c = settle p (install p c)
  proceed p (w ∷ ws) c = (w ∷ ws, c)

  -- `run`, from the stop of the services on
  unfoldable pub cut_over : Plan → Cutover m → Outcome m
  cut_over p c = let stopped = systemctl ("stop" ∷ services) c in proceed p stopped.0 stopped.1

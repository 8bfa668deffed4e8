-- ===== src/Cli/Cutover/Find.antt =====
-- internal/cli/cutover.go: `run` up to the stop of the services, and `oldLauncher`.
use Prim.Native.String.{String}
use omihomo.Base.{
  ℕ, Bool, true, false, not, List, [], ◌∷◌, ◌++◌, any, Option, none, some, str_eq, leb, ◌==◌,
  append, if◌then◌else◌,
}
use omihomo.Update.Transfer.{size}
use omihomo.Fetch.Causes.{contains}
use omihomo.Migration.Install.{Import}
use omihomo.Cli.Cutover.{
  Key, Node, file, link, directory, other, set, Machine, Cutover, Outcome, attempt, and_then,
}
use omihomo.Cli.Cutover.Run.{Plan, launcher, hooks, unit_key, only_if, any_of, claim, cut_over}

-- what `owner.Load` gives
pub data Owner : Type 0 where
  unclaimed : Owner
  owned : (uid : ℕ) → Owner
  unreadable : (why : String) → Owner

-- what `migration.Prepare` gives: nothing to import, an import with what `settings.Encode` makes of its
-- settings, or an error
pub data Prepared (m : Machine) : Type 0 where
  nothing : Prepared m
  ready : Import m.host → List (String × String) → Prepared m
  unprepared : (why : String) → Prepared m

-- the rest of the fields of `cutover`, and what its `run` calls
pub record Claimant (m : Machine) : Type 0 where
  pub uid : ℕ
  pub keep_owner : Bool
  pub has_config : Bool
  pub load_owner : m.host.T → Owner
  pub prepare : (running : Bool) → m.host.T → Prepared m × m.host.T

-- `oldUnits`
abbrev pub old_units : List String
old_units =
    "omihomo-subscription-update.timer" ∷ "omihomo-subscription-update.service"
    ∷ "omihomo-subscription-startup.service" ∷ "omihomo.service" ∷ []

abbrev marker : String
marker = "exec \"$OMIHOMO_ROOT/bin/omihomo\" \"$@\""

module _ (m : Machine) where
  abbrev unrecognized : Cutover m → Outcome m
  unrecognized c = (
    "the user omihomo launcher is unrecognized and shadows the packaged CLI; move it aside before claiming"
        ∷ [],
    c,
  )

  unfoldable pub launcher_found :
      (Bool → Cutover m → Outcome m) → Option Node → Cutover m → Outcome m
  launcher_found next none c = next false c
  launcher_found next (some link) c = next true c
  launcher_found next (some (file text mode cap acl)) c =
      if leb (size text) 4096
      then attempt m "open" launcher
          (attempt m "read" launcher
            (λ d. if contains marker text then next true d else unrecognized d))
          c
      else unrecognized c
  launcher_found next (some directory) c = unrecognized c
  launcher_found next (some other) c = unrecognized c

  -- `oldLauncher`; `next` is what follows it
  unfoldable pub old_launcher : (Bool → Cutover m → Outcome m) → Cutover m → Outcome m
  old_launcher next c = attempt m "lstat" launcher (λ d. launcher_found next (d.files launcher) d) c

  unfoldable pub is_active : String → (Bool → Cutover m → Outcome m) → Cutover m → Outcome m
  is_active unit next c =
      let (r, t) = m.userctl ("is-active" ∷ "--quiet" ∷ unit ∷ []) c.world in
      let d = record c { world = t } in
      elim r.1 [ some why ↦ (append "inspect old user service: " why ∷ [], d) | none ↦ next r.0 d ]

  -- the loop over the units: those that are there, and those of them that run
  unfoldable pub find_units :
      List String
      → (units active : List String) → (List String → List String → Cutover m → Outcome m)
      → Cutover m
      → Outcome m
  find_units [] units active next c = next units active c
  find_units (u ∷ us) units active next c =
      let rest = find_units us in
      attempt m "lstat" (unit_key "systemd/user/" u)
        (λ d. elim (d.files (unit_key "systemd/user/" u)) [
          | none ↦ rest units active next d
          | some v ↦
              is_active u
                (λ on e. rest (units ++ u ∷ []) (if on then active ++ u ∷ [] else active) next e) d
        ])
        c

  -- the loop over the hooks
  unfoldable pub find_hooks :
      List Key → Bool → (Bool → Cutover m → Outcome m) → Cutover m → Outcome m
  find_hooks [] legacy next c = next legacy c
  find_hooks (k ∷ ks) legacy next c =
      let rest = find_hooks ks in
      attempt m "lstat" k
        (λ d. elim (d.files k) [ none ↦ rest legacy next d | some v ↦ rest true next d ]) c

  -- the claim where there is nothing old but a launcher
  unfoldable pub claim_only : Bool → Cutover m → Outcome m
  claim_only remove_launcher c = and_then m (claim m c) (
      only_if m remove_launcher
        (attempt m "remove" launcher (λ d. ([], record d { files = set launcher none d.files }))))

  abbrev pub closed : Outcome m → Outcome m
  closed (errors, c) = elim c.staged [
    | none ↦ (errors, c)
    | some i ↦ (errors, record c { staged = some (record i { staged = none }) })
  ]

  module _ (a : Claimant m) where
    -- `run` once the import is prepared
    unfoldable pub run_prepared : Plan → Prepared m → Cutover m → Outcome m
    run_prepared p (unprepared why) c =
        (append "prepare migration (old install unchanged): " why ∷ [], c)
    run_prepared p nothing c =
        find_hooks hooks (any_of m p.units)
          (λ legacy d. if legacy then cut_over m p d else claim_only p.remove_launcher d) c
    run_prepared p (ready i encoded) c = closed (
        find_hooks hooks true (λ legacy. cut_over m (record p { encoded = encoded }))
          (record c { staged = some i }))

    unfoldable pub run_found : List String → List String → Cutover m → Outcome m
    run_found units active c =
        let running = any (λ u. str_eq u "omihomo.service") active in
        old_launcher
          (λ remove_launcher d.
            let (import_, t) = a.prepare running d.world in
            run_prepared
              (record {
                units = units;
                active = active;
                running = running;
                remove_launcher = remove_launcher;
                has_config = a.has_config;
                encoded = [];
              })
              import_ (record d { world = t }))
          c

    unfoldable pub run_units : Cutover m → Outcome m
    run_units c = if a.has_config then find_units old_units [] [] run_found c else run_found [] [] c

    unfoldable pub run_owned : Owner → Cutover m → Outcome m
    run_owned (unreadable why) c = (why ∷ [], c)
    run_owned unclaimed c = run_units c
    run_owned (owned uid) c =
        if not (uid == a.uid)
        then (
          "another account owns this installation; run claim without --keep-owner to transfer ownership explicitly"
              ∷ [],
          c,
        )
        else run_units c

    -- `run`
    unfoldable pub run : Cutover m → Outcome m
    run c = if a.keep_owner then run_owned (a.load_owner c.world) c else run_units c

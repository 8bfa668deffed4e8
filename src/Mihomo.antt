-- ===== src/Mihomo.antt =====
-- internal/core/mihomo/core.go: how the engine over mihomo applies a config, goes back to the previous
-- one, and stops. mihomo itself, and what turns a config into mihomo's, are parameters.
pub mod Promises
pub mod Rules
pub mod Groups
use omihomo.Base.{
  ℕ, ◌+◌, String, Bool, true, false, not, ◌&&◌, ◌||◌, List, Option, none, some, if◌then◌else◌,
  append,
}
use omihomo.Engine.{Config, Failure, Except, good, bad, Sentinel, err_invalid, err_stopped}

-- What `Core` calls outside itself: `T` is the state of mihomo in this process.
pub record Host : Type 1 where
  pub T : Type 0
  -- whether the build has the gVisor stack
  pub gvisor : Bool
  -- `prepare`, whose result is a `runtime` of the config
  pub Parsed : Type 0
  pub prepare : Config → T → Except Parsed
  -- `executor.ApplyConfig` in `run`, and what `started` finds wrong afterwards
  pub bring_up : Parsed → T → Option Failure × T
  -- the stopped config in `stop`, and `closeAll`
  pub bring_down : T → T
  -- `reloadDatabases`
  pub reload_databases : T → T

-- `Core`: what runs, and the state of mihomo
pub record Core (h : Host) : Type 0 where
  pub host : h.T
  pub running : Bool
  pub current : Config
  pub generation : ℕ

abbrev is_invalid : Sentinel → Bool
is_invalid err_invalid = true
is_invalid _ = false

abbrev is_stopped : Sentinel → Bool
is_stopped err_stopped = true
is_stopped _ = false

-- `fmt.Errorf("%w: %w", core.ErrInvalid, err)`
abbrev pub invalid_config : Failure → Failure
invalid_config f = record f {
  message = append "invalid proxy configuration: " f.message;
  is = λ t. is_invalid t || f.is t;
}

-- the error of `Apply` when neither config runs
abbrev pub lost : Failure → Failure → Failure
lost f g = record f {
  message = append f.message (
      append "; the previous config did not come back either ("
        (append g.message "): the proxy stopped"));
  is = λ t. f.is t || is_stopped t;
}

abbrev pub no_gvisor : Failure
no_gvisor = record {
  message = "TUN without redirect needs the gVisor stack, which this build lacks";
  is = λ _. false;
  status = none;
}

-- the test that `Apply` and `Check` begin with
abbrev pub lacks_gvisor : Host → Config → Bool
lacks_gvisor h cfg = cfg.tun && not cfg.tun_redirect && not h.gvisor

module _ {h : Host} (no_config : Config) where
  -- `commit`
  abbrev pub commit : Config → Core h → Core h
  commit cfg c = record c { running = true; current = cfg; generation = c.generation + 1 }

  -- `run`, for a config that was prepared
  unfoldable pub run : Config → h.Parsed → Core h → Option Failure × Core h
  run cfg p c =
      let (x, t) = h.bring_up p c.host in
      let c' = record c { host = t } in
      elim x [ some f ↦ (some f, c') | none ↦ (none, commit cfg c') ]

  -- `stop`
  unfoldable pub stop_now : Core h → Core h
  stop_now c = record c {
    host = h.bring_down c.host;
    running = false;
    current = no_config;
    generation = c.generation + 1;
  }

  -- `restore`
  unfoldable pub restore : Config → Core h → Option Failure × Core h
  restore previous c =
      let c1 = stop_now c in
      elim (h.prepare previous c1.host) [
        | bad f ↦ (some f, stop_now c1)
        | good p ↦
            let (x, c2) = run previous p c1 in
            elim x [ some f ↦ (some f, stop_now c2) | none ↦ (none, c2) ]
      ]

  -- the end of `Apply`, for a run that failed
  unfoldable pub recover : Failure → Bool → Config → Core h → Option Failure × Core h
  recover f was_running previous c =
      let (x, c') = restore previous c in
      if not was_running
      then (some f, stop_now c)
      else (elim x [ some g ↦ (some (lost f g), c') | none ↦ (some f, c') ])

  -- `Apply` once the config is prepared
  unfoldable pub apply_prepared : Config → h.Parsed → Core h → Option Failure × Core h
  apply_prepared cfg p c0 =
      let c = if not c0.running then record c0 { host = h.reload_databases c0.host } else c0 in
      let (x, c') = run cfg p c in
      elim x [ some f ↦ recover f c0.running c0.current c' | none ↦ (none, c') ]

  -- `Apply`
  unfoldable pub apply : Config → Core h → Option Failure × Core h
  apply cfg c = if lacks_gvisor h cfg then (some no_gvisor, c) else elim (h.prepare cfg c.host) [
    | bad f ↦ (some (invalid_config f), c)
    | good p ↦ apply_prepared cfg p c
  ]

  -- `Check`, whose parse leaves the running engine alone
  unfoldable pub check : Config → Core h → Option Failure × Core h
  check cfg c =
      if lacks_gvisor h cfg
      then (some no_gvisor, c)
      else elim (h.prepare cfg c.host) [ bad f ↦ (some f, c) | good p ↦ (none, c) ]

  -- `Stop`
  unfoldable pub stop : Core h → Option Failure × Core h
  stop c = (none, stop_now c)

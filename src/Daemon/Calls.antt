-- ===== src/Daemon/Calls.antt =====
-- internal/daemon/ops.go and downloads.go: the requests that go on to the engine, and the owner's
-- answer to a pending download.
use omihomo.Base.{
  String, Bool, true, false, List, [], ◌∷◌, Option, none, some, any, find, str_eq, if◌then◌else◌,
  append, codes, ℕ,
}
use omihomo.Protocol.{Error, invalid, not_found}
use omihomo.Engine.{Engine, Except, good, bad, LiveGroup}
use omihomo.Daemon.State.{Outside, Server}
use omihomo.Daemon.Publish.{fail, publish}
use omihomo.Daemon.Geodata.{drop_pending}
use omihomo.Daemon.Check.{valid_name, valid_names, ◌or_else◌}
use omihomo.Daemon.Run.{core_error}

-- what a request gives its client
pub data Reply (A : Type 0) : Type 0 where
  reply : A → Reply A
  error : Error → Reply A

-- the group that `selectProxy` replies with: the one it asked for, as it is now
unfoldable pub group_reply : (o : Outside) → String → Except (List LiveGroup) → Reply LiveGroup
group_reply o name (bad f) = error (core_error f)
group_reply o name (good gs) = elim (find (λ g. str_eq g.name name) gs) [
  | some g ↦ reply g
  | none ↦ error (fail not_found (append "group " (append (o.quote (codes name)) " is gone")))
]

module _ {e : Engine} {o : Outside} where
  -- a call of the engine that changes its state
  abbrev with_engine : e.T → Server e o → Server e o
  with_engine t s = record s { engine = t }

  -- `selectProxy`
  unfoldable pub select_proxy : String → String → Server e o → Reply LiveGroup × Server e o
  select_proxy group proxy s =
      let (x, t) = e.select group proxy s.engine in
      let s1 = publish (with_engine t s) in
      elim (valid_name "group" group or_else valid_name "proxy" proxy) [
        | some y ↦ (error y, s)
        | none ↦ elim x [
          | some f ↦ (error (core_error f), with_engine t s)
          | none ↦ (group_reply o group (e.groups s1.engine), s1)
        ]
      ]

  -- `testDelay`
  unfoldable pub test_delay :
      String → List String → Server e o → Reply (List (String × ℕ)) × Server e o
  test_delay group proxies s =
      let (x, t) = e.test_delay group proxies s.engine in
      elim (valid_name "group" group or_else valid_names "proxy" proxies) [
        | some y ↦ (error y, s)
        | none ↦ elim x [
          | bad f ↦ (error (core_error f), with_engine t s)
          | good delays ↦ (reply delays, publish (with_engine t s))
        ]
      ]

  -- the end of `closeConnections`; no ids stand for all connections
  unfoldable pub close_these : Option (List String) → Server e o → Option Error × Server e o
  close_these ids s =
      let (x, t) = e.close_connections ids s.engine in
      elim x [ some f ↦ (some (core_error f), with_engine t s) | none ↦ (none, with_engine t s) ]

  -- `closeConnections`
  unfoldable pub close_connections : List String → Bool → Server e o → Option Error × Server e o
  close_connections [] true s = close_these none s
  close_connections [] false s = (some (fail invalid "name either connection ids or all"), s)
  close_connections (i ∷ is) true s = (some (fail invalid "name either connection ids or all"), s)
  close_connections (i ∷ is) false s = elim (valid_names "connection id" (i ∷ is)) [
    | some y ↦ (some y, s)
    | none ↦ close_these (some (i ∷ is)) s
  ]

  -- `decideDownload`; the answer itself goes to the call that waits for it.
  unfoldable pub decide_download : String → Server e o → Option Error × Server e o
  decide_download id s =
      if any (λ d. str_eq d.id id) s.downloads
      then (none, drop_pending id s)
      else (some (fail not_found "this download is no longer waiting for approval"), s)

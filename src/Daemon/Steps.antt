-- ===== src/Daemon/Steps.antt =====
-- The daemon as a state machine: each step is one call under `opMu`, a push, or a change of the world
-- outside, in any order. The calls of several clients and of the refresh loop interleave as steps; `egress`, which only
-- asks the network, is none.
pub mod Agree
use omihomo.Base.{
  ℕ, String, Bool, List, [], ◌∷◌, append, Option, none, some, ◌≡◌, refl, true, false, arith,
  split_option, split_bool, any, str_eq, if◌then◌else◌,
}
use omihomo.Protocol.{prune_categories, Error, Settings, Entries, stopped}
use omihomo.Daemon.Geodata.Refresh.{install_current, refresh_geodata}
use omihomo.Engine.{
  GeodataFile, Engine, Contract, Profile, Failure, Except, good, bad, split_except, no_profile,
}
use omihomo.Daemon.State.{
  Outside, NoFalseStop, Stored, Server, Subscription, Stream, Payload, Disk, Session,
}
use omihomo.Daemon.Publish.{
  publish_stream, push_line, is_up, publish, active_sub, send_to, event_line, wants,
}
use omihomo.Daemon.Check.{valid_name, valid_names, ◌or_else◌}
use omihomo.Daemon.Agrees.{RunsAs, Agrees, Frame-Agrees, publish_stream-Frame, drop_pending-Frame}
use omihomo.Daemon.Run.{start, stop, retry_restore, load_profile}
use omihomo.Daemon.Run.Start.{start_lem, stop_lem, retry_restore_lem}
use omihomo.Daemon.Commit.{apply}
use omihomo.Daemon.Commit.Keeps.{apply_lem}
use omihomo.Daemon.Calls.{
  Reply, select_proxy, test_delay, close_these, close_connections, decide_download,
}
use omihomo.Daemon.Sessions.{
  subscribe, push_fresh, is_state_stream, admit, leave, write_one, tick_groups, broadcast,
}
use omihomo.Daemon.Subscriptions.{activate_subscription, remove_found}
use omihomo.Daemon.Subscriptions.Download.{Download, Outcome}
use omihomo.Daemon.Subscriptions.Refresh.{refresh, finish_refresh}
use omihomo.Daemon.Subscriptions.Add.{add_subscription, finish_add}
use omihomo.Daemon.Subscriptions.Keeps.{
  activate_subscription-Agrees, remove_found-Agrees, publish-Agrees,
}
use omihomo.Daemon.Subscriptions.Asks.{
  finish_refresh-Agrees, refresh-Agrees, finish_add-Agrees, add_subscription-Agrees,
}

module _ {e : Engine} {o : Outside} where
  -- The end of a refresh, of an addition or of a geodata update is a step of its own, for any record and any download that
  -- it may have begun with, since other calls run while the download does.
  pub data Step : Server e o → Server e o → Type 0 where
    starts : {s : Server e o} → Step s (start s).1
    stops : {s : Server e o} → Step s (stop s).1
    restores : {s : Server e o} → Step s (retry_restore s)
    applies : {s : Server e o} (new : Settings) (rules : Entries) → Step s (apply new rules s).1
    selects : {s : Server e o} (group proxy : String) → Step s (select_proxy group proxy s).1
    tests :
        {s : Server e o} (group : String) (proxies : List String)
        → Step s (test_delay group proxies s).1
    closes :
        {s : Server e o} (ids : List String) (all : Bool) → Step s (close_connections ids all s).1
    decides : {s : Server e o} (id : String) → Step s (decide_download id s).1
    subscribes :
        {s : Server e o} (i : ℕ) (names : List String) (up : Bool)
        → Step s (subscribe i names up s).1
    admits : {s : Server e o} (i : ℕ) → Step s (admit i s)
    leaves : {s : Server e o} (i : ℕ) → Step s (leave i s)
    writes : {s : Server e o} (i : ℕ) → Step s (write_one i s)
    ticks : {s : Server e o} → Step s (tick_groups s)
    broadcasts : {s : Server e o} (stream : Stream) (v : Payload) → Step s (broadcast stream v s)
    activates : {s : Server e o} (name : String) → Step s (activate_subscription name s).1
    removes : {s : Server e o} (sub : Subscription) → Step s (remove_found sub s).1
    refreshes : {s : Server e o} (id : String) (manual : Bool) → Step s (refresh id manual s).1
    ends_refresh :
        {s : Server e o} (sub : Subscription) (x : Outcome (Download o.Header))
        → Step s (finish_refresh sub x s).1
    adds : {s : Server e o} (url : String) → Step s (add_subscription url s).1
    ends_add :
        {s : Server e o} (initial : Bool) (url : String) (x : Outcome (Download o.Header))
        → Step s (finish_add initial url x s).1
    updates_geodata : {s : Server e o} → Step s (refresh_geodata s)
    ends_update :
        {s : Server e o} (f : GeodataFile) (tmp : String) → Step s (install_current f tmp s)
    changes_outside : {s : Server e o} (t : o.T) → Step s (record s { outside = t })

  -- the profile of the active subscription, and what could not be read of it: the end of `New`
  unfoldable pub restore_profile : Server e o → Server e o
  restore_profile s = elim (active_sub s.subs) [
    | none ↦ s
    | some sub ↦ elim (load_profile sub s) [
      | good p ↦ record s { profile = p }
      | bad f ↦ record s { detail = append "the active subscription could not be read: " f.message }
    ]
  ]

  -- the server of `New` before it reads the profile; `Settings` of the store prunes the rules
  abbrev pub blank : e.T → o.T → Disk → Server e o
  blank engine outside disk = record {
    engine = engine;
    outside = outside;
    disk = disk;
    state = stopped;
    detail = "";
    started_at = 0;
    settings = record disk.settings { rules = prune_categories disk.settings.rules };
    subs = disk.subscriptions;
    profile = no_profile;
    restore_pending = disk.settings.running;
    add_asked = [];
    downloads = [];
    sessions = [];
    last_pushed = λ _. [];
    last_active = "";
    last_started = 0;
  }

  -- `New`, over the files of the state directory and a stopped engine
  unfoldable pub new_server : e.T → o.T → Disk → Server e o
  new_server engine outside disk = restore_profile (blank engine outside disk)

  -- the states that the daemon comes to
  pub data Reachable (engine : e.T) (outside : o.T) (disk : Disk) : Server e o → Type 0 where
    initial : Reachable engine outside disk (new_server engine outside disk)
    next :
        {s t : Server e o}
        → Reachable engine outside disk s
        → Step s t
        → Reachable engine outside disk t

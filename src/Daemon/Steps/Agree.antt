-- ===== src/Daemon/Steps/Agree.antt =====
-- Every step keeps the daemon and the engine in agreement.
use omihomo.Base.{
  ◌∙◌, ◌&&◌, ℕ, String, Bool, List, [], ◌∷◌, Option, none, some, ◌≡◌, true, false, split_option,
  split_bool, any, str_eq,
}
use omihomo.Protocol.{Error}
use omihomo.Engine.{LiveGroup, Engine, Contract, split_except}
use omihomo.Daemon.State.{groups, Outside, NoFalseStop, Server, Stream, Disk}
use omihomo.Daemon.Publish.{publish_stream, active_sub, is_running}
use omihomo.Daemon.Check.{valid_name, valid_names, ◌or_else◌}
use omihomo.Daemon.Agrees.{
  publish-Frame, Agrees, Frame-Agrees, publish_stream-Frame, drop_pending-Frame,
}
use omihomo.Daemon.Geodata.Refresh.{install_current-Frame, refresh_geodata-Frame}
use omihomo.Daemon.Run.{load_profile}
use omihomo.Daemon.Run.Start.{start_lem, stop_lem, retry_restore_lem}
use omihomo.Daemon.Commit.Keeps.{apply_lem}
use omihomo.Daemon.Calls.{
  Reply, select_proxy, test_delay, close_these, close_connections, decide_download,
}
use omihomo.Daemon.Sessions.{
  split_named, parse_streams, listening, subscribe, push_fresh, is_state_stream, admit, leave,
  write_one, tick_groups, broadcast,
}
use omihomo.Daemon.Subscriptions.Keeps.{activate_subscription-Agrees, remove_found-Agrees}
use omihomo.Daemon.Subscriptions.Asks.{
  finish_refresh-Agrees, refresh-Agrees, finish_add-Agrees, add_subscription-Agrees,
}
use omihomo.Daemon.Steps.{
  Step, starts, stops, restores, applies, selects, tests, closes, decides, subscribes, admits,
  leaves, writes, ticks, broadcasts, activates, removes, refreshes, ends_refresh, adds, ends_add,
  updates_geodata, ends_update, changes_outside, restore_profile, new_server, blank, Reachable,
  initial, next,
}

module _ {e : Engine} {o : Outside} (c : Contract e) where
  -- a call of the engine that leaves its config alone
  engine_kept :
      (t : e.T) (s : Server e o)
      → c.runs t ≡ c.runs s.engine
      → Agrees c s
      → Agrees c (record s { engine = t })
  engine_kept t s k a = record { runs_it = k ∙ a.runs_it }

  select_proxy-Agrees :
      (group proxy : String) (s : Server e o) → Agrees c s → Agrees c (select_proxy group proxy s).1
  unfolding select_proxy
  select_proxy-Agrees group proxy s a =
      let P : Reply LiveGroup × Server e o → Type 0 = λ r. Agrees c r.1 in
      let b = engine_kept _ s (c.select_keeps group proxy s.engine) a in
      split_option P (valid_name "group" group or_else valid_name "proxy" proxy) _ _
        (λ _.
          split_option P (e.select group proxy s.engine).0 _ _
            (λ _. Frame-Agrees c _ _ (publish-Frame c _) b) (λ _ _. b))
        (λ _ _. a)

  test_delay-Agrees :
      (group : String) (proxies : List String) (s : Server e o)
      → Agrees c s
      → Agrees c (test_delay group proxies s).1
  unfolding test_delay
  test_delay-Agrees group proxies s a =
      let P : Reply (List (String × ℕ)) × Server e o → Type 0 = λ r. Agrees c r.1 in
      let b = engine_kept _ s (c.test_delay_keeps group proxies s.engine) a in
      split_option P (valid_name "group" group or_else valid_names "proxy" proxies) _ _
        (λ _.
          split_except P (e.test_delay group proxies s.engine).0 _ _
            (λ _ _. Frame-Agrees c _ _ (publish-Frame c _) b) (λ _ _. b))
        (λ _ _. a)

  close_these-Agrees :
      (ids : Option (List String)) (s : Server e o) → Agrees c s → Agrees c (close_these ids s).1
  unfolding close_these
  close_these-Agrees ids s a =
      let b = engine_kept _ s (c.close_connections_keeps ids s.engine) a in
      split_option (λ (r : Option Error × Server e o). Agrees c r.1)
        (e.close_connections ids s.engine).0 _ _ (λ _. b) (λ _ _. b)

  close_connections-Agrees :
      (ids : List String) (all : Bool) (s : Server e o)
      → Agrees c s
      → Agrees c (close_connections ids all s).1
  unfolding close_connections
  close_connections-Agrees [] true s a = close_these-Agrees none s a
  close_connections-Agrees [] false s a = a
  close_connections-Agrees (i ∷ is) true s a = a
  close_connections-Agrees (i ∷ is) false s a =
      split_option (λ (r : Option Error × Server e o). Agrees c r.1)
        (valid_names "connection id" (i ∷ is)) _ _ (λ _. close_these-Agrees (some (i ∷ is)) s a)
        (λ _ _. a)

  decide_download-Agrees :
      (id : String) (s : Server e o) → Agrees c s → Agrees c (decide_download id s).1
  unfolding decide_download
  decide_download-Agrees id s a =
      split_bool (λ (r : Option Error × Server e o). Agrees c r.1)
        (any (λ d. str_eq d.id id) s.downloads) _ _
        (λ _. Frame-Agrees c s _ (drop_pending-Frame c id s) a) (λ _. a)

  pushed-Agrees :
      (stream : Stream) (also : Option ℕ) (s : Server e o)
      → Agrees c s
      → Agrees c (publish_stream stream also s)
  pushed-Agrees stream also s = Frame-Agrees c s _ (publish_stream-Frame c stream also s)

  push_fresh-Agrees :
      (i : ℕ) (xs : List Stream) (s : Server e o) → Agrees c s → Agrees c (push_fresh i xs s)
  unfolding push_fresh
  push_fresh-Agrees i [] s a = a
  push_fresh-Agrees i (x ∷ xs) s a = push_fresh-Agrees i xs _ (
      split_bool (λ (t : Server e o). Agrees c t) (is_state_stream x) _ _
        (λ _. pushed-Agrees x (some i) s a) (λ _. a))

  subscribe-Agrees :
      (i : ℕ) (names : List String) (up : Bool) (s : Server e o)
      → Agrees c s
      → Agrees c (subscribe i names up s).1
  unfolding subscribe
  subscribe-Agrees i [] up s a = a
  subscribe-Agrees i (n ∷ ns) up s a =
      split_named (λ (r : Option Error × Server e o). Agrees c r.1) (parse_streams (n ∷ ns)) _ _
        (λ xs. push_fresh-Agrees i _ _ (record { runs_it = a.runs_it })) (λ _. a)

  tick_groups-Agrees : (s : Server e o) → Agrees c s → Agrees c (tick_groups s)
  unfolding tick_groups
  tick_groups-Agrees s a =
      split_bool (λ (t : Server e o). Agrees c t) (is_running s && listening groups s) _ _
        (λ _. pushed-Agrees groups none s a) (λ _. a)

module _ {e : Engine} {o : Outside} (c : Contract e) (h : NoFalseStop o) where
  -- Every step, whether its call succeeds or fails, keeps the daemon and the engine in agreement.
  pub step-Agrees : {s t : Server e o} → Step s t → Agrees c s → Agrees c t
  unfolding admit leave write_one broadcast
  step-Agrees {s} starts a = (start_lem c h s a).0
  step-Agrees {s} stops a = (stop_lem c h s a).0
  step-Agrees {s} restores a = (retry_restore_lem c h s a).0
  step-Agrees {s} (applies new rules) a = (apply_lem c h new rules s a).agrees
  step-Agrees {s} (selects group proxy) a = select_proxy-Agrees c group proxy s a
  step-Agrees {s} (tests group proxies) a = test_delay-Agrees c group proxies s a
  step-Agrees {s} (closes ids all) a = close_connections-Agrees c ids all s a
  step-Agrees {s} (decides id) a = decide_download-Agrees c id s a
  step-Agrees {s} (subscribes i names up) a = subscribe-Agrees c i names up s a
  step-Agrees {s} (admits i) a = record { runs_it = a.runs_it }
  step-Agrees {s} (leaves i) a = record { runs_it = a.runs_it }
  step-Agrees {s} (writes i) a = record { runs_it = a.runs_it }
  step-Agrees {s} ticks a = tick_groups-Agrees c s a
  step-Agrees {s} (broadcasts stream v) a = record { runs_it = a.runs_it }
  step-Agrees {s} (activates name) a = activate_subscription-Agrees c h name s a
  step-Agrees {s} (removes sub) a = remove_found-Agrees c h sub s a
  step-Agrees {s} (refreshes id manual) a = refresh-Agrees c h id manual s a
  step-Agrees {s} (ends_refresh sub x) a = finish_refresh-Agrees c h sub x s a
  step-Agrees {s} (adds url) a = add_subscription-Agrees c h url s a
  step-Agrees {s} (ends_add first url x) a = finish_add-Agrees c h first url x s a
  step-Agrees {s} updates_geodata a = Frame-Agrees c s _ (refresh_geodata-Frame c s) a
  step-Agrees {s} (ends_update f tmp) a = Frame-Agrees c s _ (install_current-Frame c f tmp s) a
  step-Agrees {s} (changes_outside t) a = record { runs_it = a.runs_it }

  new_server-Agrees :
      (engine : e.T) (outside : o.T) (disk : Disk)
      → c.runs engine ≡ none
      → Agrees c (new_server {e = e} {o = o} engine outside disk)
  unfolding new_server restore_profile
  new_server-Agrees engine outside disk k =
      split_option (λ (t : Server e o). Agrees c t) (active_sub disk.subscriptions) _ _
        (λ _. record { runs_it = k })
        λ sub _.
          split_except (λ (t : Server e o). Agrees c t)
            (load_profile {e = e} {o = o} sub (blank {e = e} {o = o} engine outside disk)) _ _
            (λ _ _. record { runs_it = k }) (λ _ _. record { runs_it = k })

  -- In every state that the daemon comes to, from a stopped engine and any files, the engine runs what
  -- the daemon's settings and profile ask for if the daemon says that the proxy is up, and nothing if
  -- it says that it is not.
  pub Reachable-Agrees :
      (engine : e.T) (outside : o.T) (disk : Disk) (s : Server e o)
      → c.runs engine ≡ none
      → Reachable engine outside disk s
      → Agrees c s
  Reachable-Agrees engine outside disk s k initial = new_server-Agrees engine outside disk k
  Reachable-Agrees engine outside disk s k (next r x) =
      step-Agrees x (Reachable-Agrees engine outside disk _ k r)

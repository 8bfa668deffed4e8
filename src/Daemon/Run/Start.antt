-- ===== src/Daemon/Run/Start.antt =====
-- `start`, `stop` and `retryRestore`: the proxy is up afterwards exactly where the call succeeded.
use omihomo.Base.{
  Option-cases, ◌⊎◌, String, Bool, Bool-cases, true, false, Option, none, some, ◌≡◌, refl, ◌∙◌, ap,
  inl, inr, split_option, split_bool, arith,
}
use omihomo.Protocol.{Error, State, stopped, starting, on}
use omihomo.Engine.{Engine, Contract, Profile, err_stopped, split_except}
use omihomo.Daemon.State.{Outside, NoFalseStop, Stored, Server}
use omihomo.Daemon.Compile.{run_config, bypass}
use omihomo.Daemon.Publish.{publish, is_running, is_up, set_state, active_sub}
use omihomo.Daemon.Check.{check_settings}
use omihomo.Daemon.Check.Rules.{check_rules}
use omihomo.Daemon.Agrees.{Agrees, Frame, Frame-Agrees, publish-Frame}
use omihomo.Daemon.Run.{
  same_bool, same_bool_lem, settings_file, give_up, unreadable, save_settings, save_running,
  load_profile, prepare_apply, start_engine, start_profile, start_locked, start, stop,
  retry_restore,
}
use omihomo.Daemon.Run.Apply.{prepare_apply-Applied, publish_stopped}

module _ {e : Engine} {o : Outside} (c : Contract e) (h : NoFalseStop o) where
  -- the daemon and the engine agree, and the proxy is up exactly where there is no error
  pub record Started (r : Option Error × Server e o) : Type 0 where
    pub agrees : Agrees c r.1
    pub up : r.0 ≡ none → is_up r.1.state ≡ true
    pub down : (x : Error) → r.0 ≡ some x → is_up r.1.state ≡ false

  -- a new state, shown to the clients
  show_state :
      (next : State) (detail : String) (s : Server e o)
      → Frame c (set_state next detail s) (publish (set_state next detail s))
  show_state next detail s = publish-Frame c (set_state next detail s)

  give_up-Started :
      (x : Error) (detail : String) (s : Server e o)
      → c.runs s.engine ≡ none
      → Started (give_up x detail s)
  give_up-Started x detail s k = record {
    agrees = record { runs_it = publish_stopped c h _ _ detail s k };
    up = λ y. cc;
    down = λ y z. ap is_up (show_state stopped detail s).state ∙ unfold set_state in refl;
  }

  start_engine-Started :
      (direct : Bool) (s : Server e o) → c.runs s.engine ≡ none → Started (start_engine direct s)
  unfolding start_engine
  start_engine-Started direct s k =
      let s1 = publish (set_state starting "" s) in
      let cfg = run_config s1.settings s1.profile in
      let a = prepare_apply-Applied c h direct cfg s1 in
      let k1 : c.runs s1.engine ≡ none = (show_state starting "" s).runs ∙ unfold set_state in k in
      let t = (prepare_apply direct cfg s1).1 in
      split_option (λ (r : Option Error × Server e o). Started r) (prepare_apply direct cfg s1).0 _
        _
        (λ x. record {
          agrees = Frame-Agrees c (set_state on "" t) _ (show_state on "" t) (
              unfold set_state in
              record { runs_it = ground (arith, a.done x, a.kept.settings, a.kept.profile) });
          up = λ y. ap is_up (show_state on "" t).state ∙ unfold set_state in refl;
          down = λ y z. cc;
        })
        (λ f x. give_up-Started _ f.message t (elim (Bool-cases (f.is err_stopped)) [
          | inl gone ↦ a.stopped f x gone
          | inr stays ↦ a.failed f x stays ∙ k1
        ]))

  start_profile-Started :
      (direct : Bool) (s : Server e o) → c.runs s.engine ≡ none → Started (start_profile direct s)
  unfolding start_profile
  start_profile-Started direct s k =
      split_option (λ (r : Option Error × Server e o). Started r) (active_sub s.subs) _ _
        (λ _. start_engine-Started direct s k)
        λ sub _.
          split_except (λ (r : Option Error × Server e o). Started r) (load_profile sub s) _ _
            (λ p _. start_engine-Started direct (record s { profile = p }) k)
            (λ f _. give_up-Started _ (unreadable f) s k)

  pub start_locked-Started :
      (direct : Bool) (s : Server e o) → Agrees c s → Started (start_locked direct s)
  unfolding start_locked is_running
  start_locked-Started direct s a =
      let s' = record s { restore_pending = false } in
      elim (Bool-cases (is_up s.state)) [
        | inl up ↦
            rw up
              (record { agrees = record { runs_it = a.runs_it }; up = λ _. up; down = λ y z. cc })
        | inr down ↦
            let k : c.runs s.engine ≡ none = ground (arith, a.runs_it) in
            rw down (
              split_option (λ (r : Option Error × Server e o). Started r)
                (check_settings s.settings.settings) _ _
                (λ _.
                  split_option (λ (r : Option Error × Server e o). Started r)
                    (check_rules o s.settings.rules) _ _ (λ _. start_profile-Started direct s' k)
                    (λ x _. give_up-Started x x.message s' k))
                (λ x _. give_up-Started x x.message s' k))
      ]

  -- what `saveSettings` changes
  pub record Saved (next : Stored) (s : Server e o) (r : Option Error × Server e o) : Type 0 where
    pub engine : r.1.engine ≡ s.engine
    pub profile : r.1.profile ≡ s.profile
    pub state : r.1.state ≡ s.state
    pub subs : r.1.subs ≡ s.subs
    pub done : r.0 ≡ none → r.1.settings ≡ next
    pub written : r.0 ≡ none → r.1.disk.settings ≡ next
    pub failed : (x : Error) → r.0 ≡ some x → r.1.settings ≡ s.settings

  pub save_settings-Saved : (next : Stored) (s : Server e o) → Saved next s (save_settings next s)
  unfolding save_settings
  save_settings-Saved next s =
      split_option (λ (r : Option Error × Server e o). Saved next s r)
        (o.write_fault settings_file s.outside).0 _ _
        (λ _. record {
          engine = refl;
          profile = refl;
          state = refl;
          subs = refl;
          done = λ _. refl;
          written = λ _. refl;
          failed = λ x y. cc;
        })
        (λ f _. record {
          engine = refl;
          profile = refl;
          state = refl;
          subs = refl;
          done = λ y. cc;
          written = λ y. cc;
          failed = λ x y. refl;
        })

  run_config-running :
      (st : Stored) (p : Profile) (up : Bool)
      → run_config (record st { running = up }) p ≡ run_config st p
  unfolding run_config bypass
  run_config-running st p up = refl

  save_running-Agrees : (up : Bool) (s : Server e o) → Agrees c s → Agrees c (save_running up s).1
  unfolding save_running
  save_running-Agrees up s a =
      let v = save_settings-Saved (record s.settings { running = up }) s in
      split_bool (λ (r : Option Error × Server e o). Agrees c r.1) (same_bool s.settings.running up)
        _ _ (λ _. a)
        λ _. record {
          runs_it = elim (Option-cases (save_settings (record s.settings { running = up }) s).0) [
            | inl x ↦ ground (
              arith,
              a.runs_it,
              v.engine,
              v.profile,
              v.state,
              v.done x,
              run_config-running s.settings s.profile up,
            )
            | inr (f, x) ↦ ground (arith, a.runs_it, v.engine, v.profile, v.state, v.failed f x)
          ];
        }

  save_running-done :
      (up : Bool) (s : Server e o)
      → (save_running up s).0 ≡ none
      → ((save_running up s).1.state ≡ s.state) × ((save_running up s).1.settings.running ≡ up)
  unfolding save_running
  save_running-done up s x =
      let v = save_settings-Saved (record s.settings { running = up }) s in
      elim (Bool-cases (same_bool s.settings.running up)) [
        | inl same ↦ rw same (refl, same_bool_lem s.settings.running up same)
        | inr other ↦
            let y : (save_settings (record s.settings { running = up }) s).0 ≡ none =
              rw other at x in
            rw other (v.state, ap (λ (t : Stored). t.running) (v.done y))
      ]

  -- `start` leaves the daemon and the engine in agreement whatever happens, and where it succeeds
  -- the proxy is up and recorded as on.
  pub start_lem :
      (s : Server e o)
      → Agrees c s
      → Agrees c (start s).1
        × ((start s).0 ≡ none
            → (is_up (start s).1.state ≡ true) × ((start s).1.settings.running ≡ true))
  unfolding start
  start_lem s a =
      let p = start_locked-Started false s a in
      let t = (start_locked false s).1 in
      split_option
        (λ (r : Option Error × Server e o).
          Agrees c r.1 × (r.0 ≡ none → (is_up r.1.state ≡ true) × (r.1.settings.running ≡ true)))
        (start_locked false s).0 _ _
        (λ x. (
          save_running-Agrees true t p.agrees,
          λ y. let d = save_running-done true t y in (ap is_up d.0 ∙ p.up x, d.1),
        ))
        (λ f x. (p.agrees, λ y. cc))

  -- `stop` leaves them in agreement whatever happens, and where it succeeds the proxy is stopped,
  -- the engine runs nothing, and the proxy is recorded as off.
  pub stop_lem :
      (s : Server e o)
      → Agrees c s
      → Agrees c (stop s).1
        × ((stop s).0 ≡ none
            → ((stop s).1.state ≡ stopped)
              × (c.runs (stop s).1.engine ≡ none)
              × ((stop s).1.settings.running ≡ false))
  unfolding stop
  stop_lem s a =
      let s' = record s { restore_pending = false; engine = (e.stop s.engine).1 } in
      let t = publish (set_state stopped "" s') in
      split_option
        (λ (r : Option Error × Server e o).
          Agrees c r.1
          × (r.0 ≡ none
              → (r.1.state ≡ stopped)
                × (c.runs r.1.engine ≡ none)
                × (r.1.settings.running ≡ false)))
        (e.stop s.engine).0 _ _
        (λ x.
          let a' : Agrees c t = record {
            runs_it = publish_stopped c h _ _ "" s' (c.stop_done s.engine x);
          } in
          let b = save_running-Agrees false t a' in
          (
            b,
            λ y.
                let d = save_running-done false t y in
                let u : (save_running false t).1.state ≡ stopped =
                  d.0 ∙ (show_state stopped "" s').state ∙ unfold set_state in refl in
                (u, ground (arith, b.runs_it, u), d.1),
          ))
        (λ f x. (record { runs_it = c.stop_failed s.engine f x ∙ a.runs_it }, λ y. cc))

  -- `retryRestore` does nothing unless a restore is pending; if one is, the proxy is up afterwards
  -- or the restore is still pending.
  pub retry_restore_lem :
      (s : Server e o)
      → Agrees c s
      → Agrees c (retry_restore s)
        × (s.restore_pending ≡ false → retry_restore s ≡ s)
        × (s.restore_pending ≡ true
            → (is_up (retry_restore s).state ≡ true) ⊎ ((retry_restore s).restore_pending ≡ true))
  unfolding retry_restore
  retry_restore_lem s a =
      let p = start_locked-Started false s a in
      split_bool
        (λ (t : Server e o).
          Agrees c t
          × (s.restore_pending ≡ false → t ≡ s)
          × (s.restore_pending ≡ true → (is_up t.state ≡ true) ⊎ (t.restore_pending ≡ true)))
        s.restore_pending _ _
        (λ pending.
          split_option
            (λ (t : Server e o).
              Agrees c t
              × (s.restore_pending ≡ false → t ≡ s)
              × (s.restore_pending ≡ true → (is_up t.state ≡ true) ⊎ (t.restore_pending ≡ true)))
            (start_locked false s).0 _ _ (λ x. (p.agrees, λ y. cc, λ _. inl (p.up x)))
            (λ f x. (record { runs_it = p.agrees.runs_it }, λ y. cc, λ _. inr refl)))
        (λ idle. (a, λ _. refl, λ y. cc))

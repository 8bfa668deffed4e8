-- ===== src/Daemon/Run/Apply.antt =====
-- What `reapply`, `rollback` and `acceptContent` leave the engine running, on every branch.
use omihomo.Base.{
  String, Bool, Bool-cases, true, false, Option, none, some, ◌≡◌, refl, ◌∙◌, inl, inr, split_option,
  ◌⊎◌, ap, split_bool, arith,
}
use omihomo.Protocol.{Code, Error, core_failed, rejected, stopped}
use omihomo.Engine.{Engine, Contract, Config, Profile, Failure, err_stopped}
use omihomo.Daemon.State.{Outside, NoFalseStop, Stored, Server}
use omihomo.Daemon.Compile.{run_config}
use omihomo.Daemon.Publish.{publish, is_running, is_up, set_state}
use omihomo.Daemon.Geodata.{ensure_geodata}
use omihomo.Daemon.Geodata.Errors.{ensure_geodata-Clean}
use omihomo.Daemon.Agrees.{
  RunsAs, Frame, Kept, Frame-Kept, Kept-trans, Frame-RunsAs, publish-Frame, ensure_geodata-Frame,
}
use omihomo.Daemon.Run.{
  core_error, engine_apply, engine_check, prepare_apply, check_config, reapply_running, reapply,
  rollback, accept_content,
}

module _ {e : Engine} {o : Outside} (c : Contract e) (h : NoFalseStop o) where
  -- what `prepareApply` does with the config `cfg` on `s`
  pub record Applied (cfg : Config) (s : Server e o) (r : Option Failure × Server e o)
      : Type 0 where
    pub kept : Kept c s r.1
    pub state : r.1.state ≡ s.state
    pub done : r.0 ≡ none → c.runs r.1.engine ≡ some cfg
    pub failed :
        (f : Failure)
        → r.0 ≡ some f
        → f.is err_stopped ≡ false
        → c.runs r.1.engine ≡ c.runs s.engine
    pub stopped : (f : Failure) → r.0 ≡ some f → f.is err_stopped ≡ true → c.runs r.1.engine ≡ none

  engine_apply-Applied : (cfg : Config) (s : Server e o) → Applied cfg s (engine_apply cfg s)
  unfolding engine_apply
  engine_apply-Applied cfg s = record {
    kept = record { settings = refl; profile = refl; subs = refl; disk = refl };
    state = refl;
    done = c.apply_done cfg s.engine;
    failed = c.apply_failed cfg s.engine;
    stopped = c.apply_stopped cfg s.engine;
  }

  -- the geodata comes first, and leaves the engine alone
  Frame-Applied :
      (cfg : Config) (s t : Server e o) (r : Option Failure × Server e o)
      → Frame c s t
      → Applied cfg t r
      → Applied cfg s r
  Frame-Applied cfg s t r f a = record {
    kept = Kept-trans c s t r.1 (Frame-Kept c f) a.kept;
    state = a.state ∙ f.state;
    done = a.done;
    failed = λ g x y. a.failed g x y ∙ f.runs;
    stopped = a.stopped;
  }

  pub prepare_apply-Applied :
      (direct : Bool) (cfg : Config) (s : Server e o) → Applied cfg s (prepare_apply direct cfg s)
  unfolding prepare_apply
  prepare_apply-Applied direct cfg s =
      let f = ensure_geodata-Frame c direct cfg.profile s in
      split_option (λ (r : Option Failure × Server e o). Applied cfg s r)
        (ensure_geodata direct cfg.profile s).0 _ _
        (λ _. Frame-Applied cfg s _ _ f (engine_apply-Applied cfg _))
        λ g x. record {
          kept = Frame-Kept c f;
          state = f.state;
          done = λ y. cc;
          failed = λ g' y z. f.runs;
          stopped =
              λ g' y z. ground (arith, rw x at (ensure_geodata-Clean c h direct cfg.profile s));
        }

  -- Where the call returns no error the engine runs `next` and `p`, and otherwise what it ran.
  pub record Reapplied (st : Stored) (p0 : Profile) (next : Stored) (p : Profile) (s : Server e o)
      (r : Option Error × Server e o) : Type 0 where
    pub kept : Kept c s r.1
    pub done : r.0 ≡ none → RunsAs c next p r.1
    pub failed : (x : Error) → r.0 ≡ some x → RunsAs c st p0 r.1

  pub publish_stopped :
      (st : Stored) (p : Profile) (detail : String) (s : Server e o)
      → c.runs s.engine ≡ none
      → RunsAs c st p (publish (set_state stopped detail s))
  publish_stopped st p detail s k =
      Frame-RunsAs c st p (set_state stopped detail s) _
        (publish-Frame c (set_state stopped detail s)) (unfold set_state in k)

  pub publish-Kept :
      (detail : String) (s : Server e o) → Kept c s (publish (set_state stopped detail s))
  publish-Kept detail s =
      Kept-trans c s (set_state stopped detail s) _
        (unfold set_state in record { settings = refl; profile = refl; subs = refl; disk = refl })
        (Frame-Kept c (publish-Frame c _))

  reapply_running-Reapplied :
      (st : Stored) (p0 : Profile) (direct : Bool) (next : Stored) (p : Profile) (s : Server e o)
      → is_up s.state ≡ true
      → RunsAs c st p0 s
      → Reapplied st p0 next p s (reapply_running direct (run_config next p) s)
  unfolding reapply_running
  reapply_running-Reapplied st p0 direct next p s up ran =
      let a = prepare_apply-Applied direct (run_config next p) s in
      split_option (λ (r : Option Error × Server e o). Reapplied st p0 next p s r)
        (prepare_apply direct (run_config next p) s).0 _ _
        (λ x. record {
          kept = a.kept;
          done = λ _. ground (arith, a.done x, a.state);
          failed = λ y z. cc;
        })
        λ f x.
          split_bool (λ (t : Server e o). Reapplied st p0 next p s (some (core_error f), t))
            (f.is err_stopped) _ _
            (λ gone. record {
              kept = Kept-trans c s _ _ a.kept (publish-Kept f.message _);
              done = λ y. cc;
              failed = λ y z. publish_stopped st p0 f.message _ (a.stopped f x gone);
            })
            (λ stays. record {
              kept = a.kept;
              done = λ y. cc;
              failed = λ y z. ground (arith, a.failed f x stays, a.state);
            })

  -- the three ways in which a change of a running proxy turns out
  abbrev pub Turns : Config → Config → Option Error × Server e o → Type 0
  Turns old cfg r =
      ((r.0 ≡ none) × (is_up r.1.state ≡ true) × (c.runs r.1.engine ≡ some cfg))
      ⊎ ((x : Error) × (r.0 ≡ some x) × (is_up r.1.state ≡ true) × (c.runs r.1.engine ≡ some old))
      ⊎ ((x : Error) × (r.0 ≡ some x) × (r.1.state ≡ stopped) × (c.runs r.1.engine ≡ none))

  stopped-Turns :
      (old cfg : Config) (x : Error) (detail : String) (s : Server e o)
      → c.runs s.engine ≡ none
      → Turns old cfg (some x, publish (set_state stopped detail s))
  stopped-Turns old cfg x detail s k =
      let f = publish-Frame c (set_state stopped detail s) in
      inr (inr (x, refl, f.state ∙ (unfold set_state in refl), f.runs ∙ (unfold set_state in k)))

  pub reapply_running-Turns :
      (old : Config) (direct : Bool) (next : Stored) (p : Profile) (s : Server e o)
      → is_up s.state ≡ true
      → c.runs s.engine ≡ some old
      → Turns old (run_config next p) (reapply_running direct (run_config next p) s)
  unfolding reapply_running
  reapply_running-Turns old direct next p s up ran =
      let cfg = run_config next p in
      let a = prepare_apply-Applied direct cfg s in
      let still : is_up (prepare_apply direct cfg s).1.state ≡ true = ap is_up a.state ∙ up in
      split_option (λ (r : Option Error × Server e o). Turns old cfg r)
        (prepare_apply direct cfg s).0 _ _ (λ x. inl (refl, still, a.done x))
        λ f x.
          split_bool (λ (t : Server e o). Turns old cfg (some (core_error f), t)) (f.is err_stopped)
            _ _ (λ gone. stopped-Turns old cfg (core_error f) f.message _ (a.stopped f x gone))
            (λ stays. inr (inl (core_error f, refl, still, a.failed f x stays ∙ ran)))

  pub check_config-Frame :
      (code : Code) (direct : Bool) (cfg : Config) (s : Server e o)
      → Frame c s (check_config code direct cfg s).1
  unfolding check_config engine_check
  check_config-Frame code direct cfg s =
      let f = ensure_geodata-Frame c direct cfg.profile s in
      let t = (ensure_geodata direct cfg.profile s).1 in
      let checked : Frame c s (engine_check cfg t).1 = record {
        runs = c.check_keeps cfg t.engine ∙ f.runs;
        settings = f.settings;
        profile = f.profile;
        state = f.state;
        subs = f.subs;
        disk = f.disk;
        restore_pending = f.restore_pending;
      } in
      split_option (λ (r : Option Error × Server e o). Frame c s r.1)
        (ensure_geodata direct cfg.profile s).0 _ _
        (λ _.
          split_option (λ (r : Option Error × Server e o). Frame c s r.1) (engine_check cfg t).0 _ _
            (λ _. checked) (λ _ _. checked))
        (λ _ _. f)

  -- a check leaves what ran running; while nothing ran, that is also what any settings ask for
  checked-Reapplied :
      (st : Stored) (p0 : Profile) (next : Stored) (p : Profile) (s : Server e o)
      (r : Option Error × Server e o)
      → is_up s.state ≡ false
      → RunsAs c st p0 s
      → Frame c s r.1
      → Reapplied st p0 next p s r
  checked-Reapplied st p0 next p s r down ran f = record {
    kept = Frame-Kept c f;
    done = λ y. ground (arith, f.runs, f.state);
    failed = λ x y. Frame-RunsAs c st p0 s r.1 f ran;
  }

  pub reapply-Reapplied :
      (st : Stored) (p0 : Profile) (direct : Bool) (next : Stored) (p : Profile) (s : Server e o)
      → RunsAs c st p0 s
      → Reapplied st p0 next p s (reapply direct next p s)
  unfolding reapply is_running
  reapply-Reapplied st p0 direct next p s ran = elim (Bool-cases (is_up s.state)) [
    | inl up ↦ rw up (reapply_running-Reapplied st p0 direct next p s up ran)
    | inr down ↦ rw down (
        checked-Reapplied st p0 next p s _ down ran
          (check_config-Frame core_failed direct (run_config next p) s))
  ]

  -- `rollback` from `next` and `p` to `prev` and `p0`: where it says no, `next` and `p` still run
  pub record RolledBack (prev : Stored) (p0 : Profile) (next : Stored) (p : Profile)
      (s : Server e o) (r : Bool × Server e o) : Type 0 where
    pub kept : Kept c s r.1
    pub restored : r.0 ≡ true → RunsAs c prev p0 r.1
    pub not_restored : r.0 ≡ false → RunsAs c next p r.1

  pub rollback-RolledBack :
      (direct : Bool) (prev : Stored) (p0 : Profile) (next : Stored) (p : Profile) (s : Server e o)
      → RunsAs c next p s
      → RolledBack prev p0 next p s (rollback direct prev p0 s)
  unfolding rollback is_running
  rollback-RolledBack direct prev p0 next p s ran =
      let a = reapply-Reapplied next p direct prev p0 s ran in
      elim (Bool-cases (is_up s.state)) [
        | inl up ↦ rw up (
            split_option (λ (r : Bool × Server e o). RolledBack prev p0 next p s r)
              (reapply direct prev p0 s).0 _ _
              (λ x. record { kept = a.kept; restored = λ _. a.done x; not_restored = λ y. cc })
              (λ f x. record {
                kept = a.kept;
                restored = λ y. cc;
                not_restored = λ _. a.failed f x;
              }))
        | inr down ↦ rw down (record {
          kept = record { settings = refl; profile = refl; subs = refl; disk = refl };
          restored = λ _. ground arith;
          not_restored = λ y. cc;
        })
      ]

  -- `acceptContent`: the content runs only if it is to run and the proxy is on
  pub accept_content-Reapplied :
      (direct : Bool) (st : Stored) (p0 p : Profile) (s : Server e o)
      → RunsAs c st p0 s
      → Reapplied st p0 st p s (accept_content direct st p true s)
  unfolding accept_content is_running
  accept_content-Reapplied direct st p0 p s ran = elim (Bool-cases (is_up s.state)) [
    | inl up ↦ rw up (reapply-Reapplied st p0 direct st p s ran)
    | inr down ↦ rw down (
        checked-Reapplied st p0 st p s _ down ran
          (check_config-Frame rejected direct (run_config st p) s))
  ]

  pub accept_content-Frame :
      (direct : Bool) (st : Stored) (p : Profile) (s : Server e o)
      → Frame c s (accept_content direct st p false s).1
  unfolding accept_content
  accept_content-Frame direct st p s = check_config-Frame rejected direct (run_config st p) s

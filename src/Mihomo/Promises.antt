-- ===== src/Mihomo/Promises.antt =====
-- The engine over mihomo keeps the promise of `core.Core` on `Apply`: after a
-- failed apply the previous config runs, or the error says that nothing does.
use omihomo.Base.{
  Option-cases, ◌⊎◌, Bool-cases, true, false, not, Option, none, some, ◌≡◌, refl, ◌∙◌, ap, inl, inr,
  if◌then◌else◌, split_option, split_bool, arith,
}
use omihomo.Engine.{Config, Failure, split_except, good, bad, err_stopped}
use omihomo.Mihomo.{
  Host, Core, lost, invalid_config, run, stop_now, restore, recover, apply_prepared, apply,
  lacks_gvisor, no_gvisor,
}

-- What the core relies on of mihomo: a config is in force once it was brought up, none once mihomo was
-- brought down, and nothing is known of the one in force where a bring-up failed. No error of mihomo
-- says that the engine stopped: only `Apply` says so.
pub record Documented (h : Host) : Type 0 where
  -- the config by which mihomo handles the traffic
  pub in_force : h.T → Option Config
  -- the config that a parsed one was made of
  pub origin : h.Parsed → Config
  pub prepared : (cfg : Config) (t : h.T) (p : h.Parsed) → h.prepare cfg t ≡ good p → origin p ≡ cfg
  pub brought_up :
      (p : h.Parsed) (t : h.T)
      → (h.bring_up p t).0 ≡ none
      → in_force (h.bring_up p t).1 ≡ some (origin p)
  pub brought_down : (t : h.T) → in_force (h.bring_down t) ≡ none
  pub prepare_error :
      (cfg : Config) (t : h.T) (f : Failure) → h.prepare cfg t ≡ bad f → f.is err_stopped ≡ false
  pub bring_up_error :
      (p : h.Parsed) (t : h.T) (f : Failure)
      → (h.bring_up p t).0 ≡ some f
      → f.is err_stopped ≡ false

invalid-quiet : (f : Failure) → (invalid_config f).is err_stopped ≡ f.is err_stopped
invalid-quiet f = refl

lost-stopped : (f g : Failure) → (lost f g).is err_stopped ≡ true
lost-stopped f g = ground arith

gvisor-quiet : no_gvisor.is err_stopped ≡ false
gvisor-quiet = refl

module _ {h : Host} (no_config : Config) (d : Documented h) where
  -- the config that runs, as the core has it
  abbrev pub runs : Core h → Option Config
  runs c = if c.running then some c.current else none

  -- `x` is in force in mihomo, and the core says so
  pub record Shows (x : Option Config) (c : Core h) : Type 0 where
    pub in_mihomo : d.in_force c.host ≡ x
    pub in_core : runs c ≡ x

  Shows-as : {x y : Option Config} {c : Core h} → x ≡ y → Shows x c → Shows y c
  Shows-as e s = record { in_mihomo = s.in_mihomo ∙ e; in_core = s.in_core ∙ e }

  run-Shows :
      (cfg : Config) (p : h.Parsed) (c : Core h)
      → d.origin p ≡ cfg
      → (run no_config cfg p c).0 ≡ none
      → Shows (some cfg) (run no_config cfg p c).1
  unfolding run
  run-Shows cfg p c made =
      split_option (λ (r : Option Failure × Core h). r.0 ≡ none → Shows (some cfg) r.1)
        (h.bring_up p c.host).0 _ _
        (λ x _. record {
          in_mihomo = d.brought_up p c.host x ∙ ap (λ q. some q) made;
          in_core = refl;
        })
        (λ f _ y. cc y)

  run-quiet :
      (cfg : Config) (p : h.Parsed) (c : Core h) (f : Failure)
      → (run no_config cfg p c).0 ≡ some f
      → f.is err_stopped ≡ false
  unfolding run
  run-quiet cfg p c f =
      split_option (λ (r : Option Failure × Core h). r.0 ≡ some f → f.is err_stopped ≡ false)
        (h.bring_up p c.host).0 _ _ (λ _ y. cc) (λ g x y. cc (d.bring_up_error p c.host g x))

  stop_now-Shows : (c : Core h) → Shows none (stop_now no_config c)
  unfolding stop_now
  stop_now-Shows c = record { in_mihomo = d.brought_down c.host; in_core = refl }

  -- `restore` either runs the previous config or leaves mihomo and the core stopped.
  record Restored (previous : Config) (r : Option Failure × Core h) : Type 0 where
    done : r.0 ≡ none → Shows (some previous) r.1
    failed : (f : Failure) → r.0 ≡ some f → Shows none r.1

  restore-Restored :
      (previous : Config) (c : Core h) → Restored previous (restore no_config previous c)
  unfolding restore
  restore-Restored previous c =
      let P : Option Failure × Core h → Type 0 = λ r. Restored previous r in
      let c1 = stop_now no_config c in
      split_except P (h.prepare previous c1.host) _ _
        (λ p made.
          split_option P (run no_config previous p c1).0 _ _
            (λ x. record {
              done = λ _. run-Shows previous p c1 (d.prepared previous c1.host p made) x;
              failed = λ f y. cc;
            })
            (λ f _. record { done = λ y. cc; failed = λ _ _. stop_now-Shows _ }))
        (λ f _. record { done = λ y. cc; failed = λ _ _. stop_now-Shows _ })

  -- What `Apply` promises of its result, where `x` was in force before.
  pub record Kept (cfg : Config) (x : Option Config) (r : Option Failure × Core h) : Type 0 where
    pub done : r.0 ≡ none → Shows (some cfg) r.1
    pub failed : (f : Failure) → r.0 ≡ some f → f.is err_stopped ≡ false → Shows x r.1
    pub stopped : (f : Failure) → r.0 ≡ some f → f.is err_stopped ≡ true → Shows none r.1

  recover-Kept :
      (cfg : Config) (x : Option Config) (f : Failure) (c c' : Core h)
      → f.is err_stopped ≡ false
      → runs c ≡ x
      → Kept cfg x (recover no_config f c.running c.current c')
  unfolding recover
  recover-Kept cfg x f c c' quiet was =
      let P : Option Failure × Core h → Type 0 = λ r. Kept cfg x r in
      let b = restore-Restored c.current c' in
      split_bool P (not c.running) _ _
        (λ down.
          let nothing : none ≡ x = ground (arith, down, was) in
          record {
            done = λ y. cc;
            failed = λ _ _ _. Shows-as nothing (stop_now-Shows c');
            stopped = λ g y z. stop_now-Shows c';
          })
        (λ up.
          let it : some c.current ≡ x = ground (arith, up, was) in
          split_option P (restore no_config c.current c').0 _ _
            (λ y. record {
              done = λ z. cc;
              failed = λ _ _ _. Shows-as it (b.done y);
              stopped = λ g y z. cc;
            })
            (λ g y. record {
              done = λ z. cc;
              failed = λ k z w. cc (lost-stopped f g);
              stopped = λ _ _ _. b.failed g y;
            }))

  apply_prepared-Kept :
      (cfg : Config) (p : h.Parsed) (x : Option Config) (c : Core h)
      → d.origin p ≡ cfg
      → runs c ≡ x
      → Kept cfg x (apply_prepared no_config cfg p c)
  unfolding apply_prepared
  apply_prepared-Kept cfg p x c made was =
      let c0 = if not c.running then record c { host = h.reload_databases c.host } else c in
      split_option (λ (r : Option Failure × Core h). Kept cfg x r) (run no_config cfg p c0).0 _ _
        (λ y. record {
          done = λ _. run-Shows cfg p c0 made y;
          failed = λ f z. cc;
          stopped = λ f z. cc;
        })
        (λ f y. recover-Kept cfg x f c _ (run-quiet cfg p c0 f y) was)

  -- `Apply` runs the config, or reports an error and leaves in force what was before, or reports that
  -- the proxy stopped and leaves nothing in force.
  apply-Kept :
      (cfg : Config) (x : Option Config) (c : Core h)
      → Shows x c
      → Kept cfg x (apply no_config cfg c)
  unfolding apply
  apply-Kept cfg x c was =
      let P : Option Failure × Core h → Type 0 = λ r. Kept cfg x r in
      split_bool P (lacks_gvisor h cfg) _ _
        (λ _. record { done = λ y. cc; failed = λ _ _ _. was; stopped = λ f y z. cc gvisor-quiet })
        (λ _.
          split_except P (h.prepare cfg c.host) _ _
            (λ p y. apply_prepared-Kept cfg p x c (d.prepared cfg c.host p y) was.in_core)
            (λ f y. record {
              done = λ z. cc;
              failed = λ _ _ _. was;
              stopped = λ g z w. cc (d.prepare_error cfg c.host f y, invalid-quiet f);
            }))

  -- Where mihomo behaves as documented, has `x` in force and the core says so, `Apply` succeeds and the
  -- config is in force, or returns an error and `x` is in force, or returns an error that says that
  -- the proxy stopped and nothing is in force; the core says the same each time.
  pub apply-outcome :
      (cfg : Config) (x : Option Config) (c : Core h)
      → Shows x c
      → (((apply no_config cfg c).0 ≡ none) × Shows (some cfg) (apply no_config cfg c).1)
        ⊎ ((f : Failure) × ((apply no_config cfg c).0 ≡ some f)
            × (f.is err_stopped ≡ false)
            × Shows x (apply no_config cfg c).1)
        ⊎ ((f : Failure) × ((apply no_config cfg c).0 ≡ some f)
            × (f.is err_stopped ≡ true)
            × Shows none (apply no_config cfg c).1)
  apply-outcome cfg x c was =
      let r = apply-Kept cfg x c was in
      elim (Option-cases (apply no_config cfg c).0) [
        | inl y ↦ inl (y, r.done y)
        | inr (f, y) ↦ inr (elim (Bool-cases (f.is err_stopped)) [
          | inl gone ↦ inr (f, y, gone, r.stopped f y gone)
          | inr stays ↦ inl (f, y, stays, r.failed f y stays)
        ])
      ]

-- ===== src/Fake/Promises.antt =====
-- The in-memory engine keeps the promises of `core.Core`.
use omihomo.Base.{
  String, true, false, not, List, Option, none, some, ◌≡◌, refl, if◌then◌else◌, split_option,
  split_bool, ℕ, find, any, str_eq,
}
use omihomo.Engine.{Config, Profile, Failure, Except, GeodataFile, Contract, err_stopped}
use omihomo.Fake.{
  Core, apply, check, stop, select, tested, untested, test_delay, close_connections, fake,
}

abbrev pub runs : Core → Option Config
runs c = if c.running then some c.cfg else none

pub apply-done :
    (cfg : Config) (c : Core) → (apply cfg c).0 ≡ none → runs (apply cfg c).1 ≡ some cfg
unfolding apply
apply-done cfg c =
    split_option (λ (r : Option Failure × Core). r.0 ≡ none → runs r.1 ≡ some cfg) c.apply_err _ _
      (λ _ y. refl) (λ f _ y. cc)

pub apply-failed :
    (cfg : Config) (c : Core) (f : Failure)
    → (apply cfg c).0 ≡ some f
    → f.is err_stopped ≡ false
    → runs (apply cfg c).1 ≡ runs c
unfolding apply
apply-failed cfg c f =
    split_option
      (λ (r : Option Failure × Core). r.0 ≡ some f → f.is err_stopped ≡ false → runs r.1 ≡ runs c)
      c.apply_err _ _ (λ _ y z. cc)
      (λ g _.
        split_bool (λ (t : Core). some g ≡ some f → f.is err_stopped ≡ false → runs t ≡ runs c)
          (g.is err_stopped) _ _ (λ x y z. cc) (λ _ _ _. refl))

pub apply-stopped :
    (cfg : Config) (c : Core) (f : Failure)
    → (apply cfg c).0 ≡ some f
    → f.is err_stopped ≡ true
    → runs (apply cfg c).1 ≡ none
unfolding apply
apply-stopped cfg c f =
    split_option
      (λ (r : Option Failure × Core). r.0 ≡ some f → f.is err_stopped ≡ true → runs r.1 ≡ none)
      c.apply_err _ _ (λ _ y z. cc)
      (λ g _.
        split_bool (λ (t : Core). some g ≡ some f → f.is err_stopped ≡ true → runs t ≡ none)
          (g.is err_stopped) _ _ (λ _ _ _. refl) (λ x y z. cc))

pub select-runs :
    (quote : List ℕ → String) (group proxy : String) (c : Core)
    → runs (select quote group proxy c).1 ≡ runs c
unfolding select
select-runs quote group proxy c =
    let P : Option Failure × Core → Type 0 = λ r. runs r.1 ≡ runs c in
    split_bool P (not c.running) _ _ (λ _. refl)
      (λ _.
        split_option P (find (λ g. str_eq g.name group) c.groups) _ _ (λ _. refl)
          (λ g _.
            split_bool P (not g.selectable) _ _ (λ _. refl)
              (λ _.
                split_bool P (not (any (λ m. str_eq m.name proxy) g.members)) _ _ (λ _. refl)
                  (λ _. refl))))

pub test_delay-runs :
    (quote : List ℕ → String) (group : String) (proxies : List String) (c : Core)
    → runs (test_delay quote group proxies c).1 ≡ runs c
unfolding test_delay
test_delay-runs quote group proxies c =
    let P : Except (List (String × ℕ)) × Core → Type 0 = λ r. runs r.1 ≡ runs c in
    split_bool P (not c.running) _ _ (λ _. refl)
      (λ _.
        split_option P (find (λ g. str_eq g.name group) c.groups) _ _ (λ _. refl)
          (λ g _.
            split_option P (untested proxies (tested proxies g.members)) _ _ (λ _. refl)
              (λ _ _. refl)))

pub close_connections-runs :
    (ids : Option (List String)) (c : Core) → runs (close_connections ids c).1 ≡ runs c
unfolding close_connections
close_connections-runs ids c =
    split_bool (λ (r : Option Failure × Core). runs r.1 ≡ runs c) (not c.running) _ _ (λ _. refl)
      (λ _. refl)

pub stop-done : (c : Core) → runs (stop c).1 ≡ none
unfolding stop
stop-done c = refl

pub stop-never-fails : (c : Core) (f : Failure) → (stop c).0 ≡ some f → runs (stop c).1 ≡ runs c
unfolding stop
stop-never-fails c f x = cc

pub check-runs : (cfg : Config) (c : Core) → runs (check cfg c).1 ≡ runs c
unfolding check
check-runs cfg c = refl

-- The in-memory engine is a `core.Core` as its comment describes one, provided that no error of the
-- geodata files says that the engine stopped.
unfoldable pub fake-Contract :
    (quote : List ℕ → String) (need : Profile → List GeodataFile)
    (installs : GeodataFile → String → Option Failure)
    → ((g : GeodataFile) (path : String) (f : Failure)
        → installs g path ≡ some f
        → f.is err_stopped ≡ false)
    → Contract (fake quote need installs)
fake-Contract quote need installs h = record {
  runs = runs;
  apply_done = apply-done;
  apply_failed = apply-failed;
  apply_stopped = apply-stopped;
  install_geodata_error = λ g path p t f x. h g path f x;
  check_keeps = check-runs;
  stop_done = λ t _. stop-done t;
  stop_failed = stop-never-fails;
  select_keeps = select-runs quote;
  test_delay_keeps = test_delay-runs quote;
  close_connections_keeps = close_connections-runs;
  install_geodata_keeps = λ g path p t. refl;
}

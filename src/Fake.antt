-- ===== src/Fake.antt =====
-- internal/core/fakecore/fake.go: the in-memory engine. The files that `InstallGeodata` reads and
-- renames, and the geodata that a test asks for, are parameters.
pub mod Promises
use omihomo.Base.{
  ℕ, String, Bool, true, false, not, ◌&&◌, ◌||◌, List, [], ◌∷◌, map, any, find, keep, Option, none,
  some, str_eq, ltb, if◌then◌else◌, append, length, ◌==◌, codes,
}
use omihomo.Engine.{
  Config, Profile, Failure, Except, good, bad, Member, LiveGroup, GeodataFile, Engine, Sentinel,
  err_not_running, err_not_found, err_stopped, no_profile,
}

-- `Delays`; 0 is a failure.
unfoldable pub delay_of : String → ℕ
delay_of name =
    if str_eq name "Tokyo"
    then 120
    else if str_eq name "Amsterdam"
    then 85
    else if str_eq name "DIRECT"
    then 3
    else 0

abbrev is_not_running : Sentinel → Bool
is_not_running err_not_running = true
is_not_running _ = false

abbrev is_not_found : Sentinel → Bool
is_not_found err_not_found = true
is_not_found _ = false

-- `core.ErrNotRunning`, and an error that wraps `core.ErrNotFound`; `quote` shows code points as `%q`
-- does.
abbrev pub not_running : Failure
not_running = record { message = "the proxy is not running"; is = is_not_running; status = none }

abbrev pub not_found : String → Failure
not_found what = record { message = append what ": not found"; is = is_not_found; status = none }

abbrev no_proxy : (List ℕ → String) → String → String → Failure
no_proxy quote proxy group =
    not_found
      (append "proxy " (append (quote (codes proxy)) (append " in group " (quote (codes group)))))

-- `Core`; the connections are their ids.
pub record Core : Type 0 where
  pub running : Bool
  pub cfg : Config
  pub apply_err : Option Failure
  pub check_err : Option Failure
  pub groups : List LiveGroup
  pub connections : List String

abbrev pub member : String → String → Member
member name kind = record { name = name; kind = kind; alive = true; delay = 0 }

-- the groups and connections of `reset`
abbrev pub fixture_groups : List LiveGroup
fixture_groups =
    record {
      name = "Proxy";
      kind = "select";
      now = "Tokyo";
      selectable = true;
      members =
          member "Tokyo" "vless"
          ∷ member "Frankfurt" "trojan"
          ∷ member "Amsterdam" "hysteria2"
          ∷ member "Auto" "url-test"
          ∷ member "DIRECT" "direct"
          ∷ [];
    }
    ∷ record {
      name = "Auto";
      kind = "url-test";
      now = "Amsterdam";
      selectable = false;
      members =
          member "Tokyo" "vless"
          ∷ member "Frankfurt" "trojan"
          ∷ member "Amsterdam" "hysteria2"
          ∷ [];
    }
    ∷ []

abbrev pub fixture_connections : List String
fixture_connections = "c1" ∷ "c2" ∷ []

abbrev pub reset : Core → Core
reset c = record c { groups = fixture_groups; connections = fixture_connections }

-- the config of a core that never ran
abbrev pub no_config : Config
no_config = record {
  mode = "";
  tun = false;
  tun_redirect = false;
  tailscale = false;
  tailnet_proxy = false;
  omihomo_rules_disabled = false;
  primary_group = "";
  dns_destination = "";
  tun_bypass = [];
  profile = no_profile;
}

-- `New`
abbrev pub new : Core
new = record {
  running = false;
  cfg = no_config;
  apply_err = none;
  check_err = none;
  groups = fixture_groups;
  connections = fixture_connections;
}

-- `Apply`
unfoldable pub apply : Config → Core → Option Failure × Core
apply cfg c = elim c.apply_err [
  | some f ↦ (some f, if f.is err_stopped then record c { running = false } else c)
  | none ↦ (none, record (if not c.running then reset c else c) { cfg = cfg; running = true })
]

-- `Check`, `Stop` and `Groups`
unfoldable pub check : Config → Core → Option Failure × Core
check cfg c = (c.check_err, c)

unfoldable pub stop : Core → Option Failure × Core
stop c = (none, record c { running = false })

unfoldable pub groups_of : Core → Except (List LiveGroup)
groups_of c = if not c.running then bad not_running else good c.groups

abbrev named : String → LiveGroup → Bool
named name g = str_eq g.name name

abbrev has_member : String → LiveGroup → Bool
has_member name g = any (λ m. str_eq m.name name) g.members

-- the groups, with the choice of the first of this name
unfoldable pub choose : String → String → List LiveGroup → List LiveGroup
choose group proxy [] = []
choose group proxy (g ∷ gs) =
    let rest = choose group proxy gs in
    if named group g then record g { now = proxy } ∷ gs else g ∷ rest

-- `Select`
unfoldable pub select : (List ℕ → String) → String → String → Core → Option Failure × Core
select quote group proxy c =
    if not c.running then (some not_running, c) else elim (find (named group) c.groups) [
      | none ↦ (some (not_found (append "selectable group " (quote (codes group)))), c)
      | some g ↦
          if not g.selectable
          then (some (not_found (append "selectable group " (quote (codes group)))), c)
          else if not (has_member proxy g)
          then (some (no_proxy quote proxy group), c)
          else (none, record c { groups = choose group proxy c.groups })
    ]

-- an assignment to the map of delays
unfoldable pub put_delay : String → ℕ → List (String × ℕ) → List (String × ℕ)
put_delay k d [] = (k, d) ∷ []
put_delay k d ((k', d') ∷ m) =
    let rest = put_delay k d m in if str_eq k' k then (k, d) ∷ m else (k', d') ∷ rest

unfoldable pub tested : List String → List Member → List (String × ℕ)
tested proxies [] = []
tested proxies (m ∷ ms) =
    let rest = tested proxies ms in
    if ltb 0 (length proxies) && not (any (λ p. str_eq p m.name) proxies)
    then rest
    else put_delay m.name (delay_of m.name) rest

-- the first of these proxies that was not tested
unfoldable pub untested : List String → List (String × ℕ) → Option String
untested proxies out = find (λ p. not (any (λ (r : String × ℕ). str_eq r.0 p) out)) proxies

unfoldable pub find_delay : String → List (String × ℕ) → Option ℕ
find_delay name out = elim (find (λ (r : String × ℕ). str_eq r.0 name) out) [
  | none ↦ none
  | some r ↦ some r.1
]

abbrev note_delay : List (String × ℕ) → Member → Member
note_delay out m = elim (find_delay m.name out) [
  | none ↦ m
  | some d ↦ record m { delay = d; alive = ltb 0 d }
]

abbrev note_delays : List (String × ℕ) → LiveGroup → LiveGroup
note_delays out g = record g { members = map (note_delay out) g.members }

-- `TestDelay`
unfoldable pub test_delay :
    (List ℕ → String) → String → List String → Core → Except (List (String × ℕ)) × Core
test_delay quote group proxies c =
    if not c.running then (bad not_running, c) else elim (find (named group) c.groups) [
      | none ↦ (bad (not_found (append "group " (quote (codes group)))), c)
      | some g ↦
          let out = tested proxies g.members in
          elim (untested proxies out) [
            | some p ↦ (bad (no_proxy quote p group), c)
            | none ↦ (good out, record c { groups = map (note_delays out) c.groups })
          ]
    ]

-- `CloseConnections`; no ids stand for all
unfoldable pub close_connections : Option (List String) → Core → Option Failure × Core
close_connections ids c = if not c.running then (some not_running, c) else (
  none,
  record c {
    connections = elim ids [
      | none ↦ []
      | some is ↦ keep (λ x. not (any (λ i. str_eq i x) is)) c.connections
    ];
  },
)

-- the engine: `need` is what `SetGeodata` set, and `installs` what the files make of `InstallGeodata`
abbrev pub fake :
    (List ℕ → String)
    → (Profile → List GeodataFile)
    → (GeodataFile → String → Option Failure)
    → Engine
fake quote need installs = record {
  T = Core;
  apply = apply;
  check = check;
  stop = stop;
  groups = groups_of;
  select = select quote;
  test_delay = test_delay quote;
  close_connections = close_connections;
  geodata = need;
  install_geodata = λ f path p c. (installs f path, c);
}

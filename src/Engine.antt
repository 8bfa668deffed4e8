-- ===== src/Engine.antt =====
-- internal/core: what the daemon gives a proxy engine to run, and the interface of the engine.
-- An engine is any implementation of `core.Core`; `Contract` is what the comment on `Core` promises.
use omihomo.Base.{
  refl, ℕ, String, Bool, true, false, List, [], ◌∷◌, ◌++◌, Option, none, some, ◌≡◌, if◌then◌else◌,
}

-- `map[string]any`, the options of a proxy or a group: `negative n` is the integer -(n + 1), and a
-- `real` is a `float64` as its text.
mutual
  pub data Any : Type 0 where
    null : Any
    flag : Bool → Any
    number : ℕ → Any
    negative : ℕ → Any
    real : String → Any
    text : String → Any
    array : Anys → Any
    object : Options → Any

  pub data Anys : Type 0 where
    nil : Anys
    cons : Any → Anys → Anys

  pub data Options : Type 0 where
    end : Options
    option : String → Any → Options → Options

-- an address range: the address as a number, and the length of the prefix
pub data Prefix : Type 0 where
  v4 : ℕ → ℕ → Prefix
  v6 : ℕ → ℕ → Prefix

-- where a rule comes from: `SourceUser`, `SourceOmihomo`, `SourceSubscription`
pub data Source : Type 0 where
  user integration subscription : Source

pub record Rule : Type 0 where
  pub kind : String
  pub value : String
  pub target : String
  pub params : List String
  pub source : Source

pub record Proxy : Type 0 where
  pub name : String
  pub kind : String
  pub options : Options

pub record Group : Type 0 where
  pub name : String
  pub kind : String
  pub members : List String
  pub options : Options

pub record RuleSet : Type 0 where
  pub name : String
  pub behavior : String
  pub payload : List String

pub record Profile : Type 0 where
  pub proxies : List Proxy
  pub groups : List Group
  pub sub_rules : List (String × List Rule)
  pub rules : List Rule
  pub rule_sets : List RuleSet

-- `core.Profile{}`
abbrev pub no_profile : Profile
no_profile = record { proxies = []; groups = []; sub_rules = []; rules = []; rule_sets = [] }

pub record Config : Type 0 where
  pub mode : String
  pub tun : Bool
  pub tun_redirect : Bool
  pub tailscale : Bool
  pub tailnet_proxy : Bool
  pub omihomo_rules_disabled : Bool
  pub primary_group : String
  pub dns_destination : String
  pub tun_bypass : List Prefix
  pub profile : Profile

-- the errors that callers look for by `errors.Is`
pub data Sentinel : Type 0 where
  err_invalid err_not_running err_not_found err_stopped : Sentinel
  deadline_exceeded err_too_large err_direct_required err_not_exist : Sentinel

-- A Go error: its text, what `errors.Is` finds in it, and the Retry-After of a `StatusError` in it.
pub record Failure : Type 0 where
  pub message : String
  pub is : Sentinel → Bool
  pub status : Option ℕ

pub data Except {ℓ} (A : Type ℓ) : Type ℓ where
  good : A → Except A
  bad : Failure → Except A

pub split_except {ℓ κ ι} :
    {A : Type ℓ} {B : Type κ} (P : B → Type ι) (x : Except A) (f : A → B) (g : Failure → B)
    → ((a : A) → x ≡ good a → P (f a))
    → ((y : Failure) → x ≡ bad y → P (g y))
    → P (elim x [ good a ↦ f a | bad y ↦ g y ])
split_except P (good a) f g h k = h a refl
split_except P (bad y) f g h k = k y refl

-- a running group, as clients see it
pub record Member : Type 0 where
  pub name : String
  pub kind : String
  pub alive : Bool
  pub delay : ℕ

pub record LiveGroup : Type 0 where
  pub name : String
  pub kind : String
  pub now : String
  pub selectable : Bool
  pub members : List Member

pub record GeodataFile : Type 0 where
  pub path : String
  pub url : String

-- `core.Core`. `T` is the state of an engine, with all that decides how its calls turn out.
pub record Engine : Type 1 where
  pub T : Type 0
  pub apply : Config → T → Option Failure × T
  pub check : Config → T → Option Failure × T
  pub stop : T → Option Failure × T
  pub groups : T → Except (List LiveGroup)
  pub select : String → String → T → Option Failure × T
  pub test_delay : String → List String → T → Except (List (String × ℕ)) × T
  pub close_connections : Option (List String) → T → Option Failure × T
  pub geodata : Profile → List GeodataFile
  pub install_geodata : GeodataFile → String → Profile → T → Option Failure × T

-- The promises of `Core`, for `runs`, the config that an engine runs, or none while it is stopped.
pub record Contract (e : Engine) : Type 1 where
  pub runs : e.T → Option Config
  pub apply_done : (c : Config) (t : e.T) → (e.apply c t).0 ≡ none → runs (e.apply c t).1 ≡ some c
  pub apply_failed :
      (c : Config) (t : e.T) (f : Failure)
      → (e.apply c t).0 ≡ some f
      → f.is err_stopped ≡ false
      → runs (e.apply c t).1 ≡ runs t
  pub apply_stopped :
      (c : Config) (t : e.T) (f : Failure)
      → (e.apply c t).0 ≡ some f
      → f.is err_stopped ≡ true
      → runs (e.apply c t).1 ≡ none
  -- only `Apply` says that the engine stopped
  pub install_geodata_error :
      (g : GeodataFile) (path : String) (p : Profile) (t : e.T) (f : Failure)
      → (e.install_geodata g path p t).0 ≡ some f
      → f.is err_stopped ≡ false
  pub check_keeps : (c : Config) (t : e.T) → runs (e.check c t).1 ≡ runs t
  pub stop_done : (t : e.T) → (e.stop t).0 ≡ none → runs (e.stop t).1 ≡ none
  pub stop_failed : (t : e.T) (f : Failure) → (e.stop t).0 ≡ some f → runs (e.stop t).1 ≡ runs t
  pub select_keeps : (g p : String) (t : e.T) → runs (e.select g p t).1 ≡ runs t
  pub test_delay_keeps :
      (g : String) (ps : List String) (t : e.T) → runs (e.test_delay g ps t).1 ≡ runs t
  pub close_connections_keeps :
      (ids : Option (List String)) (t : e.T) → runs (e.close_connections ids t).1 ≡ runs t
  pub install_geodata_keeps :
      (g : GeodataFile) (path : String) (p : Profile) (t : e.T)
      → runs (e.install_geodata g path p t).1 ≡ runs t

abbrev integration_rule : String → String → String → List String → Rule
integration_rule kind value target params = record {
  kind = kind;
  value = value;
  target = target;
  params = params;
  source = integration;
}

-- `core.IntegrationRules`
unfoldable pub integration_rules : Config → List Rule
integration_rules c = elim c.profile.groups [
  | [] ↦ []
  | g ∷ gs ↦
      (if c.tailnet_proxy
        then integration_rule "IP-CIDR" "100.64.0.0/10" "GLOBAL" ("no-resolve" ∷ [])
          ∷ integration_rule "DOMAIN-SUFFIX" "ts.net" "GLOBAL" []
          ∷ []
        else [])
      ++ (if c.tailscale
          then integration_rule "IP-CIDR" "100.64.0.0/10" "DIRECT" ("no-resolve" ∷ [])
            ∷ integration_rule "IP-CIDR" "fd7a:115c:a1e0::/48" "DIRECT" ("no-resolve" ∷ [])
            ∷ integration_rule "DOMAIN-SUFFIX" "tailscale.com" "GLOBAL" []
            ∷ integration_rule "DOMAIN-SUFFIX" "tailscale.io" "GLOBAL" []
            ∷ []
          else [])
]

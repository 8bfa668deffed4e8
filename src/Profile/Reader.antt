-- ===== src/Profile/Reader.antt =====
-- internal/profile/profile.go: a parsed subscription, and what `Build` calls of other packages and of
-- proxy.go. A YAML mapping is an `Options`.
use Prim.Native.String.{String}
use omihomo.Base.{Bool, false, List, [], ◌∷◌, Option, none, some, str_eq, if◌then◌else◌}
use omihomo.Engine.{Any, Anys, Options, flag, text, array, object, end, option, Proxy, Except}

pub record Reader : Type 1 where
  -- `regexp2.Compile`, and `MatchString`, which has no answer once the time for filters is up
  pub Re : Type 0
  pub compile : String → Option Re
  pub matches : Re → String → Option Bool
  -- `Proxy` of proxy.go, and `Links`
  pub proxy : Options → Except Proxy
  pub links : String → Except (List Options)
  -- `fetch.CheckURL`
  pub check_url : String → Bool
  -- `yaml.Unmarshal` of a provider's proxies, none of them where it fails, and of its payload
  pub yaml_proxies : String → List Options
  pub yaml_payload : String → Except Any
  -- `strconv.Atoi` and `strconv.Itoa`, and the conversion of a `float64` that is a whole number
  pub atoi : String → Option Any
  pub itoa : Any → String
  pub whole_float : String → Option Any
  pub upper : String → String
  pub lower : String → String

-- `Document`; a list of sub-rules may be nil
pub record Document : Type 0 where
  pub proxies : List Options
  pub groups : List Options
  pub sub_rules : List (String × Option (List String))
  pub rules : List String
  pub proxy_providers : List (String × Options)
  pub rule_providers : List (String × Options)
  pub wrapped : Bool

-- a key of a map
unfoldable pub find_key {ℓ} : {A : Type ℓ} → String → List (String × A) → Option A
find_key k [] = none
find_key k ((x, a) ∷ m) = if str_eq x k then some a else find_key k m

unfoldable pub get : String → Options → Option Any
get k end = none
get k (option x v o) = if str_eq x k then some v else get k o

-- `v.(string)`, `v.([]any)` and `v.(map[string]any)`, with the zero value where v is something else
abbrev pub as_text : Option Any → String
as_text (some (text s)) = s
as_text _ = ""

abbrev pub as_list : Option Any → Option Anys
as_list (some (array vs)) = some vs
as_list _ = none

abbrev pub as_object : Option Any → Option Options
as_object (some (object o)) = some o
as_object _ = none

-- `v == true`
abbrev pub is_true : Option Any → Bool
is_true (some (flag b)) = b
is_true _ = false

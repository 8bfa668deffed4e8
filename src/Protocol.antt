-- ===== src/Protocol.antt =====
-- internal/protocol/protocol.go and rules.go: what the daemon and its clients exchange.
use omihomo.Base.{String, Bool, String_discrete}

-- the error codes
pub data Code : Type 0 where
  bad_request unknown_op invalid not_found not_running conflict unsupported busy : Code
  forbidden core_failed too_large fetch_failed rejected internal : Code

pub record Error : Type 0 where
  pub code : Code
  pub message : String

-- the proxy states
pub data State : Type 0 where
  stopped starting on degraded : State

pub record CategoryTargets : Type 0 where
  pub domains : String
  pub addresses : String
  pub applications : String
  pub ports : String
  pub inbound : String
  pub rule_sets : String
  pub logic : String
  pub other : String

pub record Settings : Type 0 where
  pub category_targets : CategoryTargets
  pub omihomo_rules_disabled : Bool
  pub subscription_rules_disabled : Bool
  pub mode : String
  pub tun : Bool
  pub tun_redirect : Bool
  pub tailscale : Bool
  pub tailnet_proxy : Bool
  pub primary_group : String
  pub dns_destination : String

-- the fields of a `RuleEntry` but its category
pub record RuleFields : Type 0 where
  pub kind : String
  pub value : String
  pub target : String
  pub params : String
  pub disabled : Bool

-- `RuleEntry` and `RuleCategory`; `no_category` is the nil pointer.
mutual
  pub data RuleEntry : Type 0 where
    entry : RuleFields → CategoryRef → RuleEntry

  pub data CategoryRef : Type 0 where
    no_category : CategoryRef
    category : String → String → Entries → CategoryRef

  pub data Entries : Type 0 where
    nil : Entries
    cons : RuleEntry → Entries → Entries

unfoldable pub Entries-discrete : Discrete Entries
Entries-discrete = hlevel String_discrete

unfoldable pub Settings-discrete : Discrete Settings
Settings-discrete = hlevel String_discrete

-- `PruneCategories`: the entries but the categories with no rule
unfoldable pub prune_categories : Entries → Entries
prune_categories nil = nil
prune_categories (cons (entry f no_category) es) = cons (entry f no_category) (prune_categories es)
prune_categories (cons (entry f (category id name nil)) es) = prune_categories es
prune_categories (cons (entry f (category id name (cons r rs))) es) =
    cons (entry f (category id name (cons r rs))) (prune_categories es)

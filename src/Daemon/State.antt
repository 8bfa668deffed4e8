-- ===== src/Daemon/State.antt =====
-- internal/daemon/daemon.go (`server`), session.go (`session`) and internal/state/state.go: the
-- state that the daemon keeps in memory and on disk, and what it uses of the world outside.
use omihomo.Base.{◌≡◌, false, some, ◌==◌, ℕ, String, Bool, List, Option}
use omihomo.Protocol.{Error, Entries, State, Settings}
use omihomo.Engine
use omihomo.Engine.{Engine, Profile, Prefix, LiveGroup, Failure, Except, bad, err_stopped}

-- `state.Settings`: the owner's settings and rules as last applied, and whether the proxy was on
pub record Stored : Type 0 where
  pub settings : Settings
  pub rules : Entries
  pub running : Bool

-- `state.Subscription`; the times are unix milliseconds.
pub record Subscription : Type 0 where
  pub id : String
  pub name : String
  pub url : String
  pub updated_at : ℕ
  pub interval_seconds : ℕ
  pub upload : Option ℕ
  pub download : Option ℕ
  pub total : Option ℕ
  pub expire : Option ℕ
  pub last_attempt : ℕ
  pub retry_at : ℕ
  pub held_until : ℕ
  pub last_error : String

-- `state.Subscriptions`; `active` is the empty text where there is none.
pub record Subscriptions : Type 0 where
  pub active : String
  pub list : List Subscription

-- the bytes of a file or of a download
abbrev pub Bytes : Type 0
Bytes = List ℕ

-- `state.Snapshot`: a body, and the bodies of its providers by key
pub record Snapshot : Type 0 where
  pub body : Bytes
  pub providers : List (String × Bytes)

-- the files of the state directory, as last written
pub record Disk : Type 0 where
  pub settings : Stored
  pub subscriptions : Subscriptions
  pub snapshots : List (String × Snapshot)

-- the streams of protocol.go
pub data Stream : Type 0 where
  status groups rules subscriptions downloads traffic connections : Stream

abbrev stream_index : Stream → ℕ
stream_index status = 0
stream_index groups = 1
stream_index rules = 2
stream_index subscriptions = 3
stream_index downloads = 4
stream_index traffic = 5
stream_index connections = 6

abbrev pub same_stream : Stream → Stream → Bool
same_stream s t = stream_index s == stream_index t

-- `protocol.Status`; a prefix stands for its text.
pub record Status : Type 0 where
  pub state : State
  pub detail : String
  pub active_subscription : String
  pub primary_group : String
  pub dns_destination : String
  pub mode : String
  pub tun : Bool
  pub tun_redirect : Bool
  pub tailscale : Bool
  pub tailscale_present : Bool
  pub tailnet_proxy : Bool
  pub started_at : ℕ
  pub tun_bypass : List Prefix

-- `protocol.Rule`
pub record ListedRule : Type 0 where
  pub kind : String
  pub value : String
  pub target : String
  pub source : Engine.Source
  pub params : String
  pub inactive : Bool
  pub index : ℕ
  pub category : String
  pub disabled : Bool
  pub unreachable : Bool
  pub inactive_reason : String

-- `protocol.RuleList`
pub record RuleList : Type 0 where
  pub rules : List ListedRule
  pub entries : Entries
  pub omihomo_disabled : Bool
  pub subscription_disabled : Bool
  pub rule_sets : List String
  pub sub_rules : List String

-- `protocol.Subscription`
pub record Described : Type 0 where
  pub name : String
  pub updated_at : ℕ
  pub upload : Option ℕ
  pub download : Option ℕ
  pub total : Option ℕ
  pub expire : Option ℕ
  pub active : Bool
  pub interval : ℕ
  pub next_update : ℕ
  pub error : String

-- `protocol.PendingDownload`
pub record PendingDownload : Type 0 where
  pub id : String
  pub label : String

-- what a stream carries, or a reply
pub data Payload : Type 0 where
  status_now : Status → Payload
  group_list : List LiveGroup → Payload
  rule_list : RuleList → Payload
  subscription_list : List Described → Payload
  download_list : List PendingDownload → Payload
  one_group : LiveGroup → Payload
  one_subscription : Described → Payload
  delays : List (String × ℕ) → Payload
  nothing : Payload

-- `protocol.Event`
pub data Event : Type 0 where
  pushed : Stream → Payload → Event
  push_error : Stream → Error → Event

-- `session`: the streams it wants, the lines queued for its client, and whether it is closed
pub record Session : Type 0 where
  pub id : ℕ
  pub streams : List Stream
  pub out : List Bytes
  pub done : Bool

-- `profile.Usage`
pub record Usage : Type 0 where
  pub upload : Option ℕ
  pub download : Option ℕ
  pub total : Option ℕ
  pub expire : Option ℕ

-- `fetch.Request`; a limit or a timeout of 0 is the default.
pub record Request : Type 0 where
  pub url : String
  pub max_bytes : ℕ
  pub timeout : ℕ
  pub allow_direct : Bool

-- a provider that a subscription names: `profile.Download`
pub record Provider : Type 0 where
  pub name : String
  pub key : String
  pub url : String

-- What the daemon calls outside itself and the engine. `T` is the state of that world, with all that
-- decides how the calls turn out; a duration and an instant are nanoseconds.
pub record Outside : Type 1 where
  pub T : Type 0
  -- `cfg.now`, `time.Now`, `state.NewID`, `cfg.tailscalePresent`
  pub now : T → ℕ
  -- `cfg.downloadLimit`
  pub download_limit : ℕ
  pub wall_clock : T → ℕ
  pub new_id : T → String × T
  pub tailscale_present : T → Bool
  -- `cfg.tailscaleSync`, nil where there is none
  pub tailscale_sync : Option (Bool → T → Option Failure × T)
  -- whether writing a file, or removing one, fails
  pub write_fault : String → T → Option Failure × T
  -- `fetcher.Get`, with the body and the headers of a response
  pub Header : Type 0
  pub get : Request → T → Except (Bytes × Header) × T
  -- what the owner answers to a request for a direct download; none where the time is over first
  pub decide : String → T → Option Bool × T
  -- whether that time is over when an answer has come
  pub expired : T → Bool
  -- internal/profile: `Read`, `Downloads`, `Build`, and what the headers say
  pub Doc : Type 0
  pub read : Bytes → Except Doc
  pub providers : Doc → List Provider
  pub build : Doc → List (String × Bytes) → Except Profile
  pub interval : Header → ℕ
  pub usage : Header → Usage
  pub title : Header → String → String
  -- `fetch.CheckURL`
  pub check_url : String → Option Failure
  -- `os.Stat` of a geodata file: none where it is in place
  pub stat : String → T → Option Failure
  -- the time of its last change
  pub modified : String → T → ℕ
  -- the temporary file that a download is saved to, or why it could not be
  pub save_temporary : String → Bytes → T → Except String × T
  -- `os.Remove` of it, whose error nobody reads
  pub remove_temporary : String → T → T
  -- `json.Marshal` of an event
  pub marshal : Event → Except Bytes
  -- `netip.ParsePrefix`: whether the prefix is one of IPv6, none where the text is no prefix
  pub parse_prefix : String → Option Bool
  -- `strings.ToLower`
  pub lower : String → String
  -- `%q` of the text with these code points
  pub quote : List ℕ → String
  -- how `fmt` shows the time from one instant to another, in seconds, and an instant
  pub show_duration : ℕ → ℕ → String
  pub show_time : ℕ → String

-- `server`. Its mutexes are not here: a call that holds `opMu` is one step of the model.
pub record Server (e : Engine) (o : Outside) : Type 0 where
  pub engine : e.T
  pub outside : o.T
  pub disk : Disk
  pub state : State
  pub detail : String
  pub started_at : ℕ
  pub settings : Stored
  pub subs : Subscriptions
  pub profile : Profile
  pub restore_pending : Bool
  pub add_asked : List (String × ℕ)
  pub downloads : List PendingDownload
  pub sessions : List Session
  -- the last line of each stream, no bytes where there is none
  pub last_pushed : Stream → Bytes
  -- `lastStatus`: the two fields of it that are read
  pub last_active : String
  pub last_started : ℕ

-- No error from outside the engine says that the engine stopped.
pub record NoFalseStop (o : Outside) : Type 0 where
  pub get_error :
      (r : Request) (t : o.T) (f : Failure) → (o.get r t).0 ≡ bad f → f.is err_stopped ≡ false
  pub save_error :
      (path : String) (b : Bytes) (t : o.T) (f : Failure)
      → (o.save_temporary path b t).0 ≡ bad f
      → f.is err_stopped ≡ false
  pub stat_error :
      (path : String) (t : o.T) (f : Failure) → o.stat path t ≡ some f → f.is err_stopped ≡ false

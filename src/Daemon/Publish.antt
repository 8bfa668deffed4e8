-- ===== src/Daemon/Publish.antt =====
-- What clients see: `status`, `subscriptionList` and `snapshot`, and how a push reaches the sessions
-- (ops.go, daemon.go, session.go, protocol/lines.go).
use omihomo.Base.{
  ℕ, ◌+◌, ◌*◌, ◌/◌, ◌^◌, String, Bool, true, false, not, ◌&&◌, ◌||◌, List, [], ◌∷◌, ◌++◌, map,
  length, any, find, Option, none, some, str_eq, ltb, ◌==◌, if◌then◌else◌, append, decimal,
}
use omihomo.Protocol.{Code, Error, internal, too_large, State, stopped, on, degraded}
use omihomo.Engine.{Engine, Failure, Except, good, bad, LiveGroup, Sentinel, err_too_large}
use omihomo.Daemon.State.{
  Bytes, Stream, status, groups, rules, subscriptions, downloads, traffic, connections, same_stream,
  Status, Described, Payload, status_now, group_list, rule_list, subscription_list, download_list,
  nothing, Event, pushed, push_error, Session, Outside, Server, Subscription, Subscriptions,
}
use omihomo.Daemon.Compile.{bypass, list_rules}

abbrev pub fail : Code → String → Error
fail code message = record { code = code; message = message }

-- `errors.New`
abbrev pub plain : String → Failure
plain message = record { message = message; is = λ _. false; status = none }

-- `fmt.Errorf` that wraps `f` behind a text
abbrev pub wrap : String → Failure → Failure
wrap before f = record f { message = append before f.message }

-- `activeSub`
unfoldable pub active_sub : Subscriptions → Option Subscription
active_sub subs =
    if str_eq subs.active "" then none else find (λ s. str_eq s.id subs.active) subs.list

-- `nextUpdate`
unfoldable pub next_update : Subscription → ℕ
next_update sub =
    if not (sub.retry_at == 0) then sub.retry_at else sub.updated_at + sub.interval_seconds * 1000

unfoldable pub describe : Subscription → Bool → Described
describe sub active = record {
  name = sub.name;
  updated_at = sub.updated_at;
  upload = sub.upload;
  download = sub.download;
  total = sub.total;
  expire = sub.expire;
  active = active;
  interval = sub.interval_seconds;
  next_update = next_update sub;
  error = sub.last_error;
}

abbrev pub max_line : ℕ
max_line = 2 ^ 20

abbrev pub send_queue : ℕ
send_queue = 256

-- `sendLine`: a client whose queue is full is disconnected
unfoldable pub send_line : Bytes → Session → Session
send_line b s =
    if s.done
    then s
    else if ltb (length s.out) send_queue
    then record s { out = s.out ++ b ∷ [] }
    else record s { done = true }

abbrev pub wants : Stream → Session → Bool
wants stream s = any (same_stream stream) s.streams

unfoldable pub same_bytes : Bytes → Bytes → Bool
same_bytes [] [] = true
same_bytes (x ∷ xs) (y ∷ ys) = x == y && same_bytes xs ys
same_bytes _ _ = false

abbrev pub update_stream : Stream → Bytes → (Stream → Bytes) → Stream → Bytes
update_stream stream b m t = if same_stream stream t then b else m t

abbrev is_session : Option ℕ → Session → Bool
is_session none s = false
is_session (some i) s = s.id == i

abbrev is_too_large : Sentinel → Bool
is_too_large err_too_large = true
is_too_large _ = false

abbrev pub too_long : ℕ → Failure
too_long n = record {
  message =
      append "message over the line limit: "
        (append (decimal n) (append " bytes, the limit is " (decimal max_line)));
  is = is_too_large;
  status = none;
}

-- `protocol.Line`
unfoldable pub line : (o : Outside) → Event → Except Bytes
line o v = elim (o.marshal v) [
  | bad f ↦ bad f
  | good b ↦ if ltb max_line (length b) then bad (too_long (length b)) else good (b ++ b'\n' ∷ [])
]

abbrev or_empty : Except Bytes → Bytes
or_empty (good b) = b
or_empty (bad _) = []

-- `eventLine`: a value that cannot be sent is pushed as an error
unfoldable pub event_line : (o : Outside) → Stream → Payload → Bytes
unfolding line
event_line o stream v = elim (line o (pushed stream v)) [
  | good b ↦ b
  | bad f ↦ or_empty (
      line o
        (push_error stream (fail (if f.is err_too_large then too_large else internal) f.message)))
]

abbrev pub name_of : Option Subscription → String
name_of none = ""
name_of (some s) = s.name

abbrev pub is_up : State → Bool
is_up on = true
is_up degraded = true
is_up _ = false

abbrev started_at_in : State → ℕ → ℕ → ℕ
started_at_in on now at = if at == 0 then now else at
started_at_in stopped now at = 0
started_at_in _ now at = at

abbrev groups_or_none : Except (List LiveGroup) → List LiveGroup
groups_or_none (good gs) = gs
groups_or_none (bad _) = []

module _ {e : Engine} {o : Outside} where
  unfoldable pub status_of : Server e o → Status
  status_of s = record {
    state = s.state;
    detail = s.detail;
    active_subscription = name_of (active_sub s.subs);
    primary_group = s.settings.settings.primary_group;
    dns_destination = s.settings.settings.dns_destination;
    mode = s.settings.settings.mode;
    tun = s.settings.settings.tun;
    tun_redirect = s.settings.settings.tun_redirect;
    tailscale = s.settings.settings.tailscale;
    tailscale_present = o.tailscale_present s.outside;
    tailnet_proxy = s.settings.settings.tailnet_proxy;
    started_at = s.started_at;
    tun_bypass = bypass s.settings;
  }

  unfoldable pub subscription_list_of : Server e o → List Described
  subscription_list_of s = map (λ x. describe x (str_eq x.id s.subs.active)) s.subs.list

  unfoldable pub snapshot : Stream → Server e o → Payload
  unfolding status_of subscription_list_of
  snapshot status s = status_now (status_of s)
  snapshot groups s = group_list (groups_or_none (e.groups s.engine))
  snapshot rules s = rule_list (list_rules s.settings s.profile)
  snapshot subscriptions s = subscription_list (subscription_list_of s)
  snapshot downloads s = download_list s.downloads
  snapshot traffic s = nothing
  snapshot connections s = nothing

  -- a status with another subscription or start time forgets the groups that were pushed last
  abbrev note_status : Payload → Server e o → Server e o
  note_status (status_now v) s =
      let moved =
        not (str_eq v.active_subscription s.last_active) || not (v.started_at == s.last_started) in
      record s {
        last_pushed = if moved then update_stream groups [] s.last_pushed else s.last_pushed;
        last_active = v.active_subscription;
        last_started = v.started_at;
      }
  note_status _ s = s

  abbrev pub send_to : (Session → Bool) → Bytes → Server e o → Server e o
  send_to to b s = record s { sessions = map (λ x. if to x then send_line b x else x) s.sessions }

  -- a line goes to the subscribers if it differs from the last one, and to `also` in any case
  unfoldable pub push_line : Stream → Bytes → Option ℕ → Server e o → Server e o
  push_line stream b also s =
      let sent =
        if same_bytes (s.last_pushed stream) b
        then s
        else send_to (λ x. wants stream x && not (is_session also x)) b
            (record s { last_pushed = update_stream stream b s.last_pushed }) in
      send_to (is_session also) b sent

  -- `publishLocked`
  unfoldable pub publish_stream : Stream → Option ℕ → Server e o → Server e o
  unfolding snapshot
  publish_stream stream also s =
      let v = snapshot stream s in push_line stream (event_line o stream v) also (note_status v s)

  -- `publish`, over `stateStreams`
  unfoldable pub publish : Server e o → Server e o
  publish s = publish_stream downloads none (
      publish_stream subscriptions none
        (publish_stream rules none (publish_stream groups none (publish_stream status none s))))

  unfoldable pub is_running : Server e o → Bool
  is_running s = is_up s.state

  -- `setState`
  unfoldable pub set_state : State → String → Server e o → Server e o
  set_state next detail s = record s {
    state = next;
    detail = detail;
    started_at = started_at_in next (o.wall_clock s.outside / 1000000) s.started_at;
  }

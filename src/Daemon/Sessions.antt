-- ===== src/Daemon/Sessions.antt =====
-- internal/daemon/ops.go (`subscribe`), daemon.go (`admit`, `tick`) and session.go: the clients'
-- sessions, the streams they want and the lines queued for them.
use omihomo.Base.{
  ℕ, String, Bool, true, false, not, ◌&&◌, List, [], ◌∷◌, ◌++◌, map, any, keep, Option, none, some,
  str_eq, ◌==◌, if◌then◌else◌, append, codes,
}
use omihomo.Protocol.{Error, invalid}
use omihomo.Engine.{Engine}
use omihomo.Daemon.State.{
  Stream, status, groups, rules, subscriptions, downloads, traffic, connections, same_stream,
  Session, Outside, Server, Payload, Bytes,
}
use omihomo.Daemon.Publish.{fail, wants, publish_stream, event_line, send_to, is_running}

-- the names of the streams
unfoldable pub parse_stream : String → Option Stream
parse_stream name =
    if str_eq name "status"
    then some status
    else if str_eq name "groups"
    then some groups
    else if str_eq name "rules"
    then some rules
    else if str_eq name "subscriptions"
    then some subscriptions
    else if str_eq name "downloads"
    then some downloads
    else if str_eq name "traffic"
    then some traffic
    else if str_eq name "connections"
    then some connections
    else none

-- `stateStreams`: the streams that are pushed when they change
abbrev pub is_state_stream : Stream → Bool
is_state_stream traffic = false
is_state_stream connections = false
is_state_stream _ = true

-- the streams of these names, or the first name that is none
pub data Named : Type 0 where
  streams_named : List Stream → Named
  unknown : String → Named

pub split_named {ι} :
    {B : Type 0} (P : B → Type ι) (x : Named) (f : List Stream → B) (g : String → B)
    → ((xs : List Stream) → P (f xs))
    → ((n : String) → P (g n))
    → P (elim x [ unknown n ↦ g n | streams_named xs ↦ f xs ])
split_named P (streams_named xs) f g h k = h xs
split_named P (unknown n) f g h k = k n

abbrev with_stream : Stream → Named → Named
with_stream x (streams_named xs) = streams_named (x ∷ xs)
with_stream x (unknown n) = unknown n

unfoldable pub parse_streams : List String → Named
parse_streams [] = streams_named []
parse_streams (n ∷ ns) =
    let rest = parse_streams ns in
    elim (parse_stream n) [ none ↦ unknown n | some x ↦ with_stream x rest ]

-- the streams that a session wants after it turned one on or off
unfoldable pub switch : Bool → Stream → List Stream → List Stream
switch up x xs =
    if up
    then (if any (same_stream x) xs then xs else x ∷ xs)
    else keep (λ y. not (same_stream x y)) xs

-- those that were not on before, in order
unfoldable pub fresh_streams : List Stream → List Stream → List Stream
fresh_streams [] xs = []
fresh_streams (x ∷ more) xs =
    let rest = fresh_streams more (switch true x xs) in
    if any (same_stream x) xs then rest else x ∷ rest

abbrev switch_all : Bool → List Stream → List Stream → List Stream
switch_all up [] xs = xs
switch_all up (x ∷ more) xs = switch_all up more (switch up x xs)

-- the streams that session `i` wants
unfoldable pub streams_of : ℕ → List Session → List Stream
streams_of i [] = []
streams_of i (x ∷ xs) = let rest = streams_of i xs in if x.id == i then x.streams else rest

abbrev tail : List Bytes → List Bytes
tail [] = []
tail (x ∷ xs) = xs

-- one line of the queue of a session is written
abbrev drop_line : Session → Session
drop_line x = record x { out = tail x.out }

module _ {e : Engine} {o : Outside} where
  unfoldable pub push_fresh : ℕ → List Stream → Server e o → Server e o
  push_fresh i [] s = s
  push_fresh i (x ∷ xs) s =
      push_fresh i xs (if is_state_stream x then publish_stream x (some i) s else s)

  -- `subscribe`, for session `i`
  unfoldable pub subscribe : ℕ → List String → Bool → Server e o → Option Error × Server e o
  subscribe i [] up s = (some (fail invalid "no streams named"), s)
  subscribe i (n ∷ ns) up s = elim (parse_streams (n ∷ ns)) [
    | unknown m ↦ (some (fail invalid (append "unknown stream " (o.quote (codes m)))), s)
    | streams_named xs ↦
        let fresh = if up then fresh_streams xs (streams_of i s.sessions) else [] in
        (
          none,
          push_fresh i fresh (record s {
            sessions =
                map
                  (λ x. if x.id == i then record x { streams = switch_all up xs x.streams } else x)
                  s.sessions;
          }),
        )
  ]

  -- `admit` once the client is let in, with a new session, and the end of that session
  unfoldable pub admit : ℕ → Server e o → Server e o
  admit i s = record s {
    sessions = s.sessions ++ record { id = i; streams = []; out = []; done = false } ∷ [];
  }

  unfoldable pub leave : ℕ → Server e o → Server e o
  leave i s = record s { sessions = keep (λ x. not (x.id == i)) s.sessions }

  -- one line of the queue of session `i` is written
  unfoldable pub write_one : ℕ → Server e o → Server e o
  write_one i s = record s { sessions = map (λ x. if x.id == i then drop_line x else x) s.sessions }

  -- `listening`
  unfoldable pub listening : Stream → Server e o → Bool
  listening stream s = any (wants stream) s.sessions

  -- the part of `tick` that pushes the groups
  unfoldable pub tick_groups : Server e o → Server e o
  tick_groups s = if is_running s && listening groups s then publish_stream groups none s else s

  -- `broadcast`
  unfoldable pub broadcast : Stream → Payload → Server e o → Server e o
  broadcast stream v s = send_to (wants stream) (event_line o stream v) s

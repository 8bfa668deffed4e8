-- ===== src/Migration/Reads.antt =====
-- internal/migration/import.go: `read`, `optional`, `safeName` and `requestState`. The old directory is a function
-- of names; `json.Unmarshal` is a parameter.
pub mod Bounds
use Prim.Native.String.{String}
use Prim.Native.Char.{Char}
use omihomo.Base.{
  ℕ, ◌+◌, ◌-◌, ◌*◌, ◌%◌, ◌^◌, Bool, true, false, not, ◌&&◌, ◌||◌, List, [], ◌∷◌, any, Option, none,
  some, str_eq, ltb, leb, ◌==◌, if◌then◌else◌, codes, is_control, append, trim_space, base_name,
}
use omihomo.Update.Transfer.{size}
use omihomo.Profile.GroupOptions.{has_prefix}

-- a file that is open: what `Stat` says of it, and what reading it gives
pub record OldFile : Type 0 where
  pub stat_error : Option String
  pub regular : Bool
  pub announced : ℕ
  pub content : String
  pub broken : Option String

pub data Opened : Type 0 where
  absent : Opened
  refused : (why : String) → Opened
  opened : OldFile → Opened

abbrev pub Old : Type 0
Old = String → Opened

pub data Read : Type 0 where
  text : (content : String) → Read
  missing : Read
  failed : (why : String) → Read

abbrev too_large : Read
too_large = failed "old state exceeds the import size limit"

-- `read` of a file that is open
unfoldable pub read_opened : OldFile → ℕ → Read
read_opened f limit = elim f.stat_error [
  | some why ↦ failed why
  | none ↦
      if not f.regular
      then failed "old state must contain regular files"
      else if ltb limit f.announced
      then too_large
      else if ltb limit (size f.content)
      then too_large
      else elim f.broken [ none ↦ text f.content | some why ↦ failed why ]
]

-- `read`, for a limit that is not negative
unfoldable pub read : Old → String → ℕ → Read
read old name limit = elim (old name) [
  | absent ↦ missing
  | refused why ↦ failed (append "read " (append (base_name name) (append ": " why)))
  | opened f ↦ read_opened f limit
]

pub data Result (A : Type 0) : Type 0 where
  ok : A → Result A
  err : (why : String) → Result A

-- `optional`
unfoldable pub optional : Old → String → ℕ → Result (Option String)
optional old name limit = elim (read old name limit) [
  | text content ↦ ok (some content)
  | missing ↦ ok none
  | failed why ↦ err why
]

-- `safeName`
unfoldable pub safe_name : String → Bool
safe_name name =
    not (str_eq name "")
    && leb (size name) 256
    && not (has_prefix "." name)
    && str_eq (trim_space name) name
    && not (any (λ c. c == b'/' || c == b'\\') (codes name))
    && not (any is_control (codes name))

-- an int64: `below n` is -(n + 1)
pub data Int64 : Type 0 where
  above below : ℕ → Int64

-- the product of two, as Go computes it
unfoldable pub wrapped : ℕ → Int64
wrapped n = let r = n % 2 ^ 64 in if ltb r (2 ^ 63) then above r else below (2 ^ 64 - 1 - r)

unfoldable pub max64 : Int64 → Int64 → Int64
max64 (above m) (above n) = if ltb m n then above n else above m
max64 (above m) (below n) = above m
max64 (below m) (above n) = above n
max64 (below m) (below n) = if ltb m n then below m else below n

-- what a file of request limits holds
pub record OldLimits : Type 0 where
  pub attempted_at : Option Int64
  pub automatic_after : Option Int64
  pub manual_after : Option Int64
  pub paused : Option Bool

-- the three times of a subscription that `requestState` sets, in milliseconds
pub record Times : Type 0 where
  pub last_attempt : Int64
  pub held_until : Int64
  pub retry_at : Int64

-- a deadline that is accepted, in seconds
unfoldable pub deadline : Option Int64 → Option ℕ
deadline (some (above n)) = if ltb 9007199254740991 n then none else some n
deadline (some (below n)) = none
deadline none = none

abbrev invalid_limits : Result (Option Times)
invalid_limits = err "invalid saved request limits"

abbrev paused_error : Result (Option Times)
paused_error =
    err
      "requests are paused; resolve access and use the old CLI's sub resume command, or remove the subscription before upgrading"

abbrev pub set_times : (attempted automatic manual : ℕ) → Times
set_times attempted automatic manual =
    let held = wrapped (manual * 1000) in
    record {
      last_attempt = wrapped (attempted * 1000);
      held_until = held;
      retry_at = max64 (wrapped (automatic * 1000)) held;
    }

unfoldable pub limits_of :
    (paused : Bool) → (attempted automatic manual : Option ℕ) → Result (Option Times)
limits_of paused (some a) (some b) (some c) =
    if paused then paused_error else ok (some (set_times a b c))
limits_of paused _ _ _ = invalid_limits

unfoldable pub decoded_limits : Option OldLimits → Result (Option Times)
decoded_limits none = invalid_limits
decoded_limits (some l) = elim l.paused [
  | none ↦ invalid_limits
  | some paused ↦
      limits_of paused (deadline l.attempted_at) (deadline l.automatic_after)
        (deadline l.manual_after)
]

-- `requestState` once the file is read, or is not there
unfoldable pub limits_in :
    (decode : String → Option OldLimits) → Result (Option String) → Result (Option Times)
limits_in decode (err why) = err why
limits_in decode (ok none) = ok none
limits_in decode (ok (some body)) = decoded_limits (decode body)

-- `requestState`, with the hash of the URL: none where the times stay
unfoldable pub request_state :
    Old → (decode : String → Option OldLimits) → (hash : String) → Result (Option Times)
request_state old decode hash =
    limits_in decode (optional old (append "requests/" (append hash ".json")) 4096)

-- ===== src/Uplink/Faults.antt =====
-- internal/uplink/uplink.go: `Recoverable`, on the tree of errors that an error wraps.
pub mod Recovers
use omihomo.Base.{Bool, true, false, not, ◌&&◌, ◌||◌, Option, none, some, if◌then◌else◌}

-- what one error of the tree is, for `errors.Is` and `errors.As`; `lookup` is a `net.DNSError` with its
-- IsNotFound
pub data Kind : Type 0 where
  download_address deadline op other : Kind
  lookup : (not_found : Bool) → Kind
  verify authority hostname invalid record_header alert : Kind

-- an error, and the errors that it wraps: none, one by `Unwrap() error`, or a list by `Unwrap() []error`
mutual
  pub data Fault : Type 0 where
    plain : Kind → Fault
    wrap : Kind → Fault → Fault
    joined : Kind → Faults → Fault

  pub data Faults : Type 0 where
    nil : Faults
    cons : Fault → Faults → Faults

unfoldable mutual
  -- some error of the tree is of the kind
  pub has : (Kind → Bool) → Fault → Bool
  has p (plain k) = p k
  has p (wrap k f) = p k || has p f
  has p (joined k fs) = p k || has_some p fs

  pub has_some : (Kind → Bool) → Faults → Bool
  has_some p nil = false
  has_some p (cons f fs) = has p f || has_some p fs

abbrev pub is_download_address : Kind → Bool
is_download_address download_address = true
is_download_address _ = false

-- the six errors of TLS and of its certificates
abbrev pub is_tls : Kind → Bool
is_tls verify = true
is_tls authority = true
is_tls hostname = true
is_tls invalid = true
is_tls record_header = true
is_tls alert = true
is_tls _ = false

abbrev pub is_connection : Kind → Bool
is_connection deadline = true
is_connection op = true
is_connection (lookup not_found) = true
is_connection _ = false

abbrev or_later : Option Bool → Option Bool → Option Bool
or_later (some b) later = some b
or_later none later = later

abbrev missing : Kind → Option Bool
missing (lookup not_found) = some not_found
missing _ = none

unfoldable mutual
  -- `errors.As(err, &lookup)`, and its IsNotFound
  pub lookup_error : Fault → Option Bool
  lookup_error (plain k) = missing k
  lookup_error (wrap k f) = or_later (missing k) (lookup_error f)
  lookup_error (joined k fs) = or_later (missing k) (lookup_errors fs)

  pub lookup_errors : Faults → Option Bool
  lookup_errors nil = none
  lookup_errors (cons f fs) = or_later (lookup_error f) (lookup_errors fs)

abbrev pub not_found : Fault → Bool
not_found f = elim (lookup_error f) [ none ↦ false | some b ↦ b ]

-- `Recoverable` of an error that no list of causes decides
abbrev pub recoverable_plain : Fault → Bool
recoverable_plain f =
    if has is_tls f then false else if not_found f then false else has is_connection f

-- what the loop of `Recoverable` found, or what follows the loop
abbrev pub decide : Fault → Option Bool → Bool
decide f listed =
    if has is_download_address f
    then false
    else elim listed [ some b ↦ b | none ↦ recoverable_plain f ]

unfoldable mutual
  unfolding has lookup_error

  -- the loop of `Recoverable`: the answer of the first error that wraps a list
  pub listed : Fault → Option Bool
  listed (plain k) = none
  listed (wrap k f) = listed f
  listed (joined k nil) = some false
  listed (joined k (cons f fs)) = some (decide f (listed f) && all_recoverable fs)

  pub all_recoverable : Faults → Bool
  all_recoverable nil = true
  all_recoverable (cons f fs) = decide f (listed f) && all_recoverable fs

-- `Recoverable`
unfoldable pub recoverable : Fault → Bool
unfolding listed has lookup_error
recoverable f = decide f (listed f)

-- ===== src/Fetch/Causes.antt =====
-- internal/fetch/fetch.go: `failure`, `scrub` and `knownCause`, which keep URLs out of errors.
use Prim.Native.String.{String}
use omihomo.Base.{
  Bool, true, false, not, ◌&&◌, ◌||◌, Option, none, some, str_eq, ltb, length, codes, if◌then◌else◌,
}
use omihomo.Profile.GroupOptions.{has_prefix}
use omihomo.Fetch.Address.{Url}

-- an error that is no `url.Error`: its text, and what `errors.Is` and `errors.As` find in it; `known`
-- is `knownCause`
pub record Cause : Type 0 where
  pub message : String
  pub download_address : Bool
  pub direct_required : Bool
  pub unavailable : Bool
  pub known : Bool

pub data Err : Type 0 where
  url_error : Err → Err
  cause : Cause → Err

abbrev pub plain : String → Cause
plain why = record {
  message = why;
  download_address = false;
  direct_required = false;
  unavailable = false;
  known = false;
}

-- `uplink.ErrDownloadAddress`, `ErrDirectRequired`, `uplink.ErrUnavailable` and `errWithheld`
abbrev pub err_download_address : Cause
err_download_address = record (plain "downloads require a public address") {
  download_address = true;
}

abbrev pub err_direct_required : Cause
err_direct_required = record (plain "direct download needs approval") { direct_required = true }

abbrev pub err_unavailable : Cause
err_unavailable = record (plain "uplink DNS is unavailable") { unavailable = true }

abbrev pub err_withheld : Cause
err_withheld = plain "the cause is withheld, since it may name a URL"

-- `strings.Contains`
unfoldable pub contains : String → String → Bool
unfolding has_prefix
contains part String.[] = has_prefix part ""
contains part (String.◌∷◌ c s) = has_prefix part (String.◌∷◌ c s) || contains part s

abbrev names_user : Option String → String → Bool
names_user none msg = false
names_user (some user) msg = contains user msg

-- `leaks`
unfoldable pub leaks : Url → String → Bool
unfolding contains
leaks u msg =
    contains "://" msg
    || not (str_eq u.raw_query "") && contains u.raw_query msg
    || names_user u.user msg
    || ltb 1 (length (codes u.path)) && contains u.path msg

-- the loop of `scrub`
unfoldable pub unwrap : Err → Cause
unwrap (url_error e) = unwrap e
unwrap (cause c) = c

unfoldable pub scrub_cause : Cause → Url → Cause
unfolding leaks
scrub_cause c u =
    if c.download_address
    then err_download_address
    else if c.direct_required
    then err_direct_required
    else if c.unavailable
    then err_unavailable
    else if not c.known
    then err_withheld
    else if leaks u c.message
    then err_withheld
    else c

-- `scrub`
unfoldable pub scrub : Err → Url → Cause
unfolding unwrap scrub_cause
scrub e u = scrub_cause (unwrap e) u

-- `failure`, where the context is done for a cause, or is not
unfoldable pub failure : Option Cause → Err → Url → Cause
unfolding scrub
failure none e u = scrub e u
failure (some c) e u = c

-- ===== src/Update/Transfer.antt =====
-- internal/update/http.go: the download of one file of a release, from the trusted hosts only.
-- `World` is what the updater uses of net/http, crypto, the file system and pacman. The bytes that are
-- written to the open file are the body that `download` returns.
use Prim.Native.String.{String}
use omihomo.Base.{
  ℕ, zero, suc, ◌+◌, append, decimal, Bool, true, false, not, ◌&&◌, ◌||◌, List, [], ◌∷◌, any,
  Option, none, some, str_eq, ltb, leb, ◌==◌, length, codes, if◌then◌else◌,
}
use omihomo.Engine.{Except, good, bad, Failure}
use omihomo.Update.Version.{fail}
pub mod Bounds

-- what the updater reads of a `url.URL`
pub record Url : Type 0 where
  pub scheme : String
  pub has_user : Bool
  pub port : String
  pub fragment : String
  pub host : String

-- An answer. Each character of a body is a byte, and `broken` says that reading past the body fails
-- instead of ending; `content_length` is none where the server does not say.
pub record Response : Type 0 where
  pub status : ℕ
  pub content_length : Option ℕ
  pub body : String
  pub broken : Bool

pub record World : Type 1 where
  pub S : Type 0
  pub parse_url : String → Option Url
  -- `client.Do`, redirects included
  pub do_request : String → S → Except Response × S
  -- `ed25519.Verify`, and `sha256` in hexadecimal digits
  pub verify : String → String → String → Bool
  pub digest : String → String
  -- `System.Installed`
  pub installed : S → Except String × S
  -- `os.MkdirTemp` and `os.OpenFile`, and `file.Close`
  pub open_file : String → S → Option Failure × S
  pub close_file : S → Option Failure × S
  -- whether a write of these bytes to the open file fails
  pub write_fails : String → S → Bool × S

abbrev trusted_hosts : List String
trusted_hosts =
    "github.com" ∷ "release-assets.githubusercontent.com" ∷ "objects.githubusercontent.com" ∷ []

-- `allowedURL`
unfoldable pub allowed_url : Url → Bool
unfolding any
allowed_url u =
    if not (str_eq u.scheme "https")
      || u.has_user
      || not (str_eq u.port "")
      || not (str_eq u.fragment "")
    then false
    else any (λ h. str_eq u.host h) trusted_hosts

-- `CheckRedirect`, after so many requests
unfoldable pub check_redirect : ℕ → Url → Bool
unfolding allowed_url
check_redirect via u = not (ltb 4 via || not (allowed_url u))

unfoldable pub take_text : ℕ → String → String
take_text zero s = ""
take_text (suc n) String.[] = ""
take_text (suc n) (String.◌∷◌ c s) = String.◌∷◌ c (take_text n s)

abbrev pub size : String → ℕ
size s = length (codes s)

-- what `io.Copy` reads from `io.LimitReader`, which does not see what comes after the limit
unfoldable pub received : ℕ → Response → String
unfolding take_text
received limit r = if leb limit (size r.body) then take_text limit r.body else r.body

-- whether reading fails before the limit
abbrev pub breaks : ℕ → Response → Bool
breaks limit r = not (leb limit (size r.body)) && r.broken

-- the end of `io.Copy`, whose write failed or did not
abbrev pub copied : {S : Type 0} → ℕ → Response → Bool × S → Except String × S
copied limit r (failed, t) =
    if failed || breaks limit r
    then (fail "release download was interrupted", t)
    else (good (received limit r), t)

abbrev pub over : Option ℕ → ℕ → Bool → Bool
over none limit exact = false
over (some n) limit exact = ltb limit n || exact && not (n == limit)

unfoldable pub sized : ℕ → Bool → String → Except String
sized limit exact body =
    if ltb limit (size body) || exact && not (size body == limit)
    then fail "release download has an unexpected size"
    else good body

-- What `transfer` does with an answer: its checks, the copy to `dest`, and the size of what came.
-- `dest` says whether writing to it fails.
unfoldable pub check_response :
    {S : Type 0} (dest : String → S → Bool × S) → ℕ → Bool → Response → S → Except String × S
unfolding received sized
check_response dest limit exact r s =
    let (x, t) = copied (limit + 1) r (dest (received (limit + 1) r) s) in
    if not (r.status == 200)
    then (fail (append "release download returned HTTP " (decimal r.status)), s)
    else if over r.content_length limit exact
    then (fail "release download has an unexpected size", s)
    else elim x [ good body ↦ (sized limit exact body, t) | bad why ↦ (bad why, t) ]

module _ (w : World) where
  -- `transfer`
  unfoldable pub transfer :
      (dest : String → w.S → Bool × w.S) → String → ℕ → Bool → w.S → Except String × w.S
  unfolding allowed_url check_response
  transfer dest address limit exact s = elim (w.parse_url address) [
    | none ↦ (fail "invalid release download address", s)
    | some u ↦
        if not (allowed_url u)
        then (fail "invalid release download address", s)
        else (let (answer, t) = w.do_request address s in
            elim answer [
              | good r ↦ check_response dest limit exact r t
              | bad why ↦ (fail "release download failed; check connectivity and try again", t)
            ])
  ]

  -- `read`, into memory, and `download`, into the open file
  abbrev pub read : String → ℕ → w.S → Except String × w.S
  read address limit = transfer (λ body s. (false, s)) address limit false

  abbrev pub download : String → ℕ → w.S → Except String × w.S
  download address limit = transfer w.write_fails address limit true

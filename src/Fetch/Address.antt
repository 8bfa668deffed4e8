-- ===== src/Fetch/Address.antt =====
-- internal/fetch/fetch.go: `CheckURL`, `checkRedirect` and `retryAfter`.
use Prim.Native.String.{String}
use omihomo.Base.{
  ℕ, ◌-◌, ◌*◌, ◌≤◌, min, Bool, not, ◌||◌, any, Option, none, some, str_eq, ltb, leb, codes,
  is_space, is_control, if◌then◌else◌, trim_space, arith, split_bool,
}
use omihomo.Update.Version.{digits, number}

-- what is read of a `url.URL`
pub record Url : Type 0 where
  pub scheme : String
  pub host : String
  pub hostname : String
  pub raw_query : String
  pub user : Option String
  pub path : String

-- `url.Parse`, `utf8.ValidString`, the bytes of a text, and `http.ParseTime` in nanoseconds
pub record Parsers : Type 0 where
  pub parse_url : String → Option Url
  pub valid_utf8 : String → Bool
  pub bytes : String → ℕ
  pub parse_time : String → Option ℕ

abbrev max_url_bytes : ℕ
max_url_bytes = 8 * 1024

abbrev pub second : ℕ
second = 1000000000

abbrev pub max_retry_after : ℕ
max_retry_after = 7 * 24 * 3600 * second

-- `checkRedirect`, after so many requests; none where the redirect is followed
unfoldable pub check_redirect : ℕ → Url → Option String
check_redirect via u =
    if leb 10 via
    then some "stopped after 10 redirects"
    else if not (str_eq u.scheme "https") || str_eq u.host ""
    then some "redirect refused: only https URLs are allowed"
    else none

module _ (p : Parsers) where
  abbrev check_parsed : Option Url → Option String
  check_parsed none = some "not a valid URL"
  check_parsed (some u) =
      if not (str_eq u.scheme "https")
      then some "only https URLs are allowed"
      else if str_eq u.hostname ""
      then some "URL has no host"
      else none

  -- `CheckURL`; none where the URL may be downloaded
  unfoldable pub check_url : String → Option String
  unfolding any
  check_url raw =
      if str_eq raw ""
      then some "URL is empty"
      else if ltb max_url_bytes (p.bytes raw)
      then some "URL is longer than 8 KiB"
      else if not (p.valid_utf8 raw)
      then some "URL is not valid UTF-8"
      else if any (λ c. is_space c || is_control c) (codes raw)
      then some "URL contains whitespace or control characters"
      else check_parsed (p.parse_url raw)

  abbrev until : ℕ → Option ℕ → ℕ
  until now none = 0
  until now (some t) = min (t - now) max_retry_after

  -- `retryAfter`, in nanoseconds; the difference of two instants stops at 0
  unfoldable pub retry_after : String → ℕ → ℕ
  unfolding digits
  retry_after v now =
      let w = trim_space v in
      if str_eq w ""
      then 0
      else if digits w
      then (if ltb (7 * 24 * 3600) (number w) then max_retry_after else number w * second)
      else until now (p.parse_time w)

  until-bound : (now : ℕ) (o : Option ℕ) → until now o ≤ max_retry_after
  until-bound now none = omega arith
  until-bound now (some t) = omega arith

  -- However long a server asks to wait, the answer is at most a week.
  pub retry_after-bound : (v : String) (now : ℕ) → retry_after v now ≤ max_retry_after
  unfolding retry_after
  retry_after-bound v now =
      split_bool P (str_eq (trim_space v) "") _ _ (λ h. omega arith)
        (λ h.
          split_bool P (digits (trim_space v)) _ _
            (λ k.
              split_bool P (ltb (7 * 24 * 3600) (number (trim_space v))) _ _ (λ l. omega arith)
                (λ l. ground (arith, l)))
            (λ k. until-bound now (p.parse_time (trim_space v))))
    where
      P : ℕ → Type 0
      P n = n ≤ max_retry_after

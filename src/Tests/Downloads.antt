-- ===== src/Tests/Downloads.antt =====
-- Runs of the theorems on downloads, at a server that answers with four bytes.
use Prim.Native.String.{String}
use omihomo.Base.{
  ℕ, ◌+◌, ◌≤◌, true, false, none, some, ◌≡◌, ◌⊎◌, refl, len, trim_space, append, ◌≢◌, inl, inr,
}
use omihomo.Engine.{Except, good, bad}
use omihomo.Update.Transfer.{size}
use omihomo.Fetch.Address.{Url, Parsers, check_url, retry_after, max_retry_after, retry_after-bound}
use omihomo.Fetch.Body.{refused, read_body}
use omihomo.Fetch.Causes.{Cause, cause, url_error, plain, unwrap, scrub}
use omihomo.Fetch.Get.{Request, Client, ok, answered, or_default, default_bytes, get, dial}
use omihomo.Fetch.Limits.{get-Fetched, dial-refused}
use omihomo.Fetch.Secrets.{Fixed, Secret, scrub-Clean}

abbrev address : Url
address = record {
  scheme = "https";
  host = "example.com";
  hostname = "example.com";
  raw_query = "token=1";
  user = none;
  path = "/sub";
}

abbrev parsers : Parsers
parsers = record {
  parse_url = λ s. some address;
  valid_utf8 = λ s. true;
  bytes = len;
  parse_time = λ s. none;
}

abbrev request : Request
request = record {
  url = "https://example.com/sub?token=1";
  max_bytes = 0;
  timeout = 0;
  allow_direct = false;
}

abbrev client : Client
client = record {
  S = ℕ;
  parsers = parsers;
  do_request = λ r s. (
    answered (record {
      status = 200;
      uncompressed = false;
      content_encoding = "";
      retry_after = "";
      content_length = none;
      body = "MIXD";
      broken = false;
    }),
    s + 1,
  );
  lower = λ s. s;
  gunzip = λ s. refused;
  now = λ s. 0;
  context_done = λ s. none;
  as_cause = λ f. plain f.message;
}

request-fetched : (get client request 0).0 ≡ ok "MIXD"
unfolding get check_url read_body trim_space
request-fetched = refl

get-Fetched_example :
    (check_url parsers request.url ≡ none)
    × (size "MIXD" ≤ or_default request.max_bytes default_bytes)
get-Fetched_example = get-Fetched client request 0 "MIXD" request-fetched

retry_after-bound_example : retry_after parsers "99999999999999999999" 0 ≤ max_retry_after
retry_after-bound_example = retry_after-bound parsers "99999999999999999999" 0

-- an error that quotes the query
abbrev leaking : Cause
leaking = record (plain "dial: token=1 refused") { known = true }

query_named : address.raw_query ≢ ""
query_named e = cc

token-Secret : Secret address "token=1"
token-Secret = inr (inl (refl, query_named))

scrub-Clean_example :
    Fixed (scrub (url_error (cause leaking)) address)
    ⊎ ((scrub (url_error (cause leaking)) address ≡ unwrap (url_error (cause leaking)))
        × ((scrub (url_error (cause leaking)) address).known ≡ true)
        × ((scrub (url_error (cause leaking)) address).message
            ≢ append "dial: " (append "token=1" " refused")))
scrub-Clean_example =
    scrub-Clean (url_error (cause leaking)) address "token=1" "dial: " " refused" token-Secret

abbrev failing : ℕ → Except String × ℕ
failing s = (bad (record { message = "proxy is down"; is = λ e. false; status = none }), s)

abbrev reaching : ℕ → Except String × ℕ
reaching s = (good "connected", s + 1)

dial-refused_example :
    dial failing reaching (λ s. false) (λ f. true) false 0
    ≡ dial failing failing (λ s. false) (λ f. true) false 0
dial-refused_example = dial-refused failing reaching failing (λ s. false) (λ f. true) 0

-- ===== src/Fetch/Get.antt =====
-- internal/fetch/fetch.go: `get`, and the dialing of `RoutedTransport` in routing.go.
use Prim.Native.String.{String}
use omihomo.Base.{
  ℕ, ◌*◌, ◌^◌, Bool, true, false, not, ◌||◌, Option, none, some, ◌==◌, if◌then◌else◌,
}
use omihomo.Engine.{Except, good, bad, Failure, err_direct_required}
use omihomo.Fetch.Address
use omihomo.Fetch.Address.{Url, Parsers, second, check_url}
use omihomo.Fetch.Body.{Response, Gzip, read_body}
use omihomo.Fetch.Causes.{Cause, Err, plain, cause, failure}

-- `MaxBytes`
abbrev pub default_bytes : ℕ
default_bytes = 64 * 2 ^ 20

abbrev pub default_timeout : ℕ
default_timeout = 60 * second

-- 0 is the default
pub record Request : Type 0 where
  pub url : String
  pub max_bytes : ℕ
  pub timeout : ℕ
  pub allow_direct : Bool

pub data Got : Type 0 where
  ok : (body : String) → Got
  status_error : (code : ℕ) → (retry_after : ℕ) → Got
  failed : Cause → Got

pub data Answer : Type 0 where
  answered : Response → Answer
  broke : Err → Answer

-- what `get` uses of net/http, gzip and the clock: `client.Do` with its timeout and its permission, and
-- the cause that the context is done for after a call, if it is done
pub record Client : Type 1 where
  pub S : Type 0
  pub parsers : Parsers
  pub do_request : Request → S → Answer × S
  pub lower : String → String
  pub gunzip : String → Gzip
  pub now : S → ℕ
  pub context_done : S → Option Cause
  -- an error of `readBody`, which wraps one of this package or of the transport
  pub as_cause : Failure → Cause

abbrev pub or_default : ℕ → ℕ → ℕ
or_default n default = if n == 0 then default else n

module _ (c : Client) where
  abbrev pub finish_body : ℕ → Url → Except String → Option Cause → Got
  finish_body limit u (bad why) ended = failed (failure ended (cause (c.as_cause why)) u)
  finish_body limit u (good body) none = ok body
  finish_body limit u (good body) (some why) = failed why

  -- `get` once the server has answered, or has not
  unfoldable pub finish_get : ℕ → Url → Answer → c.S → Got
  unfolding failure
  finish_get limit u (broke e) s = failed (failure (c.context_done s) e u)
  finish_get limit u (answered resp) s =
      if not (resp.status == 200)
      then status_error resp.status (Address.retry_after c.parsers resp.retry_after (c.now s))
      else finish_body limit u (read_body c.lower c.gunzip resp limit) (c.context_done s)

  -- `get`
  unfoldable pub get : Request → c.S → Got × c.S
  unfolding finish_get
  get r s = elim (check_url c.parsers r.url) [
    | some why ↦ (failed (plain why), s)
    | none ↦ elim (c.parsers.parse_url r.url) [
      | none ↦ (failed (plain "not a valid URL"), s)
      | some u ↦
          let limit = or_default r.max_bytes default_bytes in
          let timeout = or_default r.timeout default_timeout in
          let (answer, t) = c.do_request (record r { max_bytes = limit; timeout = timeout }) s in
          (finish_get limit u answer t, t)
    ]
  ]

-- The connection of `RoutedTransport`: through the proxy, and once through the uplink if the proxy's
-- failure is recoverable and the request may. `ended` is the error of the context.
unfoldable pub dial {ℓ κ} :
    {S : Type ℓ} {Conn : Type κ}
    → (proxy direct : S → Except Conn × S) → (ended : S → Bool) → (recoverable : Failure → Bool)
    → (allowed : Bool) → S
    → Except Conn × S
dial proxy direct ended recoverable allowed s =
    let (attempt, t) = proxy s in
    elim attempt [
      | good conn ↦ (good conn, t)
      | bad why ↦
          if ended t || not (recoverable why)
          then (bad why, t)
          else if not allowed
          then (
            bad (record {
              message = "direct download needs approval";
              is = λ e. elim e [ err_direct_required ↦ true | _ ↦ false ];
              status = none;
            }),
            t,
          )
          else direct t
    ]

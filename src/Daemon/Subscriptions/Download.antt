-- ===== src/Daemon/Subscriptions/Download.antt =====
-- internal/daemon/subscriptions.go: `download`, a subscription and all its providers under one limit.
use omihomo.Base.{
  ℕ, ◌-◌, String, Bool, true, false, List, [], ◌∷◌, none, some, str_eq, ltb, length, if◌then◌else◌,
  append, decimal, ◌==◌, codes, ◌≡◌, refl,
}
use omihomo.Protocol.{Error, fetch_failed, rejected}
use omihomo.Engine.{Engine, Profile, Failure, good, bad, err_too_large}
use omihomo.Daemon.State.{Bytes, Snapshot, Provider, Request, Outside, Server}
use omihomo.Daemon.Publish.{fail, plain}
use omihomo.Daemon.Geodata.{get_download}

abbrev pub max_providers : ℕ
max_providers = 64

-- `downloadError`, the time in nanoseconds
pub record DownloadError : Type 0 where
  pub error : Error
  pub answered : Bool
  pub retry_after : ℕ

-- `fetchFailed`
unfoldable pub fetch_error : Failure → Error → DownloadError
fetch_error f message = elim f.status [
  | none ↦ record { error = message; answered = f.is err_too_large; retry_after = 0 }
  | some t ↦ record { error = message; answered = true; retry_after = t }
]

abbrev pub unusable : Failure → DownloadError
unusable f = record { error = fail rejected f.message; answered = true; retry_after = 0 }

-- an assignment to a map
unfoldable pub put : String → Bytes → List (String × Bytes) → List (String × Bytes)
put k b [] = (k, b) ∷ []
put k b ((k', b') ∷ m) = let rest = put k b m in if str_eq k' k then (k, b) ∷ m else (k', b') ∷ rest

-- `download`, and what a download gives
pub record Download (Header : Type 0) : Type 0 where
  pub snap : Snapshot
  pub header : Header
  pub profile : Profile

pub data Outcome (A : Type 0) : Type 0 where
  ok : A → Outcome A
  failed : DownloadError → Outcome A

pub split_outcome {ι} :
    {A B : Type 0} (P : B → Type ι) (x : Outcome A) (f : A → B) (g : DownloadError → B)
    → ((a : A) → x ≡ ok a → P (f a))
    → ((y : DownloadError) → x ≡ failed y → P (g y))
    → P (elim x [ ok a ↦ f a | failed y ↦ g y ])
split_outcome P (ok a) f g h k = h a refl
split_outcome P (failed y) f g h k = k y refl

abbrev provider_message : (o : Outside) → String → String → Error
provider_message o name message =
    fail fetch_failed (append "provider " (append (o.quote (codes name)) (append ": " message)))

-- the end of `download`: the profile is built from what was downloaded
unfoldable pub build_download :
    (o : Outside)
    → Bytes
    → o.Header
    → o.Doc
    → Outcome (List (String × Bytes))
    → Outcome (Download o.Header)
build_download o body header doc (failed y) = failed y
build_download o body header doc (ok have) = elim (o.build doc have) [
  | bad f ↦ failed (unusable f)
  | good p ↦
      ok (record { snap = record { body = body; providers = have }; header = header; profile = p })
]

abbrev pub provider_request : Provider → ℕ → Request
provider_request p left = record {
  url = p.url;
  max_bytes = left;
  timeout = 0;
  allow_direct = false;
}

abbrev pub provider_label : Provider → String → String
provider_label p name = append "Provider " (append p.name (append " for " name))

module _ {e : Engine} {o : Outside} where
  -- the loop of `download` over the providers: `left` is what the limit still allows
  unfoldable pub download_providers :
      Bool
      → String
      → List Provider
      → ℕ
      → List (String × Bytes)
      → Server e o
      → Outcome (List (String × Bytes)) × Server e o
  download_providers direct name [] left have s = (ok have, s)
  download_providers direct name (p ∷ ps) left have s =
      let (x, s') = get_download direct (provider_label p name) (provider_request p left) s in
      if left == 0
      then (
        failed (record {
          error = provider_message o p.name "response is larger than the size limit";
          answered = true;
          retry_after = 0;
        }),
        s,
      )
      else elim x [
        | bad f ↦ (failed (fetch_error f (provider_message o p.name f.message)), s')
        | good (b, h) ↦ download_providers direct name ps (left - length b) (put p.key b have) s'
      ]

  -- `download` once the body is there
  unfoldable pub download_rest :
      Bool → String → Bytes → o.Header → Server e o → Outcome (Download o.Header) × Server e o
  download_rest direct name body header s = elim (o.read body) [
    | bad f ↦ (failed (unusable f), s)
    | good doc ↦
        let left = o.download_limit - length body in
        let (x, s') = download_providers direct name (o.providers doc) left [] s in
        if ltb max_providers (length (o.providers doc))
        then (
          failed (
              unusable (
                plain (
                  append "the subscription is not usable: it names more than "
                    (append (decimal max_providers) " providers")))),
          s,
        )
        else (build_download o body header doc x, s')
  ]

  unfoldable pub download :
      Bool → String → String → Server e o → Outcome (Download o.Header) × Server e o
  download direct name url s =
      let request : Request = record {
        url = url;
        max_bytes = o.download_limit;
        timeout = 0;
        allow_direct = false;
      } in
      let (x, s') = get_download direct (append "Subscription " name) request s in
      elim x [
        | bad f ↦ (failed (fetch_error f (fail fetch_failed f.message)), s')
        | good (b, h) ↦ download_rest direct name b h s'
      ]

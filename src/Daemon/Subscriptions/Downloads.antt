-- ===== src/Daemon/Subscriptions/Downloads.antt =====
-- What `download` leaves alone, and the limit that it keeps.
use omihomo.Base.{ℕ, ◌-◌, String, Bool, false, List, [], ◌∷◌, ltb, ◌==◌, length, append, split_bool}
use omihomo.Engine.{Engine, Contract, split_except}
use omihomo.Daemon.State.{Bytes, Provider, Request, Outside, Server}
use omihomo.Daemon.Geodata.{get_download}
use omihomo.Daemon.Agrees.{Frame, Frame-refl, Frame-trans, get_download-Frame}
use omihomo.Daemon.Subscriptions.Download.{
  max_providers, provider_request, provider_label, Download, Outcome, put, download_providers,
  download_rest, download,
}

module _ {e : Engine} {o : Outside} (c : Contract e) where
  download_providers-Frame :
      (direct : Bool) (name : String) (ps : List Provider) (left : ℕ) (have : List (String × Bytes))
      (s : Server e o)
      → Frame c s (download_providers direct name ps left have s).1
  unfolding download_providers
  download_providers-Frame direct name [] left have s = Frame-refl c s
  download_providers-Frame direct name (p ∷ ps) left have s =
      let P : Outcome (List (String × Bytes)) × Server e o → Type 0 = λ r. Frame c s r.1 in
      let f = get_download-Frame c direct (provider_label p name) (provider_request p left) s in
      split_bool P (left == 0) _ _ (λ _. Frame-refl c s)
        (λ _.
          split_except P (get_download direct (provider_label p name) (provider_request p left) s).0
            _ _
            (λ (y : Bytes × o.Header) _.
              Frame-trans c s _ _ f (
                download_providers-Frame direct name ps (left - length y.0) (put p.key y.0 have) _))
            (λ _ _. f))

  download_rest-Frame :
      (direct : Bool) (name : String) (body : Bytes) (header : o.Header) (s : Server e o)
      → Frame c s (download_rest direct name body header s).1
  unfolding download_rest
  download_rest-Frame direct name body header s =
      let P : Outcome (Download o.Header) × Server e o → Type 0 = λ r. Frame c s r.1 in
      split_except P (o.read body) _ _
        (λ doc _.
          split_bool P (ltb max_providers (length (o.providers doc))) _ _ (λ _. Frame-refl c s)
            (λ _.
              download_providers-Frame direct name (o.providers doc)
                (o.download_limit - length body) [] s))
        (λ _ _. Frame-refl c s)

  pub download-Frame :
      (direct : Bool) (name url : String) (s : Server e o)
      → Frame c s (download direct name url s).1
  unfolding download
  download-Frame direct name url s =
      let P : Outcome (Download o.Header) × Server e o → Type 0 = λ r. Frame c s r.1 in
      let request : Request = record {
        url = url;
        max_bytes = o.download_limit;
        timeout = 0;
        allow_direct = false;
      } in
      let f = get_download-Frame c direct (append "Subscription " name) request s in
      split_except P (get_download direct (append "Subscription " name) request s).0 _ _
        (λ (y : Bytes × o.Header) _.
          Frame-trans c s _ _ f (download_rest-Frame direct name y.0 y.1 _))
        (λ _ _. f)

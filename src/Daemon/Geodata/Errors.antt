-- ===== src/Daemon/Geodata/Errors.antt =====
-- An error of `ensureGeodata` is never taken for the engine's stop.
use omihomo.Base.{
  base_name, leb, length, Bool, true, false, Option, none, some, List, [], ◌∷◌, ◌≡◌, refl, String,
  split_option, split_bool,
}
use omihomo.Engine.{
  Engine, Contract, Profile, GeodataFile, Failure, Except, good, bad, split_except, err_stopped,
  err_not_exist, err_direct_required,
}
use omihomo.Daemon.State.{Outside, NoFalseStop, Server, Bytes, Request}
use omihomo.Daemon.Geodata.{
  get, answered, wait_answer, ask_owner, get_download, download_geodata, install_geodata,
  ensure_file, ensure_files, ensure_geodata, saved, geodata_label, geodata_request,
}

abbrev pub Clean : Option Failure → Type 0
Clean none = Unit
Clean (some f) = f.is err_stopped ≡ false

abbrev CleanResult {ℓ} : {A : Type ℓ} → Except A → Type 0
CleanResult (good a) = Unit
CleanResult (bad f) = f.is err_stopped ≡ false

CleanResult-of {ℓ} :
    {A : Type ℓ} (x : Except A)
    → ((f : Failure) → x ≡ bad f → f.is err_stopped ≡ false)
    → CleanResult x
CleanResult-of (good a) h = tt
CleanResult-of (bad f) h = h f refl

module _ {e : Engine} {o : Outside} (c : Contract e) (h : NoFalseStop o) where
  get-Clean : (r : Request) (s : Server e o) → CleanResult (get r s).0
  unfolding get
  get-Clean r s = CleanResult-of (o.get r s.outside).0 (h.get_error r s.outside)

  answered-Clean : (r : Request) (a : Option Bool) (s : Server e o) → CleanResult (answered r a s).0
  unfolding answered
  answered-Clean r none s = refl
  answered-Clean r (some false) s = refl
  answered-Clean r (some true) s =
      split_bool (λ (y : Except (Bytes × o.Header) × Server e o). CleanResult y.0)
        (o.expired s.outside) _ _ (λ _. refl) (λ _. get-Clean (record r { allow_direct = true }) s)

  ask_owner-Clean :
      (label : String) (r : Request) (s : Server e o) → CleanResult (ask_owner label r s).0
  unfolding ask_owner wait_answer
  ask_owner-Clean label r s =
      split_bool (λ (y : Except (Bytes × o.Header) × Server e o). CleanResult y.0)
        (leb 64 (length s.downloads)) _ _ (λ _. refl)
        (λ _. answered-Clean r (o.decide (o.new_id s.outside).0 _).0 _)

  get_download-Clean :
      (direct : Bool) (label : String) (r : Request) (s : Server e o)
      → CleanResult (get_download direct label r s).0
  unfolding get_download
  get_download-Clean direct label r s =
      let r' : Request = record r { allow_direct = direct } in
      split_except (λ (y : Except (Bytes × o.Header) × Server e o). CleanResult y.0) (get r' s).0 _
        _ (λ y _. tt)
        (λ f x.
          split_bool (λ (y : Except (Bytes × o.Header) × Server e o). CleanResult y.0)
            (f.is err_direct_required) _ _ (λ _. ask_owner-Clean label r' _)
            (λ _. rw x at (get-Clean r' s)))

  saved-Clean :
      (name path : String) (b : Bytes) (s : Server e o)
      → CleanResult (saved name (o.save_temporary path b s.outside) s).0
  saved-Clean name path b s = go (o.save_temporary path b s.outside) (h.save_error path b s.outside)
    where
      go :
          (x : Except String × o.T)
          → ((f : Failure) → x.0 ≡ bad f → f.is err_stopped ≡ false)
          → CleanResult (saved name x s).0
      go (good p, t) k = tt
      go (bad f, t) k = k f refl

  download_geodata-Clean :
      (direct : Bool) (f : GeodataFile) (s : Server e o)
      → CleanResult (download_geodata direct f s).0
  unfolding download_geodata
  download_geodata-Clean direct f s =
      split_except (λ (y : Except String × Server e o). CleanResult y.0)
        (get_download direct (geodata_label f) (geodata_request f) s).0 _ _
        (λ (y : Bytes × o.Header) _. saved-Clean (base_name f.path) f.path y.0 _)
        (λ g x. rw x at (get_download-Clean direct (geodata_label f) (geodata_request f) s))

  install_geodata-Clean :
      (f : GeodataFile) (tmp : String) (p : Profile) (s : Server e o)
      → Clean (install_geodata f tmp p s).0
  unfolding install_geodata
  install_geodata-Clean f tmp p s =
      split_option (λ (y : Option Failure × Server e o). Clean y.0) _ _ _ (λ _. tt)
        (λ g x. c.install_geodata_error f tmp p s.engine g x)

  ensure_file-Clean :
      (direct : Bool) (p : Profile) (f : GeodataFile) (s : Server e o)
      → Clean (ensure_file direct p f s).0
  unfolding ensure_file
  ensure_file-Clean direct p f s =
      split_option (λ (y : Option Failure × Server e o). Clean y.0) (o.stat f.path s.outside) _ _
        (λ _. tt)
        λ g x.
          split_bool (λ (y : Option Failure × Server e o). Clean y.0) (g.is err_not_exist) _ _
            (λ _.
              split_except (λ (y : Option Failure × Server e o). Clean y.0)
                (download_geodata direct f s).0 _ _ (λ tmp _. install_geodata-Clean f tmp p _)
                (λ k y. rw y at (download_geodata-Clean direct f s)))
            (λ _. h.stat_error f.path s.outside g x)

  ensure_files-Clean :
      (direct : Bool) (p : Profile) (fs : List GeodataFile) (s : Server e o)
      → Clean (ensure_files direct p fs s).0
  unfolding ensure_files
  ensure_files-Clean direct p [] s = tt
  ensure_files-Clean direct p (f ∷ fs) s =
      split_option (λ (y : Option Failure × Server e o). Clean y.0) (ensure_file direct p f s).0 _ _
        (λ _. ensure_files-Clean direct p fs _) (λ g x. rw x at (ensure_file-Clean direct p f s))

  pub ensure_geodata-Clean :
      (direct : Bool) (p : Profile) (s : Server e o) → Clean (ensure_geodata direct p s).0
  unfolding ensure_geodata
  ensure_geodata-Clean direct p s = ensure_files-Clean direct p (e.geodata p) s

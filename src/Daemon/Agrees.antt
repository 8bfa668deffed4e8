-- ===== src/Daemon/Agrees.antt =====
-- What the daemon's record of the proxy says of the engine, and what leaves both alone.
use omihomo.Base.{
  split_option, split_bool, base_name, leb, length, Bool-cases, inl, inr, ℕ, Bool, true, false,
  Option, none, some, List, [], ◌∷◌, ◌≡◌, refl, ◌∙◌, if◌then◌else◌, arith, String,
}
use omihomo.Engine.{
  Engine, Contract, Profile, GeodataFile, Failure, Except, split_except, err_not_exist, good, bad,
}
use omihomo.Daemon.State.{
  Outside, Stored, Bytes, Server, Stream, downloads, PendingDownload, Request,
}
use omihomo.Daemon.Compile.{run_config}
use omihomo.Daemon.Publish.{push_line, publish_stream, publish, is_up}
use omihomo.Daemon.Geodata.{
  saved, geodata_label, geodata_request, get, answered, decided, drop_pending, wait_answer,
  ask_owner, get_download, download_geodata, install_geodata, ensure_file, ensure_files,
  ensure_geodata,
}

module _ {e : Engine} {o : Outside} (c : Contract e) where
  -- The engine runs what these settings and this profile ask for if the daemon says that the proxy is
  -- up, and nothing if it says that it is not.
  abbrev pub RunsAs : Stored → Profile → Server e o → Type 0
  RunsAs st p s = c.runs s.engine ≡ (if is_up s.state then some (run_config st p) else none)

  -- The same of the daemon's own settings and profile.
  pub record Agrees (s : Server e o) : Type 0 where
    pub runs_it : RunsAs s.settings s.profile s

  -- `t` has the settings, the profile, the subscriptions and the files of `s`.
  pub record Kept (s t : Server e o) : Type 0 where
    pub settings : t.settings ≡ s.settings
    pub profile : t.profile ≡ s.profile
    pub subs : t.subs ≡ s.subs
    pub disk : t.disk ≡ s.disk

  -- `t` is `s` but for what clients were sent, what waits for approval, and the world outside.
  pub record Frame (s t : Server e o) : Type 0 where
    pub runs : c.runs t.engine ≡ c.runs s.engine
    pub settings : t.settings ≡ s.settings
    pub profile : t.profile ≡ s.profile
    pub state : t.state ≡ s.state
    pub subs : t.subs ≡ s.subs
    pub disk : t.disk ≡ s.disk
    pub restore_pending : t.restore_pending ≡ s.restore_pending

  pub Frame-refl : (s : Server e o) → Frame s s
  Frame-refl s = record {
    runs = refl;
    settings = refl;
    profile = refl;
    state = refl;
    subs = refl;
    disk = refl;
    restore_pending = refl;
  }

  pub Frame-trans : (s t u : Server e o) → Frame s t → Frame t u → Frame s u
  Frame-trans s t u p q = record {
    runs = q.runs ∙ p.runs;
    settings = q.settings ∙ p.settings;
    profile = q.profile ∙ p.profile;
    state = q.state ∙ p.state;
    subs = q.subs ∙ p.subs;
    disk = q.disk ∙ p.disk;
    restore_pending = q.restore_pending ∙ p.restore_pending;
  }

  pub publish_stream-Frame :
      (stream : Stream) (also : Option ℕ) (s : Server e o) → Frame s (publish_stream stream also s)
  unfolding publish_stream push_line
  publish_stream-Frame stream also s = ground arith

  -- one more push
  pushed_too :
      (stream : Stream) {s t : Server e o} → Frame s t → Frame s (publish_stream stream none t)
  pushed_too stream {s} {t} p = Frame-trans s t _ p (publish_stream-Frame stream none t)

  pub publish-Frame : (s : Server e o) → Frame s (publish s)
  unfolding publish
  publish-Frame s =
      pushed_too _ (pushed_too _ (pushed_too _ (pushed_too _ (pushed_too _ (Frame-refl s)))))

  get-Frame : (r : Request) (s : Server e o) → Frame s (get r s).1
  unfolding get
  get-Frame r s = ground arith

  answered-Frame : (r : Request) (a : Option Bool) (s : Server e o) → Frame s (answered r a s).1
  unfolding answered
  answered-Frame r none s = Frame-refl s
  answered-Frame r (some false) s = Frame-refl s
  answered-Frame r (some true) s = elim (Bool-cases (o.expired s.outside)) [
    | inl late ↦ rw late (Frame-refl s)
    | inr early ↦ rw early (get-Frame (record r { allow_direct = true }) s)
  ]

  -- the world outside and the waiting downloads may change
  pub touch :
      (s : Server e o) (w : o.T) (ds : List PendingDownload)
      → Frame s (record s { outside = w; downloads = ds })
  touch s w ds = record {
    runs = refl;
    settings = refl;
    profile = refl;
    state = refl;
    subs = refl;
    disk = refl;
    restore_pending = refl;
  }

  pub drop_pending-Frame : (id : String) (s : Server e o) → Frame s (drop_pending id s)
  drop_pending-Frame id s =
      Frame-trans s _ _ (touch s s.outside _) (publish_stream-Frame downloads none _)

  decided-Frame : (id : String) (a : Option Bool) (s : Server e o) → Frame s (decided id a s)
  unfolding decided
  decided-Frame id none s = Frame-refl s
  decided-Frame id (some a) s = drop_pending-Frame id s

  wait_answer-Frame : (r : Request) (id : String) (s : Server e o) → Frame s (wait_answer r id s).1
  unfolding wait_answer
  wait_answer-Frame r id s = Frame-trans s _ _ (touch s (o.decide id s.outside).1 s.downloads) (
      Frame-trans _ _ _ (decided-Frame id (o.decide id s.outside).0 _) (
        Frame-trans _ _ _ (answered-Frame r (o.decide id s.outside).0 _) (drop_pending-Frame id _)))

  ask_owner-Frame :
      (label : String) (r : Request) (s : Server e o) → Frame s (ask_owner label r s).1
  unfolding ask_owner
  ask_owner-Frame label r s = elim (Bool-cases (leb 64 (length s.downloads))) [
    | inl full ↦ rw full (touch s (o.new_id s.outside).1 s.downloads)
    | inr room ↦ rw room (
        Frame-trans s _ _ (touch s (o.new_id s.outside).1 _)
          (Frame-trans _ _ _ (publish_stream-Frame downloads none _) (wait_answer-Frame r _ _)))
  ]

  pub get_download-Frame :
      (direct : Bool) (label : String) (r : Request) (s : Server e o)
      → Frame s (get_download direct label r s).1
  unfolding get_download
  get_download-Frame direct label r s =
      let r' : Request = record r { allow_direct = direct } in
      ground (
        arith,
        get-Frame r' s,
        Frame-trans s _ _ (get-Frame r' s) (ask_owner-Frame label r' (get r' s).1),
      )

  saved-Frame :
      (name : String) (r : Except String × o.T) (s : Server e o) → Frame s (saved name r s).1
  saved-Frame name (good path, t) s = touch s t s.downloads
  saved-Frame name (bad f, t) s = touch s t s.downloads

  pub download_geodata-Frame :
      (direct : Bool) (f : GeodataFile) (s : Server e o) → Frame s (download_geodata direct f s).1
  unfolding download_geodata
  download_geodata-Frame direct f s =
      split_except (λ (r : Except String × Server e o). Frame s r.1)
        (get_download direct (geodata_label f) (geodata_request f) s).0 _ _
        (λ (y : Bytes × o.Header) _.
          Frame-trans s _ _ (get_download-Frame direct (geodata_label f) (geodata_request f) s)
            (saved-Frame (base_name f.path) (o.save_temporary f.path y.0 _) _))
        (λ g _. get_download-Frame direct (geodata_label f) (geodata_request f) s)

  pub install_geodata-Frame :
      (f : GeodataFile) (tmp : String) (p : Profile) (s : Server e o)
      → Frame s (install_geodata f tmp p s).1
  unfolding install_geodata
  install_geodata-Frame f tmp p s = ground (arith, c.install_geodata_keeps f tmp p s.engine)

  ensure_file-Frame :
      (direct : Bool) (p : Profile) (f : GeodataFile) (s : Server e o)
      → Frame s (ensure_file direct p f s).1
  unfolding ensure_file
  ensure_file-Frame direct p f s =
      split_option (λ (r : Option Failure × Server e o). Frame s r.1) (o.stat f.path s.outside) _ _
        (λ _. Frame-refl s)
        λ g _.
          split_bool (λ (r : Option Failure × Server e o). Frame s r.1) (g.is err_not_exist) _ _
            (λ _.
              split_except (λ (r : Option Failure × Server e o). Frame s r.1)
                (download_geodata direct f s).0 _ _
                (λ tmp _.
                  Frame-trans s _ _ (download_geodata-Frame direct f s)
                    (install_geodata-Frame f tmp p _))
                (λ _ _. download_geodata-Frame direct f s))
            (λ _. Frame-refl s)

  ensure_files-Frame :
      (direct : Bool) (p : Profile) (fs : List GeodataFile) (s : Server e o)
      → Frame s (ensure_files direct p fs s).1
  unfolding ensure_files
  ensure_files-Frame direct p [] s = Frame-refl s
  ensure_files-Frame direct p (f ∷ fs) s =
      split_option (λ (r : Option Failure × Server e o). Frame s r.1) (ensure_file direct p f s).0 _
        _
        (λ _. Frame-trans s _ _ (ensure_file-Frame direct p f s) (ensure_files-Frame direct p fs _))
        (λ g _. ensure_file-Frame direct p f s)

  pub ensure_geodata-Frame :
      (direct : Bool) (p : Profile) (s : Server e o) → Frame s (ensure_geodata direct p s).1
  unfolding ensure_geodata
  ensure_geodata-Frame direct p s = ensure_files-Frame direct p (e.geodata p) s

  pub Frame-Agrees : (s t : Server e o) → Frame s t → Agrees s → Agrees t
  Frame-Agrees s t p h = record { runs_it = ground (arith, p.runs, h.runs_it) }

  pub Frame-Kept : {s t : Server e o} → Frame s t → Kept s t
  Frame-Kept p = record { settings = p.settings; profile = p.profile; subs = p.subs; disk = p.disk }

  pub Kept-trans : (s t u : Server e o) → Kept s t → Kept t u → Kept s u
  Kept-trans s t u p q = record {
    settings = q.settings ∙ p.settings;
    profile = q.profile ∙ p.profile;
    subs = q.subs ∙ p.subs;
    disk = q.disk ∙ p.disk;
  }

  pub Frame-RunsAs :
      (st : Stored) (p : Profile) (s t : Server e o) → Frame s t → RunsAs st p s → RunsAs st p t
  Frame-RunsAs st p s t f h = ground (arith, f.runs, f.state)

  pub Kept-Agrees : (s t : Server e o) → Kept s t → RunsAs s.settings s.profile t → Agrees t
  Kept-Agrees s t k h = record { runs_it = ground (arith, k.settings, k.profile) }

-- ===== src/Daemon/Geodata/Refresh.antt =====
-- internal/daemon/subscriptions.go: `refreshGeodata`, which downloads again the geodata in use that is
-- old, and what it leaves alone.
use omihomo.Base.{
  ℕ, ◌*◌, ◌-◌, String, List, [], ◌∷◌, none, some, ltb, if◌then◌else◌, split_option, split_bool,
  false,
}
use omihomo.Engine.{Engine, Contract, GeodataFile, good, bad, split_except}
use omihomo.Daemon.State.{Outside, Server}
use omihomo.Daemon.Compile.{run_config}
use omihomo.Daemon.Geodata.{second, download_geodata, install_geodata}
use omihomo.Daemon.Agrees.{
  Frame, Frame-refl, Frame-trans, download_geodata-Frame, install_geodata-Frame, touch,
}

-- `geodataAge`
abbrev geodata_age : ℕ
geodata_age = 7 * 24 * 3600 * second

module _ {e : Engine} {o : Outside} where
  -- the end of a round under `opMu`: the file is checked against the rules of now, and what is left
  -- of the download is removed
  unfoldable pub install_current : GeodataFile → String → Server e o → Server e o
  install_current f tmp s =
      let (x, s') = install_geodata f tmp (run_config s.settings s.profile).profile s in
      record s' { outside = o.remove_temporary tmp s'.outside }

  unfoldable pub update_old : GeodataFile → Server e o → Server e o
  update_old f s =
      let (x, s') = download_geodata false f s in
      elim x [ bad g ↦ s' | good tmp ↦ install_current f tmp s' ]

  -- a round of `refreshGeodata`; a file of the future is not old
  unfoldable pub update_file : GeodataFile → Server e o → Server e o
  update_file f s = elim (o.stat f.path s.outside) [
    | some g ↦ s
    | none ↦
        if ltb (o.now s.outside - o.modified f.path s.outside) geodata_age
        then s
        else update_old f s
  ]

  unfoldable pub update_files : List GeodataFile → Server e o → Server e o
  update_files [] s = s
  update_files (f ∷ fs) s = update_files fs (update_file f s)

  -- `refreshGeodata`
  unfoldable pub refresh_geodata : Server e o → Server e o
  refresh_geodata s = update_files (e.geodata (run_config s.settings s.profile).profile) s

module _ {e : Engine} {o : Outside} (c : Contract e) where
  pub install_current-Frame :
      (f : GeodataFile) (tmp : String) (s : Server e o) → Frame c s (install_current f tmp s)
  unfolding install_current
  install_current-Frame f tmp s =
      Frame-trans c s _ _ (install_geodata-Frame c f tmp _ s) (touch c _ _ _)

  update_old-Frame : (f : GeodataFile) (s : Server e o) → Frame c s (update_old f s)
  unfolding update_old
  update_old-Frame f s =
      let got = download_geodata-Frame c false f s in
      split_except (λ (t : Server e o). Frame c s t) (download_geodata false f s).0 _ _
        (λ tmp _. Frame-trans c s _ _ got (install_current-Frame f tmp _)) (λ g _. got)

  update_file-Frame : (f : GeodataFile) (s : Server e o) → Frame c s (update_file f s)
  unfolding update_file
  update_file-Frame f s =
      split_option (λ (t : Server e o). Frame c s t) (o.stat f.path s.outside) _ _
        (λ _.
          split_bool (λ (t : Server e o). Frame c s t)
            (ltb (o.now s.outside - o.modified f.path s.outside) geodata_age) _ _
            (λ _. Frame-refl c s) (λ _. update_old-Frame f s))
        (λ g _. Frame-refl c s)

  update_files-Frame : (fs : List GeodataFile) (s : Server e o) → Frame c s (update_files fs s)
  unfolding update_files
  update_files-Frame [] s = Frame-refl c s
  update_files-Frame (f ∷ fs) s =
      Frame-trans c s _ _ (update_file-Frame f s) (update_files-Frame fs _)

  pub refresh_geodata-Frame : (s : Server e o) → Frame c s (refresh_geodata s)
  unfolding refresh_geodata
  refresh_geodata-Frame s =
      update_files-Frame (e.geodata (run_config s.settings s.profile).profile) s

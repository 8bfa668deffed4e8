-- ===== src/Daemon/Geodata.antt =====
-- internal/daemon/downloads.go, and the geodata of subscriptions.go: a download through the owner's
-- approval, and the files that a profile needs. `direct` is the `initialDownload` of the context.
pub mod Errors
pub mod Refresh
use omihomo.Base.{
  ℕ, ◌*◌, ◌+◌, String, Bool, true, false, not, List, [], ◌∷◌, ◌++◌, length, keep, Option, none,
  some, str_eq, ltb, leb, if◌then◌else◌, append, base_name, len,
}
use omihomo.Engine.{
  Engine, Profile, GeodataFile, Failure, Except, good, bad, err_direct_required, err_not_exist,
}
use omihomo.Daemon.State.{Bytes, Request, PendingDownload, downloads, Outside, Server}
use omihomo.Daemon.Publish.{plain, wrap, publish_stream}
use Prim.Native.String.{slice}

abbrev pub second : ℕ
second = 1000000000

abbrev pub geodata_timeout : ℕ
geodata_timeout = 300 * second

-- a label of at most 512 bytes, and what whole characters of a longer one fit in them
abbrev short_label : String → String
short_label label = if ltb 512 (len label) then append (slice label 0 512) "…" else label

abbrev pub geodata_label : GeodataFile → String
geodata_label f = append "Geodata " (base_name f.path)

abbrev pub geodata_request : GeodataFile → Request
geodata_request f = record {
  url = f.url;
  max_bytes = 0;
  timeout = geodata_timeout;
  allow_direct = false;
}

module _ {e : Engine} {o : Outside} where
  abbrev with_outside : o.T → Server e o → Server e o
  with_outside t s = record s { outside = t }

  abbrev pub drop_pending : String → Server e o → Server e o
  drop_pending id s =
      publish_stream downloads none
        (record s { downloads = keep (λ d. not (str_eq d.id id)) s.downloads })

  unfoldable pub get : Request → Server e o → Except (Bytes × o.Header) × Server e o
  get r s = let (x, t) = o.get r s.outside in (x, record s { outside = t })

  -- What `getDownload` returns for the answer to the request `id`. An answer has already taken the
  -- request off the list, in `decideDownload`.
  unfoldable pub answered :
      Request → Option Bool → Server e o → Except (Bytes × o.Header) × Server e o
  answered r none s = (bad (plain "direct download approval expired"), s)
  answered r (some false) s = (bad (plain "direct download declined"), s)
  answered r (some true) s =
      if o.expired s.outside
      then (bad (plain "direct download approval expired"), s)
      else get (record r { allow_direct = true }) s

  -- `decideDownload`, from the client that answers
  unfoldable pub decided : String → Option Bool → Server e o → Server e o
  decided id none s = s
  decided id (some allow) s = drop_pending id s

  -- the wait of `getDownload` for the request `id`, that is now on the list
  unfoldable pub wait_answer :
      Request → String → Server e o → Except (Bytes × o.Header) × Server e o
  wait_answer r id s =
      let (answer, t) = o.decide id s.outside in
      let (y, s') = answered r answer (decided id answer (record s { outside = t })) in
      (y, drop_pending id s')

  -- a direct download asks the owner first, if not too many wait already
  unfoldable pub ask_owner : String → Request → Server e o → Except (Bytes × o.Header) × Server e o
  ask_owner label r s =
      let (id, t) = o.new_id s.outside in
      if leb 64 (length s.downloads)
      then (bad (plain "too many downloads waiting for approval"), record s { outside = t })
      else wait_answer r id (
          publish_stream downloads none (record s {
            outside = t;
            downloads = s.downloads ++ record { id = id; label = short_label label } ∷ [];
          }))

  -- `getDownload`. The owner's answer comes from outside while the call waits.
  unfoldable pub get_download :
      Bool → String → Request → Server e o → Except (Bytes × o.Header) × Server e o
  get_download direct label request s =
      let r : Request = record request { allow_direct = direct } in
      let (x, s') = get r s in
      elim x [
        | good y ↦ (good y, s')
        | bad f ↦ if f.is err_direct_required then ask_owner label r s' else (bad f, s')
      ]

  abbrev pub saved : String → Except String × o.T → Server e o → Except String × Server e o
  saved name (good path, t) s = (good path, record s { outside = t })
  saved name (bad f, t) s =
      (bad (wrap (append "save geodata " (append name ": ")) f), record s { outside = t })

  -- `downloadGeodata`
  unfoldable pub download_geodata : Bool → GeodataFile → Server e o → Except String × Server e o
  download_geodata direct f s =
      let name = base_name f.path in
      let (x, s') = get_download direct (geodata_label f) (geodata_request f) s in
      elim x [
        | bad g ↦ (
          bad (
              wrap (append "the rules need geodata " (append name ", which did not download: ")) g),
          s',
        )
        | good (body, header) ↦ saved name (o.save_temporary f.path body s'.outside) s'
      ]

  -- `installGeodata`
  unfoldable pub install_geodata :
      GeodataFile → String → Profile → Server e o → Option Failure × Server e o
  install_geodata f tmp p s =
      let (x, t) = e.install_geodata f tmp p s.engine in
      let s' = record s { engine = t } in
      elim x [
        | none ↦ (none, s')
        | some g ↦ (
          some (
              wrap
                (append "the geodata "
                  (append (base_name f.path) " that downloaded is not usable: "))
                g),
          s',
        )
      ]

  -- one round of `ensureGeodata`
  unfoldable pub ensure_file :
      Bool → Profile → GeodataFile → Server e o → Option Failure × Server e o
  ensure_file direct p f s =
      let fetched : Option Failure × Server e o =
        let (x, s') = download_geodata direct f s in
        elim x [ bad g ↦ (some g, s') | good tmp ↦ install_geodata f tmp p s' ] in
      elim (o.stat f.path s.outside) [
        | none ↦ (none, s)
        | some g ↦
            if g.is err_not_exist
            then fetched
            else (some (wrap (append "geodata " (append (base_name f.path) ": ")) g), s)
      ]

  unfoldable pub ensure_files :
      Bool → Profile → List GeodataFile → Server e o → Option Failure × Server e o
  ensure_files direct p [] s = (none, s)
  ensure_files direct p (f ∷ fs) s =
      let (x, s') = ensure_file direct p f s in
      elim x [ none ↦ ensure_files direct p fs s' | some g ↦ (some g, s') ]

  -- `ensureGeodata`
  unfoldable pub ensure_geodata : Bool → Profile → Server e o → Option Failure × Server e o
  ensure_geodata direct p s = ensure_files direct p (e.geodata p) s

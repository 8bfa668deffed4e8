-- ===== src/Update/Apply.antt =====
-- internal/update/update.go: `Check` and `Apply`.
use Prim.Native.String.{String}
use omihomo.Base.{
  ℕ, Bool, true, false, not, ◌&&◌, ◌||◌, Option, none, some, str_eq, append, if◌then◌else◌,
}
use omihomo.Engine.{Except, good, bad, Failure}
use omihomo.Update.Version.{Comparison, less, same, more, fail, version_pattern, compare}
use omihomo.Update.Transfer.{World, download}
use omihomo.Update.Release.{Release, read_release}
pub mod Safety

abbrev pub repository : String
repository = "https://github.com/readeem/omihomo"

pub record Status : Type 0 where
  pub installed : String
  pub available : String
  pub update_available : Bool
  pub release_url : String

-- what `System.Install` gets: the path, what stands there, and the version
pub record Package : Type 0 where
  pub path : String
  pub content : String
  pub version : String

-- the version that a release is installed as
abbrev pub package_version : Release → String
package_version r = append r.version (append "-" r.pkgrel)

abbrev pub error : String → Option Failure
error why = some (record { message = why; is = λ _. false; status = none })

-- `comparison > 0`
abbrev is_more : Comparison → Bool
is_more more = true
is_more _ = false

-- `validateInstalled` of `Apply`, once pacman has answered
unfoldable pub validate : String → Release → String → Option Failure
validate action r installed =
    if str_eq installed ""
    then (if str_eq action "update"
        then error "the package is absent; choose Install core"
        else none)
    else if str_eq action "install"
    then error "the package is already installed; choose Update core"
    else elim (compare (package_version r) installed) [
      | bad why ↦ some why
      | good c ↦
          if is_more c
          then none
          else error "refusing to reinstall or downgrade the installed package"
    ]

abbrev pub file_name : Release → String
file_name r = append "omihomo-" (append (package_version r) "-x86_64.pkg.tar.zst")

abbrev newer : Release → String → Except Bool
newer r installed =
    if str_eq installed "" then good true else elim (compare (package_version r) installed) [
      | bad why ↦ bad why
      | good c ↦ good (is_more c)
    ]

abbrev pub to_install : String → Release → String → Package
to_install dir r content = record {
  path = append dir (append "/" (file_name r));
  content = content;
  version = package_version r;
}

module _ (w : World) where
  unfoldable pub validate_installed : String → Release → w.S → Option Failure × w.S
  unfolding validate
  validate_installed action r s =
      let (answer, s1) = w.installed s in
      elim answer [ bad why ↦ (some why, s1) | good installed ↦ (validate action r installed, s1) ]

  module _ (key : String) where
    -- `Check`
    unfoldable pub check : w.S → Except Status × w.S
    check s =
        let (found, s1) = read_release w key (append repository "/releases/latest/download") s in
        elim found [
          | bad why ↦ (bad why, s1)
          | good r ↦
              let (answer, s2) = w.installed s1 in
              elim answer [
                | bad why ↦ (bad why, s2)
                | good installed ↦ elim (newer r installed) [
                  | bad why ↦ (bad why, s2)
                  | good b ↦ (
                    good (record {
                      installed = installed;
                      available = package_version r;
                      update_available = b;
                      release_url = append repository (append "/releases/tag/v" r.version);
                    }),
                    s2,
                  )
                ]
              ]
        ]

  module _ (dir : String) where
    -- `Apply` from the checksum on, up to `System.Install`
    unfoldable pub checked_package : String → Release → String → w.S → Except Package × w.S
    unfolding validate_installed
    checked_package action r content s =
        if not (str_eq (w.digest content) r.package_hash)
        then (fail "package checksum does not match the signed release", s)
        else (let (refused, s1) = validate_installed action r s in
            elim refused [
              | some why ↦ (bad why, s1)
              | none ↦ (good (to_install dir r content), s1)
            ])

    -- the private file and the download into it
    unfoldable pub fetch_package : String → String → Release → w.S → Except Package × w.S
    unfolding checked_package
    fetch_package action origin r s =
        let (failed, s1) = w.open_file (append dir (append "/" (file_name r))) s in
        elim failed [
          | some why ↦ (bad why, s1)
          | none ↦
              let (got, s2) =
                download w (append origin (append "/" (file_name r))) r.package_size s1 in
              let (closed, s3) = w.close_file s2 in
              elim got [
                | bad why ↦ (bad why, s3)
                | good content ↦ elim closed [
                  | some why ↦ (bad why, s3)
                  | none ↦ checked_package action r content s3
                ]
              ]
        ]

    -- `Apply` from the release on
    unfoldable pub prepare_release : String → String → String → Release → w.S → Except Package × w.S
    unfolding fetch_package validate_installed
    prepare_release action version origin r s =
        if not (str_eq r.version version)
        then (fail "signed release does not match the requested version", s)
        else (let (refused, s1) = validate_installed action r s in
            elim refused [ some why ↦ (bad why, s1) | none ↦ fetch_package action origin r s1 ])

    module _ (key : String) where
      -- `Apply` up to `System.Install`
      unfoldable pub prepare : String → String → w.S → Except Package × w.S
      unfolding prepare_release
      prepare action version s =
          if not (str_eq action "install") && not (str_eq action "update")
            || not (version_pattern version)
          then (fail "expected install or update and an X.Y.Z release version", s)
          else (let origin = append repository (append "/releases/download/v" version) in
              let (found, s1) = read_release w key origin s in
              elim found [
                | bad why ↦ (bad why, s1)
                | good r ↦ prepare_release action version origin r s1
              ])

      -- `Apply`, with `System.Install`
      unfoldable pub apply :
          (Package → w.S → Option Failure × w.S) → String → String → w.S → Option Failure × w.S
      unfolding prepare
      apply install action version s =
          let (found, s1) = prepare action version s in
          elim found [ bad why ↦ (some why, s1) | good p ↦ install p s1 ]

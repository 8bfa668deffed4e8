-- ===== src/Update/Apply/Safety.antt =====
-- What `Apply` installs.
use Prim.Native.String.{String}
use omihomo.Base.{
  Bool, true, not, ◌&&◌, ◌||◌, append, Option, none, str_eq, eq_iff, ◌≡◌, refl, sym, ap, ◌∙◌, ◌==◌,
  ◌⊎◌, inl, inr, arith, split_bool, split_option,
}
use omihomo.Engine.{Except, good, bad, Failure, split_except}
use omihomo.Update.Version.{Comparison, less, same, more, compare, version_pattern}
use omihomo.Update.Transfer.{World, size, read, download}
use omihomo.Update.Transfer.Bounds.{transfer-Fits}
use omihomo.Update.Release.{Release, parse_release, trusted, read_release}
use omihomo.Update.Apply.{
  repository, file_name, Package, package_version, is_more, validate, validate_installed,
  checked_package, fetch_package, prepare_release, prepare,
}

-- what is installed allows the action
abbrev pub Allowed : String → Release → String → Type 0
Allowed action r installed =
    (action ≡ "install") × (installed ≡ "")
    ⊎ (action ≡ "update") × (compare (package_version r) installed ≡ good more)

more_of : (c : Comparison) → is_more c ≡ true → c ≡ more
more_of less h = cc h
more_of same h = cc h
more_of more h = refl

abbrev known : String → Bool
known action = not (not (str_eq action "install") && not (str_eq action "update"))

validate-Allowed :
    (action : String) (r : Release) (installed : String)
    → known action ≡ true
    → validate action r installed ≡ none
    → Allowed action r installed
unfolding validate
validate-Allowed action r installed k =
    split_bool P (str_eq installed "") _ _
      (λ e.
        split_bool P (str_eq action "update") _ _ (λ u h. cc h)
          (λ u h.
            inl ((eq_iff action "install").0 (ground (arith, k, u)), (eq_iff installed "").0 e)))
      (λ e.
        split_bool P (str_eq action "install") _ _ (λ u h. cc h)
          (λ u.
            split_except P (compare (package_version r) installed) _ _
              (λ c q.
                split_bool P (is_more c) _ _
                  (λ m h.
                    inr (
                      (eq_iff action "update").0 (ground (arith, k, u)),
                      q ∙ ap good (more_of c m),
                    ))
                  (λ m h. cc h))
              (λ why q h. cc h)))
  where
    P : Option Failure → Type 0
    P x = x ≡ none → Allowed action r installed

module _ (w : World) (key action version : String) where
  -- the description of a release, with a signature that verifies
  pub record Signed (r : Release) : Type 0 where
    pub text : String
    pub sig : String
    pub verified : w.verify key text sig ≡ true
    pub described : parse_release text ≡ good r

  pub record Verified (p : Package) (t : w.S) : Type 0 where
    pub release : Release
    pub signed : Signed release
    pub requested : release.version ≡ version
    pub whole : size p.content ≡ release.package_size
    pub unchanged : w.digest p.content ≡ release.package_hash
    pub named : p.version ≡ package_version release
    -- pacman's last answer
    pub s : w.S
    pub installed : String
    pub answered : w.installed s ≡ (good installed, t)
    pub allowed : Allowed action release installed

  abbrev Answered : Release → w.S → Option Failure × w.S → Type 0
  Answered r s x = x.0 ≡ none → (i : String) × (w.installed s ≡ (good i, x.1)) × Allowed action r i

  validate_installed-Answered :
      (r : Release) (s : w.S) → known action ≡ true → Answered r s (validate_installed w action r s)
  unfolding validate_installed
  validate_installed-Answered r s k =
      split_except (Answered r s) (w.installed s).0 _ _
        (λ i q h. (
          i,
          ap (λ (a : Except String). (a, (w.installed s).1)) q,
          validate-Allowed action r i k h,
        ))
        (λ why q h. cc h)

  abbrev Checked : Except Package × w.S → Type 0
  Checked x = (p : Package) (t : w.S) → x ≡ (good p, t) → Verified p t

  failed : (why : Failure) (s : w.S) → Checked (bad why, s)
  failed why s p t h = cc h

  passed : (p : Package) (s : w.S) → Verified p s → Checked (good p, s)
  passed p s v q t e =
      let a : p ≡ q = cc (ap (λ (x : Except Package × w.S). x.0) e) in
      let b : s ≡ t = ap (λ (x : Except Package × w.S). x.1) e in rw (sym a, sym b) v

  module _ (dir : String) (k : known action ≡ true) (r : Release) (signed : Signed r)
      (requested : r.version ≡ version) where
    checked_package-Checked :
        (content : String) (s : w.S)
        → size content ≡ r.package_size
        → Checked (checked_package w dir action r content s)
    unfolding checked_package
    checked_package-Checked content s whole =
        split_bool Checked (not (str_eq (w.digest content) r.package_hash)) _ _ (λ h. failed _ _)
          (λ h.
            split_option Checked (validate_installed w action r s).0 _ _
              (λ q.
                let (i, a, b) = validate_installed-Answered r s k q in
                passed _ _ (record {
                  release = r;
                  signed = signed;
                  requested = requested;
                  whole = whole;
                  unchanged = (eq_iff (w.digest content) r.package_hash).0 (ground (arith, h));
                  named = refl;
                  s = s;
                  installed = i;
                  answered = a;
                  allowed = b;
                }))
              (λ why q. failed _ _))

    fetch_package-Checked :
        (origin : String) (s : w.S) → Checked (fetch_package w dir action origin r s)
    unfolding fetch_package
    fetch_package-Checked origin s =
        split_option Checked (w.open_file (append dir (append "/" (file_name r))) s).0 _ _
          (λ q.
            let s1 = (w.open_file (append dir (append "/" (file_name r))) s).1 in
            let address = append origin (append "/" (file_name r)) in
            split_except Checked (download w address r.package_size s1).0 _ _
              (λ content got.
                split_option Checked (w.close_file (download w address r.package_size s1).1).0 _ _
                  (λ c. checked_package-Checked content _ (
                    (transfer-Fits w w.write_fails address r.package_size true s1 content got).1
                      refl))
                  (λ why c. failed _ _))
              (λ why got. failed _ _))
          (λ why q. failed _ _)

  module _ (dir : String) (k : known action ≡ true) where
    prepare_release-Checked :
        (origin : String) (r : Release) (s : w.S)
        → Signed r
        → Checked (prepare_release w dir action version origin r s)
    unfolding prepare_release
    prepare_release-Checked origin r s signed =
        split_bool Checked (not (str_eq r.version version)) _ _ (λ h. failed _ _)
          (λ h.
            split_option Checked (validate_installed w action r s).0 _ _
              (λ q.
                fetch_package-Checked dir k r signed
                  ((eq_iff r.version version).0 (ground (arith, h))) origin _)
              (λ why q. failed _ _))

  trusted-Signed : (text sig : String) (r : Release) → trusted w key text sig ≡ good r → Signed r
  unfolding trusted
  trusted-Signed text sig r =
      split_bool (λ (x : Except Release). x ≡ good r → Signed r)
        (not (size key == 32) || not (w.verify key text sig)) _ _ (λ h e. cc e)
        (λ h e. record { text = text; sig = sig; verified = ground (arith, h); described = e })

  abbrev Read : Except Release × w.S → Type 0
  Read x = (r : Release) → x.0 ≡ good r → Signed r

  read_release-Signed : (origin : String) (s : w.S) → Read (read_release w key origin s)
  unfolding read_release
  read_release-Signed origin s =
      let a = read w (append origin "/omihomo-release.txt") 1024 s in
      split_except Read a.0 _ _
        (λ text q.
          split_except Read (read w (append origin "/omihomo-release.txt.sig") 64 a.1).0 _ _
            (λ sig g r. trusted-Signed text sig r) (λ why g r e. cc e))
        (λ why q r e. cc e)

  -- What `Apply` hands to `System.Install` has the size and the checksum of a description that the
  -- release key has signed, is of the version that was asked for, and may replace what pacman said
  -- is installed in its last answer: nothing on an install, an older version on an update.
  pub prepare-Verified :
      (dir : String) (s : w.S) (p : Package) (t : w.S)
      → prepare w dir key action version s ≡ (good p, t)
      → Verified p t
  unfolding prepare
  prepare-Verified dir s =
      split_bool Checked
        (not (str_eq action "install") && not (str_eq action "update")
          || not (version_pattern version))
        _ _ (λ h. failed _ _)
        (λ h.
          let origin = append repository (append "/releases/download/v" version) in
          split_except Checked (read_release w key origin s).0 _ _
            (λ r q.
              prepare_release-Checked dir (ground (arith, h)) origin r _
                (read_release-Signed origin s r q))
            (λ why q. failed _ _))

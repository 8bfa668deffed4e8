-- ===== src/Update/Release.antt =====
-- internal/update/update.go: `readRelease`, the signed description of a release.
use Prim.Native.Char.{Char, code}
use Prim.Native.String.{String}
use omihomo.Base.{
  ℕ, ◌+◌, ◌*◌, ◌^◌, Bool, true, false, not, ◌&&◌, ◌||◌, List, [], ◌∷◌, Option, none, some, str_eq,
  ltb, leb, ◌==◌, length, codes, append, if◌then◌else◌, split_on, ◌≡◌, refl,
}
use omihomo.Engine.{Except, good, bad}
use omihomo.Update.Version.{fail, digit, version_pattern, positive_number, number}
use omihomo.Update.Transfer.{World, read, size}
pub mod Trust

pub record Release : Type 0 where
  pub version : String
  pub pkgrel : String
  pub package_size : ℕ
  pub package_hash : String

abbrev pub max_package : ℕ
max_package = 128 * 2 ^ 20

abbrev pub max_installer : ℕ
max_installer = 32 * 2 ^ 20

-- `boundedSize`
unfoldable pub bounded_size : String → ℕ → Except ℕ
bounded_size value limit =
    if not (positive_number value)
    then fail "invalid signed release size"
    else if ltb limit (number value)
    then fail "signed release exceeds the download size limit"
    else good (number value)

-- a hexadecimal digit, and a capital one
abbrev is_hex : ℕ → Bool
is_hex c = digit c || leb b'a' c && leb c b'f' || leb b'A' c && leb c b'F'

unfoldable pub all_hex : String → Bool
all_hex String.[] = true
all_hex (String.◌∷◌ c s) = is_hex (code c) && all_hex s

unfoldable pub has_capital : String → Bool
has_capital String.[] = false
has_capital (String.◌∷◌ c s) = leb b'A' (code c) && leb (code c) b'Z' || has_capital s

-- the test of one checksum: 32 bytes in hexadecimal digits, none of them a capital
unfoldable pub checksum : String → Bool
unfolding all_hex has_capital
checksum value = all_hex value && size value == 64 && not (has_capital value)

-- `strings.TrimPrefix`, where the prefix is there
unfoldable pub strip_prefix : String → String → Option String
strip_prefix String.[] s = some s
strip_prefix (String.◌∷◌ p ps) String.[] = none
strip_prefix (String.◌∷◌ p ps) (String.◌∷◌ c s) =
    let rest = strip_prefix ps s in if code p == code c then rest else none

abbrev pub field_names : List String
field_names =
    "version" ∷ "pkgrel" ∷ "arch" ∷ "package-size" ∷ "package-sha256" ∷ "installer-size"
    ∷ "installer-sha256" ∷ []

-- the loop that reads the values
unfoldable pub read_values : List String → List String → Option (List String)
unfolding strip_prefix
read_values [] lines = some []
read_values (n ∷ ns) [] = none
read_values (n ∷ ns) (l ∷ lines) =
    let rest = read_values ns lines in
    elim (strip_prefix (append n "=") l) [
      | none ↦ none
      | some v ↦ elim rest [ none ↦ none | some vs ↦ some (v ∷ vs) ]
    ]

-- the checks of the values
unfoldable pub check_values : List String → Except Release
unfolding bounded_size checksum
check_values (version ∷ pkgrel ∷ arch ∷ size1 ∷ hash1 ∷ size2 ∷ hash2 ∷ []) =
    if not (version_pattern version) || not (positive_number pkgrel)
    then fail "invalid signed release version"
    else elim (bounded_size size1 max_package) [
      | bad why ↦ bad why
      | good n ↦ elim (bounded_size size2 max_installer) [
        | bad why ↦ bad why
        | good _ ↦
            if not (checksum hash1) || not (checksum hash2)
            then fail "invalid signed release checksum"
            else good (record {
              version = version;
              pkgrel = pkgrel;
              package_size = n;
              package_hash = hash1;
            })
      ]
    ]
check_values _ = fail "index out of range"

abbrev value_lines : Option (List String) → Except Release
value_lines none = fail "invalid signed release field order"
value_lines (some values) = check_values values

abbrev newline : Char
newline = "\n"

-- the nine lines: a heading, the values, and nothing after the last line break
unfoldable pub release_lines : List String → Except Release
unfolding read_values
release_lines (h ∷ a ∷ b ∷ c ∷ d ∷ e ∷ f ∷ g ∷ z ∷ []) =
    if not (str_eq h "OMIHOMO-RELEASE-1") || not (str_eq z "") || not (str_eq c "arch=x86_64")
    then fail "invalid signed release format or architecture"
    else value_lines (read_values field_names (a ∷ b ∷ c ∷ d ∷ e ∷ f ∷ g ∷ z ∷ []))
release_lines _ = fail "invalid signed release format or architecture"

unfoldable pub parse_release : String → Except Release
parse_release text = release_lines (split_on newline text)

module _ (w : World) (key : String) where
  -- what `readRelease` does with the two files
  unfoldable pub trusted : String → String → Except Release
  unfolding parse_release
  trusted text sig =
      if not (size key == 32) || not (w.verify key text sig)
      then fail "release signature verification failed"
      else parse_release text

  -- `readRelease`
  unfoldable pub read_release : String → w.S → Except Release × w.S
  unfolding trusted
  read_release origin s =
      let (text, s1) = read w (append origin "/omihomo-release.txt") 1024 s in
      elim text [
        | bad why ↦ (bad why, s1)
        | good t ↦
            let (sig, s2) = read w (append origin "/omihomo-release.txt.sig") 64 s1 in
            elim sig [ bad why ↦ (bad why, s2) | good g ↦ (trusted t g, s2) ]
      ]

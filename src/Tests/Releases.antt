-- ===== src/Tests/Releases.antt =====
-- Runs of the theorems on releases, at a world with one signed release.
use Prim.Native.String.{String}
use omihomo.Base.{
  ℕ, ◌+◌, true, false, none, some, ◌≡◌, refl, str_eq, append, ◌==◌, if◌then◌else◌, split_on,
}
use omihomo.Engine.{good}
use omihomo.Update.Version.{
  less, more, compare, parse_version, version_pattern, positive_number, number_from,
}
use omihomo.Update.Version.Order.{flip, compare-flip, compare-less}
use omihomo.Update.Transfer.{World, Response, transfer}
use omihomo.Update.Transfer.Bounds.{Fits, transfer-Fits}
use omihomo.Update.Release.{Release, parse_release, release_lines, check_values, read_release}
use omihomo.Update.Release.Trust.{Sound, parse_release-Sound}
use omihomo.Update.Apply.{Package, prepare}
use omihomo.Update.Apply.Safety.{Verified, prepare-Verified}

ten_after_nine : compare "1.10.0-1" "1.9.3-2" ≡ good more
unfolding compare parse_version split_on version_pattern positive_number number_from
ten_after_nine = refl

nine_before_ten : compare "1.9.3-2" "1.10.0-1" ≡ good less
unfolding compare parse_version split_on version_pattern positive_number number_from
nine_before_ten = refl

ten_before_two : compare "1.10.0-1" "2.0.0-1" ≡ good less
unfolding compare parse_version split_on version_pattern positive_number number_from
ten_before_two = refl

compare-flip_example : compare "1.10.0-1" "1.9.3-2" ≡ good (flip less)
compare-flip_example = compare-flip "1.9.3-2" "1.10.0-1" less nine_before_ten

compare-less_example : compare "1.9.3-2" "2.0.0-1" ≡ good less
compare-less_example = compare-less "1.9.3-2" "1.10.0-1" "2.0.0-1" nine_before_ten ten_before_two

abbrev hash : String
hash = "0123456789abcdef0123456789abcdef0123456789abcdef0123456789abcdef"

abbrev description : String
description =
    append
      "OMIHOMO-RELEASE-1\nversion=1.10.0\npkgrel=1\narch=x86_64\npackage-size=4\npackage-sha256="
      (append hash (append "\ninstaller-size=5\ninstaller-sha256=" (append hash "\n")))

abbrev release : Release
release = record { version = "1.10.0"; pkgrel = "1"; package_size = 4; package_hash = hash }

description-read : parse_release description ≡ good release
unfolding parse_release release_lines split_on check_values version_pattern positive_number
    number_from
description-read = refl

parse_release-Sound_example : Sound release
parse_release-Sound_example = parse_release-Sound description release description-read

abbrev answer : String → Response
answer body = record { status = 200; content_length = none; body = body; broken = false }

-- pacman says that 1.9.3-2 is installed, and each call counts
abbrev world : World
world = record {
  S = ℕ;
  parse_url = λ a. some (record {
    scheme = "https";
    has_user = false;
    port = "";
    fragment = "";
    host = "github.com";
  });
  do_request = λ a s. (
    good (answer (if s == 0 then description else if s == 1 then "signature" else "code")),
    s + 1,
  );
  verify = λ k t g. str_eq g "signature";
  digest = λ c. hash;
  write_fails = λ c s. (false, s);
  installed = λ s. (good "1.9.3-2", s + 1);
  open_file = λ p s. (none, s + 1);
  close_file = λ s. (none, s + 1);
}

abbrev key : String
key = "0123456789abcdef0123456789abcdef"

abbrev update_package : Package
update_package = record {
  path = "/tmp/p/omihomo-1.10.0-1-x86_64.pkg.tar.zst";
  content = "code";
  version = "1.10.0-1";
}

update_prepared : prepare world "/tmp/p" key "update" "1.10.0" 0 ≡ (good update_package, 7)
unfolding prepare version_pattern split_on positive_number read_release transfer release_lines
    check_values number_from compare parse_version
update_prepared = refl

prepare-Verified_example : Verified world key "update" "1.10.0" update_package 7
prepare-Verified_example =
    prepare-Verified world key "update" "1.10.0" "/tmp/p" 0 update_package 7 update_prepared

code_transferred :
    (transfer world world.write_fails "https://github.com/p" 4 true 2).0 ≡ good "code"
unfolding transfer
code_transferred = refl

transfer-Fits_example : Fits 4 true "code"
transfer-Fits_example =
    transfer-Fits world world.write_fails "https://github.com/p" 4 true 2 "code" code_transferred

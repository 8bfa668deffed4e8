-- ===== src/Update/Release/Trust.antt =====
-- What an accepted description of a release says.
use Prim.Native.Char.{code}
use Prim.Native.String.{String}
use omihomo.Base.{
  ℕ, ◌+◌, ◌-◌, ◌*◌, ◌≤◌, true, not, ◌||◌, List, [], ◌∷◌, Option, none, some, str_eq, ltb, split_on,
  ◌≡◌, sym, arith, split_bool,
}
use omihomo.Engine.{Except, good, split_except}
use omihomo.Update.Version.{version_pattern, positive_number, starts_positive, number_from, number}
use omihomo.Update.Release.{
  Release, max_package, max_installer, bounded_size, checksum, check_values, value_lines,
  field_names, read_values, release_lines, parse_release, newline,
}

number_from-le : (n : ℕ) (s : String) → n ≤ number_from n s
unfolding number_from
number_from-le n String.[] = omega arith
number_from-le n (String.◌∷◌ c s) = omega (arith, number_from-le (n * 10 + (code c - b'0')) s)

-- digits without a leading zero are a positive number
starts_positive-number : (s : String) → starts_positive s ≡ true → 1 ≤ number s
unfolding number_from
starts_positive-number String.[] h = cc h
starts_positive-number (String.◌∷◌ c s) h =
    let k : 49 ≤ code c = ground (arith, h) in
    let l : 0 * 10 + (code c - b'0') ≤ number (String.◌∷◌ c s) =
      number_from-le (0 * 10 + (code c - b'0')) s in
    omega (arith, k, l)

bounded_size-range :
    (value : String) (limit n : ℕ) → bounded_size value limit ≡ good n → (1 ≤ n) × (n ≤ limit)
unfolding bounded_size positive_number
bounded_size-range value limit n =
    split_bool P (not (positive_number value)) _ _ (λ h e. cc e)
      (λ h.
        split_bool P (ltb limit (number value)) _ _ (λ k e. cc e)
          (λ k e.
            let q : number value ≡ n = cc e in
            rw (sym q) (starts_positive-number value (ground (arith, h)), ground (arith, k))))
  where
    P : Except ℕ → Type 0
    P x = x ≡ good n → (1 ≤ n) × (n ≤ limit)

-- the fields that the updater goes on with
pub record Sound (r : Release) : Type 0 where
  pub version_matches : version_pattern r.version ≡ true
  pub pkgrel_positive : positive_number r.pkgrel ≡ true
  pub size_positive : 1 ≤ r.package_size
  pub size_bounded : r.package_size ≤ max_package
  pub hash_written : checksum r.package_hash ≡ true

abbrev IsSound : Except Release → Type 0
IsSound x = (r : Release) → x ≡ good r → Sound r

seven_values : (a b c d e f g : String) → IsSound (check_values (a ∷ b ∷ c ∷ d ∷ e ∷ f ∷ g ∷ []))
unfolding check_values
seven_values a b c d e f g =
    split_bool IsSound (not (version_pattern a) || not (positive_number b)) _ _ (λ h r q. cc q)
      (λ h.
        split_except IsSound (bounded_size d max_package) _ _
          (λ n x.
            split_except IsSound (bounded_size f max_installer) _ _
              (λ m y.
                split_bool IsSound (not (checksum e) || not (checksum g)) _ _ (λ k r q. cc q)
                  (λ k r.
                    λ (q : good
                          (record { version = a; pkgrel = b; package_size = n; package_hash = e })
                        ≡ good r).
                      let z : record { version = a; pkgrel = b; package_size = n; package_hash = e }
                          ≡ r =
                        cc q in
                      rw (sym z) (record {
                        version_matches = ground (arith, h);
                        pkgrel_positive = ground (arith, h);
                        size_positive = (bounded_size-range d max_package n x).0;
                        size_bounded = (bounded_size-range d max_package n x).1;
                        hash_written = ground (arith, k);
                      })))
              (λ why y r q. cc q))
          (λ why x r q. cc q))

check_values-IsSound : (vs : List String) → IsSound (check_values vs)
unfolding check_values
check_values-IsSound [] r q = cc q
check_values-IsSound (a ∷ []) r q = cc q
check_values-IsSound (a ∷ b ∷ []) r q = cc q
check_values-IsSound (a ∷ b ∷ c ∷ []) r q = cc q
check_values-IsSound (a ∷ b ∷ c ∷ d ∷ []) r q = cc q
check_values-IsSound (a ∷ b ∷ c ∷ d ∷ e ∷ []) r q = cc q
check_values-IsSound (a ∷ b ∷ c ∷ d ∷ e ∷ f ∷ []) r q = cc q
check_values-IsSound (a ∷ b ∷ c ∷ d ∷ e ∷ f ∷ g ∷ []) r q = seven_values a b c d e f g r q
check_values-IsSound (a ∷ b ∷ c ∷ d ∷ e ∷ f ∷ g ∷ h ∷ vs) r q = cc q

value_lines-IsSound : (o : Option (List String)) → IsSound (value_lines o)
value_lines-IsSound none r q = cc q
value_lines-IsSound (some vs) r q = check_values-IsSound vs r q

release_lines-IsSound : (ls : List String) → IsSound (release_lines ls)
unfolding release_lines
release_lines-IsSound [] r q = cc q
release_lines-IsSound (h ∷ []) r q = cc q
release_lines-IsSound (h ∷ a ∷ []) r q = cc q
release_lines-IsSound (h ∷ a ∷ b ∷ []) r q = cc q
release_lines-IsSound (h ∷ a ∷ b ∷ c ∷ []) r q = cc q
release_lines-IsSound (h ∷ a ∷ b ∷ c ∷ d ∷ []) r q = cc q
release_lines-IsSound (h ∷ a ∷ b ∷ c ∷ d ∷ e ∷ []) r q = cc q
release_lines-IsSound (h ∷ a ∷ b ∷ c ∷ d ∷ e ∷ f ∷ []) r q = cc q
release_lines-IsSound (h ∷ a ∷ b ∷ c ∷ d ∷ e ∷ f ∷ g ∷ []) r q = cc q
release_lines-IsSound (h ∷ a ∷ b ∷ c ∷ d ∷ e ∷ f ∷ g ∷ z ∷ []) r q =
    split_bool IsSound
      (not (str_eq h "OMIHOMO-RELEASE-1") || not (str_eq z "") || not (str_eq c "arch=x86_64")) _ _
      (λ k r q. cc q)
      (λ k. value_lines-IsSound (read_values field_names (a ∷ b ∷ c ∷ d ∷ e ∷ f ∷ g ∷ z ∷ []))) r q
release_lines-IsSound (h ∷ a ∷ b ∷ c ∷ d ∷ e ∷ f ∷ g ∷ z ∷ y ∷ ls) r q = cc q

-- A description that is accepted has a version of three numbers, a positive release number, a size
-- between 1 byte and 128 MiB, and a checksum of 64 hexadecimal digits without capitals.
pub parse_release-Sound : (text : String) (r : Release) → parse_release text ≡ good r → Sound r
unfolding parse_release
parse_release-Sound text = release_lines-IsSound (split_on newline text)

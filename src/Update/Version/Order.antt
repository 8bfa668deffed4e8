-- ===== src/Update/Version/Order.antt =====
-- `compare` orders the versions.
use omihomo.Base.{
  ℕ, ◌+◌, ◌<◌, String, true, false, ◌&&◌, List, [], ◌∷◌, map, Option, none, some, length, ltb,
  if◌then◌else◌, split_on, ◌≡◌, refl, sym, ap, ◌∙◌, ◌⊎◌, inl, inr, arith, split_bool, Bool-cases,
  Option-cases, length-append,
}
use omihomo.Engine.{Except, good}
use omihomo.Update.Version.{
  Comparison, less, same, more, version_pattern, positive_number, number, parse_version,
  first_difference, compare, three_parts, version_numbers, dot, dash,
}

abbrev pub flip : Comparison → Comparison
flip less = more
flip same = same
flip more = less

abbrev by_numbers : ℕ → ℕ → Except Comparison → Except Comparison
by_numbers n m rest = if ltb n m then good less else if ltb m n then good more else rest

by_numbers-flip :
    (n m : ℕ) (x y : Except Comparison) (o : Comparison)
    → ((p : Comparison) → x ≡ good p → y ≡ good (flip p))
    → by_numbers n m x ≡ good o
    → by_numbers m n y ≡ good (flip o)
by_numbers-flip n m x y o f h = elim (Bool-cases (ltb n m)) [
  | inl a ↦
      let b : ltb m n ≡ false = ground (arith, a) in
      let q : less ≡ o = cc (rw a at h) in rw (b, a) (ap (λ (p : Comparison). good (flip p)) q)
  | inr a ↦ elim (Bool-cases (ltb m n)) [
    | inl b ↦
        let q : more ≡ o = cc (rw (a, b) at h) in rw b (ap (λ (p : Comparison). good (flip p)) q)
    | inr b ↦ rw (b, a) (f o (rw (a, b) at h))
  ]
]

by_numbers-less :
    (n m : ℕ) (x : Except Comparison)
    → by_numbers n m x ≡ good less
    → (n < m) ⊎ ((n ≡ m) × (x ≡ good less))
by_numbers-less n m x h = elim (Bool-cases (ltb n m)) [
  | inl a ↦ inl (ground arith)
  | inr a ↦ elim (Bool-cases (ltb m n)) [
    | inl b ↦ cc (rw (a, b) at h)
    | inr b ↦ inr (ground arith, rw (a, b) at h)
  ]
]

first_difference-flip :
    (ns ms : List ℕ) (o : Comparison)
    → length ns ≡ length ms
    → first_difference ns ms ≡ good o
    → first_difference ms ns ≡ good (flip o)
unfolding first_difference
first_difference-flip [] [] o l h =
    let q : same ≡ o = cc h in ap (λ (p : Comparison). good (flip p)) q
first_difference-flip [] (m ∷ ms) o l h = ground (arith, l)
first_difference-flip (n ∷ ns) [] o l h = cc h
first_difference-flip (n ∷ ns) (m ∷ ms) o l h =
    by_numbers-flip n m _ _ o (λ p q. first_difference-flip ns ms p (omega (arith, l)) q) h

first_difference-less :
    (ns ms ks : List ℕ)
    → first_difference ns ms ≡ good less
    → first_difference ms ks ≡ good less
    → first_difference ns ks ≡ good less
unfolding first_difference
first_difference-less [] ms ks h k = cc h
first_difference-less (n ∷ ns) [] ks h k = cc h
first_difference-less (n ∷ ns) (m ∷ ms) [] h k = cc k
first_difference-less (n ∷ ns) (m ∷ ms) (l ∷ ks) h k = elim (by_numbers-less n m _ h) [
  | inl a ↦ elim (by_numbers-less m l _ k) [ inl b ↦ ground arith | inr (b, _) ↦ ground arith ]
  | inr (a, x) ↦ elim (by_numbers-less m l _ k) [
    | inl b ↦ ground arith
    | inr (b, y) ↦ ground (arith, first_difference-less ns ms ks x y)
  ]
]

-- a version has four numbers
abbrev Four : Option (List ℕ) → Type 0
Four none = Unit
Four (some ns) = length ns ≡ 4

three_numbers : (ps : List String) → three_parts ps ≡ true → length (map number ps) ≡ 3
three_numbers [] h = cc h
three_numbers (a ∷ []) h = cc h
three_numbers (a ∷ b ∷ []) h = cc h
three_numbers (a ∷ b ∷ c ∷ []) h = refl
three_numbers (a ∷ b ∷ c ∷ d ∷ ps) h = cc h

two_parts-Four : (p q : String) → Four (version_numbers (p ∷ q ∷ []))
unfolding version_pattern
two_parts-Four p q =
    split_bool Four (version_pattern p && positive_number q) _ _
      (λ h.
        length-append (map number (split_on dot p)) (number q ∷ [])
        ∙ ap (λ (n : ℕ). n + 1) (three_numbers (split_on dot p) (ground (arith, h))))
      (λ h. tt)

version_numbers-Four : (ps : List String) → Four (version_numbers ps)
version_numbers-Four [] = tt
version_numbers-Four (p ∷ []) = tt
version_numbers-Four (p ∷ q ∷ []) = two_parts-Four p q
version_numbers-Four (p ∷ q ∷ r ∷ ps) = tt

parse_version-length : (v : String) (ns : List ℕ) → parse_version v ≡ some ns → length ns ≡ 4
unfolding parse_version
parse_version-length v ns h = rw h at (version_numbers-Four (split_on dash v))

-- Two versions that `compare` orders are ordered the other way round when they are swapped.
pub compare-flip :
    (a b : String) (o : Comparison) → compare a b ≡ good o → compare b a ≡ good (flip o)
unfolding compare
compare-flip a b o h = elim (Option-cases (parse_version a)) [
  | inl x ↦ cc (rw (x, compare) at h)
  | inr (ns, x) ↦ elim (Option-cases (parse_version b)) [
    | inl y ↦ cc (rw (x, y, compare) at h)
    | inr (ms, y) ↦
        rw (y, x, compare)
          (first_difference-flip ns ms o
            (parse_version-length a ns x ∙ sym (parse_version-length b ms y))
            (rw (x, y, compare) at h))
  ]
]

-- Where `compare` puts one version before another, and that before a third, it puts the first before
-- the third.
pub compare-less :
    (a b c : String) → compare a b ≡ good less → compare b c ≡ good less → compare a c ≡ good less
unfolding compare
compare-less a b c h k = elim (Option-cases (parse_version a)) [
  | inl x ↦ cc (rw (x, compare) at h)
  | inr (ns, x) ↦ elim (Option-cases (parse_version b)) [
    | inl y ↦ cc (rw (x, y, compare) at h)
    | inr (ms, y) ↦ elim (Option-cases (parse_version c)) [
      | inl z ↦ cc (rw (y, z, compare) at k)
      | inr (ks, z) ↦
          rw (x, z, compare)
            (first_difference-less ns ms ks (rw (x, y, compare) at h) (rw (y, z, compare) at k))
    ]
  ]
]

-- ===== src/Mihomo/Rules/Fuel.antt =====
-- The fuel of `check_regex` is enough: the code, which has none, returns.
use Prim.Native.Char.{Char, code}
use text.Mathlib.TextLemmas.{nil-append, cons-append}
use omihomo.Base.{
  ℕ, zero, suc, ◌+◌, ◌≤◌, ◌<◌, String, Bool-cases, List, [], ◌∷◌, Option, none, some, ◌≡◌, refl,
  ◌∙◌, sym, ap, inl, inr, str_eq, arith, trim_space, codes, length, ◌==◌, split_option, split_bool,
  trim_space-shorter, Option-cases,
}
use omihomo.Mihomo.Rules.{
  cut_comma, push, conditions, drop_last, inner_of, first_error, check_pair, check_inner,
  check_regex_on, check_regex, Checked, then_check, check_pattern, error_of, has_suffix, is_logic,
}

abbrev pub size : String → ℕ
size s = length (codes s)

abbrev AllWithin : ℕ → List String → Type 0
AllWithin n [] = Unit
AllWithin n (s ∷ ss) = (size s ≤ n) × AllWithin n ss

push-size : (s : String) (c : Char) → size (push s c) ≡ size s + 1
push-size String.[] c = rw (nil-append (String.◌∷◌ c "")) refl
push-size (String.◌∷◌ d s) c = rw (cons-append d s (String.◌∷◌ c "")) (omega (arith, push-size s c))

cut_comma-size : (s : String) → size (cut_comma s).1 ≤ size s
unfolding cut_comma
cut_comma-size String.[] = omega arith
cut_comma-size (String.◌∷◌ c s) =
    split_bool (λ (p : String × String). size p.1 ≤ suc (size s)) (code c == b',') _ _
      (λ h. omega arith) (λ h. omega (arith, cut_comma-size s))

drop_last-size : (s t : String) → drop_last s ≡ some t → size t < size s
drop_last-size String.[] t h = cc h
drop_last-size (String.◌∷◌ c String.[]) t h =
    split_bool (λ (x : Option String). x ≡ some t → size t < 1) (code c == b')') _ _
      (λ k. λ (e : some "" ≡ some t). let q : "" ≡ t = cc e in rw (sym q) (omega arith))
      (λ k e. cc e) h
drop_last-size (String.◌∷◌ c (String.◌∷◌ d s)) t h =
    split_option (λ (x : Option String). x ≡ some t → size t < suc (suc (size s)))
      (drop_last (String.◌∷◌ d s)) _ _ (λ k e. cc e)
      (λ u k. λ (e : some (String.◌∷◌ c u) ≡ some t).
        let q : String.◌∷◌ c u ≡ t = cc e in
        rw (sym q) (omega (arith, drop_last-size (String.◌∷◌ d s) u k)))
      h

inner_of-size : (s t : String) → inner_of s ≡ some t → size t < size s
unfolding inner_of
inner_of-size String.[] t h = cc h
inner_of-size (String.◌∷◌ c s) t h =
    split_bool (λ (x : Option String). x ≡ some t → size t < suc (size s)) (code c == b'(') _ _
      (λ k e. omega (arith, drop_last-size s t e)) (λ k e. cc e) h

-- each condition is a part of the expression
conditions-AllWithin :
    (n opened closed : ℕ) (cur s : String)
    → size cur + size s ≤ n
    → AllWithin n (conditions opened closed cur s)
unfolding conditions
conditions-AllWithin n opened closed cur String.[] h = tt
conditions-AllWithin n opened closed cur (String.◌∷◌ c s) h =
    let longer = push-size cur c in
    split_bool (AllWithin n) (code c == b'(') _ _
      (λ a.
        split_bool (AllWithin n) (opened == closed) _ _
          (λ k. conditions-AllWithin n (opened + 1) closed "" s (omega (arith, h)))
          (λ k.
            conditions-AllWithin n (opened + 1) closed (push cur c) s (omega (arith, h, longer))))
      (λ a.
        split_bool (AllWithin n) (code c == b')') _ _
          (λ k.
            split_bool (AllWithin n) (opened == closed + 1) _ _
              (λ l. (
                omega (arith, h),
                conditions-AllWithin n opened (closed + 1) (push cur c) s
                    (omega (arith, h, longer)),
              ))
              (λ l.
                conditions-AllWithin n opened (closed + 1) (push cur c) s
                  (omega (arith, h, longer))))
          (λ k. conditions-AllWithin n opened closed (push cur c) s (omega (arith, h, longer))))

-- an answer that is one: the fuel did not run out
abbrev Answers : Checked → Type 0
Answers x = (r : Option String) × (x ≡ some r)

then_check-Answers : (x y : Checked) → Answers x → Answers y → Answers (then_check x y)
then_check-Answers none y (r, e) b = cc e
then_check-Answers (some none) y a b = b
then_check-Answers (some (some why)) y a b = (some why, refl)

first_error-Answers :
    (n : ℕ) (f : String → Checked) (ss : List String)
    → ((s : String) → size s ≤ n → Answers (f s))
    → AllWithin n ss
    → Answers (first_error f ss)
unfolding first_error
first_error-Answers n f [] h a = (none, refl)
first_error-Answers n f (s ∷ ss) h (a, b) =
    then_check-Answers (f s) (first_error f ss) (h s a) (first_error-Answers n f ss h b)

first_error-Agree :
    (n : ℕ) (f g : String → Checked) (ss : List String)
    → ((s : String) → size s ≤ n → f s ≡ g s)
    → AllWithin n ss
    → first_error f ss ≡ first_error g ss
unfolding first_error
first_error-Agree n f g [] h a = refl
first_error-Agree n f g (s ∷ ss) h (a, b) =
    rw (h s a, first_error) (ap (then_check (g s)) (first_error-Agree n f g ss h b))

module _ (compile : String → Option String) where
  abbrev pub Agree : ℕ → ℕ → Type 0
  Agree f g =
      (typ value : String)
      → size value < f
      → size value < g
      → check_regex_on compile f typ value ≡ check_regex_on compile g typ value

  check_pair-Agree :
      (f g : ℕ) (s : String)
      → Agree f g
      → size s < f
      → size s < g
      → check_pair (check_regex_on compile f) s ≡ check_pair (check_regex_on compile g) s
  check_pair-Agree f g s h a b =
      h (trim_space (cut_comma s).0) (trim_space (cut_comma s).1)
        (omega (arith, trim_space-shorter (cut_comma s).1, cut_comma-size s, a))
        (omega (arith, trim_space-shorter (cut_comma s).1, cut_comma-size s, b))

  check_inner-Agree :
      (f g : ℕ) (typ inner : String)
      → Agree f g
      → size inner < f
      → size inner < g
      → check_inner (check_regex_on compile f) typ (some inner)
        ≡ check_inner (check_regex_on compile g) typ (some inner)
  check_inner-Agree f g typ inner h a b = elim (Bool-cases (str_eq typ "SUB-RULE")) [
    | inl k ↦ rw k (check_pair-Agree f g inner h a b)
    | inr k ↦ rw k (
        first_error-Agree (size inner) _ _ (conditions 0 0 "" inner)
          (λ s l. check_pair-Agree f g s h (omega (arith, l, a)) (omega (arith, l, b)))
          (conditions-AllWithin (size inner) 0 0 "" inner (omega arith)))
  ]

  nested-Agree :
      (f g : ℕ) (typ value : String)
      → Agree f g
      → size value ≤ f
      → size value ≤ g
      → check_inner (check_regex_on compile f) typ (inner_of value)
        ≡ check_inner (check_regex_on compile g) typ (inner_of value)
  nested-Agree f g typ value h a b = elim (Option-cases (inner_of value)) [
    | inl k ↦ rw k refl
    | inr (inner, k) ↦
        let l = inner_of-size value inner k in
        rw k (check_inner-Agree f g typ inner h (omega (arith, l, a)) (omega (arith, l, b)))
  ]

  check_regex_on-Agree : (f g : ℕ) → Agree f g
  unfolding check_regex_on
  check_regex_on-Agree zero g typ value a b = elim a [ ]
  check_regex_on-Agree (suc f) zero typ value a b = elim b [ ]
  check_regex_on-Agree (suc f) (suc g) typ value a b =
      rw
        (nested-Agree f g typ value (check_regex_on-Agree f g) (omega (arith, a))
          (omega (arith, b)))
        refl

  -- with more than `n` units of fuel every value of at most `n` characters is answered
  abbrev Enough : ℕ → Type 0
  Enough f = (typ value : String) → size value < f → Answers (check_regex_on compile f typ value)

  check_pair-Answers :
      (f : ℕ) (s : String)
      → Enough f
      → size s < f
      → Answers (check_pair (check_regex_on compile f) s)
  check_pair-Answers f s h a =
      h (trim_space (cut_comma s).0) (trim_space (cut_comma s).1)
        (omega (arith, trim_space-shorter (cut_comma s).1, cut_comma-size s, a))

  check_inner-Answers :
      (f : ℕ) (typ inner : String)
      → Enough f
      → size inner < f
      → Answers (check_inner (check_regex_on compile f) typ (some inner))
  check_inner-Answers f typ inner h a = elim (Bool-cases (str_eq typ "SUB-RULE")) [
    | inl k ↦ rw k (check_pair-Answers f inner h a)
    | inr k ↦ rw k (
        first_error-Answers (size inner) _ (conditions 0 0 "" inner)
          (λ s l. check_pair-Answers f s h (omega (arith, l, a)))
          (conditions-AllWithin (size inner) 0 0 "" inner (omega arith)))
  ]

  nested-Answers :
      (f : ℕ) (typ value : String)
      → Enough f
      → size value ≤ f
      → Answers (check_inner (check_regex_on compile f) typ (inner_of value))
  nested-Answers f typ value h a = elim (Option-cases (inner_of value)) [
    | inl k ↦ rw k (none, refl)
    | inr (inner, k) ↦
        rw k (check_inner-Answers f typ inner h (omega (arith, inner_of-size value inner k, a)))
  ]

  check_regex_on-Answers : (f : ℕ) → Enough f
  unfolding check_regex_on
  check_regex_on-Answers zero typ value a = elim a [ ]
  check_regex_on-Answers (suc f) typ value a =
      split_bool Answers (has_suffix "-REGEX" typ) _ _ (λ _. (check_pattern compile value, refl))
        (λ _.
          split_bool Answers (is_logic typ) _ _
            (λ _. nested-Answers f typ value (check_regex_on-Answers f) (omega (arith, a)))
            (λ _. (none, refl)))

  error_of-Answers : (x : Checked) → Answers x → x ≡ some (error_of compile x)
  error_of-Answers none (r, e) = cc e
  error_of-Answers (some x) a = refl

  -- With more fuel than the value has characters, the check of a rule's regular expressions does not
  -- run out of fuel: it gives an answer, the same one whatever the fuel.
  pub check_regex_on-enough :
      (fuel : ℕ) (typ value : String)
      → size value < fuel
      → check_regex_on compile fuel typ value ≡ some (check_regex compile typ value)
  unfolding check_regex
  check_regex_on-enough fuel typ value h =
      check_regex_on-Agree fuel (size value + 1) typ value h (omega arith)
      ∙ error_of-Answers _ (check_regex_on-Answers (size value + 1) typ value (omega arith))

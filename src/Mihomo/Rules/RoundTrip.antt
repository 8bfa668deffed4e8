-- ===== src/Mihomo/Rules/RoundTrip.antt =====
-- `ParseRule` reads back the lines that `ruleLine` writes.
use Prim.Native.Char.{Char}
use omihomo.Base.{
  String, Bool-cases, true, false, not, ◌||◌, List, [], ◌∷◌, ◌++◌, map, any, Option, none, some,
  ◌≡◌, refl, sym, ap, ◌∙◌, inl, inr, str_eq, eq_iff, arith, if◌then◌else◌, append, trim_space,
  join_with, holds, split_on, Lacks, split_on-join_with, join_with-split_on, join_with-join_with,
  join_with-cons, split_on-Lacks, pieces, split_option, split_bool,
}
use omihomo.Engine.{Rule, Except, good}
use omihomo.Profile.Rules.{
  Line, comma, one_of, comma_values, rule_params, unlast, match_line, comma_line, plain_line,
  line_of, fields_line, parse_rule,
}
use omihomo.Mihomo.Rules.{
  check_regex, broken, refuse, unknown_param, line_text, is_empty, write_line, rule_line,
}

-- texts without surrounding space
abbrev pub Trimmed : List String → Type 0
Trimmed [] = Unit
Trimmed (w ∷ ws) = (trim_space w ≡ w) × Trimmed ws

Trimmed-map : (ws : List String) → Trimmed ws → map trim_space ws ≡ ws
Trimmed-map [] h = refl
Trimmed-map (w ∷ ws) (h, hs) = rw h (ap (λ (l : List String). w ∷ l) (Trimmed-map ws hs))

Trimmed-append : (ws vs : List String) → Trimmed ws → Trimmed vs → Trimmed (ws ++ vs)
Trimmed-append [] vs h k = k
Trimmed-append (w ∷ ws) vs (h, hs) k = (h, Trimmed-append ws vs hs k)

Lacks-append : (x : Char) (ws vs : List String) → Lacks x ws → Lacks x vs → Lacks x (ws ++ vs)
Lacks-append x [] vs h k = k
Lacks-append x (w ∷ ws) vs (h, hs) k = (h, Lacks-append x ws vs hs k)

broken-trim : (f : String) → broken f ≡ false → trim_space f ≡ f
broken-trim f h = ground (arith, eq_iff f (trim_space f))

broken-Trimmed : (fs : List String) → any broken fs ≡ false → Trimmed fs
unfolding any
broken-Trimmed [] h = tt
broken-Trimmed (f ∷ fs) h = (broken-trim f (ground arith), broken-Trimmed fs (ground arith))

rule_params-Lacks : (p : String) → one_of rule_params p ≡ true → holds comma p ≡ false
unfolding any holds
rule_params-Lacks p h = elim (Bool-cases (str_eq "no-resolve" p)) [
  | inl k ↦ rw (sym ((eq_iff "no-resolve" p).0 k)) refl
  | inr k ↦ rw (sym ((eq_iff "src" p).0 (ground (arith, k, h)))) refl
]

unknown_param-Lacks : (ps : List String) → unknown_param ps ≡ none → Lacks comma ps
unfolding unknown_param
unknown_param-Lacks [] h = tt
unknown_param-Lacks (p ∷ ps) h = elim (Bool-cases (one_of rule_params p)) [
  | inl known ↦ (rule_params-Lacks p known, unknown_param-Lacks ps (rw known at h))
  | inr other ↦ cc (rw other at h)
]

-- the parts of a line, read back
parse_rule-parts :
    (upper : String → String) (w : String) (ws : List String)
    → Lacks comma (w ∷ ws)
    → Trimmed (w ∷ ws)
    → upper w ≡ w
    → parse_rule upper (join_with "," (w ∷ ws)) ≡ line_of w ws
unfolding parse_rule
parse_rule-parts upper w ws h t u =
    ap (λ (l : List String). fields_line upper (map trim_space l)) (split_on-join_with comma w ws h)
    ∙ ap (fields_line upper) (Trimmed-map (w ∷ ws) t)
    ∙ ap (λ (k : String). line_of k ws) u

unlast-append : (w : String) (ws : List String) (t : String) → unlast w (ws ++ t ∷ []) ≡ (w ∷ ws, t)
unfolding unlast
unlast-append w [] t = refl
unlast-append w (v ∷ vs) t = rw (unlast-append v vs t) refl

comma_line-append :
    (kind w : String) (ws : List String) (t : String)
    → comma_line kind (w ∷ (ws ++ t ∷ [])) ≡ (
        if str_eq t ""
        then none
        else some (record { kind = kind; value = join_with "," (w ∷ ws); target = t; params = [] }))
unfolding comma_line unlast
comma_line-append kind w [] t = refl
comma_line-append kind w (v ∷ vs) t = rw (unlast-append v vs t) refl

abbrev pub fields_of : Rule → Line
fields_of r = record { kind = r.kind; value = r.value; target = r.target; params = r.params }

-- a value is written as its parts are
line_parts :
    (k v t : String)
    → join_with "," (k ∷ v ∷ t ∷ []) ≡ join_with "," (k ∷ (split_on comma v ++ t ∷ []))
unfolding split_on
line_parts k v t =
    join_with-cons comma k v (t ∷ [])
    ∙ ap (λ (s : String). append k (String.◌∷◌ comma (join_with "," (s ∷ t ∷ []))))
        (sym (join_with-split_on comma v))
    ∙ ap (λ (s : String). append k (String.◌∷◌ comma s))
        (join_with-join_with comma (pieces comma v).0 (pieces comma v).1 t [])
    ∙ sym (join_with-cons comma k (pieces comma v).0 ((pieces comma v).1 ++ t ∷ []))

comma_line-split_on :
    (k v t : String)
    → str_eq t "" ≡ false
    → comma_line k (split_on comma v ++ t ∷ [])
      ≡ some (record { kind = k; value = v; target = t; params = [] })
unfolding split_on
comma_line-split_on k v t h =
    comma_line-append k (pieces comma v).0 (pieces comma v).1 t
    ∙ rw h (
        ap (λ (w : String). some (record { kind = k; value = w; target = t; params = [] }))
          (join_with-split_on comma v))

none_left : (ps : List String) → is_empty ps ≡ true → ps ≡ []
none_left [] h = refl
none_left (p ∷ ps) h = cc h

module _ (upper : String → String) (r : Rule) (line : String) where
  -- what `ruleLine` has checked before it writes
  record Checked : Type 0 where
    upper_kind : upper r.kind ≡ r.kind
    trimmed : Trimmed (r.kind ∷ r.value ∷ r.target ∷ r.params)
    kind_lacks : holds comma r.kind ≡ false
    target_lacks : holds comma r.target ≡ false
    target_given : str_eq r.target "" ≡ false
    params_lack : Lacks comma r.params

  write_match :
      Checked
      → str_eq r.kind "MATCH" ≡ true
      → write_line r.kind r ≡ good line
      → parse_rule upper line ≡ some (fields_of r)
  unfolding write_line line_of match_line
  write_match k m = rw m (
      split_bool (λ (x : Except String). x ≡ good line → parse_rule upper line ≡ some (fields_of r))
        (not (str_eq r.value "") || not (is_empty r.params)) _ _ (λ h e. cc e)
        (λ h. λ (e : good (append r.kind (append "," r.target)) ≡ good line).
          let n : r.params ≡ [] = none_left r.params (ground (arith, h)) in
          let v : r.value ≡ "" = (eq_iff r.value "").0 (ground (arith, h)) in
          let g : join_with "," (r.kind ∷ r.target ∷ []) ≡ line = unfold join_with in cc e in
          rw (sym g) (
            parse_rule-parts upper r.kind (r.target ∷ []) (k.kind_lacks, (k.target_lacks, tt))
              (k.trimmed.0, (k.trimmed.1.1.0, tt)) k.upper_kind
            ∙ rw m (rw k.target_given (rw n (rw v refl))))))

  write_comma :
      Checked
      → Trimmed (split_on comma r.value)
      → str_eq r.kind "MATCH" ≡ false
      → one_of comma_values r.kind ≡ true
      → write_line r.kind r ≡ good line
      → parse_rule upper line ≡ some (fields_of r)
  unfolding write_line line_of
  write_comma k t m n = rw m (
      rw n (
        split_bool
          (λ (x : Except String). x ≡ good line → parse_rule upper line ≡ some (fields_of r))
          (str_eq r.value "" || not (is_empty r.params)) _ _ (λ h e. cc e)
          (λ h. λ (e : good (line_text r.kind r) ≡ good line).
            let none_p : r.params ≡ [] = none_left r.params (ground (arith, h)) in
            let v : str_eq r.value "" ≡ false = ground (arith, h) in
            let g : join_with "," (r.kind ∷ r.value ∷ r.target ∷ []) ≡ line =
              ap (λ (ps : List String). join_with "," (r.kind ∷ r.value ∷ r.target ∷ ps))
                (sym none_p)
              ∙ cc e in
            rw (sym g) (
              ap (parse_rule upper) (line_parts r.kind r.value r.target)
              ∙ parse_rule-parts upper r.kind (split_on comma r.value ++ r.target ∷ [])
                  (
                    k.kind_lacks,
                    Lacks-append comma (split_on comma r.value) (r.target ∷ [])
                        (split_on-Lacks comma r.value) (k.target_lacks, tt),
                  )
                  (
                    k.trimmed.0,
                    Trimmed-append (split_on comma r.value) (r.target ∷ []) t (k.trimmed.1.1.0, tt),
                  )
                  k.upper_kind
              ∙ rw m (
                  rw n (
                    comma_line-split_on r.kind r.value r.target k.target_given
                    ∙ rw none_p refl))))))

  write_plain :
      Checked
      → str_eq r.kind "MATCH" ≡ false
      → one_of comma_values r.kind ≡ false
      → write_line r.kind r ≡ good line
      → parse_rule upper line ≡ some (fields_of r)
  unfolding write_line line_of plain_line
  write_plain k m n = rw m (
      rw n (
        split_bool
          (λ (x : Except String). x ≡ good line → parse_rule upper line ≡ some (fields_of r))
          (str_eq r.value "" || holds comma r.value) _ _ (λ h e. cc e)
          (λ h e.
            let g : line_text r.kind r ≡ line = cc e in
            let v : str_eq r.value "" ≡ false = ground (arith, h) in
            let l : holds comma r.value ≡ false = ground (arith, h) in
            rw (sym g) (
              parse_rule-parts upper r.kind (r.value ∷ r.target ∷ r.params)
                (k.kind_lacks, (l, (k.target_lacks, k.params_lack))) k.trimmed k.upper_kind
              ∙ rw m (rw n (rw v (rw k.target_given refl)))))))

  abbrev IsReadBack : Except String → Type 0
  IsReadBack x = x ≡ good line → parse_rule upper line ≡ some (fields_of r)

  refused : (why : String) → IsReadBack (refuse r why)
  refused why e = cc e

  written : Checked → Trimmed (split_on comma r.value) → IsReadBack (write_line r.kind r)
  written k t e = elim (Bool-cases (str_eq r.kind "MATCH")) [
    | inl m ↦ write_match k m e
    | inr m ↦ elim (Bool-cases (one_of comma_values r.kind)) [
      | inl n ↦ write_comma k t m n e
      | inr n ↦ write_plain k m n e
    ]
  ]

  -- the conditions in the order of the code, and what they leave
  read_checked :
      upper r.kind ≡ r.kind
      → Trimmed (split_on comma r.value)
      → any broken (r.kind ∷ r.value ∷ r.target ∷ r.params) ≡ false
      → (str_eq (upper r.kind) ""
          || holds comma (upper r.kind)
          || str_eq r.target ""
          || holds comma r.target)
        ≡ false
      → unknown_param r.params ≡ none
      → IsReadBack (write_line (upper r.kind) r)
  read_checked u t b f n = rw u (
      written
        (record {
          upper_kind = u;
          trimmed = broken-Trimmed _ b;
          kind_lacks = ground (arith, rw u at f);
          target_lacks = ground (arith, f);
          target_given = ground (arith, f);
          params_lack = unknown_param-Lacks r.params n;
        })
        t)

  -- A rule that `ruleLine` writes is read back by `ParseRule` as it was, if its type is in capitals
  -- and there is no space around the commas of its value.
  pub parse_rule-rule_line :
      (compile : String → Option String)
      → upper r.kind ≡ r.kind
      → Trimmed (split_on comma r.value)
      → rule_line compile upper r ≡ good line
      → parse_rule upper line ≡ some (fields_of r)
  unfolding rule_line
  parse_rule-rule_line compile u t =
      split_option IsReadBack (check_regex compile (upper r.kind) r.value) _ _
        (λ c.
          split_bool IsReadBack (any broken (r.kind ∷ r.value ∷ r.target ∷ r.params)) _ _
            (λ h. refused "has a line break or surrounding space")
            (λ b.
              split_bool IsReadBack _ _ _ (λ h. refused "is malformed")
                (λ f.
                  split_option IsReadBack (unknown_param r.params) _ _ (λ n. read_checked u t b f n)
                    (λ p q. refused (append "has an unknown param " p)))))
        (λ why q. refused why)

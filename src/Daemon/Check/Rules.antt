-- ===== src/Daemon/Check/Rules.antt =====
-- internal/daemon/rules.go: the rules that the owner may add.
use omihomo.Base.{
  ℕ, ◌+◌, ◌-◌, ◌*◌, suc, String, Bool, true, false, not, ◌&&◌, ◌||◌, List, [], ◌∷◌, length, any,
  Option, none, some, str_eq, ltb, leb, ◌==◌, if◌then◌else◌, append, fields, codes, is_control, len,
  decimal, trim_space, join_with,
}
use mathlib.Core.List.{reverse}
use omihomo.Protocol.{Error, invalid, RuleFields, Entries, entry, no_category, category, nil, cons}
use omihomo.Daemon.State.{Outside}
use omihomo.Daemon.Publish.{fail}
use omihomo.Daemon.Check.{max_user_rules, contains_func, refuse_if, valid_name, ◌or_else◌}

abbrev pub user_rule_types : List String
user_rule_types =
    "SUB-RULE" ∷ "DOMAIN-REGEX" ∷ "PROCESS-NAME-REGEX" ∷ "PROCESS-PATH-REGEX" ∷ "DOMAIN"
    ∷ "DOMAIN-SUFFIX" ∷ "DOMAIN-KEYWORD" ∷ "DOMAIN-WILDCARD" ∷ "GEOSITE" ∷ "IP-CIDR" ∷ "IP-CIDR6"
    ∷ "SRC-IP-CIDR" ∷ "GEOIP" ∷ "SRC-GEOIP" ∷ "IP-ASN" ∷ "SRC-IP-ASN" ∷ "IP-SUFFIX"
    ∷ "SRC-IP-SUFFIX" ∷ "DST-PORT" ∷ "SRC-PORT" ∷ "IN-PORT" ∷ "IN-TYPE" ∷ "IN-USER" ∷ "IN-NAME"
    ∷ "REMATCH-NAME" ∷ "PROCESS-NAME" ∷ "PROCESS-PATH" ∷ "PROCESS-NAME-WILDCARD"
    ∷ "PROCESS-PATH-WILDCARD" ∷ "UID" ∷ "NETWORK" ∷ "DSCP" ∷ "RULE-SET" ∷ "AND" ∷ "OR" ∷ "NOT"
    ∷ "MATCH" ∷ []

-- `slices.Contains` and the cases of a `switch` on a text
abbrev pub one_of : List String → String → Bool
one_of ts t = any (λ u. str_eq u t) ts

abbrev pub Codes : Type 0
Codes = List ℕ

unfoldable pub has_prefix : Codes → Codes → Bool
has_prefix s [] = true
has_prefix [] (y ∷ ys) = false
has_prefix (x ∷ xs) (y ∷ ys) = x == y && has_prefix xs ys

abbrev starts : String → String → Bool
starts s t = has_prefix (codes s) (codes t)

abbrev ends : String → String → Bool
ends s t = has_prefix (reverse (codes s)) (reverse (codes t))

abbrev onto_first : ℕ → List Codes → List Codes
onto_first c [] = (c ∷ []) ∷ []
onto_first c (p ∷ ps) = (c ∷ p) ∷ ps

-- `strings.Split` at one character
unfoldable pub split : ℕ → Codes → List Codes
split sep [] = [] ∷ []
split sep (c ∷ s) = let rest = split sep s in if c == sep then [] ∷ rest else onto_first c rest

-- `strings.Cut` at one character: what stands before it, and behind it if it is there
unfoldable pub cut : ℕ → Codes → Codes × Option Codes
cut sep [] = ([], none)
cut sep (c ∷ s) = let rest = cut sep s in if c == sep then ([], some s) else (c ∷ rest.0, rest.1)

abbrev digits_onto : ℕ → Codes → Option ℕ
digits_onto n [] = some n
digits_onto n (c ∷ s) =
    let rest = digits_onto (n * 10 + (c - b'0')) s in
    if leb b'0' c && leb c b'9' then rest else none

-- `strconv.ParseUint` in base 10 for 32 bits
unfoldable pub parse_uint32 : Codes → Option ℕ
parse_uint32 [] = none
parse_uint32 (c ∷ s) = elim (digits_onto 0 (c ∷ s)) [
  | none ↦ none
  | some n ↦ if ltb 4294967295 n then none else some n
]

abbrev or_same : Codes → Option Codes → Codes
or_same lo none = lo
or_same lo (some hi) = hi

abbrev in_order : ℕ → Option ℕ → Option ℕ → Bool
in_order limit (some a) (some b) = leb a b && leb b limit
in_order limit _ _ = false

-- one range of a port list, a single number or two with a dash
unfoldable pub valid_range : ℕ → Codes → Bool
unfolding cut parse_uint32
valid_range limit part =
    let (lo, hi) = cut b'-' part in in_order limit (parse_uint32 lo) (parse_uint32 (or_same lo hi))

abbrev range_limit : String → ℕ
range_limit kind =
    if str_eq kind "DSCP" then 63 else if str_eq kind "UID" then 4294967295 else 65535

abbrev pub is_logic : String → Bool
is_logic kind = str_eq kind "AND" || str_eq kind "OR" || str_eq kind "NOT"

module _ (o : Outside) where
  abbrev bad_prefix : String → Option Bool → Bool
  bad_prefix kind none = true
  bad_prefix kind (some six) = str_eq kind "IP-CIDR6" && not six

  abbrev invalid_quoted : String → String → Codes → String
  invalid_quoted kind what value =
      append "invalid " (append kind (append what (append " " (o.quote value))))

  -- the loop over the ranges
  unfoldable pub check_ranges : String → List Codes → Option Error
  unfolding valid_range
  check_ranges kind [] = none
  check_ranges kind (r ∷ rs) =
      refuse_if (not (valid_range (range_limit kind) r)) (invalid_quoted kind " range" r)
      or_else check_ranges kind rs

  -- the `switch` of `checkRuleValue`
  unfoldable pub check_value_of : String → String → Option Error
  unfolding any has_prefix split check_ranges parse_uint32
  check_value_of kind value =
      if one_of ("IP-CIDR" ∷ "IP-CIDR6" ∷ "SRC-IP-CIDR" ∷ []) kind
      then refuse_if (bad_prefix kind (o.parse_prefix value)) (invalid_quoted kind "" (codes value))
      else if one_of ("DST-PORT" ∷ "SRC-PORT" ∷ "IN-PORT" ∷ "UID" ∷ "DSCP" ∷ []) kind
      then (let ranges = split b'/' (codes value) in
          refuse_if (ltb 28 (length ranges)) "at most 28 ranges" or_else check_ranges kind ranges)
      else if str_eq kind "NETWORK"
      then refuse_if (not (one_of ("tcp" ∷ "udp" ∷ []) (o.lower value))) "NETWORK is tcp or udp"
      else if one_of ("IP-ASN" ∷ "SRC-IP-ASN" ∷ []) kind
      then (elim (parse_uint32 (codes value)) [
        | none ↦ some (fail invalid (append "invalid " kind))
        | some n ↦ none
      ])
      else if one_of ("IP-SUFFIX" ∷ "SRC-IP-SUFFIX" ∷ []) kind
      then (elim (o.parse_prefix value) [
        | none ↦ some (fail invalid "invalid IP suffix")
        | some six ↦ none
      ])
      else if one_of ("DOMAIN-REGEX" ∷ "PROCESS-NAME-REGEX" ∷ "PROCESS-PATH-REGEX" ∷ []) kind
      then none
      else if one_of
          ("PROCESS-NAME" ∷ "PROCESS-PATH" ∷ "PROCESS-NAME-WILDCARD" ∷ "PROCESS-PATH-WILDCARD"
            ∷ "IN-TYPE" ∷ "IN-USER" ∷ "IN-NAME" ∷ "REMATCH-NAME" ∷ [])
          kind
      then none
      else if str_eq kind "SUB-RULE"
      then refuse_if (not (starts value "(") || not (ends value ")"))
          "use a parenthesized condition"
      else if is_logic kind
      then refuse_if (not (starts value "((") || not (ends value "))"))
          "use a parenthesized logic expression"
      else refuse_if (contains_func (λ c. c == b' ' || c == b'/' || c == b'\\') value)
          (invalid_quoted kind "" (codes value))

  unfoldable pub check_rule_value : String → String → Option Error
  unfolding check_value_of any has_prefix
  check_rule_value kind value =
      if str_eq kind "MATCH"
      then refuse_if (not (str_eq value "")) "MATCH takes no value"
      else refuse_if
          (str_eq value ""
            || ltb 4096 (len value)
            || not (str_eq value (trim_space value))
            || contains_func is_control value)
          "the value is empty, too long, or has surrounding space or control characters"
        or_else refuse_if
            (contains_func (λ c. c == b',') value
              && not (is_logic kind)
              && not (str_eq kind "SUB-RULE")
              && not (ends kind "-REGEX"))
            "a rule value cannot contain a comma"
        or_else check_value_of kind value

  abbrev check_params : String → List String → Option Error
  check_params kind [] = none
  check_params kind (p ∷ ps) =
      refuse_if (not (one_of ("no-resolve" ∷ "src" ∷ []) p))
        (append "unknown rule parameter " (o.quote (codes p)))
      or_else refuse_if
          (not (
            one_of ("GEOIP" ∷ "IP-ASN" ∷ "IP-CIDR" ∷ "IP-CIDR6" ∷ "IP-SUFFIX" ∷ "RULE-SET" ∷ [])
              kind))
          (append kind " takes no parameters")
      or_else check_params kind ps

  unfoldable pub check_rule : RuleFields → Option Error
  unfolding check_rule_value
  check_rule r =
      refuse_if (not (one_of user_rule_types r.kind))
        (append "the type must be one of " (join_with ", " user_rule_types))
      or_else check_rule_value r.kind r.value
      or_else check_params r.kind (fields r.params)
      or_else valid_name "target" r.target
      or_else refuse_if (contains_func (λ c. c == b',') r.target)
          "a rule target cannot contain a comma"

  -- `count`, `ids` and `names` of `checkRules`
  abbrev invalid_id : String → Bool
  invalid_id id =
      not (len id == 32)
      || contains_func (λ c. not (leb b'a' c && leb c b'f' || leb b'0' c && leb c b'9')) id

  abbrev numbered : ℕ → Option Error → Option Error
  numbered i none = none
  numbered i (some x) =
      some (record x { message = append "rule " (append (decimal i) (append ": " x.message)) })

  -- the loop over the rules of a category
  unfoldable pub check_nested : Entries → ℕ → Option Error × ℕ
  check_nested nil count = (none, count)
  check_nested (cons (entry r (category id name rs)) es) count =
      (some (fail invalid "categories cannot be nested"), count + 1)
  check_nested (cons (entry r no_category) es) count =
      let rest = check_nested es (count + 1) in
      elim (check_rule r) [ none ↦ rest | some x ↦ (some x, count + 1) ]

  -- what is wrong with a category itself, given the ids and the names before it
  unfoldable pub check_category :
      RuleFields → String → String → List String → List String → Option Error
  unfolding any
  check_category r id name ids names =
      refuse_if
        (not (str_eq r.kind "" && str_eq r.value "" && str_eq r.target "" && str_eq r.params ""))
        "a category cannot also be a rule"
      or_else valid_name "category name" name
      or_else refuse_if (not (str_eq name (trim_space name)))
          "category names cannot have surrounding space"
      or_else refuse_if (invalid_id id) "invalid category id"
      or_else refuse_if (one_of ids id || one_of names (o.lower name))
          "category ids and names must be unique"

  -- the loop of `checkRules`, with the place of an entry, the count, the ids and the names
  unfoldable pub check_entries : Entries → ℕ → ℕ → List String → List String → Option Error × ℕ
  check_entries nil i count ids names = (none, count)
  check_entries (cons (entry r no_category) es) i count ids names =
      let rest = check_entries es (i + 1) (count + 1) ids names in
      elim (numbered (i + 1) (check_rule r)) [ none ↦ rest | some x ↦ (some x, count + 1) ]
  check_entries (cons (entry r (category id name rs)) es) i count ids names =
      let (x, n) = check_nested rs count in
      let rest = check_entries es (i + 1) n (id ∷ ids) (o.lower name ∷ names) in
      elim (check_category r id name ids names) [
        | some y ↦ (some y, count)
        | none ↦ elim x [ none ↦ rest | some y ↦ (some y, n) ]
      ]

  abbrev entry_count : Entries → ℕ
  entry_count nil = 0
  entry_count (cons x es) = suc (entry_count es)

  unfoldable pub check_rules : Entries → Option Error
  check_rules es =
      let (x, count) = check_entries es 0 0 [] [] in
      x
      or_else refuse_if (ltb max_user_rules count || ltb max_user_rules (entry_count es))
          (append "at most " (append (decimal max_user_rules) " rules or categories"))

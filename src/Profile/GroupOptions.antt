-- ===== src/Profile/GroupOptions.antt =====
-- internal/profile/profile.go: `groupOptions` and `wholeNumber`.
use Prim.Native.String.{String}
use omihomo.Base.{
  Bool, true, false, not, ◌&&◌, List, [], ◌∷◌, Option, none, some, str_eq, if◌then◌else◌,
  trim_space,
}
use omihomo.Engine.{
  Any, Options, number, negative, real, text, flag, end, option, Except, good, bad,
}
use omihomo.Profile.Rules.{one_of}
use omihomo.Profile.Reader.{Reader, get}
use omihomo.Profile.Filter.{invalid}

-- `strings.HasPrefix`
unfoldable pub has_prefix : String → String → Bool
has_prefix String.[] s = true
has_prefix (String.◌∷◌ p ps) String.[] = false
has_prefix (String.◌∷◌ p ps) (String.◌∷◌ c s) =
    let rest = has_prefix ps s in str_eq (String.◌∷◌ p "") (String.◌∷◌ c "") && rest

abbrev pub strategies : List String
strategies = "consistent-hashing" ∷ "round-robin" ∷ "sticky-sessions" ∷ []

abbrev number_keys : List String
number_keys = "interval" ∷ "timeout" ∷ "tolerance" ∷ "max-failed-times" ∷ []

-- `opts[key] = v`, with the last key first
abbrev put_flag : String → Options → Options → Options
put_flag key def opts = elim (get key def) [ some (flag b) ↦ option key (flag b) opts | _ ↦ opts ]

abbrev put_url : Options → Options → Except Options
put_url def opts = elim (get "url" def) [
  | some (text url) ↦
      if not (has_prefix "https://" url) && not (has_prefix "http://" url)
      then invalid "the test URL is not http or https"
      else good (option "url" (text url) opts)
  | _ ↦ good opts
]

abbrev put_strategy : Options → Options → Except Options
put_strategy def opts = elim (get "strategy" def) [
  | some (text s) ↦
      if not (one_of strategies s)
      then invalid "strategy is not supported"
      else good (option "strategy" (text s) opts)
  | _ ↦ good opts
]

module _ (r : Reader) where
  -- `wholeNumber`
  unfoldable pub whole_number : Any → Option Any
  whole_number (number n) = some (number n)
  whole_number (negative n) = some (negative n)
  whole_number (text s) = r.atoi (trim_space s)
  whole_number (real s) = r.whole_float s
  whole_number _ = none

  unfoldable pub put_numbers : List String → Options → Options → Except Options
  unfolding whole_number
  put_numbers [] def opts = good opts
  put_numbers (key ∷ keys) def opts = elim (get key def) [
    | none ↦ put_numbers keys def opts
    | some v ↦ elim (whole_number v) [
      | none ↦ invalid "not a whole number"
      | some n ↦ put_numbers keys def (option key n opts)
    ]
  ]

  abbrev put_status : Options → Options → Options
  put_status def opts = elim (get "expected-status" def) [
    | some (text s) ↦ option "expected-status" (text s) opts
    | some (number n) ↦ option "expected-status" (text (r.itoa (number n))) opts
    | some (negative n) ↦ option "expected-status" (text (r.itoa (negative n))) opts
    | _ ↦ opts
  ]

  -- the options of a group that chooses by itself
  abbrev automatic : Options → Except Options
  automatic def = elim (put_url def end) [
    | bad why ↦ bad why
    | good o ↦ elim (put_numbers number_keys def o) [
      | bad why ↦ bad why
      | good n ↦ good (put_status def (put_flag "lazy" def n))
    ]
  ]

  -- `groupOptions`
  unfoldable pub group_options : String → Options → Except Options
  unfolding put_numbers has_prefix
  group_options typ def = elim (if str_eq typ "select" then good end else automatic def) [
    | bad why ↦ bad why
    | good o ↦ elim (if str_eq typ "load-balance" then put_strategy def o else good o) [
      | bad why ↦ bad why
      | good n ↦ good (put_flag "hidden" def (put_flag "disable-udp" def n))
    ]
  ]

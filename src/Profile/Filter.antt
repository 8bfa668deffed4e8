-- ===== src/Profile/Filter.antt =====
-- internal/profile/profile.go: `filter`, which a group or a provider chooses its proxies by.
use Prim.Native.Char.{Char}
use Prim.Native.String.{String}
use omihomo.Base.{
  Bool, true, false, not, List, [], ◌∷◌, any, map, Option, none, some, str_eq, if◌then◌else◌,
  split_on, trim_space,
}
use omihomo.Engine.{Options, Except, bad}
use omihomo.Profile.Rules.{one_of}
use omihomo.Profile.Reader.{Reader, get, as_text}

abbrev pub invalid {ℓ} : {A : Type ℓ} → String → Except A
invalid why = bad (record { message = why; is = λ _. false; status = none })

abbrev tick : Char
tick = "`"

abbrev bar : Char
bar = "|"

module _ (r : Reader) where
  pub record Filter : Type 0 where
    pub include : List r.Re
    pub exclude : List r.Re
    pub exclude_types : List String

  unfoldable pub compile_all : List String → Option (List r.Re)
  compile_all [] = some []
  compile_all (s ∷ ss) =
      let rest = compile_all ss in
      if str_eq s "" then rest else elim (r.compile s) [
        | none ↦ none
        | some re ↦ elim rest [ none ↦ none | some res ↦ some (re ∷ res) ]
      ]

  abbrev compile_key : Options → String → Option (List r.Re)
  compile_key def key = compile_all (split_on tick (as_text (get key def)))

  abbrev excluded_types : String → List String
  excluded_types s = if str_eq s "" then [] else map (λ t. r.lower (trim_space t)) (split_on bar s)

  -- `newFilter`; none where a regular expression does not compile
  unfoldable pub new_filter : Options → Option Filter
  unfolding compile_all
  new_filter def = elim (compile_key def "filter") [
    | none ↦ none
    | some include ↦ elim (compile_key def "exclude-filter") [
      | none ↦ none
      | some exclude ↦ some (record {
        include = include;
        exclude = exclude;
        exclude_types = excluded_types (as_text (get "exclude-type" def));
      })
    ]
  ]

  -- `match` of `keep`; none is `errFilterTime`
  unfoldable pub match_any : List r.Re → String → Option Bool
  match_any [] name = some false
  match_any (re ∷ res) name =
      let rest = match_any res name in
      elim (r.matches re name) [ none ↦ none | some true ↦ some true | some false ↦ rest ]

  abbrev included : List r.Re → String → Option Bool
  included [] name = some true
  included (re ∷ res) name = match_any (re ∷ res) name

  -- `keep`
  unfoldable pub keep_proxy : Filter → String → String → Option Bool
  unfolding match_any any
  keep_proxy f name kind =
      if one_of f.exclude_types (r.lower kind) then some false else elim (included f.include name) [
        | none ↦ none
        | some false ↦ some false
        | some true ↦ elim (match_any f.exclude name) [ none ↦ none | some b ↦ some (not b) ]
      ]

-- ===== src/Profile/Groups.antt =====
-- internal/profile/profile.go: `groups`.
use Prim.Native.String.{String}
use omihomo.Base.{
  ℕ, not, ◌&&◌, ◌||◌, List, [], ◌∷◌, ◌++◌, map, any, Option, none, some, str_eq, if◌then◌else◌,
  sort_texts,
}
use omihomo.Engine.{Anys, nil, cons, Options, text, Proxy, Group, Except, good, bad}
use omihomo.Profile.Rules.{one_of}
use omihomo.Profile.Reader.{Reader, find_key, get, as_text, as_list, is_true}
use omihomo.Profile.Names.{check_name}
use omihomo.Profile.Filter.{Filter, new_filter, keep_proxy, invalid}
use omihomo.Profile.GroupOptions.{group_options}

abbrev pub group_types : List String
group_types = "select" ∷ "url-test" ∷ "fallback" ∷ "load-balance" ∷ []

-- a group whose members are not read yet
pub record Pending : Type 0 where
  pub group : Group
  pub def : Options
  pub members : Anys

abbrev pub listed : Option Anys → Anys
listed none = nil
listed (some vs) = vs

-- `seen` and `add`: the members are what was seen
abbrev pub add_member : List String → String → List String
add_member ms name = if one_of ms name then ms else ms ++ name ∷ []

-- the members that a group names itself
unfoldable pub own_members : List String → String → Anys → List String → List String
unfolding any
own_members names own nil ms = ms
own_members names own (cons v vs) ms =
    let name = as_text (some v) in
    let next = if one_of names name && not (str_eq name own) then add_member ms name else ms in
    own_members names own vs next

-- the texts of a list
unfoldable pub texts_of : Anys → List String
texts_of nil = []
texts_of (cons (text s) vs) = s ∷ texts_of vs
texts_of (cons _ vs) = texts_of vs

abbrev pub kind_of : List Proxy → String → String
kind_of [] name = ""
kind_of (p ∷ ps) name = if str_eq p.name name then p.kind else kind_of ps name

module _ (r : Reader) (len : String → ℕ) where
  -- a group that the document defines, unless its name, its type or its options are wrong
  unfoldable pub pending : List String → Options → Option Pending
  unfolding any check_name group_options
  pending names def =
      let name = as_text (get "name" def) in
      let typ = as_text (get "type" def) in
      elim (check_name len name) [
        | some why ↦ none
        | none ↦
            if not (one_of group_types typ) || one_of names name
            then none
            else elim (group_options r typ def) [
              | bad why ↦ none
              | good opts ↦ some (record {
                group = record { name = name; kind = typ; members = []; options = opts };
                def = def;
                members = listed (as_list (get "proxies" def));
              })
            ]
      ]

  abbrev pub more_names : Option Pending → List String → List String
  more_names none names = names
  more_names (some p) names = p.group.name ∷ names

  abbrev pub more_pending : Option Pending → List Pending → List Pending
  more_pending none ps = ps
  more_pending (some p) ps = p ∷ ps

  -- the first loop: the groups, and the names that are taken afterwards
  unfoldable pub collect : List Options → List String → List Pending × List String
  unfolding pending
  collect [] names = ([], names)
  collect (def ∷ defs) names =
      let p = pending names def in
      let (ps, taken) = collect defs (more_names p names) in (more_pending p ps, taken)

module _ (r : Reader) where
  -- the proxies that pass a filter, added; none is `errFilterTime`
  unfoldable pub add_kept : Filter r → List (String × String) → List String → Option (List String)
  unfolding keep_proxy any
  add_kept f [] ms = some ms
  add_kept f ((name, kind) ∷ ps) ms = elim (keep_proxy r f name kind) [
    | none ↦ none
    | some b ↦ let next = if b then add_member ms name else ms in add_kept f ps next
  ]

-- what the groups choose from: the names that are taken, the proxies that the document lists, all
-- proxies, and the names of each provider's
pub record Choice : Type 0 where
  pub names : List String
  pub top : List Proxy
  pub proxies : List Proxy
  pub from_provider : List (String × List String)

abbrev pub pair_of : Proxy → String × String
pair_of p = (p.name, p.kind)

abbrev pub providers_of : List (String × List String) → Options → List String
providers_of from def =
    if is_true (get "include-all" def) || is_true (get "include-all-providers" def)
    then sort_texts (map (λ m. m.0) from)
    else texts_of (listed (as_list (get "use" def)))

module _ (r : Reader) (c : Choice) where
  abbrev pub add_found : Filter r → Option (List String) → List String → Option (List String)
  add_found f none ms = some ms
  add_found f (some names) ms = add_kept r f (map (λ n. (n, kind_of c.proxies n)) names) ms

  unfoldable pub add_providers : Filter r → List String → List String → Option (List String)
  unfolding add_kept find_key
  add_providers f [] ms = some ms
  add_providers f (p ∷ ps) ms = elim (add_found f (find_key p c.from_provider) ms) [
    | none ↦ none
    | some next ↦ add_providers f ps next
  ]

  abbrev pub top_members : Filter r → Options → List String → Option (List String)
  top_members f def ms =
      if is_true (get "include-all" def) || is_true (get "include-all-proxies" def)
      then add_kept r f (map pair_of c.top) ms
      else some ms

  abbrev pub filled : Pending → List String → Except Group
  filled p [] = invalid "a group has no proxy omihomo can run"
  filled p (m ∷ ms) = good (record p.group { members = m ∷ ms })

  -- the second loop of `groups`, for one group
  unfoldable pub finish_group : Pending → Except Group
  unfolding add_providers own_members new_filter
  finish_group p = elim (new_filter r p.def) [
    | none ↦ invalid "a filter does not compile"
    | some f ↦ elim (top_members f p.def (own_members c.names p.group.name p.members [])) [
      | none ↦ invalid "its filters take too long to match"
      | some ms ↦ elim (add_providers f (providers_of c.from_provider p.def) ms) [
        | none ↦ invalid "its filters take too long to match"
        | some all ↦ filled p all
      ]
    ]
  ]

  unfoldable pub finish_groups : List Pending → Except (List Group)
  unfolding finish_group
  finish_groups [] = good []
  finish_groups (p ∷ ps) =
      let rest = finish_groups ps in
      elim (finish_group p) [
        | bad why ↦ bad why
        | good g ↦ elim rest [ bad why ↦ bad why | good gs ↦ good (g ∷ gs) ]
      ]

-- ===== src/Profile/Proxies.antt =====
-- internal/profile/profile.go: the proxies of `Build`, and `providers`.
use Prim.Native.String.{String}
use omihomo.Base.{
  ℕ, Bool, true, false, not, ◌||◌, List, [], ◌∷◌, ◌++◌, map, Option, none, some, str_eq, leb,
  length, append, if◌then◌else◌, sort_texts,
}
use omihomo.Engine.{Anys, nil, cons, Options, object, Proxy, Except, good, bad}
use omihomo.Profile.Rules.{one_of}
use omihomo.Profile.Reader.{Reader, find_key, get, as_text, as_list, as_object}
use omihomo.Profile.Names.{check_name, unique}
use omihomo.Profile.Filter.{Filter, new_filter, keep_proxy, invalid}

abbrev pub max_proxies : ℕ
max_proxies = 20000

-- `builder`, without the log of what was dropped
pub record Builder : Type 0 where
  pub names : List String
  pub proxies : List Proxy
  pub from_provider : List (String × List String)

abbrev pub add_proxy : Proxy → Builder → Builder
add_proxy px b = record b { names = px.name ∷ b.names; proxies = b.proxies ++ px ∷ [] }

unfoldable pub objects_of : Anys → List Options
objects_of nil = []
objects_of (cons (object o) vs) = o ∷ objects_of vs
objects_of (cons _ vs) = objects_of vs

-- A proxy of a provider that the filter let pass, or did not, or had no time for. It is renamed where
-- its name is taken; its name comes with it.
unfoldable pub accept : Option Bool → Proxy → Builder → Except (Builder × List String)
unfolding unique
accept none px b = invalid "its filters take too long to match"
accept (some false) px b = good (b, [])
accept (some true) px b =
    if leb max_proxies (length b.proxies)
    then invalid "its providers hold more proxies than omihomo runs"
    else (let free = unique b.names px.name in
        good (add_proxy (record px { name = free }) b, free ∷ []))

abbrev pub override : String → Options → String
override key def = elim (as_object (get "override" def)) [
  | none ↦ ""
  | some o ↦ as_text (get key o)
]

module _ (r : Reader) (len : String → ℕ) where
  -- a proxy of the document, unless it or its name is wrong or the name is taken
  unfoldable pub add_listed : Options → Builder → Builder
  unfolding check_name
  add_listed m b = elim (r.proxy m) [
    | bad why ↦ b
    | good px ↦ elim (check_name len px.name) [
      | some why ↦ b
      | none ↦ if one_of b.names px.name then b else add_proxy px b
    ]
  ]

  -- the first loop of `Build`
  unfoldable pub add_all : List Options → Builder → Builder
  unfolding add_listed
  add_all [] b = b
  add_all (m ∷ ms) b = add_all ms (add_listed m b)

  -- a proxy of a provider, and the name that it gets
  unfoldable pub add_provided :
      Options → Filter r → Options → Builder → Except (Builder × List String)
  unfolding check_name keep_proxy accept
  add_provided def f m b = elim (r.proxy m) [
    | bad why ↦ good (b, [])
    | good px ↦
        let name =
          append (override "additional-prefix" def)
            (append px.name (override "additional-suffix" def)) in
        elim (check_name len name) [
          | some why ↦ good (b, [])
          | none ↦ accept (keep_proxy r f name px.kind) (record px { name = name }) b
        ]
  ]

  unfoldable pub add_provider_all :
      Options → Filter r → List Options → Builder → Except (Builder × List String)
  unfolding add_provided
  add_provider_all def f [] b = good (b, [])
  add_provider_all def f (m ∷ ms) b = elim (add_provided def f m b) [
    | bad why ↦ bad why
    | good (b1, new) ↦ elim (add_provider_all def f ms b1) [
      | bad why ↦ bad why
      | good (b2, rest) ↦ good (b2, new ++ rest)
    ]
  ]

module _ (r : Reader) (bodies : List (String × String)) where
  -- `providerProxies`
  abbrev provider_proxies : String → Except (List Options)
  provider_proxies body = elim (r.yaml_proxies body) [
    | m ∷ ms ↦ good (m ∷ ms)
    | [] ↦ elim (r.links body) [
      | good (m ∷ ms) ↦ good (m ∷ ms)
      | _ ↦ invalid "neither a proxy list nor share links"
    ]
  ]

  -- the proxies of a provider, none where it is dropped
  unfoldable pub provider_raw : String → Options → Except (Option (List Options))
  unfolding objects_of find_key
  provider_raw name def =
      if str_eq (as_text (get "type" def)) "inline"
      then good
          (elim (as_list (get "payload" def)) [ none ↦ none | some vs ↦ some (objects_of vs) ])
      else if not (str_eq (as_text (get "type" def)) "http")
          || not (r.check_url (as_text (get "url" def)))
      then good none
      else elim (find_key (append "proxy:" name) bodies) [
        | none ↦ invalid "a proxy provider was not downloaded"
        | some body ↦ elim (provider_proxies body) [ bad why ↦ bad why | good ms ↦ good (some ms) ]
      ]

  module _ (len : String → ℕ) where
    -- one provider
    unfoldable pub add_provider : String → Options → Builder → Except Builder
    unfolding provider_raw new_filter add_provider_all
    add_provider name def b = elim (provider_raw name def) [
      | bad why ↦ bad why
      | good none ↦ good b
      | good (some raw) ↦ elim (new_filter r def) [
        | none ↦ good b
        | some f ↦ elim (add_provider_all r len def f raw b) [
          | bad why ↦ bad why
          | good (b1, names) ↦
              good (record b1 { from_provider = b1.from_provider ++ (name, names) ∷ [] })
        ]
      ]
    ]

    unfoldable pub add_named : List (String × Options) → List String → Builder → Except Builder
    unfolding add_provider find_key
    add_named defs [] b = good b
    add_named defs (name ∷ names) b = elim (find_key name defs) [
      | none ↦ add_named defs names b
      | some def ↦ elim (add_provider name def b) [
        | bad why ↦ bad why
        | good b1 ↦ add_named defs names b1
      ]
    ]

    -- `providers`, by name
    abbrev pub add_providers : List (String × Options) → Builder → Except Builder
    add_providers defs b = add_named defs (sort_texts (map (λ m. m.0) defs)) b

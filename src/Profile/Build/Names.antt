-- ===== src/Profile/Build/Names.antt =====
-- The names that `Build` has taken are those of mihomo's targets and of the proxies.
use Prim.Native.String.{String}
use omihomo.Base.{
  ℕ, Bool, ◌⊎◌, inl, inr, true, false, ◌||◌, List, [], ◌∷◌, ◌++◌, map, any, any-append, Option,
  none, some, str_eq, leb, length, append, ◌≡◌, refl, sym, ap, ◌∙◌, arith, split_bool, split_option,
}
use omihomo.Engine.{Options, Proxy, Except, good, bad, split_except}
use omihomo.Profile.Rules.{one_of}
use omihomo.Profile.Reader.{Reader, find_key}
use omihomo.Profile.Names.{builtins, check_name, unique}
use omihomo.Profile.Filter.{Filter, new_filter, keep_proxy}
use omihomo.Profile.Proxies.{
  Builder, accept, override, max_proxies, add_proxy, add_listed, add_all, add_provided,
  add_provider_all, provider_raw, add_provider, add_named,
}

abbrev pub names_of : List Proxy → List String
names_of ps = map (λ (p : Proxy). p.name) ps

abbrev pub Subset : List String → List String → Type 0
Subset ns ms = (n : String) → one_of ns n ≡ true → one_of ms n ≡ true

abbrev pub AllSubset : List (String × List String) → List String → Type 0
AllSubset [] ms = Unit
AllSubset ((p, ns) ∷ rest) ms = Subset ns ms × AllSubset rest ms

-- the invariant of the builder
pub record Named (b : Builder) : Type 0 where
  pub taken : Subset b.names (builtins ++ names_of b.proxies)
  pub proxies_taken : Subset (names_of b.proxies) b.names
  pub provided_taken : AllSubset b.from_provider b.names

names_of-append :
    (ps : List Proxy) (p : Proxy) → names_of (ps ++ p ∷ []) ≡ names_of ps ++ p.name ∷ []
names_of-append [] p = refl
names_of-append (q ∷ ps) p = ap (λ (l : List String). q.name ∷ l) (names_of-append ps p)

one_of-append :
    (ns ms : List String) (n : String) → one_of (ns ++ ms) n ≡ (one_of ns n || one_of ms n)
one_of-append ns ms n = any-append (λ m. str_eq m n) ns ms

Subset-cons : (n : String) (ns ms : List String) → Subset ns ms → Subset ns (n ∷ ms)
unfolding any
Subset-cons n ns ms h m k = ground (arith, h m k)

AllSubset-cons :
    (n : String) (from : List (String × List String)) (ms : List String)
    → AllSubset from ms
    → AllSubset from (n ∷ ms)
AllSubset-cons n [] ms h = tt
AllSubset-cons n ((p, ns) ∷ from) ms (h, k) = (Subset-cons n ns ms h, AllSubset-cons n from ms k)

pub or_cases : (a b : Bool) → (a || b) ≡ true → (a ≡ true) ⊎ (b ≡ true)
or_cases true b h = inl refl
or_cases false b h = inr h

pub one_of_left :
    (ns ms : List String) (n : String) → one_of ns n ≡ true → one_of (ns ++ ms) n ≡ true
one_of_left ns ms n h = rw (one_of-append ns ms n) (rw h refl)

pub or_true : (a : Bool) → (a || true) ≡ true
or_true true = refl
or_true false = refl

pub one_of_right :
    (ns ms : List String) (n : String) → one_of ms n ≡ true → one_of (ns ++ ms) n ≡ true
one_of_right ns ms n h = rw (one_of-append ns ms n) (rw h (or_true (one_of ns n)))

pub one_of_either :
    (ns ms : List String) (n : String)
    → one_of (ns ++ ms) n ≡ true
    → (one_of ns n ≡ true) ⊎ (one_of ms n ≡ true)
one_of_either ns ms n h = or_cases (one_of ns n) (one_of ms n) (sym (one_of-append ns ms n) ∙ h)

add_proxy-Named : (px : Proxy) (b : Builder) → Named b → Named (add_proxy px b)
unfolding any
add_proxy-Named px b h = record {
  taken = λ n k.
      rw (names_of-append b.proxies px) (elim (or_cases (str_eq px.name n) (one_of b.names n) k) [
        | inl e ↦
            one_of_right builtins (names_of b.proxies ++ px.name ∷ []) n
              (one_of_right (names_of b.proxies) (px.name ∷ []) n (rw e refl))
        | inr e ↦ elim (one_of_either builtins (names_of b.proxies) n (h.taken n e)) [
          | inl x ↦ one_of_left builtins (names_of b.proxies ++ px.name ∷ []) n x
          | inr x ↦
              one_of_right builtins (names_of b.proxies ++ px.name ∷ []) n
                (one_of_left (names_of b.proxies) (px.name ∷ []) n x)
        ]
      ]);
  proxies_taken = λ n k.
      elim (one_of_either (names_of b.proxies) (px.name ∷ []) n
        (rw (names_of-append b.proxies px) at k)) [
          | inl x ↦ rw (h.proxies_taken n x) (or_true (str_eq px.name n))
          | inr x ↦ elim (or_cases (str_eq px.name n) false x) [ inl e ↦ rw e refl | inr e ↦ cc e ]
        ];
  provided_taken = AllSubset-cons px.name b.from_provider b.names h.provided_taken;
}

-- a proxy of a provider keeps the invariant, and its new name is taken
abbrev Provides : Builder → Except (Builder × List String) → Type 0
Provides b (bad why) = Unit
Provides b (good (c, new)) =
    Named c × Subset b.names c.names × Subset new c.names × (c.from_provider ≡ b.from_provider)

module _ (r : Reader) (len : String → ℕ) where
  add_listed-Named : (m : Options) (b : Builder) → Named b → Named (add_listed r len m b)
  unfolding add_listed
  add_listed-Named m b h =
      split_except Named (r.proxy m) _ _
        (λ px q.
          split_option Named (check_name len px.name) _ _
            (λ ok.
              split_bool Named (one_of b.names px.name) _ _ (λ k. h) (λ k. add_proxy-Named px b h))
            (λ why k. h))
        (λ why q. h)

  pub add_all-Named : (ms : List Options) (b : Builder) → Named b → Named (add_all r len ms b)
  unfolding add_all
  add_all-Named [] b h = h
  add_all-Named (m ∷ ms) b h = add_all-Named ms (add_listed r len m b) (add_listed-Named m b h)

  nothing_new : (b : Builder) → Named b → Provides b (good (b, []))
  unfolding any
  nothing_new b h = (h, λ n k. k, λ n k. cc k, refl)

  new_proxy :
      (px : Proxy) (b : Builder) → Named b → Provides b (good (add_proxy px b, px.name ∷ []))
  unfolding any
  new_proxy px b h = (
    add_proxy-Named px b h,
    λ n k. rw k (or_true (str_eq px.name n)),
    λ n k. elim (or_cases (str_eq px.name n) false k) [ inl e ↦ rw e refl | inr e ↦ cc e ],
    refl,
  )

  accept-Provides :
      (k : Option Bool) (px : Proxy) (b : Builder) → Named b → Provides b (accept k px b)
  unfolding accept
  accept-Provides none px b h = tt
  accept-Provides (some false) px b h = nothing_new b h
  accept-Provides (some true) px b h =
      split_bool (Provides b) (leb max_proxies (length b.proxies)) _ _ (λ full. tt)
        (λ room. new_proxy (record px { name = unique b.names px.name }) b h)

  add_provided-Provides :
      (def : Options) (f : Filter r) (m : Options) (b : Builder)
      → Named b
      → Provides b (add_provided r len def f m b)
  unfolding add_provided
  add_provided-Provides def f m b h =
      split_except (Provides b) (r.proxy m) _ _
        (λ px q.
          split_option (Provides b) (check_name len (full_name px)) _ _
            (λ ok. accept-Provides (keep_proxy r f (full_name px) px.kind) _ b h)
            (λ why k. nothing_new b h))
        (λ why q. nothing_new b h)
    where
      full_name : Proxy → String
      full_name px =
          append (override "additional-prefix" def)
            (append px.name (override "additional-suffix" def))

  -- the names of more proxies, one after the other
  chain :
      (b c : Builder) (new : List String) (x : Except (Builder × List String))
      → Subset b.names c.names
      → Subset new c.names
      → c.from_provider ≡ b.from_provider
      → Provides c x
      → Provides b (elim x [ bad why ↦ bad why | good (e, rest) ↦ good (e, new ++ rest) ])
  chain b c new (bad why) s t q h = tt
  chain b c new (good (e, rest)) s t q (n, u, v, w) = (
    n,
    λ m k. u m (s m k),
    λ m k. elim (one_of_either new rest m k) [ inl x ↦ u m (t m x) | inr x ↦ v m x ],
    w ∙ q,
  )

  follow :
      (b : Builder) (x : Except (Builder × List String))
      (next : Builder → Except (Builder × List String))
      → Provides b x
      → ((c : Builder) → Named c → Provides c (next c))
      → Provides b (elim x [
        | bad why ↦ bad why
        | good (c, new) ↦ elim (next c) [
          | bad why ↦ bad why
          | good (e, rest) ↦ good (e, new ++ rest)
        ]
      ])
  follow b (bad why) next p k = tt
  follow b (good (c, new)) next (n, s, t, q) k = chain b c new (next c) s t q (k c n)

  add_provider_all-Provides :
      (def : Options) (f : Filter r) (ms : List Options) (b : Builder)
      → Named b
      → Provides b (add_provider_all r len def f ms b)
  unfolding add_provider_all
  add_provider_all-Provides def f [] b h = nothing_new b h
  add_provider_all-Provides def f (m ∷ ms) b h =
      follow b (add_provided r len def f m b) (add_provider_all r len def f ms)
        (add_provided-Provides def f m b h) (λ c n. add_provider_all-Provides def f ms c n)

AllSubset-append :
    (from : List (String × List String)) (name : String) (new ms : List String)
    → AllSubset from ms
    → Subset new ms
    → AllSubset (from ++ (name, new) ∷ []) ms
AllSubset-append [] name new ms h k = (k, tt)
AllSubset-append ((p, ns) ∷ from) name new ms (h, hs) k =
    (h, AllSubset-append from name new ms hs k)

-- the invariant still holds, and no name has become free
abbrev pub WhenNamed : Builder → Except Builder → Type 0
WhenNamed b (bad why) = Unit
WhenNamed b (good c) = Named c × Subset b.names c.names

unchanged : (b : Builder) → Named b → WhenNamed b (good b)
unchanged b h = (h, λ n k. k)

later :
    (b c : Builder) (x : Except Builder) → Subset b.names c.names → WhenNamed c x → WhenNamed b x
later b c (bad why) s h = tt
later b c (good e) s (h, t) = (h, λ n k. t n (s n k))

with_provider :
    (b : Builder) (name : String) (x : Except (Builder × List String))
    → Named b
    → Provides b x
    → WhenNamed b (elim x [
      | bad why ↦ bad why
      | good (c, new) ↦ good (record c { from_provider = c.from_provider ++ (name, new) ∷ [] })
    ])
with_provider b name (bad why) h p = tt
with_provider b name (good (c, new)) h (n, s, t, q) = (
  record {
    taken = n.taken;
    proxies_taken = n.proxies_taken;
    provided_taken = AllSubset-append c.from_provider name new c.names n.provided_taken t;
  },
  s,
)

module _ (r : Reader) (bodies : List (String × String)) (len : String → ℕ) where
  with_raw :
      (name : String) (def : Options) (b : Builder) (raw : List Options)
      → Named b
      → WhenNamed b (elim (new_filter r def) [
        | none ↦ good b
        | some f ↦ elim (add_provider_all r len def f raw b) [
          | bad why ↦ bad why
          | good (c, new) ↦ good (record c { from_provider = c.from_provider ++ (name, new) ∷ [] })
        ]
      ])
  with_raw name def b raw h =
      split_option (WhenNamed b) (new_filter r def) _ _ (λ q. unchanged b h)
        (λ f q.
          with_provider b name (add_provider_all r len def f raw b) h
            (add_provider_all-Provides r len def f raw b h))

  add_provider-Named :
      (name : String) (def : Options) (b : Builder)
      → Named b
      → WhenNamed b (add_provider r bodies len name def b)
  unfolding add_provider
  add_provider-Named name def b h =
      elim (provider_raw r bodies name def)
        as (λ x. WhenNamed b (elim x [
          | bad why ↦ bad why
          | good none ↦ good b
          | good (some raw) ↦ elim (new_filter r def) [
            | none ↦ good b
            | some f ↦ elim (add_provider_all r len def f raw b) [
              | bad why ↦ bad why
              | good (c, new) ↦
                  good (record c { from_provider = c.from_provider ++ (name, new) ∷ [] })
            ]
          ]
        ])) [
          | bad why ↦ tt
          | good none ↦ unchanged b h
          | good (some raw) ↦ with_raw name def b raw h
        ]

  after_named :
      (b : Builder) (x : Except Builder) (next : Builder → Except Builder)
      → WhenNamed b x
      → ((c : Builder) → Named c → WhenNamed c (next c))
      → WhenNamed b (elim x [ bad why ↦ bad why | good c ↦ next c ])
  after_named b (bad why) next h k = tt
  after_named b (good c) next (h, s) k = later b c (next c) s (k c h)

  pub add_named-Named :
      (defs : List (String × Options)) (names : List String) (b : Builder)
      → Named b
      → WhenNamed b (add_named r bodies len defs names b)
  unfolding add_named
  add_named-Named defs [] b h = unchanged b h
  add_named-Named defs (name ∷ names) b h =
      split_option (WhenNamed b) (find_key name defs) _ _ (λ q. add_named-Named defs names b h)
        (λ def q.
          after_named b (add_provider r bodies len name def b) (add_named r bodies len defs names)
            (add_provider-Named name def b h) (λ c n. add_named-Named defs names c n))

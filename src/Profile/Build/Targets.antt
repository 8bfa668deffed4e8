-- ===== src/Profile/Build/Targets.antt =====
-- The groups and the rules of a built profile name only what the profile has.
use Prim.Native.String.{String}
use omihomo.Base.{
  Bool-cases, true, not, ◌&&◌, ◌||◌, List, [], ◌∷◌, map, any, Option, none, some, str_eq, ◌≡◌, ◌≢◌,
  refl, sym, inl, inr, arith, eq_iff, eq_refl, split_bool, split_option,
}
use omihomo.Engine.{Anys, nil, cons, Options, Proxy, Group, Except, good}
use omihomo.Profile.Rules.{one_of}
use omihomo.Profile.Reader.{Reader, find_key, as_text, get, is_true}
use omihomo.Profile.Filter.{Filter, new_filter, keep_proxy}
use omihomo.Profile.Groups.{
  Pending, Choice, add_member, own_members, add_kept, pair_of, add_found, add_providers, kind_of,
  providers_of, top_members, filled, finish_group,
}
use omihomo.Profile.Build.Names.{names_of, Subset, AllSubset, one_of_either, or_true}

pub one_only :
    (names : List String) (n m : String)
    → one_of names n ≡ true
    → one_of (n ∷ []) m ≡ true
    → one_of names m ≡ true
unfolding any
one_only names n m k h = elim (Bool-cases (str_eq n m)) [
  | inl e ↦ rw (sym ((eq_iff n m).0 e)) k
  | inr e ↦ cc (rw e at h)
]

pub nothing : {A : Type 0} (n : String) → one_of [] n ≡ true → A
unfolding any
nothing n h = cc h

-- a member that is added is one of the names
add_member-Subset :
    (ms names : List String) (n : String)
    → Subset ms names
    → one_of names n ≡ true
    → Subset (add_member ms n) names
add_member-Subset ms names n h k =
    split_bool (λ (l : List String). Subset l names) (one_of ms n) _ _ (λ q. h)
      (λ q m x. elim (one_of_either ms (n ∷ []) m x) [
        | inl y ↦ h m y
        | inr y ↦ one_only names n m k y
      ])

own_members-Subset :
    (names : List String) (own : String) (vs : Anys) (ms : List String)
    → Subset ms names
    → Subset (own_members names own vs ms) names
unfolding own_members
own_members-Subset names own nil ms h = h
own_members-Subset names own (cons v vs) ms h = own_members-Subset names own vs _ (
    split_bool (λ (l : List String). Subset l names)
      (one_of names (as_text (some v)) && not (str_eq (as_text (some v)) own)) _ _
      (λ q. add_member-Subset ms names (as_text (some v)) h (ground (arith, q))) (λ q. h))

abbrev WhenSubset : List String → Option (List String) → Type 0
WhenSubset names none = Unit
WhenSubset names (some ms) = Subset ms names

abbrev Firsts : List String → List (String × String) → Type 0
Firsts names [] = Unit
Firsts names ((n, k) ∷ ps) = (one_of names n ≡ true) × Firsts names ps

module _ (r : Reader) where
  add_kept-Subset :
      (names : List String) (f : Filter r) (ps : List (String × String)) (ms : List String)
      → Firsts names ps
      → Subset ms names
      → WhenSubset names (add_kept r f ps ms)
  unfolding add_kept
  add_kept-Subset names f [] ms k h = h
  add_kept-Subset names f ((n, kind) ∷ ps) ms (k, ks) h =
      split_option (WhenSubset names) (keep_proxy r f n kind) _ _ (λ q. tt)
        (λ b q. add_kept-Subset names f ps _ ks (
          split_bool (λ (l : List String). Subset l names) b _ _
            (λ t. add_member-Subset ms names n h k) (λ t. h)))

proxies_first :
    (names : List String) (ps : List Proxy)
    → Subset (names_of ps) names
    → Firsts names (map pair_of ps)
unfolding any
proxies_first names [] h = tt
proxies_first names (p ∷ ps) h = (
  h p.name (rw (eq_refl p.name) refl),
  proxies_first names ps (λ n k. h n (rw k (or_true (str_eq p.name n)))),
)

names_first :
    (names : List String) (kind : String → String) (ns : List String)
    → Subset ns names
    → Firsts names (map (λ n. (n, kind n)) ns)
unfolding any
names_first names kind [] h = tt
names_first names kind (m ∷ ns) h = (
  h m (rw (eq_refl m) refl),
  names_first names kind ns (λ n k. h n (rw k (or_true (str_eq m n)))),
)

find_key-Subset :
    (from : List (String × List String)) (names : List String) (p : String) (ns : List String)
    → AllSubset from names
    → find_key p from ≡ some ns
    → Subset ns names
unfolding find_key
find_key-Subset [] names p ns h q = cc q
find_key-Subset ((x, a) ∷ from) names p ns (h, hs) k =
    split_bool (λ (o : Option (List String)). o ≡ some ns → Subset ns names) (str_eq x p) _ _
      (λ e. λ (q : some a ≡ some ns). let z : a ≡ ns = cc q in rw (sym z) h)
      (λ e q. find_key-Subset from names p ns hs q) k

-- what the groups choose from is taken
pub record Offers (c : Choice) : Type 0 where
  pub top_taken : Subset (names_of c.top) c.names
  pub provided_taken : AllSubset c.from_provider c.names

-- the members of a group are names that are taken, and there is one
pub record Filled (c : Choice) (p : Pending) (g : Group) : Type 0 where
  pub same_name : g.name ≡ p.group.name
  pub some_member : g.members ≢ []
  pub members_taken : Subset g.members c.names

module _ (r : Reader) (c : Choice) (o : Offers c) where
  add_providers-Subset :
      (f : Filter r) (ps ms : List String)
      → Subset ms c.names
      → WhenSubset c.names (add_providers r c f ps ms)
  unfolding add_providers
  add_providers-Subset f [] ms h = h
  add_providers-Subset f (p ∷ ps) ms h =
      split_option (WhenSubset c.names) (add_found r c f (find_key p c.from_provider) ms) _ _
        (λ q. tt)
        (λ next q.
          add_providers-Subset f ps next (rw q at (found (find_key p c.from_provider) refl)))
    where
      found :
          (x : Option (List String))
          → find_key p c.from_provider ≡ x
          → WhenSubset c.names (add_found r c f x ms)
      found none q = h
      found (some ns) q =
          add_kept-Subset r c.names f _ ms
            (names_first c.names (kind_of c.proxies) ns
              (find_key-Subset c.from_provider c.names p ns o.provided_taken q))
            h

  top_members-Subset :
      (f : Filter r) (def : Options) (ms : List String)
      → Subset ms c.names
      → WhenSubset c.names (top_members r c f def ms)
  top_members-Subset f def ms h =
      split_bool (WhenSubset c.names)
        (is_true (get "include-all" def) || is_true (get "include-all-proxies" def)) _ _
        (λ q.
          add_kept-Subset r c.names f (map pair_of c.top) ms
            (proxies_first c.names c.top o.top_taken) h)
        (λ q. h)

  abbrev pub WhenFilled : Pending → Except Group → Type 0
  WhenFilled p x = (g : Group) → x ≡ good g → Filled c p g

  filled-Filled :
      (p : Pending) (ms : List String) → Subset ms c.names → WhenFilled p (filled r c p ms)
  filled-Filled p [] h g q = cc q
  filled-Filled p (m ∷ ms) h g q =
      let z : record p.group { members = m ∷ ms } ≡ g = cc q in
      rw (sym z) (record { same_name = refl; some_member = λ e. cc e; members_taken = h })

  pub finish_group-Filled : (p : Pending) → WhenFilled p (finish_group r c p)
  unfolding finish_group
  finish_group-Filled p =
      split_option (WhenFilled p) (new_filter r p.def) _ _ (λ q g e. cc e)
        (λ f q.
          let own = own_members c.names p.group.name p.members [] in
          let own_ok = own_members-Subset c.names p.group.name p.members [] (λ n k. nothing n k) in
          split_option (WhenFilled p) (top_members r c f p.def own) _ _ (λ q g e. cc e)
            (λ ms t.
              split_option (WhenFilled p)
                (add_providers r c f (providers_of c.from_provider p.def) ms) _ _ (λ q g e. cc e)
                (λ all a. filled-Filled p all (
                  rw a at (
                    add_providers-Subset f (providers_of c.from_provider p.def) ms
                      (rw t at (top_members-Subset f p.def own own_ok)))))))

-- ===== src/Uplink/Links/Dials.antt =====
-- Which sockets the uplink opens.
use Prim.Native.String.{String}
use omihomo.Base.{
  Bool, true, false, not, ◌||◌, List, [], ◌∷◌, any, Option, none, some, ◌≡◌, refl, ◌⊎◌, inl, inr,
  split_option, split_bool, arith,
}
use mathlib.Core.List.{Memᴰ}
use mathlib.Core.List.Memᴰ.{head, tail}
use omihomo.Uplink.Addresses.{Addr, check_download_address}
use omihomo.Uplink.Faults.{Fault}
use omihomo.Uplink.Links.{
  Result, done, failed, AddrPort, Link, Transport, udp, tcp, Socket, QueryType, type_a, type_aaaa,
  Net, source_for, dial, exchange_over, exchange, try_each, try_all, query_links, lookup_types,
  lookup_host, dial_checked, dial_host, dial_context,
}

split_result {ℓ κ ι} :
    {A : Type ℓ} {B : Type κ} (P : B → Type ι) (x : Result A) (f : A → B) (g : Fault → B)
    → ((a : A) → x ≡ done a → P (f a))
    → ((y : Fault) → x ≡ failed y → P (g y))
    → P (elim x [ done a ↦ f a | failed y ↦ g y ])
split_result P (done a) f g h k = h a refl
split_result P (failed y) f g h k = k y refl

-- a socket of a link to an address that downloads may reach, or to a DNS server of the link, from the
-- address of the link that is meant for it
pub record Permitted (links : List Link) (k : Socket) : Type 0 where
  pub link : Link
  pub of_link : Memᴰ link links
  pub device : k.device ≡ link.name
  pub source : source_for link k.remote.address ≡ some k.source
  pub target : (check_download_address k.remote.address ≡ true) ⊎ Memᴰ k.remote link.dns

none_of_two : (p q : Bool) → (not p || q) ≡ false → (p ≡ true) × (q ≡ false)
none_of_two p q e = (ground arith, ground arith)

none-refused :
    (a : Addr) (ips : List Addr)
    → Memᴰ a ips
    → any (λ x. not (check_download_address x)) ips ≡ false
    → check_download_address a ≡ true
unfolding any
none-refused a [] m e = elim m [ ]
none-refused a (x ∷ xs) (head here) e = rw here (none_of_two (check_download_address x) _ e).0
none-refused a (x ∷ xs) (tail m) e =
    none-refused a xs m (none_of_two (check_download_address x) _ e).1

module _ (n : Net) (I : n.S → Type 0) where
  -- a step whatever it returns
  abbrev Kept {ℓ} : {A : Type ℓ} → Result A × n.S → Type 0
  Kept x = I x.1

  try_each-Kept {ℓ κ} :
      {A : Type ℓ} {B : Type κ} (bs : List B) (f : B → n.S → Result A × n.S)
      (stop : n.S → Option Fault) (next : Fault → n.S → Result A × n.S)
      → ((b : B) → Memᴰ b bs → (s : n.S) → I s → Kept (f b s))
      → ((e : Fault) (s : n.S) → I s → Kept (next e s))
      → (last : Fault) (s : n.S) → I s
      → Kept (try_each n bs f stop next last s)
  unfolding try_each
  try_each-Kept [] f stop next hf hn last s h = hn last s h
  try_each-Kept {A = A} (b ∷ bs) f stop next hf hn last s h =
      let t = (f b s).1 in
      let kept : I t = hf b (head refl) s h in
      split_result (λ (x : Result A × n.S). I x.1) (f b s).0 _ _ (λ a e. kept)
        (λ y e.
          split_option (λ (x : Result A × n.S). I x.1) (stop t) _ _
            (λ k. try_each-Kept bs f stop next (λ c m. hf c (tail m)) hn y t kept) (λ why k. kept))

  try_all-Kept {ℓ κ ι} :
      {A : Type ℓ} {B : Type κ} {C : Type ι} (bs : List B) (inner : B → List C)
      (f : B → C → n.S → Result A × n.S) (stop : n.S → Option Fault)
      → ((b : B) → Memᴰ b bs → (c : C) → Memᴰ c (inner b) → (s : n.S) → I s → Kept (f b c s))
      → (last : Fault) (s : n.S) → I s
      → Kept (try_all n bs inner f stop last s)
  unfolding try_all
  try_all-Kept [] inner f stop hf last s h = h
  try_all-Kept (b ∷ bs) inner f stop hf last s h =
      try_each-Kept (inner b) (f b) stop (try_all n bs inner f stop) (hf b (head refl))
        (try_all-Kept bs inner f stop (λ c m. hf c (tail m))) last s h

  -- what the world keeps, whatever is asked of it: `connect` for permitted sockets only
  pub record Keeping (links : List Link) : Type 0 where
    pub connecting : (k : Socket) → Permitted links k → (s : n.S) → I s → I (n.connect k s).1
    pub asking : (c : n.Conn) (q : n.Query) (s : n.S) → I s → I (n.ask c q s).1

  module _ (links : List Link) (w : Keeping links) where
    dial-Kept :
        (l : Link) (t : Transport) (to : AddrPort)
        → Memᴰ l links
        → (check_download_address to.address ≡ true) ⊎ Memᴰ to l.dns
        → (s : n.S) → I s
        → Kept (dial n l t to s)
    unfolding dial
    dial-Kept l t to m target s h =
        split_option Kept (source_for l to.address) _ _ (λ e. h)
          (λ a e.
            w.connecting (record { device = l.name; source = a; transport = t; remote = to })
              (record { link = l; of_link = m; device = refl; source = e; target = target }) s h)

    exchange_over-Kept :
        (ts : List Transport) (l : Link) (server : AddrPort) (q : n.Query)
        → Memᴰ l links
        → Memᴰ server l.dns
        → (s : n.S) → I s
        → Kept (exchange_over n ts l server q s)
    unfolding exchange_over
    exchange_over-Kept [] l server q m d s h = h
    exchange_over-Kept (t ∷ ts) l server q m d s h =
        let opened = dial n l t server s in
        let kept : I opened.1 = dial-Kept l t server m (inr d) s h in
        split_result Kept opened.0 _ _
          (λ c e.
            let answer = n.ask c q opened.1 in
            let asked : I answer.1 = w.asking c q opened.1 kept in
            split_result Kept answer.0 _ _
              (λ r k.
                split_bool Kept (not r.truncated) _ _ (λ x. asked)
                  (λ x. exchange_over-Kept ts l server q m d answer.1 asked))
              (λ y k. asked))
          (λ y e. kept)

    query_links-Kept : (q : n.Query) (s : n.S) → I s → Kept (query_links n links q s)
    unfolding query_links exchange
    query_links-Kept q s h =
        try_all-Kept links (λ l. l.dns) _ n.ended
          (λ l m server d t k. exchange_over-Kept (udp ∷ tcp ∷ []) l server q m d t k) _ s h

    lookup_types-Kept :
        (qs : List QueryType) (host : String) (ips : List Addr) (last : Option Fault) (s : n.S)
        → I s
        → Kept (lookup_types n qs links host ips last s)
    unfolding lookup_types
    lookup_types-Kept [] host ips last s h = h
    lookup_types-Kept (q ∷ qs) host ips last s h =
        let reply = query_links n links (n.question host q) s in
        let kept : I reply.1 = query_links-Kept (n.question host q) s h in
        split_result Kept reply.0 _ _ (λ m e. lookup_types-Kept qs host _ last reply.1 kept)
          (λ y e. lookup_types-Kept qs host ips (some y) reply.1 kept)

    lookup_host-Kept : (host : String) (s : n.S) → I s → Kept (lookup_host n links host s)
    unfolding lookup_host
    lookup_host-Kept host s h =
        split_option Kept (n.parse_addr host) _ _
          (λ e. lookup_types-Kept (type_a ∷ type_aaaa ∷ []) host [] none s h) (λ a e. h)

    dial_checked-Kept :
        (t : Transport) (port : String) (ips : List Addr) (s : n.S)
        → I s
        → Kept (dial_checked n links t port ips s)
    unfolding dial_checked
    dial_checked-Kept t port ips s h =
        split_bool Kept (any (λ a. not (check_download_address a)) ips) _ _ (λ e. h)
          (λ e.
            try_all-Kept ips (λ a. links) _ _
              (λ a m l d u k.
                dial-Kept l t (record { address = a; port = port }) d (inl (none-refused a ips m e))
                  u k)
              _ s h)

    pub dial_host-Kept :
        (t : Transport) (host port : String) (s : n.S)
        → I s
        → Kept (dial_host n links t host port s)
    unfolding dial_host
    dial_host-Kept t host port s h =
        let ips = lookup_host n links host s in
        let kept : I ips.1 = lookup_host-Kept host s h in
        split_result Kept ips.0 _ _ (λ found e. dial_checked-Kept t port found ips.1 kept)
          (λ y e. kept)

-- Whatever holds of the network's state and is kept by the discovery, by the exchanges and by the sockets
-- that are permitted for the links discovered, holds after `DialContext`: no other socket is opened.
pub dial_context-Permitted :
    (n : Net) (I : n.S → Type 0) (t : Transport) (address : String) (s : n.S)
    → I (n.discover s).1
    → ((links : List Link) → (n.discover s).0 ≡ done links → Keeping n I links)
    → I (dial_context n t address s).1
unfolding dial_context
dial_context-Permitted n I t address s h keep =
    let P = λ (x : Result n.Conn × n.S). I x.1 in
    split_result P (n.discover s).0 _ _
      (λ links e.
        split_result P (n.split_host_port address) _ _
          (λ to k. dial_host-Kept n I links (keep links e) t to.0 to.1 (n.discover s).1 h)
          (λ y k. h))
      (λ y e. h)

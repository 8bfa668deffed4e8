-- ===== src/Uplink/Links.antt =====
-- internal/uplink/uplink.go: the DNS exchange and the dialing. The sockets, the DNS messages and the context are
-- parameters, the fields of `Net`.
pub mod Dials
use Prim.Native.String.{String}
use omihomo.Base.{
  ℕ, Bool, true, false, not, ◌&&◌, List, [], ◌∷◌, ◌++◌, any, find, Option, none, some,
  if◌then◌else◌,
}
use omihomo.Engine.{Prefix, v4, v6}
use omihomo.Uplink.Addresses.{Addr, ip4, ip6, is4, unmap, is_link_local, check_download_address}
use omihomo.Uplink.Faults.{Kind, other, lookup, download_address, Fault, plain}

pub data Result {ℓ} (A : Type ℓ) : Type ℓ where
  done : A → Result A
  failed : Fault → Result A

-- `netip.AddrPort`, with the port as text
pub record AddrPort : Type 0 where
  pub address : Addr
  pub port : String

-- `Link`, with the addresses of its prefixes
pub record Link : Type 0 where
  pub name : String
  pub addresses : List Addr
  pub dns : List AddrPort

pub data Transport : Type 0 where
  udp tcp : Transport

-- what `dial` asks of `net.Dialer`: the device and the source that the socket is bound to
pub record Socket : Type 0 where
  pub device : String
  pub source : Addr
  pub transport : Transport
  pub remote : AddrPort

-- what the answer of a DNS server holds, an address as `netip.AddrFromSlice` reads it
pub data Rr : Type 0 where
  a_record : (address : Option Addr) → Rr
  aaaa_record : (address : Option Addr) → Rr
  other_record : Rr

pub record Message : Type 0 where
  pub truncated : Bool
  pub answer : List Rr

-- the types of `dns.TypeA` and `dns.TypeAAAA`
pub data QueryType : Type 0 where
  type_a type_aaaa : QueryType

-- the world: the dialer, `dns.Client`, the error of the context, `netip.ParseAddr`, and the discovery of links
pub record Net : Type 1 where
  pub S : Type 0
  pub Conn : Type 0
  pub Query : Type 0
  pub connect : Socket → S → Result Conn × S
  pub ask : Conn → Query → S → Result Message × S
  pub ended : S → Option Fault
  pub question : String → QueryType → Query
  pub parse_addr : String → Option Addr
  pub discover : S → Result (List Link) × S
  pub split_host_port : String → Result (String × String)

-- `WithZone`
abbrev with_zone : String → Addr → Addr
with_zone name (ip4 x) = ip4 x
with_zone name (ip6 x zone) = ip6 x name

abbrev same : Bool → Bool → Bool
same a b = if a then b else not b

-- an address of the link that can reach the remote one
abbrev pub reaches : Addr → Addr → Bool
reaches remote a = same (is4 a) (is4 remote) && same (is_link_local a) (is_link_local remote)

abbrev zoned : String → Addr → Addr
zoned name a = if is_link_local a then with_zone name a else a

-- the source of `dial`, if the link has an address for the remote one
unfoldable pub source_for : Link → Addr → Option Addr
unfolding find is4 is_link_local
source_for link remote = elim (find (reaches remote) link.addresses) [
  | none ↦ none
  | some a ↦ some (zoned link.name a)
]

-- `ErrUnavailable`
abbrev pub err_unavailable : Fault
err_unavailable = plain other

-- the addresses of an answer
unfoldable pub addresses_of : List Rr → List Addr
unfolding unmap
addresses_of [] = []
addresses_of (a_record (some a) ∷ rrs) = unmap a ∷ addresses_of rrs
addresses_of (aaaa_record (some a) ∷ rrs) = a ∷ addresses_of rrs
addresses_of (_ ∷ rrs) = addresses_of rrs

-- the end of `lookup`
abbrev looked_up : List Addr → Option Fault → Result (List Addr)
looked_up (a ∷ more) last = done (a ∷ more)
looked_up [] (some e) = failed e
looked_up [] none = failed (plain (lookup true))

module _ (n : Net) where
  -- `dial`, from the address that it has parsed
  unfoldable pub dial : Link → Transport → AddrPort → n.S → Result n.Conn × n.S
  unfolding source_for
  dial link transport to s = elim (source_for link to.address) [
    | none ↦ (failed (plain other), s)
    | some source ↦
        n.connect
          (record { device = link.name; source = source; transport = transport; remote = to }) s
  ]

  -- the loop of `exchange`
  unfoldable pub exchange_over :
      List Transport → Link → AddrPort → n.Query → n.S → Result Message × n.S
  unfolding dial
  exchange_over [] link server query s = (failed (plain other), s)
  exchange_over (transport ∷ ts) link server query s =
      let (opened, t) = dial link transport server s in
      elim opened [
        | failed e ↦ (failed e, t)
        | done conn ↦
            let (answer, u) = n.ask conn query t in
            let rest = exchange_over ts link server query u in
            elim answer [
              | failed e ↦ (failed e, u)
              | done m ↦ if not m.truncated then (done m, u) else rest
            ]
      ]

  -- `exchange`
  unfoldable pub exchange : Link → AddrPort → n.Query → n.S → Result Message × n.S
  unfolding exchange_over
  exchange link server query s = exchange_over (udp ∷ tcp ∷ []) link server query s

  -- A loop that returns the first success and keeps the last error; `stop` is the error that ends it, if the
  -- context has ended.
  unfoldable pub try_each {ℓ κ} :
      {A : Type ℓ} {B : Type κ} (bs : List B) (f : B → n.S → Result A × n.S)
      (stop : n.S → Option Fault) (next : Fault → n.S → Result A × n.S)
      → Fault
      → n.S
      → Result A × n.S
  try_each [] f stop next last s = next last s
  try_each (b ∷ bs) f stop next last s =
      let (attempt, t) = f b s in
      let rest = try_each bs f stop next in
      elim attempt [
        | done a ↦ (done a, t)
        | failed e ↦ elim (stop t) [ some why ↦ (failed why, t) | none ↦ rest e t ]
      ]

  -- a loop in a loop
  unfoldable pub try_all {ℓ κ ι} :
      {A : Type ℓ} {B : Type κ} {C : Type ι} (bs : List B) (inner : B → List C)
      (f : B → C → n.S → Result A × n.S) (stop : n.S → Option Fault)
      → Fault
      → n.S
      → Result A × n.S
  unfolding try_each
  try_all [] inner f stop last s = (failed last, s)
  try_all (b ∷ bs) inner f stop last s =
      try_each (inner b) (f b) stop (try_all bs inner f stop) last s

  -- `queryLinks`
  unfoldable pub query_links : List Link → n.Query → n.S → Result Message × n.S
  unfolding try_all exchange
  query_links links query s =
      try_all links (λ l. l.dns) (λ l server. exchange l server query) n.ended err_unavailable s

  -- `ExchangeContext`
  unfoldable pub exchange_context : n.Query → n.S → Result Message × n.S
  unfolding query_links
  exchange_context query s =
      let (links, t) = n.discover s in
      elim links [ failed e ↦ (failed e, t) | done ls ↦ query_links ls query t ]

  -- the loop of `lookup`
  unfoldable pub lookup_types :
      List QueryType
      → List Link
      → String
      → List Addr
      → Option Fault
      → n.S
      → Result (List Addr) × n.S
  unfolding query_links addresses_of
  lookup_types [] links host ips last s = (looked_up ips last, s)
  lookup_types (q ∷ qs) links host ips last s =
      let (reply, t) = query_links links (n.question host q) s in
      let rest = lookup_types qs links host in
      elim reply [
        | failed e ↦ rest ips (some e) t
        | done m ↦ rest (ips ++ addresses_of m.answer) last t
      ]

  -- `lookup`
  unfoldable pub lookup_host : List Link → String → n.S → Result (List Addr) × n.S
  unfolding lookup_types
  lookup_host links host s = elim (n.parse_addr host) [
    | some a ↦ (done (a ∷ []), s)
    | none ↦ lookup_types (type_a ∷ type_aaaa ∷ []) links host [] none s
  ]

  -- the loops at the end of `DialContext`
  unfoldable pub dial_checked :
      List Link → Transport → String → List Addr → n.S → Result n.Conn × n.S
  unfolding check_download_address any try_all dial
  dial_checked links transport port ips s =
      if any (λ a. not (check_download_address a)) ips
      then (failed (plain download_address), s)
      else try_all ips (λ a. links)
          (λ a link. dial link transport (record { address = a; port = port })) (λ t. none)
          err_unavailable s

  unfoldable pub dial_host : List Link → Transport → String → String → n.S → Result n.Conn × n.S
  unfolding lookup_host dial_checked
  dial_host links transport host port s =
      let (ips, t) = lookup_host links host s in
      elim ips [ failed e ↦ (failed e, t) | done found ↦ dial_checked links transport port found t ]

  -- `DialContext`
  unfoldable pub dial_context : Transport → String → n.S → Result n.Conn × n.S
  unfolding dial_host
  dial_context transport address s =
      let (links, t) = n.discover s in
      elim links [
        | failed e ↦ (failed e, t)
        | done ls ↦ elim (n.split_host_port address) [
          | failed e ↦ (failed e, t)
          | done (host, port) ↦ dial_host ls transport host port t
        ]
      ]

  -- `DialDNS`
  unfoldable pub dial_dns : n.S → Result n.Conn × n.S
  unfolding try_all dial
  dial_dns s =
      let (links, t) = n.discover s in
      elim links [
        | failed e ↦ (failed e, t)
        | done ls ↦
            try_all ls (λ l. l.dns) (λ l server. dial l tcp server) (λ u. none) err_unavailable t
      ]

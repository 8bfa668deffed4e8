-- ===== src/Tests/Network.antt =====
-- Runs of the theorems on the uplink, where one link has one address.
use omihomo.Base.{true, false, not, List, [], ◌∷◌, any, none, some, ◌≡◌, refl, sym, str_eq}
use mathlib.Core.List.{Memᴰ}
use mathlib.Core.List.Memᴰ.{head, tail}
use omihomo.Daemon.Compile.{bypass}
use omihomo.Uplink.Addresses.{Addr, ip4, ip6, unmap, check_download_address}
use omihomo.Uplink.Addresses.Ranges.{check_download_address-bypass}
use omihomo.Uplink.Faults.{
  Fault, plain, wrap, joined, cons, nil, op, other, lookup, has, is_connection, is_tls,
  is_download_address, recoverable,
}
use omihomo.Uplink.Faults.Recovers.{Honest, recoverable-Connecting}
use omihomo.Uplink.Links.{Link, Socket, tcp, done, failed, Net, dial_context}
use omihomo.Uplink.Links.Dials.{Permitted, Keeping, dial_context-Permitted}
use omihomo.Tests.{global_mode}

-- 10.0.0.1, as IPv6 writes it
abbrev home : Addr
home = ip6 0xffff0a000001 ""

check_download_address-bypass_example : check_download_address home ≡ false
unfolding unmap bypass any omihomo.Uplink.Addresses.in_range
check_download_address-bypass_example = check_download_address-bypass global_mode home refl

-- no answer to a lookup, and no connection
abbrev no_network : Fault
no_network =
    wrap other (joined other (cons (plain (lookup false)) (cons (wrap op (plain other)) nil)))

recoverable-Connecting_example :
    (has is_connection no_network ≡ true)
    × ((has is_tls no_network ≡ false) × (has is_download_address no_network ≡ false))
unfolding Honest recoverable
recoverable-Connecting_example =
    recoverable-Connecting no_network ((λ b e. refl), (refl, ((tt), ((((λ b e. refl), tt)), tt))))
      refl

abbrev wire : Link
wire = record { name = "eth0"; addresses = ip4 0x0a000002 ∷ []; dns = [] }

-- a world that remembers the sockets
abbrev net : Net
net = record {
  S = List Socket;
  Conn = Socket;
  Query = Unit;
  connect = λ k s. (done k, k ∷ s);
  ask = λ c q s. (failed (plain other), s);
  ended = λ s. none;
  question = λ host t. tt;
  parse_addr = λ host. some (ip4 0x08080808);
  discover = λ s. (done (wire ∷ []), s);
  split_host_port = λ address. done ("8.8.8.8", "443");
}

-- no socket but of eth0
abbrev OnWire : List Socket → Type 0
OnWire s = any (λ k. not (str_eq k.device "eth0")) s ≡ false

Permitted-wire : (k : Socket) → Permitted (wire ∷ []) k → k.device ≡ "eth0"
Permitted-wire k p = named p.of_link p.device
  where
    named : {l : Link} → Memᴰ l (wire ∷ []) → k.device ≡ l.name → k.device ≡ "eth0"
    named (head e) d = cc (e, d)
    named (tail m) d = elim m [ ]

wired : Keeping net OnWire (wire ∷ [])
unfolding any
wired = record { connecting = λ k p s h. rw (Permitted-wire k p) h; asking = λ c q s h. h }

keeping : (links : List Link) → done (wire ∷ []) ≡ done links → Keeping net OnWire links
keeping links e = let same : (wire ∷ []) ≡ links = cc e in rw (sym same) wired

dial_context-Permitted_example : OnWire (dial_context net tcp "8.8.8.8:443" []).1
unfolding any
dial_context-Permitted_example = dial_context-Permitted net OnWire tcp "8.8.8.8:443" [] refl keeping

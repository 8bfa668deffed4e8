-- ===== src/Uplink/Addresses/Ranges.antt =====
-- The addresses that a download may reach, and the ranges that the proxy's interface leaves alone.
use omihomo.Base.{Bool, true, false, List, any, keep, ◌≡◌, refl, arith}
use omihomo.Engine.{Prefix}
use omihomo.Daemon.State.{Stored}
use omihomo.Daemon.Compile.{bypass}
use omihomo.Uplink.Addresses.{
  Addr, ip4, ip6, in_range, unmap, is_global, is_private, is4, allowed, check_download_address,
}

-- an address of one of the ranges
abbrev pub among : Addr → List Prefix → Bool
among a rs = any (λ r. in_range r a) rs

allowed-among :
    (on : Bool) (s : Stored) (a : Addr)
    → s.settings.tailnet_proxy ≡ on
    → among a (bypass s) ≡ true
    → allowed a ≡ false
unfolding any in_range is_global is_private is4 bypass keep
allowed-among true s (ip4 x) e h = let k = rw e at h in ground arith
allowed-among true s (ip6 x zone) e h = let k = rw e at h in ground arith
allowed-among false s (ip4 x) e h = let k = rw e at h in ground arith
allowed-among false s (ip6 x zone) e h = let k = rw e at h in ground arith

-- A download is refused at every address of the ranges that the daemon lets past the proxy's interface, also where
-- IPv6 writes an IPv4 address of one.
pub check_download_address-bypass :
    (s : Stored) (a : Addr) → among (unmap a) (bypass s) ≡ true → check_download_address a ≡ false
unfolding check_download_address
check_download_address-bypass s a h = allowed-among s.settings.tailnet_proxy s (unmap a) refl h

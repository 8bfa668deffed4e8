-- ===== src/Uplink/Addresses.antt =====
-- internal/uplink/download.go, and the tests of net/netip that it uses. An address is a number; a zone
-- is the text behind the % of an IPv6 address, empty where there is none.
pub mod Ranges
use Prim.Native.String.{String}
use omihomo.Base.{
  ℕ, ◌+◌, ◌*◌, ◌-◌, ◌/◌, ◌%◌, ◌^◌, Bool, true, false, not, ◌&&◌, ◌||◌, List, [], ◌∷◌, any, str_eq,
  ◌==◌, if◌then◌else◌,
}
use omihomo.Engine.{Prefix, v4, v6}

-- `netip.Addr`
pub data Addr : Type 0 where
  ip4 : ℕ → Addr
  ip6 : ℕ → (zone : String) → Addr

abbrev ip : ℕ → ℕ → ℕ → ℕ → ℕ
ip a b c d = ((a * 256 + b) * 256 + c) * 256 + d

-- `Prefix.Contains`: the families agree, there is no zone, and the first bits are the same
unfoldable pub in_range : Prefix → Addr → Bool
in_range (v4 a n) (ip4 x) = x / 2 ^ (32 - n) == a / 2 ^ (32 - n)
in_range (v6 a n) (ip6 x zone) = str_eq zone "" && x / 2 ^ (128 - n) == a / 2 ^ (128 - n)
in_range _ _ = false

-- `Addr.Is4`
unfoldable pub is4 : Addr → Bool
is4 (ip4 x) = true
is4 (ip6 x zone) = false

-- `Addr.Unmap`
unfoldable pub unmap : Addr → Addr
unmap (ip4 x) = ip4 x
unmap (ip6 x zone) = if x / 2 ^ 32 == 0xffff then ip4 (x % 2 ^ 32) else ip6 x zone

abbrev pub zone : Addr → String
zone (ip4 x) = ""
zone (ip6 x z) = z

abbrev link_local_plain : Addr → Bool
link_local_plain (ip4 x) = x / 2 ^ 16 == 169 * 256 + 254
link_local_plain (ip6 x zone) = x / 2 ^ 118 == 0x3fa

-- `Addr.IsLinkLocalUnicast`
unfoldable pub is_link_local : Addr → Bool
unfolding unmap
is_link_local a = link_local_plain (unmap a)

-- `Addr.IsGlobalUnicast` of an address that `unmap` gives
unfoldable pub is_global : Addr → Bool
is_global (ip4 x) =
    not (x == 0)
    && not (x == ip 255 255 255 255)
    && not (x / 2 ^ 24 == 127)
    && not (x / 2 ^ 28 == 0xe)
    && not (link_local_plain (ip4 x))
is_global (ip6 x zone) =
    not (x == 0 && str_eq zone "")
    && not (x == 1 && str_eq zone "")
    && not (x / 2 ^ 120 == 0xff)
    && not (link_local_plain (ip6 x zone))

-- `Addr.IsPrivate` of an address that `unmap` gives
unfoldable pub is_private : Addr → Bool
is_private (ip4 x) = x / 2 ^ 24 == 10 || x / 2 ^ 20 == 172 * 16 + 1 || x / 2 ^ 16 == 192 * 256 + 168
is_private (ip6 x zone) = x / 2 ^ 121 == 0x7e

-- `downloadIPv6`
abbrev pub download_ipv6 : Prefix
download_ipv6 = v6 0x20000000000000000000000000000000 3

-- `downloadBlocked`
abbrev pub download_blocked : List Prefix
download_blocked =
    v4 (ip 0 0 0 0) 8
    ∷ v4 (ip 100 64 0 0) 10
    ∷ v4 (ip 192 0 0 0) 24
    ∷ v4 (ip 192 0 2 0) 24
    ∷ v4 (ip 192 88 99 0) 24
    ∷ v4 (ip 198 18 0 0) 15
    ∷ v4 (ip 198 51 100 0) 24
    ∷ v4 (ip 203 0 113 0) 24
    ∷ v4 (ip 240 0 0 0) 4
    ∷ v6 0x20010000000000000000000000000000 23
    ∷ v6 0x20010db8000000000000000000000000 32
    ∷ v6 0x20020000000000000000000000000000 16
    ∷ v6 0x3fff0000000000000000000000000000 20
    ∷ []

abbrev pub allowed : Addr → Bool
allowed a =
    str_eq (zone a) ""
    && is_global a
    && not (is_private a)
    && (is4 a || in_range download_ipv6 a)
    && not (any (λ p. in_range p a) download_blocked)

-- `CheckDownloadAddress`, whether it finds no error
unfoldable pub check_download_address : Addr → Bool
unfolding unmap is_global is_private is4 in_range any
check_download_address a = allowed (unmap a)

-- ===== src/Candidate.antt =====
-- internal/candidate/candidate.go: the addresses of a node's own interfaces that a peer may try.
pub mod Collected
use malon.Base.{
  ℕ, ◌/◌, Bool, true, false, not, ◌&&◌, ◌||◌, Option, none, some, List, [], ◌∷◌, ◌++◌, Bytes,
  if◌then◌else◌, length, take, drop, replicate, ◌==◌,
}
use malon.Base.Keys.{bytes_beq}
use malon.Io.{byte_at}
use malon.Packet.{Addr, v4, v6, Prefix, allowed_ips_contains}

pub data Kind : Type 0 where
  kind_embedded kind_stuned kind_h3_proxy : Kind

pub data State : Type 0 where
  state_idle state_probing state_validated state_failed state_cooldown : State

-- Candidate; an `netip.AddrPort` is an address and a port.
pub record Candidate : Type 0 where
  pub kind : Kind
  pub addr : Addr
  pub port : ℕ
  pub generation : ℕ
  pub state : State

-- `net.Interface`: two of its flags, and what `Addrs` gives, if it does not fail. An address is the
-- `net.IP` of an IPNet or an IPAddr; there is none in an address of another type.
pub record Interface : Type 0 where
  pub flag_loopback : Bool
  pub flag_up : Bool
  pub addrs : Option (List (Option Bytes))

-- `ip.To4()`: an IPv4 address has 4 bytes, or 16 with a fixed beginning.
unfoldable pub to4 : Bytes → Option Bytes
to4 ip =
    if length ip == 4
    then some ip
    else if length ip == 16 && bytes_beq (take 12 ip) (replicate 10 0 ++ 255 ∷ 255 ∷ [])
    then some (drop 12 ip)
    else none

-- `ip.IsLoopback()`
unfoldable pub is_loopback : Bytes → Bool
is_loopback ip = elim (to4 ip) [
  | some a ↦ byte_at a 0 == 127
  | none ↦ bytes_beq ip (replicate 15 0 ++ 1 ∷ [])
]

-- `ip.IsLinkLocalUnicast()`: 169.254.0.0/16, or fe80::/10.
unfoldable pub is_link_local_unicast : Bytes → Bool
is_link_local_unicast ip = elim (to4 ip) [
  | some a ↦ byte_at a 0 == 169 && (byte_at a 1 == 254)
  | none ↦ length ip == 16 && (byte_at ip 0 == 254 && (byte_at ip 1 / 64 == 2))
]

-- `netip.AddrFromSlice`, and `Unmap`
unfoldable pub addr_from_slice : Bytes → Option Addr
addr_from_slice ip = elim (to4 ip) [
  | some a ↦ some (v4 a)
  | none ↦ if length ip == 16 then some (v6 ip) else none
]

-- containedIn
unfoldable pub contained_in : Addr → List Prefix → Bool
contained_in addr prefixes = allowed_ips_contains prefixes addr

abbrev pub embedded : ℕ → ℕ → Addr → Candidate
embedded port generation addr = record {
  kind = kind_embedded;
  addr = addr;
  port = port;
  generation = generation;
  state = state_idle;
}

-- The address of a candidate, if the round for `a` appends one.
abbrev pub not_excluded : List Prefix → Option Addr → Option Addr
not_excluded exclude none = none
not_excluded exclude (some addr) = if contained_in addr exclude then none else some addr

abbrev pub usable : List Prefix → Option Bytes → Option Addr
usable exclude none = none
usable exclude (some ip) =
    if is_loopback ip || is_link_local_unicast ip
    then none
    else not_excluded exclude (addr_from_slice ip)

abbrev pub append_usable : ℕ → ℕ → Option Addr → List Candidate → List Candidate
append_usable port generation none rest = rest
append_usable port generation (some addr) rest = embedded port generation addr ∷ rest

-- The inner loop of CollectEmbedded, over the addresses of an interface.
unfoldable pub collect_addrs : ℕ → ℕ → List Prefix → List (Option Bytes) → List Candidate
collect_addrs port generation exclude [] = []
collect_addrs port generation exclude (a ∷ as') =
    append_usable port generation (usable exclude a) (collect_addrs port generation exclude as')

abbrev pub addrs_of : Interface → List (Option Bytes)
addrs_of iface =
    if iface.flag_loopback || not iface.flag_up
    then []
    else (elim iface.addrs [ none ↦ [] | some as' ↦ as' ])

-- CollectEmbedded, on what `net.Interfaces` gives.
unfoldable pub collect_embedded : ℕ → ℕ → List Prefix → List Interface → List Candidate
collect_embedded port generation exclude [] = []
collect_embedded port generation exclude (iface ∷ ifaces) =
    collect_addrs port generation exclude (addrs_of iface)
    ++ collect_embedded port generation exclude ifaces

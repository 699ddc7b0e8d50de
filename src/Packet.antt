-- ===== src/Packet.antt =====
-- internal/manager/manager.go: the filter between a peer's connection and the TUN device
-- (forwardConnToTUN, forwardDirectConnToTUN, malonExtractSrcIP, malonAllowedIPsContains).
pub mod Filter
use malon.Base.{
  ℕ, ◌+◌, ◌-◌, ◌/◌, ◌^◌, ◌≡◌, Bool, true, false, ◌&&◌, [], ◌∷◌, List, Bytes, if◌then◌else◌, length,
  ltb, leb, ◌==◌,
}
use malon.Io.{slice, byte_at, uint32}

-- `netip.Addr` without zones: the zero value, or the bytes of an address.
pub data Addr : Type 0 where
  no_addr : Addr
  v4 v6 : Bytes → Addr

-- `netip.Prefix`
pub record Prefix : Type 0 where
  pub addr : Addr
  pub bits : ℕ

-- Do two words of `w` bits agree in the first `n`? A prefix with `n` above `w` is not valid, and
-- contains nothing.
abbrev pub agree : ℕ → ℕ → Bytes → Bytes → Bool
agree w n a b = leb n w && (uint32 a / 2 ^ (w - n) == uint32 b / 2 ^ (w - n))

-- `prefix.Contains(addr)`: the families have to agree, too.
abbrev pub contains : ℕ → Addr → Addr → Bool
contains n (v4 a) (v4 b) = agree 32 n a b
contains n (v6 a) (v6 b) = agree 128 n a b
contains n (v4 a) (v6 b) = false
contains n (v6 a) (v4 b) = false
contains n (v4 a) no_addr = false
contains n (v6 a) no_addr = false
contains n no_addr b = false

-- malonExtractSrcIP
unfoldable pub extract_src_ip : Bytes → Addr
extract_src_ip pkt =
    if ltb (length pkt) 20
    then no_addr
    else if byte_at pkt 0 / 2 ^ 4 == 4
    then v4 (slice 12 16 pkt)
    else if byte_at pkt 0 / 2 ^ 4 == 6
    then (if ltb (length pkt) 40 then no_addr else v6 (slice 8 24 pkt))
    else no_addr

-- malonAllowedIPsContains
unfoldable pub allowed_ips_contains : List Prefix → Addr → Bool
allowed_ips_contains [] addr = false
allowed_ips_contains (p ∷ ps) addr =
    let rest = allowed_ips_contains ps addr in if contains p.bits p.addr addr then true else rest

-- The loop of forwardConnToTUN and forwardDirectConnToTUN, on the packets that the connection gives
-- until it is closed: what is written to the device. An empty packet is a keepalive.
unfoldable pub forward_conn_to_tun : List Prefix → List Bytes → List Bytes
forward_conn_to_tun allowed [] = []
forward_conn_to_tun allowed (pkt ∷ pkts) =
    let rest = forward_conn_to_tun allowed pkts in
    if length pkt == 0
    then rest
    else if allowed_ips_contains allowed (extract_src_ip pkt)
    then pkt ∷ rest
    else rest

-- ===== src/Forwarding.antt =====
-- internal/manager/manager.go: the goroutines forwardConnToTUN and forwardDirectConnToTUN as a whole, from the
-- connection that they read, through the filter of Packet, to the device and to the entry of the peer.
pub mod Delivered
use malon.Base.{
  ℕ, zero, suc, ◌+◌, Option, none, some, List, [], ◌∷◌, Bytes, Result, ok, err, length, ◌==◌,
  if◌then◌else◌,
}
use malon.Packet.{Prefix, extract_src_ip, allowed_ips_contains}
use malon.Tunnel.{RelayTunnelConn, tunnel_read_packet}
use malon.Manager.{MionPeer, Manager, relay_closed, direct_closed}

-- What a goroutine does outside of the manager: the packets that it gives to the device's Write, in order, and how
-- often it calls UpdateLastReceive. An error of Write is logged, and nothing else.
pub record Forwarded : Type 0 where
  pub device : List Bytes
  pub received : ℕ

abbrev pub nothing : Forwarded
nothing = record { device = []; received = 0 }

-- A round of either loop on a packet, before the rest of its rounds. An empty packet is a keepalive.
unfoldable pub forward_packet : List Prefix → Bytes → Forwarded → Forwarded
forward_packet allowed pkt f =
    if length pkt == 0
    then record f { received = f.received + 1 }
    else if allowed_ips_contains allowed (extract_src_ip pkt)
    then record { device = pkt ∷ f.device; received = f.received + 1 }
    else record f { received = f.received + 1 }

module _ {W : Type 0} where
  -- The loop of forwardConnToTUN, until ReadPacket fails.
  unfoldable pub forward_relay :
      ℕ → ℕ → List Prefix → RelayTunnelConn W → Option (Forwarded × RelayTunnelConn W)
  forward_relay zero mtu allowed t = none
  forward_relay (suc fuel) mtu allowed t = elim (tunnel_read_packet mtu t) [
    | none ↦ none
    | some (t', err e) ↦ some (nothing, t')
    | some (t', ok p) ↦ elim (forward_relay fuel mtu allowed t') [
      | none ↦ none
      | some (f, t'') ↦ some (forward_packet allowed p f, t'')
    ]
  ]

-- The loop of forwardDirectConnToTUN, on what ReadPacket gives; `none` means that it waits for more.
unfoldable pub forward_direct : List Prefix → List (Result Bytes) → Option Forwarded
forward_direct allowed [] = none
forward_direct allowed (err e ∷ rs) = some nothing
forward_direct allowed (ok p ∷ rs) = elim (forward_direct allowed rs) [
  | none ↦ none
  | some f ↦ some (forward_packet allowed p f)
]

module _ {P : Type 0} ⦃mion : MionPeer P⦄ where
  -- forwardConnToTUN of the relay connection `c`
  unfoldable pub run_relay :
      {W : Type 0}
      → ℕ
      → ℕ
      → List Prefix
      → ℕ
      → Bytes
      → RelayTunnelConn W
      → Manager P
      → Option (Forwarded × Manager P)
  run_relay fuel mtu allowed c id t m = elim (forward_relay fuel mtu allowed t) [
    | none ↦ none
    | some (f, t') ↦ some (f, relay_closed c id m)
  ]

  -- forwardDirectConnToTUN of the direct connection `c`
  unfoldable pub run_direct :
      List Prefix → ℕ → Bytes → List (Result Bytes) → Manager P → Option (Forwarded × Manager P)
  run_direct allowed c id rs m = elim (forward_direct allowed rs) [
    | none ↦ none
    | some f ↦ some (f, direct_closed c id m)
  ]

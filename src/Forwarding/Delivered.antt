-- ===== src/Forwarding/Delivered.antt =====
-- internal/manager/manager.go: what a peer gets into the device, over a tunnel and over a direct connection.
use malon.Base.{
  ℕ, zero, suc, ◌≡◌, ◌≤◌, ◌<◌, refl, false, Option, none, some, List, [], ◌∷◌, ◌++◌, Bytes, Error,
  Result, ok, err, eof, length, map, ◌==◌, ==_iff, Bool-cases, inl, inr, arith, All, Option-cases,
  Result-cases,
}
use malon.Io.{Writer}
use malon.Chan.{Chan}
use malon.Packet.{Prefix, extract_src_ip, allowed_ips_contains}
use malon.Packet.Filter.{IsAllowed, allowed_ips_contains_iff, IsAllowed-length}
use malon.Tunnel.{RelayTunnelConn, tunnel_read_packet, read_packets}
use malon.Tunnel.Packets.{Message, packets_of, Fits, send_all, AllSent}
use malon.Tunnel.Arrivals.{read_packets-send_all}
use malon.Manager.{MionPeer, Manager, relay_closed, direct_closed}
use malon.Forwarding.{
  Forwarded, nothing, forward_packet, forward_relay, forward_direct, run_relay, run_direct,
}

-- The second list is the first without the packets that are not from an allowed network.
pub data Filtered (allowed : List Prefix) : List Bytes → List Bytes → Type 0 where
  empty : Filtered allowed [] []
  kept :
      {p : Bytes} {ps qs : List Bytes}
      → IsAllowed allowed p
      → Filtered allowed ps qs
      → Filtered allowed (p ∷ ps) (p ∷ qs)
  dropped :
      {p : Bytes} {ps qs : List Bytes}
      → ¬ IsAllowed allowed p
      → Filtered allowed ps qs
      → Filtered allowed (p ∷ ps) qs

-- The rounds of either loop on these packets.
abbrev pub forward_each : List Prefix → List Bytes → Forwarded
forward_each allowed [] = nothing
forward_each allowed (p ∷ ps) = forward_packet allowed p (forward_each allowed ps)

abbrev IsRight : List Prefix → List Bytes → Forwarded → Type 0
IsRight allowed ps f = Filtered allowed ps f.device × (f.received ≡ length ps)

forward_packet-IsRight :
    (allowed : List Prefix) (p : Bytes) (ps : List Bytes) (f : Forwarded)
    → IsRight allowed ps f
    → IsRight allowed (p ∷ ps) (forward_packet allowed p f)
unfolding forward_packet
forward_packet-IsRight allowed p ps f (right, count) = elim (Bool-cases (length p == 0)) [
  | inl is_empty ↦ rw is_empty (
    dropped (λ h. ground (arith, is_empty, ==_iff (length p) 0, IsAllowed-length allowed p h))
        right,
    omega (arith, count),
  )
  | inr full ↦ elim (Bool-cases (allowed_ips_contains allowed (extract_src_ip p))) [
    | inl found ↦
        rw (full, found)
          (kept ((allowed_ips_contains_iff allowed p).0 found) right, omega (arith, count))
    | inr missing ↦
        rw (full, missing)
          (
            dropped (λ h. cc (missing, (allowed_ips_contains_iff allowed p).1 h)) right,
            omega (arith, count),
          )
  ]
]

forward_each-IsRight :
    (allowed : List Prefix) (ps : List Bytes) → IsRight allowed ps (forward_each allowed ps)
forward_each-IsRight allowed [] = (empty, refl)
forward_each-IsRight allowed (p ∷ ps) =
    forward_packet-IsRight allowed p ps (forward_each allowed ps) (forward_each-IsRight allowed ps)

forward_direct-each :
    (allowed : List Prefix) (ps : List Bytes) (e : Error) (rs : List (Result Bytes))
    → forward_direct allowed (map ok ps ++ err e ∷ rs) ≡ some (forward_each allowed ps)
unfolding forward_direct
forward_direct-each allowed [] e rs = refl
forward_direct-each allowed (p ∷ ps) e rs =
    rw (forward_direct-each allowed ps e rs, forward_direct) refl

module _ {W : Type 0} where
  abbrev relayed :
      Option (List Bytes × RelayTunnelConn W × Error)
      → List Prefix
      → Option (Forwarded × RelayTunnelConn W)
  relayed none allowed = none
  relayed (some (ps, t, e)) allowed = some (forward_each allowed ps, t)

  forward_relay-read_packets :
      (fuel mtu : ℕ) (allowed : List Prefix) (t : RelayTunnelConn W)
      → forward_relay fuel mtu allowed t ≡ relayed (read_packets fuel mtu t) allowed
  unfolding forward_relay read_packets
  forward_relay-read_packets zero mtu allowed t = refl
  forward_relay-read_packets (suc fuel) mtu allowed t =
      elim (Option-cases (tunnel_read_packet mtu t)) [
        | inl h ↦ rw (h, forward_relay, read_packets) refl
        | inr ((t', r), h) ↦ elim (Result-cases r) [
          | inr (e, q) ↦ rw (h, q, forward_relay, read_packets) refl
          | inl (p, q) ↦ elim (Option-cases (read_packets fuel mtu t')) [
            | inl k ↦
                rw (h, q, forward_relay, read_packets)
                  (rw (forward_relay-read_packets fuel mtu allowed t', k) refl)
            | inr ((ps, t'', e), k) ↦
                rw (h, q, forward_relay, read_packets)
                  (rw (forward_relay-read_packets fuel mtu allowed t', k) refl)
          ]
        ]
      ]

module _ {W P : Type 0} ⦃mion : MionPeer P⦄ where
  run_relay-each :
      (fuel mtu : ℕ) (allowed : List Prefix) (c : ℕ) (id : Bytes) (t t' : RelayTunnelConn W)
      (m : Manager P) (ps : List Bytes) (e : Error)
      → read_packets fuel mtu t ≡ some (ps, t', e)
      → run_relay fuel mtu allowed c id t m ≡ some (forward_each allowed ps, relay_closed c id m)
  unfolding run_relay
  run_relay-each fuel mtu allowed c id t t' m ps e h =
      rw (forward_relay-read_packets fuel mtu allowed t, h, run_relay) refl

  -- The two goroutines filter alike: if the tunnel and the direct connection give the same packets and then an error,
  -- both give the device the same packets, in order, namely those that are from an allowed network, and
  -- call UpdateLastReceive as often; only what becomes of the peer's entry differs.
  pub run_direct-run_relay :
      (fuel mtu : ℕ) (allowed : List Prefix) (c d : ℕ) (id : Bytes) (m : Manager P)
      (t t' : RelayTunnelConn W) (ps : List Bytes) (e e' : Error) (rs : List (Result Bytes))
      → read_packets fuel mtu t ≡ some (ps, t', e)
      → (f : Forwarded) × (run_relay fuel mtu allowed c id t m ≡ some (f, relay_closed c id m))
        × (run_direct allowed d id (map ok ps ++ err e' ∷ rs) m ≡ some (f, direct_closed d id m))
        × Filtered allowed ps f.device
        × (f.received ≡ length ps)
  unfolding run_direct
  run_direct-run_relay fuel mtu allowed c d id m t t' ps e e' rs h =
      let (right, count) = forward_each-IsRight allowed ps in
      (
        forward_each allowed ps,
        run_relay-each fuel mtu allowed c id t t' m ps e h,
        rw (forward_direct-each allowed ps e' rs, run_direct) refl,
        right,
        count,
      )

module _ {V W P : Type 0} ⦃vr : Writer V⦄ ⦃mion : MionPeer P⦄ where
  -- What a peer gets into the device over a tunnel: of what its end writes without errors, each message within the
  -- reader's limit and each packet within the buffer, forwardConnToTUN gives the device exactly the packets that
  -- are from one of the peer's allowed networks, in order; it calls UpdateLastReceive once for each
  -- packet, and at the end of the stream it gives the connection up.
  pub run_relay-send_all :
      (fuel mtu : ℕ) (allowed : List Prefix) (c : ℕ) (id : Bytes) (m : Manager P)
      (ms : List Message) (t : RelayTunnelConn V) (r : RelayTunnelConn W) (ch : Chan Bytes)
      → vr.out t.capsule.wr ≡ []
      → AllSent ms t
      → All (Fits mtu) ms
      → r.capsule.reader ≡ record {
        rd = record { bytes = vr.out (send_all ms t).capsule.wr; ending = eof };
        ctrl_ch = some ch;
      }
      → ch.is_closed ≡ false
      → length ch.buf ≤ ch.capacity
      → length ms < fuel
      → (f : Forwarded) × (run_relay fuel mtu allowed c id r m ≡ some (f, relay_closed c id m))
        × Filtered allowed (packets_of ms) f.device
        × (f.received ≡ length (packets_of ms))
  run_relay-send_all fuel mtu allowed c id m ms t r ch new sent fits joined open_ bounded enough =
      let (r', ch', read, _, _) =
        read_packets-send_all fuel mtu ms t r ch new sent fits joined open_ bounded enough in
      let (right, count) = forward_each-IsRight allowed (packets_of ms) in
      (
        forward_each allowed (packets_of ms),
        run_relay-each fuel mtu allowed c id r r' m (packets_of ms) _ read,
        right,
        count,
      )

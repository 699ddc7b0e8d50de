-- ===== src/Sending.antt =====
-- internal/manager/manager.go: sendCandidates as a whole, from the queries to the control message on the tunnel. What
-- it finds on its host and what the queries of internal/stun give is an argument.
pub mod Across
use text.Mathlib.Text.{◌==◌ as str_eq}
use malon.Base.{ℕ, Option, none, some, List, Bytes, String, Error, Result, ok, err, if◌then◌else◌}
use malon.Io.{Writer}
use malon.Packet.{Addr, Prefix}
use malon.Candidate.{Candidate, Interface}
use malon.Control.{Json, Netip}
use malon.Probing.Own.{own_candidates, candidates_payload}
use malon.Tunnel.{RelayTunnelConn, tunnel_write_control}

abbrev pub default_stun_server : String
default_stun_server = "stun4.l.google.com:3478"

abbrev pub stun_server_of : String → String
stun_server_of srv = if str_eq srv "" then default_stun_server else srv

-- The port of the DirectListener, if there is one; the overlay's prefix; what net.Interfaces gives, if it does not
-- fail; and the two queries, of a server.
pub record Host : Type 0 where
  pub listen_port : Option ℕ
  pub overlay : Option Prefix
  pub ifaces : Option (List Interface)
  pub query_from_transport : String → Result (Addr × ℕ)
  pub query : String → Result (Addr × ℕ)

-- An error of a query is logged.
abbrev pub seen_address : Result (Addr × ℕ) → Option (Addr × ℕ)
seen_address (err e) = none
seen_address (ok a) = some a

-- The goroutine of sendCandidates: with a DirectListener, the query goes out of its socket.
unfoldable pub stun_answer : Host → String → Option (Addr × ℕ)
stun_answer h srv = elim h.listen_port [
  | some port ↦ seen_address (h.query_from_transport (stun_server_of srv))
  | none ↦ seen_address (h.query (stun_server_of srv))
]

abbrev pub all_candidates : Host → String → ℕ → List Candidate
all_candidates h srv generation =
    own_candidates h.listen_port generation h.overlay h.ifaces (stun_answer h srv)

-- sendCandidates, with the error of its WriteControl, which it logs.
unfoldable pub send_candidates :
    {W : Type 0} ⦃wr : Writer W⦄ ⦃net : Netip⦄ ⦃json : Json⦄
    → Host
    → String
    → ℕ
    → RelayTunnelConn W
    → RelayTunnelConn W × Option Error
send_candidates h srv generation t =
    elim (candidates_payload generation (all_candidates h srv generation)) [
      | none ↦ (t, none)
      | some b ↦ tunnel_write_control b t
    ]

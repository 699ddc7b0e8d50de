-- ===== src/Probing/Own.antt =====
-- internal/manager/manager.go: the candidates of the node itself, which sendCandidates collects and prints.
use malon.Base.{ℕ, Option, none, some, List, [], ◌∷◌, ◌++◌, map, Bytes, String, Result, ok, err}
use malon.Packet.{Addr, Prefix}
use malon.Control.{CandidateInfo, msg_type_candidates, Json, Netip, encode}
use malon.Candidate.{
  Kind, kind_embedded, kind_stuned, kind_h3_proxy, Candidate, state_idle, Interface,
  collect_embedded,
}

-- Kind.String
unfoldable pub kind_string : Kind → String
kind_string kind_embedded = "embedded"
kind_string kind_stuned = "stuned"
kind_string kind_h3_proxy = "h3proxy"

-- The candidate of sendCandidates for the address that the STUN server has seen, if the query did not fail.
abbrev pub stuned : ℕ → Option (Addr × ℕ) → List Candidate
stuned generation none = []
stuned generation (some (addr, port)) =
    record {
      kind = kind_stuned;
      addr = addr;
      port = port;
      generation = generation;
      state = state_idle;
    }
    ∷ []

-- What sendCandidates collects: `listen_port` is the port of the DirectListener, if there is one, and
-- `ifaces` is what net.Interfaces gives, if it does not fail.
unfoldable pub own_candidates :
    Option ℕ → ℕ → Option Prefix → Option (List Interface) → Option (Addr × ℕ) → List Candidate
own_candidates none generation overlay ifaces stun = stuned generation stun
own_candidates (some port) generation overlay none stun = stuned generation stun
own_candidates (some port) generation overlay (some ifaces) stun =
    collect_embedded port generation (elim overlay [ none ↦ [] | some p ↦ p ∷ [] ]) ifaces
    ++ stuned generation stun

abbrev pub candidate_info : ⦃net : Netip⦄ → Candidate → CandidateInfo
candidate_info ⦃net⦄ c = record {
  kind = kind_string c.kind;
  addr = net.addr_port_string c.addr c.port;
}

abbrev payload_of : Result Bytes → Option Bytes
payload_of (err e) = none
payload_of (ok b) = some b

-- The payload that sendCandidates writes as a control capsule, if any.
unfoldable pub candidates_payload : ⦃net : Netip⦄ ⦃json : Json⦄ → ℕ → List Candidate → Option Bytes
candidates_payload generation [] = none
candidates_payload generation (c ∷ cs) = payload_of (
    encode (record {
      msg_type = msg_type_candidates;
      generation = generation;
      candidates = map candidate_info (c ∷ cs);
    }))

-- ===== src/Probing.antt =====
-- internal/manager/manager.go: the candidates of a peer, and the probes that validate them
-- (handleControl, validateCandidates). Times are in nanoseconds. A handler
-- gets the times at which it reads the clock, and the loop of a probe its attempts.
pub mod Own
pub mod Rounds
pub mod Considered
pub mod Started
pub mod Cooling
pub mod Proven
pub mod Exchange
use text.Mathlib.Text.{◌==◌ as str_eq}
use malon.Base.{
  ℕ, zero, suc, ◌+◌, ◌*◌, Bool, true, false, not, ◌&&◌, Option, none, some, List, [], ◌∷◌, ◌++◌,
  map, Bytes, String, Error, Result, ok, err, if◌then◌else◌, ltb, ◌==◌, ==_iff, ◌≡◌, ◌↔◌, arith,
}
use malon.Base.Keys.{Eq, bytes_eq, bytes_beq, bytes_beq_iff, lookup, insert, delete}
use malon.Packet.{Addr, no_addr, v4, v6, Prefix}
use malon.Identity.{Crypto}
use malon.Auth.{TlsConfig, Moment}
use malon.Direct.{Closes, ValidatedTransport, Dialled, probe}
use malon.Control.{CandidateInfo, Message, msg_type_candidates, Json, Netip, encode, decode}
use malon.Candidate.{
  Kind, kind_embedded, kind_stuned, kind_h3_proxy, Candidate, state_idle, Interface,
  collect_embedded,
}
use malon.Manager.{Manager, PeerEntry}

abbrev pub millisecond : ℕ
millisecond = 1000000

abbrev pub probe_cooldown_dur : ℕ
probe_cooldown_dur = 30000 * millisecond

abbrev pub retry_interval : ℕ
retry_interval = 200 * millisecond

abbrev pub total_timeout : ℕ
total_timeout = 30000 * millisecond

-- The key of `probeCooldown`, an address and a port.
unfoldable pub addr_beq : Addr → Addr → Bool
addr_beq no_addr no_addr = true
addr_beq (v4 a) (v4 b) = bytes_beq a b
addr_beq (v6 a) (v6 b) = bytes_beq a b
addr_beq no_addr (v4 b) = false
addr_beq no_addr (v6 b) = false
addr_beq (v4 a) no_addr = false
addr_beq (v4 a) (v6 b) = false
addr_beq (v6 a) no_addr = false
addr_beq (v6 a) (v4 b) = false

pub addr_beq_iff : (a b : Addr) → (addr_beq a b ≡ true) ↔ (a ≡ b)
unfolding addr_beq
addr_beq_iff no_addr no_addr = ((λ h. cc), (λ h. cc))
addr_beq_iff (v4 a) (v4 b) =
    ((λ h. ground (arith, bytes_beq_iff a b)), (λ h. ground (arith, bytes_beq_iff a b)))
addr_beq_iff (v6 a) (v6 b) =
    ((λ h. ground (arith, bytes_beq_iff a b)), (λ h. ground (arith, bytes_beq_iff a b)))
addr_beq_iff no_addr (v4 b) = ((λ h. cc), (λ h. cc))
addr_beq_iff no_addr (v6 b) = ((λ h. cc), (λ h. cc))
addr_beq_iff (v4 a) no_addr = ((λ h. cc), (λ h. cc))
addr_beq_iff (v4 a) (v6 b) = ((λ h. cc), (λ h. cc))
addr_beq_iff (v6 a) no_addr = ((λ h. cc), (λ h. cc))
addr_beq_iff (v6 a) (v4 b) = ((λ h. cc), (λ h. cc))

abbrev pub addr_port_beq : Addr × ℕ → Addr × ℕ → Bool
addr_port_beq (a, m) (b, n) = addr_beq a b && (m == n)

pub addr_port_beq_iff : (a b : Addr × ℕ) → (addr_port_beq a b ≡ true) ↔ (a ≡ b)
addr_port_beq_iff (a, m) (b, n) = (
  (λ h. ground (arith, addr_beq_iff a b, ==_iff m n)),
  (λ h. ground (arith, addr_beq_iff a b, ==_iff m n)),
)

instance abbrev pub addr_port_eq : Eq (Addr × ℕ)
addr_port_eq = record { beq = addr_port_beq; beq_iff = addr_port_beq_iff }

-- A goroutine of validateCandidates, which probes one address of a peer.
pub record Probe : Type 0 where
  pub peer_id : Bytes
  pub addr : Addr
  pub port : ℕ

-- The part of the manager's state that the probes use. `probes` are the goroutines that were started, and
-- `promotions` the calls of tryPromotePath, the latest first.
pub record Prober (P : Type 0) : Type 0 where
  pub manager : Manager P
  pub has_ctx : Bool
  pub validated : List (Bytes × List ValidatedTransport)
  pub probe_cooldown : List ((Addr × ℕ) × ℕ)
  pub probes : List Probe
  pub promotions : List (Bytes × ValidatedTransport)

-- `addr.Is6()`, which holds of IPv4-mapped IPv6 addresses, too.
abbrev pub is6 : Addr → Bool
is6 no_addr = false
is6 (v4 b) = false
is6 (v6 b) = true

-- `until, ok := m.probeCooldown[addr]; ok && time.Now().Before(until)`
unfoldable pub cooling : ℕ → Addr → ℕ → List ((Addr × ℕ) × ℕ) → Bool
cooling now addr port cooldown = elim (lookup (addr, port) cooldown) [
  | none ↦ false
  | some until ↦ ltb now until
]

module _ {P : Type 0} where
  -- `m.peers[peerID] != nil && m.peers[peerID].hasDirectPath`
  unfoldable pub is_direct : Bytes → Manager P → Bool
  is_direct id m = elim (lookup id m.peers) [ none ↦ false | some e ↦ e.has_direct_path ]

  -- One round of the loop of validateCandidates. Without a listener the goroutine returns at once.
  unfoldable pub consider : ℕ → Bytes → Option (Addr × ℕ) → Prober P → Prober P
  consider now id none s = s
  consider now id (some (addr, port)) s =
      if s.manager.has_direct_ln && is6 addr
      then s
      else if cooling now addr port s.probe_cooldown
      then s
      else if is_direct id s.manager
      then s
      else if not s.manager.has_direct_ln
      then s
      else record s { probes = record { peer_id = id; addr = addr; port = port } ∷ s.probes }

  -- The loop of validateCandidates; `clock i` is the time at which it looks at the i-th of these candidates.
  unfoldable pub validate_each :
      ⦃net : Netip⦄ → (ℕ → ℕ) → Bytes → List CandidateInfo → Prober P → Prober P
  validate_each clock id [] s = s
  validate_each ⦃net⦄ clock id (ci ∷ cis) s =
      validate_each (λ i. clock (i + 1)) id cis
        (consider (clock 0) id (net.parse_addr_port ci.addr) s)

  -- validateCandidates
  unfoldable pub validate_candidates :
      ⦃net : Netip⦄ → (ℕ → ℕ) → Bytes → Message → Prober P → Prober P
  validate_candidates clock id msg s =
      if s.has_ctx then validate_each clock id msg.candidates s else s

  abbrev pub controlled : ⦃net : Netip⦄ → (ℕ → ℕ) → Bytes → Result Message → Prober P → Prober P
  controlled clock src (err e) s = s
  controlled clock src (ok msg) s =
      if str_eq msg.msg_type msg_type_candidates then validate_candidates clock src msg s else s

  -- handleControl
  unfoldable pub handle_control :
      ⦃net : Netip⦄ ⦃json : Json⦄ → (ℕ → ℕ) → Bytes → Bytes → Prober P → Prober P
  handle_control clock src payload s = controlled clock src (decode payload) s

-- What a round of the retry loop meets: the time of its test, whether the context is done and the
-- peer has a direct path by then, the moment of Probe's certificate, what the QUIC dial gives, and whether the
-- context is done before the interval is over.
pub record Attempt : Type 0 where
  pub now : ℕ
  pub ctx_done : Bool
  pub already : Bool
  pub moment : Moment
  pub quic : TlsConfig → Result Dialled
  pub cancelled : Bool

-- How the retry loop ends: the goroutine returns, an attempt succeeded, or the time is over, with
-- `lastErr`.
pub data Probed : Type 0 where
  gave_up : Probed
  found : ValidatedTransport → Probed
  timed_out : Option Error → Probed

pub data Round : Type 0 where
  ended : Probed → Closes → Round
  again : Error → Closes → Round

abbrev pub attempted : Attempt → Result ValidatedTransport × Closes → Round
attempted a (ok v, closes) = ended (found v) closes
attempted a (err e, closes) = if a.cancelled then ended gave_up closes else again e closes

module _ ⦃c : Crypto⦄ where
  -- A round, on a node with the private key `priv`.
  unfoldable pub probe_round : Bytes → Probe → ℕ → Attempt → Option Error → Closes → Round
  probe_round priv p deadline a last_err closes =
      if not (ltb a.now deadline)
      then ended (timed_out last_err) closes
      else if a.ctx_done
      then ended gave_up closes
      else if a.already
      then ended gave_up closes
      else attempted a (probe a.moment priv p.addr p.port p.peer_id a.quic closes)

  -- The retry loop from round `k` on; `none` means that the fuel ran out.
  unfoldable pub probe_loop :
      Bytes → ℕ → Probe → ℕ → (ℕ → Attempt) → ℕ → Option Error → Closes → Option (Probed × Closes)
  probe_loop priv zero p deadline attempts k last_err closes = none
  probe_loop priv (suc fuel) p deadline attempts k last_err closes =
      elim (probe_round priv p deadline (attempts k) last_err closes) [
        | ended r closes' ↦ some (r, closes')
        | again e closes' ↦ probe_loop priv fuel p deadline attempts (suc k) (some e) closes'
      ]

module _ {P : Type 0} where
  abbrev pub validated_of : Bytes → Prober P → List ValidatedTransport
  validated_of id s = elim (lookup id s.validated) [ none ↦ [] | some vs ↦ vs ]

  -- The rest of the goroutine. If no attempt was made, then there is no error and no result, and the use of the
  -- result panics.
  unfoldable pub probe_finished : ℕ → Probe → Probed → Prober P → Prober P
  probe_finished now p gave_up s = s
  probe_finished now p (timed_out (some e)) s = record s {
    probe_cooldown = insert (p.addr, p.port) (now + probe_cooldown_dur) s.probe_cooldown;
  }
  probe_finished now p (timed_out none) s = record s {
    probe_cooldown = delete (p.addr, p.port) s.probe_cooldown;
    manager = record s.manager { crashed = true };
  }
  probe_finished now p (found v) s = record s {
    probe_cooldown = delete (p.addr, p.port) s.probe_cooldown;
    validated = insert p.peer_id (validated_of p.peer_id s ++ v ∷ []) s.validated;
    promotions = if s.manager.is_client then (p.peer_id, v) ∷ s.promotions else s.promotions;
  }

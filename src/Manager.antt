-- ===== src/Manager.antt =====
-- internal/manager/manager.go: the registry of peers, and the choice between a peer's relay path and
-- its direct path.
pub mod Entries
pub mod Switching
pub mod Retrying
pub mod Retries
pub mod Conflicts
pub mod Steps
pub mod Sections
pub mod Flap
pub mod Impersonation
use text.Mathlib.Text.{◌==◌ as str_eq}
use malon.Base.{
  ℕ, ◌+◌, ◌-◌, ◌≡◌, Bool, true, false, not, ◌&&◌, ◌||◌, Option, none, some, List, [], ◌∷◌, ◌++◌,
  Bytes, Error, String, errorf, wrap, if◌then◌else◌, map,
}
use malon.Base.Keys.{bytes_eq, lookup, insert}
use malon.Base.Tests.{◌==◌ as nat_beq}

-- A connection that a peer can be given: a relay tunnel or a direct CONNECT-IP session, by number.
pub data PeerPath : Type 0 where
  relay direct : ℕ → PeerPath

abbrev pub path_beq : PeerPath → PeerPath → Bool
path_beq (relay a) (relay b) = nat_beq a b
path_beq (direct a) (direct b) = nat_beq a b
path_beq (relay a) (direct b) = false
path_beq (direct a) (relay b) = false

abbrev pub is_path : PeerPath → Option PeerPath → Bool
is_path c none = false
is_path c (some d) = path_beq c d

-- mion's `peer.Peer`, which is not part of this repository: `SetConn` makes a connection the active
-- one, and `ClearConnIf` takes it away again, if it still is.
pub record MionPeer (P : Type 0) : Type 0 where
  pub set_conn : PeerPath → P → P
  pub clear_conn_if : PeerPath → P → P
  pub active : P → Option PeerPath
  pub active-set_conn : (c : PeerPath) (p : P) → active (set_conn c p) ≡ some c
  pub active-clear_conn_if :
      (c : PeerPath) (p : P)
      → active (clear_conn_if c p) ≡ (if is_path c (active p) then none else active p)

-- peerEntry
pub record PeerEntry (P : Type 0) : Type 0 where
  pub peer : P
  pub relay_url : String
  pub relay_conn : Option ℕ
  pub has_direct_path : Bool
  pub retrying_conn : Bool

-- The goroutines that the manager starts for a peer.
pub data Task : Type 0 where
  retry_connect_peer : Bytes → Task
  forward_conn_to_tun send_candidates control_read_loop : Bytes → ℕ → Task
  forward_direct_conn_to_tun : Bytes → ℕ → Task

-- `closed` are the connections that the manager has closed, `started` the goroutines that it has
-- started, the latest first; `retries` counts the `retryConnectPeer` goroutines that are running;
-- `crashed` says that the process has panicked.
pub record Manager (P : Type 0) : Type 0 where
  pub is_client : Bool
  pub has_direct_ln : Bool
  pub peers : List (Bytes × PeerEntry P)
  pub proxies : List String
  pub generation : ℕ
  pub closed : List PeerPath
  pub started : List Task
  pub retries : Bytes → ℕ
  pub crashed : Bool

abbrev pub has_url : String → List String → Bool
has_url u [] = false
has_url u (v ∷ vs) = let rest = has_url u vs in if str_eq u v then true else rest

module _ {P : Type 0} where
  abbrev pub put : Bytes → PeerEntry P → Manager P → Manager P
  put id e m = record m { peers = insert id e m.peers }

  abbrev pub start : Task → Manager P → Manager P
  start t m = record m { started = t ∷ m.started }

  abbrev pub close_path : PeerPath → Manager P → Manager P
  close_path c m = record m { closed = c ∷ m.closed }

  abbrev pub close_relay : Option ℕ → Manager P → Manager P
  close_relay none m = m
  close_relay (some c) m = close_path (relay c) m

  -- getOrCreateProxy: the pool has one proxy for each relay URL.
  unfoldable pub get_or_create_proxy : String → Manager P → Manager P
  get_or_create_proxy u m = if has_url u m.proxies then m else record m { proxies = u ∷ m.proxies }

  -- RegisterPeer, with the identity that is derived from the public key.
  unfoldable pub register_peer : Bytes → P → String → Manager P → Manager P × Option Error
  register_peer id peer u m = elim (lookup id m.peers) [
    | some _ ↦ (m, some (errorf "manager: peer already registered"))
    | none ↦
        let e : PeerEntry P = record {
          peer = peer;
          relay_url = u;
          relay_conn = none;
          has_direct_path = false;
          retrying_conn = false;
        } in
        let m' = put id e m in (if str_eq u "" then m' else get_or_create_proxy u m', none)
  ]

  -- The loops of setupRelayPeers: the dead relay connection is forgotten for every peer of the relay,
  -- then a client starts the retries.
  unfoldable pub forget_relay : String → List (Bytes × PeerEntry P) → List (Bytes × PeerEntry P)
  forget_relay u [] = []
  forget_relay u ((id, e) ∷ es) =
      (id, if str_eq e.relay_url u then record e { relay_conn = none } else e) ∷ forget_relay u es

  unfoldable pub ids_of : String → List (Bytes × PeerEntry P) → List Bytes
  ids_of u [] = []
  ids_of u ((id, e) ∷ es) =
      let rest = ids_of u es in if str_eq e.relay_url u then id ∷ rest else rest

  -- knownPeerSet
  unfoldable pub known_peer_set : Manager P → List (Bytes × Unit {0})
  known_peer_set m = map (λ e. (e.0, tt)) m.peers

module _ {P : Type 0} ⦃mion : MionPeer P⦄ where
  -- The end of connectPeerWithCtx and of handleIncoming, once the inner handshake has succeeded: the
  -- old relay connection is replaced and closed, and the new one is made active.
  unfoldable pub install_relay : Bytes → ℕ → PeerEntry P → Manager P → Manager P
  install_relay id c e m = start (control_read_loop id c) (
      start (send_candidates id c) (
        start (forward_conn_to_tun id c) (
          close_relay e.relay_conn
            (put id (record e { relay_conn = some c; peer = mion.set_conn (relay c) e.peer }) m))))

  -- connectPeerWithCtx; the handshake gives a connection, or fails.
  abbrev pub shaken : Option ℕ → Bytes → PeerEntry P → Manager P → Manager P × Option Error
  shaken none id e m = (m, some (errorf "manager: inner mTLS handshake (client)"))
  shaken (some c) id e m = (install_relay id c e m, none)

  unfoldable pub connect_entry :
      Option ℕ → Bytes → PeerEntry P → Manager P → Manager P × Option Error
  connect_entry handshake id e m =
      if str_eq e.relay_url ""
      then (m, some (errorf "manager: peer has no relay URL configured"))
      else shaken handshake id e (get_or_create_proxy e.relay_url m)

  unfoldable pub connect_peer : Option ℕ → Bytes → Manager P → Manager P × Option Error
  connect_peer handshake id m = elim (lookup id m.peers) [
    | none ↦ (m, some (errorf "manager: unknown peer"))
    | some e ↦ connect_entry handshake id e m
  ]

  -- handleIncoming
  unfoldable pub handle_incoming : Option ℕ → Bytes → Manager P → Manager P
  handle_incoming handshake id m = elim (lookup id m.peers) [
    | none ↦ m
    | some e ↦ elim handshake [ none ↦ m | some c ↦ install_relay id c e m ]
  ]

  unfoldable pub install_direct : Bytes → ℕ → PeerEntry P → Manager P → Manager P
  install_direct id c e m =
      start (forward_direct_conn_to_tun id c)
        (put id (record e { has_direct_path = true; peer = mion.set_conn (direct c) e.peer }) m)

  -- handleDirectConnect: a session that is already there is replaced, and not closed.
  unfoldable pub handle_direct_connect : ℕ → Bytes → Manager P → Manager P
  handle_direct_connect c id m = elim (lookup id m.peers) [
    | none ↦ close_path (direct c) m
    | some e ↦ install_direct id c e m
  ]

  -- The part of tryPromotePath before it dials: whether it does, and the state, since the entry is
  -- read before it is known to be there.
  unfoldable pub promotes : Bytes → Manager P → Bool × Manager P
  promotes id m = if not m.has_direct_ln then (false, m) else (elim (lookup id m.peers) [
    | none ↦ (false, record m { crashed = true })
    | some e ↦ (not e.has_direct_path, m)
  ])

  -- The part after a dial that succeeded: the flag is looked at again.
  unfoldable pub promote_entry : ℕ → Bytes → PeerEntry P → Manager P → Manager P
  promote_entry c id e m =
      if e.has_direct_path then close_path (direct c) m else install_direct id c e m

  unfoldable pub promote : ℕ → Bytes → Manager P → Manager P
  promote c id m = elim (lookup id m.peers) [
    | none ↦ close_path (direct c) m
    | some e ↦ promote_entry c id e m
  ]

  -- A retryConnectPeer goroutine is started, unless the flag says that one is running.
  unfoldable pub start_retry : Bytes → PeerEntry P → Manager P → Manager P
  start_retry id e m =
      if e.retrying_conn
      then put id e m
      else start (retry_connect_peer id) (
          put id (record e { retrying_conn = true })
            (record m {
              retries = λ j. if bytes_eq.beq id j then m.retries j + 1 else m.retries j;
            }))

  abbrev pub restore : Option ℕ → P → P
  restore none p = p
  restore (some c) p = mion.set_conn (relay c) p

  -- fallbackToRelay
  unfoldable pub fallback_entry : Bytes → PeerEntry P → Manager P → Manager P
  fallback_entry id e m =
      if not e.has_direct_path
      then m
      else if not m.is_client
      then put id (record e { has_direct_path = false; peer = restore e.relay_conn e.peer }) m
      else start_retry id (record e { has_direct_path = false; relay_conn = none })
          (close_relay e.relay_conn m)

  unfoldable pub fallback_to_relay : Bytes → Manager P → Manager P
  fallback_to_relay id m = elim (lookup id m.peers) [ none ↦ m | some e ↦ fallback_entry id e m ]

  -- The end of forwardDirectConnToTUN, when the direct connection `c` is closed.
  unfoldable pub direct_closed : ℕ → Bytes → Manager P → Manager P
  direct_closed c id m = elim (lookup id m.peers) [
    | none ↦ m
    | some e ↦
        fallback_to_relay id (put id (record e { peer = mion.clear_conn_if (direct c) e.peer }) m)
  ]

  -- The end of forwardConnToTUN, when the relay connection `c` is closed.
  unfoldable pub relay_closed : ℕ → Bytes → Manager P → Manager P
  relay_closed c id m = elim (lookup id m.peers) [
    | none ↦ m
    | some e ↦ put id (record e { peer = mion.clear_conn_if (relay c) e.peer }) m
  ]

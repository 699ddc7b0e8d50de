-- ===== src/Manager/Sections.antt =====
-- internal/manager/manager.go: what the manager's handlers do under one hold of its lock, or in one call of mion's Peer,
-- so that other goroutines may come between. An entry is a pointer that stays in the map: no code deletes it.

pub mod Interleaved
pub mod Lost
pub mod Composed
use malon.Base.{is_some, ℕ, Bool, true, false, not, ◌||◌, Option, none, some, Bytes, if◌then◌else◌}
use malon.Base.Keys.{bytes_eq, lookup}
use malon.Manager.{
  MionPeer, Manager, PeerEntry, PeerPath, relay, direct, put, start, close_path, close_relay,
  control_read_loop, send_candidates, forward_conn_to_tun, forward_direct_conn_to_tun,
}
use malon.Manager.Retrying.{retry_one}

abbrev pub relay_conn_of : {P : Type 0} → Option (PeerEntry P) → Option ℕ
relay_conn_of none = none
relay_conn_of (some e) = e.relay_conn

module _ {P : Type 0} where
  abbrev pub change : (PeerEntry P → PeerEntry P) → Bytes → Manager P → Manager P
  change f id m = elim (lookup id m.peers) [ none ↦ m | some e ↦ put id (f e) m ]

  -- connectPeerWithCtx and handleIncoming after the handshake: the new connection is entered, and the old one given.
  unfoldable pub put_relay : ℕ → Bytes → Manager P → Manager P × Option ℕ
  put_relay c id m =
      (change (λ e. record e { relay_conn = some c }) id m, relay_conn_of (lookup id m.peers))

  -- handleDirectConnect: `entry.hasDirectPath = true`
  unfoldable pub mark_direct : Bytes → Manager P → Manager P
  mark_direct id m = change (λ e. record e { has_direct_path = true }) id m

  -- tryPromotePath after the dial: whether the connection is used.
  unfoldable pub try_mark : Bytes → Manager P → Bool × Manager P
  try_mark id m = elim (lookup id m.peers) [
    | none ↦ (false, m)
    | some e ↦
        if e.has_direct_path
        then (false, m)
        else (true, put id (record e { has_direct_path = true }) m)
  ]

  -- fallbackToRelay, the first section: whether it goes on.
  unfoldable pub unmark : Bytes → Manager P → Bool × Manager P
  unmark id m = elim (lookup id m.peers) [
    | none ↦ (false, m)
    | some e ↦
        if not e.has_direct_path
        then (false, m)
        else (true, put id (record e { has_direct_path = false }) m)
  ]

  -- fallbackToRelay of a client, the second section: the relay connection that it closes then.
  unfoldable pub take_relay : Bytes → Manager P → Manager P × Option ℕ
  take_relay id m =
      (change (λ e. record e { relay_conn = none }) id m, relay_conn_of (lookup id m.peers))

  -- retryConnectPeer: whether it stops at its look at the entry. Its deferred section, retry_stopped, comes later.
  unfoldable pub retry_stops : Bytes → Manager P → Bool
  retry_stops id m = elim (lookup id m.peers) [
    | none ↦ false
    | some e ↦ e.has_direct_path || is_some e.relay_conn
  ]

module _ {P : Type 0} ⦃mion : MionPeer P⦄ where
  -- fallbackToRelay of a client, the third section, and setupRelayPeers for each peer: the goroutine is started unless
  -- the flag is set.
  unfoldable pub claim_retry : Bytes → Manager P → Manager P
  claim_retry id m = retry_one id (lookup id m.peers) m

  -- `entry.peer.SetConn(c)`
  unfoldable pub set_active : PeerPath → Bytes → Manager P → Manager P
  set_active c id m = change (λ e. record e { peer = mion.set_conn c e.peer }) id m

  -- `p.ClearConnIf(c)`
  unfoldable pub clear_active : PeerPath → Bytes → Manager P → Manager P
  clear_active c id m = change (λ e. record e { peer = mion.clear_conn_if c e.peer }) id m

  -- The handlers with nobody between their sections: the end of connectPeerWithCtx and of handleIncoming,
  abbrev pub replaced : ℕ → Bytes → Manager P × Option ℕ → Manager P
  replaced c id (m, old) = start (control_read_loop id c) (
      start (send_candidates id c)
        (start (forward_conn_to_tun id c) (set_active (relay c) id (close_relay old m))))

  unfoldable pub accept_relay : ℕ → Bytes → Manager P → Manager P
  accept_relay c id m = replaced c id (put_relay c id m)

  -- the end of handleDirectConnect and of tryPromotePath,
  abbrev pub taken_up : ℕ → Bytes → Manager P → Manager P
  taken_up c id m = start (forward_direct_conn_to_tun id c) (set_active (direct c) id m)

  unfoldable pub accept_direct : ℕ → Bytes → Manager P → Manager P
  accept_direct c id m = taken_up c id (mark_direct id m)

  abbrev pub tried : ℕ → Bytes → Bool × Manager P → Manager P
  tried c id (true, m) = taken_up c id m
  tried c id (false, m) = close_path (direct c) m

  unfoldable pub accept_promoted : ℕ → Bytes → Manager P → Manager P
  accept_promoted c id m = tried c id (try_mark id m)

  -- and fallbackToRelay.
  abbrev pub restored : Option ℕ → Bytes → Manager P → Manager P
  restored none id m = m
  restored (some c) id m = set_active (relay c) id m

  abbrev pub dropped : Bytes → Manager P × Option ℕ → Manager P
  dropped id (m, old) = claim_retry id (close_relay old m)

  abbrev pub unmarked : Bytes → Bool × Manager P → Manager P
  unmarked id (false, m) = m
  unmarked id (true, m) =
      if not m.is_client
      then restored (relay_conn_of (lookup id m.peers)) id m
      else dropped id (take_relay id m)

  unfoldable pub fall_back : Bytes → Manager P → Manager P
  fall_back id m = unmarked id (unmark id m)

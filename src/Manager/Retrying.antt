-- ===== src/Manager/Retrying.antt =====
-- internal/manager/manager.go: setupRelayPeers, and the rounds of retryConnectPeer.
use text.Mathlib.Text.{◌==◌ as str_eq}
use malon.Base.{
  is_some, ℕ, ◌-◌, Bool, false, not, ◌&&◌, ◌||◌, Option, none, some, List, [], ◌∷◌, Bytes, Error,
  String, if◌then◌else◌,
}
use malon.Base.Keys.{bytes_eq, lookup}
use malon.Manager.{
  MionPeer, PeerEntry, Manager, put, get_or_create_proxy, forget_relay, ids_of, start_retry,
  connect_peer,
}

-- How a round of retryConnectPeer ends.
pub data Retry (P : Type 0) : Type 0 where
  stops goes_on : Manager P → Retry P

module _ {P : Type 0} ⦃mion : MionPeer P⦄ where
  abbrev pub retry_one : Bytes → Option (PeerEntry P) → Manager P → Manager P
  retry_one id none m = m
  retry_one id (some e) m = start_retry id e m

  unfoldable pub retry_each : List Bytes → Manager P → Manager P
  retry_each [] m = m
  retry_each (id ∷ ids) m = retry_each ids (retry_one id (lookup id m.peers) m)

  unfoldable pub setup_relay_peers : String → Manager P → Manager P
  setup_relay_peers u m =
      let m' = record m { peers = forget_relay u m.peers } in
      if m.is_client then retry_each (ids_of u m.peers) m' else m'

  -- What retryConnectPeer defers.
  unfoldable pub retry_stopped : Bytes → Manager P → Manager P
  retry_stopped id m =
      let m' = record m {
        retries = λ j. if bytes_eq.beq id j then m.retries j - 1 else m.retries j;
      } in
      elim (lookup id m.peers) [
        | none ↦ m'
        | some e ↦ put id (record e { retrying_conn = false }) m'
      ]

  -- One round of retryConnectPeer: it ends, or waits for the backoff and goes on.
  abbrev pub after_connect : Bytes → Manager P × Option Error → Retry P
  after_connect id (m, none) = stops (retry_stopped id m)
  after_connect id (m, some e) = goes_on m

  abbrev pub retry_entry : Bool → Option ℕ → Bytes → Manager P → Option (PeerEntry P) → Retry P
  retry_entry relay_up handshake id m none = after_connect id (connect_peer handshake id m)
  retry_entry relay_up handshake id m (some e) =
      if e.has_direct_path || is_some e.relay_conn
      then stops (retry_stopped id m)
      else if not (str_eq e.relay_url "") && not relay_up
      then goes_on (get_or_create_proxy e.relay_url m)
      else after_connect id (connect_peer handshake id m)

  unfoldable pub retry_round : Bool → Bool → Option ℕ → Bytes → Manager P → Retry P
  retry_round ctx_done relay_up handshake id m =
      if not m.is_client || ctx_done
      then stops (retry_stopped id m)
      else retry_entry relay_up handshake id m (lookup id m.peers)

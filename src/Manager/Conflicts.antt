-- ===== src/Manager/Conflicts.antt =====
-- What happens when two paths of a peer meet in an order that the handlers do not expect.
use malon.Base.{ℕ, ◌≡◌, refl, ap, ◌∙◌, Bytes, true, false, some}
use malon.Base.Keys.{bytes_eq, lookup, lookup-insert_self}
use malon.Manager.{
  MionPeer, Manager, PeerEntry, relay, direct, put, close_relay, install_direct, install_relay,
  direct_closed, handle_direct_connect, handle_incoming,
}
use malon.Manager.Retries.{peers-close_relay}
use malon.Manager.Switching.{active_of, on_direct_path, direct_closed-restores}

module _ {P : Type 0} ⦃mion : MionPeer P⦄ where
  handle_direct_connect-some :
      (d : ℕ) (id : Bytes) (e : PeerEntry P) (m : Manager P)
      → lookup id m.peers ≡ some e
      → handle_direct_connect d id m ≡ install_direct id d e m
  unfolding handle_direct_connect
  handle_direct_connect-some d id e m found = rw (found, handle_direct_connect) refl

  -- On the proxy's side, when a peer with a live relay connection has made a second direct
  -- connection `d`, then the end of the first one, `c`, puts the peer back on the relay path, although no
  -- connection has been closed: `d` is still open and no longer used.
  pub direct_closed-replaced :
      (c d r : ℕ) (id : Bytes) (e : PeerEntry P) (m : Manager P)
      → lookup id m.peers ≡ some e
      → m.is_client ≡ false
      → e.relay_conn ≡ some r
      → (let n = direct_closed c id (handle_direct_connect d id m) in
          (active_of (lookup id n.peers) ≡ some (relay r))
          × (on_direct_path (lookup id n.peers) ≡ false)
          × (n.closed ≡ m.closed))
  unfolding install_direct
  direct_closed-replaced c d r id e m found proxy live =
      let e' : PeerEntry P = record e {
        has_direct_path = true;
        peer = mion.set_conn (direct d) e.peer;
      } in
      let m' : Manager P = install_direct id d e m in
      let got =
        direct_closed-restores c r id e' m' (lookup-insert_self id e' m.peers) refl proxy live in
      rw (handle_direct_connect-some d id e m found) (got.0, got.1, got.2)

  pub handle_incoming-installs :
      (c : ℕ) (id : Bytes) (e : PeerEntry P) (m : Manager P)
      → lookup id m.peers ≡ some e
      → (let n = handle_incoming (some c) id m in
          (active_of (lookup id n.peers) ≡ some (relay c))
          × (on_direct_path (lookup id n.peers) ≡ e.has_direct_path))
  unfolding handle_incoming install_relay
  handle_incoming-installs c id e m found =
      let e' : PeerEntry P = record e {
        relay_conn = some c;
        peer = mion.set_conn (relay c) e.peer;
      } in
      let m' : Manager P = put id e' m in
      let there : lookup id (close_relay e.relay_conn m').peers ≡ some e' =
        ap (lookup id) (peers-close_relay e.relay_conn m') ∙ lookup-insert_self id e' m.peers in
      rw (found, handle_incoming)
        (ap active_of there ∙ mion.active-set_conn (relay c) e.peer, ap on_direct_path there)

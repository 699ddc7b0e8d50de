-- ===== src/Manager/Switching.antt =====
-- internal/manager/manager.go: a peer's way between its relay path and its direct path.
use malon.Base.{
  if_both, ℕ, ◌≡◌, refl, ap, ◌∙◌, ◌∷◌, Bytes, arith, true, false, Option, none, some, Bool,
}
use malon.Base.Keys.{bytes_eq, lookup, lookup-insert_self}
use malon.Manager.{
  MionPeer, Manager, PeerEntry, PeerPath, relay, direct, put, close_path, promote, promote_entry,
  install_direct, fallback_to_relay, fallback_entry, start_retry, direct_closed,
}
use malon.Manager.Retries.{flagged, direct_closed-Counted}
use malon.Manager.Steps.{Reach, Reach-Counted}

-- The connection that packets for a peer go out on.
abbrev pub active_of : {P : Type 0} → ⦃mion : MionPeer P⦄ → Option (PeerEntry P) → Option PeerPath
active_of none = none
active_of ⦃mion⦄ (some e) = mion.active e.peer

abbrev pub on_direct_path : {P : Type 0} → Option (PeerEntry P) → Bool
on_direct_path none = false
on_direct_path (some e) = e.has_direct_path

module _ {P : Type 0} ⦃mion : MionPeer P⦄ where
  pub promote-some :
      (c : ℕ) (id : Bytes) (e : PeerEntry P) (m : Manager P)
      → lookup id m.peers ≡ some e
      → promote c id m ≡ promote_entry c id e m
  unfolding promote
  promote-some c id e m at = rw (at, promote) refl

  -- The first of two promotions makes its connection the active one; the second, which
  -- was dialling meanwhile, closes its own connection and changes nothing else.
  pub promote-promote :
      (c d : ℕ) (id : Bytes) (e : PeerEntry P) (m : Manager P)
      → lookup id m.peers ≡ some e
      → e.has_direct_path ≡ false
      → (active_of (lookup id (promote c id m).peers) ≡ some (direct c))
        × (promote d id (promote c id m) ≡ close_path (direct d) (promote c id m))
  unfolding promote_entry install_direct
  promote-promote c d id e m at off =
      let e' : PeerEntry P = record e {
        has_direct_path = true;
        peer = mion.set_conn (direct c) e.peer;
      } in
      let first : promote c id m ≡ install_direct id c e m =
        promote-some c id e m at ∙ rw off refl in
      let there : lookup id (promote c id m).peers ≡ some e' =
        rw first (lookup-insert_self id e' m.peers) in
      (
        ap active_of there ∙ mion.active-set_conn (direct c) e.peer,
        promote-some d id e' (promote c id m) there,
      )

  -- What direct_closed does to an entry with a direct path.
  pub direct_closed-some :
      (c : ℕ) (id : Bytes) (e : PeerEntry P) (m : Manager P)
      → lookup id m.peers ≡ some e
      → (let e' : PeerEntry P = record e { peer = mion.clear_conn_if (direct c) e.peer } in
          direct_closed c id m ≡ fallback_entry id e' (put id e' m))
  unfolding direct_closed fallback_to_relay
  direct_closed-some c id e m at =
      let e' : PeerEntry P = record e { peer = mion.clear_conn_if (direct c) e.peer } in
      rw (at, direct_closed) (rw (lookup-insert_self id e' m.peers, fallback_to_relay) refl)

  -- On the proxy's side, when the direct connection of a peer is closed and the relay connection is
  -- still there, the relay connection is the active one again, the flag is cleared, and no
  -- connection is closed and no goroutine started.
  pub direct_closed-restores :
      (c r : ℕ) (id : Bytes) (e : PeerEntry P) (m : Manager P)
      → lookup id m.peers ≡ some e
      → e.has_direct_path ≡ true
      → m.is_client ≡ false
      → e.relay_conn ≡ some r
      → (let n = direct_closed c id m in
          (active_of (lookup id n.peers) ≡ some (relay r))
          × (on_direct_path (lookup id n.peers) ≡ false)
          × (n.closed ≡ m.closed)
          × (n.started ≡ m.started))
  unfolding fallback_entry
  direct_closed-restores c r id e m at on proxy live =
      let e' : PeerEntry P = record e { peer = mion.clear_conn_if (direct c) e.peer } in
      let e'' : PeerEntry P = record e' {
        has_direct_path = false;
        peer = mion.set_conn (relay r) e'.peer;
      } in
      let is : direct_closed c id m ≡ put id e'' (put id e' m) =
        direct_closed-some c id e m at ∙ rw (on, proxy, live) refl in
      let there : lookup id (direct_closed c id m).peers ≡ some e'' =
        rw is (lookup-insert_self id e'' (put id e' m).peers) in
      (
        ap active_of there ∙ mion.active-set_conn (relay r) e'.peer,
        ap on_direct_path there,
        ap (λ n. n.closed) is,
        ap (λ n. n.started) is,
      )

  pub start_retry-flagged :
      (id : Bytes) (e : PeerEntry P) (m : Manager P)
      → flagged (lookup id (start_retry id e m).peers) ≡ 1
  unfolding start_retry
  start_retry-flagged id e m = ground (
    arith,
    lookup-insert_self id e m.peers,
    lookup-insert_self id (record e { retrying_conn = true }) m.peers,
  )

  closed-start_retry :
      (id : Bytes) (e : PeerEntry P) (m : Manager P) → (start_retry id e m).closed ≡ m.closed
  unfolding start_retry
  closed-start_retry id e m =
      if_both (λ (n : Manager P). n.closed ≡ m.closed) e.retrying_conn refl refl

  -- On the client's side, in every state that the handlers reach, when the direct connection of a
  -- peer is closed then the peer's old relay connection is closed and forgotten, and exactly one
  -- `retryConnectPeer` goroutine is running to replace it.
  pub direct_closed-retries :
      (c r : ℕ) (id : Bytes) (e : PeerEntry P) (m : Manager P)
      → Reach m
      → lookup id m.peers ≡ some e
      → e.has_direct_path ≡ true
      → m.is_client ≡ true
      → e.relay_conn ≡ some r
      → (let n = direct_closed c id m in (n.retries id ≡ 1) × (n.closed ≡ relay r ∷ m.closed))
  unfolding fallback_entry start_retry
  direct_closed-retries c r id e m reach at on client live =
      let e' : PeerEntry P = record e { peer = mion.clear_conn_if (direct c) e.peer } in
      let e'' : PeerEntry P = record e' { has_direct_path = false; relay_conn = none } in
      let is : direct_closed c id m ≡ start_retry id e'' (close_path (relay r) (put id e' m)) =
        direct_closed-some c id e m at ∙ rw (on, client, live) refl in
      let counted = direct_closed-Counted c id m (Reach-Counted reach) id in
      (
        counted ∙ rw is (start_retry-flagged id e'' _),
        ap (λ n. n.closed) is ∙ closed-start_retry id e'' _,
      )

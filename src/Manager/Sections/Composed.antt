-- ===== src/Manager/Sections/Composed.antt =====
-- internal/manager/manager.go: the handlers of the manager as sequences of their sections.
use text.Mathlib.Text.{◌==◌ as str_eq}
use malon.Base.{
  errorf, ℕ, ◌+◌, ◌≡◌, refl, sym, ap, ◌∙◌, true, false, not, Option, none, some, Bytes, List, ◌∷◌,
  if◌then◌else◌, Bool-cases, inl, inr,
}
use malon.Base.Tests.{if_congr, if_under}
use malon.Base.Keys.{
  bytes_eq, lookup, insert, delete, lookup-insert_self, lookup-delete_self, delete_absent, beq_refl,
}
use malon.Manager.{
  MionPeer, Manager, PeerEntry, relay, direct, put, start, close_path, close_relay, install_relay,
  install_direct, promote, promote_entry, start_retry, fallback_to_relay, fallback_entry,
  connect_peer, connect_entry, handle_incoming, handle_direct_connect, direct_closed, relay_closed,
  get_or_create_proxy, retry_connect_peer, restore, control_read_loop, send_candidates,
  forward_conn_to_tun, forward_direct_conn_to_tun,
}
use malon.Manager.Retrying.{retry_one}
use malon.Manager.Entries.{peers-get_or_create_proxy}
use malon.Manager.Sections.{
  change, relay_conn_of, put_relay, mark_direct, try_mark, unmark, take_relay, claim_retry,
  set_active, clear_active, replaced, accept_relay, taken_up, accept_direct, accept_promoted,
  restored, dropped, unmarked, fall_back,
}

module _ {P : Type 0} where
  -- The last of two entries for one peer stays.
  insert-insert :
      (id : Bytes) (e e' : PeerEntry P) (es : List (Bytes × PeerEntry P))
      → insert id e' (insert id e es) ≡ insert id e' es
  unfolding insert delete
  insert-insert id e e' es =
      rw (beq_refl id)
        (ap (λ x. (id, e') ∷ x) (delete_absent id (delete id es) (lookup-delete_self id es)))

  change-some :
      (f : PeerEntry P → PeerEntry P) (id : Bytes) (e : PeerEntry P) (m : Manager P)
      → lookup id m.peers ≡ some e
      → change f id m ≡ put id (f e) m
  change-some f id e m at = rw (at, change) refl

  change-put :
      (f : PeerEntry P → PeerEntry P) (id : Bytes) (e : PeerEntry P) (m : Manager P)
      → change f id (put id e m) ≡ put id (f e) m
  change-put f id e m =
      change-some f id e (put id e m) (lookup-insert_self id e m.peers)
      ∙ ap (λ es. record m { peers = es }) (insert-insert id e (f e) m.peers)

  -- The old connection is closed before or after.
  change-close_relay :
      (f : PeerEntry P → PeerEntry P) (k : Option ℕ) (id : Bytes) (e : PeerEntry P) (m : Manager P)
      → change f id (close_relay k (put id e m)) ≡ close_relay k (put id (f e) m)
  change-close_relay f none id e m = change-put f id e m
  change-close_relay f (some c) id e m = change-put f id e (close_path (relay c) m)

module _ {P : Type 0} ⦃mion : MionPeer P⦄ where
  put_relay-some :
      (c : ℕ) (id : Bytes) (e : PeerEntry P) (m : Manager P)
      → lookup id m.peers ≡ some e
      → put_relay c id m ≡ (put id (record e { relay_conn = some c }) m, e.relay_conn)
  unfolding put_relay
  put_relay-some c id e m at =
      ap (λ x. (x, relay_conn_of (lookup id m.peers)))
        (change-some (λ x. record x { relay_conn = some c }) id e m at)
      ∙ ap (λ o. (put id (record e { relay_conn = some c }) m, relay_conn_of o)) at

  accept_relay-some :
      (c : ℕ) (id : Bytes) (e : PeerEntry P) (m : Manager P)
      → lookup id m.peers ≡ some e
      → accept_relay c id m ≡ install_relay id c e m
  unfolding accept_relay set_active install_relay
  accept_relay-some c id e m at =
      ap (replaced c id) (put_relay-some c id e m at)
      ∙ ap
          (λ n.
            start (control_read_loop id c)
              (start (send_candidates id c) (start (forward_conn_to_tun id c) n)))
          (change-close_relay (λ x. record x { peer = mion.set_conn (relay c) x.peer }) e.relay_conn
            id (record e { relay_conn = some c }) m)

  taken_up-put :
      (c : ℕ) (id : Bytes) (e : PeerEntry P) (m : Manager P)
      → taken_up c id (put id (record e { has_direct_path = true }) m) ≡ install_direct id c e m
  unfolding set_active install_direct
  taken_up-put c id e m = ap (start (forward_direct_conn_to_tun id c)) (
      change-put (λ x. record x { peer = mion.set_conn (direct c) x.peer }) id
        (record e { has_direct_path = true }) m)

  accept_direct-some :
      (c : ℕ) (id : Bytes) (e : PeerEntry P) (m : Manager P)
      → lookup id m.peers ≡ some e
      → accept_direct c id m ≡ install_direct id c e m
  unfolding accept_direct mark_direct
  accept_direct-some c id e m at = rw (at, change) (taken_up-put c id e m)

  accept_promoted-some :
      (c : ℕ) (id : Bytes) (e : PeerEntry P) (m : Manager P)
      → lookup id m.peers ≡ some e
      → accept_promoted c id m ≡ promote_entry c id e m
  unfolding accept_promoted try_mark promote_entry install_direct
  accept_promoted-some c id e m at = elim (Bool-cases e.has_direct_path) [
    | inl on ↦ rw (at, try_mark, on) refl
    | inr off ↦ rw (at, try_mark, off) (taken_up-put c id e m)
  ]

  put-put : (id : Bytes) (e e' : PeerEntry P) (m : Manager P) → put id e' (put id e m) ≡ put id e' m
  put-put id e e' m = ap (λ es. record m { peers = es }) (insert-insert id e e' m.peers)

  start_retry-put :
      (id : Bytes) (e e' : PeerEntry P) (m : Manager P)
      → start_retry id e' (put id e m) ≡ start_retry id e' m
  unfolding start_retry
  start_retry-put id e e' m = if_congr e'.retrying_conn (put-put id e e' m) (
      ap (start (retry_connect_peer id)) (
        put-put id e (record e' { retrying_conn = true })
          (record m { retries = λ j. if bytes_eq.beq id j then m.retries j + 1 else m.retries j })))

  start_retry-close_relay :
      (k : Option ℕ) (id : Bytes) (e e' : PeerEntry P) (m : Manager P)
      → start_retry id e' (close_relay k (put id e m)) ≡ start_retry id e' (close_relay k m)
  start_retry-close_relay none id e e' m = start_retry-put id e e' m
  start_retry-close_relay (some c) id e e' m = start_retry-put id e e' (close_path (relay c) m)

  claim_retry-some :
      (id : Bytes) (e : PeerEntry P) (m : Manager P)
      → lookup id m.peers ≡ some e
      → claim_retry id m ≡ start_retry id e m
  unfolding claim_retry
  claim_retry-some id e m at = ap (λ o. retry_one id o m) at

  lookup-close_relay :
      (k : Option ℕ) (id : Bytes) (e : PeerEntry P) (m : Manager P)
      → lookup id (close_relay k (put id e m)).peers ≡ some e
  lookup-close_relay none id e m = lookup-insert_self id e m.peers
  lookup-close_relay (some c) id e m = lookup-insert_self id e m.peers

  take_relay-put :
      (id : Bytes) (e : PeerEntry P) (m : Manager P)
      → take_relay id (put id e m) ≡ (put id (record e { relay_conn = none }) m, e.relay_conn)
  unfolding take_relay
  take_relay-put id e m =
      ap (λ x. (x, relay_conn_of (lookup id (put id e m).peers)))
        (change-put (λ x. record x { relay_conn = none }) id e m)
      ∙ ap (λ o. (put id (record e { relay_conn = none }) m, relay_conn_of o))
          (lookup-insert_self id e m.peers)

  -- What a client does once the flag is cleared.
  dropped-put :
      (id : Bytes) (e : PeerEntry P) (m : Manager P)
      → dropped id (take_relay id (put id e m))
        ≡ start_retry id (record e { relay_conn = none }) (close_relay e.relay_conn m)
  dropped-put id e m =
      let e' : PeerEntry P = record e { relay_conn = none } in
      ap (dropped id) (take_relay-put id e m)
      ∙ claim_retry-some id e' (close_relay e.relay_conn (put id e' m))
          (lookup-close_relay e.relay_conn id e' m)
      ∙ start_retry-close_relay e.relay_conn id e' e' m

  restored-put :
      (k : Option ℕ) (id : Bytes) (e : PeerEntry P) (m : Manager P)
      → restored k id (put id e m) ≡ put id (record e { peer = restore k e.peer }) m
  unfolding set_active
  restored-put none id e m = refl
  restored-put (some c) id e m =
      change-put (λ x. record x { peer = mion.set_conn (relay c) x.peer }) id e m

  fall_back-some :
      (id : Bytes) (e : PeerEntry P) (m : Manager P)
      → lookup id m.peers ≡ some e
      → fall_back id m ≡ fallback_entry id e m
  unfolding fall_back unmark fallback_entry
  fall_back-some id e m at =
      let off : PeerEntry P = record e { has_direct_path = false } in
      let n = put id off m in
      rw (at, unmark)
        (if_under (unmarked id) (not e.has_direct_path) refl (
          if_congr (not m.is_client)
            (ap (λ o. restored (relay_conn_of o) id n) (lookup-insert_self id off m.peers)
              ∙ restored-put e.relay_conn id off m)
            (dropped-put id off m)))

  -- For a registered peer, each handler with nobody between its sections does what the model does in one step: the
  -- end of connectPeerWithCtx and of handleIncoming, handleDirectConnect, tryPromotePath after its dial,
  -- fallbackToRelay, and the ends of the two goroutines that read a connection.
  handlers-composed :
      (c : ℕ) (id : Bytes) (e : PeerEntry P) (m : Manager P)
      → lookup id m.peers ≡ some e
      → (connect_peer (some c) id m ≡ (
          if str_eq e.relay_url ""
          then (m, some (errorf "manager: peer has no relay URL configured"))
          else (accept_relay c id (get_or_create_proxy e.relay_url m), none)))
        × (handle_incoming (some c) id m ≡ accept_relay c id m)
        × (handle_direct_connect c id m ≡ accept_direct c id m)
        × (promote c id m ≡ accept_promoted c id m)
        × (fallback_to_relay id m ≡ fall_back id m)
        × (direct_closed c id m ≡ fall_back id (clear_active (direct c) id m))
        × (relay_closed c id m ≡ clear_active (relay c) id m)
  unfolding connect_peer connect_entry handle_incoming handle_direct_connect promote
      fallback_to_relay direct_closed relay_closed clear_active
  handlers-composed c id e m at =
      let gone : PeerEntry P = record e { peer = mion.clear_conn_if (direct c) e.peer } in
      let falls : (x : PeerEntry P) (n : Manager P)
          → lookup id n.peers ≡ some x
          → fallback_to_relay id n ≡ fall_back id n =
        λ x n there. rw (there, fallback_to_relay) (sym (fall_back-some id x n there)) in
      (
        rw (at, connect_peer)
            (if_congr (str_eq e.relay_url "") refl (
              ap (λ n. (n, none))
                (sym (
                  accept_relay-some c id e (get_or_create_proxy e.relay_url m)
                    (ap (lookup id) (peers-get_or_create_proxy e.relay_url m) ∙ at))))),
        rw (at, handle_incoming) (sym (accept_relay-some c id e m at)),
        rw (at, handle_direct_connect) (sym (accept_direct-some c id e m at)),
        rw (at, promote) (sym (accept_promoted-some c id e m at)),
        falls e m at,
        rw (at, direct_closed, change)
            (falls gone (put id gone m) (lookup-insert_self id gone m.peers)),
        rw (at, relay_closed, change) refl,
      )

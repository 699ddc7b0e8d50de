-- ===== src/Manager/Retries.antt =====
-- internal/manager/manager.go: the number of `retryConnectPeer` goroutines of a peer, against the flag
-- in its entry.
use text.Mathlib.Text.{◌==◌ as str_eq}
use malon.Base.{
  if_both, ℕ, ◌≤◌, ◌≡◌, refl, sym, ap, ◌∙◌, [], ◌∷◌, Bytes, List, Error, String, if◌then◌else◌,
  arith, inl, inr, true, false, not, Option, none, some, Option-cases,
}
use malon.Base.Keys.{bytes_eq, bytes_beq_iff, lookup, lookup-insert}
use malon.Manager.{
  MionPeer, Manager, PeerEntry, get_or_create_proxy, put, close_relay, install_relay, shaken,
  connect_entry, connect_peer, promote_entry, fallback_entry, handle_incoming, install_direct,
  handle_direct_connect, promote, start_retry, fallback_to_relay, direct_closed, relay_closed,
  forget_relay, ids_of, relay,
}
use malon.Manager.Retrying.{retry_one, retry_each, setup_relay_peers, retry_stopped}
use malon.Manager.Entries.{peers-get_or_create_proxy}

-- The number of goroutines that the flag of an entry stands for.
abbrev pub flagged : {P : Type 0} → Option (PeerEntry P) → ℕ
flagged none = 0
flagged (some e) = if e.retrying_conn then 1 else 0

abbrev pub Counted : {P : Type 0} → Manager P → Type 0
Counted m = (id : Bytes) → m.retries id ≡ flagged (lookup id m.peers)

module _ {P : Type 0} where
  -- An entry may change in any field but the flag.
  pub put-Counted :
      (id : Bytes) (e e' : PeerEntry P) (m : Manager P)
      → lookup id m.peers ≡ some e
      → e'.retrying_conn ≡ e.retrying_conn
      → Counted m
      → Counted (put id e' m)
  put-Counted id e e' m at same c j =
      ground (arith, c j, lookup-insert id j e' m.peers, bytes_beq_iff id j)

  pub forget_relay-flagged :
      (u : String) (es : List (Bytes × PeerEntry P)) (id : Bytes)
      → flagged (lookup id (forget_relay u es)) ≡ flagged (lookup id es)
  unfolding forget_relay lookup
  forget_relay-flagged u [] id = refl
  forget_relay-flagged u ((j, e) ∷ es) id = ground (arith, forget_relay-flagged u es id)

module _ {P : Type 0} where
  pub peers-close_relay : (k : Option ℕ) (m : Manager P) → (close_relay k m).peers ≡ m.peers
  peers-close_relay none m = refl
  peers-close_relay (some k) m = refl

  close_relay-Counted : (k : Option ℕ) (m : Manager P) → Counted m → Counted (close_relay k m)
  close_relay-Counted none m c = c
  close_relay-Counted (some k) m c = c

  pub proxy-Counted : (u : String) (m : Manager P) → Counted m → Counted (get_or_create_proxy u m)
  unfolding get_or_create_proxy
  proxy-Counted u m c j = ground (arith, c j)

module _ {P : Type 0} ⦃mion : MionPeer P⦄ where
  pub start_retry-Counted :
      (id : Bytes) (e e' : PeerEntry P) (m : Manager P)
      → lookup id m.peers ≡ some e
      → e'.retrying_conn ≡ e.retrying_conn
      → Counted m
      → Counted (start_retry id e' m)
  unfolding start_retry
  start_retry-Counted id e e' m at same c j = ground (
    arith,
    c j,
    lookup-insert id j e' m.peers,
    lookup-insert id j (record e' { retrying_conn = true }) m.peers,
    bytes_beq_iff id j,
  )

  install_relay-Counted :
      (id : Bytes) (k : ℕ) (e : PeerEntry P) (m : Manager P)
      → lookup id m.peers ≡ some e
      → Counted m
      → Counted (install_relay id k e m)
  unfolding install_relay
  install_relay-Counted id k e m at c =
      close_relay-Counted e.relay_conn
        (put id (record e { relay_conn = some k; peer = mion.set_conn (relay k) e.peer }) m)
        (put-Counted id e _ m at refl c)

  shaken-Counted :
      (h : Option ℕ) (id : Bytes) (x : PeerEntry P) (m : Manager P)
      → lookup id m.peers ≡ some x
      → Counted m
      → Counted (shaken h id x m).0
  shaken-Counted none id x m e c = c
  shaken-Counted (some k) id x m e c = install_relay-Counted id k x m e c

  connect_entry-Counted :
      (h : Option ℕ) (id : Bytes) (x : PeerEntry P) (m : Manager P)
      → lookup id m.peers ≡ some x
      → Counted m
      → Counted (connect_entry h id x m).0
  unfolding connect_entry
  connect_entry-Counted h id x m e c =
      if_both (λ (r : Manager P × Option Error). Counted r.0) (str_eq x.relay_url "") c
        (shaken-Counted h id x (get_or_create_proxy x.relay_url m)
          (ap (lookup id) (peers-get_or_create_proxy x.relay_url m) ∙ e)
          (proxy-Counted x.relay_url m c))

  pub connect_peer-Counted :
      (h : Option ℕ) (id : Bytes) (m : Manager P) → Counted m → Counted (connect_peer h id m).0
  unfolding connect_peer
  connect_peer-Counted h id m c = elim (Option-cases (lookup id m.peers)) [
    | inl e ↦ rw (e, connect_peer) c
    | inr (x, e) ↦ rw (e, connect_peer) (connect_entry-Counted h id x m e c)
  ]

  pub handle_incoming-Counted :
      (h : Option ℕ) (id : Bytes) (m : Manager P) → Counted m → Counted (handle_incoming h id m)
  unfolding handle_incoming
  handle_incoming-Counted none id m c = elim (Option-cases (lookup id m.peers)) [
    | inl e ↦ rw (e, handle_incoming) c
    | inr (x, e) ↦ rw (e, handle_incoming) c
  ]
  handle_incoming-Counted (some k) id m c = elim (Option-cases (lookup id m.peers)) [
    | inl e ↦ rw (e, handle_incoming) c
    | inr (x, e) ↦ rw (e, handle_incoming) (install_relay-Counted id k x m e c)
  ]

  install_direct-Counted :
      (k : ℕ) (id : Bytes) (x : PeerEntry P) (m : Manager P)
      → lookup id m.peers ≡ some x
      → Counted m
      → Counted (install_direct id k x m)
  unfolding install_direct
  install_direct-Counted k id x m e c = put-Counted id x _ m e refl c

  pub handle_direct_connect-Counted :
      (k : ℕ) (id : Bytes) (m : Manager P) → Counted m → Counted (handle_direct_connect k id m)
  unfolding handle_direct_connect
  handle_direct_connect-Counted k id m c = elim (Option-cases (lookup id m.peers)) [
    | inl e ↦ rw (e, handle_direct_connect) c
    | inr (x, e) ↦ rw (e, handle_direct_connect) (install_direct-Counted k id x m e c)
  ]

  pub promote-Counted : (k : ℕ) (id : Bytes) (m : Manager P) → Counted m → Counted (promote k id m)
  unfolding promote promote_entry
  promote-Counted k id m c = elim (Option-cases (lookup id m.peers)) [
    | inl e ↦ rw (e, promote) c
    | inr (x, e) ↦
        rw (e, promote) (if_both Counted x.has_direct_path c (install_direct-Counted k id x m e c))
  ]

  fallback_entry-Counted :
      (id : Bytes) (x : PeerEntry P) (m : Manager P)
      → lookup id m.peers ≡ some x
      → Counted m
      → Counted (fallback_entry id x m)
  unfolding fallback_entry
  fallback_entry-Counted id x m e c = if_both Counted (not x.has_direct_path) c (
      if_both Counted (not m.is_client) (put-Counted id x _ m e refl c) (
        start_retry-Counted id x _ (close_relay x.relay_conn m)
          (ap (lookup id) (peers-close_relay x.relay_conn m) ∙ e) refl
          (close_relay-Counted x.relay_conn m c)))

  pub fallback_to_relay-Counted :
      (id : Bytes) (m : Manager P) → Counted m → Counted (fallback_to_relay id m)
  unfolding fallback_to_relay
  fallback_to_relay-Counted id m c = elim (Option-cases (lookup id m.peers)) [
    | inl e ↦ rw (e, fallback_to_relay) c
    | inr (x, e) ↦ rw (e, fallback_to_relay) (fallback_entry-Counted id x m e c)
  ]

  pub direct_closed-Counted :
      (k : ℕ) (id : Bytes) (m : Manager P) → Counted m → Counted (direct_closed k id m)
  unfolding direct_closed
  direct_closed-Counted k id m c = elim (Option-cases (lookup id m.peers)) [
    | inl e ↦ rw (e, direct_closed) c
    | inr (x, e) ↦
        rw (e, direct_closed) (fallback_to_relay-Counted id _ (put-Counted id x _ m e refl c))
  ]

  pub relay_closed-Counted :
      (k : ℕ) (id : Bytes) (m : Manager P) → Counted m → Counted (relay_closed k id m)
  unfolding relay_closed
  relay_closed-Counted k id m c = elim (Option-cases (lookup id m.peers)) [
    | inl e ↦ rw (e, relay_closed) c
    | inr (x, e) ↦ rw (e, relay_closed) (put-Counted id x _ m e refl c)
  ]

  pub retry_one-Counted :
      (id : Bytes) (o : Option (PeerEntry P)) (m : Manager P)
      → lookup id m.peers ≡ o
      → Counted m
      → Counted (retry_one id o m)
  retry_one-Counted id none m e c = c
  retry_one-Counted id (some x) m e c = start_retry-Counted id x x m e refl c

  retry_each-Counted : (ids : List Bytes) (m : Manager P) → Counted m → Counted (retry_each ids m)
  unfolding retry_each
  retry_each-Counted [] m c = c
  retry_each-Counted (id ∷ ids) m c =
      retry_each-Counted ids (retry_one id (lookup id m.peers) m)
        (retry_one-Counted id (lookup id m.peers) m refl c)

  pub setup_relay_peers-Counted :
      (u : String) (m : Manager P) → Counted m → Counted (setup_relay_peers u m)
  unfolding setup_relay_peers
  setup_relay_peers-Counted u m c =
      let m' : Manager P = record m { peers = forget_relay u m.peers } in
      let c' : Counted m' = λ id. c id ∙ sym (forget_relay-flagged u m.peers id) in
      if_both Counted m.is_client (retry_each-Counted (ids_of u m.peers) m' c') c'

  pub retry_stopped-Counted :
      (id : Bytes) (m : Manager P) → 1 ≤ m.retries id → Counted m → Counted (retry_stopped id m)
  unfolding retry_stopped
  retry_stopped-Counted id m r c = elim (Option-cases (lookup id m.peers)) [
    | inl e ↦ absurd (ground (arith, c id))
    | inr (x, e) ↦
        rw (e, retry_stopped)
          λ j. ground (
            arith,
            c j,
            c id,
            lookup-insert id j (record x { retrying_conn = false }) m.peers,
            bytes_beq_iff id j,
          )
  ]

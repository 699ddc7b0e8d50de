-- ===== src/Manager/Steps.antt =====
-- What can happen to the manager, one handler at a time, in any order.
use malon.Base.{
  is_some, if_both, ℕ, ◌≤◌, ◌≡◌, refl, sym, ap, ◌∙◌, [], Bytes, Error, String, arith, inl, inr,
  false, not, ◌&&◌, ◌||◌, Option, none, some, Option-cases, Bool,
}
use malon.Base.Keys.{bytes_eq, bytes_beq_iff, lookup, lookup-insert}
use text.Mathlib.Text.{◌==◌ as str_eq}
use malon.Manager.{
  MionPeer, Manager, PeerEntry, register_peer, get_or_create_proxy, put, close_relay, install_relay,
  shaken, connect_entry, connect_peer, handle_incoming, handle_direct_connect, promotes, promote,
  fallback_to_relay, direct_closed, relay_closed,
}
use malon.Manager.Retrying.{
  setup_relay_peers, retry_round, retry_entry, after_connect, Retry, stops, goes_on,
}
use malon.Manager.Retries.{
  flagged, Counted, proxy-Counted, handle_incoming-Counted, connect_peer-Counted,
  handle_direct_connect-Counted, promote-Counted, fallback_to_relay-Counted, direct_closed-Counted,
  relay_closed-Counted, setup_relay_peers-Counted, retry_stopped-Counted,
}

abbrev pub carried : {P : Type 0} → Retry P → Manager P
carried (stops m) = m
carried (goes_on m) = m

-- No peer is registered and no goroutine runs, as New leaves it.
pub record IsNew {P : Type 0} (m : Manager P) : Type 0 where
  pub no_peers : m.peers ≡ []
  pub no_retries : (id : Bytes) → m.retries id ≡ 0

pub data Step {P : Type 0} ⦃mion : MionPeer P⦄ : Manager P → Manager P → Type 0 where
  registered : (id : Bytes) (p : P) (u : String) (m : Manager P) → Step m (register_peer id p u m).0
  connected : (h : Option ℕ) (id : Bytes) (m : Manager P) → Step m (connect_peer h id m).0
  incoming : (h : Option ℕ) (id : Bytes) (m : Manager P) → Step m (handle_incoming h id m)
  direct_connect : (c : ℕ) (id : Bytes) (m : Manager P) → Step m (handle_direct_connect c id m)
  looked : (id : Bytes) (m : Manager P) → Step m (promotes id m).1
  promoted : (c : ℕ) (id : Bytes) (m : Manager P) → Step m (promote c id m)
  fell_back : (id : Bytes) (m : Manager P) → Step m (fallback_to_relay id m)
  direct_lost : (c : ℕ) (id : Bytes) (m : Manager P) → Step m (direct_closed c id m)
  relay_lost : (c : ℕ) (id : Bytes) (m : Manager P) → Step m (relay_closed c id m)
  relay_reconnected : (u : String) (m : Manager P) → Step m (setup_relay_peers u m)
  retried :
      (ctx_done relay_up : Bool) (h : Option ℕ) (id : Bytes) (m : Manager P)
      → 1 ≤ m.retries id
      → Step m (carried (retry_round ctx_done relay_up h id m))

pub data Reach {P : Type 0} ⦃mion : MionPeer P⦄ : Manager P → Type 0 where
  begins : (m : Manager P) → IsNew m → Reach m
  followed_by : {m n : Manager P} → Reach m → Step m n → Reach n

module _ {P : Type 0} where
  pub register_peer-Counted :
      (id : Bytes) (p : P) (u : String) (m : Manager P)
      → Counted m
      → Counted (register_peer id p u m).0
  unfolding register_peer
  register_peer-Counted id p u m c = elim (Option-cases (lookup id m.peers)) [
    | inr (x, e) ↦ rw (e, register_peer) c
    | inl e ↦
        let x : PeerEntry P = record {
          peer = p;
          relay_url = u;
          relay_conn = none;
          has_direct_path = false;
          retrying_conn = false;
        } in
        let d : Counted (put id x m) =
          λ j. ground (arith, c j, lookup-insert id j x m.peers, bytes_beq_iff id j) in
        rw (e, register_peer) (if_both Counted (str_eq u "") d (proxy-Counted u (put id x m) d))
  ]

  retries-proxy : (u : String) (m : Manager P) → (get_or_create_proxy u m).retries ≡ m.retries
  unfolding get_or_create_proxy
  retries-proxy u m = if_both (λ (x : Manager P). x.retries ≡ m.retries) _ refl refl

  retries-close_relay : (k : Option ℕ) (m : Manager P) → (close_relay k m).retries ≡ m.retries
  retries-close_relay none m = refl
  retries-close_relay (some k) m = refl

module _ {P : Type 0} ⦃mion : MionPeer P⦄ where
  retries-shaken :
      (h : Option ℕ) (id : Bytes) (x : PeerEntry P) (m : Manager P)
      → (shaken h id x m).0.retries ≡ m.retries
  unfolding install_relay
  retries-shaken none id x m = refl
  retries-shaken (some k) id x m = retries-close_relay x.relay_conn _

  retries-connect_peer :
      (h : Option ℕ) (id : Bytes) (m : Manager P) → (connect_peer h id m).0.retries ≡ m.retries
  unfolding connect_peer connect_entry
  retries-connect_peer h id m = elim (Option-cases (lookup id m.peers)) [
    | inl e ↦ rw (e, connect_peer) refl
    | inr (x, e) ↦
        rw (e, connect_peer)
          (if_both (λ (r : Manager P × Option Error). r.0.retries ≡ m.retries)
            (str_eq x.relay_url "") refl (retries-shaken h id x _ ∙ retries-proxy x.relay_url m))
  ]

  after_connect-Counted :
      (id : Bytes) (r : Manager P × Option Error)
      → 1 ≤ r.0.retries id
      → Counted r.0
      → Counted (carried (after_connect id r))
  after_connect-Counted id (m, none) l c = retry_stopped-Counted id m l c
  after_connect-Counted id (m, some e) l c = c

  tried-Counted :
      (h : Option ℕ) (id : Bytes) (m : Manager P)
      → 1 ≤ m.retries id
      → Counted m
      → Counted (carried (after_connect id (connect_peer h id m)))
  tried-Counted h id m l c =
      after_connect-Counted id (connect_peer h id m) (rw (retries-connect_peer h id m) l)
        (connect_peer-Counted h id m c)

  retry_entry-Counted :
      (up : Bool) (h : Option ℕ) (id : Bytes) (m : Manager P) (o : Option (PeerEntry P))
      → 1 ≤ m.retries id
      → Counted m
      → Counted (carried (retry_entry up h id m o))
  retry_entry-Counted up h id m none l c = tried-Counted h id m l c
  retry_entry-Counted up h id m (some x) l c =
      if_both (λ (r : Retry P). Counted (carried r)) (x.has_direct_path || is_some x.relay_conn)
        (retry_stopped-Counted id m l c)
        (if_both (λ (r : Retry P). Counted (carried r)) (not (str_eq x.relay_url "") && not up)
          (proxy-Counted x.relay_url m c) (tried-Counted h id m l c))

  pub promotes-Counted : (id : Bytes) (m : Manager P) → Counted m → Counted (promotes id m).1
  unfolding promotes
  promotes-Counted id m c =
      if_both (λ (r : Bool × Manager P). Counted r.1) (not m.has_direct_ln) c
        (elim (Option-cases (lookup id m.peers)) [ inl e ↦ rw e c | inr (x, e) ↦ rw e c ])

  Step-Counted : {m n : Manager P} → Step m n → Counted m → Counted n
  unfolding retry_round
  Step-Counted (registered id p u m) c = register_peer-Counted id p u m c
  Step-Counted (connected h id m) c = connect_peer-Counted h id m c
  Step-Counted (incoming h id m) c = handle_incoming-Counted h id m c
  Step-Counted (direct_connect k id m) c = handle_direct_connect-Counted k id m c
  Step-Counted (looked id m) c = promotes-Counted id m c
  Step-Counted (promoted k id m) c = promote-Counted k id m c
  Step-Counted (fell_back id m) c = fallback_to_relay-Counted id m c
  Step-Counted (direct_lost k id m) c = direct_closed-Counted k id m c
  Step-Counted (relay_lost k id m) c = relay_closed-Counted k id m c
  Step-Counted (relay_reconnected u m) c = setup_relay_peers-Counted u m c
  Step-Counted (retried done up h id m l) c =
      if_both (λ (r : Retry P). Counted (carried r)) (not m.is_client || done)
        (retry_stopped-Counted id m l c) (retry_entry-Counted up h id m (lookup id m.peers) l c)

  pub IsNew-Counted : (m : Manager P) → IsNew m → Counted m
  unfolding lookup
  IsNew-Counted m n id = n.no_retries id ∙ sym (ap (λ es. flagged (lookup id es)) n.no_peers)

  pub Reach-Counted : {m : Manager P} → Reach m → Counted m
  Reach-Counted (begins m n) = IsNew-Counted m n
  Reach-Counted (followed_by r s) = Step-Counted s (Reach-Counted r)

  pub flagged-le : (o : Option (PeerEntry P)) → flagged o ≤ 1
  flagged-le none = omega arith
  flagged-le (some e) = ground arith

  -- In every state that the handlers reach from a new manager, in any order, at most one
  -- `retryConnectPeer` goroutine runs for a peer.
  pub retries-le_one : {m : Manager P} → Reach m → (id : Bytes) → m.retries id ≤ 1
  retries-le_one {m} r id = rw (Reach-Counted r id) (flagged-le (lookup id m.peers))

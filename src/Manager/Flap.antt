-- ===== src/Manager/Flap.antt =====
-- internal/manager/manager.go: a relay connection that comes back (setupRelayPeers).
use malon.Base.{
  is_some, if_both, ◌≡◌, refl, sym, ap, ◌∙◌, [], ◌∷◌, Bytes, List, if◌then◌else◌, arith, Bool-cases,
  inl, inr, true, false, Option, none, some, Bool, String,
}
use malon.Base.Keys.{bytes_eq, bytes_beq_iff, lookup, insert, lookup-insert}
use text.Mathlib.Text.{◌==◌ as str_eq}
use malon.Manager.{MionPeer, Manager, PeerEntry, start_retry, forget_relay, ids_of}
use malon.Manager.Retrying.{retry_one, retry_each, setup_relay_peers}
use malon.Manager.Retries.{flagged, setup_relay_peers-Counted}
use malon.Manager.Steps.{Reach, Reach-Counted}
use malon.Manager.Switching.{start_retry-flagged}

abbrev pub forgotten : {P : Type 0} → String → PeerEntry P → PeerEntry P
forgotten u e = if str_eq e.relay_url u then record e { relay_conn = none } else e

-- An entry, up to the flag of its retry.
abbrev pub unflagged : {P : Type 0} → Option (PeerEntry P) → Option (PeerEntry P)
unflagged none = none
unflagged (some e) = some (record e { retrying_conn = false })

abbrev has_id : Bytes → List Bytes → Bool
has_id id [] = false
has_id id (j ∷ js) = let rest = has_id id js in if bytes_eq.beq j id then true else rest

abbrev pub forgotten_if : {P : Type 0} → String → Option (PeerEntry P) → Option (PeerEntry P)
forgotten_if u none = none
forgotten_if u (some e) = some (forgotten u e)

module _ {P : Type 0} where
  lookup-forget_relay :
      (u : String) (id : Bytes) (es : List (Bytes × PeerEntry P))
      → lookup id (forget_relay u es) ≡ forgotten_if u (lookup id es)
  unfolding forget_relay lookup
  lookup-forget_relay u id [] = refl
  lookup-forget_relay u id ((j, x) ∷ es) = elim (Bool-cases (bytes_eq.beq id j)) [
    | inl same ↦ rw same refl
    | inr other ↦ rw other (lookup-forget_relay u id es)
  ]

  has_id-ids_of :
      (u : String) (id : Bytes) (e : PeerEntry P) (es : List (Bytes × PeerEntry P))
      → lookup id es ≡ some e
      → str_eq e.relay_url u ≡ true
      → has_id id (ids_of u es) ≡ true
  unfolding ids_of lookup
  has_id-ids_of u id e [] found url = cc
  has_id-ids_of u id e ((j, x) ∷ es) found url =
      ground (arith, found, url, has_id-ids_of u id e es, bytes_beq_iff id j, bytes_beq_iff j id)

  is_some-unflagged : (o : Option (PeerEntry P)) → is_some (unflagged o) ≡ is_some o
  is_some-unflagged none = refl
  is_some-unflagged (some e) = refl

  unflagged-insert :
      (id j : Bytes) (e : PeerEntry P) (es : List (Bytes × PeerEntry P))
      → unflagged (lookup j es) ≡ unflagged (some e)
      → unflagged (lookup id (insert j e es)) ≡ unflagged (lookup id es)
  unflagged-insert id j e es same = elim (Bool-cases (bytes_eq.beq j id)) [
    | inl this ↦
        rw (lookup-insert j id e es, this)
          (sym same ∙ ap (λ i. unflagged (lookup i es)) ((bytes_beq_iff j id).0 this))
    | inr other ↦ rw (lookup-insert j id e es, other) refl
  ]

module _ {P : Type 0} ⦃mion : MionPeer P⦄ where
  unflagged-start_retry :
      (id j : Bytes) (e : PeerEntry P) (m : Manager P)
      → lookup j m.peers ≡ some e
      → unflagged (lookup id (start_retry j e m).peers) ≡ unflagged (lookup id m.peers)
  unfolding start_retry
  unflagged-start_retry id j e m found =
      if_both (λ (n : Manager P). unflagged (lookup id n.peers) ≡ unflagged (lookup id m.peers))
        e.retrying_conn (unflagged-insert id j e m.peers (ap unflagged found))
        (unflagged-insert id j (record e { retrying_conn = true }) m.peers (ap unflagged found))

  unflagged-retry_one :
      (id j : Bytes) (o : Option (PeerEntry P)) (m : Manager P)
      → lookup j m.peers ≡ o
      → unflagged (lookup id (retry_one j o m).peers) ≡ unflagged (lookup id m.peers)
  unflagged-retry_one id j none m found = refl
  unflagged-retry_one id j (some e) m found = unflagged-start_retry id j e m found

  unflagged-retry_each :
      (id : Bytes) (ids : List Bytes) (m : Manager P)
      → unflagged (lookup id (retry_each ids m).peers) ≡ unflagged (lookup id m.peers)
  unfolding retry_each
  unflagged-retry_each id [] m = refl
  unflagged-retry_each id (j ∷ js) m =
      unflagged-retry_each id js (retry_one j (lookup j m.peers) m)
      ∙ unflagged-retry_one id j (lookup j m.peers) m refl

  -- When a relay connection comes back, nothing in the table of peers changes but the flags of the
  -- retries and the relay connections of that relay's peers, which are forgotten: a peer keeps its
  -- active connection and its direct path.
  pub setup_relay_peers-keeps :
      (u : String) (id : Bytes) (m : Manager P)
      → unflagged (lookup id (setup_relay_peers u m).peers)
        ≡ unflagged (forgotten_if u (lookup id m.peers))
  unfolding setup_relay_peers
  setup_relay_peers-keeps u id m =
      let m' : Manager P = record m { peers = forget_relay u m.peers } in
      let kept : unflagged (lookup id m'.peers) ≡ unflagged (forgotten_if u (lookup id m.peers)) =
        ap unflagged (lookup-forget_relay u id m.peers) in
      if_both
        (λ (n : Manager P).
          unflagged (lookup id n.peers) ≡ unflagged (forgotten_if u (lookup id m.peers)))
        m.is_client (unflagged-retry_each id (ids_of u m.peers) m' ∙ kept) kept

  flagged-start_retry :
      (id j : Bytes) (e : PeerEntry P) (m : Manager P)
      → lookup j m.peers ≡ some e
      → flagged (lookup id m.peers) ≡ 1
      → flagged (lookup id (start_retry j e m).peers) ≡ 1
  unfolding start_retry
  flagged-start_retry id j e m at one = ground (
    arith,
    one,
    bytes_beq_iff j id,
    lookup-insert j id e m.peers,
    lookup-insert j id (record e { retrying_conn = true }) m.peers,
  )

  flagged-retry_one :
      (id j : Bytes) (o : Option (PeerEntry P)) (m : Manager P)
      → lookup j m.peers ≡ o
      → flagged (lookup id m.peers) ≡ 1
      → flagged (lookup id (retry_one j o m).peers) ≡ 1
  flagged-retry_one id j none m found one = one
  flagged-retry_one id j (some e) m found one = flagged-start_retry id j e m found one

  flagged-retry_each :
      (id : Bytes) (ids : List Bytes) (m : Manager P)
      → flagged (lookup id m.peers) ≡ 1
      → flagged (lookup id (retry_each ids m).peers) ≡ 1
  unfolding retry_each
  flagged-retry_each id [] m one = one
  flagged-retry_each id (j ∷ js) m one =
      flagged-retry_each id js (retry_one j (lookup j m.peers) m)
        (flagged-retry_one id j (lookup j m.peers) m refl one)

  some-retry_one :
      (id j : Bytes) (o : Option (PeerEntry P)) (m : Manager P)
      → lookup j m.peers ≡ o
      → is_some (lookup id (retry_one j o m).peers) ≡ is_some (lookup id m.peers)
  some-retry_one id j o m found =
      sym (is_some-unflagged (lookup id (retry_one j o m).peers))
      ∙ ap is_some (unflagged-retry_one id j o m found)
      ∙ is_some-unflagged (lookup id m.peers)

  retry_one-flagged :
      (id : Bytes) (o : Option (PeerEntry P)) (m : Manager P)
      → is_some o ≡ true
      → flagged (lookup id (retry_one id o m).peers) ≡ 1
  retry_one-flagged id none m known = cc
  retry_one-flagged id (some e) m known = start_retry-flagged id e m

  retry_each-starts :
      (id : Bytes) (ids : List Bytes) (m : Manager P)
      → is_some (lookup id m.peers) ≡ true
      → has_id id ids ≡ true
      → flagged (lookup id (retry_each ids m).peers) ≡ 1
  unfolding retry_each
  retry_each-starts id [] m known has = cc
  retry_each-starts id (j ∷ js) m known has =
      let n = retry_one j (lookup j m.peers) m in
      elim (Bool-cases (bytes_eq.beq j id)) [
        | inl same ↦
            flagged-retry_each id js n
              (rw ((bytes_beq_iff j id).0 same) (retry_one-flagged id (lookup id m.peers) m known))
        | inr other ↦
            retry_each-starts id js n (some-retry_one id j (lookup j m.peers) m refl ∙ known)
              (rw other at (has))
      ]

  -- On the client's side, in every state that the handlers reach, when a relay connection comes back
  -- then exactly one `retryConnectPeer` goroutine is running for each peer of that relay.
  pub setup_relay_peers-retries :
      (u : String) (id : Bytes) (e : PeerEntry P) (m : Manager P)
      → Reach m
      → lookup id m.peers ≡ some e
      → str_eq e.relay_url u ≡ true
      → m.is_client ≡ true
      → (setup_relay_peers u m).retries id ≡ 1
  unfolding setup_relay_peers
  setup_relay_peers-retries u id e m reach found url client =
      let m' : Manager P = record m { peers = forget_relay u m.peers } in
      setup_relay_peers-Counted u m (Reach-Counted reach) id
      ∙ ap (λ b. flagged (lookup id (if b then retry_each (ids_of u m.peers) m' else m').peers))
          client
      ∙ (retry_each-starts id (ids_of u m.peers) m'
          (rw (lookup-forget_relay u id m.peers, found) refl)
          (has_id-ids_of u id e m.peers found url))

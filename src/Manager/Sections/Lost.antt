-- ===== src/Manager/Sections/Lost.antt =====
-- internal/manager/manager.go: a peer that is left without a path, between retryConnectPeer's look at its entry and its
-- deferred section.
use malon.Base.{
  ℕ, ◌-◌, ◌≡◌, refl, ap, ◌∙◌, true, false, Option, none, some, Bytes, if◌then◌else◌, ◌==◌, ==_iff,
}
use malon.Base.Keys.{bytes_eq, lookup, lookup-insert_self, beq_refl}
use malon.Manager.{
  MionPeer, Manager, PeerEntry, direct, put, close_relay, start_retry, fallback_entry,
  direct_closed,
}
use malon.Manager.Retrying.{retry_stopped}
use malon.Manager.Switching.{direct_closed-some}
use malon.Manager.Sections.{retry_stops}
use malon.Manager.Sections.Interleaved.{Reach, Reach-Counted}

nat_refl : (c : ℕ) → (c == c) ≡ true
nat_refl c = (==_iff c c).1 refl

module _ {P : Type 0} ⦃mion : MionPeer P⦄ where
  -- Neither path, and no goroutine to bring one back.
  abbrev pub IsLeft : Bytes → Manager P → Type 0
  IsLeft id n =
      (e : PeerEntry P) × (lookup id n.peers ≡ some e)
      × (mion.active e.peer ≡ none)
      × (e.has_direct_path ≡ false)
      × (e.relay_conn ≡ none)
      × (n.retries id ≡ 0)

  retry_stopped-some :
      (id : Bytes) (e : PeerEntry P) (m : Manager P)
      → lookup id m.peers ≡ some e
      → retry_stopped id m
        ≡ put id
            (record e { retrying_conn = false })
            (record m { retries = λ j. if bytes_eq.beq id j then m.retries j - 1 else m.retries j })
  unfolding retry_stopped
  retry_stopped-some id e m at = rw (at, retry_stopped) refl

  retries-close_relay :
      (k : Option ℕ) (id : Bytes) (e : PeerEntry P) (m : Manager P)
      → (close_relay k (put id e m)).retries ≡ m.retries
  retries-close_relay none id e m = refl
  retries-close_relay (some c) id e m = refl

  active-lost :
      (c : ℕ) (p : P)
      → mion.active p ≡ some (direct c)
      → mion.active (mion.clear_conn_if (direct c) p) ≡ none
  active-lost c p h = mion.active-clear_conn_if (direct c) p ∙ rw (h, nat_refl c) refl

  -- In a client, in every state that the sections of the handlers reach: if a retryConnectPeer has looked at an entry
  -- with a direct path, and stops, and the direct connection is lost before its deferred section, then
  -- fallbackToRelay starts no other one, since the flag is still set. After the deferred section the
  -- peer has no path, and no goroutine is there to bring one back.
  pub direct_closed-lost :
      (c : ℕ) (id : Bytes) (e : PeerEntry P) (m : Manager P)
      → Reach m
      → lookup id m.peers ≡ some e
      → m.is_client ≡ true
      → e.retrying_conn ≡ true
      → e.has_direct_path ≡ true
      → mion.active e.peer ≡ some (direct c)
      → (retry_stops id m ≡ true) × IsLeft id (retry_stopped id (direct_closed c id m))
  unfolding retry_stops fallback_entry start_retry
  direct_closed-lost c id e m r at client busy on active =
      let e' : PeerEntry P = record e { peer = mion.clear_conn_if (direct c) e.peer } in
      let e'' : PeerEntry P = record e' { has_direct_path = false; relay_conn = none } in
      let n = close_relay e.relay_conn (put id e' m) in
      let is : direct_closed c id m ≡ put id e'' n =
        direct_closed-some c id e m at ∙ rw (on, client, busy) refl in
      let ends : retry_stopped id (direct_closed c id m)
          ≡ put id (record e'' { retrying_conn = false })
              (record (put id e'' n) {
                retries = λ j. if bytes_eq.beq id j then n.retries j - 1 else n.retries j;
              }) =
        ap (retry_stopped id) is
        ∙ retry_stopped-some id e'' (put id e'' n) (lookup-insert_self id e'' n.peers) in
      let one : m.retries id ≡ 1 = Reach-Counted r id ∙ rw (at, busy) refl in
      (
        rw (at, retry_stops) (rw on refl),
        (
          record e'' { retrying_conn = false },
          ap (λ x. lookup id x.peers) ends ∙ lookup-insert_self id _ _,
          active-lost c e.peer active,
          refl,
          refl,
          ap (λ x. x.retries id) ends
              ∙ rw (beq_refl id) (
                  ap (λ f. f id - 1) (retries-close_relay e.relay_conn id e' m)
                  ∙ ap (λ k. k - 1) one),
        ),
      )

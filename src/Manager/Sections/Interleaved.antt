-- ===== src/Manager/Sections/Interleaved.antt =====
-- internal/manager/manager.go: the sections of any number of handlers, in any order.
use malon.Base.{
  ℕ, ◌≤◌, ◌≡◌, refl, sym, ◌∙◌, Bool, true, false, not, Bytes, String, inl, inr, Option-cases,
  if_both,
}
use malon.Base.Keys.{bytes_eq, lookup}
use malon.Manager.{
  MionPeer, Manager, PeerEntry, PeerPath, Task, retry_connect_peer, forward_conn_to_tun,
  send_candidates, control_read_loop, forward_direct_conn_to_tun, start, close_path, register_peer,
  get_or_create_proxy, promotes, forget_relay,
}
use malon.Manager.Retrying.{retry_stopped}
use malon.Manager.Retries.{
  Counted, flagged, put-Counted, proxy-Counted, forget_relay-flagged, retry_stopped-Counted,
  retry_one-Counted,
}
use malon.Manager.Steps.{IsNew, IsNew-Counted, register_peer-Counted, promotes-Counted, flagged-le}
use malon.Manager.Sections.{
  change, put_relay, mark_direct, try_mark, unmark, take_relay, claim_retry, set_active,
  clear_active,
}

abbrev pub is_retry : Task → Bool
is_retry (retry_connect_peer id) = true
is_retry (forward_conn_to_tun id c) = false
is_retry (send_candidates id c) = false
is_retry (control_read_loop id c) = false
is_retry (forward_direct_conn_to_tun id c) = false

-- A section of some handler. `retry_ended` is the deferred section of a retryConnectPeer that runs; the other sections
-- come whenever they like, in or out of a handler's order.
pub data Section {P : Type 0} ⦃mion : MionPeer P⦄ : Manager P → Manager P → Type 0 where
  registered :
      (id : Bytes) (p : P) (u : String) (m : Manager P) → Section m (register_peer id p u m).0
  proxied : (u : String) (m : Manager P) → Section m (get_or_create_proxy u m)
  relay_put : (c : ℕ) (id : Bytes) (m : Manager P) → Section m (put_relay c id m).0
  activated : (c : PeerPath) (id : Bytes) (m : Manager P) → Section m (set_active c id m)
  cleared : (c : PeerPath) (id : Bytes) (m : Manager P) → Section m (clear_active c id m)
  marked : (id : Bytes) (m : Manager P) → Section m (mark_direct id m)
  try_marked : (id : Bytes) (m : Manager P) → Section m (try_mark id m).1
  unmarked : (id : Bytes) (m : Manager P) → Section m (unmark id m).1
  relay_taken : (id : Bytes) (m : Manager P) → Section m (take_relay id m).0
  retry_claimed : (id : Bytes) (m : Manager P) → Section m (claim_retry id m)
  relays_forgotten :
      (u : String) (m : Manager P) → Section m (record m { peers = forget_relay u m.peers })
  started : (t : Task) (m : Manager P) → is_retry t ≡ false → Section m (start t m)
  closed : (c : PeerPath) (m : Manager P) → Section m (close_path c m)
  looked : (id : Bytes) (m : Manager P) → Section m (promotes id m).1
  retry_ended : (id : Bytes) (m : Manager P) → 1 ≤ m.retries id → Section m (retry_stopped id m)

pub data Reach {P : Type 0} ⦃mion : MionPeer P⦄ : Manager P → Type 0 where
  begins : (m : Manager P) → IsNew m → Reach m
  followed_by : {m n : Manager P} → Reach m → Section m n → Reach n

module _ {P : Type 0} where
  change-Counted :
      (f : PeerEntry P → PeerEntry P) (id : Bytes) (m : Manager P)
      → ((e : PeerEntry P) → (f e).retrying_conn ≡ e.retrying_conn)
      → Counted m
      → Counted (change f id m)
  change-Counted f id m same c = elim (Option-cases (lookup id m.peers)) [
    | inl e ↦ rw (e, change) c
    | inr (x, e) ↦ rw (e, change) (put-Counted id x (f x) m e (same x) c)
  ]

  try_mark-Counted : (id : Bytes) (m : Manager P) → Counted m → Counted (try_mark id m).1
  unfolding try_mark
  try_mark-Counted id m c = elim (Option-cases (lookup id m.peers)) [
    | inl e ↦ rw (e, try_mark) c
    | inr (x, e) ↦
        rw (e, try_mark)
          (if_both (λ (r : Bool × Manager P). Counted r.1) x.has_direct_path c
            (put-Counted id x _ m e refl c))
  ]

  unmark-Counted : (id : Bytes) (m : Manager P) → Counted m → Counted (unmark id m).1
  unfolding unmark
  unmark-Counted id m c = elim (Option-cases (lookup id m.peers)) [
    | inl e ↦ rw (e, unmark) c
    | inr (x, e) ↦
        rw (e, unmark)
          (if_both (λ (r : Bool × Manager P). Counted r.1) (not x.has_direct_path) c
            (put-Counted id x _ m e refl c))
  ]

module _ {P : Type 0} ⦃mion : MionPeer P⦄ where
  Section-Counted : {m n : Manager P} → Section m n → Counted m → Counted n
  unfolding put_relay mark_direct take_relay set_active clear_active claim_retry
  Section-Counted (registered id p u m) c = register_peer-Counted id p u m c
  Section-Counted (proxied u m) c = proxy-Counted u m c
  Section-Counted (relay_put k id m) c = change-Counted _ id m (λ e. refl) c
  Section-Counted (activated k id m) c = change-Counted _ id m (λ e. refl) c
  Section-Counted (cleared k id m) c = change-Counted _ id m (λ e. refl) c
  Section-Counted (marked id m) c = change-Counted _ id m (λ e. refl) c
  Section-Counted (try_marked id m) c = try_mark-Counted id m c
  Section-Counted (unmarked id m) c = unmark-Counted id m c
  Section-Counted (relay_taken id m) c = change-Counted _ id m (λ e. refl) c
  Section-Counted (retry_claimed id m) c = retry_one-Counted id (lookup id m.peers) m refl c
  Section-Counted (relays_forgotten u m) c = λ id. c id ∙ sym (forget_relay-flagged u m.peers id)
  Section-Counted (started t m other) c = c
  Section-Counted (closed k m) c = c
  Section-Counted (looked id m) c = promotes-Counted id m c
  Section-Counted (retry_ended id m l) c = retry_stopped-Counted id m l c

  pub Reach-Counted : {m : Manager P} → Reach m → Counted m
  Reach-Counted (begins m n) = IsNew-Counted m n
  Reach-Counted (followed_by r s) = Section-Counted s (Reach-Counted r)

  -- In every state that the sections of the manager's handlers reach from a new manager, in any order and with any
  -- number of handlers under way, at most one retryConnectPeer goroutine runs for a peer, and one
  -- runs if and only if the flag of its entry is set.
  pub retries-flagged :
      {m : Manager P}
      → Reach m
      → (id : Bytes) → (m.retries id ≤ 1) × (m.retries id ≡ flagged (lookup id m.peers))
  retries-flagged {m} r id =
      (rw (Reach-Counted r id) (flagged-le (lookup id m.peers)), Reach-Counted r id)

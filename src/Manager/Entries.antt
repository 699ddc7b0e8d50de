-- ===== src/Manager/Entries.antt =====
-- internal/manager/manager.go: the registry of peers.
use malon.Base.{◌≡◌, ◌↔◌, refl, [], ◌∷◌, Bytes, List, map, String, Bool-cases, inl, inr, some}
use malon.Base.Keys.{bytes_eq, lookup}
use malon.Manager.{Manager, PeerEntry, known_peer_set, get_or_create_proxy, has_url}

module _ {P : Type 0} where
  pub peers-get_or_create_proxy :
      (u : String) (m : Manager P) → (get_or_create_proxy u m).peers ≡ m.peers
  unfolding get_or_create_proxy
  peers-get_or_create_proxy u m = elim (Bool-cases (has_url u m.proxies)) [
    | inl e ↦ rw (e, get_or_create_proxy)
    | inr e ↦ rw (e, get_or_create_proxy)
  ]

  lookup-map :
      (id : Bytes) (es : List (Bytes × PeerEntry P))
      → (lookup id (map (λ e. (e.0, tt)) es) ≡ some (tt {0}))
        ↔ ((e : PeerEntry P) × (lookup id es ≡ some e))
  unfolding lookup
  lookup-map id [] = ((λ h. cc), (λ h. cc (h.1)))
  lookup-map id ((j, e) ∷ es) = elim (Bool-cases (bytes_eq.beq id j)) [
    | inl same ↦ rw same ((λ h. (e, refl)), (λ h. refl))
    | inr other ↦ rw other (lookup-map id es)
  ]

  -- The set that TLS checks certificates against is exactly the set of registered peers.
  pub known_peer_set_iff :
      (id : Bytes) (m : Manager P)
      → (lookup id (known_peer_set m) ≡ some (tt {0}))
        ↔ ((e : PeerEntry P) × (lookup id m.peers ≡ some e))
  unfolding known_peer_set
  known_peer_set_iff id m = lookup-map id m.peers

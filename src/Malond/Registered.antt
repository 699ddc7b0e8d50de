-- ===== src/Malond/Registered.antt =====
-- cmd/malond/main.go: the peers that main registers.
use text.Mathlib.Text.{◌==◌ as str_eq}
use malon.Base.{
  ◌+◌, ◌≡◌, refl, sym, ap, ◌∙◌, Bool, true, false, ◌||◌, Option, none, some, List, [], ◌∷◌, Bytes,
  Error, String, ok, All, length, arith, Option-cases, Result-cases, Bool-cases, inl, inr,
}
use malon.Base.Keys.{bytes_eq, lookup, insert, bytes_beq_iff, delete_absent}
use malon.Identity.{Crypto, peer_id_from_public_key}
use malon.Config.{PeerConfig}
use malon.Manager.{Manager, PeerEntry, put, register_peer}
use malon.Manager.Entries.{peers-get_or_create_proxy}
use malon.Startup.{Registration, register_each}
use malon.Startup.Pool.{uses}
use malon.Malond.{Outside, with_mion, add_one, add_each}

-- The entry of a peer that was just registered.
abbrev pub new_entry : {P : Type 0} → P → String → PeerEntry P
new_entry peer u = record {
  peer = peer;
  relay_url = u;
  relay_conn = none;
  has_direct_path = false;
  retrying_conn = false;
}

module _ {P : Type 0} where
  -- A registration without an error has put a new entry in front of the table.
  register_peer-front :
      (id : Bytes) (p : P) (u : String) (m : Manager P)
      → (register_peer id p u m).1 ≡ none
      → (lookup id m.peers ≡ none)
        × ((register_peer id p u m).0.peers ≡ (id, new_entry p u) ∷ m.peers)
  unfolding register_peer insert
  register_peer-front id p u m h = elim (Option-cases (lookup id m.peers)) [
    | inr (e, there) ↦ absurd (cc (rw (there, register_peer) at (h)))
    | inl free ↦
        let front : (put id (new_entry p u) m).peers ≡ (id, new_entry p u) ∷ m.peers =
          ap (λ x. (id, new_entry p u) ∷ x) (delete_absent id m.peers free) in
        (
          free,
          rw (free, register_peer)
              (elim (Bool-cases (str_eq u "")) [
                | inl blank ↦ rw blank front
                | inr url ↦ rw url (peers-get_or_create_proxy u (put id (new_entry p u) m) ∙ front)
              ]),
        )
  ]

  -- A key that was free stands in front of the others.
  newest :
      (id : Bytes) (p : P) (u : String) (es : List (Bytes × PeerEntry P))
      → lookup id ((id, new_entry p u) ∷ es) ≡ some (new_entry p u)
  unfolding lookup
  newest id p u es = rw ((bytes_beq_iff id id).1 refl) refl

  older :
      (id : Bytes) (p : P) (u : String) (j : Bytes) (e : PeerEntry P)
      (es : List (Bytes × PeerEntry P))
      → lookup id es ≡ none
      → lookup j es ≡ some e
      → lookup j ((id, new_entry p u) ∷ es) ≡ some e
  unfolding lookup
  older id p u j e es free there = elim (Bool-cases (bytes_eq.beq j id)) [
    | inr other ↦ rw other there
    | inl same ↦ absurd (cc (there, ap (λ k. lookup k es) ((bytes_beq_iff j id).0 same), free))
  ]

-- The peer of the configuration has an entry of its own key, with its networks and its relay, and no connection yet.
abbrev pub IsRegistered :
    ⦃c : Crypto⦄ → {M P : Type 0} → Outside M P → Manager P → PeerConfig → Type 0
IsRegistered o m pc =
    (raw : Bytes) × (o.decode pc.public_key ≡ ok raw)
    × (lookup (peer_id_from_public_key raw) m.peers
        ≡ some (new_entry (o.make_peer raw pc.allowed_ips) (o.string_of pc.relay)))

-- Some peer of the configuration names this relay.
abbrev pub named : {M P : Type 0} → Outside M P → String → List PeerConfig → Bool
named o u [] = false
named o u (pc ∷ pcs) = str_eq u (o.string_of pc.relay) || named o u pcs

module _ ⦃c : Crypto⦄ {M P : Type 0} (o : Outside M P) where
  -- What a round of the loop does to the manager.
  add_one-ok :
      (pc : PeerConfig) (mion mion' : M) (m m' : Manager P)
      → add_one o pc (mion, m) ≡ ok (mion', m')
      → (raw : Bytes) × (o.decode pc.public_key ≡ ok raw)
        × (let id = peer_id_from_public_key raw in
            let p = o.make_peer raw pc.allowed_ips in
            let r = register_peer id p (o.string_of pc.relay) m in (r.1 ≡ none) × (r.0 ≡ m'))
  unfolding add_one
  add_one-ok pc mion mion' m m' h = elim (Result-cases (o.decode pc.public_key)) [
    | inr (e, q) ↦ absurd (cc (rw q at (h)))
    | inl (raw, q) ↦
        let p = o.make_peer raw pc.allowed_ips in
        let r = register_peer (peer_id_from_public_key raw) p (o.string_of pc.relay) m in
        elim (Result-cases (o.add_peer p mion)) [
          | inr (e, q') ↦ absurd (cc (rw (q, q') at (h)))
          | inl (mion'', q') ↦ (raw, q, registered mion'' r (rw (q, q') at (h)))
        ]
  ]
    where
      registered :
          (k : M) (r : Manager P × Option Error)
          → with_mion k r ≡ ok (mion', m')
          → (r.1 ≡ none) × (r.0 ≡ m')
      registered k (n, none) e = (refl, cc e)
      registered k (n, some x) e = absurd (cc e)

  -- What the loop over the peers does to the manager.
  pub record IsAdded (pcs : List PeerConfig) (m m' : Manager P) : Type 0 where
    pub calls : List (Registration P)
    pub called : m' ≡ register_each calls m
    pub kept :
        (id : Bytes) (e : PeerEntry P) → lookup id m.peers ≡ some e → lookup id m'.peers ≡ some e
    pub entries : All (IsRegistered o m') pcs
    pub size : length m'.peers ≡ length pcs + length m.peers
    pub relays : (u : String) → uses u m'.peers ≡ (named o u pcs || uses u m.peers)

  regroup : (n k us : Bool) → (n || (k || us)) ≡ ((k || n) || us)
  regroup true true us = refl
  regroup true false us = refl
  regroup false true us = refl
  regroup false false us = refl

  pub add_each-IsAdded :
      (pcs : List PeerConfig) (mion mion' : M) (m m' : Manager P)
      → add_each o pcs (mion, m) ≡ ok (mion', m')
      → IsAdded pcs m m'
  unfolding add_each register_each
  add_each-IsAdded [] mion mion' m m' h =
      let same : m ≡ m' = cc h in
      rw (← same) (record {
        calls = [];
        called = refl;
        kept = λ id e there. there;
        entries = tt;
        size = omega arith;
        relays = λ u. refl;
      })
  add_each-IsAdded (pc ∷ pcs) mion mion' m m' h = elim (Result-cases (add_one o pc (mion, m))) [
    | inr (e, q) ↦ absurd (cc (rw q at (h)))
    | inl ((mion1, m1), q) ↦
        let (raw, decoded, (fine, same)) = add_one-ok pc mion mion1 m m1 q in
        let id = peer_id_from_public_key raw in
        let p = o.make_peer raw pc.allowed_ips in
        let url = o.string_of pc.relay in
        let (free, front) = register_peer-front id p url m fine in
        let here : m1.peers ≡ (id, new_entry p url) ∷ m.peers =
          ap (λ (x : Manager P). x.peers) (sym same) ∙ front in
        let rest = add_each-IsAdded pcs mion1 mion' m1 m' (rw q at (h)) in
        record {
          calls = record { id = id; peer = p; relay_url = url } ∷ rest.calls;
          called = rest.called ∙ ap (register_each rest.calls) (sym same);
          kept = λ j e there.
              rest.kept j e (ap (lookup j) here ∙ older id p url j e m.peers free there);
          entries = (
            (raw, decoded, rest.kept id _ (ap (lookup id) here ∙ newest id p url m.peers)),
            rest.entries,
          );
          size = omega (arith, rest.size, ap length here);
          relays = λ u.
              rest.relays u
              ∙ ap (λ (es : List (Bytes × PeerEntry P)). named o u pcs || uses u es) here
              ∙ regroup (named o u pcs) (str_eq u url) (uses u m.peers);
        }
  ]

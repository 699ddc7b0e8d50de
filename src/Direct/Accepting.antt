-- ===== src/Direct/Accepting.antt =====
-- internal/direct/listener.go: which connections Accept turns into events.
use malon.Base.{
  ◌≡◌, refl, ap, ◌∙◌, ℕ, ◌%◌, ◌^◌, false, true, Option, none, some, List, [], ◌∷◌, ◌++◌, Bytes,
  Result, ok, err, inl, inr, Bool-cases, Result-cases,
}
use text.Mathlib.Text.{◌==◌ as str_eq}
use malon.Identity.{Crypto, Certificate, PublicKey, ed25519, other_key, peer_id_from_public_key}
use text.Mathlib.TextEquality.{eq_iff}
use malon.Auth.{alpn_malon_probe, alpn_h3}
use malon.Direct.{
  ConnectRequest, id_of_key, QuicConn, Event, probe_event, connect_event, Closes, Handling, handled,
  refused, hangs, event, hung, unmap, serve_request, connect_served, connect_waited,
  peer_id_from_conn, handle_probe, handle_connect, handle_conn, accept,
}

module _ ⦃c : Crypto⦄ where
  -- The first certificate of the other side holds the key.
  abbrev pub ShowsKey : List Certificate → Bytes → Type 0
  ShowsKey [] pub_key = false ≡ true
  ShowsKey (cert ∷ rest) pub_key = cert.public_key ≡ ed25519 pub_key

  -- What an event says of the connection that it was made from.
  abbrev pub Yields : QuicConn → Event → Type 0
  Yields q (probe_event id addr port) =
      (q.alpn ≡ alpn_malon_probe)
      × ((pub_key : Bytes) × ShowsKey q.peer_certificates pub_key
          × (id ≡ peer_id_from_public_key pub_key))
      × (addr ≡ unmap q.remote_addr)
      × (port ≡ q.remote_port % 2 ^ 16)
  Yields q (connect_event id conn) =
      (q.alpn ≡ alpn_h3)
      × ((pub_key : Bytes) × ShowsKey q.peer_certificates pub_key
          × (id ≡ peer_id_from_public_key pub_key))
      × ((r : ConnectRequest) × (q.request ≡ some r) × (serve_request r ≡ ok conn))

  -- The probe's own connection is closed, with code 0; a connection for data stays open.
  abbrev pub own_close : QuicConn → Event → Closes → Closes
  own_close q (probe_event id addr port) closes = (q.number, 0) ∷ closes
  own_close q (connect_event id conn) closes = closes

  abbrev pub closed_all : List QuicConn → Closes → Closes
  closed_all [] closes = closes
  closed_all (q ∷ qs) closes = closed_all qs ((q.number, 1) ∷ closes)

  peer_id_from_conn-ok :
      (certs : List Certificate) (id : Bytes)
      → peer_id_from_conn certs ≡ ok id
      → (pub_key : Bytes) × ShowsKey certs pub_key × (id ≡ peer_id_from_public_key pub_key)
  unfolding peer_id_from_conn
  peer_id_from_conn-ok [] id h = absurd (cc h)
  peer_id_from_conn-ok (cert ∷ rest) id h = of_key cert.public_key refl h
    where
      of_key :
          (k : PublicKey)
          → cert.public_key ≡ k
          → id_of_key k ≡ ok id
          → (pub_key : Bytes) × (cert.public_key ≡ ed25519 pub_key)
            × (id ≡ peer_id_from_public_key pub_key)
      of_key other_key e h = absurd (cc h)
      of_key (ed25519 p) e h = (p, e, cc h)

  abbrev Handles : QuicConn → Closes → Event → Closes → Type 0
  Handles q closes e closes' = Yields q e × (closes' ≡ own_close q e closes)

  handle_probe-handled :
      (q : QuicConn) (closes closes' : Closes) (e : Event)
      → q.alpn ≡ alpn_malon_probe
      → handle_probe q closes ≡ handled e closes'
      → Handles q closes e closes'
  unfolding handle_probe
  handle_probe-handled q closes closes' e alpn h =
      elim (Result-cases (peer_id_from_conn q.peer_certificates)) [
        | inr (x, f) ↦ absurd (cc (rw f at (h)))
        | inl (id, f) ↦
            let eq = rw f at (h) in
            let same : probe_event id (unmap q.remote_addr) (q.remote_port % 2 ^ 16) ≡ e = cc eq in
            let closed : closes' ≡ (q.number, 0) ∷ closes = cc eq in
            rw (← same) ((alpn, peer_id_from_conn-ok q.peer_certificates id f, refl, refl), closed)
      ]

  handle_connect-handled :
      (q : QuicConn) (closes closes' : Closes) (e : Event)
      → q.alpn ≡ alpn_h3
      → handle_connect q closes ≡ handled e closes'
      → Handles q closes e closes'
  unfolding handle_connect
  handle_connect-handled q closes closes' e alpn h =
      elim (Result-cases (peer_id_from_conn q.peer_certificates)) [
        | inr (x, f) ↦ absurd (cc (rw f at (h)))
        | inl (id, f) ↦
            waited id (peer_id_from_conn-ok q.peer_certificates id f) q.request refl (rw f at (h))
      ]
    where
      served :
          (id : Bytes) (r : ConnectRequest)
          → (pub_key : Bytes) × ShowsKey q.peer_certificates pub_key
            × (id ≡ peer_id_from_public_key pub_key)
          → q.request ≡ some r
          → (conn : Result ℕ) → serve_request r ≡ conn
          → connect_served closes id conn ≡ handled e closes'
          → Handles q closes e closes'
      served id r key sent (err x) s h = absurd (cc h)
      served id r key sent (ok conn) s h =
          let same : connect_event id conn ≡ e = cc h in
          let closed : closes' ≡ closes = cc h in rw (← same) ((alpn, key, (r, sent, s)), closed)

      waited :
          (id : Bytes)
          → (pub_key : Bytes) × ShowsKey q.peer_certificates pub_key
            × (id ≡ peer_id_from_public_key pub_key)
          → (o : Option ConnectRequest) → q.request ≡ o
          → connect_waited closes id o ≡ handled e closes'
          → Handles q closes e closes'
      waited id key none sent h = absurd (cc h)
      waited id key (some r) sent h = served id r key sent (serve_request r) refl h

  -- An event comes from a connection of its protocol, and names the peer of its key.
  handle_conn-handled :
      (q : QuicConn) (closes closes' : Closes) (e : Event)
      → handle_conn q closes ≡ handled e closes'
      → Handles q closes e closes'
  unfolding handle_conn
  handle_conn-handled q closes closes' e h = elim (Bool-cases (str_eq q.alpn alpn_malon_probe)) [
    | inl is_probe ↦
        handle_probe-handled q closes closes' e ((eq_iff q.alpn alpn_malon_probe).0 is_probe)
          (rw is_probe at (h))
    | inr other ↦ elim (Bool-cases (str_eq q.alpn alpn_h3)) [
      | inl is_h3 ↦
          handle_connect-handled q closes closes' e ((eq_iff q.alpn alpn_h3).0 is_h3)
            (rw (other, is_h3) at (h))
      | inr neither ↦ absurd (cc (rw (other, neither) at (h)))
    ]
  ]

  -- An event that Accept returns comes from a connection of the event's protocol and names the
  -- peer of the key that this connection showed; those before it were refused and closed with code 1,
  -- those after it are left.
  pub accept-event :
      (qs rest : List QuicConn) (closes closes' : Closes) (e : Event)
      → accept qs closes ≡ event e rest closes'
      → (before : List QuicConn) × (q : QuicConn) × (qs ≡ before ++ q ∷ rest)
        × Yields q e
        × (closes' ≡ own_close q e (closed_all before closes))
  unfolding accept
  accept-event [] rest closes closes' e h = absurd (cc h)
  accept-event (q ∷ qs) rest closes closes' e h =
      by_handling (λ k. accept-event qs rest ((q.number, 1) ∷ closes) closes' e k)
        (handle_conn q closes) refl h
    where
      Found : Type 0
      Found =
          (before : List QuicConn) × (p : QuicConn) × (q ∷ qs ≡ before ++ p ∷ rest)
          × Yields p e
          × (closes' ≡ own_close p e (closed_all before closes))

      Later : Type 0
      Later =
          (before : List QuicConn) × (p : QuicConn) × (qs ≡ before ++ p ∷ rest)
          × Yields p e
          × (closes' ≡ own_close p e (closed_all before ((q.number, 1) ∷ closes)))

      later : Later → Found
      later (before, p, split, yields, closed) =
          (q ∷ before, p, ap (λ l. q ∷ l) split, yields, closed)

      by_handling :
          (accept qs ((q.number, 1) ∷ closes) ≡ event e rest closes' → Later)
          → (r : Handling) → handle_conn q closes ≡ r
          → (elim r [
            | handled e closes' ↦ event e qs closes'
            | refused _ ↦ accept qs ((q.number, 1) ∷ closes)
            | hangs ↦ hung closes
          ])
            ≡ event e rest closes'
          → Found
      by_handling ih hangs f h = absurd (cc h)
      by_handling ih (refused x) f h = later (ih h)
      by_handling ih (handled e1 closes1) f h =
          let same : e1 ≡ e = cc h in
          let left : qs ≡ rest = cc h in
          let closed : closes1 ≡ closes' = cc h in
          let here = handle_conn-handled q closes closes' e (f ∙ cc) in
          ([], q, ap (λ l. q ∷ l) left, here.0, here.1)

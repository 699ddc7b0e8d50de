-- ===== src/Stun/Queried.antt =====
-- internal/stun/stun.go: what a query gives, and what it leaves open.
use malon.Base.{
  ℕ, ◌*◌, ◌%◌, ◌^◌, ◌≤◌, ◌<◌, ◌≡◌, ◌⊎◌, ◌↔◌, refl, inl, inr, Option, none, some, List, [], ◌∷◌,
  Bytes, String, Result-cases, Error, Result, ok, err, ◌>>=◌, arith,
}
use malon.Packet.{Addr}
use malon.Candidate.{addr_from_slice}
use malon.Stun.{
  Resolver, Reply, failed, no_attribute, mapped, Sockets, first_address, target_of, rto_of,
  default_rto, mapped_address, reply_result, selected, query, targeted, dialled, asked,
}

-- Three attempts fit into the time that is left, and an attempt never waits longer than half a second.
pub rto_of-le :
    (remaining : ℕ)
    → 0 < remaining
    → (rto_of (some remaining) * 3 ≤ remaining) × (rto_of (some remaining) ≤ default_rto)
unfolding rto_of
rto_of-le remaining l = ground arith

mapped_address_iff :
    (o : Option Addr) (port : ℕ) (a : Addr) (p : ℕ)
    → (mapped_address o port ≡ ok (a, p)) ↔ ((o ≡ some a) × (p ≡ port % 2 ^ 16))
mapped_address_iff none port a p = ((λ h. absurd (cc h)), λ (h, _). absurd (cc h))
mapped_address_iff (some b) port a p = ((λ h. (cc h, cc h)), λ (h, k). cc (h, k))

-- A reply that maps the socket to the address `a` and the port `p`.
abbrev pub Maps : Result Reply → Addr → ℕ → Type 0
Maps reply a p =
    (ip : Bytes) × (port : ℕ) × (reply ≡ ok (mapped ip port))
    × (addr_from_slice ip ≡ some a)
    × (p ≡ port % 2 ^ 16)

reply_result_iff :
    (reply : Result Reply) (a : Addr) (p : ℕ) → (reply_result reply ≡ ok (a, p)) ↔ Maps reply a p
unfolding reply_result
reply_result_iff (err e) a p = ((λ h. absurd (cc h)), λ (_, _, h, _, _). absurd (cc h))
reply_result_iff (ok (failed e)) a p = ((λ h. absurd (cc h)), λ (_, _, h, _, _). absurd (cc h))
reply_result_iff (ok (no_attribute e)) a p =
    ((λ h. absurd (cc h)), λ (_, _, h, _, _). absurd (cc h))
reply_result_iff (ok (mapped ip port)) a p =
    let both = mapped_address_iff (addr_from_slice ip) port a p in
    (
      (λ h. let (x, y) = both.0 h in (ip, port, refl, x, y)),
      λ (ip', port', h, x, y).
          let ip_is : ip' ≡ ip = cc h in
          let port_is : port' ≡ port = cc h in both.1 (rw (← ip_is) x, rw (← port_is) y),
    )

selected_iff :
    (ctx_done : Option Error) (r : Result (Addr × ℕ)) (v : Addr × ℕ)
    → (selected ctx_done r ≡ ok v) ↔ ((ctx_done ≡ none) × (r ≡ ok v))
selected_iff none r v = ((λ h. (refl, h)), λ (_, h). h)
selected_iff (some e) r v = ((λ h. absurd (cc h)), λ (h, _). absurd (cc h))

selected-Maps :
    (ctx_done : Option Error) (reply : Result Reply) (a : Addr) (p : ℕ)
    → (selected ctx_done (reply_result reply) ≡ ok (a, p)) ↔ ((ctx_done ≡ none) × Maps reply a p)
selected-Maps ctx_done reply a p =
    let outer = selected_iff ctx_done (reply_result reply) (a, p) in
    let inner = reply_result_iff reply a p in
    ((λ h. let (x, y) = outer.0 h in (x, inner.0 y)), λ (x, y). outer.1 (x, inner.1 y))

-- What a query needs for its result, on a socket that is opened for the target.
abbrev pub Answers :
    {S : Type 0}
    → Result String
    → (String → Result S)
    → Result (Unit {0})
    → Option Error
    → Result Reply
    → Addr
    → ℕ
    → Type 0
Answers {S} target open_at new_client ctx_done reply a p =
    (t : String) × (target ≡ ok t)
    × ((s : S) × (open_at t ≡ ok s))
    × (new_client ≡ ok tt)
    × (ctx_done ≡ none)
    × Maps reply a p

query-Answers :
    (net : Resolver) (server : String) (dial : String → Result ℕ) (new_client : Result (Unit {0}))
    (ctx_done : Option Error) (reply : Result Reply) (k : Sockets) (a : Addr) (p : ℕ)
    → ((query net server dial new_client ctx_done reply k).0 ≡ ok (a, p))
      ↔ Answers (target_of net server) dial new_client ctx_done reply a p
unfolding query
query-Answers net server dial new_client ctx_done reply k a p = by_target (target_of net server)
  where
    by_client :
        (t : String) (s : ℕ) (n : Result (Unit {0})) (k : Sockets)
        → dial t ≡ ok s
        → ((asked s n ctx_done reply k).0 ≡ ok (a, p)) ↔ Answers (ok t) dial n ctx_done reply a p
    by_client t s (err e) k d = ((λ h. absurd (cc h)), λ (_, _, _, h, _, _). absurd (cc h))
    by_client t s (ok u) k d =
        let last = selected-Maps ctx_done reply a p in
        (
          (λ h. let (x, y) = last.0 h in (t, refl, (s, d), refl, x, y)),
          λ (_, _, _, _, x, y). last.1 (x, y),
        )

    by_dial :
        (t : String) (r : Result ℕ)
        → dial t ≡ r
        → ((dialled r new_client ctx_done reply k).0 ≡ ok (a, p))
          ↔ Answers (ok t) dial new_client ctx_done reply a p
    by_dial t (err e) d = (
      (λ h. absurd (cc h)),
      λ (t', same, (s, h), _, _, _). let here : t ≡ t' = cc same in absurd (cc (here, d, h)),
    )
    by_dial t (ok s) d = by_client t s new_client _ d

    by_target :
        (o : Result String)
        → ((targeted o dial new_client ctx_done reply k).0 ≡ ok (a, p))
          ↔ Answers o dial new_client ctx_done reply a p
    by_target (err e) = ((λ h. absurd (cc h)), λ (_, h, _, _, _, _). absurd (cc h))
    by_target (ok t) = by_dial t (dial t) refl

-- A query closes the socket that it has opened, whatever happens, and no other; it opens one at most.
query-closes :
    (net : Resolver) (server : String) (dial : String → Result ℕ) (new_client : Result (Unit {0}))
    (ctx_done : Option Error) (reply : Result Reply) (k : Sockets)
    → ((query net server dial new_client ctx_done reply k).1 ≡ k)
      ⊎ ((s : ℕ) × ((query net server dial new_client ctx_done reply k).1
            ≡ record { opened = s ∷ k.opened; closed = s ∷ k.closed }))
unfolding query
query-closes net server dial new_client ctx_done reply k = by_target (target_of net server)
  where
    Left : Result (Addr × ℕ) × Sockets → Type 0
    Left (r, k') =
        (k' ≡ k) ⊎ ((s : ℕ) × (k' ≡ record { opened = s ∷ k.opened; closed = s ∷ k.closed }))

    by_client :
        (s : ℕ) (n : Result (Unit {0}))
        → Left (asked s n ctx_done reply (record k { opened = s ∷ k.opened }))
    by_client s (err e) = inr (s, refl)
    by_client s (ok u) = inr (s, refl)

    by_dial : (r : Result ℕ) → Left (dialled r new_client ctx_done reply k)
    by_dial (err e) = inl refl
    by_dial (ok s) = by_client s new_client

    by_target : (o : Result String) → Left (targeted o dial new_client ctx_done reply k)
    by_target (err e) = inl refl
    by_target (ok t) = by_dial (dial t)

-- The server's text is a host and a port, the host has an IPv4 address, and this is the text of its first one.
abbrev pub Finds : Resolver → String → String → Type 0
Finds net server target =
    (host : String) × (port : String) × (a : Addr) × (rest : List Addr) × (net.split_host_port
        server
      ≡ ok (host, port))
    × (net.lookup_ip4 host ≡ ok (a ∷ rest))
    × (target ≡ net.join_host_port a port)

target_of_iff :
    (net : Resolver) (server target : String)
    → (target_of net server ≡ ok target) ↔ Finds net server target
unfolding target_of
target_of_iff net server target = elim (Result-cases (net.split_host_port server)) [
  | inr (e, q) ↦ rw q ((λ h. absurd (cc h)), λ (_, _, _, _, s, _, _). absurd (cc s))
  | inl ((host, port), q) ↦ elim (Result-cases (net.lookup_ip4 host)) [
    | inr (e, l) ↦
        rw (q, l)
          (
            (λ h. absurd (cc h)),
            λ (host', port', a, rest, s, m, t).
                let same : host' ≡ host = cc s in absurd (cc (rw (same, l) at (m))),
          )
    | inl (as', l) ↦ rw (q, l) (by_addrs host port as' l)
  ]
]
  where
    by_addrs :
        (host port : String) (as' : List Addr)
        → net.lookup_ip4 host ≡ ok as'
        → ((first_address as' >>= λ addr. ok (net.join_host_port addr port)) ≡ ok target) ↔ (
            (host' : String) × (port' : String) × (a : Addr) × (rest : List Addr) × (◌≡◌
              {A = Result (String × String)}
              (ok (host, port))
              (ok (host', port')))
            × (net.lookup_ip4 host' ≡ ok (a ∷ rest))
            × (target ≡ net.join_host_port a port'))
    by_addrs host port [] l = (
      (λ h. absurd (cc h)),
      λ (host', port', a, rest, s, m, t).
          let same : host' ≡ host = cc s in absurd (cc (rw (same, l) at (m))),
    )
    by_addrs host port (a ∷ as') l = (
      (λ h. (host, port, a, as', refl, l, cc h)),
      λ (host', port', b, rest, s, m, t).
          let same : host' ≡ host = cc s in
          let same' : port' ≡ port = cc s in
          let first : ◌≡◌ {A = Result (List Addr)} (ok (a ∷ as')) (ok (b ∷ rest)) =
            rw (same, l) at (m) in
          let same_addr : a ≡ b = cc first in rw (t, same', same_addr) refl,
    )

-- Query gives an address and a port exactly if the server's text is a host and a port, the host has an IPv4
-- address, the socket to the first one and the client could be made, the context was not done first, and
-- the reply maps the socket to them. In any case it opens one socket at most, and closes that one and no
-- other.
pub query_iff :
    (net : Resolver) (server : String) (dial : String → Result ℕ) (new_client : Result (Unit {0}))
    (ctx_done : Option Error) (reply : Result Reply) (k : Sockets) (a : Addr) (p : ℕ)
    → (((query net server dial new_client ctx_done reply k).0 ≡ ok (a, p)) ↔ (
        (t : String) × Finds net server t
        × ((s : ℕ) × (dial t ≡ ok s))
        × (new_client ≡ ok tt)
        × (ctx_done ≡ none)
        × Maps reply a p))
      × (((query net server dial new_client ctx_done reply k).1 ≡ k)
          ⊎ ((s : ℕ) × ((query net server dial new_client ctx_done reply k).1
                ≡ record { opened = s ∷ k.opened; closed = s ∷ k.closed })))
query_iff net server dial new_client ctx_done reply k a p =
    let both = query-Answers net server dial new_client ctx_done reply k a p in
    (
      (
        (λ h.
            let (t, found, opened, client, going, maps) = both.0 h in
            (t, (target_of_iff net server t).0 found, opened, client, going, maps)),
        λ (t, found, opened, client, going, maps).
            both.1 (t, (target_of_iff net server t).1 found, opened, client, going, maps),
      ),
      query-closes net server dial new_client ctx_done reply k,
    )

-- ===== src/Probing/Considered.antt =====
-- internal/manager/manager.go: whether a candidate of a peer is probed.
use malon.Base.{
  ℕ, ◌≡◌, ◌⊎◌, ◌↔◌, refl, sym, ap, true, false, ◌&&◌, Option, none, some, List, [], ◌∷◌, Bytes, inl,
  inr, Bool-cases, arith,
}
use malon.Packet.{Addr}
use malon.Probing.{addr_port_eq, Probe, Prober, is6, is_direct, cooling, consider}

abbrev pub Member : {A : Type 0} → A → List A → Type 0
Member a [] = ⊥
Member a (b ∷ bs) = (a ≡ b) ⊎ Member a bs

module _ {P : Type 0} where
  -- An address of the peer `id` that is not skipped, unless it cools down.
  abbrev pub Allowed : Bytes → Probe → Prober P → Type 0
  Allowed id q s =
      (q.peer_id ≡ id)
      × (s.manager.has_direct_ln ≡ true)
      × (is6 q.addr ≡ false)
      × (is_direct id s.manager ≡ false)

  abbrev pub IsCold : ℕ → Addr → ℕ → Prober P → Type 0
  IsCold now addr port s = cooling now addr port s.probe_cooldown ≡ false

  pub manager-consider :
      (now : ℕ) (id : Bytes) (o : Option (Addr × ℕ)) (s : Prober P)
      → ((consider now id o s).manager ≡ s.manager)
        × ((consider now id o s).probe_cooldown ≡ s.probe_cooldown)
        × ((consider now id o s).validated ≡ s.validated)
        × ((consider now id o s).promotions ≡ s.promotions)
  unfolding consider
  manager-consider now id none s = (refl, refl, refl, refl)
  manager-consider now id (some (addr, port)) s = ground arith

  pub Allowed-consider :
      (now : ℕ) (id : Bytes) (o : Option (Addr × ℕ)) (s : Prober P) (q : Probe)
      → Allowed id q (consider now id o s) ↔ Allowed id q s
  Allowed-consider now id o s q =
      let (mgr, _, _, _) = manager-consider now id o s in
      (
        (λ (x, ln, v, free). (x, rw mgr at (ln), v, rw mgr at (free))),
        λ (x, ln, v, free). (x, rw mgr ln, v, rw mgr free),
      )

  consider-cases :
      (now : ℕ) (id : Bytes) (addr : Addr) (port : ℕ) (s : Prober P)
      → ((consider now id (some (addr, port)) s ≡ s)
          × ((q : Probe)
              → Allowed id q s
              → IsCold now q.addr q.port s
              → addr ≡ q.addr
              → port ≡ q.port
              → ⊥))
        ⊎ ((consider now id (some (addr, port)) s
              ≡ record s { probes = record { peer_id = id; addr = addr; port = port } ∷ s.probes })
            × Allowed id (record { peer_id = id; addr = addr; port = port }) s
            × IsCold now addr port s)
  unfolding consider
  consider-cases now id addr port s = elim (Bool-cases (s.manager.has_direct_ln && is6 addr)) [
    | inl v6 ↦ inl (rw v6 refl, λ q (x, ln, v, free) cold a n. ground (arith, v6, v, ap is6 a))
    | inr any ↦ elim (Bool-cases (cooling now addr port s.probe_cooldown)) [
      | inl hot ↦ inl (rw (any, hot) refl, λ q (x, ln, v, free) cold a n. cc (hot, cold, a, n))
      | inr cold ↦ elim (Bool-cases (is_direct id s.manager)) [
        | inl direct ↦
            inl (rw (any, cold, direct) refl, λ q (x, ln, v, free) c a n. cc (direct, free))
        | inr free ↦ elim (Bool-cases s.manager.has_direct_ln) [
          | inr off ↦ inl (rw (any, cold, free, off) refl, λ q (x, ln, v, f) c a n. cc (off, ln))
          | inl ln ↦
              inr (rw (any, cold, free, ln) refl, (refl, ln, ground (arith, any, ln), free), cold)
        ]
      ]
    ]
  ]

  consider-none : (now : ℕ) (id : Bytes) (s : Prober P) → consider now id none s ≡ s
  unfolding consider
  consider-none now id s = refl

  unfoldable pub Candidates : ℕ → Bytes → Option (Addr × ℕ) → Prober P → Probe → Type 0
  Candidates now id o s q =
      Allowed id q s × IsCold now q.addr q.port s × (o ≡ some (q.addr, q.port))

  pub probes-consider :
      (now : ℕ) (id : Bytes) (o : Option (Addr × ℕ)) (s : Prober P) (q : Probe)
      → Member q (consider now id o s).probes ↔ (Member q s.probes ⊎ Candidates now id o s q)
  unfolding Candidates
  probes-consider now id none s q =
      rw (consider-none now id s)
        ((λ m. inl m), λ h. elim h [ inl m ↦ m | inr (_, _, e) ↦ absurd (cc e) ])
  probes-consider now id (some (addr, port)) s q = elim (consider-cases now id addr port s) [
    | inl (same, skipped) ↦ rw same (
      (λ m. inl m),
      λ h. elim h [
        | inl m ↦ m
        | inr (allowed, cold, e) ↦ absurd (skipped q allowed cold (cc e) (cc e))
      ],
    )
    | inr (new, allowed, cold) ↦ rw new (
      (λ h. elim h [ inl e ↦ inr (rw e (allowed, cold, refl)) | inr m ↦ inl m ]),
      λ h. elim h [
        | inl m ↦ inr m
        | inr (allows, _, e) ↦
            let addr_is : addr ≡ q.addr = cc e in
            let port_is : port ≡ q.port = cc e in
            inl λ i. record { peer_id = allows.0 i; addr = sym addr_is i; port = sym port_is i }
      ],
    )
  ]

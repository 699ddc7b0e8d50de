-- ===== src/Probing/Started.antt =====
-- internal/manager/manager.go: which candidates of a peer are probed.
use malon.Base.{
  if_both, ℕ, ◌+◌, ◌≡◌, ◌⊎◌, ◌↔◌, refl, sym, ap, ◌∙◌, true, false, some, List, [], ◌∷◌, Bytes, inl,
  inr, Bool-cases, if◌then◌else◌,
}
use malon.Packet.{Addr}
use malon.Control.{CandidateInfo, Message, Netip}
use malon.Probing.{addr_port_eq, Probe, Prober, consider, validate_each, validate_candidates}
use malon.Probing.Considered.{
  Member, Allowed, IsCold, Candidates, manager-consider, Allowed-consider, probes-consider,
}

module _ {P : Type 0} ⦃net : Netip⦄ where
  -- A candidate of the list has this address, which does not cool down when the loop looks at it.
  abbrev pub Named : (ℕ → ℕ) → Prober P → Addr → ℕ → List CandidateInfo → Type 0
  Named clock s addr port [] = ⊥
  Named clock s addr port (ci ∷ cis) =
      (IsCold (clock 0) addr port s × (net.parse_addr_port ci.addr ≡ some (addr, port)))
      ⊎ Named (λ i. clock (i + 1)) s addr port cis

  Named-cooldown :
      (clock : ℕ → ℕ) (s s' : Prober P) (addr : Addr) (port : ℕ) (cis : List CandidateInfo)
      → s.probe_cooldown ≡ s'.probe_cooldown
      → Named clock s addr port cis
      → Named clock s' addr port cis
  Named-cooldown clock s s' addr port [] same n = n
  Named-cooldown clock s s' addr port (ci ∷ cis) same (inl (cold, e)) = inl (rw same at (cold), e)
  Named-cooldown clock s s' addr port (ci ∷ cis) same (inr n) =
      inr (Named-cooldown (λ i. clock (i + 1)) s s' addr port cis same n)

  probes-validate_each :
      (clock : ℕ → ℕ) (id : Bytes) (cis : List CandidateInfo) (s : Prober P) (q : Probe)
      → Member q (validate_each clock id cis s).probes
        ↔ (Member q s.probes ⊎ (Allowed id q s × Named clock s q.addr q.port cis))
  unfolding validate_each Candidates
  probes-validate_each clock id [] s q =
      ((λ m. inl m), λ h. elim h [ inl m ↦ m | inr (_, e) ↦ absurd e ])
  probes-validate_each clock id (ci ∷ cis) s q =
      let o = net.parse_addr_port ci.addr in
      let s' = consider (clock 0) id o s in
      let later : ℕ → ℕ = λ i. clock (i + 1) in
      let (_, cool, _, _) = manager-consider (clock 0) id o s in
      let allow = Allowed-consider (clock 0) id o s q in
      let first = probes-consider (clock 0) id o s q in
      let rest = probes-validate_each later id cis s' q in
      (
        λ h. elim (rest.0 h) [
          | inl m ↦ elim (first.0 m) [ inl n ↦ inl n | inr (a, cold, e) ↦ inr (a, inl (cold, e)) ]
          | inr (a, n) ↦ inr (allow.0 a, inr (Named-cooldown later s' s q.addr q.port cis cool n))
        ],
        λ h. rest.1 (elim h [
          | inl m ↦ inl (first.1 (inl m))
          | inr (a, n) ↦ elim n [
            | inl (cold, e) ↦ inl (first.1 (inr (a, cold, e)))
            | inr n' ↦ inr (allow.1 a, Named-cooldown later s s' q.addr q.port cis (sym cool) n')
          ]
        ]),
      )

  begun :
      (clock : ℕ → ℕ) (id : Bytes) (msg : Message) (s : Prober P)
      → s.has_ctx ≡ true
      → validate_candidates clock id msg s ≡ validate_each clock id msg.candidates s
  unfolding validate_candidates
  begun clock id msg s on = ap (λ b. if b then validate_each clock id msg.candidates s else s) on

  not_begun :
      (clock : ℕ → ℕ) (id : Bytes) (msg : Message) (s : Prober P)
      → s.has_ctx ≡ false
      → validate_candidates clock id msg s ≡ s
  unfolding validate_candidates
  not_begun clock id msg s off =
      ap (λ b. if b then validate_each clock id msg.candidates s else s) off

  validated-validate_each :
      (clock : ℕ → ℕ) (id : Bytes) (cis : List CandidateInfo) (s : Prober P)
      → ((validate_each clock id cis s).validated ≡ s.validated)
        × ((validate_each clock id cis s).promotions ≡ s.promotions)
  unfolding validate_each
  validated-validate_each clock id [] s = (refl, refl)
  validated-validate_each clock id (ci ∷ cis) s =
      let o = net.parse_addr_port ci.addr in
      let (_, _, v, pr) = manager-consider (clock 0) id o s in
      let (v', pr') =
        validated-validate_each (λ i. clock (i + 1)) id cis (consider (clock 0) id o s) in
      (v' ∙ v, pr' ∙ pr)

  pub validated-validate_candidates :
      (clock : ℕ → ℕ) (id : Bytes) (msg : Message) (s : Prober P)
      → ((validate_candidates clock id msg s).validated ≡ s.validated)
        × ((validate_candidates clock id msg s).promotions ≡ s.promotions)
  unfolding validate_candidates
  validated-validate_candidates clock id msg s =
      if_both (λ (x : Prober P). (x.validated ≡ s.validated) × (x.promotions ≡ s.promotions))
        s.has_ctx (validated-validate_each clock id msg.candidates s) (refl, refl)

  -- After validateCandidates, a probe of an address of a peer has been started that was not before exactly
  -- if Run has begun, a candidate of the message has this address, which does not cool down when the loop
  -- looks at it, the node has a DirectListener, the address is not an IPv6 address, and the peer has
  -- no direct path.
  pub probes-validate_candidates :
      (clock : ℕ → ℕ) (id : Bytes) (msg : Message) (s : Prober P) (q : Probe)
      → Member q (validate_candidates clock id msg s).probes ↔ (
          Member q s.probes
          ⊎ ((s.has_ctx ≡ true) × Allowed id q s × Named clock s q.addr q.port msg.candidates))
  probes-validate_candidates clock id msg s q = elim (Bool-cases s.has_ctx) [
    | inr off ↦
        rw (not_begun clock id msg s off)
          ((λ m. inl m), λ h. elim h [ inl m ↦ m | inr (e, _, _) ↦ absurd (cc (e, off)) ])
    | inl on ↦
        let each = probes-validate_each clock id msg.candidates s q in
        rw (begun clock id msg s on) (
          (λ m. elim (each.0 m) [ inl m ↦ inl m | inr (a, n) ↦ inr (on, a, n) ]),
          λ h. each.1 (elim h [ inl m ↦ inl m | inr (_, a, n) ↦ inr (a, n) ]),
        )
  ]

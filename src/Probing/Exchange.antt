-- ===== src/Probing/Exchange.antt =====
-- internal/manager/manager.go: the candidates that a node sends, at the peer that receives them.
use malon.Base.{
  ℕ, ◌+◌, ◌^◌, ◌<◌, ◌≡◌, ◌⊎◌, ◌↔◌, refl, ap, ◌∙◌, true, Option, none, some, List, [], ◌∷◌, Bytes,
  inl, inr, All, map,
}
use malon.Packet.{Addr, Prefix}
use malon.Candidate.{Candidate, Interface}
use malon.Control.{Message, Netip, Json, IsAddr, decode-encode, msg_type_candidates}
use malon.Probing.{Probe, Prober, handle_control}
use malon.Probing.Own.{own_candidates, candidate_info, candidates_payload}
use malon.Probing.Started.{Named, probes-validate_candidates}
use malon.Probing.Considered.{Member, Allowed, IsCold}

abbrev pub IsPrintable : Candidate → Type 0
IsPrintable c = IsAddr c.addr × (c.port < 65536)

-- One of the candidates has this address, which does not cool down when the receiver looks at it.
abbrev pub Offered : {P : Type 0} → (ℕ → ℕ) → Prober P → Addr → ℕ → List Candidate → Type 0
Offered clock s addr port [] = ⊥
Offered clock s addr port (c ∷ cs) =
    (IsCold (clock 0) addr port s × (◌≡◌ {A = Addr × ℕ} (c.addr, c.port) (addr, port)))
    ⊎ Offered (λ i. clock (i + 1)) s addr port cs

module _ {P : Type 0} ⦃net : Netip⦄ where
  Named-candidate_info :
      (clock : ℕ → ℕ) (s : Prober P) (addr : Addr) (port : ℕ) (cs : List Candidate)
      → All IsPrintable cs
      → Named clock s addr port (map candidate_info cs) ↔ Offered clock s addr port cs
  Named-candidate_info clock s addr port [] h = ((λ n. n), λ n. n)
  Named-candidate_info clock s addr port (c ∷ cs) ((is_addr, is_port), hs) =
      let parsed = net.parse_addr_port-addr_port_string c.addr c.port is_addr is_port in
      let rest = Named-candidate_info (λ i. clock (i + 1)) s addr port cs hs in
      (
        (λ n. elim n [ inl (cold, e) ↦ inl (cold, cc (parsed, e)) | inr n ↦ inr (rest.0 n) ]),
        λ n. elim n [ inl (cold, e) ↦ inl (cold, parsed ∙ ap some e) | inr n ↦ inr (rest.1 n) ],
      )

module _ ⦃net : Netip⦄ ⦃json : Json⦄ where
  no_payload : (generation : ℕ) → candidates_payload generation [] ≡ none
  unfolding candidates_payload
  no_payload generation = refl

module _ {P : Type 0} ⦃net : Netip⦄ ⦃json : Json⦄ where
  -- What the receiver of `b` starts.
  abbrev pub Received : (ℕ → ℕ) → Bytes → Bytes → List Candidate → Prober P → Probe → Type 0
  Received clock src b cs s q = Member q (handle_control clock src b s).probes ↔ (
      Member q s.probes ⊎ ((s.has_ctx ≡ true) × Allowed src q s × Offered clock s q.addr q.port cs))

  sent-Received :
      (generation : ℕ) (c : Candidate) (cs : List Candidate)
      → generation < 2 ^ 32
      → All IsPrintable (c ∷ cs)
      → (b : Bytes) × (candidates_payload generation (c ∷ cs) ≡ some b)
        × ((clock : ℕ → ℕ) (src : Bytes) (s : Prober P) (q : Probe)
            → Received clock src b (c ∷ cs) s q)
  unfolding candidates_payload handle_control
  sent-Received generation c cs l h =
      let msg : Message = record {
        msg_type = msg_type_candidates;
        generation = generation;
        candidates = map candidate_info (c ∷ cs);
      } in
      let (b, sent, got) = decode-encode msg l in
      (
        b,
        rw sent refl,
        λ clock src s q.
            let started = probes-validate_candidates clock src msg s q in
            let named = Named-candidate_info clock s q.addr q.port (c ∷ cs) h in
            rw got (
              (λ m. elim (started.0 m) [ inl n ↦ inl n | inr (on, a, n) ↦ inr (on, a, named.0 n) ]),
              λ m. started.1 (elim m [ inl n ↦ inl n | inr (on, a, n) ↦ inr (on, a, named.1 n) ]),
            ),
      )

  -- A node that has no candidates sends nothing. One that has some, whose addresses can be printed, sends a
  -- message after which the receiver has started to probe exactly those of them that it allows and that do not
  -- cool down when it looks at them, besides what it had started.
  pub own_candidates-Received :
      (listen_port : Option ℕ) (generation : ℕ) (overlay : Option Prefix)
      (ifaces : Option (List Interface)) (stun : Option (Addr × ℕ))
      → generation < 2 ^ 32
      → All IsPrintable (own_candidates listen_port generation overlay ifaces stun)
      → ((own_candidates listen_port generation overlay ifaces stun ≡ [])
          × (candidates_payload generation
                (own_candidates listen_port generation overlay ifaces stun)
              ≡ none))
        ⊎ ((b : Bytes) × (candidates_payload generation
                (own_candidates listen_port generation overlay ifaces stun)
              ≡ some b)
            × ((clock : ℕ → ℕ) (src : Bytes) (s : Prober P) (q : Probe)
                → Received clock src b
                    (own_candidates listen_port generation overlay ifaces stun)
                    s
                    q))
  own_candidates-Received listen_port generation overlay ifaces stun l h =
      by_candidates (own_candidates listen_port generation overlay ifaces stun) h
    where
      by_candidates :
          (cs : List Candidate)
          → All IsPrintable cs
          → ((cs ≡ []) × (candidates_payload generation cs ≡ none))
            ⊎ ((b : Bytes) × (candidates_payload generation cs ≡ some b)
                × ((clock : ℕ → ℕ) (src : Bytes) (s : Prober P) (q : Probe)
                    → Received clock src b cs s q))
      by_candidates [] h = inl (refl, no_payload generation)
      by_candidates (c ∷ cs) h = inr (sent-Received generation c cs l h)

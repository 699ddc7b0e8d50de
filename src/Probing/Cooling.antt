-- ===== src/Probing/Cooling.antt =====
-- internal/manager/manager.go: an address whose probe has failed, while its entry in `probeCooldown` stays.
use malon.Base.{
  if_both, ℕ, ◌+◌, ◌<◌, ◌≤◌, ◌≡◌, ◌≢◌, ◌↔◌, refl, ◌∙◌, true, Option, some, List, [], ◌∷◌, Bytes,
  Error, Result, ok, err, inl, inr, arith, lt→ltb, Bool-cases,
}
use text.Mathlib.Text.{◌==◌ as str_eq}
use malon.Base.Keys.{lookup, insert, lookup-insert, lookup-delete_ne, lookup-insert_self}
use malon.Packet.{Addr}
use malon.Direct.{ValidatedTransport}
use malon.Control.{CandidateInfo, Message, Netip, Json, decode, msg_type_candidates}
use malon.Manager.{Manager}
use malon.Probing.{
  addr_port_eq, Probe, Prober, cooling, consider, validate_each, validate_candidates, controlled,
  handle_control, probe_finished, probe_cooldown_dur, gave_up, found, timed_out,
}
use malon.Probing.Considered.{Member, Candidates, manager-consider, probes-consider}
use malon.Probing.Started.{Named, probes-validate_candidates}

-- A step before the time `until` that leaves the address's entry: handleControl, a round of validateCandidates, any
-- change of the manager's own state, and the end of a probe, unless it has found this address or has
-- made no attempt. A failure sets an entry anew, for longer.
pub data Quiet {P : Type 0} ⦃net : Netip⦄ ⦃json : Json⦄ (addr : Addr) (port until : ℕ)
    : Prober P → Prober P → Type 0 where
  message :
      (clock : ℕ → ℕ) (src payload : Bytes) (s : Prober P)
      → ((i : ℕ) → clock i < until)
      → Quiet addr port until s (handle_control clock src payload s)
  considered :
      (now : ℕ) (id : Bytes) (o : Option (Addr × ℕ)) (s : Prober P)
      → now < until
      → Quiet addr port until s (consider now id o s)
  ended_early :
      (now : ℕ) (p : Probe) (s : Prober P)
      → Quiet addr port until s (probe_finished now p gave_up s)
  ended_late :
      (now : ℕ) (p : Probe) (e : Error) (s : Prober P)
      → until ≤ now + probe_cooldown_dur
      → Quiet addr port until s (probe_finished now p (timed_out (some e)) s)
  found_other :
      (now : ℕ) (p : Probe) (v : ValidatedTransport) (s : Prober P)
      → ◌≢◌ {A = Addr × ℕ} (p.addr, p.port) (addr, port)
      → Quiet addr port until s (probe_finished now p (found v) s)
  managed : (m : Manager P) (s : Prober P) → Quiet addr port until s (record s { manager = m })

-- Any number of such steps, in any order.
pub data Quietly {P : Type 0} ⦃net : Netip⦄ ⦃json : Json⦄ (addr : Addr) (port until : ℕ)
    (s : Prober P) : Prober P → Type 0 where
  nothing : Quietly addr port until s s
  then_ :
      {t u : Prober P}
      → Quietly addr port until s t
      → Quiet addr port until t u
      → Quietly addr port until s u

module _ {P : Type 0} (addr : Addr) (port until : ℕ) where
  -- The address cools down until this time at least.
  abbrev IsHot : Prober P → Type 0
  IsHot s = (u : ℕ) × (lookup (addr, port) s.probe_cooldown ≡ some u) × (until ≤ u)

  IsHot-cooling :
      (now : ℕ) (s : Prober P)
      → now < until
      → IsHot s
      → cooling now addr port s.probe_cooldown ≡ true
  unfolding cooling
  IsHot-cooling now s l (u, there, le) = rw (there, cooling) (lt→ltb now u (omega (arith, l, le)))

  IsHot-insert :
      (a : Addr × ℕ) (u : ℕ) (s : Prober P)
      → until ≤ u
      → IsHot s
      → IsHot (record s { probe_cooldown = insert a u s.probe_cooldown })
  IsHot-insert a u s le (w, there, le') = elim (Bool-cases (addr_port_eq.beq a (addr, port))) [
    | inl same ↦ (u, lookup-insert a (addr, port) u s.probe_cooldown ∙ rw same refl, le)
    | inr other ↦ (w, lookup-insert a (addr, port) u s.probe_cooldown ∙ rw other there, le')
  ]

module _ {P : Type 0} ⦃net : Netip⦄ where
  Named-hot :
      (clock : ℕ → ℕ) (s : Prober P) (addr : Addr) (port : ℕ) (cis : List CandidateInfo)
      → ((i : ℕ) → cooling (clock i) addr port s.probe_cooldown ≡ true)
      → ¬ Named clock s addr port cis
  Named-hot clock s addr port [] hot n = n
  Named-hot clock s addr port (ci ∷ cis) hot (inl (cold, e)) = cc (hot 0, cold)
  Named-hot clock s addr port (ci ∷ cis) hot (inr n) =
      Named-hot (λ i. clock (i + 1)) s addr port cis (λ i. hot (i + 1)) n

  cooldown-validate_each :
      (clock : ℕ → ℕ) (id : Bytes) (cis : List CandidateInfo) (s : Prober P)
      → (validate_each clock id cis s).probe_cooldown ≡ s.probe_cooldown
  unfolding validate_each
  cooldown-validate_each clock id [] s = refl
  cooldown-validate_each clock id (ci ∷ cis) s =
      let o = net.parse_addr_port ci.addr in
      cooldown-validate_each (λ i. clock (i + 1)) id cis (consider (clock 0) id o s)
      ∙ (manager-consider (clock 0) id o s).1

  cooldown-validate_candidates :
      (clock : ℕ → ℕ) (id : Bytes) (msg : Message) (s : Prober P)
      → (validate_candidates clock id msg s).probe_cooldown ≡ s.probe_cooldown
  unfolding validate_candidates
  cooldown-validate_candidates clock id msg s =
      if_both (λ (x : Prober P). x.probe_cooldown ≡ s.probe_cooldown) s.has_ctx
        (cooldown-validate_each clock id msg.candidates s) refl

module _ {P : Type 0} ⦃net : Netip⦄ ⦃json : Json⦄ (addr : Addr) (port until : ℕ) where
  -- The entry is still there, and no probe of the address was added.
  abbrev Keeps : Prober P → Prober P → Type 0
  Keeps s t =
      IsHot addr port until t
      × ((q : Probe) → q.addr ≡ addr → q.port ≡ port → Member q t.probes ↔ Member q s.probes)

  validate_candidates-Keeps :
      (clock : ℕ → ℕ) (id : Bytes) (msg : Message) (s : Prober P)
      → ((i : ℕ) → clock i < until)
      → IsHot addr port until s
      → Keeps s (validate_candidates clock id msg s)
  validate_candidates-Keeps clock id msg s l (u, there, le) = (
    (u, rw (cooldown-validate_candidates clock id msg s) there, le),
    λ q same_addr same_port.
        let started = probes-validate_candidates clock id msg s q in
        let hot : (i : ℕ) → cooling (clock i) q.addr q.port s.probe_cooldown ≡ true = λ i.
          rw (same_addr, same_port)
            (IsHot-cooling addr port until (clock i) s (l i) (u, there, le)) in
        (
          (λ m. elim (started.0 m) [
            | inl n ↦ n
            | inr (_, _, named) ↦ absurd (Named-hot clock s q.addr q.port msg.candidates hot named)
          ]),
          λ n. started.1 (inl n),
        ),
  )

  controlled-Keeps :
      (clock : ℕ → ℕ) (src : Bytes) (r : Result Message) (s : Prober P)
      → ((i : ℕ) → clock i < until)
      → IsHot addr port until s
      → Keeps s (controlled clock src r s)
  controlled-Keeps clock src (err e) s l h = (h, λ q _ _. ((λ m. m), λ m. m))
  controlled-Keeps clock src (ok msg) s l h =
      if_both (Keeps s) (str_eq msg.msg_type msg_type_candidates)
        (validate_candidates-Keeps clock src msg s l h) (h, λ q _ _. ((λ m. m), λ m. m))

  Quiet-Keeps : {s t : Prober P} → Quiet addr port until s t → IsHot addr port until s → Keeps s t
  unfolding handle_control probe_finished Candidates
  Quiet-Keeps (message clock src payload s l) h = controlled-Keeps clock src (decode payload) s l h
  Quiet-Keeps (considered now id o s l) (u, there, le) =
      let (_, cool, _, _) = manager-consider now id o s in
      (
        (u, rw cool there, le),
        λ q same_addr same_port.
            let hot : cooling now q.addr q.port s.probe_cooldown ≡ true =
              rw (same_addr, same_port) (IsHot-cooling addr port until now s l (u, there, le)) in
            let started = probes-consider now id o s q in
            (
              (λ m. elim (started.0 m) [ inl n ↦ n | inr (_, cold, _) ↦ absurd (cc (hot, cold)) ]),
              λ n. started.1 (inl n),
            ),
      )
  Quiet-Keeps (ended_early now p s) h = (h, λ q _ _. ((λ m. m), λ m. m))
  Quiet-Keeps (ended_late now p e s le) h = (
    IsHot-insert addr port until (p.addr, p.port) (now + probe_cooldown_dur) s le h,
    λ q _ _. ((λ m. m), λ m. m),
  )
  Quiet-Keeps (found_other now p v s other) (u, there, le) = (
    (u, lookup-delete_ne (p.addr, p.port) (addr, port) s.probe_cooldown other ∙ there, le),
    λ q _ _. ((λ m. m), λ m. m),
  )
  Quiet-Keeps (managed m s) h = (h, λ q _ _. ((λ m. m), λ m. m))

  Quietly-Keeps :
      {s t : Prober P} → Quietly addr port until s t → IsHot addr port until s → Keeps s t
  Quietly-Keeps nothing h = (h, λ q _ _. ((λ m. m), λ m. m))
  Quietly-Keeps (then_ before step) h =
      let (h', first) = Quietly-Keeps before h in
      let (h'', second) = Quiet-Keeps step h' in
      (
        h'',
        λ q a n. (
          (λ m. (first q a n).0 ((second q a n).0 m)),
          λ m. (second q a n).1 ((first q a n).1 m),
        ),
      )

module _ {P : Type 0} ⦃net : Netip⦄ ⦃json : Json⦄ where
  -- When a probe has failed, for whichever peer, then no probe of its address is added to those that had been
  -- started, in any sequence of handled messages of any peers, rounds of validateCandidates, ends of
  -- probes and changes of the manager's own state, as long as the clock that the messages and the
  -- rounds read is less than 30 seconds further, no probe of the address has succeeded or made no
  -- attempt, no failure is older than this one, and no relay connection has come back, which empties
  -- the table.
  pub probe_finished-cools :
      (now : ℕ) (p q : Probe) (e : Error) (s t : Prober P)
      → Quietly p.addr p.port
          (now + probe_cooldown_dur)
          (probe_finished now p (timed_out (some e)) s)
          t
      → q.addr ≡ p.addr
      → q.port ≡ p.port
      → Member q t.probes ↔ Member q s.probes
  unfolding probe_finished
  probe_finished-cools now p q e s t steps same_addr same_port =
      let until = now + probe_cooldown_dur in
      (Quietly-Keeps p.addr p.port until steps
          (until, lookup-insert_self (p.addr, p.port) until s.probe_cooldown, omega arith)).1
        q same_addr same_port

-- ===== src/Probing/Proven.antt =====
-- internal/manager/manager.go: what the transports in `validated`, and those that tryPromotePath gets, have shown.
use malon.Base.{
  if_both, ℕ, zero, ◌+◌, ◌%◌, ◌^◌, ◌≡◌, refl, false, Option, none, some, List, [], ◌∷◌, ◌++◌, Bytes,
  String, Result, ok, err, inl, inr, Bool-cases, Option-cases, All,
}
use text.Mathlib.Text.{◌==◌ as str_eq}
use malon.Base.Lists.{All-append, All-map}
use malon.Base.Keys.{Eq, bytes_eq, lookup, insert, delete}
use malon.Identity.{Crypto}
use malon.Auth.{TlsConfig, new_probe_client_tls_config}
use malon.Direct.{Closes, ValidatedTransport, Dialled}
use malon.Direct.Dialing.{Proves}
use malon.Control.{Message, Netip, Json, decode, msg_type_candidates}
use malon.Manager.{MionPeer, Manager}
use malon.Manager.Retrying.{setup_relay_peers}
use malon.Manager.Steps as Manager_steps
use malon.Packet.{Addr}
use malon.Manager.Sections.Interleaved.{Section}
use malon.Probing.{
  consider, Probe, Prober, Attempt, Probed, gave_up, found, timed_out, is6, controlled,
  handle_control, probe_loop, probe_finished, validated_of, validate_candidates,
}
use malon.Probing.Rounds.{Means, probe_loop-Means}
use malon.Probing.Started.{probes-validate_candidates, validated-validate_candidates}
use malon.Probing.Considered.{Member, Candidates, manager-consider, probes-consider}

module _ {K : Type 0} {V : Type 0} ⦃e : Eq K⦄ where
  All-delete : (Q : K × V → Type 0) (k : K) (m : List (K × V)) → All Q m → All Q (delete k m)
  unfolding delete
  All-delete Q k [] h = tt
  All-delete Q k ((j, v) ∷ m) (h, hs) =
      if_both (All Q) (e.beq k j) (All-delete Q k m hs) (h, All-delete Q k m hs)

  All-lookup :
      (Q : K × V → Type 0) (k : K) (v : V) (m : List (K × V))
      → All Q m
      → lookup k m ≡ some v
      → Q (k, v)
  unfolding lookup
  All-lookup Q k v [] h eq = absurd (cc eq)
  All-lookup Q k v ((j, w) ∷ m) (h, hs) eq = elim (Bool-cases (e.beq k j)) [
    | inl same ↦
        let here : some w ≡ some v = rw same at (eq) in
        let value : w ≡ v = cc here in rw ((e.beq_iff k j).0 same, ← value) h
    | inr other ↦ All-lookup Q k v m hs (rw other at (eq))
  ]

-- The retry loops that have ended, the latest first: each with its probe and what its attempts have met.
abbrev pub Loops : Type 0
Loops = List (Probe × (ℕ → Attempt))

module _ ⦃c : Crypto⦄ where
  -- A transport to the peer `id`: one of these loops has probed its address for `id`, an IPv4 address, and one of
  -- its attempts has made a QUIC connection, with the TLS configuration of a probe for `id`, in which the
  -- first certificate of the other side holds the key of `id`, in the time that the transport has.
  abbrev pub Shown : Loops → Bytes → ValidatedTransport → Type 0
  Shown loops id v =
      (v.peer_id ≡ id)
      × (is6 v.remote_addr ≡ false)
      × ((p : Probe) × (attempts : ℕ → Attempt) × (k : ℕ) × (priv : Bytes) × (t : TlsConfig)
          × (d : Dialled) × Member (p, attempts) loops
          × (p.peer_id ≡ id)
          × (p.addr ≡ v.remote_addr)
          × (p.port ≡ v.remote_port)
          × (new_probe_client_tls_config (attempts k).moment priv id ≡ ok t)
          × ((attempts k).quic t ≡ ok d)
          × Proves id d.peer_certificates
          × (v.rtt ≡ d.elapsed))

  abbrev AllShown : Loops → Bytes × List ValidatedTransport → Type 0
  AllShown loops (id, vs) = All (Shown loops id) vs

  abbrev PromotedShown : Loops → Bytes × ValidatedTransport → Type 0
  PromotedShown loops (id, v) = Shown loops id v

  pub record IsShown {P : Type 0} (loops : Loops) (s : Prober P) : Type 0 where
    pub probes_v4 : (q : Probe) → Member q s.probes → is6 q.addr ≡ false
    pub validated_shown : All (AllShown loops) s.validated
    pub promotions_shown : All (PromotedShown loops) s.promotions

  Shown-later :
      (loop : Probe × (ℕ → Attempt)) (loops : Loops) (id : Bytes) (v : ValidatedTransport)
      → Shown loops id v
      → Shown (loop ∷ loops) id v
  Shown-later loop loops id v
        (same, is_v4, (p, attempts, k, priv, t, d, m, a, b, e, x, q, proves, y)) =
      (same, is_v4, (p, attempts, k, priv, t, d, inr m, a, b, e, x, q, proves, y))

  IsShown-later :
      {P : Type 0} (loop : Probe × (ℕ → Attempt)) (loops : Loops) (s : Prober P)
      → IsShown loops s
      → IsShown (loop ∷ loops) s
  IsShown-later loop loops s i = record {
    probes_v4 = i.probes_v4;
    validated_shown =
        All-map (λ (id, vs) h. All-map (λ v k. Shown-later loop loops id v k) vs h) s.validated
          i.validated_shown;
    promotions_shown =
        All-map (λ (id, v) h. Shown-later loop loops id v h) s.promotions i.promotions_shown;
  }

-- A step, with the retry loop that ends in it, if any.
pub data Step {P : Type 0} ⦃c : Crypto⦄ ⦃net : Netip⦄ ⦃json : Json⦄ ⦃mion : MionPeer P⦄
    : Prober P → Loops → Prober P → Type 0 where
  message :
      (clock : ℕ → ℕ) (src payload : Bytes) (s : Prober P)
      → Step s [] (handle_control clock src payload s)
  considered :
      (now : ℕ) (id : Bytes) (o : Option (Addr × ℕ)) (s : Prober P)
      → Step s [] (consider now id o s)
  probed :
      (priv : Bytes) (p : Probe) (attempts : ℕ → Attempt) (fuel deadline now : ℕ) (r : Probed)
      (closes closes' : Closes) (s : Prober P)
      → Member p s.probes
      → probe_loop priv fuel p deadline attempts zero none closes ≡ some (r, closes')
      → Step s ((p, attempts) ∷ []) (probe_finished now p r s)
  relay_reconnected :
      (u : String) (s : Prober P)
      → Step s [] (record s {
        manager =
            setup_relay_peers u
              (record s.manager { generation = (s.manager.generation + 1) % 2 ^ 32 });
        probe_cooldown = [];
      })
  manager_step :
      (m : Manager P) (s : Prober P)
      → Manager_steps.Step s.manager m
      → Step s [] (record s { manager = m })
  manager_section :
      (m : Manager P) (s : Prober P) → Section s.manager m → Step s [] (record s { manager = m })

pub data Reach {P : Type 0} ⦃c : Crypto⦄ ⦃net : Netip⦄ ⦃json : Json⦄ ⦃mion : MionPeer P⦄
    : Loops → Prober P → Type 0 where
  begins : (s : Prober P) → s.validated ≡ [] → s.probes ≡ [] → s.promotions ≡ [] → Reach [] s
  followed_by :
      {s t : Prober P} {loops new : Loops} → Reach loops s → Step s new t → Reach (new ++ loops) t

module _ {P : Type 0} ⦃c : Crypto⦄ ⦃net : Netip⦄ (loops : Loops) where
  validate_candidates-IsShown :
      (clock : ℕ → ℕ) (id : Bytes) (msg : Message) (s : Prober P)
      → IsShown loops s
      → IsShown loops (validate_candidates clock id msg s)
  validate_candidates-IsShown clock id msg s i =
      let (v, pr) = validated-validate_candidates clock id msg s in
      record {
        probes_v4 = λ q m. elim ((probes-validate_candidates clock id msg s q).0 m) [
          | inl n ↦ i.probes_v4 q n
          | inr (_, (_, _, is_v4, _), _) ↦ is_v4
        ];
        validated_shown = rw v i.validated_shown;
        promotions_shown = rw pr i.promotions_shown;
      }

  consider-IsShown :
      (now : ℕ) (id : Bytes) (o : Option (Addr × ℕ)) (s : Prober P)
      → IsShown loops s
      → IsShown loops (consider now id o s)
  unfolding Candidates
  consider-IsShown now id o s i =
      let (_, _, v, pr) = manager-consider now id o s in
      record {
        probes_v4 = λ q m. elim ((probes-consider now id o s q).0 m) [
          | inl n ↦ i.probes_v4 q n
          | inr ((_, _, is_v4, _), _, _) ↦ is_v4
        ];
        validated_shown = rw v i.validated_shown;
        promotions_shown = rw pr i.promotions_shown;
      }

  controlled-IsShown :
      (clock : ℕ → ℕ) (src : Bytes) (r : Result Message) (s : Prober P)
      → IsShown loops s
      → IsShown loops (controlled clock src r s)
  controlled-IsShown clock src (err e) s i = i
  controlled-IsShown clock src (ok msg) s i =
      if_both (IsShown loops) (str_eq msg.msg_type msg_type_candidates)
        (validate_candidates-IsShown clock src msg s i) i

  validated_of-Shown :
      (id : Bytes) (s : Prober P) → IsShown loops s → All (Shown loops id) (validated_of id s)
  validated_of-Shown id s i = elim (Option-cases (lookup id s.validated)) [
    | inl none_there ↦ rw (none_there, All) tt
    | inr (vs, there) ↦
        rw (there, All) (All-lookup (AllShown loops) id vs s.validated i.validated_shown there)
  ]

  probe_finished-IsShown :
      (now : ℕ) (priv : Bytes) (p : Probe) (r : Probed) (deadline : ℕ) (attempts : ℕ → Attempt)
      (s : Prober P)
      → is6 p.addr ≡ false
      → Member (p, attempts) loops
      → Means priv p attempts deadline r
      → IsShown loops s
      → IsShown loops (probe_finished now p r s)
  unfolding probe_finished insert
  probe_finished-IsShown now priv p gave_up deadline attempts s is_v4 m h i = i
  probe_finished-IsShown now priv p (timed_out none) deadline attempts s is_v4 m h i = record {
    probes_v4 = i.probes_v4;
    validated_shown = i.validated_shown;
    promotions_shown = i.promotions_shown;
  }
  probe_finished-IsShown now priv p (timed_out (some e)) deadline attempts s is_v4 m h i = record {
    probes_v4 = i.probes_v4;
    validated_shown = i.validated_shown;
    promotions_shown = i.promotions_shown;
  }
  probe_finished-IsShown now priv p (found v) deadline attempts s is_v4 m
        (k, _, _, _, (t, d, made, dialled, proves, same)) i =
      let shown : Shown loops p.peer_id v = rw same (
        refl,
        is_v4,
        (p, attempts, k, priv, t, d, m, refl, refl, refl, made, dialled, proves, refl),
      ) in
      record {
        probes_v4 = i.probes_v4;
        validated_shown = (
          All-append (Shown loops p.peer_id) (validated_of p.peer_id s) (v ∷ [])
              (validated_of-Shown p.peer_id s i) (shown, tt),
          All-delete (AllShown loops) p.peer_id s.validated i.validated_shown,
        );
        promotions_shown =
            if_both (All (PromotedShown loops)) s.manager.is_client (shown, i.promotions_shown)
              i.promotions_shown;
      }

module _ {P : Type 0} ⦃c : Crypto⦄ ⦃net : Netip⦄ ⦃json : Json⦄ ⦃mion : MionPeer P⦄ where
  step-IsShown :
      {s t : Prober P} {new : Loops} (loops : Loops)
      → Step s new t
      → IsShown loops s
      → IsShown (new ++ loops) t
  unfolding handle_control
  step-IsShown loops (message clock src payload s) i =
      controlled-IsShown loops clock src (decode payload) s i
  step-IsShown loops (considered now id o s) i = consider-IsShown loops now id o s i
  step-IsShown loops (probed priv p attempts fuel deadline now r closes closes' s started loop) i =
      probe_finished-IsShown ((p, attempts) ∷ loops) now priv p r deadline attempts s
        (i.probes_v4 p started) (inl refl)
        (probe_loop-Means priv p attempts fuel deadline zero none closes closes' r loop)
        (IsShown-later (p, attempts) loops s i)
  step-IsShown loops (relay_reconnected u s) i = record {
    probes_v4 = i.probes_v4;
    validated_shown = i.validated_shown;
    promotions_shown = i.promotions_shown;
  }
  step-IsShown loops (manager_step m s _) i = record {
    probes_v4 = i.probes_v4;
    validated_shown = i.validated_shown;
    promotions_shown = i.promotions_shown;
  }
  step-IsShown loops (manager_section m s _) i = record {
    probes_v4 = i.probes_v4;
    validated_shown = i.validated_shown;
    promotions_shown = i.promotions_shown;
  }

  -- In every state that the handlers reach, each transport in `validated` and each that tryPromotePath
  -- gets is for its peer, at an IPv4 address that a retry loop has probed for this peer, and one of that
  -- loop's attempts has made a QUIC connection, with the TLS configuration of a probe for this peer, in
  -- which the first certificate of the other side holds the key of this peer, in the time that the
  -- transport has.
  pub Reach-IsShown : {loops : Loops} {s : Prober P} → Reach loops s → IsShown loops s
  Reach-IsShown (begins s no_validated no_probes no_promotions) = record {
    probes_v4 = λ q m. absurd (rw no_probes at (m));
    validated_shown = rw no_validated tt;
    promotions_shown = rw no_promotions tt;
  }
  Reach-IsShown (followed_by reached step) = step-IsShown _ step (Reach-IsShown reached)

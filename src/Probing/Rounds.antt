-- ===== src/Probing/Rounds.antt =====
-- internal/manager/manager.go: the retry loop of a probe ends, and what its end says of the attempts.
use malon.Base.{
  Bytes, ℕ, zero, suc, ◌+◌, ◌*◌, ◌≤◌, ◌<◌, ◌≡◌, refl, ap, false, Option, none, some, Error, Result,
  ok, err, inl, inr, Bool-cases, arith, ltb, ltb→lt,
}
use malon.Identity.{Crypto}
use malon.Auth.{TlsConfig, new_probe_client_tls_config}
use malon.Direct.{Closes, ValidatedTransport, Dialled, probe}
use malon.Direct.Dialing.{Proves, probe_iff}
use malon.Probing.{
  retry_interval, total_timeout, Probe, Attempt, Probed, gave_up, found, timed_out, Round, ended,
  again, attempted, probe_round, probe_loop,
}

module _ ⦃c : Crypto⦄ (priv : Bytes) (p : Probe) (attempts : ℕ → Attempt) where
  abbrev Spaced : Type 0
  Spaced = (k : ℕ) → (attempts k).now + retry_interval ≤ (attempts (suc k)).now

  Ends : ℕ → ℕ → ℕ → Option Error → Closes → Type 0
  Ends fuel deadline k last_err closes =
      (r : Probed) × (closes' : Closes) × (probe_loop priv fuel p deadline attempts k last_err
          closes
        ≡ some (r, closes'))

  probe_round-late :
      (deadline k : ℕ) (last_err : Option Error) (closes : Closes)
      → deadline ≤ (attempts k).now
      → probe_round priv p deadline (attempts k) last_err closes ≡ ended (timed_out last_err) closes
  unfolding probe_round
  probe_round-late deadline k last_err closes l =
      let late : ltb (attempts k).now deadline ≡ false = ground (arith, l) in rw late refl

  probe_loop-Ends :
      Spaced
      → (fuel deadline k : ℕ) (last_err : Option Error) (closes : Closes)
      → deadline ≤ (attempts k).now + fuel * retry_interval
      → Ends (suc fuel) deadline k last_err closes
  unfolding probe_loop Ends
  probe_loop-Ends spaced zero deadline k last_err closes l = (
    timed_out last_err,
    closes,
    rw (probe_round-late deadline k last_err closes (omega (arith, l)), probe_loop) refl,
  )
  probe_loop-Ends spaced (suc fuel) deadline k last_err closes l =
      by_round
        (λ e closes'.
          probe_loop-Ends spaced fuel deadline (suc k) (some e) closes'
            (omega (arith, l, spaced k)))
        (probe_round priv p deadline (attempts k) last_err closes) refl
    where
      by_round :
          ((e : Error) (closes' : Closes) → Ends (suc fuel) deadline (suc k) (some e) closes')
          → (r : Round) → probe_round priv p deadline (attempts k) last_err closes ≡ r
          → Ends (suc (suc fuel)) deadline k last_err closes
      by_round ih (ended r closes') e = (r, closes', rw (e, probe_loop) refl)
      by_round ih (again x closes') e =
          let (r, closes'', same) = ih x closes' in (r, closes'', rw (e, probe_loop) same)

  -- If an interval at least passes between the tests of the retry loop, then the loop ends within 151 rounds, however
  -- long each attempt takes.
  pub probe_loop-ends :
      (start : ℕ) (closes : Closes)
      → start ≤ (attempts zero).now
      → ((k : ℕ) → (attempts k).now + retry_interval ≤ (attempts (suc k)).now)
      → (r : Probed) × (closes' : Closes) × (probe_loop priv 151 p
            (start + total_timeout)
            attempts
            zero
            none
            closes
          ≡ some (r, closes'))
  unfolding Ends
  probe_loop-ends start closes l spaced =
      probe_loop-Ends spaced 150 (start + total_timeout) zero none closes (omega (arith, l))

  -- What each end of the loop says.
  abbrev pub Means : ℕ → Probed → Type 0
  Means deadline gave_up = Unit {0}
  Means deadline (timed_out e) = (k : ℕ) × (deadline ≤ (attempts k).now)
  Means deadline (found v) =
      (k : ℕ) × ((attempts k).now < deadline)
      × ((attempts k).ctx_done ≡ false)
      × ((attempts k).already ≡ false)
      × ((t : TlsConfig) × (d : Dialled) × (new_probe_client_tls_config (attempts k).moment priv
              p.peer_id
            ≡ ok t)
          × ((attempts k).quic t ≡ ok d)
          × Proves p.peer_id d.peer_certificates
          × (v ≡ record {
            remote_addr = p.addr;
            remote_port = p.port;
            peer_id = p.peer_id;
            rtt = d.elapsed;
          }))

  attempted-Means :
      (deadline k : ℕ) (closes closes' : Closes) (r : Probed)
      (o : Result ValidatedTransport × Closes)
      → (attempts k).now < deadline
      → (attempts k).ctx_done ≡ false
      → (attempts k).already ≡ false
      → probe (attempts k).moment priv p.addr p.port p.peer_id (attempts k).quic closes ≡ o
      → attempted (attempts k) o ≡ ended r closes'
      → Means deadline r
  attempted-Means deadline k closes closes' r (ok v, cs) l going free o h =
      let same : found v ≡ r = cc h in
      let (t, d, made, q, proves, v_is) =
        ((probe_iff (attempts k).moment priv p.addr p.port p.peer_id (attempts k).quic closes v).1
        ).0
          (ap (λ x. x.0) o) in
      rw (← same) (k, l, going, free, (t, d, made, q, proves, v_is))
  attempted-Means deadline k closes closes' r (err e, cs) l going free o h =
      elim (Bool-cases (attempts k).cancelled) [
        | inl stop ↦ let same : gave_up ≡ r = cc (rw stop at (h)) in rw (← same) tt
        | inr on ↦ absurd (cc (rw on at (h)))
      ]

  probe_round-Means :
      (deadline k : ℕ) (last_err : Option Error) (closes closes' : Closes) (r : Probed)
      → probe_round priv p deadline (attempts k) last_err closes ≡ ended r closes'
      → Means deadline r
  unfolding probe_round
  probe_round-Means deadline k last_err closes closes' r h =
      elim (Bool-cases (ltb (attempts k).now deadline)) [
        | inr late ↦
            let same : timed_out last_err ≡ r = cc (rw late at (h)) in
            rw (← same) (k, ground (arith, late))
        | inl early ↦ elim (Bool-cases (attempts k).ctx_done) [
          | inl done ↦ let same : gave_up ≡ r = cc (rw (early, done) at (h)) in rw (← same) tt
          | inr going ↦ elim (Bool-cases (attempts k).already) [
            | inl direct ↦
                let same : gave_up ≡ r = cc (rw (early, going, direct) at (h)) in rw (← same) tt
            | inr free ↦
                attempted-Means deadline k closes closes' r _ (ltb→lt _ _ early) going free refl
                  (rw (early, going, free) at (h))
          ]
        ]
      ]

  -- The retry loop reports an address as validated only after an attempt that began before the deadline, with the
  -- context not done and no direct path to the peer, in which the QUIC dial succeeded and the other side showed
  -- the key of the peer; and it runs out of time only at the deadline or later.
  pub probe_loop-Means :
      (fuel deadline k : ℕ) (last_err : Option Error) (closes closes' : Closes) (r : Probed)
      → probe_loop priv fuel p deadline attempts k last_err closes ≡ some (r, closes')
      → Means deadline r
  unfolding probe_loop
  probe_loop-Means zero deadline k last_err closes closes' r h = absurd (cc h)
  probe_loop-Means (suc fuel) deadline k last_err closes closes' r h =
      by_round (λ e cs j. probe_loop-Means fuel deadline (suc k) (some e) cs closes' r j)
        (probe_round priv p deadline (attempts k) last_err closes) refl h
    where
      by_round :
          ((e : Error) (cs : Closes)
            → probe_loop priv fuel p deadline attempts (suc k) (some e) cs ≡ some (r, closes')
            → Means deadline r)
          → (o : Round) → probe_round priv p deadline (attempts k) last_err closes ≡ o
          → (elim o as (λ _. Option (Probed × Closes)) [
            | ended x cs ↦ some (x, cs)
            | again e cs ↦ probe_loop priv fuel p deadline attempts (suc k) (some e) cs
          ])
            ≡ some (r, closes')
          → Means deadline r
      by_round ih (ended x cs) e h =
          let same : x ≡ r = cc h in
          rw (← same) (probe_round-Means deadline k last_err closes cs x e)
      by_round ih (again x cs) e h = ih x cs h

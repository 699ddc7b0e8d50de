-- ===== src/Reconnect/Uncrashed.antt =====
-- internal/manager/manager.go: relayConnectLoop does not crash its proxy, and comes back from every attempt.
use malon.Base.{
  is_some, ℕ, ◌<◌, ◌||◌, ◌≡◌, refl, Bool, true, false, Option, none, some, List, [], ◌∷◌, Error,
  String, All, ok, length, if◌then◌else◌,
}
use malon.Identity.{Crypto, peer_id_string}
use malon.Proxy.{Proxy}
use malon.Proxy.Validity.{IsValid}
use malon.Proxy.Owned.{IsOwned}
use malon.Connecting.{Http2Transport, Response, connect}
use malon.Connecting.Valid.{connect-IsValid}
use malon.Connecting.Returned.{Accepts, connect-Outcome}
use malon.Manager.{MionPeer}
use malon.Backoff.{second, next_backoff, relay_max_backoff}
use malon.Probing.{Prober}
use malon.Reconnect.{
  Cancelled, connecting, watching, waiting, Attempt, Loop, reset_unless, seen, after_round,
  connect_rounds,
}
use malon.Reconnect.Kept.{
  reset_unless-idle, reset_unless-IsValid, reset_unless-IsOwned, Outcome-IsOwned,
}

-- The fuel is enough for what the relay may send in this round.
abbrev pub Enough : {W : Type 0} → ℕ → Attempt W → Type 0
Enough {W} fuel a =
    (t : Http2Transport) (u id : String) (r : Response W)
    → a.http.round_trip t u id ≡ ok r
    → length r.body.bytes < fuel

-- The context is done in some round.
abbrev pub any_cancelled : {W : Type 0} → List (Attempt W) → Bool
any_cancelled [] = false
any_cancelled (a ∷ as') = is_some a.cancelled || any_cancelled as'

module _ {W P : Type 0} ⦃c : Crypto⦄ ⦃mion : MionPeer P⦄ (fuel : ℕ) (u : String)
    (insecure : Bool) where
  abbrev Ends : List (Attempt W) → Bool → ℕ → Loop W P → Type 0
  Ends as' first backoff l =
      (l' : Loop W P) × (connect_rounds fuel u insecure as' first backoff l ≡ some l')
      × IsValid l'.proxy
      × IsOwned l'.proxy
      × (l'.returned ≡ any_cancelled as')

  rounds-end :
      (as' : List (Attempt W)) (first : Bool) (backoff : ℕ) (l : Loop W P)
      → All (Enough fuel) as'
      → IsValid l.proxy
      → IsOwned l.proxy
      → l.returned ≡ false
      → (first ≡ true → l.proxy.connected ≡ false)
      → Ends as' first backoff l
  unfolding connect_rounds
  rounds-end [] first backoff l enough v o r idle = (l, refl, v, o, r)
  rounds-end (a ∷ as') first backoff l (en, enough) v o r idle =
      let p0 = reset_unless first l.proxy in
      let (p, e, done, left) =
        connect-Outcome a.http fuel u insecure p0 (λ t x h. en t u (peer_id_string p0.self_id) x h)
          (reset_unless-IsOwned first l.proxy o) in
      let given =
        connect-IsValid a.http fuel u insecure p0 (reset_unless-idle first l.proxy idle)
          (reset_unless-IsValid first l.proxy v) in
      let v' : IsValid p = rw done at (given) in
      let o' : IsOwned p =
        Outcome-IsOwned (Accepts a.http u insecure p0) p0 p left
          (reset_unless-IsOwned first l.proxy o) in
      finish p e done v' o' a.cancelled refl (
        rounds-end as' false (next_backoff relay_max_backoff (if seen a p then second else backoff))
          (record {
            waits = (if seen a p then second else backoff) ∷ l.waits;
            proxy = p;
            prober = after_round u (seen a p) l.prober;
            returned = false;
          })
          enough v' o' refl (λ h. absurd (cc h)))
    where
      finish :
          (p : Proxy W) (e : Error)
          → connect a.http fuel u insecure (reset_unless first l.proxy) ≡ some (p, e)
          → IsValid p
          → IsOwned p
          → (k : Option Cancelled) → a.cancelled ≡ k
          → Ends as' false
              (next_backoff relay_max_backoff (if seen a p then second else backoff))
              (record {
                waits = (if seen a p then second else backoff) ∷ l.waits;
                proxy = p;
                prober = after_round u (seen a p) l.prober;
                returned = false;
              })
          → Ends (a ∷ as') first backoff l
      finish p e done v' o' none q (l', rest, v'', o'', back) =
          (l', rw (done, q, connect_rounds) rest, v'', o'', rw q back)
      finish p e done v' o' (some connecting) q _ = (
        record l { proxy = p; prober = l.prober; returned = true },
        rw (done, q, connect_rounds) refl,
        v',
        o',
        rw q refl,
      )
      finish p e done v' o' (some watching) q _ = (
        record l { proxy = p; prober = after_round u (seen a p) l.prober; returned = true },
        rw (done, q, connect_rounds) refl,
        v',
        o',
        rw q refl,
      )
      finish p e done v' o' (some waiting) q _ = (
        record l { proxy = p; prober = after_round u (seen a p) l.prober; returned = true },
        rw (done, q, connect_rounds) refl,
        v',
        o',
        rw q refl,
      )

  -- From a valid proxy that is not connected and owns its open channels, and with fuel for what each answer
  -- sends, relayConnectLoop comes back from every attempt, whatever the relay answers, and returns if and only
  -- if the context is done in one of its rounds; the proxy is valid at its end.
  pub connect_rounds-end :
      (as' : List (Attempt W)) (p : Proxy W) (s : Prober P)
      → All (Enough fuel) as'
      → IsValid p
      → IsOwned p
      → p.connected ≡ false
      → (l : Loop W P) × (connect_rounds fuel u insecure as' true second
            (record { waits = []; proxy = p; prober = s; returned = false })
          ≡ some l)
        × IsValid l.proxy
        × (l.returned ≡ any_cancelled as')
  connect_rounds-end as' p s enough v o idle =
      let l : Loop W P = record { waits = []; proxy = p; prober = s; returned = false } in
      let (l', done, v', _, back) = rounds-end as' true second l enough v o refl (λ _. idle) in
      (l', done, v', back)

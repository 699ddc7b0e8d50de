-- ===== src/Connecting/Returned.antt =====
-- internal/h2proxy/proxy.go: what Connect leaves behind when it returns.
use malon.Base.{
  ℕ, zero, suc, ◌<◌, ◌≡◌, refl, ap, ◌⊎◌, inl, inr, Bool, true, false, none, some, [], String, Error,
  Result, ok, err, arith, length, errorf, wrap, Result-cases, Bool-cases, Option-cases, ◌==◌,
  ==_iff, ◌∙◌,
}
use malon.Io.{Stream}
use malon.Identity.{Crypto, peer_id_string}
use malon.Envelope.{decode}
use malon.Envelope.Progress.{decode-shorter}
use malon.Proxy.{
  Proxy, established, disconnected, close_all_sessions, read_loop, dispatch, is_connected,
}
use malon.Proxy.Validity.{IsValid}
use malon.Connecting.Valid.{connect-IsValid}
use malon.Proxy.Owned.{IsOwned, dispatch-IsOwned, disconnected-closes}
use malon.Connecting.{
  Http, Http2Transport, Response, status_ok, transport_for, cleaned_up, answered, connect,
}

module _ {W : Type 0} where
  read_loop-ends :
      (fuel : ℕ) (s : Stream) (p : Proxy W)
      → length s.bytes < fuel
      → IsOwned p
      → (p' : Proxy W) × (e : Error) × (read_loop fuel s p ≡ some (p', e)) × IsOwned p'
  unfolding read_loop
  read_loop-ends zero s p l o = absurd (omega arith)
  read_loop-ends (suc fuel) s p l o = elim (Result-cases (decode s)) [
    | inr (e, q) ↦ (p, e, rw (q, read_loop) refl, o)
    | inl ((env, s'), q) ↦
        let (p', e, rest, o') =
          read_loop-ends fuel s' (dispatch env p) (omega (arith, l, decode-shorter s env s' q))
            (dispatch-IsOwned env p o) in
        (p', e, rw (q, read_loop) rest, o')
  ]

  -- There is no writer and no session, and every channel that was made is closed.
  pub record IsLost (p : Proxy W) : Type 0 where
    pub no_writer : p.writer ≡ none
    pub no_sessions : p.sessions ≡ []
    pub all_closed : (c : ℕ) → c < p.next_chan → (p.chans c).is_closed ≡ true
    pub not_connected : is_connected p ≡ false

  disconnected-IsLost : (p : Proxy W) → IsOwned p → IsLost (disconnected p)
  unfolding disconnected close_all_sessions is_connected
  disconnected-IsLost p o = record {
    no_writer = refl;
    no_sessions = refl;
    all_closed = λ c l. disconnected-closes p c o l;
    not_connected = ground arith;
  }

  -- Nothing that A holds of was there, and the proxy is as it was; or there was, and everything is gone.
  abbrev pub Outcome : (Response W → Type 0) → Proxy W → Proxy W → Type 0
  Outcome A p p' = (((r : Response W) → ¬ A r) × (p' ≡ p)) ⊎ ((r : Response W) × A r × IsLost p')

  answered-Outcome :
      (fuel : ℕ) (p : Proxy W) (a : Result (Response W))
      → ((r : Response W) → a ≡ ok r → length r.body.bytes < fuel)
      → IsOwned p
      → (p' : Proxy W) × (e : Error) × (answered fuel p a ≡ some (p', e))
        × Outcome (λ r. (a ≡ ok r) × (r.status_code ≡ 200)) p p'
  unfolding established
  answered-Outcome fuel p (err e) l o = (p, _, refl, inl ((λ r (h, _). cc h), refl))
  answered-Outcome fuel p (ok r) l o = elim (Bool-cases (r.status_code == status_ok)) [
    | inr other ↦ rw other (
      p,
      errorf "h2proxy: relay returned status",
      refl,
      inl (
        (λ r' (h, s).
            let same : r ≡ r' = cc h in
            cc (
              other,
              (==_iff r.status_code status_ok).1 (ap (λ (x : Response W). x.status_code) same ∙ s),
            )),
        refl,
      ),
    )
    | inl fine ↦
        let (p', e, ends, o') =
          read_loop-ends fuel r.body (established r.pw p) (l r refl) (λ c m h. o c m h) in
        rw fine (
          disconnected p',
          e,
          ap cleaned_up ends,
          inr (r, (refl, (==_iff r.status_code status_ok).0 fine), disconnected-IsLost p' o'),
        )
  ]

  -- The relay accepts the request: the URL and the request can be made, and the answer has the status 200.
  abbrev pub Accepts : ⦃c : Crypto⦄ → Http W → String → Bool → Proxy W → Response W → Type 0
  Accepts http relay_url insecure p r =
      (scheme : String) × (http.url_parse relay_url ≡ ok scheme)
      × (http.new_request relay_url ≡ none)
      × (http.round_trip (transport_for scheme insecure) relay_url (peer_id_string p.self_id)
          ≡ ok r)
      × (r.status_code ≡ 200)

  pub connect-Outcome :
      ⦃c : Crypto⦄ (http : Http W) (fuel : ℕ) (relay_url : String) (insecure : Bool) (p : Proxy W)
      → ((t : Http2Transport) (r : Response W)
          → http.round_trip t relay_url (peer_id_string p.self_id) ≡ ok r
          → length r.body.bytes < fuel)
      → IsOwned p
      → (p' : Proxy W) × (e : Error) × (connect http fuel relay_url insecure p ≡ some (p', e))
        × Outcome (Accepts http relay_url insecure p) p p'
  unfolding connect
  connect-Outcome http fuel relay_url insecure p enough o =
      elim (Result-cases (http.url_parse relay_url)) [
        | inr (e, q) ↦ (
          p,
          wrap "h2proxy: parse relay URL" e,
          rw (q, connect) refl,
          inl ((λ r (s, h, _, _, _). cc (q, h)), refl),
        )
        | inl (scheme, q) ↦ elim (Option-cases (http.new_request relay_url)) [
          | inr (e, n) ↦ (
            p,
            wrap "h2proxy: build request" e,
            rw (q, n, connect) refl,
            inl ((λ r (s, _, h, _, _). cc (n, h)), refl),
          )
          | inl n ↦
              let a =
                http.round_trip (transport_for scheme insecure) relay_url
                  (peer_id_string p.self_id) in
              let (p', e, done, out) =
                answered-Outcome fuel p a (enough (transport_for scheme insecure)) o in
              (
                p',
                e,
                rw (q, n, connect) done,
                elim out [
                  | inl (refused, same) ↦ inl (
                    (λ r (s, h, _, m, t).
                        let here : s ≡ scheme = cc (h, q) in refused r (rw here at (m), t)),
                    same,
                  )
                  | inr (r, (m, t), lost) ↦ inr (r, (scheme, q, n, m, t), lost)
                ],
              )
        ]
      ]

  -- What Connect leaves: the proxy as it was, if the relay has not accepted the request, or else one that has lost
  -- everything. It has not panicked.
  abbrev pub Left : ⦃c : Crypto⦄ → Http W → ℕ → String → Bool → Proxy W → Type 0
  Left http fuel relay_url insecure p =
      (p' : Proxy W) × (e : Error) × (connect http fuel relay_url insecure p ≡ some (p', e))
      × (p'.crashed ≡ false)
      × Outcome (Accepts http relay_url insecure p) p p'

  -- Connect, on a valid proxy that is not connected and in which every open channel belongs to a session, returns
  -- on every stream that the relay may send, with fuel for its bytes, and does not panic. Either the relay
  -- has not accepted the request, because the URL or the request could not be made, there was no answer, or
  -- its status was not 200, and nothing has changed; or the answer had the status 200, and there is no
  -- writer and no session any more, the proxy does not count as connected, and every session channel
  -- that was ever made is closed, so that no reader is left waiting.
  pub connect-Left :
      ⦃c : Crypto⦄ (http : Http W) (fuel : ℕ) (relay_url : String) (insecure : Bool) (p : Proxy W)
      → ((t : Http2Transport) (r : Response W)
          → http.round_trip t relay_url (peer_id_string p.self_id) ≡ ok r
          → length r.body.bytes < fuel)
      → p.connected ≡ false
      → IsValid p
      → IsOwned p
      → Left http fuel relay_url insecure p
  connect-Left http fuel relay_url insecure p enough idle v o =
      let (p', e, done, out) = connect-Outcome http fuel relay_url insecure p enough o in
      let given = connect-IsValid http fuel relay_url insecure p idle v in
      let v' : IsValid p' = rw done at (given) in (p', e, done, v'.running, out)

-- ===== src/Connecting/Valid.antt =====
-- internal/h2proxy/proxy.go: Connect keeps a proxy valid, which it finds with no connection.
use malon.Base.{
  ℕ, zero, suc, ◌≡◌, false, not, Option, none, some, Error, String, Result, ok, err, Result-cases,
  inl, inr, ◌==◌, if_both, Bool,
}
use malon.Io.{Stream}
use malon.Identity.{Crypto, peer_id_string}
use malon.Envelope.{decode}
use malon.Proxy.{Proxy, established, read_loop, dispatch}
use malon.Proxy.Validity.{IsValid, established-IsValid, disconnected-IsValid}
use malon.Session.Steps.{dispatch-IsValid}
use malon.Connecting.{
  Http, Response, status_ok, transport_for, cleaned_up, answered, requested, connect,
}

module _ {W : Type 0} where
  -- If this gives a proxy, then a valid one.
  abbrev pub Gives : Option (Proxy W × Error) → Type 0
  Gives none = Unit {0}
  Gives (some (p, e)) = IsValid p

  read_loop-IsValid : (fuel : ℕ) (s : Stream) (p : Proxy W) → IsValid p → Gives (read_loop fuel s p)
  unfolding read_loop
  read_loop-IsValid zero s p v = tt
  read_loop-IsValid (suc fuel) s p v = elim (Result-cases (decode s)) [
    | inr (e, q) ↦ rw (q, read_loop) v
    | inl ((env, s'), q) ↦
        rw (q, read_loop) (read_loop-IsValid fuel s' (dispatch env p) (dispatch-IsValid env p v))
  ]

  cleaned_up-IsValid : (r : Option (Proxy W × Error)) → Gives r → Gives (cleaned_up r)
  cleaned_up-IsValid none g = tt
  cleaned_up-IsValid (some (p, e)) v = disconnected-IsValid p v

  answered-IsValid :
      (fuel : ℕ) (p : Proxy W) (a : Result (Response W))
      → p.connected ≡ false
      → IsValid p
      → Gives (answered fuel p a)
  answered-IsValid fuel p (err e) idle v = v
  answered-IsValid fuel p (ok r) idle v = if_both Gives (not (r.status_code == status_ok)) v (
      cleaned_up-IsValid (read_loop fuel r.body (established r.pw p))
        (read_loop-IsValid fuel r.body (established r.pw p) (established-IsValid r.pw p idle v)))

  requested-IsValid :
      (o : Option Error) (p : Proxy W) (r : Option (Proxy W × Error))
      → IsValid p
      → Gives r
      → Gives (requested o r p)
  requested-IsValid none p r v g = g
  requested-IsValid (some e) p r v g = v

  pub connect-IsValid :
      ⦃c : Crypto⦄ (http : Http W) (fuel : ℕ) (relay_url : String) (insecure : Bool) (p : Proxy W)
      → p.connected ≡ false
      → IsValid p
      → Gives (connect http fuel relay_url insecure p)
  unfolding connect
  connect-IsValid http fuel relay_url insecure p idle v =
      elim (Result-cases (http.url_parse relay_url)) [
        | inr (e, q) ↦ rw (q, connect) v
        | inl (scheme, q) ↦
            rw (q, connect)
              (requested-IsValid (http.new_request relay_url) p _ v (
                answered-IsValid fuel p
                  (http.round_trip (transport_for scheme insecure) relay_url
                    (peer_id_string p.self_id))
                  idle v))
      ]

-- ===== src/Connecting.antt =====
-- internal/h2proxy/proxy.go: Connect as a whole, from the URL of the relay to the end of the stream. What net/url, net/http
-- and golang.org/x/net/http2 answer is an argument.
pub mod Valid
pub mod Returned
use text.Mathlib.Text.{◌==◌ as str_eq}
use malon.Base.{
  ℕ, ◌*◌, Bool, true, false, not, Option, none, some, List, [], ◌∷◌, Bytes, Error, String, errorf,
  wrap, Result, ok, err, if◌then◌else◌, ◌==◌,
}
use malon.Io.{Stream}
use malon.Identity.{Crypto, peer_id_string}
use malon.Auth.{Curve, x25519, curve_p256, curve_p384, version_tls13}
use malon.Proxy.{Proxy, established, disconnected, read_loop}

-- The fields of `tls.Config` that Connect sets.
pub record RelayTls : Type 0 where
  pub insecure_skip_verify : Bool
  pub min_version : ℕ
  pub curve_preferences : List Curve

-- `http2.Transport`, times in nanoseconds
pub record Http2Transport : Type 0 where
  pub tls_client_config : Option RelayTls
  pub allow_http : Bool
  pub read_idle_timeout : ℕ
  pub ping_timeout : ℕ

-- The answer of the relay: its status, the body, and the write end of the pipe that is the request's body.
pub record Response (W : Type 0) : Type 0 where
  pub status_code : ℕ
  pub body : Stream
  pub pw : W

-- `url.Parse`, of which the scheme is read, `http.NewRequestWithContext` and `RoundTrip`, which is given the header X-Peer-Id.
pub record Http (W : Type 0) : Type 0 where
  pub url_parse : String → Result String
  pub new_request : String → Option Error
  pub round_trip : Http2Transport → String → String → Result (Response W)

abbrev pub second : ℕ
second = 1000000000

abbrev pub relay_tls : Bool → RelayTls
relay_tls insecure = record {
  insecure_skip_verify = insecure;
  min_version = version_tls13;
  curve_preferences = x25519 ∷ curve_p256 ∷ curve_p384 ∷ [];
}

-- Over TLS if the URL says https, and without it for every other scheme.
unfoldable pub transport_for : String → Bool → Http2Transport
transport_for scheme insecure =
    if str_eq scheme "https"
    then record {
      tls_client_config = some (relay_tls insecure);
      allow_http = false;
      read_idle_timeout = 15 * second;
      ping_timeout = 5 * second;
    }
    else record {
      tls_client_config = none;
      allow_http = true;
      read_idle_timeout = 15 * second;
      ping_timeout = 5 * second;
    }

abbrev pub status_ok : ℕ
status_ok = 200

module _ {W : Type 0} where
  abbrev pub cleaned_up : Option (Proxy W × Error) → Option (Proxy W × Error)
  cleaned_up none = none
  cleaned_up (some (p, e)) = some (disconnected p, e)

  -- The part of Connect behind the answer; `none` means that the fuel of readLoop ran out.
  abbrev pub answered : ℕ → Proxy W → Result (Response W) → Option (Proxy W × Error)
  answered fuel p (err e) = some (p, wrap "h2proxy: CONNECT to relay" e)
  answered fuel p (ok r) =
      if not (r.status_code == status_ok)
      then some (p, errorf "h2proxy: relay returned status")
      else cleaned_up (read_loop fuel r.body (established r.pw p))

  abbrev pub requested :
      Option Error → Option (Proxy W × Error) → Proxy W → Option (Proxy W × Error)
  requested (some e) rest p = some (p, wrap "h2proxy: build request" e)
  requested none rest p = rest

  -- Connect, with the proxy's relay URL and its tlsInsecure.
  unfoldable pub connect :
      ⦃c : Crypto⦄ → Http W → ℕ → String → Bool → Proxy W → Option (Proxy W × Error)
  connect http fuel relay_url insecure p = elim (http.url_parse relay_url) [
    | err e ↦ some (p, wrap "h2proxy: parse relay URL" e)
    | ok scheme ↦
        requested (http.new_request relay_url)
          (answered fuel p
            (http.round_trip (transport_for scheme insecure) relay_url (peer_id_string p.self_id)))
          p
  ]

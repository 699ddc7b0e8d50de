-- ===== src/Relay/Server.antt =====
-- internal/relay/relay.go: New, ListenAndServe and Serve. What net/http and http2 do with a server is an argument.
use malon.Base.{ℕ, Option, none, some, List, [], ◌∷◌, String, Error, wrap}
use malon.Auth.{Curve, x25519, curve_p256, curve_p384, version_tls13}
use malon.Relay.{Relay}

-- The part of tls.Config that ListenAndServe sets.
pub record ServerTls : Type 0 where
  pub min_version : ℕ
  pub curve_preferences : List Curve

-- http.Server, whose handler is always handleHTTP
pub record HttpServer : Type 0 where
  pub addr : String
  pub tls_config : Option ServerTls

-- http2.ConfigureServer, and the two ways of serving, of certificate and key files or of a listener, which return when
-- the server ends, and always with an error.
pub record Http (L : Type 0) : Type 0 where
  pub configure_server : HttpServer → Option Error
  pub listen_and_serve_tls : HttpServer → String → String → Error
  pub serve : HttpServer → L → Error

-- New, over the response writers that there will be
abbrev pub new_relay : {W : Type 0} → (ℕ → W) → Relay W
new_relay writers = record { streams = []; writers = writers }

abbrev pub relay_server : String → HttpServer
relay_server addr = record {
  addr = addr;
  tls_config = some (record {
    min_version = version_tls13;
    curve_preferences = x25519 ∷ curve_p256 ∷ curve_p384 ∷ [];
  });
}

abbrev pub test_server : HttpServer
test_server = record { addr = ""; tls_config = none }

-- What is served once the server is configured.
abbrev pub configured : Option Error → Error → Error
configured (some e) served = wrap "relay: configure http2" e
configured none served = served

module _ {L : Type 0} (http : Http L) where
  -- ListenAndServe
  unfoldable pub listen_and_serve : String → String → String → Error
  listen_and_serve addr cert_file key_file =
      configured (http.configure_server (relay_server addr))
        (http.listen_and_serve_tls (relay_server addr) cert_file key_file)

  -- Serve
  unfoldable pub serve_listener : L → Error
  serve_listener ln = configured (http.configure_server test_server) (http.serve test_server ln)

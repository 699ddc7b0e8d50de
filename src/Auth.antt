-- ===== src/Auth.antt =====
-- internal/auth/auth.go: the TLS configurations, and the check of a peer's certificate.
pub mod Verifier
pub mod Handshake
pub mod Mutual
use malon.Base.{
  ℕ, Bool, true, false, Option, none, some, List, [], ◌∷◌, Bytes, String, Error, errorf, wrap,
  Result, ok, err, wrapping, ◌>>=◌,
}
use malon.Base.Keys.{bytes_eq, lookup}
use malon.Identity.{
  Crypto, PublicKey, ed25519, other_key, Certificate, peer_id_from_public_key, self_signed_cert,
}

-- A set of peers, as Go's `map[identity.PeerID]struct{}`.
abbrev pub PeerSet : Type 0
PeerSet = List (Bytes × Unit {0})

-- `tls.Certificate`: a chain, and the private key.
pub record TlsCertificate : Type 0 where
  pub certificate : List Bytes
  pub private_key : Bytes

pub data ClientAuth : Type 0 where
  no_client_cert require_any_client_cert : ClientAuth

pub data Curve : Type 0 where
  x25519 curve_p256 curve_p384 : Curve

-- `tls.Config`, with the fields that the program sets. `verify_peer_certificate` is given the raw
-- certificates; `none` is no error.
pub record TlsConfig : Type 0 where
  pub certificates : List TlsCertificate
  pub client_auth : ClientAuth
  pub insecure_skip_verify : Bool
  pub min_version : ℕ
  pub next_protos : List String
  pub verify_peer_certificate : List Bytes → Option Error
  pub curve_preferences : List Curve

abbrev pub version_tls13 : ℕ
version_tls13 = 0x0304

abbrev pub alpn_malon_relay : String
alpn_malon_relay = "malon-relay"

abbrev pub alpn_malon_probe : String
alpn_malon_probe = "malon-probe"

abbrev pub alpn_h3 : String
alpn_h3 = "h3"

-- A random serial number and the time of the call, for the certificate of a configuration.
pub record Moment : Type 0 where
  pub random : Result ℕ
  pub now : ℕ

module _ ⦃c : Crypto⦄ where
  -- selfCert
  unfoldable pub self_cert : Moment → Bytes → Result TlsCertificate
  self_cert at_ priv = do
    r ← wrapping "auth: generate self-signed cert" (self_signed_cert at_.random at_.now priv)
    ok (record { certificate = r.1 ∷ []; private_key = priv })

  -- The end of the verifier, for a public key and for a certificate.
  abbrev pub verify_key : PeerSet → PublicKey → Option Error
  verify_key known other_key = some (errorf "auth: peer certificate has non-Ed25519 public key")
  verify_key known (ed25519 pub_key) = elim (lookup (peer_id_from_public_key pub_key) known) [
    | none ↦ some (errorf "auth: peer is not a known peer")
    | some _ ↦ none
  ]

  abbrev pub verify_parsed : PeerSet → Result Certificate → Option Error
  verify_parsed known (err e) = some (wrap "auth: parse peer certificate" e)
  verify_parsed known (ok cert) = verify_key known cert.public_key

  -- makePeerVerifier: only the first certificate is looked at.
  unfoldable pub make_peer_verifier : PeerSet → List Bytes → Option Error
  make_peer_verifier known [] = some (errorf "auth: no peer certificate presented")
  make_peer_verifier known (der ∷ rest) = verify_parsed known (c.parse_certificate der)

  abbrev config : ClientAuth → List String → PeerSet → TlsCertificate → TlsConfig
  config client_auth protos known cert = record {
    certificates = cert ∷ [];
    client_auth = client_auth;
    insecure_skip_verify = true;
    min_version = version_tls13;
    next_protos = protos;
    verify_peer_certificate = make_peer_verifier known;
    curve_preferences = x25519 ∷ curve_p256 ∷ curve_p384 ∷ [];
  }

  -- NewClientTLSConfig
  unfoldable pub new_client_tls_config : Moment → Bytes → PeerSet → Result TlsConfig
  new_client_tls_config at_ priv known = do
    cert ← self_cert at_ priv
    ok (config no_client_cert (alpn_malon_relay ∷ []) known cert)

  -- NewServerTLSConfig
  unfoldable pub new_server_tls_config : Moment → Bytes → PeerSet → Result TlsConfig
  new_server_tls_config at_ priv known = do
    cert ← self_cert at_ priv
    ok (config require_any_client_cert (alpn_malon_relay ∷ []) known cert)

  -- NewProbeClientTLSConfig
  unfoldable pub new_probe_client_tls_config : Moment → Bytes → Bytes → Result TlsConfig
  new_probe_client_tls_config at_ priv expected = do
    cert ← self_cert at_ priv
    ok (config no_client_cert (alpn_malon_probe ∷ []) ((expected, tt) ∷ []) cert)

  -- NewDirectClientTLSConfig
  unfoldable pub new_direct_client_tls_config : Moment → Bytes → Bytes → Result TlsConfig
  new_direct_client_tls_config at_ priv expected = do
    cert ← self_cert at_ priv
    ok (config no_client_cert (alpn_h3 ∷ []) ((expected, tt) ∷ []) cert)

  -- NewProbeServerTLSConfig
  unfoldable pub new_probe_server_tls_config : Moment → Bytes → PeerSet → Result TlsConfig
  new_probe_server_tls_config at_ priv known = do
    cert ← self_cert at_ priv
    ok (config require_any_client_cert (alpn_malon_probe ∷ alpn_h3 ∷ []) known cert)

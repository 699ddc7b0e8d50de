-- ===== src/Identity.antt =====
-- internal/identity/identity.go: keys, peer identities and a node's own certificate. The packages of
-- Go's crypto are the interface Crypto.
pub mod Text
use malon.Base.{
  ℕ, ◌+◌, ◌*◌, ◌≡◌, Bool, true, false, not, Bytes, String, Error, errorf, Result, ok, err, wrapping,
  ◌>>=◌, length, ◌==◌, if◌then◌else◌,
}

-- The key in a certificate: an `ed25519.PublicKey`, or a key of another kind.
pub data PublicKey : Type 0 where
  ed25519 : Bytes → PublicKey
  other_key : PublicKey

-- `*x509.Certificate`, as far as it is read.
pub record Certificate : Type 0 where
  pub public_key : PublicKey

-- The fields that SelfSignedCert gives to `x509.CreateCertificate`; times are in nanoseconds.
pub record Template : Type 0 where
  pub serial_number : ℕ
  pub common_name : String
  pub not_before : ℕ
  pub not_after : ℕ
  pub for_client_auth : Bool
  pub for_server_auth : Bool
  pub is_ca : Bool

-- crypto/sha256, crypto/ed25519, crypto/x509 and encoding/base64: a hash has 32 bytes, a
-- certificate that was made for a key is read back with that key, and decoding inverts encoding.
pub record Crypto : Type 0 where
  pub sum256 : Bytes → Bytes
  pub public_of : Bytes → Bytes
  pub create_certificate : Template → Bytes → Bytes → Result Bytes
  pub parse_certificate : Bytes → Result Certificate
  pub encode_to_string : Bytes → String
  pub decode_string : String → Result Bytes
  pub length-sum256 : (b : Bytes) → length (sum256 b) ≡ 32
  pub parse-create :
      (t : Template) (pub_key priv der : Bytes)
      → create_certificate t pub_key priv ≡ ok der
      → parse_certificate der ≡ ok (record { public_key = ed25519 pub_key })
  pub decode-encode : (b : Bytes) → decode_string (encode_to_string b) ≡ ok b

abbrev pub peer_id_size : ℕ
peer_id_size = 32

-- PeerIDFromBase64; `decode_string` is base64.StdEncoding.DecodeString.
unfoldable pub peer_id_from_base64 : (String → Result Bytes) → String → Result Bytes
peer_id_from_base64 decode_string s = do
  b ← wrapping "identity: invalid base64" (decode_string s)
  if not (length b == peer_id_size) then err (errorf "identity: invalid peer_id length") else ok b

module _ ⦃c : Crypto⦄ where
  -- PeerIDFromPublicKey
  unfoldable pub peer_id_from_public_key : Bytes → Bytes
  peer_id_from_public_key pub_key = c.sum256 pub_key

  -- PeerID.String
  unfoldable pub peer_id_string : Bytes → String
  peer_id_string id = c.encode_to_string id

  -- `10 * 365 * 24 * time.Hour`
  abbrev pub ten_years : ℕ
  ten_years = 10 * 365 * 24 * 3600 * 1000000000

  abbrev pub template_for : ℕ → ℕ → Bytes → Template
  template_for serial now pub_key = record {
    serial_number = serial;
    common_name = peer_id_string (peer_id_from_public_key pub_key);
    not_before = now;
    not_after = now + ten_years;
    for_client_auth = true;
    for_server_auth = true;
    is_ca = true;
  }

  -- SelfSignedCert, with the random serial number and the time of the call.
  unfoldable pub self_signed_cert : Result ℕ → ℕ → Bytes → Result (Certificate × Bytes)
  self_signed_cert random now priv = do
    serial ← wrapping "identity: failed to generate serial" random
    let pub_key = c.public_of priv
    der ←
        wrapping "identity: failed to create certificate"
          (c.create_certificate (template_for serial now pub_key) pub_key priv)
    cert ← wrapping "identity: failed to parse certificate" (c.parse_certificate der)
    ok (cert, der)

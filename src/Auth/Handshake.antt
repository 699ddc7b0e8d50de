-- ===== src/Auth/Handshake.antt =====
-- What package crypto/tls does with two configurations: the application protocol is negotiated, then
-- the client checks the server's chain, and then the server the client's. In TLS 1.3 the client is done
-- before the server has checked.
use malon.Base.{
  Bool, true, false, Option, none, some, List, [], ◌∷◌, Bytes, String, Error, other, Result, ok,
  err, ◌>>=◌, if◌then◌else◌,
}
use text.Mathlib.Text.{◌==◌ as str_eq}
use malon.Auth.{TlsCertificate, TlsConfig, ClientAuth, no_client_cert, require_any_client_cert}

-- The client's protocols, searched for one of the server's.
abbrev pub offers : String → List String → Bool
offers s [] = false
offers s (c ∷ cs) = let rest = offers s cs in if str_eq s c then true else rest

abbrev pub first_offered : List String → List String → Result String
first_offered [] client = err (other "tls: client requested unsupported application protocols")
first_offered (s ∷ ss) client =
    let rest = first_offered ss client in if offers s client then ok s else rest

-- With no protocols on a side there is none.
abbrev pub negotiate : List String → List String → Result String
negotiate [] client = ok ""
negotiate (s ∷ ss) [] = ok ""
negotiate (s ∷ ss) (c ∷ cs) = first_offered (s ∷ ss) (c ∷ cs)

abbrev pub chain : List TlsCertificate → List Bytes
chain [] = []
chain (cert ∷ rest) = cert.certificate

abbrev pub to_result : Option Error → Result (Unit {0})
to_result none = ok tt
to_result (some e) = err e

-- The client's check: with `InsecureSkipVerify` the chain is not verified against the system's
-- roots, which are `roots`.
abbrev pub check_server : (List Bytes → Option Error) → TlsConfig → List Bytes → Result (Unit {0})
check_server roots client raw =
    if client.insecure_skip_verify
    then to_result (client.verify_peer_certificate raw)
    else (to_result (roots raw) >>= λ _. to_result (client.verify_peer_certificate raw))

abbrev pub check_required : TlsConfig → List Bytes → Result (Unit {0})
check_required server [] = err (other "tls: client didn't provide a certificate")
check_required server (der ∷ rest) = to_result (server.verify_peer_certificate (der ∷ rest))

abbrev pub check_client : ClientAuth → TlsConfig → List Bytes → Result (Unit {0})
check_client no_client_cert server raw = ok tt
check_client require_any_client_cert server raw = check_required server raw

-- How the handshake ends for the client, with the protocol, and for the server.
unfoldable pub client_handshake :
    (List Bytes → Option Error) → TlsConfig → TlsConfig → Result String
client_handshake roots client server = do
  protocol ← negotiate server.next_protos client.next_protos
  _ ← check_server roots client (chain server.certificates)
  ok protocol

unfoldable pub server_handshake :
    (List Bytes → Option Error) → TlsConfig → TlsConfig → Result String
server_handshake roots client server = do
  protocol ← client_handshake roots client server
  _ ← check_client server.client_auth server (chain client.certificates)
  ok protocol

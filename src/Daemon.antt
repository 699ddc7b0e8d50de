-- ===== src/Daemon.antt =====
-- cmd/malond/main.go: the listening addresses of the configuration, and the node's own key. What net/url, net
-- and strconv do with a text, and base64 and ed25519, are arguments.
pub mod Endpoints
use malon.Base.{
  ℕ, Bool, true, false, not, ◌&&◌, ◌||◌, Option, none, some, List, [], ◌∷◌, Bytes, Error, errorf,
  wrap, Result, ok, err, wrapping, ◌>>=◌, if◌then◌else◌, length, ltb, ◌==◌,
}
use malon.Base.Keys.{bytes_beq}
use malon.Words.{Text, codes, trim_space, split_commas}

-- A Go int
pub data ℤ : Type 0 where
  pos negsuc : ℕ → ℤ

-- mion's ListenEndpoint
pub record ListenEndpoint : Type 0 where
  pub protocol : Text
  pub host : Text
  pub port : ℕ

abbrev pub is_blank : Text → Bool
is_blank [] = true
is_blank (c ∷ s) = false

-- `url.Parse`, of which the scheme and the host are read, `strings.ToLower`, `net.SplitHostPort` and
-- `strconv.Atoi`
pub record Parsers : Type 0 where
  pub url_parse : Text → Result (Text × Text)
  pub to_lower : Text → Text
  pub split_host_port : Text → Result (Text × Text)
  pub atoi : Text → Result ℤ

abbrev pub http2 : Text
http2 = codes "http2"

abbrev pub http3 : Text
http3 = codes "http3"

-- `err != nil || port <= 0 || port > 65535`
abbrev pub checked_port : Result ℤ → Result ℕ
checked_port (err e) = err (errorf "invalid port in ListenPort")
checked_port (ok (negsuc n)) = err (errorf "invalid port in ListenPort")
checked_port (ok (pos n)) =
    if n == 0 || ltb 65535 n then err (errorf "invalid port in ListenPort") else ok n

abbrev pub checked_url : Result (Text × Text) → Result (Text × Text)
checked_url (err e) = err (errorf "invalid ListenPort entry")
checked_url (ok (scheme, host)) =
    if is_blank scheme || is_blank host
    then err (errorf "invalid ListenPort entry")
    else ok (scheme, host)

abbrev pub checked_protocol : Text → Result Text
checked_protocol proto =
    if not (bytes_beq proto http2) && not (bytes_beq proto http3)
    then err (errorf "unknown protocol in ListenPort")
    else ok proto

-- The body of the loop of parseMionListenEndpoints, for an entry that is not blank.
unfoldable pub parse_endpoint : Parsers → Text → Result ListenEndpoint
parse_endpoint p entry = do
  (scheme, address) ← checked_url (p.url_parse entry)
  proto ← checked_protocol (p.to_lower scheme)
  (host, port_str) ← wrapping "invalid address in ListenPort" (p.split_host_port address)
  port ← checked_port (p.atoi port_str)
  ok (record { protocol = proto; host = host; port = port })

abbrev pub and_rest :
    Result ListenEndpoint → Result (List ListenEndpoint) → Result (List ListenEndpoint)
and_rest (err e) rest = err e
and_rest (ok x) (err e) = err e
and_rest (ok x) (ok xs) = ok (x ∷ xs)

unfoldable pub parse_entries : Parsers → List Text → Result (List ListenEndpoint)
parse_entries p [] = ok []
parse_entries p (entry ∷ entries) =
    let rest = parse_entries p entries in
    let e = trim_space entry in if is_blank e then rest else and_rest (parse_endpoint p e) rest

-- parseMionListenEndpoints
unfoldable pub parse_mion_listen_endpoints : Parsers → Text → Result (List ListenEndpoint)
parse_mion_listen_endpoints p raw =
    if is_blank (trim_space raw) then ok [] else parse_entries p (split_commas raw)

-- The node's own key: a seed, or a whole key.
unfoldable pub self_priv : (Bytes → Bytes) → Result Bytes → Result Bytes
self_priv new_key_from_seed (err e) = err e
self_priv new_key_from_seed (ok raw) =
    if length raw == 32
    then ok (new_key_from_seed raw)
    else if length raw == 64
    then ok raw
    else err (errorf "self private key has wrong length")

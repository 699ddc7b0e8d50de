-- ===== src/Stun.antt =====
-- internal/stun/stun.go: the queries for the address under which a socket is seen. The resolver, the socket and
-- pion/stun's client are arguments.
pub mod Queried
pub mod Transported
use malon.Base.{
  ℕ, ◌+◌, ◌*◌, ◌/◌, ◌%◌, ◌^◌, Bool, Option, none, some, List, [], ◌∷◌, Bytes, String, Error, errorf,
  wrap, Result, ok, err, wrapping, ◌>>=◌, if◌then◌else◌, ltb, ◌&&◌,
}
use malon.Packet.{Addr}
use malon.Candidate.{addr_from_slice}

-- `net.SplitHostPort`, `LookupNetIP` for "ip4", and `net.JoinHostPort` of an address
pub record Resolver : Type 0 where
  pub split_host_port : String → Result (String × String)
  pub lookup_ip4 : String → Result (List Addr)
  pub join_host_port : Addr → String → String

-- What the callback of the client's Do gets: an error, a message without the attribute, or the IP and the port
-- of XOR-MAPPED-ADDRESS.
pub data Reply : Type 0 where
  failed no_attribute : Error → Reply
  mapped : Bytes → ℕ → Reply

-- The sockets that Query has opened, and those it has closed, by number.
pub record Sockets : Type 0 where
  pub opened : List ℕ
  pub closed : List ℕ

abbrev pub open_socket : ℕ → Sockets → Sockets
open_socket s k = record k { opened = s ∷ k.opened }

abbrev pub close_socket : ℕ → Sockets → Sockets
close_socket s k = record k { closed = s ∷ k.closed }

abbrev pub first_address : List Addr → Result Addr
first_address [] = err (errorf "stun: no IPv4 address")
first_address (a ∷ as') = ok a

-- The first part of both queries: the target, at the first IPv4 address of the server.
unfoldable pub target_of : Resolver → String → Result String
target_of net server = do
  (host, port) ← wrapping "stun: invalid address" (net.split_host_port server)
  addrs ← wrapping "stun: resolve" (net.lookup_ip4 host)
  addr ← first_address addrs
  ok (net.join_host_port addr port)

abbrev pub default_rto : ℕ
default_rto = 500000000

-- The RTO in nanoseconds, from the time that is left until the deadline; there may be no deadline.
unfoldable pub rto_of : Option ℕ → ℕ
rto_of none = default_rto
rto_of (some remaining) =
    if ltb 0 remaining && ltb (remaining / 3) default_rto then remaining / 3 else default_rto

abbrev pub mapped_address : Option Addr → ℕ → Result (Addr × ℕ)
mapped_address none port = err (errorf "stun: invalid IP")
mapped_address (some a) port = ok (a, port % 2 ^ 16)

-- What the goroutine sends, from what Do gives.
unfoldable pub reply_result : Result Reply → Result (Addr × ℕ)
reply_result (err e) = err (wrap "stun: do" e)
reply_result (ok (failed e)) = err (wrap "stun: binding request" e)
reply_result (ok (no_attribute e)) = err (wrap "stun: get XOR-MAPPED-ADDRESS" e)
reply_result (ok (mapped ip port)) = mapped_address (addr_from_slice ip) port

-- The select at the end: the context's error, if that case is taken.
abbrev pub selected : Option Error → Result (Addr × ℕ) → Result (Addr × ℕ)
selected (some e) r = err (wrap "stun" e)
selected none r = r

-- QueryFromTransport, on the socket of the listener.
unfoldable pub query_from_transport :
    Resolver
    → String
    → (String → Result (Unit {0}))
    → Result (Unit {0})
    → Option Error
    → Result Reply
    → Result (Addr × ℕ)
query_from_transport net server resolve_udp new_client ctx_done reply = do
  target ← target_of net server
  _ ← wrapping "stun: resolve addr" (resolve_udp target)
  _ ← wrapping "stun: new client" new_client
  selected ctx_done (reply_result reply)

abbrev pub asked :
    ℕ → Result (Unit {0}) → Option Error → Result Reply → Sockets → Result (Addr × ℕ) × Sockets
asked socket (err e) ctx_done reply k = (err (wrap "stun: new client" e), close_socket socket k)
asked socket (ok _) ctx_done reply k =
    (selected ctx_done (reply_result reply), close_socket socket k)

abbrev pub dialled :
    Result ℕ
    → Result (Unit {0})
    → Option Error
    → Result Reply
    → Sockets
    → Result (Addr × ℕ) × Sockets
dialled (err e) new_client ctx_done reply k = (err (wrap "stun: dial" e), k)
dialled (ok socket) new_client ctx_done reply k =
    asked socket new_client ctx_done reply (open_socket socket k)

abbrev pub targeted :
    Result String
    → (String → Result ℕ)
    → Result (Unit {0})
    → Option Error
    → Result Reply
    → Sockets
    → Result (Addr × ℕ) × Sockets
targeted (err e) dial new_client ctx_done reply k = (err e, k)
targeted (ok target) dial new_client ctx_done reply k =
    dialled (dial target) new_client ctx_done reply k

-- Query, on a socket of its own; the client's Close closes it, too.
unfoldable pub query :
    Resolver
    → String
    → (String → Result ℕ)
    → Result (Unit {0})
    → Option Error
    → Result Reply
    → Sockets
    → Result (Addr × ℕ) × Sockets
query net server dial new_client ctx_done reply k =
    targeted (target_of net server) dial new_client ctx_done reply k

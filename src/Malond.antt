-- ===== src/Malond.antt =====
-- cmd/malond/main.go: main. The functions of mion, base64 and ed25519 that it calls are arguments, and so is what its
-- channels give.
pub mod Registered
pub mod Loops
use malon.Base.{
  ℕ, Bool, true, false, not, Option, none, some, List, [], ◌∷◌, Bytes, Error, String, Result, ok,
  err, ◌>>=◌, if◌then◌else◌,
}
use malon.Base.Keys.{bytes_beq}
use malon.Words.{Text}
use malon.Packet.{Prefix}
use malon.Identity.{Crypto, peer_id_from_public_key}
use malon.Config.{Config, PeerConfig, role_proxy}
use malon.Daemon.{Parsers, ListenEndpoint, parse_mion_listen_endpoints, self_priv}
use malon.Manager.{Manager, register_peer}
use malon.Startup.{Routine, Waiting, new_manager, run}

-- mion's Config
pub record MionConfig : Type 0 where
  pub interface_name : String
  pub private_key : Bytes
  pub is_proxy : Bool
  pub address : Option Prefix
  pub listen_endpoints : List ListenEndpoint

-- What main calls outside of this repository: mion, with a state of its own, base64, ed25519, and the parsers of
-- the endpoints. `string_of` is the Go string of a text.
pub record Outside (M P : Type 0) : Type 0 where
  pub decode : Text → Result Bytes
  pub new_key_from_seed : Bytes → Bytes
  pub parsers : Parsers
  pub string_of : Text → String
  pub new_mion : MionConfig → Result M
  pub make_peer : Bytes → List Prefix → P
  pub add_peer : P → M → Result M

abbrev pub is_proxy : Config → Bool
is_proxy cfg = bytes_beq cfg.interface.role role_proxy

abbrev pub mion_config : Config → Bytes → List ListenEndpoint → MionConfig
mion_config cfg priv ends = record {
  interface_name = "mion0";
  private_key = priv;
  is_proxy = is_proxy cfg;
  address = cfg.interface.address;
  listen_endpoints = ends;
}

module _ {M P : Type 0} where
  abbrev pub with_mion : M → Manager P × Option Error → Result (M × Manager P)
  with_mion mion (m, none) = ok (mion, m)
  with_mion mion (m, some e) = err e

  -- One round of the loop over the peers of the configuration.
  unfoldable pub add_one :
      ⦃c : Crypto⦄ → Outside M P → PeerConfig → M × Manager P → Result (M × Manager P)
  add_one o pc (mion, m) = do
    raw ← o.decode pc.public_key
    let p = o.make_peer raw pc.allowed_ips
    mion' ← o.add_peer p mion
    with_mion mion' (register_peer (peer_id_from_public_key raw) p (o.string_of pc.relay) m)

  unfoldable pub add_each :
      ⦃c : Crypto⦄ → Outside M P → List PeerConfig → M × Manager P → Result (M × Manager P)
  add_each o [] s = ok s
  add_each o (pc ∷ pcs) s = do s' ← add_one o pc s; add_each o pcs s'

  -- main up to the first goroutine; an error ends the program with status 1.
  unfoldable pub prepare : ⦃c : Crypto⦄ → Outside M P → Result Config → Result (M × Manager P)
  prepare o loaded = do
    cfg ← loaded
    priv ← self_priv o.new_key_from_seed (o.decode cfg.interface.private_key)
    ends ← parse_mion_listen_endpoints o.parsers cfg.interface.listen_port
    mion ← o.new_mion (mion_config cfg priv ends)
    add_each o cfg.peers (mion, new_manager (not (is_proxy cfg)) (o.string_of cfg.interface.relay))

-- What ends a wait of main: a signal ends the context, or mion or the manager has failed.
pub data Stop : Type 0 where
  ctx_done : Stop
  failed : Error → Stop

-- What main's selects take. The first select of a proxy's node looks once, and takes its default (`none`) if nothing is
-- there; that of a client's node waits, and `none` is ClientReady. The last select waits for a stop.
pub record Events : Type 0 where
  pub at_once : Option Stop
  pub first : Option Stop
  pub last : Stop

-- The exit status, and the manager whose Run was started.
pub record Exit (P : Type 0) : Type 0 where
  pub status : ℕ
  pub manager : Option (Manager P)

abbrev pub status_of : Stop → ℕ
status_of ctx_done = 0
status_of (failed e) = 1

abbrev pub is_proxy_node : Result Config → Bool
is_proxy_node (err e) = false
is_proxy_node (ok cfg) = is_proxy cfg

module _ {P : Type 0} where
  abbrev pub started : Option Stop → Stop → Manager P → Exit P
  started none last m = record { status = status_of last; manager = some m }
  started (some stop) last m = record { status = status_of stop; manager = none }

  abbrev pub prepared : {M : Type 0} → Bool → Events → Result (M × Manager P) → Exit P
  prepared proxy ev (err e) = record { status = 1; manager = none }
  prepared proxy ev (ok (mion, m)) = started (if proxy then ev.at_once else ev.first) ev.last m

  -- main
  unfoldable pub main : ⦃c : Crypto⦄ → {M : Type 0} → Outside M P → Result Config → Events → Exit P
  main o loaded ev = prepared (is_proxy_node loaded) ev (prepare o loaded)

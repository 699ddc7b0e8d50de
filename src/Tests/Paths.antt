-- ===== src/Tests/Paths.antt =====
-- Runs of the manager's path switching, and of its backoff.
use malon.Base.{◌≡◌, refl, Bool, true, false, [], ◌∷◌, Option, none, some}
use malon.Base.Keys.{bytes_eq, bytes_beq, lookup, insert}
use malon.Manager.{
  Manager, PeerEntry, PeerPath, relay, direct, register_peer, handle_incoming,
  handle_direct_connect, promote, direct_closed, get_or_create_proxy, install_relay, promote_entry,
  install_direct,
}
use malon.Manager.Retrying.{setup_relay_peers}
use malon.Manager.Steps.{Reach, IsNew, begins, followed_by, registered, incoming, promoted}
use malon.Manager.Switching.{active_of, on_direct_path, direct_closed-retries}
use malon.Manager.Flap.{setup_relay_peers-retries}
use malon.Manager.Conflicts.{direct_closed-replaced}
use malon.Tests.{option_peer, peer_a}

-- A client or a proxy with no peers.
abbrev pub fresh : Bool → Manager (Option PeerPath)
fresh is_client = record {
  is_client = is_client;
  has_direct_ln = true;
  peers = [];
  proxies = [];
  generation = 0;
  closed = [];
  started = [];
  retries = λ _. 0;
  crashed = false;
}

pub fresh-IsNew : (is_client : Bool) → IsNew (fresh is_client)
fresh-IsNew is_client = record { no_peers = refl; no_retries = λ id. refl }

-- Peer A on its relay connection 1, and then on the direct connection 2.
abbrev pub relayed : PeerEntry (Option PeerPath)
relayed = record {
  peer = some (relay 1);
  relay_url = "https://relay";
  relay_conn = some 1;
  has_direct_path = false;
  retrying_conn = false;
}

abbrev promoted_entry : PeerEntry (Option PeerPath)
promoted_entry = record relayed { peer = some (direct 2); has_direct_path = true }

abbrev pub on_relay : Manager (Option PeerPath)
on_relay = record (fresh false) { peers = (peer_a, relayed) ∷ [] }

abbrev on_direct : Manager (Option PeerPath)
on_direct = record (fresh false) { peers = (peer_a, promoted_entry) ∷ [] }

direct_closed-replaced_example :
    (let n = direct_closed 2 peer_a (handle_direct_connect 3 peer_a on_direct) in
      (active_of (lookup peer_a n.peers) ≡ some (relay 1))
      × (on_direct_path (lookup peer_a n.peers) ≡ false)
      × (n.closed ≡ []))
unfolding lookup bytes_beq
direct_closed-replaced_example =
    direct_closed-replaced 2 3 1 peer_a promoted_entry on_direct refl refl refl

-- A client that has registered peer A, and is then promoted to a direct path.
abbrev client_1 : Manager (Option PeerPath)
client_1 = (register_peer peer_a none "https://relay" (fresh true)).0

abbrev client_2 : Manager (Option PeerPath)
client_2 = handle_incoming (some 1) peer_a client_1

abbrev client_3 : Manager (Option PeerPath)
client_3 = promote 2 peer_a client_2

client_1-Reach : Reach client_1
client_1-Reach =
    followed_by (begins (fresh true) (fresh-IsNew true))
      (registered peer_a none "https://relay" (fresh true))

client_3-Reach : Reach client_3
client_3-Reach =
    followed_by (followed_by client_1-Reach (incoming (some 1) peer_a client_1))
      (promoted 2 peer_a client_2)

setup_relay_peers-retries_example : (setup_relay_peers "https://relay" client_1).retries peer_a ≡ 1
unfolding register_peer get_or_create_proxy insert lookup bytes_beq
setup_relay_peers-retries_example =
    setup_relay_peers-retries "https://relay" peer_a
      (record relayed { peer = none; relay_conn = none }) client_1 client_1-Reach refl refl refl

direct_closed-retries_example :
    (let n = direct_closed 2 peer_a client_3 in (n.retries peer_a ≡ 1) × (n.closed ≡ relay 1 ∷ []))
unfolding register_peer get_or_create_proxy handle_incoming install_relay promote promote_entry
    install_direct insert lookup bytes_beq
direct_closed-retries_example =
    direct_closed-retries 2 1 peer_a promoted_entry client_3 client_3-Reach refl refl refl refl

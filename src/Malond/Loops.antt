-- ===== src/Malond/Loops.antt =====
-- cmd/malond/main.go: what runs once main has started the manager.
use text.Mathlib.Text.{◌==◌ as str_eq}
use malon.Base.{
  ℕ, ◌≡◌, refl, sym, ap, ◌∙◌, Bool, not, ◌&&◌, ◌||◌, Option, none, some, List, [], Bytes, String,
  if_both, Result, ok, err, All, length, arith, if◌then◌else◌, bound-ok,
}
use malon.Identity.{Crypto}
use malon.Config.{Config}
use malon.Daemon.{parse_mion_listen_endpoints, self_priv}
use malon.Manager.{Manager, PeerEntry}
use malon.Manager.Entries.{peers-get_or_create_proxy}
use malon.Startup.{new_manager, run}
use malon.Startup.Pool.{uses, is_relay}
use malon.Startup.Relays.{loop_count, run-relays}
use malon.Malond.{Outside, Stop, Events, is_proxy, mion_config, prepare, started, prepared, main}
use malon.Malond.Registered.{IsRegistered, named, IsAdded, add_each-IsAdded}

peers-new_manager :
    (P : Type 0) (is_client : Bool) (iface : String)
    → (new_manager {P = P} is_client iface).peers ≡ []
unfolding new_manager
peers-new_manager P is_client iface =
    if_both (λ (m : Manager P). m.peers ≡ []) (str_eq iface "") refl
      (peers-get_or_create_proxy iface _)

module _ ⦃c : Crypto⦄ {M P : Type 0} (o : Outside M P) where
  abbrev first : Config → Manager P
  first cfg = new_manager (not (is_proxy cfg)) (o.string_of cfg.interface.relay)

  prepare-IsAdded :
      (cfg : Config) (mion : M) (m : Manager P)
      → prepare o (ok cfg) ≡ ok (mion, m)
      → IsAdded o cfg.peers (first cfg) m
  unfolding prepare
  prepare-IsAdded cfg mion m h =
      let (priv, _, h1) =
        bound-ok (self_priv o.new_key_from_seed (o.decode cfg.interface.private_key)) _ (mion, m)
          h in
      let (ends, _, h2) =
        bound-ok (parse_mion_listen_endpoints o.parsers cfg.interface.listen_port) _ (mion, m) h1 in
      let (mion0, _, h3) = bound-ok (o.new_mion (mion_config cfg priv ends)) _ (mion, m) h2 in
      add_each-IsAdded o cfg.peers mion0 mion (first cfg) m h3

  started-manager :
      (stop : Option Stop) (last : Stop) (m m' : Manager P)
      → (started stop last m).manager ≡ some m'
      → m ≡ m'
  started-manager none last m m' h = cc h
  started-manager (some stop) last m m' h = absurd (cc h)

  prepared-manager :
      (proxy : Bool) (ev : Events) (r : Result (M × Manager P)) (m : Manager P)
      → (prepared proxy ev r).manager ≡ some m
      → (mion : M) × (r ≡ ok (mion, m))
  prepared-manager proxy ev (err e) m h = absurd (cc h)
  prepared-manager proxy ev (ok (mion, n)) m h =
      (mion, ap (λ x. ok (mion, x)) (started-manager _ ev.last n m h))

  -- If main starts the manager, then its table has exactly one entry for each peer of the configuration, under the
  -- identity of the peer's decoded key, with its networks and its relay; and Run starts exactly one relayConnectLoop
  -- for each relay that [Interface] or some [Peer] names, and none for any other text, whether the direct
  -- listener starts or not.
  pub main-IsRegistered :
      (cfg : Config) (ev : Events) (listener : Result ℕ) (m : Manager P) (u : String)
      → (main o (ok cfg) ev).manager ≡ some m
      → (length m.peers ≡ length cfg.peers)
        × All (IsRegistered o m) cfg.peers
        × (loop_count u (run listener m).1 ≡ (
            if not (str_eq u "")
              && (str_eq u (o.string_of cfg.interface.relay) || named o u cfg.peers)
            then 1
            else 0))
  unfolding main
  main-IsRegistered cfg ev listener m u h =
      let (mion, done) = prepared-manager (is_proxy cfg) ev (prepare o (ok cfg)) m h in
      let added = prepare-IsAdded cfg mion m done in
      let iface = o.string_of cfg.interface.relay in
      let empty : (first cfg).peers ≡ [] = peers-new_manager P (not (is_proxy cfg)) iface in
      let (count, _, _) = run-relays (not (is_proxy cfg)) iface added.calls listener u in
      let used : uses u m.peers ≡ named o u cfg.peers =
        added.relays u
        ∙ ap (λ (es : List (Bytes × PeerEntry P)). named o u cfg.peers || uses u es) empty
        ∙ ground arith in
      (
        omega (arith, added.size, ap length empty),
        added.entries,
        ap (λ (x : Manager P). loop_count u (run listener x).1) added.called
            ∙ count
            ∙ ap (λ (x : Manager P). if is_relay u iface x.peers then 1 else 0) (sym added.called)
            ∙ ap (λ b. if not (str_eq u "") && (str_eq u iface || b) then 1 else 0) used,
      )

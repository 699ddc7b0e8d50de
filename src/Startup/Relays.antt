-- ===== src/Startup/Relays.antt =====
-- internal/manager/manager.go: the loops that Run starts.
use text.Mathlib.Text.{◌==◌ as str_eq}
use malon.Base.{
  ℕ, suc, ◌≡◌, refl, sym, ◌∙◌, Bool, false, List, [], ◌∷◌, map, String, Result, ok, err,
  if◌then◌else◌, arith,
}
use malon.Manager.{Manager}
use malon.Startup.{
  Registration, Routine, accepting_probes, accepting, reading_control, connecting_relay,
  for_context, new_manager, register_each, waiting_for, run,
}
use malon.Startup.Pool.{url_count, is_relay, IsPooled, new_manager-IsPooled, register_each-IsPooled}

-- How many loops were started for a relay.
abbrev pub loop_count : String → List Routine → ℕ
loop_count u [] = 0
loop_count u (accepting_probes ∷ rs) = loop_count u rs
loop_count u (accepting ∷ rs) = loop_count u rs
loop_count u (reading_control ∷ rs) = loop_count u rs
loop_count u (connecting_relay v ∷ rs) =
    let rest = loop_count u rs in if str_eq u v then suc rest else rest

loop_count-map :
    (u : String) (us : List String) → loop_count u (map connecting_relay us) ≡ url_count u us
loop_count-map u [] = refl
loop_count-map u (v ∷ us) = ground (arith, loop_count-map u us)

unused : (u : String) (us : List String) → waiting_for us ≡ for_context → url_count u us ≡ 0
unused u [] h = refl
unused u (v ∷ us) h = absurd (cc h)

module _ {P : Type 0} where
  loop_count-run :
      (listener : Result ℕ) (u : String) (m : Manager P)
      → (loop_count u (run listener m).1 ≡ url_count u m.proxies)
        × ((run listener m).0.peers ≡ m.peers)
        × ((run listener m).2 ≡ waiting_for m.proxies)
  unfolding run
  loop_count-run (err e) u m = (loop_count-map u m.proxies, refl, refl)
  loop_count-run (ok port) u m = (loop_count-map u m.proxies, refl, refl)

  -- After New and any calls of RegisterPeer, whichever of them fail, Run starts exactly one relayConnectLoop for each
  -- relay that the interface or a registered peer names, and none for any other text; whether the direct listener
  -- starts makes no difference to that, and the table of peers stays as it was. Run waits for nothing but the
  -- context only if there is no relay at all.
  pub run-relays :
      (is_client : Bool) (iface : String) (rs : List (Registration P)) (listener : Result ℕ)
      (u : String)
      → (let m = register_each rs (new_manager is_client iface) in
          (loop_count u (run listener m).1 ≡ (if is_relay u iface m.peers then 1 else 0))
          × ((run listener m).0.peers ≡ m.peers)
          × ((run listener m).2 ≡ for_context → is_relay u iface m.peers ≡ false))
  run-relays is_client iface rs listener u =
      let m = register_each rs (new_manager is_client iface) in
      let pooled : IsPooled iface m =
        register_each-IsPooled iface rs (new_manager is_client iface)
          (new_manager-IsPooled P is_client iface) in
      let (count, peers, waits) = loop_count-run listener u m in
      (count ∙ pooled u, peers, λ h. ground (arith, pooled u, unused u m.proxies (sym waits ∙ h)))

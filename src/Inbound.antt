-- ===== src/Inbound.antt =====
-- internal/manager/manager.go: probeAcceptLoop, which takes the events of the direct listener.
pub mod Hanging
use malon.Base.{ℕ, zero, suc, Bytes, Option, none, some, List}
use malon.Identity.{Crypto}
use malon.Direct.{
  QuicConn, Event, probe_event, connect_event, Closes, Acceptance, event, ended, hung, accept,
}
use malon.Manager.{MionPeer, Manager, handle_direct_connect}

-- How probeAcceptLoop ends: it returns, and closes the listener, or Accept never returns.
pub data Served (P : Type 0) : Type 0 where
  listener_closed : Manager P → Closes → Served P
  stuck : Manager P → Closes → Served P

module _ {P : Type 0} ⦃c : Crypto⦄ ⦃mion : MionPeer P⦄ where
  -- A probe is only logged; a direct connection is handed to handleDirectConnect.
  unfoldable pub serve_event : Event → Manager P → Manager P
  serve_event (probe_event id addr port) m = m
  serve_event (connect_event id conn) m = handle_direct_connect conn id m

  -- `none` means that the fuel ran out.
  unfoldable pub probe_accept_loop : ℕ → List QuicConn → Closes → Manager P → Option (Served P)
  probe_accept_loop zero qs closes m = none
  probe_accept_loop (suc fuel) qs closes m = elim (accept qs closes) [
    | event e rest closes' ↦ probe_accept_loop fuel rest closes' (serve_event e m)
    | ended closes' ↦ some (listener_closed m closes')
    | hung closes' ↦ some (stuck m closes')
  ]

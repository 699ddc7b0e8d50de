-- ===== src/Loops.antt =====
-- internal/manager/manager.go: acceptLoop, controlReadLoop and controlLoop, which take sessions and control messages
-- from their channels.
pub mod Endless
use malon.Base.{ℕ, List, [], ◌∷◌, Bytes}
use malon.Proxy.{ControlMessage, Conn}
use malon.Control.{Json, Netip}
use malon.Probing.{Prober, handle_control}
use malon.Tunnel.{ControlRead, payload, ended, blocked}

-- How a round of `select { case <-ctx.Done(): …; case a, ok := <-ch: … }` ends.
pub data Wakeup (A : Type 0) : Type 0 where
  ctx_done chan_closed : Wakeup A
  taken : A → Wakeup A

-- Whether a loop has returned after some rounds, and what it has made of the state by then.
pub data Looped (S : Type 0) : Type 0 where
  returned running : S → Looped S

-- acceptLoop: the sessions for which it has started handleIncoming, the latest first.
unfoldable pub accept_loop : List (Wakeup Conn) → List Conn → Looped (List Conn)
accept_loop [] started = running started
accept_loop (ctx_done ∷ ws) started = returned started
accept_loop (chan_closed ∷ ws) started = returned started
accept_loop (taken conn ∷ ws) started = accept_loop ws (conn ∷ started)

module _ ⦃net : Netip⦄ ⦃json : Json⦄ {P : Type 0} where
  -- controlReadLoop for the peer `id`: what its calls of ReadControl give, each with the clock of the
  -- handleControl that follows.
  unfoldable pub control_read_loop :
      {W : Type 0} → Bytes → List ((ℕ → ℕ) × ControlRead W) → Prober P → Looped (Prober P)
  control_read_loop id [] s = running s
  control_read_loop id ((clock, payload b t) ∷ rs) s =
      control_read_loop id rs (handle_control clock id b s)
  control_read_loop id ((clock, ended e) ∷ rs) s = returned s
  control_read_loop id ((clock, blocked) ∷ rs) s = running s

  -- controlLoop
  unfoldable pub control_loop :
      List ((ℕ → ℕ) × Wakeup ControlMessage) → Prober P → Looped (Prober P)
  control_loop [] s = running s
  control_loop ((clock, ctx_done) ∷ ws) s = returned s
  control_loop ((clock, chan_closed) ∷ ws) s = returned s
  control_loop ((clock, taken msg) ∷ ws) s =
      control_loop ws (handle_control clock msg.src_peer_id msg.payload s)

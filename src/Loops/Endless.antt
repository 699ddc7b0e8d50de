-- ===== src/Loops/Endless.antt =====
-- internal/manager/manager.go: controlReadLoop, on a tunnel that is closed.
use malon.Base.{ℕ, ◌≡◌, refl, Bytes, List, [], ◌∷◌, All}
use malon.Io.{Writer}
use malon.Control.{Json, Netip}
use malon.Probing.{Prober, handle_control}
use malon.Tunnel.{RelayTunnelConn, ControlRead, payload, ended, blocked, read_control}
use malon.Tunnel.Steps.{Reach, read_control-Waits}
use malon.Loops.{running, control_read_loop}

-- What ReadControl gives in some state that a tunnel reaches.
abbrev pub IsRead : {W : Type 0} ⦃wr : Writer W⦄ → (ℕ → ℕ) × ControlRead W → Type 0
IsRead {W} (clock, r) = (t : RelayTunnelConn W) × Reach t × (read_control t ≡ r)

module _ ⦃net : Netip⦄ ⦃json : Json⦄ {P W : Type 0} ⦃wr : Writer W⦄ where
  -- The payloads up to the first call that waits, handled in their order.
  abbrev pub handle_each : Bytes → List ((ℕ → ℕ) × ControlRead W) → Prober P → Prober P
  handle_each id [] s = s
  handle_each id ((clock, payload b t) ∷ rs) s = handle_each id rs (handle_control clock id b s)
  handle_each id ((clock, ended e) ∷ rs) s = s
  handle_each id ((clock, blocked) ∷ rs) s = s

  -- controlReadLoop hands the payloads that ReadControl gives to handleControl, in their order and in the name
  -- of its peer, and never returns: not in any state that its tunnel reaches, closed or not.
  pub control_read_loop-running :
      (id : Bytes) (rs : List ((ℕ → ℕ) × ControlRead W)) (s : Prober P)
      → All IsRead rs
      → control_read_loop id rs s ≡ running (handle_each id rs s)
  unfolding control_read_loop
  control_read_loop-running id [] s h = refl
  control_read_loop-running id ((clock, payload b t) ∷ rs) s (_, hs) =
      control_read_loop-running id rs (handle_control clock id b s) hs
  control_read_loop-running id ((clock, blocked) ∷ rs) s h = refl
  control_read_loop-running id ((clock, ended e) ∷ rs) s ((t, r, read), _) =
      let (ch, _, _, waits) = read_control-Waits r in absurd (rw read at (waits))

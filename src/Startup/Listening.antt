-- ===== src/Startup/Listening.antt =====
-- internal/manager/manager.go: Run as a whole, with the listener that it makes of the manager's peers.
use malon.Base.{Bytes, Result, ok, err, ℕ, List}
use malon.Identity.{Crypto}
use malon.Auth.{Moment}
use malon.Manager.{Manager, known_peer_set}
use malon.Direct.Listening.{Listener, Udp, new_listener}
use malon.Startup.{Routine, Waiting, run}

-- What `direct.New` gives, and Run's state, goroutines and wait.
pub record Running (P : Type 0) : Type 0 where
  pub listener : Result Listener
  pub manager : Manager P
  pub routines : List Routine
  pub waits : Waiting

abbrev port_of : Result Listener → Result ℕ
port_of (err e) = err e
port_of (ok l) = ok l.local_port

-- Run, on a node with the private key `priv`.
unfoldable pub start_run : ⦃c : Crypto⦄ {P : Type 0} → Moment → Bytes → Udp → Manager P → Running P
start_run at_ priv udp m =
    let l = (new_listener at_ priv (known_peer_set m) udp).0 in
    let (m', routines, waits) = run (port_of l) m in
    record { listener = l; manager = m'; routines = routines; waits = waits }

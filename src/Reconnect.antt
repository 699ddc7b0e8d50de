-- ===== src/Reconnect.antt =====
-- internal/manager/manager.go: relayConnectLoop as a whole, over the proxy of its relay and the state of the probes: Reset,
-- Connect, the waits, and the points at which the context may end it. What Backoff says of the waits is about the same
-- loop without a proxy and without cancellation.
pub mod Kept
pub mod Uncrashed
use malon.Base.{
  ℕ, ◌+◌, ◌%◌, ◌^◌, Bool, true, false, ◌&&◌, Option, none, some, List, [], ◌∷◌, Error, String,
  if◌then◌else◌,
}
use malon.Identity.{Crypto}
use malon.Proxy.{Proxy, reset}
use malon.Connecting.{Http, connect}
use malon.Manager.{MionPeer}
use malon.Manager.Retrying.{setup_relay_peers}
use malon.Backoff.{second, next_backoff, relay_max_backoff}
use malon.Probing.{Prober}

-- Where the context is found to be done: in the select before the relay is connected, while the loop waits for the
-- end of the connection or tests `ctx.Err()`, or in the wait for the backoff.
pub data Cancelled : Type 0 where
  connecting watching waiting : Cancelled

-- A round of the loop: what the relay answers; whether the first select takes the connection, which it need not if
-- Connect has ended by then; and whether the context ends the round.
pub record Attempt (W : Type 0) : Type 0 where
  pub http : Http W
  pub noticed : Bool
  pub cancelled : Option Cancelled

-- The waits so far, and whether the loop has returned.
pub record Loop (W P : Type 0) : Type 0 where
  pub waits : List ℕ
  pub proxy : Proxy W
  pub prober : Prober P
  pub returned : Bool

-- `<-proxy.Connected()` in the select
abbrev pub seen : {W : Type 0} → Attempt W → Proxy W → Bool
seen a p = p.connected && a.noticed

-- `if !first { proxy.Reset() }`
abbrev pub reset_unless : {W : Type 0} → Bool → Proxy W → Proxy W
reset_unless first p = if first then p else reset p

module _ {P : Type 0} ⦃mion : MionPeer P⦄ where
  -- What the loop does once the relay is connected: the generation, the cooldowns and setupRelayPeers.
  unfoldable pub relay_connected : String → Prober P → Prober P
  relay_connected u s = record s {
    probe_cooldown = [];
    manager =
        setup_relay_peers u (record s.manager { generation = (s.manager.generation + 1) % 2 ^ 32 });
  }

  -- The state after a round, which has seen a connection or not.
  abbrev pub after_round : String → Bool → Prober P → Prober P
  after_round u connected s = if connected then relay_connected u s else s

module _ {W P : Type 0} ⦃c : Crypto⦄ ⦃mion : MionPeer P⦄ where
  -- relayConnectLoop, from a round on. `fuel` is that of readLoop, and `none` means that it ran out; Connect has
  -- ended when the loop goes on.
  unfoldable pub connect_rounds :
      ℕ → String → Bool → List (Attempt W) → Bool → ℕ → Loop W P → Option (Loop W P)
  connect_rounds fuel u insecure [] first backoff l = some l
  connect_rounds fuel u insecure (a ∷ as') first backoff l =
      elim (connect a.http fuel u insecure (reset_unless first l.proxy)) [
        | none ↦ none
        | some (p, e) ↦ elim a.cancelled [
          | some connecting ↦ some (record l { proxy = p; returned = true })
          | some watching ↦
              some (record l {
                proxy = p;
                prober = after_round u (seen a p) l.prober;
                returned = true;
              })
          | some waiting ↦
              some (record l {
                proxy = p;
                prober = after_round u (seen a p) l.prober;
                returned = true;
              })
          | none ↦
              let wait = if seen a p then second else backoff in
              connect_rounds fuel u insecure as' false (next_backoff relay_max_backoff wait)
                (record {
                  waits = wait ∷ l.waits;
                  proxy = p;
                  prober = after_round u (seen a p) l.prober;
                  returned = false;
                })
        ]
      ]

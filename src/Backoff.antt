-- ===== src/Backoff.antt =====
-- internal/manager/manager.go: how long relayConnectLoop and retryConnectPeer wait before they try
-- again. Durations are in nanoseconds, as in Go's package time.
pub mod Waits
use malon.Base.{
  ℕ, suc, ◌+◌, ◌%◌, ◌*◌, ◌^◌, ◌≤◌, ◌≡◌, refl, sym, ap, ◌∙◌, [], ◌∷◌, List, Bytes, if◌then◌else◌,
  arith, Option, none, some, String, Error, ltb, zero,
}
use malon.Manager.{MionPeer, Manager}
use malon.Manager.Retrying.{setup_relay_peers}

-- `time.Second`
abbrev pub second : ℕ
second = 1000000000

-- `if backoff < maxBackoff { backoff *= 2 }`
unfoldable pub next_backoff : ℕ → ℕ → ℕ
next_backoff max_backoff b = if ltb b max_backoff then b * 2 else b

-- `backoff` after a number of rounds that failed
unfoldable pub backoff_after : ℕ → ℕ → ℕ
backoff_after max_backoff zero = second
backoff_after max_backoff (suc n) = next_backoff max_backoff (backoff_after max_backoff n)

abbrev pub relay_max_backoff : ℕ
relay_max_backoff = 30 * second

abbrev pub retry_max_backoff : ℕ
retry_max_backoff = 15 * second

-- A call of proxy.Connect: it fails, or the stream is established and lost again later.
pub data Attempt : Type 0 where
  fails connects : Attempt

module _ {P : Type 0} ⦃mion : MionPeer P⦄ where
  -- relayConnectLoop: the waits, and what the loop does to the manager.
  unfoldable pub relay_connect_loop : String → List Attempt → ℕ → Manager P → List ℕ × Manager P
  relay_connect_loop u [] b m = ([], m)
  relay_connect_loop u (fails ∷ attempts) b m =
      let rest = relay_connect_loop u attempts (next_backoff relay_max_backoff b) m in
      (b ∷ rest.0, rest.1)
  relay_connect_loop u (connects ∷ attempts) b m =
      let rest =
        relay_connect_loop u attempts (next_backoff relay_max_backoff second)
          (setup_relay_peers u (record m { generation = (m.generation + 1) % 2 ^ 32 })) in
      (second ∷ rest.0, rest.1)

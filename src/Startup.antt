-- ===== src/Startup.antt =====
-- internal/manager/manager.go: New, and the start of Run: the relays that a node connects to.
pub mod Relays
pub mod Pool
pub mod Listening
use text.Mathlib.Text.{◌==◌ as str_eq}
use malon.Base.{
  ℕ, Bool, true, false, List, [], ◌∷◌, ◌++◌, map, Bytes, String, Error, Result, ok, err, Option,
  none, some, if◌then◌else◌,
}
use malon.Manager.{Manager, get_or_create_proxy, register_peer}

-- The goroutines that Run starts.
pub data Routine : Type 0 where
  accepting_probes accepting reading_control : Routine
  connecting_relay : String → Routine

-- What Run does once it has started them: it waits for the context, or for the loops of the relays.
pub data Waiting : Type 0 where
  for_context for_relays : Waiting

-- A call of RegisterPeer.
pub record Registration (P : Type 0) : Type 0 where
  pub id : Bytes
  pub peer : P
  pub relay_url : String

abbrev pub waiting_for : List String → Waiting
waiting_for [] = for_context
waiting_for (u ∷ us) = for_relays

module _ {P : Type 0} where
  -- New; whether mion's role is that of a client is what the handlers ask later.
  unfoldable pub new_manager : Bool → String → Manager P
  new_manager is_client interface_relay_url =
      let m : Manager P = record {
        is_client = is_client;
        has_direct_ln = false;
        peers = [];
        proxies = [];
        generation = 1;
        closed = [];
        started = [];
        retries = λ _. 0;
        crashed = false;
      } in
      if str_eq interface_relay_url "" then m else get_or_create_proxy interface_relay_url m

  -- Calls of RegisterPeer, one after the other; an error leaves the manager as it was.
  unfoldable pub register_each : List (Registration P) → Manager P → Manager P
  register_each [] m = m
  register_each (r ∷ rs) m = register_each rs (register_peer r.id r.peer r.relay_url m).0

  abbrev pub relay_loops : Manager P → List Routine
  relay_loops m = map connecting_relay m.proxies

  abbrev pub listening : Result ℕ → Manager P → Manager P × List Routine
  listening (err e) m = (m, [])
  listening (ok port) m = (record m { has_direct_ln = true }, accepting_probes ∷ [])

  -- Run behind the call of `direct.New`, with what that gives, the port of the listener or an error: the state, the goroutines that it
  -- starts, in their order, and what it waits for.
  unfoldable pub run : Result ℕ → Manager P → Manager P × List Routine × Waiting
  run listener m =
      let (m', probing) = listening listener m in
      (m', probing ++ (accepting ∷ reading_control ∷ relay_loops m'), waiting_for m'.proxies)

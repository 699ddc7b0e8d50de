-- ===== src/Backoff/Waits.antt =====
-- The waits between the attempts, against the powers of two.
use malon.Base.{
  if_both, ℕ, zero, suc, ◌+◌, ◌%◌, ◌<◌, ◌*◌, ◌^◌, ◌≤◌, ◌≡◌, min, refl, ap, ◌∙◌, [], ◌∷◌, List,
  Bytes, arith, String, Option, none, some,
}
use malon.Manager.{PeerEntry, MionPeer, Manager, start_retry}
use malon.Manager.Retrying.{setup_relay_peers, retry_one, retry_each}
use malon.Base.Keys.{lookup, bytes_eq}
use malon.Backoff.{
  second, next_backoff, backoff_after, relay_max_backoff, retry_max_backoff, Attempt, fails,
  connects, relay_connect_loop,
}

min_all : (k n : ℕ) → k ≤ n → min n k ≡ k
min_all k n h = omega arith

-- After `n` failed rounds relayConnectLoop waits 2 ^ n seconds, and after the fifth always 32
-- seconds: two more than its `maxBackoff`.
pub backoff_after-relay : (n : ℕ) → backoff_after relay_max_backoff n ≡ second * 2 ^ min n 5
unfolding backoff_after next_backoff
backoff_after-relay zero = refl
backoff_after-relay (suc zero) = refl
backoff_after-relay (suc (suc zero)) = refl
backoff_after-relay (suc (suc (suc zero))) = refl
backoff_after-relay (suc (suc (suc (suc zero)))) = refl
backoff_after-relay (suc (suc (suc (suc (suc zero))))) = refl
backoff_after-relay (suc (suc (suc (suc (suc (suc n)))))) =
    rw
      (
        backoff_after-relay (suc (suc (suc (suc (suc n))))),
        min_all 5 (suc (suc (suc (suc (suc n))))) (omega arith),
        min_all 5 (suc (suc (suc (suc (suc (suc n)))))) (omega arith),
      )
      refl

-- After `n` failed rounds retryConnectPeer waits 2 ^ n seconds, and after the fourth always 16
-- seconds: one more than its `maxBackoff`.
pub backoff_after-retry : (n : ℕ) → backoff_after retry_max_backoff n ≡ second * 2 ^ min n 4
unfolding backoff_after next_backoff
backoff_after-retry zero = refl
backoff_after-retry (suc zero) = refl
backoff_after-retry (suc (suc zero)) = refl
backoff_after-retry (suc (suc (suc zero))) = refl
backoff_after-retry (suc (suc (suc (suc zero)))) = refl
backoff_after-retry (suc (suc (suc (suc (suc n))))) =
    rw
      (
        backoff_after-retry (suc (suc (suc (suc n)))),
        min_all 4 (suc (suc (suc (suc n)))) (omega arith),
        min_all 4 (suc (suc (suc (suc (suc n))))) (omega arith),
      )
      refl

-- The number of attempts that connected.
abbrev pub connected : List Attempt → ℕ
connected [] = 0
connected (fails ∷ attempts) = connected attempts
connected (connects ∷ attempts) = suc (connected attempts)

-- The waits of the loop: a success sets the count of failures back.
abbrev pub waits_after : ℕ → List Attempt → List ℕ
waits_after n [] = []
waits_after n (fails ∷ attempts) = (second * 2 ^ min n 5) ∷ waits_after (suc n) attempts
waits_after n (connects ∷ attempts) = second ∷ waits_after 1 attempts

module _ {P : Type 0} ⦃mion : MionPeer P⦄ where
  loop-waits :
      (u : String) (attempts : List Attempt) (n : ℕ) (m : Manager P)
      → (relay_connect_loop u attempts (backoff_after relay_max_backoff n) m).0
        ≡ waits_after n attempts
  unfolding relay_connect_loop backoff_after
  loop-waits u [] n m = refl
  loop-waits u (fails ∷ attempts) n m =
      ap (λ ws. backoff_after relay_max_backoff n ∷ ws) (loop-waits u attempts (suc n) m)
      ∙ ap (λ w. w ∷ waits_after (suc n) attempts) (backoff_after-relay n)
  loop-waits u (connects ∷ attempts) n m = ap (λ ws. second ∷ ws) (loop-waits u attempts 1 _)

  -- relayConnectLoop waits after every attempt: one second after a connection that was lost, and
  -- 2 ^ n seconds, at most 32, after a failure that follows `n` others, where a lost connection
  -- counts as the first.
  pub relay_connect_loop-waits :
      (u : String) (attempts : List Attempt) (m : Manager P)
      → (relay_connect_loop u attempts second m).0 ≡ waits_after 0 attempts
  unfolding backoff_after
  relay_connect_loop-waits u attempts m = loop-waits u attempts 0 m

  generation-retry_each :
      (ids : List Bytes) (m : Manager P) → (retry_each ids m).generation ≡ m.generation
  unfolding retry_each start_retry
  generation-retry_each [] m = refl
  generation-retry_each (id ∷ ids) m =
      generation-retry_each ids _ ∙ generation-retry_one id (lookup id m.peers) m
    where
      generation-retry_one :
          (id : Bytes) (o : Option (PeerEntry P)) (m : Manager P)
          → (retry_one id o m).generation ≡ m.generation
      generation-retry_one id none m = refl
      generation-retry_one id (some e) m =
          if_both (λ (n : Manager P). n.generation ≡ m.generation) e.retrying_conn refl refl

  generation-setup :
      (u : String) (m : Manager P) → (setup_relay_peers u m).generation ≡ m.generation
  unfolding setup_relay_peers
  generation-setup u m =
      if_both (λ (n : Manager P). n.generation ≡ m.generation) m.is_client
        (generation-retry_each _ _) refl

  -- relayConnectLoop adds one to the network generation, of 32 bits, for each connection, and for nothing else.
  pub relay_connect_loop-generation :
      (u : String) (attempts : List Attempt) (b : ℕ) (m : Manager P)
      → m.generation < 2 ^ 32
      → (relay_connect_loop u attempts b m).1.generation
        ≡ (m.generation + connected attempts) % 2 ^ 32
  unfolding relay_connect_loop
  relay_connect_loop-generation u [] b m l = omega arith
  relay_connect_loop-generation u (fails ∷ attempts) b m l =
      relay_connect_loop-generation u attempts _ m l
  relay_connect_loop-generation u (connects ∷ attempts) b m l = omega (
    arith,
    relay_connect_loop-generation u attempts (next_backoff relay_max_backoff second)
        (setup_relay_peers u (record m { generation = (m.generation + 1) % 2 ^ 32 })),
    generation-setup u (record m { generation = (m.generation + 1) % 2 ^ 32 }),
  )

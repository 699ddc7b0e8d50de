-- ===== src/Inbound/Hanging.antt =====
-- internal/manager/manager.go, internal/direct/listener.go: a direct connection that sends no request.
use malon.Base.{
  Error, ◌≡◌, refl, ◌∙◌, ℕ, zero, suc, ◌≤◌, ◌<◌, Bytes, none, some, List, [], ◌∷◌, ◌++◌, length,
  arith, ok,
}
use malon.Identity.{Crypto}
use malon.Auth.{alpn_h3}
use malon.Direct.{
  QuicConn, Event, Closes, Handling, handled, refused, hangs, peer_id_from_conn, handle_connect,
  handle_conn, accept,
}
use malon.Manager.{MionPeer, Manager}
use malon.Inbound.{Served, listener_closed, stuck, serve_event, probe_accept_loop}

module _ ⦃c : Crypto⦄ where
  handle_conn-hangs :
      (q : QuicConn) (closes : Closes) (id : Bytes)
      → q.alpn ≡ alpn_h3
      → peer_id_from_conn q.peer_certificates ≡ ok id
      → q.request ≡ none
      → handle_conn q closes ≡ hangs
  unfolding handle_conn handle_connect
  handle_conn-hangs q closes id alpn key silent = rw (alpn, key, silent) refl

module _ {P : Type 0} ⦃c : Crypto⦄ ⦃mion : MionPeer P⦄ where
  -- The loop on its first connection.
  loop_handled :
      (fuel : ℕ) (q : QuicConn) (qs : List QuicConn) (closes closes' : Closes) (e : Event)
      (m : Manager P)
      → handle_conn q closes ≡ handled e closes'
      → probe_accept_loop (suc fuel) (q ∷ qs) closes m
        ≡ probe_accept_loop fuel qs closes' (serve_event e m)
  unfolding probe_accept_loop accept
  loop_handled fuel q qs closes closes' e m h = rw (h, probe_accept_loop, accept) refl

  loop_refused :
      (fuel : ℕ) (q : QuicConn) (qs : List QuicConn) (closes : Closes) (x : Error) (m : Manager P)
      → handle_conn q closes ≡ refused x
      → probe_accept_loop (suc fuel) (q ∷ qs) closes m
        ≡ probe_accept_loop (suc fuel) qs ((q.number, 1) ∷ closes) m
  unfolding probe_accept_loop accept
  loop_refused fuel q qs closes x m h = rw (h, probe_accept_loop, accept) refl

  loop_hangs :
      (fuel : ℕ) (q : QuicConn) (qs : List QuicConn) (closes : Closes) (m : Manager P)
      → handle_conn q closes ≡ hangs
      → probe_accept_loop (suc fuel) (q ∷ qs) closes m ≡ some (stuck m closes)
  unfolding probe_accept_loop accept
  loop_hangs fuel q qs closes m h = rw (h, probe_accept_loop, accept) refl

  loop_empty :
      (fuel : ℕ) (closes : Closes) (m : Manager P)
      → probe_accept_loop (suc fuel) [] closes m ≡ some (listener_closed m closes)
  unfolding probe_accept_loop accept
  loop_empty fuel closes m = refl

  Ends : ℕ → List QuicConn → Closes → Manager P → Type 0
  Ends fuel qs closes m = (r : Served P) × (probe_accept_loop fuel qs closes m ≡ some r)

  -- The loop of probeAcceptLoop comes to an end, or to an Accept that never returns, with one round for each
  -- connection and one more.
  pub probe_accept_loop-ends :
      (qs : List QuicConn) (fuel : ℕ) (closes : Closes) (m : Manager P)
      → length qs < fuel
      → (r : Served P) × (probe_accept_loop fuel qs closes m ≡ some r)
  unfolding Ends
  probe_accept_loop-ends qs zero closes m l = absurd (omega arith)
  probe_accept_loop-ends [] (suc fuel) closes m l =
      (listener_closed m closes, loop_empty fuel closes m)
  probe_accept_loop-ends (q ∷ qs) (suc fuel) closes m l =
      by_handling (λ f cs n k. probe_accept_loop-ends qs f cs n k) (handle_conn q closes) refl
    where
      by_handling :
          ((f : ℕ) (cs : Closes) (n : Manager P) → length qs < f → Ends f qs cs n)
          → (o : Handling) → handle_conn q closes ≡ o
          → Ends (suc fuel) (q ∷ qs) closes m
      by_handling ih (handled e cs) h =
          rw (loop_handled fuel q qs closes cs e m h)
            (ih fuel cs (serve_event e m) (omega (arith, l)))
      by_handling ih (refused x) h =
          rw (loop_refused fuel q qs closes x m h)
            (ih (suc fuel) ((q.number, 1) ∷ closes) m (omega (arith, l)))
      by_handling ih hangs h = (stuck m closes, loop_hangs fuel q qs closes m h)

  Stuck : List QuicConn → QuicConn → Closes → Manager P → Type 0
  Stuck before q closes m =
      (m' : Manager P) × (closes' : Closes) × ((rest : List QuicConn) (fuel : ℕ)
        → length before < fuel
        → probe_accept_loop fuel (before ++ q ∷ rest) closes m ≡ some (stuck m' closes'))

  -- With at least one round left, the loop is stuck on `ps` as it is on `p ∷ ps`.
  later :
      (p q : QuicConn) (ps : List QuicConn) (closes cs : Closes) (m n : Manager P) (spent : ℕ → ℕ)
      → ((f : ℕ) → f ≤ spent f)
      → ((rest : List QuicConn) (f : ℕ)
          → probe_accept_loop (suc f) (p ∷ ps ++ q ∷ rest) closes m
            ≡ probe_accept_loop (spent f) (ps ++ q ∷ rest) cs n)
      → Stuck ps q cs n
      → Stuck (p ∷ ps) q closes m
  unfolding Stuck
  later p q ps closes cs m n spent enough step (m', closes', run) = (m', closes', go)
    where
      go :
          (rest : List QuicConn) (fuel : ℕ)
          → length (p ∷ ps) < fuel
          → probe_accept_loop fuel (p ∷ ps ++ q ∷ rest) closes m ≡ some (stuck m' closes')
      go rest zero l = absurd (omega arith)
      go rest (suc f) l = step rest f ∙ run rest (spent f) (omega (arith, l, enough f))

  at_once :
      (q : QuicConn) (before : List QuicConn) (closes : Closes) (m : Manager P)
      → ((rest : List QuicConn) (f : ℕ)
          → probe_accept_loop (suc f) (before ++ q ∷ rest) closes m ≡ some (stuck m closes))
      → Stuck before q closes m
  unfolding Stuck
  at_once q before closes m step = (m, closes, go)
    where
      go :
          (rest : List QuicConn) (fuel : ℕ)
          → length before < fuel
          → probe_accept_loop fuel (before ++ q ∷ rest) closes m ≡ some (stuck m closes)
      go rest zero l = absurd (omega arith)
      go rest (suc f) l = step rest f

  silent-Stuck :
      (q : QuicConn)
      → ((closes : Closes) → handle_conn q closes ≡ hangs)
      → (before : List QuicConn) (closes : Closes) (m : Manager P) → Stuck before q closes m
  unfolding Stuck
  silent-Stuck q silent [] closes m =
      at_once q [] closes m (λ rest f. loop_hangs f q rest closes m (silent closes))
  silent-Stuck q silent (p ∷ ps) closes m =
      by_handling (λ cs n. silent-Stuck q silent ps cs n) (handle_conn p closes) refl
    where
      by_handling :
          ((cs : Closes) (n : Manager P) → Stuck ps q cs n)
          → (o : Handling) → handle_conn p closes ≡ o
          → Stuck (p ∷ ps) q closes m
      by_handling ih (handled e cs) h =
          later p q ps closes cs m (serve_event e m) (λ f. f) (λ f. omega arith)
            (λ rest f. loop_handled f p (ps ++ q ∷ rest) closes cs e m h) (ih cs (serve_event e m))
      by_handling ih (refused x) h =
          later p q ps closes ((p.number, 1) ∷ closes) m m suc (λ f. omega arith)
            (λ rest f. loop_refused f p (ps ++ q ∷ rest) closes x m h)
            (ih ((p.number, 1) ∷ closes) m)
      by_handling ih hangs h =
          at_once q (p ∷ ps) closes m (λ rest f. loop_hangs f p (ps ++ q ∷ rest) closes m h)

  -- A direct connection of a known peer that never sends its request stops the loop: whatever comes after
  -- it, the loop waits for ever, with the state that it has by then.
  pub probe_accept_loop-stuck :
      (q : QuicConn) (id : Bytes)
      → q.alpn ≡ alpn_h3
      → peer_id_from_conn q.peer_certificates ≡ ok id
      → q.request ≡ none
      → (before : List QuicConn) (closes : Closes) (m : Manager P)
      → (m' : Manager P) × (closes' : Closes) × ((rest : List QuicConn) (fuel : ℕ)
          → length before < fuel
          → probe_accept_loop fuel (before ++ q ∷ rest) closes m ≡ some (stuck m' closes'))
  unfolding Stuck
  probe_accept_loop-stuck q id alpn key silent before closes m =
      silent-Stuck q (λ cs. handle_conn-hangs q cs id alpn key silent) before closes m

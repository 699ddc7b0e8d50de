-- ===== src/Proxy/Validity.antt =====
-- internal/h2proxy/proxy.go: the invariant of the session map and the channel store.
use malon.Base.{
  ℕ, suc, ◌≤◌, ◌<◌, ◌≡◌, refl, [], ◌∷◌, Bytes, List, length, arith, inl, inr, false, Option, none,
  some, Option-cases, ==_iff, length-append, Bool,
}
use malon.Base.Keys.{nat_eq, lookup, insert, update, lookup-insert, lookup-delete}
use malon.Chan.{Chan, make_chan, close_chan, try_send, offer, try_send-cases}
use malon.Envelope.{Envelope}
use malon.Proxy.{
  Proxy, SessionEntry, Conn, ControlMessage, session_capacity, new_proxy, remove_session,
  close_each, close_all_sessions, safe_send, register_incoming, offer_incoming, incoming_conn,
  dispatch_data, dispatch_control, new_session, established, disconnected,
}

abbrev pub IsBounded : {A : Type 0} → Chan A → Type 0
IsBounded c = length c.buf ≤ c.capacity

-- A channel that a session of the map uses is open; no two sessions share one; none is used that is
-- not yet made; no channel holds more than its capacity, and those to the manager are
-- open; and nothing has panicked.
pub record IsValid {W : Type 0} (p : Proxy W) : Type 0 where
  pub made : (sid : ℕ) (s : SessionEntry) → lookup sid p.sessions ≡ some s → s.ch < p.next_chan
  pub is_open :
      (sid : ℕ) (s : SessionEntry)
      → lookup sid p.sessions ≡ some s
      → (p.chans s.ch).is_closed ≡ false
  pub apart :
      (sid sid' : ℕ) (s s' : SessionEntry)
      → lookup sid p.sessions ≡ some s
      → lookup sid' p.sessions ≡ some s'
      → s.ch ≡ s'.ch
      → sid ≡ sid'
  pub bounded : (c : ℕ) → IsBounded (p.chans c)
  pub accept_open : p.accept_ch.is_closed ≡ false
  pub control_open : p.control_ch.is_closed ≡ false
  pub running : p.crashed ≡ false

offer-IsBounded : {A : Type 0} (a : A) (c : Chan A) → IsBounded c → IsBounded (offer a c)
unfolding offer try_send
offer-IsBounded a c h = ground (arith, length-append c.buf (a ∷ []))

pub is_closed-offer : {A : Type 0} (a : A) (c : Chan A) → (offer a c).is_closed ≡ c.is_closed
unfolding offer try_send
is_closed-offer a c = ground arith

close_each-IsBounded :
    (m : List (ℕ × SessionEntry)) (chans : ℕ → Chan Bytes)
    → ((c : ℕ) → IsBounded (chans c))
    → (c : ℕ) → IsBounded (close_each m chans c)
unfolding close_each
close_each-IsBounded [] chans b c = b c
close_each-IsBounded ((sid, s) ∷ m) chans b c =
    close_each-IsBounded m (update chans s.ch (close_chan (chans s.ch)))
      (λ i. ground (arith, b i, b s.ch)) c

module _ {W : Type 0} where
  pub new_proxy-IsValid :
      (self_id : Bytes) (control_ch : Chan ControlMessage) (accept_ch : Chan Conn)
      → control_ch.is_closed ≡ false
      → accept_ch.is_closed ≡ false
      → IsValid {W = W} (new_proxy self_id control_ch accept_ch)
  unfolding new_proxy lookup
  new_proxy-IsValid self_id control_ch accept_ch c a = record {
    made = λ sid s h. cc;
    is_open = λ sid s h. cc;
    apart = λ sid sid' s s' h. cc;
    bounded = λ c. omega arith;
    accept_open = a;
    control_open = c;
    running = refl;
  }

  pub safe_send-IsValid : (c : ℕ) (b : Bytes) (p : Proxy W) → IsValid p → IsValid (safe_send c b p)
  unfolding safe_send
  safe_send-IsValid c b p v = record {
    made = v.made;
    is_open =
        λ sid s h. ground (arith, v.is_open sid s h, is_closed-offer b (p.chans c), ==_iff c s.ch);
    apart = v.apart;
    bounded = λ i. ground (arith, v.bounded i, v.bounded c, offer-IsBounded b (p.chans c));
    accept_open = v.accept_open;
    control_open = v.control_open;
    running = v.running;
  }

  -- A new channel under a session identifier, whether or not the identifier was in use.
  add-IsValid :
      (sid : ℕ) (peer : Bytes) (n : ℕ) (p : Proxy W)
      → IsValid p
      → IsValid (record p {
        next_sid = n;
        chans = update p.chans p.next_chan (make_chan session_capacity);
        next_chan = suc p.next_chan;
        sessions = insert sid (record { ch = p.next_chan; peer_id = peer }) p.sessions;
      })
  add-IsValid sid peer n p v = record {
    made = λ i s h. ground (
      arith,
      v.made i s,
      lookup-insert sid i (record { ch = p.next_chan; peer_id = peer }) p.sessions,
    );
    is_open = λ i s h. ground (
      arith,
      v.made i s,
      v.is_open i s,
      lookup-insert sid i (record { ch = p.next_chan; peer_id = peer }) p.sessions,
    );
    apart = λ i j s t h k. ground (
      arith,
      v.made i s,
      v.made j t,
      v.apart i j s t,
      lookup-insert sid i (record { ch = p.next_chan; peer_id = peer }) p.sessions,
      lookup-insert sid j (record { ch = p.next_chan; peer_id = peer }) p.sessions,
    );
    bounded = λ i. ground (arith, v.bounded i);
    accept_open = v.accept_open;
    control_open = v.control_open;
    running = v.running;
  }

  pub remove_session-IsValid : (sid : ℕ) (p : Proxy W) → IsValid p → IsValid (remove_session sid p)
  unfolding remove_session
  remove_session-IsValid sid p v = elim (Option-cases (lookup sid p.sessions)) [
    | inl e ↦ rw (e, remove_session) v
    | inr (s, e) ↦
        rw (e, remove_session)
          (record {
            made = λ i t h. ground (arith, v.made i t, lookup-delete sid i p.sessions);
            is_open = λ i t h.
                ground (arith, v.is_open i t, v.apart sid i s t e, lookup-delete sid i p.sessions);
            apart = λ i j t u h k. ground (
              arith,
              v.apart i j t u,
              lookup-delete sid i p.sessions,
              lookup-delete sid j p.sessions,
            );
            bounded = λ i. ground (arith, v.bounded i, v.bounded s.ch);
            accept_open = v.accept_open;
            control_open = v.control_open;
            running = v.running;
          })
  ]

  pub close_all_sessions-IsValid : (p : Proxy W) → IsValid p → IsValid (close_all_sessions p)
  unfolding close_all_sessions lookup
  close_all_sessions-IsValid p v = record {
    made = λ sid s h. cc;
    is_open = λ sid s h. cc;
    apart = λ sid sid' s s' h. cc;
    bounded = close_each-IsBounded p.sessions p.chans v.bounded;
    accept_open = v.accept_open;
    control_open = v.control_open;
    running = v.running;
  }

  pub register_incoming-IsValid :
      (env : Envelope) (p : Proxy W) → IsValid p → IsValid (register_incoming env p)
  unfolding register_incoming
  register_incoming-IsValid env p v =
      safe_send-IsValid p.next_chan env.payload _
        (add-IsValid env.session_id env.src_peer_id p.next_sid p v)

  pub offer_incoming-IsValid :
      (conn : Conn) (p : Proxy W) → IsValid p → IsValid (offer_incoming conn p)
  unfolding offer_incoming
  offer_incoming-IsValid conn p v = elim (try_send-cases conn p.accept_ch v.accept_open) [
    | inl (room, e) ↦
        rw (e, offer_incoming)
          (record {
            made = v.made;
            is_open = v.is_open;
            apart = v.apart;
            bounded = v.bounded;
            accept_open = v.accept_open;
            control_open = v.control_open;
            running = v.running;
          })
    | inr (_, e) ↦ rw (e, offer_incoming) (remove_session-IsValid conn.session_id p v)
  ]

  pub dispatch_data-IsValid :
      (env : Envelope) (p : Proxy W) → IsValid p → IsValid (dispatch_data env p)
  unfolding dispatch_data
  dispatch_data-IsValid env p v = elim (Option-cases (lookup env.session_id p.sessions)) [
    | inl e ↦
        rw (e, dispatch_data)
          (offer_incoming-IsValid (incoming_conn p env) (register_incoming env p)
            (register_incoming-IsValid env p v))
    | inr (s, e) ↦ rw (e, dispatch_data) (safe_send-IsValid s.ch env.payload p v)
  ]

  pub new_session-IsValid :
      (peer : Bytes) (p : Proxy W) → IsValid p → IsValid (new_session peer p).0
  unfolding new_session
  new_session-IsValid peer p v = add-IsValid _ peer _ p v

  pub dispatch_control-IsValid :
      (env : Envelope) (p : Proxy W) → IsValid p → IsValid (dispatch_control env p)
  unfolding dispatch_control
  dispatch_control-IsValid env p v =
      let msg : ControlMessage = record { src_peer_id = env.src_peer_id; payload = env.payload } in
      elim (try_send-cases msg p.control_ch v.control_open) [
        | inl (room, e) ↦
            rw (e, dispatch_control)
              (record {
                made = v.made;
                is_open = v.is_open;
                apart = v.apart;
                bounded = v.bounded;
                accept_open = v.accept_open;
                control_open = v.control_open;
                running = v.running;
              })
        | inr (_, e) ↦ rw (e, dispatch_control) v
      ]

  -- The writer, the connection state and the counter play no part in validity.
  pub plain-IsValid :
      (writer : Option W) (connected : Bool) (p : Proxy W)
      → IsValid p
      → IsValid (record p { writer = writer; connected = connected })
  plain-IsValid writer connected p v = record {
    made = v.made;
    is_open = v.is_open;
    apart = v.apart;
    bounded = v.bounded;
    accept_open = v.accept_open;
    control_open = v.control_open;
    running = v.running;
  }

  pub established-IsValid :
      (w : W) (p : Proxy W) → p.connected ≡ false → IsValid p → IsValid (established w p)
  unfolding established
  established-IsValid w p idle v = record {
    made = v.made;
    is_open = v.is_open;
    apart = v.apart;
    bounded = v.bounded;
    accept_open = v.accept_open;
    control_open = v.control_open;
    running = ground (arith, v.running);
  }

  pub disconnected-IsValid : (p : Proxy W) → IsValid p → IsValid (disconnected p)
  unfolding disconnected
  disconnected-IsValid p v = close_all_sessions-IsValid _ (plain-IsValid none p.connected p v)

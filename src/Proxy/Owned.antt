-- ===== src/Proxy/Owned.antt =====
-- internal/h2proxy/proxy.go: who will close a session's channel.
use malon.Base.{
  ℕ, suc, ◌+◌, ◌%◌, ◌^◌, ◌<◌, ◌≡◌, ◌≢◌, refl, sym, ap, ◌∙◌, [], ◌∷◌, Bytes, List, arith, inl, inr,
  true, false, none, some, Option-cases, Bool-cases, ==_iff, ◌==◌, if_both, Bool,
}
use malon.Base.Keys.{
  nat_eq, lookup, insert, update, lookup-insert, lookup-delete, lookup-insert_self,
}
use malon.Chan.{Chan, make_chan, close_chan, try_send, sent, full, on_closed, Sending}
use malon.Envelope.{Envelope, stream_type_data, stream_type_control}
use malon.Proxy.{
  Proxy, SessionEntry, Conn, ControlMessage, session_capacity, new_proxy, remove_session,
  close_each, close_all_sessions, safe_send, register_incoming, offer_incoming, incoming_conn,
  dispatch_data, dispatch_control, dispatch, new_session, disconnected,
}
use malon.Proxy.Validity.{is_closed-offer}

-- An open channel that was made belongs to a session of the map.
abbrev pub IsOwned : {W : Type 0} → Proxy W → Type 0
IsOwned p =
    (c : ℕ)
    → c < p.next_chan
    → (p.chans c).is_closed ≡ false
    → (sid : ℕ) × (s : SessionEntry) × (lookup sid p.sessions ≡ some s) × (s.ch ≡ c)

pub new_proxy-IsOwned :
    (W : Type 0) (self_id : Bytes) (control_ch : Chan ControlMessage) (accept_ch : Chan Conn)
    → IsOwned (new_proxy {W = W} self_id control_ch accept_ch)
unfolding new_proxy
new_proxy-IsOwned W self_id control_ch accept_ch c l open_ = absurd (omega (arith, l))

module _ {W : Type 0} where
  safe_send-IsOwned : (i : ℕ) (b : Bytes) (p : Proxy W) → IsOwned p → IsOwned (safe_send i b p)
  unfolding safe_send
  safe_send-IsOwned i b p o c l open_ =
      o c l (ground (arith, open_, is_closed-offer b (p.chans i), ==_iff i c))

  -- A new channel under a session number that is free.
  add-IsOwned :
      (sid n : ℕ) (peer : Bytes) (p : Proxy W)
      → lookup sid p.sessions ≡ none
      → IsOwned p
      → IsOwned (record p {
        next_sid = n;
        chans = update p.chans p.next_chan (make_chan session_capacity);
        next_chan = suc p.next_chan;
        sessions = insert sid (record { ch = p.next_chan; peer_id = peer }) p.sessions;
      })
  add-IsOwned sid n peer p free o c l open_ =
      let s : SessionEntry = record { ch = p.next_chan; peer_id = peer } in
      elim (Bool-cases (p.next_chan == c)) [
        | inl new ↦ (sid, s, lookup-insert_self sid s p.sessions, (==_iff p.next_chan c).0 new)
        | inr old ↦
            let (sid', s', there, same) = o c (ground (arith, old)) (rw old at (open_)) in
            (
              sid',
              s',
              ground (arith, lookup-insert sid sid' s p.sessions, free, there, ==_iff sid sid'),
              same,
            )
      ]

  pub remove_session-IsOwned : (sid : ℕ) (p : Proxy W) → IsOwned p → IsOwned (remove_session sid p)
  unfolding remove_session
  remove_session-IsOwned sid p o = elim (Option-cases (lookup sid p.sessions)) [
    | inl e ↦ rw (e, remove_session) o
    | inr (s, e) ↦ rw (e, remove_session) (removed s e)
  ]
    where
      removed :
          (s : SessionEntry)
          → lookup sid p.sessions ≡ some s
          → IsOwned (record p {
            chans = update p.chans s.ch (close_chan (p.chans s.ch));
            sessions = malon.Base.Keys.delete sid p.sessions;
          })
      removed s e c l open_ =
          let other : (s.ch == c) ≡ false = ground (arith, open_) in
          let (sid', s', there, same) = o c l (rw other at (open_)) in
          (
            sid',
            s',
            ground (
              arith,
              lookup-delete sid sid' p.sessions,
              e,
              there,
              same,
              other,
              ==_iff sid sid',
              ==_iff s.ch c,
            ),
            same,
          )

  register_incoming-IsOwned :
      (env : Envelope) (p : Proxy W)
      → lookup env.session_id p.sessions ≡ none
      → IsOwned p
      → IsOwned (register_incoming env p)
  unfolding register_incoming
  register_incoming-IsOwned env p free o =
      safe_send-IsOwned p.next_chan env.payload _
        (add-IsOwned env.session_id p.next_sid env.src_peer_id p free o)

  offer_incoming-IsOwned : (conn : Conn) (p : Proxy W) → IsOwned p → IsOwned (offer_incoming conn p)
  unfolding offer_incoming
  offer_incoming-IsOwned conn p o = finish (try_send conn p.accept_ch) refl
    where
      finish : (r : Sending Conn) → try_send conn p.accept_ch ≡ r → IsOwned (offer_incoming conn p)
      finish (sent ch) e = rw (e, offer_incoming) o
      finish full e = rw (e, offer_incoming) (remove_session-IsOwned conn.session_id p o)
      finish on_closed e = rw (e, offer_incoming) o

  dispatch_data-IsOwned : (env : Envelope) (p : Proxy W) → IsOwned p → IsOwned (dispatch_data env p)
  unfolding dispatch_data
  dispatch_data-IsOwned env p o = elim (Option-cases (lookup env.session_id p.sessions)) [
    | inl e ↦
        rw (e, dispatch_data)
          (offer_incoming-IsOwned (incoming_conn p env) (register_incoming env p)
            (register_incoming-IsOwned env p e o))
    | inr (s, e) ↦ rw (e, dispatch_data) (safe_send-IsOwned s.ch env.payload p o)
  ]

  dispatch_control-IsOwned :
      (env : Envelope) (p : Proxy W) → IsOwned p → IsOwned (dispatch_control env p)
  unfolding dispatch_control
  dispatch_control-IsOwned env p o =
      finish
        (try_send (record { src_peer_id = env.src_peer_id; payload = env.payload }) p.control_ch)
        refl
    where
      finish :
          (r : Sending ControlMessage)
          → try_send (record { src_peer_id = env.src_peer_id; payload = env.payload }) p.control_ch
            ≡ r
          → IsOwned (dispatch_control env p)
      finish (sent ch) e = rw (e, dispatch_control) o
      finish full e = rw (e, dispatch_control) o
      finish on_closed e = rw (e, dispatch_control) o

  pub dispatch-IsOwned : (env : Envelope) (p : Proxy W) → IsOwned p → IsOwned (dispatch env p)
  unfolding dispatch
  dispatch-IsOwned env p o =
      if_both IsOwned (env.stream_type == stream_type_data) (dispatch_data-IsOwned env p o) (
        if_both IsOwned (env.stream_type == stream_type_control) (dispatch_control-IsOwned env p o)
          o)

  -- A session whose number is free keeps every channel owned.
  pub new_session-IsOwned :
      (peer : Bytes) (p : Proxy W)
      → lookup (new_session peer p).1.session_id p.sessions ≡ none
      → IsOwned p
      → IsOwned (new_session peer p).0
  unfolding new_session
  new_session-IsOwned peer p free o =
      add-IsOwned ((p.next_sid + 1) % 2 ^ 32) ((p.next_sid + 1) % 2 ^ 32) peer p free o

-- closeAllSessions leaves closed what was closed, and closes the channel of each session.
close_each-closed :
    (m : List (ℕ × SessionEntry)) (chans : ℕ → Chan Bytes) (c : ℕ)
    → (chans c).is_closed ≡ true
    → (close_each m chans c).is_closed ≡ true
unfolding close_each
close_each-closed [] chans c h = h
close_each-closed ((sid, s) ∷ m) chans c h =
    close_each-closed m (update chans s.ch (close_chan (chans s.ch))) c
      (ground (arith, h, ==_iff s.ch c))

close_each-closes :
    (m : List (ℕ × SessionEntry)) (chans : ℕ → Chan Bytes) (sid : ℕ) (s : SessionEntry)
    → lookup sid m ≡ some s
    → (close_each m chans s.ch).is_closed ≡ true
unfolding close_each lookup
close_each-closes [] chans sid s h = absurd (cc h)
close_each-closes ((i, t) ∷ m) chans sid s h = elim (Bool-cases (sid == i)) [
  | inl here ↦
      let same : some t ≡ some s = rw here at (h) in
      let same' : t ≡ s = cc same in
      rw (← same') (
        close_each-closed m (update chans t.ch (close_chan (chans t.ch))) t.ch
          (ground (arith, ==_iff t.ch t.ch)))
  | inr there ↦
      close_each-closes m (update chans t.ch (close_chan (chans t.ch))) sid s (rw there at (h))
]

module _ {W : Type 0} where
  -- What Connect defers closes every channel that was made.
  pub disconnected-closes :
      (p : Proxy W) (c : ℕ)
      → IsOwned p
      → c < p.next_chan
      → ((disconnected p).chans c).is_closed ≡ true
  unfolding disconnected close_all_sessions
  disconnected-closes p c o l = elim (Bool-cases (p.chans c).is_closed) [
    | inl shut ↦ close_each-closed p.sessions p.chans c shut
    | inr open_ ↦
        let (sid, s, there, same) = o c l open_ in
        rw (← same) (close_each-closes p.sessions p.chans sid s there)
  ]

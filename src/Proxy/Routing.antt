-- ===== src/Proxy/Routing.antt =====
-- Where an arriving envelope goes.
use malon.Base.{
  ℕ, zero, suc, ◌≤◌, ◌<◌, ◌≡◌, refl, ap, ◌∙◌, [], ◌∷◌, ◌++◌, Bytes, All, List, eof, wrap, length,
  ltb, if◌then◌else◌, arith, inl, inr, true, false, none, some, ==_iff, fun_ext,
}
use malon.Base.Keys.{
  nat_eq, lookup, insert, delete, update, lookup-insert, lookup-delete, lookup-insert_self,
}
use malon.Chan.{Chan, close_chan, try_send, sent, full, offer, offer_open, try_send-cases}
use malon.Envelope.{Envelope, IsValid as IsValidEnvelope, frame, decode}
use malon.Envelope.RoundTrip.{decode-frame}
use malon.Proxy.{
  Proxy, SessionEntry, Conn, session_capacity, remove_session, safe_send, register_incoming,
  offer_incoming, incoming_conn, dispatch_data, dispatch, read_loop,
}
use malon.Proxy.Validity.{IsValid}

abbrev pub frames : List Envelope → Bytes
frames [] = []
frames (env ∷ envs) = frame env ++ frames envs

module _ {W : Type 0} where
  -- The branches of these operations, by what they test.
  pub dispatch_data-some :
      (env : Envelope) (p : Proxy W) {s : SessionEntry}
      → lookup env.session_id p.sessions ≡ some s
      → dispatch_data env p ≡ safe_send s.ch env.payload p
  unfolding dispatch_data
  dispatch_data-some env p e = rw (e, dispatch_data)

  dispatch_data-none :
      (env : Envelope) (p : Proxy W)
      → lookup env.session_id p.sessions ≡ none
      → dispatch_data env p ≡ offer_incoming (incoming_conn p env) (register_incoming env p)
  unfolding dispatch_data
  dispatch_data-none env p e = rw (e, dispatch_data)

  offer_incoming-sent :
      (conn : Conn) (p : Proxy W) {ch : Chan Conn}
      → try_send conn p.accept_ch ≡ sent ch
      → offer_incoming conn p ≡ record p { accept_ch = ch }
  unfolding offer_incoming
  offer_incoming-sent conn p e = rw (e, offer_incoming)

  offer_incoming-full :
      (conn : Conn) (p : Proxy W)
      → try_send conn p.accept_ch ≡ full
      → offer_incoming conn p ≡ remove_session conn.session_id p
  unfolding offer_incoming
  offer_incoming-full conn p e = rw (e, offer_incoming)

  pub remove_session-some :
      (sid : ℕ) (p : Proxy W) {s : SessionEntry}
      → lookup sid p.sessions ≡ some s
      → remove_session sid p ≡ record p {
        chans = update p.chans s.ch (close_chan (p.chans s.ch));
        sessions = delete sid p.sessions;
      }
  unfolding remove_session
  remove_session-some sid p e = rw (e, remove_session)

  pub remove_session-none :
      (sid : ℕ) (p : Proxy W) → lookup sid p.sessions ≡ none → remove_session sid p ≡ p
  unfolding remove_session
  remove_session-none sid p e = rw (e, remove_session)

  -- A data envelope of a known session puts its payload behind the others in that session's
  -- channel, if that is not full, and changes nothing else: no other session, and no connection is
  -- offered. Which peer sent it is not looked at.
  pub dispatch_data_known :
      (env : Envelope) (p : Proxy W) (s : SessionEntry)
      → IsValid p
      → lookup env.session_id p.sessions ≡ some s
      → let ch = p.chans s.ch in
        dispatch_data env p ≡ record p {
          chans = update p.chans s.ch (
              if ltb (length ch.buf) ch.capacity
              then record ch { buf = ch.buf ++ env.payload ∷ [] }
              else ch);
        }
  unfolding safe_send
  dispatch_data_known env p s v e =
      dispatch_data-some env p e
      ∙ (ap (λ (d : Chan Bytes). record p { chans = update p.chans s.ch d })
          (offer_open env.payload (p.chans s.ch) (v.is_open env.session_id s e)))

  registered_chans :
      (env : Envelope) (p : Proxy W)
      → (register_incoming env p).chans
        ≡ update p.chans p.next_chan
            (record { buf = env.payload ∷ []; capacity = session_capacity; is_closed = false })
  unfolding register_incoming safe_send offer try_send
  registered_chans env p = fun_ext λ i. ground (arith, ==_iff p.next_chan p.next_chan)

  -- A data envelope of a session that is not known, while the manager's queue has room: the session
  -- is entered with the sender as its peer, its channel holds exactly the payload, a connection to
  -- the sender is queued behind the others, and nothing else changes.
  pub dispatch_data_new :
      (env : Envelope) (p : Proxy W)
      → IsValid p
      → lookup env.session_id p.sessions ≡ none
      → length p.accept_ch.buf < p.accept_ch.capacity
      → dispatch_data env p ≡ record p {
        accept_ch = record (p.accept_ch) { buf = p.accept_ch.buf ++ incoming_conn p env ∷ [] };
        chans =
            update p.chans p.next_chan
              (record { buf = env.payload ∷ []; capacity = session_capacity; is_closed = false });
        next_chan = suc p.next_chan;
        sessions =
            insert env.session_id
              (record { ch = p.next_chan; peer_id = env.src_peer_id })
              p.sessions;
      }
  unfolding register_incoming safe_send
  dispatch_data_new env p v e room =
      elim (try_send-cases (incoming_conn p env) p.accept_ch v.accept_open) [
        | inl (_, q) ↦
            dispatch_data-none env p e
            ∙ offer_incoming-sent (incoming_conn p env) (register_incoming env p) q
            ∙ ap
                (λ (f : ℕ → Chan Bytes). record p {
                  accept_ch = record (p.accept_ch) {
                    buf = p.accept_ch.buf ++ incoming_conn p env ∷ [];
                  };
                  chans = f;
                  next_chan = suc p.next_chan;
                  sessions =
                      insert env.session_id (record { ch = p.next_chan; peer_id = env.src_peer_id })
                        p.sessions;
                })
                (registered_chans env p)
        | inr (no_room, q) ↦ absurd (omega arith)
      ]

  -- The same where the queue is full: no session is entered and nothing is queued. The new channel
  -- is closed, and nobody holds it.
  pub dispatch_data_refused :
      (env : Envelope) (p : Proxy W) (sid : ℕ)
      → IsValid p
      → lookup env.session_id p.sessions ≡ none
      → p.accept_ch.capacity ≤ length p.accept_ch.buf
      → (lookup sid (dispatch_data env p).sessions ≡ lookup sid p.sessions)
        × ((dispatch_data env p).accept_ch ≡ p.accept_ch)
        × ((dispatch_data env p).chans p.next_chan
            ≡ record { buf = env.payload ∷ []; capacity = session_capacity; is_closed = true })
  unfolding register_incoming safe_send offer
  dispatch_data_refused env p sid v e no_room =
      elim (try_send-cases (incoming_conn p env) p.accept_ch v.accept_open) [
        | inl (room, q) ↦ absurd (omega arith)
        | inr (_, q) ↦
            let entry : SessionEntry = record { ch = p.next_chan; peer_id = env.src_peer_id } in
            let whole =
              dispatch_data-none env p e
              ∙ offer_incoming-full (incoming_conn p env) (register_incoming env p) q
              ∙ remove_session-some env.session_id (register_incoming env p)
                  (lookup-insert_self env.session_id entry p.sessions) in
            (
              (ap (λ (r : Proxy W). lookup sid r.sessions) whole
                  ∙ ground (
                    arith,
                    lookup-delete env.session_id sid (insert env.session_id entry p.sessions),
                    lookup-insert env.session_id sid entry p.sessions,
                    ==_iff env.session_id sid,
                  )),
              ap (λ (r : Proxy W). r.accept_ch) whole,
              ap (λ (r : Proxy W). r.chans p.next_chan) whole
                  ∙ ground (arith, ==_iff p.next_chan p.next_chan),
            )
      ]

  -- The envelopes of a stream are dispatched one after the other.
  unfoldable pub dispatch_all : List Envelope → Proxy W → Proxy W
  dispatch_all [] p = p
  dispatch_all (env ∷ envs) p = dispatch_all envs (dispatch env p)

  -- readLoop over the frames of envelopes, followed by the end of the stream, with a round for each
  -- and one more: it dispatches each in its turn and ends with the error of the missing header.
  pub read_loop-frames :
      (envs : List Envelope) (fuel : ℕ) (p : Proxy W)
      → All IsValidEnvelope envs
      → length envs < fuel
      → read_loop fuel (record { bytes = frames envs; ending = eof }) p
        ≡ some (dispatch_all envs p, wrap "envelope: read header" eof)
  unfolding read_loop dispatch_all
  read_loop-frames envs zero p a h = absurd (omega arith)
  read_loop-frames [] (suc fuel) p a h = unfold decode in refl
  read_loop-frames (env ∷ envs) (suc fuel) p a h =
      rw (decode-frame env (frames envs) eof a.0, read_loop)
        (read_loop-frames envs fuel (dispatch env p) a.1 (omega arith))

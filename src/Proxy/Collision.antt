-- ===== src/Proxy/Collision.antt =====
-- Two peers that use the same session number: each counts its own sessions from 1.
use malon.Base.{
  ℕ, ◌+◌, ◌%◌, ◌^◌, ◌≢◌, Bytes, ◌<◌, ◌≡◌, ap, ◌∙◌, [], ◌∷◌, ◌++◌, false, none, some, length, ==_iff,
  arith,
}
use malon.Base.Keys.{nat_eq, lookup, lookup-insert, lookup-insert_self}
use malon.Envelope.{Envelope}
use malon.Proxy.{Proxy, SessionEntry, session_capacity, dispatch_data, incoming_conn, new_session}
use malon.Proxy.Validity.{IsValid, dispatch_data-IsValid}
use malon.Proxy.Routing.{dispatch_data_new, dispatch_data_known}

module _ {W : Type 0} where
  -- When a second peer's first envelope has the number of a session that a first peer has
  -- just opened, its payload is put behind the first peer's in the channel of the first peer's
  -- connection, and no connection to the second peer is queued.
  pub dispatch_data-collision :
      (env env' : Envelope) (p : Proxy W)
      → IsValid p
      → env'.session_id ≡ env.session_id
      → lookup env.session_id p.sessions ≡ none
      → length p.accept_ch.buf < p.accept_ch.capacity
      → (let q = dispatch_data env' (dispatch_data env p) in
          ((q.chans p.next_chan).buf ≡ env.payload ∷ env'.payload ∷ [])
          × (q.accept_ch.buf ≡ p.accept_ch.buf ++ incoming_conn p env ∷ []))
  dispatch_data-collision env env' p v same fresh room =
      let s : SessionEntry = record { ch = p.next_chan; peer_id = env.src_peer_id } in
      let first = dispatch_data_new env p v fresh room in
      let there : lookup env'.session_id (dispatch_data env p).sessions ≡ some s = rw same (
        ap (λ (r : Proxy W). lookup env.session_id r.sessions) first
        ∙ lookup-insert_self env.session_id s p.sessions) in
      let second =
        dispatch_data_known env' (dispatch_data env p) s (dispatch_data-IsValid env p v) there in
      let ch : (dispatch_data env p).chans p.next_chan
          ≡ record { buf = env.payload ∷ []; capacity = session_capacity; is_closed = false } =
        ap (λ (r : Proxy W). r.chans p.next_chan) first
        ∙ ground (arith, ==_iff p.next_chan p.next_chan) in
      (
        ap (λ (r : Proxy W). (r.chans p.next_chan).buf) second
            ∙ ground (arith, ch, ==_iff p.next_chan p.next_chan),
        ap (λ (r : Proxy W). r.accept_ch.buf) second ∙ ap (λ (r : Proxy W). r.accept_ch.buf) first,
      )

  -- NewSession enters its number in the map also if a session that a peer has opened stands there: the
  -- channel of that one stays open, but no session of the map has it any more, so that nobody will close it.
  pub new_session-replaces :
      (peer : Bytes) (p : Proxy W) (s : SessionEntry)
      → IsValid p
      → lookup (new_session peer p).1.session_id p.sessions ≡ some s
      → (let q = (new_session peer p).0 in
          ((q.chans s.ch).is_closed ≡ false)
          × ((sid : ℕ) (t : SessionEntry) → lookup sid q.sessions ≡ some t → t.ch ≢ s.ch))
  unfolding new_session
  new_session-replaces peer p s v there =
      let mine = (p.next_sid + 1) % 2 ^ 32 in
      (
        ground (arith, v.made mine s there, v.is_open mine s there),
        λ sid t h same. ground (
          arith,
          lookup-insert mine sid (record { ch = p.next_chan; peer_id = peer }) p.sessions,
          v.made mine s there,
          v.apart mine sid s t there,
          ==_iff mine sid,
        ),
      )

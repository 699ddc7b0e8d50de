-- ===== src/Transport/Carried.antt =====
-- A session of two nodes as a pipe of bytes.
use malon.Base.{
  ℕ, ◌+◌, ◌≤◌, ◌<◌, ◌≡◌, refl, sym, ap, ◌∙◌, append_assoc, List, [], ◌∷◌, ◌++◌, Bytes, some, Error,
  eof, wrap, false, true, All, map, length, arith, concat, concat-append, take_all, length-append,
}
use malon.Base.Keys.{nat_eq, bytes_eq, lookup}
use malon.Io.{Writer, Stream}
use malon.Chan.{Chan, buf-offer_all}
use malon.Envelope.{Envelope, IsValid}
use malon.Relay.{Relay, register, unregister, handle_tunnel}
use malon.Relay.Forward.{forward_all, handle_tunnel-frames}
use malon.Proxy.{Proxy, Conn, SessionEntry, read_loop}
use malon.Proxy.Routing.{frames, dispatch_all, read_loop-frames}
use malon.Session.{pending}
use malon.Session.Writes.{sent_bytes}
use malon.Transport.{write_all, AllWritten, AllForwarded, envelopes}
use malon.Transport.Legs.{write_all-frames, forward_all-frames, dispatch_all-chan}

dst-envelopes :
    (self_id : Bytes) (c : Conn) (bs : List Bytes)
    → map (λ (env : Envelope). env.dst_peer_id) (envelopes self_id c bs)
      ≡ map (λ _. c.peer_id) (envelopes self_id c bs)
dst-envelopes self_id c [] = refl
dst-envelopes self_id c (b ∷ bs) = ap (λ l. c.peer_id ∷ l) (dst-envelopes self_id c bs)

length-envelopes :
    (self_id : Bytes) (c : Conn) (bs : List Bytes) → length (envelopes self_id c bs) ≡ length bs
length-envelopes self_id c [] = refl
length-envelopes self_id c (b ∷ bs) = omega (arith, length-envelopes self_id c bs)

-- What is written to a stream, up to its end.
abbrev pub stream_of : Bytes → Stream
stream_of b = record { bytes = b; ending = eof }

some_inj : {A : Type 0} {a b : A} → some a ≡ some b → a ≡ b
some_inj h = cc h

arrived :
    {U : Type 0} (bs : List Bytes) (c d : Conn) (q : Proxy U) (self_id : Bytes) (s : SessionEntry)
    → lookup c.session_id q.sessions ≡ some s
    → d.recv_ch ≡ s.ch
    → (q.chans s.ch).is_closed ≡ false
    → length (q.chans s.ch).buf + length bs ≤ (q.chans s.ch).capacity
    → pending d (dispatch_all (envelopes self_id c bs) q) ≡ pending d q ++ concat bs
arrived bs c d q self_id s known same_ch open_ room =
    let ch = q.chans s.ch in
    let fits : length (ch.buf ++ bs) ≤ ch.capacity = omega (arith, length-append ch.buf bs, room) in
    let buf : ((dispatch_all (envelopes self_id c bs) q).chans s.ch).buf ≡ ch.buf ++ bs =
      ap (λ (x : Chan Bytes). x.buf) (dispatch_all-chan self_id c bs q s known)
      ∙ buf-offer_all bs ch open_ (omega (arith, room))
      ∙ take_all ch.capacity (ch.buf ++ bs) fits in
    ap (λ k. d.read_buf ++ concat ((dispatch_all (envelopes self_id c bs) q).chans k).buf) same_ch
    ∙ ap (λ x. d.read_buf ++ concat x) buf
    ∙ ap (λ x. d.read_buf ++ x) (concat-append ch.buf bs)
    ∙ sym (append_assoc d.read_buf (concat ch.buf) (concat bs))
    ∙ ap (λ k. (d.read_buf ++ concat (q.chans k).buf) ++ concat bs) (sym same_ch)

module _ {V W U : Type 0} ⦃vr : Writer V⦄ ⦃wr : Writer W⦄ where
  -- A session of two nodes is a pipe, over a tunnel to the relay and a stream to the other node that both start
  -- empty and carry only this session: the buffers that one node has written, without errors, to a session go
  -- through the handler of its tunnel at the relay, which has forwarded them without errors, and
  -- through the readLoop of the other node, where the session is known and its channel has room for them; then what that
  -- node's connection still has to read is what it had, and behind it all bytes that were written, in order. The handler
  -- and the readLoop end.
  pub carried :
      (bs : List Bytes) (c d : Conn) (p : Proxy V) (v : V) (r : Relay W) (q : Proxy U) (id : Bytes)
      (h h' fuel : ℕ) (s : SessionEntry) (out : Bytes)
      → p.writer ≡ some v
      → vr.out v ≡ []
      → AllWritten bs c p
      → sent_bytes (write_all bs c p).writer ≡ some out
      → All IsValid (envelopes p.self_id c bs)
      → lookup c.peer_id (register id h r).streams ≡ some h'
      → wr.out (r.writers h') ≡ []
      → AllForwarded (envelopes p.self_id c bs) (register id h r)
      → lookup c.session_id q.sessions ≡ some s
      → d.recv_ch ≡ s.ch
      → (q.chans s.ch).is_closed ≡ false
      → length (q.chans s.ch).buf + length bs ≤ (q.chans s.ch).capacity
      → length bs < fuel
      → (r' : Relay W) × (q' : Proxy U) × (e : Error) × (handle_tunnel fuel id h (stream_of out) r
          ≡ some (r', true))
        × (read_loop fuel (stream_of (wr.out (r'.writers h'))) q ≡ some (q', e))
        × (pending d q' ≡ pending d q ++ concat bs)
  unfolding register unregister
  carried bs c d p v r q id h h' fuel s out live fresh written_all sent valid there fresh' forwarded
        known same_ch open_ room enough =
      let envs = envelopes p.self_id c bs in
      let short : length envs < fuel = omega (arith, length-envelopes p.self_id c bs, enough) in
      let sent_is : some out ≡ some (vr.out v ++ frames envs) =
        sym sent ∙ write_all-frames bs c p v live written_all in
      let out_is : out ≡ frames envs = some_inj sent_is ∙ ap (λ x. x ++ frames envs) fresh in
      let r' = unregister id (forward_all envs (register id h r)) in
      let out_is' : wr.out (r'.writers h') ≡ frames envs =
        forward_all-frames envs c.peer_id h' (register id h r) there (dst-envelopes p.self_id c bs)
          forwarded
        ∙ ap (λ x. x ++ frames envs) fresh' in
      (
        r',
        dispatch_all envs q,
        wrap "envelope: read header" eof,
        ap (λ x. handle_tunnel fuel id h (stream_of x) r) out_is
            ∙ handle_tunnel-frames envs fuel id h r valid short,
        ap (λ x. read_loop fuel (stream_of x) q) out_is' ∙ read_loop-frames envs fuel q valid short,
        arrived bs c d q p.self_id s known same_ch open_ room,
      )

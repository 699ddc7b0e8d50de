-- ===== src/Transport/Legs.antt =====
-- The three legs of a session's way: from the session to the relay, through the relay, and from the relay to the
-- channel of the session at the other end.
use malon.Base.{
  ℕ, ◌≡◌, refl, sym, ap, ◌∙◌, append_assoc, append-nil, List, [], ◌∷◌, ◌++◌, Bytes, Option, none,
  some, map, length, ==_iff, true, ◌==◌,
}
use malon.Base.Keys.{nat_eq, bytes_eq, lookup}
use malon.Io.{Writer}
use malon.Chan.{offer, offer_all}
use malon.Envelope.{Envelope, frame}
use malon.Relay.{Relay, forward}
use malon.Relay.Forward.{forward-frame, forward_all}
use malon.Proxy.{Proxy, Conn, SessionEntry, dispatch, safe_send}
use malon.Proxy.Routing.{dispatch_data-some, frames, dispatch_all}
use malon.Session.{write, data_envelope}
use malon.Session.Writes.{sent_bytes, write-frame}
use malon.Transport.{write_all, AllWritten, AllForwarded, envelopes}

module _ {W : Type 0} ⦃wr : Writer W⦄ where
  sent_bytes-some :
      (o : Option W) (x : Bytes) → sent_bytes o ≡ some x → (w : W) × (o ≡ some w) × (wr.out w ≡ x)
  sent_bytes-some none x h = absurd (cc h)
  sent_bytes-some (some w) x h = (w, refl, cc h)

  pub write_all-frames :
      (bs : List Bytes) (c : Conn) (p : Proxy W) (w : W)
      → p.writer ≡ some w
      → AllWritten bs c p
      → sent_bytes (write_all bs c p).writer ≡ some (wr.out w ++ frames (envelopes p.self_id c bs))
  unfolding write_all AllWritten
  write_all-frames [] c p w live h = rw (live, append-nil (wr.out w)) refl
  write_all-frames (b ∷ bs) c p w live (h, hs) =
      let (_, out, same) = write-frame b c w p (length b) live h in
      let p' = (write b c p).0 in
      let (w', live', out') = sent_bytes-some p'.writer _ out in
      let self : p'.self_id ≡ p.self_id = ap (λ (q : Proxy W). q.self_id) same in
      let rest = write_all-frames bs c p' w' live' hs in
      rest
      ∙ ap some (rw (out', self) (append_assoc (wr.out w) (frame (data_envelope p.self_id c b)) _))

  pub forward_all-frames :
      (envs : List Envelope) (id : Bytes) (h : ℕ) (r : Relay W)
      → lookup id r.streams ≡ some h
      → map (λ (env : Envelope). env.dst_peer_id) envs ≡ map (λ _. id) envs
      → AllForwarded envs r
      → wr.out ((forward_all envs r).writers h) ≡ wr.out (r.writers h) ++ frames envs
  unfolding forward_all AllForwarded
  forward_all-frames [] id h r there dst sent = sym (append-nil _)
  forward_all-frames (env ∷ envs) id h r there dst (first, rest) =
      let here : env.dst_peer_id ≡ id = cc dst in
      let tail : map (λ (e : Envelope). e.dst_peer_id) envs ≡ map (λ _. id) envs = cc dst in
      let (out, same) = forward-frame env r h h (ap (λ k. lookup k r.streams) here ∙ there) first in
      let r' = (forward env r).0 in
      let self : (h == h) ≡ true = (==_iff h h).1 refl in
      forward_all-frames envs id h r' (ap (lookup id) same ∙ there) tail rest
      ∙ ap (λ x. x ++ frames envs) (out ∙ rw self refl)
      ∙ append_assoc (wr.out (r.writers h)) (frame env) (frames envs)

module _ {W : Type 0} where
  dispatch-data :
      (self_id : Bytes) (c : Conn) (b : Bytes) (p : Proxy W) (s : SessionEntry)
      → lookup c.session_id p.sessions ≡ some s
      → dispatch (data_envelope self_id c b) p ≡ safe_send s.ch b p
  unfolding dispatch
  dispatch-data self_id c b p s known = dispatch_data-some (data_envelope self_id c b) p known

  offered :
      (c : ℕ) (b : Bytes) (p : Proxy W)
      → ((safe_send c b p).chans c ≡ offer b (p.chans c))
        × ((safe_send c b p).sessions ≡ p.sessions)
  unfolding safe_send
  offered c b p = (rw ((==_iff c c).1 refl) refl, refl)

  pub dispatch_all-chan :
      (self_id : Bytes) (c : Conn) (bs : List Bytes) (p : Proxy W) (s : SessionEntry)
      → lookup c.session_id p.sessions ≡ some s
      → (dispatch_all (envelopes self_id c bs) p).chans s.ch ≡ offer_all bs (p.chans s.ch)
  unfolding dispatch_all offer_all
  dispatch_all-chan self_id c [] p s known = refl
  dispatch_all-chan self_id c (b ∷ bs) p s known =
      let (sent, same) = offered s.ch b p in
      ap (λ (x : Proxy W). (dispatch_all (envelopes self_id c bs) x).chans s.ch)
        (dispatch-data self_id c b p s known)
      ∙ dispatch_all-chan self_id c bs (safe_send s.ch b p) s
          (ap (lookup c.session_id) same ∙ known)
      ∙ ap (offer_all bs) sent

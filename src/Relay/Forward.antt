-- ===== src/Relay/Forward.antt =====
-- internal/relay/relay.go: what the relay delivers (forward, and the loop of handleConnect).
use malon.Base.{
  ℕ, zero, suc, ◌<◌, ◌≡◌, refl, sym, ap, ◌∙◌, [], ◌∷◌, ◌++◌, Bytes, All, List, Error, eof, errorf,
  length, if◌then◌else◌, arith, true, Option, none, some, ◌==◌,
}
use malon.Base.Keys.{bytes_eq, lookup, update}
use malon.Io.{Writer}
use malon.Envelope.{Envelope, IsValid, frame, decode, encode}
use malon.Envelope.RoundTrip.{decode-frame, out-encode}
use malon.Proxy.Routing.{frames}
use malon.Relay.{Relay, forward, serve, wrote, register, unregister, handle_tunnel, finished}

module _ {W : Type 0} ⦃wr : Writer W⦄ where
  -- An envelope for a peer that is not connected is refused, and nothing is written.
  pub forward_unknown :
      (env : Envelope) (r : Relay W)
      → lookup env.dst_peer_id r.streams ≡ none
      → forward env r ≡ (r, some (errorf "peer not connected"))
  unfolding forward
  forward_unknown env r e = rw (e, forward)

  forward-some :
      (env : Envelope) (r : Relay W) {h : ℕ}
      → lookup env.dst_peer_id r.streams ≡ some h
      → forward env r ≡ wrote h r (encode (r.writers h) env)
  unfolding forward
  forward-some env r e = rw (e, forward)

  wrote-streams : (h : ℕ) (r : Relay W) (x : W × Option Error) → (wrote h r x).0.streams ≡ r.streams
  wrote-streams h r (w, none) = refl
  wrote-streams h r (w, some e) = refl

  wrote-none :
      (h : ℕ) (r : Relay W) (x : W × Option Error)
      → (wrote h r x).1 ≡ none
      → (x.1 ≡ none) × (wrote h r x ≡ (record r { writers = update r.writers h x.0 }, none))
  wrote-none h r (w, none) e = (refl, refl)
  wrote-none h r (w, some x) e = cc

  -- An envelope that `forward` delivers without an error stands, unchanged, at the end of the stream
  -- of the peer it is addressed to; no other stream and no registration changes.
  pub forward-frame :
      (env : Envelope) (r : Relay W) (h i : ℕ)
      → lookup env.dst_peer_id r.streams ≡ some h
      → (forward env r).1 ≡ none
      → (wr.out ((forward env r).0.writers i)
          ≡ (if h == i then wr.out (r.writers h) ++ frame env else wr.out (r.writers i)))
        × ((forward env r).0.streams ≡ r.streams)
  forward-frame env r h i e sent_ok =
      let whole = forward-some env r e in
      let (clean, shape) =
        wrote-none h r (encode (r.writers h) env)
          (ap (λ (x : Relay W × Option Error). x.1) (sym whole) ∙ sent_ok) in
      (
        ap (λ (x : Relay W × Option Error). wr.out (x.0.writers i)) (whole ∙ shape)
            ∙ ground (arith, out-encode (r.writers h) env clean),
        ap (λ (x : Relay W × Option Error). x.0.streams) (whole ∙ shape),
      )

  -- The envelopes of a peer's stream are forwarded one after the other, whatever the errors.
  unfoldable pub forward_all : List Envelope → Relay W → Relay W
  forward_all [] r = r
  forward_all (env ∷ envs) r = forward_all envs (forward env r).0

  serve-frames :
      (envs : List Envelope) (fuel : ℕ) (r : Relay W)
      → All IsValid envs
      → length envs < fuel
      → serve fuel (record { bytes = frames envs; ending = eof }) r
        ≡ some (forward_all envs r, true)
  unfolding serve forward_all
  serve-frames envs zero r a h = absurd (omega arith)
  serve-frames [] (suc fuel) r a h = unfold decode in refl
  serve-frames (env ∷ envs) (suc fuel) r a h =
      rw (decode-frame env (frames envs) eof a.0, serve)
        (serve-frames envs fuel (forward env r).0 a.1 (omega arith))

  -- The handler of a tunnel whose stream carries envelopes and then ends, with a round for each and
  -- one more: every envelope is forwarded, in order, an error of one does not keep back the next,
  -- and the peer's entry is removed at the end. The plain end of the stream is
  -- logged as a warning.
  pub handle_tunnel-frames :
      (envs : List Envelope) (fuel : ℕ) (id : Bytes) (h : ℕ) (r : Relay W)
      → All IsValid envs
      → length envs < fuel
      → handle_tunnel fuel id h (record { bytes = frames envs; ending = eof }) r
        ≡ some (unregister id (forward_all envs (register id h r)), true)
  unfolding handle_tunnel
  handle_tunnel-frames envs fuel id h r a enough =
      ap (finished id) (serve-frames envs fuel (register id h r) a enough)

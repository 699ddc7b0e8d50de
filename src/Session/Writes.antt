-- ===== src/Session/Writes.antt =====
-- internal/h2proxy/envelope_conn.go: what Write puts on the CONNECT stream.
use malon.Base.{
  ℕ, ◌≡◌, refl, sym, ap, ◌∙◌, Option, none, some, Bytes, ◌++◌, Error, Result, ok, length,
}
use malon.Io.{Writer}
use malon.Envelope.{frame, encode}
use malon.Envelope.RoundTrip.{out-encode}
use malon.Proxy.{Proxy, Conn, write_envelope, with_writer}
use malon.Session.{write, written, data_envelope}

abbrev pub sent_bytes : {W : Type 0} ⦃wr : Writer W⦄ → Option W → Option Bytes
sent_bytes none = none
sent_bytes ⦃wr⦄ (some w) = some (wr.out w)

module _ {W : Type 0} ⦃wr : Writer W⦄ where
  abbrev Wrote : Bytes → Bytes → W → Proxy W → ℕ → Proxy W → Type 0
  Wrote b bytes w p n q =
      (n ≡ length b)
      × (sent_bytes q.writer ≡ some (wr.out w ++ bytes))
      × (q ≡ record p { writer = q.writer })

  written-Wrote :
      (b bytes : Bytes) (w : W) (p : Proxy W) (n : ℕ) (x : W × Option Error)
      → (x.1 ≡ none → wr.out x.0 ≡ wr.out w ++ bytes)
      → (written (length b) (with_writer p x)).1 ≡ ok n
      → Wrote b bytes w p n (written (length b) (with_writer p x)).0
  written-Wrote b bytes w p n (w', none) out done = (cc done, ap some (out refl), refl)
  written-Wrote b bytes w p n (w', some e) out done = absurd (cc done)

  write-some :
      (b : Bytes) (c : Conn) (w : W) (p : Proxy W)
      → p.writer ≡ some w
      → write b c p ≡ written (length b) (with_writer p (encode w (data_envelope p.self_id c b)))
  unfolding write write_envelope
  write-some b c w p live =
      let env = data_envelope p.self_id c b in
      let sent : write_envelope env p ≡ with_writer p (encode w env) =
        rw (live, write_envelope) refl in
      ap (written (length b)) sent

  -- A Write on a connected proxy that returns no error has taken all of the buffer, and has
  -- put one data envelope with exactly these bytes, from this node to the session's peer, at the end
  -- of the stream; the sessions and their channels are as before.
  pub write-frame :
      (b : Bytes) (c : Conn) (w : W) (p : Proxy W) (n : ℕ)
      → p.writer ≡ some w
      → (write b c p).1 ≡ ok n
      → (n ≡ length b)
        × (sent_bytes (write b c p).0.writer
            ≡ some (wr.out w ++ frame (data_envelope p.self_id c b)))
        × ((write b c p).0 ≡ record p { writer = (write b c p).0.writer })
  write-frame b c w p n live done =
      let env = data_envelope p.self_id c b in
      let whole = write-some b c w p live in
      rw whole (
        written-Wrote b (frame env) w p n (encode w env) (out-encode w env)
          (ap (λ (r : Proxy W × Result ℕ). r.1) (sym whole) ∙ done))

-- ===== src/Transport.antt =====
-- A session's bytes on their way: envelope_conn.go and proxy.go of internal/h2proxy at both ends, and
-- internal/relay/relay.go between them. The two TLS connections to the relay are taken as streams that give what was
-- written to them, and then end.
pub mod Legs
pub mod Carried
use malon.Base.{
  ℕ, List, [], ◌∷◌, Bytes, Option, none, some, Error, Result, ok, err, ◌≡◌, map, length,
}
use malon.Io.{Writer}
use malon.Envelope.{Envelope}
use malon.Relay.{Relay, forward}
use malon.Proxy.{Proxy, Conn}
use malon.Session.{write, data_envelope}

-- The buffers are written one after the other.
unfoldable pub write_all : {W : Type 0} ⦃wr : Writer W⦄ → List Bytes → Conn → Proxy W → Proxy W
write_all [] c p = p
write_all (b ∷ bs) c p = write_all bs c (write b c p).0

-- Each of these calls takes its whole buffer.
unfoldable pub AllWritten : {W : Type 0} ⦃wr : Writer W⦄ → List Bytes → Conn → Proxy W → Type 0
AllWritten [] c p = Unit {0}
AllWritten (b ∷ bs) c p = ((write b c p).1 ≡ ok (length b)) × AllWritten bs c (write b c p).0

-- Each envelope is forwarded without an error.
unfoldable pub AllForwarded : {W : Type 0} ⦃wr : Writer W⦄ → List Envelope → Relay W → Type 0
AllForwarded [] r = Unit {0}
AllForwarded (env ∷ envs) r = ((forward env r).1 ≡ none) × AllForwarded envs (forward env r).0

abbrev pub envelopes : Bytes → Conn → List Bytes → List Envelope
envelopes self_id c bs = map (data_envelope self_id c) bs

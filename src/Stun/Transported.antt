-- ===== src/Stun/Transported.antt =====
-- internal/stun/stun.go: transportConn, through which the STUN client uses the socket of a quic.Transport. The
-- transport is an argument, with a state of its own.
use malon.Base.{
  ℕ, ◌≤◌, Option, none, some, Bytes, Result, if◌then◌else◌, ltb, Bool-cases, inl, inr, arith,
}
use malon.Packet.{Addr}

-- A deadline is a time in nanoseconds; `none` is the zero time.
pub record TransportConn : Type 0 where
  pub remote_addr : Addr × ℕ
  pub deadline : Option ℕ

-- ReadNonQUICPacket under a context with this deadline, into a buffer of this size, and WriteTo
pub record QuicTransport (S : Type 0) : Type 0 where
  pub read_non_quic_packet : Option ℕ → ℕ → S → S × Result Bytes
  pub write_to : Bytes → Addr × ℕ → S → S × Result ℕ

-- `context.WithDeadline`: an earlier deadline of the parent stays.
abbrev pub with_deadline : Option ℕ → ℕ → Option ℕ
with_deadline none d = some d
with_deadline (some p) d = if ltb d p then some d else some p

-- The deadline of Read's context, from that of the query's.
unfoldable pub read_deadline : Option ℕ → TransportConn → Option ℕ
read_deadline parent c = elim c.deadline [ none ↦ parent | some d ↦ with_deadline parent d ]

-- SetDeadline and SetReadDeadline; SetWriteDeadline does nothing, and neither does Close.
unfoldable pub set_deadline : Option ℕ → TransportConn → TransportConn
set_deadline t c = record c { deadline = t }

module _ {S : Type 0} (tr : QuicTransport S) where
  -- Read
  unfoldable pub transport_read : Option ℕ → ℕ → TransportConn → S → S × Result Bytes
  transport_read parent size c s = tr.read_non_quic_packet (read_deadline parent c) size s

  -- Write
  unfoldable pub transport_write : Bytes → TransportConn → S → S × Result ℕ
  transport_write b c s = tr.write_to b c.remote_addr s

-- A bound on a deadline.
abbrev pub Until : ℕ → Option ℕ → Type 0
Until d none = ⊥
Until d (some e) = e ≤ d

-- A read ends by the query's own deadline, whatever deadline the client sets, and by the client's, too.
pub read_deadline-Until :
    (p d : ℕ) (c : TransportConn)
    → Until p (read_deadline (some p) (set_deadline (some d) c))
      × Until d (read_deadline (some p) (set_deadline (some d) c))
unfolding read_deadline set_deadline
read_deadline-Until p d c = elim (Bool-cases (ltb d p)) [
  | inl earlier ↦ rw earlier (ground arith, ground arith)
  | inr later ↦ rw later (ground arith, ground arith)
]

-- ===== src/Tunnel/Control.antt =====
-- internal/h2proxy/relay_conn.go: what the operations of a tunnel do to its control channel.
use malon.Base.{
  ℕ, zero, suc, ◌≤◌, ◌≡◌, refl, ◌∙◌, false, Option, none, some, [], ◌∷◌, Bytes, Result, ok, err,
  length, ltb, ◌==◌, not, arith, inl, inr, Option-cases, wrapping, length-append, if_both,
}
use malon.Io.{Stream, read_full}
use malon.Chan.{Chan, try_send-cases, Receiving, received, at_end, waits, receive, receive-left}
use malon.Capsule.{
  CapsuleReader, Round, next, packet, failed, or_failed, deliver, read_body, read_round, read_loop,
  read_packet, read_varint, discard, Read, got, lost, capsule_type_control, capsule_type_ip_packet,
  max_capsule_len,
}
use malon.Tunnel.{
  RelayTunnelConn, ctrl_capacity, payload, tunnel_read_packet, after_packet, read_control,
  control_received, tunnel_close, close_capsule,
}

-- There is a control channel, it is open, and holds no more than its capacity.
abbrev pub IsLive : Option (Chan Bytes) → Type 0
IsLive none = ⊥
IsLive (some ch) =
    (ch.is_closed ≡ false) × (ch.capacity ≡ ctrl_capacity) × (length ch.buf ≤ ctrl_capacity)

abbrev LiveRound : Round → Type 0
LiveRound (next c) = IsLive c.ctrl_ch
LiveRound (packet c p) = IsLive c.ctrl_ch
LiveRound (failed ch e) = IsLive ch

abbrev LiveRead : Read → Type 0
LiveRead (got c p) = IsLive c.ctrl_ch
LiveRead (lost ch e) = IsLive ch

or_failed-Live :
    {A : Type 0} (ch : Option (Chan Bytes)) (r : Result A) (k : A → Round)
    → IsLive ch
    → ((a : A) → LiveRound (k a))
    → LiveRound (or_failed ch r k)
or_failed-Live ch (ok a) k l f = f a
or_failed-Live ch (err e) k l f = l

deliver-Live :
    (b : Bytes) (s : Stream) (ch : Option (Chan Bytes)) → IsLive ch → LiveRound (deliver b s ch)
unfolding deliver
deliver-Live b s none l = l
deliver-Live b s (some ch) (open_, size, fits) = elim (try_send-cases b ch open_) [
  | inl (room, e) ↦
      rw (e, deliver) (open_, size, omega (arith, length-append ch.buf (b ∷ []), room, size))
  | inr (_, e) ↦ rw (e, deliver) (open_, size, fits)
]

read_body-Live :
    (size ct n : ℕ) (s : Stream) (ch : Option (Chan Bytes))
    → IsLive ch
    → LiveRound (read_body size ct n s ch)
unfolding read_body
read_body-Live size ct n s ch l =
    if_both LiveRound (ct == capsule_type_control)
      (or_failed-Live ch (wrapping "capsule: read control payload" (read_full n s)) _ l
        (λ r. deliver-Live r.0 r.1 ch l))
      (if_both LiveRound (not (ct == capsule_type_ip_packet))
        (or_failed-Live ch (wrapping "capsule: discard type" (discard n s)) _ l (λ r. l))
        (if_both LiveRound (ltb size n) l
          (or_failed-Live ch (wrapping "capsule: read payload" (read_full n s)) _ l (λ r. l))))

read_round-Live : (size : ℕ) (c : CapsuleReader) → IsLive c.ctrl_ch → LiveRound (read_round size c)
unfolding read_round
read_round-Live size c l =
    or_failed-Live c.ctrl_ch (wrapping "capsule: read type varint" (read_varint c.rd)) _ l λ t.
      or_failed-Live c.ctrl_ch (wrapping "capsule: read length varint" (read_varint t.1)) _ l λ n.
        if_both LiveRound (ltb max_capsule_len n.0) l (read_body-Live size t.0 n.0 n.1 c.ctrl_ch l)

read_loop-Live :
    (fuel size : ℕ) (c : CapsuleReader) (r : Read)
    → IsLive c.ctrl_ch
    → read_loop fuel size c ≡ some r
    → LiveRead r
unfolding read_loop
read_loop-Live zero size c r l h = absurd (cc h)
read_loop-Live (suc fuel) size c r l h =
    finish (λ c' l' h'. read_loop-Live fuel size c' r l' h') (read_round size c) refl
  where
    finish :
        ((c' : CapsuleReader) → IsLive c'.ctrl_ch → read_loop fuel size c' ≡ some r → LiveRead r)
        → (k : Round) → read_round size c ≡ k
        → LiveRead r
    finish rest (next c') e =
        rest c' (rw e at (read_round-Live size c l)) (rw (e, read_loop) at (h))
    finish rest (packet c' p) e =
        let same : some (got c' p) ≡ some r = rw (e, read_loop) at (h) in
        let here : got c' p ≡ r = cc same in rw (← here) (rw e at (read_round-Live size c l))
    finish rest (failed ch e') e =
        let same : some (lost ch e') ≡ some r = rw (e, read_loop) at (h) in
        let here : lost ch e' ≡ r = cc same in rw (← here) (rw e at (read_round-Live size c l))

module _ {W : Type 0} where
  abbrev pub channel : RelayTunnelConn W → Option (Chan Bytes)
  channel t = t.capsule.reader.ctrl_ch

  after_packet-Live :
      (t : RelayTunnelConn W) (r : Read) → LiveRead r → IsLive (channel (after_packet t r).0)
  after_packet-Live t (got r p) l = l
  after_packet-Live t (lost ch e) l = l

  pub tunnel_read_packet-Live :
      (size : ℕ) (t t' : RelayTunnelConn W) (r : Result Bytes)
      → IsLive (channel t)
      → tunnel_read_packet size t ≡ some (t', r)
      → IsLive (channel t')
  unfolding tunnel_read_packet read_packet
  tunnel_read_packet-Live size t t' r l h =
      let fuel = suc (length t.capsule.reader.rd.bytes) in
      elim (Option-cases (read_loop fuel size t.capsule.reader)) [
        | inl e ↦ absurd (cc (rw (e, tunnel_read_packet) at (h)))
        | inr (x, e) ↦
            let same : some (after_packet t x) ≡ some (t', r) = rw (e, tunnel_read_packet) at (h) in
            let here : (after_packet t x).0 ≡ t' = cc same in
            rw (← here) (after_packet-Live t x (read_loop-Live fuel size t.capsule.reader x l e))
      ]

  control_received-Live :
      (t t' : RelayTunnelConn W) (b : Bytes) (ch : Chan Bytes)
      → IsLive (some ch)
      → control_received t (receive ch) ≡ payload b t'
      → IsLive (channel t')
  control_received-Live t t' b ch l h = finish l (receive ch) refl
    where
      finish : IsLive (some ch) → (r : Receiving Bytes) → receive ch ≡ r → IsLive (channel t')
      finish l' at_end e = absurd (cc (rw e at (h)))
      finish l' waits e = absurd (cc (rw e at (h)))
      finish (open_, size, fits) (received x ch') e =
          let (shut, same_size, less) = receive-left ch x ch' e in
          let same : control_received t (received x ch') ≡ payload b t' = rw e at (h) in
          let here : some ch' ≡ channel t' = cc same in
          rw (← here) (shut ∙ open_, same_size ∙ size, omega (arith, less, fits))

  pub read_control-Live :
      (t t' : RelayTunnelConn W) (b : Bytes)
      → IsLive (channel t)
      → read_control t ≡ payload b t'
      → IsLive (channel t')
  unfolding read_control
  read_control-Live t t' b l h = finish (channel t) l refl
    where
      finish : (o : Option (Chan Bytes)) → IsLive o → channel t ≡ o → IsLive (channel t')
      finish none l' e = absurd l'
      finish (some ch) l' e = control_received-Live t t' b ch l' (rw (e, read_control) at (h))

  pub channel-tunnel_close : (t : RelayTunnelConn W) → channel (tunnel_close t).0 ≡ channel t
  unfolding tunnel_close close_capsule
  channel-tunnel_close t = elim (Option-cases t.capsule.shut) [
    | inl e ↦ rw (e, close_capsule) refl
    | inr (f, e) ↦ rw (e, close_capsule) refl
  ]

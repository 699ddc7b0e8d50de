-- ===== src/Tunnel/Arrivals.antt =====
-- internal/h2proxy/relay_conn.go and forwardConnToTUN of internal/manager/manager.go: what is read at one end of a
-- tunnel of what was written at the other.
use malon.Base.{
  ℕ, zero, suc, ◌≤◌, ◌<◌, ◌≡◌, refl, sym, ap, ◌∙◌, append_assoc, append-nil, Option, some, List, [],
  ◌∷◌, ◌++◌, Bytes, Error, eof, wrap, ok, err, length, length-append, false, arith, All, take,
}
use malon.Io.{Writer}
use malon.Chan.{Chan, offer_all, buf-offer_all}
use malon.Capsule.{CapsuleReader, got, lost, read_packet, capsule_type_control, max_capsule_len}
use malon.Capsule.Rounds.{
  Capsule, IsAhead, capsule_bytes, stream_of, controls, offered, offered_nil, offered_cons,
  offered-IsOpen, IsOpen, reader,
}
use malon.Capsule.Frames.{read_packet-capsules, length-stream_of}
use malon.Tunnel.{RelayTunnelConn, with_reader, tunnel_read_packet, read_packets}
use malon.Tunnel.Packets.{
  Message, ip, control, packets_of, controls_of, Fits, wire, send_all, AllSent, out-send_all,
  read_loop_end,
}

abbrev control_capsule : Bytes → Capsule
control_capsule b = record { kind = capsule_type_control; payload = b }

stream_of-snoc :
    (cs : List Capsule) (b rest : Bytes)
    → stream_of (cs ++ control_capsule b ∷ []) ++ rest
      ≡ stream_of cs ++ (capsule_bytes (control_capsule b) ++ rest)
stream_of-snoc [] b rest = ap (λ x. x ++ rest) (append-nil (capsule_bytes (control_capsule b)))
stream_of-snoc (c ∷ cs) b rest =
    append_assoc (capsule_bytes c) (stream_of (cs ++ control_capsule b ∷ [])) rest
    ∙ ap (λ x. capsule_bytes c ++ x) (stream_of-snoc cs b rest)
    ∙ sym (append_assoc (capsule_bytes c) (stream_of cs) _)

controls-snoc :
    (cs : List Capsule) (b : Bytes)
    → controls (cs ++ control_capsule b ∷ []) ≡ controls cs ++ b ∷ []
controls-snoc [] b = refl
controls-snoc (c ∷ cs) b = ground (arith, controls-snoc cs b)

IsAhead-snoc :
    (cs : List Capsule) (b : Bytes)
    → length b ≤ max_capsule_len
    → All IsAhead cs
    → All IsAhead (cs ++ control_capsule b ∷ [])
IsAhead-snoc [] b fits a =
    (record { kind_range = omega arith; not_packet = λ e. omega arith; within = fits }, tt)
IsAhead-snoc (c ∷ cs) b fits a = (a.0, IsAhead-snoc cs b fits a.1)

offered-append :
    (ps qs : List Bytes) (ch : Option (Chan Bytes))
    → offered (ps ++ qs) ch ≡ offered qs (offered ps ch)
offered-append [] qs ch = ap (offered qs) (sym (offered_nil ch))
offered-append (p ∷ ps) qs ch =
    offered_cons p (ps ++ qs) ch
    ∙ offered-append ps qs (offered (p ∷ []) ch)
    ∙ ap (offered qs) (sym (offered_cons p ps ch))

offered_all-IsOpen :
    (ps : List Bytes) (ch : Option (Chan Bytes)) → IsOpen ch → IsOpen (offered ps ch)
offered_all-IsOpen [] ch o = rw (offered_nil ch) o
offered_all-IsOpen (p ∷ ps) ch o =
    rw (offered_cons p ps ch) (offered_all-IsOpen ps (offered (p ∷ []) ch) (offered-IsOpen p ch o))

module _ {W : Type 0} where
  tunnel_got :
      (mtu : ℕ) (t : RelayTunnelConn W) (r : CapsuleReader) (p : Bytes)
      → read_packet mtu t.capsule.reader ≡ some (got r p)
      → tunnel_read_packet mtu t ≡ some (with_reader r t, ok p)
  unfolding tunnel_read_packet
  tunnel_got mtu t r p h = rw (h, tunnel_read_packet) refl

  tunnel_lost :
      (mtu : ℕ) (t : RelayTunnelConn W) (ch : Option (Chan Bytes)) (e : Error)
      → read_packet mtu t.capsule.reader ≡ some (lost ch e)
      → tunnel_read_packet mtu t
        ≡ some (with_reader (record t.capsule.reader { ctrl_ch = ch }) t, err e)
  unfolding tunnel_read_packet
  tunnel_lost mtu t ch e h = rw (h, tunnel_read_packet) refl

  read_packets_got :
      (fuel mtu : ℕ) (t t' t'' : RelayTunnelConn W) (p : Bytes) (ps : List Bytes) (e : Error)
      → tunnel_read_packet mtu t ≡ some (t', ok p)
      → read_packets fuel mtu t' ≡ some (ps, t'', e)
      → read_packets (suc fuel) mtu t ≡ some (p ∷ ps, t'', e)
  unfolding read_packets
  read_packets_got fuel mtu t t' t'' p ps e h h' = rw (h, read_packets) (rw (h', read_packets) refl)

  read_packets_lost :
      (fuel mtu : ℕ) (t t' : RelayTunnelConn W) (e : Error)
      → tunnel_read_packet mtu t ≡ some (t', err e)
      → read_packets (suc fuel) mtu t ≡ some ([], t', e)
  unfolding read_packets
  read_packets_lost fuel mtu t t' e h = rw (h, read_packets) refl

  abbrev Arrived :
      ℕ → ℕ → List Bytes → List Bytes → Bytes → Option (Chan Bytes) → RelayTunnelConn W → Type 0
  Arrived fuel mtu ps bs b ch t =
      (t' : RelayTunnelConn W) × (read_packets fuel mtu (with_reader (reader b eof ch) t)
        ≡ some (ps, t', wrap "capsule: read type varint" eof))
      × (t'.capsule.reader.ctrl_ch ≡ offered bs ch)

  arrive :
      (fuel mtu : ℕ) (cs : List Capsule) (ms : List Message) (ch : Option (Chan Bytes))
      (t : RelayTunnelConn W)
      → length ms < fuel
      → All IsAhead cs
      → All (Fits mtu) ms
      → IsOpen ch
      → Arrived fuel mtu
          (packets_of ms)
          (controls cs ++ controls_of ms)
          (stream_of cs ++ wire ms)
          ch
          t
  unfolding read_packet
  arrive zero mtu cs ms ch t enough a fits o = absurd (omega arith)
  arrive (suc fuel) mtu cs [] ch t enough a fits o =
      let end =
        read_loop_end (suc (length (stream_of cs ++ []))) mtu cs ch
          (omega (arith, length-append (stream_of cs) [], length-stream_of cs)) a o in
      (
        _,
        read_packets_lost fuel mtu _ _ _ (tunnel_lost mtu _ _ _ end),
        ap (λ (x : List Bytes). offered x ch) (sym (append-nil (controls cs))),
      )
  arrive (suc fuel) mtu cs (ip p ∷ ms) ch t enough a ((limit, room), fits) o =
      let ch' = offered (controls cs) ch in
      let (t', rest, chan) =
        arrive fuel mtu [] ms ch' (with_reader (reader (wire ms) eof ch') t) (omega arith) tt fits
          (offered_all-IsOpen (controls cs) ch o) in
      (
        t',
        read_packets_got fuel mtu _ _ t' p _ _
            (tunnel_got mtu (with_reader (reader (stream_of cs ++ wire (ip p ∷ ms)) eof ch) t) _ p
              (read_packet-capsules mtu cs p (wire ms) eof ch a limit room o))
            rest,
        chan ∙ sym (offered-append (controls cs) (controls_of ms) ch),
      )
  arrive (suc fuel) mtu cs (control b ∷ ms) ch t enough a (limit, fits) o =
      let cs' = cs ++ control_capsule b ∷ [] in
      let (t', rest, chan) =
        arrive (suc fuel) mtu cs' ms ch t (omega arith) (IsAhead-snoc cs b limit a) fits o in
      (
        t',
        ap (λ x. read_packets (suc fuel) mtu (with_reader (reader x eof ch) t))
              (sym (stream_of-snoc cs b (wire ms)))
            ∙ rest,
        chan
            ∙ ap (λ (x : List Bytes). offered (x ++ controls_of ms) ch) (controls-snoc cs b)
            ∙ ap (λ (x : List Bytes). offered x ch)
                (append_assoc (controls cs) (b ∷ []) (controls_of ms)),
      )

module _ {V W : Type 0} ⦃vr : Writer V⦄ where
  -- A tunnel carries packets and control messages: what is written to one end without errors, each message within
  -- the reader's limit and each packet within its buffer, is read at the other end. The loop there gives exactly the packets,
  -- in order, and ends with the end of the stream. Behind the control channel's own payloads stand those of
  -- the control messages, in order, up to its capacity; those after them are dropped.
  pub read_packets-send_all :
      (fuel mtu : ℕ) (ms : List Message) (t : RelayTunnelConn V) (r : RelayTunnelConn W)
      (ch : Chan Bytes)
      → vr.out t.capsule.wr ≡ []
      → AllSent ms t
      → All (Fits mtu) ms
      → r.capsule.reader ≡ record {
        rd = record { bytes = vr.out (send_all ms t).capsule.wr; ending = eof };
        ctrl_ch = some ch;
      }
      → ch.is_closed ≡ false
      → length ch.buf ≤ ch.capacity
      → length ms < fuel
      → (r' : RelayTunnelConn W) × (ch' : Chan Bytes) × (read_packets fuel mtu r
          ≡ some (packets_of ms, r', wrap "capsule: read type varint" eof))
        × (r'.capsule.reader.ctrl_ch ≡ some ch')
        × (ch'.buf ≡ take ch.capacity (ch.buf ++ controls_of ms))
  read_packets-send_all fuel mtu ms t r ch new sent fits joined open_ bounded enough =
      let wire_is : vr.out (send_all ms t).capsule.wr ≡ wire ms =
        out-send_all mtu ms t fits sent ∙ ap (λ x. x ++ wire ms) new in
      let (r', read, chan) = arrive fuel mtu [] ms (some ch) r enough tt fits open_ in
      (
        r',
        offer_all (controls_of ms) ch,
        ap (λ (x : CapsuleReader). read_packets fuel mtu (with_reader x r))
              (joined ∙ ap (λ x. reader x eof (some ch)) wire_is)
            ∙ read,
        chan,
        buf-offer_all (controls_of ms) ch open_ bounded,
      )

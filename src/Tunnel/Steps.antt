-- ===== src/Tunnel/Steps.antt =====
-- What can happen to a tunnel with inner TLS, in any order, and what its control channel is then.
use malon.Base.{
  ℕ, ◌≤◌, ◌≡◌, refl, ap, inl, inr, Bool, false, Option, none, some, [], ◌∷◌, Bytes, Result, ok,
  length, arith, Result-cases, if◌then◌else◌,
}
use malon.Io.{Stream, Writer}
use malon.Chan.{Chan, make_chan, Receiving, received, at_end, waits, receive, receive-Receives}
use malon.Auth.{TlsConfig}
use malon.Proxy.{Conn}
use malon.Tunnel.{
  RelayTunnelConn, Tls, ControlRead, payload, ended, blocked, ctrl_capacity, new_capsule_conn,
  new_relay_tunnel_conn_with_mtls, tunnel_read_packet, read_control, control_received, tunnel_close,
  tunnel_write_packet, tunnel_write_control,
}
use malon.Tunnel.Control.{
  IsLive, channel, tunnel_read_packet-Live, read_control-Live, channel-tunnel_close,
}

-- `below`: whatever the connection under the tunnel does, its stream and its state change.
pub data Step {W : Type 0} ⦃wr : Writer W⦄ : RelayTunnelConn W → RelayTunnelConn W → Type 0 where
  below :
      (s : Stream) (w : W) (t : RelayTunnelConn W)
      → Step t (record t {
        capsule = record t.capsule { wr = w; reader = record t.capsule.reader { rd = s } };
      })
  packet_read :
      (size : ℕ) (r : Result Bytes) (t t' : RelayTunnelConn W)
      → tunnel_read_packet size t ≡ some (t', r)
      → Step t t'
  control_read : (b : Bytes) (t t' : RelayTunnelConn W) → read_control t ≡ payload b t' → Step t t'
  packet_written : (pkt : Bytes) (t : RelayTunnelConn W) → Step t (tunnel_write_packet pkt t).0
  control_written : (b : Bytes) (t : RelayTunnelConn W) → Step t (tunnel_write_control b t).0
  closed : (t : RelayTunnelConn W) → Step t (tunnel_close t).0

pub data Reach {W : Type 0} ⦃wr : Writer W⦄ : RelayTunnelConn W → Type 0 where
  begins :
      (tls : Tls W) (is_client : Bool) (cfg : TlsConfig) (c : Conn) (t : RelayTunnelConn W)
      → new_relay_tunnel_conn_with_mtls tls is_client cfg c ≡ ok t
      → Reach t
  followed_by : {t t' : RelayTunnelConn W} → Reach t → Step t t' → Reach t'

module _ {W : Type 0} ⦃wr : Writer W⦄ where
  new-Live :
      (tls : Tls W) (is_client : Bool) (cfg : TlsConfig) (c : Conn) (t : RelayTunnelConn W)
      → new_relay_tunnel_conn_with_mtls tls is_client cfg c ≡ ok t
      → IsLive (channel t)
  unfolding new_relay_tunnel_conn_with_mtls
  new-Live tls is_client cfg c t h =
      elim (Result-cases (if is_client then tls.client cfg c else tls.server cfg c)) [
        | inr (e, failed) ↦ absurd (cc (rw failed at (h)))
        | inl (io, shaken) ↦
            let same : ok (record {
              conn = c;
              capsule = new_capsule_conn io (some (make_chan ctrl_capacity));
            })
                ≡ ok t =
              rw shaken at (h) in
            let here : some (make_chan ctrl_capacity) ≡ channel t = cc same in
            rw (← here) (refl, refl, omega arith)
      ]

  Step-Live : {t t' : RelayTunnelConn W} → Step t t' → IsLive (channel t) → IsLive (channel t')
  unfolding tunnel_write_packet tunnel_write_control
  Step-Live (below s w t) l = l
  Step-Live (packet_read size r t t' h) l = tunnel_read_packet-Live size t t' r l h
  Step-Live (control_read b t t' h) l = read_control-Live t t' b l h
  Step-Live (packet_written pkt t) l = l
  Step-Live (control_written b t) l = l
  Step-Live (closed t) l = rw (channel-tunnel_close t) l

  pub Reach-Live : {t : RelayTunnelConn W} → Reach t → IsLive (channel t)
  Reach-Live (begins tls is_client cfg c t h) = new-Live tls is_client cfg c t h
  Reach-Live (followed_by r s) = Step-Live s (Reach-Live r)

  -- What ReadControl gives while the control channel is open: the oldest payload, or it waits.
  abbrev pub Waits : RelayTunnelConn W → ControlRead W → Type 0
  Waits t (payload b t') =
      (ch : Chan Bytes) × (ch' : Chan Bytes) × (channel t ≡ some ch)
      × (channel t' ≡ some ch')
      × (ch.buf ≡ b ∷ ch'.buf)
  Waits t (ended e) = ⊥
  Waits t blocked = (ch : Chan Bytes) × (channel t ≡ some ch) × (ch.buf ≡ [])

  read_control-some :
      (t : RelayTunnelConn W) (ch : Chan Bytes)
      → channel t ≡ some ch
      → read_control t ≡ control_received t (receive ch)
  unfolding read_control
  read_control-some t ch e =
      let of : Option (Chan Bytes) → ControlRead W =
        λ o. elim o [ none ↦ blocked | some c ↦ control_received t (receive c) ] in
      ap of e

  control_received-Waits :
      (t : RelayTunnelConn W) (ch : Chan Bytes)
      → channel t ≡ some ch
      → ch.is_closed ≡ false
      → Waits t (control_received t (receive ch))
  control_received-Waits t ch here open_ = finish (receive ch) (receive-Receives ch)
    where
      finish : (r : Receiving Bytes) → malon.Chan.Receives ch r → Waits t (control_received t r)
      finish (received b ch') (front, same) = (ch, ch', here, refl, front)
      finish at_end (nothing, shut) = absurd (cc (shut, open_))
      finish waits (nothing, _) = (ch, here, nothing)

  -- In every state that a tunnel with inner TLS reaches, in any order of its operations, Close
  -- among them, and whatever the connection under it does: its control channel holds 16 payloads at
  -- most, and ReadControl gives the oldest one, or waits if there is none; it never reports an end.
  pub read_control-Waits :
      {t : RelayTunnelConn W}
      → Reach t
      → (ch : Chan Bytes) × (channel t ≡ some ch)
        × (length ch.buf ≤ ctrl_capacity)
        × Waits t (read_control t)
  read_control-Waits {t} r = finish (channel t) (Reach-Live r) refl
    where
      finish :
          (o : Option (Chan Bytes))
          → IsLive o
          → channel t ≡ o
          → (ch : Chan Bytes) × (channel t ≡ some ch)
            × (length ch.buf ≤ ctrl_capacity)
            × Waits t (read_control t)
      finish none l e = absurd l
      finish (some ch) (open_, size, fits) e =
          (ch, e, fits, rw (read_control-some t ch e) (control_received-Waits t ch e open_))

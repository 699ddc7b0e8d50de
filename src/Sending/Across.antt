-- ===== src/Sending/Across.antt =====
-- internal/manager/manager.go: the candidates of a node, from sendCandidates over a tunnel to the probes that its
-- peer's controlReadLoop starts.
use malon.Base.{
  ℕ, ◌^◌, ◌≤◌, ◌<◌, ◌≡◌, ◌≢◌, ◌⊎◌, ◌↔◌, refl, sym, ap, ◌∙◌, true, false, none, some, List, [], ◌∷◌,
  ◌++◌, Bytes, String, eof, wrap, length, take, take_all, arith, All, inl, inr,
}
use malon.Io.{Writer}
use malon.Chan.{Chan, receive}
use malon.Capsule.{max_capsule_len}
use malon.Control.{Json, Netip}
use malon.Candidate.{Candidate}
use malon.Probing.{Probe, Prober, handle_control}
use malon.Probing.Own.{candidates_payload}
use malon.Probing.Considered.{Member, Allowed}
use malon.Probing.Exchange.{IsPrintable, Offered, own_candidates-Received}
use malon.Tunnel.{
  RelayTunnelConn, ControlRead, payload, with_reader, read_packets, read_control,
  tunnel_write_control,
}
use malon.Tunnel.Packets.{control, send_all, AllSent}
use malon.Tunnel.Arrivals.{read_packets-send_all}
use malon.Loops.{running, control_read_loop}
use malon.Sending.{Host, stun_answer, all_candidates, send_candidates}

read_control-buf :
    {W : Type 0} (r : RelayTunnelConn W) (ch : Chan Bytes) (b : Bytes)
    → r.capsule.reader.ctrl_ch ≡ some ch
    → ch.buf ≡ b ∷ []
    → (r' : RelayTunnelConn W) × (read_control r ≡ payload b r')
unfolding read_control receive
read_control-buf r ch b e full = (
  with_reader (record r.capsule.reader { ctrl_ch = some (record ch { buf = [] }) }) r,
  rw (e, full, read_control, receive) refl,
)

module _ {V : Type 0} ⦃vr : Writer V⦄ ⦃net : Netip⦄ ⦃json : Json⦄ where
  send_candidates-payload :
      (h : Host) (srv : String) (generation : ℕ) (t : RelayTunnelConn V) (b : Bytes)
      → candidates_payload generation (all_candidates h srv generation) ≡ some b
      → send_candidates h srv generation t ≡ tunnel_write_control b t
  unfolding send_candidates
  send_candidates-payload h srv generation t b e = rw (e, send_candidates) refl

  AllSent-control :
      (b : Bytes) (t : RelayTunnelConn V)
      → (tunnel_write_control b t).1 ≡ none
      → AllSent (control b ∷ []) t
  unfolding AllSent
  AllSent-control b t h = (h, tt)

module _ {P : Type 0} ⦃net : Netip⦄ ⦃json : Json⦄ where
  control_read_loop-one :
      {W : Type 0} (clock : ℕ → ℕ) (src b : Bytes) (r : RelayTunnelConn W) (c : ControlRead W)
      (s : Prober P)
      → c ≡ payload b r
      → control_read_loop src ((clock, c) ∷ []) s ≡ running (handle_control clock src b s)
  unfolding control_read_loop
  control_read_loop-one clock src b r c s e = rw e refl

  -- What b starts at its receiver.
  abbrev Started : (ℕ → ℕ) → Bytes → List Candidate → Prober P → Prober P → Type 0
  Started clock src cs s s' =
      (q : Probe)
      → Member q s'.probes ↔ (
          Member q s.probes
          ⊎ ((s.has_ctx ≡ true) × Allowed src q s × Offered clock s q.addr q.port cs))

module _ {V W P : Type 0} ⦃vr : Writer V⦄ ⦃net : Netip⦄ ⦃json : Json⦄ where
  -- The candidates of a node reach its peer: over a new tunnel, sendCandidates of a node that has candidates, whose
  -- addresses can be printed and whose message is within the reader's limit, if its write succeeds, gives the
  -- other end a control message and no packet. One call of ReadControl there gives controlReadLoop that
  -- message, after which the peer has started to probe exactly those of the candidates that it
  -- allows and that do not cool down when it looks at them, besides what it had started.
  pub send_candidates-probes :
      (mtu generation : ℕ) (clock : ℕ → ℕ) (h : Host) (srv : String) (t : RelayTunnelConn V)
      (r : RelayTunnelConn W) (ch : Chan Bytes) (src : Bytes) (s : Prober P)
      → generation < 2 ^ 32
      → all_candidates h srv generation ≢ []
      → All IsPrintable (all_candidates h srv generation)
      → ((b : Bytes)
          → candidates_payload generation (all_candidates h srv generation) ≡ some b
          → length b ≤ max_capsule_len)
      → vr.out t.capsule.wr ≡ []
      → (send_candidates h srv generation t).1 ≡ none
      → r.capsule.reader ≡ record {
        rd = record {
          bytes = vr.out (send_candidates h srv generation t).0.capsule.wr;
          ending = eof;
        };
        ctrl_ch = some ch;
      }
      → ch.is_closed ≡ false
      → ch.buf ≡ []
      → 0 < ch.capacity
      → (r' : RelayTunnelConn W) × (s' : Prober P) × (read_packets 2 mtu r
          ≡ some ([], r', wrap "capsule: read type varint" eof))
        × (control_read_loop src ((clock, read_control r') ∷ []) s ≡ running s')
        × Started clock src (all_candidates h srv generation) s s'
  unfolding send_all
  send_candidates-probes mtu generation clock h srv t r ch src s l any printable short new written
        joined open_ idle room =
      elim (own_candidates-Received {P = P} h.listen_port generation h.overlay h.ifaces
        (stun_answer h srv) l printable) [
          | inl (nobody, _) ↦ absurd (any nobody)
          | inr (b, e, starts) ↦
              let sent = send_candidates-payload h srv generation t b e in
              let (r', ch', read, at_, buf) =
                read_packets-send_all 2 mtu (control b ∷ []) t r ch new
                  (AllSent-control b t (ap (λ x. x.1) (sym sent) ∙ written)) (short b e, tt)
                  (joined
                    ∙ ap
                        (λ x. record {
                          rd = record { bytes = vr.out x.0.capsule.wr; ending = eof };
                          ctrl_ch = some ch;
                        })
                        sent)
                  open_ (rw idle (omega arith)) (omega arith) in
              let one = read_control-buf r' ch' b at_ (
                buf
                ∙ ap (λ x. take ch.capacity (x ++ b ∷ [])) idle
                ∙ take_all ch.capacity (b ∷ []) (omega (arith, room))) in
              (
                r',
                handle_control clock src b s,
                read,
                control_read_loop-one clock src b one.0 (read_control r') s one.1,
                starts clock src s,
              )
        ]

-- ===== src/Session/Steps.antt =====
-- What can happen to a proxy, one operation at a time, in any order: what the relay sends, the
-- sessions' own operations, and what the manager takes out of its two channels.
use malon.Base.{
  ℕ, ◌≤◌, ◌≡◌, refl, ◌∙◌, Bytes, false, some, Option-cases, Bool-cases, inl, inr, length, ltb,
  ==_iff, ◌==◌, arith,
}
use malon.Base.Keys.{nat_eq, update}
use malon.Io.{Writer}
use malon.Chan.{Chan, Receiving, received, at_end, waits, receive, receive-left}
use malon.Envelope.{Envelope, encode, stream_type_data, stream_type_control}
use malon.Proxy.{
  Proxy, Conn, ControlMessage, new_proxy, reset, established, disconnected, dispatch, new_session,
  write_envelope,
}
use malon.Proxy.Validity.{
  IsValid, new_proxy-IsValid, remove_session-IsValid, dispatch_data-IsValid,
  dispatch_control-IsValid, new_session-IsValid, plain-IsValid, established-IsValid,
  disconnected-IsValid,
}
use malon.Session.{
  Pick, data_case, timer_case, read, read_channel, select_read, take_data, close, has_passed,
  is_set,
}
use malon.Session.Stream.{after_read}

pub data Step {W : Type 0} ⦃wr : Writer W⦄ : Proxy W → Proxy W → Type 0 where
  reconnecting : (p : Proxy W) → Step p (reset p)
  connecting : (w : W) (p : Proxy W) → p.connected ≡ false → Step p (established w p)
  disconnecting : (p : Proxy W) → Step p (disconnected p)
  dispatched : (env : Envelope) (p : Proxy W) → Step p (dispatch env p)
  opened : (peer : Bytes) (p : Proxy W) → Step p (new_session peer p).0
  ended : (c : Conn) (p : Proxy W) → Step p (close c p)
  was_read :
      (pick : Pick) (now size : ℕ) (c : Conn) (p : Proxy W)
      → Step p (after_read c p (read pick now size c p)).1
  was_sent : (env : Envelope) (p : Proxy W) → Step p (write_envelope env p).0
  conn_taken :
      (c : Conn) (ch : Chan Conn) (p : Proxy W)
      → receive p.accept_ch ≡ received c ch
      → Step p (record p { accept_ch = ch })
  control_taken :
      (c : ControlMessage) (ch : Chan ControlMessage) (p : Proxy W)
      → receive p.control_ch ≡ received c ch
      → Step p (record p { control_ch = ch })

pub data Reach {W : Type 0} ⦃wr : Writer W⦄ : Proxy W → Type 0 where
  begins :
      (self_id : Bytes) (control_ch : Chan ControlMessage) (accept_ch : Chan Conn)
      → control_ch.is_closed ≡ false
      → accept_ch.is_closed ≡ false
      → Reach (new_proxy self_id control_ch accept_ch)
  followed_by : {p q : Proxy W} → Reach p → Step p q → Reach q

module _ {W : Type 0} where
  taken-IsValid :
      (i : ℕ) (ch : Chan Bytes) (p : Proxy W)
      → ch.is_closed ≡ (p.chans i).is_closed
      → ch.capacity ≡ (p.chans i).capacity
      → length ch.buf ≤ length (p.chans i).buf
      → IsValid p
      → IsValid (record p { chans = update p.chans i ch })
  taken-IsValid i ch p shut size less v = record {
    made = v.made;
    is_open = λ sid s h. ground (arith, v.is_open sid s h, shut, ==_iff i s.ch);
    apart = v.apart;
    bounded = λ j. ground (arith, v.bounded j, v.bounded i, size, less);
    accept_open = v.accept_open;
    control_open = v.control_open;
    running = v.running;
  }

  read_channel-IsValid :
      (size : ℕ) (c : Conn) (p : Proxy W)
      → IsValid p
      → IsValid (after_read c p (read_channel size c p)).1
  unfolding read_channel take_data
  read_channel-IsValid size c p v = finish (receive (p.chans c.recv_ch)) refl
    where
      finish :
          (r : Receiving Bytes)
          → receive (p.chans c.recv_ch) ≡ r
          → IsValid (after_read c p (read_channel size c p)).1
      finish at_end e = rw (e, read_channel) v
      finish waits e = rw (e, read_channel) v
      finish (received b ch) e =
          let (shut, same, less) = receive-left (p.chans c.recv_ch) b ch e in
          rw (e, read_channel) (taken-IsValid c.recv_ch ch p shut same less v)

  select_read-IsValid :
      (pick : Pick) (size : ℕ) (c : Conn) (p : Proxy W)
      → IsValid p
      → IsValid (after_read c p (select_read pick size c p)).1
  select_read-IsValid data_case size c p v = read_channel-IsValid size c p v
  select_read-IsValid timer_case size c p v = elim (Bool-cases (is_set c.read_deadline)) [
    | inl e ↦ rw e v
    | inr e ↦ rw e v
  ]

  read-IsValid :
      (pick : Pick) (now size : ℕ) (c : Conn) (p : Proxy W)
      → IsValid p
      → IsValid (after_read c p (read pick now size c p)).1
  unfolding read take_data
  read-IsValid pick now size c p v = elim (Bool-cases (ltb 0 (length c.read_buf))) [
    | inl kept ↦ rw (kept, read) v
    | inr none_kept ↦ elim (Bool-cases (has_passed now c.read_deadline)) [
      | inl late ↦ rw (none_kept, late, read) v
      | inr early ↦ rw (none_kept, early, read) (select_read-IsValid pick size c p v)
    ]
  ]

  pub dispatch-IsValid : (env : Envelope) (p : Proxy W) → IsValid p → IsValid (dispatch env p)
  unfolding dispatch
  dispatch-IsValid env p v = elim (Bool-cases (env.stream_type == stream_type_data)) [
    | inl data_ ↦ rw (data_, dispatch) (dispatch_data-IsValid env p v)
    | inr other ↦ elim (Bool-cases (env.stream_type == stream_type_control)) [
      | inl control ↦ rw (other, control, dispatch) (dispatch_control-IsValid env p v)
      | inr neither ↦ rw (other, neither, dispatch) v
    ]
  ]

module _ {W : Type 0} ⦃wr : Writer W⦄ where
  write_envelope-IsValid :
      (env : Envelope) (p : Proxy W) → IsValid p → IsValid (write_envelope env p).0
  unfolding write_envelope
  write_envelope-IsValid env p v = elim (Option-cases p.writer) [
    | inl e ↦ rw (e, write_envelope) v
    | inr (w, e) ↦ rw (e, write_envelope) (plain-IsValid (some (encode w env).0) p.connected p v)
  ]

  Step-IsValid : {p q : Proxy W} → Step p q → IsValid p → IsValid q
  unfolding reset close
  Step-IsValid (reconnecting p) v = plain-IsValid p.writer false p v
  Step-IsValid (connecting w p idle) v = established-IsValid w p idle v
  Step-IsValid (disconnecting p) v = disconnected-IsValid p v
  Step-IsValid (dispatched env p) v = dispatch-IsValid env p v
  Step-IsValid (opened peer p) v = new_session-IsValid peer p v
  Step-IsValid (ended c p) v = remove_session-IsValid c.session_id p v
  Step-IsValid (was_read pick now size c p) v = read-IsValid pick now size c p v
  Step-IsValid (was_sent env p) v = write_envelope-IsValid env p v
  Step-IsValid (conn_taken c ch p e) v = record {
    made = v.made;
    is_open = v.is_open;
    apart = v.apart;
    bounded = v.bounded;
    accept_open = (receive-left p.accept_ch c ch e).0 ∙ v.accept_open;
    control_open = v.control_open;
    running = v.running;
  }
  Step-IsValid (control_taken c ch p e) v = record {
    made = v.made;
    is_open = v.is_open;
    apart = v.apart;
    bounded = v.bounded;
    accept_open = v.accept_open;
    control_open = (receive-left p.control_ch c ch e).0 ∙ v.control_open;
    running = v.running;
  }

  -- In every state that the operations of a proxy reach, in any order, if Connect is called only on a
  -- proxy that is new or was reset: nothing has panicked, each session of the map has an
  -- open channel of its own, no channel holds more than its capacity, and the channels to the
  -- manager are open.
  pub Reach-IsValid : {p : Proxy W} → Reach p → IsValid p
  Reach-IsValid (begins self_id control_ch accept_ch c a) =
      new_proxy-IsValid self_id control_ch accept_ch c a
  Reach-IsValid (followed_by r s) = Step-IsValid s (Reach-IsValid r)

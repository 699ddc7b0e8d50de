-- ===== src/Session/Stream.antt =====
-- internal/h2proxy/envelope_conn.go: a session as a stream of bytes, with arrivals and reads in any
-- order.
use malon.Base.{
  ℕ, fun_ext, deadline_exceeded, ◌≤◌, ◌≡◌, refl, sym, ap, ◌∙◌, [], ◌∷◌, ◌++◌, Bytes, List, eof,
  length, ltb, if◌then◌else◌, arith, append_assoc, Bool-cases, inl, inr, true, false, ◌⊎◌, ==_iff,
  take, drop, take-append-drop, length-take, concat, concat-append, append-nil,
}
use malon.Base.Keys.{update}
use malon.Chan.{
  Chan, receive, Receiving, Receives, receive-Receives, received, at_end, waits, try_send, offer,
  is_sent, buf-offer,
}
use malon.Proxy.{Proxy, Conn, safe_send}
use malon.Session.{
  Pick, data_case, timer_case, ReadResult, returned, failed, blocked, take_data, read_channel, read,
  pending, has_passed, is_set, select_read,
}

update_same : (f : ℕ → Chan Bytes) (i : ℕ) (x : Chan Bytes) → update f i x i ≡ x
update_same f i x = ground (arith, ==_iff i i)

nil_of_test : (b : Bytes) → ltb 0 (length b) ≡ false → b ≡ []
nil_of_test [] h = refl
nil_of_test (x ∷ b) h = ground arith

update_self : (f : ℕ → Chan Bytes) (i : ℕ) → f ≡ update f i (f i)
update_self f i = fun_ext λ j. ground (arith, ==_iff i j)

module _ {W : Type 0} where
  -- A read that returns has taken its bytes off the front of what was pending, and changed no
  -- channel but its own. It finds the end of the stream when nothing is pending on a closed channel,
  -- and waits for data only when nothing is pending.
  abbrev pub Reads : Pick → ℕ → Conn → Proxy W → ReadResult W → Type 0
  Reads pick size c p (returned c' p' b) =
      (pending c p ≡ b ++ pending c' p')
      × (length b ≤ size)
      × (c' ≡ record c { read_buf = c'.read_buf })
      × (p' ≡ record p { chans = update p.chans c.recv_ch (p'.chans c.recv_ch) })
  Reads pick size c p (failed eof) = (pending c p ≡ []) × ((p.chans c.recv_ch).is_closed ≡ true)
  Reads pick size c p (failed e) = e ≡ deadline_exceeded
  Reads pick size c p blocked = (pick ≡ timer_case) ⊎ (pending c p ≡ [])

  take_data-Reads :
      (pick : Pick) (size : ℕ) (bytes : Bytes) (c : Conn) (p q : Proxy W)
      → pending c p ≡ bytes ++ concat (q.chans c.recv_ch).buf
      → q ≡ record p { chans = update p.chans c.recv_ch (q.chans c.recv_ch) }
      → Reads pick size c p (take_data size bytes c q)
  unfolding take_data
  take_data-Reads pick size bytes c p q front frame = (
    front
        ∙ ap (λ (x : Bytes). x ++ concat (q.chans c.recv_ch).buf)
            (sym (take-append-drop size bytes))
        ∙ append_assoc (take size bytes) (drop size bytes) (concat (q.chans c.recv_ch).buf),
    omega (arith, length-take size bytes),
    refl,
    frame,
  )

  read_channel-Reads :
      (pick : Pick) (size : ℕ) (c : Conn) (p : Proxy W)
      → c.read_buf ≡ []
      → Reads pick size c p (read_channel size c p)
  unfolding read_channel
  read_channel-Reads pick size c p e =
      finish (receive (p.chans c.recv_ch)) refl (receive-Receives (p.chans c.recv_ch))
    where
      ch : Chan Bytes
      ch = p.chans c.recv_ch

      nothing : ch.buf ≡ [] → pending c p ≡ []
      nothing empty_ = ap (λ (x : Bytes). x ++ concat ch.buf) e ∙ ap concat empty_

      finish :
          (r : Receiving Bytes)
          → receive ch ≡ r
          → Receives ch r
          → Reads pick size c p (read_channel size c p)
      finish at_end q (empty_, shut) = rw (q, read_channel) (nothing empty_, shut)
      finish waits q (empty_, open_) = rw (q, read_channel) (inr (nothing empty_))
      finish (received bytes ch') q (front, same) =
          rw (q, read_channel)
            (take_data-Reads pick size bytes c p (record p { chans = update p.chans c.recv_ch ch' })
              (ap (λ (x : Bytes). x ++ concat ch.buf) e
                ∙ ap concat front
                ∙ ap (λ (d : Chan Bytes). bytes ++ concat d.buf)
                    (sym (update_same p.chans c.recv_ch ch')))
              (ap (λ (d : Chan Bytes). record p { chans = update p.chans c.recv_ch d })
                (sym (update_same p.chans c.recv_ch ch'))))

  select_read-Reads :
      (pick : Pick) (size : ℕ) (c : Conn) (p : Proxy W)
      → c.read_buf ≡ []
      → Reads pick size c p (select_read pick size c p)
  select_read-Reads data_case size c p e = read_channel-Reads data_case size c p e
  select_read-Reads timer_case size c p e = elim (Bool-cases (is_set c.read_deadline)) [
    | inl set ↦ rw (set) refl
    | inr unset ↦ rw (unset) (inl refl)
  ]

  -- Every read, whatever case of its `select` is taken.
  pub read-Reads :
      (pick : Pick) (now size : ℕ) (c : Conn) (p : Proxy W)
      → Reads pick size c p (read pick now size c p)
  unfolding read
  read-Reads pick now size c p = elim (Bool-cases (ltb 0 (length c.read_buf))) [
    | inl kept ↦
        rw (kept, read)
          (take_data-Reads pick size c.read_buf c p p refl
            (ap (λ (f : ℕ → Chan Bytes). record p { chans = f }) (update_self p.chans c.recv_ch)))
    | inr none_kept ↦ elim (Bool-cases (has_passed now c.read_deadline)) [
      | inl late ↦ rw (none_kept, late, read) refl
      | inr early ↦
          rw (none_kept, early, read)
            (select_read-Reads pick size c p (nil_of_test c.read_buf none_kept))
    ]
  ]

-- What happens to a session: a payload arrives for it, or its connection is read.
pub data Event : Type 0 where
  arrives : Bytes → Event
  reads : Pick → ℕ → ℕ → Event

module _ {W : Type 0} where
  -- The connection and the proxy after a read that returned; a read that fails changes nothing.
  abbrev pub after_read : Conn → Proxy W → ReadResult W → Conn × Proxy W × Bytes
  after_read c p (returned c' p' b) = (c', p', b)
  after_read c p (failed e) = (c, p, [])
  after_read c p blocked = (c, p, [])

  -- The bytes that the reads return, and the connection and the proxy at the end.
  pub replay : List Event → Conn → Proxy W → Conn × Proxy W × Bytes
  replay [] c p = (c, p, [])
  replay (arrives b ∷ es) c p = replay es c (safe_send c.recv_ch b p)
  replay (reads pick now size ∷ es) c p =
      let (c', p', b) = after_read c p (read pick now size c p) in
      let (c'', p'', rest) = replay es c' p' in (c'', p'', b ++ rest)

  -- The payloads that found room in the channel, one after the other.
  pub accepted : List Event → Conn → Proxy W → Bytes
  accepted [] c p = []
  accepted (arrives b ∷ es) c p =
      let rest = accepted es c (safe_send c.recv_ch b p) in
      if is_sent (try_send b (p.chans c.recv_ch)) then b ++ rest else rest
  accepted (reads pick now size ∷ es) c p =
      let (c', p', b) = after_read c p (read pick now size c p) in accepted es c' p'

  pending-safe_send :
      (b : Bytes) (c : Conn) (p : Proxy W)
      → pending c (safe_send c.recv_ch b p)
        ≡ (if is_sent (try_send b (p.chans c.recv_ch)) then pending c p ++ b else pending c p)
  unfolding safe_send
  pending-safe_send b c p =
      ap (λ (d : Chan Bytes). c.read_buf ++ concat d.buf)
        (update_same p.chans c.recv_ch (offer b (p.chans c.recv_ch)))
      ∙ ap (λ (x : List Bytes). c.read_buf ++ concat x) (buf-offer b (p.chans c.recv_ch))
      ∙ elim (Bool-cases (is_sent (try_send b (p.chans c.recv_ch)))) [
        | inl room ↦ rw (room, concat-append, append-nil) (sym (append_assoc c.read_buf _ b))
        | inr no_room ↦ rw no_room refl
      ]

  after_read-pending :
      (pick : Pick) (size : ℕ) (c : Conn) (p : Proxy W) (r : ReadResult W)
      → Reads pick size c p r
      → let (c', p', b) = after_read c p r in pending c p ≡ b ++ pending c' p'
  after_read-pending pick size c p (returned c' p' b) h = h.0
  after_read-pending pick size c p (failed e) h = refl
  after_read-pending pick size c p blocked h = refl

  -- However arrivals and reads are interleaved and whatever the sizes of the buffers, what was
  -- pending and what was then accepted is what the reads have returned and what is still pending:
  -- bytes are neither reordered nor repeated, and only a whole payload that found the channel full
  -- or closed is missing.
  pub replay-accepted :
      (es : List Event) (c : Conn) (p : Proxy W)
      → let (c', p', got) = replay es c p in pending c p ++ accepted es c p ≡ got ++ pending c' p'
  unfolding replay accepted
  replay-accepted [] c p = append-nil (pending c p)
  replay-accepted (arrives b ∷ es) c p =
      let rest = accepted es c (safe_send c.recv_ch b p) in
      elim (Bool-cases (is_sent (try_send b (p.chans c.recv_ch)))) [
        | inl room ↦ rw room (
            sym (append_assoc (pending c p) b rest)
            ∙ ap (λ (x : Bytes). x ++ rest) (sym (rw room at (pending-safe_send b c p)))
            ∙ replay-accepted es c (safe_send c.recv_ch b p))
        | inr no_room ↦ rw no_room (
            ap (λ (x : Bytes). x ++ rest) (sym (rw no_room at (pending-safe_send b c p)))
            ∙ replay-accepted es c (safe_send c.recv_ch b p))
      ]
  replay-accepted (reads pick now size ∷ es) c p =
      let (c', p', b) = after_read c p (read pick now size c p) in
      let (c'', p'', got) = replay es c' p' in
      ap (λ (x : Bytes). x ++ accepted es c' p')
        (after_read-pending pick size c p (read pick now size c p) (read-Reads pick now size c p))
      ∙ append_assoc b (pending c' p') (accepted es c' p')
      ∙ ap (◌++◌ b) (replay-accepted es c' p')
      ∙ sym (append_assoc b got (pending c'' p''))

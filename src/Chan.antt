-- ===== src/Chan.antt =====
-- Go's buffered channels, as far as the program uses them: a send that does not wait, a receive,
-- and `close`.
use malon.Base.{
  ℕ, ◌⊎◌, ◌<◌, zero, suc, ◌≤◌, ◌≡◌, refl, sym, ap, ◌∙◌, Bool, true, false, List, [], ◌∷◌, ◌++◌,
  length, take, ltb, if◌then◌else◌, arith, length-append, append_assoc, append-nil, take_all,
  ltb→lt, Bool-cases, inl, inr,
}

-- The oldest element first.
pub record Chan {ℓ} (A : Type ℓ) : Type ℓ where
  pub buf : List A
  pub capacity : ℕ
  pub is_closed : Bool

-- `make(chan A, capacity)`
abbrev pub make_chan {ℓ} : {A : Type ℓ} → ℕ → Chan A
make_chan n = record { buf = []; capacity = n; is_closed = false }

-- `close(ch)`, which is only ever called under a `sync.Once`.
abbrev pub close_chan {ℓ} : {A : Type ℓ} → Chan A → Chan A
close_chan c = record c { is_closed = true }

pub data Sending {ℓ} (A : Type ℓ) : Type ℓ where
  sent : Chan A → Sending A
  full on_closed : Sending A

-- `select { case ch <- a: default: }`. A receiver that waits takes the element out of the buffer at
-- once; a send on a closed channel panics.
unfoldable pub try_send {ℓ} : {A : Type ℓ} → A → Chan A → Sending A
try_send a c =
    if c.is_closed
    then on_closed
    else if ltb (length c.buf) c.capacity
    then sent (record c { buf = c.buf ++ a ∷ [] })
    else full

pub data Receiving {ℓ} (A : Type ℓ) : Type ℓ where
  received : A → Chan A → Receiving A
  at_end : Receiving A
  waits : Receiving A

-- `a, ok := <-ch`: a closed channel still yields what is in its buffer. `waits` is an open channel
-- with nothing in it.
abbrev pub receive_from {ℓ} : {A : Type ℓ} → List A → Chan A → Receiving A
receive_from [] c = if c.is_closed then at_end else waits
receive_from (a ∷ rest) c = received a (record c { buf = rest })

unfoldable pub receive {ℓ} : {A : Type ℓ} → Chan A → Receiving A
receive c = receive_from c.buf c

abbrev pub is_sent {ℓ} : {A : Type ℓ} → Sending A → Bool
is_sent (sent c) = true
is_sent full = false
is_sent on_closed = false

module _ {A : Type 0} where
  -- A send that does not wait, on an open channel: it is sent while there is room.
  pub try_send-cases :
      (a : A) (c : Chan A)
      → c.is_closed ≡ false
      → ((length c.buf < c.capacity) × (try_send a c ≡ sent (record c { buf = c.buf ++ a ∷ [] })))
        ⊎ ((c.capacity ≤ length c.buf) × (try_send a c ≡ full))
  unfolding try_send
  try_send-cases a c h = elim (Bool-cases (ltb (length c.buf) c.capacity)) [
    | inl room ↦ inl (ground arith, ground arith)
    | inr none_left ↦ inr (ground arith, ground arith)
  ]

  abbrev pub Receives : Chan A → Receiving A → Type 0
  Receives c (received a c') = (c.buf ≡ a ∷ c'.buf) × (c' ≡ record c { buf = c'.buf })
  Receives c at_end = (c.buf ≡ []) × (c.is_closed ≡ true)
  Receives c waits = (c.buf ≡ []) × (c.is_closed ≡ false)

  receive_from-Receives :
      (buf : List A) (c : Chan A) → c.buf ≡ buf → Receives c (receive_from buf c)
  receive_from-Receives [] c e = elim (Bool-cases c.is_closed) [
    | inl shut ↦ rw shut (e, refl)
    | inr open_ ↦ rw open_ (e, refl)
  ]
  receive_from-Receives (a ∷ rest) c e = (e, refl)

  -- A receive takes the oldest element, also of a closed channel; a closed channel with nothing in
  -- it is at its end.
  pub receive-Receives : (c : Chan A) → Receives c (receive c)
  unfolding receive
  receive-Receives c = receive_from-Receives c.buf c refl

  -- Sends that do not wait, one after the other: what does not fit is dropped.
  unfoldable pub offer : A → Chan A → Chan A
  unfolding try_send
  offer a c = elim (try_send a c) [ sent c' ↦ c' | full ↦ c | on_closed ↦ c ]

  unfoldable pub offer_all : List A → Chan A → Chan A
  offer_all [] c = c
  offer_all (a ∷ as') c = offer_all as' (offer a c)

  offer_room :
      (a : A) (c : Chan A)
      → c.is_closed ≡ false
      → ltb (length c.buf) c.capacity ≡ true
      → offer a c ≡ record c { buf = c.buf ++ a ∷ [] }
  unfolding offer
  offer_room a c open_ room = ground arith

  offer_full :
      (a : A) (c : Chan A)
      → c.is_closed ≡ false
      → ltb (length c.buf) c.capacity ≡ false
      → offer a c ≡ c
  unfolding offer
  offer_full a c open_ none_left = ground arith

  pub buf-offer :
      (a : A) (c : Chan A)
      → (offer a c).buf ≡ (if is_sent (try_send a c) then c.buf ++ a ∷ [] else c.buf)
  unfolding offer try_send
  buf-offer a c = ground arith

  -- What is offered to an open channel is put behind the others while there is room.
  pub offer_open :
      (a : A) (c : Chan A)
      → c.is_closed ≡ false
      → offer a c
        ≡ (if ltb (length c.buf) c.capacity then record c { buf = c.buf ++ a ∷ [] } else c)
  unfolding offer try_send
  offer_open a c h = ground arith

  take_full : (xs : List A) (n : ℕ) (ys : List A) → n ≤ length xs → take n (xs ++ ys) ≡ take n xs
  take_full xs zero ys h = refl
  take_full [] (suc n) ys h = absurd (omega arith)
  take_full (x ∷ xs) (suc n) ys h = ap (◌∷◌ x) (take_full xs n ys (omega arith))

  room_left :
      (a : A) (c : Chan A)
      → ltb (length c.buf) c.capacity ≡ true
      → length (c.buf ++ a ∷ []) ≤ c.capacity
  room_left a c room =
      omega (arith, ltb→lt (length c.buf) c.capacity room, length-append c.buf (a ∷ []))

  -- Of what is offered to an open channel, the first elements stay, in order, up to the capacity.
  pub buf-offer_all :
      (as' : List A) (c : Chan A)
      → c.is_closed ≡ false
      → length c.buf ≤ c.capacity
      → (offer_all as' c).buf ≡ take c.capacity (c.buf ++ as')
  unfolding offer_all offer
  buf-offer_all [] c open_ fits = sym (rw (append-nil c.buf) (take_all c.capacity c.buf fits))
  buf-offer_all (a ∷ as') c open_ fits = elim (Bool-cases (ltb (length c.buf) c.capacity)) [
    | inl room ↦
        let c' : Chan A = record c { buf = c.buf ++ a ∷ [] } in
        ap (λ (d : Chan A). (offer_all as' d).buf) (offer_room a c open_ room)
        ∙ buf-offer_all as' c' open_ (room_left a c room)
        ∙ ap (take c.capacity) (append_assoc c.buf (a ∷ []) as')
    | inr none_left ↦
        let bound : c.capacity ≤ length c.buf = ground arith in
        ap (λ (d : Chan A). (offer_all as' d).buf) (offer_full a c open_ none_left)
        ∙ buf-offer_all as' c open_ fits
        ∙ take_full c.buf c.capacity as' bound
        ∙ sym (take_full c.buf c.capacity (a ∷ as') bound)
  ]

-- What a receive leaves of the channel.
pub receive-left :
    {A : Type 0} (c : Chan A) (a : A) (ch : Chan A)
    → receive c ≡ received a ch
    → (ch.is_closed ≡ c.is_closed) × (ch.capacity ≡ c.capacity) × (length ch.buf ≤ length c.buf)
receive-left {A} c a ch e = finish (rw e at (receive-Receives c))
  where
    finish :
        Receives c (received a ch)
        → (ch.is_closed ≡ c.is_closed) × (ch.capacity ≡ c.capacity) × (length ch.buf ≤ length c.buf)
    finish (front, same) = (
      ap (λ (d : Chan A). d.is_closed) same,
      ap (λ (d : Chan A). d.capacity) same,
      ground (arith, ap length front),
    )

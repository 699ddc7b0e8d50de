-- ===== src/Relay/Tunnels.antt =====
-- internal/relay/relay.go: which requests get a tunnel (handleHTTP, handleConnect).
use malon.Base.{
  ◌≡◌, ◌↔◌, refl, sym, ap, ◌∙◌, Bool, true, false, Option, none, some, String, Bytes, Result, ok,
  err, length, ◌==◌, ==_iff, Bool-cases, inl, inr, Result-cases, arith,
}
use malon.Relay.{Request, tunnel, admit, admit_peer, admit_header}
use malon.Identity.{peer_id_from_base64, peer_id_size}

-- The header is there and decodes to an identity.
abbrev pub Names : (String → Result Bytes) → Option String → Bytes → Type 0
Names decode_string none id = false ≡ true
Names decode_string (some s) id = (decode_string s ≡ ok id) × (length id ≡ peer_id_size)

peer_id_iff :
    (decode_string : String → Result Bytes) (s : String) (id : Bytes)
    → (peer_id_from_base64 decode_string s ≡ ok id) ↔ Names decode_string (some s) id
unfolding peer_id_from_base64
peer_id_iff decode_string s id = elim (Result-cases (decode_string s)) [
  | inr (e, q) ↦ rw q (λ h. absurd (cc h), λ h. absurd (cc (h.0)))
  | inl (b, q) ↦ elim (Bool-cases (length b == peer_id_size)) [
    | inl fits ↦
        rw (q, fits)
          (
            (λ h. (h, ap length (sym (ok_inj b id h)) ∙ (==_iff (length b) peer_id_size).0 fits)),
            (λ h. h.0),
          )
    | inr other ↦
        rw (q, other)
          (
            (λ h. absurd (cc h)),
            (λ h. absurd (
                ground (
                  arith,
                  other,
                  ==_iff (length b) peer_id_size,
                  ap length (ok_inj b id (h.0)),
                  h.1,
                ))),
          )
  ]
]
  where
    ok_inj : (x y : Bytes) → ok x ≡ ok y → x ≡ y
    ok_inj x y h = cc h

admit_peer_iff :
    (flusher : Bool) (r : Result Bytes) (id : Bytes)
    → (admit_peer flusher r ≡ tunnel id) ↔ ((flusher ≡ true) × (r ≡ ok id))
admit_peer_iff flusher (err e) id = (λ h. absurd (cc h), λ h. absurd (cc (h.1)))
admit_peer_iff true (ok x) id = (λ h. (refl, cc h), λ h. cc (h.1))
admit_peer_iff false (ok x) id = (λ h. absurd (cc h), λ h. absurd (cc (h.0)))

-- A request gets a tunnel for a peer exactly if its method is CONNECT, the response can be flushed,
-- and its header decodes to that peer's identity of 32 bytes; whatever the decoding of base64 does.
pub admit_iff :
    (decode_string : String → Result Bytes) (req : Request) (id : Bytes)
    → (admit decode_string req ≡ tunnel id) ↔ (
        (req.is_connect ≡ true)
        × (req.has_flusher ≡ true)
        × Names decode_string req.peer_id_header id)
unfolding admit
admit_iff decode_string req id = elim (Bool-cases req.is_connect) [
  | inr other ↦ rw other (λ h. absurd (cc h), λ h. absurd (cc (h.0)))
  | inl is ↦ rw is (named req.peer_id_header)
]
  where
    named :
        (o : Option String)
        → (admit_header decode_string req.has_flusher o ≡ tunnel id)
          ↔ ((true ≡ true) × (req.has_flusher ≡ true) × Names decode_string o id)
    named none = (λ h. absurd (cc h), λ h. absurd (cc (h.2)))
    named (some s) =
        let outer = admit_peer_iff req.has_flusher (peer_id_from_base64 decode_string s) id in
        let inner = peer_id_iff decode_string s id in
        (
          (λ h. let (f, r) = outer.0 h in (refl, f, inner.0 r)),
          (λ (_, f, n). outer.1 (f, inner.1 n)),
        )

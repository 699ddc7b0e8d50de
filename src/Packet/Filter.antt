-- ===== src/Packet/Filter.antt =====
-- What the filter lets through, described by the bytes of a packet.
use malon.Base.{
  ℕ, ◌-◌, ◌/◌, ◌^◌, ◌≤◌, ◌≡◌, ◌↔◌, ◌⊎◌, inl, inr, refl, ap, Bool, true, false, ◌&&◌, [], ◌∷◌, ◌++◌,
  List, Bytes, if◌then◌else◌, length, ltb, leb, ◌==◌, Bool-cases, ==_iff, leb→le, le→leb, lt→ltb,
  ltb→lt, arith,
}
use malon.Io.{slice, byte_at, uint32}
use malon.Packet.{
  Addr, no_addr, v4, v6, Prefix, agree, contains, extract_src_ip, allowed_ips_contains,
  forward_conn_to_tun,
}

-- The addresses of a prefix: its network's first bits.
abbrev pub Within : ℕ → ℕ → Bytes → Bytes → Type 0
Within w n a b = (n ≤ w) × (uint32 a / 2 ^ (w - n) ≡ uint32 b / 2 ^ (w - n))

abbrev pub IsFrom : ℕ → Addr → Bytes → Type 0
IsFrom n no_addr pkt = false ≡ true
IsFrom n (v4 a) pkt = (20 ≤ length pkt) × (byte_at pkt 0 / 16 ≡ 4) × Within 32 n a (slice 12 16 pkt)
IsFrom n (v6 a) pkt = (40 ≤ length pkt) × (byte_at pkt 0 / 16 ≡ 6) × Within 128 n a (slice 8 24 pkt)

-- Is the packet from one of the networks?
abbrev pub IsAllowed : List Prefix → Bytes → Type 0
IsAllowed [] pkt = false ≡ true
IsAllowed (p ∷ ps) pkt = IsFrom p.bits p.addr pkt ⊎ IsAllowed ps pkt

pub agree_iff : (w n : ℕ) (a b : Bytes) → (agree w n a b ≡ true) ↔ Within w n a b
agree_iff w n a b = both (uint32 a / 2 ^ (w - n)) (uint32 b / 2 ^ (w - n))
  where
    both : (x y : ℕ) → ((leb n w && (x == y)) ≡ true) ↔ ((n ≤ w) × (x ≡ y))
    both x y = (
      λ h. ground (arith, h, leb→le n w, ==_iff x y),
      λ h. ground (arith, le→leb n w h.0, (==_iff x y).1 h.1),
    )

not_v6 :
    (n : ℕ) (a src : Bytes) (b c : Bool)
    → contains n (v4 a) (if b then if c then no_addr else v6 src else no_addr) ≡ true
    → false ≡ true
not_v6 n a src false c h = h
not_v6 n a src true false h = h
not_v6 n a src true true h = h

contains_iff :
    (n : ℕ) (a : Addr) (pkt : Bytes) → (contains n a (extract_src_ip pkt) ≡ true) ↔ IsFrom n a pkt
unfolding extract_src_ip
contains_iff n no_addr pkt = (λ h. h, λ h. h)
contains_iff n (v4 a) pkt = elim (Bool-cases (ltb (length pkt) 20)) [
  | inl short ↦
      rw short (λ h. absurd (cc h), λ h. ground (arith, short, ltb→lt (length pkt) 20, h.0))
  | inr long ↦ elim (Bool-cases (byte_at pkt 0 / 2 ^ 4 == 4)) [
    | inl four ↦
        rw (long, four)
          (
            λ h. (
              ground (arith, long, lt→ltb (length pkt) 20),
              (==_iff (byte_at pkt 0 / 16) 4).0 four,
              (agree_iff 32 n a (slice 12 16 pkt)).0 h,
            ),
            λ h. (agree_iff 32 n a (slice 12 16 pkt)).1 h.2,
          )
    | inr other ↦
        rw (long, other)
          (
            λ h. absurd (
                cc (
                  not_v6 n a (slice 8 24 pkt) (byte_at pkt 0 / 2 ^ 4 == 6) (ltb (length pkt) 40)
                    h)),
            λ h. ground (arith, other, ==_iff (byte_at pkt 0 / 16) 4, h.1),
          )
  ]
]
contains_iff n (v6 a) pkt = elim (Bool-cases (ltb (length pkt) 20)) [
  | inl short ↦
      rw short (λ h. absurd (cc h), λ h. ground (arith, short, ltb→lt (length pkt) 20, h.0))
  | inr long ↦ elim (Bool-cases (byte_at pkt 0 / 2 ^ 4 == 4)) [
    | inl four ↦
        rw (long, four)
          (λ h. absurd (cc h), λ h. ground (arith, four, ==_iff (byte_at pkt 0 / 16) 4, h.1))
    | inr other ↦ elim (Bool-cases (byte_at pkt 0 / 2 ^ 4 == 6)) [
      | inr neither ↦
          rw (long, other, neither)
            (λ h. absurd (cc h), λ h. ground (arith, neither, ==_iff (byte_at pkt 0 / 16) 6, h.1))
      | inl six ↦ elim (Bool-cases (ltb (length pkt) 40)) [
        | inl cut ↦
            rw (long, other, six, cut)
              (λ h. absurd (cc h), λ h. ground (arith, cut, ltb→lt (length pkt) 40, h.0))
        | inr whole ↦
            rw (long, other, six, whole)
              (
                λ h. (
                  ground (arith, whole, lt→ltb (length pkt) 40),
                  (==_iff (byte_at pkt 0 / 16) 6).0 six,
                  (agree_iff 128 n a (slice 8 24 pkt)).0 h,
                ),
                λ h. (agree_iff 128 n a (slice 8 24 pkt)).1 h.2,
              )
      ]
    ]
  ]
]

pub allowed_ips_contains_iff :
    (ps : List Prefix) (pkt : Bytes)
    → (allowed_ips_contains ps (extract_src_ip pkt) ≡ true) ↔ IsAllowed ps pkt
unfolding allowed_ips_contains
allowed_ips_contains_iff [] pkt = (λ h. h, λ h. h)
allowed_ips_contains_iff (p ∷ ps) pkt =
    elim (Bool-cases (contains p.bits p.addr (extract_src_ip pkt))) [
      | inl found ↦ rw found (λ h. inl ((contains_iff p.bits p.addr pkt).0 found), λ h. refl)
      | inr missing ↦ rw missing (
        λ h. inr ((allowed_ips_contains_iff ps pkt).0 h),
        λ h. elim h [
          | inl from ↦ absurd (cc (missing, (contains_iff p.bits p.addr pkt).1 from))
          | inr other ↦ (allowed_ips_contains_iff ps pkt).1 other
        ],
      )
    ]

IsFrom-length : (n : ℕ) (a : Addr) (pkt : Bytes) → IsFrom n a pkt → 20 ≤ length pkt
IsFrom-length n no_addr pkt h = absurd (cc h)
IsFrom-length n (v4 a) pkt h = h.0
IsFrom-length n (v6 a) pkt h = omega (arith, h.0)

pub IsAllowed-length : (ps : List Prefix) (pkt : Bytes) → IsAllowed ps pkt → 20 ≤ length pkt
IsAllowed-length [] pkt h = absurd (cc h)
IsAllowed-length (p ∷ ps) pkt (inl h) = IsFrom-length p.bits p.addr pkt h
IsAllowed-length (p ∷ ps) pkt (inr h) = IsAllowed-length ps pkt h

-- A packet that a peer sends reaches the TUN device exactly if it is from one of the peer's allowed
-- networks: it is long enough for the header of its IP version, 4 or 6, and its source address
-- has the first bits of a network of that version. Everything else, a keepalive included, is
-- dropped.
pub forward_conn_to_tun_iff :
    (allowed : List Prefix) (pkt : Bytes)
    → (forward_conn_to_tun allowed (pkt ∷ []) ≡ pkt ∷ []) ↔ IsAllowed allowed pkt
unfolding forward_conn_to_tun
forward_conn_to_tun_iff allowed pkt = elim (Bool-cases (length pkt == 0)) [
  | inl empty ↦ rw empty (
    λ h. absurd (cc h),
    λ h. absurd (ground (arith, empty, ==_iff (length pkt) 0, IsAllowed-length allowed pkt h)),
  )
  | inr full ↦ elim (Bool-cases (allowed_ips_contains allowed (extract_src_ip pkt))) [
    | inl found ↦ rw (full, found) (λ h. (allowed_ips_contains_iff allowed pkt).0 found, λ h. refl)
    | inr missing ↦
        rw (full, missing)
          (
            λ h. absurd (cc h),
            λ h. absurd (cc (missing, (allowed_ips_contains_iff allowed pkt).1 h)),
          )
  ]
]

-- Packets are dropped one by one, and those that are not keep their order.
pub forward_conn_to_tun-append :
    (allowed : List Prefix) (xs ys : List Bytes)
    → forward_conn_to_tun allowed (xs ++ ys)
      ≡ forward_conn_to_tun allowed xs ++ forward_conn_to_tun allowed ys
unfolding forward_conn_to_tun
forward_conn_to_tun-append allowed [] ys = refl
forward_conn_to_tun-append allowed (x ∷ xs) ys = elim (Bool-cases (length x == 0)) [
  | inl empty ↦ rw empty (forward_conn_to_tun-append allowed xs ys)
  | inr some_bytes ↦ elim (Bool-cases (allowed_ips_contains allowed (extract_src_ip x))) [
    | inl found ↦
        rw (some_bytes, found) (ap (λ zs. x ∷ zs) (forward_conn_to_tun-append allowed xs ys))
    | inr missing ↦ rw (some_bytes, missing) (forward_conn_to_tun-append allowed xs ys)
  ]
]

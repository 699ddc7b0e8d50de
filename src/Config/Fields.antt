-- ===== src/Config/Fields.antt =====
-- config/config.go: what parseInterfaceField and parsePeerField keep.
use malon.Base.{
  if_both, ℕ, suc, ◌≡◌, ◌⊎◌, inl, inr, refl, ap, ◌∙◌, some, List, [], ◌∷◌, ◌++◌, Error, Result, ok,
  err, All, length, Bool-cases, Result-cases,
}
use malon.Base.Keys.{bytes_beq, bytes_beq_iff}
use malon.Packet.{Prefix}
use malon.Words.{Text, codes, trim_space, split_commas}
use malon.Config.{
  InterfaceConfig, PeerConfig, role_client, role_proxy, with_role, with_address,
  parse_interface_field, add_allowed, parse_peer_field, parse_last, cons_peer, alone,
}

-- The role is not set, or is one of the two.
abbrev pub IsRole : Text → Type 0
IsRole r = (r ≡ []) ⊎ ((r ≡ role_client) ⊎ (r ≡ role_proxy))

-- The property of a result that there is.
pub data OnOk {A : Type 0} (Q : A → Type 0) : Result A → Type 0 where
  holds : {a : A} → Q a → OnOk Q (ok a)
  fails : {e : Error} → OnOk Q (err e)

some_inj : {A : Type 0} {a b : A} → some a ≡ some b → a ≡ b
some_inj h = cc h

module _ (parse_prefix : Text → Result Prefix) (to_lower : Text → Text) where
  abbrev pub IsParsed : Prefix → Type 0
  IsParsed p = (s : Text) × (parse_prefix s ≡ ok p)

  abbrev pub IsInterface : InterfaceConfig → Type 0
  IsInterface i = IsRole i.role × ((p : Prefix) → i.address ≡ some p → IsParsed p)

  abbrev pub IsPeer : PeerConfig → Type 0
  IsPeer p = All IsParsed p.allowed_ips

  All-snoc :
      {q : Prefix} (ps : List Prefix) → All IsParsed ps → IsParsed q → All IsParsed (ps ++ q ∷ [])
  All-snoc [] h k = (k, tt)
  All-snoc (p ∷ ps) (h, hs) k = (h, All-snoc ps hs k)

  with_role-OnOk :
      (lower : Text) (i : InterfaceConfig) → IsInterface i → OnOk IsInterface (with_role lower i)
  with_role-OnOk lower i (r, a) = elim (Bool-cases (bytes_beq lower role_client)) [
    | inl client ↦ rw client (holds (inr (inl ((bytes_beq_iff lower role_client).0 client)), a))
    | inr other ↦ elim (Bool-cases (bytes_beq lower role_proxy)) [
      | inl proxy ↦
          rw (other, proxy) (holds (inr (inr ((bytes_beq_iff lower role_proxy).0 proxy)), a))
      | inr neither ↦ rw (other, neither) fails
    ]
  ]

  with_address-OnOk :
      (val : Text) (i : InterfaceConfig)
      → IsInterface i
      → OnOk IsInterface (with_address i (parse_prefix val))
  with_address-OnOk val i (r, a) = by_prefix (parse_prefix val) refl
    where
      by_prefix : (x : Result Prefix) → parse_prefix val ≡ x → OnOk IsInterface (with_address i x)
      by_prefix (err e) h = fails
      by_prefix (ok p) h = holds (r, λ q same. (val, h ∙ ap ok (some_inj same)))

  pub parse_interface_field-OnOk :
      (key val : Text) (i : InterfaceConfig)
      → IsInterface i
      → OnOk IsInterface (parse_interface_field parse_prefix to_lower key val i)
  unfolding parse_interface_field
  parse_interface_field-OnOk key val i h =
      if_both (OnOk IsInterface) (bytes_beq key (codes "PrivateKey")) (holds h) (
        if_both (OnOk IsInterface) (bytes_beq key (codes "Address")) (with_address-OnOk val i h) (
          if_both (OnOk IsInterface) (bytes_beq key (codes "Role"))
            (with_role-OnOk (to_lower val) i h)
            (if_both (OnOk IsInterface) (bytes_beq key (codes "ListenPort")) (holds h) (
              if_both (OnOk IsInterface) (bytes_beq key (codes "Relay")) (holds h) (
                if_both (OnOk IsInterface) (bytes_beq key (codes "InsecureSkipVerify")) (holds h) (
                  if_both (OnOk IsInterface) (bytes_beq key (codes "STUNServer")) (holds h)
                    fails))))))

  add_allowed-OnOk :
      (ss : List Text) (p : PeerConfig)
      → IsPeer p
      → OnOk IsPeer (add_allowed parse_prefix to_lower ss p)
  unfolding add_allowed
  add_allowed-OnOk [] p h = holds h
  add_allowed-OnOk (s ∷ ss) p h = elim (Result-cases (parse_prefix (trim_space s))) [
    | inr (e, f) ↦ rw (f, add_allowed) fails
    | inl (q, f) ↦
        rw (f, add_allowed)
          (add_allowed-OnOk ss (record p { allowed_ips = p.allowed_ips ++ q ∷ [] })
            (All-snoc p.allowed_ips h (trim_space s, f)))
  ]

  parse_peer_field-OnOk :
      (key val : Text) (p : PeerConfig)
      → IsPeer p
      → OnOk IsPeer (parse_peer_field parse_prefix to_lower key val p)
  unfolding parse_peer_field
  parse_peer_field-OnOk key val p h =
      if_both (OnOk IsPeer) (bytes_beq key (codes "PublicKey")) (holds h) (
        if_both (OnOk IsPeer) (bytes_beq key (codes "Relay")) (holds h) (
          if_both (OnOk IsPeer) (bytes_beq key (codes "AllowedIPs"))
            (add_allowed-OnOk (split_commas val) p h) fails))

  -- The same peers, but for their fields.
  abbrev pub ArePeers : ℕ → List PeerConfig → Type 0
  ArePeers n ps = (length ps ≡ n) × All IsPeer ps

  last_one :
      (r : Result PeerConfig) → OnOk IsPeer r → OnOk (ArePeers 1) (alone parse_prefix to_lower r)
  last_one (ok p) (holds h) = holds (refl, (h, tt))
  last_one (err e) fails = fails

  behind :
      (p : PeerConfig)
      → IsPeer p
      → (n : ℕ) (r : Result (List PeerConfig)) → OnOk (ArePeers n) r
      → OnOk (ArePeers (suc n)) (cons_peer parse_prefix to_lower p r)
  behind p h n (ok ps) (holds (l, hs)) = holds (ap suc l, (h, hs))
  behind p h n (err e) fails = fails

  pub parse_last-OnOk :
      (key val : Text) (ps : List PeerConfig)
      → All IsPeer ps
      → OnOk (ArePeers (length ps)) (parse_last parse_prefix to_lower key val ps)
  unfolding parse_last
  parse_last-OnOk key val [] h = fails
  parse_last-OnOk key val (p ∷ []) (h, _) = last_one _ (parse_peer_field-OnOk key val p h)
  parse_last-OnOk key val (p ∷ q ∷ ps) (h, hs) =
      behind p h (length (q ∷ ps)) _ (parse_last-OnOk key val (q ∷ ps) hs)

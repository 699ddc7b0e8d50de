-- ===== src/Config/Printed.antt =====
-- config/config.go: the file of a configuration, and what the functions for fields make of its fields.
use malon.Base.{
  ℕ, ◌≤◌, ◌≡◌, refl, ap, ◌∙◌, Bool, true, false, Option, none, some, List, [], ◌∷◌, ◌++◌, All, map,
  Result, ok, ◌==◌, arith, inl, inr, ◌>>=◌,
}
use malon.Base.Keys.{bytes_beq}
use malon.Packet.{Prefix, Addr, no_addr, v4, v6}
use malon.Control.{IsAddr}
use malon.Words.{
  Text, codes, is_space, trim_left, trim_right, split_commas, cons_word, has_comment, put_back,
}
use malon.Config.{
  InterfaceConfig, PeerConfig, empty_interface, parse_interface_field, parse_peer_field,
}
use malon.Config.Fields.{IsRole}
use malon.Config.Lines.{IsKey, IsPlain}

-- A key and its value.
abbrev pub Field : Type 0
Field = Text × Text

abbrev pub IsField : Field → Type 0
IsField (k, v) = IsKey k × IsPlain v

-- The text of a prefix has neither white space nor commas nor number signs.
abbrev pub IsPrefixChar : ℕ → Type 0
IsPrefixChar c = (is_space c ≡ false) × ((c == 44) ≡ false) × ((c == 35) ≡ false)

-- The length of an address in bits.
abbrev pub width : Addr → ℕ
width no_addr = 0
width (v4 b) = 32
width (v6 b) = 128

-- A prefix as netip makes one.
abbrev pub IsPrefix : Prefix → Type 0
IsPrefix p = IsAddr p.addr × (p.bits ≤ width p.addr)

abbrev pub IsNetwork : Option Prefix → Type 0
IsNetwork none = Unit {0}
IsNetwork (some p) = IsPrefix p

-- netip.ParsePrefix and its inverse Prefix.String, and strings.ToLower on what is in lower case.
pub record Texts : Type 0 where
  pub parse_prefix : Text → Result Prefix
  pub print_prefix : Prefix → Text
  pub to_lower : Text → Text
  pub parse-print : (p : Prefix) → IsPrefix p → parse_prefix (print_prefix p) ≡ ok p
  pub prefix_chars : (p : Prefix) → IsPrefix p → All IsPrefixChar (print_prefix p)
  pub lower_same : (s : Text) → All (λ c. (97 ≤ c) × (c ≤ 122)) s → to_lower s ≡ s

abbrev pub joined : List Text → Text
joined [] = []
joined (w ∷ []) = w
joined (w ∷ v ∷ ws) = w ++ (44 ∷ joined (v ∷ ws))

abbrev pub truth : Bool → Text
truth true = codes "true"
truth false = codes "false"

abbrev pub role_fields : Text → List Field
role_fields [] = []
role_fields (c ∷ s) = (codes "Role", c ∷ s) ∷ []

module _ (t : Texts) where
  abbrev pub address_fields : Option Prefix → List Field
  address_fields none = []
  address_fields (some p) = (codes "Address", t.print_prefix p) ∷ []

  -- An address or a role that is not set has no line, and no more has an empty list of networks.
  abbrev pub interface_fields : InterfaceConfig → List Field
  interface_fields i =
      address_fields i.address
      ++ (role_fields i.role
          ++ ((codes "PrivateKey", i.private_key)
              ∷ (codes "ListenPort", i.listen_port)
              ∷ (codes "Relay", i.relay)
              ∷ (codes "InsecureSkipVerify", truth i.insecure_skip_verify)
              ∷ (codes "STUNServer", i.stun_server)
              ∷ []))

  abbrev pub allowed_fields : List Prefix → List Field
  allowed_fields [] = []
  allowed_fields (p ∷ ps) = (codes "AllowedIPs", joined (map t.print_prefix (p ∷ ps))) ∷ []

  abbrev pub peer_fields : PeerConfig → List Field
  peer_fields p =
      (codes "PublicKey", p.public_key) ∷ (codes "Relay", p.relay) ∷ allowed_fields p.allowed_ips

  -- The fields of a section, one after the other.
  abbrev pub set_interface : List Field → InterfaceConfig → Result InterfaceConfig
  set_interface [] i = ok i
  set_interface ((k, v) ∷ fs) i =
      parse_interface_field t.parse_prefix t.to_lower k v i >>= set_interface fs

  abbrev pub set_peer : List Field → PeerConfig → Result PeerConfig
  set_peer [] p = ok p
  set_peer ((k, v) ∷ fs) p = parse_peer_field t.parse_prefix t.to_lower k v p >>= set_peer fs

  abbrev base : Option Prefix → Text → InterfaceConfig
  base address role = record empty_interface { address = address; role = role }

  lower_truth : (b : Bool) → bytes_beq (t.to_lower (truth b)) (codes "true") ≡ b
  unfolding bytes_beq
  lower_truth true = rw (t.lower_same (codes "true") (omega arith)) refl
  lower_truth false = rw (t.lower_same (codes "false") (omega arith)) refl

  set_plain :
      (i : InterfaceConfig)
      → set_interface
          ((codes "PrivateKey", i.private_key)
            ∷ (codes "ListenPort", i.listen_port)
            ∷ (codes "Relay", i.relay)
            ∷ (codes "InsecureSkipVerify", truth i.insecure_skip_verify)
            ∷ (codes "STUNServer", i.stun_server)
            ∷ [])
          (base i.address i.role)
        ≡ ok i
  unfolding parse_interface_field bytes_beq
  set_plain i =
      ap (λ b. ok (record i { insecure_skip_verify = b })) (lower_truth i.insecure_skip_verify)

  set_address :
      (a : Option Prefix) (rest : List Field)
      → IsNetwork a
      → set_interface (address_fields a ++ rest) empty_interface ≡ set_interface rest (base a [])
  unfolding parse_interface_field bytes_beq
  set_address none rest v = refl
  set_address (some p) rest v = rw (t.parse-print p v) refl

  set_role :
      (a : Option Prefix) (r : Text) (rest : List Field)
      → IsRole r
      → set_interface (role_fields r ++ rest) (base a []) ≡ set_interface rest (base a r)
  unfolding parse_interface_field bytes_beq
  set_role a r rest (inl e) = rw e refl
  set_role a r rest (inr (inl e)) = rw e (rw (t.lower_same (codes "client") (omega arith)) refl)
  set_role a r rest (inr (inr e)) = rw e (rw (t.lower_same (codes "proxy") (omega arith)) refl)

  -- The fields of an interface, set one after the other, give it back.
  pub set_interface-fields :
      (i : InterfaceConfig)
      → IsNetwork i.address
      → IsRole i.role
      → set_interface (interface_fields i) empty_interface ≡ ok i
  set_interface-fields i v r =
      set_address i.address _ v ∙ set_role i.address i.role _ r ∙ set_plain i

-- Where a text is split, if its words have no comma.
abbrev pub NoComma : Text → Type 0
NoComma w = All (λ c. (c == 44) ≡ false) w

split_commas-word : (w : Text) → NoComma w → split_commas w ≡ w ∷ []
unfolding split_commas
split_commas-word [] n = refl
split_commas-word (c ∷ w) (other, n) = rw other (ap (cons_word c) (split_commas-word w n))

split_commas-first : (w r : Text) → NoComma w → split_commas (w ++ (44 ∷ r)) ≡ w ∷ split_commas r
unfolding split_commas
split_commas-first [] r n = refl
split_commas-first (c ∷ w) r (other, n) = rw other (ap (cons_word c) (split_commas-first w r n))

pub split_commas-joined :
    (w : Text) (ws : List Text) → All NoComma (w ∷ ws) → split_commas (joined (w ∷ ws)) ≡ w ∷ ws
split_commas-joined w [] (n, _) = split_commas-word w n
split_commas-joined w (v ∷ ws) (n, ns) =
    split_commas-first w (joined (v ∷ ws)) n ∙ ap (λ x. w ∷ x) (split_commas-joined v ws ns)

-- Characters that leave a value as it is.
abbrev pub IsDense : ℕ → Type 0
IsDense c = (is_space c ≡ false) × ((c == 35) ≡ false)

dense-right : (v : Text) → All IsDense v → trim_right v ≡ v
dense-right [] d = refl
dense-right (c ∷ v) ((not_space, _), d) = ap (put_back c) (dense-right v d) ∙ kept v
  where
    kept : (x : Text) → put_back c x ≡ c ∷ x
    kept [] = rw not_space refl
    kept (e ∷ x) = refl

dense-left : (v : Text) → All IsDense v → trim_left v ≡ v
dense-left [] d = refl
dense-left (c ∷ v) ((not_space, _), d) = rw not_space refl

dense-whole : (v : Text) → All IsDense v → has_comment v ≡ false
dense-whole [] d = refl
dense-whole (c ∷ []) d = refl
dense-whole (c ∷ e ∷ v) (_, ((not_space, not_sign), d)) =
    ground (arith, not_sign, dense-whole (e ∷ v) ((not_space, not_sign), d))

pub dense-IsPlain : (v : Text) → All IsDense v → IsPlain v
dense-IsPlain v d = record {
  left = dense-left v d;
  right = dense-right v d;
  whole = dense-whole v d;
}

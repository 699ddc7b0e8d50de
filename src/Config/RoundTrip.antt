-- ===== src/Config/RoundTrip.antt =====
-- config/config.go: Load gives a configuration back from its file.
use malon.Base.{
  ◌≡◌, refl, sym, ap, ◌∙◌, Bool, true, false, Option, none, some, List, [], ◌∷◌, ◌++◌, All, map, ok,
  append-nil, append_assoc, arith, inl, inr,
}
use malon.Base.Lists.{All-append}
use malon.Base.Keys.{bytes_beq}
use malon.Packet.{Prefix}
use malon.Words.{Text, codes, trim_space}
use malon.Config.{
  Config, InterfaceConfig, PeerConfig, Section, interface_section, peer_section, empty_interface,
  empty_peer, parse_line, parse_lines, begin_loading, load,
}
use malon.Config.Fields.{IsRole}
use malon.Config.Lines.{IsPlain}
use malon.Config.Printed.{
  IsField, Texts, IsPrefix, IsNetwork, IsDense, dense-IsPlain, joined, truth, interface_fields,
  peer_fields, allowed_fields, address_fields, role_fields, set_interface-fields,
}
use malon.Config.ReadBack.{
  loading, lines_of, peer_lines, file_of, read, read_next, read-interface, read-peer,
  prefix-IsDense, set_peer-fields,
}

truth-IsPlain : (b : Bool) → IsPlain (truth b)
truth-IsPlain true = dense-IsPlain (codes "true") (ground arith)
truth-IsPlain false = dense-IsPlain (codes "false") (ground arith)

joined-IsDense :
    (t : Texts) (ps : List Prefix) → All IsPrefix ps → All IsDense (joined (map t.print_prefix ps))
joined-IsDense t [] vs = tt
joined-IsDense t (p ∷ []) (v, vs) = (prefix-IsDense t (t.print_prefix p) (t.prefix_chars p v)).0
joined-IsDense t (p ∷ q ∷ ps) (v, vs) =
    All-append IsDense (t.print_prefix p) (44 ∷ joined (map t.print_prefix (q ∷ ps)))
      (prefix-IsDense t (t.print_prefix p) (t.prefix_chars p v)).0
      ((refl, refl), joined-IsDense t (q ∷ ps) vs)

-- The values of a section that stand in its file as they are.
abbrev pub IsPlainInterface : InterfaceConfig → Type 0
IsPlainInterface i =
    IsRole i.role
    × IsNetwork i.address
    × IsPlain i.private_key
    × IsPlain i.listen_port
    × IsPlain i.relay
    × IsPlain i.stun_server

abbrev pub IsPlainPeer : PeerConfig → Type 0
IsPlainPeer p = IsPlain p.public_key × IsPlain p.relay × All IsPrefix p.allowed_ips

role_fields-IsField : (r : Text) → IsRole r → All IsField (role_fields r)
role_fields-IsField r (inl e) = rw e tt
role_fields-IsField r (inr (inl e)) =
    rw e ((ground arith, dense-IsPlain (codes "client") (ground arith)), tt)
role_fields-IsField r (inr (inr e)) =
    rw e ((ground arith, dense-IsPlain (codes "proxy") (ground arith)), tt)

module _ (t : Texts) where
  address_fields-IsField : (a : Option Prefix) → IsNetwork a → All IsField (address_fields t a)
  address_fields-IsField none v = tt
  address_fields-IsField (some p) v = (
    (ground arith, dense-IsPlain _ (prefix-IsDense t (t.print_prefix p) (t.prefix_chars p v)).0),
    tt,
  )

  interface_fields-IsField :
      (i : InterfaceConfig) → IsPlainInterface i → All IsField (interface_fields t i)
  interface_fields-IsField i (role, v, key, port, relay, stun) =
      All-append IsField (address_fields t i.address) _ (address_fields-IsField i.address v) (
        All-append IsField (role_fields i.role) _ (role_fields-IsField i.role role) (
          (ground arith, key),
          (
            (ground arith, port),
            (
              (ground arith, relay),
              ((ground arith, truth-IsPlain i.insecure_skip_verify), ((ground arith, stun), tt)),
            ),
          ),
        ))

  allowed_fields-IsField : (ps : List Prefix) → All IsPrefix ps → All IsField (allowed_fields t ps)
  allowed_fields-IsField [] vs = tt
  allowed_fields-IsField (p ∷ ps) vs =
      ((ground arith, dense-IsPlain _ (joined-IsDense t (p ∷ ps) vs)), tt)

  peer_fields-IsField : (p : PeerConfig) → IsPlainPeer p → All IsField (peer_fields t p)
  peer_fields-IsField p (key, relay, vs) =
      ((ground arith, key), ((ground arith, relay), allowed_fields-IsField p.allowed_ips vs))

  read-header :
      (ls : List Text) (i : InterfaceConfig) (ps : List PeerConfig) (section : Section)
      (current : Bool)
      → read t (codes "[Peer]" ∷ ls) (loading i ps section current)
        ≡ read t ls (loading i (ps ++ empty_peer ∷ []) peer_section true)
  unfolding parse_line trim_space bytes_beq
  read-header ls i ps section current =
      read_next t (codes "[Peer]") ls (loading i ps section current)
        (loading i (ps ++ empty_peer ∷ []) peer_section true) refl

  -- The configuration after the lines of peers, in whatever section they start.
  read-peers :
      (qs : List PeerConfig) (i : InterfaceConfig) (ps : List PeerConfig) (section : Section)
      (current : Bool)
      → All IsPlainPeer qs
      → (section' : Section) × (current' : Bool) × read t
            (peer_lines t qs)
            (loading i ps section current)
          ≡ ok (loading i (ps ++ qs) section' current')
  unfolding parse_lines
  read-peers [] i ps section current a =
      (section, current, ap (λ x. ok (loading i x section current)) (sym (append-nil ps)))
  read-peers (q ∷ qs) i ps section current (plain, a) =
      let (section', current', rest) = read-peers qs i (ps ++ q ∷ []) peer_section true a in
      (
        section',
        current',
        read-header (lines_of (peer_fields t q) ++ peer_lines t qs) i ps section current
            ∙ read-peer t (peer_fields t q) (peer_lines t qs) i ps empty_peer q
                (peer_fields-IsField q plain) (set_peer-fields t q plain.2)
            ∙ rest
            ∙ ap (λ x. ok (loading i x section' current')) (append_assoc ps (q ∷ []) qs),
      )

  read-start :
      (ls : List Text)
      → read t (codes "[Interface]" ∷ ls) begin_loading
        ≡ read t ls (loading empty_interface [] interface_section false)
  unfolding parse_line trim_space bytes_beq
  read-start ls =
      read_next t (codes "[Interface]") ls begin_loading
        (loading empty_interface [] interface_section false) refl

  read-file_of :
      (cfg : Config)
      → IsPlainInterface cfg.interface
      → All IsPlainPeer cfg.peers
      → (section : Section) × (current : Bool) × read t (file_of t cfg) begin_loading
          ≡ ok (loading cfg.interface cfg.peers section current)
  read-file_of cfg plain a =
      let i = cfg.interface in
      let (section, current, rest) = read-peers cfg.peers i [] interface_section false a in
      (
        section,
        current,
        read-start (lines_of (interface_fields t i) ++ peer_lines t cfg.peers)
            ∙ read-interface t (interface_fields t i) (peer_lines t cfg.peers) empty_interface i []
                (interface_fields-IsField i plain) (set_interface-fields t i plain.1 plain.0)
            ∙ rest,
      )

  -- What file_of writes of a configuration, Load reads back as that configuration, where its role is
  -- empty, client or proxy, its address, if there is one, and its networks are valid prefixes, and its
  -- other texts have no white space around them and no comment in them.
  pub load-file_of :
      (cfg : Config)
      → IsPlainInterface cfg.interface
      → All IsPlainPeer cfg.peers
      → load t.parse_prefix t.to_lower (ok tt) (file_of t cfg) none ≡ ok cfg
  unfolding load
  load-file_of cfg plain a = let (section, current, e) = read-file_of cfg plain a in rw e refl

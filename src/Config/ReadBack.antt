-- ===== src/Config/ReadBack.antt =====
-- config/config.go: Load on the file of a configuration.
use malon.Base.{
  ◌≡◌, refl, sym, ap, ◌∙◌, Bool, true, false, List, [], ◌∷◌, ◌++◌, All, map, Result, ok, append-nil,
  append_assoc, ◌>>=◌, bound-ok,
}
use malon.Base.Keys.{bytes_beq}
use malon.Packet.{Prefix}
use malon.Words.{Text, codes, trim_right, trim_space}
use malon.Config.{
  Config, InterfaceConfig, PeerConfig, Section, interface_section, peer_section, Loading,
  empty_peer, parse_interface_field, parse_peer_field, add_allowed, parse_last, cons_peer, alone,
  in_interface, in_peers, parse_field, parse_line, parse_lines,
}
use malon.Config.Lines.{field_line, parse_line-field}
use malon.Config.Printed.{
  Field, IsField, Texts, IsPrefixChar, IsPrefix, NoComma, split_commas-joined, IsDense,
  dense-IsPlain, interface_fields, peer_fields, allowed_fields, set_interface, set_peer,
}

module _ (t : Texts) where
  pub prefix-IsDense : (s : Text) → All IsPrefixChar s → All IsDense s × NoComma s
  prefix-IsDense [] a = (tt, tt)
  prefix-IsDense (c ∷ s) ((not_space, not_comma, not_sign), a) =
      let (d, n) = prefix-IsDense s a in (((not_space, not_sign), d), (not_comma, n))

  trim-print : (p : Prefix) → IsPrefix p → trim_space (t.print_prefix p) ≡ t.print_prefix p
  unfolding trim_space
  trim-print p v =
      let plain =
        dense-IsPlain (t.print_prefix p)
          (prefix-IsDense (t.print_prefix p) (t.prefix_chars p v)).0 in
      ap trim_right plain.left ∙ plain.right

  add_allowed-printed :
      (ps : List Prefix) (q : PeerConfig)
      → All IsPrefix ps
      → add_allowed t.parse_prefix t.to_lower (map t.print_prefix ps) q
        ≡ ok (record q { allowed_ips = q.allowed_ips ++ ps })
  unfolding add_allowed
  add_allowed-printed [] q vs =
      ap (λ x. ok (record q { allowed_ips = x })) (sym (append-nil q.allowed_ips))
  add_allowed-printed (p ∷ ps) q (v, vs) =
      rw (trim-print p v, t.parse-print p v, add_allowed)
        (add_allowed-printed ps (record q { allowed_ips = q.allowed_ips ++ p ∷ [] }) vs
          ∙ ap (λ x. ok (record q { allowed_ips = x })) (append_assoc q.allowed_ips (p ∷ []) ps))

  no_commas : (ps : List Prefix) → All IsPrefix ps → All NoComma (map t.print_prefix ps)
  no_commas [] vs = tt
  no_commas (p ∷ ps) (v, vs) =
      ((prefix-IsDense (t.print_prefix p) (t.prefix_chars p v)).1, no_commas ps vs)

  set_allowed :
      (ps : List Prefix) (q : PeerConfig)
      → q.allowed_ips ≡ []
      → All IsPrefix ps
      → set_peer t (allowed_fields t ps) q ≡ ok (record q { allowed_ips = ps })
  unfolding parse_peer_field bytes_beq
  set_allowed [] q e vs = ap (λ x. ok (record q { allowed_ips = x })) e
  set_allowed (p ∷ ps) q e vs =
      ap (λ r. r >>= set_peer t [])
        (ap (λ ws. add_allowed t.parse_prefix t.to_lower ws q)
            (split_commas-joined (t.print_prefix p) (map t.print_prefix ps) (no_commas (p ∷ ps) vs))
          ∙ add_allowed-printed (p ∷ ps) q vs
          ∙ ap (λ x. ok (record q { allowed_ips = x ++ p ∷ ps })) e)

  -- The fields of a peer, set one after the other, give it back.
  pub set_peer-fields :
      (p : PeerConfig) → All IsPrefix p.allowed_ips → set_peer t (peer_fields t p) empty_peer ≡ ok p
  unfolding parse_peer_field bytes_beq
  set_peer-fields p vs =
      set_allowed p.allowed_ips
        (record { public_key = p.public_key; relay = p.relay; allowed_ips = [] }) refl vs

abbrev pub loading : InterfaceConfig → List PeerConfig → Section → Bool → Loading
loading i ps section current = record {
  config = record { interface = i; peers = ps };
  section = section;
  current = current;
}

abbrev pub lines_of : List Field → List Text
lines_of fs = map (λ (f : Field). field_line f.0 f.1) fs

module _ (t : Texts) where
  abbrev pub peer_lines : List PeerConfig → List Text
  peer_lines [] = []
  peer_lines (p ∷ ps) = codes "[Peer]" ∷ (lines_of (peer_fields t p) ++ peer_lines ps)

  -- The file of a configuration
  abbrev pub file_of : Config → List Text
  file_of cfg =
      codes "[Interface]" ∷ (lines_of (interface_fields t cfg.interface) ++ peer_lines cfg.peers)

  abbrev pub read : List Text → Loading → Result Loading
  read ls l = parse_lines t.parse_prefix t.to_lower ls l

  pub read_next :
      (line : Text) (ls : List Text) (l l' : Loading)
      → parse_line t.parse_prefix t.to_lower (trim_space line) l ≡ ok l'
      → read (line ∷ ls) l ≡ read ls l'
  unfolding parse_lines
  read_next line ls l l' h = rw (h, parse_lines) refl

  pub read-interface :
      (fs : List Field) (ls : List Text) (i i' : InterfaceConfig) (ps : List PeerConfig)
      → All IsField fs
      → set_interface t fs i ≡ ok i'
      → read (lines_of fs ++ ls) (loading i ps interface_section false)
        ≡ read ls (loading i' ps interface_section false)
  unfolding parse_field
  read-interface [] ls i i' ps a h =
      let same : i ≡ i' = cc h in ap (λ x. read ls (loading x ps interface_section false)) same
  read-interface ((k, v) ∷ fs) ls i i' ps ((key, plain), a) h =
      let l = loading i ps interface_section false in
      let (i1, here, rest) =
        bound-ok (parse_interface_field t.parse_prefix t.to_lower k v i) (set_interface t fs) i'
          h in
      read_next (field_line k v) (lines_of fs ++ ls) l (loading i1 ps interface_section false) (
        parse_line-field t.parse_prefix t.to_lower k v l key plain
        ∙ ap (in_interface t.parse_prefix t.to_lower l) here)
      ∙ read-interface fs ls i1 i' ps a rest

  parse_last-snoc :
      (k v : Text) (q q' : PeerConfig) (ps : List PeerConfig)
      → parse_peer_field t.parse_prefix t.to_lower k v q ≡ ok q'
      → parse_last t.parse_prefix t.to_lower k v (ps ++ q ∷ []) ≡ ok (ps ++ q' ∷ [])
  unfolding parse_last
  parse_last-snoc k v q q' [] h = ap (alone t.parse_prefix t.to_lower) h
  parse_last-snoc k v q q' (p ∷ []) h =
      ap (cons_peer t.parse_prefix t.to_lower p) (parse_last-snoc k v q q' [] h)
  parse_last-snoc k v q q' (p ∷ r ∷ ps) h =
      ap (cons_peer t.parse_prefix t.to_lower p) (parse_last-snoc k v q q' (r ∷ ps) h)

  pub read-peer :
      (fs : List Field) (ls : List Text) (i : InterfaceConfig) (ps : List PeerConfig)
      (q q' : PeerConfig)
      → All IsField fs
      → set_peer t fs q ≡ ok q'
      → read (lines_of fs ++ ls) (loading i (ps ++ q ∷ []) peer_section true)
        ≡ read ls (loading i (ps ++ q' ∷ []) peer_section true)
  unfolding parse_field
  read-peer [] ls i ps q q' a h =
      let same : q ≡ q' = cc h in
      ap (λ x. read ls (loading i (ps ++ x ∷ []) peer_section true)) same
  read-peer ((k, v) ∷ fs) ls i ps q q' ((key, plain), a) h =
      let l = loading i (ps ++ q ∷ []) peer_section true in
      let (q1, here, rest) =
        bound-ok (parse_peer_field t.parse_prefix t.to_lower k v q) (set_peer t fs) q' h in
      read_next (field_line k v) (lines_of fs ++ ls) l (loading i (ps ++ q1 ∷ []) peer_section true)
        (parse_line-field t.parse_prefix t.to_lower k v l key plain
          ∙ ap (in_peers t.parse_prefix t.to_lower l) (parse_last-snoc k v q q1 ps here))
      ∙ read-peer fs ls i ps q1 q' a rest

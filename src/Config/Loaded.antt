-- ===== src/Config/Loaded.antt =====
-- config/config.go: what a configuration that Load returns satisfies.
use malon.Base.{
  if_both, ◌>>=◌, ℕ, suc, ◌+◌, ◌≡◌, inl, inr, refl, ◌∙◌, not, Option, none, some, List, [], ◌∷◌,
  ◌++◌, Error, Result, ok, err, All, length, length-append, arith, Bool-cases, if◌then◌else◌,
}
use malon.Base.Keys.{bytes_beq, bytes_beq_iff}
use malon.Packet.{Prefix}
use malon.Config.Fields.{
  OnOk, holds, fails, IsRole, IsParsed, IsInterface, IsPeer, ArePeers, parse_interface_field-OnOk,
  parse_last-OnOk,
}
use malon.Words.{Text, codes, trim_space, split_eq, without_comment}
use malon.Config.{
  InterfaceConfig, PeerConfig, Config, Section, no_section, interface_section, peer_section,
  Loading, empty_peer, begin_loading, in_interface, in_peers, parse_field, parse_pair, is_comment,
  parse_line, parse_lines, scanned, load,
}

abbrev one_more_peer : Text → ℕ → ℕ
one_more_peer line n = if bytes_beq line (codes "[Peer]") then suc n else n

count_moves : (line : Text) (m n : ℕ) → one_more_peer line m + n ≡ m + one_more_peer line n
count_moves line m n = ground arith

-- How many lines begin a [Peer] section.
abbrev pub peer_lines : List Text → ℕ
peer_lines [] = 0
peer_lines (line ∷ lines) = one_more_peer (trim_space line) (peer_lines lines)

module _ (parse_prefix : Text → Result Prefix) (to_lower : Text → Text) where
  -- What holds of the variables of Load after some of its lines.
  abbrev IsLoading : ℕ → Loading → Type 0
  IsLoading n l =
      IsInterface parse_prefix to_lower l.config.interface
      × ArePeers parse_prefix to_lower n l.config.peers

  parse_field-OnOk :
      (section : Section) (key val : Text) (n : ℕ) (l : Loading)
      → IsLoading n l
      → OnOk (IsLoading n) (parse_field parse_prefix to_lower section key val l)
  unfolding parse_field
  parse_field-OnOk no_section key val n l h = fails
  parse_field-OnOk interface_section key val n l (i, ps) =
      interface_in _ (parse_interface_field-OnOk parse_prefix to_lower key val l.config.interface i)
    where
      interface_in :
          (r : Result InterfaceConfig)
          → OnOk (IsInterface parse_prefix to_lower) r
          → OnOk (IsLoading n) (in_interface parse_prefix to_lower l r)
      interface_in (ok i') (holds h) = holds (h, ps)
      interface_in (err e) fails = fails
  parse_field-OnOk peer_section key val n l (i, (count, ps)) =
      if_both (OnOk (IsLoading n)) (not l.current) fails
        (peers_in _ (parse_last-OnOk parse_prefix to_lower key val l.config.peers ps))
    where
      peers_in :
          (r : Result (List PeerConfig))
          → OnOk (ArePeers parse_prefix to_lower (length l.config.peers)) r
          → OnOk (IsLoading n) (in_peers parse_prefix to_lower l r)
      peers_in (ok qs) (holds (same, h)) = holds (i, (same ∙ count, h))
      peers_in (err e) fails = fails

  parse_pair-OnOk :
      (o : Option (Text × Text)) (n : ℕ) (l : Loading)
      → IsLoading n l
      → OnOk (IsLoading n) (parse_pair parse_prefix to_lower o l)
  parse_pair-OnOk none n l h = fails
  parse_pair-OnOk (some (k, v)) n l h =
      parse_field-OnOk l.section (trim_space k) (without_comment (trim_space v)) n l h

  All-peers-snoc :
      (ps : List PeerConfig)
      → All (IsPeer parse_prefix to_lower) ps
      → All (IsPeer parse_prefix to_lower) (ps ++ empty_peer ∷ [])
  All-peers-snoc [] h = (tt, tt)
  All-peers-snoc (p ∷ ps) (h, hs) = (h, All-peers-snoc ps hs)

  parse_line-OnOk :
      (line : Text) (n : ℕ) (l : Loading)
      → IsLoading n l
      → OnOk (IsLoading (one_more_peer line n)) (parse_line parse_prefix to_lower line l)
  unfolding parse_line bytes_beq
  parse_line-OnOk line n l (i, (count, ps)) = elim (Bool-cases (bytes_beq line (codes "[Peer]"))) [
    | inl is_peer ↦
        let same = (bytes_beq_iff line (codes "[Peer]")).0 is_peer in
        rw same (
          holds (
            i,
            (
              length-append l.config.peers (empty_peer ∷ []) ∙ omega (arith, count),
              All-peers-snoc l.config.peers ps,
            ),
          ))
    | inr other ↦ rw other (
        if_both (OnOk (IsLoading n)) (is_comment parse_prefix to_lower line)
          (holds (i, (count, ps)))
          (if_both (OnOk (IsLoading n)) (bytes_beq line (codes "[Interface]"))
            (holds (i, (count, ps))) (parse_pair-OnOk (split_eq line) n l (i, (count, ps)))))
  ]

  parse_lines-OnOk :
      (lines : List Text) (n : ℕ) (l : Loading)
      → IsLoading n l
      → OnOk (IsLoading (peer_lines lines + n)) (parse_lines parse_prefix to_lower lines l)
  unfolding parse_lines
  parse_lines-OnOk [] n l h = holds (h.0, (h.1.0 ∙ omega arith, h.1.1))
  parse_lines-OnOk (line ∷ lines) n l h =
      by_line (λ l' h'. parse_lines-OnOk lines (one_more_peer (trim_space line) n) l' h')
        (parse_line parse_prefix to_lower (trim_space line) l)
        (parse_line-OnOk (trim_space line) n l h)
    where
      moved : peer_lines (line ∷ lines) + n ≡ peer_lines lines + one_more_peer (trim_space line) n
      moved = count_moves (trim_space line) (peer_lines lines) n

      by_line :
          ((l' : Loading)
            → IsLoading (one_more_peer (trim_space line) n) l'
            → OnOk
                (IsLoading (peer_lines lines + one_more_peer (trim_space line) n))
                (parse_lines parse_prefix to_lower lines l'))
          → (r : Result Loading) → OnOk (IsLoading (one_more_peer (trim_space line) n)) r
          → OnOk (IsLoading (peer_lines (line ∷ lines) + n)) (elim r as (λ _. Result Loading) [
            | err e ↦ err e
            | ok l' ↦ parse_lines parse_prefix to_lower lines l'
          ])
      by_line ih (ok l') (holds h') = rw moved (ih l' h')
      by_line ih (err e) fails = fails

  -- A configuration that Load returns has no role or one of the two, its address and its peers' networks are
  -- what ParsePrefix gave for some text, and it has one peer for each line that is [Peer].
  pub load_sound :
      (opened : Result (Unit {0})) (lines : List Text) (scan_err : Option Error) (cfg : Config)
      → load parse_prefix to_lower opened lines scan_err ≡ ok cfg
      → IsRole cfg.interface.role
        × ((p : Prefix) → cfg.interface.address ≡ some p → IsParsed parse_prefix to_lower p)
        × (length cfg.peers ≡ peer_lines lines)
        × All (λ (p : PeerConfig). All (IsParsed parse_prefix to_lower) p.allowed_ips) cfg.peers
  unfolding load
  load_sound (err e) lines scan_err cfg h = absurd (cc h)
  load_sound (ok u) lines scan_err cfg h =
      by_lines (parse_lines parse_prefix to_lower lines begin_loading)
        (parse_lines-OnOk lines 0 begin_loading
          ((inl refl, λ p same. absurd (cc same)), (refl, tt)))
        h
    where
      by_scan :
          (o : Option Error) (l : Loading)
          → scanned parse_prefix to_lower o l ≡ ok cfg
          → l.config ≡ cfg
      by_scan none l h = cc h
      by_scan (some e) l h = absurd (cc h)

      by_lines :
          (r : Result Loading)
          → OnOk (IsLoading (peer_lines lines + 0)) r
          → (r >>= scanned parse_prefix to_lower scan_err) ≡ ok cfg
          → IsRole cfg.interface.role
            × ((p : Prefix) → cfg.interface.address ≡ some p → IsParsed parse_prefix to_lower p)
            × (length cfg.peers ≡ peer_lines lines)
            × All (λ (p : PeerConfig). All (IsParsed parse_prefix to_lower) p.allowed_ips) cfg.peers
      by_lines (err e) fails h = absurd (cc h)
      by_lines (ok l) (holds ((role, address), (count, ps))) h =
          rw (← by_scan scan_err l h) (role, address, count ∙ omega arith, ps)

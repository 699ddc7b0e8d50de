-- ===== src/Config.antt =====
-- config/config.go: the configuration file of malond. Where the
-- library's ParsePrefix and ToLower are used, they are arguments.
pub mod Fields
pub mod Loaded
pub mod Lines
pub mod Printed
pub mod ReadBack
pub mod RoundTrip
use malon.Base.{
  ℕ, suc, Bool, true, false, not, ◌&&◌, ◌||◌, Option, none, some, List, [], ◌∷◌, ◌++◌, Error,
  errorf, wrap, Result, ok, err, ◌>>=◌, if◌then◌else◌, leb, ◌==◌, map,
}
use malon.Base.Keys.{bytes_beq}
use malon.Words.{Text, codes, trim_space, split_eq, without_comment, split_commas}
use malon.Packet.{Prefix, no_addr}

-- InterfaceConfig; the zero prefix is `none`.
pub record InterfaceConfig : Type 0 where
  pub private_key : Text
  pub address : Option Prefix
  pub role : Text
  pub listen_port : Text
  pub relay : Text
  pub insecure_skip_verify : Bool
  pub stun_server : Text

-- PeerConfig
pub record PeerConfig : Type 0 where
  pub public_key : Text
  pub relay : Text
  pub allowed_ips : List Prefix

pub record Config : Type 0 where
  pub interface : InterfaceConfig
  pub peers : List PeerConfig

pub data Section : Type 0 where
  no_section interface_section peer_section : Section

-- The variables of Load. `current` says that `currentPeer` is not nil; it is the last peer then.
pub record Loading : Type 0 where
  pub config : Config
  pub section : Section
  pub current : Bool

abbrev pub empty_interface : InterfaceConfig
empty_interface = record {
  private_key = [];
  address = none;
  role = [];
  listen_port = [];
  relay = [];
  insecure_skip_verify = false;
  stun_server = [];
}

abbrev pub empty_peer : PeerConfig
empty_peer = record { public_key = []; relay = []; allowed_ips = [] }

abbrev pub begin_loading : Loading
begin_loading = record {
  config = record { interface = empty_interface; peers = [] };
  section = no_section;
  current = false;
}

abbrev pub role_client : Text
role_client = codes "client"

abbrev pub role_proxy : Text
role_proxy = codes "proxy"

abbrev pub with_role : Text → InterfaceConfig → Result InterfaceConfig
with_role lower i =
    if not (bytes_beq lower role_client) && not (bytes_beq lower role_proxy)
    then err (errorf "config: invalid Role")
    else ok (record i { role = lower })

abbrev pub with_address : InterfaceConfig → Result Prefix → Result InterfaceConfig
with_address i (err e) = err (wrap "config: invalid Address" e)
with_address i (ok p) = ok (record i { address = some p })

module _ (parse_prefix : Text → Result Prefix) (to_lower : Text → Text) where
  -- parseInterfaceField
  unfoldable pub parse_interface_field : Text → Text → InterfaceConfig → Result InterfaceConfig
  parse_interface_field key val i =
      if bytes_beq key (codes "PrivateKey")
      then ok (record i { private_key = val })
      else if bytes_beq key (codes "Address")
      then with_address i (parse_prefix val)
      else if bytes_beq key (codes "Role")
      then with_role (to_lower val) i
      else if bytes_beq key (codes "ListenPort")
      then ok (record i { listen_port = val })
      else if bytes_beq key (codes "Relay")
      then ok (record i { relay = val })
      else if bytes_beq key (codes "InsecureSkipVerify")
      then ok (record i { insecure_skip_verify = bytes_beq (to_lower val) (codes "true") })
      else if bytes_beq key (codes "STUNServer")
      then ok (record i { stun_server = val })
      else err (errorf "config: unknown Interface key")

  -- The loop over the parts of AllowedIPs
  unfoldable pub add_allowed : List Text → PeerConfig → Result PeerConfig
  add_allowed [] p = ok p
  add_allowed (s ∷ ss) p = elim (parse_prefix (trim_space s)) [
    | err e ↦ err (wrap "config: invalid AllowedIPs" e)
    | ok prefix ↦ add_allowed ss (record p { allowed_ips = p.allowed_ips ++ prefix ∷ [] })
  ]

  -- parsePeerField
  unfoldable pub parse_peer_field : Text → Text → PeerConfig → Result PeerConfig
  parse_peer_field key val p =
      if bytes_beq key (codes "PublicKey")
      then ok (record p { public_key = val })
      else if bytes_beq key (codes "Relay")
      then ok (record p { relay = val })
      else if bytes_beq key (codes "AllowedIPs")
      then add_allowed (split_commas val) p
      else err (errorf "config: unknown Peer key")

  abbrev cons_peer : PeerConfig → Result (List PeerConfig) → Result (List PeerConfig)
  cons_peer p (err e) = err e
  cons_peer p (ok ps) = ok (p ∷ ps)

  abbrev alone : Result PeerConfig → Result (List PeerConfig)
  alone (err e) = err e
  alone (ok p) = ok (p ∷ [])

  -- The field of the last peer, to which `currentPeer` points.
  unfoldable pub parse_last : Text → Text → List PeerConfig → Result (List PeerConfig)
  parse_last key val [] = err (errorf "config: no peer")
  parse_last key val (p ∷ []) = alone (parse_peer_field key val p)
  parse_last key val (p ∷ q ∷ ps) = cons_peer p (parse_last key val (q ∷ ps))

  abbrev pub in_interface : Loading → Result InterfaceConfig → Result Loading
  in_interface l (err e) = err e
  in_interface l (ok i) = ok (record l { config = record l.config { interface = i } })

  abbrev pub in_peers : Loading → Result (List PeerConfig) → Result Loading
  in_peers l (err e) = err e
  in_peers l (ok ps) = ok (record l { config = record l.config { peers = ps } })

  -- The switch on the section
  unfoldable pub parse_field : Section → Text → Text → Loading → Result Loading
  parse_field interface_section key val l =
      in_interface l (parse_interface_field key val l.config.interface)
  parse_field peer_section key val l =
      if not l.current
      then err (errorf "config: key outside [Peer] section")
      else in_peers l (parse_last key val l.config.peers)
  parse_field no_section key val l = err (errorf "config: key outside any section")

  abbrev pub parse_pair : Option (Text × Text) → Loading → Result Loading
  parse_pair none l = err (errorf "config: invalid line")
  parse_pair (some (k, v)) l =
      parse_field l.section (trim_space k) (without_comment (trim_space v)) l

  abbrev pub is_comment : Text → Bool
  is_comment [] = true
  is_comment (c ∷ s) = c == 35

  -- One round of the loop of Load, on the trimmed line.
  unfoldable pub parse_line : Text → Loading → Result Loading
  parse_line line l =
      if is_comment line
      then ok l
      else if bytes_beq line (codes "[Interface]")
      then ok (record l { section = interface_section; current = false })
      else if bytes_beq line (codes "[Peer]")
      then ok (record l {
        config = record l.config { peers = l.config.peers ++ empty_peer ∷ [] };
        section = peer_section;
        current = true;
      })
      else parse_pair (split_eq line) l

  unfoldable pub parse_lines : List Text → Loading → Result Loading
  parse_lines [] l = ok l
  parse_lines (line ∷ lines) l = elim (parse_line (trim_space line) l) [
    | err e ↦ err e
    | ok l' ↦ parse_lines lines l'
  ]

  abbrev pub scanned : Option Error → Loading → Result Config
  scanned none l = ok l.config
  scanned (some e) l = err e

  -- Load, on the lines that the scanner gives, and the error that it has met, if any; `opened` is what
  -- opening the file gives.
  unfoldable pub load : Result (Unit {0}) → List Text → Option Error → Result Config
  load opened lines scan_err = do
    _ ← opened
    l ← parse_lines lines begin_loading
    scanned scan_err l

-- ===== src/Tests/Files.antt =====
-- A run of Load.
use malon.Base.{
  ℕ, ◌+◌, ◌≡◌, refl, List, [], ◌∷◌, some, none, Result, ok, map, All, leb, ◌&&◌, if◌then◌else◌,
}
use malon.Base.Keys.{bytes_beq}
use malon.Packet.{Prefix, v4}
use malon.Words.{Text, codes, trim_space, split_eq, without_comment, split_commas, before_comment}
use malon.Config.{
  Config, PeerConfig, load, parse_lines, parse_line, parse_field, parse_interface_field,
  parse_peer_field, parse_last, add_allowed, empty_interface, role_proxy,
}
use malon.Config.Fields.{IsRole, IsParsed}
use malon.Base.{true, ◌⊎◌, ◌==◌}
use malon.Daemon.{
  ListenEndpoint, Parsers, pos, is_blank, parse_mion_listen_endpoints, parse_entries,
  parse_endpoint,
}
use malon.Daemon.Endpoints.{IsEndpoint, entries_of, parse_mion_listen_endpoints_sound}
use malon.Config.Loaded.{peer_lines, load_sound}

abbrev pub lower : Text → Text
lower = map (λ (c : ℕ). if leb 65 c && leb c 90 then c + 32 else c)

abbrev one_net : Text → Result Prefix
one_net s = ok (record { addr = v4 (10 ∷ 0 ∷ 0 ∷ 0 ∷ []); bits = 8 })

abbrev file : List Text
file =
    codes "# a proxy"
    ∷ codes "[Interface]"
    ∷ codes " Role = Proxy # not a client"
    ∷ codes "[Peer]"
    ∷ codes "AllowedIPs = 10.0.0.0/8"
    ∷ []

abbrev file_config : Config
file_config = record {
  interface = record empty_interface { role = role_proxy };
  peers =
      record {
        public_key = [];
        relay = [];
        allowed_ips = record { addr = v4 (10 ∷ 0 ∷ 0 ∷ 0 ∷ []); bits = 8 } ∷ [];
      }
      ∷ [];
}

load_sound_example :
    IsRole role_proxy
    × ((p : Prefix) → file_config.interface.address ≡ some p → IsParsed one_net lower p)
    × (1 ≡ peer_lines file)
    × All (λ (p : PeerConfig). All (IsParsed one_net lower) p.allowed_ips) file_config.peers
unfolding load parse_lines parse_line parse_field parse_interface_field parse_peer_field parse_last
    add_allowed split_eq trim_space without_comment before_comment split_commas bytes_beq
load_sound_example = load_sound one_net lower (ok tt) file none file_config refl

abbrev from_colon : Text → Text
from_colon [] = []
from_colon (c ∷ s) = let rest = from_colon s in if c == 58 then s else rest

-- Texts of the form http3://:443, cut by hand; the port is 443.
abbrev parsers : Parsers
parsers = record {
  url_parse = λ s. ok (codes "HTTP3", codes ":443");
  to_lower = lower;
  split_host_port = λ s. ok ([], from_colon s);
  atoi = λ s. ok (pos 443);
}

abbrev one_endpoint : List ListenEndpoint
one_endpoint = record { protocol = codes "http3"; host = []; port = 443 } ∷ []

parse_mion_listen_endpoints_sound_example :
    All IsEndpoint one_endpoint
    × (((is_blank (trim_space (codes "HTTP3://:443, ")) ≡ true) × (one_endpoint ≡ []))
        ⊎ (1 ≡ entries_of (split_commas (codes "HTTP3://:443, "))))
unfolding parse_mion_listen_endpoints parse_entries parse_endpoint split_commas trim_space bytes_beq
parse_mion_listen_endpoints_sound_example =
    parse_mion_listen_endpoints_sound parsers (codes "HTTP3://:443, ") one_endpoint refl

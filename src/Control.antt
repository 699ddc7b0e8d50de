-- ===== src/Control.antt =====
-- internal/control/control.go: the messages that peers exchange over the control channel. What
-- encoding/json and net/netip do is an argument.
use malon.Base.{
  refl, false, true, ℕ, ◌^◌, ◌<◌, ◌≡◌, Option, some, List, Bytes, String, Result, ok, wrapping,
  length, All,
}
use malon.Packet.{Addr, no_addr, v4, v6}

-- CandidateInfo
pub record CandidateInfo : Type 0 where
  pub kind : String
  pub addr : String

-- Message; its generation is a uint32.
pub record Message : Type 0 where
  pub msg_type : String
  pub generation : ℕ
  pub candidates : List CandidateInfo

abbrev pub msg_type_candidates : String
msg_type_candidates = "candidates"

-- `json.Marshal` and `json.Unmarshal` on a Message: a struct of texts and a uint32 is always encoded, and
-- decoding gives it back.
pub record Json : Type 0 where
  pub marshal : Message → Result Bytes
  pub unmarshal : Bytes → Result Message
  pub unmarshal-marshal :
      (msg : Message)
      → msg.generation < 2 ^ 32
      → (b : Bytes) × (marshal msg ≡ ok b) × (unmarshal b ≡ ok msg)

-- The addresses that netip can print, and read again: 4 or 16 bytes.
abbrev pub IsAddr : Addr → Type 0
IsAddr no_addr = false ≡ true
IsAddr (v4 b) = (length b ≡ 4) × All (λ x. x < 256) b
IsAddr (v6 b) = (length b ≡ 16) × All (λ x. x < 256) b

-- `netip.ParseAddrPort` and `netip.AddrPort.String`
pub record Netip : Type 0 where
  pub parse_addr_port : String → Option (Addr × ℕ)
  pub addr_port_string : Addr → ℕ → String
  pub parse_addr_port-addr_port_string :
      (addr : Addr) (port : ℕ)
      → IsAddr addr
      → port < 65536
      → parse_addr_port (addr_port_string addr port) ≡ some (addr, port)

module _ ⦃json : Json⦄ where
  unfoldable pub encode : Message → Result Bytes
  encode msg = wrapping "control: encode" (json.marshal msg)

  unfoldable pub decode : Bytes → Result Message
  decode data' = wrapping "control: decode" (json.unmarshal data')

  -- A message whose generation is a uint32 is encoded without an error, and decoding gives it back.
  pub decode-encode :
      (msg : Message)
      → msg.generation < 2 ^ 32
      → (b : Bytes) × (encode msg ≡ ok b) × (decode b ≡ ok msg)
  unfolding encode decode
  decode-encode msg l = let (b, e, f) = json.unmarshal-marshal msg l in (b, rw e refl, rw f refl)

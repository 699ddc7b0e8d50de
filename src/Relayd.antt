-- ===== src/Relayd.antt =====
-- cmd/malon-relayd/main.go: main, and LoadRelayServer of config/config.go. The file, the TOML library and net/http are
-- arguments.
use malon.Base.{◌≡◌, refl, Option, none, Bytes, String, Error, Result, ok, err, ◌>>=◌}
use malon.Words.{Text}
use malon.Relay.Server.{Http, listen_and_serve, relay_server}

pub record RelayServerSection : Type 0 where
  pub listen_addr : String
  pub tls_cert : String
  pub tls_key : String

pub record RelayServerConfig : Type 0 where
  pub relay : RelayServerSection

-- LoadRelayServer: what os.ReadFile gives, and toml.Decode into an empty configuration
unfoldable pub load_relay_server :
    (Bytes → Result RelayServerConfig) → Result Bytes → Result RelayServerConfig
load_relay_server decode file = do data_ ← file; decode data_

-- duration, over time.Duration
pub record Duration (D : Type 0) : Type 0 where
  pub duration : D

-- UnmarshalText: time.ParseDuration's value is stored also if it fails.
unfoldable pub unmarshal_text :
    {D : Type 0} → (Text → D × Option Error) → Text → Duration D → Duration D × Option Error
unmarshal_text parse_duration text d =
    let (v, e) = parse_duration text in (record d { duration = v }, e)

-- How main ends: both with status 1, after the error is logged.
pub data Exit : Type 0 where
  failed_to_load relay_exited : Error → Exit

module _ {L : Type 0} (http : Http L) where
  abbrev loaded : Result RelayServerConfig → Exit
  loaded (err e) = failed_to_load e
  loaded (ok cfg) =
      relay_exited
        (listen_and_serve http cfg.relay.listen_addr cfg.relay.tls_cert cfg.relay.tls_key)

  -- main
  unfoldable pub relayd_main : (Bytes → Result RelayServerConfig) → Result Bytes → Exit
  relayd_main decode file = loaded (load_relay_server decode file)

  -- With a file that decodes, and without an error of http2, main serves at the address and with the files of its
  -- configuration until the server ends.
  pub relayd_main-cases :
      (decode : Bytes → Result RelayServerConfig) (b : Bytes) (cfg : RelayServerConfig)
      → decode b ≡ ok cfg
      → http.configure_server (relay_server cfg.relay.listen_addr) ≡ none
      → relayd_main decode (ok b)
        ≡ relay_exited (
            http.listen_and_serve_tls
              (relay_server cfg.relay.listen_addr)
              cfg.relay.tls_cert
              cfg.relay.tls_key)
  unfolding relayd_main load_relay_server listen_and_serve
  relayd_main-cases decode b cfg e ready = rw (e, ready) refl

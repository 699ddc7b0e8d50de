-- ===== src/Tests.antt =====
-- Concrete instances of the interfaces, and runs of the model on concrete input.
pub mod Wire
pub mod Tunnel
pub mod Sessions
pub mod Paths
pub mod Sections
pub mod Codecs
pub mod Files
use malon.Base.{
  ℕ, ◌≡◌, refl, Bytes, [], ◌∷◌, ◌++◌, append-nil, Option, none, some, Error, if◌then◌else◌,
  replicate, sym, arith,
}
use malon.Io.{Writer}
use malon.Envelope.{Envelope, IsValid}
use malon.Manager.{MionPeer, PeerPath, is_path}

-- A buffer in memory: every write succeeds.
instance abbrev pub buffer : Writer Bytes
buffer = record {
  write = λ w b. (w ++ b, none);
  out = λ w. w;
  write_ok = λ w b e. refl;
  write_prefix = λ w b. (b, [], sym (append-nil b), refl);
}

-- A peer that is nothing but its active connection.
instance abbrev pub option_peer : MionPeer (Option PeerPath)
option_peer = record {
  set_conn = λ c p. some c;
  clear_conn_if = λ c p. if is_path c p then none else p;
  active = λ p. p;
  active-set_conn = λ c p. refl;
  active-clear_conn_if = λ c p. refl;
}

abbrev pub peer_a : Bytes
peer_a = replicate 32 1

abbrev pub peer_b : Bytes
peer_b = replicate 32 2

-- The first session of peer A, to B.
abbrev pub hello : Envelope
hello = record {
  version = 1;
  stream_type = 0;
  src_peer_id = peer_a;
  dst_peer_id = peer_b;
  session_id = 1;
  payload = 104 ∷ 105 ∷ [];
}

pub hello-IsValid : IsValid hello
hello-IsValid = record {
  version_byte = omega arith;
  type_byte = omega arith;
  src_length = refl;
  dst_length = refl;
  session_word = omega arith;
  payload_fits = omega arith;
}

-- ===== src/Tests/Codecs/Probes.antt =====
-- Runs of the probes, and of the queries.
use malon.Base.{
  ap, ◌≤◌, ℕ, zero, suc, ◌+◌, ◌*◌, ◌≡◌, ◌↔◌, ◌⊎◌, inl, refl, true, false, [], ◌∷◌, Option, none,
  some, errorf, ok, Result, Error, String, err, arith,
}
use malon.Base.Keys.{bytes_eq, bytes_beq, lookup}
use malon.Packet.{Addr, v4}
use malon.Identity.{ed25519}
use malon.Direct.{Closes, ValidatedTransport, probe}
use malon.Control.{CandidateInfo, Message, msg_type_candidates}
use malon.Manager.{PeerPath}
use malon.Probing.{
  Probe, Prober, Attempt, Probed, found, timed_out, retry_interval, total_timeout, millisecond,
  probe_loop, probe_round, probe_finished, validate_candidates, validate_each, consider,
  handle_control, is_direct, cooling,
}
use malon.Probing.Rounds.{probe_loop-ends}
use malon.Probing.Started.{Named, probes-validate_candidates}
use malon.Probing.Cooling.{
  nothing, then_, found_other, message as quiet_message, probe_finished-cools,
}
use malon.Probing.Considered.{Member, Allowed}
use malon.Probing.Proven.{IsShown, message, probed, begins, followed_by, Reach-IsShown}
use malon.Stun.{Resolver, Reply, Sockets, mapped, query}
use malon.Stun.Queried.{Finds, Maps, query_iff}
use malon.Tests.{option_peer}
use malon.Tests.Codecs.{
  plain, numbers_json, letters_netip, text_of, letters, counted, put_message, get_message, get_text,
  put_text, get_infos, put_infos, char_of, map_char, is_scalar, are_both, is_less,
}
use malon.Tests.Codecs.Peers.{moment as now_, key_a, key_b, id_of, knows_both, dialled_b}

abbrev pub address : Addr
address = v4 (10 ∷ 0 ∷ 0 ∷ 2 ∷ [])

abbrev pub started : Prober (Option PeerPath)
started = record {
  manager = knows_both;
  has_ctx = true;
  validated = [];
  probe_cooldown = [];
  probes = [];
  promotions = [];
}

abbrev to_b : Probe
to_b = record { peer_id = id_of key_b; addr = address; port = 40 }

abbrev offer_b : Message
offer_b = record {
  msg_type = msg_type_candidates;
  generation = 1;
  candidates =
      record { kind = "stuned"; addr = letters_netip.addr_port_string address 40 }
      ∷ record { kind = "embedded"; addr = "nothing" }
      ∷ [];
}

probes-validate_candidates_example :
    Member to_b (validate_candidates (λ i. i) (id_of key_b) offer_b started).probes ↔ (
      Member to_b started.probes
      ⊎ ((true ≡ true)
          × Allowed (id_of key_b) to_b started
          × Named (λ i. i) started address 40 offer_b.candidates))
probes-validate_candidates_example =
    probes-validate_candidates (λ i. i) (id_of key_b) offer_b started to_b

-- A probe of A at the same address has failed a second ago.
abbrev to_a : Probe
to_a = record { peer_id = id_of key_a; addr = address; port = 40 }

abbrev cooled : Prober (Option PeerPath)
cooled =
    probe_finished 0 to_a (timed_out (some (errorf "timeout")))
      (record started { probes = to_b ∷ [] })

-- B's candidates arrive, and a probe of another address succeeds.
abbrev offered : Prober (Option PeerPath)
offered = handle_control (λ i. 1000 * millisecond) (id_of key_b) (put_message offer_b) cooled

abbrev to_c : Probe
to_c = record { peer_id = id_of key_a; addr = address; port = 41 }

abbrev other_found : ValidatedTransport
other_found = record { remote_addr = address; remote_port = 41; peer_id = id_of key_a; rtt = 7 }

probe_finished-cools_example :
    Member to_b (probe_finished 9 to_c (found other_found) offered).probes ↔ Member to_b (to_b ∷ [])
probe_finished-cools_example =
    probe_finished-cools 0 to_a to_b (errorf "timeout") (record started { probes = to_b ∷ [] })
      (probe_finished 9 to_c (found other_found) offered)
      (then_
        (then_ nothing (
          quiet_message (λ i. 1000 * millisecond) (id_of key_b) (put_message offer_b) cooled
            (λ i. omega arith)))
        (found_other 9 to_c other_found offered (λ h. omega (arith, ap (λ (x : Addr × ℕ). x.1) h))))
      refl refl

-- The first attempt fails, and the second reaches B.
abbrev second_time : ℕ → Attempt
second_time zero = record {
  now = 0;
  ctx_done = false;
  already = false;
  moment = record now_ { random = err (errorf "no random number") };
  quic = λ t. ok dialled_b;
  cancelled = false;
}
second_time (suc k) = record {
  now = suc k * retry_interval;
  ctx_done = false;
  already = false;
  moment = now_;
  quic = λ t. ok dialled_b;
  cancelled = false;
}

second_time_spaced : (k : ℕ) → (second_time k).now + retry_interval ≤ (second_time (suc k)).now
second_time_spaced zero = omega arith
second_time_spaced (suc k) = omega arith

probe_loop-ends_example :
    (r : Probed) × (closes' : Closes) × (probe_loop key_a 151 to_b
        (0 + total_timeout)
        second_time
        zero
        none
        []
      ≡ some (r, closes'))
probe_loop-ends_example =
    probe_loop-ends key_a to_b second_time 0 [] (omega arith) second_time_spaced

abbrev transport : ValidatedTransport
transport = record { remote_addr = address; remote_port = 40; peer_id = id_of key_b; rtt = 1000 }

second_found :
    probe_loop key_a 151 to_b total_timeout second_time zero none []
    ≡ some (found transport, (5, 0) ∷ [])
unfolding probe_loop probe_round probe malon.Auth.new_probe_client_tls_config malon.Auth.self_cert
    malon.Identity.self_signed_cert plain bytes_beq malon.Identity.peer_id_from_public_key
second_found = refl

first_started : Member to_b (record started { probes = to_b ∷ [] }).probes
first_started = inl refl

abbrev told : Prober (Option PeerPath)
told = handle_control (λ i. i) (id_of key_b) (put_message offer_b) started

told_to_b : Member to_b told.probes
unfolding handle_control validate_candidates validate_each consider cooling is_direct counted
    letters text_of malon.Control.decode bytes_beq lookup get_message get_text put_text get_infos
    put_infos char_of map_char is_scalar are_both is_less numbers_json letters_netip
told_to_b = inl refl

Reach-IsShown_example :
    IsShown ((to_b, second_time) ∷ []) (probe_finished 5 to_b (found transport) told)
Reach-IsShown_example = Reach-IsShown (
    followed_by
      (followed_by (begins started refl refl refl)
        (message (λ i. i) (id_of key_b) (put_message offer_b) started))
      (probed key_a to_b second_time 151 total_timeout 5 (found transport) [] ((5, 0) ∷ []) told
        told_to_b second_found))

abbrev one_server : Resolver
one_server = record {
  split_host_port = λ s. ok ("stun", "3478");
  lookup_ip4 = λ host. ok (address ∷ []);
  join_host_port = λ a port. "192.0.2.2:3478";
}

abbrev reply : Result Reply
reply = ok (mapped (192 ∷ 0 ∷ 2 ∷ 9 ∷ []) 4001)

abbrev seen_as : Addr
seen_as = v4 (192 ∷ 0 ∷ 2 ∷ 9 ∷ [])

abbrev none_opened : Sockets
none_opened = record { opened = []; closed = [] }

query_iff_example :
    (let r = query one_server "stun:3478" (λ t. ok 9) (ok tt) none reply none_opened in
      ((r.0 ≡ ok (seen_as, 4001)) ↔ (
        (t : String) × Finds one_server "stun:3478" t
        × ((s : ℕ) × (◌≡◌ {A = Result ℕ} (ok 9) (ok s)))
        × (◌≡◌ {A = Result (Unit {0})} (ok tt) (ok tt))
        × (◌≡◌ {A = Option Error} none none)
        × Maps reply seen_as 4001))
      × ((r.1 ≡ none_opened) ⊎ ((s : ℕ) × (r.1 ≡ record { opened = s ∷ []; closed = s ∷ [] }))))
query_iff_example =
    query_iff one_server "stun:3478" (λ t. ok 9) (ok tt) none reply none_opened seen_as 4001

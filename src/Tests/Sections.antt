-- ===== src/Tests/Sections.antt =====
-- Sections of the manager's handlers, on a client with one peer.
use malon.Base.{◌≤◌, ◌≡◌, refl, true, Option, none, some}
use malon.Base.Keys.{bytes_eq, bytes_beq, lookup, insert, delete}
use malon.Manager.{
  Manager, PeerEntry, PeerPath, direct, register_peer, get_or_create_proxy, start_retry,
  direct_closed,
}
use malon.Manager.Retrying.{retry_stopped}
use malon.Manager.Retries.{flagged}
use malon.Manager.Sections.{claim_retry, try_mark, set_active, retry_stops}
use malon.Manager.Sections.Interleaved.{
  Reach, begins, followed_by, registered, retry_claimed, try_marked, activated, retries-flagged,
}
use malon.Manager.Sections.Lost.{IsLeft, direct_closed-lost}
use malon.Tests.{option_peer, peer_a}
use malon.Tests.Paths.{fresh, fresh-IsNew}

abbrev known : Manager (Option PeerPath)
known = (register_peer peer_a none "https://relay" (fresh true)).0

-- A retry is under way when the peer is promoted.
abbrev promoted : Manager (Option PeerPath)
promoted = set_active (direct 2) peer_a (try_mark peer_a (claim_retry peer_a known)).1

promoted-Reach : Reach promoted
promoted-Reach =
    followed_by
      (followed_by
        (followed_by
          (followed_by (begins (fresh true) (fresh-IsNew true))
            (registered peer_a none "https://relay" (fresh true)))
          (retry_claimed peer_a known))
        (try_marked peer_a (claim_retry peer_a known)))
      (activated (direct 2) peer_a (try_mark peer_a (claim_retry peer_a known)).1)

retries-flagged_example :
    (promoted.retries peer_a ≤ 1)
    × (promoted.retries peer_a ≡ flagged (lookup peer_a promoted.peers))
retries-flagged_example = retries-flagged promoted-Reach peer_a

abbrev direct_entry : PeerEntry (Option PeerPath)
direct_entry = record {
  peer = some (direct 2);
  relay_url = "https://relay";
  relay_conn = none;
  has_direct_path = true;
  retrying_conn = true;
}

direct_closed-lost_example :
    (retry_stops peer_a promoted ≡ true)
    × IsLeft peer_a (retry_stopped peer_a (direct_closed 2 peer_a promoted))
unfolding register_peer get_or_create_proxy insert delete lookup bytes_beq claim_retry start_retry
    try_mark set_active
direct_closed-lost_example =
    direct_closed-lost 2 peer_a direct_entry promoted promoted-Reach refl refl refl refl refl

-- ===== src/Startup/Pool.antt =====
-- internal/manager/manager.go: the pool of proxies, one for each relay URL in use.
use text.Mathlib.Text.{◌==◌ as str_eq}
use text.Mathlib.TextEquality.{eq_iff}
use malon.Base.{
  ℕ, suc, ◌≡◌, refl, sym, ap, ◌∙◌, Bool, true, false, not, ◌&&◌, ◌||◌, List, [], ◌∷◌, Bytes, String,
  none, Option-cases, Bool-cases, inl, inr, if◌then◌else◌, arith, ◌==◌,
}
use malon.Base.Keys.{delete_absent, bytes_eq, lookup, insert}
use malon.Manager.{Manager, PeerEntry, has_url, get_or_create_proxy, put, register_peer}
use malon.Manager.Entries.{peers-get_or_create_proxy}
use malon.Startup.{Registration, new_manager, register_each}

-- How often a URL stands in a list.
abbrev pub url_count : String → List String → ℕ
url_count u [] = 0
url_count u (v ∷ vs) = let rest = url_count u vs in if str_eq u v then suc rest else rest

-- Some peer of the table is reached through this relay.
abbrev pub uses : {P : Type 0} → String → List (Bytes × PeerEntry P) → Bool
uses u [] = false
uses u ((id, e) ∷ es) = str_eq u e.relay_url || uses u es

-- The relay of the interface, or of a peer; none where the URL is empty.
abbrev pub is_relay : {P : Type 0} → String → String → List (Bytes × PeerEntry P) → Bool
is_relay u iface es = not (str_eq u "") && (str_eq u iface || uses u es)

-- Each of these relays has one proxy, and there is no other.
abbrev pub IsPooled : {P : Type 0} → String → Manager P → Type 0
IsPooled iface m =
    (u : String) → url_count u m.proxies ≡ (if is_relay u iface m.peers then 1 else 0)

has_url-count : (u : String) (us : List String) → has_url u us ≡ not (url_count u us == 0)
has_url-count u [] = refl
has_url-count u (v ∷ us) = ground (arith, has_url-count u us)

module _ {P : Type 0} where
  -- A proxy is made for a URL that has none.
  proxies-get_or_create_proxy :
      (u v : String) (m : Manager P)
      → url_count v (get_or_create_proxy u m).proxies ≡ (
          if str_eq v u && (url_count u m.proxies == 0)
          then suc (url_count v m.proxies)
          else url_count v m.proxies)
  unfolding get_or_create_proxy
  proxies-get_or_create_proxy u v m = ground (arith, has_url-count u m.proxies, eq_iff v u)

pub new_manager-IsPooled :
    (P : Type 0) (is_client : Bool) (iface : String)
    → IsPooled iface (new_manager {P = P} is_client iface)
unfolding new_manager get_or_create_proxy
new_manager-IsPooled P is_client iface u =
    ground (arith, eq_iff u "", eq_iff iface "", eq_iff u iface)

-- An empty URL adds no relay, and another one adds itself.
absorbed :
    (b i k us : Bool) → (k ≡ true → b ≡ true) → (not b && (i || us)) ≡ (not b && (i || (k || us)))
absorbed b i true us h = rw (h refl) refl
absorbed b i false us h = refl

added :
    (b i k us : Bool)
    → (k ≡ true → b ≡ false)
    → ((not b && (i || us)) || k) ≡ (not b && (i || (k || us)))
added b true true us h = rw (h refl) refl
added b false true us h = rw (h refl) (ground arith)
added true i false us h = refl
added false true false us h = refl
added false false false us h = ground arith

abbrev one_if : Bool → ℕ
one_if b = if b then 1 else 0

module _ {P : Type 0} where
  get_or_create_proxy-IsPooled :
      (iface u : String) (es : List (Bytes × PeerEntry P)) (m : Manager P)
      → ((v : String) → url_count v m.proxies ≡ (if is_relay v iface es then 1 else 0))
      → (v : String)
      → url_count v (get_or_create_proxy u m).proxies
        ≡ (if is_relay v iface es || str_eq v u then 1 else 0)
  get_or_create_proxy-IsPooled iface u es m p v =
      proxies-get_or_create_proxy u v m ∙ ground (arith, p v, p u, eq_iff v u)

  pub register_peer-IsPooled :
      (iface : String) (id : Bytes) (peer : P) (u : String) (m : Manager P)
      → IsPooled iface m
      → IsPooled iface (register_peer id peer u m).0
  unfolding register_peer insert
  register_peer-IsPooled iface id peer u m p v = elim (Option-cases (lookup id m.peers)) [
    | inr (e, there) ↦ rw (there, register_peer) (p v)
    | inl free ↦
        let e : PeerEntry P = record {
          peer = peer;
          relay_url = u;
          relay_conn = none;
          has_direct_path = false;
          retrying_conn = false;
        } in
        rw (free, register_peer)
          (elim (Bool-cases (str_eq u "")) [
            | inl blank ↦ rw blank (
                p v
                ∙ ap one_if (
                    absorbed (str_eq v "") (str_eq v iface) (str_eq v u) (uses v m.peers)
                      (λ h. ground (arith, eq_iff u "", eq_iff v u, eq_iff v "", blank, h)))
                ∙ ap (λ (es : List (Bytes × PeerEntry P)). one_if (is_relay v iface ((id, e) ∷ es)))
                    (sym (delete_absent id m.peers free)))
            | inr url ↦ rw url (
                get_or_create_proxy-IsPooled iface u m.peers (put id e m) p v
                ∙ ap one_if (
                    added (str_eq v "") (str_eq v iface) (str_eq v u) (uses v m.peers)
                      (λ h. ground (arith, eq_iff u "", eq_iff v u, eq_iff v "", url, h)))
                ∙ ap (λ (es : List (Bytes × PeerEntry P)). one_if (is_relay v iface ((id, e) ∷ es)))
                    (sym (delete_absent id m.peers free))
                ∙ ap (λ (es : List (Bytes × PeerEntry P)). one_if (is_relay v iface es))
                    (sym (peers-get_or_create_proxy u (put id e m))))
          ])
  ]

  pub register_each-IsPooled :
      (iface : String) (rs : List (Registration P)) (m : Manager P)
      → IsPooled iface m
      → IsPooled iface (register_each rs m)
  unfolding register_each
  register_each-IsPooled iface [] m p = p
  register_each-IsPooled iface (r ∷ rs) m p =
      register_each-IsPooled iface rs (register_peer r.id r.peer r.relay_url m).0
        (register_peer-IsPooled iface r.id r.peer r.relay_url m p)

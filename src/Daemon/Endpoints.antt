-- ===== src/Daemon/Endpoints.antt =====
-- cmd/malond/main.go: the endpoints that parseMionListenEndpoints gives.
use malon.Base.{
  bound-ok, ℕ, suc, ◌≤◌, ◌≡◌, ◌⊎◌, inl, inr, refl, ap, ◌∙◌, true, ◌||◌, List, [], ◌∷◌, Result, ok,
  err, Bool-cases, All, length, arith, if◌then◌else◌, ltb, ◌==◌, wrapping,
}
use malon.Base.Keys.{bytes_beq, bytes_beq_iff}
use malon.Words.{Text, trim_space, split_commas}
use malon.Daemon.{
  ℤ, pos, negsuc, ListenEndpoint, is_blank, Parsers, http2, http3, checked_port, checked_url,
  checked_protocol, parse_endpoint, and_rest, parse_entries, parse_mion_listen_endpoints,
}

-- A protocol that mion has, and a port that UDP and TCP have.
abbrev pub IsEndpoint : ListenEndpoint → Type 0
IsEndpoint x = ((x.protocol ≡ http2) ⊎ (x.protocol ≡ http3)) × (1 ≤ x.port) × (x.port ≤ 65535)

-- The entries of a list that are not blank.
abbrev pub entries_of : List Text → ℕ
entries_of [] = 0
entries_of (e ∷ es) = let rest = entries_of es in if is_blank (trim_space e) then rest else suc rest

checked_port-range : (r : Result ℤ) (n : ℕ) → checked_port r ≡ ok n → (1 ≤ n) × (n ≤ 65535)
checked_port-range (err e) n h = absurd (cc h)
checked_port-range (ok (negsuc k)) n h = absurd (cc h)
checked_port-range (ok (pos k)) n h = elim (Bool-cases (k == 0 || ltb 65535 k)) [
  | inl bad ↦ absurd (cc (rw bad at (h)))
  | inr fine ↦
      let same : ok k ≡ ok n = rw fine at (h) in
      let here : k ≡ n = cc same in rw (← here) (ground (arith, fine), ground (arith, fine))
]

checked_protocol-known :
    (t proto : Text) → checked_protocol t ≡ ok proto → (proto ≡ http2) ⊎ (proto ≡ http3)
checked_protocol-known t proto h = elim (Bool-cases (bytes_beq t http2)) [
  | inl two ↦
      let same : ok t ≡ ok proto = rw two at (h) in
      let here : t ≡ proto = cc same in inl (rw (← here) ((bytes_beq_iff t http2).0 two))
  | inr other ↦ elim (Bool-cases (bytes_beq t http3)) [
    | inl three ↦
        let same : ok t ≡ ok proto = rw (other, three) at (h) in
        let here : t ≡ proto = cc same in inr (rw (← here) ((bytes_beq_iff t http3).0 three))
    | inr neither ↦ absurd (cc (rw (other, neither) at (h)))
  ]
]

parse_endpoint-IsEndpoint :
    (p : Parsers) (e : Text) (x : ListenEndpoint) → parse_endpoint p e ≡ ok x → IsEndpoint x
unfolding parse_endpoint
parse_endpoint-IsEndpoint p e x h =
    let (url, _, h1) = bound-ok (checked_url (p.url_parse e)) _ x h in
    let (proto, known, h2) = bound-ok (checked_protocol (p.to_lower url.0)) _ x h1 in
    let (address, _, h3) =
      bound-ok (wrapping "invalid address in ListenPort" (p.split_host_port url.1)) _ x h2 in
    let (port, range, h4) = bound-ok (checked_port (p.atoi address.1)) _ x h3 in
    let same : record { protocol = proto; host = address.0; port = port } ≡ x = cc h4 in
    let (low, high) = checked_port-range (p.atoi address.1) port range in
    rw (← same) (checked_protocol-known (p.to_lower url.0) proto known, low, high)

and_rest-ok :
    (e : Result ListenEndpoint) (rest : Result (List ListenEndpoint)) (xs : List ListenEndpoint)
    → and_rest e rest ≡ ok xs
    → (x : ListenEndpoint) × (ys : List ListenEndpoint) × (e ≡ ok x)
      × (rest ≡ ok ys)
      × (x ∷ ys ≡ xs)
and_rest-ok (err e) rest xs h = absurd (cc h)
and_rest-ok (ok x) (err e) xs h = absurd (cc h)
and_rest-ok (ok x) (ok ys) xs h = (x, ys, refl, refl, cc h)

Endpoints : List Text → List ListenEndpoint → Type 0
Endpoints entries xs = All IsEndpoint xs × (length xs ≡ entries_of entries)

parse_entries-Endpoints :
    (p : Parsers) (entries : List Text) (xs : List ListenEndpoint)
    → parse_entries p entries ≡ ok xs
    → Endpoints entries xs
unfolding parse_entries Endpoints
parse_entries-Endpoints p [] xs h = let same : [] ≡ xs = cc h in rw (← same) (tt, refl)
parse_entries-Endpoints p (entry ∷ entries) xs h = elim (Bool-cases (is_blank (trim_space entry))) [
  | inl blank ↦
      let (all, count) = parse_entries-Endpoints p entries xs (rw blank at (h)) in
      (all, count ∙ rw blank refl)
  | inr word ↦
      let (x, ys, first, rest, same) =
        and_rest-ok (parse_endpoint p (trim_space entry)) (parse_entries p entries) xs
          (rw word at (h)) in
      let (all, count) = parse_entries-Endpoints p entries ys rest in
      rw (← same)
        ((parse_endpoint-IsEndpoint p (trim_space entry) x first, all), ap suc count ∙ rw word refl)
]

-- Each endpoint that parseMionListenEndpoints gives has one of the two protocols and a port from 1 to 65535, and
-- there is one for each entry between the commas that is not blank, unless the whole text is blank, which
-- gives none.
pub parse_mion_listen_endpoints_sound :
    (p : Parsers) (raw : Text) (xs : List ListenEndpoint)
    → parse_mion_listen_endpoints p raw ≡ ok xs
    → All IsEndpoint xs
      × (((is_blank (trim_space raw) ≡ true) × (xs ≡ []))
          ⊎ (length xs ≡ entries_of (split_commas raw)))
unfolding parse_mion_listen_endpoints Endpoints
parse_mion_listen_endpoints_sound p raw xs h = elim (Bool-cases (is_blank (trim_space raw))) [
  | inl blank ↦
      let same : ok [] ≡ ok xs = rw blank at (h) in
      let here : [] ≡ xs = cc same in rw (← here) (tt, inl (blank, refl))
  | inr some_text ↦
      let (all, count) = parse_entries-Endpoints p (split_commas raw) xs (rw some_text at (h)) in
      (all, inr count)
]

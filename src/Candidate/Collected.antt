-- ===== src/Candidate/Collected.antt =====
-- internal/candidate/candidate.go: which addresses are collected.
use malon.Base.{
  ℕ, ◌≡◌, ◌↔◌, refl, sym, ap, ◌∙◌, Bool, true, false, ◌||◌, not, All, Option, none, some, List, [],
  ◌∷◌, ◌++◌, Bytes, if◌then◌else◌, Bool-cases, inl, inr, ◌⊎◌,
}
use malon.Packet.{Addr, no_addr, v4, v6, Prefix, contains, allowed_ips_contains}
use malon.Packet.Filter.{Within, agree_iff}
use malon.Candidate.{
  Candidate, Interface, is_loopback, is_link_local_unicast, addr_from_slice, contained_in, embedded,
  not_excluded, usable, append_usable, collect_addrs, addrs_of, collect_embedded,
}

-- Does the list hold the element?
abbrev pub Holds : {A : Type 0} → A → List A → Type 0
Holds a [] = false ≡ true
Holds a (b ∷ bs) = (a ≡ b) ⊎ Holds a bs

-- The interface is up and no loopback, its addresses could be read, and this is one of them.
abbrev pub Offers : Bytes → Interface → Type 0
Offers ip i =
    (i.flag_up ≡ true)
    × (i.flag_loopback ≡ false)
    × ((as' : List (Option Bytes)) × (i.addrs ≡ some as') × Holds (some ip) as')

-- An interface that is up and no loopback has the address.
abbrev pub HasAddr : Bytes → List Interface → Type 0
HasAddr ip [] = false ≡ true
HasAddr ip (i ∷ is) = Offers ip i ⊎ HasAddr ip is

-- An address of a network: they agree in the first bits of the network.
abbrev pub IsIn : ℕ → Addr → Addr → Type 0
IsIn n (v4 a) (v4 b) = Within 32 n a b
IsIn n (v6 a) (v6 b) = Within 128 n a b
IsIn n (v4 a) (v6 b) = false ≡ true
IsIn n (v6 a) (v4 b) = false ≡ true
IsIn n (v4 a) no_addr = false ≡ true
IsIn n (v6 a) no_addr = false ≡ true
IsIn n no_addr b = false ≡ true

-- The address is in none of the networks.
abbrev pub IsOutside : List Prefix → Addr → Type 0
IsOutside exclude addr = All (λ p. ¬ IsIn p.bits p.addr addr) exclude

-- What the address is, and that no rule leaves it out.
abbrev pub IsUsable : List Prefix → Bytes → Addr → Type 0
IsUsable exclude ip addr =
    (is_loopback ip ≡ false)
    × (is_link_local_unicast ip ≡ false)
    × (addr_from_slice ip ≡ some addr)
    × IsOutside exclude addr

Holds-append :
    {A : Type 0} (a : A) (xs ys : List A) → Holds a (xs ++ ys) ↔ (Holds a xs ⊎ Holds a ys)
Holds-append a [] ys = (λ h. inr h, λ h. elim h [ inl i ↦ absurd (cc i) | inr j ↦ j ])
Holds-append a (x ∷ xs) ys =
    let ih = Holds-append a xs ys in
    (
      (λ h. elim h [
        | inl e ↦ inl (inl e)
        | inr k ↦ elim (ih.0 k) [ inl i ↦ inl (inr i) | inr j ↦ inr j ]
      ]),
      (λ h. elim h [
        | inl k ↦ elim k [ inl e ↦ inl e | inr i ↦ inr (ih.1 (inl i)) ]
        | inr j ↦ inr (ih.1 (inr j))
      ]),
    )

choice :
    (exclude : List Prefix) (addr : Addr) (l k : Bool) (o : Option Addr)
    → ((if l || k then none else not_excluded exclude o) ≡ some addr)
      ↔ ((l ≡ false) × (k ≡ false) × (o ≡ some addr) × (contained_in addr exclude ≡ false))
choice exclude addr true k o = (λ h. absurd (cc h), λ h. absurd (cc (h.0)))
choice exclude addr false true o = (λ h. absurd (cc h), λ h. absurd (cc (h.1)))
choice exclude addr false false none = (λ h. absurd (cc h), λ h. absurd (cc (h.2)))
choice exclude addr false false (some b) = elim (Bool-cases (contained_in b exclude)) [
  | inl e ↦ rw e (λ h. absurd (cc h), λ (_, _, q, f). absurd (cc (q, e, f)))
  | inr e ↦ rw e (λ h. (refl, refl, h, cc (h, e)), λ (_, _, q, f). q)
]

contains_iff : (n : ℕ) (a b : Addr) → (contains n a b ≡ true) ↔ IsIn n a b
contains_iff n (v4 a) (v4 b) = agree_iff 32 n a b
contains_iff n (v6 a) (v6 b) = agree_iff 128 n a b
contains_iff n (v4 a) (v6 b) = ((λ h. h), λ h. h)
contains_iff n (v6 a) (v4 b) = ((λ h. h), λ h. h)
contains_iff n (v4 a) no_addr = ((λ h. h), λ h. h)
contains_iff n (v6 a) no_addr = ((λ h. h), λ h. h)
contains_iff n no_addr b = ((λ h. h), λ h. h)

contained_in_iff :
    (addr : Addr) (ps : List Prefix) → (contained_in addr ps ≡ false) ↔ IsOutside ps addr
unfolding contained_in allowed_ips_contains
contained_in_iff addr [] = ((λ h. tt), λ h. refl)
contained_in_iff addr (p ∷ ps) =
    let here = contains_iff p.bits p.addr addr in
    let rest = contained_in_iff addr ps in
    elim (Bool-cases (contains p.bits p.addr addr)) [
      | inl inside ↦ rw inside ((λ h. absurd (cc h)), λ (out, _). absurd (out (here.0 inside)))
      | inr out ↦ rw out ((λ h. ((λ y. cc (out, here.1 y)), rest.0 h)), λ (_, hs). rest.1 hs)
    ]

usable_iff :
    (exclude : List Prefix) (ip : Bytes) (addr : Addr)
    → (usable exclude (some ip) ≡ some addr) ↔ IsUsable exclude ip addr
usable_iff exclude ip addr =
    let both =
      choice exclude addr (is_loopback ip) (is_link_local_unicast ip) (addr_from_slice ip) in
    let out = contained_in_iff addr exclude in
    (
      (λ h. let (l, k, o, x) = both.0 h in (l, k, o, out.0 x)),
      λ (l, k, o, x). both.1 (l, k, o, out.1 x),
    )

addrs_of_iff : (ip : Bytes) (i : Interface) → Holds (some ip) (addrs_of i) ↔ Offers ip i
addrs_of_iff ip i = by_flags i.flag_up i.flag_loopback i.addrs
  where
    by_flags :
        (up loopback : Bool) (o : Option (List (Option Bytes)))
        → Holds
            (some ip)
            (if loopback || not up then [] else (elim o [ none ↦ [] | some as' ↦ as' ]))
          ↔ ((up ≡ true)
              × (loopback ≡ false)
              × ((as' : List (Option Bytes)) × (o ≡ some as') × Holds (some ip) as'))
    by_flags up true o = ((λ h. absurd (cc h)), λ (_, h, _). absurd (cc h))
    by_flags false false o = ((λ h. absurd (cc h)), λ (h, _, _). absurd (cc h))
    by_flags true false none = ((λ h. absurd (cc h)), λ (_, _, (_, h, _)). absurd (cc h))
    by_flags true false (some as') = (
      (λ h. (refl, refl, (as', refl, h))),
      λ (_, _, (bs, e, h)). let same : bs ≡ as' = cc e in rw same at (h),
    )

module _ (port generation : ℕ) (exclude : List Prefix) where
  -- The candidate that an address gives.
  abbrev Gives : Candidate → Bytes → Type 0
  Gives c ip = IsUsable exclude ip c.addr × (c ≡ embedded port generation c.addr)

  append_usable_iff :
      (c : Candidate) (o : Option Addr) (rest : List Candidate)
      → Holds c (append_usable port generation o rest)
        ↔ (((o ≡ some c.addr) × (c ≡ embedded port generation c.addr)) ⊎ Holds c rest)
  append_usable_iff c none rest = (λ h. inr h, λ h. elim h [ inl i ↦ absurd (cc i.0) | inr j ↦ j ])
  append_usable_iff c (some addr) rest = (λ h. there h, λ h. back h)
    where
      there :
          Holds c (embedded port generation addr ∷ rest)
          → ((some addr ≡ some c.addr) × (c ≡ embedded port generation c.addr)) ⊎ Holds c rest
      there (inl e) =
          let q : c.addr ≡ addr = ap (λ (d : Candidate). d.addr) e in
          inl (ap some (sym q), e ∙ ap (embedded port generation) (sym q))
      there (inr h) = inr h

      back :
          ((some addr ≡ some c.addr) × (c ≡ embedded port generation c.addr)) ⊎ Holds c rest
          → Holds c (embedded port generation addr ∷ rest)
      back (inl (e, f)) =
          let q : addr ≡ c.addr = cc e in inl (f ∙ ap (embedded port generation) (sym q))
      back (inr h) = inr h

  collect_addrs_sound :
      (c : Candidate) (as' : List (Option Bytes))
      → Holds c (collect_addrs port generation exclude as')
      → (ip : Bytes) × Holds (some ip) as' × Gives c ip
  unfolding collect_addrs
  collect_addrs_sound c [] h = absurd (cc h)
  collect_addrs_sound c (a ∷ as') h =
      elim ((append_usable_iff c (usable exclude a) (collect_addrs port generation exclude as')).0
        h) [
          | inr later ↦
              let (ip, there, gives) = collect_addrs_sound c as' later in (ip, inr there, gives)
          | inl now ↦ this a now.0 now.1
        ]
    where
      this :
          (a : Option Bytes)
          → usable exclude a ≡ some c.addr
          → c ≡ embedded port generation c.addr
          → (ip : Bytes) × Holds (some ip) (a ∷ as') × Gives c ip
      this none e f = absurd (cc e)
      this (some ip) e f = (ip, inl refl, ((usable_iff exclude ip c.addr).0 e, f))

  collect_addrs_complete :
      (c : Candidate) (ip : Bytes) (as' : List (Option Bytes))
      → Holds (some ip) as'
      → Gives c ip
      → Holds c (collect_addrs port generation exclude as')
  unfolding collect_addrs
  collect_addrs_complete c ip [] h g = absurd (cc h)
  collect_addrs_complete c ip (a ∷ as') (inl e) (u, f) =
      (append_usable_iff c (usable exclude a) (collect_addrs port generation exclude as')).1
        (inl (ap (usable exclude) (sym e) ∙ (usable_iff exclude ip c.addr).1 u, f))
  collect_addrs_complete c ip (a ∷ as') (inr h) g =
      (append_usable_iff c (usable exclude a) (collect_addrs port generation exclude as')).1
        (inr (collect_addrs_complete c ip as' h g))

  -- CollectEmbedded gives a candidate exactly for each address of an interface that is up and no
  -- loopback, if the address is neither a loopback nor a link-local one and in none of the excluded
  -- networks; the candidate has the port and the generation that were asked for, and is idle.
  pub collect_embedded_iff :
      (c : Candidate) (ifaces : List Interface)
      → Holds c (collect_embedded port generation exclude ifaces) ↔ (
          (ip : Bytes) × HasAddr ip ifaces
          × IsUsable exclude ip c.addr
          × (c ≡ embedded port generation c.addr))
  unfolding collect_embedded
  collect_embedded_iff c [] = (λ h. absurd (cc h), λ (ip, h, _, _). h)
  collect_embedded_iff c (i ∷ is) =
      let ih = collect_embedded_iff c is in
      let both =
        Holds-append c (collect_addrs port generation exclude (addrs_of i))
          (collect_embedded port generation exclude is) in
      (
        (λ h. elim (both.0 h) [
          | inl here ↦
              let (ip, there, (u, f)) = collect_addrs_sound c (addrs_of i) here in
              (ip, inl ((addrs_of_iff ip i).0 there), u, f)
          | inr later ↦ let (ip, has, u, f) = ih.0 later in (ip, inr has, u, f)
        ]),
        (λ (ip, has, u, f). elim has [
          | inl there ↦
              both.1 (
                inl (collect_addrs_complete c ip (addrs_of i) ((addrs_of_iff ip i).1 there) (u, f)))
          | inr later ↦ both.1 (inr (ih.1 (ip, later, u, f)))
        ]),
      )

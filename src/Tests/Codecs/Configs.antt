-- ===== src/Tests/Codecs/Configs.antt =====
-- The file of a configuration, written and read.
use malon.Base.{
  ℕ, replicate, zero, suc, ◌+◌, ◌-◌, ◌≤◌, ◌≡◌, refl, ap, ◌∙◌, List, [], ◌∷◌, some, none, Result, ok,
  err, errorf, map, All, true, arith, inr,
}
use malon.Packet.{Prefix, Addr, no_addr, v4, v6}
use malon.Words.{Text, codes}
use malon.Config.{Config, load, empty_interface, role_proxy}
use malon.Config.Lines.{IsPlain}
use malon.Config.Printed.{Texts, IsPrefix, IsPrefixChar}
use malon.Config.ReadBack.{file_of}
use malon.Config.RoundTrip.{load-file_of}
use malon.Tests.Files.{lower}

lower-same : (s : Text) → All (λ c. (97 ≤ c) × (c ≤ 122)) s → lower s ≡ s
lower-same [] a = refl
lower-same (c ∷ s) ((above, below), a) = rw (lower-same s a) (ground arith)

-- Characters past those of white space stand for numbers.
abbrev written : List ℕ → Text
written = map (λ (x : ℕ). x + 20000)

abbrev numbers : Text → List ℕ
numbers = map (λ (c : ℕ). c - 20000)

numbers-written : (xs : List ℕ) → numbers (written xs) ≡ xs
numbers-written [] = refl
numbers-written (x ∷ xs) =
    let here : x + 20000 - 20000 ≡ x = omega arith in rw (here, numbers-written xs) refl

written_chars : (xs : List ℕ) → All IsPrefixChar (written xs)
written_chars [] = tt
written_chars (x ∷ xs) = ((ground arith, ground arith, ground arith), written_chars xs)

abbrev numbers_of : Prefix → List ℕ
numbers_of p = elim p.addr [
  | no_addr ↦ 0 ∷ p.bits ∷ []
  | v4 b ↦ 1 ∷ p.bits ∷ b
  | v6 b ↦ 2 ∷ p.bits ∷ b
]

abbrev prefix_of : List ℕ → Result Prefix
prefix_of (zero ∷ n ∷ b) = ok (record { addr = no_addr; bits = n })
prefix_of (suc zero ∷ n ∷ b) = ok (record { addr = v4 b; bits = n })
prefix_of (suc (suc zero) ∷ n ∷ b) = ok (record { addr = v6 b; bits = n })
prefix_of b = err (errorf "no prefix")

prefix_of-numbers_of :
    (a : Addr) (n : ℕ)
    → prefix_of (numbers_of (record { addr = a; bits = n })) ≡ ok (record { addr = a; bits = n })
prefix_of-numbers_of no_addr n = refl
prefix_of-numbers_of (v4 b) n = refl
prefix_of-numbers_of (v6 b) n = refl

abbrev texts : Texts
texts = record {
  parse_prefix = λ s. prefix_of (numbers s);
  print_prefix = λ p. written (numbers_of p);
  to_lower = lower;
  parse-print =
      λ p v. ap prefix_of (numbers-written (numbers_of p)) ∙ prefix_of-numbers_of p.addr p.bits;
  prefix_chars = λ p v. written_chars (numbers_of p);
  lower_same = lower-same;
}

abbrev net : Prefix
net = record { addr = v4 (10 ∷ 0 ∷ 0 ∷ 0 ∷ []); bits = 8 }

-- A proxy with two peers, one of them with two networks
abbrev two_peers : Config
two_peers = record {
  interface = record empty_interface {
    private_key = codes "c2VjcmV0";
    address = some net;
    role = role_proxy;
    insecure_skip_verify = true;
  };
  peers =
      record {
        public_key = codes "a2V5";
        relay = codes "https://relay:443";
        allowed_ips = net ∷ record { addr = v6 (replicate 16 0); bits = 1 } ∷ [];
      }
      ∷ record { public_key = []; relay = []; allowed_ips = [] }
      ∷ [];
}

empty-IsPlain : IsPlain []
empty-IsPlain = record { left = refl; right = refl; whole = refl }

net-IsPrefix : IsPrefix net
net-IsPrefix = ((refl, omega arith), omega arith)

load-file_of_example :
    load texts.parse_prefix texts.to_lower (ok tt) (file_of texts two_peers) none ≡ ok two_peers
load-file_of_example =
    load-file_of texts two_peers
      (
        inr (inr refl),
        net-IsPrefix,
        record { left = refl; right = refl; whole = refl },
        empty-IsPlain,
        empty-IsPlain,
        empty-IsPlain,
      )
      (
        (
          record { left = refl; right = refl; whole = refl },
          record { left = refl; right = refl; whole = refl },
          (net-IsPrefix, (((refl, omega arith), omega arith), tt)),
        ),
        ((empty-IsPlain, empty-IsPlain, tt), tt),
      )

-- ===== src/Tests/Codecs.antt =====
-- Concrete instances for the packages that the program uses, with texts and numbers written out one by one.
pub mod Peers
pub mod Probes
pub mod Starts
pub mod Configs
pub mod Listeners
pub mod Exchanges
use Prim.Native.Char.{Char, char, code, IsLt, IsScalar}
use Prim.Native.Nat.{Ordering, compare}
use malon.Base.{
  ℕ, zero, suc, ◌+◌, ◌≡◌, ◌<◌, ◌^◌, refl, ap, ◌∙◌, sym, Bool, true, false, Option, none, some, List,
  [], ◌∷◌, ◌++◌, Bytes, String, errorf, Result, ok, err, length, take, replicate, ◌==◌, arith,
  if◌then◌else◌, append_assoc, length-take, length-append, length-replicate,
}
use malon.Packet.{Addr, no_addr, v4, v6}
use malon.Identity.{Crypto, Certificate, PublicKey, ed25519}
use malon.Control.{CandidateInfo, Message, Json, Netip, IsAddr}

-- A number as that many letters and a comma.
letters : ℕ → String → String
letters zero s = String.◌∷◌ (char 44 tt) s
letters (suc n) s = String.◌∷◌ (char 97 tt) (letters n s)

text_of : Bytes → String
unfolding letters
text_of [] = ""
text_of (b ∷ bs) = letters b (text_of bs)

counted : ℕ → String → Bytes
counted n String.[] = []
counted n (String.◌∷◌ c s) = if code c == 97 then counted (suc n) s else n ∷ counted 0 s

counted-letters : (n k : ℕ) (s : String) → counted k (letters n s) ≡ (n + k) ∷ counted 0 s
unfolding counted letters
counted-letters zero k s = ap (λ x. x ∷ counted 0 s) (omega arith)
counted-letters (suc n) k s = counted-letters n (suc k) s ∙ ap (λ x. x ∷ counted 0 s) (omega arith)

counted-text_of : (b : Bytes) → counted 0 (text_of b) ≡ b
unfolding counted text_of
counted-text_of [] = refl
counted-text_of (b ∷ bs) =
    counted-letters b 0 (text_of bs)
    ∙ ap (λ x. x ∷ counted 0 (text_of bs)) (omega arith)
    ∙ ap (λ x. b ∷ x) (counted-text_of bs)

length-padded : (b : Bytes) → length (take 32 (b ++ replicate 32 0)) ≡ 32
length-padded b = omega (
  arith,
  length-take 32 (b ++ replicate 32 0),
  length-append b (replicate 32 0),
  length-replicate {A = ℕ} 32 0,
)

same_key :
    (pub_key der : Bytes)
    → ok pub_key ≡ ok der
    → ◌≡◌ {A = Result Certificate}
        (ok (record { public_key = ed25519 der }))
        (ok (record { public_key = ed25519 pub_key }))
same_key pub_key der h = cc h

-- A hash that only pads, a private key that is its own public key, and a certificate that is its key.
instance abbrev plain : Crypto
unfolding counted text_of
plain = record {
  sum256 = λ b. take 32 (b ++ replicate 32 0);
  public_of = λ priv. priv;
  create_certificate = λ t pub_key priv. ok pub_key;
  parse_certificate = λ der. ok (record { public_key = ed25519 der });
  encode_to_string = text_of;
  decode_string = λ s. ok (counted 0 s);
  length-sum256 = length-padded;
  parse-create = λ t pub_key priv der h. same_key pub_key der h;
  decode-encode = λ b. ap ok (counted-text_of b);
}

-- The character of a number, if there is one.
abbrev Both : Ordering → Ordering → Type 0
Both Ordering.lt o = IsLt o
Both Ordering.eq _ = ⊥
Both Ordering.gt _ = ⊥

abbrev Scalar : Ordering → Ordering → Ordering → Type 0
Scalar Ordering.lt _ _ = Unit
Scalar Ordering.eq o p = Both o p
Scalar Ordering.gt o p = Both o p

is_less : (o : Ordering) → Option (IsLt o)
is_less Ordering.lt = some tt
is_less Ordering.eq = none
is_less Ordering.gt = none

are_both : (o p : Ordering) → Option (Both o p)
are_both Ordering.lt p = is_less p
are_both Ordering.eq p = none
are_both Ordering.gt p = none

is_scalar : (o p q : Ordering) → Option (Scalar o p q)
is_scalar Ordering.lt p q = some tt
is_scalar Ordering.eq p q = are_both p q
is_scalar Ordering.gt p q = are_both p q

is_less-some : (o : Ordering) (h : IsLt o) → is_less o ≡ some h
unfolding is_less
is_less-some Ordering.lt h = refl
is_less-some Ordering.eq h = absurd h
is_less-some Ordering.gt h = absurd h

are_both-some : (o p : Ordering) (h : Both o p) → are_both o p ≡ some h
unfolding are_both
are_both-some Ordering.lt p h = is_less-some p h
are_both-some Ordering.eq p h = absurd h
are_both-some Ordering.gt p h = absurd h

is_scalar-some : (o p q : Ordering) (h : Scalar o p q) → is_scalar o p q ≡ some h
unfolding is_scalar
is_scalar-some Ordering.lt p q h = refl
is_scalar-some Ordering.eq p q h = are_both-some p q h
is_scalar-some Ordering.gt p q h = are_both-some p q h

map_char : (n : ℕ) → Option (IsScalar n) → Option Char
map_char n none = none
map_char n (some h) = some (char n h)

char_of : ℕ → Option Char
char_of n = map_char n (is_scalar (compare n 55296) (compare 57343 n) (compare n 1114112))

char_of-code : (c : Char) → char_of (code c) ≡ some c
unfolding char_of map_char
char_of-code (char n h) =
    ap (map_char n) (is_scalar-some (compare n 55296) (compare 57343 n) (compare n 1114112) h)

-- A text as its characters' numbers plus one, and a zero.
put_text : String → Bytes → Bytes
put_text String.[] rest = 0 ∷ rest
put_text (String.◌∷◌ c s) rest = suc (code c) ∷ put_text s rest

abbrev prepend : Option Char → Option (String × Bytes) → Option (String × Bytes)
prepend none r = none
prepend (some c) none = none
prepend (some c) (some (s, rest)) = some (String.◌∷◌ c s, rest)

get_text : Bytes → Option (String × Bytes)
get_text [] = none
get_text (zero ∷ rest) = some ("", rest)
get_text (suc n ∷ bs) = prepend (char_of n) (get_text bs)

get_text-put_text : (s : String) (rest : Bytes) → get_text (put_text s rest) ≡ some (s, rest)
unfolding get_text put_text
get_text-put_text String.[] rest = refl
get_text-put_text (String.◌∷◌ c s) rest = rw (char_of-code c, get_text-put_text s rest) refl

put_infos : List CandidateInfo → Bytes
put_infos [] = []
put_infos (ci ∷ cis) = put_text ci.kind (put_text ci.addr (put_infos cis))

abbrev with_info : String → String → Option (List CandidateInfo) → Option (List CandidateInfo)
with_info k a none = none
with_info k a (some cis) = some (record { kind = k; addr = a } ∷ cis)

get_infos : ℕ → Bytes → Option (List CandidateInfo)
get_infos zero bs = some []
get_infos (suc n) bs = elim (get_text bs) [
  | none ↦ none
  | some (k, bs') ↦ elim (get_text bs') [
    | none ↦ none
    | some (a, bs'') ↦ with_info k a (get_infos n bs'')
  ]
]

get_infos-put_infos : (cis : List CandidateInfo) → get_infos (length cis) (put_infos cis) ≡ some cis
unfolding get_infos put_infos
get_infos-put_infos [] = refl
get_infos-put_infos (ci ∷ cis) =
    rw
      (
        get_text-put_text ci.kind (put_text ci.addr (put_infos cis)),
        get_text-put_text ci.addr (put_infos cis),
        get_infos-put_infos cis,
        get_infos,
      )
      refl

abbrev message_of : ℕ → String → Option (List CandidateInfo) → Result Message
message_of g t none = err (errorf "bad candidates")
message_of g t (some cis) = ok (record { msg_type = t; generation = g; candidates = cis })

abbrev put_message : Message → Bytes
put_message msg =
    msg.generation ∷ length msg.candidates ∷ put_text msg.msg_type (put_infos msg.candidates)

get_message : Bytes → Result Message
get_message (g ∷ n ∷ bs) = elim (get_text bs) [
  | none ↦ err (errorf "bad type")
  | some (t, rest) ↦ message_of g t (get_infos n rest)
]
get_message [] = err (errorf "short")
get_message (g ∷ []) = err (errorf "short")

get_message-put_message : (msg : Message) → get_message (put_message msg) ≡ ok msg
unfolding get_message
get_message-put_message msg =
    rw
      (
        get_text-put_text msg.msg_type (put_infos msg.candidates),
        get_infos-put_infos msg.candidates,
        get_message,
      )
      refl

instance abbrev numbers_json : Json
unfolding get_message put_text put_infos
numbers_json = record {
  marshal = λ msg. ok (put_message msg);
  unmarshal = get_message;
  unmarshal-marshal = λ msg l. (put_message msg, refl, get_message-put_message msg);
}

abbrev put_addr : Addr → ℕ → Bytes
put_addr no_addr port = []
put_addr (v4 b) port = 4 ∷ port ∷ b
put_addr (v6 b) port = 6 ∷ port ∷ b

abbrev get_addr : Bytes → Option (Addr × ℕ)
get_addr [] = none
get_addr (k ∷ []) = none
get_addr (k ∷ port ∷ b) = if k == 4 then some (v4 b, port) else some (v6 b, port)

get_addr-put_addr :
    (addr : Addr) (port : ℕ) → IsAddr addr → get_addr (put_addr addr port) ≡ some (addr, port)
get_addr-put_addr no_addr port h = absurd (cc h)
get_addr-put_addr (v4 b) port h = refl
get_addr-put_addr (v6 b) port h = refl

instance abbrev letters_netip : Netip
unfolding counted text_of
letters_netip = record {
  parse_addr_port = λ s. get_addr (counted 0 s);
  addr_port_string = λ addr port. text_of (put_addr addr port);
  parse_addr_port-addr_port_string = λ addr port h l.
      ap get_addr (counted-text_of (put_addr addr port)) ∙ get_addr-put_addr addr port h;
}

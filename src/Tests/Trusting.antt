-- ===== src/Tests/Trusting.antt =====
-- A directory of certificates, with texts kept as the numbers of their characters.
use Prim.Native.Char.{char, code, IsLt}
use Prim.Native.Nat.{Ordering, compare}
use lan_send.Base.{
  zero, suc, ◌≡◌, refl, ap, sym, ◌∙◌, String, Option, some, none, true, List, [], ◌∷◌, ◌++◌, map,
  append-nil, append_assoc,
}
use lan_send.Message.{Bytes}
use lan_send.Hasher.{to_hex, hex_byte, hex_digit}
use lan_send.Tests.Toy.{identity_digest}
use lan_send.Certificates.{TrustCodec, calculate_certificate_hash, is_complete, construct}
use lan_send.Certificates.Trusted.{Reads, AreTexts}
use lan_send.Certificates.Stored.{Keeps}
use lan_send.Certificates.Sessions.{Call, run, sessions, sessions-Keeps}
use lan_send.Certificates.FirstStart.{made_context}

-- The three comparisons of `IsScalar`, decided.
abbrev BothLt : Ordering → Ordering → Type 0
BothLt Ordering.lt o = IsLt o
BothLt Ordering.eq o = ⊥
BothLt Ordering.gt o = ⊥

abbrev Scalar : Ordering → Ordering → Ordering → Type 0
Scalar Ordering.lt o p = Unit {0}
Scalar Ordering.eq o p = BothLt o p
Scalar Ordering.gt o p = BothLt o p

abbrev is_lt? : (o : Ordering) → Option (IsLt o)
is_lt? Ordering.lt = some tt
is_lt? Ordering.eq = none
is_lt? Ordering.gt = none

abbrev both_lt? : (o p : Ordering) → Option (BothLt o p)
both_lt? Ordering.lt o = is_lt? o
both_lt? Ordering.eq o = none
both_lt? Ordering.gt o = none

abbrev scalar? : (o p q : Ordering) → Option (Scalar o p q)
scalar? Ordering.lt p q = some tt
scalar? Ordering.eq p q = both_lt? p q
scalar? Ordering.gt p q = both_lt? p q

is_lt_known : (o : Ordering) (h : IsLt o) → is_lt? o ≡ some h
is_lt_known Ordering.lt h = refl
is_lt_known Ordering.eq h = absurd h
is_lt_known Ordering.gt h = absurd h

both_known : (o p : Ordering) (h : BothLt o p) → both_lt? o p ≡ some h
both_known Ordering.lt p h = is_lt_known p h
both_known Ordering.eq p h = absurd h
both_known Ordering.gt p h = absurd h

scalar_known : (o p q : Ordering) (h : Scalar o p q) → scalar? o p q ≡ some h
scalar_known Ordering.lt p q h = refl
scalar_known Ordering.eq p q h = both_known p q h
scalar_known Ordering.gt p q h = both_known p q h

abbrev pub encode : String → Bytes
encode String.[] = []
encode (String.◌∷◌ c s) = code c ∷ encode s

abbrev pub decode : Bytes → String
decode [] = String.[]
decode (n ∷ ns) = elim (scalar? (compare n 55296) (compare 57343 n) (compare n 1114112)) [
  | none ↦ decode ns
  | some h ↦ String.◌∷◌ (char n h) (decode ns)
]

pub decode-encode : (s : String) → decode (encode s) ≡ s
decode-encode String.[] = refl
decode-encode (String.◌∷◌ (char n h) s) =
    rw (decode, scalar_known (compare n 55296) (compare 57343 n) (compare n 1114112) h)
      (ap (String.◌∷◌ (char n h)) (decode-encode s))

-- Each text is shifted by one and closed by a zero.
abbrev pub join : List Bytes → Bytes
join [] = []
join (b ∷ bs) = map suc b ++ (0 ∷ join bs)

abbrev pub split : Bytes → Bytes → List Bytes
split acc [] = []
split acc (zero ∷ rest) = acc ∷ split [] rest
split acc (suc n ∷ rest) = split (acc ++ n ∷ []) rest

split-front :
    (b acc rest : Bytes) → split acc (map suc b ++ (0 ∷ rest)) ≡ (acc ++ b) ∷ split [] rest
split-front [] acc rest = ap (λ x. x ∷ split [] rest) (sym (append-nil acc))
split-front (n ∷ b) acc rest =
    split-front b (acc ++ n ∷ []) rest ∙ ap (λ x. x ∷ split [] rest) (append_assoc acc (n ∷ []) b)

pub split-join : (bs : List Bytes) → split [] (join bs) ≡ bs
split-join [] = refl
split-join (b ∷ bs) = split-front b [] (join bs) ∙ ap (λ x. b ∷ x) (split-join bs)

abbrev first_text : List Bytes → Option String
first_text [] = none
first_text (b ∷ bs) = some (decode b)

abbrev codec : TrustCodec
codec = record {
  Doc = List Bytes;
  parse = λ b. some (split [] b);
  elements = λ doc. some (map (λ b. b ∷ []) doc);
  text = first_text;
  dump = λ fs. some (join (map encode fs));
  encode = encode;
  decode = decode;
}

texts_of : (fs : List String) → AreTexts codec (map (λ b. b ∷ []) (map encode fs)) fs
texts_of [] = tt
texts_of (f ∷ fs) = (ap some (decode-encode f), texts_of fs)

reads : Reads codec
reads = record {
  saved = λ fs. (
    join (map encode fs),
    map encode fs,
    map (λ b. b ∷ []) (map encode fs),
    refl,
    ap some (split-join (map encode fs)),
    refl,
    texts_of fs,
  );
  decode-encode = decode-encode;
}

abbrev made : Bytes × (Bytes × Bytes)
made = (1 ∷ [], (2 ∷ [], 3 ∷ []))

made_complete :
    is_complete identity_digest codec
      (λ name. true)
      (made_context identity_digest codec (λ name. true) made)
    ≡ true
unfolding calculate_certificate_hash to_hex hex_byte hex_digit
made_complete = refl

abbrev first_calls : List Call
first_calls = Call.trusts "ab" ∷ Call.verifies (some (9 ∷ [])) ∷ []

abbrev later_calls : List (List Call)
later_calls = (Call.certifies (8 ∷ []) ∷ []) ∷ [] ∷ []

sessions-Keeps_example :
    let w = λ (name : String). true in
    let m =
      run identity_digest codec w first_calls (construct identity_digest codec w (some made) []) in
    (m.security_context ≡ made_context identity_digest codec w made)
    × Keeps identity_digest codec w m (sessions identity_digest codec w none later_calls m)
sessions-Keeps_example =
    sessions-Keeps identity_digest codec (λ name. true) reads (λ name. refl) made none first_calls
      later_calls made_complete

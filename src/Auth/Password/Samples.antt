-- ===== src/Auth/Password/Samples.antt =====
-- Test data: a unary code in place of base64, and a key that repeats the length of the password in
-- place of Argon2id.
use amarre.Base.{
  ℕ, zero, suc, ◌≤◌, ◌≡◌, refl, ap, true, false, not, String, Option, none, some, [], ◌∷◌, arith,
  length, is_code, every, count_of,
}
use amarre.Auth.Totp.{Bytes}
use amarre.Auth.Password.{Kdf}

abbrev pub unary : ℕ → String → String
unary zero tail = String.◌∷◌ "b" tail
unary (suc n) tail = String.◌∷◌ "a" (unary n tail)

abbrev pub encode_unary : Bytes → String
encode_unary [] = ""
encode_unary (n ∷ ns) = unary n (encode_unary ns)

abbrev pub bump : Option Bytes → Option Bytes
bump (some (n ∷ ns)) = some (suc n ∷ ns)
bump _ = none

abbrev pub next : Option Bytes → Option Bytes
next none = none
next (some ns) = some (zero ∷ ns)

abbrev pub decode_unary : String → Option Bytes
decode_unary String.[] = some []
decode_unary (String.◌∷◌ c s) = elim (is_code b'b' c) [
  | true ↦ next (decode_unary s)
  | false ↦ bump (decode_unary s)
]

decode-unary :
    (n : ℕ) (s : String) (ns : Bytes)
    → decode_unary s ≡ some ns
    → decode_unary (unary n s) ≡ some (n ∷ ns)
decode-unary zero s ns h = ap next h
decode-unary (suc n) s ns h = ap bump (decode-unary n s ns h)

pub decode-encode : (ns : Bytes) → decode_unary (encode_unary ns) ≡ some ns
decode-encode [] = refl
decode-encode (n ∷ ns) = decode-unary n (encode_unary ns) ns (decode-encode ns)

plain-unary :
    (n : ℕ) (s : String)
    → every (λ c. not (is_code b'$' c)) s ≡ true
    → every (λ c. not (is_code b'$' c)) (unary n s) ≡ true
plain-unary zero s h = h
plain-unary (suc n) s h = plain-unary n s h

pub plain-encode : (ns : Bytes) → every (λ c. not (is_code b'$' c)) (encode_unary ns) ≡ true
plain-encode [] = refl
plain-encode (n ∷ ns) = plain-unary n (encode_unary ns) (plain-encode ns)

abbrev pub repeated : ℕ → ℕ → Bytes
repeated zero b = []
repeated (suc n) b = b ∷ repeated n b

length-repeated : (n b : ℕ) → length (repeated n b) ≡ n
length-repeated zero b = refl
length-repeated (suc n) b = ap suc (length-repeated n b)

abbrev pub simple_key : String → Bytes → ℕ → ℕ → ℕ → ℕ → Option Bytes
simple_key password salt zero memory threads size = none
simple_key password salt (suc passes) memory zero size = none
simple_key password salt (suc passes) memory (suc threads) size =
    some (repeated size (count_of password))

pub simple_key-length :
    (password : String) (salt : Bytes) (passes memory threads size : ℕ)
    → 1 ≤ passes
    → 1 ≤ threads
    → (key : Bytes) × (simple_key password salt passes memory threads size ≡ some key)
      × (length key ≡ size)
simple_key-length password salt zero memory threads size h i = absurd (omega (arith, h))
simple_key-length password salt (suc passes) memory zero size h i = absurd (omega (arith, i))
simple_key-length password salt (suc passes) memory (suc threads) size h i =
    (repeated size (count_of password), refl, length-repeated size (count_of password))

abbrev pub simple : Kdf
simple = record {
  encode = encode_unary;
  decode = decode_unary;
  id_key = simple_key;
  version = 19;
  decode_encode = decode-encode;
  encode_plain = plain-encode;
  id_key_length = simple_key-length;
  version_small = omega arith;
}

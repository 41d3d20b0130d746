-- ===== src/Auth/Password/RoundTrip.antt =====
-- A password that was hashed, verified.
use text.Mathlib.TextLemmas.{nil-append, cons-append, append_assoc, append-nil}
use amarre.Base.{
  ℕ, ◌<◌, ◌^◌, ◌≡◌, ◌↔◌, refl, sym, ap, ◌∙◌, true, not, String, Option, some, [], ◌∷◌, arith, ◌<>◌,
  is_code, is_digit, lacks, every_weaken, every-append, every-decimal, split_at, split_at-piece,
  split_at-lacks, pos, decimal, sscanf, scan_int, scan_int-decimal, concat, length,
}
use amarre.Auth.Totp.{Bytes, same_bytes}
use amarre.Auth.Totp.Accepts.{same_bytes_iff}
use amarre.Auth.Password.{
  Kdf, hashed, hash_password, encoded_form, Verified, judged, version_format, verify_password,
  argon_memory, argon_time, argon_threads, argon_key_len,
}

glue : (a b t : String) → a <> (b <> t) ≡ (a <> b) <> t
glue a b t = sym (append_assoc a b t)

-- The part of the costs, with what stands after it.
costs_written :
    (t : String)
    → "$m=" <> ("65536" <> (",t=" <> ("3" <> (",p=" <> ("4" <> ("$" <> t))))))
      ≡ String.◌∷◌ "$" ("m=65536,t=3,p=4" <> String.◌∷◌ "$" t)
costs_written t =
    rw
      (
        glue ",p=" "4" ("$" <> t),
        glue "3" ",p=4" ("$" <> t),
        glue ",t=" "3,p=4" ("$" <> t),
        glue "65536" ",t=3,p=4" ("$" <> t),
        glue "$m=" "65536,t=3,p=4" ("$" <> t),
        cons-append "$" "" t,
        nil-append t,
      )
      (cons-append "$" "m=65536,t=3,p=4" (String.◌∷◌ "$" t))

version_written :
    (v t : String)
    → "$argon2id$v=" <> (v <> t) ≡ String.◌∷◌ "$" ("argon2id" <> String.◌∷◌ "$" (("v=" <> v) <> t))
version_written v t = sym (
    ap (λ s. String.◌∷◌ "$" ("argon2id" <> String.◌∷◌ "$" s)) (append_assoc "v=" v t)
    ∙ ap (λ s. String.◌∷◌ "$" ("argon2id" <> s)) (sym (cons-append "$" "v=" (v <> t)))
    ∙ ap (λ s. String.◌∷◌ "$" s) (glue "argon2id" "$v=" (v <> t))
    ∙ sym (cons-append "$" "argon2id$v=" (v <> t)))

version_lacks : (n : ℕ) → lacks b'$' ("v=" <> decimal (pos n)) ≡ true
version_lacks n = rw (every-append (λ c. not (is_code b'$' c)) "v=" (decimal (pos n))) (
    every_weaken is_digit (λ c. not (is_code b'$' c)) (decimal (pos n)) (λ c h. ground (arith, h))
      (every-decimal n))

-- The encoded form, from its first separator to its last.
form_written :
    (v salt key : String)
    → concat (
        "$argon2id$v=" ∷ v ∷ "$m=" ∷ "65536" ∷ ",t=" ∷ "3" ∷ ",p=" ∷ "4" ∷ "$" ∷ salt ∷ "$" ∷ key
        ∷ [])
      ≡ String.◌∷◌ "$" (
          "argon2id"
          <> String.◌∷◌ "$" (
              ("v=" <> v)
              <> String.◌∷◌ "$" ("m=65536,t=3,p=4" <> String.◌∷◌ "$" (salt <> String.◌∷◌ "$" key))))
form_written v salt key =
    ap (λ s. "$argon2id$v=" <> (v <> s)) (costs_written (salt <> ("$" <> key)))
    ∙ ap
        (λ s.
          "$argon2id$v=" <> (v <> String.◌∷◌ "$" ("m=65536,t=3,p=4" <> String.◌∷◌ "$" (salt <> s))))
        (cons-append "$" "" key ∙ ap (λ s. String.◌∷◌ "$" s) (nil-append key))
    ∙ version_written v
        (String.◌∷◌ "$" ("m=65536,t=3,p=4" <> String.◌∷◌ "$" (salt <> String.◌∷◌ "$" key)))

split_first : (t : String) → split_at b'$' (String.◌∷◌ "$" t) ≡ "" ∷ split_at b'$' t
unfolding split_at
split_first t = refl

decimal_memory : decimal (pos argon_memory) ≡ "65536"
unfolding decimal
decimal_memory = refl

decimal_time : decimal (pos argon_time) ≡ "3"
unfolding decimal
decimal_time = refl

decimal_threads : decimal (pos argon_threads) ≡ "4"
unfolding decimal
decimal_threads = refl

-- The parts of a text with its separators.
parts-split :
    (v salt key : String)
    → lacks b'$' v ≡ true
    → lacks b'$' salt ≡ true
    → lacks b'$' key ≡ true
    → split_at b'$' (
        String.◌∷◌ "$" (
          "argon2id"
          <> String.◌∷◌ "$" (
              v
              <> String.◌∷◌ "$"
                  ("m=65536,t=3,p=4" <> String.◌∷◌ "$" (salt <> String.◌∷◌ "$" key)))))
      ≡ "" ∷ "argon2id" ∷ v ∷ "m=65536,t=3,p=4" ∷ salt ∷ key ∷ []
parts-split v salt key hv hs hk =
    let last = salt <> String.◌∷◌ "$" key in
    let costs = "m=65536,t=3,p=4" <> String.◌∷◌ "$" last in
    rw
      (
        split_first ("argon2id" <> String.◌∷◌ "$" (v <> String.◌∷◌ "$" costs)),
        split_at-piece b'$' "$" "argon2id" (v <> String.◌∷◌ "$" costs) refl refl,
        split_at-piece b'$' "$" v costs hv refl,
        split_at-piece b'$' "$" "m=65536,t=3,p=4" last refl refl,
        split_at-piece b'$' "$" salt key hs refl,
        split_at-lacks b'$' key hk,
      )
      refl

-- The encoded form splits into its parts.
form-parts :
    (n : ℕ) (salt key : String)
    → lacks b'$' salt ≡ true
    → lacks b'$' key ≡ true
    → split_at b'$' (encoded_form n argon_memory argon_time argon_threads salt key)
      ≡ "" ∷ "argon2id" ∷ ("v=" <> decimal (pos n)) ∷ "m=65536,t=3,p=4" ∷ salt ∷ key ∷ []
form-parts n salt key hs hk =
    rw (decimal_memory, decimal_time, decimal_threads, form_written (decimal (pos n)) salt key)
      (parts-split ("v=" <> decimal (pos n)) salt key (version_lacks n) hs hk)

version-scanned :
    (n : ℕ) → n < 2 ^ 63 → sscanf version_format ("v=" <> decimal (pos n)) ≡ some (pos n ∷ [])
unfolding sscanf
version-scanned n h =
    let v = decimal (pos n) in
    let read = ap scan_int (sym (append-nil v)) ∙ scan_int-decimal n "" h refl in
    rw (cons-append "v" "=" v, cons-append "=" "" v, nil-append v, read) refl

-- The key of a password under the costs that are written.
abbrev pub key_of : Kdf → String → Bytes → Option Bytes
key_of k password salt = k.id_key password salt argon_time argon_memory argon_threads argon_key_len

form-verified :
    (k : Kdf) (given : String) (salt key got : Bytes)
    → length key ≡ argon_key_len
    → key_of k given salt ≡ some got
    → verify_password k given (
        encoded_form k.version argon_memory argon_time argon_threads (k.encode salt) (k.encode key))
      ≡ judged (same_bytes got key)
unfolding verify_password
form-verified k given salt key got len e =
    rw
      (
        form-parts k.version (k.encode salt) (k.encode key) (k.encode_plain salt)
            (k.encode_plain key),
        version-scanned k.version (omega (arith, k.version_small)),
        k.decode_encode salt,
        k.decode_encode key,
        len,
        e,
      )
      refl

hash-form :
    (k : Kdf) (password encoded : String) (salt key : Bytes)
    → key_of k password salt ≡ some key
    → hash_password k password (some salt) ≡ hashed encoded
    → encoded_form k.version argon_memory argon_time argon_threads (k.encode salt) (k.encode key)
      ≡ encoded
unfolding hash_password
hash-form k password encoded salt key e h = text_of (sym made ∙ h)
  where
    made :
        hash_password k password (some salt)
        ≡ hashed (
            encoded_form k.version argon_memory argon_time argon_threads
              (k.encode salt)
              (k.encode key))
    made = rw (e, hash_password) refl

    text_of : {s t : String} → hashed s ≡ hashed t → s ≡ t
    text_of h = ground (arith, h)

verdict :
    (v : Verified) (a b : Option Bytes) (got key : Bytes)
    → v ≡ judged (same_bytes got key)
    → a ≡ some got
    → b ≡ some key
    → (v ≡ judged true) ↔ (a ≡ b)
verdict v a b got key h e f = ground (arith, same_bytes_iff got key)

-- What HashPassword writes of a password, with whatever salt was drawn, VerifyPassword reads back
-- without an error: it accepts the password, and it accepts another text if and only if Argon2id
-- derives the same key from it with that salt and the costs of the constants.
pub verify_password-hash_password :
    (k : Kdf) (password given encoded : String) (salt : Bytes)
    → hash_password k password (some salt) ≡ hashed encoded
    → (verify_password k password encoded ≡ judged true)
      × ((verify_password k given encoded ≡ judged true)
          ↔ (key_of k given salt ≡ key_of k password salt))
verify_password-hash_password k password given encoded salt h =
    let (key, e, len) =
      k.id_key_length password salt argon_time argon_memory argon_threads argon_key_len
        (omega arith) (omega arith) in
    let (got, e', len') =
      k.id_key_length given salt argon_time argon_memory argon_threads argon_key_len (omega arith)
        (omega arith) in
    let form = hash-form k password encoded salt key e h in
    let read =
      ap (verify_password k password) (sym form) ∙ form-verified k password salt key key len e in
    let read' =
      ap (verify_password k given) (sym form) ∙ form-verified k given salt key got len e' in
    (
      read ∙ ap judged ((same_bytes_iff key key).1 refl),
      verdict (verify_password k given encoded) (key_of k given salt) (key_of k password salt) got
          key read' e' e,
    )

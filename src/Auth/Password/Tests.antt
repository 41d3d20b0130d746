-- ===== src/Auth/Password/Tests.antt =====
-- The passwords with the sample derivation.
use amarre.Base.{◌≡◌, ◌↔◌, refl, true, String, some, [], ◌∷◌, decimal}
use amarre.Auth.Totp.{Bytes}
use amarre.Auth.Password.{hashed, hash_password, judged, bad_hash, panic, verify_password}
use amarre.Auth.Password.Samples.{simple}
use amarre.Auth.Password.RoundTrip.{key_of, verify_password-hash_password}

abbrev salt_2 : Bytes
salt_2 = 2 ∷ 0 ∷ []

abbrev written : String
written = "$argon2id$v=19$m=65536,t=3,p=4$aabb$bbbbbbbbbbbbbbbbbbbbbbbbbbbbbbbb"

-- The password of the length 0.
written_form : hash_password simple "" (some salt_2) ≡ hashed written
unfolding hash_password decimal
written_form = refl

no_separator : verify_password simple "" "argon2id" ≡ bad_hash
unfolding verify_password
no_separator = refl

-- A hash that names no pass makes the derivation panic.
no_pass : verify_password simple "" "$argon2id$v=19$m=65536,t=0,p=4$aabb$b" ≡ panic
unfolding verify_password
no_pass = refl

other_scheme : verify_password simple "" "$argon2i$v=19$m=65536,t=3,p=4$aabb$b" ≡ bad_hash
unfolding verify_password
other_scheme = refl

-- The limits of the scanner: blanks and a sign before a number are read, and what follows it is not.
loose_numbers :
    verify_password simple "x" "$argon2id$v= 19z$m=+65536,t=3,p=4 $aabb$ab" ≡ judged true
unfolding verify_password
loose_numbers = refl

verify_password-hash_password_example :
    (verify_password simple "" written ≡ judged true)
    × ((verify_password simple "x" written ≡ judged true)
        ↔ (key_of simple "x" salt_2 ≡ key_of simple "" salt_2))
verify_password-hash_password_example =
    verify_password-hash_password simple "" "x" written salt_2 written_form

-- ===== src/Auth/Totp/Tests.antt =====
-- The one-time code with a concrete sum in place of HMAC-SHA1: the truncation of the example of
-- RFC 4226, and the theorems at that sum.
use amarre.Base.{◌+◌, ◌*◌, ◌≡◌, ◌≢◌, ◌↔◌, refl, true, some, [], ◌∷◌, arith, Time, epoch, second}
use amarre.Auth.Totp.{Bytes, Mac, code, truncate, verify_totp}
use amarre.Auth.Totp.Accepts.{verify_totp_iff, Timely}

-- The HMAC value of RFC 4226, section 5.4.
abbrev sum_5_4 : Bytes
sum_5_4 =
    0x1f ∷ 0x86 ∷ 0x98 ∷ 0x69 ∷ 0x0e ∷ 0x02 ∷ 0xca ∷ 0x16 ∷ 0x61 ∷ 0x85 ∷ 0x50 ∷ 0xef ∷ 0x7f ∷ 0x19
    ∷ 0xda ∷ 0x8e ∷ 0x94 ∷ 0x5b ∷ 0x55 ∷ 0x5a ∷ []

-- 872921
truncate_5_4 : truncate sum_5_4 ≡ code (56 ∷ 55 ∷ 50 ∷ 57 ∷ 50 ∷ 49 ∷ [])
unfolding truncate
truncate_5_4 = refl

abbrev fixed_mac : Mac
fixed_mac = record {
  decode_secret = λ secret. some secret;
  hmac_sha1 = λ key message. sum_5_4;
  sum_length = λ key message. refl;
}

abbrev secret_5_4 : Bytes
secret_5_4 = 65 ∷ 66 ∷ []

abbrev given_5_4 : Bytes
given_5_4 = 56 ∷ 55 ∷ 50 ∷ 57 ∷ 50 ∷ 49 ∷ []

abbrev at_59 : Time
at_59 = epoch + 59 * second

abbrev at_61 : Time
at_61 = epoch + 61 * second

verify_totp_iff_example :
    (verify_totp fixed_mac secret_5_4 given_5_4 at_59 ≡ true)
    ↔ ((secret_5_4 ≢ []) × Timely fixed_mac secret_5_4 given_5_4 at_59)
verify_totp_iff_example =
    verify_totp_iff fixed_mac secret_5_4 secret_5_4 given_5_4 at_59 refl (omega arith) (omega arith)

-- ===== src/Auth/Totp.antt =====
-- The one-time code of auth.go: `totpAt` and `VerifyTOTP`. Base32 and HMAC-SHA1 are Go's standard
-- library and enter as the record `Mac`; texts are lists of bytes.
pub mod Accepts
mod Tests
use amarre.Base.{
  ℕ, zero, suc, ◌+◌, ◌-◌, ◌*◌, ◌/◌, ◌%◌, ◌^◌, ◌≤◌, ◌<◌, ◌≡◌, Bool, true, false, not, ◌||◌, Option,
  none, some, List, [], ◌∷◌, ltb, ◌==◌, if◌then◌else◌, length, take, drop, All, Time, unix,
}

-- The bytes of a text.
abbrev pub Bytes : Type 0
Bytes = List ℕ

-- What the code calls in the standard library, with the documented size of a SHA-1 sum.
pub record Mac : Type 0 where
  -- `base32…DecodeString(ToUpper(ReplaceAll(secret, " ", "")))`
  pub decode_secret : Bytes → Option Bytes
  -- `hmac.New(sha1.New, key)`, `Write(message)`, `Sum(nil)`
  pub hmac_sha1 : Bytes → Bytes → Bytes
  pub sum_length : (key message : Bytes) → length (hmac_sha1 key message) ≡ 20

-- `panic` is an index or a slice out of range.
pub data Code : Type 0 where
  code : Bytes → Code
  bad_secret : Code
  panic : Code

abbrev pub totp_period : ℕ
totp_period = 30

-- `binary.BigEndian.PutUint64`
unfoldable pub be64 : ℕ → Bytes
be64 n =
    n / 2 ^ 56 % 256
    ∷ n / 2 ^ 48 % 256
    ∷ n / 2 ^ 40 % 256
    ∷ n / 2 ^ 32 % 256
    ∷ n / 2 ^ 24 % 256
    ∷ n / 2 ^ 16 % 256
    ∷ n / 2 ^ 8 % 256
    ∷ n % 256
    ∷ []

-- `sum[len(sum)-1]`
unfoldable pub last_byte : Bytes → Option ℕ
last_byte [] = none
last_byte (b ∷ []) = some b
last_byte (b ∷ c ∷ bs) = last_byte (c ∷ bs)

-- `binary.BigEndian.Uint32(sum[off:off+4])`
unfoldable pub be32 : Bytes → Option ℕ
be32 (a ∷ b ∷ c ∷ d ∷ _) = some (a * 2 ^ 24 + b * 2 ^ 16 + c * 2 ^ 8 + d)
be32 _ = none

unfoldable pub be32_at : Bytes → ℕ → Option ℕ
unfolding be32
be32_at sum off = be32 (drop off sum)

-- `fmt.Sprintf("%06d", v)` for a value below a million.
unfoldable pub six_digits : ℕ → Bytes
six_digits v =
    (48 + v / 100000 % 10)
    ∷ (48 + v / 10000 % 10)
    ∷ (48 + v / 1000 % 10)
    ∷ (48 + v / 100 % 10)
    ∷ (48 + v / 10 % 10)
    ∷ (48 + v % 10)
    ∷ []

-- The truncation of RFC 4226: `& 0x0f` and `& 0x7fffffff` keep the low 4 and 31 bits.
unfoldable pub truncate : Bytes → Code
unfolding last_byte be32_at six_digits
truncate sum = elim (last_byte sum) [
  | none ↦ panic
  | some last ↦ elim (be32_at sum (last % 16)) [
    | none ↦ panic
    | some v ↦ code (six_digits (v % 2 ^ 31 % 1000000))
  ]
]

-- `subtle.ConstantTimeCompare(x, y) == 1`
unfoldable pub same_bytes : Bytes → Bytes → Bool
same_bytes [] [] = true
same_bytes (x ∷ xs) (y ∷ ys) = let rest = same_bytes xs ys in if x == y then rest else false
same_bytes _ _ = false

-- The body of the loop of `VerifyTOTP` on the code of one counter: `none` goes on to the next
-- counter. A panic would leave the function; it is read as a refusal here.
unfoldable pub judge : Bytes → Code → Option Bool
unfolding same_bytes
judge given (code want) = if same_bytes want given then some true else none
judge given bad_secret = some false
judge given panic = some false

-- `uint64(int64(counter)+d)` for d = -1, 0, 1.
abbrev pub counters : ℕ → List ℕ
counters counter = (counter + 2 ^ 64 - 1) % 2 ^ 64 ∷ counter % 2 ^ 64 ∷ (counter + 1) % 2 ^ 64 ∷ []

module _ (mac : Mac) where
  unfoldable pub totp_at : Bytes → ℕ → Code
  unfolding be64 truncate
  totp_at secret counter = elim (mac.decode_secret secret) [
    | none ↦ bad_secret
    | some key ↦ truncate (mac.hmac_sha1 key (be64 counter))
  ]

  unfoldable pub try_counters : Bytes → Bytes → List ℕ → Bool
  unfolding totp_at judge
  try_counters secret given [] = false
  try_counters secret given (c ∷ cs) =
      let rest = try_counters secret given cs in
      elim (judge given (totp_at secret c)) [ some answer ↦ answer | none ↦ rest ]

  unfoldable pub verify_totp : Bytes → Bytes → Time → Bool
  unfolding try_counters
  verify_totp secret given now =
      if length secret == 0 || not (length given == 6)
      then false
      else try_counters secret given (counters (unix now / totp_period))

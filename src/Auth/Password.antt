-- ===== src/Auth/Password.antt =====
-- Passwords and tokens of auth.go: `HashPassword`, `VerifyPassword`, `NewTOTPSecret`, `NewToken`
-- and `ProvisioningURI`. Argon2id, base64 and the random bytes come from libraries; a text that
-- base64 makes is a native text.
pub mod RoundTrip
pub mod Samples
mod Tests
use amarre.Base.{
  ℕ, ◌+◌, ◌-◌, ◌*◌, ◌%◌, ◌^◌, ◌≤◌, ◌≡◌, Bool, true, false, not, String, Option, none, some, List,
  [], ◌∷◌, length, str_eq, if◌then◌else◌, ℤ, pos, negsuc, concat, decimal, split_at, every, is_code,
  Piece, literal, number, sscanf,
}
use amarre.Auth.Totp.{Bytes, same_bytes}

-- The unpadded base64 of Go, `argon2.IDKey` and `argon2.Version`. `IDKey` panics (`none`) without
-- a pass or without a thread, and gives a key of the length asked for otherwise.
pub record Kdf : Type 0 where
  pub encode : Bytes → String
  pub decode : String → Option Bytes
  pub id_key : String → Bytes → ℕ → ℕ → ℕ → ℕ → Option Bytes
  pub version : ℕ
  pub decode_encode : (b : Bytes) → decode (encode b) ≡ some b
  pub encode_plain : (b : Bytes) → every (λ c. not (is_code b'$' c)) (encode b) ≡ true
  pub id_key_length :
      (password : String) (salt : Bytes) (passes memory threads size : ℕ)
      → 1 ≤ passes
      → 1 ≤ threads
      → (key : Bytes) × (id_key password salt passes memory threads size ≡ some key)
        × (length key ≡ size)
  pub version_small : version + 1 ≤ 2 ^ 63

abbrev pub argon_time : ℕ
argon_time = 3

abbrev pub argon_memory : ℕ
argon_memory = 64 * 1024

abbrev pub argon_threads : ℕ
argon_threads = 4

abbrev pub argon_key_len : ℕ
argon_key_len = 32

-- The encoded form, or the panic of `IDKey`.
pub data Encoded : Type 0 where
  hashed : String → Encoded
  no_random : Encoded
  no_key : Encoded

-- `fmt.Sprintf("$argon2id$v=%d$m=%d,t=%d,p=%d$%s$%s", …)`
abbrev pub encoded_form : ℕ → ℕ → ℕ → ℕ → String → String → String
encoded_form version memory passes threads salt key = concat (
    "$argon2id$v="
    ∷ decimal (pos version)
    ∷ "$m="
    ∷ decimal (pos memory)
    ∷ ",t="
    ∷ decimal (pos passes)
    ∷ ",p="
    ∷ decimal (pos threads)
    ∷ "$"
    ∷ salt
    ∷ "$"
    ∷ key
    ∷ [])

module _ (k : Kdf) where
  -- `HashPassword`; `none` is an error of the random bytes.
  unfoldable pub hash_password : String → Option Bytes → Encoded
  hash_password password none = no_random
  hash_password password (some salt) =
      elim (k.id_key password salt argon_time argon_memory argon_threads argon_key_len) [
        | none ↦ no_key
        | some key ↦ hashed (
            encoded_form k.version argon_memory argon_time argon_threads (k.encode salt)
              (k.encode key))
      ]

-- What `VerifyPassword` returns: its answer, `ErrBadHash`, or the panic of `IDKey`.
pub data Verified : Type 0 where
  judged : Bool → Verified
  bad_hash : Verified
  panic : Verified

-- The conversion of an int to `w` unsigned bits.
abbrev pub unsigned : ℕ → ℤ → ℕ
unsigned w (pos n) = n % 2 ^ w
unsigned w (negsuc n) = 2 ^ w - 1 - n % 2 ^ w

abbrev pub version_format : List Piece
version_format = literal b'v' ∷ literal b'=' ∷ number ∷ []

abbrev pub cost_format : List Piece
cost_format =
    literal b'm'
    ∷ literal b'='
    ∷ number
    ∷ literal b','
    ∷ literal b't'
    ∷ literal b'='
    ∷ number
    ∷ literal b','
    ∷ literal b'p'
    ∷ literal b'='
    ∷ number
    ∷ []

module _ (k : Kdf) where
  -- The comparison at the end, on the key that `IDKey` gives.
  abbrev pub compared : Bytes → Option Bytes → Verified
  compared want none = panic
  compared want (some got) = judged (same_bytes got want)

  -- The last steps, once the two formats have been read.
  unfoldable pub with_costs : String → Option (List ℤ) → Option Bytes → Option Bytes → Verified
  unfolding same_bytes
  with_costs password (some (mem ∷ tim ∷ par ∷ [])) (some salt) (some want) = compared want (
      k.id_key password salt (unsigned 32 tim) (unsigned 32 mem) (unsigned 8 par)
        (length want % 2 ^ 32))
  with_costs password _ _ _ = bad_hash

  abbrev pub with_version : String → Option (List ℤ) → String → String → String → Verified
  with_version password none costs salt key = bad_hash
  with_version password (some version) costs salt key =
      with_costs password (sscanf cost_format costs) (k.decode salt) (k.decode key)

  unfoldable pub with_parts : String → List String → Verified
  unfolding sscanf with_costs
  with_parts password (head ∷ kind ∷ version ∷ costs ∷ salt ∷ key ∷ []) =
      if str_eq kind "argon2id"
      then with_version password (sscanf version_format version) costs salt key
      else bad_hash
  with_parts password _ = bad_hash

  -- `VerifyPassword`
  unfoldable pub verify_password : String → String → Verified
  unfolding split_at with_parts
  verify_password password encoded = with_parts password (split_at b'$' encoded)

-- `NewTOTPSecret` and `NewToken` on their random bytes, each with its encoding; `none` is an error
-- of the random bytes.
abbrev pub encoded_random : (Bytes → String) → Option Bytes → Option String
encoded_random encode none = none
encoded_random encode (some bytes) = some (encode bytes)

abbrev pub totp_period_text : String
totp_period_text = decimal (pos 30)

-- `ProvisioningURI`
abbrev pub provisioning_uri : String → String → String → String
provisioning_uri issuer account secret = concat (
    "otpauth://totp/" ∷ issuer ∷ ":" ∷ account ∷ "?secret=" ∷ secret ∷ "&issuer=" ∷ issuer
    ∷ "&algorithm=SHA1&digits=6&period=" ∷ totp_period_text ∷ [])

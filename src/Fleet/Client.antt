-- ===== src/Fleet/Client.antt =====
-- What `NewClient` of fleet.go and `knownHostsCallback` of knownhosts.go check, and `FetchHealth` of
-- health.go. The files and the parsers of the SSH library are arguments; an error is its text.
mod Tests
use amarre.Base.{
  String, Option, none, some, [], ◌∷◌, if◌then◌else◌, str_eq, Result, ok, err, ◌>>=◌, concat,
}
use amarre.Fleet.Calls.{Line, run, prefixed}

-- The host keys: `stat` is the error of the look at the file, `read` what the library makes of it.
unfoldable pub known_hosts {ℓ} :
    {K : Type ℓ} → String → Option String → Result String K → Result String K
known_hosts path stat read =
    if str_eq path ""
    then err "known_hosts non configuré : la vérification des clés d'hôte est obligatoire"
    else elim stat [
      | none ↦ prefixed "known_hosts illisible : " read
      | some e ↦ err (
          concat (
            "known_hosts introuvable (" ∷ path
            ∷ "). Le renseigner d'abord, par exemple :\n  ssh-keyscan -H <hôte> >> " ∷ path
            ∷ "\npuis vérifier chaque empreinte auprès de l'hôte concerné" ∷ []))
    ]

-- `NewClient`: the key that signs and the check of the host keys.
unfoldable pub new_client {ℓ κ} :
    {S : Type ℓ} {K : Type κ}
    → Result String String
    → (String → Result String S)
    → String
    → Option String
    → Result String K
    → Result String (S × K)
unfolding known_hosts
new_client raw parse path stat read = do
  text ← prefixed "lecture de la clé de parc : " raw
  signer ← prefixed "clé de parc illisible : " (parse text)
  keys ← known_hosts path stat read
  ok (signer, keys)

-- `FetchHealth`, by the JSON decoder of a report.
unfoldable pub fetch_health {ℓ} : {H : Type ℓ} → (String → Result String H) → Line → Result String H
unfolding run
fetch_health decode l = do out ← run l; prefixed "relevé de santé illisible : " (decode out)

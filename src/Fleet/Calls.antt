-- ===== src/Fleet/Calls.antt =====
-- The calls of fleet.go: `run` and the verbs on top of it. What a connection, a session and a
-- command do at each step is an argument; the JSON decoder is the record `Decode`. The output of a
-- command is a text.
pub mod Policies
pub mod Errors
pub mod Agree
mod Tests
use amarre.Base.{
  ℕ, zero, suc, ◌+◌, ◌-◌, Bool, true, false, ◌&&◌, ◌||◌, not, String, Option, none, some, List, [],
  ◌∷◌, ◌++◌, if◌then◌else◌, str_eq, leb, ltb, ◌==◌, ℤ, pos, negsuc, Time, Duration, is_zero,
  sub_time, Result, ok, err, ◌>>=◌, concat, trim_space, trim_by, split_at, cut_at, begins_with,
  is_code, is_empty, decimal, length, count_of, sort_by,
}
use amarre.Fleet.Tree.{Node, node_before, or_latest}

-- The error of a command that failed: `*ssh.ExitError` with its status, or another one; each with
-- its text.
pub data Failure : Type 0 where
  exit : ℕ → String → Failure
  other : String → Failure

-- How the wait for a command ends: the context is over, or the command has its output, its error
-- stream and its error.
pub data Ending : Type 0 where
  cancelled : String → Ending
  finished : String → String → Option Failure → Ending

-- What happens at each step of `run` that it does not decide itself: `pool.get`, the place in the
-- semaphore, `NewSession`, the same two after the connection was dropped, and the command. An
-- error is its text.
pub record Line : Type 0 where
  pub connect : Result String (Unit {0})
  pub place : Result String (Unit {0})
  pub session : Result String (Unit {0})
  pub reconnect : Result String (Unit {0})
  pub second_session : Result String (Unit {0})
  pub ending : Ending

-- The first non-empty line from the end: `i` lines are left.
abbrev pub line_at : List String → ℕ → String
line_at [] i = ""
line_at (l ∷ ls) zero = l
line_at (l ∷ ls) (suc i) = line_at ls i

unfoldable pub last_from : List String → ℕ → String
last_from lines zero = ""
last_from lines (suc i) =
    let rest = last_from lines i in
    let s = trim_space (line_at lines i) in if str_eq s "" then rest else s

unfoldable pub last_line : String → String
unfolding last_from
last_line out = let lines = split_at b'\n' out in last_from lines (length lines)

abbrev pub failure_text : Failure → String
failure_text (exit status text) = text
failure_text (other text) = text

-- The messages of the statuses of the shim and of restic.
abbrev pub known_status : ℕ → String → Option String
known_status status detail =
    if status == 77
    then some "refusé par la policy locale de l'hôte"
    else if status == 78
    then some "policy absente sur l'hôte"
    else if status == 10
    then some (concat ("dépôt introuvable — ne pas réinitialiser sans vérifier. " ∷ detail ∷ []))
    else if status == 11
    then some (concat ("verrouillage impossible. " ∷ detail ∷ []))
    else if status == 12
    then some "mot de passe de dépôt incorrect sur l'hôte"
    else none

abbrev pub without_status : Failure → String → String
without_status f detail =
    if str_eq detail ""
    then concat ("exécution distante : " ∷ failure_text f ∷ [])
    else concat (failure_text f ∷ " — " ∷ detail ∷ [])

abbrev pub by_status : Option String → ℕ → String → String → String
by_status (some message) status text detail = message
by_status none status text detail =
    if str_eq detail ""
    then without_status (exit status text) detail
    else concat ("code " ∷ decimal (pos status) ∷ " : " ∷ detail ∷ [])

-- The error that `run` makes of a failure.
abbrev pub explained : Failure → String → String
explained (exit status text) detail = by_status (known_status status detail) status text detail
explained (other text) detail = without_status (other text) detail

abbrev pub detail_of : String → String → String
detail_of out errors =
    if str_eq (trim_space errors) "" then trim_space (last_line out) else trim_space errors

unfoldable pub ended : Ending → Result String String
unfolding last_line
ended (cancelled e) = err e
ended (finished out errors none) = ok out
ended (finished out errors (some f)) = err (explained f (detail_of out errors))

abbrev pub again : Line → Result String (Unit {0})
again l = l.reconnect >>= λ _. elim l.second_session [
  | err e ↦ err (concat ("ouverture de session : " ∷ e ∷ []))
  | ok u ↦ ok u
]

-- The session, with one more try on a new connection.
unfoldable pub open_session : Line → Result String (Unit {0}) → Result String (Unit {0})
open_session l (ok u) = ok u
open_session l (err e) = again l

unfoldable pub run : Line → Result String String
unfolding open_session ended
run l = do _ ← l.connect; _ ← l.place; _ ← open_session l l.session; ended l.ending

-- `resticSnapshot` and `Snapshot`.
pub record ResticSnapshot : Type 0 where
  pub id : String
  pub short_id : String
  pub time : Time
  pub hostname : String
  pub paths : List String
  pub total_bytes_processed : ℤ
  pub total_files_processed : ℤ
  pub data_added : ℤ
  pub data_added_packed : ℤ
  pub backup_start : Time
  pub backup_end : Time

pub record Snapshot : Type 0 where
  pub id : String
  pub time : Time
  pub paths : List String
  pub size : ℤ
  pub added : ℤ
  pub packed : ℤ
  pub files : ℤ
  pub duration : Duration

pub record Status : Type 0 where
  pub snapshot_id : String
  pub time : Time
  pub size_bytes : ℤ
  pub hostname : String
  pub paths : List String

-- A ratio, a float of the source, is kept as its text.
pub record RepoStats : Type 0 where
  pub total_size : ℤ
  pub uncompressed_size : ℤ
  pub compression_ratio : String
  pub snapshots_count : ℤ
  pub blob_count : ℤ
  pub source_size : ℤ

-- `statsEnvelope`; `restore` is its total size.
pub record StatsEnvelope : Type 0 where
  pub raw : Option RepoStats
  pub restore : Option ℤ

pub record PolicyEntry : Type 0 where
  pub key : String
  pub value : String
  pub allowed : Bool

-- `json.Unmarshal` into each type, with the text of its error; a length in bytes and the first
-- eight bytes of a text; `bufio.Scanner` on an output, with its error.
pub record Decode : Type 0 where
  pub snapshots : String → Result String (List ResticSnapshot)
  pub envelope : String → Result String StatsEnvelope
  pub stats : String → Result String RepoStats
  pub node : String → Option Node
  pub len : String → ℕ
  pub first_eight : String → String
  pub lines : String → List String × Option String

abbrev pub id_of : Decode → ResticSnapshot → String
id_of d s = if str_eq s.short_id "" && leb 8 (d.len s.id) then d.first_eight s.id else s.short_id

abbrev pub status_from : Decode → ResticSnapshot → Status
status_from d s = record {
  snapshot_id = id_of d s;
  time = s.time;
  size_bytes = s.total_bytes_processed;
  hostname = s.hostname;
  paths = s.paths;
}

-- `snaps[len(snaps)-1]`, where there is one.
unfoldable pub last_of : Decode → List ResticSnapshot → Result String Status
last_of d [] = err "aucun snapshot dans le dépôt"
last_of d (s ∷ []) = ok (status_from d s)
last_of d (s ∷ t ∷ ss) = last_of d (t ∷ ss)

abbrev pub prefixed {ℓ} : {A : Type ℓ} → String → Result String A → Result String A
prefixed text (ok a) = ok a
prefixed text (err e) = err (concat (text ∷ e ∷ []))

unfoldable pub status : Decode → Line → Result String Status
unfolding run last_of
status d l = do
  out ← run l
  snaps ← prefixed "réponse illisible de l'hôte : " (d.snapshots out)
  last_of d snaps

abbrev pub duration_of : ResticSnapshot → Duration
duration_of s =
    if not (is_zero s.backup_end) && not (is_zero s.backup_start)
    then sub_time s.backup_end s.backup_start
    else pos 0

abbrev pub snapshot_from : Decode → ResticSnapshot → Snapshot
snapshot_from d s = record {
  id = id_of d s;
  time = s.time;
  paths = s.paths;
  size = s.total_bytes_processed;
  added = s.data_added;
  packed = s.data_added_packed;
  files = s.total_files_processed;
  duration = duration_of s;
}

-- `raw[i]`, read where it is in range.
abbrev pub one_at : Decode → List ResticSnapshot → ℕ → List Snapshot
one_at d [] i = []
one_at d (s ∷ ss) zero = snapshot_from d s ∷ []
one_at d (s ∷ ss) (suc i) = one_at d ss i

-- The loop from the last index down to 0.
unfoldable pub newest_first : Decode → List ResticSnapshot → ℕ → List Snapshot
newest_first d raw zero = []
newest_first d raw (suc i) = one_at d raw i ++ newest_first d raw i

unfoldable pub snapshots : Decode → Line → Result String (List Snapshot)
unfolding run newest_first
snapshots d l = do
  out ← run l
  raw ← prefixed "liste de snapshots illisible : " (d.snapshots out)
  ok (newest_first d raw (length raw))

abbrev pub with_restore : RepoStats → Option ℤ → RepoStats
with_restore st none = st
with_restore st (some size) = record st { source_size = size }

unfoldable pub from_envelope : StatsEnvelope → Option RepoStats → Result String RepoStats
from_envelope env none = err "statistiques du dépôt absentes"
from_envelope env (some st) = ok (with_restore st env.restore)

abbrev pub old_stats : String → Result String RepoStats → Result String RepoStats
old_stats e (ok st) = ok st
old_stats e (err e2) = err (concat ("statistiques illisibles : " ∷ e ∷ []))

unfoldable pub decoded_stats :
    Decode → String → Result String StatsEnvelope → Result String RepoStats
unfolding from_envelope
decoded_stats d out (err e) = old_stats e (d.stats out)
decoded_stats d out (ok env) = from_envelope env env.raw

unfoldable pub stats : Decode → Line → Result String RepoStats
unfolding run decoded_stats
stats d l = do out ← run l; decoded_stats d out (d.envelope out)

abbrev pub is_comment : String → Bool
is_comment line = str_eq line "" || begins_with b'#' line

abbrev pub entry_of : String × String → PolicyEntry
entry_of (k, v) =
    let value = trim_by (is_code b'"') (trim_space v) in
    record { key = trim_space k; value = value; allowed = str_eq value "yes" }

-- One line of the policy, trimmed.
abbrev pub cut_entry : Option (String × String) → List PolicyEntry
cut_entry none = []
cut_entry (some kv) = entry_of kv ∷ []

abbrev pub policy_line : String → List PolicyEntry
policy_line line = if is_comment line then [] else cut_entry (cut_at b'=' line)

unfoldable pub policy_lines : List String → List PolicyEntry
policy_lines [] = []
policy_lines (line ∷ lines) = policy_line (trim_space line) ++ policy_lines lines

unfoldable pub policy_of : String → List PolicyEntry
unfolding policy_lines
policy_of out = policy_lines (split_at b'\n' out)

unfoldable pub policy : Line → Result String (List PolicyEntry)
unfolding run policy_of
policy l = do out ← run l; ok (policy_of out)

unfoldable pub exclude_lines : List String → List String
exclude_lines [] = []
exclude_lines (line ∷ lines) =
    let rest = exclude_lines lines in
    let l = trim_space line in if is_comment l then rest else l ∷ rest

unfoldable pub excludes : Line → Result String (List String)
unfolding run exclude_lines
excludes l = do out ← run l; ok (exclude_lines (split_at b'\n' out))

-- The nodes of `List`: a blank line, one that is not JSON or that is no node is passed over.
abbrev pub as_node : Option Node → List Node
as_node none = []
as_node (some n) = if str_eq n.struct_type "node" then n ∷ [] else []

unfoldable pub listed : Decode → List String → List Node
listed d [] = []
listed d (line ∷ lines) =
    let rest = listed d lines in
    let l = trim_space line in if is_empty l then rest else as_node (d.node l) ++ rest

-- `ls <snapshot> <path>`
abbrev pub list_command : String → String → String
list_command snapshot path =
    concat ("ls " ∷ or_latest snapshot ∷ " " ∷ (if str_eq path "" then "/" else path) ∷ [])

-- The nodes that were read, also where the scanner ends in an error.
unfoldable pub list :
    Decode → (String → Line) → String → String → Result String (List Node × Option String)
unfolding run listed
list d l snapshot path = do
  out ← run (l (list_command snapshot path))
  ok (sort_by node_before (listed d (d.lines out).0), (d.lines out).1)

-- `Check`, `Backup` and `Unlock`: the error of `run`.
abbrev pub only_error : Result String String → Result String (Unit {0})
only_error (ok out) = ok tt
only_error (err e) = err e

unfoldable pub command : Line → Result String (Unit {0})
unfolding run
command l = only_error (run l)

-- ===== src/Fleet/Calls/Tests.antt =====
-- Calls of a host with two snapshots.
use amarre.Base.{
  ℕ, ◌+◌, ◌*◌, ◌≡◌, ◌≢◌, refl, ◌↔◌, true, String, none, some, List, [], ◌∷◌, map, arith, hour,
  epoch, pos, ok, err, str_eq_iff, split_at, trim_left, trim_right, cut_at, count_of,
}
use amarre.Fleet.Calls.{
  exit, finished, Line, ResticSnapshot, Snapshot, Decode, run, last_line, status_from, status,
  snapshots, policy_of,
}
use amarre.Fleet.Calls.Policies.{policy_text, variable, policy_of-policy_text}
use amarre.Fleet.Calls.Errors.{Connected, run-ok_iff}
use amarre.Fleet.Calls.Agree.{Same, snapshots-status}

abbrev raw_of : ℕ → ResticSnapshot
raw_of n = record {
  id = "a1b2c3d4e5f6";
  short_id = "";
  time = epoch + n * hour;
  hostname = "web";
  paths = "/srv" ∷ [];
  total_bytes_processed = pos (1000 + n);
  total_files_processed = pos 10;
  data_added = pos 5;
  data_added_packed = pos 3;
  backup_start = 0;
  backup_end = 0;
}

abbrev decoder : Decode
decoder = record {
  snapshots = λ out. ok (raw_of 1 ∷ raw_of 2 ∷ []);
  envelope = λ out. err "no";
  stats = λ out. err "no";
  node = λ line. none;
  len = count_of;
  first_eight = λ s. "a1b2c3d4";
  lines = λ out. (split_at b'\n' out, none);
}

abbrev second_try : Line
second_try = record {
  connect = ok tt;
  place = ok tt;
  session = err "EOF";
  reconnect = ok tt;
  second_session = ok tt;
  ending = finished "[]" "a warning" none;
}

run-ok_iff_example :
    (run second_try ≡ ok "[]")
    ↔ (Connected second_try × ((errors : String) × (second_try.ending ≡ finished "[]" errors none)))
run-ok_iff_example = run-ok_iff second_try "[]"

refused :
    run (record second_try { ending = finished "x" "" (some (exit 77 "status 77")) })
    ≡ err "refusé par la policy locale de l'hôte"
unfolding run
refused = refl

last_line-run : last_line "one\n two \n\n" ≡ "two"
unfolding last_line split_at trim_left trim_right
last_line-run = refl

answered : status decoder second_try ≡ ok (status_from decoder (raw_of 2))
unfolding status
answered = refl

snapshots-status_example :
    (s : Snapshot) × (rest : List Snapshot) × (snapshots decoder second_try ≡ ok (s ∷ rest))
    × Same (status_from decoder (raw_of 2)) s
snapshots-status_example =
    snapshots-status decoder second_try (status_from decoder (raw_of 2)) answered

ran : run second_try ≡ ok "[]"
unfolding run
ran = refl

abbrev variables : List (String × String)
variables = ("SHIM_ALLOW_RESTORE", "yes") ∷ ("PATHS", " /srv = /home # x") ∷ []

restore_ne : ◌≢◌ {A = String} "SHIM_ALLOW_RESTORE" ""
restore_ne = ground (arith, str_eq_iff "SHIM_ALLOW_RESTORE" "")

paths_ne : ◌≢◌ {A = String} "PATHS" ""
paths_ne = ground (arith, str_eq_iff "PATHS" "")

policy_of-policy_text_example : policy_of (policy_text variables) ≡ map variable variables
policy_of-policy_text_example =
    policy_of-policy_text variables ((restore_ne, refl, refl), ((paths_ne, refl, refl), tt))

policy-run :
    policy_of "# x\n A = \"yes\"\nB\n" ≡ record { key = "A"; value = "yes"; allowed = true } ∷ []
unfolding policy_of split_at trim_left trim_right cut_at
policy-run = refl

-- ===== src/Store/Tests.antt =====
-- Concrete rows: two users, their sessions, and the collections of two hosts.
use amarre.Base.{
  ◌+◌, ◌*◌, ◌≡◌, refl, true, [], ◌∷◌, ltb, ◌&&◌, if◌then◌else◌, str_eq, pos, Time, epoch, hour,
  unix, ok, err,
}
use amarre.Store.Tables.{User, Db, empty_db, no_user}
use amarre.Store.Sessions.{create_session, session_user}
use amarre.Store.Sessions.Lifetime.{session_user-create_session}
use amarre.Store.Checks.{Check, record_check}

abbrev day_one : Time
day_one = epoch + 20000 * (24 * hour)

abbrev alice : User
alice = record { id = 1; username = "alice"; pass_hash = "argon"; totp_secret = 65 ∷ [] }

abbrev with_alice : Db
with_alice = record empty_db { users = alice ∷ [] }

abbrev signed_in : Db
signed_in = record with_alice {
  sessions =
      record {
        token = "t1";
        user_id = 1;
        created_at = unix day_one;
        expires_at = unix (day_one + 8 * hour);
        remote_ip = "10.1.2.3";
        csrf = "c1";
      }
      ∷ [];
}

session_user-create_session_example : session_user signed_in "t1" "10.9.9.9" (day_one + hour) ≡ (
    if ltb (unix (day_one + hour)) (unix (day_one + 8 * hour)) && str_eq "10.1.2.3" "10.9.9.9"
    then ok alice
    else err no_user)
unfolding create_session
session_user-create_session_example =
    session_user-create_session with_alice signed_in "t1" "10.1.2.3" "c1" "10.9.9.9" 1 (8 * hour)
      alice day_one (day_one + hour) refl refl

same_address : session_user signed_in "t1" "10.1.2.3" (day_one + hour) ≡ ok alice
unfolding session_user
same_address = refl

abbrev web_check : Check
web_check = record {
  host = "web";
  collected_at = day_one + hour;
  reachable = true;
  error = "";
  snapshot_id = "a1b2c3d4";
  snapshot_at = day_one;
  size_bytes = pos 1000;
  repo_size = pos 400;
  repo_raw = pos 900;
}

abbrev collected : Db
collected = record_check empty_db web_check

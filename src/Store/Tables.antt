-- ===== src/Store/Tables.antt =====
-- The rows of the schema of store.go, and the database as one list of rows for each table, in the
-- order of insertion. An integer primary key is the position of the row.
use amarre.Base.{ℕ, Bool, String, List, [], ℤ}

-- `User`; a null `totp_secret` reads as the empty text. A secret is its bytes.
pub record User : Type 0 where
  pub id : ℕ
  pub username : String
  pub pass_hash : String
  pub totp_secret : List ℕ

-- Times in the tables are seconds since 1970. A null `csrf` reads as the empty text.
pub record Session : Type 0 where
  pub token : String
  pub user_id : ℕ
  pub created_at : ℕ
  pub expires_at : ℕ
  pub remote_ip : String
  pub csrf : String

-- A row of `checks`; a null `snapshot_at` reads as 0.
pub record CheckRow : Type 0 where
  pub host : String
  pub collected_at : ℕ
  pub reachable : Bool
  pub error : String
  pub snapshot_id : String
  pub snapshot_at : ℕ
  pub size_bytes : ℤ
  pub repo_size : ℤ
  pub repo_raw : ℤ

pub record MetaRow : Type 0 where
  pub host : String
  pub kind : String
  pub payload : String
  pub fetched_at : ℕ

pub record AuditRow : Type 0 where
  pub at : ℕ
  pub actor : String
  pub remote_ip : String
  pub action : String
  pub target : String
  pub outcome : String

pub record HealthRow : Type 0 where
  pub host : String
  pub at : ℕ
  pub state : String
  pub crit : ℕ
  pub warn : ℕ
  pub summary : String

pub record Db : Type 0 where
  pub users : List User
  pub sessions : List Session
  pub checks : List CheckRow
  pub meta : List MetaRow
  pub history : List HealthRow
  pub audit : List AuditRow

abbrev pub empty_db : Db
empty_db = record { users = []; sessions = []; checks = []; meta = []; history = []; audit = [] }

pub data StoreError : Type 0 where
  no_user : StoreError
  no_meta : StoreError
  no_row : StoreError
  constraint : StoreError

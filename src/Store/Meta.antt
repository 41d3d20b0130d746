-- ===== src/Store/Meta.antt =====
-- The collected data of store.go: `PutMeta`, `DeleteMeta` and `GetMeta`. The pair of host and kind
-- is the primary key, and `PutMeta` is an upsert.
pub mod Laws
use amarre.Base.{
  ℕ, Bool, true, false, ◌&&◌, String, Option, none, some, List, [], ◌∷◌, if◌then◌else◌, str_eq,
  Time, unix, of_unix, Result, ok, err,
}
use amarre.Store.Tables.{MetaRow, Db, StoreError, no_meta}

abbrev pub is_at : String → String → MetaRow → Bool
is_at host kind r = str_eq r.host host && str_eq r.kind kind

unfoldable pub put_rows : String → String → String → ℕ → List MetaRow → List MetaRow
put_rows host kind payload at [] =
    record { host = host; kind = kind; payload = payload; fetched_at = at } ∷ []
put_rows host kind payload at (r ∷ rs) =
    let rest = put_rows host kind payload at rs in
    if is_at host kind r then record r { payload = payload; fetched_at = at } ∷ rs else r ∷ rest

unfoldable pub put_meta : Db → String → String → String → Time → Db
unfolding put_rows
put_meta db host kind payload now = record db {
  meta = put_rows host kind payload (unix now) db.meta;
}

unfoldable pub delete_meta_rows : String → String → List MetaRow → List MetaRow
delete_meta_rows host kind [] = []
delete_meta_rows host kind (r ∷ rs) =
    let rest = delete_meta_rows host kind rs in if is_at host kind r then rest else r ∷ rest

unfoldable pub delete_meta : Db → String → String → Db
unfolding delete_meta_rows
delete_meta db host kind = record db { meta = delete_meta_rows host kind db.meta }

unfoldable pub find_meta : String → String → List MetaRow → Option MetaRow
find_meta host kind [] = none
find_meta host kind (r ∷ rs) = if is_at host kind r then some r else find_meta host kind rs

-- The payload and the time of its collection.
unfoldable pub get_meta : Db → String → String → Result StoreError (String × Time)
unfolding find_meta
get_meta db host kind = elim (find_meta host kind db.meta) [
  | none ↦ err no_meta
  | some r ↦ ok (r.payload, of_unix r.fetched_at)
]

-- ===== src/Store/Meta/Laws.antt =====
-- What `GetMeta` answers after `PutMeta` and `DeleteMeta`.
use amarre.Base.{
  ℕ, ◌≡◌, ◌&&◌, String, Option, none, some, List, [], ◌∷◌, arith, if◌then◌else◌, str_eq, str_eq_iff,
  Time, unix, of_unix, Result, ok, err,
}
use amarre.Store.Tables.{MetaRow, Db, StoreError, no_meta}
use amarre.Store.Meta.{put_rows, put_meta, delete_meta_rows, delete_meta, find_meta, get_meta}

abbrev payload_of : Option MetaRow → Result StoreError (String × Time)
payload_of none = err no_meta
payload_of (some r) = ok (r.payload, of_unix r.fetched_at)

find_meta-put_rows :
    (host kind payload h k : String) (at : ℕ) (rs : List MetaRow)
    → payload_of (find_meta h k (put_rows host kind payload at rs)) ≡ (
        if str_eq host h && str_eq kind k
        then ok (payload, of_unix at)
        else payload_of (find_meta h k rs))
unfolding find_meta put_rows
find_meta-put_rows host kind payload h k at [] = ground arith
find_meta-put_rows host kind payload h k at (r ∷ rs) = ground (
  arith,
  str_eq_iff r.host host,
  str_eq_iff r.kind kind,
  str_eq_iff r.host h,
  str_eq_iff r.kind k,
  str_eq_iff host h,
  str_eq_iff kind k,
  find_meta-put_rows host kind payload h k at rs,
)

-- What was put last under a host and a kind is what is read, with the second of the collection;
-- the data of every other host or kind is as before.
pub get_meta-put_meta :
    (db : Db) (host kind payload h k : String) (now : Time)
    → get_meta (put_meta db host kind payload now) h k ≡ (
        if str_eq host h && str_eq kind k
        then ok (payload, of_unix (unix now))
        else get_meta db h k)
unfolding get_meta put_meta
get_meta-put_meta db host kind payload h k now =
    ground (arith, find_meta-put_rows host kind payload h k (unix now) db.meta)

find_meta-delete_meta_rows :
    (host kind h k : String) (rs : List MetaRow)
    → find_meta h k (delete_meta_rows host kind rs)
      ≡ (if str_eq host h && str_eq kind k then none else find_meta h k rs)
unfolding find_meta delete_meta_rows
find_meta-delete_meta_rows host kind h k [] = ground arith
find_meta-delete_meta_rows host kind h k (r ∷ rs) = ground (
  arith,
  str_eq_iff r.host host,
  str_eq_iff r.kind kind,
  str_eq_iff r.host h,
  str_eq_iff r.kind k,
  str_eq_iff host h,
  str_eq_iff kind k,
  find_meta-delete_meta_rows host kind h k rs,
)

-- A result that was deleted is gone, and nothing else is.
pub get_meta-delete_meta :
    (db : Db) (host kind h k : String)
    → get_meta (delete_meta db host kind) h k
      ≡ (if str_eq host h && str_eq kind k then err no_meta else get_meta db h k)
unfolding get_meta delete_meta
get_meta-delete_meta db host kind h k =
    ground (arith, find_meta-delete_meta_rows host kind h k db.meta)

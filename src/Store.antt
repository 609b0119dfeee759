-- ===== src/Store.antt =====
-- internal/store: the server's state. A table is the list of its rows in the order of their row
-- ids; each SQL statement is the function of the tables that it denotes.
pub mod Files
mod Tests
pub mod Writers
pub mod Diff
pub mod Tasks
pub mod TrashRows
pub mod Events
pub mod Cycles
use backuper.Prelude.{
  ℕ, zero, suc, List, [], ◌∷◌, ◌++◌, Bool, true, false, Option, none, some, Bytes, utf8, bytes_eq,
  if◌then◌else◌, find_row,
}
use backuper.Prelude.Int.{ℤ}

-- files: relpath is the primary key
pub record FileRow : Type 0 where
  pub relpath : Bytes
  pub relpath_norm : Bytes
  pub size : ℤ
  pub mtime : ℤ
  pub updated_at : ℤ

-- client_files: the client's list, filled anew in each pass
pub record ClientRow : Type 0 where
  pub relpath : Bytes
  pub relpath_norm : Bytes
  pub size : ℤ
  pub mtime : ℤ

pub data Kind : Type 0 where
  download restore : Kind

pub data Status : Type 0 where
  pending in_progress done failed skipped : Status

-- tasks; id is the primary key
pub record Task : Type 0 where
  pub id : ℕ
  pub relpath : Bytes
  pub kind : Kind
  pub size : ℤ
  pub offset : ℤ
  pub status : Status
  pub attempts : ℕ
  pub last_err : Bytes
  pub cycle_id : ℤ
  pub created_at : ℤ
  pub updated_at : ℤ

-- trash; id is the primary key, version 0 is the canonical copy
pub record TrashItem : Type 0 where
  pub id : ℕ
  pub relpath : Bytes
  pub version : ℕ
  pub size : ℤ
  pub trashed_at : ℤ

-- meta: key and value
pub record MetaRow : Type 0 where
  pub key : Bytes
  pub value : Bytes

unfoldable pub get_meta : Bytes → List MetaRow → Option Bytes
get_meta k [] = none
get_meta k (r ∷ rows) = if bytes_eq r.key k then some r.value else get_meta k rows

-- INSERT ... ON CONFLICT(key) DO UPDATE SET value=excluded.value
unfoldable pub set_meta : Bytes → Bytes → List MetaRow → List MetaRow
set_meta k v [] = record { key = k; value = v } ∷ []
set_meta k v (r ∷ rows) =
    if bytes_eq r.key k then record r { value = v } ∷ rows else r ∷ set_meta k v rows

-- `ok && v == "1"`
unfoldable pub is_one : Option Bytes → Bool
is_one none = false
is_one (some v) = bytes_eq v (utf8 "1")

unfoldable pub initialized : List MetaRow → Bool
unfolding get_meta is_one
initialized m = is_one (get_meta (utf8 "initialized") m)

unfoldable pub set_initialized : List MetaRow → List MetaRow
unfolding set_meta
set_initialized m = set_meta (utf8 "initialized") (utf8 "1") m

-- ===== src/Store/Files.antt =====
-- internal/store/store.go and restorequeries.go: the index of the storage, and the client's list.
pub mod Laws
use backuper.Prelude.{
  ℕ, zero, suc, List, [], ◌∷◌, ◌++◌, Bool, true, false, ◌&&◌, ◌||◌, Option, none, some, Bytes,
  bytes_eq, if◌then◌else◌, find_row, where_rows, length, take, exists_row, not,
}
use backuper.Prelude.Int.{ℤ}
use backuper.Protocol.Paths.{has_prefix, slash}
use backuper.Store.{FileRow, ClientRow}

unfoldable pub count_files : List FileRow → ℕ
count_files files = length files

-- WHERE relpath_norm=?
abbrev pub has_norm : Bytes → FileRow → Bool
has_norm norm f = bytes_eq f.relpath_norm norm

unfoldable pub get_file : Bytes → List FileRow → Option FileRow
get_file norm files = find_row (has_norm norm) files

-- INSERT ... ON CONFLICT(relpath) DO UPDATE SET all other columns
unfoldable pub upsert_file : FileRow → List FileRow → List FileRow
upsert_file r [] = r ∷ []
upsert_file r (f ∷ files) =
    if bytes_eq f.relpath r.relpath then r ∷ files else f ∷ upsert_file r files

-- DELETE FROM files WHERE relpath_norm=?
unfoldable pub delete_file_by_norm : Bytes → List FileRow → List FileRow
delete_file_by_norm norm files = where_rows (λ f. not (has_norm norm f)) files

unfoldable pub reset_client_files : List ClientRow → List ClientRow
reset_client_files rows = []

unfoldable pub count_client_files : List ClientRow → ℕ
count_client_files rows = length rows

abbrev pub client_has_norm : Bytes → ClientRow → Bool
client_has_norm norm c = bytes_eq c.relpath_norm norm

-- SELECT mtime FROM client_files WHERE relpath_norm=? LIMIT 1
unfoldable pub client_file_mtime : Bytes → List ClientRow → Option ℤ
client_file_mtime norm rows = elim (find_row (client_has_norm norm) rows) [
  | none ↦ none
  | some c ↦ some c.mtime
]

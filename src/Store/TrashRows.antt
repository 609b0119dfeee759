-- ===== src/Store/TrashRows.antt =====
-- internal/store/trashstore.go: the rows of the trash and their versions.
pub mod Laws
use backuper.Prelude.{
  ℕ, suc, List, [], ◌∷◌, ◌++◌, map, Bool, ◌&&◌, not, Bytes, bytes_eq, if◌then◌else◌, where_rows,
  length, take, ltb, ◌==◌,
}
use backuper.Prelude.Int.{ℤ, ltb_ℤ}
use backuper.Store.{TrashItem}

-- WHERE relpath=? AND version=0
abbrev pub is_canonical : Bytes → TrashItem → Bool
is_canonical relpath t = bytes_eq t.relpath relpath && t.version == 0

unfoldable pub has_canonical_trash : Bytes → List TrashItem → Bool
has_canonical_trash relpath rows = ltb 0 (length (where_rows (is_canonical relpath) rows))

-- SELECT MAX(version) ... WHERE relpath=?, and 0 where there is no row
unfoldable pub max_trash_version : Bytes → List TrashItem → ℕ
max_trash_version relpath [] = 0
max_trash_version relpath (t ∷ ts) =
    let m = max_trash_version relpath ts in
    if bytes_eq t.relpath relpath && ltb m t.version then t.version else m

unfoldable pub bump_canonical_to_version : Bytes → ℕ → List TrashItem → List TrashItem
bump_canonical_to_version relpath new_version rows =
    map (λ t. if is_canonical relpath t then record t { version = new_version } else t) rows

abbrev pub max_trash_id : List TrashItem → ℕ
max_trash_id [] = 0
max_trash_id (t ∷ ts) = let m = max_trash_id ts in if ltb m t.id then t.id else m

unfoldable pub insert_trash : Bytes → ℕ → ℤ → ℤ → List TrashItem → List TrashItem × ℕ
insert_trash relpath version size trashed_at rows =
    let id = suc (max_trash_id rows) in
    (
      rows
          ++ record {
            id = id;
            relpath = relpath;
            version = version;
            size = size;
            trashed_at = trashed_at;
          }
            ∷ [],
      id,
    )

-- WHERE trashed_at<? ORDER BY id LIMIT ?
unfoldable pub select_trash_due : ℤ → ℕ → List TrashItem → List TrashItem
select_trash_due cutoff limit rows = take limit (where_rows (λ t. ltb_ℤ t.trashed_at cutoff) rows)

unfoldable pub delete_trash : ℕ → List TrashItem → List TrashItem
delete_trash id rows = where_rows (λ t. not (t.id == id)) rows

unfoldable pub count_trash : List TrashItem → ℕ
count_trash rows = length rows

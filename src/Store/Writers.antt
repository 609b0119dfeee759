-- ===== src/Store/Writers.antt =====
-- internal/store/store.go: FileWriter and ClientWriter, which insert rows in one transaction after
-- another. The two differ in the row and in the INSERT statement, which are parameters here.
pub mod Laws
use backuper.Prelude.{ℕ, zero, suc, ◌+◌, ◌%◌, List, [], ◌∷◌, ◌++◌, Bool, if◌then◌else◌, ◌==◌}
use backuper.Store.{FileRow, ClientRow}
use backuper.Store.Files.{upsert_file}

-- The table as committed, as the open transaction sees it, and the counters.
pub record Writer {ℓ} (R : Type ℓ) : Type ℓ where
  pub committed : List R
  pub current : List R
  pub n : ℕ
  pub batch : ℕ

unfoldable pub begin_rows {ℓ} : {R : Type ℓ} → List R → Writer R
begin_rows rows = record { committed = rows; current = rows; n = 0; batch = 5000 }

-- Add: the row, and a commit after each full batch
module _ {ℓ} {R : Type ℓ} (insert : R → List R → List R) where
  unfoldable pub add_row : R → Writer R → Writer R
  add_row r w =
      let after = insert r w.current in
      if (w.n + 1) % w.batch == 0
      then record w { committed = after; current = after; n = w.n + 1 }
      else record w { current = after; n = w.n + 1 }

  -- the rows of a loop of Add calls
  unfoldable pub add_rows : List R → Writer R → Writer R
  unfolding add_row
  add_rows [] w = w
  add_rows (r ∷ rs) w = add_rows rs (add_row r w)

-- Commit: the table afterwards
unfoldable pub commit_rows {ℓ} : {R : Type ℓ} → Writer R → List R
commit_rows w = w.current

-- Rollback: what the open transaction has added is lost
unfoldable pub rollback_rows {ℓ} : {R : Type ℓ} → Writer R → List R
rollback_rows w = w.committed

unfoldable pub count_rows {ℓ} : {R : Type ℓ} → Writer R → ℕ
count_rows w = w.n

-- FileWriter.Add and ClientWriter.Add
unfoldable pub add_file_row : FileRow → Writer FileRow → Writer FileRow
unfolding add_row
add_file_row = add_row upsert_file

abbrev pub append_row {ℓ} : {R : Type ℓ} → R → List R → List R
append_row r rows = rows ++ r ∷ []

unfoldable pub add_client_row : ClientRow → Writer ClientRow → Writer ClientRow
unfolding add_row
add_client_row = add_row append_row

-- ===== src/Store/Cycles.antt =====
-- internal/store/cycles.go: the cycles and their statistics.
pub mod Laws
use backuper.Prelude.{
  ℕ, zero, suc, List, [], ◌∷◌, ◌++◌, map, Option, none, some, Bytes, utf8, if◌then◌else◌, ltb, ◌==◌,
  find_row,
}
use backuper.Prelude.Int.{ℤ, pos}

pub record Cycle : Type 0 where
  pub id : ℕ
  pub started_at : ℤ
  pub finished_at : ℤ
  pub status : Bytes
  pub passes_used : ℤ
  pub downloaded_files : ℤ
  pub downloaded_bytes : ℤ
  pub changed_files : ℤ
  pub trashed_files : ℤ
  pub purged_files : ℤ
  pub skipped_files : ℤ
  pub error_summary : Bytes

abbrev pub max_cycle_id : List Cycle → ℕ
max_cycle_id [] = 0
max_cycle_id (c ∷ cs) = let m = max_cycle_id cs in if ltb m c.id then c.id else m

-- A NULL column reads as the zero value (scanCycle), so the row holds zero values from the start.
unfoldable pub create_cycle : ℤ → List Cycle → List Cycle × ℕ
create_cycle started_at cs =
    let id = suc (max_cycle_id cs) in
    (
      cs
          ++ record {
            id = id;
            started_at = started_at;
            finished_at = pos 0;
            status = utf8 "RUNNING";
            passes_used = pos 0;
            downloaded_files = pos 0;
            downloaded_bytes = pos 0;
            changed_files = pos 0;
            trashed_files = pos 0;
            purged_files = pos 0;
            skipped_files = pos 0;
            error_summary = [];
          }
            ∷ [],
      id,
    )

-- UPDATE cycles SET every column but id and started_at WHERE id=?
unfoldable pub finalize_cycle : Cycle → List Cycle → List Cycle
finalize_cycle c rows =
    map (λ r. if r.id == c.id then record c { id = r.id; started_at = r.started_at } else r) rows

unfoldable pub get_cycle : ℕ → List Cycle → Option Cycle
get_cycle id rows = find_row (λ r. r.id == id) rows

-- ORDER BY id DESC LIMIT 1
unfoldable pub get_last_cycle : List Cycle → Option Cycle
unfolding get_cycle
get_last_cycle rows = get_cycle (max_cycle_id rows) rows

-- ===== src/Store/Tasks/Paging.antt =====
-- internal/transfer/transfer.go, RunDownloadQueue: the loop that hands the queue out page by page.
use Prim.Native.Nat.{zero, suc}
use backuper.Prelude.{ℕ, ◌≡◌, ◌<◌, List, [], ◌∷◌, ◌++◌, Bool, ◌&&◌, All, where_rows, ltb}
use backuper.Store.{Task, download}
use backuper.Store.Tasks.{runs_as, list_runnable_tasks_page}

-- `for _, t := range page { afterID = t.ID; ... }`
abbrev pub last_id : ℕ → List Task → ℕ
last_id after [] = after
last_id after (t ∷ ts) = last_id t.id ts

-- An empty page ends the loop.
abbrev pub append_page : List Task → List Task → List Task
append_page [] rest = []
append_page (t ∷ ts) rest = (t ∷ ts) ++ rest

-- The loop over the pages: the tasks that it hands to the workers. `touch after` is what the workers
-- do to the table while the page up to the id `after` is handed out.
module _ (touch : ℕ → List Task → List Task) where
  unfoldable pub hand_out : ℕ → ℕ → ℕ → List Task → List Task
  hand_out zero limit after tasks = []
  hand_out (suc fuel) limit after tasks =
      let page = list_runnable_tasks_page download after limit tasks in
      let after' = last_id after page in
      let rest = hand_out fuel limit after' (touch after' tasks) in append_page page rest

-- The table is in the order of its ids.
abbrev pub Ascending : List Task → Type 0
Ascending [] = Unit
Ascending (t ∷ ts) = All (λ u. t.id < u.id) ts × Ascending ts

abbrev pub above : ℕ → Task → Bool
above after t = ltb after t.id

-- the tasks that are still to be handed out
abbrev remaining : ℕ → List Task → List Task
remaining after tasks = where_rows (λ t. runs_as download t && above after t) tasks

-- What the workers do leaves the tasks above the page alone.
abbrev pub TouchesBelow : (ℕ → List Task → List Task) → Type 0
TouchesBelow touch =
    (after : ℕ) (tasks : List Task)
    → Ascending tasks
    → Ascending (touch after tasks)
      × (where_rows (above after) (touch after tasks) ≡ where_rows (above after) tasks)

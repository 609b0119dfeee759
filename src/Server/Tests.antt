-- ===== src/Server/Tests.antt =====
-- The list of a client with three files in two directories, and of one whose source is not found.
use backuper.Prelude.{
  ◌≡◌, Bool, true, false, if◌then◌else◌, subst, ap, ◌∙◌, ◌≤◌, ◌<◌, ℕ, ◌+◌, refl, some, none, Bytes,
  utf8, bytes_eq, List, [], ◌∷◌, ◌++◌, map, length, All, arith,
}
use backuper.Prelude.Int.{pos}
use backuper.Prelude.Steps.{Done, went, stopped}
use backuper.Protocol.Frame.{eof}
use backuper.Protocol.Messages.Lists.RoundTrip.{FileEntryIsValid}
use backuper.Protocol.Paths.{clean_rel, kind}
use backuper.Store.{FileRow}
use backuper.Store.Diff.{to_candidate, select_trash_batch}
use backuper.Protocol.Messages.Lists.{FileEntry}
use backuper.Client.{ClientConfig, returned, append_message}
use backuper.Client.Scan.{
  ScanConfig, regular, Entry, Directory, Tree, nothing, lost, leaf, node, handle_list, included,
  enters, is_excluded, match_any,
}
use backuper.Client.Scan.Sends.{batch_message, joined_batches, IsBatch, listed, handle_list-sends}
use backuper.Server.Control.{Control, load_list}
use backuper.Server.Control.Loads.{client_rows, loaded, load_list-handle_list}
use backuper.Server.Control.Lost.{no_root, load_list-lost_source}
use backuper.Server.Cycle.{CycleOps, run_cycle}
use backuper.Server.Cycle.Passes.{CountsLists, run_cycle-passes}
use backuper.Server.Cycle.Guarded.{Guards, run_cycle-guarded}

abbrev source : Bytes
source = utf8 "/data"

abbrev client : ClientConfig
client = record { backup_dir = source; chunk_size = 4; cwd = none; join_text = λ e. [] }

-- The masks are names, and a path is its own relative path.
abbrev scan : ScanConfig
scan = record {
  include_masks = [];
  exclude_masks = utf8 "tmp" ∷ [];
  matches = bytes_eq;
  to_rel = λ base p. some p;
}

abbrev file : Bytes → Entry
file name = record {
  path = name;
  name = name;
  entry_type = regular;
  info = some (record { size = 3; mtime = pos 5 });
}

abbrev directory : Bytes → Directory
directory name = record { path = name; name = name; is_readable = true }

abbrev tree : Tree
tree =
    node (directory source)
      (leaf (file (utf8 "a")) (
        node (directory (utf8 "d")) (leaf (file (utf8 "b")) nothing)
          (node (directory (utf8 "tmp")) (leaf (file (utf8 "c")) nothing) nothing)))
      nothing

abbrev trees : Bytes → Tree
trees p = tree

abbrev no_trees : Bytes → Tree
no_trees p = lost p

abbrev control : (Bytes → Tree) → Control
control ts = record {
  incoming = (handle_list append_message client scan ts (record { root = [] }) []).1;
  sent = [];
  client = [];
}

tree-valid : All FileEntryIsValid (listed client scan tree)
unfolding enters included is_excluded match_any bytes_eq clean_rel kind
tree-valid = (
  record { path_fits = omega arith; size_fits = omega arith; mtime_fits = omega arith },
  (record { path_fits = omega arith; size_fits = omega arith; mtime_fits = omega arith }, tt),
)

load_list-handle_list_example : load_list eof none (λ c. c) [] (control trees) ≡ (
  went 2,
  loaded eof
      (λ c. c)
      client
      scan
      (client_rows eof none (λ c. c) (listed client scan tree))
      (control trees),
)
unfolding enters included is_excluded match_any bytes_eq clean_rel kind
load_list-handle_list_example =
    load_list-handle_list eof (λ c. c) client scan trees (control trees) tree-valid refl

abbrev row : FileRow
row = record {
  relpath = utf8 "a";
  relpath_norm = utf8 "a";
  size = pos 3;
  mtime = pos 5;
  updated_at = pos 9;
}

load_list-lost_source_example :
    (handle_list append_message client scan no_trees (record { root = [] }) []
      ≡ (stopped (returned none), batch_message true [] ∷ []))
    × ((load_list eof none (λ c. c) [] (control no_trees)
          ≡ (went 0, loaded eof (λ c. c) client scan [] (control no_trees)))
        × (select_trash_batch 1000 (row ∷ []) [] ≡ to_candidate row ∷ []))
load_list-lost_source_example =
    load_list-lost_source eof (λ c. c) client scan no_trees (control no_trees) 1000 (row ∷ [])
      (no_root source) refl

handle_list-sends_example :
    (batches : List (List FileEntry)) × ((last : List FileEntry) × ((handle_list append_message
            client scan trees
            (record { root = [] })
            []
          ≡ (
            stopped (returned none),
            map (batch_message false) batches ++ batch_message true last ∷ [],
          ))
        × ((joined_batches batches ++ last ≡ listed client scan tree)
            × (All IsBatch batches × (length last < 10000)))))
handle_list-sends_example = handle_list-sends client scan trees

-- A state that says whether a complete list is there, and whether files were moved without one; `works`
-- says whether the list arrives.
abbrev State : Type 0
State = Bool × Bool

abbrev list_result : Bool → State → Done Bytes ℕ × State
list_result true s = (went 3, (true, s.1))
list_result false s = (stopped (utf8 "io"), s)

abbrev ops : Bool → CycleOps State
ops works = record {
  is_cancelled = λ s. false;
  load_list = list_result works;
  list_failed = λ e s. s;
  handle_collisions = λ s. s;
  count_changed = λ s. 1;
  enqueue = λ s. (went 2, s);
  move_deleted = λ s. (1, (false, if s.0 then s.1 else true));
  run_queue = λ s. (0, false, s);
  cleanup = λ s. s;
  count_pending = λ s. 0;
  count_in_progress = λ s. 0;
  clear_queue = λ s. s;
}

abbrev Safe : State → Type 0
Safe s = s.1 ≡ false

abbrev Fresh : State → Type 0
Fresh s = s.0 ≡ true

-- the downloads of a complete list are queued
abbrev Queued : State → Type 0
Queued s = s.0 ≡ true

ops-Guards : Guards (ops true) Safe Fresh Queued
ops-Guards = record {
  list_ok = λ s s' n h runs e. subst (λ q. Safe q.1 × Fresh q.1) e (h, refl);
  list_err = λ s s' t h runs e. subst (λ q. Safe q.1) e h;
  collisions = λ s h. h;
  queue_ok = λ s s' n h e. subst (λ q. Safe q.1 × Queued q.1) e h;
  queue_err = λ s s' t h e. subst (λ q. Safe q.1) e h.0;
  moved = λ s h. ap (λ b. if b then s.1 else true) h.1 ∙ h.0;
  transferred = λ s h. h;
  cleaned = λ s h. h;
  cleared = λ s h. h;
}

run_cycle-guarded_example : (run_cycle (ops true) 3 (false, false)).world.1 ≡ false
run_cycle-guarded_example =
    run_cycle-guarded (ops true) Safe Fresh Queued ops-Guards 3 (false, false) refl

-- a state that counts the lists, with a difference in every pass
abbrev counting : CycleOps ℕ
counting = record {
  is_cancelled = λ s. false;
  load_list = λ s. (went 3, s + 1);
  list_failed = λ e s. s;
  handle_collisions = λ s. s;
  count_changed = λ s. 1;
  enqueue = λ s. (went 2, s);
  move_deleted = λ s. (1, s);
  run_queue = λ s. (0, false, s);
  cleanup = λ s. s;
  count_pending = λ s. 0;
  count_in_progress = λ s. 0;
  clear_queue = λ s. s;
}

abbrev lists : ℕ → ℕ
lists s = s

counting-CountsLists : CountsLists counting lists
counting-CountsLists = record {
  list_counts = λ s. omega arith;
  failed_same = λ s e. omega arith;
  collisions_same = λ s. omega arith;
  queue_same = λ s. omega arith;
  moves_same = λ s. omega arith;
  transfer_same = λ s. omega arith;
  cleanup_same = λ s. omega arith;
  clear_same = λ s. omega arith;
}

run_cycle-passes_example :
    (lists (run_cycle counting 3 0).world ≤ 3) × ((run_cycle counting 3 0).passes ≤ 3)
run_cycle-passes_example = run_cycle-passes counting lists counting-CountsLists 3 0
